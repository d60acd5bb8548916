-- ===== src/Fat/Read/Bytes.antt =====
-- fat.c, fat_fread: what a call delivers, and what it asks the disk for past the end of the file.
use neos.Base.{ℕ, ◌+◌, ◌^◌, ◌≤◌, ◌<◌, ◌≡◌, List, arith, ltb, some, length, if◌then◌else◌, ap, sym}
use mathlib.Core.Path.{subst}
use neos.Memory.{Mem}
use neos.Fat.{Disk, mul32, read_fat_entry, invalidate_cache}
use neos.Fat.Entry.{
  IsGeometry, SameDisk, invalidate_cache-SameDisk, SameDisk-trans, same_entries, same-IsGeometry,
}
use neos.Fat.Chain.{Chain, Chain-agree}
use neos.Fat.Read.{File, Out, fat_fread, fread_loop, cluster_size}
use neos.Fat.Read.Part.{taken}
use neos.Fat.Read.Content.{IsData, byte_at, Fits}
use neos.Fat.Read.Content.Loop.{fread_loop-Followed, same-IsData, byte_at-same}

fat_fread-loop :
    (f element_size element_count m : ℕ) (data_out : Mem) (file : File) (disk d' : Disk) (out : Out)
    → fread_loop f
        (mul32 element_size element_count)
        file
        file.fst_clus_lo
        0
        (record { total = 0; buffer = data_out })
        (invalidate_cache disk)
      ≡ some (out, d')
    → out.total ≡ m
    → file.cursor + m < 2 ^ 32
    → fat_fread f element_size element_count data_out file disk
      ≡ some (out.buffer, record file { cursor = file.cursor + m }, d')
unfolding fat_fread
fat_fread-loop f element_size element_count m data_out file disk d' out found total low =
    rw (fat_fread, found)
      (ap (λ (x : ℕ). some (out.buffer, record file { cursor = x }, d')) (omega (arith, total)))

module _ (n f element_size element_count : ℕ) (cs : List ℕ) (data_out : Mem) (file : File)
    (disk : Disk) (table : IsGeometry disk.bpb n) (area : IsData disk.bpb n)
    (chain : Chain n (λ c. read_fat_entry c disk) file.fst_clus_lo cs)
    (fits : Fits (cluster_size disk.bpb) file.file_size 0 cs) (enough : length cs ≤ f)
    (small : file.file_size + 65536 < 2 ^ 32) (inside : file.cursor ≤ file.file_size) where
  -- The disk has sectors of 512 bytes and clusters of at most 64 KiB, and its tables and data lie
  -- below 2 ^ 32. A file of less than 2 ^ 32 - 65536 bytes has the chain of clusters `cs` and
  -- reaches into the last of them, the cursor is not past its end, and there is as much fuel as
  -- clusters. Then fat_fread delivers the bytes of the file from the cursor on, as many as were
  -- asked for or as there are. It leaves the rest of the buffer alone, moves the cursor by that
  -- number, and changes nothing of the disk but the sector cache.
  pub fat_fread-bytes :
      (let m = taken (mul32 element_size element_count) file.cursor file.file_size in
        (out : Mem) × (disk' : Disk) × (fat_fread f element_size element_count data_out file disk
          ≡ some (out, record file { cursor = file.cursor + m }, disk'))
        × SameDisk disk disk'
        × ((k : ℕ) → out k ≡ (if ltb k m then byte_at disk cs (file.cursor + k) else data_out k)))
  fat_fread-bytes =
      let data_size = mul32 element_size element_count in
      let m = taken data_size file.cursor file.file_size in
      let same = invalidate_cache-SameDisk disk in
      let start : Out = record { total = 0; buffer = data_out } in
      let (out, disk', found, same', took) =
        fread_loop-Followed n data_size file (omega arith) small inside f file.fst_clus_lo 0 cs
          start (invalidate_cache disk) (same-IsGeometry same table) (same-IsData same area)
          same.coherent (Chain-agree n _ _ _ cs chain (λ y lt h. same_entries same y))
          (subst (λ b. Fits (cluster_size b) file.file_size 0 cs) (sym same.bpb) fits) enough
          (ground arith) in
      (
        out.buffer,
        disk',
        fat_fread-loop f element_size element_count m data_out file disk disk' out found took.total
            (ground arith),
        SameDisk-trans same same',
        λ k. ground (arith, took.bytes k, took.total, byte_at-same cs same (file.cursor + k)),
      )
