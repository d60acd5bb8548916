-- ===== src/Fat/Write/Bytes.antt =====
-- fat.c, fat_fwrite: what a call writes to a file that has room for it, and what fat_fread makes of
-- it.
use neos.Base.{
  ℕ, ◌+◌, ◌-◌, ◌^◌, ◌≤◌, ◌<◌, ◌≡◌, ◌⊎◌, refl, List, arith, true, ltb, leb, ◌&&◌, some, sym, length,
  inl, inr, ◌∙◌, ap, if◌then◌else◌, Bool-cases, le→ltb, lt→ltb,
}
use neos.Memory.{Mem}
use neos.Fat.{Disk, mul32, fat_entry, read_fat_entry}
use neos.Fat.Entry.{IsGeometry, fat_entry_lem, get32-agree}
use neos.Fat.Chain.{Chain, member}
use neos.Fat.Read.{cluster_size, cluster_start}
use neos.Fat.Read.Part.{taken}
use neos.Fat.Read.Content.{IsData, cluster_start_lem, byte_at}
use neos.Fat.Write.{
  OpenFile, fst_clus_lo, file_size, set_file_size, done, fwrite_loop, fwrite_data, fat_update_entry,
  fat_fwrite,
}
use neos.Fat.Write.Cluster.{on_disk}
use neos.Fat.Write.Loop.{span, patched_all, IsMarked, fwrite_loop-Done, mul_le}
use neos.Fat.Write.Content.{
  Apart, Chain-Apart, member-Apart, patched_all-outside, byte_at-patched_all,
}

-- The tables are not written.
read_fat_entry-patched_all :
    (n y cursor data_size : ℕ) (data_in : Mem) (cs : List ℕ) (d : Disk)
    → IsGeometry d.bpb n
    → IsData d.bpb n
    → 1 ≤ d.bpb.num_fats
    → Apart n cs
    → y < n
    → read_fat_entry y (on_disk (patched_all d.bpb cursor data_size data_in cs 0 d.image) d)
      ≡ read_fat_entry y d
unfolding read_fat_entry
read_fat_entry-patched_all n y cursor data_size data_in cs d g area fats apart h =
    let at = fat_entry_lem d.bpb n y g h in
    let tables = mul_le d.bpb.num_fats d.bpb.fat_sz32 fats in
    let entry = fat_entry d.bpb y in
    let image = patched_all d.bpb cursor data_size data_in cs 0 d.image in
    get32-agree image d.image entry entry λ i few.
      patched_all-outside d n cursor data_size data_in area cs 0 (entry + i) d.image λ x m.
        let (two, lt) = member-Apart x cs apart m in
        let start = (cluster_start_lem d.bpb n x area two lt).0 in
        inl (omega (arith, at, start, tables, g.room))

taken_0 : (d c : ℕ) → taken d c 0 ≡ 0
taken_0 d c = ground arith

-- The file with its cursor moved and its size grown.
abbrev pub moved : OpenFile → (cursor : ℕ) → OpenFile
moved file cursor = record file {
  cursor = cursor;
  fat_dir =
      if ltb (file_size file.fat_dir) cursor
      then set_file_size cursor file.fat_dir
      else file.fat_dir;
}

fwrite_data-loop :
    (f data_size m : ℕ) (data_in : Mem) (file : OpenFile) (disk d' : Disk)
    → fwrite_loop f data_size file.cursor data_in f (fst_clus_lo file.fat_dir) 0 0 disk
      ≡ some (done m d')
    → file.cursor + m < 2 ^ 32
    → fwrite_data f data_size data_in file disk ≡ some (1, moved file (file.cursor + m), d')
unfolding fwrite_data
fwrite_data-loop f data_size m data_in file disk d' found low =
    rw (fwrite_data, found) (ap (λ (x : ℕ). some (1, moved file x, d')) (omega (arith, low)))

fat_update_entry-orphan :
    (f : ℕ) (file : OpenFile) (disk : Disk)
    → file.first_parent_cluster < 2
    → fat_update_entry f file disk ≡ some disk
unfolding fat_update_entry
fat_update_entry-orphan f file disk orphan = rw (lt→ltb file.first_parent_cluster 2 orphan) refl

fat_fwrite-data :
    (f element_size element_count : ℕ) (data_in : Mem) (file file' : OpenFile) (disk d' : Disk)
    → fwrite_data f (mul32 element_size element_count) data_in file disk ≡ some (1, file', d')
    → (file'.cursor ≤ file_size file.fat_dir) ⊎ (file'.first_parent_cluster < 2)
    → fat_fwrite f element_size element_count data_in file disk ≡ some (1, file', d')
unfolding fat_fwrite
fat_fwrite-data f element_size element_count data_in file file' disk d' found (inl inside) =
    rw (fat_fwrite, found, le→ltb (file_size file.fat_dir) file'.cursor inside) refl
fat_fwrite-data f element_size element_count data_in file file' disk d' found (inr orphan) =
    elim (Bool-cases (ltb (file_size file.fat_dir) file'.cursor)) [
      | inl more ↦ rw (fat_fwrite, found, more, fat_update_entry-orphan f file' d' orphan) refl
      | inr less ↦ rw (fat_fwrite, found, less) refl
    ]

module _ (n f element_size element_count : ℕ) (cs : List ℕ) (data_in : Mem) (file : OpenFile)
    (disk : Disk) (table : IsGeometry disk.bpb n) (area : IsData disk.bpb n)
    (fats : 1 ≤ disk.bpb.num_fats)
    (chain : Chain n (λ c. read_fat_entry c disk) (fst_clus_lo file.fat_dir) cs)
    (mark : IsMarked n disk cs) (enough : length cs ≤ f)
    (room : file.cursor + mul32 element_size element_count ≤ span (cluster_size disk.bpb) cs)
    (low : span (cluster_size disk.bpb) cs + 131072 < 2 ^ 32)
    (alone : (file.cursor + mul32 element_size element_count ≤ file_size file.fat_dir)
      ⊎ (file.first_parent_cluster < 2)) where
  -- The disk has sectors of 512 bytes and clusters of at most 64 KiB, and its tables and data lie
  -- below 2 ^ 32. The file has the chain of clusters `cs`, which ends with the mark 0x0FFFFFFF and
  -- in which the data have room from the cursor on, and there is as much fuel as clusters. Its
  -- directory entry need not be written: it does not grow, or has no directory. Then fat_fwrite
  -- returns 1 with the cursor behind the data, and the size, if that was less, the cursor. In the
  -- clusters, the file has the data from the old cursor on and elsewhere what it had. No entry of
  -- the table changes, nor any byte of the disk outside the clusters.
  pub fat_fwrite-bytes :
      (let data_size = mul32 element_size element_count in
        (disk' : Disk) × (fat_fwrite f element_size element_count data_in file disk
          ≡ some (1, moved file (file.cursor + data_size), disk'))
        × (disk'.bpb ≡ disk.bpb)
        × ((p : ℕ)
            → p < span (cluster_size disk.bpb) cs
            → byte_at disk' cs p ≡ (
                if leb file.cursor p && ltb p (file.cursor + data_size)
                then data_in (p - file.cursor)
                else byte_at disk cs p))
        × ((y : ℕ) → y < n → read_fat_entry y disk' ≡ read_fat_entry y disk)
        × ((a : ℕ)
            → ((x : ℕ)
                → member x cs ≡ true
                → (a < cluster_start disk.bpb x)
                  ⊎ (cluster_start disk.bpb x + cluster_size disk.bpb ≤ a))
            → disk'.image a ≡ disk.image a))
  fat_fwrite-bytes =
      let data_size = mul32 element_size element_count in
      let cursor = file.cursor in
      let apart = Chain-Apart (fst_clus_lo file.fat_dir) cs chain in
      let whole : taken data_size cursor (span (cluster_size disk.bpb) cs) ≡ data_size =
        ground arith in
      let d' = on_disk (patched_all disk.bpb cursor data_size data_in cs 0 disk.image) disk in
      let start =
        ap (λ (x : ℕ). fwrite_loop f data_size cursor data_in f (fst_clus_lo file.fat_dir) 0 x disk)
          (sym (taken_0 data_size cursor)) in
      let loop =
        fwrite_loop-Done f data_size cursor n data_in (omega arith) f (fst_clus_lo file.fat_dir) 0
          cs disk table area fats chain mark enough (omega arith) (omega arith) in
      (
        d',
        fat_fwrite-data f element_size element_count data_in file (moved file (cursor + data_size))
            disk d'
            (fwrite_data-loop f data_size data_size data_in file disk d'
              (start
                ∙ loop
                ∙ ap (λ (x : ℕ). some (done x d'))
                    (ap (taken data_size cursor) (omega arith) ∙ whole))
              (omega arith))
            alone,
        refl,
        (λ p h.
            byte_at-patched_all disk n cursor data_size data_in area cs 0 p disk.image apart h
            ∙ ap
                (λ (x : ℕ).
                  if leb cursor x && ltb x (cursor + data_size)
                  then data_in (x - cursor)
                  else byte_at disk cs p)
                (omega arith)),
        (λ y h.
            read_fat_entry-patched_all n y cursor data_size data_in cs disk table area fats apart
              h),
        λ a h. patched_all-outside disk n cursor data_size data_in area cs 0 a disk.image h,
      )
