-- ===== src/Fat/Write/RoundTrip.antt =====
-- fat.c: what fat_fwrite has written, fat_fread delivers.
use neos.Base.{
  ℕ, ◌+◌, ◌^◌, ◌≤◌, ◌<◌, ◌≡◌, ◌⊎◌, List, arith, some, sym, length, ◌∙◌, ap, le→leb, lt→ltb,
}
use mathlib.Core.Path.{subst}
use neos.Memory.{Mem}
use neos.Fat.{Disk, mul32, read_fat_entry}
use neos.Fat.Entry.{IsGeometry}
use neos.Fat.Chain.{Chain, Chain-agree}
use neos.Fat.Read.{File, fat_fread, cluster_size}
use neos.Fat.Read.Part.{taken}
use neos.Fat.Read.Content.{IsData, Fits}
use neos.Fat.Read.Bytes.{fat_fread-bytes}
use neos.Fat.Write.{OpenFile, fst_clus_lo, file_size, fat_fwrite}
use neos.Fat.Write.Loop.{span, IsMarked}
use neos.Fat.Write.Bytes.{moved, fat_fwrite-bytes}

all_taken : (d c r : ℕ) → c + d ≤ r → taken d c r ≡ d
all_taken d c r h = ground arith

-- `fat_fread`'s view of a file of a given size at a position.
abbrev pub read_view : OpenFile → (size cursor : ℕ) → File
read_view file size cursor = record {
  fst_clus_lo = fst_clus_lo file.fat_dir;
  file_size = size;
  cursor = cursor;
}

module _ (n f element_size element_count size : ℕ) (cs : List ℕ) (data_in data_out : Mem)
    (file : OpenFile) (disk : Disk) (table : IsGeometry disk.bpb n) (area : IsData disk.bpb n)
    (fats : 1 ≤ disk.bpb.num_fats)
    (chain : Chain n (λ c. read_fat_entry c disk) (fst_clus_lo file.fat_dir) cs)
    (mark : IsMarked n disk cs) (enough : length cs ≤ f)
    (room : file.cursor + mul32 element_size element_count ≤ span (cluster_size disk.bpb) cs)
    (low : span (cluster_size disk.bpb) cs + 131072 < 2 ^ 32)
    (alone : (file.cursor + mul32 element_size element_count ≤ file_size file.fat_dir)
      ⊎ (file.first_parent_cluster < 2))
    (fits : Fits (cluster_size disk.bpb) size 0 cs) (small : size + 65536 < 2 ^ 32)
    (inside : file.cursor + mul32 element_size element_count ≤ size) where
  -- Under the conditions of a write that needs no other cluster and no directory entry, with the
  -- file of `size` bytes reaching into the last of its clusters and the data within it: when
  -- fat_fwrite has written and the file is set back to the position of the write, fat_fread of as
  -- much returns with the data in the buffer, and the cursor where the write left it.
  pub fat_fread-fat_fwrite :
      (let data_size = mul32 element_size element_count in
        (disk' : Disk) × (fat_fwrite f element_size element_count data_in file disk
          ≡ some (1, moved file (file.cursor + data_size), disk'))
        × (out : Mem) × (disk'' : Disk) × (fat_fread f element_size element_count data_out
              (read_view file size file.cursor)
              disk'
            ≡ some (out, read_view file size (file.cursor + data_size), disk''))
        × ((k : ℕ) → k < data_size → out k ≡ data_in k))
  fat_fread-fat_fwrite =
      let data_size = mul32 element_size element_count in
      let cursor = file.cursor in
      let view = read_view file size cursor in
      let (disk', written, same, bytes, entries, outside) =
        fat_fwrite-bytes n f element_size element_count cs data_in file disk table area fats chain
          mark enough room low alone in
      let whole = all_taken data_size cursor size inside in
      let (out, disk'', read, same', got) =
        fat_fread-bytes n f element_size element_count cs data_out view disk'
          (subst (λ b. IsGeometry b n) (sym same) table) (subst (λ b. IsData b n) (sym same) area)
          (Chain-agree n _ _ _ cs chain (λ y h m. entries y h))
          (subst (λ b. Fits (cluster_size b) size 0 cs) (sym same) fits) enough small
          (omega arith) in
      (
        disk',
        written,
        out,
        disk'',
        read ∙ ap (λ (x : ℕ). some (out, read_view file size (cursor + x), disk'')) whole,
        λ k h.
            got k
            ∙ rw
                (
                  whole,
                  lt→ltb k data_size h,
                  bytes (cursor + k) (omega arith),
                  le→leb cursor (cursor + k) (omega arith),
                  lt→ltb (cursor + k) (cursor + data_size) (omega arith),
                )
                (ap data_in (omega arith)),
      )
