-- ===== src/Fat/Read.antt =====
-- fat.c, fat_fread.
pub mod Part
pub mod Content
pub mod Bytes
mod Tests
use neos.Base.{
  ℕ, zero, suc, ◌≡◌, Option, none, some, ◌==◌, ltb, leb, if◌then◌else◌, List, [], ◌∷◌, ◌+◌, ◌-◌,
}
use neos.Memory.{Mem}
use neos.Fat.{
  Bpb, Disk, add32, sub32, mul32, read_func, read_fat_entry_cached, invalidate_cache, bad_cluster,
  is_last, low28,
}

-- The fields of a `fat_FILE` that `fat_fread` uses.
pub record File : Type 0 where
  pub fst_clus_lo : ℕ
  pub file_size : ℕ
  pub cursor : ℕ

unfoldable pub cluster_size : Bpb → ℕ
cluster_size bpb = mul32 bpb.sec_per_clus bpb.byts_per_sec

-- `cluster_offset * BPB_BytsPerSec`
unfoldable pub cluster_start : Bpb → ℕ → ℕ
cluster_start bpb cluster =
    let first_data_sector = add32 bpb.rsvd_sec_cnt (mul32 bpb.num_fats bpb.fat_sz32) in
    mul32 (add32 first_data_sector (mul32 (sub32 cluster 2) bpb.sec_per_clus)) bpb.byts_per_sec

-- `bytes_to_read` and `src_read_offset` for a cluster of `size` bytes that starts at `start`, where
-- `offset` is `cluster_read_data_offset` with the cluster counted.
unfoldable pub read_part : (size start : ℕ) (file : File) (data_size offset total : ℕ) → ℕ × ℕ
read_part size start file data_size offset total =
    let part_size =
      if ltb file.file_size offset then sub32 size (sub32 offset file.file_size) else size in
    let bytes =
      if ltb (add32 part_size total) data_size then part_size else sub32 data_size total in
    let skip = sub32 size (sub32 offset file.cursor) in
    let trimmed =
      if ltb part_size (add32 bytes skip)
      then sub32 bytes (sub32 (add32 bytes skip) part_size)
      else bytes in
    if leb (sub32 offset file.cursor) size then (trimmed, add32 start skip) else (bytes, start)

-- What the loop keeps: `read_total_bytes` and the buffer.
pub record Out : Type 0 where
  pub total : ℕ
  pub buffer : Mem

-- The body of `if (cluster_read_data_offset > file->cursor)`.
pub read_cluster : (cluster offset data_size : ℕ) → File → Disk → Out → Out
read_cluster cluster offset data_size file disk out =
    let start = cluster_start disk.bpb cluster in
    let part = read_part (cluster_size disk.bpb) start file data_size offset out.total in
    if ltb file.cursor offset
    then record {
      total = add32 out.total part.0;
      buffer =
          if ltb 0 part.0
          then read_func disk.image part.1 part.0 out.total out.buffer
          else out.buffer;
    }
    else out

-- The loop on fuel, with `current_file_cluster` and `cluster_read_data_offset`.
pub fread_loop :
    ℕ → (data_size : ℕ) → File → (cluster offset : ℕ) → Out → Disk → Option (Out × Disk)
fread_loop zero data_size file cluster offset out disk = none
fread_loop (suc f) data_size file cluster offset out disk =
    let (next, loaded) = read_fat_entry_cached cluster disk in
    let offset' = add32 offset (cluster_size disk.bpb) in
    let out' = read_cluster cluster offset' data_size file loaded out in
    let rest = fread_loop f data_size file (low28 next) offset' out' loaded in
    if ltb cluster 2
    then some (out, disk)
    else if next == 0
    then some (out, loaded)
    else if next == bad_cluster
    then some (out, loaded)
    else if is_last next
    then some (out', loaded)
    else if next == 0xFFFFFFFF
    then some (out', loaded)
    else rest

-- The buffer, the file with its cursor moved, and the disk with its cache.
pub fat_fread :
    ℕ → (element_size element_count : ℕ) → Mem → File → Disk → Option (Mem × File × Disk)
fat_fread fuel element_size element_count data_out file disk =
    elim (fread_loop fuel (mul32 element_size element_count) file file.fst_clus_lo 0
      (record { total = 0; buffer = data_out }) (invalidate_cache disk)) [
        | none ↦ none
        | some (out, disk') ↦
            some (out.buffer, record file { cursor = add32 file.cursor out.total }, disk')
      ]
