-- ===== src/Fat/Write.antt =====
-- fat.c, fat_fwrite and the position of a file.
pub mod Cluster
pub mod Loop
pub mod Content
pub mod Bytes
pub mod RoundTrip
pub mod Free
mod Tests
use neos.Base.{
  ℕ, zero, suc, Option, none, some, Bool, ◌==◌, ◌||◌, ◌&&◌, ltb, leb, if◌then◌else◌, ◌+◌, ◌*◌, ◌%◌,
  ◌^◌,
}
use neos.Memory.{Mem}
use neos.Fat.{
  Bpb, Disk, add32, sub32, mul32, get32, bytes32, write_func, read_fat_entry_cached, read_fat_entry,
  write_fat_entry, invalidate_cache, bad_cluster, is_last, low28,
}
use neos.Fat.Chain.{fat_file_cluster_count}
use neos.Fat.Read.{cluster_size, cluster_start}
use neos.Fat.Clear.{fat_clear_cluster}

-- The fields of a `fat_FILE` that `fat_fwrite` uses; `fat_dir` has the 32 bytes of the entry.
pub record OpenFile : Type 0 where
  pub fat_dir : Mem
  pub entry_position : ℕ
  pub first_parent_cluster : ℕ
  pub cursor : ℕ

-- `DIR_FstClusLO` and `DIR_FileSize`
abbrev pub fst_clus_lo : Mem → ℕ
fst_clus_lo dir = dir 26 + 256 * dir 27

abbrev pub file_size : Mem → ℕ
file_size dir = get32 dir 28

-- The entry with another size, and `fat_file_default`'s with a first cluster.
abbrev pub set_file_size : ℕ → Mem → Mem
set_file_size size = write_func (bytes32 size) 28 4

-- `fat_file_default`, and the assignment of `DIR_FstClusLO`, an `unsigned short`.
pub fat_file_default : (cluster : ℕ) → OpenFile
fat_file_default cluster = record {
  fat_dir = write_func (bytes32 (cluster % 65536)) 26 2 (λ i. 0);
  entry_position = 0;
  first_parent_cluster = 0;
  cursor = 0;
}

-- The search for a free cluster, on fuel: `none` inside is that there is none.
pub free_loop : ℕ → (free_cluster disk_size : ℕ) → Disk → Option (Option ℕ × Disk)
free_loop zero free_cluster disk_size disk = none
free_loop (suc f) free_cluster disk_size disk =
    let (value, loaded) = read_fat_entry_cached free_cluster disk in
    let next = add32 free_cluster 1 in
    let rest = free_loop f next disk_size loaded in
    if value == 0
    then some (some free_cluster, loaded)
    else if leb disk_size (mul32 next disk.bpb.sec_per_clus)
    then some (none, loaded)
    else rest

abbrev pub disk_size : Bpb → ℕ
disk_size bpb = if bpb.tot_sec32 == 0 then bpb.tot_sec16 else bpb.tot_sec32

-- The entry of the current cluster is written, and the next cluster is cleared.
pub new_end : (cluster next : ℕ) → Disk → Disk
new_end cluster next disk = fat_clear_cluster next (write_fat_entry cluster next disk)

-- `next_cluster` for a cluster that is free or the last one; `fits` is that the data end in it.
pub next_of_last : ℕ → (cluster next : ℕ) (fits : Bool) → Disk → Option (Option ℕ × Disk)
next_of_last fuel cluster next fits disk =
    if fits
    then (if next == 0x0FFFFFFF
        then some (some next, disk)
        else some (some 0x0FFFFFFF, new_end cluster 0x0FFFFFFF disk))
    else elim (free_loop fuel (add32 cluster 1) (disk_size disk.bpb) (invalidate_cache disk)) [
      | none ↦ none
      | some (none, disk') ↦ some (none, disk')
      | some (some free, disk') ↦ some (some free, new_end cluster free disk')
    ]

-- `bytes_to_write` and `dst_write_offset` for a cluster of `size` bytes that starts at `start`,
-- where `offset` is `cluster_write_data_offset` with the cluster counted.
pub write_part : (size start cursor data_size offset total : ℕ) → ℕ × ℕ
write_part size start cursor data_size offset total =
    let bytes = if ltb (add32 size total) data_size then size else sub32 data_size total in
    let skip = sub32 size (sub32 offset cursor) in
    let trimmed =
      if ltb size (add32 bytes skip) then sub32 bytes (sub32 (add32 bytes skip) size) else bytes in
    if leb (sub32 offset cursor) size then (trimmed, add32 start skip) else (bytes, start)

-- The body of `if (cluster_write_data_offset > file->cursor)`: `write_total_bytes` and the disk.
pub write_cluster :
    (cluster offset data_size cursor : ℕ) (data_in : Mem) (total : ℕ) → Disk → ℕ × Disk
write_cluster cluster offset data_size cursor data_in total disk =
    let start = cluster_start disk.bpb cluster in
    let part = write_part (cluster_size disk.bpb) start cursor data_size offset total in
    if ltb cursor offset
    then (
      add32 total part.0,
      record disk { image = write_func (λ i. data_in (total + i)) part.1 part.0 disk.image },
    )
    else (total, disk)

-- How the loop ends: without a free cluster the call returns 0 at once.
pub data Written : Type 0 where
  no_space : (disk : Disk) → Written
  done : (total : ℕ) (disk : Disk) → Written

module _ (fuel data_size cursor : ℕ) (data_in : Mem) where
  -- The loop on fuel, with `current_file_cluster`, `cluster_write_data_offset` and
  -- `write_total_bytes`; the fuel of the section is that of each search.
  pub fwrite_loop : ℕ → (cluster offset total : ℕ) → Disk → Option Written
  fwrite_loop zero cluster offset total disk = none
  fwrite_loop (suc f) cluster offset total disk =
      let next = read_fat_entry cluster disk in
      let size = cluster_size disk.bpb in
      let fits = leb (add32 cursor data_size) (add32 offset size) in
      let offset' = add32 offset size in
      let inner = write_cluster cluster offset' data_size cursor data_in total disk in
      let rest = fwrite_loop f (low28 next) offset' inner.0 inner.1 in
      if ltb cluster 2
      then some (done total disk)
      else if next == bad_cluster
      then some (done total disk)
      else if (next == 0) || is_last next
      then elim (next_of_last fuel cluster next fits disk) [
        | none ↦ none
        | some (none, disk') ↦ some (no_space disk')
        | some (some next', disk') ↦
            let out = write_cluster cluster offset' data_size cursor data_in total disk' in
            let rest' = fwrite_loop f (low28 next') offset' out.0 out.1 in
            if is_last next' || (next' == 0xFFFFFFFF) then some (done out.0 out.1) else rest'
      ]
      else if next == 0xFFFFFFFF
      then some (done inner.0 inner.1)
      else rest

-- The call up to `fat_update_entry`: what it returns, the file and the disk.
pub fwrite_data : ℕ → (data_size : ℕ) → Mem → OpenFile → Disk → Option (ℕ × OpenFile × Disk)
fwrite_data fuel data_size data_in file disk =
    elim (fwrite_loop fuel data_size file.cursor data_in fuel (fst_clus_lo file.fat_dir) 0 0 disk) [
      | none ↦ none
      | some (no_space disk') ↦ some (0, file, disk')
      | some (done total disk') ↦
          let cursor = add32 file.cursor total in
          some (
            1,
            record file {
              cursor = cursor;
              fat_dir =
                  if ltb (file_size file.fat_dir) cursor
                  then set_file_size cursor file.fat_dir
                  else file.fat_dir;
            },
            disk',
          )
    ]

-- The directory is a file whose size is that of its clusters, and whose own entry is not updated.
pub fat_update_entry : ℕ → OpenFile → Disk → Option Disk
fat_update_entry fuel dir disk =
    if ltb dir.first_parent_cluster 2
    then some disk
    else elim (fat_file_cluster_count fuel (dir.first_parent_cluster % 65536) disk) [
      | none ↦ none
      | some (count, disk') ↦
          let parent = fat_file_default dir.first_parent_cluster in
          let size = mul32 (mul32 count disk.bpb.sec_per_clus) disk.bpb.byts_per_sec in
          elim (fwrite_data fuel 32 dir.fat_dir
            (record parent {
              fat_dir = set_file_size size parent.fat_dir;
              cursor = dir.entry_position;
            })
            disk') [ none ↦ none | some (result, parent', disk'') ↦ some disk'' ]
    ]

-- What the call returns, the file and the disk.
pub fat_fwrite :
    ℕ → (element_size element_count : ℕ) → Mem → OpenFile → Disk → Option (ℕ × OpenFile × Disk)
fat_fwrite fuel element_size element_count data_in file disk =
    elim (fwrite_data fuel (mul32 element_size element_count) data_in file disk) [
      | none ↦ none
      | some (result, file', disk') ↦
          if ltb (file_size file.fat_dir) file'.cursor && (result == 1)
          then elim (fat_update_entry fuel file' disk') [
            | none ↦ none
            | some disk'' ↦ some (result, file', disk'')
          ]
          else some (result, file', disk')
    ]

-- `fat_SEEK_SET`, `fat_SEEK_CUR` and `fat_SEEK_END`; the offset is taken as a word.
pub data Origin : Type 0 where
  seek_set seek_cur seek_end other : Origin

pub fat_fseek : OpenFile → (offset : ℕ) → Origin → ℕ × OpenFile
fat_fseek file offset seek_set = (1, record file { cursor = offset })
fat_fseek file offset seek_cur = (1, record file { cursor = add32 file.cursor offset })
fat_fseek file offset seek_end = (1, record file { cursor = add32 (file_size file.fat_dir) offset })
fat_fseek file offset other = (1, file)

pub fat_dirseek : OpenFile → (offset : ℕ) → Origin → ℕ × OpenFile
fat_dirseek dir offset seek_set = (1, record dir { cursor = offset })
fat_dirseek dir offset seek_cur = (1, record dir { cursor = add32 dir.cursor offset })
fat_dirseek dir offset seek_end = (0, dir)
fat_dirseek dir offset other = (1, dir)

pub fat_ftell : OpenFile → ℕ
fat_ftell file = file.cursor
