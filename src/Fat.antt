-- ===== src/Fat.antt =====
-- fat.h and fat.c: the disk, and the entries of the file allocation table.
pub mod Entry
pub mod Chain
pub mod Read
pub mod Clear
pub mod Names
pub mod Write
use neos.Base.{
  ℕ, suc, ◌+◌, ◌-◌, ◌*◌, ◌/◌, ◌%◌, ◌^◌, Bool, true, false, ◌&&◌, ◌==◌, ltb, leb, if◌then◌else◌,
}
use neos.Memory.{Mem}

-- `unsigned int` arithmetic
abbrev pub add32 : ℕ → ℕ → ℕ
add32 a b = (a + b) % 2 ^ 32

abbrev pub sub32 : ℕ → ℕ → ℕ
sub32 a b = (a + 2 ^ 32 - b) % 2 ^ 32

abbrev pub mul32 : ℕ → ℕ → ℕ
mul32 a b = (a * b) % 2 ^ 32

-- The fields of `fat_bpb` that the code computes with.
pub record Bpb : Type 0 where
  pub byts_per_sec : ℕ
  pub sec_per_clus : ℕ
  pub rsvd_sec_cnt : ℕ
  pub num_fats : ℕ
  pub tot_sec16 : ℕ
  pub tot_sec32 : ℕ
  pub fat_sz32 : ℕ
  pub root_clus : ℕ

-- `fat_DISK` with the bytes of the disk, and the two globals of the sector cache. (The C code has
-- one cache for all disks; the kernel has one disk.)
pub record Disk : Type 0 where
  pub bpb : Bpb
  pub image : Mem
  pub cache : Mem
  pub cache_sector : ℕ

-- The access functions as fat.h documents them: `size` bytes at `offset` of the disk are stored at
-- index `to` of the buffer, or taken from its start.
abbrev pub read_func : (image : Mem) (offset size to : ℕ) (buffer : Mem) → Mem
read_func image offset size to buffer k =
    if leb to k && ltb k (to + size) then image (offset + (k - to)) else buffer k

abbrev pub write_func : (buffer : Mem) (offset size : ℕ) (image : Mem) → Mem
write_func buffer offset size image a =
    if leb offset a && ltb a (offset + size) then buffer (a - offset) else image a

-- A little-endian `unsigned int` in memory, and its four bytes.
abbrev pub get32 : Mem → ℕ → ℕ
get32 m a = m a + 256 * m (a + 1) + 65536 * m (a + 2) + 16777216 * m (a + 3)

pub bytes32 : ℕ → Mem
bytes32 v i =
    if i == 0
    then v % 256
    else if i == 1
    then v / 256 % 256
    else if i == 2
    then v / 65536 % 256
    else v / 16777216 % 256

-- where the entry of a cluster lies
pub fat_entry : Bpb → ℕ → ℕ
fat_entry bpb cluster = add32 (mul32 bpb.rsvd_sec_cnt bpb.byts_per_sec) (mul32 cluster 4)

pub fat_size : Bpb → ℕ
fat_size bpb = mul32 bpb.fat_sz32 bpb.byts_per_sec

pub invalidate_cache : Disk → Disk
invalidate_cache disk = record disk { cache_sector = 0xFFFFFFFF }

-- `fat_read_fat_entry` with and without `cache`
pub load_sector : ℕ → Disk → Disk
load_sector sector disk = if sector == disk.cache_sector then disk else record disk {
  cache =
      read_func disk.image (mul32 sector disk.bpb.byts_per_sec) disk.bpb.byts_per_sec 0 disk.cache;
  cache_sector = sector;
}

pub read_fat_entry_cached : ℕ → Disk → ℕ × Disk
read_fat_entry_cached cluster disk =
    let entry = fat_entry disk.bpb cluster in
    let loaded = load_sector (entry / disk.bpb.byts_per_sec) disk in
    (get32 loaded.cache (entry % disk.bpb.byts_per_sec), loaded)

pub read_fat_entry : ℕ → Disk → ℕ
read_fat_entry cluster disk = get32 disk.image (fat_entry disk.bpb cluster)

-- Both copies of the table are written; the cache is not touched.
pub write_fat_entry : (cluster value : ℕ) → Disk → Disk
write_fat_entry cluster value disk =
    let entry = fat_entry disk.bpb cluster in
    record disk {
      image =
          write_func (bytes32 value) (add32 entry (fat_size disk.bpb)) 4
            (write_func (bytes32 value) entry 4 disk.image);
    }

-- The tests on an entry: a bad cluster, and the two tests for the last cluster of a file.
abbrev pub bad_cluster : ℕ
bad_cluster = 0x0FFFFFF7

abbrev pub is_last : ℕ → Bool
is_last next = leb 0x0FFFFFF8 next && leb next 0x0FFFFFFF

-- `next_cluster & 0x0FFFFFFF`
abbrev pub low28 : ℕ → ℕ
low28 n = n % 2 ^ 28
