-- ===== src/Syscall/Dirents.antt =====
-- syscall.c: sys_getdents, sys_getdents64 and sys_old_readdir, which list a directory into a buffer.
pub mod Bounds
pub mod Layout
pub mod Calls
use neos.Base.{
  ℕ, zero, suc, ◌+◌, ◌-◌, ◌*◌, ◌/◌, ◌%◌, ◌^◌, Bool, not, Option, none, some, ◌==◌, ltb,
  if◌then◌else◌,
}
use neos.Base.Int.{ℤ, pos, minus, to_int, ltb_ℤ}
use neos.Memory.{Mem, store}
use neos.Vfs.Tree.{Drivers, VRef, is_error}
use neos.Vfs.Calls.{VEntry, type_code, FileDrivers, vfs_list, vfs_seek, seek_set, linux_einval}
use neos.Scheduler.State.{◌>>=◌}
use neos.Syscall.{Kernel, Outcome, store_fd, with_fd, negative}

-- The bytes of a 16-bit, a 32-bit and a 64-bit field, the lowest first. The values are below 2 ^ 32.
abbrev pub store_half : (p v : ℕ) → Mem → Mem
store_half p v m = store (p + 1) (v / 256 % 256) (store p (v % 256) m)

abbrev pub store_long : (p v : ℕ) → Mem → Mem
store_long p v m = store_half (p + 2) (v / 2 ^ 16) (store_half p v m)

abbrev pub store_long_long : (p v : ℕ) → Mem → Mem
store_long_long p v m = store_long (p + 4) 0 (store_long p v m)

-- `memcpy(d_name, entry.name, entry.name_length)`, out of a local object
abbrev pub store_name : (p length : ℕ) → (ℕ → ℕ) → Mem → Mem
store_name p length name m a =
    if ltb a p then m a else if ltb a (p + length) then name (a - p) else m a

-- What the three loops do differently: the size that an entry is taken to have (`esz`), how far
-- `bytes` moves, both from the length of the name, and the stores into the entry.
pub record Dirent : Type 0 where
  pub entry_size : ℕ → ℕ
  pub advance : ℕ → ℕ
  pub fill : (dirent : ℕ) → VEntry → Mem → Mem

-- `struct linux_dirent` has 12 bytes, and `d_name` at 10.
pub linux_dirent_fill : (dirent : ℕ) → VEntry → Mem → Mem
linux_dirent_fill p e m =
    let named = store_name (p + 10) e.name_length e.name (
      store_half (p + 8) ((12 + e.name_length + 2) % 2 ^ 16)
        (store_long (p + 4) e.seek_offset (store_long p 0 m))) in
    store (p + 10 + (e.name_length + 2)) (type_code e.type)
      (store (p + 10 + (e.name_length + 1)) 0 named)

pub linux_dirent : Dirent
linux_dirent = record {
  entry_size = λ n. (12 + n + 2) % 2 ^ 32;
  advance = λ n. (12 + n + 2) % 2 ^ 16;
  fill = linux_dirent_fill;
}

-- `struct linux_dirent64` has 20 bytes, and `d_name` at 19; `d_reclen` counts a `linux_dirent`.
pub linux_dirent64_fill : (dirent : ℕ) → VEntry → Mem → Mem
linux_dirent64_fill p e m = store_name (p + 19) e.name_length e.name (
    store (p + 18) (type_code e.type) (
      store_half (p + 16) ((12 + e.name_length) % 2 ^ 16)
        (store_long_long (p + 8) e.seek_offset (store_long_long p 0 m))))

pub linux_dirent64 : Dirent
linux_dirent64 = record {
  entry_size = λ n. (20 + n) % 2 ^ 32;
  advance = λ n. (12 + n) % 2 ^ 16;
  fill = linux_dirent64_fill;
}

-- `struct old_linux_dirent` has 12 bytes, and `d_name` at 10.
pub old_linux_dirent_fill : (dirent : ℕ) → VEntry → Mem → Mem
old_linux_dirent_fill p e m = store_name (p + 10) e.name_length e.name (
    store_half (p + 8) (e.name_length % 2 ^ 16)
      (store_long (p + 4) e.seek_offset (store_long p 0 m)))

pub old_linux_dirent : Dirent
old_linux_dirent = record {
  entry_size = λ n. (12 + n) % 2 ^ 32;
  advance = λ n. 12 + n;
  fill = old_linux_dirent_fill;
}

module _ (drivers : Drivers) (files : FileDrivers drivers.State drivers.World) where
  open drivers use {State, World}

  -- The loop, on fuel, with `entry` uninitialised in each round. `size - bytes` is unsigned, and
  -- `left` and `esz` are compared as `int`.
  pub dirents_loop :
      Dirent
      → (garbage : ℕ → VEntry) → ℕ
      → (buffer size bytes : ℕ) → VRef State
      → Mem
      → World
      → Option (ℤ × VRef State × Mem × World)
  dirents_loop layout garbage zero buffer size bytes vref m w = none
  dirents_loop layout garbage (suc f) buffer size bytes vref m w =
      let (count, vref', entries, w') = vfs_list files vref 1 garbage w in
      let e = entries 0 in
      let esz = to_int (layout.entry_size e.name_length) in
      let left = to_int ((size + 2 ^ 32 - bytes) % 2 ^ 32) in
      let (undone, vref'', w'') = vfs_seek files vref' (to_int e.seek_offset) seek_set w' in
      let rest =
        dirents_loop layout garbage f buffer size (bytes + layout.advance e.name_length) vref'
          (layout.fill (buffer + bytes) e m) w' in
      if not (is_error count)
      then some (pos bytes, vref', m, w')
      else if negative count
      then some (count, vref', m, w')
      else if ltb_ℤ left esz
      then some (if bytes == 0 then minus linux_einval else pos bytes, vref'', m, w'')
      else rest

  unfoldable pub list_into :
      Dirent
      → (garbage : ℕ → VEntry) → (fd buffer size : ℕ) → Kernel State World
      → Outcome State World
  list_into layout garbage fd buffer size k = with_fd k (to_int fd) λ vref. do
    (res, vref', m, w) ← dirents_loop layout garbage (suc size) buffer size 0 vref k.memory k.world
    k' ← store_fd (record k { memory = m; world = w }) (to_int fd) vref'
    some (res, k')

  unfoldable pub sys_getdents :
      (garbage : ℕ → VEntry) → (fd buffer size : ℕ) → Kernel State World → Outcome State World
  sys_getdents = list_into linux_dirent

  unfoldable pub sys_getdents64 :
      (garbage : ℕ → VEntry) → (fd buffer size : ℕ) → Kernel State World → Outcome State World
  sys_getdents64 = list_into linux_dirent64

  unfoldable pub sys_old_readdir :
      (garbage : ℕ → VEntry) → (fd buffer size : ℕ) → Kernel State World → Outcome State World
  sys_old_readdir = list_into old_linux_dirent
