-- ===== src/Syscall/Dirents/Calls.antt =====
-- syscall.c: the three listing calls on a descriptor that resolves.
use neos.Base.{ℕ, suc, ◌^◌, ◌<◌, ◌≡◌, refl, some, arith}
use neos.Base.Int.{ℤ, to_int}
use neos.Memory.{Mem}
use neos.Vfs.Tree.{Drivers, VRef}
use neos.Vfs.Calls.{VEntry, FileDrivers}
use neos.Syscall.{Kernel, Outcome, fd_resolve, store_fd}
use neos.Syscall.Descriptors.{fd_resolve-store}
use neos.Syscall.Dirents.{
  Dirent, dirents_loop, linux_dirent, linux_dirent64, old_linux_dirent, list_into, sys_getdents,
  sys_getdents64, sys_old_readdir,
}
use neos.Syscall.Dirents.Bounds.{
  IsDirent, linux_dirent-IsDirent, linux_dirent64-IsDirent, old_linux_dirent-IsDirent, Listed,
  ShortNames, dirents_loop-Listed,
}

-- A call returns, and its result and the memory behind it are those of a listing.
module _ {State World : Type 0} where
  abbrev pub ReturnsListed : (buffer size : ℕ) → Kernel State World → Outcome State World → Type 0
  ReturnsListed buffer size k outcome =
      (r : ℤ) × (k' : Kernel State World) × (outcome ≡ some (r, k'))
      × Listed buffer size k.memory r k'.memory

module _ (drivers : Drivers) (files : FileDrivers drivers.State drivers.World)
    (garbage : ℕ → VEntry) where
  open drivers use {State, World}

  list_into-store_fd :
      (layout : Dirent) (k k' : Kernel State World) (fd buffer size : ℕ) (v v' : VRef State) (r : ℤ)
      (m : Mem) (w : World)
      → fd_resolve k (to_int fd) ≡ some (some v)
      → dirents_loop drivers files layout garbage (suc size) buffer size 0 v k.memory k.world
        ≡ some (r, v', m, w)
      → store_fd (record k { memory = m; world = w }) (to_int fd) v' ≡ some k'
      → list_into drivers files layout garbage fd buffer size k ≡ some (r, k')
  unfolding list_into
  list_into-store_fd layout k k' fd buffer size v v' r m w found e e' =
      rw (list_into, found, e, e') refl

  list_into-Listed :
      (layout : Dirent) (k : Kernel State World) (fd buffer size : ℕ) (v : VRef State)
      → IsDirent layout
      → ShortNames drivers files garbage
      → size < 2 ^ 32
      → fd_resolve k (to_int fd) ≡ some (some v)
      → ReturnsListed buffer size k (list_into drivers files layout garbage fd buffer size k)
  unfolding fd_resolve
  list_into-Listed layout k fd buffer size v l short word found =
      let (r, v', m, w, e, listed) =
        dirents_loop-Listed drivers files garbage layout (suc size) buffer size 0 v k.memory k.world
          l short word (omega arith) (omega arith) in
      let (k', e', same) =
        fd_resolve-store (record k { memory = m; world = w }) (to_int fd) v v' found in
      (r, k', list_into-store_fd layout k k' fd buffer size v v' r m w found e e', rw same listed)

  -- With a driver whose names fit vEntry, sys_getdents, sys_getdents64 and sys_old_readdir return
  -- for every buffer size. A result that is not negative is at most the size of the buffer, and no
  -- byte outside the buffer is written.
  pub sys_getdents-Listed :
      (k : Kernel State World) (fd buffer size : ℕ) (v : VRef State)
      → ShortNames drivers files garbage
      → size < 2 ^ 32
      → fd_resolve k (to_int fd) ≡ some (some v)
      → ReturnsListed buffer size k (sys_getdents drivers files garbage fd buffer size k)
        × ReturnsListed buffer size k (sys_getdents64 drivers files garbage fd buffer size k)
        × ReturnsListed buffer size k (sys_old_readdir drivers files garbage fd buffer size k)
  unfolding sys_getdents sys_getdents64 sys_old_readdir
  sys_getdents-Listed k fd buffer size v short word found = (
    list_into-Listed linux_dirent k fd buffer size v linux_dirent-IsDirent short word found,
    list_into-Listed linux_dirent64 k fd buffer size v linux_dirent64-IsDirent short word found,
    list_into-Listed old_linux_dirent k fd buffer size v old_linux_dirent-IsDirent short word found,
  )
