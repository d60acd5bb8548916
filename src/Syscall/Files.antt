-- ===== src/Syscall/Files.antt =====
-- syscall.c: the calls that open, read, write, seek and close files, and make directories.
pub mod Opening
pub mod Closing
use Prim.Native.Nat.{bit_or}
use neos.Base.{ℕ, ◌+◌, Bool, Option, none, some, List, ◌==◌, if◌then◌else◌}
use neos.Base.Int.{ℤ, pos, negsuc, minus, to_int, to_word}
use neos.Vfs.Tree.{Drivers, VRef}
use neos.Vfs.Calls.{FileDrivers, vfs_read, vfs_write, vfs_seek, vfs_close, vfs_mkdir, vfs_readlink}
use neos.Scheduler.State.{◌>>=◌}
use neos.Scheduler.Files.{fget, fremove}
use neos.Syscall.{
  Kernel, Outcome, caller, fd_resolve, store_fd, fd_cwd, with_fd, fd_open, linux_ebadf,
}

abbrev pub open_wronly : ℕ
open_wronly = 0x00001

abbrev pub open_creat : ℕ
open_creat = 0x00040

module _ (drivers : Drivers) (files : FileDrivers drivers.State drivers.World) where
  open drivers use {State, World}

  unfoldable pub sys_write :
      (fd : ℤ) (buffer : ℕ) (bytes : ℤ) → Kernel State World → Outcome State World
  sys_write fd buffer bytes k = with_fd k fd λ vref. do
    let (res, vref', m, w) = vfs_write files vref buffer (to_word bytes) k.memory k.world
    k' ← store_fd (record k { memory = m; world = w }) fd vref'
    some (res, k')

  unfoldable pub sys_read :
      (fd : ℤ) (buffer : ℕ) (bytes : ℤ) → Kernel State World → Outcome State World
  sys_read fd buffer bytes k = with_fd k fd λ vref. do
    let (res, vref', m, w) = vfs_read files vref buffer (to_word bytes) k.memory k.world
    k' ← store_fd (record k { memory = m; world = w }) fd vref'
    some (res, k')

  unfoldable pub sys_open :
      (filename : List ℕ) (flags mode : ℕ) → Kernel State World → Outcome State World
  sys_open filename flags mode k = do cwd ← fd_cwd k; fd_open drivers cwd filename flags k

  unfoldable pub sys_openat :
      (fd : ℤ) (filename : List ℕ) (flags mode : ℕ) → Kernel State World → Outcome State World
  sys_openat fd filename flags mode k = with_fd k fd λ vref. fd_open drivers vref filename flags k

  unfoldable pub sys_creat :
      (pathname : List ℕ) (mode : ℕ) → Kernel State World → Outcome State World
  sys_creat pathname mode k =
      sys_open pathname (bit_or (bit_or open_wronly open_creat) open_wronly) mode k

  unfoldable pub sys_lseek :
      (fd : ℕ) (offset : ℤ) (whence : ℕ) → Kernel State World → Outcome State World
  sys_lseek fd offset whence k = with_fd k (to_int fd) λ vref. do
    let (res, vref', w) = vfs_seek files vref offset whence k.world
    k' ← store_fd (record k { world = w }) (to_int fd) vref'
    some (res, k')

  -- The copy of the working directory is a local of the two calls that take no descriptor.
  unfoldable pub sys_mkdir :
      (pathname : List ℕ) (mode : ℕ) → Kernel State World → Outcome State World
  sys_mkdir pathname mode k = do
    cwd ← fd_cwd k
    let (res, cwd', w) = vfs_mkdir files cwd pathname k.world
    some (res, record k { world = w })

  unfoldable pub sys_mkdirat :
      (fd : ℤ) (pathname : List ℕ) (mode : ℕ) → Kernel State World → Outcome State World
  sys_mkdirat fd pathname mode k = with_fd k fd λ parent. do
    let (res, parent', w) = vfs_mkdir files parent pathname k.world
    k' ← store_fd (record k { world = w }) fd parent'
    some (res, k')

  unfoldable pub sys_readlink :
      (path : List ℕ) (buf : ℕ) (size : ℤ) → Kernel State World → Outcome State World
  sys_readlink path buf size k = do
    cwd ← fd_cwd k
    let (res, cwd', m, w) = vfs_readlink files cwd path buf size k.memory k.world
    some (res, record k { memory = m; world = w })

  -- The test `fd <= 0` is on an unsigned number; `scheduler_fget` gets it as an `int`.
  unfoldable pub sys_close : (fd : ℕ) → Kernel State World → Outcome State World
  sys_close fd k = if fd == 0 then some (minus linux_ebadf, k) else do
    found ← fget k.sched (caller k) (to_int fd)
    elim found [
      | none ↦ some (minus linux_ebadf, k)
      | some vref ↦ do
        let (res, vref', w) = vfs_close drivers vref k.world
        k' ← store_fd (record k { world = w }) (to_int fd) vref'
        (failed, sched) ← fremove k'.sched (caller k') (to_int fd)
        some (if failed == 0 then pos 0 else minus linux_ebadf, record k' { sched = sched })
    ]
