-- ===== src/Syscall/Stat.antt =====
-- syscall.c: the conversions of a vStat, and the calls of the stat family.
pub mod Mode
use Prim.Native.Nat.{bit_or}
use neos.Base.{
  ℕ, zero, suc, ◌+◌, ◌*◌, ◌%◌, ◌^◌, Bool, true, false, not, Option, none, some, List, ◌==◌,
  if◌then◌else◌,
}
use neos.Base.Int.{ℤ, pos, minus, to_int}
use neos.Vfs.Tree.{Drivers, VRef, vfs_open, is_error, open_nofollow}
use neos.Vfs.Calls.{EntryType, type_code, VStat, FileDrivers, vfs_stat, vfs_close}
use neos.Scheduler.State.{◌>>=◌}
use neos.Syscall.{Kernel, Outcome, fd_resolve, store_fd, fd_cwd, linux_ebadf}

-- It returns an `unsigned short`. The type is shifted by 4.
pub mkmode : EntryType → (owner group other : ℕ) (suid sgid : Bool) → ℕ
mkmode type owner group other suid sgid =
    bit_or
      (bit_or
        (bit_or (bit_or (bit_or (type_code type * 2 ^ 4) owner) (group * 2 ^ 3)) (other * 2 ^ 6))
        (if suid then 0x0800 else 0))
      (if sgid then 0x0400 else 0)
    % 2 ^ 16

-- `perm`
abbrev pub permissions : VStat → ℕ
permissions vstat = if vstat.writtable then 7 else 5

abbrev pub mode_of : VStat → ℕ
mode_of vstat =
    mkmode vstat.type (permissions vstat) (permissions vstat) (permissions vstat) false false

-- `struct __old_kernel_stat`
pub record OldKernelStat : Type 0 where
  pub st_dev : ℕ
  pub st_ino : ℕ
  pub st_mode : ℕ
  pub st_nlink : ℕ
  pub st_uid : ℕ
  pub st_gid : ℕ
  pub st_rdev : ℕ
  pub st_size : ℕ
  pub st_atime : ℕ
  pub st_mtime : ℕ
  pub st_ctime : ℕ

-- It sets every field.
pub vstat_to_linux_old : VStat → OldKernelStat → OldKernelStat
vstat_to_linux_old vstat lstat = record {
  st_dev = 1;
  st_ino = 0;
  st_mode = mode_of vstat;
  st_nlink = 0;
  st_uid = 0;
  st_gid = 0;
  st_rdev = 1;
  st_size = vstat.size;
  st_atime = vstat.atime;
  st_mtime = vstat.mtime;
  st_ctime = vstat.mtime;
}

-- `struct stat` and `struct stat64`, but for the padding, which is not set. They have the same
-- fields, of other widths.
pub record Stat : Type 0 where
  pub st_dev : ℕ
  pub st_ino : ℕ
  pub st_mode : ℕ
  pub st_nlink : ℕ
  pub st_uid : ℕ
  pub st_gid : ℕ
  pub st_rdev : ℕ
  pub st_size : ℤ
  pub st_blksize : ℤ
  pub st_blocks : ℤ
  pub st_atime : ℤ
  pub st_atime_nsec : ℕ
  pub st_mtime : ℤ
  pub st_mtime_nsec : ℕ
  pub st_ctime : ℤ
  pub st_ctime_nsec : ℕ

-- Size, blocks and times are `long`.
pub vstat_to_linux_32 : VStat → Stat → Stat
vstat_to_linux_32 vstat lstat = record {
  st_dev = 1;
  st_ino = 0;
  st_mode = mode_of vstat;
  st_nlink = 0;
  st_uid = 0;
  st_gid = 0;
  st_rdev = 1;
  st_size = to_int vstat.size;
  st_blksize = pos 512;
  st_blocks = to_int vstat.blocks;
  st_atime = to_int vstat.atime;
  st_atime_nsec = 0;
  st_mtime = to_int vstat.mtime;
  st_mtime_nsec = 0;
  st_ctime = to_int vstat.mtime;
  st_ctime_nsec = 0;
}

-- Size and blocks are `long long`, the times `int`.
pub vstat_to_linux_64 : VStat → Stat → Stat
vstat_to_linux_64 vstat lstat = record {
  st_dev = 1;
  st_ino = 0;
  st_mode = mode_of vstat;
  st_nlink = 0;
  st_uid = 0;
  st_gid = 0;
  st_rdev = 1;
  st_size = pos vstat.size;
  st_blksize = pos 512;
  st_blocks = pos vstat.blocks;
  st_atime = to_int vstat.atime;
  st_atime_nsec = 0;
  st_mtime = to_int vstat.mtime;
  st_mtime_nsec = 0;
  st_ctime = to_int vstat.mtime;
  st_ctime_nsec = 0;
}

module _ (drivers : Drivers) (files : FileDrivers drivers.State drivers.World) where
  open drivers use {State, World}

  -- The static function `stat`, which returns what it leaves in the caller's `statbuf` too.
  -- `garbage` is the local object before the driver sets it.
  unfoldable pub stat_path :
      {Buf : Type 0}
      → (filename : List ℕ) (statbuf : Buf) → (converter : VStat → Buf → Buf)
      → (flags : ℕ) (garbage : VStat) → Kernel State World
      → Option (ℤ × Buf × Kernel State World)
  stat_path filename statbuf converter flags garbage k = do
    cwd ← fd_cwd k
    (res, vref, w) ← vfs_open drivers k.tree k.root_ref cwd filename flags k.world
    let (failed, vref', found, w') = vfs_stat files vref garbage w
    let (closed, vref'', w'') = vfs_close drivers vref' w'
    let k' = record k { world = w'' }
    some (
        if is_error res
        then (res, statbuf, record k { world = w })
        else if is_error failed
        then (failed, statbuf, k')
        else if is_error closed
        then (closed, statbuf, k')
        else (pos 0, converter found statbuf, k'))

  -- The static function `fstat`.
  unfoldable pub fstat :
      {Buf : Type 0}
      → (fd : ℕ) (statbuf : Buf) → (converter : VStat → Buf → Buf) → (garbage : VStat)
      → Kernel State World
      → Option (ℤ × Buf × Kernel State World)
  fstat fd statbuf converter garbage k = do
    resolved ← fd_resolve k (to_int fd)
    elim resolved [
      | none ↦ some (minus linux_ebadf, statbuf, k)
      | some vref ↦ do
        let (failed, vref', found, w) = vfs_stat files vref garbage k.world
        k' ← store_fd (record k { world = w }) (to_int fd) vref'
        some (
            if is_error failed then (failed, statbuf, k') else (pos 0, converter found statbuf, k'))
    ]

  unfoldable pub sys_stat :
      (filename : List ℕ)
      → OldKernelStat
      → (garbage : VStat) → Kernel State World
      → Option (ℤ × OldKernelStat × Kernel State World)
  sys_stat filename statbuf = stat_path filename statbuf vstat_to_linux_old 0

  unfoldable pub sys_lstat :
      (filename : List ℕ)
      → OldKernelStat
      → (garbage : VStat) → Kernel State World
      → Option (ℤ × OldKernelStat × Kernel State World)
  sys_lstat filename statbuf = stat_path filename statbuf vstat_to_linux_old open_nofollow

  unfoldable pub sys_fstat :
      (fd : ℕ)
      → OldKernelStat
      → (garbage : VStat) → Kernel State World
      → Option (ℤ × OldKernelStat × Kernel State World)
  sys_fstat fd statbuf = fstat fd statbuf vstat_to_linux_old

  unfoldable pub sys_newstat :
      (filename : List ℕ)
      → Stat
      → (garbage : VStat) → Kernel State World
      → Option (ℤ × Stat × Kernel State World)
  sys_newstat filename statbuf = stat_path filename statbuf vstat_to_linux_32 0

  unfoldable pub sys_newlstat :
      (filename : List ℕ)
      → Stat
      → (garbage : VStat) → Kernel State World
      → Option (ℤ × Stat × Kernel State World)
  sys_newlstat filename statbuf = stat_path filename statbuf vstat_to_linux_32 open_nofollow

  unfoldable pub sys_stat64 :
      (filename : List ℕ)
      → Stat
      → (garbage : VStat) → Kernel State World
      → Option (ℤ × Stat × Kernel State World)
  sys_stat64 filename statbuf = stat_path filename statbuf vstat_to_linux_64 0

  unfoldable pub sys_lstat64 :
      (filename : List ℕ)
      → Stat
      → (garbage : VStat) → Kernel State World
      → Option (ℤ × Stat × Kernel State World)
  sys_lstat64 filename statbuf = stat_path filename statbuf vstat_to_linux_64 open_nofollow

  unfoldable pub sys_newfstat :
      (fd : ℕ)
      → Stat
      → (garbage : VStat) → Kernel State World
      → Option (ℤ × Stat × Kernel State World)
  sys_newfstat fd statbuf = fstat fd statbuf vstat_to_linux_32

  unfoldable pub sys_fstat64 :
      (fd : ℕ)
      → Stat
      → (garbage : VStat) → Kernel State World
      → Option (ℤ × Stat × Kernel State World)
  sys_fstat64 fd statbuf = fstat fd statbuf vstat_to_linux_64
