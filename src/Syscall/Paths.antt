-- ===== src/Syscall/Paths.antt =====
-- syscall.c: the calls that open a path, act on it and close it, and the working directory.
pub mod Directory
use Prim.Native.Nat.{bit_or}
use neos.Base.{ℕ, Bool, true, false, not, Option, none, some, List, ◌==◌, if◌then◌else◌}
use neos.Base.Int.{ℤ, pos}
use neos.Vfs.Tree.{Drivers, VRef, vfs_open, is_error, open_directory, open_nofollow}
use neos.Vfs.Calls.{FileDrivers, vfs_close, vfs_remove}
use neos.Scheduler.State.{◌>>=◌}
use neos.Scheduler.Pid.{chdir}
use neos.Syscall.{Kernel, Outcome, caller, fd_cwd, with_fd}

module _ (drivers : Drivers) (files : FileDrivers drivers.State drivers.World) where
  open drivers use {State, World}

  -- What the three calls have in common once the path is open: the removal and the close.
  unfoldable pub remove_opened :
      VRef State → (rmdir : Bool) → Kernel State World → ℤ × Kernel State World
  remove_opened vref rmdir k =
      let (res, vref', w) = vfs_remove files vref rmdir k.world in
      let (closed, vref'', w') = vfs_close drivers vref' w in
      let k' = record k { world = w' } in
      if is_error res then (res, k') else if is_error closed then (closed, k') else (pos 0, k')

  unfoldable pub open_and_remove :
      VRef State
      → (pathname : List ℕ) (flags : ℕ) (rmdir : Bool) → Kernel State World
      → Outcome State World
  open_and_remove parent pathname flags rmdir k = do
    (res, vref, w) ← vfs_open drivers k.tree k.root_ref parent pathname flags k.world
    let k' = record k { world = w }
    some (if is_error res then (res, k') else remove_opened vref rmdir k')

  unfoldable pub sys_unlinkat :
      (fd : ℤ) (pathname : List ℕ) (flag : ℤ) → Kernel State World → Outcome State World
  sys_unlinkat fd pathname flag k = with_fd k fd λ parent.
      open_and_remove parent pathname
        (bit_or open_nofollow (if is_error flag then open_directory else 0)) (is_error flag) k

  unfoldable pub sys_unlink : (pathname : List ℕ) → Kernel State World → Outcome State World
  sys_unlink pathname k = do cwd ← fd_cwd k; open_and_remove cwd pathname open_nofollow false k

  unfoldable pub sys_rmdir : (pathname : List ℕ) → Kernel State World → Outcome State World
  sys_rmdir pathname k = do
    cwd ← fd_cwd k
    open_and_remove cwd pathname (bit_or open_directory open_nofollow) true k

  -- The result of `scheduler_chdir` is not looked at. The old directory is closed after it.
  unfoldable pub sys_chdir : (path : List ℕ) → Kernel State World → Outcome State World
  sys_chdir path k = do
    cwd ← fd_cwd k
    (res, vref, w) ← vfs_open drivers k.tree k.root_ref cwd path open_directory k.world
    let k' = record k { world = w }
    let moved = chdir k'.sched (caller k') vref
    if is_error res then some (res, k') else do
      (failed, sched) ← moved
      let (closed, cwd', w') = vfs_close drivers cwd w
      some (pos 0, record k { sched = sched; world = w' })
