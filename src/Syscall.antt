-- ===== src/Syscall.antt =====
-- syscall.c: the state that the calls work on, file descriptors, and the dispatch by number. The
-- children model the calls.
pub mod Files
pub mod Paths
pub mod Dirents
pub mod Stat
pub mod Process
pub mod Descriptors
mod Tests
use neos.Base.{
  ℕ, zero, suc, ◌+◌, Bool, true, false, Option, none, some, List, [], ◌∷◌, ◌==◌, leb, set,
  get_elem?, if◌then◌else◌,
}
use neos.Base.Int.{ℤ, pos, negsuc, minus}
use neos.Memory.{Mem}
use neos.Vfs.Tree.{Drivers, VRef, Tree, vfs_open}
use neos.Scheduler.State.{Descriptor, Sched, ◌>>=◌, entry, put}
use neos.Scheduler.Pid.{index, get_current_pid, load_process_info}
use neos.Scheduler.Files.{fget, fput}

abbrev pub linux_ebadf : ℕ
linux_ebadf = 9

abbrev pub linux_emfile : ℕ
linux_emfile = 24

-- What a system call reads and changes: the globals of scheduler.c and vfs.c, the memory, and
-- whatever the file systems keep.
pub record Kernel (State World : Type 0) : Type 0 where
  pub sched : Sched (VRef State)
  pub tree : Tree
  pub root_ref : VRef State
  pub memory : Mem
  pub world : World

-- A call returns an `int` or does not return: `none` is an access through a null pointer or outside
-- an array, the use of an object that was never set, or `panic`.
abbrev pub Outcome : (State World : Type 0) → Type 0
Outcome State World = Option (ℤ × Kernel State World)

-- `x <= 0`
abbrev pub nonpositive : ℤ → Bool
nonpositive (negsuc n) = true
nonpositive (pos zero) = true
nonpositive (pos (suc n)) = false

-- `x < 0`
abbrev pub negative : ℤ → Bool
negative (negsuc n) = true
negative (pos n) = false

module _ {State World : Type 0} where
  abbrev pub caller : Kernel State World → ℤ
  caller k = get_current_pid k.sched

  -- It returns a pointer to the reference, or null; here what is stored there. `store_fd` writes
  -- through the pointer.
  unfoldable pub fd_resolve : Kernel State World → ℤ → Option (Option (VRef State))
  fd_resolve k fd = if nonpositive fd then some none else fget k.sched (caller k) fd

  unfoldable pub store_fd : Kernel State World → ℤ → VRef State → Option (Kernel State World)
  store_fd k fd vref = do
    process ← entry k.sched (index (caller k))
    some (record k {
      sched =
          put k.sched (index (caller k))
            (record process { files = set process.files (index fd) vref });
    })

  unfoldable pub fd_cwd : Kernel State World → Option (VRef State)
  fd_cwd k = do info ← load_process_info k.sched (caller k); process ← info; some process.cwd

  -- `if (!vref) return -LINUX_EBADF;` after `fd_resolve`, and then the rest of a call
  abbrev pub with_fd :
      Kernel State World → ℤ → (VRef State → Outcome State World) → Outcome State World
  with_fd k fd rest = do
    found ← fd_resolve k fd
    elim found [ none ↦ some (minus linux_ebadf, k) | some vref ↦ rest vref ]

module _ (drivers : Drivers) where
  open drivers use {State, World}

  -- `scheduler_fput`, where 0 stands for an error
  unfoldable pub install_fd : VRef State → Kernel State World → Outcome State World
  install_fd new_file k = do
    (fd, sched) ← fput k.sched (caller k) new_file
    some (if fd == 0 then minus linux_emfile else pos fd, record k { sched = sched })

  unfoldable pub fd_open :
      VRef State → (filename : List ℕ) (flags : ℕ) → Kernel State World → Outcome State World
  fd_open parent filename flags k = do
    (res, new_file, w) ← vfs_open drivers k.tree k.root_ref parent filename flags k.world
    let k' = record k { world = w }
    let installed = install_fd new_file k'
    if negative res then some (res, k') else installed

-- An entry of `sys_linux_table`: its handler behind the adapter for the number of its arguments, or
-- a null handler, on which each adapter panics.
pub record SyscallEntry (State World : Type 0) : Type 0 where
  pub handler : Option ((ebx ecx edx esi edi : ℤ) → Kernel State World → Outcome State World)

module _ {State World : Type 0} where
  pub syscall_adapter :
      SyscallEntry State World
      → (ebx ecx edx esi edi : ℤ) → Kernel State World
      → Outcome State World
  syscall_adapter e ebx ecx edx esi edi k = elim e.handler [
    | none ↦ none
    | some handler ↦ handler ebx ecx edx esi edi k
  ]

  -- The table is generated by the build. Only its upper bound is tested, as an `int`: a negative
  -- number is an access in front of the table.
  pub sys_linux :
      List (SyscallEntry State World)
      → (size : ℕ) → (eax ebx ecx edx esi edi : ℤ) → Kernel State World
      → Outcome State World
  sys_linux table size (negsuc n) ebx ecx edx esi edi k = none
  sys_linux table size (pos eax) ebx ecx edx esi edi k =
      if leb size eax
      then none
      else do e ← get_elem? table eax; syscall_adapter e ebx ecx edx esi edi k
