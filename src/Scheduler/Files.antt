-- ===== src/Scheduler/Files.antt =====
-- scheduler.c: the files of a process, scheduler_fput, scheduler_fget and scheduler_fremove.
pub mod Laws
use neos.Base.{
  ℕ, zero, suc, ◌+◌, ◌-◌, Bool, true, false, not, ◌||◌, Option, none, some, List, leb, set,
  get_elem?, if◌then◌else◌,
}
use neos.Base.Int.{ℤ, pos, negsuc}
use neos.Scheduler.State.{max_files, Descriptor, Sched, ◌>>=◌, entry, put}
use neos.Scheduler.Pid.{pid_invalid, index}

-- `process->fileExists[i]`, a fault through a null pointer
abbrev pub flag_at : Option (List Bool) → ℕ → Option Bool
flag_at none i = none
flag_at (some flags) i = get_elem? flags i

abbrev pub set_flag : Option (List Bool) → ℕ → Bool → Option (List Bool)
set_flag none i b = none
set_flag (some flags) i b = some (set flags i b)

-- The search of `scheduler_fput` for a free slot, from `i` on with `n` rounds left.
pub free_slot : ℕ → Option (List Bool) → ℕ → Option (Option ℕ)
free_slot zero flags i = some none
free_slot (suc n) flags i = do
  taken ← flag_at flags i
  let rest = free_slot n flags (i + 1)
  if taken then rest else some (some i)

-- Whether a file number is out of range, `fd < 0 || fd >= MAX_FILES_PER_PROCESS` after `fd - 1`.
unfoldable pub fd_invalid : ℤ → Bool
fd_invalid (negsuc n) = true
fd_invalid (pos zero) = true
fd_invalid (pos (suc i)) = leb max_files i

module _ {Ref : Type 0} where
  abbrev pub store_file : Descriptor Ref → ℕ → Ref → Descriptor Ref
  store_file process i vref = record process {
    files = set process.files i vref;
    file_exists = set_flag process.file_exists i true;
  }

  -- It returns the descriptor's number, counted from 1, or 0 for an error.
  pub fput : Sched Ref → ℤ → Ref → Option (ℕ × Sched Ref)
  fput s pid vref = do
    invalid ← pid_invalid s pid
    if invalid then some (0, s) else do
      process ← entry s (index pid)
      slot ← free_slot max_files process.file_exists 0
      elim slot [
        | none ↦ some (0, s)
        | some i ↦ some (i + 1, put s (index pid) (store_file process i vref))
      ]

  -- It returns a pointer to the stored reference (`some` of what is there), or null.
  unfoldable pub fget : Sched Ref → ℤ → ℤ → Option (Option Ref)
  fget s pid fd = do
    invalid ← pid_invalid s pid
    if invalid then some none else if fd_invalid fd then some none else do
      process ← entry s (index pid)
      taken ← flag_at process.file_exists (index fd)
      if not taken
          then some none
          else do vref ← get_elem? process.files (index fd); some (some vref)

  -- `general_process_table[index].fileExists = false`: what is set is the pointer to the flags.
  pub fremove : Sched Ref → ℤ → ℤ → Option (ℕ × Sched Ref)
  fremove s pid fd = do
    invalid ← pid_invalid s pid
    if invalid then some (1, s) else if fd_invalid fd then some (1, s) else do
      process ← entry s (index pid)
      taken ← flag_at process.file_exists (index fd)
      if not taken
          then some (1, s)
          else some (0, put s (index pid) (record process { file_exists = none }))
