-- ===== src/Scheduler/Pid.antt =====
-- scheduler.c: process ids, and the operations that look one process up.
pub mod Laws
use neos.Base.{
  ℕ, zero, suc, ◌+◌, ◌-◌, Bool, true, false, not, Option, none, some, List, [], ◌∷◌, leb,
  if◌then◌else◌,
}
use neos.Base.Int.{ℤ, pos, negsuc, ◌+ℤ◌}
use neos.Scheduler.State.{
  Descriptor, Sched, kfree_memory, vfs_close, kfree_files, kfree_file_exists, ◌>>=◌, entry, put,
  call,
}

-- `pid - 1`, where the pid has passed the test below
abbrev pub index : ℤ → ℕ
index (pos (suc i)) = i
index (pos zero) = 0
index (negsuc n) = 0

module _ {Ref : Type 0} where
  -- `scheduler_pid_invalid`. Process ids count from 1.
  unfoldable pub pid_invalid : Sched Ref → ℤ → Option Bool
  pid_invalid s (negsuc n) = some true
  pid_invalid s (pos zero) = some true
  pid_invalid s (pos (suc i)) =
      if leb s.process_count i then some true else do process ← entry s i; some (not process.exists)

  unfoldable pub get_current_pid : Sched Ref → ℤ
  get_current_pid s = s.process_running +ℤ pos 1

  -- `scheduler_load_process_info` returns 0 and the fields (`some`), or 1. The caller gets all
  -- fields but `exists` and `stack`.
  unfoldable pub load_process_info : Sched Ref → ℤ → Option (Option (Descriptor Ref))
  load_process_info s pid = do
    invalid ← pid_invalid s pid
    if invalid then some none else do process ← entry s (index pid); some (some process)

  -- The loop of `scheduler_process_list` at `i`, with `f` rounds left while `i <= process_count`.
  pub process_list_loop : ℕ → Sched Ref → ℕ → Option (Option ℕ)
  process_list_loop zero s i = some none
  process_list_loop (suc f) s i = do
    process ← entry s i
    let rest = process_list_loop f s (i + 1)
    if process.exists then some (some (i + 1)) else rest

  -- It returns 1 and the next pid (`some`), or 0.
  pub process_list : Sched Ref → ℤ → Option (Option ℕ)
  process_list s (negsuc n) = some none
  process_list s (pos i) = process_list_loop (s.process_count + 1 - i) s i

  unfoldable pub chdir : Sched Ref → ℤ → Ref → Option (ℕ × Sched Ref)
  chdir s pid cwd = do
    invalid ← pid_invalid s pid
    if invalid then some (1, s) else do
      process ← entry s (index pid)
      some (0, put s (index pid) (record process { cwd = cwd }))

  unfoldable pub move_process : Sched Ref → ℤ → ℕ → Option (ℕ × Sched Ref)
  move_process s pid new_address = do
    invalid ← pid_invalid s pid
    if invalid then some (1, s) else do
      process ← entry s (index pid)
      some (0, put s (index pid) (record process { process_memory = new_address }))

  pub remove_entry : Sched Ref → ℕ → Option (Sched Ref)
  remove_entry s i = do
    process ← entry s i
    let dead = put s i (record process { exists = false })
    some (call (kfree_file_exists i) (call (kfree_files i) dead))

  pub kill_process : Sched Ref → ℤ → Option (ℕ × Sched Ref)
  kill_process s pid = do
    invalid ← pid_invalid s pid
    if invalid then some (1, s) else do
      process ← entry s (index pid)
      let freed = call (vfs_close process.cwd) (call (kfree_memory process.process_memory) s)
      s' ← remove_entry freed (index pid)
      some (0, s')
