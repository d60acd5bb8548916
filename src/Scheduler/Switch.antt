-- ===== src/Scheduler/Switch.antt =====
-- scheduler.c, scheduler_context_switch.
pub mod Laws
use neos.Base.{
  ℕ, zero, suc, ◌+◌, ◌-◌, Bool, true, false, not, Option, none, some, List, leb, ◌==◌, length,
  if◌then◌else◌,
}
use neos.Base.Int.{ℤ, pos, negsuc}
use neos.Scheduler.State.{Descriptor, Sched, ◌>>=◌, entry, put}

module _ {Ref : Type 0} where
  -- `while (table[process_running].exists == false) process_running ++;` The walk is on as many
  -- rounds as the table has slots left: behind the last one it reads outside the table.
  pub next_process : ℕ → Sched Ref → ℕ → Option ℕ
  next_process zero s i = none
  next_process (suc f) s i = do
    process ← entry s i
    let rest = next_process f s (i + 1)
    if not process.exists then rest else some i

  pub switch_from : ℕ → ℕ → Sched Ref → Option (ℕ × Sched Ref)
  switch_from r old_stack s = do
    old ← entry s r
    let saved = put s r (record old { stack = old_stack })
    next ← next_process (length saved.table - (r + 1)) saved (r + 1)
    let running = if leb s.process_count next then 0 else next
    process ← entry saved running
    some (process.stack, record saved { process_running = pos running })

  pub switch_running : ℤ → ℕ → Sched Ref → Option (ℕ × Sched Ref)
  switch_running (negsuc n) old_stack s = none
  switch_running (pos r) old_stack s = switch_from r old_stack s

  -- It returns the stack to go on with. `table[-1]`, before the first switch, is outside the table.
  pub context_switch : ℕ → Sched Ref → Option (ℕ × Sched Ref)
  context_switch old_stack s =
      if s.process_count == 0
      then some (old_stack, s)
      else switch_running s.process_running old_stack s
