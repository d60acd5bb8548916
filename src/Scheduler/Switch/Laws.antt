-- ===== src/Scheduler/Switch/Laws.antt =====
-- scheduler.c: which process the context switch goes on with.
use native.Mathlib.Decide.{ℕ_discrete}
use neos.Base.{
  ℕ, zero, suc, ◌+◌, ◌-◌, ◌≤◌, ◌<◌, ◌≡◌, refl, ◌≢◌, none, some, arith, length, lt_of_get_elem?,
  get_elem?-set_self, get_elem?-set_ne, length-set, ne→==, lt→leb, le→leb, ◌∙◌, ap,
}
use neos.Base.Int.{pos, negsuc}
use neos.Scheduler.State.{Descriptor, Sched, entry, put}
use neos.Scheduler.Pid.Laws.{Alive, Dead}
use neos.Scheduler.Switch.{next_process, switch_from, switch_running, context_switch}

module _ {Ref : Type 0} where
  -- `j` is the first slot from `i` on that belongs to a process.
  pub record IsNext (s : Sched Ref) (i j : ℕ) : Type 0 where
    pub later : i ≤ j
    pub alive : Alive s j
    pub skipped : (k : ℕ) → i ≤ k → k < j → Dead s k

  next_process-IsNext :
      (f : ℕ) (s : Sched Ref) (i j : ℕ) → j < i + f → IsNext s i j → next_process f s i ≡ some j
  unfolding next_process
  next_process-IsNext zero s i j high n = absurd (omega (arith, n.later))
  next_process-IsNext (suc f) s i j high n = elim (ℕ_discrete i j) [
    | yes e ↦ rw (e, n.alive.1, n.alive.2) refl
    | no ne ↦
        let (d, e, dead) = n.skipped i (omega arith) (omega (arith, n.later)) in
        rw (e, dead)
          (next_process-IsNext f s (i + 1) j (omega arith) (record {
            later = omega (arith, n.later);
            alive = n.alive;
            skipped = λ k a b. n.skipped k (omega arith) b;
          }))
  ]

  -- the table once the running process's stack has been saved
  abbrev pub saved : Sched Ref → ℕ → Descriptor Ref → ℕ → Sched Ref
  saved s r old stack = put s r (record old { stack = stack })

  IsNext-saved :
      (s : Sched Ref) (r j : ℕ) (old : Descriptor Ref) (stack : ℕ)
      → IsNext s (r + 1) j
      → IsNext (saved s r old stack) (r + 1) j
  IsNext-saved s r j old stack n = record {
    later = n.later;
    alive = (n.alive.0, get_elem?-set_ne s.table _ (omega (arith, n.later)) ∙ n.alive.1, n.alive.2);
    skipped = λ k a b.
        let (d, e, dead) = n.skipped k a b in
        (d, get_elem?-set_ne s.table _ (omega arith) ∙ e, dead);
  }

  context_switch-pos :
      (s : Sched Ref) (r stack : ℕ)
      → s.process_running ≡ pos r
      → 0 < s.process_count
      → context_switch stack s ≡ switch_from r stack s
  unfolding context_switch switch_running
  context_switch-pos s r stack e some_exist =
      rw (ne→== s.process_count 0 (omega arith)) (ap (λ p. switch_running p stack s) e)

  module _ (s : Sched Ref) (r j stack : ℕ) (old : Descriptor Ref) (held : entry s r ≡ some old)
      (running : s.process_running ≡ pos r) (next : IsNext s (r + 1) j) where
    found :
        next_process (length (saved s r old stack).table - (r + 1)) (saved s r old stack) (r + 1)
        ≡ some j
    found =
        next_process-IsNext _ (saved s r old stack) (r + 1) j
          (omega (
            arith,
            lt_of_get_elem? s.table j next.alive.1,
            length-set s.table r (record old { stack = stack }),
            next.later,
          ))
          (IsNext-saved s r j old stack next)

    behind : r + 1 ≤ j → r ≢ j
    behind h = omega arith

    -- The next process behind the running one, skipping free slots, goes on: its saved stack is
    -- returned, it becomes the running process, the old stack is saved in the slot of the process
    -- that ran, and nothing else in the table changes.
    pub context_switch-next :
        j < s.process_count
        → (s' : Sched Ref) × (context_switch stack s ≡ some (next.alive.0.stack, s'))
          × (s'.process_running ≡ pos j)
          × (entry s' r ≡ some (record old { stack = stack }))
          × ((k : ℕ) → r ≢ k → entry s' k ≡ entry s k)
    unfolding switch_from
    context_switch-next low = (
      record (saved s r old stack) { process_running = pos j },
      context_switch-pos s r stack running (omega arith)
          ∙ rw
              (
                held,
                found,
                lt→leb s.process_count j low,
                get_elem?-set_ne s.table (record old { stack = stack }) (behind next.later),
                next.alive.1,
              )
              refl,
      refl,
      get_elem?-set_self s.table r _ (lt_of_get_elem? s.table r held),
      λ k ne. get_elem?-set_ne s.table _ ne,
    )

    -- Where the next slot in use lies at or behind `process_count`, the switch goes back to the
    -- first slot, whether a process exists there or not.
    pub context_switch-wrap :
        (first : Descriptor Ref)
        → 0 < s.process_count
        → s.process_count ≤ j
        → entry s 0 ≡ some first
        → r ≢ 0
        → (s' : Sched Ref) × (context_switch stack s ≡ some (first.stack, s'))
          × (s'.process_running ≡ pos 0)
    unfolding switch_from
    context_switch-wrap first some_exist high e ne = (
      record (saved s r old stack) { process_running = pos 0 },
      context_switch-pos s r stack running some_exist
          ∙ rw
              (
                held,
                found,
                le→leb s.process_count j high,
                get_elem?-set_ne s.table (record old { stack = stack }) ne,
                e,
              )
              refl,
      refl,
    )

  -- Before the first switch no process is running, and once a process has been counted the switch
  -- then saves the stack in front of the table.
  pub context_switch-first :
      (s : Sched Ref) (n stack : ℕ)
      → s.process_running ≡ negsuc n
      → 0 < s.process_count
      → context_switch stack s ≡ none
  unfolding context_switch switch_running
  context_switch-first s n stack e some_exist =
      rw (ne→== s.process_count 0 (omega arith)) (ap (λ p. switch_running p stack s) e)
