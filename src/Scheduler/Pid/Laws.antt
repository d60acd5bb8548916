-- ===== src/Scheduler/Pid/Laws.antt =====
-- scheduler.c: listing the processes, and killing one.
use neos.Base.{
  ℕ, zero, suc, ◌+◌, ◌-◌, ◌≤◌, ◌<◌, ◌≡◌, refl, inl, inr, true, false, none, some, arith, length,
  get_elem?_of_lt, Bool-cases, Option, lt→leb,
}
use native.Mathlib.Decide.{ℕ_discrete}
use neos.Base.Int.{pos}
use neos.Scheduler.State.{Descriptor, Sched, entry}
use neos.Scheduler.Pid.{pid_invalid, process_list_loop, process_list}

module _ {Ref : Type 0} where
  -- The slot `i` of the table belongs to a process.
  abbrev pub Alive : Sched Ref → ℕ → Type 0
  Alive s i = (d : Descriptor Ref) × (entry s i ≡ some d) × (d.exists ≡ true)

  abbrev pub Dead : Sched Ref → ℕ → Type 0
  Dead s i = (d : Descriptor Ref) × (entry s i ≡ some d) × (d.exists ≡ false)

  -- What the walk from `i` over the next `f` slots finds: the first process, or that there is none.
  pub data Walk (s : Sched Ref) (i f : ℕ) : Option ℕ → Type 0 where
    found :
        (j : ℕ)
        → i ≤ j
        → j < i + f
        → Alive s j
        → ((k : ℕ) → i ≤ k → k < j → Dead s k)
        → Walk s i f (some (j + 1))
    nobody : ((k : ℕ) → i ≤ k → k < i + f → Dead s k) → Walk s i f none

  Dead-from : (s : Sched Ref) (i k : ℕ) → Dead s i → i ≤ k → (i + 1 ≤ k → Dead s k) → Dead s k
  Dead-from s i k dead le rest = elim (ℕ_discrete i k) [
    | yes e ↦ rw (← e) dead
    | no ne ↦ rest (omega arith)
  ]

  Walk-Dead :
      (s : Sched Ref) (i f : ℕ) (r : Option ℕ) → Dead s i → Walk s (i + 1) f r → Walk s i (suc f) r
  Walk-Dead s i f r dead (found j low high alive before) =
      found j (omega arith) (omega arith) alive λ k a b. Dead-from s i k dead a (λ c. before k c b)
  Walk-Dead s i f r dead (nobody before) =
      nobody λ k a b. Dead-from s i k dead a (λ c. before k c (omega arith))

  process_list_loop-Walk :
      (f : ℕ) (s : Sched Ref) (i : ℕ)
      → i + f ≤ length s.table
      → (r : Option ℕ) × (process_list_loop f s i ≡ some r) × Walk s i f r
  unfolding process_list_loop
  process_list_loop-Walk zero s i fits = (none, refl, nobody λ k a b. absurd (omega arith))
  process_list_loop-Walk (suc f) s i fits =
      let (d, e) = get_elem?_of_lt s.table i (omega arith) in
      elim (Bool-cases d.exists) [
        | inl alive ↦ (
          some (i + 1),
          rw (e, alive) refl,
          found i (omega arith) (omega arith) (d, e, alive) λ k a b. absurd (omega arith),
        )
        | inr dead ↦
            let (r, e', w) = process_list_loop-Walk f s (i + 1) (omega arith) in
            (r, rw (e, dead) e', Walk-Dead s i f r (d, e, dead) w)
      ]

  -- Where the table holds one slot more than `process_count`, `scheduler_process_list` finds the
  -- next process after a pid: it returns the least pid above the given one whose slot exists, or 0
  -- when all slots up to and including `process_count` are free.
  pub process_list-Walk :
      (s : Sched Ref) (i : ℕ)
      → i ≤ s.process_count + 1
      → s.process_count + 1 ≤ length s.table
      → (r : Option ℕ) × (process_list s (pos i) ≡ some r) × Walk s i (s.process_count + 1 - i) r
  unfolding process_list
  process_list-Walk s i low fits =
      process_list_loop-Walk (s.process_count + 1 - i) s i (omega arith)

  pub pid_invalid-false :
      (s : Sched Ref) (i : ℕ) (d : Descriptor Ref)
      → i < s.process_count
      → entry s i ≡ some d
      → d.exists ≡ true
      → pid_invalid s (pos (suc i)) ≡ some false
  unfolding pid_invalid
  pid_invalid-false s i d low e alive = rw (lt→leb s.process_count i low, e, alive)

  pub pid_invalid-true :
      (s : Sched Ref) (i : ℕ) (d : Descriptor Ref)
      → i < s.process_count
      → entry s i ≡ some d
      → d.exists ≡ false
      → pid_invalid s (pos (suc i)) ≡ some true
  unfolding pid_invalid
  pid_invalid-true s i d low e dead = rw (lt→leb s.process_count i low, e, dead)
