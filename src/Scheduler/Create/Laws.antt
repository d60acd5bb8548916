-- ===== src/Scheduler/Create/Laws.antt =====
-- scheduler.c: the slot that a new process gets, and how the processes are counted.
use native.Mathlib.Decide.{ℕ_discrete}
use neos.Base.{
  ℕ, zero, suc, ◌+◌, ◌*◌, ◌≤◌, ◌<◌, ◌≡◌, refl, ◌≢◌, ◌⊎◌, inl, inr, true, false, Bool, Option, none,
  some, ◌++◌, arith, length, get_elem?_of_lt, get_elem?-set_self, get_elem?-set_ne, get_elem?_of_le,
  Bool-cases, get_elem?-append, ap, ◌∙◌, lt_of_get_elem?, ne→==, eq→==,
}
use neos.Base.Int.{ℤ}
use neos.Scheduler.State.{Descriptor, Sched, entry, put}
use neos.Scheduler.Pid.Laws.{Alive, Dead}
use neos.Scheduler.Create.{
  Fresh, Arguments, ProgramImage, Machine, find_slot, append_slot, new_process, fill_slot,
  new_entry, create_loaded, parent_invalid, create_process,
}

module _ {Ref : Type 0} where
  -- every slot below `n` belongs to a process
  abbrev pub AllAlive : Sched Ref → ℕ → Type 0
  AllAlive s n = (k : ℕ) → k < n → Alive s k

  find_slot-free :
      (f : ℕ) (s : Sched Ref) (i j : ℕ)
      → i ≤ j
      → j < i + f
      → ((k : ℕ) → k < j → Alive s k)
      → Dead s j
      → find_slot f s i ≡ some j
  unfolding find_slot
  find_slot-free zero s i j low high before dead = absurd (omega arith)
  find_slot-free (suc f) s i j low high before (d, e, dead) = elim (ℕ_discrete i j) [
    | yes same ↦ rw (same, e, dead)
    | no differ ↦
        let (d', e', alive) = before i (omega arith) in
        rw (e', alive)
          (find_slot-free f s (i + 1) j (omega arith) (omega arith) before (d, e, dead))
  ]

  find_slot-end :
      (f : ℕ) (s : Sched Ref) (i n : ℕ) → i + f ≡ n → AllAlive s n → find_slot f s i ≡ some n
  unfolding find_slot
  find_slot-end zero s i n e all = ap some (omega arith)
  find_slot-end (suc f) s i n e all =
      let (d, e', alive) = all i (omega arith) in
      rw (e', alive) (find_slot-end f s (i + 1) n (omega arith) all)

  -- the table after the slot has been filled
  abbrev filled : Sched Ref → ℕ → Descriptor Ref → Sched Ref
  filled s i process = record (put s i process) { process_count = s.process_count + 1 }

  fill_slot-filled :
      (i : ℕ) (process : Descriptor Ref) (s : Sched Ref)
      → i < length s.table
      → fill_slot i process s ≡ some (filled s i process)
  unfolding fill_slot
  fill_slot-filled i process s low = rw ((get_elem?_of_lt s.table i low).1) refl

  fill_slot-none :
      (i : ℕ) (process : Descriptor Ref) (s : Sched Ref)
      → length s.table ≤ i
      → fill_slot i process s ≡ none
  unfolding fill_slot
  fill_slot-none i process s high = rw (get_elem?_of_le s.table i high) refl

  -- With a free slot below `process_count`, a new process is put into the first one. The processes
  -- are counted up by one all the same.
  pub new_entry-reuse :
      (root : Ref) (fresh : Fresh Ref) (args : Arguments Ref) (s : Sched Ref) (j : ℕ)
      → j < s.process_count
      → AllAlive s j
      → Dead s j
      → (s' : Sched Ref) × (new_entry root fresh args s ≡ some s')
        × (entry s' j ≡ some (new_process root fresh args))
        × ((k : ℕ) → j ≢ k → entry s' k ≡ entry s k)
        × (s'.process_count ≡ s.process_count + 1)
  unfolding new_entry
  new_entry-reuse root fresh args s j low before dead =
      let process = new_process root fresh args in
      let held = lt_of_get_elem? s.table j dead.1 in
      (
        filled s j process,
        rw
            (
              find_slot-free s.process_count s 0 j (omega arith) (omega arith) before dead,
              ne→== j s.process_count (omega arith),
            )
            (fill_slot-filled j process s held),
        get_elem?-set_self s.table j process held,
        (λ k ne. get_elem?-set_ne s.table process ne),
        refl,
      )

  -- With all counted slots in use the new process goes behind them.
  new_entry-all :
      (root : Ref) (fresh : Fresh Ref) (args : Arguments Ref) (s : Sched Ref)
      → AllAlive s s.process_count
      → new_entry root fresh args s
        ≡ fill_slot s.process_count (new_process root fresh args) (append_slot fresh s)
  unfolding new_entry
  new_entry-all root fresh args s all =
      rw
        (
          find_slot-end s.process_count s 0 s.process_count (omega arith) all,
          eq→== s.process_count s.process_count refl,
        )
        refl

  append_slot-same :
      (fresh : Fresh Ref) (s : Sched Ref)
      → s.process_table_size ≢ s.process_count
      → append_slot fresh s ≡ record s { process_count = s.process_count + 1 }
  unfolding append_slot
  append_slot-same fresh s ne = rw (ne→== s.process_table_size s.process_count ne) refl

  append_slot-grown :
      (fresh : Fresh Ref) (s : Sched Ref)
      → s.process_table_size ≡ s.process_count
      → append_slot fresh s ≡ record s {
        process_table_size = s.process_table_size * 2;
        table = s.table ++ fresh.slots;
        process_count = s.process_count + 1;
      }
  unfolding append_slot
  append_slot-grown fresh s e = rw (eq→== s.process_table_size s.process_count e) refl

  -- The walk leaves the table.
  find_slot-out :
      (f : ℕ) (s : Sched Ref) (i : ℕ)
      → AllAlive s (length s.table)
      → i ≤ length s.table
      → length s.table < i + f
      → find_slot f s i ≡ none
  unfolding find_slot
  find_slot-out zero s i all low out = absurd (omega arith)
  find_slot-out (suc f) s i all low out = elim (ℕ_discrete i (length s.table)) [
    | yes e ↦ rw (get_elem?_of_le s.table i (omega arith)) refl
    | no ne ↦
        let (d, e', alive) = all i (omega arith) in
        rw (e', alive) (find_slot-out f s (i + 1) all (omega arith) (omega arith))
  ]

  -- With all slots below `process_count` in use, and a further slot in the table, a new process is
  -- put there; the count grows by two, so that it also covers a slot that no process has filled.
  pub new_entry-append :
      (root : Ref) (fresh : Fresh Ref) (args : Arguments Ref) (s : Sched Ref)
      → AllAlive s s.process_count
      → (s.process_table_size ≢ s.process_count × (s.process_count < length s.table))
        ⊎ ((s.process_table_size ≡ s.process_count)
            × (s.process_count < length (s.table ++ fresh.slots)))
      → (s' : Sched Ref) × (new_entry root fresh args s ≡ some s')
        × (entry s' s.process_count ≡ some (new_process root fresh args))
        × ((k : ℕ) → k < s.process_count → entry s' k ≡ entry s k)
        × (s'.process_count ≡ s.process_count + 2)
  new_entry-append root fresh args s all (inl (ne, room)) =
      let process = new_process root fresh args in
      let base : Sched Ref = record s { process_count = s.process_count + 1 } in
      (
        filled base s.process_count process,
        new_entry-all root fresh args s all
            ∙ rw (append_slot-same fresh s ne) (fill_slot-filled s.process_count process base room),
        get_elem?-set_self s.table s.process_count process room,
        (λ k low. get_elem?-set_ne s.table process (omega arith)),
        omega arith,
      )
  new_entry-append root fresh args s all (inr (e, room)) =
      let process = new_process root fresh args in
      let base : Sched Ref = record s {
        process_table_size = s.process_table_size * 2;
        table = s.table ++ fresh.slots;
        process_count = s.process_count + 1;
      } in
      (
        filled base s.process_count process,
        new_entry-all root fresh args s all
            ∙ rw (append_slot-grown fresh s e) (fill_slot-filled s.process_count process base room),
        get_elem?-set_self (s.table ++ fresh.slots) s.process_count process room,
        (λ k low.
            get_elem?-set_ne (s.table ++ fresh.slots) process (omega arith)
            ∙ get_elem?-append s.table fresh.slots k (lt_of_get_elem? s.table k (all k low).1)),
        omega arith,
      )

  -- Where the count has run past the table without meeting its size, the next creation reads or
  -- writes outside the table: if all slots of the table are in use and the count, which is not the
  -- table's size, is not below their number.
  pub new_entry-fault :
      (root : Ref) (fresh : Fresh Ref) (args : Arguments Ref) (s : Sched Ref)
      → AllAlive s (length s.table)
      → length s.table ≤ s.process_count
      → s.process_table_size ≢ s.process_count
      → new_entry root fresh args s ≡ none
  unfolding new_entry
  new_entry-fault root fresh args s all past differ =
      elim (ℕ_discrete s.process_count (length s.table)) [
        | yes e ↦
            new_entry-all root fresh args s (λ k low. all k (omega arith))
            ∙ rw (append_slot-same fresh s differ) (fill_slot-none s.process_count _ _ past)
        | no ne ↦ rw (find_slot-out s.process_count s 0 all (omega arith) (omega arith)) refl
      ]

  -- A creation that fails because the parent does not exist, or because the program could not be
  -- loaded, returns 1 with the process table unchanged and the interrupts left off.
  pub create_process-failed :
      (machine : Machine) (root : Ref) (fresh : Fresh Ref) (loaded : Option ProgramImage)
      (parent : ℤ) (file : Ref) (s : Sched Ref) (b : Bool)
      → parent_invalid parent (record s { interrupts = false }) ≡ some b
      → (b ≡ true) ⊎ (loaded ≡ none)
      → create_process machine root fresh loaded parent file s
        ≡ some (1, record s { interrupts = false })
  unfolding create_process create_loaded
  create_process-failed machine root fresh loaded parent file s b e why = elim (Bool-cases b) [
    | inl invalid ↦ rw (e, invalid) refl
    | inr fine ↦ rw (e, fine) (not_loaded loaded (ground arith))
  ]
    where
      not_loaded :
          (l : Option ProgramImage)
          → l ≡ none
          → create_loaded machine root fresh l parent file (record s { interrupts = false })
            ≡ some (1, record s { interrupts = false })
      not_loaded none h = refl
      not_loaded (some image) h = cc
