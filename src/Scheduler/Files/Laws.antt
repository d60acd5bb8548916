-- ===== src/Scheduler/Files/Laws.antt =====
-- scheduler.c: what the file operations do to a process that exists.
use neos.Base.{
  ℕ, zero, suc, ◌+◌, ◌≤◌, ◌<◌, ◌≡◌, refl, ◌≢◌, inl, inr, true, false, none, some, List, Option,
  Bool, arith, length, set, get_elem?, get_elem?_of_lt, lt_of_get_elem?, get_elem?-set_self,
  get_elem?-set_ne, length-set, if◌then◌else◌, Bool-cases, lt→leb, not, sym, ◌∙◌, Option-cases,
}
use native.Mathlib.Decide.{ℕ_discrete}
use neos.Base.Int.{ℤ, pos}
use neos.Scheduler.Pid.{index, pid_invalid, chdir, move_process, load_process_info}
use neos.Scheduler.State.{max_files, Descriptor, Sched, ◌>>=◌, entry, put}
use neos.Scheduler.Pid.Laws.{pid_invalid-false}
use neos.Scheduler.Files.{free_slot, store_file, flag_at, fput, fd_invalid, fget, fremove}

-- What the search for a free slot comes to.
pub data Search (flags : List Bool) (i n : ℕ) : Option ℕ → Type 0 where
  free :
      (j : ℕ)
      → i ≤ j
      → j < i + n
      → get_elem? flags j ≡ some false
      → ((k : ℕ) → i ≤ k → k < j → get_elem? flags k ≡ some true)
      → Search flags i n (some j)
  full : ((k : ℕ) → i ≤ k → k < i + n → get_elem? flags k ≡ some true) → Search flags i n none

from :
    (flags : List Bool) (i k : ℕ)
    → get_elem? flags i ≡ some true
    → i ≤ k
    → (i + 1 ≤ k → get_elem? flags k ≡ some true)
    → get_elem? flags k ≡ some true
from flags i k taken le rest = elim (ℕ_discrete i k) [
  | yes e ↦ rw (← e) taken
  | no ne ↦ rest (omega arith)
]

Search-taken :
    (flags : List Bool) (i n : ℕ) (r : Option ℕ)
    → get_elem? flags i ≡ some true
    → Search flags (i + 1) n r
    → Search flags i (suc n) r
Search-taken flags i n r taken (free j low high e before) =
    free j (omega arith) (omega arith) e λ k a b. from flags i k taken a (λ c. before k c b)
Search-taken flags i n r taken (full before) =
    full λ k a b. from flags i k taken a (λ c. before k c (omega arith))

free_slot-Search :
    (n : ℕ) (flags : List Bool) (i : ℕ)
    → i + n ≤ length flags
    → (r : Option ℕ) × (free_slot n (some flags) i ≡ some r) × Search flags i n r
unfolding free_slot
free_slot-Search zero flags i fits = (none, refl, full λ k a b. absurd (omega arith))
free_slot-Search (suc n) flags i fits =
    let (b, e) = get_elem?_of_lt flags i (omega arith) in
    elim (Bool-cases b) [
      | inl taken ↦
          let (r, e', w) = free_slot-Search n flags (i + 1) (omega arith) in
          (r, rw (e, taken) e', Search-taken flags i n r (rw e (cc)) w)
      | inr is_free ↦ (
        some i,
        rw (e, is_free) refl,
        free i (omega arith) (omega arith) (rw e (cc)) λ k a b. absurd (omega arith),
      )
    ]

free_slot-null : free_slot max_files none 0 ≡ none
unfolding max_files free_slot
free_slot-null = refl

module _ {Ref : Type 0} where
  -- Slot `i` of the table holds a process with its two arrays of files.
  pub record IsProcess (s : Sched Ref) (i : ℕ) (d : Descriptor Ref) (flags : List Bool)
      : Type 0 where
    pub counted : i < s.process_count
    pub held : entry s i ≡ some d
    pub alive : d.exists ≡ true
    pub flagged : d.file_exists ≡ some flags
    pub enough : length flags ≡ max_files
    pub roomy : length d.files ≡ max_files

  -- what `scheduler_fget` reads at slot `j` of a process's two arrays
  abbrev pub slot : List Bool → List Ref → ℕ → Option (Option Ref)
  slot flags files j = do
    taken ← get_elem? flags j
    if not taken then some none else do v ← get_elem? files j; some (some v)

  pub fget-slot :
      (s : Sched Ref) (i j : ℕ) (d : Descriptor Ref) (flags : List Bool)
      → IsProcess s i d flags
      → j < max_files
      → fget s (pos (suc i)) (pos (suc j)) ≡ slot flags d.files j
  unfolding fget fd_invalid
  fget-slot s i j d flags p low =
      rw (
        pid_invalid-false s i d p.counted p.held p.alive,
        lt→leb max_files j low,
        p.held,
        p.flagged,
      )

  -- The process after a reference has been stored at its slot `j`.
  IsProcess-store :
      (s : Sched Ref) (i j : ℕ) (d : Descriptor Ref) (flags : List Bool) (v : Ref)
      → IsProcess s i d flags
      → IsProcess (put s i (store_file d j v)) i (store_file d j v) (set flags j true)
  IsProcess-store s i j d flags v p = record {
    counted = p.counted;
    held = get_elem?-set_self s.table i (store_file d j v) (lt_of_get_elem? s.table i p.held);
    alive = p.alive;
    flagged = rw p.flagged;
    enough = length-set flags j true ∙ p.enough;
    roomy = length-set d.files j v ∙ p.roomy;
  }

  -- The outcome of `scheduler_fput`: either all slots are taken, it returns 0 and changes nothing;
  -- or it returns the number of the first free slot, where `scheduler_fget` then finds the
  -- reference, while every other file number gives what it gave before.
  pub data Put (s : Sched Ref) (i : ℕ) (flags : List Bool) (v : Ref) : ℕ × Sched Ref → Type 0 where
    refused : ((k : ℕ) → k < max_files → get_elem? flags k ≡ some true) → Put s i flags v (0, s)
    stored :
        {s' : Sched Ref} (j : ℕ)
        → j < max_files
        → get_elem? flags j ≡ some false
        → ((k : ℕ) → k < j → get_elem? flags k ≡ some true)
        → fget s' (pos (suc i)) (pos (suc j)) ≡ some (some v)
        → ((k : ℕ)
            → k < max_files
            → j ≢ k
            → fget s' (pos (suc i)) (pos (suc k)) ≡ fget s (pos (suc i)) (pos (suc k)))
        → Put s i flags v (j + 1, s')

  Put-free :
      (s : Sched Ref) (i j : ℕ) (d : Descriptor Ref) (flags : List Bool) (v : Ref)
      → IsProcess s i d flags
      → j < max_files
      → get_elem? flags j ≡ some false
      → ((k : ℕ) → k < j → get_elem? flags k ≡ some true)
      → Put s i flags v (j + 1, put s i (store_file d j v))
  Put-free s i j d flags v p low is_free before =
      let p' = IsProcess-store s i j d flags v p in
      stored j low is_free before
        (fget-slot _ i j _ _ p' low
          ∙ rw
              (
                get_elem?-set_self flags j true (omega (arith, p.enough)),
                get_elem?-set_self d.files j v (omega (arith, p.roomy)),
              )
              refl)
        λ k high ne.
          fget-slot _ i k _ _ p' high
          ∙ rw (get_elem?-set_ne flags true ne, get_elem?-set_ne d.files v ne)
              (sym (fget-slot s i k d flags p high))

  -- On a process that exists `scheduler_fput` always returns, with an outcome as `Put` says.
  pub fput-Put :
      (s : Sched Ref) (i : ℕ) (d : Descriptor Ref) (flags : List Bool) (v : Ref)
      → IsProcess s i d flags
      → (r : ℕ × Sched Ref) × (fput s (pos (suc i)) v ≡ some r) × Put s i flags v r
  unfolding fput
  fput-Put s i d flags v p =
      let (found, e, w) = free_slot-Search max_files flags 0 (omega (arith, p.enough)) in
      rw (pid_invalid-false s i d p.counted p.held p.alive, p.held, p.flagged, e) (after found w)
    where
      after :
          (found : Option ℕ)
          → Search flags 0 max_files found
          → (r : ℕ × Sched Ref) × ((elim found [
            | none ↦ some (0, s)
            | some n ↦ some (n + 1, put s i (store_file d n v))
          ])
              ≡ some r)
            × Put s i flags v r
      after none (full before) = ((0, s), refl, refused λ k h. before k (omega arith) (omega arith))
      after (some n) (free j low high is_free before) = (
        (j + 1, put s i (store_file d j v)),
        refl,
        Put-free s i j d flags v p (omega arith) is_free λ k h. before k (omega arith) h,
      )

  -- Removing one file that is open returns 0 and clears the pointer to all of the process's flags:
  -- after that `scheduler_fget` of any file number in range, `scheduler_fput` and another
  -- `scheduler_fremove` read through a null pointer.
  pub fremove_lem :
      (s : Sched Ref) (i j : ℕ) (d : Descriptor Ref) (flags : List Bool)
      → IsProcess s i d flags
      → j < max_files
      → get_elem? flags j ≡ some true
      → (s' : Sched Ref) × (fremove s (pos (suc i)) (pos (suc j)) ≡ some (0, s'))
        × ((k : ℕ) → k < max_files → fget s' (pos (suc i)) (pos (suc k)) ≡ none)
        × ((k : ℕ) → k < max_files → fremove s' (pos (suc i)) (pos (suc k)) ≡ none)
        × ((v : Ref) → fput s' (pos (suc i)) v ≡ none)
  unfolding fremove fget fput fd_invalid
  fremove_lem s i j d flags p low taken =
      let d' : Descriptor Ref = record d { file_exists = none } in
      let s' : Sched Ref = put s i d' in
      let held : entry s' i ≡ some d' =
        get_elem?-set_self s.table i d' (lt_of_get_elem? s.table i p.held) in
      let valid = pid_invalid-false s' i d' p.counted held p.alive in
      (
        s',
        rw
            (
              pid_invalid-false s i d p.counted p.held p.alive,
              lt→leb max_files j low,
              p.held,
              p.flagged,
              taken,
            )
            refl,
        (λ k h. rw (valid, lt→leb max_files k h, held) refl),
        (λ k h. rw (valid, lt→leb max_files k h, held) refl),
        (λ v. rw (valid, held, free_slot-null) refl),
      )

  -- What `scheduler_fget` found was read through an entry of the table.
  pub fget-entry :
      (s : Sched Ref) (pid fd : ℤ) (v : Ref)
      → fget s pid fd ≡ some (some v)
      → (d : Descriptor Ref) × (entry s (index pid) ≡ some d)
  unfolding fget
  fget-entry s pid fd v h = elim (Option-cases (pid_invalid s pid)) [
    | inl e ↦ absurd (ground (arith, e, h))
    | inr (true, e) ↦ absurd (ground (arith, e, h))
    | inr (false, e) ↦ elim (Bool-cases (fd_invalid fd)) [
      | inl bad ↦ absurd (ground (arith, e, bad, h))
      | inr fine ↦ elim (Option-cases (entry s (index pid))) [
        | inl e2 ↦ let wrong : none ≡ some (some v) = rw (fget, e, fine, e2) at h in cc
        | inr (d, e2) ↦ (d, e2)
      ]
    ]
  ]

  -- The process after its working directory has been set.
  pub IsProcess-chdir :
      (s : Sched Ref) (i : ℕ) (d : Descriptor Ref) (flags : List Bool) (v : Ref)
      → IsProcess s i d flags
      → IsProcess (put s i (record d { cwd = v })) i (record d { cwd = v }) flags
  IsProcess-chdir s i d flags v p = record {
    counted = p.counted;
    held = get_elem?-set_self s.table i (record d { cwd = v }) (lt_of_get_elem? s.table i p.held);
    alive = p.alive;
    flagged = p.flagged;
    enough = p.enough;
    roomy = p.roomy;
  }

  pub chdir-IsProcess :
      (s : Sched Ref) (i : ℕ) (d : Descriptor Ref) (flags : List Bool) (v : Ref)
      → IsProcess s i d flags
      → chdir s (pos (suc i)) v ≡ some (0, put s i (record d { cwd = v }))
  unfolding chdir
  chdir-IsProcess s i d flags v p =
      rw (pid_invalid-false s i d p.counted p.held p.alive, p.held) refl

  pub load_process_info-IsProcess :
      (s : Sched Ref) (i : ℕ) (d : Descriptor Ref) (flags : List Bool)
      → IsProcess s i d flags
      → load_process_info s (pos (suc i)) ≡ some (some d)
  unfolding load_process_info
  load_process_info-IsProcess s i d flags p =
      rw (pid_invalid-false s i d p.counted p.held p.alive, p.held) refl

  -- `scheduler_fput` does not change which process runs.
  pub fput-running :
      (s s' : Sched Ref) (pid : ℤ) (v : Ref) (n : ℕ)
      → fput s pid v ≡ some (n, s')
      → s'.process_running ≡ s.process_running
  unfolding fput
  fput-running s s' pid v n h = elim (Option-cases (pid_invalid s pid)) [
    | inl e ↦ absurd (ground (arith, e, h))
    | inr (true, e) ↦ let same : some (0, s) ≡ some (n, s') = rw (fput, e) at h in cc
    | inr (false, e) ↦ elim (Option-cases (entry s (index pid))) [
      | inl e2 ↦ let bad : none ≡ some (n, s') = rw (fput, e, e2) at h in cc
      | inr (d, e2) ↦ elim (Option-cases (free_slot max_files d.file_exists 0)) [
        | inl e3 ↦ let bad : none ≡ some (n, s') = rw (fput, e, e2, e3) at h in cc
        | inr (none, e3) ↦ let same : some (0, s) ≡ some (n, s') = rw (fput, e, e2, e3) at h in cc
        | inr (some i, e3) ↦
            let same : some (i + 1, put s (index pid) (store_file d i v)) ≡ some (n, s') =
              rw (fput, e, e2, e3) at h in
            cc
      ]
    ]
  ]

  pub fremove-running :
      (s s' : Sched Ref) (pid fd : ℤ) (n : ℕ)
      → fremove s pid fd ≡ some (n, s')
      → s'.process_running ≡ s.process_running
  unfolding fremove
  fremove-running s s' pid fd n h = elim (Option-cases (pid_invalid s pid)) [
    | inl e ↦ absurd (ground (arith, e, h))
    | inr (true, e) ↦ let same : some (1, s) ≡ some (n, s') = rw (fremove, e) at h in cc
    | inr (false, e) ↦ elim (Bool-cases (fd_invalid fd)) [
      | inl e2 ↦ let same : some (1, s) ≡ some (n, s') = rw (fremove, e, e2) at h in cc
      | inr e2 ↦ elim (Option-cases (entry s (index pid))) [
        | inl e3 ↦ let bad : none ≡ some (n, s') = rw (fremove, e, e2, e3) at h in cc
        | inr (d, e3) ↦ elim (Option-cases (flag_at d.file_exists (index fd))) [
          | inl e4 ↦ let bad : none ≡ some (n, s') = rw (fremove, e, e2, e3, e4) at h in cc
          | inr (false, e4) ↦
              let same : some (1, s) ≡ some (n, s') = rw (fremove, e, e2, e3, e4) at h in cc
          | inr (true, e4) ↦
              let same : some (0, put s (index pid) (record d { file_exists = none }))
                  ≡ some (n, s') =
                rw (fremove, e, e2, e3, e4) at h in
              cc
        ]
      ]
    ]
  ]

  -- The process after a reference of it has been written to.
  pub IsProcess-files :
      (s : Sched Ref) (i j : ℕ) (d : Descriptor Ref) (flags : List Bool) (v : Ref)
      → IsProcess s i d flags
      → IsProcess
          (put s i (record d { files = set d.files j v }))
          i
          (record d { files = set d.files j v })
          flags
  IsProcess-files s i j d flags v p = record {
    counted = p.counted;
    held =
        get_elem?-set_self s.table i (record d { files = set d.files j v })
          (lt_of_get_elem? s.table i p.held);
    alive = p.alive;
    flagged = p.flagged;
    enough = p.enough;
    roomy = length-set d.files j v ∙ p.roomy;
  }

  pub move_process-IsProcess :
      (s : Sched Ref) (i : ℕ) (d : Descriptor Ref) (flags : List Bool) (a : ℕ)
      → IsProcess s i d flags
      → (move_process s (pos (suc i)) a ≡ some (0, put s i (record d { process_memory = a })))
        × (entry (put s i (record d { process_memory = a })) i
            ≡ some (record d { process_memory = a }))
  unfolding move_process
  move_process-IsProcess s i d flags a p = (
    rw (pid_invalid-false s i d p.counted p.held p.alive, p.held) refl,
    get_elem?-set_self s.table i (record d { process_memory = a })
        (lt_of_get_elem? s.table i p.held),
  )
