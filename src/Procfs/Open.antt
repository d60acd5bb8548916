-- ===== src/Procfs/Open.antt =====
-- procfs.c, procfs_open: which numbers open a process.
use neos.Base.{
  ℕ, zero, suc, ◌+◌, ◌-◌, ◌^◌, lt→ltb, if◌then◌else◌, ◌≤◌, ◌<◌, ◌≡◌, refl, ◌≢◌, inl, inr, Bool,
  true, false, none, some, Option, List, [], ◌∷◌, arith, ◌∙◌, ◌==◌, Bool-cases, length, ◌⊎◌,
  lt-cases, ap, sym, ==→eq, ==→ne, eq→==, ne→==,
}
use neos.Base.Int.{ℤ, pos, minus, to_int}
use neos.Scheduler.State.{Sched}
use neos.Scheduler.Pid.Laws.{Alive, Dead, Walk, found, nobody, process_list-Walk}
use neos.Procfs.Digits.{str_to_uint-uint_to_str}
use neos.Vfs.Tree.{text_eq}
use neos.Procfs.{
  procfs_lookup, procfs_root, str_to_uint, str_loop, name_self, ProcNode, ProcState, node_root,
  node_proc, find_pid, open_root, procfs_open, uint_to_str, linux_enoent,
}

text_eq→eq : (s t : List ℕ) → text_eq s t ≡ true → s ≡ t
text_eq→eq [] [] h = refl
text_eq→eq [] (d ∷ t) h = absurd (ground (arith, h))
text_eq→eq (c ∷ s) [] h = absurd (ground (arith, h))
text_eq→eq (c ∷ s) (d ∷ t) h = elim (Bool-cases (c == d)) [
  | inl e ↦ rw (==→eq c d e, text_eq→eq s t (rw e at h)) refl
  | inr e ↦ absurd (ground (arith, h, e))
]

self-number : str_to_uint name_self 10 ≡ 0
unfolding str_to_uint str_loop
self-number = refl

not_self :
    (n : ℕ) (name : List ℕ) → str_to_uint name 10 ≡ n → n ≢ 0 → text_eq name name_self ≡ false
not_self n name e ne = elim (Bool-cases (text_eq name name_self)) [
  | inl h ↦
      let same = text_eq→eq name name_self h in
      absurd (ne (sym e ∙ ap (λ (t : List ℕ). str_to_uint t 10) same ∙ self-number))
  | inr h ↦ h
]

-- A pid fits its buffer of 16 bytes.
pid_text : (n : ℕ) → n + 1 < 2 ^ 31 → str_to_uint (uint_to_str (n + 1) 16 10) 10 ≡ n + 1
pid_text n small =
    str_to_uint-uint_to_str (n + 1) 16 10 (omega arith) (omega arith) (omega arith) (omega arith)

module _ {Ref : Type 0} where
  -- Whether the number is that of a process above a pid.
  pub data Met (s : Sched Ref) (n pid : ℕ) : Bool → Type 0 where
    alive : pid ≤ n → Alive s n → Met s n pid true
    dead : (pid ≤ n → n ≤ s.process_count → Dead s n) → Met s n pid false

  -- The walk of the process list, as a choice.
  Walk-cases :
      (s : Sched Ref) (i f : ℕ) (r : Option ℕ)
      → Walk s i f r
      → ((r ≡ none) × ((k : ℕ) → i ≤ k → k < i + f → Dead s k))
        ⊎ ((j : ℕ) × (r ≡ some (j + 1))
            × (i ≤ j)
            × (j < i + f)
            × Alive s j
            × ((k : ℕ) → i ≤ k → k < j → Dead s k))
  Walk-cases s i f r (nobody gone) = inl (refl, gone)
  Walk-cases s i f r (found j above below here skipped) = inr (j, refl, above, below, here, skipped)

  Met-Alive :
      (s : Sched Ref) (n pid : ℕ) (b : Bool)
      → Alive s n
      → n ≤ s.process_count
      → pid ≤ n
      → Met s n pid b
      → b ≡ true
  Met-Alive s n pid b here low above (alive le a) = refl
  Met-Alive s n pid b (d, e, yes_it) low above (dead gone) =
      let (d', e', no_such) = gone above low in absurd (ground (arith, e, e', yes_it, no_such))

  Met-further :
      (s : Sched Ref) (n pid j : ℕ) (b : Bool)
      → pid ≤ j
      → n ≢ j
      → ((k : ℕ) → pid ≤ k → k < j → Dead s k)
      → Met s n (j + 1) b
      → Met s n pid b
  Met-further s n pid j b above ne skipped (alive le here) = alive (omega arith) here
  Met-further s n pid j b above ne skipped (dead gone) = dead λ low fits. elim (lt-cases n j) [
    | inl lt ↦ skipped n low lt
    | inr (inl e) ↦ absurd (ne e)
    | inr (inr gt) ↦ gone (omega arith) fits
  ]

  find_pid-Met :
      (f : ℕ) (s : Sched Ref) (n pid : ℕ)
      → n ≤ s.process_count
      → pid ≤ s.process_count + 1
      → s.process_count + 1 ≤ length s.table
      → s.process_count + 1 - pid < f
      → (b : Bool) × (find_pid f s (pos (n + 1)) pid ≡ some b) × Met s n pid b
  unfolding find_pid
  find_pid-Met zero s n pid low fits table fuel = absurd (omega arith)
  find_pid-Met (suc f) s n pid low fits table fuel =
      let (r, e, walk) = process_list-Walk s pid fits table in
      elim (Walk-cases s pid (s.process_count + 1 - pid) r walk) [
        | inl (none_left, gone) ↦
            (false, rw (find_pid, e, none_left) refl, dead λ a b. gone n a (omega arith))
        | inr (j, next, above, below, here, skipped) ↦ elim (Bool-cases (n == j)) [
          | inl same ↦
              let n_is = ==→eq n j same in
              (
                true,
                rw (find_pid, e, next, eq→== (n + 1 + 0) (j + 1 + 0) (omega (arith, n_is))) refl,
                rw n_is (alive above here),
              )
          | inr other ↦
              let (b, e', met) = find_pid-Met f s n (j + 1) low (omega arith) table (omega arith) in
              (
                b,
                rw
                    (
                      find_pid,
                      e,
                      next,
                      ne→== (n + 1 + 0) (j + 1 + 0) (λ h. ==→ne n j other (omega (arith, h))),
                    )
                    e',
                Met-further s n pid j b above (==→ne n j other) skipped met,
              )
        ]
      ]

  procfs_open-root :
      (s : Sched Ref) (state : ProcState) (name : List ℕ) (flags : ℕ)
      → state.node ≡ node_root
      → procfs_open s state name flags ≡ open_root s state name flags
  unfolding procfs_open
  procfs_open-root s state name flags root =
      let at_node : ProcNode → Option (ℤ × ProcState) =
        λ n. open_root s (record state { node = n }) name flags in
      rw (procfs_open, root) (ap at_node root)

  open_root-find_pid :
      (s : Sched Ref) (state : ProcState) (name : List ℕ) (flags n : ℕ) (b : Bool)
      → text_eq name name_self ≡ false
      → to_int (str_to_uint name 10) ≡ pos n
      → find_pid (suc (suc s.process_count)) s (pos n) 0 ≡ some b
      → open_root s state name flags
        ≡ some (
            if b
            then (pos 0, record { pid = pos n; node = node_proc; offset = pos 0 })
            else (minus linux_enoent, state))
  unfolding open_root
  open_root-find_pid s state name flags n true other number e =
      let with_pid : ℤ → Option (ℤ × ProcState) =
        λ x. some (pos 0, record { pid = x; node = node_proc; offset = pos 0 }) in
      rw (open_root, other, number, e) (ap with_pid number)
  open_root-find_pid s state name flags n false other number e =
      rw (open_root, other, number, e) refl

  -- In the root, the number of a pid up to the count, as uint_to_str writes it, opens the process if
  -- there is one in its slot, and otherwise gives -ENOENT and leaves the state. The table is assumed
  -- to hold one slot more than the count, which is where the walk of the list ends.
  pub procfs_open-uint_to_str :
      (s : Sched Ref) (state : ProcState) (n flags : ℕ)
      → state.node ≡ node_root
      → n ≤ s.process_count
      → n + 1 < 2 ^ 31
      → s.process_count + 1 ≤ length s.table
      → (b : Bool) × Met s n 0 b
        × (procfs_open s state (uint_to_str (n + 1) 16 10) flags
            ≡ some (
                if b
                then (pos 0, record { pid = pos (n + 1); node = node_proc; offset = pos 0 })
                else (minus linux_enoent, state)))
  procfs_open-uint_to_str s state n flags root low small table =
      let name = uint_to_str (n + 1) 16 10 in
      let back = pid_text n small in
      let (b, e, met) =
        find_pid-Met (suc (suc s.process_count)) s n 0 low (omega arith) table (omega arith) in
      let other = not_self (n + 1) name back (λ h. absurd (omega (arith, h))) in
      let number : to_int (str_to_uint name 10) ≡ pos (n + 1) =
        rw (back, lt→ltb (n + 1) (2 ^ 31) small) refl in
      (
        b,
        met,
        procfs_open-root s state name flags root
            ∙ open_root-find_pid s state name flags (n + 1) b other number e,
      )

  -- The name that the file system has for a process leads back to it: opening the name that
  -- procfs_lookup gives, from the root, comes to the same place with the offset at 0.
  pub procfs_open-procfs_lookup :
      (s : Sched Ref) (state : ProcState) (n flags : ℕ)
      → state.node ≡ node_proc
      → state.pid ≡ pos (n + 1)
      → Alive s n
      → n ≤ s.process_count
      → n + 1 < 2 ^ 31
      → s.process_count + 1 ≤ length s.table
      → (name : List ℕ) × (procfs_lookup state ≡ some name)
        × (procfs_open s procfs_root name flags ≡ some (pos 0, record state { offset = pos 0 }))
  unfolding procfs_lookup procfs_root
  procfs_open-procfs_lookup s state n flags proc pid here low small table =
      let (b, met, e) = procfs_open-uint_to_str s procfs_root n flags refl low small table in
      let b_true = Met-Alive s n 0 b here low (omega arith) met in
      (
        uint_to_str (n + 1) 16 10,
        rw (procfs_lookup, proc, pid) refl,
        (rw b_true at e) ∙ rw (proc, pid) refl,
      )
