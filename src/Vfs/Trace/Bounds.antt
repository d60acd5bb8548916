-- ===== src/Vfs/Trace/Bounds.antt =====
-- vfs.c, vfs_trace: the bytes that it writes.
use neos.Base.{
  ℕ, ◌+◌, ◌≤◌, ◌<◌, ◌≡◌, refl, ◌⊎◌, inl, inr, List, [], ◌∷◌, arith, length, ◌∙◌, Bool-cases,
  Option-cases, none, some,
}
use neos.Base.Int.{pos, ltb_ℤ}
use neos.Memory.{Mem, store}
use neos.Vfs.Path.{slash}
use neos.Vfs.Tree.{Tree, Drivers, VRef, vfs_refcpy, vfs_update, path_max_resolves}
use neos.Vfs.Calls.{vfs_close}
use neos.Vfs.Trace.{store_text, trace_output, trace_write, trace_loop, vfs_trace, Lookup}

store_text-kept :
    (p : ℕ) (s : List ℕ) (m : Mem) (a : ℕ) → (a < p) ⊎ (p + length s ≤ a) → store_text p s m a ≡ m a
unfolding store_text store
store_text-kept p [] m a h = refl
store_text-kept p (c ∷ s) m a (inl low) =
    store_text-kept (p + 1) s (store p c m) a (inl (omega arith)) ∙ ground arith
store_text-kept p (c ∷ s) m a (inr high) =
    store_text-kept (p + 1) s (store p c m) a (inr (omega arith)) ∙ ground arith

-- The second loop stays below the size, and so does what it writes.
pub record Written (output size k : ℕ) (m : Mem) (k' : ℕ) (m' : Mem) : Type 0 where
  pub low : k ≤ k'
  pub high : k' ≤ size
  pub kept : (a : ℕ) → (a < output + k) ⊎ (output + k' ≤ a) → m' a ≡ m a

step-kept :
    (output k : ℕ) (name : List ℕ) (m : Mem) (a : ℕ)
    → (a < output + k) ⊎ (output + (k + length name + 1) ≤ a)
    → store (output + (k + length name)) slash (store_text (output + k) name m) a ≡ m a
unfolding store
step-kept output k name m a (inl h) = ground (arith, store_text-kept (output + k) name m a (inl h))
step-kept output k name m a (inr h) =
    ground (arith, store_text-kept (output + k) name m a (inr (omega arith)))

further :
    (output k n k' a : ℕ)
    → k + n + 1 ≤ k'
    → (a < output + k) ⊎ (output + k' ≤ a)
    → (a < output + (k + n + 1)) ⊎ (output + k' ≤ a)
further output k n k' a le (inl h) = inl (omega arith)
further output k n k' a le (inr h) = inr h

elsewhere :
    (output k n k' a : ℕ)
    → k + n + 1 ≤ k'
    → (a < output + k) ⊎ (output + k' ≤ a)
    → (a < output + k) ⊎ (output + (k + n + 1) ≤ a)
elsewhere output k n k' a le (inl h) = inl h
elsewhere output k n k' a le (inr h) = inr (omega arith)

trace_output-Written :
    (output size k : ℕ) (names : List (List ℕ)) (m : Mem)
    → k ≤ size
    → let (k', m') = trace_output output (pos size) k names m in Written output size k m k' m'
unfolding trace_output
trace_output-Written output size k [] m fits = record {
  low = omega arith;
  high = fits;
  kept = λ a h. refl;
}
trace_output-Written output size k (name ∷ names) m fits =
    elim (Bool-cases (ltb_ℤ (pos (k + length name)) (pos size))) [
      | inr over ↦
          rw (trace_output, over) (record { low = omega arith; high = fits; kept = λ a h. refl })
      | inl room ↦
          let m1 = store (output + (k + length name)) slash (store_text (output + k) name m) in
          let rest =
            trace_output-Written output size (k + length name + 1) names m1
              (ground (arith, room)) in
          let k' = (trace_output output (pos size) (k + length name + 1) names m1).0 in
          rw (trace_output, room)
            (record {
              low = omega (arith, rest.low);
              high = rest.high;
              kept = λ a h.
                  rest.kept a (further output k (length name) k' a rest.low h)
                  ∙ step-kept output k name m a (elsewhere output k (length name) k' a rest.low h);
            })
    ]

trace_write-kept :
    (output size : ℕ) (names : List (List ℕ)) (m : Mem) (a : ℕ)
    → 0 < size
    → (a < output) ⊎ (output + size < a)
    → trace_write output (pos size) names m a ≡ m a
unfolding trace_write store
trace_write-kept output size names m a some_room (inl h) =
    let done = trace_output-Written output size 1 names (store output slash m) some_room in
    ground (arith, done.low, done.high, done.kept a (inl (omega arith)))
trace_write-kept output size names m a some_room (inr h) =
    let done = trace_output-Written output size 1 names (store output slash m) some_room in
    ground (arith, done.low, done.high, done.kept a (inr (omega (arith, done.high))))

module _ (drivers : Drivers) where
  open drivers use {State, World}

  -- Into a buffer of one byte or more, vfs_trace writes no byte outside the buffer but the one right
  -- behind it, however long the path is.
  pub vfs_trace-kept :
      (lookup : Lookup drivers) (tree : Tree) (vref : VRef State) (output size : ℕ) (m m' : Mem)
      (w w' : World)
      → 0 < size
      → vfs_trace drivers lookup tree vref output (pos size) m w ≡ some (m', w')
      → (a : ℕ) → (a < output) ⊎ (output + size < a)
      → m' a ≡ m a
  unfolding vfs_trace
  vfs_trace-kept lookup tree vref output size m m' w w' some_room h a outside =
      let (copy, w1) = vfs_refcpy drivers vref w in
      elim (Option-cases (vfs_update drivers tree copy w1)) [
        | inl e ↦ let bad : none ≡ some (m', w') = rw (vfs_trace, e) at h in cc
        | inr ((res, copy', w2), e) ↦
            elim (Option-cases (trace_loop drivers lookup tree path_max_resolves copy' [] w2)) [
              | inl e2 ↦ let bad : none ≡ some (m', w') = rw (vfs_trace, e, e2) at h in cc
              | inr ((names, copy'', w3), e2) ↦
                  let same : some
                        (trace_write output (pos size) names m, (vfs_close drivers copy'' w3).2)
                      ≡ some (m', w') =
                    rw (vfs_trace, e, e2) at h in
                  let memory : trace_write output (pos size) names m ≡ m' = cc in
                  rw (← memory) (trace_write-kept output size names m a some_room outside)
            ]
      ]

-- A single name that leaves room for both slashes and nothing else is written, and the null byte
-- behind it goes right behind the buffer.
pub trace_write-overrun :
    (output size : ℕ) (name : List ℕ) (m : Mem)
    → length name + 2 ≡ size
    → trace_write output (pos size) (name ∷ []) m (output + size) ≡ 0
unfolding trace_write trace_output store
trace_write-overrun output size name m exact = ground arith
