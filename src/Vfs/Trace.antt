-- ===== src/Vfs/Trace.antt =====
-- vfs.c, vfs_trace: the path of a reference, written into a buffer.
pub mod Bounds
mod Tests
use neos.Base.{
  ℕ, zero, suc, ◌+◌, Bool, not, ◌&&◌, Option, none, some, List, [], ◌∷◌, ◌==◌, length,
  if◌then◌else◌,
}
use neos.Base.Int.{ℤ, pos, ltb_ℤ}
use neos.Memory.{Mem, store}
use neos.Vfs.Path.{slash}
use neos.Vfs.Tree.{
  Tree, Drivers, VRef, vfs_refcpy, vfs_update, vfs_enter, is_error, dot_dot, path_max_resolves,
}
use neos.Vfs.Calls.{vfs_close}

-- `memcpy(output + k, name, length)`, where the name is a block of its own.
unfoldable pub store_text : ℕ → List ℕ → Mem → Mem
store_text p [] m = m
store_text p (c ∷ s) m = store_text (p + 1) s (store p c m)

-- The second loop, over the names from the root on: where the next byte goes, and the memory.
unfoldable pub trace_output : (output : ℕ) (size : ℤ) (k : ℕ) → List (List ℕ) → Mem → ℕ × Mem
trace_output output size k [] m = (k, m)
trace_output output size k (name ∷ names) m =
    let rest =
      trace_output output size (k + length name + 1) names
        (store (output + (k + length name)) slash (store_text (output + k) name m)) in
    if ltb_ℤ (pos (k + length name)) size then rest else (k, m)

-- What follows the first loop: `output[0] = '/'`, the names, and `output[k] = 0`.
unfoldable pub trace_write : (output : ℕ) (size : ℤ) → List (List ℕ) → Mem → Mem
trace_write output size names m =
    let (k, m') = trace_output output size 1 names (store output slash m) in store (output + k) 0 m'

module _ (drivers : Drivers) where
  open drivers use {State, World}

  -- The driver's `lookup`: whether it failed, and the name that it wrote if it did not.
  abbrev pub Lookup : Type 0
  Lookup = ℕ → Option State → World → ℤ × List ℕ × Option State × World

  -- The name of the place that a reference stands at: the driver's, or else that of the node.
  pub trace_name : Lookup → Tree → VRef State → World → List ℕ × VRef State × World
  trace_name lookup tree vref w = elim vref.driver [
    | none ↦ ((tree.node vref.node).name, vref, w)
    | some d ↦
        let (failed, name, state, w') = lookup d vref.state w in
        (
          if is_error failed then (tree.node vref.node).name else name,
          record vref { state = state },
          w',
        )
  ]

  -- The first loop, with the rounds that are left while `j >= 0`. The last name comes first in the
  -- list. The result of `vfs_enter` is not looked at.
  pub trace_loop :
      Lookup
      → Tree
      → ℕ
      → VRef State
      → List (List ℕ)
      → World
      → Option (List (List ℕ) × VRef State × World)
  trace_loop lookup tree zero vref names w = some (names, vref, w)
  trace_loop lookup tree (suc f) vref names w =
      if (vref.node == 0) && (vref.offset == 0)
      then some (names, vref, w)
      else let (name, vref', w') = trace_name lookup tree vref w in
        elim (vfs_enter drivers tree dot_dot 0 vref' w') [
          | none ↦ none
          | some (res, vref'', w'') ↦ trace_loop lookup tree f vref'' (name ∷ names) w''
        ]

  pub vfs_trace :
      Lookup → Tree → VRef State → (output : ℕ) (size : ℤ) → Mem → World → Option (Mem × World)
  vfs_trace lookup tree vref output size m w =
      let (copy, w') = vfs_refcpy drivers vref w in
      elim (vfs_update drivers tree copy w') [
        | none ↦ none
        | some (res, copy', w'') ↦ elim (trace_loop lookup tree path_max_resolves copy' [] w'') [
          | none ↦ none
          | some (names, copy'', w3) ↦
              some (trace_write output size names m, (vfs_close drivers copy'' w3).2)
        ]
      ]
