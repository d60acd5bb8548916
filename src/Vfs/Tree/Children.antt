-- ===== src/Vfs/Tree/Children.antt =====
-- vfs.c, vfs_findchld: the search among the mounts below a node.
use neos.Base.{
  ap, ℕ, zero, suc, ◌≤◌, ◌≡◌, refl, Bool, true, false, none, some, List, [], ◌∷◌, ◌++◌, arith,
  length, Bool-cases, inl, inr,
}
use neos.Vfs.Tree.{Tree, text_eq, findchld_loop, vfs_findchld}

-- The list of siblings that starts at a node.
pub data Siblings (tree : Tree) : ℕ → List ℕ → Type 0 where
  last : (c : ℕ) → (tree.node c).sibling ≡ none → Siblings tree c (c ∷ [])
  more :
      (c d : ℕ) (cs : List ℕ)
      → (tree.node c).sibling ≡ some d
      → Siblings tree d cs
      → Siblings tree c (c ∷ cs)

-- None of the nodes has the name.
abbrev pub Differ : Tree → List ℕ → List ℕ → Type 0
Differ tree name [] = Unit {0}
Differ tree name (c ∷ cs) = (text_eq (tree.node c).name name ≡ false) × Differ tree name cs

-- What a search among siblings comes to: the first with the name, or the last of them all.
pub data Found (tree : Tree) (name cs : List ℕ) : ℕ × Bool → Type 0 where
  hit :
      (c : ℕ) (before after : List ℕ)
      → cs ≡ before ++ (c ∷ after)
      → Differ tree name before
      → text_eq (tree.node c).name name ≡ true
      → Found tree name cs (c, true)
  miss :
      (c : ℕ) (before : List ℕ)
      → cs ≡ before ++ (c ∷ [])
      → Differ tree name cs
      → Found tree name cs (c, false)

Found-cons :
    (tree : Tree) (name cs : List ℕ) (c : ℕ) (r : ℕ × Bool)
    → text_eq (tree.node c).name name ≡ false
    → Found tree name cs r
    → Found tree name (c ∷ cs) r
Found-cons tree name cs c _ d (hit x before after e others yes') =
    hit x (c ∷ before) after (ap (λ (l : List ℕ). c ∷ l) e) (d, others) yes'
Found-cons tree name cs c _ d (miss x before e others) =
    miss x (c ∷ before) (ap (λ (l : List ℕ). c ∷ l) e) (d, others)

findchld_loop-Found :
    (f : ℕ) (tree : Tree) (c : ℕ) (cs name : List ℕ)
    → Siblings tree c cs
    → length cs ≤ f
    → (r : ℕ × Bool) × (findchld_loop f tree c name ≡ some r) × Found tree name cs r
unfolding findchld_loop
findchld_loop-Found zero tree c _ name (last _ e) le = absurd (omega arith)
findchld_loop-Found zero tree c _ name (more _ d cs e rest) le = absurd (omega arith)
findchld_loop-Found (suc f) tree c _ name (last _ e) le =
    elim (Bool-cases (text_eq (tree.node c).name name)) [
      | inl same ↦ ((c, true), rw same refl, hit c [] [] refl tt same)
      | inr other ↦ ((c, false), rw (other, e) refl, miss c [] refl (other, tt))
    ]
findchld_loop-Found (suc f) tree c _ name (more _ d cs e rest) le =
    elim (Bool-cases (text_eq (tree.node c).name name)) [
      | inl same ↦ ((c, true), rw same refl, hit c [] cs refl tt same)
      | inr other ↦
          let (r, found, w) = findchld_loop-Found f tree d cs name rest (omega arith) in
          (r, rw (other, e) found, Found-cons tree name cs c r other w)
    ]

-- On a node whose children are the list `cs`, vfs_findchld stops at the first of them that has the
-- name and reports it, or stops at the last one and reports that none has it. The list must not be
-- longer than there are nodes.
pub vfs_findchld-Found :
    (tree : Tree) (node c : ℕ) (cs name : List ℕ)
    → (tree.node node).child ≡ some c
    → Siblings tree c cs
    → length cs ≤ tree.count
    → (r : ℕ × Bool) × (vfs_findchld tree node name ≡ some r) × Found tree name cs r
unfolding vfs_findchld
vfs_findchld-Found tree node c cs name e siblings le =
    let (r, found, w) = findchld_loop-Found tree.count tree c cs name siblings le in
    (r, rw (vfs_findchld, e) found, w)
