-- ===== src/Vfs/Tree/Mount/Linked.antt =====
-- vfs.c, vfs_mount: the links of the tree fit together.
use neos.Base.{
  ℕ, zero, suc, ◌≤◌, ◌<◌, ◌≡◌, Bool, true, false, none, some, List, arith, Bool-cases, Option-cases,
  inl, inr, ◌==◌, ◌∙◌, length,
}
use mathlib.Core.Path.{subst}
use neos.Vfs.Path.{VPath, resolve, slash, char_at}
use neos.Vfs.Tree.{Tree, Node, text_eq, findchld_loop, vfs_findchld, vfs_init}
use neos.Vfs.Tree.Mount.{set_node, vfs_mknode, mount_loop, vfs_mount}

-- The child of a node has it as its parent, and a sibling has the same parent; none leads out of
-- the nodes that exist.
pub record IsLinked (tree : Tree) : Type 0 where
  pub root : 0 < tree.count
  pub child :
      (i c : ℕ)
      → i < tree.count
      → (tree.node i).child ≡ some c
      → (c < tree.count) × ((tree.node c).parent ≡ i)
  pub sibling :
      (i d : ℕ)
      → i < tree.count
      → (tree.node i).sibling ≡ some d
      → (d < tree.count) × ((tree.node d).parent ≡ (tree.node i).parent)
  pub parent : (i : ℕ) → i < tree.count → (tree.node i).parent < tree.count

findchld_loop-parent :
    (f : ℕ) (tree : Tree) (c : ℕ) (name : List ℕ) (found : ℕ) (same : Bool)
    → IsLinked tree
    → c < tree.count
    → findchld_loop f tree c name ≡ some (found, same)
    → (found < tree.count)
      × ((tree.node found).parent ≡ (tree.node c).parent)
      × (same ≡ false → (tree.node found).sibling ≡ none)
unfolding findchld_loop
findchld_loop-parent zero tree c name found same l low h = cc
findchld_loop-parent (suc f) tree c name found same l low h =
    elim (Bool-cases (text_eq (tree.node c).name name)) [
      | inl hit ↦
          let e : some (c, true) ≡ some (found, same) = rw (findchld_loop, hit) at h in
          (ground (arith, e), ground (arith, e), λ z. absurd (ground (arith, e, z)))
      | inr other ↦ elim (Option-cases (tree.node c).sibling) [
        | inl last ↦
            let e : some (c, false) ≡ some (found, same) = rw (findchld_loop, other, last) at h in
            (ground (arith, e), ground (arith, e), λ z. ground (arith, e, last))
        | inr (d, next) ↦
            let link = l.sibling c d low next in
            let (a, b, z) =
              findchld_loop-parent f tree d name found same l link.0
                (rw (findchld_loop, other, next) at h) in
            (a, b ∙ link.1, z)
      ]
    ]

-- In such a tree the mount that vfs_findchld finds below a node has that node as its parent.
pub vfs_findchld-parent :
    (tree : Tree) (node : ℕ) (name : List ℕ) (found : ℕ) (same : Bool)
    → IsLinked tree
    → node < tree.count
    → vfs_findchld tree node name ≡ some (found, same)
    → (found < tree.count)
      × ((tree.node found).parent ≡ node)
      × (same ≡ false → (tree.node found).sibling ≡ none)
unfolding vfs_findchld
vfs_findchld-parent tree node name found same l low h = elim (Option-cases (tree.node node).child) [
  | inl e ↦ let bad : none ≡ some (found, same) = rw (vfs_findchld, e) at h in cc
  | inr (c, e) ↦
      let link = l.child node c low e in
      let (a, b, z) =
        findchld_loop-parent tree.count tree c name found same l link.0
          (rw (vfs_findchld, e) at h) in
      (a, b ∙ link.1, z)
]

-- a first child below a node
add_child : Tree → ℕ → List ℕ → Tree
add_child tree i name =
    let made = vfs_mknode i name tree in
    set_node i (record (made.node i) { child = some tree.count }) made

add_child-IsLinked :
    (tree : Tree) (i : ℕ) (name : List ℕ)
    → IsLinked tree
    → i < tree.count
    → IsLinked (add_child tree i name)
unfolding add_child vfs_mknode
add_child-IsLinked tree i name l low = record {
  root = omega arith;
  child = λ k c h e. ground (arith, l.child k c, l.parent i low);
  sibling = λ k d h e. ground (arith, l.sibling k d, l.parent i low);
  parent = λ k h. ground (arith, l.parent k, l.parent i low);
}

add_child-count : (tree : Tree) (i : ℕ) (name : List ℕ) → tree.count < (add_child tree i name).count
unfolding add_child vfs_mknode
add_child-count tree i name = omega arith

-- a sibling behind the last one
add_sibling : Tree → ℕ → List ℕ → Tree
add_sibling tree i name =
    let made = vfs_mknode (tree.node i).parent name tree in
    set_node i (record (made.node i) { sibling = some tree.count }) made

add_sibling-IsLinked :
    (tree : Tree) (i : ℕ) (name : List ℕ)
    → IsLinked tree
    → i < tree.count
    → IsLinked (add_sibling tree i name)
unfolding add_sibling vfs_mknode
add_sibling-IsLinked tree i name l low = record {
  root = omega arith;
  child = λ k c h e. ground (arith, l.child k c, l.parent i low);
  sibling = λ k d h e. ground (arith, l.sibling k d, l.parent i low);
  parent = λ k h. ground (arith, l.parent k, l.parent i low);
}

add_sibling-count :
    (tree : Tree) (i : ℕ) (name : List ℕ) → tree.count < (add_sibling tree i name).count
unfolding add_sibling vfs_mknode
add_sibling-count tree i name = omega arith

record Reached (tree : Tree) (node : ℕ) (tree' : Tree) : Type 0 where
  linked : IsLinked tree'
  low : node < tree'.count
  grown : tree.count ≤ tree'.count

mount_loop-Reached :
    (f : ℕ) (path : VPath) (node : ℕ) (tree : Tree) (node' : ℕ) (tree' : Tree)
    → IsLinked tree
    → node < tree.count
    → mount_loop f path node tree ≡ some (node', tree')
    → Reached tree node' tree'
unfolding mount_loop add_child add_sibling
mount_loop-Reached zero path node tree node' tree' l low h = cc
mount_loop-Reached (suc f) path node tree node' tree' l low h =
    elim (Option-cases (resolve path).1) [
      | inl e ↦
          let same : some (node, tree) ≡ some (node', tree') = rw (mount_loop, e) at h in
          let n-eq : node ≡ node' = cc in
          let t-eq : tree ≡ tree' = cc in
          subst (λ n. Reached tree n tree') n-eq
            (subst (λ t. Reached tree node t) t-eq
              (record { linked = l; low = low; grown = omega arith }))
      | inr (name, e) ↦ elim (Option-cases (tree.node node).child) [
        | inl leaf ↦
            let r =
              mount_loop-Reached f (resolve path).0 tree.count (add_child tree node name) node'
                tree' (add_child-IsLinked tree node name l low) (add_child-count tree node name)
                (rw (mount_loop, e, leaf) at h) in
            record {
              linked = r.linked;
              low = r.low;
              grown = omega (arith, r.grown, add_child-count tree node name);
            }
        | inr (c, some_child) ↦ elim (Option-cases (vfs_findchld tree node name)) [
          | inl bad ↦
              let wrong : none ≡ some (node', tree') = rw (mount_loop, e, some_child, bad) at h in
              cc
          | inr ((found, same), hit) ↦
              let place = vfs_findchld-parent tree node name found same l low hit in
              elim (Bool-cases same) [
                | inl t ↦
                    mount_loop-Reached f (resolve path).0 found tree node' tree' l place.0
                      (rw (mount_loop, e, some_child, hit, t) at h)
                | inr o ↦
                    let r =
                      mount_loop-Reached f (resolve path).0 tree.count (add_sibling tree found name)
                        node' tree' (add_sibling-IsLinked tree found name l place.0)
                        (add_sibling-count tree found name)
                        (rw (mount_loop, e, some_child, hit, o) at h) in
                    record {
                      linked = r.linked;
                      low = r.low;
                      grown = omega (arith, r.grown, add_sibling-count tree found name);
                    }
              ]
        ]
      ]
    ]

-- setting the driver of a node
driven-IsLinked :
    (tree : Tree) (i driver : ℕ)
    → IsLinked tree
    → IsLinked (set_node i (record (tree.node i) { driver = some driver }) tree)
driven-IsLinked tree i driver l = record {
  root = l.root;
  child = λ k c h e. ground (arith, l.child k c);
  sibling = λ k d h e. ground (arith, l.sibling k d);
  parent = λ k h. ground (arith, l.parent k);
}

-- Where vfs_mount returns, it keeps the links of the tree together: each child has its node as its
-- parent, siblings have the same parent, and no link leads out of the nodes that exist.
pub vfs_mount-IsLinked :
    (path : List ℕ) (driver : ℕ) (tree tree' : Tree)
    → IsLinked tree
    → vfs_mount path driver tree ≡ some tree'
    → IsLinked tree'
unfolding vfs_mount
vfs_mount-IsLinked path driver tree tree' l h = elim (Bool-cases (char_at path 0 == slash)) [
  | inr relative ↦ let bad : none ≡ some tree' = rw (vfs_mount, relative) at h in cc
  | inl absolute ↦
      elim (Option-cases (
        mount_loop (suc (length path))
          (record { string = path; offset = 0; resolves = 0; errno = 0 }) 0 tree)) [
            | inl e ↦ let bad : none ≡ some tree' = rw (vfs_mount, absolute, e) at h in cc
            | inr ((node, made), e) ↦
                let r = mount_loop-Reached (suc (length path)) _ 0 tree node made l l.root e in
                let same : some
                      (set_node node (record (made.node node) { driver = some driver }) made)
                    ≡ some tree' =
                  rw (vfs_mount, absolute, e) at h in
                let t-eq : set_node node (record (made.node node) { driver = some driver }) made
                    ≡ tree' =
                  cc in
                subst IsLinked t-eq (driven-IsLinked made node driver r.linked)
          ]
]

-- The tree of vfs_init is such a tree.
pub vfs_init-IsLinked : (free : Node) → IsLinked (vfs_init free)
unfolding vfs_init
vfs_init-IsLinked free = record {
  root = omega arith;
  child = λ k c h e. ground arith;
  sibling = λ k d h e. ground arith;
  parent = λ k h. ground arith;
}
