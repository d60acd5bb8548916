-- ===== src/Vfs/Tree/Mount.antt =====
-- vfs.c, vfs_mknode and vfs_mount: adding to the tree of mounts.
pub mod Linked
use neos.Base.{
  ℕ, zero, suc, ◌+◌, ◌-◌, Bool, true, false, not, ◌&&◌, Option, none, some, List, [], ◌∷◌, ◌==◌,
  ltb, length, if◌then◌else◌,
}
use neos.Base.Int.{ℤ, pos, negsuc}
use neos.Vfs.Path.{VPath, slash, char_at, resolve, linux_enametoolong}
use neos.Vfs.Tree.{Tree, Node, vfs_findchld}

abbrev pub set_node : ℕ → Node → Tree → Tree
set_node i n tree = record tree { node = λ k. if k == i then n else tree.node k }

-- the number of the new node is the old count
unfoldable pub vfs_mknode : (parent : ℕ) (name : List ℕ) → Tree → Tree
vfs_mknode parent name tree = record {
  node = λ k.
      if k == tree.count
      then record { sibling = none; child = none; parent = parent; driver = none; name = name }
      else tree.node k;
  count = tree.count + 1;
}

-- `while (vfs_resolve(&vpth, buffer))` of `vfs_mount`, which does not look at the error field.
unfoldable pub mount_loop : ℕ → VPath → (node : ℕ) → Tree → Option (ℕ × Tree)
mount_loop zero path node tree = none
mount_loop (suc f) path node tree = elim (resolve path).1 [
  | none ↦ some (node, tree)
  | some name ↦ elim (tree.node node).child [
    | none ↦
        let made = vfs_mknode node name tree in
        mount_loop f (resolve path).0 tree.count
          (set_node node (record (made.node node) { child = some tree.count }) made)
    | some child ↦ elim (vfs_findchld tree node name) [
      | none ↦ none
      | some (found, same) ↦
          let made = vfs_mknode (tree.node found).parent name tree in
          mount_loop f (resolve path).0 (if same then found else tree.count) (
            if same
            then tree
            else set_node found (record (made.node found) { sibling = some tree.count }) made)
    ]
  ]
]

-- `none` also stands for the panic on a relative path.
unfoldable pub vfs_mount : (path : List ℕ) (driver : ℕ) → Tree → Option Tree
vfs_mount path driver tree =
    if char_at path 0 == slash
    then elim (mount_loop (suc (length path))
        (record { string = path; offset = 0; resolves = 0; errno = 0 }) 0 tree) [
          | none ↦ none
          | some (node, tree') ↦
              some (set_node node (record (tree'.node node) { driver = some driver }) tree')
        ]
    else none
