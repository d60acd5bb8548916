-- ===== src/Vfs/Tree/Tests.antt =====
-- vfs.c: a root with one mount "p" below it, whose drivers accept everything.
use neos.Base.{
  Option, ◌<◌, none, zero, suc, arith, ℕ, ◌+◌, ◌≡◌, refl, Bool, some, [], ◌∷◌, ◌==◌, if◌then◌else◌,
  replicate,
}
use neos.Base.Int.{pos}
use neos.Vfs.Path.{resolve, resolve_at, skip_slash, segment_loop}
use neos.Vfs.Path.Segment.{AllPlain}
use neos.Vfs.Tree.{
  Node, Tree, Drivers, VRef, vfs_findchld, findchld_loop, vfs_enter, enter_part, vfs_open,
  open_loop, vfs_update, update_from, enable, dot_dot, vfs_refcpy, vfs_init,
}
use neos.Vfs.Tree.Children.{Siblings.last, Found, vfs_findchld-Found}
use neos.Vfs.Tree.Mount.{vfs_mount, mount_loop, vfs_mknode}
use neos.Vfs.Tree.Mount.Linked.{IsLinked, vfs_mount-IsLinked, vfs_init-IsLinked}
use neos.Vfs.Tree.Enter.{Synced}
use neos.Vfs.Tree.Enter.Moves.{Entered, vfs_enter-Entered, vfs_enter-dot_dot}
use neos.Vfs.Tree.Open.{vfs_open-Synced}

abbrev tree : Tree
tree = record {
  node = λ i.
      if i == 0
      then record { sibling = none; child = some 1; parent = 0; driver = some 7; name = [] }
      else record { sibling = none; child = none; parent = 0; driver = some 8; name = 112 ∷ [] };
  count = 2;
}

-- The state counts the parts that were opened.
abbrev drivers : Drivers
drivers = record {
  State = ℕ;
  World = ℕ;
  root = λ d s w. (pos 0, some 0, w);
  clone = λ d s w. (s, w);
  open_part = λ d s part flags w. (pos 0, s, w + 1);
  close = λ d s w. (pos 0, none, w);
}

abbrev at_root : VRef ℕ
at_root = record { node = 0; offset = 0; driver = some 7; state = some 0 }

abbrev at_p : VRef ℕ
at_p = record { node = 1; offset = 0; driver = some 8; state = some 0 }

vfs_findchld-Found_example :
    (r : ℕ × Bool) × (vfs_findchld tree 0 (112 ∷ []) ≡ some r) × Found tree (112 ∷ []) (1 ∷ []) r
vfs_findchld-Found_example =
    vfs_findchld-Found tree 0 1 (1 ∷ []) (112 ∷ []) refl (last 1 refl) (omega arith)

into_p : vfs_enter drivers tree (112 ∷ []) 0 at_root 0 ≡ some (pos 0, at_p, 0)
unfolding vfs_enter enter_part vfs_findchld findchld_loop vfs_update update_from enable
into_p = refl

out_of_p : vfs_enter drivers tree dot_dot 0 at_p 0 ≡ some (pos 0, at_root, 0)
unfolding vfs_enter vfs_update update_from enable
out_of_p = refl

vfs_enter-Entered_example : Entered drivers tree (112 ∷ []) at_root at_p (pos 0)
vfs_enter-Entered_example =
    vfs_enter-Entered drivers tree (112 ∷ []) 0 at_root at_p (pos 0) 0 0 into_p

child_tree : (i c : ℕ) → i < 2 → (tree.node i).child ≡ some c → (c < 2) × ((tree.node c).parent ≡ i)
child_tree zero c h e = ground arith
child_tree (suc i) c h e = ground arith

tree-IsLinked : IsLinked tree
tree-IsLinked = record {
  root = omega arith;
  child = child_tree;
  sibling = λ i d h e. ground arith;
  parent = λ i h. ground arith;
}

vfs_enter-dot_dot_example : (at_root.node ≡ 0) × (at_root.offset ≡ 0)
vfs_enter-dot_dot_example =
    vfs_enter-dot_dot drivers tree (112 ∷ []) 0 0 at_root at_p at_root (pos 0) (pos 0) 0 0 0 refl
      refl tree-IsLinked (omega arith) into_p out_of_p

abbrev root_ref : VRef ℕ
root_ref = record { node = 0; offset = 0; driver = none; state = none }

-- "/p"
opened : vfs_open drivers tree root_ref at_root (47 ∷ 112 ∷ []) 0 0 ≡ some (pos 0, at_p, 0)
unfolding vfs_open open_loop vfs_refcpy vfs_enter enter_part vfs_findchld findchld_loop vfs_update
    update_from enable resolve resolve_at skip_slash segment_loop
opened = refl

vfs_open-Synced_example : Synced drivers tree at_p
unfolding vfs_refcpy vfs_update update_from enable
vfs_open-Synced_example =
    vfs_open-Synced drivers tree root_ref at_root at_root at_p (47 ∷ 112 ∷ []) 0 0 0 0 refl opened

all_plain : (n : ℕ) → AllPlain (replicate n 97)
all_plain zero = tt
all_plain (suc n) = ((omega arith, omega arith), all_plain n)

abbrev free : Node
free = record { sibling = none; child = none; parent = 0; driver = none; name = [] }

abbrev or_tree : Option Tree → Tree
or_tree none = tree
or_tree (some t) = t

-- "/p"
vfs_mount-IsLinked_example : IsLinked (or_tree (vfs_mount (47 ∷ 112 ∷ []) 8 (vfs_init free)))
unfolding vfs_mount mount_loop vfs_mknode vfs_init resolve resolve_at skip_slash segment_loop
vfs_mount-IsLinked_example =
    vfs_mount-IsLinked (47 ∷ 112 ∷ []) 8 (vfs_init free)
      (or_tree (vfs_mount (47 ∷ 112 ∷ []) 8 (vfs_init free))) (vfs_init-IsLinked free) refl
