-- ===== src/Vfs/Tree/Enter/Moves.antt =====
-- vfs.c, vfs_enter: the place that each kind of part leads to.
use neos.Base.{
  ℕ, ◌+◌, ◌-◌, ◌<◌, ◌≡◌, refl, Bool, true, false, none, some, List, arith, Bool-cases, inl, inr,
  ◌∙◌, ◌==◌, ltb, Option-cases, ltb→lt, ltb→le, ==→eq, ==→ne, ap, sym,
}
use mathlib.Core.Path.{subst}
use neos.Base.Int.{ℤ, pos}
use neos.Vfs.Tree.{
  Tree, Drivers, VRef, dot, dot_dot, text_eq, vfs_findchld, vfs_update, update_open, enter_part,
  vfs_enter,
}
use neos.Vfs.Tree.Mount.Linked.{IsLinked, vfs_findchld-parent}
use neos.Vfs.Tree.Enter.{
  Synced, SamePlace, vfs_update-SamePlace, vfs_update-Synced, update_open-Opened,
}

module _ (drivers : Drivers) (tree : Tree) where
  open drivers use {State, World}

  -- The node and offset that a reference is moved to by a part of a path.
  pub data Moves (part : List ℕ) (node offset : ℕ) : ℕ → ℕ → Type 0 where
    stay : text_eq part dot ≡ true → Moves part node offset node offset
    up :
        text_eq part dot ≡ false
        → text_eq part dot_dot ≡ true
        → 0 < offset
        → Moves part node offset node (offset - 1)
    out :
        text_eq part dot ≡ false
        → text_eq part dot_dot ≡ true
        → offset ≡ 0
        → Moves part node offset (tree.node node).parent offset
    mount :
        (child : ℕ)
        → text_eq part dot ≡ false
        → text_eq part dot_dot ≡ false
        → offset ≡ 0
        → vfs_findchld tree node part ≡ some (child, true)
        → Moves part node offset child offset
    deeper :
        text_eq part dot ≡ false
        → text_eq part dot_dot ≡ false
        → (offset ≡ 0 → (last : ℕ) × (vfs_findchld tree node part ≡ some (last, false)))
        → Moves part node offset node (offset + 1)

  -- What a call of `vfs_enter` that returns has done.
  pub record Entered (part : List ℕ) (vref v : VRef State) (res : ℤ) : Type 0 where
    pub moves : Moves part vref.node vref.offset v.node v.offset
    pub synced : res ≡ pos 0 → Synced drivers tree vref → Synced drivers tree v

  at_place :
      (part : List ℕ) (vref v a : VRef State)
      → Moves part vref.node vref.offset a.node a.offset
      → SamePlace drivers tree a v
      → Moves part vref.node vref.offset v.node v.offset
  at_place part vref v a m same =
      subst (λ (n : ℕ). Moves part vref.node vref.offset n v.offset) (sym same.node)
        (subst (λ (o : ℕ). Moves part vref.node vref.offset a.node o) (sym same.offset) m)

  by_update :
      (part : List ℕ) (vref a v : VRef State) (res : ℤ) (w w' : World)
      → Moves part vref.node vref.offset a.node a.offset
      → vfs_update drivers tree a w ≡ some (res, v, w')
      → Entered part vref v res
  by_update part vref a v res w w' m h = record {
    moves = at_place part vref v a m (vfs_update-SamePlace drivers tree a v res w w' h);
    synced = λ e s. vfs_update-Synced drivers tree a v w w' (h ∙ ap (λ (x : ℤ). some (x, v, w')) e);
  }

  by_open :
      (part : List ℕ) (flags : ℕ) (vref a v : VRef State) (res : ℤ) (w w' : World)
      → Moves part vref.node vref.offset a.node a.offset
      → update_open drivers tree part flags a w ≡ some (res, v, w')
      → Entered part vref v res
  by_open part flags vref a v res w w' m h =
      let o = update_open-Opened drivers tree part flags a v res w w' h in
      record { moves = at_place part vref v a m o.place; synced = λ e s. o.synced e }

  enter_part-Entered :
      (part : List ℕ) (flags : ℕ) (vref v : VRef State) (res : ℤ) (w w' : World)
      → text_eq part dot ≡ false
      → text_eq part dot_dot ≡ false
      → enter_part drivers tree part flags vref w ≡ some (res, v, w')
      → Entered part vref v res
  unfolding enter_part
  enter_part-Entered part flags vref v res w w' n1 n2 h = elim (Bool-cases (vref.offset == 0)) [
    | inl here ↦ elim (Option-cases (vfs_findchld tree vref.node part)) [
      | inl e ↦ let bad : none ≡ some (res, v, w') = rw (here, e) at h in cc
      | inr ((c, same), e) ↦ elim (Bool-cases same) [
        | inl t ↦
            by_update part vref (record vref { node = c }) v res w w'
              (mount c n1 n2 (==→eq vref.offset 0 here) (e ∙ ap (λ (b : Bool). some (c, b)) t))
              (rw (here, e, t) at h)
        | inr f ↦
            by_open part flags vref (record vref { offset = vref.offset + 1 }) v res w w'
              (deeper n1 n2 (λ z. (c, e ∙ ap (λ (b : Bool). some (c, b)) f))) (rw (here, e, f) at h)
      ]
    ]
    | inr inside ↦
        by_open part flags vref (record vref { offset = vref.offset + 1 }) v res w w'
          (deeper n1 n2 (λ z. absurd (==→ne vref.offset 0 inside z))) (rw inside at h)
  ]

  -- Where vfs_enter returns, the reference has moved as the part says: "." stays, ".." goes up in
  -- the file system or out of it to the parent of the mount point, the name of a mount enters it,
  -- and any other name goes one level deeper. When it reports success, a reference that had the
  -- driver of its node has it again.
  pub vfs_enter-Entered :
      (part : List ℕ) (flags : ℕ) (vref v : VRef State) (res : ℤ) (w w' : World)
      → vfs_enter drivers tree part flags vref w ≡ some (res, v, w')
      → Entered part vref v res
  unfolding vfs_enter
  vfs_enter-Entered part flags vref v res w w' h = elim (Bool-cases (text_eq part dot)) [
    | inl stays ↦
        let same : some (pos 0, vref, w) ≡ some (res, v, w') = rw stays at h in
        let v-eq : vref ≡ v = cc in
        subst (λ x. Entered part vref x res) v-eq (record { moves = stay stays; synced = λ e s. s })
    | inr n1 ↦ elim (Bool-cases (text_eq part dot_dot)) [
      | inl back ↦ elim (Bool-cases (ltb 0 vref.offset)) [
        | inl inside ↦
            by_open part flags vref (record vref { offset = vref.offset - 1 }) v res w w'
              (up n1 back (ltb→lt 0 vref.offset inside)) (rw (n1, back, inside) at h)
        | inr top ↦
            by_update part vref (record vref { node = (tree.node vref.node).parent }) v res w w'
              (out n1 back (omega (arith, ltb→le 0 vref.offset top))) (rw (n1, back, top) at h)
      ]
      | inr n2 ↦ enter_part-Entered part flags vref v res w w' n1 n2 (rw (n1, n2) at h)
    ]
  ]

  Moves-back :
      (part : List ℕ) (n o n1 o1 n2 o2 : ℕ)
      → text_eq part dot ≡ false
      → text_eq part dot_dot ≡ false
      → ((child : ℕ) → vfs_findchld tree n part ≡ some (child, true) → (tree.node child).parent ≡ n)
      → Moves part n o n1 o1
      → Moves dot_dot n1 o1 n2 o2
      → (n2 ≡ n) × (o2 ≡ o)
  Moves-back part n o n1 o1 n2 o2 a b parents (stay e) m2 = absurd (ground arith)
  Moves-back part n o n1 o1 n2 o2 a b parents (up e e' p) m2 = absurd (ground arith)
  Moves-back part n o n1 o1 n2 o2 a b parents (out e e' p) m2 = absurd (ground arith)
  Moves-back part n o n1 o1 n2 o2 a b parents (mount c e e' p f) (stay k) = absurd (ground arith)
  Moves-back part n o n1 o1 n2 o2 a b parents (mount c e e' p f) (up k k' q) = absurd (omega arith)
  Moves-back part n o n1 o1 n2 o2 a b parents (mount c e e' p f) (out k k' q) = (parents c f, refl)
  Moves-back part n o n1 o1 n2 o2 a b parents (mount c e e' p f) (mount d k k' q g) =
      absurd (ground arith)
  Moves-back part n o n1 o1 n2 o2 a b parents (mount c e e' p f) (deeper k k' q) =
      absurd (ground arith)
  Moves-back part n o n1 o1 n2 o2 a b parents (deeper e e' p) (stay k) = absurd (ground arith)
  Moves-back part n o n1 o1 n2 o2 a b parents (deeper e e' p) (up k k' q) = (refl, omega arith)
  Moves-back part n o n1 o1 n2 o2 a b parents (deeper e e' p) (out k k' q) = absurd (omega arith)
  Moves-back part n o n1 o1 n2 o2 a b parents (deeper e e' p) (mount d k k' q g) =
      absurd (omega arith)
  Moves-back part n o n1 o1 n2 o2 a b parents (deeper e e' p) (deeper k k' q) =
      absurd (ground arith)

  -- In a tree whose links fit together, entering a name and then ".." leads back to the node and
  -- the offset that the reference had, if both calls return.
  pub vfs_enter-dot_dot :
      (part : List ℕ) (flags flags' : ℕ) (vref v v' : VRef State) (res res' : ℤ) (w w1 w2 : World)
      → text_eq part dot ≡ false
      → text_eq part dot_dot ≡ false
      → IsLinked tree
      → vref.node < tree.count
      → vfs_enter drivers tree part flags vref w ≡ some (res, v, w1)
      → vfs_enter drivers tree dot_dot flags' v w1 ≡ some (res', v', w2)
      → (v'.node ≡ vref.node) × (v'.offset ≡ vref.offset)
  vfs_enter-dot_dot part flags flags' vref v v' res res' w w1 w2 a b linked low h h' =
      Moves-back part vref.node vref.offset v.node v.offset v'.node v'.offset a b
        (λ child e. (vfs_findchld-parent tree vref.node part child true linked low e).1)
        (vfs_enter-Entered part flags vref v res w w1 h).moves
        (vfs_enter-Entered dot_dot flags' v v' res' w1 w2 h').moves
