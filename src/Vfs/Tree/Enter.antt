-- ===== src/Vfs/Tree/Enter.antt =====
-- vfs.c, vfs_update and vfs_enter: where a reference moves, and the driver it ends up with.
pub mod Moves
use neos.Base.{
  ℕ, zero, suc, ◌+◌, ◌-◌, ◌≤◌, ◌<◌, ◌≡◌, ◌≢◌, refl, Bool, true, false, Option, none, some, List,
  arith, Bool-cases, inl, inr, if◌then◌else◌, ◌∙◌, ◌==◌, ltb, Option-cases, lt→ltb, ==→eq, ==→ne,
  ap, sym,
}
use neos.Base.Int.{ℤ, pos, negsuc}
use neos.Vfs.Tree.{
  Tree, Drivers, VRef, is_error, dot, dot_dot, text_eq, vfs_findchld, enable, update_from,
  vfs_update, driver_open, update_open, enter_part, vfs_enter,
}

pub fine_zero : (r : ℤ) → is_error r ≡ false → r ≡ pos 0
fine_zero (pos n) h = ground arith
fine_zero (negsuc n) h = cc

module _ (drivers : Drivers) (tree : Tree) where
  open drivers use {State, World}

  -- The reference has the driver of its node.
  abbrev pub Synced : VRef State → Type 0
  Synced vref = vref.driver ≡ (tree.node vref.node).driver

  -- What stays when only the driver and the state change.
  pub record SamePlace (a b : VRef State) : Type 0 where
    pub node : b.node ≡ a.node
    pub offset : b.offset ≡ a.offset

  update_from-SamePlace :
      (held wanted : Option ℕ) (vref v : VRef State) (res : ℤ) (w w' : World)
      → update_from drivers held wanted vref w ≡ some (res, v, w')
      → SamePlace vref v
  unfolding update_from enable
  update_from-SamePlace none none vref v res w w' h = cc
  update_from-SamePlace none (some d) vref v res w w' h = record {
    node = ground arith;
    offset = ground arith;
  }
  update_from-SamePlace (some d) none vref v res w w' h = record {
    node = ground arith;
    offset = ground arith;
  }
  update_from-SamePlace (some d) (some d') vref v res w w' h = record {
    node = ground arith;
    offset = ground arith;
  }

  update_from-driver :
      (held wanted : Option ℕ) (vref v : VRef State) (w w' : World)
      → vref.driver ≡ held
      → update_from drivers held wanted vref w ≡ some (pos 0, v, w')
      → v.driver ≡ wanted
  unfolding update_from enable
  update_from-driver none none vref v w w' e h = cc
  update_from-driver none (some d) vref v w w' e h = ground arith
  update_from-driver (some d) none vref v w w' e h = ground arith
  update_from-driver (some d) (some d') vref v w w' e h = ground arith

  pub vfs_update-SamePlace :
      (vref v : VRef State) (res : ℤ) (w w' : World)
      → vfs_update drivers tree vref w ≡ some (res, v, w')
      → SamePlace vref v
  unfolding vfs_update
  vfs_update-SamePlace vref v res w w' h = update_from-SamePlace _ _ vref v res w w' h

  pub vfs_update-Synced :
      (vref v : VRef State) (w w' : World)
      → vfs_update drivers tree vref w ≡ some (pos 0, v, w')
      → Synced v
  unfolding vfs_update
  vfs_update-Synced vref v w w' h =
      update_from-driver _ _ vref v w w' refl h
      ∙ ap (λ (n : ℕ). (tree.node n).driver) (sym (vfs_update-SamePlace vref v (pos 0) w w' h).node)

  driver_open-kept :
      (part : List ℕ) (flags : ℕ) (vref v : VRef State) (res : ℤ) (w w' : World)
      → driver_open drivers part flags vref w ≡ some (res, v, w')
      → SamePlace vref v × (v.driver ≡ vref.driver)
  unfolding driver_open
  driver_open-kept part flags vref v res w w' h =
      (record { node = ground arith; offset = ground arith }, ground arith)

  -- `vfs_update` and then the driver
  pub record Opened (vref v : VRef State) (res : ℤ) : Type 0 where
    pub place : SamePlace vref v
    pub synced : res ≡ pos 0 → Synced v

  pub update_open-Opened :
      (part : List ℕ) (flags : ℕ) (vref v : VRef State) (res : ℤ) (w w' : World)
      → update_open drivers tree part flags vref w ≡ some (res, v, w')
      → Opened vref v res
  unfolding update_open
  update_open-Opened part flags vref v res w w' h =
      elim (Option-cases (vfs_update drivers tree vref w)) [
        | inl e ↦ absurd (ground (arith, e))
        | inr ((r, v1, w1), e) ↦
            let place = vfs_update-SamePlace vref v1 r w w1 e in
            elim (Bool-cases (is_error r)) [
              | inl bad ↦
                  let same : some (r, v1, w1) ≡ some (res, v, w') = rw (update_open, e, bad) at h in
                  record {
                    place = record {
                      node = ground (arith, place.node);
                      offset = ground (arith, place.offset);
                    };
                    synced = λ zero'. absurd (ground arith);
                  }
              | inr fine ↦
                  let after : driver_open drivers part flags v1 w1 ≡ some (res, v, w') =
                    rw (update_open, e, fine) at h in
                  let kept = driver_open-kept part flags v1 v res w1 w' after in
                  let clean =
                    vfs_update-Synced vref v1 w w1
                      (e ∙ ap (λ (x : ℤ). some (x, v1, w1)) (fine_zero r fine)) in
                  record {
                    place = record {
                      node = kept.0.node ∙ place.node;
                      offset = kept.0.offset ∙ place.offset;
                    };
                    synced = λ zero'.
                        kept.1 ∙ clean ∙ ap (λ (n : ℕ). (tree.node n).driver) (sym kept.0.node);
                  }
            ]
      ]
