-- ===== src/Vfs/Tree/Open.antt =====
-- vfs.c, vfs_open: the reference that it ends with, its fuel, and a path that is too long.
use neos.Base.{
  ℕ, zero, suc, ◌≡◌, refl, Option, none, some, List, ◌∷◌, ◌++◌, arith, Bool-cases, inl, inr,
  if◌then◌else◌, ◌∙◌, ◌==◌, ltb, Option-cases, ap, sym, length, drop, ◌⊎◌,
}
use mathlib.Core.Path.{subst}
use Prim.Native.Nat.{bit_and, bit_or}
use neos.Base.Int.{ℤ, pos}
use neos.Vfs.Path.{VPath, resolve, slash, char_at, linux_enametoolong}
use neos.Vfs.Path.Segment.{AllPlain}
use neos.Vfs.Path.RoundTrip.{resolve_too_long}
use neos.Vfs.Tree.{
  Tree, Drivers, VRef, vfs_update, vfs_refcpy, enter_back, open_loop, vfs_open, is_error,
  path_max_resolves, linux_eloop, open_directory, open_nofollow,
}
use neos.Vfs.Tree.Enter.{Synced, vfs_update-Synced, fine_zero}
use neos.Vfs.Tree.Enter.Moves.{vfs_enter-Entered}

drop_zero :
    (path : List ℕ) (c : ℕ) (name r : List ℕ)
    → (path ≡ c ∷ (name ++ r)) ⊎ (path ≡ slash ∷ (c ∷ (name ++ r)))
    → (drop 0 path ≡ c ∷ (name ++ r)) ⊎ (drop 0 path ≡ slash ∷ (c ∷ (name ++ r)))
drop_zero path c name r e = e

module _ (drivers : Drivers) (tree : Tree) where
  open drivers use {State, World}

  enter_back-Synced :
      (flags : ℕ) (back : Option (List ℕ)) (vref v : VRef State) (w w' : World)
      → Synced drivers tree vref
      → enter_back drivers tree flags back vref w ≡ some (pos 0, v, w')
      → Synced drivers tree v
  enter_back-Synced flags none vref v w w' s h =
      let same : vref ≡ v = cc in subst (Synced drivers tree) same s
  enter_back-Synced flags (some back) vref v w w' s h =
      (vfs_enter-Entered drivers tree back flags vref v (pos 0) w w' h).synced refl s

  open_loop-Synced :
      (f flags : ℕ) (path : VPath) (back : Option (List ℕ)) (vref v : VRef State) (w w' : World)
      → Synced drivers tree vref
      → open_loop drivers f tree flags path back vref w ≡ some (pos 0, v, w')
      → Synced drivers tree v
  unfolding open_loop
  open_loop-Synced zero flags path back vref v w w' s h = cc
  open_loop-Synced (suc f) flags path back vref v w w' s h =
      let path' = (resolve path).0 in
      let inner = bit_or open_directory (bit_and flags open_nofollow) in
      elim (Option-cases (resolve path).1) [
        | inl e ↦ enter_back-Synced flags back vref v w w' s (rw (open_loop, e) at h)
        | inr (front, e) ↦ elim (Bool-cases (path'.errno == 0)) [
          | inr long ↦
              let bad : some (pos path'.errno, vref, w) ≡ some (pos 0, v, w') =
                rw (open_loop, e, long) at h in
              absurd (ground (arith, long, bad))
          | inl clean ↦ elim (Option-cases (enter_back drivers tree inner back vref w)) [
            | inl e2 ↦
                let bad : none ≡ some (pos 0, v, w') = rw (open_loop, e, clean, e2) at h in cc
            | inr ((r, v1, w1), e2) ↦ elim (Bool-cases (is_error r)) [
              | inl error ↦
                  let bad : some (r, v1, w1) ≡ some (pos 0, v, w') =
                    rw (open_loop, e, clean, e2, error) at h in
                  absurd (ground arith)
              | inr fine ↦ elim (Bool-cases (ltb path_max_resolves path'.resolves)) [
                | inl loops ↦
                    let bad : some (pos linux_eloop, v1, w1) ≡ some (pos 0, v, w') =
                      rw (open_loop, e, clean, e2, fine, loops) at h in
                    absurd (ground arith)
                | inr few ↦
                    open_loop-Synced f flags path' (some front) v1 v w1 w'
                      (enter_back-Synced inner back vref v1 w w1 s
                        (e2 ∙ ap (λ (x : ℤ). some (x, v1, w1)) (fine_zero r fine)))
                      (rw (open_loop, e, clean, e2, fine, few) at h)
              ]
            ]
          ]
        ]
      ]

  -- the copy that `vfs_open` starts from
  abbrev pub start : (root_ref relation : VRef State) → List ℕ → World → VRef State × World
  start root_ref relation path w =
      vfs_refcpy drivers (if char_at path 0 == slash then root_ref else relation) w

  abbrev pub whole_path : List ℕ → VPath
  whole_path path = record { string = path; offset = 0; resolves = 0; errno = 0 }

  vfs_open-loop :
      (root_ref relation vref : VRef State) (path : List ℕ) (flags : ℕ) (res : ℤ) (w w1 : World)
      → (let (copy, w0) = start root_ref relation path w in
          vfs_update drivers tree copy w0 ≡ some (res, vref, w1))
      → vfs_open drivers tree root_ref relation path flags w
        ≡ open_loop drivers (suc (length path)) tree flags (whole_path path) none vref w1
  unfolding vfs_open
  vfs_open-loop root_ref relation vref path flags res w w1 e = rw (vfs_open, e) refl

  -- Where vfs_open reports success, and its first vfs_update did, the reference has the driver of
  -- the node that it ends at.
  pub vfs_open-Synced :
      (root_ref relation vref v : VRef State) (path : List ℕ) (flags : ℕ) (w w1 w' : World)
      → (let (copy, w0) = start root_ref relation path w in
          vfs_update drivers tree copy w0 ≡ some (pos 0, vref, w1))
      → vfs_open drivers tree root_ref relation path flags w ≡ some (pos 0, v, w')
      → Synced drivers tree v
  vfs_open-Synced root_ref relation vref v path flags w w1 w' e h =
      let (copy, w0) = start root_ref relation path w in
      open_loop-Synced (suc (length path)) flags (whole_path path) none vref v w1 w'
        (vfs_update-Synced drivers tree copy vref w0 w1 e)
        (sym (vfs_open-loop root_ref relation vref path flags (pos 0) w w1 e) ∙ h)

  -- On a path whose first section has 255 or more bytes vfs_open returns 36, which is ENAMETOOLONG
  -- and positive, and leaves the reference at the place that it started from.
  pub vfs_open-too_long :
      (root_ref relation vref : VRef State) (path : List ℕ) (flags c : ℕ) (name r : List ℕ)
      (res : ℤ) (w w1 : World)
      → AllPlain (c ∷ name)
      → length (c ∷ name) ≡ 255
      → (path ≡ c ∷ (name ++ r)) ⊎ (path ≡ slash ∷ (c ∷ (name ++ r)))
      → (let (copy, w0) = start root_ref relation path w in
          vfs_update drivers tree copy w0 ≡ some (res, vref, w1))
      → vfs_open drivers tree root_ref relation path flags w
        ≡ some (pos linux_enametoolong, vref, w1)
  unfolding open_loop
  vfs_open-too_long root_ref relation vref path flags c name r res w w1 plain full e u =
      let (found, long) =
        resolve_too_long (whole_path path) c name r plain full (drop_zero path c name r e) in
      vfs_open-loop root_ref relation vref path flags res w w1 u ∙ rw (open_loop, found, long) refl
