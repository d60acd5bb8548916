-- ===== src/Fat/Chain.antt =====
-- fat.c, fat_file_cluster_count and fat_remove_fat_chain: the loops that follow a file's clusters.
pub mod Count
pub mod Remove
use neos.Base.{
  ℕ, zero, suc, ◌+◌, ◌%◌, ◌^◌, ◌<◌, ◌≤◌, ◌≡◌, ◌≢◌, ◌⊎◌, Option, none, some, ◌==◌, ltb,
  if◌then◌else◌, List, [], ◌∷◌, inl, inr, Bool-cases, Bool, true, false, sym, ap, arith, refl,
  length, ==→eq,
}
use mathlib.Core.Path.{subst}
use neos.Fat.{
  Disk, read_fat_entry_cached, read_fat_entry, write_fat_entry, invalidate_cache, bad_cluster,
  is_last, low28,
}

-- The loop of `fat_file_cluster_count` on fuel, with `current_file_cluster` and `cluster_count`.
pub count_loop : ℕ → (cluster count : ℕ) → Disk → Option (ℕ × Disk)
count_loop zero cluster count disk = none
count_loop (suc f) cluster count disk =
    let (next, loaded) = read_fat_entry_cached cluster disk in
    let rest = count_loop f (low28 next) (count + 1) loaded in
    if ltb cluster 2
    then some (count, disk)
    else if next == bad_cluster
    then some (count, loaded)
    else if next == 0
    then some (count, loaded)
    else if is_last next
    then some (count + 1, loaded)
    else if next == 0xFFFFFFFF
    then some (count + 1, loaded)
    else rest

pub fat_file_cluster_count : ℕ → (first : ℕ) → Disk → Option (ℕ × Disk)
fat_file_cluster_count fuel first disk = count_loop fuel first 0 (invalidate_cache disk)

-- The loop of `fat_remove_fat_chain` on fuel.
pub remove_loop : ℕ → (cluster : ℕ) → Disk → Option Disk
remove_loop zero cluster disk = none
remove_loop (suc f) cluster disk =
    let next = read_fat_entry cluster disk in
    let freed = write_fat_entry cluster 0x0 disk in
    let rest = remove_loop f (low28 next) freed in
    if ltb cluster 2
    then some disk
    else if next == bad_cluster
    then some disk
    else if next == 0
    then some disk
    else if is_last next
    then some freed
    else if next == 0xFFFFFFFF
    then some freed
    else rest

pub fat_remove_fat_chain : ℕ → (first : ℕ) → Disk → Option Disk
fat_remove_fat_chain = remove_loop

-- An entry that ends a file, and one that links to another cluster.
abbrev pub IsEnd : ℕ → Type 0
IsEnd next = (is_last next ≡ true) ⊎ (next ≡ 0xFFFFFFFF)

pub record IsLink (next : ℕ) : Type 0 where
  pub used : next ≢ 0
  pub good : next ≢ bad_cluster
  pub inner : is_last next ≡ false
  pub inner' : next ≢ 0xFFFFFFFF

-- The clusters of a file that starts at cluster `c`, by the entries of a table of `n` clusters.
pub data Chain (n : ℕ) (table : ℕ → ℕ) : ℕ → List ℕ → Type 0 where
  last : (c : ℕ) → 2 ≤ c → c < n → IsEnd (table c) → Chain n table c (c ∷ [])
  link :
      (c : ℕ) (cs : List ℕ)
      → 2 ≤ c
      → c < n
      → IsLink (table c)
      → Chain n table (low28 (table c)) cs
      → Chain n table c (c ∷ cs)

abbrev pub member : ℕ → List ℕ → Bool
member x [] = false
member x (y ∷ ys) = if x == y then true else member x ys

end-not-link : (v : ℕ) → IsEnd v → IsLink v → ⊥
end-not-link v (inl e) l = cc (l.inner)
end-not-link v (inr e) l = l.inner' e

module _ {n : ℕ} {table : ℕ → ℕ} where
  -- A table has one chain from a cluster.
  same_length :
      (c : ℕ) (xs ys : List ℕ) → Chain n table c xs → Chain n table c ys → length xs ≡ length ys
  same_length c _ _ (last _ _ _ e) (last _ _ _ e') = refl
  same_length c _ _ (last _ _ _ e) (link _ cs _ _ l rest) = absurd (end-not-link _ e l)
  same_length c _ _ (link _ cs _ _ l rest) (last _ _ _ e) = absurd (end-not-link _ e l)
  same_length c _ _ (link _ xs _ _ l rest) (link _ ys _ _ l' rest') =
      ap suc (same_length _ xs ys rest rest')

  -- Each of its clusters starts a chain that is no longer.
  suffix :
      (c x : ℕ) (xs : List ℕ)
      → Chain n table c xs
      → member x xs ≡ true
      → (ys : List ℕ) × Chain n table x ys × (length ys ≤ length xs)
  suffix c x _ (last _ a b e) h = (
    c ∷ [],
    subst (λ (y : ℕ). Chain n table y (c ∷ [])) (ground arith) (last c a b e),
    omega arith,
  )
  suffix c x _ (link _ cs a b l rest) h = elim (Bool-cases (x == c)) [
    | inl same ↦ (
      c ∷ cs,
      subst (λ (y : ℕ). Chain n table y (c ∷ cs)) (sym (==→eq x c same)) (link c cs a b l rest),
      omega arith,
    )
    | inr other ↦
        let (ys, chain, le) = suffix _ x cs rest (ground arith) in (ys, chain, omega (arith, le))
  ]

  -- No cluster occurs twice.
  pub head-not-member :
      (c : ℕ) (cs : List ℕ)
      → 2 ≤ c
      → c < n
      → IsLink (table c)
      → Chain n table (low28 (table c)) cs
      → member c cs ≡ false
  head-not-member c cs a b l rest = elim (Bool-cases (member c cs)) [
    | inl h ↦
        let (ys, chain, le) = suffix _ c cs rest h in
        absurd (omega (arith, le, same_length c ys (c ∷ cs) chain (link c cs a b l rest)))
    | inr h ↦ h
  ]

-- Tables that agree on the clusters of a chain have the same chain.
pub Chain-agree :
    (n : ℕ) (table table' : ℕ → ℕ) (c : ℕ) (cs : List ℕ)
    → Chain n table c cs
    → ((k : ℕ) → k < n → member k cs ≡ true → table' k ≡ table k)
    → Chain n table' c cs
Chain-agree n table table' c _ (last _ a b e) same =
    last c a b (subst IsEnd (sym (same c b (ground arith))) e)
Chain-agree n table table' c _ (link _ cs a b l rest) same =
    let eq = same c b (ground arith) in
    link c cs a b (subst IsLink (sym eq) l) (
      subst (λ (x : ℕ). Chain n table' (low28 x) cs) (sym eq)
        (Chain-agree n table table' _ cs rest (λ k lt h. same k lt (ground arith))))
