-- ===== src/Fat/Write/Content.antt =====
-- fat.c, fat_fwrite: the bytes of the file behind a write.
use neos.Base.{
  ℕ, ◌+◌, ◌-◌, ◌≤◌, ◌<◌, ◌≡◌, ◌≢◌, ◌⊎◌, refl, List, [], ◌∷◌, arith, true, false, ltb, leb, inl, inr,
  ◌∙◌, ap, ◌&&◌, ◌==◌, if◌then◌else◌, Bool-cases, ltb→lt, ltb→le, lt→ltb, le→leb, ==→eq,
}
use neos.Memory.{Mem}
use neos.Fat.{Bpb, Disk}
use neos.Fat.Chain.{Chain, Chain.last, Chain.link, member, head-not-member}
use neos.Fat.Read.{cluster_size, cluster_start}
use neos.Fat.Read.Content.{IsData, cluster_size_lem, cluster_start_lem, byte_at, mul_mono}
use neos.Fat.Write.Cluster.{patched, on_disk}
use neos.Fat.Write.Loop.{span, patched_all}

-- A list of different clusters of the data area.
pub data Apart (n : ℕ) : List ℕ → Type 0 where
  none_left : Apart n []
  one_more :
      (c : ℕ) (cs : List ℕ) → 2 ≤ c → c < n → member c cs ≡ false → Apart n cs → Apart n (c ∷ cs)

pub Chain-Apart : {n : ℕ} {table : ℕ → ℕ} (c : ℕ) (cs : List ℕ) → Chain n table c cs → Apart n cs
Chain-Apart c _ (last _ two lt e) = one_more c [] two lt refl none_left
Chain-Apart c _ (link _ cs two lt l rest) =
    one_more c cs two lt (head-not-member c cs two lt l rest) (Chain-Apart _ cs rest)

pub member-Apart :
    {n : ℕ} (x : ℕ) (cs : List ℕ) → Apart n cs → member x cs ≡ true → (2 ≤ x) × (x < n)
member-Apart x _ none_left h = absurd (ground arith)
member-Apart x _ (one_more c cs two lt new rest) h = elim (Bool-cases (x == c)) [
  | inl same ↦ let e = ==→eq x c same in (omega (arith, e, two), omega (arith, e, lt))
  | inr other ↦ member-Apart x cs rest (ground arith)
]

-- Two clusters do not overlap.
clusters_apart :
    (bpb : Bpb) (n x y : ℕ)
    → IsData bpb n
    → (2 ≤ x) × (x < n)
    → (2 ≤ y) × (y < n)
    → x ≢ y
    → (cluster_start bpb x + cluster_size bpb ≤ cluster_start bpb y)
      ⊎ (cluster_start bpb y + cluster_size bpb ≤ cluster_start bpb x)
clusters_apart bpb n x y area hx hy ne =
    let sx = (cluster_start_lem bpb n x area hx.0 hx.1).0 in
    let sy = (cluster_start_lem bpb n y area hy.0 hy.1).0 in
    let size = cluster_size_lem bpb n area in
    elim (Bool-cases (ltb x y)) [
      | inl less ↦
          let lt = ltb→lt x y less in
          let m = mul_mono (x - 2) (y - 2) bpb.sec_per_clus (omega (arith, hx.0, lt)) in
          inl (omega (arith, sx, sy, size, m))
      | inr more ↦
          let ge = ltb→le x y more in
          let m = mul_mono (y - 2) (x - 2) bpb.sec_per_clus (omega (arith, hy.0, ge, ne)) in
          inr (omega (arith, sx, sy, size, m))
    ]

module _ (d : Disk) (n cursor data_size : ℕ) (data_in : Mem) (area : IsData d.bpb n) where
  abbrev size : ℕ
  size = cluster_size d.bpb

  abbrev start : ℕ → ℕ
  start = cluster_start d.bpb

  patched-outside :
      (c o a : ℕ) (image : Mem)
      → (a < start c) ⊎ (start c + size ≤ a)
      → patched size (start c) cursor data_size o data_in image a ≡ image a
  patched-outside c o a image (inl h) = ground arith
  patched-outside c o a image (inr h) = ground arith

  -- A byte in none of the clusters is not written.
  pub patched_all-outside :
      (cs : List ℕ) (o a : ℕ) (image : Mem)
      → ((x : ℕ) → member x cs ≡ true → (a < start x) ⊎ (start x + size ≤ a))
      → patched_all d.bpb cursor data_size data_in cs o image a ≡ image a
  patched_all-outside [] o a image h = refl
  patched_all-outside (c ∷ cs) o a image h =
      patched_all-outside cs (o + size) a _ (λ x m. h x (ground arith))
      ∙ patched-outside c o a image (h c (ground arith))

  byte_at-agree :
      (cs : List ℕ) (m m' : Mem) (p : ℕ)
      → ((x q : ℕ) → member x cs ≡ true → q < size → m' (start x + q) ≡ m (start x + q))
      → byte_at (on_disk m' d) cs p ≡ byte_at (on_disk m d) cs p
  unfolding byte_at
  byte_at-agree [] m m' p h = refl
  byte_at-agree (c ∷ cs) m m' p h =
      let rest = byte_at-agree cs m m' (p - size) (λ x q i. h x q (ground arith)) in
      elim (Bool-cases (ltb p size)) [
        | inl here ↦ rw here (h c p (ground arith) (ltb→lt p size here))
        | inr later ↦ rw later rest
      ]

  -- The range of a cluster that is not in the list is outside of the list's.
  elsewhere :
      (c : ℕ) (cs : List ℕ)
      → 2 ≤ c
      → c < n
      → member c cs ≡ false
      → Apart n cs
      → (x q : ℕ) → member x cs ≡ true
      → ((q < size) → (start c + q < start x) ⊎ (start x + size ≤ start c + q))
        × ((q < size) → (start x + q < start c) ⊎ (start c + size ≤ start x + q))
  elsewhere c cs two lt new apart x q m =
      let different : c ≢ x = λ e. absurd (cc (m, new, e)) in
      let gap = clusters_apart d.bpb n c x area (two, lt) (member-Apart x cs apart m) different in
      elim gap [
        | inl below ↦ ((λ i. inl (omega arith)), λ i. inr (omega arith))
        | inr above ↦ ((λ i. inr (omega arith)), λ i. inl (omega arith))
      ]

  patched-at :
      (c o p : ℕ) (image : Mem)
      → p < size
      → patched size (start c) cursor data_size o data_in image (start c + p) ≡ (
          if leb cursor (o + p) && ltb (o + p) (cursor + data_size)
          then data_in (o + p - cursor)
          else image (start c + p))
  patched-at c o p image h =
      let back : start c + p - start c ≡ p = omega arith in
      rw
        (
          back,
          le→leb (start c) (start c + p) (omega arith),
          lt→ltb (start c + p) (start c + size) (omega arith),
        )
        refl

  -- Behind the write, the file has the data from the cursor on, and is otherwise what it was.
  pub byte_at-patched_all :
      (cs : List ℕ) (o p : ℕ) (image : Mem)
      → Apart n cs
      → p < span size cs
      → byte_at (on_disk (patched_all d.bpb cursor data_size data_in cs o image) d) cs p ≡ (
          if leb cursor (o + p) && ltb (o + p) (cursor + data_size)
          then data_in (o + p - cursor)
          else byte_at (on_disk image d) cs p)
  unfolding byte_at
  byte_at-patched_all _ o p image none_left h = absurd (omega arith)
  byte_at-patched_all _ o p image (one_more c cs two lt new apart) h =
      let image' = patched size (start c) cursor data_size o data_in image in
      elim (Bool-cases (ltb p size)) [
        | inl here ↦
            let kept =
              patched_all-outside cs (o + size) (start c + p) image'
                λ x m. (elsewhere c cs two lt new apart x p m).0 (ltb→lt p size here) in
            rw (here, kept) (patched-at c o p image (ltb→lt p size here))
        | inr later ↦
            let inner =
              byte_at-patched_all cs (o + size) (p - size) image' apart
                (omega (arith, h, ltb→le p size later)) in
            let agree = byte_at-agree cs image image' (p - size) λ x q m i.
              patched-outside c o (start x + q) image
                ((elsewhere c cs two lt new apart x q m).1 i) in
            rw (later, inner, agree)
              (ap
                (λ (x : ℕ).
                  if leb cursor x && ltb x (cursor + data_size)
                  then data_in (x - cursor)
                  else byte_at (on_disk image d) cs (p - size))
                (omega (arith, ltb→le p size later)))
      ]
