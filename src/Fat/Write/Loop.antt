-- ===== src/Fat/Write/Loop.antt =====
-- fat.c, fat_fwrite: the loop over the clusters of a file that has room for the data.
use neos.Base.{
  ℕ, zero, suc, ◌+◌, ◌*◌, ◌^◌, ◌≤◌, ◌<◌, ◌≡◌, refl, List, [], ◌∷◌, arith, true, leb, some, sym,
  length, inl, inr, ◌∙◌, ap, le→leb, le→ltb, ne→==,
}
use neos.Memory.{Mem}
use neos.Fat.{Bpb, fat_entry, Disk, add32, read_fat_entry, low28, is_last, bad_cluster}
use neos.Fat.Entry.{IsGeometry, fat_entry_lem, get32-agree}
use neos.Fat.Chain.{Chain, IsLink, Chain.last, Chain.link, Chain-agree, member}
use neos.Fat.Read.{cluster_size, cluster_start}
use neos.Fat.Read.Part.{taken}
use neos.Fat.Read.Content.{IsData, cluster_size_lem, cluster_start_lem}
use neos.Fat.Write.{done, write_cluster, fwrite_loop, next_of_last}
use neos.Fat.Write.Cluster.{patched, on_disk, write_cluster-patched}

-- The length of the clusters of a list, and the contents of the disk when the data have been
-- written to them.
abbrev pub span : (size : ℕ) → List ℕ → ℕ
span size [] = 0
span size (c ∷ cs) = size + span size cs

abbrev pub patched_all :
    Bpb → (cursor data_size : ℕ) (data_in : Mem) → List ℕ → (offset : ℕ) → Mem → Mem
patched_all bpb cursor data_size data_in [] offset image = image
patched_all bpb cursor data_size data_in (c ∷ cs) offset image =
    patched_all bpb cursor data_size data_in cs (offset + cluster_size bpb)
      (patched (cluster_size bpb) (cluster_start bpb c) cursor data_size offset data_in image)

-- The mark that ends a file is the one that the code itself writes.
abbrev pub IsMarked : (n : ℕ) → Disk → List ℕ → Type 0
IsMarked n d cs =
    (x : ℕ)
    → x < n
    → member x cs ≡ true
    → is_last (read_fat_entry x d) ≡ true
    → read_fat_entry x d ≡ 0x0FFFFFFF

pub mul_le : (k s : ℕ) → 1 ≤ k → s ≤ k * s
mul_le zero s h = elim h [ ]
mul_le (suc k) s h = grind arith

in_front :
    (size start cursor data_size offset : ℕ) (data_in image : Mem) (a : ℕ)
    → a < start
    → patched size start cursor data_size offset data_in image a ≡ image a
in_front size start cursor data_size offset data_in image a h = ground arith

-- The tables lie in front of the data.
pub read_fat_entry-patched :
    (n c y cursor data_size offset : ℕ) (data_in : Mem) (d : Disk)
    → IsGeometry d.bpb n
    → IsData d.bpb n
    → 1 ≤ d.bpb.num_fats
    → 2 ≤ c
    → c < n
    → y < n
    → read_fat_entry y (
        on_disk
          (patched
            (cluster_size d.bpb)
            (cluster_start d.bpb c)
            cursor
            data_size
            offset
            data_in
            d.image)
          d)
      ≡ read_fat_entry y d
unfolding read_fat_entry
read_fat_entry-patched n c y cursor data_size offset data_in d g area fats two lt h =
    let at = fat_entry_lem d.bpb n y g h in
    let start = (cluster_start_lem d.bpb n c area two lt).0 in
    let tables = mul_le d.bpb.num_fats d.bpb.fat_sz32 fats in
    let image =
      patched (cluster_size d.bpb) (cluster_start d.bpb c) cursor data_size offset data_in
        d.image in
    get32-agree image d.image (fat_entry d.bpb y) (fat_entry d.bpb y) λ i few.
      in_front (cluster_size d.bpb) (cluster_start d.bpb c) cursor data_size offset data_in d.image
        (fat_entry d.bpb y + i) (omega (arith, at, start, tables, g.room))

module _ (fuel data_size cursor n : ℕ) (data_in : Mem) (b : data_size < 2 ^ 32) where
  fwrite_loop-step :
      (f c offset total : ℕ) (d : Disk)
      → 2 ≤ c
      → (let next = read_fat_entry c d in
          let offset' = add32 offset (cluster_size d.bpb) in
          let out = write_cluster c offset' data_size cursor data_in total d in
          (next ≡ 0x0FFFFFFF
            → leb (add32 cursor data_size) offset' ≡ true
            → fwrite_loop fuel data_size cursor data_in (suc f) c offset total d
              ≡ some (done out.0 out.1))
          × (next ≡ 0xFFFFFFFF
              → fwrite_loop fuel data_size cursor data_in (suc f) c offset total d
                ≡ some (done out.0 out.1))
          × (IsLink next
              → fwrite_loop fuel data_size cursor data_in (suc f) c offset total d
                ≡ fwrite_loop fuel data_size cursor data_in f (low28 next) offset' out.0 out.1))
  unfolding fwrite_loop next_of_last
  fwrite_loop-step f c offset total d two = (
    (λ e fits. rw (fwrite_loop, next_of_last, le→ltb c 2 two, e, fits) refl),
    (λ e. rw (fwrite_loop, le→ltb c 2 two, e) refl),
    (λ l.
        rw
          (
            fwrite_loop,
            le→ltb c 2 two,
            ne→== _ bad_cluster l.good,
            ne→== _ 0 l.used,
            l.inner,
            ne→== _ 0xFFFFFFFF l.inner',
          )
          refl),
  )

  -- One round of the loop, which does not wrap.
  round :
      (c offset : ℕ) (d : Disk)
      → IsData d.bpb n
      → 2 ≤ c
      → c < n
      → offset + 131072 < 2 ^ 32
      → write_cluster c
          (add32 offset (cluster_size d.bpb))
          data_size
          cursor
          data_in
          (taken data_size cursor offset)
          d
        ≡ (
          taken data_size cursor (offset + cluster_size d.bpb),
          on_disk
              (patched
                (cluster_size d.bpb)
                (cluster_start d.bpb c)
                cursor
                data_size
                offset
                data_in
                d.image)
              d,
        )
  round c offset d area two lt low =
      ap (λ (o : ℕ). write_cluster c o data_size cursor data_in (taken data_size cursor offset) d)
        (omega (arith, cluster_size_lem d.bpb n area, area.small))
      ∙ write_cluster-patched n c offset data_size cursor _ data_in d area two lt b low refl

  -- What the loop returns on the chain of a file from a cluster on.
  abbrev Done : (f c offset : ℕ) (cs : List ℕ) (d : Disk) → Type 0
  Done f c offset cs d =
      fwrite_loop fuel data_size cursor data_in f c offset (taken data_size cursor offset) d
      ≡ some (
          done (taken data_size cursor (offset + span (cluster_size d.bpb) cs))
            (on_disk (patched_all d.bpb cursor data_size data_in cs offset d.image) d))

  pub fwrite_loop-Done :
      (f c offset : ℕ) (cs : List ℕ) (d : Disk)
      → IsGeometry d.bpb n
      → IsData d.bpb n
      → 1 ≤ d.bpb.num_fats
      → Chain n (λ x. read_fat_entry x d) c cs
      → IsMarked n d cs
      → length cs ≤ f
      → cursor + data_size ≤ offset + span (cluster_size d.bpb) cs
      → offset + span (cluster_size d.bpb) cs + 131072 < 2 ^ 32
      → Done f c offset cs d
  fwrite_loop-Done zero c offset _ d g area fats (last _ two lt e) mark enough room low =
      absurd (omega arith)
  fwrite_loop-Done zero c offset _ d g area fats (link _ cs two lt l rest) mark enough room low =
      absurd (omega arith)
  fwrite_loop-Done (suc f) c offset _ d g area fats (last _ two lt e) mark enough room low =
      let (marked, other, inner) =
        fwrite_loop-step f c offset (taken data_size cursor offset) d two in
      let r = round c offset d area two lt (omega arith) in
      let image =
        patched (cluster_size d.bpb) (cluster_start d.bpb c) cursor data_size offset data_in
          d.image in
      let finish =
        ap (λ (o : ℕ × Disk). some (done o.0 o.1)) r
        ∙ ap (λ (x : ℕ). some (done (taken data_size cursor (offset + x)) (on_disk image d)))
            (omega arith) in
      elim e [
        | inl l ↦
            marked (mark c lt (ground arith) l)
              (le→leb _ _ (omega (arith, room, low, cluster_size_lem d.bpb n area, area.small)))
            ∙ finish
        | inr o ↦ other o ∙ finish
      ]
  fwrite_loop-Done (suc f) c offset _ d g area fats (link _ cs two lt l rest) mark enough room low =
      let step = (fwrite_loop-step f c offset (taken data_size cursor offset) d two).2 l in
      let r = round c offset d area two lt (omega arith) in
      let image =
        patched (cluster_size d.bpb) (cluster_start d.bpb c) cursor data_size offset data_in
          d.image in
      let d' = on_disk image d in
      let kept : (y : ℕ) → y < n → read_fat_entry y d' ≡ read_fat_entry y d = λ y h.
        read_fat_entry-patched n c y cursor data_size offset data_in d g area fats two lt h in
      let inner =
        fwrite_loop-Done f (low28 (read_fat_entry c d)) (offset + cluster_size d.bpb) cs d' g area
          fats (Chain-agree n _ _ _ cs rest (λ y h m. kept y h))
          (λ y h m last. kept y h ∙ mark y h (ground arith) (ap is_last (sym (kept y h)) ∙ last))
          (omega arith) (omega arith) (omega arith) in
      step
      ∙ ap
          (λ (o : ℕ × Disk).
            fwrite_loop fuel data_size cursor data_in f (low28 (read_fat_entry c d))
              (add32 offset (cluster_size d.bpb)) o.0 o.1)
          r
      ∙ ap
          (λ (o : ℕ).
            fwrite_loop fuel data_size cursor data_in f (low28 (read_fat_entry c d)) o
              (taken data_size cursor (offset + cluster_size d.bpb)) d')
          (omega (arith, cluster_size_lem d.bpb n area, area.small))
      ∙ inner
      ∙ ap
          (λ (x : ℕ). some (
            done (taken data_size cursor x)
              (on_disk (patched_all d.bpb cursor data_size data_in (c ∷ cs) offset d.image) d)))
          (omega arith)
