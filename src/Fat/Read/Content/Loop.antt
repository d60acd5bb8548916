-- ===== src/Fat/Read/Content/Loop.antt =====
-- fat.c, fat_fread: the loop over the clusters.
use neos.Base.{
  ℕ, zero, suc, ◌+◌, ◌-◌, ◌^◌, ◌≤◌, ◌<◌, ◌≡◌, refl, List, [], ◌∷◌, arith, ltb, leb, ◌&&◌, some, sym,
  length, if◌then◌else◌, Bool-cases, inl, inr, ltb→lt, lt→ltb, ◌∙◌, ap, fun_ext,
}
use mathlib.Core.Path.{subst}
use neos.Fat.{Disk, add32, read_fat_entry_cached, read_fat_entry, low28}
use neos.Fat.Entry.{
  IsGeometry, SameDisk, Coherent, read_fat_entry_cached_lem, SameDisk-trans, same_entries,
  same-IsGeometry,
}
use neos.Fat.Chain.{Chain, IsEnd, IsLink, Chain.last, Chain.link, Chain-agree}
use neos.Fat.Read.{File, Out, cluster_size, cluster_start, read_cluster, fread_loop}
use neos.Fat.Read.Content.Rounds.{two_rounds, taken_mono, taken_near, taken_far}
use neos.Fat.Read.Part.{taken, smaller, read_part_lem}
use neos.Fat.Read.Content.{IsData, cluster_size_lem, cluster_start_lem, byte_at, Fits}

fread_loop-step :
    (f data_size c offset : ℕ) (file : File) (out : Out) (d : Disk)
    → 2 ≤ c
    → (let (next, loaded) = read_fat_entry_cached c d in
        let offset' = add32 offset (cluster_size d.bpb) in
        let out' = read_cluster c offset' data_size file loaded out in
        (IsEnd next → fread_loop (suc f) data_size file c offset out d ≡ some (out', loaded))
        × (IsLink next
            → fread_loop (suc f) data_size file c offset out d
              ≡ fread_loop f data_size file (low28 next) offset' out' loaded))
unfolding fread_loop
fread_loop-step f data_size c offset file out d h = (ground arith, ground arith)

pub same-IsData : {n : ℕ} {d d' : Disk} → SameDisk d d' → IsData d.bpb n → IsData d'.bpb n
same-IsData {n} s g = subst (λ b. IsData b n) (sym s.bpb) g

pub byte_at-same :
    (cs : List ℕ) {d d' : Disk} → SameDisk d d' → (p : ℕ) → byte_at d' cs p ≡ byte_at d cs p
unfolding byte_at
byte_at-same [] s p = refl
byte_at-same (c ∷ cs) {d} {d'} s p =
    rw (s.image, s.bpb)
      (ap (λ (x : ℕ). if ltb p (cluster_size d.bpb) then d.image (cluster_start d.bpb c + p) else x)
        (byte_at-same cs s (p - cluster_size d.bpb)))

Fits-inner :
    (n : ℕ) (table : ℕ → ℕ) (c : ℕ) (cs : List ℕ) (cluster size offset : ℕ)
    → Chain n table c cs
    → Fits cluster size offset cs
    → offset < size
Fits-inner n table c _ cluster size offset (last _ a b e) fits = fits.0
Fits-inner n table c _ cluster size offset (link _ cs a b l rest) fits = fits.0

module _ (n data_size : ℕ) (file : File) (b : data_size < 2 ^ 32)
    (small : file.file_size + 65536 < 2 ^ 32) (le : file.cursor ≤ file.file_size) where
  -- What the loop has done when it has followed the file from `offset` to `reach`, where position
  -- `p` of the file has the byte `at p`.
  pub record Took (offset reach : ℕ) (at : ℕ → ℕ) (out out' : Out) : Type 0 where
    pub total : out'.total ≡ taken data_size file.cursor reach
    pub bytes :
        (k : ℕ)
        → out'.buffer k ≡ (
            if leb out.total k && ltb k out'.total
            then at (file.cursor + k - offset)
            else out.buffer k)

  read_cluster-Took :
      (c offset : ℕ) (d : Disk) (out : Out)
      → IsData d.bpb n
      → 2 ≤ c
      → c < n
      → offset < file.file_size
      → out.total ≡ taken data_size file.cursor offset
      → Took offset
          (smaller (offset + cluster_size d.bpb) file.file_size)
          (λ p. d.image (cluster_start d.bpb c + p))
          out
          (read_cluster c (offset + cluster_size d.bpb) data_size file d out)
  unfolding read_cluster
  read_cluster-Took c offset d out area two lt f e =
      let size = cluster_size d.bpb in
      let start = cluster_start d.bpb c in
      let fits = (cluster_start_lem d.bpb n c area two lt).1 in
      let wide : size ≤ 65536 = omega (arith, cluster_size_lem d.bpb n area, area.small) in
      elim (Bool-cases (ltb file.cursor (offset + size))) [
        | inl now ↦
            let part =
              read_part_lem size start offset data_size file wide b fits small le f
                (ltb→lt _ _ now) in
            rw now (record {
              total = rw e (ground (arith, part.0));
              bytes = λ k. rw e (ground (arith, part.0, part.1, part.2));
            })
        | inr later ↦ rw later (record { total = ground arith; bytes = λ k. ground arith })
      ]

  Took-last :
      (offset size : ℕ) (at at' : ℕ → ℕ) (out out' : Out)
      → Took offset (smaller (offset + size) file.file_size) at out out'
      → file.file_size ≤ offset + size
      → out.total ≡ taken data_size file.cursor offset
      → ((p : ℕ) → p < size → at' p ≡ at p)
      → Took offset file.file_size at' out out'
  Took-last offset size at at' out out' t end e same = record {
    total = ground (arith, t.total);
    bytes = λ k. ground (arith, t.total, t.bytes k, same (file.cursor + k - offset));
  }

  Took-link :
      (offset size : ℕ) (at next at' : ℕ → ℕ) (out out1 out' : Out)
      → Took offset (smaller (offset + size) file.file_size) at out out1
      → Took (offset + size) file.file_size next out1 out'
      → offset + size < file.file_size
      → 0 < size
      → out.total ≡ taken data_size file.cursor offset
      → ((p : ℕ) → at' p ≡ (if ltb p size then at p else next (p - size)))
      → Took offset file.file_size at' out out'
  Took-link offset size at next at' out out1 out' t t' inner pos e both =
      let middle : smaller (offset + size) file.file_size ≡ offset + size = ground arith in
      let t1 : out1.total ≡ taken data_size file.cursor (offset + size) =
        t.total ∙ ap (taken data_size file.cursor) middle in
      record {
        total = t'.total;
        bytes = λ k.
            let p = file.cursor + k - offset in
            two_rounds k out.total out1.total out'.total p size (out.buffer k) (out1.buffer k)
              (out'.buffer k) (at p) (next (file.cursor + k - (offset + size))) (at' p) (t.bytes k)
              (t'.bytes k)
              (both p ∙ ap (λ (q : ℕ). if ltb p size then at p else next q) (omega arith))
              (rw (e, t1) (taken_mono data_size file.cursor offset (offset + size) (omega arith)))
              (rw (t1, t'.total)
                (taken_mono data_size file.cursor (offset + size) file.file_size (omega arith)))
              (λ lt.
                taken_near data_size file.cursor (offset + size) k size offset (omega arith) pos
                  (subst (λ (x : ℕ). k < x) t1 lt))
              (λ ge lt.
                taken_far data_size file.cursor (offset + size) file.file_size k offset size
                  (omega arith) (subst (λ (x : ℕ). x ≤ k) t1 ge)
                  (subst (λ (x : ℕ). k < x) t'.total lt));
      }

  read_cluster-same :
      (c o : ℕ) (d d' : Disk) (out : Out)
      → SameDisk d d'
      → read_cluster c o data_size file d' out ≡ read_cluster c o data_size file d out
  unfolding read_cluster
  read_cluster-same c o d d' out s = rw (s.image, s.bpb) refl

  no_wrap :
      (d : Disk) (offset : ℕ)
      → IsData d.bpb n
      → offset < file.file_size
      → add32 offset (cluster_size d.bpb) ≡ offset + cluster_size d.bpb
  no_wrap d offset area h = omega (arith, cluster_size_lem d.bpb n area, area.small)

  round :
      (d d' : Disk) (c offset : ℕ) (out : Out)
      → IsData d.bpb n
      → SameDisk d d'
      → offset < file.file_size
      → read_cluster c (add32 offset (cluster_size d.bpb)) data_size file d' out
        ≡ read_cluster c (offset + cluster_size d.bpb) data_size file d out
  round d d' c offset out area s h = rw (no_wrap d offset area h) (read_cluster-same c _ d d' out s)

  -- What the loop returns on a chain.
  abbrev pub Followed : (f c offset : ℕ) (cs : List ℕ) (out : Out) (d : Disk) → Type 0
  Followed f c offset cs out d =
      (out' : Out) × (d' : Disk) × (fread_loop f data_size file c offset out d ≡ some (out', d'))
      × SameDisk d d'
      × Took offset file.file_size (byte_at d cs) out out'

  pub fread_loop-Followed :
      (f c offset : ℕ) (cs : List ℕ) (out : Out) (d : Disk)
      → IsGeometry d.bpb n
      → IsData d.bpb n
      → Coherent d
      → Chain n (λ x. read_fat_entry x d) c cs
      → Fits (cluster_size d.bpb) file.file_size offset cs
      → length cs ≤ f
      → out.total ≡ taken data_size file.cursor offset
      → Followed f c offset cs out d
  unfolding byte_at
  fread_loop-Followed zero c offset _ out d g area co (last _ two lt e) fits enough t =
      absurd (omega arith)
  fread_loop-Followed zero c offset _ out d g area co (link _ cs two lt l rest) fits enough t =
      absurd (omega arith)
  fread_loop-Followed (suc f) c offset _ out d g area co (last _ two lt e) fits enough t =
      let (value, same) = read_fat_entry_cached_lem n c d g co lt in
      let loaded = (read_fat_entry_cached c d).1 in
      let size = cluster_size d.bpb in
      let out1 = read_cluster c (offset + size) data_size file d out in
      let step =
        (fread_loop-step f data_size c offset file out d two).0 (subst IsEnd (sym value) e) in
      let took = read_cluster-Took c offset d out area two lt fits.0 t in
      (
        out1,
        loaded,
        step ∙ ap (λ (o : Out). some (o, loaded)) (round d loaded c offset out area same fits.0),
        same,
        Took-last offset size (λ p. d.image (cluster_start d.bpb c + p)) (byte_at d (c ∷ [])) out
            out1 took fits.1 t (λ p h. rw (lt→ltb p size h) refl),
      )
  fread_loop-Followed (suc f) c offset _ out d g area co (link _ cs two lt l rest) fits enough t =
      let (value, same) = read_fat_entry_cached_lem n c d g co lt in
      let loaded = (read_fat_entry_cached c d).1 in
      let size = cluster_size d.bpb in
      let out1 = read_cluster c (offset + size) data_size file d out in
      let step =
        (fread_loop-step f data_size c offset file out d two).1 (subst IsLink (sym value) l) in
      let took = read_cluster-Took c offset d out area two lt fits.0 t in
      let wrap = no_wrap d offset area fits.0 in
      let inner = Fits-inner n _ _ cs size file.file_size (offset + size) rest fits.1 in
      let total : out1.total ≡ taken data_size file.cursor (offset + size) =
        took.total ∙ ap (taken data_size file.cursor) (ground arith) in
      let (out', d', found, same', took') =
        fread_loop-Followed f (low28 (read_fat_entry_cached c d).0) (offset + size) cs out1 loaded
          (same-IsGeometry same g) (same-IsData same area) same.coherent
          (subst (λ (x : ℕ). Chain n (λ y. read_fat_entry y loaded) (low28 x) cs) (sym value)
            (Chain-agree n _ _ _ cs rest (λ y lt h. same_entries same y)))
          (subst (λ x. Fits (cluster_size x) file.file_size (offset + size) cs) (sym same.bpb)
            fits.1)
          (omega arith) total in
      (
        out',
        d',
        step
            ∙ ap
                (λ (o : Out).
                  fread_loop f data_size file (low28 (read_fat_entry_cached c d).0)
                    (add32 offset size) o loaded)
                (round d loaded c offset out area same fits.0)
            ∙ ap
                (λ (o : ℕ).
                  fread_loop f data_size file (low28 (read_fat_entry_cached c d).0) o out1 loaded)
                wrap
            ∙ found,
        SameDisk-trans same same',
        Took-link offset size (λ p. d.image (cluster_start d.bpb c + p)) (byte_at d cs)
            (byte_at d (c ∷ cs)) out out1 out' took
            (subst (λ at. Took (offset + size) file.file_size at out1 out')
              (fun_ext (byte_at-same cs same)) took')
            inner (omega (arith, cluster_size_lem d.bpb n area, area.positive)) t (λ p. refl),
      )
