-- ===== src/Fat/Write/Cluster.antt =====
-- fat.c, fat_fwrite: what is written of one cluster.
use neos.Base.{
  ℕ, zero, suc, ◌+◌, ◌-◌, ◌^◌, ◌≤◌, ◌<◌, ◌≡◌, arith, refl, Bool-cases, true, false, inl, inr,
  le→ltb, ltb→lt, ltb→le, ap, ◌∙◌, ltb, leb, ◌&&◌, if◌then◌else◌, sym, fun_ext,
}
use neos.Memory.{Mem}
use neos.Fat.{Disk, write_func}
use neos.Fat.Read.{File, read_part, cluster_size, cluster_start}
use neos.Fat.Read.Part.{taken, read_part_lem}
use neos.Fat.Read.Content.{IsData, cluster_size_lem, cluster_start_lem}
use neos.Fat.Write.{write_part, write_cluster}

-- A part is written like it is read of a file that reaches to the end of the cluster.
write_part-read_part :
    (size start cursor data_size offset total : ℕ)
    → write_part size start cursor data_size offset total
      ≡ read_part size start
          (record { fst_clus_lo = 0; file_size = offset; cursor = cursor })
          data_size
          offset
          total
unfolding write_part read_part
write_part-read_part size start cursor data_size offset total =
    rw (le→ltb offset offset (omega arith)) refl

-- The bytes of one cluster, which starts at `start` of the disk and at `offset` of the file, when
-- the data have been written.
abbrev pub patched : (size start cursor data_size offset : ℕ) → (data_in image : Mem) → Mem
patched size start cursor data_size offset data_in image a =
    let p = offset + (a - start) in
    if leb start a && ltb a (start + size) && leb cursor p && ltb p (cursor + data_size)
    then data_in (p - cursor)
    else image a

-- With nothing written, the data end in front of the cluster.
none_left :
    (d c o size p : ℕ)
    → taken d c o ≡ taken d c (o + size)
    → c < o + size
    → 1 ≤ size
    → o ≤ p
    → c ≤ p
    → c + d ≤ p
none_left d c o size p same now pos a b = ground arith

-- With something written, all bytes of the file in front of the cluster are.
left : (d c o size : ℕ) → taken d c o < taken d c (o + size) → taken d c o ≡ o - c
left d c o size more = ground arith

same_range :
    (a start size o c total bytes dst d : ℕ)
    → total ≡ o - c
    → total + bytes ≡ taken d c (o + size)
    → dst + o ≡ start + (c + total)
    → c < o + size
    → (leb dst a && ltb a (dst + bytes)) ≡ (
        leb start a
        && ltb a (start + size)
        && leb c (o + (a - start))
        && ltb (o + (a - start)) (c + d))
same_range a start size o c total bytes dst d t u e now = ground arith

no_range :
    (d c o size start a : ℕ)
    → (c ≤ o + (a - start) → c + d ≤ o + (a - start))
    → (leb start a
        && ltb a (start + size)
        && leb c (o + (a - start))
        && ltb (o + (a - start)) (c + d))
      ≡ false
no_range d c o size start a h = ground arith

index :
    (a start size o c total bytes dst : ℕ)
    → total ≡ o - c
    → dst + o ≡ start + (c + total)
    → (leb dst a && ltb a (dst + bytes)) ≡ true
    → total + (a - dst) ≡ o + (a - start) - c
index a start size o c total bytes dst t e h = ground arith

patched-part :
    (size start cursor data_size offset total bytes dst : ℕ) (data_in image : Mem) (a : ℕ)
    → total ≡ taken data_size cursor offset
    → total + bytes ≡ taken data_size cursor (offset + size)
    → cursor < offset + size
    → 1 ≤ size
    → (0 < bytes → dst + offset ≡ start + (cursor + total))
    → write_func (λ i. data_in (total + i)) dst bytes image a
      ≡ patched size start cursor data_size offset data_in image a
patched-part size start cursor data_size offset total zero dst data_in image a t u now pos e =
    let none_here : (leb dst a && ltb a (dst + zero)) ≡ false = ground arith in
    let none_there : (leb start a
          && ltb a (start + size)
          && leb cursor (offset + (a - start))
          && ltb (offset + (a - start)) (cursor + data_size))
        ≡ false =
      no_range data_size cursor offset size start a (
        none_left data_size cursor offset size (offset + (a - start)) (omega (arith, t, u)) now pos
          (omega arith)) in
    rw (none_here, none_there) refl
patched-part size start cursor data_size offset total (suc bytes) dst data_in image a t u now pos
      e =
    let total_eq = t ∙ left data_size cursor offset size (omega (arith, t, u)) in
    let range =
      same_range a start size offset cursor total (suc bytes) dst data_size total_eq u
        (e (omega arith)) now in
    elim (Bool-cases (leb dst a && ltb a (dst + suc bytes))) [
      | inl within ↦
          rw (within, sym range ∙ within)
            (ap data_in (
              index a start size offset cursor total (suc bytes) dst total_eq (e (omega arith))
                within))
      | inr out ↦ rw (out, sym range ∙ out) refl
    ]

-- The disk with other contents.
abbrev pub on_disk : Mem → Disk → Disk
on_disk image disk = record disk { image = image }

on_disk_eq :
    {x y : ℕ} {m m' : Mem} (d : Disk)
    → x ≡ y
    → m ≡ m'
    → ◌≡◌ {A = ℕ × Disk} (x, on_disk m d) (y, on_disk m' d)
on_disk_eq {y = y} {m = m} d p q =
    let at : ℕ → Mem → ℕ × Disk = λ x k. (x, on_disk k d) in ap (λ (x : ℕ). at x m) p ∙ ap (at y) q

behind :
    (size start cursor data_size offset : ℕ) (data_in image : Mem) (a : ℕ)
    → offset + size ≤ cursor
    → patched size start cursor data_size offset data_in image a ≡ image a
behind size start cursor data_size offset data_in image a h = ground arith

early : (d c o size : ℕ) → o + size ≤ c → taken d c o ≡ taken d c (o + size)
early d c o size h = ground arith

-- One round writes the part of the data that belongs to the cluster.
pub write_cluster-patched :
    (n c offset data_size cursor total : ℕ) (data_in : Mem) (d : Disk)
    → IsData d.bpb n
    → 2 ≤ c
    → c < n
    → data_size < 2 ^ 32
    → offset + 131072 < 2 ^ 32
    → total ≡ taken data_size cursor offset
    → write_cluster c (offset + cluster_size d.bpb) data_size cursor data_in total d ≡ (
      taken data_size cursor (offset + cluster_size d.bpb),
      on_disk
          (patched
            (cluster_size d.bpb)
            (cluster_start d.bpb c)
            cursor
            data_size
            offset
            data_in
            d.image)
          d,
    )
unfolding write_cluster
write_cluster-patched n c offset data_size cursor total data_in d area two lt b low t =
    let size = cluster_size d.bpb in
    let start = cluster_start d.bpb c in
    let fits = (cluster_start_lem d.bpb n c area two lt).1 in
    let wide : size ≤ 65536 = omega (arith, cluster_size_lem d.bpb n area, area.small) in
    let some_bytes : 1 ≤ size = omega (arith, cluster_size_lem d.bpb n area, area.positive) in
    elim (Bool-cases (ltb cursor (offset + size))) [
      | inl now ↦
          let lt = ltb→lt _ _ now in
          let file : File = record {
            fst_clus_lo = 0;
            file_size = offset + size;
            cursor = cursor;
          } in
          let part =
            read_part_lem size start offset data_size file wide b fits (omega arith) (omega arith)
              (omega arith) lt in
          let pieces = write_part-read_part size start cursor data_size (offset + size) total in
          rw (now, pieces, t)
            (on_disk_eq d (ground (arith, part.0)) (
              fun_ext λ a.
                patched-part size start cursor data_size offset (taken data_size cursor offset) _ _
                  data_in d.image a refl (ground (arith, part.0)) lt some_bytes
                  (λ pos. (part.2 pos).0)))
      | inr later ↦ rw later (
          on_disk_eq d (t ∙ early data_size cursor offset size (ltb→le _ _ later)) (
            fun_ext λ a.
              sym (behind size start cursor data_size offset data_in d.image a (ltb→le _ _ later))))
    ]
