-- ===== src/Fat/Chain/Count.antt =====
-- fat.c, fat_file_cluster_count: the length of a file's chain.
use neos.Base.{ℕ, zero, suc, ◌+◌, ◌≤◌, ◌≡◌, ◌∙◌, ap, some, List, length, arith, sym}
use mathlib.Core.Path.{subst}
use neos.Fat.{Disk, read_fat_entry, read_fat_entry_cached, low28, invalidate_cache}
use neos.Fat.Entry.{
  IsGeometry, SameDisk, Coherent, read_fat_entry_cached_lem, invalidate_cache-SameDisk,
  SameDisk-trans, same_entries, same-IsGeometry,
}
use neos.Fat.Chain.{
  Chain, count_loop, fat_file_cluster_count, IsEnd, IsLink, Chain.last, Chain.link, Chain-agree,
}

-- One round of the loop, by the entry that is read.
count_loop-step :
    (f c k : ℕ) (d : Disk)
    → 2 ≤ c
    → (IsEnd (read_fat_entry_cached c d).0
        → count_loop (suc f) c k d ≡ some (k + 1, (read_fat_entry_cached c d).1))
      × (IsLink (read_fat_entry_cached c d).0
          → count_loop (suc f) c k d
            ≡ count_loop f
                (low28 (read_fat_entry_cached c d).0)
                (k + 1)
                (read_fat_entry_cached c d).1)
unfolding count_loop
count_loop-step f c k d h = (ground arith, ground arith)

-- What the loop returns on a chain.
Counted : (f n c k : ℕ) (cs : List ℕ) (d : Disk) → Type 0
Counted f n c k cs d = (d' : Disk) × (count_loop f c k d ≡ some (k + length cs, d')) × SameDisk d d'

count_loop-Counted :
    (f n c k : ℕ) (cs : List ℕ) (d : Disk)
    → IsGeometry d.bpb n
    → Coherent d
    → Chain n (λ x. read_fat_entry x d) c cs
    → length cs ≤ f
    → Counted f n c k cs d
unfolding Counted
count_loop-Counted zero n c k _ d g co (last _ a b e) le = absurd (omega arith)
count_loop-Counted zero n c k _ d g co (link _ cs a b l rest) le = absurd (omega arith)
count_loop-Counted (suc f) n c k _ d g co (last _ a b e) le =
    let (value, same) = read_fat_entry_cached_lem n c d g co b in
    ((read_fat_entry_cached c d).1, (count_loop-step f c k d a).0 (subst IsEnd (sym value) e), same)
count_loop-Counted (suc f) n c k _ d g co (link _ cs a b l rest) le =
    let (value, same) = read_fat_entry_cached_lem n c d g co b in
    let loaded = (read_fat_entry_cached c d).1 in
    let (d', found, same') =
      count_loop-Counted f n (low28 (read_fat_entry_cached c d).0) (k + 1) cs loaded
        (same-IsGeometry same g) same.coherent
        (subst (λ (x : ℕ). Chain n (λ y. read_fat_entry y loaded) (low28 x) cs) (sym value)
          (Chain-agree n _ _ _ cs rest (λ y lt h. same_entries same y)))
        (omega arith) in
    (
      d',
      (count_loop-step f c k d a).1 (subst IsLink (sym value) l)
          ∙ found
          ∙ ap (λ (x : ℕ). some (x, d')) (omega arith),
      SameDisk-trans same same',
    )

-- On a disk of 512-byte sectors with both tables below 2 ^ 32, for a file whose clusters are `cs`,
-- fat_file_cluster_count returns their number, on as much fuel as there are clusters. It changes
-- nothing but the sector cache, and leaves that in agreement with the disk.
pub fat_file_cluster_count-length :
    (n first f : ℕ) (cs : List ℕ) (disk : Disk)
    → IsGeometry disk.bpb n
    → Chain n (λ c. read_fat_entry c disk) first cs
    → length cs ≤ f
    → (disk' : Disk) × (fat_file_cluster_count f first disk ≡ some (length cs, disk'))
      × SameDisk disk disk'
unfolding fat_file_cluster_count Counted
fat_file_cluster_count-length n first f cs disk g chain le =
    let same = invalidate_cache-SameDisk disk in
    let (disk', found, same') =
      count_loop-Counted f n first 0 cs (invalidate_cache disk) (same-IsGeometry same g)
        same.coherent (Chain-agree n _ _ _ cs chain (λ y lt h. same_entries same y)) le in
    (disk', found ∙ ap (λ (x : ℕ). some (x, disk')) (omega arith), SameDisk-trans same same')
