-- ===== src/Fat/Chain/Remove.antt =====
-- fat.c, fat_remove_fat_chain: the clusters of the removed file become free, and no others.
use neos.Base.{
  ℕ, zero, suc, ◌≤◌, ◌<◌, ◌≡◌, refl, ◌∙◌, ap, some, List, inl, inr, ◌==◌, length, arith, sym,
  Bool-cases, if◌then◌else◌, ==→ne, ==→eq,
}
use mathlib.Core.Path.{subst}
use neos.Fat.{Disk, read_fat_entry, write_fat_entry, low28}
use neos.Fat.Entry.{IsGeometry, write_fat_entry_lem}
use neos.Fat.Chain.{
  Chain, remove_loop, fat_remove_fat_chain, IsEnd, IsLink, Chain.last, Chain.link, Chain-agree,
  member, head-not-member,
}

remove_loop-step :
    (f c : ℕ) (d : Disk)
    → 2 ≤ c
    → (IsEnd (read_fat_entry c d) → remove_loop (suc f) c d ≡ some (write_fat_entry c 0x0 d))
      × (IsLink (read_fat_entry c d)
          → remove_loop (suc f) c d
            ≡ remove_loop f (low28 (read_fat_entry c d)) (write_fat_entry c 0x0 d))
unfolding remove_loop
remove_loop-step f c d h = (ground arith, ground arith)

write_fat_entry-bpb : (c v : ℕ) (d : Disk) → (write_fat_entry c v d).bpb ≡ d.bpb
unfolding write_fat_entry
write_fat_entry-bpb c v d = refl

freed_entry :
    (n c k : ℕ) (d : Disk)
    → IsGeometry d.bpb n
    → c < n
    → k < n
    → read_fat_entry k (write_fat_entry c 0x0 d) ≡ (if k == c then 0 else read_fat_entry k d)
freed_entry n c k d g b lt = elim (Bool-cases (k == c)) [
  | inl same ↦ rw same (
      ap (λ (x : ℕ). read_fat_entry x (write_fat_entry c 0x0 d)) (==→eq k c same)
      ∙ (write_fat_entry_lem n c 0 d g b (omega arith)).0)
  | inr other ↦
      rw other
        ((write_fat_entry_lem n c 0 d g b (omega arith)).1 k lt (ground (arith, ==→ne k c other)))
]

-- On a disk of 512-byte sectors with both tables below 2 ^ 32, for a file whose clusters are `cs`,
-- fat_remove_fat_chain returns, on as much fuel as there are clusters, and then the entry of each
-- cluster of the file is 0 and that of every other is what it was.
pub fat_remove_fat_chain_lem :
    (n first f : ℕ) (cs : List ℕ) (disk : Disk)
    → IsGeometry disk.bpb n
    → Chain n (λ c. read_fat_entry c disk) first cs
    → length cs ≤ f
    → (disk' : Disk) × (fat_remove_fat_chain f first disk ≡ some disk')
      × ((k : ℕ)
          → k < n
          → read_fat_entry k disk' ≡ (if member k cs then 0 else read_fat_entry k disk))
unfolding fat_remove_fat_chain
fat_remove_fat_chain_lem n c zero _ d g (last _ a b e) le = absurd (omega arith)
fat_remove_fat_chain_lem n c zero _ d g (link _ cs a b l rest) le = absurd (omega arith)
fat_remove_fat_chain_lem n c (suc f) _ d g (last _ a b e) le = (
  write_fat_entry c 0x0 d,
  (remove_loop-step f c d a).0 e,
  λ k lt. ground (arith, freed_entry n c k d g b lt),
)
fat_remove_fat_chain_lem n c (suc f) _ d g (link _ cs a b l rest) le =
    let freed = write_fat_entry c 0x0 d in
    let alone = head-not-member c cs a b l rest in
    let (d', found, all) =
      fat_remove_fat_chain_lem n (low28 (read_fat_entry c d)) f cs freed
        (subst (λ x. IsGeometry x n) (sym (write_fat_entry-bpb c 0 d)) g)
        (Chain-agree n _ _ _ cs rest (λ k lt h. ground (arith, freed_entry n c k d g b lt, alone)))
        (omega arith) in
    (
      d',
      (remove_loop-step f c d a).1 l ∙ found,
      λ k lt. ground (arith, all k lt, freed_entry n c k d g b lt, alone),
    )
