-- ===== src/Fat/Write/Free.antt =====
-- fat.c, fat_fwrite: the cluster that a file is extended by.
use neos.Base.{
  ℕ, zero, suc, ◌+◌, ◌*◌, ◌^◌, ◌≤◌, ◌<◌, ◌≡◌, ◌≢◌, refl, arith, false, leb, some, sym, ◌∙◌, ap,
  ne→==, le→leb, lt→ltb, lt→leb,
}
use mathlib.Core.Path.{subst}
use neos.Fat.{
  Bpb, Disk, add32, mul32, fat_entry, read_fat_entry, read_fat_entry_cached, invalidate_cache,
  write_fat_entry,
}
use neos.Fat.Entry.{
  IsGeometry, SameDisk, Coherent, read_fat_entry_cached_lem, invalidate_cache-SameDisk,
  SameDisk-trans, same_entries, same-IsGeometry, write_fat_entry_lem, get32-agree, fat_entry_lem,
}
use neos.Fat.Read.{cluster_size, cluster_start}
use neos.Fat.Read.Content.{IsData, mul_mono, cluster_start_lem}
use neos.Fat.Clear.{fat_clear_cluster}
use neos.Fat.Write.Loop.{mul_le}
use neos.Fat.Write.{free_loop, disk_size, next_of_last, new_end}

small_index : (n c : ℕ) (bpb : Bpb) → IsGeometry bpb n → c < n → add32 c 1 ≡ c + 1
small_index n c bpb g h = omega (arith, g.room, g.low)

-- Before the first free cluster the search does not come to the end of the disk.
not_at_end :
    (c k s size : ℕ) → c < k → k * s < size → size < 2 ^ 32 → leb size (mul32 (c + 1) s) ≡ false
not_at_end c k s size h room low = let m = mul_mono c k s (omega arith) in ground (arith, m)

same_room :
    (d d' : Disk) (x y : ℕ)
    → d'.bpb ≡ d.bpb
    → x ≡ y
    → x * d'.bpb.sec_per_clus ≡ y * d.bpb.sec_per_clus
same_room d d' x y e h = rw (e, h) refl

-- The search finds the first free cluster at or behind the one it starts with.
pub free_loop-first :
    (n k f c size : ℕ) (d : Disk)
    → IsGeometry d.bpb n
    → Coherent d
    → c + k < n
    → ((y : ℕ) → c ≤ y → y < c + k → read_fat_entry y d ≢ 0)
    → read_fat_entry (c + k) d ≡ 0
    → (c + k) * d.bpb.sec_per_clus < size
    → size < 2 ^ 32
    → k < f
    → (d' : Disk) × (free_loop f c size d ≡ some (some (c + k), d')) × SameDisk d d'
unfolding free_loop
free_loop-first n k zero c size d g co lt used free room low enough = absurd (omega arith)
free_loop-first n zero (suc f) c size d g co lt used free room low enough =
    let (value, same) = read_fat_entry_cached_lem n c d g co (omega arith) in
    let here : c + 0 ≡ c = omega arith in
    let zero_here = value ∙ ap (λ (x : ℕ). read_fat_entry x d) (sym here) ∙ free in
    (
      (read_fat_entry_cached c d).1,
      rw (free_loop, zero_here)
          (ap (λ (x : ℕ). some (some x, (read_fat_entry_cached c d).1)) (sym here)),
      same,
    )
free_loop-first n (suc k) (suc f) c size d g co lt used free room low enough =
    let (value, same) = read_fat_entry_cached_lem n c d g co (omega arith) in
    let loaded = (read_fat_entry_cached c d).1 in
    let (d', found, same') =
      free_loop-first n k f (c + 1) size loaded (same-IsGeometry same g) same.coherent (omega arith)
        (λ y a b e. used y (omega arith) (omega arith) (sym (same_entries same y) ∙ e))
        (same_entries same (c + 1 + k) ∙ ap (λ (x : ℕ). read_fat_entry x d) (omega arith) ∙ free)
        (subst (λ (x : ℕ). x < size)
          (sym (same_room d loaded (c + 1 + k) (c + suc k) same.bpb (omega arith))) room)
        low (omega arith) in
    let busy =
      ne→== (read_fat_entry_cached c d).0 0
        λ e. used c (omega arith) (omega arith) (sym value ∙ e) in
    let on = not_at_end c (c + suc k) d.bpb.sec_per_clus size (omega arith) room low in
    (
      d',
      rw (free_loop, busy, small_index n c d.bpb g (omega arith), on)
          (found ∙ ap (λ (x : ℕ). some (some x, d')) (omega arith)),
      SameDisk-trans same same',
    )

write_fat_entry-bpb : (c v : ℕ) (d : Disk) → (write_fat_entry c v d).bpb ≡ d.bpb
unfolding write_fat_entry
write_fat_entry-bpb c v d = refl

-- The tables lie in front of a cluster that is cleared.
read_fat_entry-clear :
    (n c y : ℕ) (d : Disk)
    → IsGeometry d.bpb n
    → IsData d.bpb n
    → 1 ≤ d.bpb.num_fats
    → 2 ≤ c
    → c < n
    → y < n
    → read_fat_entry y (fat_clear_cluster c d) ≡ read_fat_entry y d
unfolding read_fat_entry fat_clear_cluster
read_fat_entry-clear n c y d g area fats two lt h =
    let at = fat_entry_lem d.bpb n y g h in
    let start = (cluster_start_lem d.bpb n c area two lt).0 in
    let tables = mul_le d.bpb.num_fats d.bpb.fat_sz32 fats in
    let entry = fat_entry d.bpb y in
    get32-agree (fat_clear_cluster c d).image d.image entry entry λ i few.
      let front : entry + i < cluster_start d.bpb c = omega (arith, at, start, tables, g.room) in
      rw (lt→leb (cluster_start d.bpb c) (entry + i) front) refl

cleared :
    (c i : ℕ) (d : Disk)
    → i < cluster_size d.bpb
    → (fat_clear_cluster c d).image (cluster_start d.bpb c + i) ≡ 0
unfolding fat_clear_cluster
cleared c i d h =
    rw
      (
        le→leb (cluster_start d.bpb c) (cluster_start d.bpb c + i) (omega arith),
        lt→ltb (cluster_start d.bpb c + i) (cluster_start d.bpb c + cluster_size d.bpb)
            (omega arith),
      )
      refl

-- Writing the link and clearing the new cluster.
new_end_lem :
    (n c free : ℕ) (d : Disk)
    → IsGeometry d.bpb n
    → IsData d.bpb n
    → 1 ≤ d.bpb.num_fats
    → c < n
    → 2 ≤ free
    → free < n
    → (read_fat_entry c (new_end c free d) ≡ free)
      × ((y : ℕ) → y < n → c ≢ y → read_fat_entry y (new_end c free d) ≡ read_fat_entry y d)
      × ((i : ℕ)
          → i < cluster_size d.bpb
          → (new_end c free d).image (cluster_start d.bpb free + i) ≡ 0)
unfolding new_end
new_end_lem n c free d g area fats lt two low =
    let linked = write_fat_entry c free d in
    let same = sym (write_fat_entry-bpb c free d) in
    let (self, others, copy) = write_fat_entry_lem n c free d g lt (omega (arith, g.room, g.low)) in
    let clear : (y : ℕ)
        → y < n
        → read_fat_entry y (fat_clear_cluster free linked) ≡ read_fat_entry y linked =
      λ y h.
        read_fat_entry-clear n free y linked (subst (λ b. IsGeometry b n) same g)
          (subst (λ b. IsData b n) same area) (subst (λ b. 1 ≤ b.num_fats) same fats) two low h in
    (
      clear c lt ∙ self,
      (λ y h ne. clear y h ∙ others y h ne),
      λ i h.
          subst
            (λ b.
              i < cluster_size b
              → (fat_clear_cluster free linked).image (cluster_start b free + i) ≡ 0)
            (sym same) (cleared free i linked) h,
    )

module _ (n k f c next : ℕ) (d : Disk) (g : IsGeometry d.bpb n) (area : IsData d.bpb n)
    (fats : 1 ≤ d.bpb.num_fats) (two : 2 ≤ c) (lt : c + 1 + k < n)
    (used : (y : ℕ) → c + 1 ≤ y → y < c + 1 + k → read_fat_entry y d ≢ 0)
    (free : read_fat_entry (c + 1 + k) d ≡ 0)
    (room : (c + 1 + k) * d.bpb.sec_per_clus < disk_size d.bpb) (low : disk_size d.bpb < 2 ^ 32)
    (enough : k < f) where
  -- On a disk of 512-byte sectors whose tables and data lie below 2 ^ 32, let the data not end in
  -- the last cluster `c` of a file, and let there be a free cluster behind it, below the number of
  -- sectors by the code's own test. Then with fuel for the clusters in between, fat_fwrite goes on
  -- with the first free cluster behind `c`: the entry of `c` links to it, it is filled with zeros,
  -- and the other entries of the table are kept, so its own entry still says that it is free.
  pub next_of_last-first :
      (disk' : Disk) × (next_of_last f c next false d ≡ some (some (c + 1 + k), disk'))
      × (read_fat_entry c disk' ≡ c + 1 + k)
      × (read_fat_entry (c + 1 + k) disk' ≡ 0)
      × ((y : ℕ) → y < n → c ≢ y → read_fat_entry y disk' ≡ read_fat_entry y d)
      × ((i : ℕ) → i < cluster_size d.bpb → disk'.image (cluster_start d.bpb (c + 1 + k) + i) ≡ 0)
  unfolding next_of_last
  next_of_last-first =
      let empty = invalidate_cache-SameDisk d in
      let start = invalidate_cache d in
      let (d', found, same) =
        free_loop-first n k f (c + 1) (disk_size d.bpb) start (same-IsGeometry empty g)
          empty.coherent lt (λ y a b e. used y a b (sym (same_entries empty y) ∙ e))
          (same_entries empty _ ∙ free)
          (subst (λ (x : ℕ). x < disk_size d.bpb)
            (sym (same_room d start (c + 1 + k) (c + 1 + k) empty.bpb refl)) room)
          low enough in
      let both = SameDisk-trans empty same in
      let (self, others, zeros) =
        new_end_lem n c (c + 1 + k) d' (same-IsGeometry both g)
          (subst (λ b. IsData b n) (sym both.bpb) area)
          (subst (λ b. 1 ≤ b.num_fats) (sym both.bpb) fats) (omega arith) (omega arith) lt in
      let disk' = new_end c (c + 1 + k) d' in
      let kept : (y : ℕ) → y < n → c ≢ y → read_fat_entry y disk' ≡ read_fat_entry y d =
        λ y h ne. others y h ne ∙ same_entries both y in
      (
        disk',
        rw (next_of_last, small_index n c d.bpb g (omega arith), found) refl,
        self,
        kept (c + 1 + k) lt (λ e. absurd (omega (arith, e))) ∙ free,
        kept,
        subst
            (λ b. (i : ℕ) → i < cluster_size b → disk'.image (cluster_start b (c + 1 + k) + i) ≡ 0)
            both.bpb zeros,
      )
