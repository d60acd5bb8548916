-- ===== src/Fat/Write/Tests.antt =====
-- fat.c, fat_fwrite: a disk of 126 clusters with one file of two clusters, and a write across both.
use neos.Base.{
  ℕ, ◌+◌, ◌-◌, ◌<◌, ◌≤◌, ◌≡◌, ◌≢◌, refl, ◌⊎◌, inl, inr, [], ◌∷◌, arith, ltb, leb, ◌&&◌, ◌==◌, some,
  true, false, if◌then◌else◌, Bool-cases, ==→eq, ◌∙◌, ap, sym,
}
use neos.Memory.{Mem}
use neos.Fat.{Disk, read_fat_entry, fat_entry, is_last}
use neos.Fat.Entry.{IsGeometry}
use neos.Fat.Chain.{Chain, Chain.last, Chain.link, member}
use neos.Fat.Read.{fat_fread, cluster_size, cluster_start}
use neos.Fat.Read.Content.{IsData, byte_at}
use neos.Fat.Write.{OpenFile, fat_fwrite, next_of_last}
use neos.Fat.Write.Free.{next_of_last-first}
use neos.Fat.Write.Loop.{IsMarked}
use neos.Fat.Write.Bytes.{moved, fat_fwrite-bytes}
use neos.Fat.Write.RoundTrip.{read_view, fat_fread-fat_fwrite}

abbrev disk : Disk
disk = record {
  bpb = record {
    byts_per_sec = 512;
    sec_per_clus = 1;
    rsvd_sec_cnt = 1;
    num_fats = 2;
    tot_sec16 = 129;
    tot_sec32 = 0;
    fat_sz32 = 1;
    root_clus = 2;
  };
  image = λ a.
      if a == 520
      then 3
      else if leb 521 a && ltb a 524
      then 0
      else if leb 524 a && ltb a 527
      then 255
      else if a == 527
      then 15
      else 65;
  cache = λ i. 0;
  cache_sector = 0xFFFFFFFF;
}

-- The entry of a file of 600 bytes that starts at cluster 2.
abbrev file : OpenFile
file = record {
  fat_dir = λ i. if i == 26 then 2 else if i == 28 then 88 else if i == 29 then 2 else 0;
  entry_position = 0;
  first_parent_cluster = 0;
  cursor = 500;
}

geometry : IsGeometry disk.bpb 126
geometry = record { sector = refl; room = omega arith; low = omega arith }

area : IsData disk.bpb 126
area = record { sector = refl; positive = omega arith; small = omega arith; low = omega arith }

chain : Chain 126 (λ c. read_fat_entry c disk) 2 (2 ∷ 3 ∷ [])
unfolding read_fat_entry fat_entry
chain =
    link 2 (3 ∷ []) (omega arith) (omega arith)
      (record { used = omega arith; good = omega arith; inner = refl; inner' = omega arith })
      (last 3 (omega arith) (omega arith) (inl refl))

end_3 : read_fat_entry 3 disk ≡ 0x0FFFFFFF
unfolding read_fat_entry fat_entry
end_3 = refl

inner_2 : is_last (read_fat_entry 2 disk) ≡ false
unfolding read_fat_entry fat_entry
inner_2 = refl

mark : IsMarked 126 disk (2 ∷ 3 ∷ [])
mark x h m l = elim (Bool-cases (x == 3)) [
  | inl e ↦ ap (λ (y : ℕ). read_fat_entry y disk) (==→eq x 3 e) ∙ end_3
  | inr n3 ↦ elim (Bool-cases (x == 2)) [
    | inl e ↦
        let l2 = ap (λ (y : ℕ). is_last (read_fat_entry y disk)) (sym (==→eq x 2 e)) ∙ l in
        absurd (cc (l2, inner_2))
    | inr n2 ↦ absurd (ground arith)
  ]
]

fat_fwrite-bytes_example :
    (disk' : Disk) × (fat_fwrite 2 10 10 (λ i. i) file disk ≡ some (1, moved file 600, disk'))
    × (disk'.bpb ≡ disk.bpb)
    × ((p : ℕ)
        → p < 1024
        → byte_at disk' (2 ∷ 3 ∷ []) p
          ≡ (if leb 500 p && ltb p 600 then p - 500 else byte_at disk (2 ∷ 3 ∷ []) p))
    × ((y : ℕ) → y < 126 → read_fat_entry y disk' ≡ read_fat_entry y disk)
    × ((a : ℕ)
        → ((x : ℕ)
            → member x (2 ∷ 3 ∷ []) ≡ true
            → (a < cluster_start disk.bpb x) ⊎ (cluster_start disk.bpb x + 512 ≤ a))
        → disk'.image a ≡ disk.image a)
unfolding cluster_size
fat_fwrite-bytes_example =
    fat_fwrite-bytes 126 2 10 10 (2 ∷ 3 ∷ []) (λ i. i) file disk geometry area (omega arith) chain
      mark (omega arith) (omega arith) (omega arith) (inl (omega arith))

fat_fread-fat_fwrite_example :
    (disk' : Disk) × (fat_fwrite 2 10 10 (λ i. i) file disk ≡ some (1, moved file 600, disk'))
    × (out : Mem) × (disk'' : Disk) × (fat_fread 2 10 10 (λ i. 7) (read_view file 600 500) disk'
        ≡ some (out, read_view file 600 600, disk''))
    × ((k : ℕ) → k < 100 → out k ≡ k)
unfolding cluster_size
fat_fread-fat_fwrite_example =
    fat_fread-fat_fwrite 126 2 10 10 600 (2 ∷ 3 ∷ []) (λ i. i) (λ i. 7) file disk geometry area
      (omega arith) chain mark (omega arith) (omega arith) (omega arith) (inl (omega arith))
      (omega arith, (omega arith, omega arith)) (omega arith) (omega arith)

-- The same disk with cluster 5 free.
abbrev disk_5 : Disk
disk_5 = record disk { image = λ a. if leb 532 a && ltb a 536 then 0 else disk.image a }

used_4 : read_fat_entry 4 disk_5 ≡ 0x41414141
unfolding read_fat_entry fat_entry
used_4 = refl

free_5 : read_fat_entry 5 disk_5 ≡ 0
unfolding read_fat_entry fat_entry
free_5 = refl

four : (y : ℕ) → 4 ≤ y → y < 5 → y ≡ 4
four y a b = omega arith

next_of_last-first_example :
    (disk' : Disk) × (next_of_last 2 3 0x0FFFFFFF false disk_5 ≡ some (some 5, disk'))
    × (read_fat_entry 3 disk' ≡ 5)
    × (read_fat_entry 5 disk' ≡ 0)
    × ((y : ℕ) → y < 126 → 3 ≢ y → read_fat_entry y disk' ≡ read_fat_entry y disk_5)
    × ((i : ℕ) → i < 512 → disk'.image (cluster_start disk.bpb 5 + i) ≡ 0)
unfolding cluster_size
next_of_last-first_example =
    next_of_last-first 126 1 2 3 0x0FFFFFFF disk_5 geometry area (omega arith) (omega arith)
      (omega arith)
      (λ y a b e.
        absurd (omega (arith, ap (λ (x : ℕ). read_fat_entry x disk_5) (four y a b), e, used_4)))
      free_5 (omega arith) (omega arith) (omega arith)
