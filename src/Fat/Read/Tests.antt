-- ===== src/Fat/Read/Tests.antt =====
-- fat.c: a disk of 126 clusters with one file, and what the theorems say of it.
use neos.Base.{
  ℕ, ◌+◌, ◌<◌, ◌≡◌, refl, ◌≢◌, inl, [], ◌∷◌, arith, ltb, leb, ◌&&◌, ◌==◌, some, if◌then◌else◌,
}
use neos.Memory.{Mem}
use neos.Fat.{
  Bpb, Disk, fat_entry, fat_size, get32, read_fat_entry, read_fat_entry_cached, write_fat_entry,
}
use neos.Fat.Entry.{IsGeometry, SameDisk, write_fat_entry_lem, read_fat_entry_cached_lem}
use neos.Fat.Chain.{
  Chain, Chain.last, Chain.link, member, fat_file_cluster_count, fat_remove_fat_chain,
}
use neos.Fat.Chain.Count.{fat_file_cluster_count-length}
use neos.Fat.Chain.Remove.{fat_remove_fat_chain_lem}
use neos.Fat.Read.{File, fat_fread, cluster_size}
use neos.Fat.Read.Content.{IsData, byte_at}
use neos.Fat.Read.Bytes.{fat_fread-bytes}

abbrev bpb : Bpb
bpb = record {
  byts_per_sec = 512;
  sec_per_clus = 1;
  rsvd_sec_cnt = 1;
  num_fats = 2;
  tot_sec16 = 129;
  tot_sec32 = 0;
  fat_sz32 = 1;
  root_clus = 2;
}

-- The file has clusters 2 and 3: the entry of 2, at byte 520, links to 3, whose entry marks the
-- end.
abbrev image : Mem
image a =
    if a == 520
    then 3
    else if leb 521 a && ltb a 524
    then 0
    else if leb 524 a && ltb a 527
    then 255
    else if a == 527
    then 15
    else 65

abbrev disk : Disk
disk = record { bpb = bpb; image = image; cache = λ i. 0; cache_sector = 0xFFFFFFFF }

abbrev file : File
file = record { fst_clus_lo = 2; file_size = 600; cursor = 500 }

geometry : IsGeometry bpb 128
geometry = record { sector = refl; room = omega arith; low = omega arith }

area : IsData bpb 126
area = record { sector = refl; positive = omega arith; small = omega arith; low = omega arith }

geometry126 : IsGeometry bpb 126
geometry126 = record { sector = refl; room = omega arith; low = omega arith }

link_2 : read_fat_entry 2 disk ≡ 3
unfolding read_fat_entry fat_entry
link_2 = refl

end_3 : read_fat_entry 3 disk ≡ 0x0FFFFFFF
unfolding read_fat_entry fat_entry
end_3 = refl

chain : Chain 126 (λ c. read_fat_entry c disk) 2 (2 ∷ 3 ∷ [])
unfolding read_fat_entry fat_entry
chain =
    link 2 (3 ∷ []) (omega arith) (omega arith)
      (record { used = omega arith; good = omega arith; inner = refl; inner' = omega arith })
      (last 3 (omega arith) (omega arith) (inl refl))

fat_fread-bytes_example :
    (out : Mem) × (disk' : Disk) × (fat_fread 2 1 50 (λ k. 0) file disk
      ≡ some (out, record file { cursor = 550 }, disk'))
    × SameDisk disk disk'
    × ((k : ℕ) → out k ≡ (if ltb k 50 then byte_at disk (2 ∷ 3 ∷ []) (500 + k) else 0))
unfolding cluster_size
fat_fread-bytes_example =
    fat_fread-bytes 126 2 1 50 (2 ∷ 3 ∷ []) (λ k. 0) file disk geometry126 area chain
      (omega arith, (omega arith, omega arith)) (omega arith) (omega arith) (omega arith)

fat_remove_fat_chain_lem_example :
    (disk' : Disk) × (fat_remove_fat_chain 2 2 disk ≡ some disk')
    × ((k : ℕ)
        → k < 126
        → read_fat_entry k disk' ≡ (if member k (2 ∷ 3 ∷ []) then 0 else read_fat_entry k disk))
fat_remove_fat_chain_lem_example =
    fat_remove_fat_chain_lem 126 2 2 (2 ∷ 3 ∷ []) disk geometry126 chain (omega arith)

fat_file_cluster_count-length_example :
    (disk' : Disk) × (fat_file_cluster_count 5 2 disk ≡ some (2, disk')) × SameDisk disk disk'
fat_file_cluster_count-length_example =
    fat_file_cluster_count-length 126 2 5 (2 ∷ 3 ∷ []) disk geometry126 chain (omega arith)

write_fat_entry_lem_example :
    (read_fat_entry 3 (write_fat_entry 3 4 disk) ≡ 4)
    × ((k : ℕ)
        → k < 128
        → 3 ≢ k
        → read_fat_entry k (write_fat_entry 3 4 disk) ≡ read_fat_entry k disk)
    × (get32 (write_fat_entry 3 4 disk).image (fat_entry bpb 3 + fat_size bpb) ≡ 4)
write_fat_entry_lem_example = write_fat_entry_lem 128 3 4 disk geometry (omega arith) (omega arith)

read_fat_entry_cached_lem_example :
    ((read_fat_entry_cached 2 disk).0 ≡ read_fat_entry 2 disk)
    × SameDisk disk (read_fat_entry_cached 2 disk).1
read_fat_entry_cached_lem_example =
    read_fat_entry_cached_lem 128 2 disk geometry (λ h. absurd (h refl)) (omega arith)
