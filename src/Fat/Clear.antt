-- ===== src/Fat/Clear.antt =====
-- fat.c, fat_clear_cluster.
use neos.Base.{ℕ, ◌+◌, ◌-◌, ◌*◌, ◌≤◌, ◌<◌, ◌≡◌, refl, arith, ltb, leb, ◌&&◌, if◌then◌else◌}
use neos.Fat.{Bpb, Disk, write_func}
use neos.Fat.Read.{cluster_size, cluster_start}
use neos.Fat.Read.Content.{IsData, cluster_size_lem, cluster_start_lem}

-- `clear_buffer` holds zeros.
unfoldable pub fat_clear_cluster : (cluster : ℕ) → Disk → Disk
fat_clear_cluster cluster disk = record disk {
  image = write_func (λ i. 0) (cluster_start disk.bpb cluster) (cluster_size disk.bpb) disk.image;
}

-- Clearing a cluster of a well-formed disk writes zeros over the whole of it, and over nothing
-- else: each byte outside is what it was.
pub fat_clear_cluster_lem :
    (n c a : ℕ) (disk : Disk)
    → IsData disk.bpb n
    → 2 ≤ c
    → c < n
    → (let bpb = disk.bpb in
        let start =
          (bpb.rsvd_sec_cnt + bpb.num_fats * bpb.fat_sz32 + (c - 2) * bpb.sec_per_clus) * 512 in
        (fat_clear_cluster c disk).image a
        ≡ (if leb start a && ltb a (start + bpb.sec_per_clus * 512) then 0 else disk.image a))
unfolding fat_clear_cluster
fat_clear_cluster_lem n c a disk area two lt =
    rw ((cluster_start_lem disk.bpb n c area two lt).0, cluster_size_lem disk.bpb n area) refl

end_mark_start :
    (bpb : Bpb) (n : ℕ)
    → IsData bpb n
    → 3 * bpb.sec_per_clus ≤ bpb.rsvd_sec_cnt + bpb.num_fats * bpb.fat_sz32
    → cluster_start bpb 0x0FFFFFFF
      ≡ (bpb.rsvd_sec_cnt + bpb.num_fats * bpb.fat_sz32 - 3 * bpb.sec_per_clus) * 512
unfolding cluster_start
end_mark_start bpb n area room = rw area.sector (omega (arith, area.low, area.small, area.positive))

-- Clearing the "cluster" 0x0FFFFFFF, the mark of the last cluster of a file, wraps: on a
-- well-formed disk it writes zeros over the three clusters' worth of bytes in front of the data
-- area, from the third last on, which is where the tables end.
pub fat_clear_cluster-end_mark :
    (n a : ℕ) (disk : Disk)
    → IsData disk.bpb n
    → 3 * disk.bpb.sec_per_clus ≤ disk.bpb.rsvd_sec_cnt + disk.bpb.num_fats * disk.bpb.fat_sz32
    → (let bpb = disk.bpb in
        let start = (bpb.rsvd_sec_cnt + bpb.num_fats * bpb.fat_sz32 - 3 * bpb.sec_per_clus) * 512 in
        (fat_clear_cluster 0x0FFFFFFF disk).image a
        ≡ (if leb start a && ltb a (start + bpb.sec_per_clus * 512) then 0 else disk.image a))
unfolding fat_clear_cluster
fat_clear_cluster-end_mark n a disk area room =
    rw (end_mark_start disk.bpb n area room, cluster_size_lem disk.bpb n area) refl
