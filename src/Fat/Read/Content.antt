-- ===== src/Fat/Read/Content.antt =====
-- fat.c, fat_fread: the bytes of the file that a call delivers.
pub mod Loop
mod Rounds
use neos.Base.{
  ℕ, zero, suc, ◌+◌, ◌-◌, ◌*◌, ◌^◌, ◌≤◌, ◌<◌, ◌≡◌, refl, List, [], ◌∷◌, arith, ltb, leb, ◌&&◌,
  if◌then◌else◌, Bool-cases, true, false, inl, inr, ltb→lt, ltb→le, ◌∙◌, ap,
}
use neos.Memory.{Mem}
use neos.Fat.{Bpb, Disk, add32, sub32, mul32, read_func}
use neos.Fat.Read.{File, Out, cluster_size, cluster_start, read_part, read_cluster}
use neos.Fat.Read.Part.{taken, smaller, read_part_lem}

-- The data area of a disk of 512-byte sectors lies below 2 ^ 32, and a cluster has at most 64 KiB.
pub record IsData (bpb : Bpb) (n : ℕ) : Type 0 where
  pub sector : bpb.byts_per_sec ≡ 512
  pub positive : 1 ≤ bpb.sec_per_clus
  pub small : bpb.sec_per_clus ≤ 128
  pub low : (bpb.rsvd_sec_cnt + bpb.num_fats * bpb.fat_sz32 + n * bpb.sec_per_clus) * 512 < 2 ^ 32

pub cluster_size_lem :
    (bpb : Bpb) (n : ℕ) → IsData bpb n → cluster_size bpb ≡ bpb.sec_per_clus * 512
unfolding cluster_size
cluster_size_lem bpb n d = rw d.sector (omega (arith, d.small))

pub mul_mono : (k n s : ℕ) → k + 1 ≤ n → k * s + s ≤ n * s
mul_mono k n s h = grind arith

mul_ge : (n s : ℕ) → 1 ≤ s → n ≤ n * s
mul_ge n zero h = elim h [ ]
mul_ge n (suc s) h = grind arith

-- no operation wraps
pub cluster_start_lem :
    (bpb : Bpb) (n c : ℕ)
    → IsData bpb n
    → 2 ≤ c
    → c < n
    → (cluster_start bpb c
        ≡ (bpb.rsvd_sec_cnt + bpb.num_fats * bpb.fat_sz32 + (c - 2) * bpb.sec_per_clus) * 512)
      × (cluster_start bpb c + cluster_size bpb < 2 ^ 32)
unfolding cluster_start
cluster_start_lem bpb n c d a b =
    let m = mul_mono (c - 2) n bpb.sec_per_clus (omega arith) in
    let ge = mul_ge n bpb.sec_per_clus d.positive in
    let back : sub32 c 2 ≡ c - 2 = omega (arith, ge, d.low) in
    let start : cluster_start bpb c
        ≡ (bpb.rsvd_sec_cnt + bpb.num_fats * bpb.fat_sz32 + (c - 2) * bpb.sec_per_clus) * 512 =
      rw (back, d.sector) (omega (arith, m, d.low)) in
    (start, omega (arith, start, cluster_size_lem bpb n d, m, d.low))

-- The byte at position `p` of a file, in the cluster that holds it.
unfoldable pub byte_at : Disk → List ℕ → ℕ → ℕ
byte_at disk [] p = 0
byte_at disk (c ∷ cs) p =
    if ltb p (cluster_size disk.bpb)
    then disk.image (cluster_start disk.bpb c + p)
    else byte_at disk cs (p - cluster_size disk.bpb)

-- From `offset` on, a file of `size` bytes fills the clusters of the list but for the end of the
-- last.
abbrev pub Fits : (cluster size offset : ℕ) → List ℕ → Type 0
Fits cluster size offset [] = size ≤ offset
Fits cluster size offset (c ∷ cs) = (offset < size) × Fits cluster size (offset + cluster) cs
