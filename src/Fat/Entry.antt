-- ===== src/Fat/Entry.antt =====
-- fat.c, fat_read_fat_entry and fat_write_fat_entry.
use neos.Base.{
  ℕ, ◌+◌, ◌*◌, ◌/◌, ◌%◌, ◌^◌, ◌≤◌, ◌<◌, ◌≡◌, ◌≢◌, ◌⊎◌, arith, refl, inl, inr, Bool-cases, ap,
  ltb→lt, ltb→le, ==→eq, sym, ◌∙◌, ◌==◌, ltb,
}
use mathlib.Core.Path.{subst}
use neos.Memory.{Mem}
use neos.Fat.{
  Bpb, Disk, get32, bytes32, fat_entry, fat_size, load_sector, read_fat_entry_cached,
  read_fat_entry, write_fat_entry, invalidate_cache, write_func,
}

-- A disk of 512-byte sectors whose table of `clusters` entries lies below 2 ^ 32, both copies.
pub record IsGeometry (bpb : Bpb) (clusters : ℕ) : Type 0 where
  pub sector : bpb.byts_per_sec ≡ 512
  pub room : clusters * 4 ≤ bpb.fat_sz32 * 512
  pub low : bpb.rsvd_sec_cnt * 512 + 2 * (bpb.fat_sz32 * 512) < 2 ^ 32

-- no addition wraps
pub fat_entry_lem :
    (bpb : Bpb) (n c : ℕ)
    → IsGeometry bpb n
    → c < n
    → fat_entry bpb c ≡ bpb.rsvd_sec_cnt * 512 + c * 4
unfolding fat_entry
fat_entry_lem bpb n c g h = ground (arith, g.sector)

pub fat_size_lem : (bpb : Bpb) (n : ℕ) → IsGeometry bpb n → fat_size bpb ≡ bpb.fat_sz32 * 512
unfolding fat_size
fat_size_lem bpb n g = ground (arith, g.sector)

-- What is written is read back, and a write elsewhere is not seen.
pub get32-write_self : (a v : ℕ) (m : Mem) → v < 2 ^ 32 → get32 (write_func (bytes32 v) a 4 m) a ≡ v
unfolding bytes32
get32-write_self a v m h = ground arith

pub get32-write_ne :
    (a b v : ℕ) (m : Mem)
    → (a + 4 ≤ b) ⊎ (b + 4 ≤ a)
    → get32 (write_func (bytes32 v) a 4 m) b ≡ get32 m b
get32-write_ne a b v m h = ground arith

-- The cache holds its sector of the disk, unless it is invalid.
abbrev pub Coherent : Disk → Type 0
Coherent disk =
    disk.cache_sector ≢ 0xFFFFFFFF
    → (i : ℕ) → i < 512
    → disk.cache i ≡ disk.image (disk.cache_sector * 512 + i)

-- `disk'` is `disk` but for the contents of the cache.
pub record SameDisk (disk disk' : Disk) : Type 0 where
  pub image : disk'.image ≡ disk.image
  pub bpb : disk'.bpb ≡ disk.bpb
  pub coherent : Coherent disk'

pub invalidate_cache-SameDisk : (disk : Disk) → SameDisk disk (invalidate_cache disk)
unfolding invalidate_cache
invalidate_cache-SameDisk disk = record {
  image = refl;
  bpb = refl;
  coherent = λ h. absurd (h refl);
}

sector_eq :
    (bpb : Bpb) (n c : ℕ)
    → IsGeometry bpb n
    → c < n
    → (r : ℕ) × (fat_entry bpb c ≡ (fat_entry bpb c / bpb.byts_per_sec) * 512 + r)
      × (fat_entry bpb c % bpb.byts_per_sec ≡ r)
      × (r + 4 ≤ 512)
      × (fat_entry bpb c + 4 ≤ 2 ^ 32)
sector_eq bpb n c g h = (
  fat_entry bpb c % 512,
  rw g.sector (omega arith),
  rw g.sector refl,
  omega (arith, fat_entry_lem bpb n c g h),
  omega (arith, fat_entry_lem bpb n c g h, g.room, g.low),
)

load_sector-hit :
    (sector i : ℕ) (disk : Disk)
    → disk.bpb.byts_per_sec ≡ 512
    → Coherent disk
    → sector * 512 + i < 2 ^ 32
    → i < 512
    → (load_sector sector disk).cache i ≡ disk.image (sector * 512 + i)
unfolding load_sector
load_sector-hit sector i disk e co low h = elim (Bool-cases (sector == disk.cache_sector)) [
  | inl same ↦ rw same (
      co (omega (arith, ==→eq sector disk.cache_sector same)) i h
      ∙ ap (λ (x : ℕ). disk.image (x * 512 + i)) (sym (==→eq sector disk.cache_sector same)))
  | inr other ↦ rw (other, e) (ground arith)
]

load_sector-SameDisk :
    (sector : ℕ) (disk : Disk)
    → disk.bpb.byts_per_sec ≡ 512
    → Coherent disk
    → sector * 512 < 2 ^ 32
    → SameDisk disk (load_sector sector disk)
unfolding load_sector
load_sector-SameDisk sector disk e co low = elim (Bool-cases (sector == disk.cache_sector)) [
  | inl same ↦ rw same (record { image = refl; bpb = refl; coherent = co })
  | inr other ↦
      rw other (record { image = refl; bpb = refl; coherent = λ h i lt. ground (arith, e) })
]

pub get32-agree :
    (m m' : Mem) (a b : ℕ) → ((i : ℕ) → i < 4 → m (a + i) ≡ m' (b + i)) → get32 m a ≡ get32 m' b
get32-agree m m' a b h =
    ground (arith, h 0 (omega arith), h 1 (omega arith), h 2 (omega arith), h 3 (omega arith))

-- The cached read gives what the disk has, and changes nothing but the cache.
pub read_fat_entry_cached_lem :
    (n c : ℕ) (disk : Disk)
    → IsGeometry disk.bpb n
    → Coherent disk
    → c < n
    → ((read_fat_entry_cached c disk).0 ≡ read_fat_entry c disk)
      × SameDisk disk (read_fat_entry_cached c disk).1
unfolding read_fat_entry_cached read_fat_entry
read_fat_entry_cached_lem n c disk g co h =
    let (r, whole, rest, low, small) = sector_eq disk.bpb n c g h in
    let q = fat_entry disk.bpb c / disk.bpb.byts_per_sec in
    let value = get32-agree (load_sector q disk).cache disk.image r (fat_entry disk.bpb c) λ i le.
      load_sector-hit q (r + i) disk g.sector co (omega (arith, whole, small, le))
        (omega (arith, low))
      ∙ ap disk.image (omega (arith, whole)) in
    (rw rest value, load_sector-SameDisk q disk g.sector co (omega (arith, whole, small)))

-- The two writes lie in the table and in its copy.
write_fat_entry-image :
    (n c v : ℕ) (disk : Disk)
    → IsGeometry disk.bpb n
    → c < n
    → (write_fat_entry c v disk).image
      ≡ write_func
          (bytes32 v)
          (fat_entry disk.bpb c + fat_size disk.bpb)
          4
          (write_func (bytes32 v) (fat_entry disk.bpb c) 4 disk.image)
unfolding write_fat_entry
write_fat_entry-image n c v disk g h =
    ap
      (λ (a : ℕ).
        write_func (bytes32 v) a 4 (write_func (bytes32 v) (fat_entry disk.bpb c) 4 disk.image))
      (omega (arith, fat_entry_lem disk.bpb n c g h, fat_size_lem disk.bpb n g, g.room, g.low))

-- Writing the entry of one cluster changes what is read for that cluster, and for no other; the
-- second copy of the table takes the same value.
pub write_fat_entry_lem :
    (n c v : ℕ) (disk : Disk)
    → IsGeometry disk.bpb n
    → c < n
    → v < 2 ^ 32
    → (read_fat_entry c (write_fat_entry c v disk) ≡ v)
      × ((k : ℕ)
          → k < n
          → c ≢ k
          → read_fat_entry k (write_fat_entry c v disk) ≡ read_fat_entry k disk)
      × (get32 (write_fat_entry c v disk).image (fat_entry disk.bpb c + fat_size disk.bpb) ≡ v)
unfolding read_fat_entry write_fat_entry
write_fat_entry_lem n c v disk g h small =
    let e = fat_entry disk.bpb c in
    let size = fat_size disk.bpb in
    let m = write_func (bytes32 v) e 4 disk.image in
    let image = write_fat_entry-image n c v disk g h in
    let at = fat_entry_lem disk.bpb n c g h in
    let wide = fat_size_lem disk.bpb n g in
    (
      ap (λ (x : Mem). get32 x e) image
          ∙ get32-write_ne (e + size) e v m (inr (omega (arith, at, wide, g.room)))
          ∙ get32-write_self e v disk.image small,
      (λ k lt ne.
          ap (λ (x : Mem). get32 x (fat_entry disk.bpb k)) image
          ∙ get32-write_ne (e + size) (fat_entry disk.bpb k) v m
              (inr (omega (arith, at, wide, g.room, fat_entry_lem disk.bpb n k g lt)))
          ∙ get32-write_ne e (fat_entry disk.bpb k) v disk.image (elim (Bool-cases (ltb c k)) [
            | inl less ↦ inl (omega (arith, at, fat_entry_lem disk.bpb n k g lt, ltb→lt c k less))
            | inr more ↦
                inr (omega (arith, at, fat_entry_lem disk.bpb n k g lt, ltb→le c k more, ne))
          ])),
      ap (λ (x : Mem). get32 x (e + size)) image ∙ get32-write_self (e + size) v m small,
    )

pub SameDisk-trans : {a b c : Disk} → SameDisk a b → SameDisk b c → SameDisk a c
SameDisk-trans p q = record {
  image = q.image ∙ p.image;
  bpb = q.bpb ∙ p.bpb;
  coherent = q.coherent;
}

pub same_entries :
    {d d' : Disk} → SameDisk d d' → (c : ℕ) → read_fat_entry c d' ≡ read_fat_entry c d
unfolding read_fat_entry
same_entries s c = rw (s.image, s.bpb) refl

pub same-IsGeometry :
    {n : ℕ} {d d' : Disk} → SameDisk d d' → IsGeometry d.bpb n → IsGeometry d'.bpb n
same-IsGeometry {n} s g = subst (λ b. IsGeometry b n) (sym s.bpb) g
