-- ===== src/Floppy/Transfer/Copy.antt =====
-- floppy.c: the inner loop of floppy_read and floppy_write, and the part of a block that it copies.
use neos.Base.{
  ℕ, zero, suc, ◌+◌, ◌-◌, ◌*◌, ◌^◌, ◌≤◌, ◌<◌, ◌≡◌, ◌&&◌, arith, leb, ltb, if◌then◌else◌,
}
use Prim.Native.Nat.{min}
use neos.Memory.{store}
use neos.Floppy.{Buf}
use neos.Floppy.Transfer.{copy_bytes, first_lba, last_lba, part_start, part_end}

pub copy_bytes-at :
    (n from to : ℕ) (src dst : Buf) (k : ℕ)
    → copy_bytes n from to src dst k
      ≡ (if leb to k && ltb k (to + n) then src (from + (k - to)) else dst k)
unfolding copy_bytes store
copy_bytes-at zero from to src dst k = ground arith
copy_bytes-at (suc n) from to src dst k =
    ground (arith, copy_bytes-at n (from + 1) (to + 1) src (store to (src from) dst) k)

-- how far the output has come when the loop is at block `lba`
abbrev pub index_at : (address size lba : ℕ) → ℕ
index_at address size lba = min (lba * 512 - address) size

-- where a block lies in the range, and which part of it
pub record Part (address size lba : ℕ) : Type 0 where
  pub ordered : part_start lba address ≤ part_end lba address size
  pub inside : part_end lba address size ≤ 512
  pub position : lba * 512 + part_start lba address ≡ address + index_at address size lba
  pub next :
      index_at address size lba + (part_end lba address size - part_start lba address)
      ≡ index_at address size (lba + 1)

pub part :
    (address size lba : ℕ)
    → address + size < 2 ^ 32
    → first_lba address ≤ lba
    → lba ≤ last_lba address size
    → Part address size lba
part address size lba fits low high = ground arith
