-- ===== src/Floppy/Transfer/Read.antt =====
-- floppy.c, floppy_read: the bytes that it delivers, out of the blocks that floppy_read_lba delivers
-- one after the other.
use neos.Base.{
  ℕ, zero, suc, ◌+◌, ◌-◌, ◌/◌, ◌%◌, ◌^◌, ◌≤◌, ◌<◌, ◌≡◌, Bool, true, false, ◌&&◌, arith, leb, ltb,
  if◌then◌else◌, Bool-cases, inl, inr, ap, sym, ◌∙◌,
}
use mathlib.Core.Path.{subst}
use neos.Floppy.{Buf, Ports, read_lba}
use neos.Floppy.Transfer.{
  BlockRead, copy_bytes, first_lba, last_lba, part_start, part_end, read_blocks, floppy_read,
  controller_read,
}
use neos.Floppy.Transfer.Copy.{index_at, part, copy_bytes-at}

near :
    (address size lba k : ℕ)
    → address + size < 2 ^ 32
    → first_lba address ≤ lba
    → lba ≤ last_lba address size
    → index_at address size lba ≤ k
    → k < index_at address size (lba + 1)
    → ((address + k) / 512 - lba ≡ 0)
      × (part_start lba address + (k - index_at address size lba) ≡ (address + k) % 512)
near address size lba k fits low high from to = ground arith

far :
    (address size lba k : ℕ)
    → index_at address size (lba + 1) ≤ k
    → k < size
    → (address + k) / 512 - lba ≡ suc ((address + k) / 512 - (lba + 1))
far address size lba k from to = ground arith

two_parts :
    (index next limit k later copied x here both : ℕ)
    → copied ≡ (if leb index k && ltb k next then here else x)
    → index ≤ next
    → next ≤ limit
    → (next ≤ k → k < limit → later ≡ both)
    → (index ≤ k → k < next → here ≡ both)
    → (if leb next k && ltb k limit then later else copied)
      ≡ (if leb index k && ltb k limit then both else x)
two_parts index next limit k later copied x here both c a b l h = ground arith

module _ {Dev : Type 0} (read_block : BlockRead Dev) where
  -- The reading of block `lba + j`, when those from `lba` on are read one after the other, each into
  -- the buffer that the one before has left; and the device after the first `n`.
  abbrev pub nth_read : (lba j : ℕ) → Buf → Dev → (Bool × Buf) × Dev
  nth_read lba zero tmp d = read_block lba tmp d
  nth_read lba (suc j) tmp d =
      nth_read (lba + 1) j (read_block lba tmp d).0.1 (read_block lba tmp d).1

  abbrev pub device_after : (lba n : ℕ) → Buf → Dev → Dev
  device_after lba zero tmp d = d
  device_after lba (suc n) tmp d =
      device_after (lba + 1) n (read_block lba tmp d).0.1 (read_block lba tmp d).1

  module _ (address size : ℕ) where
    -- Byte `k` of the output, of which those from `index` up to `limit` come from the blocks.
    abbrev pub delivered : (lba index limit : ℕ) (tmp out : Buf) → Dev → Buf
    delivered lba index limit tmp out d k =
        if leb index k && ltb k limit
        then (nth_read lba ((address + k) / 512 - lba) tmp d).0.1 ((address + k) % 512)
        else out k

    -- What comes of reading `n` blocks from `lba` on, with the output filled up to `index`: each is
    -- read, and the output has their bytes up to `size`; or block `lba + m` is the first that
    -- cannot be read, and the output has the bytes of those in front of it.
    pub data ReadOutcome (lba n index : ℕ) (tmp out : Buf) (d : Dev)
        : (Bool × Buf) × Dev → Type 0 where
      complete :
          (out' : Buf)
          → ((j : ℕ) → j < n → (nth_read lba j tmp d).0.0 ≡ true)
          → ((k : ℕ) → out' k ≡ delivered lba index size tmp out d k)
          → ReadOutcome lba n index tmp out d ((true, out'), device_after lba n tmp d)
      broken :
          (m : ℕ) (out' : Buf)
          → m < n
          → ((j : ℕ) → j < m → (nth_read lba j tmp d).0.0 ≡ true)
          → (nth_read lba m tmp d).0.0 ≡ false
          → ((k : ℕ) → out' k ≡ delivered lba index (index_at address size (lba + m)) tmp out d k)
          → ReadOutcome lba n index tmp out d ((false, out'), device_after lba (suc m) tmp d)

    fine_from :
        (lba m : ℕ) (tmp : Buf) (d : Dev)
        → (read_block lba tmp d).0.0 ≡ true
        → ((j : ℕ)
            → j < m
            → (nth_read (lba + 1) j (read_block lba tmp d).0.1 (read_block lba tmp d).1).0.0 ≡ true)
        → (j : ℕ) → j < suc m
        → (nth_read lba j tmp d).0.0 ≡ true
    fine_from lba m tmp d first rest zero h = first
    fine_from lba m tmp d first rest (suc j) h = rest j (omega arith)

    -- The part of one block and what the blocks behind it deliver come together.
    delivered-block :
        (lba limit : ℕ) (tmp out : Buf) (d : Dev) (k : ℕ)
        → address + size < 2 ^ 32
        → first_lba address ≤ lba
        → lba ≤ last_lba address size
        → index_at address size (lba + 1) ≤ limit
        → limit ≤ size
        → (let start = part_start lba address in
            let count = part_end lba address size - start in
            let index = index_at address size lba in
            let tmp' = (read_block lba tmp d).0.1 in
            let d' = (read_block lba tmp d).1 in
            delivered
              (lba + 1)
              (index + count)
              limit
              tmp'
              (copy_bytes count start index tmp' out)
              d'
              k
            ≡ delivered lba index limit tmp out d k)
    delivered-block lba limit tmp out d k fits low high a b =
        let p = part address size lba fits low high in
        let start = part_start lba address in
        let count = part_end lba address size - start in
        let index = index_at address size lba in
        let next = index_at address size (lba + 1) in
        let tmp' = (read_block lba tmp d).0.1 in
        let d' = (read_block lba tmp d).1 in
        let out1 = copy_bytes count start index tmp' out in
        let from : ℕ → ℕ → ℕ = λ j i. (nth_read lba j tmp d).0.1 i in
        let i = (address + k) % 512 in
        ap (λ (x : ℕ). delivered (lba + 1) x limit tmp' out1 d' k) p.next
        ∙ two_parts index next limit k _ (out1 k) (out k) (tmp' (start + (k - index)))
            (from ((address + k) / 512 - lba) i)
            (copy_bytes-at count start index tmp' out k
              ∙ ap (λ (x : ℕ). if leb index k && ltb k x then tmp' (start + (k - index)) else out k)
                  p.next)
            (omega (arith, p.next)) a
            (λ ge lt. ap (λ (j : ℕ). from j i) (sym (far address size lba k ge (omega arith))))
            (λ ge lt.
              let (first, place) = near address size lba k fits low high ge lt in
              ap tmp' place ∙ ap (λ (j : ℕ). from j i) (sym first))

    ReadOutcome-block :
        (lba n : ℕ) (tmp out : Buf) (d : Dev) (r : (Bool × Buf) × Dev)
        → address + size < 2 ^ 32
        → first_lba address ≤ lba
        → lba + suc n ≡ last_lba address size + 1
        → (read_block lba tmp d).0.0 ≡ true
        → (let start = part_start lba address in
            let count = part_end lba address size - start in
            let index = index_at address size lba in
            let tmp' = (read_block lba tmp d).0.1 in
            let d' = (read_block lba tmp d).1 in
            ReadOutcome
              (lba + 1)
              n
              (index + count)
              tmp'
              (copy_bytes count start index tmp' out)
              d'
              r
            → ReadOutcome lba (suc n) index tmp out d r)
    ReadOutcome-block lba n tmp out d _ fits low count fine (complete out' all bytes) =
        complete out' (fine_from lba n tmp d fine all) λ k.
          bytes k
          ∙ delivered-block lba size tmp out d k fits low (omega arith) (omega arith) (omega arith)
    ReadOutcome-block lba n tmp out d _ fits low count fine (broken m out' lt before failed bytes) =
        broken (suc m) out' (omega arith) (fine_from lba m tmp d fine before) failed λ k.
          bytes k
          ∙ delivered-block lba (index_at address size (lba + 1 + m)) tmp out d k fits low
              (omega arith) (omega arith) (omega arith)
          ∙ ap
              (λ (x : ℕ).
                delivered lba (index_at address size lba) (index_at address size x) tmp out d k)
              (omega arith)

    nothing :
        (lba index limit : ℕ) (tmp out : Buf) (d : Dev) (k : ℕ)
        → limit ≤ index
        → out k ≡ delivered lba index limit tmp out d k
    nothing lba index limit tmp out d k h = ground arith

    read_blocks-ReadOutcome :
        (n lba : ℕ) (tmp out : Buf) (d : Dev)
        → address + size < 2 ^ 32
        → first_lba address ≤ lba
        → lba + n ≡ last_lba address size + 1
        → (let index = index_at address size lba in
            ReadOutcome lba n index tmp out d
              (read_blocks read_block address size n lba index tmp out d))
    unfolding read_blocks
    read_blocks-ReadOutcome zero lba tmp out d fits low count =
        complete out (λ j h. absurd (omega arith))
          λ k. nothing lba (index_at address size lba) size tmp out d k (omega arith)
    read_blocks-ReadOutcome (suc n) lba tmp out d fits low count =
        let start = part_start lba address in
        let rounds = part_end lba address size - start in
        let index = index_at address size lba in
        let tmp' = (read_block lba tmp d).0.1 in
        let d' = (read_block lba tmp d).1 in
        let out1 = copy_bytes rounds start index tmp' out in
        elim (Bool-cases (read_block lba tmp d).0.0) [
          | inl fine ↦
              rw (read_blocks, fine)
                (ReadOutcome-block lba n tmp out d _ fits low count fine (
                  subst
                    (λ (x : ℕ).
                      ReadOutcome (lba + 1) n x tmp' out1 d'
                        (read_blocks read_block address size n (lba + 1) x tmp' out1 d'))
                    (sym (part address size lba fits low (omega arith)).next)
                    (read_blocks-ReadOutcome n (lba + 1) tmp' out1 d' fits (omega arith)
                      (omega arith))))
          | inr failed ↦
              rw (read_blocks, failed)
                (broken 0 out (omega arith) (λ j h. absurd (omega arith)) failed
                  λ k. nothing lba index _ tmp out d k (omega arith))
        ]

module _ (ports : Ports) where
  open ports use {Dev}

  -- floppy_read over any controller, for a range that does not wrap round the 32-bit addresses:
  -- block after block from the one with the first byte to the one behind the last is read, until
  -- one cannot be. If none fails, it returns true, and the output holds the `size` bytes from
  -- `address` on, each from the place in its block, and is unchanged behind them. If one fails, it
  -- returns false at once, with the bytes of the blocks in front of that one in the output.
  pub controller_read-ReadOutcome :
      (address size : ℕ) (tmp out : Buf) (d : Dev)
      → address + size < 2 ^ 32
      → ReadOutcome
          (read_lba ports)
          address
          size
          (first_lba address)
          (last_lba address size + 1 - first_lba address)
          0
          tmp
          out
          d
          (controller_read ports address size tmp out d)
  unfolding controller_read floppy_read
  controller_read-ReadOutcome address size tmp out d fits =
      let lba = first_lba address in
      let n = last_lba address size + 1 - lba in
      let at : ℕ → Type 0 = λ x.
        ReadOutcome (read_lba ports) address size lba n x tmp out d
          (read_blocks (read_lba ports) address size n lba x tmp out d) in
      subst at (omega arith) (
        read_blocks-ReadOutcome (read_lba ports) address size n lba tmp out d fits (omega arith)
          (omega arith))
