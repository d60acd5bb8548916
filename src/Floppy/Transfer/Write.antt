-- ===== src/Floppy/Transfer/Write.antt =====
-- floppy.c, floppy_write: what it hands to floppy_write_lba, block after block.
use neos.Base.{
  ℕ, zero, suc, ◌+◌, ◌-◌, ◌*◌, ◌^◌, ◌≤◌, ◌<◌, ◌≡◌, refl, Bool, true, false, ◌&&◌, arith, leb, ltb,
  if◌then◌else◌, Bool-cases, inl, inr, ap, sym, ◌∙◌, fun_ext,
}
use mathlib.Core.Path.{subst}
use neos.Floppy.{Buf, Ports, read_lba, write_lba}
use neos.Floppy.Transfer.{
  BlockRead, BlockWrite, copy_bytes, first_lba, last_lba, part_start, part_end, write_blocks,
  floppy_write, controller_write,
}
use neos.Floppy.Transfer.Copy.{index_at, part, copy_bytes-at}

-- The sector of block `lba` with the bytes of the range that lie in it taken from the buffer. The
-- copy loop runs over the 512 bytes of a sector only.
abbrev pub merged : (address size lba : ℕ) (buffer tmp : Buf) → Buf
merged address size lba buffer tmp i =
    let a = lba * 512 + i in
    if ltb i 512 && leb address a && ltb a (address + size) then buffer (a - address) else tmp i

same_place :
    (address size lba i : ℕ)
    → address + size < 2 ^ 32
    → first_lba address ≤ lba
    → lba ≤ last_lba address size
    → (let start = part_start lba address in
        let count = part_end lba address size - start in
        let a = lba * 512 + i in
        (leb start i && ltb i (start + count))
        ≡ (ltb i 512 && leb address a && ltb a (address + size)))
same_place address size lba i fits low high = ground arith

place :
    (block start i address index end : ℕ)
    → block + start ≡ address + index
    → leb start i && ltb i end ≡ true
    → index + (i - start) ≡ block + i - address
place block start i address index end e within = ground arith

copied-merged :
    (address size lba : ℕ) (buffer tmp : Buf)
    → address + size < 2 ^ 32
    → first_lba address ≤ lba
    → lba ≤ last_lba address size
    → (let start = part_start lba address in
        let count = part_end lba address size - start in
        copy_bytes count (index_at address size lba) start buffer tmp
        ≡ merged address size lba buffer tmp)
copied-merged address size lba buffer tmp fits low high = fun_ext λ i.
    let p = part address size lba fits low high in
    let start = part_start lba address in
    let count = part_end lba address size - start in
    let same = same_place address size lba i fits low high in
    copy_bytes-at count (index_at address size lba) start buffer tmp i
    ∙ (elim (Bool-cases (leb start i && ltb i (start + count))) [
      | inl within ↦
          rw (within, sym same ∙ within)
            (ap buffer (
              place (lba * 512) start i address (index_at address size lba) (start + count)
                p.position within))
      | inr out ↦ rw (out, sym same ∙ out) refl
    ])

-- What became of one block: whether it was written, and read before where that was asked for; the
-- sector buffer; and the device.
pub record Block (Dev : Type 0) : Type 0 where
  pub fine : Bool
  pub sector : Buf
  pub device : Dev

module _ {Dev : Type 0} (read_block : BlockRead Dev) (write_block : BlockWrite Dev)
    (address size : ℕ) (preserve : Bool) (buffer : Buf) where
  -- With `preserve` the block is read first, and it is written only if that succeeds.
  abbrev pub one_block : (lba : ℕ) → Buf → Dev → Block Dev
  one_block lba tmp d =
      let old = if preserve then read_block lba tmp d else ((true, tmp), d) in
      let sector = merged address size lba buffer old.0.1 in
      let written = write_block lba sector old.1 in
      record {
        fine = old.0.0 && written.0;
        sector = sector;
        device = if old.0.0 then written.1 else old.1;
      }

  -- Block `lba + j`, when those from `lba` on are written one after the other, each over the sector
  -- buffer that the one before has left; and the device after the first `n`.
  abbrev pub nth_block : (lba j : ℕ) → Buf → Dev → Block Dev
  nth_block lba zero tmp d = one_block lba tmp d
  nth_block lba (suc j) tmp d =
      nth_block (lba + 1) j (one_block lba tmp d).sector (one_block lba tmp d).device

  abbrev pub device_after : (lba n : ℕ) → Buf → Dev → Dev
  device_after lba zero tmp d = d
  device_after lba (suc n) tmp d =
      device_after (lba + 1) n (one_block lba tmp d).sector (one_block lba tmp d).device

  -- What comes of writing `n` blocks from `lba` on: each is written; or block `lba + m` is the
  -- first that fails, and none behind it is touched.
  pub data WriteOutcome (lba n : ℕ) (tmp : Buf) (d : Dev) : Bool × Dev → Type 0 where
    complete :
        ((j : ℕ) → j < n → (nth_block lba j tmp d).fine ≡ true)
        → WriteOutcome lba n tmp d (true, device_after lba n tmp d)
    broken :
        (m : ℕ)
        → m < n
        → ((j : ℕ) → j < m → (nth_block lba j tmp d).fine ≡ true)
        → (nth_block lba m tmp d).fine ≡ false
        → WriteOutcome lba n tmp d (false, device_after lba (suc m) tmp d)

  fine_from :
      (lba m : ℕ) (tmp : Buf) (d : Dev)
      → (let first = one_block lba tmp d in
          first.fine ≡ true
          → ((j : ℕ) → j < m → (nth_block (lba + 1) j first.sector first.device).fine ≡ true)
          → (j : ℕ) → j < suc m
          → (nth_block lba j tmp d).fine ≡ true)
  fine_from lba m tmp d first rest zero h = first
  fine_from lba m tmp d first rest (suc j) h = rest j (omega arith)

  WriteOutcome-block :
      (lba n : ℕ) (tmp : Buf) (d : Dev) (r : Bool × Dev)
      → (let first = one_block lba tmp d in
          first.fine ≡ true
          → WriteOutcome (lba + 1) n first.sector first.device r
          → WriteOutcome lba (suc n) tmp d r)
  WriteOutcome-block lba n tmp d _ fine (complete all) = complete (fine_from lba n tmp d fine all)
  WriteOutcome-block lba n tmp d _ fine (broken m lt before failed) =
      broken (suc m) (omega arith) (fine_from lba m tmp d fine before) failed

  -- One round of the loop, by the block.
  write_blocks-round :
      (n lba : ℕ) (tmp : Buf) (d : Dev)
      → address + size < 2 ^ 32
      → first_lba address ≤ lba
      → lba ≤ last_lba address size
      → (let first = one_block lba tmp d in
          write_blocks read_block write_block address size preserve
            (suc n)
            lba
            (index_at address size lba)
            tmp
            buffer
            d
          ≡ (if first.fine
              then write_blocks read_block write_block address size preserve n
                  (lba + 1)
                  (index_at address size (lba + 1))
                  first.sector
                  buffer
                  first.device
              else (false, first.device)))
  unfolding write_blocks
  write_blocks-round n lba tmp d fits low high =
      let p = part address size lba fits low high in
      let old = if preserve then read_block lba tmp d else ((true, tmp), d) in
      let sector = merged address size lba buffer old.0.1 in
      rw (write_blocks, copied-merged address size lba buffer old.0.1 fits low high, p.next)
        (elim (Bool-cases old.0.0) [
          | inl fine ↦ elim (Bool-cases (write_block lba sector old.1).0) [
            | inl written ↦ rw (fine, written) refl
            | inr failed ↦ rw (fine, failed) refl
          ]
          | inr failed ↦ rw failed refl
        ])

  write_blocks-WriteOutcome :
      (n lba : ℕ) (tmp : Buf) (d : Dev)
      → address + size < 2 ^ 32
      → first_lba address ≤ lba
      → lba + n ≡ last_lba address size + 1
      → WriteOutcome lba n tmp d (
          write_blocks read_block write_block address size preserve n lba
            (index_at address size lba)
            tmp
            buffer
            d)
  unfolding write_blocks
  write_blocks-WriteOutcome zero lba tmp d fits low count = complete λ j h. absurd (omega arith)
  write_blocks-WriteOutcome (suc n) lba tmp d fits low count =
      let first = one_block lba tmp d in
      let round = write_blocks-round n lba tmp d fits low (omega arith) in
      let rest =
        write_blocks-WriteOutcome n (lba + 1) first.sector first.device fits (omega arith)
          (omega arith) in
      elim (Bool-cases first.fine) [
        | inl fine ↦
            subst (WriteOutcome lba (suc n) tmp d) (sym (round ∙ rw fine refl))
              (WriteOutcome-block lba n tmp d _ fine rest)
        | inr failed ↦
            subst (WriteOutcome lba (suc n) tmp d) (sym (round ∙ rw failed refl))
              (broken 0 (omega arith) (λ j h. absurd (omega arith)) failed)
      ]

module _ (ports : Ports) where
  open ports use {Dev}

  -- floppy_write over any controller, for a range that does not wrap round the 32-bit addresses:
  -- it goes block after block from the one with the first byte to the one behind the last. With
  -- `preserve` each is read into the sector buffer first. Then it is written with the bytes of the
  -- range taken from the caller's buffer and the others as the sector buffer has them. It returns
  -- true if all succeed, and false at once, with no later block read or written, if one fails.
  pub controller_write-WriteOutcome :
      (address size : ℕ) (preserve : Bool) (tmp buffer : Buf) (d : Dev)
      → address + size < 2 ^ 32
      → WriteOutcome
          (read_lba ports)
          (write_lba ports)
          address
          size
          preserve
          buffer
          (first_lba address)
          (last_lba address size + 1 - first_lba address)
          tmp
          d
          (controller_write ports address size preserve tmp buffer d)
  unfolding controller_write floppy_write
  controller_write-WriteOutcome address size preserve tmp buffer d fits =
      let lba = first_lba address in
      let n = last_lba address size + 1 - lba in
      subst
        (λ (x : ℕ).
          WriteOutcome (read_lba ports) (write_lba ports) address size preserve buffer lba n tmp d (
            write_blocks (read_lba ports) (write_lba ports) address size preserve n lba x tmp buffer
              d))
        (omega arith)
        (write_blocks-WriteOutcome (read_lba ports) (write_lba ports) address size preserve buffer n
          lba tmp d fits (omega arith) (omega arith))
