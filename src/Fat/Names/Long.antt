-- ===== src/Fat/Names/Long.antt =====
-- fat.c: a long name that is stored as entries is read back from them.
use neos.Base.{
  ℕ, zero, suc, ◌+◌, ◌-◌, ◌*◌, ◌%◌, ◌^◌, ◌≤◌, ◌<◌, ◌≡◌, refl, inl, inr, true, false, arith,
  Bool-cases, ◌==◌, ◌&&◌, if◌then◌else◌, ne→==, eq→==, ltb, leb, ap, leb→le, leb→lt, ltb→lt, ltb→le,
  lt→ltb, le→ltb,
}
use neos.Fat.Names.{lfn_entry, store_lfn}
use Prim.Native.Nat.{bit_or}

-- The entries of a name in the order in which they lie in the directory, from number `k` down to
-- the first, read into the array.
abbrev pub read_lfn : (long_filename : ℕ → ℕ) (entries chksum k : ℕ) → (ℕ → ℕ) → ℕ → ℕ
read_lfn long_filename entries chksum zero out = out
read_lfn long_filename entries chksum (suc k) out =
    read_lfn long_filename entries chksum k
      (store_lfn (lfn_entry long_filename entries chksum (k + 1)) out)

-- The number of an entry below 16, out of its order byte.
ord-index :
    (k : ℕ)
    → k < 16
    → (bit_or 0x40 k % 256 % 16 ≡ k)
      × (bit_or 0 k % 256 % 16 ≡ k)
      × (leb 0x40 (bit_or 0x40 k % 256 % 128) ≡ true)
      × (leb 0x40 (bit_or 0 k % 256 % 128) ≡ false)
ord-index zero low = (refl, refl, refl, refl)
ord-index (suc zero) low = (refl, refl, refl, refl)
ord-index (suc (suc zero)) low = (refl, refl, refl, refl)
ord-index (suc (suc (suc zero))) low = (refl, refl, refl, refl)
ord-index (suc (suc (suc (suc zero)))) low = (refl, refl, refl, refl)
ord-index (suc (suc (suc (suc (suc zero))))) low = (refl, refl, refl, refl)
ord-index (suc (suc (suc (suc (suc (suc zero)))))) low = (refl, refl, refl, refl)
ord-index (suc (suc (suc (suc (suc (suc (suc zero))))))) low = (refl, refl, refl, refl)
ord-index (suc (suc (suc (suc (suc (suc (suc (suc zero)))))))) low = (refl, refl, refl, refl)
ord-index (suc (suc (suc (suc (suc (suc (suc (suc (suc zero))))))))) low = (refl, refl, refl, refl)
ord-index (suc (suc (suc (suc (suc (suc (suc (suc (suc (suc zero)))))))))) low =
    (refl, refl, refl, refl)
ord-index (suc (suc (suc (suc (suc (suc (suc (suc (suc (suc (suc zero))))))))))) low =
    (refl, refl, refl, refl)
ord-index (suc (suc (suc (suc (suc (suc (suc (suc (suc (suc (suc (suc zero)))))))))))) low =
    (refl, refl, refl, refl)
ord-index (suc (suc (suc (suc (suc (suc (suc (suc (suc (suc (suc (suc (suc zero))))))))))))) low =
    (refl, refl, refl, refl)
ord-index (suc (suc (suc (suc (suc (suc (suc (suc (suc (suc (suc (suc (suc (suc zero))))))))))))))
      low =
    (refl, refl, refl, refl)
ord-index
      (suc (suc (suc (suc (suc (suc (suc (suc (suc (suc (suc (suc (suc (suc (suc zero)))))))))))))))
      low =
    (refl, refl, refl, refl)
ord-index
      (suc
        (suc (suc (suc (suc (suc (suc (suc (suc (suc (suc (suc (suc (suc (suc (suc k))))))))))))))))
      low =
    absurd (omega arith)

-- The characters of entry `k + 1` are where the word arithmetic finds them.
place :
    (long_filename out : ℕ → ℕ) (k j : ℕ)
    → k < 16
    → j < 13 * 16
    → (if ltb ((j + 2 ^ 32 - k * 13) % 2 ^ 32) 13
        then long_filename ((k + 1 - 1) * 13 + (j + 2 ^ 32 - k * 13) % 2 ^ 32)
        else out j)
      ≡ (if leb (k * 13) j && ltb j (k * 13 + 13) then long_filename j else out j)
place long_filename out k j low small = elim (Bool-cases (leb (k * 13) j)) [
  | inl above ↦
      let from_start = leb→le (k * 13) j above in
      let within : (j + 2 ^ 32 - k * 13) % 2 ^ 32 ≡ j - k * 13 = omega arith in
      elim (Bool-cases (ltb j (k * 13 + 13))) [
        | inl below ↦
            let to_end = ltb→lt j (k * 13 + 13) below in
            rw (within, above, below, lt→ltb (j - k * 13) 13 (omega arith))
              (ap long_filename (omega arith))
        | inr behind ↦
            let from_end = ltb→le j (k * 13 + 13) behind in
            rw (within, above, behind, le→ltb (j - k * 13) 13 (omega arith)) refl
      ]
  | inr before ↦
      let in_front = leb→lt (k * 13) j before in
      rw (before, le→ltb ((j + 2 ^ 32 - k * 13) % 2 ^ 32) 13 (omega arith)) refl
]

-- Reading entry `k + 1` stores its thirteen characters in their place, behind the last of them a
-- null byte, and keeps the others.
store_lfn-at :
    (long_filename out : ℕ → ℕ) (entries chksum k j : ℕ)
    → k + 1 < 16
    → j < 13 * 16
    → store_lfn (lfn_entry long_filename entries chksum (k + 1)) out j ≡ (
        if (k + 1 == entries) && (j == k * 13 + 13)
        then 0
        else if leb (k * 13) j && ltb j (k * 13 + 13)
        then long_filename j
        else out j)
unfolding store_lfn lfn_entry
store_lfn-at long_filename out entries chksum k j low small =
    let (last, other, marked, unmarked) = ord-index (k + 1) low in
    let offset : (k + 1 + 2 ^ 32 - 1) % 2 ^ 32 * 13 % 2 ^ 32 ≡ k * 13 = omega arith in
    let behind : (k * 13 + 13) % 2 ^ 32 ≡ k * 13 + 13 = omega arith in
    elim (Bool-cases (k + 1 == entries)) [
      | inl is_last ↦
          rw (store_lfn, is_last, last, marked, offset, behind)
            (rw (place long_filename out k j (omega arith) small) refl)
      | inr more ↦
          rw (store_lfn, more, other, unmarked, offset)
            (place long_filename out k j (omega arith) small)
    ]

next_place : (k : ℕ) → suc k * 13 ≡ k * 13 + 13
next_place k = omega arith

-- The entries below the last one give their part of the name and keep the rest.
read_lfn-below :
    (long_filename out : ℕ → ℕ) (entries chksum k j : ℕ)
    → k < entries
    → entries < 16
    → j < 13 * 16
    → read_lfn long_filename entries chksum k out j
      ≡ (if ltb j (k * 13) then long_filename j else out j)
read_lfn-below long_filename out entries chksum zero j low few small =
    rw (le→ltb j 0 (omega arith)) refl
read_lfn-below long_filename out entries chksum (suc k) j low few small =
    let out' = store_lfn (lfn_entry long_filename entries chksum (k + 1)) out in
    let stored = store_lfn-at long_filename out entries chksum k j (omega arith) small in
    rw
      (
        read_lfn-below long_filename out' entries chksum k j (omega arith) few small,
        stored,
        ne→== (k + 1) entries (λ e. absurd (omega (arith, e))),
      )
      (rw (next_place k) (ground arith))

-- A long name of up to fifteen entries that fat_update_lfn stores is read back by fat_find_full:
-- every character of it, over any number of entries up to that, and a null byte behind the last
-- entry, whatever the array held before.
pub read_lfn-lfn_entry :
    (long_filename out : ℕ → ℕ) (entries chksum j : ℕ)
    → 1 ≤ entries
    → entries < 16
    → j ≤ entries * 13
    → read_lfn long_filename entries chksum entries out j
      ≡ (if j == entries * 13 then 0 else long_filename j)
read_lfn-lfn_entry long_filename out zero chksum j one few small = absurd (omega arith)
read_lfn-lfn_entry long_filename out (suc k) chksum j one few small =
    let out' = store_lfn (lfn_entry long_filename (suc k) chksum (k + 1)) out in
    let stored = store_lfn-at long_filename out (suc k) chksum k j (omega arith) (omega arith) in
    rw
      (
        read_lfn-below long_filename out' (suc k) chksum k j (omega arith) few (omega arith),
        stored,
        eq→== (k + 1) (suc k) (omega arith),
      )
      (rw (next_place k) (ground arith))

-- The sixteenth entry is taken for number 0: its thirteen characters go to the thirteen indices
-- that end at 2 ^ 32, in front of the array.
pub store_lfn-sixteenth :
    (long_filename out : ℕ → ℕ) (entries chksum i : ℕ)
    → 16 < entries
    → i < 13
    → store_lfn (lfn_entry long_filename entries chksum 16) out (2 ^ 32 - 13 + i)
      ≡ long_filename (195 + i)
unfolding store_lfn lfn_entry
store_lfn-sixteenth long_filename out entries chksum i many low =
    let number : ((2 ^ 32 - 13 + i) + 2 ^ 32 - (2 ^ 32 - 13)) % 2 ^ 32 ≡ i = omega arith in
    rw (store_lfn, ne→== 16 entries (λ e. absurd (omega (arith, e))), number, lt→ltb i 13 low) refl
