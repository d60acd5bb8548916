-- ===== src/Floppy/Sector.antt =====
-- floppy.c, floppy_read_sector: which bytes of the sector buffer it writes.
use neos.Base.{
  ℕ, zero, suc, ◌+◌, ◌≤◌, ◌≡◌, refl, true, false, not, ◌||◌, Bool, arith, ltb, ◌==◌, Bool-cases,
  inl, inr, ==→eq, ◌∙◌, sym,
}
use Prim.Native.Nat.{bit_and}
use native.Mathlib.Nat.{suc-add}
use neos.Memory.{store}
use neos.Floppy.{
  Ports, Buf, main_status_register, data_fifo, wait_msr, read_loop, read_sector, finish_read,
  wait_ready, seek, send_transfer,
}

module _ (ports : Ports) where
  open ports use {Dev, inb}

  -- the poll before a byte: the controller after it, and the byte that it then delivers
  abbrev polled : Dev → Bool × Dev
  polled d = wait_msr ports 1 0xE0 0xE0 d

  abbrev stops : ℕ → Dev → Bool
  stops i d = not (polled d).0 || ltb 512 i

  read_loop-stop :
      (f i : ℕ) (buffer : Buf) (d : Dev)
      → stops i d ≡ true
      → read_loop ports (suc f) i buffer d ≡ ((i, buffer), (polled d).1)
  unfolding read_loop
  read_loop-stop f i buffer d h = rw h

  read_loop-take :
      (f i : ℕ) (buffer : Buf) (d : Dev)
      → stops i d ≡ false
      → (let (byte, d') = inb data_fifo (polled d).1 in
          read_loop ports (suc f) i buffer d ≡ read_loop ports f (i + 1) (store i byte buffer) d')
  unfolding read_loop
  read_loop-take f i buffer d h = rw h

  -- the loop's end: how many bytes it took, and where it wrote
  record Taken (i : ℕ) (buffer : Buf) (out : ℕ × Buf) : Type 0 where
    counted : i ≤ out.0
    limited : i ≤ 513 → out.0 ≤ 513
    kept : (k : ℕ) → out.0 ≤ k → out.1 k ≡ buffer k

  Taken-store :
      (i byte : ℕ) (buffer : Buf) (out : ℕ × Buf)
      → i ≤ 512
      → Taken (i + 1) (store i byte buffer) out
      → Taken i buffer out
  unfolding store
  Taken-store i byte buffer out h t = record {
    counted = omega (arith, t.counted);
    limited = λ _. t.limited (omega arith);
    kept = λ k le. ground (arith, t.kept k le, t.counted);
  }

  read_loop-Taken :
      (f i : ℕ) (buffer : Buf) (d : Dev) → Taken i buffer (read_loop ports f i buffer d).0
  unfolding read_loop
  read_loop-Taken zero i buffer d = record {
    counted = omega arith;
    limited = λ h. h;
    kept = λ k h. refl;
  }
  read_loop-Taken (suc f) i buffer d = elim (Bool-cases (stops i d)) [
    | inl e ↦
        rw (read_loop-stop f i buffer d e)
          (record { counted = omega arith; limited = λ h. h; kept = λ k h. refl })
    | inr e ↦
        let (byte, d') = inb data_fifo (polled d).1 in
        rw (read_loop-take f i buffer d e) (
          Taken-store i byte buffer _ (ground arith)
            (read_loop-Taken f (i + 1) (store i byte buffer) d'))
  ]

  -- The loop takes at most 513 bytes, and more fuel than one test for each makes no difference.
  pub read_loop-fuel :
      (f k i : ℕ) (buffer : Buf) (d : Dev)
      → i ≤ 513
      → i + f ≡ 514
      → read_loop ports (f + k) i buffer d ≡ read_loop ports f i buffer d
  read_loop-fuel zero k i buffer d low e = absurd (omega arith)
  read_loop-fuel (suc f) k i buffer d low e = rw suc-add (elim (Bool-cases (stops i d)) [
    | inl done ↦ read_loop-stop (f + k) i buffer d done ∙ sym (read_loop-stop f i buffer d done)
    | inr more ↦
        let (byte, d') = inb data_fifo (polled d).1 in
        read_loop-take (f + k) i buffer d more
        ∙ read_loop-fuel f k (i + 1) (store i byte buffer) d' (ground arith) (omega arith)
        ∙ sym (read_loop-take f i buffer d more)
  ])

  finish_read-kept :
      (head cylinder sector i : ℕ) (filled : Buf) (d : Dev)
      → (let ((fine, out), d') = finish_read ports head cylinder sector i filled d in
          (out ≡ filled) × (fine ≡ true → i ≡ 512))
  unfolding finish_read
  finish_read-kept head cylinder sector i filled d = elim (Bool-cases (i == 512)) [
    | inl full ↦ rw full (elim (Bool-cases (wait_ready ports 0xffffff d).0) [
      | inl done ↦ rw done (refl, λ _. ==→eq i 512 full)
      | inr not_done ↦ rw not_done (refl, λ h. cc)
    ])
    | inr partial ↦ rw partial (refl, λ h. cc)
  ]

  -- What a call of `floppy_read_sector` may have written.
  abbrev Kept : Buf → Bool × Buf → Type 0
  Kept buffer (fine, filled) =
      (k : ℕ) → (513 ≤ k → filled k ≡ buffer k) × (fine ≡ true → 512 ≤ k → filled k ≡ buffer k)

  Kept-finish :
      (head cylinder sector i : ℕ) (buffer filled : Buf) (d : Dev)
      → Taken 0 buffer (i, filled)
      → Kept buffer (finish_read ports head cylinder sector i filled d).0
  Kept-finish head cylinder sector i buffer filled d t k =
      let (same, full) = finish_read-kept head cylinder sector i filled d in
      rw same (
        (λ h. t.kept k (omega (arith, t.limited (omega arith)))),
        (λ fine h. t.kept k (omega (arith, full fine))),
      )

  read_sector-Kept :
      (head cylinder sector : ℕ) (buffer : Buf) (d : Dev)
      → Kept buffer (read_sector ports head cylinder sector buffer d).0
  unfolding read_sector
  read_sector-Kept head cylinder sector buffer d =
      let d₁ = (seek ports head cylinder d).1 in
      let d₂ = (send_transfer ports 0x66 head cylinder sector d₁).1 in
      let d₃ = (wait_ready ports 0xffffff d₂).1 in
      elim (Bool-cases (seek ports head cylinder d).0) [
        | inl found ↦ rw found (elim (Bool-cases (wait_ready ports 0xffffff d₂).0) [
          | inl ready ↦
              rw ready
                (Kept-finish head cylinder sector _ buffer _ _ (read_loop-Taken 514 0 buffer d₃))
          | inr not_ready ↦ rw not_ready λ k. ((λ h. refl), (λ h. cc))
        ])
        | inr lost ↦ rw lost λ k. ((λ h. refl), (λ h. cc))
      ]

  -- However the controller behaves, `floppy_read_sector` writes no byte of the buffer behind index
  -- 512, and when it reports success it has written none behind the 512 bytes of a sector.
  pub read_sector-kept :
      (head cylinder sector : ℕ) (buffer : Buf) (d : Dev) (k : ℕ)
      → (let ((fine, filled), d') = read_sector ports head cylinder sector buffer d in
          (513 ≤ k → filled k ≡ buffer k) × (fine ≡ true → 512 ≤ k → filled k ≡ buffer k))
  read_sector-kept head cylinder sector buffer d = read_sector-Kept head cylinder sector buffer d

  -- A controller that always offers another byte.
  abbrev pub AlwaysReady : Type 0
  AlwaysReady = (d : Dev) → bit_and (inb main_status_register d).0 0xE0 ≡ 0xE0

  polled-true : (d : Dev) → AlwaysReady → (polled d).0 ≡ true
  unfolding wait_msr
  polled-true d ready = rw (ready d)

  -- What the loop has come to when it took every byte up to index 512.
  abbrev Overran : ℕ × Buf → Type 0
  Overran (i, filled) = (i ≡ 513) × ((d : Dev) × (filled 512 ≡ (inb data_fifo d).0))

  read_loop-Overran :
      (f i : ℕ) (buffer : Buf) (d : Dev)
      → AlwaysReady
      → i + f ≡ 512
      → Overran (read_loop ports (suc (suc f)) i buffer d).0
  unfolding store
  read_loop-Overran zero i buffer d ready e =
      let (byte, d') = inb data_fifo (polled d).1 in
      let i-512 : i ≡ 512 = omega arith in
      rw
        (
          i-512,
          read_loop-take 1 512 buffer d (ground (arith, polled-true d ready)),
          read_loop-stop 0 513 (store 512 byte buffer) d' (ground (arith, polled-true d' ready)),
        )
        (refl, ((polled d).1, refl))
  read_loop-Overran (suc f) i buffer d ready e =
      let (byte, d') = inb data_fifo (polled d).1 in
      rw (read_loop-take (suc (suc f)) i buffer d (ground (arith, polled-true d ready)))
        (read_loop-Overran f (i + 1) (store i byte buffer) d' ready (omega arith))

  -- From such a controller the data loop takes 513 bytes, and the last of them is stored at index
  -- 512, behind the end of the 512-byte sector buffer of `floppy_read` and `floppy_write`.
  pub read_loop-overrun :
      (buffer : Buf) (d : Dev)
      → AlwaysReady
      → (let ((i, filled), d') = read_loop ports 514 0 buffer d in
          (i ≡ 513) × ((d : Dev) × (filled 512 ≡ (inb data_fifo d).0)))
  read_loop-overrun buffer d ready = read_loop-Overran 512 0 buffer d ready refl
