-- ===== src/Procfs/Files/Sequential.antt =====
-- procfs.c, proc_sread: reading a file in parts.
use neos.Base.{ℕ, ◌+◌, ◌-◌, ◌≤◌, ◌≡◌, refl, arith, ltb, inl, inr, Bool-cases, ltb→le, ap}
use neos.Base.Int.{pos, ◌+ℤ◌, ◌-ℤ◌}
use neos.Math.{min}
use neos.Memory.{Mem}
use neos.Procfs.{ProcState}
use neos.Procfs.Files.{proc_sread, copy_from}

sub-pos : (a b : ℕ) → b ≤ a → pos a -ℤ pos b ≡ pos (a - b)
unfolding ◌-ℤ◌
sub-pos a b h = ground arith

add-pos : (a b : ℕ) → pos a +ℤ pos b ≡ pos (a + b)
unfolding ◌+ℤ◌
add-pos a b = ground arith

min-right : (a b : ℕ) → b ≤ a → min (pos a) (pos b) ≡ pos b
unfolding min
min-right a b h = ground arith

min-left : (a b : ℕ) → a ≤ b → min (pos a) (pos b) ≡ pos a
unfolding min
min-left a b h = ground arith

-- With the offset in the file, a read of what is left or less delivers all that was asked for.
pub proc_sread-inside :
    (output n size o : ℕ) (file : ℕ → ℕ) (state : ProcState) (m : Mem)
    → state.offset ≡ pos o
    → o + n ≤ size
    → proc_sread output (pos n) file (pos size) state m
      ≡ (pos n, record state { offset = pos (o + n) }, copy_from output file o n m)
unfolding proc_sread
proc_sread-inside output n size o file state m at_o fits =
    rw
      (
        proc_sread,
        at_o,
        sub-pos size o (omega arith),
        min-right (size - o) n (omega arith),
        add-pos o n,
      )
      refl

-- At the end of the file a read delivers nothing.
pub proc_sread-end :
    (output n size : ℕ) (file : ℕ → ℕ) (state : ProcState) (m : Mem)
    → state.offset ≡ pos size
    → (proc_sread output (pos n) file (pos size) state m).0 ≡ pos 0
unfolding proc_sread
proc_sread-end output n size file state m at_end =
    rw (proc_sread, at_end, sub-pos size size (omega arith), min-left (size - size) n (omega arith))
      (ap pos (omega arith))

copy_from-copy_from :
    (output n k o : ℕ) (file : ℕ → ℕ) (m : Mem) (a : ℕ)
    → copy_from (output + n) file (o + n) k (copy_from output file o n m) a
      ≡ copy_from output file o (n + k) m a
copy_from-copy_from output n k o file m a = elim (Bool-cases (ltb a (output + n))) [
  | inl below ↦ ground arith
  | inr behind ↦
      let shift : o + n + (a - (output + n)) ≡ o + (a - output) =
        omega (arith, ltb→le a (output + n) behind) in
      let same = ap file shift in rw (behind, same) (ground arith)
]

-- Two reads into adjacent buffers, together of no more than is left of the file, give what one read
-- of both sizes gives: the same memory, and the same offset.
pub proc_sread-proc_sread :
    (output n k size o : ℕ) (file : ℕ → ℕ) (state : ProcState) (m : Mem)
    → state.offset ≡ pos o
    → o + n + k ≤ size
    → let (count, state', m') = proc_sread output (pos n) file (pos size) state m in
      let (count', state'', m'') = proc_sread (output + n) (pos k) file (pos size) state' m' in
      let (whole, state3, m3) = proc_sread output (pos (n + k)) file (pos size) state m in
      (count ≡ pos n)
      × (count' ≡ pos k)
      × (whole ≡ pos (n + k))
      × (state'' ≡ state3)
      × ((a : ℕ) → m'' a ≡ m3 a)
proc_sread-proc_sread output n k size o file state m at_o fits =
    rw
      (
        proc_sread-inside output n size o file state m at_o (omega arith),
        proc_sread-inside (output + n) k size (o + n) file (record state { offset = pos (o + n) })
            (copy_from output file o n m) refl (omega arith),
        proc_sread-inside output (n + k) size o file state m at_o (omega arith),
      )
      (
        refl,
        refl,
        refl,
        ap (λ (x : ℕ). record state { offset = pos x }) (omega arith),
        copy_from-copy_from output n k o file m,
      )
