-- ===== src/Console/Fuel.antt =====
-- console.c, con_sgr_execute: its loop ends within the rounds that it is given.
use native.Mathlib.Nat.{suc-add}
use neos.Base.{
  ℕ, zero, suc, ◌+◌, ◌-◌, ◌≤◌, ◌≡◌, refl, Bool, true, false, none, some, arith, Bool-cases,
  Option-cases, inl, inr, ltb, ◌*◌,
}
use neos.Memory.{Mem}
use neos.Console.{Console, next_int_loop, con_next_int, sgr_loop, skip_char, con_srg_apply, int}

-- A number that is read ends at or behind its first digit.
next_int_loop-moves :
    (n : ℕ) (sequence : Mem) (head acc : ℕ) (first : Bool) (value head' : ℕ)
    → next_int_loop n sequence head acc first ≡ some (some value, head')
    → (head ≤ head' + 1) × (first ≡ true → head ≤ head')
unfolding next_int_loop
next_int_loop-moves zero sequence head acc first value head' h = ground arith
next_int_loop-moves (suc n) sequence head acc first value head' h =
    elim (Option-cases (int (acc * 10 + (sequence head - b'0')))) [
      | inl e ↦ ground (arith, e)
      | inr (v, e) ↦
          ground (arith, e, next_int_loop-moves n sequence (head + 1) v false value head')
    ]

con_next_int-moves :
    (sequence : Mem) (head last value head' : ℕ)
    → con_next_int sequence head last ≡ some (some value, head')
    → head ≤ head'
unfolding con_next_int
con_next_int-moves sequence head last value head' h =
    (next_int_loop-moves (last + 1 - head) sequence head 0 true value head' h).1 refl

-- With a round for each character from the head to the last one, more rounds make no difference.
pub sgr_loop-fuel :
    (f k head last : ℕ) (first : Bool) (c : Console)
    → last ≤ head + f
    → sgr_loop (f + k) head last first c ≡ sgr_loop f head last first c
unfolding sgr_loop
sgr_loop-fuel zero zero head last first c h = refl
sgr_loop-fuel zero (suc k) head last first c h = ground arith
sgr_loop-fuel (suc f) k head last first c h = rw suc-add (elim (Bool-cases (ltb head last)) [
  | inr done ↦ rw done refl
  | inl more ↦ rw more (elim (Option-cases (con_next_int c.sequence head last)) [
    | inl e ↦ rw e refl
    | inr ((none, head'), e) ↦ rw e refl
    | inr ((some arg, head'), e) ↦ rw e (
        sgr_loop-fuel f k (skip_char head' last) last false (con_srg_apply arg c)
          (ground (arith, con_next_int-moves c.sequence head last arg head' e)))
  ])
])
