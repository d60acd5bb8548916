-- ===== src/Procfs/Digits.antt =====
-- procfs.c: a number that is written is read back.
use neos.Base.{
  ℕ, zero, suc, ◌+◌, ◌*◌, ◌%◌, ◌/◌, ◌^◌, ◌≤◌, ◌<◌, ◌≡◌, refl, inl, inr, some, List, [], ◌∷◌, arith,
  ◌∙◌, ◌==◌, ltb, ◌-◌, ==→eq, ltb→lt, ltb→le, lt→leb, Bool-cases,
}
use native.Mathlib.Omega.{div_any}
use native.Mathlib.Nat.{
  mul_comm, mod-lt, mod-eq_of_lt, div-le_self, mul-le-mul_left, pow-zero, pow-succ',
}
use neos.Procfs.{digit, digits_loop, uint_to_str, digit_value, str_loop, str_to_uint}

div-mod : (n b : ℕ) → (n / b) * b + n % b ≡ n
div-mod n b = rw (mul_comm (n / b) b) (div_any n b)

digit_value-digit : (base d : ℕ) → d < base → base ≤ 36 → digit_value base (digit d) ≡ some d
digit_value-digit base d low small = elim (Bool-cases (ltb d 10)) [
  | inl h ↦ ground arith
  | inr h ↦ ground arith
]

-- The step of the reading loop at a digit that was written.
str_loop-digit :
    (base num : ℕ) (text : List ℕ)
    → 2 ≤ base
    → base ≤ 36
    → num < 2 ^ 32
    → str_loop base (num / base) (digit (num % base) ∷ text) ≡ str_loop base num text
unfolding str_loop
str_loop-digit base num text two small word =
    rw
      (
        str_loop,
        digit_value-digit base (num % base) (mod-lt num (omega arith)) small,
        div-mod num base,
        mod-eq_of_lt word,
      )
      refl

-- A digit more in front of the text makes up for the division.
digits_loop-str_loop :
    (f num base : ℕ) (text : List ℕ)
    → 2 ≤ base
    → base ≤ 36
    → num < 2 ^ 32
    → (digits_loop f num base text).1 ≡ 0
    → str_loop base 0 (digits_loop f num base text).0 ≡ str_loop base num text
unfolding digits_loop
digits_loop-str_loop zero num base text two small word done = rw (← done) refl
digits_loop-str_loop (suc f) num base text two small word done = elim (Bool-cases (num == 0)) [
  | inl is_zero ↦ rw (digits_loop, is_zero, ==→eq num 0 is_zero) refl
  | inr more ↦
      rw (digits_loop, more)
        (digits_loop-str_loop f (num / base) base (digit (num % base) ∷ text) two small
            (omega (arith, div-le_self num base)) (rw (digits_loop, more) at done)
          ∙ str_loop-digit base num text two small word)
]

div-lt : (n b m : ℕ) → 0 < b → n < b * m → n / b < m
div-lt n b m positive low = elim (Bool-cases (ltb (n / b) m)) [
  | inl h ↦ ltb→lt (n / b) m h
  | inr h ↦ absurd (omega (arith, mul-le-mul_left b (ltb→le (n / b) m h), div_any n b))
]

-- The rounds are enough for the number.
digits_loop-done :
    (f num base : ℕ) (text : List ℕ)
    → 2 ≤ base
    → num < base ^ f
    → (digits_loop f num base text).1 ≡ 0
unfolding digits_loop
digits_loop-done zero num base text two low = omega (arith, pow-zero base)
digits_loop-done (suc f) num base text two low = elim (Bool-cases (num == 0)) [
  | inl is_zero ↦ rw (digits_loop, is_zero) (==→eq num 0 is_zero)
  | inr more ↦
      rw (digits_loop, more)
        (digits_loop-done f (num / base) base (digit (num % base) ∷ text) two
          (div-lt num base (base ^ f) (omega arith) (rw (pow-succ' base f) at low)))
]

-- A number that a buffer has room for is read back from what uint_to_str writes into it, in every
-- base from 2 to 36.
pub str_to_uint-uint_to_str :
    (num size base : ℕ)
    → 2 ≤ base
    → base ≤ 36
    → num < 2 ^ 32
    → num < base ^ (size - 1)
    → str_to_uint (uint_to_str num size base) base ≡ num
unfolding str_to_uint uint_to_str str_loop
str_to_uint-uint_to_str num size base two small word room = elim (Bool-cases (num == 0)) [
  | inl is_zero ↦
      let none_left = ==→eq num 0 is_zero in
      rw (uint_to_str, is_zero, str_loop, lt→leb base 0 (omega arith)) (omega (arith, none_left))
  | inr more ↦
      let done = digits_loop-done (size - 1) num base [] two room in
      rw (uint_to_str, more, done) (digits_loop-str_loop (size - 1) num base [] two small word done)
]
