-- ===== src/Console/Sequences/Numbers.antt =====
-- console.c, con_next_int: numbers of up to nine digits do not overflow.
use neos.Base.{
  ℕ, zero, suc, ◌+◌, ◌-◌, ◌*◌, ◌^◌, ◌≤◌, ◌<◌, ◌≡◌, refl, Bool, true, false, Option, none, some,
  arith, Bool-cases, inl, inr, if◌then◌else◌, leb, ◌&&◌, lt→ltb, leb→le, leb→lt,
}
use mathlib.Core.Path.{subst}
use neos.Memory.{Mem}
use neos.Console.{next_int_loop, con_next_int, int}

abbrev pub digit : ℕ → Bool
digit code = leb b'0' code && leb code b'9'

-- The digits directly in front of an index.
abbrev pub run : Mem → ℕ → ℕ
run sequence zero = 0
run sequence (suc k) = if digit (sequence k) then run sequence k + 1 else 0

-- No number in the first `length` characters has more than nine digits.
abbrev pub IsShort : Mem → ℕ → Type 0
IsShort sequence length = (k : ℕ) → k ≤ length → run sequence k ≤ 9

abbrev pow10 : ℕ → ℕ
pow10 zero = 1
pow10 (suc k) = 10 * pow10 k

abbrev pub Small : Option ℕ → Type 0
Small none = Unit {0}
Small (some v) = v < 1000000000

pow10_bound : (k : ℕ) → k ≤ 9 → pow10 k ≤ 1000000000
pow10_bound zero h = omega arith
pow10_bound (suc zero) h = omega arith
pow10_bound (suc (suc zero)) h = omega arith
pow10_bound (suc (suc (suc zero))) h = omega arith
pow10_bound (suc (suc (suc (suc zero)))) h = omega arith
pow10_bound (suc (suc (suc (suc (suc zero))))) h = omega arith
pow10_bound (suc (suc (suc (suc (suc (suc zero)))))) h = omega arith
pow10_bound (suc (suc (suc (suc (suc (suc (suc zero))))))) h = omega arith
pow10_bound (suc (suc (suc (suc (suc (suc (suc (suc zero)))))))) h = omega arith
pow10_bound (suc (suc (suc (suc (suc (suc (suc (suc (suc zero))))))))) h = omega arith
pow10_bound (suc (suc (suc (suc (suc (suc (suc (suc (suc (suc k)))))))))) h = absurd (omega arith)

next_digit :
    (sequence : Mem) (head acc : ℕ)
    → digit (sequence head) ≡ true
    → acc < pow10 (run sequence head)
    → acc * 10 + (sequence head - 48) < pow10 (run sequence (suc head))
next_digit sequence head acc d h = rw d (next (acc) (sequence head) (run sequence head) d h)
  where
    next : (acc c r : ℕ) → digit c ≡ true → acc < pow10 r → acc * 10 + (c - 48) < pow10 (r + 1)
    next acc c r d h =
        subst (λ (x : ℕ). acc * 10 + (c - 48) < pow10 x) {x = suc r} (omega arith)
          (ground (arith, d, h))

next_index : (k : ℕ) → suc k ≡ k + 1
next_index k = omega arith

-- The number that has been read, if any.
abbrev read : Bool → ℕ → Option ℕ
read first acc = if first then none else some acc

read-Small : (first : Bool) (acc : ℕ) → acc < 1000000000 → Small (read first acc)
read-Small true acc h = tt
read-Small false acc h = h

next_int_loop-Small :
    (n : ℕ) (sequence : Mem) (head acc length : ℕ) (first : Bool)
    → IsShort sequence length
    → head + n ≤ length
    → acc < pow10 (run sequence head)
    → (r : Option ℕ × ℕ) × (next_int_loop n sequence head acc first ≡ some r) × Small r.0
unfolding next_int_loop
next_int_loop-Small zero sequence head acc length first short fits low =
    let bound = pow10_bound (run sequence head) (short head (omega arith)) in
    ((read first acc, head - 1), refl, read-Small first acc (omega (arith, low, bound)))
next_int_loop-Small (suc n) sequence head acc length first short fits low =
    elim (Bool-cases (digit (sequence head))) [
      | inl d ↦
          let value = acc * 10 + (sequence head - 48) in
          let below = next_digit sequence head acc d low in
          let bound = pow10_bound (run sequence (suc head)) (short (suc head) (omega arith)) in
          let fine : int value ≡ some value =
            rw (lt→ltb value (2 ^ 31) (omega (arith, below, bound))) refl in
          let (r, e, small) =
            next_int_loop-Small n sequence (head + 1) value length false short (omega arith)
              (subst (λ (x : ℕ). value < pow10 (run sequence x)) (next_index head) below) in
          (r, rw (d, fine) e, small)
      | inr other ↦
          let bound = pow10_bound (run sequence head) (short head (omega arith)) in
          ((read first acc, head), rw other refl, read-Small first acc (omega (arith, low, bound)))
    ]

pow10_pos : (k : ℕ) → 0 < pow10 k
pow10_pos zero = omega arith
pow10_pos (suc k) = omega (arith, pow10_pos k)

-- Where no number has more than nine digits, con_next_int does not overflow.
pub con_next_int-Small :
    (sequence : Mem) (head last : ℕ)
    → IsShort sequence (last + 1)
    → (r : Option ℕ × ℕ) × (con_next_int sequence head last ≡ some r) × Small r.0
unfolding con_next_int next_int_loop
con_next_int-Small sequence head last short = elim (Bool-cases (leb head (last + 1))) [
  | inl inside ↦
      next_int_loop-Small (last + 1 - head) sequence head 0 (last + 1) true short
        (omega (arith, leb→le head (last + 1) inside)) (pow10_pos (run sequence head))
  | inr behind ↦
      let none_left : last + 1 - head ≡ 0 = omega (arith, leb→lt head (last + 1) behind) in
      rw none_left ((none, head - 1), refl, tt)
]
