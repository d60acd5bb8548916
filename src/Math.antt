-- ===== src/Math.antt =====
-- math.c
pub mod Clamp
use neos.Base.{ℕ, zero, suc, if◌then◌else◌}
use neos.Base.Int.{ℤ, pos, negsuc, minus, neg_part, ltb_ℤ}

unfoldable pub max : (left right : ℤ) → ℤ
max left right = if ltb_ℤ right left then left else right

unfoldable pub min : (left right : ℤ) → ℤ
min left right = if ltb_ℤ left right then left else right

unfoldable pub clamp : (value low high : ℤ) → ℤ
clamp value low high = if ltb_ℤ value low then low else if ltb_ℤ high value then high else value

pub sgn : ℤ → ℤ
sgn value = if ltb_ℤ value (pos 0) then minus 1 else if ltb_ℤ (pos 0) value then pos 1 else pos 0

-- The negation of the least `int` overflows; it is 2 ^ 31 here.
pub abs : ℤ → ℤ
abs value = if ltb_ℤ value (pos 0) then pos (neg_part value) else value
