-- ===== src/Math/Clamp.antt =====
-- math.c: clamp, as the two other functions.
use neos.Base.{◌≡◌, arith}
use neos.Base.Int.{ℤ, pos, negsuc, ◌≤ℤ◌}
use neos.Math.{max, min, clamp}

-- Between bounds in order, clamp is the upper bound of the lower one: its result is within the
-- bounds, and it is max with the one of min with the other.
pub clamp-max-min :
    (value low high : ℤ)
    → low ≤ℤ high
    → (low ≤ℤ clamp value low high)
      × (clamp value low high ≤ℤ high)
      × (clamp value low high ≡ max low (min value high))
unfolding clamp max min
clamp-max-min (pos a) (pos b) (pos c) ordered = (ground arith, ground arith, ground arith)
clamp-max-min (pos a) (pos b) (negsuc c) ordered = (ground arith, ground arith, ground arith)
clamp-max-min (pos a) (negsuc b) (pos c) ordered = (ground arith, ground arith, ground arith)
clamp-max-min (pos a) (negsuc b) (negsuc c) ordered = (ground arith, ground arith, ground arith)
clamp-max-min (negsuc a) (pos b) (pos c) ordered = (ground arith, ground arith, ground arith)
clamp-max-min (negsuc a) (pos b) (negsuc c) ordered = (ground arith, ground arith, ground arith)
clamp-max-min (negsuc a) (negsuc b) (pos c) ordered = (ground arith, ground arith, ground arith)
clamp-max-min (negsuc a) (negsuc b) (negsuc c) ordered = (ground arith, ground arith, ground arith)
