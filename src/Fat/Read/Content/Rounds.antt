-- ===== src/Fat/Read/Content/Rounds.antt =====
-- fat.c, fat_fread: how the bytes of two parts of a file come together.
use neos.Base.{ℕ, ◌+◌, ◌-◌, ◌≤◌, ◌<◌, ◌≡◌, arith, ltb, leb, ◌&&◌, if◌then◌else◌}
use neos.Fat.Read.Part.{taken}

-- One byte after two rounds.
pub two_rounds :
    (k t0 t1 t2 p size x0 x1 x2 here later both : ℕ)
    → x1 ≡ (if leb t0 k && ltb k t1 then here else x0)
    → x2 ≡ (if leb t1 k && ltb k t2 then later else x1)
    → both ≡ (if ltb p size then here else later)
    → t0 ≤ t1
    → t1 ≤ t2
    → (k < t1 → p < size)
    → (t1 ≤ k → k < t2 → size ≤ p)
    → x2 ≡ (if leb t0 k && ltb k t2 then both else x0)
two_rounds k t0 t1 t2 p size x0 x1 x2 here later both h1 h2 h3 m1 m2 l1 l2 = ground arith

pub taken_mono : (d c r r' : ℕ) → r ≤ r' → taken d c r ≤ taken d c r'
taken_mono d c r r' h = ground arith

pub taken_near : (d c r k size o : ℕ) → r ≤ o + size → 0 < size → k < taken d c r → c + k - o < size
taken_near d c r k size o h pos lt = ground arith

pub taken_far :
    (d c r r' k o size : ℕ) → o + size ≤ r → taken d c r ≤ k → k < taken d c r' → size ≤ c + k - o
taken_far d c r r' k o size h a b = ground arith
