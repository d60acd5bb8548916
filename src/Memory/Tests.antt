-- ===== src/Memory/Tests.antt =====
-- memory.c: the theorems on a small memory.
use neos.Base.{ℕ, ◌≡◌, refl, arith, ◌==◌, List, [], ◌∷◌, if◌then◌else◌}
use neos.Memory.{Mem, memmove}
use neos.Memory.Copy.{memmove-copied}
use neos.Memory.Text.{HasText}

-- "ab" at 10 and at 20
abbrev memory : Mem
memory a =
    if (a == 10)
    then 97
    else if (a == 11)
    then 98
    else if (a == 20)
    then 97
    else if (a == 21)
    then 98
    else if (a == 12)
    then 0
    else if (a == 22)
    then 0
    else a

text_10 : HasText memory 10 (97 ∷ 98 ∷ [])
text_10 = (refl, omega arith, (refl, omega arith, refl))

text_20 : HasText memory 20 (97 ∷ 98 ∷ [])
text_20 = (refl, omega arith, (refl, omega arith, refl))

abbrev text : List ℕ
text = 97 ∷ 98 ∷ []

-- overlapping upwards by one byte
memmove-copied_example : memmove 11 10 3 memory 12 ≡ 98
memmove-copied_example = memmove-copied 11 10 3 memory 12
