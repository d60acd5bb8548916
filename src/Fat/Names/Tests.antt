-- ===== src/Fat/Names/Tests.antt =====
-- fat.c: the theorems on the names "ab.txt" and "abcdefghijklmnop".
use neos.Base.{ℕ, ◌+◌, ◌<◌, ◌≡◌, false, [], ◌∷◌, arith}
use neos.Fat.Names.{short_name, path_compare, shortname_to_longname}
use neos.Fat.Names.Short.{Short, at_end, path_compare-short_name}
use neos.Fat.Names.Long.{read_lfn, read_lfn-lfn_entry}

letter : (c : ℕ) → 96 < c → c < 123 → Short c
letter c low high = (omega arith, omega arith, omega arith, omega arith, omega arith)

path_compare-short_name_example :
    ((short_name (97 ∷ 98 ∷ 46 ∷ 116 ∷ 120 ∷ 116 ∷ [])).1 ≡ false)
    × (path_compare
          (97 ∷ 98 ∷ 46 ∷ 116 ∷ 120 ∷ 116 ∷ [])
          (shortname_to_longname (short_name (97 ∷ 98 ∷ 46 ∷ 116 ∷ 120 ∷ 116 ∷ [])).0)
          false
        ≡ 6)
path_compare-short_name_example =
    path_compare-short_name (97 ∷ 98 ∷ []) (120 ∷ 116 ∷ []) [] 116
      (letter 97 (omega arith) (omega arith), (letter 98 (omega arith) (omega arith), tt))
      (
        letter 116 (omega arith) (omega arith),
        (letter 120 (omega arith) (omega arith), (letter 116 (omega arith) (omega arith), tt)),
      )
      (omega arith) (omega arith) at_end

abbrev alphabet : ℕ → ℕ
alphabet i = 97 + i

-- a name of two entries
read_lfn-lfn_entry_example : read_lfn alphabet 2 0 2 (λ i. 9) 15 ≡ 112
read_lfn-lfn_entry_example =
    read_lfn-lfn_entry alphabet (λ i. 9) 2 0 15 (omega arith) (omega arith) (omega arith)
