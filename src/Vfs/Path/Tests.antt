-- ===== src/Vfs/Path/Tests.antt =====
-- vfs.c, vfs_resolve: the theorems on short paths.
use neos.Base.{ℕ, zero, suc, ◌≡◌, arith, some, List, [], ◌∷◌, replicate}
use neos.Vfs.Path.{VPath, resolve_all}
use neos.Vfs.Path.Segment.{AllPlain}
use neos.Vfs.Path.RoundTrip.{AllNames, join, whole, resolve_all-join}

-- "bin" and "sh"
abbrev names : List (List ℕ)
names = (98 ∷ 105 ∷ 110 ∷ []) ∷ (115 ∷ 104 ∷ []) ∷ []

names-AllNames : AllNames names
names-AllNames = (
  record {
    plain = (
      (omega arith, omega arith),
      ((omega arith, omega arith), ((omega arith, omega arith), tt)),
    );
    filled = λ h. cc;
    short = omega arith;
  },
  (
    record {
      plain = ((omega arith, omega arith), ((omega arith, omega arith), tt));
      filled = λ h. cc;
      short = omega arith;
    },
    tt,
  ),
)

resolve_all-join_example :
    (end : VPath) × (resolve_all 3 (whole (join names)) ≡ some (names, end)) × (end.resolves ≡ 2)
resolve_all-join_example = resolve_all-join 3 names names-AllNames (omega arith)

all_plain : (n : ℕ) → AllPlain (replicate n 97)
all_plain zero = tt
all_plain (suc n) = ((omega arith, omega arith), all_plain n)
