-- ===== src/Vfs/Path/Segment.antt =====
-- vfs.c, the inner loop of vfs_resolve against the bytes that are left of the path.
use neos.Base.{
  ℕ, zero, suc, ◌+◌, ◌<◌, ◌≡◌, ◌≢◌, true, false, List, [], ◌∷◌, ◌++◌, arith, length, drop,
  drop-cons, drop-nil, ap, ◌∙◌, ne→==,
}
use neos.Vfs.Path.{slash, segment_loop}

-- A byte that may stand in a name.
abbrev pub Plain : ℕ → Type 0
Plain c = (c ≢ slash) × (c ≢ 0)

-- No byte of the list is a slash or null.
abbrev pub AllPlain : List ℕ → Type 0
AllPlain [] = Unit {0}
AllPlain (c ∷ s) = Plain c × AllPlain s

-- A section of a path ends here: at its end, or in front of a slash.
pub data IsEnd : List ℕ → Type 0 where
  at_end : IsEnd []
  at_slash : {r : List ℕ} → IsEnd (slash ∷ r)

-- `drop o s` is what is left of the path at offset `o`.
segment_loop-end :
    (room : ℕ) (s : List ℕ) (o : ℕ) (r : List ℕ)
    → drop o s ≡ r
    → IsEnd r
    → segment_loop (suc room) s o ≡ ([], o, false)
unfolding segment_loop
segment_loop-end room s o r e at_end = rw (drop-nil 0 s o e)
segment_loop-end room s o r e at_slash = rw ((drop-cons 0 s o e).0)

segment_loop-cons :
    (room : ℕ) (s : List ℕ) (o c : ℕ) (r : List ℕ)
    → drop o s ≡ c ∷ r
    → Plain c
    → segment_loop (suc room) s o
      ≡ (let (name, end, long) = segment_loop room s (o + 1) in (c ∷ name, end, long))
unfolding segment_loop
segment_loop-cons room s o c r e (p, q) = rw ((drop-cons 0 s o e).0, ne→== c slash p, ne→== c 0 q)

-- The loop reads a name that fits, up to the end of the section.
pub segment_loop-name :
    (room : ℕ) (s : List ℕ) (o : ℕ) (name r : List ℕ)
    → drop o s ≡ name ++ r
    → AllPlain name
    → IsEnd r
    → length name < room
    → segment_loop room s o ≡ (name, o + length name, false)
segment_loop-name zero s o name r e plain end fits = absurd (omega arith)
segment_loop-name (suc room) s o [] r e plain end fits =
    segment_loop-end room s o r e end ∙ ap (λ (n : ℕ). ([], n, false)) (omega arith)
segment_loop-name (suc room) s o (c ∷ name) r e (p, plain) end fits =
    segment_loop-cons room s o c (name ++ r) e p
    ∙ rw (segment_loop-name room s (o + 1) name r ((drop-cons 0 s o e).1) plain end (omega arith))
        (ap (λ (n : ℕ). (c ∷ name, n, false)) (omega arith))

-- With no room left the loop takes the characters that fitted, and reports the overflow.
pub segment_loop-long :
    (room : ℕ) (s : List ℕ) (o : ℕ) (name r : List ℕ)
    → drop o s ≡ name ++ r
    → AllPlain name
    → length name ≡ room
    → segment_loop room s o ≡ (name, o + length name, true)
unfolding segment_loop
segment_loop-long zero s o [] r e plain full = ap (λ (n : ℕ). ([], n, true)) (omega arith)
segment_loop-long zero s o (c ∷ name) r e plain full = absurd (omega arith)
segment_loop-long (suc room) s o [] r e plain full = absurd (omega arith)
segment_loop-long (suc room) s o (c ∷ name) r e (p, plain) full =
    segment_loop-cons room s o c (name ++ r) e p
    ∙ rw (segment_loop-long room s (o + 1) name r ((drop-cons 0 s o e).1) plain (omega arith))
        (ap (λ (n : ℕ). (c ∷ name, n, true)) (omega arith))
