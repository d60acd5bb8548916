-- ===== src/Vfs/Path/Bounds.antt =====
-- vfs.c, vfs_resolve: names fit their buffer, and every path comes to its end.
use neos.Base.{
  ℕ, zero, suc, ◌+◌, ◌≤◌, ◌<◌, ◌≡◌, refl, ◌≢◌, none, some, List, [], ◌∷◌, arith, length, inl, inr,
  Option-cases,
}
use neos.Vfs.Path.{
  VPath, slash, char_at, segment_loop, skip_slash, resolve_at, resolve, resolve_all, file_max_name,
}
use neos.Vfs.Path.Segment.{AllPlain}

record Bounded (room : ℕ) (s : List ℕ) (o : ℕ) : Type 0 where
  fits : length (segment_loop room s o).0 ≤ room
  plain : AllPlain (segment_loop room s o).0
  ends : (segment_loop room s o).1 ≡ o + length (segment_loop room s o).0

segment_loop-Bounded : (room : ℕ) (s : List ℕ) (o : ℕ) → Bounded room s o
unfolding segment_loop
segment_loop-Bounded zero s o = ground arith
segment_loop-Bounded (suc room) s o = ground (arith, segment_loop-Bounded room s (o + 1))

-- The loop takes at least the first character of a name.
segment_loop-moves :
    (room : ℕ) (s : List ℕ) (o : ℕ)
    → char_at s o ≢ slash
    → char_at s o ≢ 0
    → o < (segment_loop (suc room) s o).1
unfolding segment_loop
segment_loop-moves room s o p q = ground (arith, segment_loop-Bounded room s (o + 1))

-- A name that `vfs_resolve` writes has no slash or null byte in it, and with its terminator it fits
-- the buffer of `FILE_MAX_NAME` bytes.
pub resolve-name-fits :
    (p : VPath) (name : List ℕ)
    → (resolve p).1 ≡ some name
    → AllPlain name × (length name + 1 ≤ file_max_name)
unfolding resolve resolve_at
resolve-name-fits p name h =
    ground (arith, segment_loop-Bounded 255 p.string (skip_slash p.string p.offset))

inside : (s : List ℕ) (o : ℕ) → char_at s o ≢ 0 → o < length s
inside [] o h = absurd (h refl)
inside (c ∷ s) zero h = omega arith
inside (c ∷ s) (suc o) h = omega (arith, inside s o h)

-- Each name that is read lies inside the string, and moves the offset on.
resolve-moves :
    (p : VPath) (name : List ℕ)
    → (resolve p).1 ≡ some name
    → (p.offset < (resolve p).0.offset)
      × (p.offset < length p.string)
      × ((resolve p).0.string ≡ p.string)
unfolding resolve resolve_at skip_slash
resolve-moves p name h = ground (
  arith,
  segment_loop-Bounded 255 p.string (p.offset + 1),
  segment_loop-moves 254 p.string p.offset,
  inside p.string p.offset,
  inside p.string (p.offset + 1),
)

resolve_all-ends :
    (f : ℕ) (p : VPath) → length p.string ≤ p.offset + f → resolve_all (suc f) p ≢ none
unfolding resolve_all
resolve_all-ends zero p h = elim (Option-cases (resolve p).1) [
  | inl e ↦ ground (arith, e)
  | inr (name, e) ↦ absurd (omega (arith, resolve-moves p name e))
]
resolve_all-ends (suc f) p h = elim (Option-cases (resolve p).1) [
  | inl e ↦ ground (arith, e)
  | inr (name, e) ↦ ground (arith, e, resolve-moves p name e, resolve_all-ends f (resolve p).0)
]

-- On fuel of one more than its length, collecting the names of a path always terminates.
pub resolve_all-ne-none :
    (s : List ℕ)
    → resolve_all (suc (length s)) (record { string = s; offset = 0; resolves = 0; errno = 0 })
      ≢ none
resolve_all-ne-none s = resolve_all-ends (length s) _ (omega arith)
