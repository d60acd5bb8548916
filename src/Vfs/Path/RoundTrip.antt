-- ===== src/Vfs/Path/RoundTrip.antt =====
-- vfs.c, vfs_resolve: a path made of names is taken apart into those names.
use neos.Base.{
  ℕ, zero, suc, ◌+◌, ◌<◌, ◌≡◌, refl, ◌≢◌, none, some, List, [], ◌∷◌, ◌++◌, arith, length, drop,
  drop-cons, drop-nil, drop-append, drop-drop, ◌∙◌, ne→==, inl, inr, ◌⊎◌,
}
use neos.Vfs.Path.{VPath, slash, linux_enametoolong, skip_slash, resolve_at, resolve, resolve_all}
use neos.Vfs.Path.Segment.{AllPlain, IsEnd, at_end, at_slash, segment_loop-name, segment_loop-long}

-- A name that `vfs_resolve` can hand out whole.
pub record IsName (name : List ℕ) : Type 0 where
  pub plain : AllPlain name
  pub filled : name ≢ []
  pub short : length name < 255

abbrev pub AllNames : List (List ℕ) → Type 0
AllNames [] = Unit {0}
AllNames (n ∷ ns) = IsName n × AllNames ns

-- Each name behind a slash.
abbrev pub join : List (List ℕ) → List ℕ
join [] = []
join (n ∷ ns) = slash ∷ (n ++ join ns)

join-IsEnd : (ns : List (List ℕ)) → IsEnd (join ns)
join-IsEnd [] = at_end
join-IsEnd (n ∷ ns) = at_slash

-- the path record behind a name of length `n`, with or without the slash in front
abbrev pub behind : VPath → ℕ → VPath
behind p o = record p { offset = o; resolves = p.resolves + 1 }

resolve_at-name :
    (p : VPath) (o c : ℕ) (name r : List ℕ)
    → drop o p.string ≡ c ∷ (name ++ r)
    → AllPlain (c ∷ name)
    → length (c ∷ name) < 255
    → IsEnd r
    → resolve_at p o ≡ (behind p (o + length (c ∷ name)), some (c ∷ name))
unfolding resolve_at
resolve_at-name p o c name r e (q, plain) short end = rw (
  (drop-cons 0 p.string o e).0,
  ne→== c 0 q.1,
  segment_loop-name 255 p.string o (c ∷ name) r e (q, plain) end short,
)

-- A name behind a slash.
resolve-slash :
    (p : VPath) (c : ℕ) (name r : List ℕ)
    → drop p.offset p.string ≡ slash ∷ (c ∷ (name ++ r))
    → AllPlain (c ∷ name)
    → length (c ∷ name) < 255
    → IsEnd r
    → resolve p ≡ (behind p (p.offset + 1 + length (c ∷ name)), some (c ∷ name))
unfolding resolve skip_slash
resolve-slash p c name r e plain short end =
    let e₁ = drop-cons 0 p.string p.offset e in
    rw (e₁.0) (resolve_at-name p (p.offset + 1) c name r e₁.1 plain short end)

-- A name with no slash in front, as at the start of a relative path.
resolve-plain :
    (p : VPath) (c : ℕ) (name r : List ℕ)
    → drop p.offset p.string ≡ c ∷ (name ++ r)
    → AllPlain (c ∷ name)
    → length (c ∷ name) < 255
    → IsEnd r
    → resolve p ≡ (behind p (p.offset + length (c ∷ name)), some (c ∷ name))
unfolding resolve skip_slash
resolve-plain p c name r e plain short end =
    rw ((drop-cons 0 p.string p.offset e).0, ne→== c slash plain.0.0)
      (resolve_at-name p p.offset c name r e plain short end)

resolve-end : (p : VPath) → drop p.offset p.string ≡ [] → resolve p ≡ (p, none)
unfolding resolve skip_slash resolve_at
resolve-end p e = ground (arith, drop-nil 0 p.string p.offset e)

-- what collecting the names has come to
record Resolved (f : ℕ) (p : VPath) (names : List (List ℕ)) : Type 0 where
  end : VPath
  result : resolve_all f p ≡ some (names, end)
  counted : end.resolves ≡ p.resolves + length names

Resolved-cons :
    {f : ℕ} {p : VPath} {name : List ℕ} {names : List (List ℕ)} (o : ℕ)
    → resolve p ≡ (behind p o, some name)
    → p.errno ≡ 0
    → Resolved f (behind p o) names
    → Resolved (suc f) p (name ∷ names)
unfolding resolve_all
Resolved-cons o e clean rest = record {
  end = rest.end;
  result = ground (arith, e, clean, rest.result);
  counted = omega (arith, rest.counted);
}

-- What is left behind the name that was read.
rest_of :
    (s : List ℕ) (o c : ℕ) (name r : List ℕ)
    → drop o s ≡ c ∷ (name ++ r)
    → drop (o + length (c ∷ name)) s ≡ r
rest_of s o c name r e =
    drop-drop o (length (c ∷ name)) s ∙ rw e (drop-append (length name) name r refl)

resolve_all-names :
    (f : ℕ) (p : VPath) (names : List (List ℕ))
    → drop p.offset p.string ≡ join names
    → AllNames names
    → p.errno ≡ 0
    → length names < f
    → Resolved f p names
unfolding resolve_all
resolve_all-names zero p names e ok clean fuel = absurd (omega arith)
resolve_all-names (suc f) p [] e ok clean fuel = record {
  end = p;
  result = ground (arith, resolve-end p e);
  counted = omega arith;
}
resolve_all-names (suc f) p ([] ∷ names) e (bad, ok) clean fuel = absurd (bad.filled refl)
resolve_all-names (suc f) p ((c ∷ name) ∷ names) e (good, ok) clean fuel =
    let o = p.offset + 1 + length (c ∷ name) in
    let left =
      rest_of p.string (p.offset + 1) c name (join names) ((drop-cons 0 p.string p.offset e).1) in
    Resolved-cons o (resolve-slash p c name (join names) e good.plain good.short (join-IsEnd names))
      clean (resolve_all-names f (behind p o) names left ok clean (omega arith))

-- where `vfs_open` and `vfs_mount` start
abbrev pub whole : List ℕ → VPath
whole s = record { string = s; offset = 0; resolves = 0; errno = 0 }

-- Resolving a path that is made of names, each behind a slash, returns exactly those names in
-- order, and counts them: every name is non-empty, has no slash or null byte, and at most 254
-- bytes.
pub resolve_all-join :
    (f : ℕ) (names : List (List ℕ))
    → AllNames names
    → length names < f
    → (end : VPath) × (resolve_all f (whole (join names)) ≡ some (names, end))
      × (end.resolves ≡ length names)
resolve_all-join f names ok fuel =
    let r = resolve_all-names f (whole (join names)) names refl ok refl fuel in
    (r.end, r.result, omega (arith, r.counted))

resolve_at-long :
    (p : VPath) (o c : ℕ) (name r : List ℕ)
    → drop o p.string ≡ c ∷ (name ++ r)
    → AllPlain (c ∷ name)
    → length (c ∷ name) ≡ 255
    → resolve_at p o
      ≡ (record (behind p (o + length (c ∷ name))) { errno = linux_enametoolong }, some (c ∷ name))
unfolding resolve_at
resolve_at-long p o c name r e (q, plain) full = rw (
  (drop-cons 0 p.string o e).0,
  ne→== c 0 q.1,
  segment_loop-long 255 p.string o (c ∷ name) r e (q, plain) full,
)

-- A section of 255 or more plain bytes, with or without a slash in front, is cut after 255 of them
-- and marked as too long: also one of exactly 255, which the name buffer of 256 bytes would hold.
pub resolve_too_long :
    (p : VPath) (c : ℕ) (name r : List ℕ)
    → AllPlain (c ∷ name)
    → length (c ∷ name) ≡ 255
    → (drop p.offset p.string ≡ c ∷ (name ++ r))
      ⊎ (drop p.offset p.string ≡ slash ∷ (c ∷ (name ++ r)))
    → ((resolve p).1 ≡ some (c ∷ name)) × ((resolve p).0.errno ≡ linux_enametoolong)
unfolding resolve skip_slash
resolve_too_long p c name r plain full (inl e) =
    rw
      (
        (drop-cons 0 p.string p.offset e).0,
        ne→== c slash plain.0.0,
        resolve_at-long p p.offset c name r e plain full,
      )
      (refl, refl)
resolve_too_long p c name r plain full (inr e) =
    let e₁ = drop-cons 0 p.string p.offset e in
    rw (e₁.0, resolve_at-long p (p.offset + 1) c name r e₁.1 plain full) (refl, refl)
