-- ===== src/Fat/Names/Short.antt =====
-- fat.c: a name of eight characters and three is found under the short name that it gets.
use neos.Base.{
  ℕ, zero, suc, ◌+◌, ◌≤◌, ◌<◌, ◌≡◌, refl, ◌≢◌, inl, inr, false, List, [], ◌∷◌, ◌++◌, arith,
  Bool-cases, ◌==◌, ◌∙◌, if◌then◌else◌, leb, ap, length, map, lt→leb, ne→==, eq→==, drop, drop-drop,
  drop-append, sym,
}
use mathlib.Core.List.{append-nil}
use neos.Vfs.Path.{slash}
use neos.Fat.Names.{
  low_byte, widen, to_lowercase, to_uppercase, short_part, shortname_to_longname, compare_loop,
  path_compare, copy_upper, dot_loop, take, short_name,
}

-- Characters that a short name can hold: in ASCII, and none of space, dot, slash and null.
abbrev pub Short : ℕ → Type 0
Short c = (c < 128) × (c ≢ 0) × (c ≢ 32) × (c ≢ 46) × (c ≢ 47)

abbrev pub AllShort : List ℕ → Type 0
AllShort [] = Unit {0}
AllShort (c ∷ s) = Short c × AllShort s

-- Copying leaves the characters in front alone.
copy_upper-before :
    (i limit j : ℕ) (s : List ℕ) (name : ℕ → ℕ) → j < i → (copy_upper i limit s name).0 j ≡ name j
unfolding copy_upper
copy_upper-before i limit j [] name low = refl
copy_upper-before i limit j (c ∷ s) name low = elim (Bool-cases (leb limit i)) [
  | inl full ↦ rw (copy_upper, full) refl
  | inr room ↦
      rw (copy_upper, room)
        (copy_upper-before (i + 1) limit j s (λ a. if a == i then to_uppercase c else name a)
            (omega arith)
          ∙ rw (ne→== j i (λ e. absurd (omega (arith, e)))) refl)
]

-- And the characters behind.
copy_upper-behind :
    (i limit j : ℕ) (s : List ℕ) (name : ℕ → ℕ)
    → i + length s ≤ j
    → (copy_upper i limit s name).0 j ≡ name j
unfolding copy_upper
copy_upper-behind i limit j [] name high = refl
copy_upper-behind i limit j (c ∷ s) name high = elim (Bool-cases (leb limit i)) [
  | inl full ↦ rw (copy_upper, full) refl
  | inr room ↦
      rw (copy_upper, room)
        (copy_upper-behind (i + 1) limit j s (λ a. if a == i then to_uppercase c else name a)
            (omega arith)
          ∙ rw (ne→== j i (λ e. absurd (omega (arith, e)))) refl)
]

-- With room for all of them there are no more.
copy_upper-fits :
    (i limit : ℕ) (s : List ℕ) (name : ℕ → ℕ)
    → i + length s ≤ limit
    → (copy_upper i limit s name).1 ≡ false
unfolding copy_upper
copy_upper-fits i limit [] name fits = refl
copy_upper-fits i limit (c ∷ s) name fits =
    rw (copy_upper, lt→leb limit i (omega arith))
      (copy_upper-fits (i + 1) limit s (λ a. if a == i then to_uppercase c else name a)
        (omega arith))

-- What the code does to a character and back.
record Upper (c : ℕ) : Type 0 where
  visible : to_uppercase c ≢ 32
  present : to_uppercase c ≢ 0
  wide : widen (to_uppercase c) ≡ to_uppercase c
  byte : low_byte (to_uppercase c) ≡ to_uppercase c
  same : to_lowercase c ≡ to_lowercase (to_uppercase c)

Short-Upper : (c : ℕ) → Short c → Upper c
Short-Upper c (ascii, present, visible, no_dot, no_slash) = record {
  visible = λ e. absurd (ground (arith, e, visible));
  present = λ e. absurd (ground (arith, e, present));
  wide = ground (arith, ascii);
  byte = ground (arith, ascii);
  same = ground arith;
}

-- The part of the short name that holds a text is read back as the text in capitals.
short_part-copy_upper :
    (n i limit : ℕ) (s : List ℕ) (name : ℕ → ℕ)
    → AllShort s
    → length s ≤ n
    → i + n ≡ limit
    → ((j : ℕ) → i ≤ j → name j ≡ 32)
    → short_part n i (copy_upper i limit s name).0 ≡ map to_uppercase s
unfolding short_part copy_upper
short_part-copy_upper zero i limit [] name short fits end blank = refl
short_part-copy_upper zero i limit (c ∷ s) name short fits end blank = absurd (omega arith)
short_part-copy_upper (suc n) i limit [] name short fits end blank =
    rw (short_part, blank i (omega arith)) refl
short_part-copy_upper (suc n) i limit (c ∷ s) name (here, rest) fits end blank =
    let name' : ℕ → ℕ = λ j. if j == i then to_uppercase c else name j in
    let up = Short-Upper c here in
    let cell : (copy_upper (i + 1) limit s name').0 i ≡ to_uppercase c =
      copy_upper-before (i + 1) limit i s name' (omega arith) ∙ rw (eq→== i i refl) refl in
    let blank' : (j : ℕ) → i + 1 ≤ j → name' j ≡ 32 =
      λ j h. rw (ne→== j i (λ e. absurd (omega (arith, e)))) (blank j (omega arith)) in
    let more =
      short_part-copy_upper n (i + 1) limit s name' rest (omega arith) (omega arith) blank' in
    rw
      (
        short_part,
        copy_upper,
        lt→leb limit i (omega arith),
        cell,
        ne→== (to_uppercase c) 32 up.visible,
        up.wide,
        more,
      )
      refl

-- The comparison without regard to case goes through a text and the same text in capitals.
compare_loop-upper :
    (s r d : List ℕ) (i : ℕ)
    → AllShort s
    → compare_loop false (s ++ r) (map to_uppercase s ++ d) i
      ≡ compare_loop false r d (i + length s)
unfolding compare_loop
compare_loop-upper [] r d i short = ap (λ (x : ℕ). compare_loop false r d x) (omega arith)
compare_loop-upper (c ∷ s) r d i (here, rest) =
    let up = Short-Upper c here in
    let next = compare_loop-upper s r d (i + 1) rest in
    rw
      (
        compare_loop,
        up.byte,
        ne→== (to_uppercase c) 0 up.present,
        ne→== c slash (here.4),
        eq→== (to_lowercase c) (to_lowercase (to_uppercase c)) up.same,
        next,
      )
      (ap (λ (x : ℕ). compare_loop false r d x) (omega arith))

copy_upper-first :
    (i limit c : ℕ) (s : List ℕ) (name : ℕ → ℕ)
    → i < limit
    → (copy_upper i limit (c ∷ s) name).0 i ≡ to_uppercase c
unfolding copy_upper
copy_upper-first i limit c s name room =
    rw (copy_upper, lt→leb limit i room)
      (copy_upper-before (i + 1) limit i s (λ j. if j == i then to_uppercase c else name j)
          (omega arith)
        ∙ rw (eq→== i i refl) refl)

-- What is read depends on the characters read.
short_part-agree :
    (n i : ℕ) (a b : ℕ → ℕ)
    → ((j : ℕ) → i ≤ j → j < i + n → a j ≡ b j)
    → short_part n i a ≡ short_part n i b
unfolding short_part
short_part-agree zero i a b same = refl
short_part-agree (suc n) i a b same =
    rw
      (
        short_part,
        same i (omega arith) (omega arith),
        short_part-agree n (i + 1) a b (λ j h h'. same j (omega arith) (omega arith)),
      )
      refl

dot_loop-plain :
    (s t : List ℕ) (i d : ℕ) → AllShort s → dot_loop (s ++ t) i d ≡ dot_loop t (i + length s) d
unfolding dot_loop
dot_loop-plain [] t i d short = ap (λ (x : ℕ). dot_loop t x d) (omega arith)
dot_loop-plain (c ∷ s) t i d (here, rest) =
    rw (dot_loop, ne→== c 46 here.3, dot_loop-plain s t (i + 1) d rest)
      (ap (λ (x : ℕ). dot_loop t x d) (omega arith))

dot_loop-none : (s : List ℕ) (i d : ℕ) → AllShort s → dot_loop s i d ≡ d
unfolding dot_loop
dot_loop-none [] i d short = refl
dot_loop-none (c ∷ s) i d (here, rest) =
    rw (dot_loop, ne→== c 46 here.3) (dot_loop-none s (i + 1) d rest)

dot_loop-found :
    (base ext : List ℕ) (d : ℕ)
    → AllShort base
    → AllShort ext
    → dot_loop (base ++ (46 ∷ ext)) 0 d ≡ length base
unfolding dot_loop
dot_loop-found base ext d short short' =
    rw (dot_loop-plain base (46 ∷ ext) 0 d short)
      (dot_loop-none ext (0 + length base + 1) (0 + length base) short' ∙ omega arith)

take-append : (s t : List ℕ) → take (length s) (s ++ t) ≡ s
take-append [] t = refl
take-append (c ∷ s) t = ap (λ (x : List ℕ). c ∷ x) (take-append s t)

-- A part of a path ends here: at its end, or in front of a slash.
pub data Ends : List ℕ → Type 0 where
  at_end : Ends []
  at_slash : (r : List ℕ) → Ends (slash ∷ r)

compare_loop-dot :
    (s d : List ℕ) (i : ℕ) → compare_loop false (46 ∷ s) (46 ∷ d) i ≡ compare_loop false s d (i + 1)
unfolding compare_loop
compare_loop-dot s d i = refl

compare_loop-end : (r : List ℕ) (i : ℕ) → Ends r → compare_loop false r [] i ≡ i
unfolding compare_loop
compare_loop-end _ i at_end = refl
compare_loop-end _ i (at_slash r) = refl

-- The short name of a file: its characters, and those of its extension.
short_name-parts :
    (base ext : List ℕ) (e : ℕ)
    → AllShort base
    → AllShort (e ∷ ext)
    → length base ≤ 8
    → length (e ∷ ext) ≤ 3
    → let (short, long) = short_name (base ++ (46 ∷ (e ∷ ext))) in
      (long ≡ false)
      × (shortname_to_longname short ≡ map to_uppercase base ++ (46 ∷ map to_uppercase (e ∷ ext)))
unfolding short_name shortname_to_longname
short_name-parts base ext e short short' fits fits' =
    let blank : ℕ → ℕ = λ i. 32 in
    let n1 = (copy_upper 0 8 base blank).0 in
    let n2 = (copy_upper 8 11 (e ∷ ext) n1).0 in
    let behind : (j : ℕ) → 8 ≤ j → n1 j ≡ 32 =
      λ j h. copy_upper-behind 0 8 j base blank (omega arith) in
    let first : short_part 8 0 n2 ≡ map to_uppercase base =
      short_part-agree 8 0 n2 n1 (λ j h h'. copy_upper-before 8 11 j (e ∷ ext) n1 (omega arith))
      ∙ short_part-copy_upper 8 0 8 base blank short fits refl (λ j h. refl) in
    let second : short_part 3 8 n2 ≡ map to_uppercase (e ∷ ext) =
      short_part-copy_upper 3 8 11 (e ∷ ext) n1 short' fits' refl behind in
    let shown : n2 8 ≡ to_uppercase e = copy_upper-first 8 11 e ext n1 (omega arith) in
    let dot = dot_loop-found base (e ∷ ext) (length (base ++ (46 ∷ (e ∷ ext)))) short short' in
    let ext_is : drop (length base + 1) (base ++ (46 ∷ (e ∷ ext))) ≡ e ∷ ext =
      drop-drop (length base) 1 (base ++ (46 ∷ (e ∷ ext)))
      ∙ ap (drop 1) (drop-append (length base) base (46 ∷ (e ∷ ext)) refl) in
    rw
      (
        short_name,
        dot,
        take-append base (46 ∷ (e ∷ ext)),
        ext_is,
        copy_upper-fits 0 8 base blank (omega arith),
        copy_upper-fits 8 11 (e ∷ ext) n1 (omega arith),
        shown,
        ne→== (to_uppercase e) 32 (Short-Upper e (short'.0)).visible,
        first,
        second,
      )
      (refl, refl)

-- A file that is created under a name of one to eight characters, a dot and one to three more is
-- found under that name: the comparison of the path with the short name goes through the whole of
-- it, whatever the case of its letters, if the part of the path ends there. No long name is made.
pub path_compare-short_name :
    (base ext r : List ℕ) (e : ℕ)
    → AllShort base
    → AllShort (e ∷ ext)
    → length base ≤ 8
    → length (e ∷ ext) ≤ 3
    → Ends r
    → let (short, long) = short_name (base ++ (46 ∷ (e ∷ ext))) in
      (long ≡ false)
      × (path_compare (base ++ (46 ∷ ((e ∷ ext) ++ r))) (shortname_to_longname short) false
          ≡ length base + 1 + length (e ∷ ext))
unfolding path_compare
path_compare-short_name base ext r e short short' fits fits' end =
    let (no_long, longname) = short_name-parts base ext e short short' fits fits' in
    let upper = map to_uppercase (e ∷ ext) in
    let through = compare_loop-upper base (46 ∷ ((e ∷ ext) ++ r)) (46 ∷ upper) 0 short in
    let rest : compare_loop false ((e ∷ ext) ++ r) upper (0 + length base + 1)
        ≡ 0 + length base + 1 + length (e ∷ ext) =
      ap (λ (d : List ℕ). compare_loop false ((e ∷ ext) ++ r) d (0 + length base + 1))
        (sym (append-nil upper))
      ∙ compare_loop-upper (e ∷ ext) r [] (0 + length base + 1) short'
      ∙ compare_loop-end r (0 + length base + 1 + length (e ∷ ext)) end in
    (
      no_long,
      rw longname (
          through ∙ compare_loop-dot ((e ∷ ext) ++ r) upper (0 + length base) ∙ rest ∙ omega arith),
    )
