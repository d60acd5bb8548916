-- ===== src/Console/Sequences/Total.antt =====
-- console.c: with numbers of up to nine digits a control sequence is carried out without overflow,
-- and the size of the screen is kept.
use neos.Base.{
  ℕ, zero, suc, ◌+◌, ◌-◌, ◌^◌, ◌≤◌, ◌<◌, ◌≡◌, refl, Bool, true, false, Option, none, some, arith,
  Bool-cases, inl, inr, if◌then◌else◌, ltb, ◌||◌, ◌==◌, sym, lt→ltb,
}
use mathlib.Core.Path.{subst}
use neos.Memory.{Mem}
use neos.Console.{
  Console, con_cursor, con_erase, con_next_int, con_srg_apply, set_colors, sgr_loop, skip_char, int,
  or_else, scroll_up, scroll_down,
}
use neos.Console.OnScreen.{IsOnScreen}
use neos.Console.Sequences.{
  argument, cursor_position, erase_display, erase_line, csi_cursor, csi_other, con_csi_execute,
  con_execute, min, ◌>>=◌,
}
use neos.Console.Sequences.Numbers.{IsShort, Small, con_next_int-Small}

-- The size of the screen, of which a coordinate and a number of nine digits add up below 2 ^ 31.
pub record IsSized (w h : ℕ) (c : Console) : Type 0 where
  pub width : c.width ≡ w
  pub height : c.height ≡ h

abbrev pub Yields : {A : Type 0} → (A → Type 0) → Option A → Type 0
Yields {A = A} P o = (a : A) × (o ≡ some a) × P a

module _ {A : Type 0} {P : A → Type 0} where
  pub if-Yields :
      {x y : Option A} (b : Bool) → Yields P x → Yields P y → Yields P (if b then x else y)
  if-Yields true p q = p
  if-Yields false p q = q

  pub bind-Yields :
      {B : Type 0} {Q : B → Type 0} (o : Option B) (f : B → Option A)
      → Yields Q o
      → ((b : B) → Q b → Yields P (f b))
      → Yields P (o >>= f)
  bind-Yields o f (b, e, q) next = rw e (next b q)

last_index : (n : ℕ) → 1 ≤ n → n ≡ n - 1 + 1
last_index n h = omega arith

module _ (w h : ℕ) where
  pub con_cursor-IsSized : (x y : ℕ) (c : Console) → IsSized w h c → IsSized w h (con_cursor x y c)
  unfolding con_cursor
  con_cursor-IsSized x y c s = record {
    width = ground (arith, s.width);
    height = ground (arith, s.height);
  }

  pub con_erase-IsSized :
      (x1 y1 x2 y2 : ℕ) (c : Console) → IsSized w h c → IsSized w h (con_erase x1 y1 x2 y2 c)
  unfolding con_erase
  con_erase-IsSized x1 y1 x2 y2 c s = record { width = s.width; height = s.height }

  pub if-IsSized :
      (b : Bool) (c d : Console) → IsSized w h c → IsSized w h d → IsSized w h (if b then c else d)
  if-IsSized true c d p q = p
  if-IsSized false c d p q = q

  pub scroll_up-IsSized : (n : ℕ) (c : Console) → IsSized w h c → IsSized w h (scroll_up n c)
  unfolding scroll_up
  scroll_up-IsSized n c s = elim (Bool-cases (n == 0)) [
    | inl nothing ↦ rw (scroll_up, nothing) s
    | inr lines ↦
        rw (scroll_up, lines)
          (con_cursor-IsSized _ _ _
            (con_erase-IsSized _ _ _ _ _ (record { width = s.width; height = s.height })))
  ]

  scroll_down-IsSized : (n : ℕ) (c : Console) → IsSized w h c → IsSized w h (scroll_down n c)
  unfolding scroll_down
  scroll_down-IsSized n c s = elim (Bool-cases (n == 0)) [
    | inl nothing ↦ rw (scroll_down, nothing) s
    | inr lines ↦
        rw (scroll_down, lines)
          (con_cursor-IsSized _ _ _
            (con_erase-IsSized _ _ _ _ _ (record { width = s.width; height = s.height })))
  ]

  erase_display-IsSized : (n : ℕ) (c : Console) → IsSized w h c → IsSized w h (erase_display n c)
  unfolding erase_display
  erase_display-IsSized n c s = if-IsSized (n == 0) _ _ (con_erase-IsSized _ _ _ _ c s) (
      if-IsSized (n == 1) _ _ (con_erase-IsSized _ _ _ _ c s)
        (if-IsSized ((n == 2) || (n == 3)) _ _ (con_erase-IsSized _ _ _ _ c s) s))

  erase_line-IsSized : (n : ℕ) (c : Console) → IsSized w h c → IsSized w h (erase_line n c)
  unfolding erase_line
  erase_line-IsSized n c s = if-IsSized (n == 0) _ _ (con_erase-IsSized _ _ _ _ c s) (
      if-IsSized (n == 1) _ _ (con_erase-IsSized _ _ _ _ c s)
        (if-IsSized ((n == 2) || (n == 3)) _ _ (con_erase-IsSized _ _ _ _ c s) s))

  -- Colours change neither the size nor the sequence.
  con_srg_apply-IsSized :
      (code : ℕ) (c : Console) → IsSized w h c → IsSized w h (con_srg_apply code c)
  unfolding con_srg_apply set_colors
  con_srg_apply-IsSized code c s = record {
    width = ground (arith, s.width);
    height = ground (arith, s.height);
  }

  con_srg_apply-sequence : (code : ℕ) (c : Console) → (con_srg_apply code c).sequence ≡ c.sequence
  unfolding con_srg_apply set_colors
  con_srg_apply-sequence code c = ground arith

  or_else-Small :
      (r : Option ℕ) (fallback : ℕ) → fallback ≤ 1 → Small r → or_else r fallback < 1000000000
  or_else-Small none fallback h s = omega arith
  or_else-Small (some v) fallback h s = s

  argument-Yields :
      (sequence : Mem) (last fallback : ℕ)
      → IsShort sequence (last + 1)
      → fallback ≤ 1
      → Yields (λ v. v < 1000000000) (argument sequence last fallback)
  unfolding argument
  argument-Yields sequence last fallback short h =
      let (r, e, small) = con_next_int-Small sequence 1 last short in
      (or_else r.0 fallback, rw e refl, or_else-Small r.0 fallback h small)

  int-Yields : (n : ℕ) → n < 2 ^ 31 → Yields (λ (v : ℕ). Unit {0}) (int n)
  int-Yields n h = (n, rw (lt→ltb n (2 ^ 31) h) refl, tt)

  cursor_position-Yields :
      (last : ℕ) (c : Console)
      → IsShort c.sequence (last + 1)
      → IsSized w h c
      → Yields (IsSized w h) (cursor_position last c)
  unfolding cursor_position
  cursor_position-Yields last c short s =
      let (r, e, small) = con_next_int-Small c.sequence 1 last short in
      let (r', e', small') = con_next_int-Small c.sequence (skip_char r.1 last) last short in
      let (x, y) : ℕ × ℕ =
        (min (or_else r.0 1 - 1) (c.width - 1), min (or_else r'.0 1 - 1) (c.height - 1)) in
      (con_cursor x y c, rw (e, e') refl, con_cursor-IsSized x y c s)

  abbrev Moved : Option Console → Type 0
  Moved none = Unit {0}
  Moved (some c) = IsSized w h c

  csi_cursor-Yields :
      (code last : ℕ) (c : Console)
      → IsShort c.sequence (last + 1)
      → IsSized w h c
      → IsOnScreen c
      → w ≤ 2 ^ 30
      → h ≤ 2 ^ 30
      → Yields Moved (csi_cursor code last c)
  unfolding csi_cursor
  csi_cursor-Yields code last c short s v a b =
      let down : (arg : ℕ) → arg < 1000000000 → c.y + arg < 2 ^ 31 =
        λ arg i. omega (arith, v.y, s.height) in
      let right : (arg : ℕ) → arg < 1000000000 → c.x + arg < 2 ^ 31 =
        λ arg i. omega (arith, v.x, s.width) in
      let arg = argument-Yields c.sequence last 1 short (omega arith) in
      if-Yields (code == b'A') (bind-Yields _ _ arg λ n i. (_, refl, con_cursor-IsSized _ _ c s)) (
        if-Yields (code == b'B')
          (bind-Yields _ _ arg λ n i.
            bind-Yields _ _ (int-Yields (c.y + n) (down n i))
              λ m j. (_, refl, con_cursor-IsSized _ _ c s))
          (if-Yields (code == b'C')
            (bind-Yields _ _ arg λ n i.
              bind-Yields _ _ (int-Yields (c.x + n) (right n i))
                λ m j. (_, refl, con_cursor-IsSized _ _ c s))
            (if-Yields (code == b'D')
              (bind-Yields _ _ arg λ n i. (_, refl, con_cursor-IsSized _ _ c s))
              (if-Yields (code == b'E')
                (bind-Yields _ _ arg λ n i.
                  bind-Yields _ _ (int-Yields (c.y + n) (down n i))
                    λ m j. (_, refl, con_cursor-IsSized _ _ c s))
                (if-Yields ((code == b'H') || (code == b'f'))
                  (bind-Yields _ _ (cursor_position-Yields last c short s) λ c' s'. (_, refl, s'))
                  (none, refl, tt))))))

  sgr_round :
      (f head last : ℕ) (first : Bool) (c : Console) (r : Option ℕ × ℕ)
      → ltb head last ≡ true
      → con_next_int c.sequence head last ≡ some r
      → IsSized w h (if first then con_srg_apply 0 c else c)
      → ((arg head' : ℕ)
          → Yields
              (IsSized w h)
              (sgr_loop f (skip_char head' last) last false (con_srg_apply arg c)))
      → Yields (IsSized w h) (sgr_loop (suc f) head last first c)
  unfolding sgr_loop
  sgr_round f head last first c (none, head') more e done rest =
      (if first then con_srg_apply 0 c else c, rw (more, e) refl, done)
  sgr_round f head last first c (some arg, head') more e done rest =
      let (c', e', s') = rest arg head' in (c', rw (more, e) e', s')

  sgr_loop-Yields :
      (f head last : ℕ) (first : Bool) (c : Console)
      → IsShort c.sequence (last + 1)
      → IsSized w h c
      → Yields (IsSized w h) (sgr_loop f head last first c)
  unfolding sgr_loop
  sgr_loop-Yields zero head last first c short s =
      (_, refl, if-IsSized first _ c (con_srg_apply-IsSized 0 c s) s)
  sgr_loop-Yields (suc f) head last first c short s =
      let done = if-IsSized first _ c (con_srg_apply-IsSized 0 c s) s in
      elim (Bool-cases (ltb head last)) [
        | inr over ↦ (if first then con_srg_apply 0 c else c, rw over refl, done)
        | inl more ↦
            let (r, e, small) = con_next_int-Small c.sequence head last short in
            sgr_round f head last first c r more e done λ arg head'.
              sgr_loop-Yields f (skip_char head' last) last false (con_srg_apply arg c)
                (subst (λ m. IsShort m (last + 1)) (sym (con_srg_apply-sequence arg c)) short)
                (con_srg_apply-IsSized arg c s)
      ]

  csi_other-Yields :
      (code last : ℕ) (c : Console)
      → IsShort c.sequence (last + 1)
      → IsSized w h c
      → Yields (IsSized w h) (csi_other code last c)
  unfolding csi_other
  csi_other-Yields code last c short s =
      let arg = argument-Yields c.sequence last 0 short (omega arith) in
      let arg1 = argument-Yields c.sequence last 1 short (omega arith) in
      if-Yields (code == b'J') (bind-Yields _ _ arg λ n i. (_, refl, erase_display-IsSized n c s)) (
        if-Yields (code == b'K') (bind-Yields _ _ arg λ n i. (_, refl, erase_line-IsSized n c s)) (
          if-Yields (code == b'S') (bind-Yields _ _ arg1 λ n i. (_, refl, scroll_up-IsSized n c s))
            (if-Yields (code == b'T')
              (bind-Yields _ _ arg1 λ n i. (_, refl, scroll_down-IsSized n c s))
              (if-Yields (code == b's') (_, refl, record { width = s.width; height = s.height })
                (if-Yields (code == b'u') (_, refl, con_cursor-IsSized c.sx c.sy c s)
                  (if-Yields (code == b'm') (sgr_loop-Yields last 1 last true c short s)
                    (_, refl, s)))))))

  other_sequence :
      (code last : ℕ) (c : Console)
      → Yields (IsSized w h) (csi_other code last c)
      → (moved : Option Console) → Moved moved
      → Yields (IsSized w h) (elim moved [ some c' ↦ some c' | none ↦ csi_other code last c ])
  other_sequence code last c rest none q = rest
  other_sequence code last c rest (some c') q = (c', refl, q)

  -- A control sequence without a number of more than nine digits is carried out.
  pub con_execute-Yields :
      (c : Console)
      → 1 ≤ c.length
      → IsShort c.sequence c.length
      → IsSized w h c
      → IsOnScreen c
      → w ≤ 2 ^ 30
      → h ≤ 2 ^ 30
      → Yields (IsSized w h) (con_execute c)
  unfolding con_execute con_csi_execute
  con_execute-Yields c some_chars short s v a b =
      let last = c.length - 1 in
      let short' : IsShort c.sequence (last + 1) =
        subst (IsShort c.sequence) (last_index c.length some_chars) short in
      if-Yields (c.sequence 0 == b'[')
        (bind-Yields _ _ (csi_cursor-Yields (c.sequence last) last c short' s v a b) (
          other_sequence (c.sequence last) last c
            (csi_other-Yields (c.sequence last) last c short' s)))
        (c, refl, s)
