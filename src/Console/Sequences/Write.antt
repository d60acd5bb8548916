-- ===== src/Console/Sequences/Write.antt =====
-- console.c, con_write: a character at a time through the lexers.
use neos.Base.{
  ℕ, zero, suc, ◌+◌, ◌-◌, ◌*◌, ◌≤◌, ◌<◌, ◌≡◌, refl, Bool, true, false, Option, none, some, arith,
  Bool-cases, Option-cases, inl, inr, if◌then◌else◌, ◌==◌, ltb, leb, not, ◌&&◌, ◌||◌, ◌∙◌, ◌⊎◌,
  List, [], ◌∷◌,
}
pub mod Runs
mod Tests
use mathlib.Core.Path.{subst}
use neos.Console.{
  Console, Lexer, initial, escape, csi, until_st, con_cursor, con_next_tab_stop, con_erase,
  max_ansi_sequence, within, scroll_up,
}
use neos.Console.OnScreen.{IsOnScreen, con_cursor-IsOnScreen, con_erase-IsOnScreen}
use neos.Console.Sequences.{
  con_execute, start_sequence, append_char, scroll_below, adjust, put_glyph, lexer_initial,
  lexer_escape, finish_sequence, lexer_csi, lexer_until_st, write_by, con_write, con_init, ◌>>=◌,
}
use neos.Console.Sequences.OnScreen.{
  IsValid, Room, scroll_below-IsOnScreen, adjust-IsOnScreen, con_execute-IsOnScreen,
  start_sequence-IsOnScreen,
}

Room-low : (l : Lexer) (n : ℕ) → n < max_ansi_sequence → Room l n
Room-low initial n h = tt
Room-low escape n h = tt
Room-low csi n h = h
Room-low until_st n h = h

-- back in the initial lexer
rest : (c : Console) → IsOnScreen c → IsValid (record c { lexer = initial })
rest c v = record { screen = record { x = v.x; y = v.y; sx = v.sx; sy = v.sy }; room = tt }

finish_sequence-IsValid :
    (final : Bool) (c c' : Console) → IsOnScreen c → finish_sequence final c ≡ some c' → IsValid c'
unfolding finish_sequence
finish_sequence-IsValid true c c' v h = elim (Option-cases (con_execute c)) [
  | inl e ↦ let bad : none ≡ some c' = rw e at h in cc
  | inr (d, e) ↦
      let same : record d { lexer = initial } ≡ c' = ground (arith, e, h) in
      subst IsValid same (rest d (con_execute-IsOnScreen c d v e))
]
finish_sequence-IsValid false c c' v h = elim (Bool-cases (leb max_ansi_sequence c.length)) [
  | inl full ↦
      let same : record c { lexer = initial } ≡ c' = ground (arith, full, h) in
      subst IsValid same (rest c v)
  | inr room ↦
      let same : c ≡ c' = ground (arith, room, h) in
      subst IsValid same
        (record { screen = v; room = Room-low c.lexer c.length (ground (arith, room)) })
]

append_char-IsOnScreen : (code : ℕ) (c : Console) → IsOnScreen c → IsOnScreen (append_char code c)
unfolding append_char
append_char-IsOnScreen code c v = record { x = v.x; y = v.y; sx = v.sx; sy = v.sy }

-- The initial lexer, split by what becomes of the cursor and of the lexer.
lexer_initial-IsOnScreen :
    (code : ℕ) (c : Console) → IsOnScreen c → IsOnScreen (lexer_initial code c)
unfolding lexer_initial con_cursor put_glyph start_sequence
lexer_initial-IsOnScreen code c v = ground (
  arith,
  v.x,
  v.y,
  v.sx,
  v.sy,
  scroll_below-IsOnScreen (con_cursor 0 (c.y + 1) c),
  adjust-IsOnScreen (con_cursor (con_next_tab_stop c) c.y c),
  adjust-IsOnScreen (put_glyph code c),
)

lexer_escape-IsOnScreen : (code : ℕ) (c : Console) → IsOnScreen c → IsOnScreen (lexer_escape code c)
unfolding lexer_escape con_cursor start_sequence
lexer_escape-IsOnScreen code c v = ground (arith, v.x, v.y, v.sx, v.sy)

pub scroll_below-lexer : (c : Console) → (scroll_below c).lexer ≡ c.lexer
unfolding scroll_below scroll_up con_cursor con_erase
scroll_below-lexer c = ground arith

pub adjust-lexer : (c : Console) → (adjust c).lexer ≡ c.lexer
unfolding adjust con_cursor
adjust-lexer c = ground (
  arith,
  scroll_below-lexer (con_cursor 0 (c.y + 1) c),
  scroll_below-lexer (con_cursor (c.x + 1) c.y c),
)

abbrev Idle : Lexer → ℕ → Type 0
Idle l n = (l ≡ initial) ⊎ (l ≡ escape) ⊎ (n ≡ 1)

Room-Idle : (l : Lexer) (n : ℕ) → Idle l n → Room l n
Room-Idle initial n h = tt
Room-Idle escape n h = tt
Room-Idle csi n h = ground arith
Room-Idle until_st n h = ground arith

lexer_initial-Idle :
    (code : ℕ) (c : Console)
    → c.lexer ≡ initial
    → Idle (lexer_initial code c).lexer (lexer_initial code c).length
unfolding lexer_initial con_cursor put_glyph start_sequence
lexer_initial-Idle code c e = ground (
  arith,
  scroll_below-lexer (con_cursor 0 (c.y + 1) c),
  adjust-lexer (con_cursor (con_next_tab_stop c) c.y c),
  adjust-lexer (put_glyph code c),
)

lexer_escape-Idle :
    (code : ℕ) (c : Console) → Idle (lexer_escape code c).lexer (lexer_escape code c).length
unfolding lexer_escape con_cursor start_sequence
lexer_escape-Idle code c = ground arith

write_by-IsValid :
    (l : Lexer) (code : ℕ) (c c' : Console)
    → c.lexer ≡ l
    → IsOnScreen c
    → write_by l code c ≡ some c'
    → IsValid c'
unfolding write_by lexer_csi lexer_until_st
write_by-IsValid initial code c c' e v h =
    let same : lexer_initial code c ≡ c' = ground (arith, h) in
    subst IsValid same (record {
      screen = lexer_initial-IsOnScreen code c v;
      room = Room-Idle _ _ (lexer_initial-Idle code c e);
    })
write_by-IsValid escape code c c' e v h =
    let same : lexer_escape code c ≡ c' = ground (arith, h) in
    subst IsValid same (record {
      screen = lexer_escape-IsOnScreen code c v;
      room = Room-Idle _ _ (lexer_escape-Idle code c);
    })
write_by-IsValid csi code c c' e v h =
    finish_sequence-IsValid _ (append_char code c) c' (append_char-IsOnScreen code c v) h
write_by-IsValid until_st code c c' e v h =
    finish_sequence-IsValid _ (append_char code c) c' (append_char-IsOnScreen code c v) h

-- Writing any character keeps the cursor and the saved cursor on the screen, and leaves room in the
-- array for the next character of an escape sequence. This holds in every state of the lexer,
-- wherever the numbers in the sequence do not overflow an int.
pub con_write-IsValid :
    (code : ℕ) (c c' : Console) → IsValid c → con_write code c ≡ some c' → IsValid c'
unfolding con_write
con_write-IsValid code c c' v h = write_by-IsValid c.lexer code c c' refl v.screen h

-- After con_init on a screen of at least one cell, the console is in such a state: the cursor is on
-- the screen, and the array has room.
pub con_init-IsValid : (w h : ℕ) (c : Console) → 0 < w → 0 < h → IsValid (con_init w h c)
unfolding con_init con_cursor con_erase
con_init-IsValid w h c a b = record { screen = ground arith; room = tt }

-- The characters of a text, written one after the other.
pub write_all : List ℕ → Console → Option Console
write_all [] c = some c
write_all (code ∷ codes) c = do c' ← con_write code c; write_all codes c'
