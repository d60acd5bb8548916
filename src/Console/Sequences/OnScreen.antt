-- ===== src/Console/Sequences/OnScreen.antt =====
-- console.c: every character written keeps the cursor on the screen and the sequence in its array.
use neos.Base.{
  ℕ, zero, suc, ◌+◌, ◌-◌, ◌≤◌, ◌<◌, ◌≡◌, refl, Bool, true, false, Option, none, some, arith,
  Option-cases, inl, inr,
}
use neos.Console.{
  Console, Lexer, initial, escape, csi, until_st, con_cursor, con_erase, con_srg_apply, sgr_loop,
  con_next_int, skip_char, max_ansi_sequence,
}
use neos.Console.Sequences.{
  argument, cursor_position, erase_display, erase_line, csi_cursor, csi_other, con_csi_execute,
  con_execute, start_sequence, scroll_below, adjust,
}
use neos.Console.OnScreen.{
  IsOnScreen, scroll_up-IsOnScreen, scroll_down-IsOnScreen, con_srg_apply-IsOnScreen,
}

pub scroll_below-IsOnScreen :
    (c : Console)
    → c.x < c.width
    → c.sx < c.width
    → c.sy < c.height
    → c.y ≤ c.height
    → IsOnScreen (scroll_below c)
unfolding scroll_below
scroll_below-IsOnScreen c a b d e = ground (arith, scroll_up-IsOnScreen 1 c)

pub adjust-IsOnScreen :
    (c : Console)
    → 0 < c.width
    → c.sx < c.width
    → c.sy < c.height
    → c.y < c.height
    → IsOnScreen (adjust c)
unfolding adjust con_cursor
adjust-IsOnScreen c a b d e = ground (
  arith,
  scroll_below-IsOnScreen (con_cursor 0 (c.y + 1) c),
  scroll_below-IsOnScreen (con_cursor (c.x + 1) c.y c),
)

erase_display-IsOnScreen : (n : ℕ) (c : Console) → IsOnScreen c → IsOnScreen (erase_display n c)
unfolding erase_display con_erase
erase_display-IsOnScreen n c v = ground (arith, v.x, v.y, v.sx, v.sy)

erase_line-IsOnScreen : (n : ℕ) (c : Console) → IsOnScreen c → IsOnScreen (erase_line n c)
unfolding erase_line con_erase
erase_line-IsOnScreen n c v = ground (arith, v.x, v.y, v.sx, v.sy)

cursor_position-IsOnScreen :
    (last : ℕ) (c c' : Console) → IsOnScreen c → cursor_position last c ≡ some c' → IsOnScreen c'
unfolding cursor_position con_cursor
cursor_position-IsOnScreen last c c' v h = ground (arith, v.x, v.y, v.sx, v.sy)

sgr_loop-IsOnScreen :
    (f head last : ℕ) (first : Bool) (c c' : Console)
    → IsOnScreen c
    → sgr_loop f head last first c ≡ some c'
    → IsOnScreen c'
unfolding sgr_loop
sgr_loop-IsOnScreen zero head last first c c' v h =
    ground (arith, con_srg_apply-IsOnScreen 0 c v, v.x, v.y, v.sx, v.sy)
sgr_loop-IsOnScreen (suc f) head last first c c' v h =
    elim (Option-cases (con_next_int c.sequence head last)) [
      | inl e ↦ ground (arith, e, con_srg_apply-IsOnScreen 0 c v, v.x, v.y, v.sx, v.sy)
      | inr ((none, head'), e) ↦
          ground (arith, e, con_srg_apply-IsOnScreen 0 c v, v.x, v.y, v.sx, v.sy)
      | inr ((some arg, head'), e) ↦ ground (
        arith,
        e,
        con_srg_apply-IsOnScreen 0 c v,
        v.x,
        v.y,
        v.sx,
        v.sy,
        sgr_loop-IsOnScreen f (skip_char head' last) last false (con_srg_apply arg c) c'
            (con_srg_apply-IsOnScreen arg c v),
      )
    ]

csi_cursor-IsOnScreen :
    (code last : ℕ) (c c' : Console)
    → IsOnScreen c
    → csi_cursor code last c ≡ some (some c')
    → IsOnScreen c'
unfolding csi_cursor con_cursor
csi_cursor-IsOnScreen code last c c' v h =
    ground (arith, v.x, v.y, v.sx, v.sy, cursor_position-IsOnScreen last c c' v)

-- the sequences without a number in front of the final byte's meaning, and those with one
module _ (code last : ℕ) (c c' : Console) (v : IsOnScreen c) where
  csi_other-erase :
      (n : Option ℕ) (m : Option ℕ)
      → argument c.sequence last 0 ≡ n
      → argument c.sequence last 1 ≡ m
      → csi_other code last c ≡ some c'
      → IsOnScreen c'
  unfolding csi_other con_cursor
  csi_other-erase none none e e' h =
      ground (arith, e, e', v.x, v.y, v.sx, v.sy, sgr_loop-IsOnScreen last 1 last true c c' v)
  csi_other-erase none (some m) e e' h = ground (
    arith,
    e,
    e',
    v.x,
    v.y,
    v.sx,
    v.sy,
    sgr_loop-IsOnScreen last 1 last true c c' v,
    scroll_up-IsOnScreen m c v.x v.sx v.sy (omega (arith, v.y)) (omega (arith, v.y)),
    scroll_down-IsOnScreen m c v,
  )
  csi_other-erase (some n) none e e' h = ground (
    arith,
    e,
    e',
    v.x,
    v.y,
    v.sx,
    v.sy,
    sgr_loop-IsOnScreen last 1 last true c c' v,
    erase_display-IsOnScreen n c v,
    erase_line-IsOnScreen n c v,
  )
  csi_other-erase (some n) (some m) e e' h = ground (
    arith,
    e,
    e',
    v.x,
    v.y,
    v.sx,
    v.sy,
    sgr_loop-IsOnScreen last 1 last true c c' v,
    erase_display-IsOnScreen n c v,
    erase_line-IsOnScreen n c v,
    scroll_up-IsOnScreen m c v.x v.sx v.sy (omega (arith, v.y)) (omega (arith, v.y)),
    scroll_down-IsOnScreen m c v,
  )

  con_csi_execute-IsOnScreen :
      con_csi_execute last c ≡ some c' → code ≡ c.sequence last → IsOnScreen c'
  unfolding con_csi_execute
  con_csi_execute-IsOnScreen h e = elim (Option-cases (csi_cursor code last c)) [
    | inl none' ↦ ground (arith, e, none')
    | inr (none, e') ↦
        csi_other-erase (argument c.sequence last 0) (argument c.sequence last 1) refl refl
          (ground (arith, e, e', h))
    | inr (some moved, e') ↦ csi_cursor-IsOnScreen code last c c' v (ground (arith, e, e', h))
  ]

pub con_execute-IsOnScreen :
    (c c' : Console) → IsOnScreen c → con_execute c ≡ some c' → IsOnScreen c'
unfolding con_execute
con_execute-IsOnScreen c c' v h = ground (
  arith,
  v.x,
  v.y,
  v.sx,
  v.sy,
  con_csi_execute-IsOnScreen (c.sequence (c.length - 1)) (c.length - 1) c c' v,
)

-- While a sequence is collected there is room for one more character in the array of 64.
abbrev pub Room : Lexer → ℕ → Type 0
Room initial n = Unit {0}
Room escape n = Unit {0}
Room csi n = n < max_ansi_sequence
Room until_st n = n < max_ansi_sequence

pub record IsValid (c : Console) : Type 0 where
  pub screen : IsOnScreen c
  pub room : Room c.lexer c.length

pub start_sequence-IsOnScreen :
    (code : ℕ) (c : Console) → IsOnScreen c → IsOnScreen (start_sequence code c)
unfolding start_sequence
start_sequence-IsOnScreen code c v = record { x = v.x; y = v.y; sx = v.sx; sy = v.sy }
