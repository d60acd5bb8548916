-- ===== src/Console.antt =====
-- console.c: the text console, a lexer of ANSI escape sequences over the VGA text memory.
pub mod Sequences
pub mod OnScreen
pub mod Scroll
pub mod Fuel
use Prim.Native.Nat.{bit_and, bit_or}
use neos.Base.{
  ℕ, zero, suc, ◌+◌, ◌-◌, ◌*◌, ◌/◌, ◌%◌, ◌^◌, Bool, true, false, not, ◌&&◌, ◌||◌, Option, none,
  some, ◌==◌, ltb, leb, if◌then◌else◌,
}
use neos.Memory.{Mem, store, memmove, memset}

-- The function that `output_lexer` points to.
pub data Lexer : Type 0 where
  initial escape csi until_st : Lexer

-- The globals. `screen` has one cell, glyph + 256 * attribute, for each character of the VGA
-- memory; `hardware` is the position that `cur_goto` was last called with.
pub record Console : Type 0 where
  pub lexer : Lexer
  pub sequence : Mem
  pub length : ℕ
  pub invert : Bool
  pub attribute : ℕ
  pub width : ℕ
  pub height : ℕ
  pub x : ℕ
  pub y : ℕ
  pub shortcuts : Bool
  pub sa : ℕ
  pub sx : ℕ
  pub sy : ℕ
  pub screen : Mem
  pub hardware : ℕ

abbrev pub max_ansi_sequence : ℕ
max_ansi_sequence = 64

abbrev pub default_attribute : ℕ
default_attribute = 7

abbrev pub tab_distance : ℕ
tab_distance = 4

pub con_cursor : ℕ → ℕ → Console → Console
con_cursor nx ny c =
    if not (nx == c.x) || not (ny == c.y)
    then record c { x = nx; y = ny; hardware = nx + ny * c.width }
    else c

pub con_next_tab_stop : Console → ℕ
con_next_tab_stop c =
    (c.x / tab_distance) * tab_distance + (if c.x % tab_distance == 0 then 0 else tab_distance)

pub con_ansi_to_vga : ℕ → ℕ
con_ansi_to_vga index =
    let color = bit_and index 7 in
    bit_or (bit_or (bit_and color 2) (bit_and color 1 * 4)) (bit_and color 4 / 4)

pub con_attr : Console → ℕ
con_attr c =
    if not c.invert
    then c.attribute
    else bit_and (bit_or (bit_and 0x0F c.attribute * 16) (c.attribute / 16)) 0xFF

-- the number of the cell that `con_at` points to
abbrev pub con_at : ℕ → ℕ → Console → ℕ
con_at x y c = x + y * c.width

-- `while (glyph < end)`, from a cell on with the rounds left
pub erase_loop : ℕ → (cell : ℕ) → Mem → Mem
erase_loop zero cell screen = screen
erase_loop (suc n) cell screen =
    erase_loop n (cell + 1) (store cell (0 + 256 * default_attribute) screen)

pub con_erase : (x1 y1 x2 y2 : ℕ) → Console → Console
con_erase x1 y1 x2 y2 c = record c {
  screen = erase_loop (con_at x2 y2 c - con_at x1 y1 c) (con_at x1 y1 c) c.screen;
}

-- `con_scroll` of a positive and of a negative number of lines; of 0 it does nothing.
pub scroll_up : ℕ → Console → Console
scroll_up offset c =
    let lines = if ltb offset c.height then offset else c.height in
    let moves = c.height - lines in
    let moved = record c { screen = memmove 0 (con_at 0 lines c) (moves * c.width) c.screen } in
    if offset == 0
    then c
    else con_cursor c.x (c.y - lines) (con_erase 0 moves 0 (moves + (c.height - moves)) moved)

pub scroll_down : ℕ → Console → Console
scroll_down offset c =
    let lines = if ltb offset c.height then offset else c.height in
    let moves = c.height - lines in
    let last = c.height - 1 in
    let moved = record c { screen = memmove (con_at 0 lines c) 0 (moves * c.width) c.screen } in
    if offset == 0
    then c
    else con_cursor c.x (if ltb last (c.y + lines) then last else c.y + lines)
        (con_erase 0 0 0 (c.height - moves) moved)

-- The result of arithmetic on `int`, where overflow is undefined: `none`.
abbrev pub int : ℕ → Option ℕ
int n = if ltb n (2 ^ 31) then some n else none

-- The loop of `con_next_int` at `head`, with the characters up to `last` left. It returns the
-- number, or `none` inside for the fallback, and the new head; `none` is an overflow.
pub next_int_loop : ℕ → Mem → (head accumulator : ℕ) (first : Bool) → Option (Option ℕ × ℕ)
next_int_loop zero sequence head accumulator first =
    some (if first then none else some accumulator, head - 1)
next_int_loop (suc n) sequence head accumulator first =
    let next = sequence head in
    if leb b'0' next && leb next b'9'
    then elim (int (accumulator * 10 + (next - b'0'))) [
      | none ↦ none
      | some value ↦ next_int_loop n sequence (head + 1) value false
    ]
    else some (if first then none else some accumulator, head)

pub con_next_int : Mem → (head last : ℕ) → Option (Option ℕ × ℕ)
con_next_int sequence head last = next_int_loop (last + 1 - head) sequence head 0 true

abbrev pub or_else : Option ℕ → ℕ → ℕ
or_else none fallback = fallback
or_else (some n) fallback = n

-- `con_next_char` where only the head matters
abbrev pub skip_char : (head last : ℕ) → ℕ
skip_char head last = if ltb last head then head else head + 1

abbrev pub within : ℕ → ℕ → ℕ → Bool
within code low high = leb low code && leb code high

-- `con_srg_apply`: the early returns, and the independent tests that follow them.
pub set_colors : ℕ → Console → Console
set_colors code c =
    let fg =
      if within code 30 37
      then bit_or (bit_and c.attribute 0xF8) (con_ansi_to_vga (code - 30))
      else c.attribute in
    let fg_reset =
      if code == 39 then bit_or (bit_and fg 0xF8) (bit_and default_attribute 7) else fg in
    let bg =
      if within code 40 47
      then bit_or (bit_and fg_reset 0x8F) (con_ansi_to_vga (code - 40) * 16)
      else fg_reset in
    let bg_reset = if code == 49 then bit_and bg 0x8F else bg in
    let bold =
      if within code 90 97
      then bit_or (bit_or (bit_and bg_reset 0xF0) (con_ansi_to_vga (code - 90))) 8
      else bg_reset in
    let bold_bg =
      if within code 100 107
      then bit_or (bit_or (bit_and bold 0x0F) (con_ansi_to_vga (code - 100) * 16)) 0x80
      else bold in
    record c { attribute = bold_bg }

pub con_srg_apply : ℕ → Console → Console
con_srg_apply code c =
    if code == 0
    then record c { attribute = default_attribute }
    else if code == 1
    then record c { attribute = bit_or c.attribute 8 }
    else if code == 22
    then record c { attribute = bit_and c.attribute 0xF7 }
    else if code == 7
    then record c { invert = true }
    else if code == 27
    then record c { invert = false }
    else set_colors code c

-- The loop of `con_sgr_execute`. Each round but the last moves the head on, so `last` rounds are
-- enough.
pub sgr_loop : ℕ → (head last : ℕ) (first : Bool) → Console → Option Console
sgr_loop zero head last first c = some (if first then con_srg_apply 0 c else c)
sgr_loop (suc f) head last first c =
    let done = some (if first then con_srg_apply 0 c else c) in
    if ltb head last
    then elim (con_next_int c.sequence head last) [
      | none ↦ none
      | some (none, head') ↦ done
      | some (some arg, head') ↦ sgr_loop f (skip_char head' last) last false (con_srg_apply arg c)
    ]
    else done
