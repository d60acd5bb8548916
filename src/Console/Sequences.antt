-- ===== src/Console/Sequences.antt =====
-- console.c: the control sequences and the lexers, up to con_write.
pub mod OnScreen
pub mod Numbers
pub mod Total
pub mod Write
use neos.Base.{
  ℕ, zero, suc, ◌+◌, ◌-◌, ◌*◌, Bool, true, false, not, ◌&&◌, ◌||◌, Option, none, some, ◌==◌, ltb,
  leb, if◌then◌else◌,
}
use neos.Memory.{Mem, store, memset}
use neos.Console.{
  Console, Lexer, initial, escape, csi, until_st, con_cursor, con_next_tab_stop, con_attr, con_at,
  con_erase, scroll_up, scroll_down, int, con_next_int, or_else, skip_char, within, con_srg_apply,
  sgr_loop, max_ansi_sequence, default_attribute,
}

infixl 5 ◌>>=◌
abbrev pub ◌>>=◌ : {A B : Type 0} → Option A → (A → Option B) → Option B
none >>= f = none
some a >>= f = f a

abbrev pub min : ℕ → ℕ → ℕ
min a b = if ltb a b then a else b

-- `con_next_int(head, last, fallback)` where the head is not used again
pub argument : Mem → (last fallback : ℕ) → Option ℕ
argument sequence last fallback = do
  (arg, head) ← con_next_int sequence 1 last
  some (or_else arg fallback)

-- The two numbers of a cursor position. `clamp(n - 1, 0, width - 1)` of a number from 0 on.
pub cursor_position : (last : ℕ) → Console → Option Console
cursor_position last c = do
  (n, head) ← con_next_int c.sequence 1 last
  (m, head') ← con_next_int c.sequence (skip_char head last) last
  some (con_cursor (min (or_else n 1 - 1) (c.width - 1)) (min (or_else m 1 - 1) (c.height - 1)) c)

pub erase_display : ℕ → Console → Console
erase_display n c =
    if n == 0
    then con_erase c.x c.y (c.width - 1) (c.height - 1) c
    else if n == 1
    then con_erase 0 0 c.x c.y c
    else if (n == 2) || (n == 3)
    then con_erase 0 0 (c.width - 1) (c.height - 1) c
    else c

pub erase_line : ℕ → Console → Console
erase_line n c =
    if n == 0
    then con_erase c.x c.y (c.width - 1) c.y c
    else if n == 1
    then con_erase 0 c.y c.x c.y c
    else if (n == 2) || (n == 3)
    then con_erase 0 c.y (c.width - 1) c.y c
    else c

-- The cursor moves, with `code` the final byte. The second test for ANSI_CSI_CNL is never reached.
pub csi_cursor : (code last : ℕ) → Console → Option (Option Console)
csi_cursor code last c =
    if code == b'A'
    then (do arg ← argument c.sequence last 1; some (some (con_cursor c.x (c.y - arg) c)))
    else if code == b'B'
    then (do
      arg ← argument c.sequence last 1
      down ← int (c.y + arg)
      some (some (con_cursor c.x (min down (c.height - 1)) c)))
    else if code == b'C'
    then (do
      arg ← argument c.sequence last 1
      right ← int (c.x + arg)
      some (some (con_cursor (min right (c.width - 1)) c.y c)))
    else if code == b'D'
    then (do arg ← argument c.sequence last 1; some (some (con_cursor (c.x - arg) c.y c)))
    else if code == b'E'
    then (do
      arg ← argument c.sequence last 1
      down ← int (c.y + arg)
      some (some (con_cursor 0 (min down (c.height - 1)) c)))
    else if (code == b'H') || (code == b'f')
    then (do c' ← cursor_position last c; some (some c'))
    else some none

-- The other sequences.
pub csi_other : (code last : ℕ) → Console → Option Console
csi_other code last c =
    if code == b'J'
    then (do n ← argument c.sequence last 0; some (erase_display n c))
    else if code == b'K'
    then (do n ← argument c.sequence last 0; some (erase_line n c))
    else if code == b'S'
    then (do n ← argument c.sequence last 1; some (scroll_up n c))
    else if code == b'T'
    then (do n ← argument c.sequence last 1; some (scroll_down n c))
    else if code == b's'
    then some (record c { sx = c.x; sy = c.y })
    else if code == b'u'
    then some (con_cursor c.sx c.sy c)
    else if code == b'm'
    then sgr_loop last 1 last true c
    else some c

pub con_csi_execute : (last : ℕ) → Console → Option Console
con_csi_execute last c = do
  moved ← csi_cursor (c.sequence last) last c
  elim moved [ some c' ↦ some c' | none ↦ csi_other (c.sequence last) last c ]

pub con_execute : Console → Option Console
con_execute c = if c.sequence 0 == b'[' then con_csi_execute (c.length - 1) c else some c

-- `length = 0; memset(sequence, 0, ...); sequence[length ++] = code;`
pub start_sequence : (code : ℕ) → Console → Console
start_sequence code c = record c {
  sequence = store 0 code (memset 0 0 max_ansi_sequence c.sequence);
  length = 1;
}

-- `sequence[length ++] = code;`
pub append_char : (code : ℕ) → Console → Console
append_char code c = record c { sequence = store c.length code c.sequence; length = c.length + 1 }

-- `if (y >= height) con_scroll(+1);`
pub scroll_below : Console → Console
scroll_below c = if leb c.height c.y then scroll_up 1 c else c

-- the label `adjust`
pub adjust : Console → Console
adjust c =
    let next = c.x + 1 in
    scroll_below (if leb c.width next then con_cursor 0 (c.y + 1) c else con_cursor next c.y c)

pub put_glyph : ℕ → Console → Console
put_glyph code c = record c { screen = store (con_at c.x c.y c) (code + 256 * con_attr c) c.screen }

-- Characters are their bytes: ANSI_ESC_CSI is 0x9B.
pub lexer_initial : ℕ → Console → Console
lexer_initial code c =
    if code == 0x08
    then (if ltb 0 c.x then con_cursor (c.x - 1) c.y c else c)
    else if code == 0x0D
    then con_cursor 0 c.y c
    else if code == 0x0A
    then scroll_below (con_cursor 0 (c.y + 1) c)
    else if code == 0x1B
    then record c { lexer = escape }
    else if c.shortcuts && (code == 0x9B)
    then record (start_sequence b'[' c) { lexer = csi }
    else if c.shortcuts && ((code == 0x90) || (code == 0x9D))
    then record (start_sequence b'[' c) { lexer = until_st }
    else if code == 0x09
    then adjust (con_cursor (con_next_tab_stop c) c.y c)
    else adjust (put_glyph code c)

pub lexer_escape : ℕ → Console → Console
lexer_escape code c =
    let s = start_sequence code c in
    if code == b'['
    then record s { lexer = csi }
    else if (code == b']') || (code == b'X') || (code == b'^') || (code == b'_') || (code == b'P')
    then record s { lexer = until_st }
    else if code == b'<'
    then record s { shortcuts = false; lexer = initial }
    else if code == b'>'
    then record s { shortcuts = true; lexer = initial }
    else if code == b'7'
    then record s { sx = s.x; sy = s.y; sa = s.attribute; lexer = initial }
    else if code == b'8'
    then record (con_cursor s.sx s.sy s) { attribute = s.sa; lexer = initial }
    else record s { lexer = initial }

-- `con_execute()` and back to the initial lexer, or back when the array is full
pub finish_sequence : Bool → Console → Option Console
finish_sequence final c =
    if final
    then (do c' ← con_execute c; some (record c' { lexer = initial }))
    else if leb max_ansi_sequence c.length
    then some (record c { lexer = initial })
    else some c

pub lexer_csi : ℕ → Console → Option Console
lexer_csi code c = finish_sequence (within code 0x40 0x7E) (append_char code c)

pub lexer_until_st : ℕ → Console → Option Console
lexer_until_st code c =
    let s = append_char code c in
    finish_sequence ((code == 92) && ltb 1 s.length && (s.sequence (s.length - 2) == 0x1B)) s

pub write_by : Lexer → ℕ → Console → Option Console
write_by initial code c = some (lexer_initial code c)
write_by escape code c = some (lexer_escape code c)
write_by csi code c = lexer_csi code c
write_by until_st code c = lexer_until_st code c

pub con_write : ℕ → Console → Option Console
con_write code c = write_by c.lexer code c

pub con_init : (max_width max_height : ℕ) → Console → Console
con_init max_width max_height c =
    let start = record c {
      width = max_width;
      height = max_height;
      attribute = default_attribute;
      lexer = initial;
      length = 0;
      invert = false;
      shortcuts = true;
      x = 1;
    } in
    let home = con_cursor 0 0 start in
    con_erase 0 0 (max_width - 1) (max_height - 1)
      (record home { sa = home.attribute; sx = 0; sy = 0 })
