-- ===== src/Console/Scroll.antt =====
-- console.c, con_erase and con_scroll: what is on the screen afterwards.
use neos.Base.{
  ℕ, zero, suc, ◌+◌, ◌-◌, ◌*◌, ◌≤◌, ◌<◌, ◌≡◌, arith, ltb, leb, ◌&&◌, if◌then◌else◌, ◌∙◌, ne→==,
}
use neos.Memory.{Mem, store, memmove}
use neos.Memory.Copy.{memmove-copied}
use neos.Console.{Console, con_cursor, con_erase, erase_loop, scroll_up}

-- glyph 0 in the default attribute
abbrev pub blank : ℕ
blank = 1792

erase_loop-blank :
    (n cell : ℕ) (screen : Mem) (a : ℕ)
    → erase_loop n cell screen a ≡ (if leb cell a && ltb a (cell + n) then blank else screen a)
unfolding erase_loop store
erase_loop-blank zero cell screen a = ground arith
erase_loop-blank (suc n) cell screen a =
    ground (arith, erase_loop-blank n (cell + 1) (store cell blank screen) a)

mul_split : (lines height w : ℕ) → lines ≤ height → (height - lines) * w + lines * w ≡ height * w
mul_split lines height w h = grind arith

-- con_cursor does not touch the screen
con_cursor-screen : (nx ny : ℕ) (c : Console) (a : ℕ) → (con_cursor nx ny c).screen a ≡ c.screen a
unfolding con_cursor
con_cursor-screen nx ny c a = ground arith

-- Scrolling up by a positive number of lines, at most the height, moves each row up by that number
-- and blanks the rows at the bottom, which are as many; memory behind the screen is what it was.
pub scroll_up-screen :
    (n : ℕ) (c : Console) (a : ℕ)
    → 0 < n
    → n ≤ c.height
    → (scroll_up n c).screen a ≡ (
        if ltb a ((c.height - n) * c.width)
        then c.screen (a + n * c.width)
        else if ltb a (c.height * c.width)
        then blank
        else c.screen a)
unfolding scroll_up con_erase
scroll_up-screen n c a p h =
    let lines : (if ltb n c.height then n else c.height) ≡ n = ground arith in
    let moves = c.height - n in
    let moved = memmove 0 (0 + n * c.width) (moves * c.width) c.screen in
    let split = mul_split n c.height c.width h in
    let back : moves + (c.height - moves) ≡ c.height = omega arith in
    let scrolled : Console = record c {
      screen =
          erase_loop (0 + c.height * c.width - (0 + moves * c.width)) (0 + moves * c.width) moved;
    } in
    rw (ne→== n 0 (omega arith), lines, back)
      (con_cursor-screen c.x (c.y - n) scrolled a
        ∙ ground (
          arith,
          split,
          erase_loop-blank (0 + c.height * c.width - (0 + moves * c.width)) (0 + moves * c.width)
              moved a,
          memmove-copied 0 (0 + n * c.width) (moves * c.width) c.screen a,
        ))
