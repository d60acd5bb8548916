-- ===== src/Console/OnScreen.antt =====
-- console.c: the cursor stays on the screen, and the sequence in its array.
use neos.Base.{ℕ, ◌+◌, ◌≤◌, ◌<◌, arith}
use neos.Console.{Console, con_cursor, con_erase, scroll_up, scroll_down, con_srg_apply, set_colors}

-- The cursor and the saved cursor are on the screen.
pub record IsOnScreen (c : Console) : Type 0 where
  pub x : c.x < c.width
  pub y : c.y < c.height
  pub sx : c.sx < c.width
  pub sy : c.sy < c.height

pub con_cursor-IsOnScreen :
    (nx ny : ℕ) (c : Console)
    → IsOnScreen c
    → nx < c.width
    → ny < c.height
    → IsOnScreen (con_cursor nx ny c)
unfolding con_cursor
con_cursor-IsOnScreen nx ny c v a b = ground (arith, v.x, v.y, v.sx, v.sy)

pub con_erase-IsOnScreen :
    (x1 y1 x2 y2 : ℕ) (c : Console) → IsOnScreen c → IsOnScreen (con_erase x1 y1 x2 y2 c)
unfolding con_erase
con_erase-IsOnScreen x1 y1 x2 y2 c v = record { x = v.x; y = v.y; sx = v.sx; sy = v.sy }

-- A line below the screen is allowed if the screen is then scrolled.
pub scroll_up-IsOnScreen :
    (n : ℕ) (c : Console)
    → c.x < c.width
    → c.sx < c.width
    → c.sy < c.height
    → (c.y < c.height + n)
    → c.y ≤ c.height
    → IsOnScreen (scroll_up n c)
unfolding scroll_up con_cursor con_erase
scroll_up-IsOnScreen n c a b d e f = ground arith

pub scroll_down-IsOnScreen : (n : ℕ) (c : Console) → IsOnScreen c → IsOnScreen (scroll_down n c)
unfolding scroll_down con_cursor con_erase
scroll_down-IsOnScreen n c v = ground (arith, v.x, v.y, v.sx, v.sy)

pub con_srg_apply-IsOnScreen :
    (code : ℕ) (c : Console) → IsOnScreen c → IsOnScreen (con_srg_apply code c)
unfolding con_srg_apply set_colors
con_srg_apply-IsOnScreen code c v = ground (arith, v.x, v.y, v.sx, v.sy)
