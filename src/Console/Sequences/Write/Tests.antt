-- ===== src/Console/Sequences/Write/Tests.antt =====
-- console.c: an escape sequence on a screen of ten by four.
use neos.Base.{ℕ, true, false, List, [], ◌∷◌}
use neos.Console.{Console, initial}

abbrev before : Console
before = record {
  lexer = initial;
  sequence = λ i. 0;
  length = 0;
  invert = false;
  attribute = 7;
  width = 10;
  height = 4;
  x = 9;
  y = 3;
  shortcuts = true;
  sa = 7;
  sx = 0;
  sy = 0;
  screen = λ a. a;
  hardware = 0;
}

-- ESC [ 9 9 ; 9 H
abbrev text : List ℕ
text = 27 ∷ 91 ∷ 57 ∷ 57 ∷ 59 ∷ 57 ∷ 72 ∷ []
