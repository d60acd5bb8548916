-- ===== src/Console/Sequences/Write/Runs.antt =====
-- console.c, con_write: a text whose numbers have up to nine digits is written without overflow.
use neos.Base.{ℕ, ◌+◌, ◌≤◌, ◌≡◌, refl, Bool, true, false, if◌then◌else◌, ◌⊎◌, List, [], ◌∷◌}
use neos.Memory.{Mem}
use neos.Console.{Console, Lexer, initial, escape, csi, until_st}
use neos.Console.Sequences.Numbers.{digit, run, IsShort}
use neos.Console.Sequences.Total.{IsSized}

-- The digits at the end of a text, with one character more.
abbrev pub next_run : (m code : ℕ) → ℕ
next_run m code = if digit code then m + 1 else 0

-- No more than nine digits follow each other in a text, behind `m` digits.
abbrev pub IsModest : (m : ℕ) → List ℕ → Type 0
IsModest m [] = Unit {0}
IsModest m (code ∷ codes) = (next_run m code ≤ 9) × IsModest (next_run m code) codes

-- The array of the sequence has no number of more than nine digits, and ends with at most `m`.
pub record IsBusy (m : ℕ) (c : Console) : Type 0 where
  pub begun : 1 ≤ c.length
  pub short : IsShort c.sequence c.length
  pub ending : run c.sequence c.length ≤ m

abbrev Lexing : (m : ℕ) → Console → Type 0
Lexing m c = (c.lexer ≡ initial) ⊎ (c.lexer ≡ escape) ⊎ IsBusy m c

run-one : (sequence : Mem) → digit (sequence 0) ≡ false → run sequence 1 ≡ 0
run-one sequence h = rw h refl

-- Inside a sequence the array has begun.
abbrev sequence_lexer : Lexer → Bool
sequence_lexer initial = false
sequence_lexer escape = false
sequence_lexer csi = true
sequence_lexer until_st = true

module _ (w h : ℕ) where
  -- The state of the lexer between two characters, with `m` digits behind each other at the end.
  pub record IsQuiet (m : ℕ) (c : Console) : Type 0 where
    pub size : IsSized w h c
    pub lexing : Lexing m c
