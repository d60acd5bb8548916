-- ===== src/Memory/Text.antt =====
-- memory.c: the C strings in memory, and what strlen, streq and strcpy make of them.
use neos.Base.{
  ℕ, zero, suc, ◌+◌, ◌≤◌, ◌<◌, ◌≡◌, refl, ◌≢◌, ◌⊎◌, inl, inr, true, false, some, List, [], ◌∷◌,
  arith, ◌==◌, length, ◌∙◌, Bool-cases,
}
use neos.Memory.{Mem, strlen_loop, strlen, streq_loop, streq, strcpy, memcpy}
use neos.Memory.Copy.{copied, memcpy-copied}

-- From address `p` on lie the bytes of `s`, none of them null, and then a null byte.
abbrev pub HasText : Mem → ℕ → List ℕ → Type 0
HasText m p [] = m p ≡ 0
HasText m p (c ∷ s) = (m p ≡ c) × (c ≢ 0) × HasText m (p + 1) s

strlen_loop-length :
    (f : ℕ) (m : Mem) (p : ℕ) (s : List ℕ) (n q : ℕ)
    → q ≡ p + n
    → HasText m q s
    → length s < f
    → strlen_loop f m p n ≡ some (n + length s)
unfolding strlen_loop
strlen_loop-length zero m p s n q e h fuel = absurd (omega arith)
strlen_loop-length (suc f) m p [] n q e h fuel = ground arith
strlen_loop-length (suc f) m p (c ∷ s) n q e (h₁, h₂, h₃) fuel =
    ground (arith, strlen_loop-length f m p s (n + 1) (q + 1) (omega arith) h₃ (omega arith))

-- On fuel above the length of the text `strlen` returns that length.
pub strlen-length :
    (f : ℕ) (m : Mem) (p : ℕ) (s : List ℕ)
    → HasText m p s
    → length s < f
    → strlen f m p ≡ some (length s)
unfolding strlen
strlen-length f m p s h fuel = ground (arith, strlen_loop-length f m p s 0 p (omega arith) h fuel)

-- What the comparison of two texts found.
abbrev Decides : List ℕ → List ℕ → (f : ℕ) (m : Mem) (l r i : ℕ) → Type 0
Decides s t f m l r i =
    ((s ≡ t) × (streq_loop f m l r i ≡ some true)) ⊎ ((s ≢ t) × (streq_loop f m l r i ≡ some false))

streq_loop-Decides :
    (f : ℕ) (m : Mem) (l r i : ℕ) (s t : List ℕ) (p q : ℕ)
    → p ≡ l + i
    → q ≡ r + i
    → HasText m p s
    → HasText m q t
    → length s < f
    → Decides s t f m l r i
unfolding streq_loop
streq_loop-Decides zero m l r i s t p q ep eq hs ht fuel = absurd (omega arith)
streq_loop-Decides (suc f) m l r i [] [] p q ep eq hs ht fuel = inl (refl, ground arith)
streq_loop-Decides (suc f) m l r i [] (d ∷ t) p q ep eq hs (h₁, h₂, h₃) fuel =
    inr (ground arith, ground arith)
streq_loop-Decides (suc f) m l r i (c ∷ s) [] p q ep eq (h₁, h₂, h₃) ht fuel =
    inr (ground arith, ground arith)
streq_loop-Decides (suc f) m l r i (c ∷ s) (d ∷ t) p q ep eq (h₁, h₂, h₃) (k₁, k₂, k₃) fuel =
    elim (Bool-cases (c == d)) [
      | inl same ↦ ground (
        arith,
        streq_loop-Decides f m l r (i + 1) s t (p + 1) (q + 1) (omega arith) (omega arith) h₃ k₃
            (omega arith),
      )
      | inr differ ↦ inr (ground arith, ground arith)
    ]

-- On fuel above the length of its first text `streq` terminates, and answers whether the two
-- texts are equal: true exactly for equal texts.
pub streq-decides :
    (f : ℕ) (m : Mem) (l r : ℕ) (s t : List ℕ)
    → HasText m l s
    → HasText m r t
    → length s < f
    → ((s ≡ t) × (streq f m l r ≡ some true)) ⊎ ((s ≢ t) × (streq f m l r ≡ some false))
unfolding streq
streq-decides f m l r s t hs ht fuel =
    streq_loop-Decides f m l r 0 s t l r (omega arith) (omega arith) hs ht fuel

-- `strcpy` into a buffer that does not overlap the text returns the length of the text, puts its
-- bytes into the buffer and writes no other byte: the one behind them, where the terminator would
-- go, stays what it was.
pub strcpy_lem :
    (f : ℕ) (b p : ℕ) (m : Mem) (s : List ℕ)
    → HasText m p s
    → length s < f
    → (b + length s ≤ p) ⊎ (p + length s ≤ b)
    → (m' : Mem) × (strcpy f b p m ≡ some (length s, m'))
      × ((a : ℕ) → m' a ≡ copied b p (length s) m a)
      × (m' (b + length s) ≡ m (b + length s))
unfolding strcpy
strcpy_lem f b p m s h fuel apart = (
  memcpy b p (length s) m,
  rw (strlen-length f m p s h fuel, strcpy),
  (λ a. memcpy-copied b p (length s) m a (ground arith)),
  (memcpy-copied b p (length s) m (b + length s) (ground arith) ∙ ground arith),
)
