-- ===== src/Memory.antt =====
-- memory.c: copying and filling byte memory, and the C string routines.
pub mod Copy
pub mod Text
mod Tests
use neos.Base.{
  ℕ, zero, suc, ◌+◌, Bool, true, false, not, ◌||◌, Option, none, some, ◌==◌, ltb, if◌then◌else◌,
}

-- The byte at each address. Addresses do not wrap here: a block that would run past 2 ^ 32 is
-- outside the model.
abbrev pub Mem : Type 0
Mem = ℕ → ℕ

-- `*(uint8_t*) p = v`
unfoldable pub store : ℕ → ℕ → Mem → Mem
store p v m a = if a == p then v else m a

-- `for (long i = 0; i < bytes; i ++) dst[i] = src[i];` with `n` rounds left.
pub memcpy_loop : (dst src n i : ℕ) → Mem → Mem
memcpy_loop dst src zero i m = m
memcpy_loop dst src (suc n) i m = memcpy_loop dst src n (i + 1) (store (dst + i) (m (src + i)) m)

-- Each of the three returns its argument `dst`, so the result here is the memory.
pub memcpy : (dst src bytes : ℕ) → Mem → Mem
memcpy dst src bytes m = if (src == dst) || (bytes == 0) then m else memcpy_loop dst src bytes 0 m

-- `for (long i = bytes - 1; i >= 0; i --) dst[i] = src[i];`
pub memmove_loop : (dst src bytes : ℕ) → Mem → Mem
memmove_loop dst src zero m = m
memmove_loop dst src (suc i) m = memmove_loop dst src i (store (dst + i) (m (src + i)) m)

pub memmove : (dst src bytes : ℕ) → Mem → Mem
memmove dst src bytes m =
    if (src == dst) || (bytes == 0)
    then m
    else if ltb dst src
    then memcpy dst src bytes m
    else memmove_loop dst src bytes m

unfoldable pub memset_loop : (dst value n i : ℕ) → Mem → Mem
memset_loop dst value zero i m = m
memset_loop dst value (suc n) i m = memset_loop dst value n (i + 1) (store (dst + i) value m)

unfoldable pub memset : (dst value bytes : ℕ) → Mem → Mem
memset dst value bytes m = memset_loop dst value bytes 0 m

-- `while (cstr[length] != 0x00) length ++;` on fuel: `none` means that it ran out.
pub strlen_loop : ℕ → Mem → (cstr length : ℕ) → Option ℕ
strlen_loop zero m cstr length = none
strlen_loop (suc f) m cstr length =
    let rest = strlen_loop f m cstr (length + 1) in
    if m (cstr + length) == 0x00 then some length else rest

pub strlen : ℕ → Mem → ℕ → Option ℕ
strlen fuel m cstr = strlen_loop fuel m cstr 0

-- The loop of `streq` from index `i` on.
pub streq_loop : ℕ → Mem → (lcstr rcstr i : ℕ) → Option Bool
streq_loop zero m l r i = none
streq_loop (suc f) m l r i =
    let rest = streq_loop f m l r (i + 1) in
    if not (m (l + i) == m (r + i)) then some false else if m (l + i) == 0 then some true else rest

pub streq : ℕ → Mem → ℕ → ℕ → Option Bool
streq fuel m l r = streq_loop fuel m l r 0

-- `strcpy` copies `strlen` bytes, without the terminator, and returns their number.
pub strcpy : ℕ → (buffer cstr : ℕ) → Mem → Option (ℕ × Mem)
strcpy fuel buffer cstr m = elim (strlen fuel m cstr) [
  | none ↦ none
  | some n ↦ some (n, memcpy buffer cstr n m)
]
