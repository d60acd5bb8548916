-- ===== src/Memory/Copy.antt =====
-- memory.c: what memcpy, memmove and memset do to every address.
use neos.Base.{ℕ, zero, suc, ◌+◌, ◌-◌, ◌≤◌, ◌≡◌, ◌⊎◌, ◌&&◌, arith, ltb, leb, if◌then◌else◌}
use neos.Memory.{Mem, store, memcpy_loop, memcpy, memmove_loop, memmove, memset_loop, memset}

-- The memory after the block at `src` has been copied to `dst`, byte by byte from the old memory.
abbrev pub copied : (dst src n : ℕ) → Mem → Mem
copied dst src n m a = if leb dst a && ltb a (dst + n) then m (src + (a - dst)) else m a

memcpy_loop-copied :
    (dst src n i : ℕ) (m : Mem) (a : ℕ)
    → (dst ≤ src) ⊎ (src + (i + n) ≤ dst)
    → memcpy_loop dst src n i m a
      ≡ (if leb (dst + i) a && ltb a (dst + i + n) then m (src + (a - dst)) else m a)
unfolding memcpy_loop store
memcpy_loop-copied dst src zero i m a h = ground arith
memcpy_loop-copied dst src (suc n) i m a h =
    ground (arith, memcpy_loop-copied dst src n (i + 1) (store (dst + i) (m (src + i)) m) a)

memmove_loop-copied :
    (dst src n : ℕ) (m : Mem) (a : ℕ)
    → src ≤ dst
    → memmove_loop dst src n m a ≡ copied dst src n m a
unfolding memmove_loop store
memmove_loop-copied dst src zero m a h = ground arith
memmove_loop-copied dst src (suc i) m a h =
    ground (arith, memmove_loop-copied dst src i (store (dst + i) (m (src + i)) m) a)

-- `memcpy` copies the block exactly, and writes nowhere else, where the destination does not lie
-- inside the block that follows the source's start.
pub memcpy-copied :
    (dst src n : ℕ) (m : Mem) (a : ℕ)
    → (dst ≤ src) ⊎ (src + n ≤ dst)
    → memcpy dst src n m a ≡ copied dst src n m a
unfolding memcpy
memcpy-copied dst src n m a h = ground (arith, memcpy_loop-copied dst src n 0 m a)

-- `memmove` leaves at every address of the destination block the byte that the source block held
-- before the call, however the two blocks overlap, and changes no other address.
pub memmove-copied :
    (dst src n : ℕ) (m : Mem) (a : ℕ) → memmove dst src n m a ≡ copied dst src n m a
unfolding memmove
memmove-copied dst src n m a =
    ground (arith, memcpy-copied dst src n m a, memmove_loop-copied dst src n m a)

memset_loop-filled :
    (dst v n i : ℕ) (m : Mem) (a : ℕ)
    → memset_loop dst v n i m a ≡ (if leb (dst + i) a && ltb a (dst + i + n) then v else m a)
unfolding memset_loop store
memset_loop-filled dst v zero i m a = ground arith
memset_loop-filled dst v (suc n) i m a =
    ground (arith, memset_loop-filled dst v n (i + 1) (store (dst + i) v m) a)

-- `memset` fills exactly the block.
pub memset-filled :
    (dst v n : ℕ) (m : Mem) (a : ℕ)
    → memset dst v n m a ≡ (if leb dst a && ltb a (dst + n) then v else m a)
unfolding memset
memset-filled dst v n m a = ground (arith, memset_loop-filled dst v n 0 m a)
