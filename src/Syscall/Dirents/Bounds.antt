-- ===== src/Syscall/Dirents/Bounds.antt =====
-- syscall.c: the listing of a directory ends, and stays in the buffer.
use neos.Base.{
  ℕ, zero, suc, ◌+◌, ◌-◌, ◌%◌, ◌^◌, ◌≤◌, ◌<◌, ◌≡◌, refl, ◌⊎◌, inl, inr, true, false, Option, some,
  arith, ◌==◌, if◌then◌else◌, Bool-cases, Option-cases, ◌∙◌,
}
use neos.Base.Int.{ℤ, pos, minus, to_int, ltb_ℤ, pos_part}
use neos.Memory.{Mem, store}
use neos.Vfs.Tree.{Drivers, VRef, is_error}
use neos.Vfs.Calls.{VEntry, FileDrivers, vfs_list, vfs_seek, seek_set, linux_einval}
use neos.Syscall.{negative}
use neos.Syscall.Dirents.{
  Dirent, linux_dirent, linux_dirent_fill, linux_dirent64, linux_dirent64_fill, old_linux_dirent,
  old_linux_dirent_fill, dirents_loop,
}

-- No byte outside [p, p + n) differs.
abbrev pub KeptOutside : (p n : ℕ) (m m' : Mem) → Type 0
KeptOutside p n m m' = (a : ℕ) → (a < p) ⊎ (p + n ≤ a) → m' a ≡ m a

-- Entries of names that fit `vEntry` are stored inside the size that is tested, which is what makes
-- the next one start behind.
pub record IsDirent (layout : Dirent) : Type 0 where
  pub moves : (n : ℕ) → n < 256 → 0 < layout.advance n
  pub inside : (n : ℕ) → n < 256 → layout.advance n ≤ layout.entry_size n
  pub small : (n : ℕ) → n < 256 → layout.entry_size n < 2 ^ 31
  pub kept :
      (p : ℕ) (e : VEntry) (m : Mem)
      → e.name_length < 256
      → KeptOutside p (layout.entry_size e.name_length) m (layout.fill p e m)

linux_dirent_fill-kept :
    (p : ℕ) (e : VEntry) (m : Mem)
    → e.name_length < 256
    → KeptOutside p ((12 + e.name_length + 2) % 2 ^ 32) m (linux_dirent_fill p e m)
unfolding linux_dirent_fill store
linux_dirent_fill-kept p e m short a (inl low) = ground arith
linux_dirent_fill-kept p e m short a (inr high) = ground arith

linux_dirent64_fill-kept :
    (p : ℕ) (e : VEntry) (m : Mem)
    → e.name_length < 256
    → KeptOutside p ((20 + e.name_length) % 2 ^ 32) m (linux_dirent64_fill p e m)
unfolding linux_dirent64_fill store
linux_dirent64_fill-kept p e m short a (inl low) = ground arith
linux_dirent64_fill-kept p e m short a (inr high) = ground arith

old_linux_dirent_fill-kept :
    (p : ℕ) (e : VEntry) (m : Mem)
    → e.name_length < 256
    → KeptOutside p ((12 + e.name_length) % 2 ^ 32) m (old_linux_dirent_fill p e m)
unfolding old_linux_dirent_fill store
old_linux_dirent_fill-kept p e m short a (inl low) = ground arith
old_linux_dirent_fill-kept p e m short a (inr high) = ground arith

pub linux_dirent-IsDirent : IsDirent linux_dirent
unfolding linux_dirent
linux_dirent-IsDirent = record {
  moves = λ n h. omega arith;
  inside = λ n h. omega arith;
  small = λ n h. omega arith;
  kept = linux_dirent_fill-kept;
}

pub linux_dirent64-IsDirent : IsDirent linux_dirent64
unfolding linux_dirent64
linux_dirent64-IsDirent = record {
  moves = λ n h. omega arith;
  inside = λ n h. omega arith;
  small = λ n h. omega arith;
  kept = linux_dirent64_fill-kept;
}

pub old_linux_dirent-IsDirent : IsDirent old_linux_dirent
unfolding old_linux_dirent
old_linux_dirent-IsDirent = record {
  moves = λ n h. omega arith;
  inside = λ n h. omega arith;
  small = λ n h. omega arith;
  kept = old_linux_dirent_fill-kept;
}

-- What a listing into a buffer of `size` bytes comes to.
pub record Listed (buffer size : ℕ) (m : Mem) (r : ℤ) (m' : Mem) : Type 0 where
  pub counted : pos_part r ≤ size
  pub kept : KeptOutside buffer size m m'

-- There is room for an entry when the signed test says so.
room :
    (size bytes s : ℕ)
    → size < 2 ^ 32
    → bytes ≤ size
    → s < 2 ^ 31
    → ltb_ℤ (to_int ((size + 2 ^ 32 - bytes) % 2 ^ 32)) (to_int s) ≡ false
    → bytes + s ≤ size
room size bytes s h1 h2 h3 e = ground arith

KeptOutside-trans :
    (buffer size p n : ℕ) (m m' m'' : Mem)
    → buffer ≤ p
    → p + n ≤ buffer + size
    → KeptOutside p n m m'
    → KeptOutside buffer size m' m''
    → KeptOutside buffer size m m''
KeptOutside-trans buffer size p n m m' m'' low high k k' a (inl h) =
    k' a (inl h) ∙ k a (inl (omega arith))
KeptOutside-trans buffer size p n m m' m'' low high k k' a (inr h) =
    k' a (inr h) ∙ k a (inr (omega arith))

module _ (drivers : Drivers) (files : FileDrivers drivers.State drivers.World)
    (garbage : ℕ → VEntry) where
  open drivers use {State, World}

  -- A driver that lists an entry gives it a name that fits the array `name`.
  unfoldable pub ShortNames : Type 0
  ShortNames =
      (d : ℕ) (state : Option State) (w : World)
      → let (count, state', entries, w') = files.list d state 1 garbage w in
        (is_error count ≡ true) → (negative count ≡ false) → (entries 0).name_length < 256

  vfs_list-short :
      (vref : VRef State) (w : World)
      → ShortNames
      → let (count, vref', entries, w') = vfs_list files vref 1 garbage w in
        (is_error count ≡ true) → (negative count ≡ false) → (entries 0).name_length < 256
  unfolding vfs_list ShortNames
  vfs_list-short vref w short some_left fine = elim (Option-cases vref.driver) [
    | inl e ↦ absurd (ground (arith, e, some_left))
    | inr (d, e) ↦ rw e (short d vref.state w (rw e at some_left) (rw e at fine))
  ]

  pub dirents_loop-Listed :
      (layout : Dirent) (f buffer size bytes : ℕ) (vref : VRef State) (m : Mem) (w : World)
      → IsDirent layout
      → ShortNames
      → size < 2 ^ 32
      → bytes ≤ size
      → size - bytes < f
      → (r : ℤ) × (v : VRef State) × (m' : Mem) × (w' : World) × (dirents_loop drivers files layout
            garbage f buffer size bytes vref m w
          ≡ some (r, v, m', w'))
        × Listed buffer size m r m'
  unfolding dirents_loop
  dirents_loop-Listed layout zero buffer size bytes vref m w l short word fits fuel =
      absurd (omega arith)
  dirents_loop-Listed layout (suc f) buffer size bytes vref m w l short word fits fuel =
      let (count, vref', entries, w') = vfs_list files vref 1 garbage w in
      let e = entries 0 in
      let len = e.name_length in
      let (undone, vref'', w'') = vfs_seek files vref' (to_int e.seek_offset) seek_set w' in
      elim (Bool-cases (is_error count)) [
        | inr done ↦ (
          pos bytes,
          vref',
          m,
          w',
          rw (dirents_loop, done) refl,
          record { counted = fits; kept = λ a h. refl },
        )
        | inl more ↦ elim (Bool-cases (negative count)) [
          | inl bad ↦ (
            count,
            vref',
            m,
            w',
            rw (dirents_loop, more, bad) refl,
            record { counted = ground (arith, bad); kept = λ a h. refl },
          )
          | inr fine ↦
              let esz = layout.entry_size len in
              let bound = vfs_list-short vref w short more fine in
              elim (Bool-cases (ltb_ℤ (to_int ((size + 2 ^ 32 - bytes) % 2 ^ 32)) (to_int esz))) [
                | inl full ↦ (
                  if bytes == 0 then minus linux_einval else pos bytes,
                  vref'',
                  m,
                  w'',
                  rw (dirents_loop, more, fine, full) refl,
                  record { counted = ground arith; kept = λ a h. refl },
                )
                | inr roomy ↦
                    let fit = room size bytes esz word fits (l.small len bound) roomy in
                    let inside = l.inside len bound in
                    let moves = l.moves len bound in
                    let (r, v, m', w3, e', done) =
                      dirents_loop-Listed layout f buffer size (bytes + layout.advance len) vref'
                        (layout.fill (buffer + bytes) e m) w' l short word (omega arith)
                        (omega arith) in
                    (
                      r,
                      v,
                      m',
                      w3,
                      rw (dirents_loop, more, fine, roomy) e',
                      record {
                        counted = done.counted;
                        kept =
                            KeptOutside-trans buffer size (buffer + bytes) esz m
                              (layout.fill (buffer + bytes) e m) m' (omega arith) (omega arith)
                              (l.kept (buffer + bytes) e m bound) done.kept;
                      },
                    )
              ]
        ]
      ]
