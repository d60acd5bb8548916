-- ===== src/Vfs/Path.antt =====
-- vfs.c, vfs_resolve: taking a path apart, one segment at a time.
pub mod Segment
pub mod RoundTrip
pub mod Bounds
mod Tests
use neos.Base.{
  ℕ, zero, suc, ◌+◌, Bool, true, false, ◌||◌, Option, none, some, List, [], ◌∷◌, ◌==◌, get_or,
  if◌then◌else◌,
}

-- config.h: a name with its null byte, and errno.h
abbrev pub file_max_name : ℕ
file_max_name = 256

abbrev pub linux_enametoolong : ℕ
linux_enametoolong = 36

-- '/'
abbrev pub slash : ℕ
slash = b'/'

-- `vPath`. `string` lists the bytes before the terminator.
pub record VPath : Type 0 where
  pub string : List ℕ
  pub offset : ℕ
  pub resolves : ℕ
  pub errno : ℕ

-- `path->string[i]`: the byte at `i`, null at the terminator.
abbrev pub char_at : List ℕ → ℕ → ℕ
char_at s i = get_or s i 0

-- The inner loop of `vfs_resolve` from `offset` on, with room for `last - i` more characters: the
-- name read, the offset behind it, and whether the room ran out before its end.
unfoldable pub segment_loop : ℕ → List ℕ → ℕ → List ℕ × ℕ × Bool
segment_loop zero s offset = ([], offset, true)
segment_loop (suc room) s offset =
    let chr = char_at s offset in
    let (name, end, long) = segment_loop room s (offset + 1) in
    if (chr == slash) || (chr == 0) then ([], offset, false) else (chr ∷ name, end, long)

-- `if (path->string[path->offset] == '/') path->offset ++;`
unfoldable pub skip_slash : List ℕ → ℕ → ℕ
skip_slash s offset = if char_at s offset == slash then offset + 1 else offset

-- The rest of `vfs_resolve`, from the offset behind the slash.
unfoldable pub resolve_at : VPath → ℕ → VPath × Option (List ℕ)
resolve_at path start =
    let (name, end, long) = segment_loop 255 path.string start in
    if char_at path.string start == 0 then (record path { offset = start }, none) else (
      record path {
        offset = end;
        resolves = path.resolves + 1;
        errno = if long then linux_enametoolong else path.errno;
      },
      some name,
    )

-- `vfs_resolve` returns 1 and fills the buffer (`some` of its bytes), or returns 0 (`none`).
unfoldable pub resolve : VPath → VPath × Option (List ℕ)
resolve path = resolve_at path (skip_slash path.string path.offset)

-- `while (vfs_resolve(&path, buffer))`, collecting the names and stopping as the callers do when a
-- name is too long. On fuel; `none` means that it ran out.
pub resolve_all : ℕ → VPath → Option (List (List ℕ) × VPath)
resolve_all zero path = none
resolve_all (suc f) path = elim (resolve path).1 [
  | none ↦ some ([], (resolve path).0)
  | some name ↦
      if (resolve path).0.errno == 0
      then elim (resolve_all f (resolve path).0) [
        | none ↦ none
        | some (names, end) ↦ some (name ∷ names, end)
      ]
      else some ([], (resolve path).0)
]
