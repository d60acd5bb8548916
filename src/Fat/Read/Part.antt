-- ===== src/Fat/Read/Part.antt =====
-- fat.c, fat_fread: what is read of one cluster.
use neos.Base.{
  ℕ, ◌+◌, ◌-◌, ◌^◌, ◌≤◌, ◌<◌, ◌≡◌, arith, refl, Bool-cases, inl, inr, leb→le, leb→lt, le→leb, ap,
  ◌∙◌, ltb, leb, if◌then◌else◌,
}
use neos.Fat.{add32, sub32}
use neos.Fat.Read.{File, read_part}

-- The bytes that a read of `data_size` bytes has taken when the file has been followed to `reach`.
abbrev pub taken : (data_size cursor reach : ℕ) → ℕ
taken data_size cursor reach = if ltb data_size (reach - cursor) then data_size else reach - cursor

abbrev pub smaller : ℕ → ℕ → ℕ
smaller a b = if ltb a b then a else b

sub32_le : (a b : ℕ) → b ≤ a → a < 2 ^ 32 → sub32 a b ≡ a - b
sub32_le a b h k = omega arith

add32_lt : (a b : ℕ) → a + b < 2 ^ 32 → add32 a b ≡ a + b
add32_lt a b h = omega arith

-- `read_part` where nothing wraps, with the size of the part and the number of bytes named.
part_of : (size file_size offset : ℕ) → ℕ
part_of size file_size offset =
    if ltb file_size offset then sub32 size (sub32 offset file_size) else size

part_of_lem :
    (size file_size offset : ℕ)
    → size ≤ 65536
    → file_size + 65536 < 2 ^ 32
    → offset < file_size
    → offset + part_of size file_size (offset + size) ≡ smaller (offset + size) file_size
unfolding part_of
part_of_lem size file_size offset a b c = ground arith

bytes_of : (part total data_size : ℕ) → ℕ
bytes_of part total data_size =
    if ltb (add32 part total) data_size then part else sub32 data_size total

bytes_of_lem :
    (part total data_size : ℕ)
    → part + total < 2 ^ 32
    → data_size < 2 ^ 32
    → total ≤ data_size
    → bytes_of part total data_size ≡ smaller part (data_size - total)
unfolding bytes_of
bytes_of_lem part total data_size a b c = ground arith

trimmed_of : (part bytes skip : ℕ) → ℕ
trimmed_of part bytes skip =
    if ltb part (add32 bytes skip) then sub32 bytes (sub32 (add32 bytes skip) part) else bytes

trimmed_of_lem :
    (part bytes skip : ℕ)
    → part ≤ 65536
    → bytes ≤ part
    → skip ≤ part
    → trimmed_of part bytes skip ≡ smaller bytes (part - skip)
unfolding trimmed_of
trimmed_of_lem part bytes skip a b c = ground arith

read_part_eq :
    (size start offset data_size total : ℕ) (file : File)
    → read_part size start file data_size offset total ≡ (
        let part = part_of size file.file_size offset in
        let bytes = bytes_of part total data_size in
        let skip = sub32 size (sub32 offset file.cursor) in
        if leb (sub32 offset file.cursor) size
        then (trimmed_of part bytes skip, add32 start skip)
        else (bytes, start))
unfolding read_part part_of bytes_of trimmed_of
read_part_eq size start offset data_size total file = refl

module _ (size start offset data_size total : ℕ) (file : File) (a : size ≤ 65536)
    (d : file.file_size + 65536 < 2 ^ 32) (f : offset < file.file_size)
    (e : file.cursor ≤ file.file_size) where
  part_here : ℕ
  part_here = part_of size file.file_size (offset + size)

  read_part-inside :
      (bytes_of part_here total data_size ≤ part_here)
      → start + size < 2 ^ 32
      → offset ≤ file.cursor
      → file.cursor < offset + size
      → read_part size start file data_size (offset + size) total ≡ (
        smaller (bytes_of part_here total data_size) (part_here - (file.cursor - offset)),
        start + (file.cursor - offset),
      )
  unfolding part_here
  read_part-inside fits c h g =
      let p = part_of_lem size file.file_size offset a d f in
      let back = sub32_le (offset + size) file.cursor (omega arith) (omega arith) in
      let skip = sub32_le size (offset + size - file.cursor) (omega arith) (omega arith) in
      let t =
        trimmed_of_lem part_here (bytes_of part_here total data_size) (file.cursor - offset)
          (ground (arith, p)) fits (ground (arith, p)) in
      read_part_eq size start (offset + size) data_size total file
      ∙ rw (back, skip) (ground (arith, t))

  read_part-behind :
      file.cursor < offset
      → read_part size start file data_size (offset + size) total
        ≡ (bytes_of part_here total data_size, start)
  unfolding part_here
  read_part-behind h =
      read_part_eq size start (offset + size) data_size total file
      ∙ rw (sub32_le (offset + size) file.cursor (omega arith) (omega arith)) (ground arith)

-- Of a cluster at `offset` in the file, the bytes from the cursor to the end of the cluster or of
-- the file are read, as far as they are asked for, and they are those that follow what was read.
pub read_part_lem :
    (size start offset data_size : ℕ) (file : File)
    → size ≤ 65536
    → data_size < 2 ^ 32
    → start + size < 2 ^ 32
    → file.file_size + 65536 < 2 ^ 32
    → file.cursor ≤ file.file_size
    → offset < file.file_size
    → file.cursor < offset + size
    → (let total = taken data_size file.cursor offset in
        let end = smaller (offset + size) file.file_size in
        let (bytes, src) = read_part size start file data_size (offset + size) total in
        (total + bytes ≡ taken data_size file.cursor end)
        × (bytes ≤ size)
        × (0 < bytes
            → (src + offset ≡ start + (file.cursor + total))
              × (file.cursor + total + bytes ≤ offset + size)
              × (offset ≤ file.cursor + total)))
unfolding part_here
read_part_lem size start offset data_size file a b c d e f g =
    let total = taken data_size file.cursor offset in
    let part = part_of size file.file_size (offset + size) in
    let bytes = bytes_of part total data_size in
    let p = part_of_lem size file.file_size offset a d f in
    let q = bytes_of_lem part total data_size (ground (arith, p)) b (ground arith) in
    elim (Bool-cases (leb offset file.cursor)) [
      | inl inside ↦
          rw
            (read_part-inside size start offset data_size total file a d f e (ground (arith, q)) c
              (leb→le _ _ inside) g)
            (ground (arith, p, q))
      | inr behind ↦
          rw (read_part-behind size start offset data_size total file a d f e (leb→lt _ _ behind))
            (ground (arith, p, q))
    ]

part_of-inside :
    (size file_size offset : ℕ)
    → size ≤ 65536
    → offset < 2 ^ 32
    → file_size < offset
    → offset ≤ file_size + size
    → part_of size file_size offset ≡ size - (offset - file_size)
unfolding part_of
part_of-inside size file_size offset a b c d = ground arith

trimmed_past :
    (part bytes skip : ℕ)
    → bytes ≤ part
    → part < skip
    → skip ≤ 65536
    → trimmed_of part bytes skip ≡ 2 ^ 32 - (skip - part)
unfolding trimmed_of
trimmed_past part bytes skip a b c = ground arith

-- With the cursor past the end of the file but in its last cluster, the number of bytes that
-- fat_fread asks the disk for wraps below zero, whatever number was asked for.
pub read_part-past_end :
    (size start offset data_size total : ℕ) (file : File)
    → size ≤ 65536
    → offset < 2 ^ 32
    → data_size < 2 ^ 32
    → total ≤ data_size
    → total < 65536
    → file.file_size < file.cursor
    → file.cursor < offset
    → offset ≤ file.file_size + size
    → (read_part size start file data_size offset total).0 ≡ 2 ^ 32 - (file.cursor - file.file_size)
read_part-past_end size start offset data_size total file a b c d e f g h =
    let part = part_of-inside size file.file_size offset a b (omega arith) h in
    let back = sub32_le offset file.cursor (omega arith) b in
    let skip = sub32_le size (offset - file.cursor) (omega arith) (omega arith) in
    let part_here = part_of size file.file_size offset in
    let bytes = bytes_of_lem part_here total data_size (omega (arith, part)) c d in
    ap (λ (r : ℕ × ℕ). r.0) (read_part_eq size start offset data_size total file)
    ∙ rw (back, skip, le→leb (offset - file.cursor) size (omega arith))
        (trimmed_past part_here (bytes_of part_here total data_size) (size - (offset - file.cursor))
            (ground (arith, bytes)) (omega (arith, part)) (omega arith)
          ∙ omega (arith, part))
