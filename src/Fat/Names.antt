-- ===== src/Fat/Names.antt =====
-- fat.c: names of files, short and long.
pub mod Long
pub mod Short
mod Tests
use neos.Base.{
  ℕ, zero, suc, ◌+◌, ◌-◌, ◌*◌, ◌/◌, ◌%◌, ◌^◌, Bool, true, false, not, ◌&&◌, ◌||◌, List, [], ◌∷◌,
  ◌++◌, ◌==◌, ltb, leb, if◌then◌else◌, length, drop,
}
use Prim.Native.Nat.{bit_or}
use neos.Vfs.Path.{slash}
use neos.Fat.{add32, sub32, mul32}

-- A `char` has its 8 bits, and the low byte of a 16-bit character is what a `char` pointer reads.
abbrev pub low_byte : ℕ → ℕ
low_byte c = c % 256

-- A `char`, which is signed, stored into an `unsigned short`.
abbrev pub widen : ℕ → ℕ
widen c = if ltb c 128 then c else c + 65280

abbrev pub to_lowercase : ℕ → ℕ
to_lowercase c = if leb 65 c && leb c 90 then c + 32 else c

-- `(c >= 'a' && c <= 'z') ? c - ('a' - 'A') : c`
abbrev pub to_uppercase : ℕ → ℕ
to_uppercase c = if leb 97 c && leb c 122 then c - 32 else c

-- The first loop of `fat_itoa`, on fuel: the digits with the last one first.
pub itoa_loop : ℕ → (value base : ℕ) → List ℕ
itoa_loop zero value base = []
itoa_loop (suc f) value base =
    let digit = value % base in
    let rest = itoa_loop f (value / base) base in
    if value == 0 then [] else (if ltb digit 10 then digit + 48 else digit + 55) ∷ rest

-- The swaps from both ends turn a text around.
pub reverse_onto : List ℕ → List ℕ → List ℕ
reverse_onto [] acc = acc
reverse_onto (c ∷ s) acc = reverse_onto s (c ∷ acc)

-- The text, whose length is what `fat_itoa` returns. A word has at most 32 digits.
pub fat_itoa : (value base : ℕ) → List ℕ
fat_itoa value base = if value == 0 then b'0' ∷ [] else reverse_onto (itoa_loop 32 value base) []

-- A loop of `shortname_to_longname`: the characters up to a space.
pub short_part : (n i : ℕ) → (ℕ → ℕ) → List ℕ
short_part zero i shortname = []
short_part (suc n) i shortname =
    let rest = short_part n (i + 1) shortname in
    if shortname i == b' ' then [] else widen (shortname i) ∷ rest

-- The text that `shortname_to_longname` makes of eleven characters; a null ends it.
pub shortname_to_longname : (ℕ → ℕ) → List ℕ
shortname_to_longname shortname =
    let base = short_part 8 0 shortname in
    if shortname 8 == b' ' then base else base ++ (b'.' ∷ short_part 3 8 shortname)

-- The loop of `path_compare` from an index on and what follows it, over a name of 16-bit characters.
-- Both texts end in front of a null.
pub compare_loop : (case_sensitive : Bool) → (path dir_name : List ℕ) (i : ℕ) → ℕ
compare_loop sensitive [] [] i = i
compare_loop sensitive [] (d ∷ dir_name) i = if low_byte d == 0 then i else 0
compare_loop sensitive (c ∷ path) [] i = if c == slash then i else 0
compare_loop sensitive (c ∷ path) (d ∷ dir_name) i =
    let rest = compare_loop sensitive path dir_name (i + 1) in
    let same = if sensitive then c == low_byte d else to_lowercase c == to_lowercase (low_byte d) in
    if low_byte d == 0
    then (if c == slash then i else 0)
    else if c == slash
    then 0
    else if same
    then rest
    else 0

pub path_compare : (path dir_name : List ℕ) → (case_sensitive : Bool) → ℕ
path_compare path dir_name sensitive = compare_loop sensitive path dir_name 0

-- A copy loop of `fat_create`: the characters in capitals from an index of the name up to a limit,
-- and whether there were more.
pub copy_upper : (i limit : ℕ) → List ℕ → (ℕ → ℕ) → (ℕ → ℕ) × Bool
copy_upper i limit [] name = (name, false)
copy_upper i limit (c ∷ s) name =
    if leb limit i
    then (name, true)
    else copy_upper (i + 1) limit s (λ j. if j == i then to_uppercase c else name j)

-- `dot_position`: the last dot of a text, or its length. `i` is the position of the rest.
pub dot_loop : List ℕ → (i dot_position : ℕ) → ℕ
dot_loop [] i dot_position = dot_position
dot_loop (c ∷ s) i dot_position = dot_loop s (i + 1) (if c == b'.' then i else dot_position)

abbrev pub take : ℕ → List ℕ → List ℕ
take zero s = []
take (suc n) [] = []
take (suc n) (c ∷ s) = c ∷ take n s

-- What `fat_create` makes of the last part of a path: the short name, and `lfn_present`.
pub short_name : List ℕ → (ℕ → ℕ) × Bool
short_name name =
    let dot = dot_loop name 0 (length name) in
    let (based, long) = copy_upper 0 8 (take dot name) (λ i. b' ') in
    let (extended, long') = copy_upper 8 11 (drop (dot + 1) name) based in (extended, long || long')

-- `fat_lfn_checksum` over the eleven characters, an `unsigned char` in each round.
pub checksum_loop : (n i : ℕ) → (ℕ → ℕ) → (checksum : ℕ) → ℕ
checksum_loop zero i shortname checksum = checksum
checksum_loop (suc n) i shortname checksum =
    checksum_loop n (i + 1) shortname
      (((if checksum % 2 == 1 then 0x80 else 0) + checksum / 2 + shortname i) % 256)

pub fat_lfn_checksum : (ℕ → ℕ) → ℕ
fat_lfn_checksum shortname = checksum_loop 11 0 shortname 0

-- The fields of `fat_lfn_entry` that are used; the thirteen characters of the three arrays in turn.
pub record LfnEntry : Type 0 where
  pub ord : ℕ
  pub chars : ℕ → ℕ
  pub chksum : ℕ

-- `fat_update_lfn`: the number of entries of a name, and entry number `k`.
pub lfn_entries : (length : ℕ) → ℕ
lfn_entries length = (length - 1) / 13 + 1

pub lfn_entry : (long_filename : ℕ → ℕ) (entries chksum k : ℕ) → LfnEntry
lfn_entry long_filename entries chksum k = record {
  ord = bit_or (if k == entries then 0x40 else 0) k % 256;
  chars = λ i. long_filename ((k - 1) * 13 + i);
  chksum = chksum;
}

-- `fat_find_full` on a long-name entry. The index of the array is a word, so that an offset below 0
-- is one behind 2 ^ 32 - 14.
pub store_lfn : LfnEntry → (ℕ → ℕ) → ℕ → ℕ
store_lfn e long_filename j =
    let offset = mul32 (sub32 (e.ord % 16) 1) 13 in
    let within = sub32 j offset in
    if (leb 0x40 (e.ord % 128)) && (j == add32 offset 13)
    then 0
    else if ltb within 13
    then e.chars within
    else long_filename j
