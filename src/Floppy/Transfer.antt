-- ===== src/Floppy/Transfer.antt =====
-- floppy.c, floppy_read and floppy_write: any range of bytes by whole blocks. They are written here
-- over the two functions that transfer one block, which `Floppy.read_lba` and `Floppy.write_lba`
-- are.
pub mod Copy
pub mod Read
pub mod Write
mod Tests
use neos.Base.{
  ℕ, zero, suc, ◌+◌, ◌-◌, ◌*◌, ◌/◌, ◌%◌, ◌^◌, ◌<◌, ◌≡◌, Bool, true, false, ◌&&◌, ◌==◌, ltb, leb,
  if◌then◌else◌,
}
use neos.Memory.{store}
use neos.Floppy.{Buf, Ports, read_lba, write_lba}

-- `dst[to++] = src[from++]`, `n` times
pub copy_bytes : (n from to : ℕ) → (src dst : Buf) → Buf
copy_bytes zero from to src dst = dst
copy_bytes (suc n) from to src dst = copy_bytes n (from + 1) (to + 1) src (store to (src from) dst)

-- `uint32_t` addition
abbrev pub add32 : ℕ → ℕ → ℕ
add32 a b = (a + b) % 2 ^ 32

abbrev pub first_lba : ℕ → ℕ
first_lba address = address / 512

abbrev pub last_lba : (address size : ℕ) → ℕ
last_lba address size = add32 address size / 512

-- the part `start` to `end` of a block that belongs to the range
abbrev pub part_start : (lba address : ℕ) → ℕ
part_start lba address = if lba == first_lba address then address % 512 else 0

abbrev pub part_end : (lba address size : ℕ) → ℕ
part_end lba address size = if lba == last_lba address size then add32 address size % 512 else 512

abbrev pub BlockRead : Type 0 → Type 0
BlockRead Dev = ℕ → Buf → Dev → (Bool × Buf) × Dev

abbrev pub BlockWrite : Type 0 → Type 0
BlockWrite Dev = ℕ → Buf → Dev → Bool × Dev

module _ {Dev : Type 0} (read_block : BlockRead Dev) where
  -- The loop of `floppy_read` with `n` blocks left, at `lba` and at `index` in the output.
  pub read_blocks : (address size n lba index : ℕ) → (tmp out : Buf) → Dev → (Bool × Buf) × Dev
  read_blocks address size zero lba index tmp out d = ((true, out), d)
  read_blocks address size (suc n) lba index tmp out d =
      let ((fine, tmp'), d') = read_block lba tmp d in
      let start = part_start lba address in
      let count = part_end lba address size - start in
      let rest =
        read_blocks address size n (lba + 1) (index + count) tmp'
          (copy_bytes count start index tmp' out) d' in
      if fine then rest else ((false, out), d')

  -- `tmp` is the uninitialised sector buffer on the stack.
  pub floppy_read : (address size : ℕ) → (tmp out : Buf) → Dev → (Bool × Buf) × Dev
  floppy_read address size tmp out d =
      read_blocks address size (last_lba address size + 1 - first_lba address) (first_lba address) 0
        tmp out d

  module _ (write_block : BlockWrite Dev) where
    pub write_blocks :
        (address size : ℕ) (preserve : Bool) (n lba index : ℕ)
        → (tmp buffer : Buf) → Dev
        → Bool × Dev
    write_blocks address size preserve zero lba index tmp buffer d = (true, d)
    write_blocks address size preserve (suc n) lba index tmp buffer d =
        let ((fine, tmp'), d') = if preserve then read_block lba tmp d else ((true, tmp), d) in
        let start = part_start lba address in
        let count = part_end lba address size - start in
        let filled = copy_bytes count index start buffer tmp' in
        let (written, d'') = write_block lba filled d' in
        let rest =
          write_blocks address size preserve n (lba + 1) (index + count) filled buffer d'' in
        if fine then (if written then rest else (false, d'')) else (false, d')

    pub floppy_write : (address size : ℕ) (preserve : Bool) → (tmp buffer : Buf) → Dev → Bool × Dev
    floppy_write address size preserve tmp buffer d =
        write_blocks address size preserve (last_lba address size + 1 - first_lba address)
          (first_lba address) 0 tmp buffer d

-- The functions as the kernel calls them, over the controller.
module _ (ports : Ports) where
  open ports use {Dev}

  pub controller_read : (address size : ℕ) → (tmp out : Buf) → Dev → (Bool × Buf) × Dev
  controller_read = floppy_read (read_lba ports)

  pub controller_write :
      (address size : ℕ) (preserve : Bool) → (tmp buffer : Buf) → Dev → Bool × Dev
  controller_write = floppy_write (read_lba ports) (write_lba ports)
