-- ===== src/Floppy.antt =====
-- floppy.c: the driver of the floppy disk controller.
pub mod Chs
pub mod Sector
pub mod Transfer
mod Tests
use Prim.Native.Nat.{bit_and, bit_or}
use neos.Base.{
  ℕ, zero, suc, ◌+◌, ◌*◌, ◌%◌, Bool, true, false, not, ◌&&◌, ◌||◌, ◌==◌, ltb, if◌then◌else◌,
}
use neos.Memory.{store}
use neos.Floppy.Chs.{lba_to_chs}

-- The controller behind the processor's ports: io.c's `inb` and `outb` are single instructions.
-- Reading a port may change the device too.
pub record Ports : Type 1 where
  pub Dev : Type 0
  pub inb : ℕ → Dev → ℕ × Dev
  pub outb : ℕ → ℕ → Dev → Dev

-- The bytes from a buffer's start on.
abbrev pub Buf : Type 0
Buf = ℕ → ℕ

-- `enum FloppyRegisters`
abbrev pub digital_output_register : ℕ
digital_output_register = 0x3F2

abbrev pub main_status_register : ℕ
main_status_register = 0x3F4

abbrev pub data_fifo : ℕ
data_fifo = 0x3F5

-- `enum FloppyMSR`
abbrev pub rqm : ℕ
rqm = 0x80

abbrev pub dio : ℕ
dio = 0x40

abbrev pub ndma : ℕ
ndma = 0x20

abbrev pub drive1 : ℕ
drive1 = 1

module _ (ports : Ports) where
  open ports use {Dev, inb, outb}

  abbrev pub M : Type 0 → Type 0
  M A = Dev → A × Dev

  infixl 5 ◌>>=◌ ◌>>◌
  abbrev pub ◌>>=◌ : {A B : Type 0} → M A → (A → M B) → M B
  ◌>>=◌ m f d = let (a, d') = m d in f a d'

  abbrev pub ◌>>◌ : {B : Type 0} → M (Unit {0}) → M B → M B
  m >> k = m >>= λ _. k

  abbrev pub pure : {A : Type 0} → A → M A
  pure a d = (a, d)

  abbrev pub output : ℕ → ℕ → M (Unit {0})
  output port byte d = (tt, outb port byte d)

  -- one poll of the status register for each round of `timeout`
  pub wait_msr : (timeout mask value : ℕ) → M Bool
  wait_msr zero mask value = pure false
  wait_msr (suc n) mask value = do
    msr ← inb main_status_register
    let rest = wait_msr n mask value
    if bit_and msr mask == value then pure true else rest

  pub wait_ready : ℕ → M Bool
  wait_ready timeout = wait_msr timeout rqm rqm

  pub wait_ready_send : ℕ → M Bool
  wait_ready_send timeout = wait_msr timeout (bit_or rqm dio) rqm

  pub send_command : ℕ → M (Unit {0})
  send_command command = do
    ready ← wait_ready_send 0xffffff
    if ready then output data_fifo command else pure tt

  pub get_version : M ℕ
  get_version = do
    send_command 16
    version ← inb data_fifo
    ready ← wait_ready_send 0xffffff
    pure (if ready then version else 0)

  pub calibrate : ℕ → M Bool
  calibrate drive = do
    send_command 7
    send_command drive
    ready ← wait_ready 0xffffff
    if not ready then pure false else do
      send_command 8
      status ← inb data_fifo
      cylinder ← inb data_fifo
      pure (cylinder == 0 && status == bit_or 0x20 drive)

  -- `for (int i = 0; i < 10; i++)`, with the rounds left
  pub seek_loop : ℕ → (head cylinder : ℕ) → M Bool
  seek_loop zero head cylinder = pure false
  seek_loop (suc n) head cylinder = do
    send_command 15
    send_command (bit_or (head * 4) drive1 % 256)
    send_command cylinder
    ready ← wait_ready 0xffffff
    let again = seek_loop n head cylinder
    if not ready then pure false else do
      send_command 8
      status ← inb data_fifo
      cylinder_result ← inb data_fifo
      if cylinder == cylinder_result then pure true else again

  pub seek : (head cylinder : ℕ) → M Bool
  seek head cylinder = seek_loop 10 head cylinder

  -- The nine command bytes that start a sector transfer.
  pub send_transfer : (command head cylinder sector : ℕ) → M (Unit {0})
  send_transfer command head cylinder sector = do
    send_command command
    send_command (bit_or (head * 4) drive1 % 256)
    send_command cylinder
    send_command head
    send_command sector
    send_command 2
    send_command sector
    send_command 0x1b
    send_command 0xff

  -- The seven result bytes, and the test on them.
  pub transfer_result : (head cylinder sector : ℕ) → M Bool
  transfer_result head cylinder sector = do
    st0 ← inb data_fifo
    st1 ← inb data_fifo
    st2 ← inb data_fifo
    result_cylinder ← inb data_fifo
    result_head ← inb data_fifo
    result_sector ← inb data_fifo
    result_2 ← inb data_fifo
    pure (
        bit_and st0 0xC0 == 0
        && result_cylinder == cylinder
        && result_head == head
        && result_sector == sector
        && result_2 == 2)

  -- The loop that takes the incoming bytes, from index `i` on. On fuel, one for each test.
  pub read_loop : (fuel i : ℕ) → Buf → M (ℕ × Buf)
  read_loop zero i buffer = pure (i, buffer)
  read_loop (suc f) i buffer = do
    ready ← wait_msr 1 (bit_or (bit_or rqm dio) ndma) (bit_or (bit_or rqm ndma) dio)
    let more = do byte ← inb data_fifo; read_loop f (i + 1) (store i byte buffer)
    if not ready || ltb 512 i then pure (i, buffer) else more

  -- `floppy_read_sector` once the data loop has stopped at `i`.
  pub finish_read : (head cylinder sector i : ℕ) → Buf → M (Bool × Buf)
  finish_read head cylinder sector i filled = if not (i == 512) then pure (false, filled) else do
    done ← wait_ready 0xffffff
    if not done
        then pure (false, filled)
        else do fine ← transfer_result head cylinder sector; pure (fine, filled)

  pub read_sector : (head cylinder sector : ℕ) → Buf → M (Bool × Buf)
  read_sector head cylinder sector buffer = do
    found ← seek head cylinder
    if not found then pure (false, buffer) else do
      send_transfer (bit_or (bit_or 6 0x40) 0x20) head cylinder sector
      ready ← wait_ready 0xffffff
      if not ready
          then pure (false, buffer)
          else do (i, filled) ← read_loop 514 0 buffer; finish_read head cylinder sector i filled

  -- `for (uint8_t i = 0; i < 4; i++)`
  pub sense_loop : ℕ → M (Unit {0})
  sense_loop zero = pure tt
  sense_loop (suc n) = do
    send_command 8
    status ← inb data_fifo
    cylinder ← inb data_fifo
    sense_loop n

  pub reset : M Bool
  reset = do
    output digital_output_register 0x00
    output digital_output_register (bit_or (bit_or 4 0x20) drive1)
    sense_loop 4
    send_command 3
    send_command 0xdf
    send_command 0x03
    calibrate drive1

  -- The loop that hands the bytes out, from index `i` on.
  pub write_loop : (fuel i : ℕ) → Buf → M ℕ
  write_loop zero i buffer = pure i
  write_loop (suc f) i buffer = do
    ready ← wait_msr 1 (bit_or (bit_or rqm dio) ndma) (bit_or rqm ndma)
    let more = do output data_fifo (buffer i); write_loop f (i + 1) buffer
    if not ready || ltb 512 i then pure i else more

  pub write_sector : (head cylinder sector : ℕ) → Buf → M Bool
  write_sector head cylinder sector buffer = do
    found ← seek head cylinder
    if not found then pure false else do
      send_transfer (bit_or (bit_or 5 0x40) 0x20) head cylinder sector
      ready ← wait_ready 0xffffff
      if not ready then pure false else do
        i ← write_loop 514 0 buffer
        if not (i == 512) then pure false else do
          done ← wait_ready 0xff
          if done then transfer_result head cylinder sector else do restarted ← reset; pure true

  pub read_lba : ℕ → Buf → M (Bool × Buf)
  read_lba lba buffer =
      let (cylinder, head, sector) = lba_to_chs lba in read_sector head cylinder sector buffer

  pub write_lba : ℕ → Buf → M Bool
  write_lba lba buffer =
      let (cylinder, head, sector) = lba_to_chs lba in write_sector head cylinder sector buffer

  pub init : M Bool
  init = do
    version ← get_version
    if not (version == 0x90) then pure false else do
      send_command 19
      send_command 0x00
      send_command (bit_or (bit_or 0x40 0x20) (bit_and 0 0x0F))
      send_command 0x00
      send_command (bit_or 20 0x80)
      lock_result ← inb data_fifo
      if bit_and lock_result 0x10 == 0 then pure false else reset
