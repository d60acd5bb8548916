-- ===== src/Floppy/Transfer/Tests.antt =====
-- floppy.c: floppy_read and floppy_write over a controller that answers every read with a byte, and
-- keeps count of what it is sent.
use neos.Base.{ℕ, ◌+◌, arith, true}
use neos.Floppy.{Ports, read_lba, write_lba}
use neos.Floppy.Transfer.{controller_read, controller_write}
use neos.Floppy.Transfer.Read.{ReadOutcome, controller_read-ReadOutcome}
use neos.Floppy.Transfer.Write.{WriteOutcome, controller_write-WriteOutcome}

abbrev ports : Ports
ports = record { Dev = ℕ; inb = λ port d. (0xD0, d); outb = λ port byte d. d + 1 }

-- a read over two blocks, begun and ended inside one
controller_read-ReadOutcome_example :
    ReadOutcome
      (read_lba ports)
      500
      600
      0
      3
      0
      (λ i. 0)
      (λ i. 0)
      0
      (controller_read ports 500 600 (λ i. 0) (λ i. 0) 0)
controller_read-ReadOutcome_example =
    controller_read-ReadOutcome ports 500 600 (λ i. 0) (λ i. 0) 0 (omega arith)

controller_write-WriteOutcome_example :
    WriteOutcome
      (read_lba ports)
      (write_lba ports)
      500
      600
      true
      (λ i. 9)
      0
      3
      (λ i. 0)
      0
      (controller_write ports 500 600 true (λ i. 0) (λ i. 9) 0)
controller_write-WriteOutcome_example =
    controller_write-WriteOutcome ports 500 600 true (λ i. 0) (λ i. 9) 0 (omega arith)
