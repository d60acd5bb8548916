-- ===== src/Floppy/Tests.antt =====
-- floppy.c: a controller that always has a byte.
use neos.Base.{ℕ, ◌+◌, ◌≤◌, ◌<◌, ◌≡◌, arith, ◌==◌, if◌then◌else◌}
use neos.Floppy.{Ports, main_status_register}
use neos.Floppy.Chs.{lba_to_chs, chs_to_lba, chs_to_lba-lba_to_chs}

chs_to_lba-lba_to_chs_example :
    (chs_to_lba (lba_to_chs 2879) ≡ 2879)
    × ((lba_to_chs 2879).0 < 80)
    × ((lba_to_chs 2879).1 < 2)
    × (1 ≤ (lba_to_chs 2879).2)
    × ((lba_to_chs 2879).2 ≤ 18)
chs_to_lba-lba_to_chs_example = chs_to_lba-lba_to_chs 2879 (omega arith)

-- Its status register reads 0xE0, and its data register counts the bytes taken.
abbrev counting : Ports
counting = record {
  Dev = ℕ;
  inb = λ port d. if port == main_status_register then (0xE0, d) else (d, d + 1);
  outb = λ port byte d. d;
}
