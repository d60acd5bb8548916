-- ===== src/Floppy/Chs.antt =====
-- floppy.c, lba_to_chs: from a block number to cylinder, head and sector.
use neos.Base.{ℕ, ◌+◌, ◌-◌, ◌*◌, ◌/◌, ◌%◌, ◌≤◌, ◌<◌, ◌≡◌, arith}

-- The three results are `uint8_t`.
pub lba_to_chs : ℕ → ℕ × ℕ × ℕ
lba_to_chs lba = ((lba / 36) % 256, ((lba % 36) / 18) % 256, ((lba % 36) % 18 + 1) % 256)

-- the block that a cylinder, head and sector stand for
abbrev pub chs_to_lba : ℕ × ℕ × ℕ → ℕ
chs_to_lba (cylinder, head, sector) = (cylinder * 2 + head) * 18 + (sector - 1)

-- On a 1.44 MB disk (2880 blocks) the address is in the disk's geometry, 80 cylinders of two heads
-- with sectors 1 to 18, and stands for the block that was asked for.
pub chs_to_lba-lba_to_chs :
    (lba : ℕ)
    → lba < 2880
    → (chs_to_lba (lba_to_chs lba) ≡ lba)
      × ((lba_to_chs lba).0 < 80)
      × ((lba_to_chs lba).1 < 2)
      × (1 ≤ (lba_to_chs lba).2)
      × ((lba_to_chs lba).2 ≤ 18)
unfolding lba_to_chs
chs_to_lba-lba_to_chs lba h = omega arith
