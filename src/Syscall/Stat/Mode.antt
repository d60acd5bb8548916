-- ===== src/Syscall/Stat/Mode.antt =====
-- syscall.c: the mode that the stat calls report.
use neos.Base.{◌≡◌, refl, true, false}
use neos.Vfs.Calls.{
  EntryType, VStat, dt_unknown, dt_fifo, dt_chr, dt_dir, dt_blk, dt_reg, dt_lnk, dt_sock, dt_wht,
}
use neos.Syscall.Stat.{
  mkmode, mode_of, OldKernelStat, Stat, vstat_to_linux_old, vstat_to_linux_32, vstat_to_linux_64,
}

mkmode-all : (type : EntryType) → mkmode type 7 7 7 false false ≡ 0x1ff
unfolding mkmode
mkmode-all dt_unknown = refl
mkmode-all dt_fifo = refl
mkmode-all dt_chr = refl
mkmode-all dt_dir = refl
mkmode-all dt_blk = refl
mkmode-all dt_reg = refl
mkmode-all dt_lnk = refl
mkmode-all dt_sock = refl
mkmode-all dt_wht = refl

mode_of-writtable : (vstat : VStat) → vstat.writtable ≡ true → mode_of vstat ≡ 0x1ff
mode_of-writtable vstat h = rw h (mkmode-all vstat.type)

-- Whatever its type, a file that can be written to gets the mode 0777 from all three conversions,
-- with no bit set that tells a directory from a regular file.
pub st_mode-writtable :
    (vstat : VStat) (old : OldKernelStat) (new : Stat)
    → vstat.writtable ≡ true
    → ((vstat_to_linux_old vstat old).st_mode ≡ 0x1ff)
      × ((vstat_to_linux_32 vstat new).st_mode ≡ 0x1ff)
      × ((vstat_to_linux_64 vstat new).st_mode ≡ 0x1ff)
unfolding vstat_to_linux_old vstat_to_linux_32 vstat_to_linux_64
st_mode-writtable vstat old new h = let mode = mode_of-writtable vstat h in (mode, mode, mode)
