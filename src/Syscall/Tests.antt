-- ===== src/Syscall/Tests.antt =====
-- syscall.c: the theorems on a kernel with one process, whose drivers accept everything.
use neos.Base.{
  ℕ, zero, suc, ◌+◌, ◌<◌, ◌≡◌, refl, Bool, true, false, none, some, [], ◌∷◌, ◌++◌, arith, replicate,
  length-replicate, if◌then◌else◌, ◌==◌,
}
use neos.Base.Int.{ℤ, pos, negsuc, to_int, ◌+ℤ◌}
use neos.Vfs.Path.{resolve, resolve_at, skip_slash, segment_loop}
use neos.Vfs.Path.Segment.{AllPlain}
use neos.Vfs.Tree.{
  Tree, Drivers, VRef, vfs_open, open_loop, vfs_refcpy, vfs_enter, enter_part, vfs_findchld,
  findchld_loop, vfs_update, update_from, enable, open_directory,
}
use neos.Vfs.Calls.{FileDrivers, VEntry, VStat, dt_reg, vfs_close}
use neos.Scheduler.State.{max_files, Descriptor, runnable}
use neos.Scheduler.Pid.{pid_invalid, get_current_pid}
use neos.Scheduler.Files.{fget, fd_invalid}
use neos.Syscall.{Kernel, fd_resolve, fd_cwd}
use neos.Syscall.Files.{sys_open, sys_close}
use neos.Syscall.Paths.{sys_chdir}
use neos.Syscall.Dirents.{
  sys_getdents, sys_getdents64, sys_old_readdir, linux_dirent, linux_dirent64,
}
use neos.Syscall.Descriptors.{IsCaller}
use neos.Syscall.Dirents.Bounds.{ShortNames}
use neos.Syscall.Dirents.Calls.{ReturnsListed, sys_getdents-Listed}
use neos.Syscall.Dirents.Layout.{linux_dirent_lem, linux_dirent64-overlap}
use neos.Syscall.Files.Opening.{Installed, sys_open-Installed, sys_open-too_long}
use neos.Syscall.Files.Closing.{sys_close_lem}
use neos.Syscall.Paths.Directory.{sys_chdir-fd_cwd}
use neos.Syscall.Stat.{OldKernelStat, Stat}
use neos.Syscall.Process.{Allocator}

abbrev tree : Tree
tree = record {
  node = λ i.
      if i == 0
      then record { sibling = none; child = some 1; parent = 0; driver = some 7; name = [] }
      else record { sibling = none; child = none; parent = 0; driver = some 8; name = 112 ∷ [] };
  count = 2;
}

abbrev drivers : Drivers
drivers = record {
  State = ℕ;
  World = ℕ;
  root = λ d s w. (pos 0, some 0, w);
  clone = λ d s w. (s, w);
  open_part = λ d s part flags w. (pos 0, s, w + 1);
  close = λ d s w. (pos 0, none, w + 5);
}

-- A file "ab"
abbrev ab : VEntry
ab = record { seek_offset = 3; name_length = 2; name = λ i. 97 + i; type = dt_reg }

abbrev a_file : VStat
a_file = record { size = 3; atime = 0; mtime = 0; blocks = 1; writtable = true; type = dt_reg }

abbrev files : FileDrivers ℕ ℕ
files = record {
  read = λ d s buffer size m w. (pos 0, s, m, w);
  write = λ d s buffer size m w. (pos 0, s, m, w);
  seek = λ d s offset whence w. (pos 0, s, w);
  list = λ d s max entries w. (pos 1, s, (λ i. ab), w);
  mkdir = λ d s name w. (pos 0, s, w);
  remove = λ d s rmdir w. (pos 0, s, w);
  stat = λ d s buffer w. (pos 0, s, a_file, w);
  readlink = λ d s name buffer size m w. (pos 0, s, m, w);
}

abbrev at_root : VRef ℕ
at_root = record { node = 0; offset = 0; driver = some 7; state = some 0 }

abbrev at_p : VRef ℕ
at_p = record { node = 1; offset = 0; driver = some 8; state = some 0 }

-- A process with all of its descriptors open, or with none.
abbrev process : Bool → Descriptor (VRef ℕ)
process open_all = record {
  exists = true;
  stack = 10;
  process_memory = 4096;
  state = runnable;
  parent_index = negsuc 0;
  files = replicate max_files at_root;
  file_exists = some (replicate max_files open_all);
  cwd = at_root;
  exe = at_root;
  mount = 0;
  segments_index = 1;
}

abbrev kernel : Bool → Kernel ℕ ℕ
kernel open_all = record {
  sched = record {
    table = process open_all ∷ [];
    process_count = 1;
    process_table_size = 2;
    process_running = pos 0;
    calls = [];
    interrupts = true;
  };
  tree = tree;
  root_ref = record { node = 0; offset = 0; driver = none; state = none };
  memory = λ a. 170;
  world = 0;
}

IsCaller-0 : (b : Bool) → IsCaller (kernel b) 0 (process b) (replicate max_files b)
IsCaller-0 b = record {
  running = refl;
  process = record {
    counted = omega arith;
    held = refl;
    alive = refl;
    flagged = refl;
    enough = length-replicate max_files b;
    roomy = length-replicate max_files at_root;
  };
}

short_names : (garbage : ℕ → VEntry) → ShortNames drivers files garbage
unfolding ShortNames
short_names garbage d state w h h' = omega arith

resolves : fd_resolve (kernel true) (to_int 1) ≡ some (some at_root)
unfolding max_files fd_resolve fget fd_invalid pid_invalid get_current_pid ◌+ℤ◌
resolves = refl

-- An entry of 16 bytes fits in 40 twice.
sys_getdents-Listed_example :
    ReturnsListed 1000 40
      (kernel true)
      (sys_getdents drivers files (λ i. ab) 1 1000 40 (kernel true))
    × ReturnsListed 1000 40
        (kernel true)
        (sys_getdents64 drivers files (λ i. ab) 1 1000 40 (kernel true))
    × ReturnsListed 1000 40
        (kernel true)
        (sys_old_readdir drivers files (λ i. ab) 1 1000 40 (kernel true))
sys_getdents-Listed_example =
    sys_getdents-Listed drivers files (λ i. ab) (kernel true) 1 1000 40 at_root
      (short_names (λ i. ab)) (omega arith) resolves

linux_dirent_lem_example :
    (linux_dirent.advance 2 ≡ 16)
    × ((i : ℕ) → i < 2 → linux_dirent.fill 1000 ab (λ a. 170) (1010 + i) ≡ 97 + i)
    × (linux_dirent.fill 1000 ab (λ a. 170) 1012 ≡ 170)
    × (linux_dirent.fill 1000 ab (λ a. 170) 1014 ≡ 8)
    × (linux_dirent.fill 1000 ab (λ a. 170) 1015 ≡ 170)
linux_dirent_lem_example = linux_dirent_lem 1000 ab (λ a. 170) (omega arith)

-- the "b"
linux_dirent64-overlap_example :
    linux_dirent64.fill
      (1000 + linux_dirent64.advance 2)
      ab
      (linux_dirent64.fill 1000 ab (λ a. 170))
      1020
    ≡ 0
linux_dirent64-overlap_example =
    linux_dirent64-overlap 1000 1 ab ab (λ a. 170) (omega arith) (omega arith) (omega arith)

-- "/p"
opened :
    vfs_open drivers tree (kernel false).root_ref at_root (47 ∷ 112 ∷ []) 0 0
    ≡ some (pos 0, at_p, 5)
unfolding vfs_open open_loop vfs_refcpy vfs_enter enter_part vfs_findchld findchld_loop vfs_update
    update_from enable resolve resolve_at skip_slash segment_loop
opened = refl

sys_open-Installed_example :
    (r : ℤ) × (k' : Kernel ℕ ℕ) × (sys_open drivers files (47 ∷ 112 ∷ []) 0 0 (kernel false)
      ≡ some (r, k'))
    × Installed (record (kernel false) { world = 5 }) (replicate max_files false) at_p r k'
sys_open-Installed_example =
    sys_open-Installed drivers files (kernel false) 0 (process false) (replicate max_files false)
      (47 ∷ 112 ∷ []) 0 0 0 at_p 5 (IsCaller-0 false) opened

all_plain : (n : ℕ) → AllPlain (replicate n 97)
all_plain zero = tt
all_plain (suc n) = ((omega arith, omega arith), all_plain n)

sys_open-too_long_example :
    (k' : Kernel ℕ ℕ) × (sys_open drivers files
        (47 ∷ 97 ∷ (replicate 254 97 ++ []))
        0
        0
        (kernel false)
      ≡ some (pos 1, k'))
    × (fd_resolve k' (pos 1) ≡ some (some at_root))
unfolding vfs_refcpy vfs_update update_from enable max_files
sys_open-too_long_example =
    sys_open-too_long drivers files true (kernel false) 0 (process false)
      (replicate max_files false) 97 (replicate 254 97) [] 0 0 0 (pos 0) at_root 0
      (IsCaller-0 false) (omega arith) refl (λ n h. absurd (omega arith)) (all_plain 255) refl refl

sys_close_lem_example :
    (k' : Kernel ℕ ℕ) × (sys_close drivers files 1 (kernel true) ≡ some (pos 0, k'))
    × (k'.world ≡ (vfs_close drivers at_root 0).2)
    × ((n : ℕ) → n < max_files → fd_resolve k' (pos (suc n)) ≡ none)
unfolding max_files
sys_close_lem_example =
    sys_close_lem drivers files (kernel true) 0 0 (process true) (replicate max_files true) at_root
      (IsCaller-0 true) (omega arith) refl refl

opened_directory :
    vfs_open drivers tree (kernel true).root_ref at_root (47 ∷ 112 ∷ []) open_directory 0
    ≡ some (pos 0, at_p, 5)
unfolding vfs_open open_loop vfs_refcpy vfs_enter enter_part vfs_findchld findchld_loop vfs_update
    update_from enable resolve resolve_at skip_slash segment_loop
opened_directory = refl

sys_chdir-fd_cwd_example :
    (k' : Kernel ℕ ℕ) × (sys_chdir drivers files (47 ∷ 112 ∷ []) (kernel true) ≡ some (pos 0, k'))
    × (fd_cwd k' ≡ some at_p)
    × ((n : ℕ)
        → n < max_files
        → fd_resolve k' (pos (suc n)) ≡ fd_resolve (kernel true) (pos (suc n)))
sys_chdir-fd_cwd_example =
    sys_chdir-fd_cwd drivers files (kernel true) 0 (process true) (replicate max_files true)
      (47 ∷ 112 ∷ []) at_p 5 (IsCaller-0 true) opened_directory

abbrev old_stat : OldKernelStat
old_stat = record {
  st_dev = 9;
  st_ino = 9;
  st_mode = 9;
  st_nlink = 9;
  st_uid = 9;
  st_gid = 9;
  st_rdev = 9;
  st_size = 9;
  st_atime = 9;
  st_mtime = 9;
  st_ctime = 9;
}

abbrev new_stat : Stat
new_stat = record {
  st_dev = 9;
  st_ino = 9;
  st_mode = 9;
  st_nlink = 9;
  st_uid = 9;
  st_gid = 9;
  st_rdev = 9;
  st_size = pos 9;
  st_blksize = pos 9;
  st_blocks = pos 9;
  st_atime = pos 9;
  st_atime_nsec = 9;
  st_mtime = pos 9;
  st_mtime_nsec = 9;
  st_ctime = pos 9;
  st_ctime_nsec = 9;
}

-- Every block has 4096 bytes, and a larger one is found at 16384 with 8192.
abbrev allocator : Allocator ℕ
allocator = record {
  kmsz = λ p w. if p == 4096 then 4096 else 8192;
  krealloc = λ p n w. (16384, w);
  gad = λ i p n w. w;
}
