-- ===== src/Syscall/Process.antt =====
-- syscall.c: the calls on the process itself, and the names of the system.
pub mod Break
use neos.Base.{
  ℕ, zero, suc, ◌+◌, ◌-◌, ◌*◌, ◌%◌, ◌^◌, Bool, Option, none, some, List, ◌==◌, leb, if◌then◌else◌,
}
use neos.Base.Int.{ℤ, pos, to_int}
use neos.Memory.{Mem, strcpy}
use neos.Vfs.Tree.{Drivers, VRef}
use neos.Vfs.Trace.{Lookup, vfs_trace}
use neos.Scheduler.State.{Descriptor, Sched, ◌>>=◌}
use neos.Scheduler.Pid.{load_process_info, move_process}
use neos.Syscall.{Kernel, Outcome, caller, fd_cwd}

module _ {State World : Type 0} where
  pub sys_getpid : Kernel State World → Outcome State World
  sys_getpid k = some (caller k, k)

module _ (drivers : Drivers) where
  open drivers use {State, World}

  -- It returns the buffer's address.
  pub sys_getcwd : Lookup drivers → (buf size : ℕ) → Kernel State World → Outcome State World
  sys_getcwd lookup buf size k = do
    cwd ← fd_cwd k
    (m, w) ← vfs_trace drivers lookup k.tree cwd buf (to_int size) k.memory k.world
    some (to_int buf, record k { memory = m; world = w })

-- Where the compiler puts the texts "NEOS", "neos", "0.0.1" and "i386".
pub record Literals : Type 0 where
  pub neos_upper : ℕ
  pub neos_lower : ℕ
  pub version : ℕ
  pub machine : ℕ

-- The five copies, into fields of a width. `fuel` is for the lengths of the texts.
pub name_system : (fuel width : ℕ) → Literals → (uname : ℕ) → Mem → Option Mem
name_system fuel width texts uname m = do
  (n1, m1) ← strcpy fuel uname texts.neos_upper m
  (n2, m2) ← strcpy fuel (uname + width) texts.neos_lower m1
  (n3, m3) ← strcpy fuel (uname + 2 * width) texts.version m2
  (n4, m4) ← strcpy fuel (uname + 3 * width) texts.version m3
  (n5, m5) ← strcpy fuel (uname + 4 * width) texts.machine m4
  some m5

module _ {State World : Type 0} where
  abbrev sys_named :
      (fuel width : ℕ) → Literals → (uname : ℕ) → Kernel State World → Outcome State World
  sys_named fuel width texts uname k = do
    m ← name_system fuel width texts uname k.memory
    some (pos 0, record k { memory = m })

  -- `struct old_utsname` and `struct new_utsname` have fields of 65 bytes.
  pub sys_uname : (fuel : ℕ) → Literals → (uname : ℕ) → Kernel State World → Outcome State World
  sys_uname fuel = sys_named fuel 65

  pub sys_newuname : (fuel : ℕ) → Literals → (uname : ℕ) → Kernel State World → Outcome State World
  sys_newuname fuel = sys_named fuel 65

  -- `struct oldold_utsname` has fields of 9.
  pub sys_olduname : (fuel : ℕ) → Literals → (uname : ℕ) → Kernel State World → Outcome State World
  sys_olduname fuel = sys_named fuel 9

-- The allocator's `kmsz` and `krealloc`, and `gad`, which sets the segments of a process.
pub record Allocator (World : Type 0) : Type 0 where
  pub kmsz : ℕ → World → ℕ
  pub krealloc : (pointer new_size : ℕ) → World → ℕ × World
  pub gad : (segments_index offset size : ℕ) → World → World

module _ {State World : Type 0} (allocator : Allocator World) where
  open allocator use {kmsz, krealloc, gad}

  -- The rest of the call, once more memory is needed. Without any it panics.
  pub grow_break :
      Descriptor (VRef State) → (new_size : ℕ) → Kernel State World → Outcome State World
  grow_break process new_size k =
      let (new_memory, w) = krealloc process.process_memory new_size k.world in
      let actual = kmsz new_memory w in
      let w' = gad process.segments_index new_memory actual w in
      if new_memory == 0 then none else do
        (failed, sched) ← move_process k.sched (caller k) new_memory
        some (to_int actual, record k { sched = sched; world = w' })

  -- Addresses and sizes are 32-bit words; `end_address >= brk` is a comparison of words.
  pub sys_brk : (brk : ℕ) → Kernel State World → Outcome State World
  sys_brk brk k = do
    info ← load_process_info k.sched (caller k)
    process ← info
    let size = kmsz process.process_memory k.world
    let end_address = (process.process_memory + size + 2 ^ 32 - 1) % 2 ^ 32
    let grown = grow_break process ((size + (brk + 2 ^ 32 - end_address)) % 2 ^ 32) k
    if leb brk end_address then some (to_int end_address, k) else grown
