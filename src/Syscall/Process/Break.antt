-- ===== src/Syscall/Process/Break.antt =====
-- syscall.c: sys_brk.
use neos.Base.{ℕ, ◌+◌, ◌-◌, ◌%◌, ◌^◌, ◌≤◌, ◌<◌, ◌≡◌, refl, Bool, some, List, arith, le→leb}
use neos.Base.Int.{to_int}
use neos.Vfs.Tree.{VRef}
use neos.Scheduler.State.{Descriptor}
use neos.Scheduler.Files.Laws.{load_process_info-IsProcess}
use neos.Syscall.{Kernel}
use neos.Syscall.Descriptors.{IsCaller, caller-pos}
use neos.Syscall.Process.{Allocator, sys_brk}

last_address :
    (start size : ℕ)
    → 0 < size
    → start + size ≤ 2 ^ 32
    → (start + size + 2 ^ 32 - 1) % 2 ^ 32 ≡ start + size - 1
last_address start size block whole = omega arith

module _ {State World : Type 0} (allocator : Allocator World) where
  open allocator use {kmsz, krealloc, gad}

  -- An address inside the process's memory makes sys_brk return the address of its last byte, and
  -- changes nothing.
  pub sys_brk-inside :
      (k : Kernel State World) (i brk : ℕ) (d : Descriptor (VRef State)) (flags : List Bool)
      → IsCaller k i d flags
      → 0 < kmsz d.process_memory k.world
      → d.process_memory + kmsz d.process_memory k.world ≤ 2 ^ 32
      → brk < d.process_memory + kmsz d.process_memory k.world
      → sys_brk allocator brk k
        ≡ some (to_int (d.process_memory + kmsz d.process_memory k.world - 1), k)
  unfolding sys_brk
  sys_brk-inside k i brk d flags p block whole inside =
      let size = kmsz d.process_memory k.world in
      let last = last_address d.process_memory size block whole in
      rw
        (
          caller-pos k i p.running,
          load_process_info-IsProcess k.sched i d flags p.process,
          last,
          le→leb brk (d.process_memory + size - 1) (omega arith),
        )
        refl
