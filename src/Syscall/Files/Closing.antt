-- ===== src/Syscall/Files/Closing.antt =====
-- syscall.c: closing a descriptor.
use neos.Base.{
  ℕ, suc, ◌<◌, ◌≡◌, refl, Bool, true, none, some, List, arith, get_elem?, ne→==, ◌∙◌, set,
}
use neos.Base.Int.{pos, to_int}
use neos.Vfs.Tree.{Drivers, VRef}
use neos.Vfs.Calls.{FileDrivers, vfs_close}
use neos.Scheduler.State.{max_files, Descriptor, Sched, put}
use neos.Scheduler.Files.{fget, fremove}
use neos.Scheduler.Files.Laws.{IsProcess-files, fget-slot, fremove_lem, fremove-running}
use neos.Syscall.{Kernel, fd_resolve, store_fd}
use neos.Syscall.Descriptors.{IsCaller, caller-pos}
use neos.Syscall.Files.{sys_close}

fd-int : (j : ℕ) → j < max_files → to_int (suc j) ≡ pos (suc j)
unfolding max_files
fd-int j low = ground arith

module _ {State World : Type 0} where
  fd_resolve-slot :
      (k : Kernel State World) (i j : ℕ) (d : Descriptor (VRef State)) (flags : List Bool)
      (v : VRef State)
      → IsCaller k i d flags
      → j < max_files
      → get_elem? flags j ≡ some true
      → get_elem? d.files j ≡ some v
      → fget k.sched (pos (suc i)) (to_int (suc j)) ≡ some (some v)
  fd_resolve-slot k i j d flags v p low taken held =
      rw (fd-int j low, fget-slot k.sched i j d flags p.process low, taken, held) refl

  store_fd-IsCaller :
      (k : Kernel State World) (i j : ℕ) (d : Descriptor (VRef State)) (flags : List Bool)
      (v : VRef State)
      → IsCaller k i d flags
      → j < max_files
      → store_fd k (to_int (suc j)) v
        ≡ some (record k { sched = put k.sched i (record d { files = set d.files j v }) })
  unfolding store_fd
  store_fd-IsCaller k i j d flags v p low =
      rw (fd-int j low, caller-pos k i p.running, p.process.held) refl

module _ (drivers : Drivers) (files : FileDrivers drivers.State drivers.World) where
  open drivers use {State, World}

  -- sys_close of an open descriptor closes its reference and returns 0, and after it no descriptor
  -- of the process can be used: looking any of them up reads through a null pointer.
  pub sys_close_lem :
      (k : Kernel State World) (i j : ℕ) (d : Descriptor (VRef State)) (flags : List Bool)
      (v : VRef State)
      → IsCaller k i d flags
      → j < max_files
      → get_elem? flags j ≡ some true
      → get_elem? d.files j ≡ some v
      → (k' : Kernel State World) × (sys_close drivers files (suc j) k ≡ some (pos 0, k'))
        × (k'.world ≡ (vfs_close drivers v k.world).2)
        × ((n : ℕ) → n < max_files → fd_resolve k' (pos (suc n)) ≡ none)
  unfolding sys_close fd_resolve
  sys_close_lem k i j d flags v p low taken held =
      let (res, v', w) = vfs_close drivers v k.world in
      let d1 : Descriptor (VRef State) = record d { files = set d.files j v' } in
      let s1 : Sched (VRef State) = put k.sched i d1 in
      let k1 : Kernel State World = record k { sched = s1; world = w } in
      let c : IsCaller (record k { world = w }) i d flags = record {
        running = p.running;
        process = p.process;
      } in
      let p1 = IsProcess-files k.sched i j d flags v' p.process in
      let (s2, e2, gone, twice, full) = fremove_lem s1 i j d1 flags p1 low taken in
      let runs = fremove-running s1 s2 (pos (suc i)) (pos (suc j)) 0 e2 ∙ p.running in
      let e3 : fremove s1 (pos (suc i)) (to_int (suc j)) ≡ some (0, s2) = rw (fd-int j low) e2 in
      let k2 : Kernel State World = record k1 { sched = s2 } in
      (
        k2,
        rw
            (
              sys_close,
              ne→== (suc j) 0 (λ e. absurd (omega arith)),
              caller-pos k i p.running,
              fd_resolve-slot k i j d flags v p low taken held,
              store_fd-IsCaller (record k { world = w }) i j d flags v' c low,
              caller-pos k1 i p.running,
              e3,
            )
            refl,
        refl,
        λ n high. rw (caller-pos k2 i runs) (gone n high),
      )
