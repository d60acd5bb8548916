-- ===== src/Syscall/Paths/Directory.antt =====
-- syscall.c: changing the working directory.
use neos.Base.{ℕ, suc, ◌<◌, ◌≡◌, refl, Bool, some, List, ◌∙◌, sym}
use neos.Base.Int.{pos}
use neos.Vfs.Tree.{Drivers, VRef, vfs_open, open_directory}
use neos.Vfs.Calls.{FileDrivers, vfs_close}
use neos.Scheduler.State.{max_files, Descriptor, Sched, put}
use neos.Scheduler.Files.Laws.{IsProcess-chdir, chdir-IsProcess, fget-slot}
use neos.Syscall.{Kernel, fd_resolve, fd_cwd}
use neos.Syscall.Descriptors.{IsCaller, caller-pos}
use neos.Syscall.Files.Opening.{fd_cwd-IsCaller}
use neos.Syscall.Paths.{sys_chdir}

module _ (drivers : Drivers) (files : FileDrivers drivers.State drivers.World) where
  open drivers use {State, World}

  -- Where vfs_open succeeds, sys_chdir returns 0, the reference that was opened is the working
  -- directory afterwards, and every descriptor resolves as before.
  pub sys_chdir-fd_cwd :
      (k : Kernel State World) (i : ℕ) (d : Descriptor (VRef State)) (flags : List Bool)
      (path : List ℕ) (v : VRef State) (w : World)
      → IsCaller k i d flags
      → vfs_open drivers k.tree k.root_ref d.cwd path open_directory k.world ≡ some (pos 0, v, w)
      → (k' : Kernel State World) × (sys_chdir drivers files path k ≡ some (pos 0, k'))
        × (fd_cwd k' ≡ some v)
        × ((n : ℕ) → n < max_files → fd_resolve k' (pos (suc n)) ≡ fd_resolve k (pos (suc n)))
  unfolding sys_chdir fd_resolve
  sys_chdir-fd_cwd k i d flags path v w p h =
      let d1 : Descriptor (VRef State) = record d { cwd = v } in
      let s1 : Sched (VRef State) = put k.sched i d1 in
      let w1 = (vfs_close drivers d.cwd w).2 in
      let k0 : Kernel State World = record k { world = w } in
      let k1 : Kernel State World = record k { sched = s1; world = w1 } in
      let p1 = IsProcess-chdir k.sched i d flags v p.process in
      let c1 : IsCaller k1 i d1 flags = record { running = p.running; process = p1 } in
      (
        k1,
        rw
            (
              sys_chdir,
              fd_cwd-IsCaller k i d flags p,
              h,
              caller-pos k0 i p.running,
              chdir-IsProcess k.sched i d flags v p.process,
            )
            refl,
        fd_cwd-IsCaller k1 i d1 flags c1,
        λ n low.
            rw (caller-pos k1 i p.running, caller-pos k i p.running)
              (fget-slot s1 i n d1 flags p1 low
                ∙ sym (fget-slot k.sched i n d flags p.process low)),
      )
