-- ===== src/Syscall/Descriptors.antt =====
-- syscall.c: what the calls make of a descriptor, good or bad.
use neos.Base.{ℕ, suc, ◌≡◌, refl, inl, inr, Bool, some, List, arith, set, Bool-cases}
use neos.Base.Int.{ℤ, pos, ◌+ℤ◌}
use neos.Vfs.Tree.{VRef}
use neos.Scheduler.State.{Descriptor, put}
use neos.Scheduler.Pid.{index, get_current_pid}
use neos.Scheduler.Files.Laws.{IsProcess, fget-entry}
use neos.Syscall.{Kernel, caller, nonpositive, fd_resolve, store_fd}

module _ {State World : Type 0} where
  -- Slot `i` of the table is the process that runs.
  pub record IsCaller (k : Kernel State World) (i : ℕ) (d : Descriptor (VRef State))
      (flags : List Bool) : Type 0 where
    pub running : k.sched.process_running ≡ pos i
    pub process : IsProcess k.sched i d flags

  pub caller-pos :
      (k : Kernel State World) (i : ℕ) → k.sched.process_running ≡ pos i → caller k ≡ pos (suc i)
  unfolding get_current_pid ◌+ℤ◌
  caller-pos k i h = rw h (ground arith)

  -- A descriptor that resolves belongs to a process of the table, so the reference can be stored.
  pub fd_resolve-store :
      (k : Kernel State World) (fd : ℤ) (v v' : VRef State)
      → fd_resolve k fd ≡ some (some v)
      → (k' : Kernel State World) × (store_fd k fd v' ≡ some k') × (k'.memory ≡ k.memory)
  unfolding fd_resolve store_fd
  fd_resolve-store k fd v v' h = elim (Bool-cases (nonpositive fd)) [
    | inl bad ↦ absurd (ground (arith, bad, h))
    | inr fine ↦
        let (d, e) = fget-entry k.sched (caller k) fd v (rw (fd_resolve, fine) at h) in
        let process = record d { files = set d.files (index fd) v' } in
        (record k { sched = put k.sched (index (caller k)) process }, rw (store_fd, e) refl, refl)
  ]
