-- ===== src/Syscall/Files/Opening.antt =====
-- syscall.c: opening a path, and what its descriptor leads to.
use neos.Base.{
  ℕ, suc, ◌+◌, ◌<◌, ◌≡◌, refl, ◌≢◌, inl, inr, Bool, true, false, some, List, arith, ◌∷◌, ◌++◌,
  get_elem?, ◌∙◌, ap, sym, length, if◌then◌else◌, ◌==◌, ne→==, lt-cases,
}
use neos.Base.Int.{ℤ, pos, minus}
use neos.Vfs.Path.{linux_enametoolong, slash}
use neos.Vfs.Path.Segment.{AllPlain}
use neos.Vfs.Tree.{Drivers, VRef, vfs_open, vfs_refcpy, vfs_update}
use neos.Vfs.Tree.Open.{vfs_open-too_long}
use neos.Scheduler.State.{max_files, Descriptor, Sched}
use neos.Scheduler.Files.Laws.{
  Put, refused, stored, fput-Put, fput-running, load_process_info-IsProcess,
}
use neos.Syscall.{Kernel, fd_resolve, fd_cwd, install_fd, fd_open, linux_emfile}
use neos.Syscall.Descriptors.{IsCaller, caller-pos}
use neos.Vfs.Calls.{FileDrivers}
use neos.Syscall.Files.{sys_open}

module _ {State World : Type 0} where
  -- What comes of installing a reference: the error -EMFILE with all slots taken; or the number of
  -- the first free slot, which then resolves to the reference, and every other one as before.
  pub data Installed (k : Kernel State World) (flags : List Bool) (v : VRef State)
      : ℤ → Kernel State World → Type 0 where
    full :
        ((n : ℕ) → n < max_files → get_elem? flags n ≡ some true)
        → Installed k flags v (minus linux_emfile) k
    opened :
        {k' : Kernel State World} (j : ℕ)
        → j < max_files
        → get_elem? flags j ≡ some false
        → ((n : ℕ) → n < j → get_elem? flags n ≡ some true)
        → fd_resolve k' (pos (suc j)) ≡ some (some v)
        → ((n : ℕ)
            → n < max_files
            → j ≢ n
            → fd_resolve k' (pos (suc n)) ≡ fd_resolve k (pos (suc n)))
        → Installed k flags v (pos (suc j)) k'

  -- With a free slot it is the second, at the first free slot.
  Installed-first :
      (k k' : Kernel State World) (flags : List Bool) (v : VRef State) (r : ℤ) (j : ℕ)
      → j < max_files
      → get_elem? flags j ≡ some false
      → ((n : ℕ) → n < j → get_elem? flags n ≡ some true)
      → Installed k flags v r k'
      → (r ≡ pos (suc j)) × (fd_resolve k' (pos (suc j)) ≡ some (some v))
  Installed-first k k' flags v r j low free before (full all) =
      absurd (ground (arith, all j low, free))
  Installed-first k k' flags v r j low free before (opened j' low' free' before' found kept) =
      elim (lt-cases j j') [
        | inl lt ↦ absurd (ground (arith, before' j lt, free))
        | inr (inl same) ↦ (ap (λ (x : ℕ). pos (suc x)) (sym same), rw same found)
        | inr (inr gt) ↦ absurd (ground (arith, before j' gt, free'))
      ]

  pub fd_cwd-IsCaller :
      (k : Kernel State World) (i : ℕ) (d : Descriptor (VRef State)) (flags : List Bool)
      → IsCaller k i d flags
      → fd_cwd k ≡ some d.cwd
  unfolding fd_cwd
  fd_cwd-IsCaller k i d flags p =
      rw (caller-pos k i p.running, load_process_info-IsProcess k.sched i d flags p.process) refl

module _ (drivers : Drivers) where
  open drivers use {State, World}

  -- What `scheduler_fput` did, as a result of the call.
  Put-Installed :
      (k : Kernel State World) (i : ℕ) (flags : List Bool) (v : VRef State) (n : ℕ)
      (s : Sched (VRef State))
      → k.sched.process_running ≡ pos i
      → s.process_running ≡ pos i
      → Put k.sched i flags v (n, s)
      → Installed k flags v (if n == 0 then minus linux_emfile else pos n) (record k { sched = s })
  unfolding fd_resolve
  Put-Installed k i flags v n s h h' (refused all) = full all
  Put-Installed k i flags v n s h h' (stored j low free before found kept) =
      let k' : Kernel State World = record k { sched = s } in
      let same : (if j + 1 == 0 then minus linux_emfile else pos (j + 1)) ≡ pos (suc j) =
        ground arith in
      rw same (
        opened {k' = k'} j low free before (rw (caller-pos k' i h') found)
          λ n lt ne. rw (caller-pos k' i h', caller-pos k i h) (kept n lt ne))

  install_fd-Installed :
      (k : Kernel State World) (i : ℕ) (d : Descriptor (VRef State)) (flags : List Bool)
      (v : VRef State)
      → IsCaller k i d flags
      → (r : ℤ) × (k' : Kernel State World) × (install_fd drivers v k ≡ some (r, k'))
        × Installed k flags v r k'
  unfolding install_fd
  install_fd-Installed k i d flags v p =
      let ((n, s), e, put) = fput-Put k.sched i d flags v p.process in
      (
        if n == 0 then minus linux_emfile else pos n,
        record k { sched = s },
        rw (caller-pos k i p.running, e) refl,
        Put-Installed k i flags v n s p.running
            (fput-running k.sched s (pos (suc i)) v n e ∙ p.running) put,
      )

module _ (drivers : Drivers) (files : FileDrivers drivers.State drivers.World) where
  open drivers use {State, World}

  -- Where vfs_open returns a number that is not negative, sys_open installs the reference that it
  -- leaves: it returns the first free descriptor, which then resolves to that reference while every
  -- other one resolves as before, or -EMFILE if all are taken.
  pub sys_open-Installed :
      (k : Kernel State World) (i : ℕ) (d : Descriptor (VRef State)) (flags : List Bool)
      (filename : List ℕ) (options mode res : ℕ) (v : VRef State) (w : World)
      → IsCaller k i d flags
      → vfs_open drivers k.tree k.root_ref d.cwd filename options k.world ≡ some (pos res, v, w)
      → (r : ℤ) × (k' : Kernel State World) × (sys_open drivers files filename options mode k
          ≡ some (r, k'))
        × Installed (record k { world = w }) flags v r k'
  unfolding sys_open fd_open
  sys_open-Installed k i d flags filename options mode res v w p h =
      let k1 : Kernel State World = record k { world = w } in
      let p1 : IsCaller k1 i d flags = record { running = p.running; process = p.process } in
      let (r, k', e, installed) = install_fd-Installed drivers k1 i d flags v p1 in
      (r, k', rw (sys_open, fd_cwd-IsCaller k i d flags p, fd_open, h) e, installed)

  -- A path that vfs_open finds too long gets a descriptor.
  install_too_long :
      (k : Kernel State World) (i : ℕ) (d : Descriptor (VRef State)) (flags : List Bool)
      (path : List ℕ) (options mode j : ℕ) (vref : VRef State) (w : World)
      → IsCaller k i d flags
      → j < max_files
      → get_elem? flags j ≡ some false
      → ((n : ℕ) → n < j → get_elem? flags n ≡ some true)
      → vfs_open drivers k.tree k.root_ref d.cwd path options k.world
        ≡ some (pos linux_enametoolong, vref, w)
      → (k' : Kernel State World) × (sys_open drivers files path options mode k
          ≡ some (pos (suc j), k'))
        × (fd_resolve k' (pos (suc j)) ≡ some (some vref))
  install_too_long k i d flags path options mode j vref w p low free before opened_long =
      let (fd, k', e, installed) =
        sys_open-Installed k i d flags path options mode linux_enametoolong vref w p opened_long in
      let (e_fd, found) =
        Installed-first (record k { world = w }) k' flags vref fd j low free before installed in
      (k', rw (← e_fd) e, found)

  -- On a path whose first section has 255 or more bytes, whether it starts with a slash or not,
  -- sys_open does not fail: with a free slot it returns its number, and leaves it resolving to the
  -- place that the path starts from, which is the root or the working directory.
  pub sys_open-too_long :
      (absolute : Bool) (k : Kernel State World) (i : ℕ) (d : Descriptor (VRef State))
      (flags : List Bool) (c : ℕ) (name r : List ℕ) (options mode j : ℕ) (res : ℤ)
      (vref : VRef State) (w : World)
      → IsCaller k i d flags
      → j < max_files
      → get_elem? flags j ≡ some false
      → ((n : ℕ) → n < j → get_elem? flags n ≡ some true)
      → AllPlain (c ∷ name)
      → length (c ∷ name) ≡ 255
      → (let (copy, w0) = vfs_refcpy drivers (if absolute then k.root_ref else d.cwd) k.world in
          vfs_update drivers k.tree copy w0 ≡ some (res, vref, w))
      → let section = c ∷ (name ++ r) in
        let path = if absolute then slash ∷ section else section in
        (k' : Kernel State World) × (sys_open drivers files path options mode k
          ≡ some (pos (suc j), k'))
        × (fd_resolve k' (pos (suc j)) ≡ some (some vref))
  sys_open-too_long true k i d flags c name r options mode j res vref w p low free before plain long
        u =
      let path = slash ∷ c ∷ (name ++ r) in
      install_too_long k i d flags path options mode j vref w p low free before (
        vfs_open-too_long drivers k.tree k.root_ref d.cwd vref path options c name r res k.world w
          plain long (inr refl) u)
  sys_open-too_long false k i d flags c name r options mode j res vref w p low free before plain
        long u =
      let path = c ∷ (name ++ r) in
      install_too_long k i d flags path options mode j vref w p low free before (
        vfs_open-too_long drivers k.tree k.root_ref d.cwd vref path options c name r res k.world w
          plain long (inl refl) (rw (ne→== c slash plain.0.0) u))
