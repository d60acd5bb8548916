-- ===== src/Scheduler/Create.antt =====
-- scheduler.c: scheduler_new_entry and scheduler_create_process.
pub mod Laws
use neos.Base.{
  ℕ, zero, suc, ◌+◌, ◌-◌, ◌*◌, ◌%◌, ◌^◌, Bool, true, false, ◌&&◌, Option, none, some, List, ◌++◌,
  ◌==◌, replicate, if◌then◌else◌,
}
use neos.Base.Int.{ℤ, pos, negsuc}
use neos.Scheduler.State.{max_files, Descriptor, runnable, Sched, ◌>>=◌, entry, put}
use neos.Scheduler.Pid.{pid_invalid}

-- What the allocator hands out: the slots that `krealloc` adds behind the table, and the array of
-- `files`. Their contents are arbitrary.
pub record Fresh (Ref : Type 0) : Type 0 where
  pub slots : List (Descriptor Ref)
  pub files : List Ref

-- The arguments of `scheduler_new_entry`.
pub record Arguments (Ref : Type 0) : Type 0 where
  pub parent_index : ℤ
  pub stack : ℕ
  pub process_memory : ℕ
  pub exe : Ref
  pub mount : ℕ
  pub segments_index : ℕ

module _ {Ref : Type 0} where
  -- `while (index != process_count && table[index].exists) index ++;` with the rounds left.
  pub find_slot : ℕ → Sched Ref → ℕ → Option ℕ
  find_slot zero s i = some i
  find_slot (suc f) s i = do
    process ← entry s i
    let rest = find_slot f s (i + 1)
    if process.exists then rest else some i

  -- the table made larger if it is full, and counted once
  pub append_slot : Fresh Ref → Sched Ref → Sched Ref
  append_slot fresh s =
      if s.process_table_size == s.process_count
      then record s {
        process_table_size = s.process_table_size * 2;
        table = s.table ++ fresh.slots;
        process_count = s.process_count + 1;
      }
      else record s { process_count = s.process_count + 1 }

  pub new_process : (root : Ref) → Fresh Ref → Arguments Ref → Descriptor Ref
  new_process root fresh args = record {
    exists = true;
    stack = args.stack;
    process_memory = args.process_memory;
    state = runnable;
    parent_index = args.parent_index;
    files = fresh.files;
    file_exists = some (replicate max_files false);
    cwd = root;
    exe = args.exe;
    mount = args.mount;
    segments_index = args.segments_index;
  }

  -- The writes to the slot, and the second count.
  pub fill_slot : ℕ → Descriptor Ref → Sched Ref → Option (Sched Ref)
  fill_slot i process s = do
    old ← entry s i
    some (record (put s i process) { process_count = s.process_count + 1 })

  -- `root` is what `vfs_root` returns.
  pub new_entry : (root : Ref) → Fresh Ref → Arguments Ref → Sched Ref → Option (Sched Ref)
  new_entry root fresh args s = do
    i ← find_slot s.process_count s 0
    fill_slot i (new_process root fresh args)
        (if i == s.process_count then append_slot fresh s else s)

-- `ProgramImage` as `elf_load` fills it.
pub record ProgramImage : Type 0 where
  pub entry : ℕ
  pub mount : ℕ
  pub image : ℕ

-- The allocator's measure of a block, and the assembly routine that prepares a stack.
pub record Machine : Type 0 where
  pub kmsz : ℕ → ℕ
  pub isr_stub_stack : (stack entrypoint ds cs eflags : ℕ) → ℕ

module _ {Ref : Type 0} where
  -- The part after `elf_load`, which returned the image (`some`) or an error.
  pub create_loaded :
      Machine
      → (root : Ref) → Fresh Ref
      → Option ProgramImage
      → ℤ
      → Ref
      → Sched Ref
      → Option (ℕ × Sched Ref)
  create_loaded machine root fresh none parent_pid file s = some (1, s)
  create_loaded machine root fresh (some image) parent_pid file s = do
    let entry = (image.entry + 2 ^ 32 - image.mount) % 2 ^ 32
    let top = (image.image + machine.kmsz image.image) % 2 ^ 32
    let stack = machine.isr_stub_stack top ((image.image + entry) % 2 ^ 32) 2 1 0
    s' ←
        new_entry root fresh
          (record {
            parent_index = parent_pid;
            stack = stack;
            process_memory = image.image;
            exe = file;
            mount = 0;
            segments_index = 1;
          })
          s
    some (0, record s' { interrupts = true })

  -- `parent_pid != -1 && scheduler_pid_invalid(parent_pid)`
  unfoldable pub parent_invalid : ℤ → Sched Ref → Option Bool
  parent_invalid (negsuc zero) s = some false
  parent_invalid (negsuc (suc n)) s = pid_invalid s (negsuc (suc n))
  parent_invalid (pos n) s = pid_invalid s (pos n)

  -- It starts with `cli`; `sti` comes at its end.
  pub create_process :
      Machine
      → (root : Ref) → Fresh Ref
      → Option ProgramImage
      → ℤ
      → Ref
      → Sched Ref
      → Option (ℕ × Sched Ref)
  create_process machine root fresh loaded parent_pid file s = do
    let off = record s { interrupts = false }
    invalid ← parent_invalid parent_pid off
    if invalid then some (1, off) else create_loaded machine root fresh loaded parent_pid file off
