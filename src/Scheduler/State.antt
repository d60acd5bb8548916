-- ===== src/Scheduler/State.antt =====
-- scheduler.h and the globals of scheduler.c. A pointer into the process table is an index, and an
-- access outside the allocated table, or through a null pointer, is a fault: `none`.
use neos.Base.{ℕ, Bool, Option, none, some, List, ◌∷◌, set, get_elem?}
use neos.Base.Int.{ℤ}

-- MAX_FILES_PER_PROCESS. It stays shut, so that no proof counts to it.
unfoldable pub max_files : ℕ
max_files = 1024

pub data ProcessState : Type 0 where
  runnable sleeping stopped zombie : ProcessState

-- `ProcessDescriptor`, over the references of the VFS. `file_exists` is a pointer that may be null.
pub record Descriptor (Ref : Type 0) : Type 0 where
  pub exists : Bool
  pub stack : ℕ
  pub process_memory : ℕ
  pub state : ProcessState
  pub parent_index : ℤ
  pub files : List Ref
  pub file_exists : Option (List Bool)
  pub cwd : Ref
  pub exe : Ref
  pub mount : ℕ
  pub segments_index : ℕ

-- A call out of the scheduler, in the order of the calls. Each of the two arrays of a process, of
-- its files and of their flags, is freed by the process's index.
pub data Call (Ref : Type 0) : Type 0 where
  kfree_memory : ℕ → Call Ref
  vfs_close : Ref → Call Ref
  kfree_files : ℕ → Call Ref
  kfree_file_exists : ℕ → Call Ref

-- The globals. `table` holds what has been allocated, with whatever the memory held before;
-- `interrupts` is the processor's flag that `cli` clears and `sti` sets.
pub record Sched (Ref : Type 0) : Type 0 where
  pub table : List (Descriptor Ref)
  pub process_count : ℕ
  pub process_table_size : ℕ
  pub process_running : ℤ
  pub calls : List (Call Ref)
  pub interrupts : Bool

infixl 5 ◌>>=◌
abbrev pub ◌>>=◌ : {A B : Type 0} → Option A → (A → Option B) → Option B
none >>= f = none
some a >>= f = f a

module _ {Ref : Type 0} where
  abbrev pub entry : Sched Ref → ℕ → Option (Descriptor Ref)
  entry s i = get_elem? s.table i

  abbrev pub put : Sched Ref → ℕ → Descriptor Ref → Sched Ref
  put s i d = record s { table = set s.table i d }

  abbrev pub call : Call Ref → Sched Ref → Sched Ref
  call c s = record s { calls = c ∷ s.calls }
