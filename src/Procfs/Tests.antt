-- ===== src/Procfs/Tests.antt =====
-- procfs.c: the theorems on a table with processes in the slots 0 and 2.
use neos.Base.{
  ℕ, ◌+◌, ◌<◌, ◌≡◌, refl, Bool, true, false, none, some, List, [], ◌∷◌, arith, get_elem?,
  if◌then◌else◌, length,
}
use neos.Base.Int.{pos, negsuc}
use neos.Memory.{Mem}
use neos.Vfs.Calls.{VEntry}
use neos.Scheduler.State.{Descriptor, runnable, Sched}
use neos.Procfs.{
  ProcState, node_proc, node_root, uint_to_str, str_to_uint, procfs_open, procfs_lookup,
  procfs_root,
}
use neos.Procfs.Digits.{str_to_uint-uint_to_str}
use neos.Procfs.Open.{Met, procfs_open-uint_to_str, procfs_open-procfs_lookup}
use neos.Procfs.Files.{list_entries, fd_entries, entry_byte}
use neos.Procfs.Files.Listing.{list_after, list_entries-all}

abbrev process : Bool → Descriptor ℕ
process exists = record {
  exists = exists;
  stack = 10;
  process_memory = 4096;
  state = runnable;
  parent_index = negsuc 0;
  files = [];
  file_exists = none;
  cwd = 1;
  exe = 2;
  mount = 0;
  segments_index = 1;
}

abbrev three : Sched ℕ
three = record {
  table = process true ∷ process false ∷ process true ∷ process false ∷ [];
  process_count = 3;
  process_table_size = 4;
  process_running = pos 0;
  calls = [];
  interrupts = true;
}

str_to_uint-uint_to_str_example : str_to_uint (uint_to_str 1234 16 10) 10 ≡ 1234
str_to_uint-uint_to_str_example =
    str_to_uint-uint_to_str 1234 16 10 (omega arith) (omega arith) (omega arith) (omega arith)

abbrev at_start : ProcState
at_start = record { pid = pos 0; node = node_root; offset = pos 0 }

-- Pid 2 is free.
procfs_open-uint_to_str_example :
    (b : Bool) × Met three 1 0 b
    × (procfs_open three at_start (uint_to_str 2 16 10) 0
        ≡ some (
            if b
            then (pos 0, record { pid = pos 2; node = node_proc; offset = pos 0 })
            else (negsuc 1, at_start)))
procfs_open-uint_to_str_example =
    procfs_open-uint_to_str three at_start 1 0 refl (omega arith) (omega arith) (omega arith)

abbrev in_process : ProcState
in_process = record { pid = pos 3; node = node_proc; offset = pos 268 }

procfs_open-procfs_lookup_example :
    (name : List ℕ) × (procfs_lookup in_process ≡ some name)
    × (procfs_open three procfs_root name 0 ≡ some (pos 0, record in_process { offset = pos 0 }))
procfs_open-procfs_lookup_example =
    procfs_open-procfs_lookup three in_process 2 0 refl refl (process true, refl, refl)
      (omega arith) (omega arith) (omega arith)

abbrev memory : Mem
memory = λ a. 170

abbrev file : ℕ → ℕ
file = λ i. 65 + i

list_entries-all_example :
    ((i : ℕ) (e : VEntry)
      → get_elem? fd_entries i ≡ some e
      → let (state', m') = list_after file fd_entries 1000 i at_start memory in
        let (count, state'', m'') = list_entries file fd_entries 1000 (pos 1) state' m' in
        (count ≡ pos 1) × ((a : ℕ) → a < 268 → m'' (1000 + a) ≡ entry_byte e a))
    × (let (state', m') = list_after file fd_entries 1000 (length fd_entries) at_start memory in
        (list_entries file fd_entries 1000 (pos 1) state' m').0 ≡ pos 0)
list_entries-all_example = list_entries-all file fd_entries 1000 at_start memory refl
