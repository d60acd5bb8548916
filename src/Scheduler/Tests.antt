-- ===== src/Scheduler/Tests.antt =====
-- scheduler.c: the theorems on small process tables.
use neos.Base.{
  ℕ, zero, suc, ◌≤◌, ◌<◌, ◌≡◌, refl, ◌≢◌, arith, some, none, Option, List, [], ◌∷◌, replicate,
  length-replicate, true, false, Bool,
}
use neos.Base.Int.{ℤ, pos, negsuc}
use neos.Scheduler.State.{max_files, Descriptor, runnable, Sched, entry}
use neos.Scheduler.Pid.{process_list}
use neos.Scheduler.Pid.Laws.{Alive, Dead, Walk, process_list-Walk}
use neos.Scheduler.Files.{fput, fget, fremove}
use neos.Scheduler.Files.Laws.{IsProcess, Put, fput-Put, fremove_lem}
use neos.Scheduler.Create.{Fresh, Arguments, Machine}
use neos.Scheduler.Create.Laws.{AllAlive}
use neos.Scheduler.Switch.{context_switch}
use neos.Scheduler.Switch.Laws.{IsNext, context_switch-next}

-- File references are numbers here. Only the first file number of a process is open.
abbrev process : Bool → ℕ → Descriptor ℕ
process exists stack = record {
  exists = exists;
  stack = stack;
  process_memory = 4096;
  state = runnable;
  parent_index = negsuc 0;
  files = replicate max_files 7;
  file_exists = some (replicate max_files true);
  cwd = 1;
  exe = 2;
  mount = 0;
  segments_index = 1;
}

-- Slots 0 and 2 are processes and slots 1 and 3 are free.
abbrev table : List (Descriptor ℕ)
table = process true 10 ∷ process false 11 ∷ process true 12 ∷ process false 13 ∷ []

abbrev sched : (List (Descriptor ℕ)) → (count size : ℕ) → ℤ → Sched ℕ
sched t count size running = record {
  table = t;
  process_count = count;
  process_table_size = size;
  process_running = running;
  calls = [];
  interrupts = true;
}

abbrev three : Sched ℕ
three = sched table 3 4 (pos 0)

process_list-Walk_example :
    (r : Option ℕ) × (process_list three (pos 1) ≡ some r) × Walk three 1 3 r
process_list-Walk_example = process_list-Walk three 1 (omega arith) (omega arith)

slot_0 : IsProcess three 0 (process true 10) (replicate max_files true)
slot_0 = record {
  counted = omega arith;
  held = refl;
  alive = refl;
  flagged = refl;
  enough = length-replicate max_files true;
  roomy = length-replicate max_files 7;
}

fput-Put_example :
    (r : ℕ × Sched ℕ) × (fput three (pos 1) 9 ≡ some r) × Put three 0 (replicate max_files true) 9 r
fput-Put_example = fput-Put three 0 (process true 10) (replicate max_files true) 9 slot_0

fremove_lem_example :
    (s' : Sched ℕ) × (fremove three (pos 1) (pos 1) ≡ some (0, s'))
    × ((k : ℕ) → k < max_files → fget s' (pos 1) (pos (suc k)) ≡ none)
    × ((k : ℕ) → k < max_files → fremove s' (pos 1) (pos (suc k)) ≡ none)
    × ((v : ℕ) → fput s' (pos 1) v ≡ none)
unfolding max_files
fremove_lem_example =
    fremove_lem three 0 0 (process true 10) (replicate max_files true) slot_0 (omega arith) refl

abbrev fresh : Fresh ℕ
fresh = record { slots = []; files = [] }

abbrev args : Arguments ℕ
args = record {
  parent_index = negsuc 0;
  stack = 20;
  process_memory = 8192;
  exe = 5;
  mount = 0;
  segments_index = 1;
}

Alive-0 : Alive three 0
Alive-0 = (process true 10, refl, refl)

all_1 : AllAlive three 1
all_1 zero h = Alive-0
all_1 (suc k) h = absurd (omega arith)

abbrev one : Sched ℕ
one = sched table 1 4 (pos 0)

all_one : AllAlive one 1
all_one zero h = (process true 10, refl, refl)
all_one (suc k) h = absurd (omega arith)

-- a table of one slot that counts three processes
abbrev short : Sched ℕ
short = sched (process true 10 ∷ []) 3 1 (pos 0)

all_short : AllAlive short 1
all_short zero h = (process true 10, refl, refl)
all_short (suc k) h = absurd (omega arith)

abbrev machine : Machine
machine = record { kmsz = λ p. 4096; isr_stub_stack = λ top entry ds cs eflags. top }

free_1 : (k : ℕ) → 1 ≤ k → k < 2 → Dead three k
free_1 zero a b = absurd (omega arith)
free_1 (suc zero) a b = (process false 11, refl, refl)
free_1 (suc (suc k)) a b = absurd (omega arith)

next_2 : IsNext three 1 2
next_2 = record {
  later = omega arith;
  alive = (process true 12, refl, refl);
  skipped = λ k a b. free_1 k a b;
}

context_switch-next_example :
    (s' : Sched ℕ) × (context_switch 99 three ≡ some (12, s'))
    × (s'.process_running ≡ pos 2)
    × (entry s' 0 ≡ some (process true 99))
    × ((k : ℕ) → 0 ≢ k → entry s' k ≡ entry three k)
unfolding next_2
context_switch-next_example =
    context_switch-next three 0 2 99 (process true 10) refl refl next_2 (omega arith)

-- The count stops short of the process in slot 2.
abbrev two : Sched ℕ
two = sched (process true 10 ∷ process true 11 ∷ process true 12 ∷ []) 2 4 (pos 1)

next_two : IsNext two 2 2
next_two = record {
  later = omega arith;
  alive = (process true 12, refl, refl);
  skipped = λ k a b. absurd (omega arith);
}
