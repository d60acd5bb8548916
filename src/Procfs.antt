-- ===== src/Procfs.antt =====
-- procfs.c: the file system of processes, a driver of the VFS over the scheduler.
pub mod Digits
pub mod Open
pub mod Files
mod Tests
use neos.Base.{
  ℕ, zero, suc, ◌+◌, ◌-◌, ◌*◌, ◌%◌, ◌/◌, ◌^◌, Bool, true, false, not, Option, none, some, List, [],
  ◌∷◌, ◌==◌, ltb, leb, if◌then◌else◌, ◌&&◌,
}
use Prim.Native.Nat.{bit_and}
use neos.Base.Int.{ℤ, pos, negsuc, minus, to_int, to_word, eq_ℤ}
use neos.Vfs.Tree.{VRef, text_eq, open_nofollow, dot_dot}
use neos.Scheduler.State.{Descriptor, Sched, ◌>>=◌}
use neos.Scheduler.Pid.{process_list, get_current_pid}

-- `digits[d]`
abbrev pub digit : ℕ → ℕ
digit d = if ltb d 10 then d + 48 else d + 55

-- The conversion loop of `uint_to_str`, with the rounds that are left while `i >= 0`: the text
-- behind position `i`, and what is left of the number.
pub digits_loop : ℕ → (num base : ℕ) → List ℕ → List ℕ × ℕ
digits_loop zero num base text = (text, num)
digits_loop (suc f) num base text =
    if num == 0 then (text, num) else digits_loop f (num / base) base (digit (num % base) ∷ text)

-- The text that `uint_to_str` leaves in a buffer of a size, which is empty when there is no room.
pub uint_to_str : (num buffer_size base : ℕ) → List ℕ
uint_to_str num buffer_size base =
    let (text, left) = digits_loop (buffer_size - 1) num base [] in
    if num == 0 then b'0' ∷ [] else if left == 0 then text else []

-- The value of a digit, `none` where the loop of `str_to_uint` breaks.
abbrev pub digit_value : (base c : ℕ) → Option ℕ
digit_value base c =
    let value =
      if leb 48 c && leb c 57
      then some (c - 48)
      else if leb 65 c && leb c 90
      then some (c - 55)
      else none in
    elim value [ none ↦ none | some v ↦ if leb base v then none else some v ]

-- The loop of `str_to_uint`, in words of 32 bits.
pub str_loop : (base result : ℕ) → List ℕ → ℕ
str_loop base result [] = result
str_loop base result (c ∷ s) = elim (digit_value base c) [
  | none ↦ result
  | some v ↦ str_loop base ((result * base + v) % 2 ^ 32) s
]

pub str_to_uint : List ℕ → (base : ℕ) → ℕ
str_to_uint s base = str_loop base 0 s

-- `ProcNode`
pub data ProcNode : Type 0 where
  node_root node_proc node_fd leaf_exe leaf_cwd leaf_self : ProcNode

-- `ProcState`
pub record ProcState : Type 0 where
  pub pid : ℤ
  pub node : ProcNode
  pub offset : ℤ

-- `procfs_root`, into the state that it allocates.
pub procfs_root : ProcState
procfs_root = record { pid = pos 0; node = node_root; offset = pos 0 }

abbrev pub linux_enoent : ℕ
linux_enoent = 2

abbrev pub linux_eio : ℕ
linux_eio = 5

abbrev pub linux_erofs : ℕ
linux_erofs = 30

-- The names of the entries below a process.
abbrev pub name_self : List ℕ
name_self = b's' ∷ b'e' ∷ b'l' ∷ b'f' ∷ []

abbrev pub name_fd : List ℕ
name_fd = b'f' ∷ b'd' ∷ []

abbrev pub name_exe : List ℕ
name_exe = b'e' ∷ b'x' ∷ b'e' ∷ []

abbrev pub name_cwd : List ℕ
name_cwd = b'c' ∷ b'w' ∷ b'd' ∷ []

-- `procfs_open` below a process.
pub open_proc : ProcState → (basename : List ℕ) (flags : ℕ) → ℤ × ProcState
open_proc state basename flags =
    let nofollow = not (bit_and flags open_nofollow == 0) in
    let rewound = record state { offset = pos 0 } in
    if text_eq basename dot_dot
    then (pos 0, record rewound { node = node_root })
    else if text_eq basename name_fd
    then (pos 0, if nofollow then record rewound { node = node_fd } else rewound)
    else if text_eq basename name_exe
    then (pos 0, if nofollow then record rewound { node = leaf_exe } else rewound)
    else if text_eq basename name_cwd
    then (pos 0, record rewound { node = leaf_cwd })
    else (minus linux_enoent, state)

module _ {Ref : Type 0} where
  -- `while (scheduler_process_list(&pid)) if (expected == pid) ...` on fuel: whether it was met. When
  -- there is no other process the list returns 0.
  pub find_pid : ℕ → Sched Ref → (expected : ℤ) (pid : ℕ) → Option Bool
  find_pid zero s expected pid = none
  find_pid (suc f) s expected pid = do
    next ← process_list s (pos pid)
    elim next [
      | none ↦ some false
      | some pid' ↦ if eq_ℤ expected (pos pid') then some true else find_pid f s expected pid'
    ]

  -- `procfs_open` in the root.
  pub open_root : Sched Ref → ProcState → (basename : List ℕ) (flags : ℕ) → Option (ℤ × ProcState)
  open_root s state basename flags =
      if text_eq basename name_self
      then some (
        pos 0,
        record {
          pid = get_current_pid s;
          node = if bit_and flags open_nofollow == 0 then node_proc else leaf_self;
          offset = pos 0;
        },
      )
      else let expected = to_int (str_to_uint basename 10) in
        elim (find_pid (suc (suc s.process_count)) s expected 0) [
          | none ↦ none
          | some true ↦ some (pos 0, record { pid = expected; node = node_proc; offset = pos 0 })
          | some false ↦ some (minus linux_enoent, state)
        ]

  pub procfs_open : Sched Ref → ProcState → (basename : List ℕ) (flags : ℕ) → Option (ℤ × ProcState)
  procfs_open s state basename flags = elim state.node [
    | node_root ↦ open_root s state basename flags
    | node_proc ↦ some (open_proc state basename flags)
    | node_fd ↦ some (
        if text_eq basename dot_dot
        then (pos 0, record state { node = node_proc; offset = pos 0 })
        else (minus linux_enoent, state))
    | _ ↦ some (minus linux_eio, state)
  ]

-- `procfs_lookup`: the name of a place, which the root of the file system does not have.
pub procfs_lookup : ProcState → Option (List ℕ)
procfs_lookup state = elim state.node [
  | node_root ↦ none
  | node_proc ↦ some (uint_to_str (to_word state.pid) 16 10)
  | node_fd ↦ some name_fd
  | leaf_cwd ↦ some name_cwd
  | leaf_exe ↦ some name_exe
  | leaf_self ↦ some name_self
]
