-- ===== src/Procfs/Files.antt =====
-- procfs.c: the driver's calls on an open file.
pub mod Sequential
pub mod Listing
use neos.Base.{
  ℕ, zero, suc, ◌+◌, ◌-◌, ◌*◌, ◌%◌, ◌/◌, ◌^◌, Bool, true, false, not, Option, none, some, List, [],
  ◌∷◌, ◌++◌, ◌==◌, ltb, if◌then◌else◌, ◌&&◌, map, length, get_or, get_elem?,
}
use neos.Base.Int.{ℤ, pos, negsuc, minus, pos_part, ◌+ℤ◌, ◌-ℤ◌, to_int, to_word}
use neos.Math.{min}
use neos.Memory.{Mem}
use neos.Vfs.Tree.{VRef, text_eq, dot, dot_dot}
use neos.Vfs.Calls.{
  EntryType, type_code, dt_dir, dt_lnk, VEntry, VStat, seek_set, seek_cur, linux_einval,
}
use neos.Scheduler.State.{Descriptor, Sched, ◌>>=◌}
use neos.Scheduler.Pid.{process_list, get_current_pid, load_process_info}
use neos.Procfs.{
  ProcState, node_root, node_proc, node_fd, leaf_exe, leaf_cwd, leaf_self, uint_to_str, name_self,
  name_fd, name_exe, name_cwd, linux_eio, linux_erofs,
}

-- `memcpy(output, file + offset, bytes)`, out of a buffer of the driver's
abbrev pub copy_from : (output : ℕ) (file : ℕ → ℕ) (offset bytes : ℕ) → Mem → Mem
copy_from output file offset bytes m a =
    if ltb a output
    then m a
    else if ltb a (output + bytes)
    then file (offset + (a - output))
    else m a

abbrev pub below_zero : ℤ → Bool
below_zero (negsuc n) = true
below_zero (pos n) = false

-- `proc_sread`. With the offset past the end of the file the number of bytes is negative; nothing is
-- copied then, and the offset goes back to the end.
unfoldable pub proc_sread :
    (output : ℕ) (output_size : ℤ) (file : ℕ → ℕ) (file_size : ℤ)
    → ProcState
    → Mem
    → ℤ × ProcState × Mem
proc_sread output output_size file file_size state m =
    let offset = if below_zero state.offset then pos 0 else state.offset in
    let left = file_size -ℤ offset in
    let bytes = min left output_size in
    (
      bytes,
      record state { offset = offset +ℤ bytes },
      copy_from output file (pos_part offset) (pos_part bytes) m,
    )

-- A text in a buffer: its bytes, a null byte, and whatever was there.
abbrev pub in_buffer : List ℕ → (garbage : ℕ → ℕ) → ℕ → ℕ
in_buffer text garbage i = get_or (text ++ (0 ∷ [])) i (garbage i)

-- `procfs_write`, `procfs_mkdir` and `procfs_remove` do nothing.
pub procfs_write : (buffer size : ℕ) → ProcState → ℤ × ProcState
procfs_write buffer size state = (minus linux_erofs, state)

pub procfs_mkdir : (name : List ℕ) → ProcState → ℤ × ProcState
procfs_mkdir name state = (minus linux_erofs, state)

pub procfs_remove : (rmdir : Bool) → ProcState → ℤ × ProcState
procfs_remove rmdir state = (minus linux_erofs, state)

-- `offset` is an `int` that does not overflow here.
pub procfs_seek : (offset : ℤ) (whence : ℕ) → ProcState → ℤ × ProcState
procfs_seek offset whence state =
    let moved = state.offset +ℤ offset in
    if whence == seek_set
    then (offset, record state { offset = offset })
    else if whence == seek_cur
    then (moved, record state { offset = moved })
    else (minus linux_einval, state)

-- The size of `vEntry`, and its bytes.
abbrev pub entry_size : ℕ
entry_size = 268

abbrev pub long_byte : (v i : ℕ) → ℕ
long_byte v zero = v % 256
long_byte v (suc i) = long_byte (v / 256) i

unfoldable pub entry_byte : VEntry → ℕ → ℕ
entry_byte e i =
    if ltb i 4
    then long_byte e.seek_offset i
    else if ltb i 8
    then long_byte e.name_length (i - 4)
    else if ltb i 264
    then e.name (i - 8)
    else long_byte (type_code e.type) (i - 264)

-- An array of entries as bytes.
unfoldable pub entries_byte : (ℕ → ℕ) → List VEntry → ℕ → ℕ
entries_byte garbage entries a = elim (get_elem? entries (a / entry_size)) [
  | none ↦ garbage a
  | some e ↦ entry_byte e (a % entry_size)
]

abbrev pub make_entry : (ℕ → ℕ) → (text : List ℕ) (length : ℕ) → EntryType → (index : ℕ) → VEntry
make_entry garbage text length type index = record {
  seek_offset = index * entry_size;
  name_length = length;
  name = in_buffer text garbage;
  type = type;
}

-- The last loop of `procfs_list` over the pids: a directory each.
pub pid_entries : (ℕ → ℕ) → List ℕ → (index : ℕ) → List VEntry
pid_entries garbage [] index = []
pid_entries garbage (pid ∷ pids) index =
    let text = uint_to_str pid 16 10 in
    make_entry garbage text (length text) dt_dir index ∷ pid_entries garbage pids (index + 1)

-- In the root the three first lengths count the null byte.
pub root_entries : (ℕ → ℕ) → (pids : List ℕ) → List VEntry
root_entries garbage pids =
    make_entry garbage dot 2 dt_dir 0
    ∷ make_entry garbage dot_dot 3 dt_dir 1
    ∷ make_entry garbage name_self 5 dt_lnk 2
    ∷ pid_entries garbage pids 3

abbrev zeroed : ℕ → ℕ
zeroed i = 0

pub proc_entries : List VEntry
proc_entries =
    make_entry zeroed dot 1 dt_dir 0
    ∷ make_entry zeroed dot_dot 2 dt_dir 1
    ∷ make_entry zeroed name_exe 3 dt_lnk 2
    ∷ make_entry zeroed name_cwd 3 dt_lnk 3
    ∷ make_entry zeroed name_fd 2 dt_dir 4
    ∷ []

pub fd_entries : List VEntry
fd_entries = make_entry zeroed dot 1 dt_dir 0 ∷ make_entry zeroed dot_dot 2 dt_dir 1 ∷ []

-- What the three branches of `procfs_list` do with their entries: `max * sizeof(vEntry)` is a word
-- passed as an `int`, and the number of bytes, an `int`, is divided as a word.
unfoldable pub list_entries :
    (ℕ → ℕ) → List VEntry → (buffer : ℕ) (max : ℤ) → ProcState → Mem → ℤ × ProcState × Mem
list_entries garbage entries buffer max state m =
    let (bytes, state', m') =
      proc_sread buffer (to_int (to_word max * entry_size % 2 ^ 32)) (entries_byte garbage entries)
        (pos (length entries * entry_size)) state m in
    (to_int (to_word bytes / entry_size), state', m')

module _ {Ref : Type 0} where
  -- `while (scheduler_process_list(&pid))` on fuel: the pids in order.
  pub pids : ℕ → Sched Ref → (pid : ℕ) → Option (List ℕ)
  pids zero s pid = none
  pids (suc f) s pid = do
    next ← process_list s (pos pid)
    elim next [ none ↦ some [] | some pid' ↦ do rest ← pids f s pid'; some (pid' ∷ rest) ]

  -- A place without entries gives LINUX_EIO, which is positive.
  pub procfs_list :
      Sched Ref
      → (garbage : ℕ → ℕ) → (buffer : ℕ) (max : ℤ) → ProcState
      → Mem
      → Option (ℤ × ProcState × Mem)
  procfs_list s garbage buffer max state m = elim state.node [
    | node_root ↦ do
      found ← pids (suc (suc s.process_count)) s 0
      some (list_entries garbage (root_entries garbage found) buffer max state m)
    | node_proc ↦ some (list_entries garbage proc_entries buffer max state m)
    | node_fd ↦ some (list_entries garbage fd_entries buffer max state m)
    | _ ↦ some (pos linux_eio, state, m)
  ]

-- `vfs_trace` of a reference into a buffer of a size, where it returns.
abbrev pub Trace : (Ref World : Type 0) → Type 0
Trace Ref World = Ref → (buffer : ℕ) (size : ℤ) → Mem → World → Option (Mem × World)

module _ {Ref World : Type 0} (trace : Trace Ref World) where
  -- the paths of the two links of a process
  pub trace_link :
      Sched Ref
      → (which : Descriptor Ref → Ref) → (buffer : ℕ) (size : ℤ) → ProcState
      → Mem
      → World
      → Option (ℤ × ProcState × Mem × World)
  trace_link s which buffer size state m w = do
    info ← load_process_info s state.pid
    process ← info
    (m', w') ← trace (which process) buffer size m w
    some (pos 0, state, m', w')

  pub procfs_read :
      Sched Ref
      → (garbage : ℕ → ℕ) → (buffer size : ℕ) → ProcState
      → Mem
      → World
      → Option (ℤ × ProcState × Mem × World)
  procfs_read s garbage buffer size state m w = elim state.node [
    | leaf_cwd ↦ trace_link s (λ d. d.cwd) buffer (to_int size) state m w
    | leaf_exe ↦ trace_link s (λ d. d.exe) buffer (to_int size) state m w
    | leaf_self ↦
        let text = uint_to_str (to_word state.pid) 16 10 in
        let (bytes, state', m') =
          proc_sread buffer (to_int size) (in_buffer text garbage) (pos 16) state m in
        some (bytes, state', m', w)
    | _ ↦ some (minus linux_einval, state, m, w)
  ]

  pub procfs_readlink :
      Sched Ref
      → (garbage : ℕ → ℕ) → (name : List ℕ) (buffer : ℕ) (size : ℤ) → ProcState
      → Mem
      → World
      → Option (ℤ × ProcState × Mem × World)
  procfs_readlink s garbage name buffer size state m w =
      let text = uint_to_str (to_word (get_current_pid s)) 16 10 in
      let failed = some (minus linux_einval, state, m, w) in
      let cwd_link = trace_link s (λ d. d.cwd) buffer size state m w in
      let exe_link = trace_link s (λ d. d.exe) buffer size state m w in
      let (bytes, state', m') =
        proc_sread buffer size (in_buffer text garbage) (pos (length text + 1)) state m in
      elim state.node [
        | node_proc ↦
            if text_eq name name_cwd
            then cwd_link
            else if text_eq name name_exe
            then exe_link
            else failed
        | node_root ↦ if text_eq name name_self then some (bytes, state', m', w) else failed
        | _ ↦ failed
      ]

-- The directories are the first three places. Every place has one of the two types.
pub procfs_stat : ProcState → VStat
procfs_stat state = record {
  size = 1024;
  atime = 0;
  mtime = 0;
  blocks = 0;
  writtable = false;
  type = elim state.node [
    | node_root ↦ dt_dir
    | node_proc ↦ dt_dir
    | node_fd ↦ dt_dir
    | _ ↦ dt_lnk
  ];
}
