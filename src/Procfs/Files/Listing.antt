-- ===== src/Procfs/Files/Listing.antt =====
-- procfs.c, procfs_list: the entries of a place, one call at a time.
use neos.Base.{
  ℕ, zero, suc, ◌+◌, ◌-◌, ◌*◌, ◌/◌, ◌%◌, ◌≤◌, ◌<◌, ◌≡◌, refl, arith, List, some, get_elem?, length,
  lt_of_get_elem?, get_elem?_of_lt, ◌∙◌, ap, lt→ltb, le→ltb,
}
use neos.Base.Int.{pos}
use neos.Memory.{Mem}
use neos.Vfs.Calls.{VEntry}
use neos.Procfs.{ProcState}
use neos.Procfs.Files.{copy_from, entry_byte, entries_byte, list_entries}
use neos.Procfs.Files.Sequential.{proc_sread-inside, proc_sread-end}

copy_from-inside :
    (output o n a : ℕ) (file : ℕ → ℕ) (m : Mem)
    → a < n
    → copy_from output file o n m (output + a) ≡ file (o + a)
copy_from-inside output o n a file m h =
    let same : o + (output + a - output) ≡ o + a = omega arith in
    rw (le→ltb (output + a) output (omega arith), lt→ltb (output + a) (output + n) (omega arith))
      (ap file same)

entries_byte-entry :
    (garbage : ℕ → ℕ) (entries : List VEntry) (i a : ℕ) (e : VEntry)
    → get_elem? entries i ≡ some e
    → a < 268
    → entries_byte garbage entries (i * 268 + a) ≡ entry_byte e a
unfolding entries_byte
entries_byte-entry garbage entries i a e held h =
    let which : (i * 268 + a) / 268 ≡ i = omega arith in
    let inside : (i * 268 + a) % 268 ≡ a = omega arith in
    rw (entries_byte, which, held, inside) refl

-- With the offset at an entry, listing one returns 1, stores the bytes of that entry into the
-- buffer, and moves to the next one.
pub list_entries-one :
    (garbage : ℕ → ℕ) (entries : List VEntry) (buffer i : ℕ) (state : ProcState) (m : Mem)
    (e : VEntry)
    → state.offset ≡ pos (i * 268)
    → get_elem? entries i ≡ some e
    → let (count, state', m') = list_entries garbage entries buffer (pos 1) state m in
      (count ≡ pos 1)
      × (state'.offset ≡ pos ((i + 1) * 268))
      × ((a : ℕ) → a < 268 → m' (buffer + a) ≡ entry_byte e a)
unfolding list_entries
list_entries-one garbage entries buffer i state m e at_i held =
    let low = lt_of_get_elem? entries i held in
    rw
      (
        list_entries,
        proc_sread-inside buffer 268 (length entries * 268) (i * 268) (entries_byte garbage entries)
            state m at_i (omega arith),
      )
      (
        refl,
        ap pos (omega arith),
        λ a h.
            copy_from-inside buffer (i * 268) 268 a (entries_byte garbage entries) m h
            ∙ entries_byte-entry garbage entries i a e held h,
      )

-- Behind the last entry, listing returns 0, which ends a listing.
pub list_entries-end :
    (garbage : ℕ → ℕ) (entries : List VEntry) (buffer : ℕ) (state : ProcState) (m : Mem)
    → state.offset ≡ pos (length entries * 268)
    → (list_entries garbage entries buffer (pos 1) state m).0 ≡ pos 0
unfolding list_entries
list_entries-end garbage entries buffer state m at_end =
    rw
      (
        list_entries,
        proc_sread-end buffer 268 (length entries * 268) (entries_byte garbage entries) state m
            at_end,
      )
      refl

-- The place and the memory after `n` calls that list one entry each into the same buffer.
abbrev pub list_after :
    (garbage : ℕ → ℕ) (entries : List VEntry) (buffer n : ℕ) → ProcState → Mem → ProcState × Mem
list_after garbage entries buffer zero state m = (state, m)
list_after garbage entries buffer (suc n) state m =
    let (state', m') = list_after garbage entries buffer n state m in
    let (count, state'', m'') = list_entries garbage entries buffer (pos 1) state' m' in
    (state'', m'')

list_after-offset :
    (garbage : ℕ → ℕ) (entries : List VEntry) (buffer n : ℕ) (state : ProcState) (m : Mem)
    → state.offset ≡ pos 0
    → n ≤ length entries
    → (list_after garbage entries buffer n state m).0.offset ≡ pos (n * 268)
list_after-offset garbage entries buffer zero state m start fits = start
list_after-offset garbage entries buffer (suc n) state m start fits =
    let (state', m') = list_after garbage entries buffer n state m in
    let (e, held) = get_elem?_of_lt entries n (omega arith) in
    let at_n = list_after-offset garbage entries buffer n state m start (omega arith) in
    let (one, next, bytes) = list_entries-one garbage entries buffer n state' m' e at_n held in
    next ∙ ap pos (omega arith)

-- From the start, call by call, a listing delivers every entry in its turn, and then it ends: the
-- call after the last entry returns 0.
pub list_entries-all :
    (garbage : ℕ → ℕ) (entries : List VEntry) (buffer : ℕ) (state : ProcState) (m : Mem)
    → state.offset ≡ pos 0
    → ((i : ℕ) (e : VEntry)
        → get_elem? entries i ≡ some e
        → let (state', m') = list_after garbage entries buffer i state m in
          let (count, state'', m'') = list_entries garbage entries buffer (pos 1) state' m' in
          (count ≡ pos 1) × ((a : ℕ) → a < 268 → m'' (buffer + a) ≡ entry_byte e a))
      × (let (state', m') = list_after garbage entries buffer (length entries) state m in
          (list_entries garbage entries buffer (pos 1) state' m').0 ≡ pos 0)
list_entries-all garbage entries buffer state m start = (
  (λ i e held.
      let (state', m') = list_after garbage entries buffer i state m in
      let low = lt_of_get_elem? entries i held in
      let at_i = list_after-offset garbage entries buffer i state m start (omega arith) in
      let (one, next, bytes) = list_entries-one garbage entries buffer i state' m' e at_i held in
      (one, bytes)),
  (let (state', m') = list_after garbage entries buffer (length entries) state m in
      list_entries-end garbage entries buffer state' m'
        (list_after-offset garbage entries buffer (length entries) state m start (omega arith))),
)
