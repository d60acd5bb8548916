-- ===== src/Vfs/Calls.antt =====
-- vfs.h and vfs.c: the calls on an open reference, which go to its driver.
use neos.Base.{ℕ, Bool, not, ◌&&◌, Option, none, some, List, if◌then◌else◌, ◌==◌}
use neos.Base.Int.{ℤ, pos, minus}
use neos.Memory.{Mem}
use neos.Vfs.Tree.{Drivers, VRef}

abbrev pub linux_einval : ℕ
linux_einval = 22

abbrev pub seek_set : ℕ
seek_set = 0

abbrev pub seek_cur : ℕ
seek_cur = 1

abbrev pub seek_end : ℕ
seek_end = 2

-- `vEntryType`
pub data EntryType : Type 0 where
  dt_unknown dt_fifo dt_chr dt_dir dt_blk dt_reg dt_lnk dt_sock dt_wht : EntryType

abbrev pub type_code : EntryType → ℕ
type_code dt_unknown = 0
type_code dt_fifo = 1
type_code dt_chr = 2
type_code dt_dir = 4
type_code dt_blk = 6
type_code dt_reg = 8
type_code dt_lnk = 10
type_code dt_sock = 12
type_code dt_wht = 14

-- `vEntry`. `name` is the array, its byte at each index.
pub record VEntry : Type 0 where
  pub seek_offset : ℕ
  pub name_length : ℕ
  pub name : ℕ → ℕ
  pub type : EntryType

-- `vStat`
pub record VStat : Type 0 where
  pub size : ℕ
  pub atime : ℕ
  pub mtime : ℕ
  pub blocks : ℕ
  pub writtable : Bool
  pub type : EntryType

-- The functions of `FilesystemDriver` on an open file, for the driver with a number. Those that are
-- given a buffer get its address and the memory. `list` fills an array of entries, and `stat` an
-- object.
pub record FileDrivers (State World : Type 0) : Type 0 where
  pub read : ℕ → Option State → (buffer size : ℕ) → Mem → World → ℤ × Option State × Mem × World
  pub write : ℕ → Option State → (buffer size : ℕ) → Mem → World → ℤ × Option State × Mem × World
  pub seek : ℕ → Option State → (offset : ℤ) (whence : ℕ) → World → ℤ × Option State × World
  pub list :
      ℕ → Option State → (max : ℕ) → (ℕ → VEntry) → World → ℤ × Option State × (ℕ → VEntry) × World
  pub mkdir : ℕ → Option State → (name : List ℕ) → World → ℤ × Option State × World
  pub remove : ℕ → Option State → (rmdir : Bool) → World → ℤ × Option State × World
  pub stat : ℕ → Option State → VStat → World → ℤ × Option State × VStat × World
  pub readlink :
      ℕ
      → Option State
      → (name : List ℕ) (buffer : ℕ) (size : ℤ) → Mem
      → World
      → ℤ × Option State × Mem × World

module _ (drivers : Drivers) where
  open drivers use {State, World, close}

  unfoldable pub vfs_close : VRef State → World → ℤ × VRef State × World
  vfs_close vref w = elim vref.driver [
    | none ↦ (pos 0, vref, w)
    | some d ↦
        let (res, state, w') = close d vref.state w in (res, record vref { state = state }, w')
  ]

module _ {State World : Type 0} (files : FileDrivers State World) where
  open files use {read, write, seek, list, mkdir, remove, stat, readlink}

  unfoldable pub vfs_read :
      VRef State → (buffer size : ℕ) → Mem → World → ℤ × VRef State × Mem × World
  vfs_read vref buffer size m w = elim vref.driver [
    | none ↦ (pos 0, vref, m, w)
    | some d ↦
        let (res, state, m', w') = read d vref.state buffer size m w in
        (res, record vref { state = state }, m', w')
  ]

  unfoldable pub vfs_write :
      VRef State → (buffer size : ℕ) → Mem → World → ℤ × VRef State × Mem × World
  vfs_write vref buffer size m w = elim vref.driver [
    | none ↦ (pos 0, vref, m, w)
    | some d ↦
        let (res, state, m', w') = write d vref.state buffer size m w in
        (res, record vref { state = state }, m', w')
  ]

  unfoldable pub vfs_seek : VRef State → (offset : ℤ) (whence : ℕ) → World → ℤ × VRef State × World
  vfs_seek vref offset whence w =
      if not (whence == seek_cur) && not (whence == seek_end) && not (whence == seek_set)
      then (minus linux_einval, vref, w)
      else elim vref.driver [
        | none ↦ (pos 0, vref, w)
        | some d ↦
            let (res, state, w') = seek d vref.state offset whence w in
            (res, record vref { state = state }, w')
      ]

  unfoldable pub vfs_list :
      VRef State → (max : ℕ) → (ℕ → VEntry) → World → ℤ × VRef State × (ℕ → VEntry) × World
  vfs_list vref max entries w = elim vref.driver [
    | none ↦ (pos 0, vref, entries, w)
    | some d ↦
        let (res, state, entries', w') = list d vref.state max entries w in
        (res, record vref { state = state }, entries', w')
  ]

  unfoldable pub vfs_mkdir : VRef State → (name : List ℕ) → World → ℤ × VRef State × World
  vfs_mkdir vref name w = elim vref.driver [
    | none ↦ (pos 0, vref, w)
    | some d ↦
        let (res, state, w') = mkdir d vref.state name w in (res, record vref { state = state }, w')
  ]

  unfoldable pub vfs_remove : VRef State → (rmdir : Bool) → World → ℤ × VRef State × World
  vfs_remove vref rmdir w = elim vref.driver [
    | none ↦ (pos 0, vref, w)
    | some d ↦
        let (res, state, w') = remove d vref.state rmdir w in
        (res, record vref { state = state }, w')
  ]

  unfoldable pub vfs_stat : VRef State → VStat → World → ℤ × VRef State × VStat × World
  vfs_stat vref buffer w = elim vref.driver [
    | none ↦ (pos 0, vref, buffer, w)
    | some d ↦
        let (res, state, buffer', w') = stat d vref.state buffer w in
        (res, record vref { state = state }, buffer', w')
  ]

  unfoldable pub vfs_readlink :
      VRef State
      → (name : List ℕ) (buffer : ℕ) (size : ℤ) → Mem
      → World
      → ℤ × VRef State × Mem × World
  vfs_readlink vref name buffer size m w = elim vref.driver [
    | none ↦ (pos 0, vref, m, w)
    | some d ↦
        let (res, state, m', w') = readlink d vref.state name buffer size m w in
        (res, record vref { state = state }, m', w')
  ]
