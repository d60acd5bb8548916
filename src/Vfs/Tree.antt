-- ===== src/Vfs/Tree.antt =====
-- vfs.h and vfs.c: the tree of mounts, references into it, and opening a path.
pub mod Children
pub mod Mount
pub mod Enter
pub mod Open
mod Tests
use Prim.Native.Nat.{bit_and, bit_or}
use neos.Base.{
  ℕ, zero, suc, ◌+◌, ◌-◌, Bool, true, false, not, ◌&&◌, Option, none, some, List, [], ◌∷◌, ◌==◌,
  ltb, length, if◌then◌else◌,
}
use neos.Base.Int.{ℤ, pos, negsuc}
use neos.Vfs.Path.{VPath, slash, char_at, resolve, linux_enametoolong}

-- `vNode`. A pointer to a node is its number, and null is `none`.
pub record Node : Type 0 where
  pub sibling : Option ℕ
  pub child : Option ℕ
  pub parent : ℕ
  pub driver : Option ℕ
  pub name : List ℕ

-- The nodes that exist: `vfs_root_node`, number 0, and those that `vfs_mknode` has allocated.
pub record Tree : Type 0 where
  pub node : ℕ → Node
  pub count : ℕ

abbrev pub text_eq : List ℕ → List ℕ → Bool
text_eq [] [] = true
text_eq [] (d ∷ t) = false
text_eq (c ∷ s) [] = false
text_eq (c ∷ s) (d ∷ t) = (c == d) && text_eq s t

pub vfs_init : Node → Tree
vfs_init free = record {
  node = λ i.
      if i == 0
      then record {
        sibling = none;
        child = none;
        parent = 0;
        driver = none;
        name = b'r' ∷ b'o' ∷ b'o' ∷ b't' ∷ [];
      }
      else free;
  count = 1;
}

-- The loop of `vfs_findchld` from a child on: the node where it stops, and whether that has the
-- name. There are no more rounds than nodes: `none` is a list of siblings that does not end.
unfoldable pub findchld_loop : ℕ → Tree → (child : ℕ) → List ℕ → Option (ℕ × Bool)
findchld_loop zero tree child name = none
findchld_loop (suc f) tree child name =
    if text_eq (tree.node child).name name
    then some (child, true)
    else elim (tree.node child).sibling [
      | some next ↦ findchld_loop f tree next name
      | none ↦ some (child, false)
    ]

-- Without a child the name is read through a null pointer.
unfoldable pub vfs_findchld : Tree → ℕ → List ℕ → Option (ℕ × Bool)
vfs_findchld tree node name = elim (tree.node node).child [
  | none ↦ none
  | some child ↦ findchld_loop tree.count tree child name
]

-- `FilesystemDriver`: what the functions of the driver with a number do to the state of a reference
-- and to the world. A null `state` is `none`.
pub record Drivers : Type 1 where
  pub State : Type 0
  pub World : Type 0
  pub root : ℕ → Option State → World → ℤ × Option State × World
  pub clone : ℕ → (src : Option State) → World → Option State × World
  pub open_part : ℕ → Option State → (part : List ℕ) (flags : ℕ) → World → ℤ × Option State × World
  pub close : ℕ → Option State → World → ℤ × Option State × World

-- `vRef`
pub record VRef (State : Type 0) : Type 0 where
  pub node : ℕ
  pub offset : ℕ
  pub driver : Option ℕ
  pub state : Option State

abbrev pub is_error : ℤ → Bool
is_error (pos n) = not (n == 0)
is_error (negsuc n) = true

abbrev pub open_directory : ℕ
open_directory = 0x10000

abbrev pub open_nofollow : ℕ
open_nofollow = 0x20000

abbrev pub path_max_resolves : ℕ
path_max_resolves = 64

abbrev pub linux_eloop : ℕ
linux_eloop = 40

abbrev pub dot : List ℕ
dot = b'.' ∷ []

abbrev pub dot_dot : List ℕ
dot_dot = b'.' ∷ b'.' ∷ []

module _ (drivers : Drivers) where
  open drivers use {State, World, root, clone, open_part, close}

  abbrev pub Result : Type 0
  Result = Option (ℤ × VRef State × World)

  -- the label `enable`; a node without a driver is called through a null pointer
  unfoldable pub enable : Option ℕ → VRef State → World → Result
  enable none vref w = none
  enable (some d) vref w =
      let (res, state, w') = root d vref.state w in
      some (res, record vref { driver = some d; state = state }, w')

  unfoldable pub update_from : (held wanted : Option ℕ) → VRef State → World → Result
  update_from none wanted vref w = enable wanted vref w
  update_from (some d) wanted vref w =
      let (res, state, w') = close d vref.state w in
      let closed = record vref { state = state } in
      let change = if is_error res then some (res, closed, w') else enable wanted closed w' in
      elim wanted [ none ↦ change | some d' ↦ if d == d' then some (pos 0, vref, w) else change ]

  unfoldable pub vfs_update : Tree → VRef State → World → Result
  vfs_update tree vref w = update_from vref.driver (tree.node vref.node).driver vref w

  unfoldable pub vfs_refcpy : (src : VRef State) → World → VRef State × World
  vfs_refcpy src w = elim src.driver [
    | none ↦ (record { node = src.node; offset = src.offset; driver = none; state = none }, w)
    | some d ↦
        let (state, w') = clone d src.state w in
        (record { node = src.node; offset = src.offset; driver = some d; state = state }, w')
  ]

  -- `vref->driver->open(vref, part, flags)`
  pub driver_open : (part : List ℕ) (flags : ℕ) → VRef State → World → Result
  driver_open part flags vref w = elim vref.driver [
    | none ↦ none
    | some d ↦
        let (res, state, w') = open_part d vref.state part flags w in
        some (res, record vref { state = state }, w')
  ]

  -- `vfs_update`, and then the driver's `open` unless it failed
  pub update_open : Tree → (part : List ℕ) (flags : ℕ) → VRef State → World → Result
  update_open tree part flags vref w = elim (vfs_update tree vref w) [
    | none ↦ none
    | some (res, vref', w') ↦
        if is_error res then some (res, vref', w') else driver_open part flags vref' w'
  ]

  -- A part that is neither "." nor "..".
  unfoldable pub enter_part : Tree → (part : List ℕ) (flags : ℕ) → VRef State → World → Result
  enter_part tree part flags vref w =
      let step = update_open tree part flags (record vref { offset = vref.offset + 1 }) w in
      if vref.offset == 0
      then elim (vfs_findchld tree vref.node part) [
        | none ↦ none
        | some (found, same) ↦
            if same then vfs_update tree (record vref { node = found }) w else step
      ]
      else step

  unfoldable pub vfs_enter : Tree → (part : List ℕ) (flags : ℕ) → VRef State → World → Result
  vfs_enter tree part flags vref w =
      if text_eq part dot
      then some (pos 0, vref, w)
      else if text_eq part dot_dot
      then if ltb 0 vref.offset
        then update_open tree part flags (record vref { offset = vref.offset - 1 }) w
        else vfs_update tree (record vref { node = (tree.node vref.node).parent }) w
      else enter_part tree part flags vref w

  -- `if (enter) { ... }`, with the part kept in `back`
  abbrev pub enter_back : Tree → ℕ → Option (List ℕ) → VRef State → World → Result
  enter_back tree flags none vref w = some (pos 0, vref, w)
  enter_back tree flags (some back) vref w = vfs_enter tree back flags vref w

  -- The loop of `vfs_open` on fuel, and what follows it.
  unfoldable pub open_loop :
      ℕ → Tree → (flags : ℕ) (path : VPath) (back : Option (List ℕ)) → VRef State → World → Result
  open_loop zero tree flags path back vref w = none
  open_loop (suc f) tree flags path back vref w =
      let path' = (resolve path).0 in
      let inner = bit_or open_directory (bit_and flags open_nofollow) in
      elim (resolve path).1 [
        | none ↦ enter_back tree flags back vref w
        | some front ↦
            if not (path'.errno == 0)
            then some (pos path'.errno, vref, w)
            else elim (enter_back tree inner back vref w) [
              | none ↦ none
              | some (res, vref', w') ↦
                  if is_error res
                  then some (res, vref', w')
                  else if ltb path_max_resolves path'.resolves
                  then some (pos linux_eloop, vref', w')
                  else open_loop f tree flags path' (some front) vref' w'
            ]
      ]

  -- `vfs_root_ref` has node 0 and offset 0. The result of the first `vfs_update` is not looked at.
  unfoldable pub vfs_open :
      Tree → (root_ref relation : VRef State) (path : List ℕ) (flags : ℕ) → World → Result
  vfs_open tree root_ref relation path flags w =
      let (copy, w') = vfs_refcpy (if char_at path 0 == slash then root_ref else relation) w in
      elim (vfs_update tree copy w') [
        | none ↦ none
        | some (res, vref, w'') ↦
            open_loop (suc (length path)) tree flags
              (record { string = path; offset = 0; resolves = 0; errno = 0 }) none vref w''
      ]
