-- ===== src/Vfs/Trace/Tests.antt =====
-- vfs.c, vfs_trace: the path "/p/", in a buffer of eight bytes and in one of three.
use neos.Base.{ℕ, ◌≡◌, refl, inr, none, some, [], ◌∷◌, arith, if◌then◌else◌, ◌==◌}
use neos.Base.Int.{pos, negsuc}
use neos.Memory.{Mem}
use neos.Vfs.Tree.{
  Tree, Drivers, VRef, vfs_refcpy, vfs_enter, enter_part, vfs_update, update_from, enable,
}
use neos.Vfs.Calls.{vfs_close}
use neos.Vfs.Trace.{vfs_trace, trace_loop, trace_name, trace_write, Lookup}
use neos.Vfs.Trace.Bounds.{vfs_trace-kept}

abbrev tree : Tree
tree = record {
  node = λ i.
      if i == 0
      then record { sibling = none; child = some 1; parent = 0; driver = some 7; name = [] }
      else record { sibling = none; child = none; parent = 0; driver = some 8; name = 112 ∷ [] };
  count = 2;
}

abbrev drivers : Drivers
drivers = record {
  State = ℕ;
  World = ℕ;
  root = λ d s w. (pos 0, some 0, w);
  clone = λ d s w. (s, w);
  open_part = λ d s part flags w. (pos 0, s, w);
  close = λ d s w. (pos 0, none, w);
}

-- Both references are roots of their file systems, which have no name.
abbrev lookup : Lookup drivers
lookup = λ d s w. (negsuc 0, [], s, w)

abbrev at_p : VRef ℕ
at_p = record { node = 1; offset = 0; driver = some 8; state = some 0 }

abbrev memory : Mem
memory = λ a. 170

traced :
    vfs_trace drivers lookup tree at_p 1000 (pos 8) memory 0
    ≡ some (trace_write 1000 (pos 8) ((112 ∷ []) ∷ []) memory, 0)
unfolding vfs_trace trace_loop trace_name vfs_refcpy vfs_enter enter_part vfs_update update_from
    enable vfs_close
traced = refl

vfs_trace-kept_example : trace_write 1000 (pos 8) ((112 ∷ []) ∷ []) memory 1020 ≡ 170
vfs_trace-kept_example =
    vfs_trace-kept drivers lookup tree at_p 1000 8 memory
      (trace_write 1000 (pos 8) ((112 ∷ []) ∷ []) memory) 0 0 (omega arith) traced 1020
      (inr (omega arith))
