-- ===== src/Syscall/Dirents/Layout.antt =====
-- syscall.c: where the parts of a directory entry lie.
use neos.Base.{ℕ, ◌+◌, ◌<◌, ◌≤◌, ◌≡◌, arith}
use neos.Memory.{Mem, store}
use neos.Vfs.Calls.{VEntry, type_code}
use neos.Syscall.Dirents.{linux_dirent, linux_dirent_fill, linux_dirent64, linux_dirent64_fill}

-- An entry of sys_getdents has its name behind the ten bytes of the fixed fields. The byte behind
-- the name keeps what it had, so no null byte ends it, and the type is stored in the last byte but
-- one: the last of the d_reclen bytes keeps what it had as well.
pub linux_dirent_lem :
    (p : ℕ) (e : VEntry) (m : Mem)
    → e.name_length < 256
    → let m' = linux_dirent.fill p e m in
      let d_reclen = linux_dirent.advance e.name_length in
      (d_reclen ≡ e.name_length + 14)
      × ((i : ℕ) → i < e.name_length → m' (p + 10 + i) ≡ e.name i)
      × (m' (p + 10 + e.name_length) ≡ m (p + 10 + e.name_length))
      × (m' (p + (e.name_length + 12)) ≡ type_code e.type)
      × (m' (p + (e.name_length + 13)) ≡ m (p + (e.name_length + 13)))
unfolding linux_dirent linux_dirent_fill store
linux_dirent_lem p e m short =
    (omega arith, (λ i h. ground arith), ground arith, ground arith, ground arith)

linux_dirent64_fill-ino :
    (p a : ℕ) (e : VEntry) (m : Mem) → p ≤ a → a < p + 8 → linux_dirent64_fill p e m a ≡ 0
unfolding linux_dirent64_fill store
linux_dirent64_fill-ino p a e m low high = ground arith

-- After sys_getdents64 has stored a second entry, the last seven bytes of the first one's name are
-- null, because the second one starts eight bytes too early.
pub linux_dirent64-overlap :
    (p i : ℕ) (e e' : VEntry) (m : Mem)
    → e.name_length < 256
    → i < e.name_length
    → e.name_length ≤ i + 7
    → let next = p + linux_dirent64.advance e.name_length in
      linux_dirent64.fill next e' (linux_dirent64.fill p e m) (p + 19 + i) ≡ 0
unfolding linux_dirent64
linux_dirent64-overlap p i e e' m short low high =
    linux_dirent64_fill-ino _ (p + 19 + i) e' _ (omega arith) (omega arith)
