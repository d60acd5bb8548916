-- ===== src/Lib.antt =====
-- NEOS, a small 32-bit kernel: its file systems, its floppy driver, its scheduler and its console.
--
-- The parts of the kernel and the files that model them. Paths are from the repository's root.
--   src/kernel/memory.c      Memory: copying, filling and the C string routines over a byte memory;
--                            Memory/Copy and Memory/Text say what they do.
--   src/kernel/floppy.c      Floppy: the driver's functions one by one, as a state monad over the
--                            controller behind `inb` and `outb` (record Ports). Floppy/Transfer:
--                            floppy_read and floppy_write over the functions that read and write
--                            one block, and with those of the driver. Proofs in Floppy/Sector,
--                            Floppy/Chs and below Floppy/Transfer.
--   src/kernel/scheduler.c   Scheduler: State has the process table and the other globals, Pid, Files,
--                            Create and Switch the operations, and a Laws module below each the
--                            proofs. `none` is an access outside the table or through a null pointer.
--   src/kernel/vfs.c         Vfs/Path: vfs_resolve and the loop over it. Vfs/Tree: the tree of mounts
--                            and vfs_update, vfs_enter, vfs_open and vfs_mount, over drivers that are
--                            a parameter (record Drivers). Proofs in Vfs/Path/RoundTrip and Bounds,
--                            and in Vfs/Tree/Children, Mount/Linked, Enter and Open.
--                            Vfs/Calls: the calls that go to the driver of a reference (record
--                            FileDrivers). Vfs/Trace: vfs_trace, with proofs in Vfs/Trace/Bounds.
--   src/kernel/syscall.c     Syscall: the state that the calls share (record Kernel), descriptors and
--                            the dispatch. Syscall/Files, Paths, Dirents, Stat and Process: the calls.
--                            Proofs in Syscall/Descriptors, Files/Opening, Files/Closing,
--                            Paths/Directory, Dirents/Bounds, Dirents/Layout, Dirents/Calls, Stat/Mode
--                            and Process/Break.
--   src/kernel/procfs.c      Procfs: the conversion of numbers, the places of the file system and
--                            procfs_open and procfs_lookup; Procfs/Files: the calls on an open file.
--                            Proofs in Procfs/Digits, Procfs/Open and below Procfs/Files.
--   src/kernel/math.c        Math, with a proof in Math/Clamp.
--   src/kernel/fat.c         Fat: the disk, table entries and the sector cache; Fat/Chain the loops
--                            over the clusters of a file; Fat/Read is fat_fread, Fat/Clear
--                            fat_clear_cluster, Fat/Write fat_fwrite and the position of a file,
--                            Fat/Names short and long names. Proofs in Fat/Entry, Fat/Clear,
--                            Fat/Chain/Count, Fat/Chain/Remove, and below Fat/Read, Fat/Write and
--                            Fat/Names.
--   src/kernel/console.c     Console: the cursor, colours, erasing and scrolling; Console/Sequences: the
--                            control sequences and the lexers up to con_write. Proofs in
--                            Console/Scroll, Console/Fuel and below Console/Sequences.
-- Base has what they share: Boolean tests, lists and integers over the native numbers.
--
-- How they interact: fat.c reads and writes the disk through two functions that fat.h documents, which
-- fatfs.c fills with floppy_read and floppy_write. The scheduler keeps references of the VFS for each
-- process, which are a parameter of its model. A system call finds the references of the process that
-- runs in the scheduler's table, hands them to the VFS, and stores them back. The models of the calls
-- fill that parameter with the references of Vfs/Tree. procfs asks the scheduler which processes exist,
-- and vfs_trace for the paths of their links, which is an argument of its functions.
--
-- Conventions. A pointer into the process table is an index. A machine word is a native number, with
-- its wrap-around written out where the code computes; addresses in memory do not wrap. What the
-- allocator, the ELF loader, the assembly routines and the controller return is an argument of the
-- definitions that use it. Loops with no bound of their own run on fuel and return `none` when it runs
-- out; the theorems give the fuel that is enough: one more than its length for a path or a text, the
-- number of its clusters for a file, one more than the used clusters in between for the search for a
-- free one, 514 tests for the data loop of a sector. The polls of the floppy
-- driver have the rounds of the source. In the console an int that would overflow, which C leaves
-- undefined, is `none`.
--
-- The loop that lists a directory into a buffer has one more round than the buffer has bytes, and the
-- walks of procfs over the processes two more than the scheduler counts. In procfs an int that would
-- overflow is outside the model.
--
-- Not modelled: the FAT driver of the VFS, directories of the FAT file system, printing,
-- the program loader, and all that is written in assembly (the boot loader, the allocator, interrupt
-- entry). sys_exit only prints and halts.
pub mod Base
pub mod Math
pub mod Memory
pub mod Vfs
pub mod Floppy
pub mod Scheduler
pub mod Fat
pub mod Console
pub mod Syscall
pub mod Procfs
