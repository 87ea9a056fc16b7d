-- ===== src/Lib.antt =====
-- Simulators of storage systems, in Python: Final_Review_Code/HW-VSFS/vsfs.py (a very simple file
-- system), HW-Raid/raid.py (RAID levels 0, 1, 4 and 5), HW-LFS/lfs.py (a log-structured file system),
-- HW-FFS/ffs.py (the fast file system's choice of places), HW-Disk/disk.py (a disk that schedules its
-- requests) and HW-Checksums/checksum.py. The programs share no code, so each is a component of its own
-- over the shared Prelude.
--
-- Prelude: exceptions as values (Faults: `Result`, `check` for `assert`, and `Ensures P r`, that r
-- raises or returns a value with P), list indices with Python's negative ones and IndexError (Index),
-- integers (Int: / and % round down), strings, `split` and dictionaries (Text), `strip`, `split()` and
-- `int` (Parse), lemmas on lists.
--
-- Vsfs, for vsfs.py:
--   Vsfs/Bitmap    class bitmap: __init__, alloc, free, markAllocated, numFree
--   Vsfs/Block     class block: a directory or file block and its entries
--   Vsfs/Inode     class inode
--   Vsfs/Fs        class fs: the state, __init__, inodeAlloc to getParent
--   Vsfs/Ops       deleteFile, createLink, createFile, writeFile
--   Vsfs/Workload  doDelete, doLink, doCreate, doAppend, run
--   Proofs: Bitmap/Laws, Block/Laws, Consistent (the bitmaps and what is in use), Atomic.
--
-- Raid, for raid.py:
--   Raid/Mapping   bmap0, bmap1, bmap4, pmap4, __bmap5, bmap5, pmap5
--   Raid/Disk      class disk: enqueue, stats, go
--   Raid/Io        class raid: enqueue0, enqueue1, doPartialWrite, enqueue45, enqueue, go
--   Raid/Main      convert, the checks of the options, the loop of requests
--   Proofs: Mapping/Striping, Mapping/Rotated, Disk/Laws, Io/Pieces, Io/Cost, Io/Requests (levels 4 and
--   5 as a whole), Io/Bounds, Io/Served and Io/Levels (what lies on the disks), Main/Runs.
--
-- Lfs, for lfs.py:
--   Lfs/State      class LFS: __init__, log, the imap, the checkpoint, allocation of inodes
--   Lfs/Lookup     get_inode_from_inumber, __lookup, __walk_path, directory slots and entries
--   Lfs/Ops        file_create, dir_create, file_link, file_write, file_delete, sync, the commands
--   Lfs/Liveness   determine_liveness
--   Lfs/Commands   process_percentages, make_command_list, the loop of main over a command list
--   Proofs: Growth and Growth/Steps (the blocks of the log), Paths (errors of the walk), Liveness/Reached,
--   Imap (the imap on the disk: Chunks, Writes, Sealed, Runs, Init, Link), Commands/Pieces,
--   Commands/Rounds, Commands/Generated; Commands/Asked has the commands that the draws ask for.
--
-- Ffs, for ffs.py:
--   Ffs/State      class file_system: the options, the state, __init__, the symbols, do_verify
--   Ffs/Groups     find_most_free_inodes to pick_group, find_free_inode, mark_inode_used
--   Ffs/Blocks     range_free, allocate_blocks
--   Ffs/Create     do_create, create, mkdir, delete and the loop of read_input over parsed lines
--   Ffs/Delete     get_parent, do_delete
--   Ffs/Lines      the words of a line of read_input
--   Ffs/Dump       list_to_string, do_numeric_header
--   Ffs/Spans      get_dist, get_spans, do_all_spans
--   Proofs: Grid (bitmaps as tables of a fixed shape), Groups/Best, Groups/Near, Groups/Pick,
--   Blocks/Places, Blocks/Running, Blocks/Cycles, Blocks/Ends, Create/Books, Create/Keeps, Create/Runs,
--   Create/Start, Delete/Laws, Spans/Bounds.
--
-- DiskSim, for disk.py:
--   DiskSim/Layout  InitBlockLayout and the maps from a block to its track and its angle
--   DiskSim/State   class Disk: __init__, AddRequest, AddQueueEntry, SwitchState, the window
--   DiskSim/Choice  DoSATF, DoSSTF
--   DiskSim/Requests  MakeRequests
--   DiskSim/Run     GetNextIO, PlanSeek, DoneWithSeek to DoRequestStats, Animate, Go
--   Proofs: Layout/Blocks, Layout/Tables, Choice/Nearest, Choice/Winding, Choice/Distance, Choice/Track;
--   for the end of a run Run/Service (the books of a run and its phases), Run/Arm, Run/Phases, Run/Seek,
--   Run/Entries, Run/Pick, Run/Next, Run/Finish, Run/Completion, Run/Start.
--
-- Checksum, for checksum.py: the loop over the bytes. Proofs: Checksum/Laws.
--
-- A class is a record, a method a function from the old state to the new one, beside what it returns.
-- A failed assertion, a missing key, an index out of range and exit(1) are values of `Fault`. Numbers
-- that can be -1 are integers, the others naturals. What `random` draws (a file, a name, data, the
-- next operation) is an argument, so a theorem holds for all draws. A loop is a recursion over the
-- list or the number that it counts; `run` of vsfs.py, which repeats a failed request until one
-- succeeds, runs over the list of its draws and returns the requests still due when the draws end.
-- Times of raid.py are in tenths of a millisecond, where the source adds up floating-point numbers.
-- allocate_blocks of ffs.py goes round the groups on the fuel `rounds`, (size + 1) times the number of
-- all blocks: a cycle through the groups takes a block, but perhaps not the first one. Where do_create
-- goes on with the inode index -1 the model stops with `no_inode`, a result of its own. The speeds of
-- disk.py are whole numbers, its estimates are exact and in units of 1 / rotateSpeed (floating-point
-- numbers in the source), and its zones are given as numbers. Its loops that bring an angle into range
-- run on as much fuel as the angle is large, more than the rounds of 360 degrees that it needs; the loop
-- of Go runs on fuel.
--
-- Where raid.py and the commands of lfs.py use `int(random.random() * n)`, a drawn number is taken modulo
-- n, and a fraction that is compared with a percentage is in hundredths. raid.py is run with the sizes
-- that convert gives, and ffs.py with sizes of files that are not negative.
--
-- Not modelled: the parsing of the command line and all printing (dump, stats of raid, error_dump, and
-- the texts of messages); the operations of lfs.py under the random policy of allocate_inode, and the
-- lists of live names that its main prints; negative sizes in raid.py and ffs.py, and negative numbers as
-- bytes; the graphics of disk.py, and disk-precise.py, the same program with decimal numbers; the
-- laboratory programs in C.
pub mod Prelude
pub mod Vsfs
pub mod Raid
pub mod Lfs
pub mod Ffs
pub mod Checksum
pub mod DiskSim
