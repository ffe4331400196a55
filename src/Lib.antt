-- ===== src/Lib.antt =====
-- InfOS, the teaching kernel of CourseWorks: a model of its core and theorems about it.
--
-- The kernel is split into subsystems that reach each other by pointers. The page allocator
-- (CourseWorks/coursework/buddy.cpp) keeps the free pages in free lists by order. The scheduler
-- (CourseWorks/infos/kernel/sched.cpp) owns the states of the threads and hands the runnable ones
-- to a scheduling algorithm (CourseWorks/coursework/sched-rr.cpp, sched-fifo.cpp and
-- CourseWorks/infos/kernel/sched-cfs.cpp), each of which keeps its entities in the kernel's own
-- list (CourseWorks/infos/include/infos/util/list.h) and reads CPU times
-- (CourseWorks/infos/include/infos/util/time.h).
--
-- Base: names that the modules share, Boolean tests, lists, powers of two, and `Outcome`, the result
-- of code that an assertion or a NULL pointer can stop (`panic`).
--
-- Util.LinkedList: `List`. The nodes from `_elems` on are a list of their data; `_count` is a number
-- modulo 2 ^ 32. `append`, `remove`, `dequeue`, `enqueue`, `push`, `pop`, `first`, `last`, `at`,
-- `count`, `empty` and `clear` have the names of the source. Util.Time: `Duration` and
-- `TimepointImpl` on 64 bits.
--
-- Util.Map: `Map` of CourseWorks/infos/include/infos/util/map.h, with numbers for keys. A node is a
-- constructor of a tree, and the parent pointers on the way up are a path of frames, so that
-- `rotate_left` and `rotate_right` act on the tree below the path. `iterate` is a loop from `begin` to
-- `end`, which has fuel.
--
-- Sched: the three algorithms. `rr_pick`, `fifo_pick` and `cfs_pick` are `pick_next_entity`;
-- `add_to_runqueue` and `remove_from_runqueue` are the same code in all three. Sched.Interface is
-- the contract that the scheduler has with an algorithm, and its three implementations. Sched.Core is
-- the scheduler: its record holds the fields of `Scheduler` and, as functions, those of the
-- entities; `schedule`, `set_entity_state`, `update_accounting`, `init` and `run` have the names of
-- the source. An entity is a number, the clock is an argument. Interrupts are off in these calls, so
-- each is one step.
--
-- Mm.Buddy: `BuddyPageAllocator`. A page descriptor is the number of its page, and a free list is the
-- list of the pages that its links lead to; `Areas` gives one list for each order. `insert_block`,
-- `remove_block`, `split_block`, `merge_block`, `alloc_pages`, `free_pages`, `reserve_page` and
-- `init` have the names of the source, and their loops are functions of their own. The loops over
-- orders and lists are structural, or on a fuel that their callers set to the number of orders or of
-- pages, which is enough: no theorem of these supposes that a call returns. Where the `int` offset of
-- `init` overflows, with 2 ^ 31 pages or more, is a panic.
--
-- Mm.Memory: `MemoryManager` of CourseWorks/infos/mm/mm.cpp, its physical memory blocks. Mm.Pages:
-- `PageAllocator` of CourseWorks/infos/mm/page-allocator.cpp, over any `PageAllocatorAlgorithm`. The
-- types of the page descriptors are a function, and the algorithm keeps a state of its own.
-- Mm.Pages.Interface is the contract with the algorithm, Mm.Pages.Buddies and
-- Mm.Pages.Simple.Scanning fill it with the buddy allocator and with the simple one of
-- CourseWorks/infos/mm/simple-page-alloc.cpp (Mm.Pages.Simple). The mutex is left out: each call is
-- one step.
--
-- Mm.Vma: `VMA` of CourseWorks/infos/mm/vma.cpp. The memory of the page tables is a function from
-- page and index to the 64-bit entry, whose bits are read by division. `insert_mapping` is three times
-- `descend`, one for each level above the last. The page allocator is a parameter with the contract
-- `PageSource` of Mm.Vma.Source, which Mm.Vma.Supply fills with Mm.Pages. Mm.Vma.Walking has the
-- shape of the tables that the theorems keep: no two entries point to one table, and all tables lie
-- below 4 GiB, where the assertion of `pa_to_vpa` holds. Where it does not hold is a panic.
--
-- Rtc: `CMOSRTC` of CourseWorks/coursework/cmos-rtc.cpp. The clock is a parameter, the byte that each
-- read of a register answers. `read_timepoint` has fuel for its two loops, and `none` where it runs
-- out: a clock that never ends an update, or changes at every reading, keeps the driver forever.
--
-- Util.Text: `strlen`, `strncmp`, `strncpy`, `ToString` and `String::split` of
-- CourseWorks/infos/util/string.cpp. A pointer is the rest of its buffer, and a read past the end
-- is a panic. The loop of `split` has fuel, since `continue` does not advance; the 16 characters
-- of `ToString` are the fuel of its digits, and a digit in front of the buffer is a panic.
--
-- Util.Text.Strings: the class `String` of CourseWorks/infos/include/infos/util/string.h, as values that
-- keep their hashes; where the 32-bit counters or sizes of its loops wrap around is a panic.
--
-- Util.Lock: `Mutex` of CourseWorks/infos/util/lock.cpp, as a relation of steps that any threads take.
--
-- Util.CommandLine: `CommandLine` of CourseWorks/infos/util/cmdline.cpp. `parse` has fuel for a round
-- for each character, which is enough.
--
-- Fs.Paths: the components of a path, which lookups and `build_tree` read with the same code.
-- Fs.Forest, Fs.Growing and Fs.Cutting: nodes at numbers with children by key, and what adding one and
-- clearing them does to the paths; a path is the list of its keys, the deepest first. Fs.Listing: the
-- sizes and blocks that a tree shows, without the nodes.
--
-- Fs.Vfs: `VirtualFilesystem` and `VFSNode` of CourseWorks/infos/fs/vfs.cpp and vfs-node.cpp. The file
-- systems are parameters. Fs.Vfs.Resolving is the lookup without nodes that remember, on a table of
-- mounts; Fs.Vfs.History runs opens and mounts one after another, on the nodes and on the table.
--
-- TarFs: `TarFSFile` of CourseWorks/coursework/tarfs.cpp, over any block device: `size` (with
-- `octal2ui`), `pread`, `read` and `seek`; a block buffer whose size an `int` does not hold is a panic.
-- TarFs.Tree: `build_tree` and `TarFSNode`; the nodes are a
-- heap, where `new` takes the next number. TarFs.Tree.Archive describes the archives on their own.
-- `build_tree` has fuel for as many rounds as there are blocks and one more, and the loop over the
-- components of a name for as many as the block has bytes; both are proved to be enough.
-- TarFs.Directory: `TarFSDirectory`. TarFs.Mounted joins the tree with Fs.Vfs.
--
-- Kernel.Objects: `ObjectManager` of CourseWorks/infos/kernel/om.cpp, over Util.Map. Kernel.Syscalls:
-- the table of system calls, and the calls on files and directories, of
-- CourseWorks/infos/kernel/syscall.cpp, over Fs.Vfs and any classes of files and directories; the
-- process of each thread is a parameter. A directory's handle given to a call on files is a panic.
--
-- Not modelled: output and logs, the hardware, the self-test of the page allocator, which runs on
-- request, the bytes that `copy_to` writes, the file systems other than the tar filesystem, `mkdir`,
-- dlmalloc (a copy of another project), and the 64-bit overflow of page addresses, which no memory
-- is large enough for.
pub mod Base
pub mod Util
pub mod Sched
pub mod Mm
pub mod Rtc
pub mod TarFs
pub mod Fs
pub mod Kernel
