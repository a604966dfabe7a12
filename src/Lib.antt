-- ===== src/Lib.antt =====
-- OS6 is a 64-bit operating system for x86-64. Its kernel keeps its own data structures
-- (kernel/src/util), manages physical and virtual memory (kernel/src/mm), runs processes
-- (kernel/src/process), a virtual file system (kernel/src/vfs) and a window system (kernel/src/gui);
-- user programs and the kernel are linked with C libraries of the project (libk, libc).
--
-- How the parts use one another: the timer's interrupt calls the scheduler, whose two lists link the
-- node that is part of each process; processes, the tree of mount points and the block devices keep
-- their members on the linked list; process numbers come from the bit set; the page tables take
-- their frames from the physical memory manager; the window system clips by rectangles.
--
-- Files:
--   Prelude      numbers, tests, lists with native indices, integers, and binary digits
--   Alloc        `malloc` as a list of answers, each of which may be NULL
--   Util.Linked  kernel/src/util/list.c: nodes at addresses of a store, a `list_t` by value; Seg has
--                the well-formedness of a doubly linked stretch, the others the operations
--   Util.Tree    kernel/src/util/tree.c: Shape has what a tree is in memory, Count, Find and Parent the
--                functions that walk it
--   Util.Hashmap kernel/src/util/hashmap.c: buckets as lists of entries; the functions for keys are
--                the interface KeyOps, which the integer keys fill
--   Util.Bitset  kernel/src/util/bitset.c: an array of bytes
--   Gui.Rect     kernel/src/gui/rect.c, with what it uses of kernel/src/gui/gui_list.c
--   Libk.Numeral libk/src/stdlib/strtol.c, strtoul.c, strtoull.c and strtoll.c: a pointer into a
--                string is the rest of the string, and the end of the list is the NUL
--   Libk.Token   libk/src/string/strtok_r.c and what it calls, and strcmp.c
--   Vfs.Path     canonicalize_path of kernel/src/vfs/vfs.c: Pieces describes the pieces of a path,
--                Loop and Bodies the two loops, Canonical the function, and Again its use
--                on its own result
--   Process.Files  the table of file descriptors of kernel/src/process/process.c: Arrays and Written
--                have what a write leaves, Append process_append_fd
--   Process.Scheduler  the scheduler of the same file, over the store of Util.Linked: Queue the ready
--                queue, Wake and Wakeup the sleeping processes, Turn and Switch a switch, Leaving
--                and Sleep going to sleep, Rounds time slices one after another, which
--                kernel/src/arch/x86-64/idt.c ends; Wedge, Keeps and Stuck a queue that is broken
--   Process.Lookup  process_from_pid of the same file, over Util.Tree
--   Mm.Entry     the entries of page tables of kernel/src/mm/virt_mem.c
--   Mm.Paging    mapping a page in kernel/src/mm/virt_mem.c: the words of each table by its frame;
--                Steps has the entries, Huge their bit for large pages, Leads the tables at each
--                level, Walk the translation, and Failed what a mapping leaves without memory
--   Mm.Phys      kernel/src/mm/phys_mem.c and mm_bitmap.c: First the search for a free bit, Marks the
--                writes of one bit, Blocks a block that is taken and given back
--   Mm.Heap      kernel/src/mm/kheap.c: the table of regions. Blocks has what a table holds, Valid
--                the invariant, Scan the loop of kmalloc, Grow and Grown the end of the heap,
--                Kmalloc the whole function, Release, Search and Kfree the way back, and Apart
--                that blocks do not overlap
--
-- How code becomes definitions: a function keeps its name. A function that updates an object takes
-- and returns its value, and returns an option where the code may go wrong: `none` is an access
-- through NULL, outside an array or outside mapped memory, a division by 0, a shift that C leaves
-- undefined, or a failed ASSERT. Whether the kernel can read the byte at address 0, which `strpbrk`
-- does, is an argument of the functions behind it. Numbers are natural numbers; `size_t` and words
-- of 64 bits have their wrap-around written out. The coordinates of rectangles are integers: the
-- two sums that `rect_split` makes lie between edges of the operands, so they stay in the range of
-- `int`.
--
-- Bounds and fuel: the searches of the linked list take one more round than the list has nodes,
-- which the theorems show to be enough. `copy_rounds` counts the rounds of a loop that has no
-- bound. `kmalloc` has fuel for two rounds, one on each side of growing the heap, which is enough
-- below 2 ^ 62 bytes. The loops of `canonicalize_path` have one round more than the path has bytes.
-- The walks of a tree have fuel for twice its nodes.
-- Waking has one round more than processes sleep, and a switch one more than are ready, since each
-- round takes one of them.
--
-- Not modelled: giving memory back (`free` and the functions that only call it), logging, machine
-- instructions and devices, runs of physical blocks and the regions of memory, the flags of
-- kmalloc_a, what a switch does with the FPU, the stacks and the page directory, processes but for
-- their file descriptors, the scheduler and the lookup, the functions that change a tree, and the
-- file system but for its canonical paths.
pub mod Prelude
pub mod Alloc
pub mod Util
pub mod Gui
pub mod Mm
pub mod Libk
pub mod Vfs
pub mod Process
