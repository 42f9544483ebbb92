-- ===== src/Lib.antt =====
-- AIM is a small teaching kernel in C for MIPS32, i386 and ARMv7-A. Its memory management is in
-- layers. kern/mm/pmm hands out physical pages from a chain of free blocks: palloc.c keeps the
-- chain, and pmm.c is what the rest of the kernel calls, through a table of functions that palloc.c
-- registers. kern/mm/kmmap/early_kmmap.c records, while the kernel boots, which regions of its
-- address space are to be mapped where. kern/arch/mips/pgtable.c keeps the two-level page tables of
-- the MIPS port, and takes the pages of the tables from pmm.c. kern/mm/uvm.c keeps the areas of a
-- process on top of these. kern/proc has the processes and the scheduler, kern/dev the devices,
-- kern/lib/libbitmap the bitmaps, and lib/libc the strings and the formatted output.
--
-- The files, and the code that each is about:
--   Prelude     The library's names, C conditions (Tests), arrays (Lists), return codes (Ints, the
--               values of include/errno.h), machine words (Words) and their bits (Bits).
--   Pmm         include/aim/pmm.h and kern/mm/pmm. Blocks is palloc.c: alloc, free, get_free and
--               page_allocator_init, over the chain of `struct mem_block`, and first_fit, carve, place,
--               place_after, merge and merge_next are their loops and branches. Memory is pmemset of
--               pmm.c with the memset of lib/libc/memset.c. Calls is the rest of pmm.c, alloc_pages,
--               free_pages, get_free_memory and alloc_aligned_pages, over any PageAllocator; palloc is
--               the one of palloc.c and dummy the one before it is registered.
--   Kmmap       kern/mm/kmmap/early_kmmap.c, every function by its name, with early_mapping_valid of
--               kern/arch/mips/arch_mmu.c and OVERLAP of include/util.h.
--   Mips        kern/arch/mips/pgtable.c, with the macros of include/arch/mips/pgtable.h and
--               arch-mmu.h. PageTable has __getpagedesc, __free_intermediate_pgtable and map_pages,
--               PageOps has init_pgindex, destroy_pgindex, unmap_pages, set_pages_perm and uva2kva.
--   Ring        include/list.h, the doubly linked rings with a sentry, over an explicit store of links.
--   Sched       kern/proc/sched/scheduler.c, the plain scheduler, over such a ring, and the loop of
--               wakeup of kern/proc/sched/sched.c.
--   ProcTree    kern/proc/proctree.c, the tree of processes by its sibling links.
--   Libc        memcpy and memmove of lib/libc, with the stages by bytes and by words in which they copy.
--               Strings has memcmp, strcmp and strlcpy.
--   Bitops      include/bitops.h, the searches and counts in one word, for an `unsigned long` of 32 bits.
--   Bitmap      include/bitmap.h and kern/lib/libbitmap, over a memory of words, with the operations in
--               Combine, Decide, Find, Area, Count and Shift, and the rest in Bitmap itself.
--   Uvm         kern/mm/uvm.c, over any Kernel, which is what Calls asks of the allocators and the page
--               tables; Counted is a kernel with a count of the calls. Uvm itself has the helpers,
--               Operations the calls on whole regions, Copy copy_to_uvm, copy_from_uvm and fill_uvm.
--   Slab        kern/mm/vmm/simple.c, the allocator of small objects, over any page allocator: alloc, free
--               and size (size_of), with get_space, free_space and get_plain_object; Vmm has kmalloc,
--               kfree and ksize of kern/mm/vmm/vmm.c.
--   Kpid        kpid_new and kpid_recycle of kern/proc/proc.c, over Bitmap, with atomic_set_bit and
--               atomic_clear_bit of include/arch/mips/atomic.h.
-- In each, the files below the one named hold the theorems, and Examples the tests.
--
-- State is passed explicitly: a Pool, a Machine (the allocator's store and the memory), a Queue, the
-- Tables (a word for every page and index, and the pages that pgalloc has left), the Links of a
-- ring. A failure that the code answers is its return code; a panic, a read through a null pointer
-- and a loop that does not end are `none`.
--
-- What the model abstracts from. The chain of palloc.c is the list of its blocks; whether kmalloc
-- finds room for a node is an argument of free, and kmalloc and kfree do not call the page allocator
-- again while a chain is in the hands of alloc or free. Memory is a function from kernel
-- addresses to bytes. The pages of tables are words by page and index, and pgalloc and pgfree take them
-- from a list and put them back, filled with junk. A call of Kernel always answers. Locks are left out: each operation runs to its end before the next begins.
-- `addr_t` and `lsize_t` have 64 bits, `size_t` and pointers 32, and their wrap-around is written
-- out.
--
-- Loops that run along a list are recursive in it. The others are on fuel, and the fuel is enough:
-- the passes over pages run on one more than the number of pages, or two where the loop tests an
-- address that may have wrapped; pmemset on the number of pages; the walk along the directory on
-- 1025, since it has 1024 entries; the searches of a ring on more than it has nodes; the loops over
-- a string on more than its length; bitmap_set and bitmap_clear on the words that they touch; the copy
-- to user memory on the pages that it touches; get_space on 257, since a page has 256 bits of status.
--
-- Not modelled: the boot loaders, the assembly and the trap entries, which are not C or only move
-- registers; the i386 and ARMv7-A ports; the drivers that touch ports or memory of devices; the
-- initcalls, which are tables made by the linker; panic and console output, which do not return or
-- have no result; the test of kern/mm/test.c; mm_init; also the caching allocator of kern/mm/vmm/vmm.c, the
-- rest of kern/proc, the device list and lib/libc/snprintf.c.
pub mod Prelude
pub mod Pmm
pub mod Kmmap
pub mod Mips
pub mod Ring
pub mod Sched
pub mod ProcTree
pub mod Libc
pub mod Bitops
pub mod Bitmap
pub mod Uvm
pub mod Slab
pub mod Kpid
