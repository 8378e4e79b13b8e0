-- ===== src/Lib.antt =====
-- Verification of the Mika kernel (doppio): models of parts of the kernel under kernel/, and
-- theorems about them.
--
-- The program. A kernel for x86_64, started by Limine (boot/limine, kernel/generic.c): memory
-- management (kernel/mm, kernel/arch/x86_64/mmu.c), processes and the scheduler (kernel/proc), a
-- virtual file system with a block cache over AHCI (kernel/vfs, kernel/drivers), system calls
-- (kernel/sys), locks and RCU (kernel/lib, kernel/misc), loadable modules (kernel/module) and the
-- code for the processor (kernel/arch/x86_64). The system calls run on the thread of the caller and
-- share tables and buffers under spin locks; a call that has to wait puts its thread on a wait queue
-- and yields, and other calls make it ready again.
--
-- The files, and what they model.
--   Prelude          Boolean tests on native numbers, C arrays as lists, the first index that passes
--                    a test, and signed integers as pos n and negsuc n.
--   Errno            the error numbers that the modelled calls return, and Result.
--   BlkCache         kernel/vfs/blk_cache.c: the slots, the eviction hand, blk_cache_lookup, _evict,
--                    _read, _write, _flush, _flush_all, _invalidate and _init. The device behind
--                    ahci_bread and ahci_bwrite is a record of operations (BlockDevice) and its laws.
--                    View is the abstract disk: the cached bytes of a sector, or the device's.
--   Vma.RbTree       kernel/mm/vma.c: the red-black tree of the areas of an address space: insertion,
--                    removal (Erase) and the three searches, and the list of areas beside it. A
--                    pointer into the tree is a subtree with the path from it to the root.
--   Vma.Range        kernel/mm/vma.c: vma_split, vma_merge_adjacent and vma_remove_range on tree and
--                    list; View is the map from addresses to what is mapped there.
--   Mmap             kernel/sys/sys_mmap.c: the search of sys_mmap for a range of addresses and the
--                    new area, and sys_brk, on the areas of Vma. Whether the page table maps a page,
--                    and whether kmalloc has memory for the area, are arguments.
--   Pmm              kernel/arch/x86_64/mmu.c: the buddy allocator of physical pages,
--                    pmm_alloc_pages and pmm_free_pages with the lists of free blocks. A page is its
--                    index in all_pages_array; a specification counts the blocks that a page is in.
--                    Pmm.Init is pmm_init, which gives the regions of free memory to the allocator.
--   Cred             kernel/sys/sys_getid.c: the identities of a process and the calls that change
--                    them; a sequence of calls is a list.
--   Lock.RwSem       kernel/lib/lock.c: the sleeping read-write semaphore. Each function is one
--                    critical section under wait_lock; a step relation interleaves n threads, which
--                    Lock.Threads counts.
--   Lock.RwLock      include/kernel/lock.h: one round of each loop of the spinning read-write lock,
--                    with the values that it loads as arguments, so that others may change the
--                    lock between.
--   WaitQueue        include/kernel/wait.h: wait queues as lists of threads.
--   Pipe             kernel/sys/sys_pipe.c: the ring of a pipe, and the rounds of pipe_read and
--                    pipe_write; a call run alone, and any interleaving.
--   EventFd          kernel/sys/sys_fd.c: the counter of an event descriptor, its reads and writes.
--   TimerFd          kernel/sys/sys_fd.c: timerfd_update_ticks, timerfd_read, and setting and getting
--                    a timer, with the uptime as an argument.
--   Sem              kernel/sys/sys_sem.c: the table of semaphore sets, sys_semget, sys_semop up to
--                    where it returns or sleeps, and sys_semctl.
--   SleepQueue       kernel/proc/sched.c: the queue of sleeping threads that thread_sleep,
--                    sched_tick and thread_signal_wakeup share.
--   RunQueue         kernel/proc/sched.c: the levels of the run queues of the processors,
--                    sched_enqueue, sched_dequeue, sched_boost and the time slices of sched_tick.
--
-- State is passed explicitly. A machine integer is a natural number with the wrap-around written
-- out where the source can wrap (the 16 bits of a semaphore, the 32 bits of a lock or of the next
-- identifier, the 64 bits of a size or an address). An array is a list of fixed length. A function that makes threads ready
-- returns them. A critical section under one lock is one step: that the locks exclude is
-- assumed, and which step comes next is left open (a list of calls, or a relation).
--
-- Bounds. BLK_CACHE_SIZE, MAX_SEM_SETS, MAX_SEMS_PER_SET, PIPE_BUF_SIZE and the size of kbuf are
-- the source's. The loops of pipe_read and pipe_write run on fuel, n + 1 rounds for a call of n
-- bytes: a round that goes on moves at least one byte. vma_remove_range runs on a list with the
-- outcomes of kmalloc for each round; two rounds for each area and one more are enough. The search of
-- sys_mmap runs on fuel, a round for each page from 0x400000000000 to p_mmap_base and one more; the
-- loop of pmm_init over a region has a round for each page, for it goes at least one page on. All other
-- loops are recursion on a list, a tree, the path to its root or an index.
--
-- Not modelled: the processor (page tables, interrupts, context switches), devices, the kernel heap,
-- the file systems and the other system calls. User memory appears as what
-- copy_from_user reads and whether copy_to_user succeeds. Signals that wake a waiting thread on a
-- wait queue, and memory order between processors are left out. The block device takes every write;
-- a linked queue is a list, so a thread is taken to be on one queue at most when it is enqueued.
pub mod BlkCache
pub mod Cred
pub mod Errno
pub mod EventFd
pub mod Lock
pub mod Mmap
pub mod Pipe
pub mod Pmm
pub mod Prelude
pub mod RunQueue
pub mod Sem
pub mod SleepQueue
pub mod TimerFd
pub mod Vma
pub mod WaitQueue
