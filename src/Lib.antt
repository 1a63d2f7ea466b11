-- ===== src/Lib.antt =====
-- YATOS (Yet Another Teachable Operating System): verification library of the kernel's core.
--
-- The kernel is a set of C modules over shared objects. The ones modelled here, and their files:
--
--   Refcount   kern/refcount.c: reference counters with a deferred delete request. `Refcnt` is the
--              struct refcnt; refcnt_get and the others take a counter and return the reply and the
--              counter that is left.
--   IdBitmap   kern/id-bitmap.c: allocation of object ids. IdBitmap/Map has the struct id_bitmap
--              (`IdMap`) and the static functions, IdBitmap/Api the interface. IdBitmap/View gives the
--              abstract view, the set of ids in use; Resize, Find, Loop and Ids prove the operations
--              against it.
--   Buddy      page/page-buddy.c: the buddy page allocator. Buddy/Cover counts the free blocks that
--              cover a page, Buddy/Split is about splitting a block, Buddy/Dequeue about allocation.
--              Siblings, Blocks and Tiles are about aligned blocks and their buddies, Unlink about
--              taking a buddy off its queue, Enqueue about merging and Return about freeing.
--   Event      event/event-mask.c, event/async-event.c, event/event-alloc.c: Event/Mask has the sets of
--              event numbers, Event/Queue the event queue of a thread or process, Event/Send the calls that
--              send and take events, on top of Thread; Deliverable, FirstBit and Update are about
--              masks, Dequeue and Post about the queue, Deliver and Taken about the calls. Event/Exit has
--              what becomes of the events of a thread that ends, Wakeable, PassOn and ThreadEnd
--              prove it.
--   Thread     thr/thread-que.c, thr/thread-schedule.c and parts of thr/thread-info.c: Thread/State has
--              the thread states and queues, Thread/Sched the scheduler; Queues has the invariant, and
--              Switch, Schedule and Wakeup the operations.
--   Links      klib/list.c, klib/queue.c: linked lists in a memory of two pointer fields, `Mem`. Links/Paths
--              says when the memory holds a queue of given nodes; Distinct is about lists of different
--              nodes, Add and Delete about the operations, Refine about sequences of calls on a queue,
--              Twice about a node that is added twice. The other components have lists as their queues.
--   Sync       thr/thread-sync.c: objects that threads wait on, on top of Thread. Sync/Wake is about waking
--              and Finish about what a thread finds when its wait ends.
--   Mutex      kern/mutex.c: Mutex/Rounds has the cases of one call, Exclusion the interleavings of the
--              calls of threads as a step relation.
--   Timer      tim/timer.c and the tick of tim/timer-handler.c: Timer/Trees is the interface of the tree of
--              call-outs, which Lists fills by sorted lists; Fire is about the call-outs of a tick, Waits
--              about the beginning, length and end of a wait.
--   Irq        irq/irq.c: the handlers and controllers of the interrupt lines. Irq/Masks has the invariant,
--              Register the calls that change a line, Undo unregistering after a registration, Handle the
--              handling of an interrupt.
--   NameService  kern/kname-service.c: NameService/Table has the table of services and
--              the handlers of requests, Registration proves them.
--   Vm         vm/vm.c, the access test of vm/vm-copy-inout.c, the user pages of hal/x86-64/mm/pgtbl.c and the
--              map counts of page/page.c: Vm/Space has the areas of an address space, Vm/Pages the page tables
--              and page frames, Vm/Resize the heap and the stack. Vm/Order says when areas stand in order; Create
--              is about making an area, Access about the area of an address, Ranges, Mapping, Unmapping and
--              NewPages about pages, Growth about the heap.
--   Slab       page/page-kmcache.c and the choice of a cache in page/page-kmalloc.c: caches of objects of one
--              size. Slab/Sizes has the layout of a slab, Slab/Objects the operations on objects, Slab/Api
--              making and destroying a cache. Valid is the invariant, Occurs counts in lists, Place is about
--              the queues, Room and Grow about a new slab, Pick and Alloc about taking an object, Put, Where and Free
--              about giving it back, Layout about the sizes.
--   Prelude    C-like tests, arrays as lists, return codes (`Rc`, include/kern/errno.h) and `Exec`; sorted
--              lists, as the search trees hold their elements.
--   Bits       the bit operations of C on 64-bit words, by the native bit_and and bit_or.
--
-- How the model corresponds to the code. A function that changes an object returns the new object. A
-- value of `Exec` is `stop` where a kassert fails, a null pointer is followed, or an array is accessed
-- outside its bounds. Numbers are natural numbers; an operation that can wrap has its `% 2 ^ 64` written
-- out. Each body that runs under its object's spinlock is one step, so the locks themselves and the
-- interrupt flags do not appear. A pointer that is NULL is `none`.
--
-- What stands outside. For its callers kmalloc is an argument, a test of the requested size that says whether the heap
-- grants it; so are pfn_to_page_frame for the buddy allocator, vm_copy_in for the name service, and the
-- operations of an interrupt controller and the answers of interrupt handlers. The red-black trees of the
-- BSD headers are an interface for the timers, a record of operations with their documented laws, and a
-- finite map for the name service; the tree of areas is a list in order, and its insertion an argument. The page
-- tables of an address space are a map from page numbers to entries and, for each upper level, the tables that are
-- there; one that is missing is taken from the page allocator. The page allocator of Vm hands out the pages of a
-- list, and that of Slab answers as an argument says. A cache has whether the database has one of its name; for a new
-- cache an argument says it.
-- Constructors and destructors of objects are left out. A context switch is the change of the current
-- thread; registers, stacks and address spaces are the hardware's. Threads and processes are not created,
-- and the kernel's other parts (messages between threads, the servers, the C library, the ELF
-- loader, the boot of the machine) are not modelled. Debug
-- output (kprintf) is left out.
--
-- Fuel. The loops over arrays count the rounds left, so they need none. The search-and-grow loop of
-- idbmap_get_id has no bound in the code and takes fuel; `none` is a loop that has not ended.
-- The loop over the call-outs of a tick takes fuel, of which their number is enough. The loop of mutex_lock
-- runs over the wake-ups that the thread gets.
pub mod Prelude
pub mod Bits
pub mod Links
pub mod Refcount
pub mod IdBitmap
pub mod Buddy
pub mod Event
pub mod Thread
pub mod Sync
pub mod Mutex
pub mod Timer
pub mod NameService
pub mod Irq
pub mod Vm
pub mod Slab
