-- ===== src/Lib.antt =====
-- rumpuser-baremetal: the bare-metal platform under a rump kernel.
--
-- The program boots by multiboot (`bmk_main`), finds its memory (`parsemem`), hands it out in pages
-- (`bmk_allocpg`) and blocks (`bmk_memalloc`), shows text on the screen (`bmk_cons_puts`), and runs
-- threads that give up the processor on their own account (`bmk_sched`). The hypercalls of the rump
-- kernel (rumpfiber.c) put mutexes, read-write locks and condition variables on top of the scheduler.
--
-- Base        shared helpers: tests, lists, integers. Bits: the masks of the C code as arithmetic.
-- Subr        subr.c: `bmk_strlen`, `bmk_strcmp`, `bmk_strcpy`, `bmk_strncpy`, `bmk_memset`, `bmk_memcpy`.
--             A pointer is the list of the bytes from there on; an access behind its end is `none`.
-- Kernel      kernel.c: Page (`bmk_allocpg`), Memmap (`parsemem`), Console (`cons_putat`, `bmk_cons_putc`,
--             `bmk_cons_puts`, `bmk_init`), Screen (what the console does to the screen as a whole).
-- Memalloc    memalloc.c: `bmk_memalloc` with its setup, search and `morecore`, `bmk_memfree` and
--             `bmk_memrealloc`, over the pages of Kernel.Page. Bucket is the search, Place the alignment,
--             Free and Request the operations together, with the room that `bmk_memrealloc` reckons with.
--             Blocks says when the carved blocks and the free lists are well formed: Take, Row, More, Refill,
--             Serve and Free follow the operations; Held, Steps, Run and Move are the clients that free only
--             what they hold. Arena is the allocator as the scheduler uses it: its state is a run of those
--             clients; Over is the state before the first call, Give the freeing and the interface.
-- Queue       the tail queues of include/bmk/queue.h as an interface: that file is a copy of the BSD
--             macros. Heap: the allocator as the scheduler uses it, as an interface that
--             Memalloc.Arena fills with memalloc.c, and a list of addresses for the examples.
-- Sched       sched.c and arch/i386/cpu_sched.c, over those interfaces: the choice of a thread, the switch
--             and the reaper of `bmk_sched`; Threads has creation, exit, join, sleep, TLS and errno. Frame, Wf,
--             Memory and Adds say what each leaves as it is. Run has the runs of a program of threads that wake
--             one another, wait, sleep, create, join and exit: Keeps, Creates, Waits, Joins, Gate and Exits follow
--             the steps, Safe is what holds in every state that is reached.
-- Fiber       rumpfiber.c: the waiters; Mutex, Rw and Cv are the locks and the condition variables, Lwp the
--             hypercalls on threads and lwps. Mutex.Run has the runs of a mutex, Keeps, Leaves and Excludes
--             what they keep. Rw.Run has those of a read-write lock, Turns, Resumes, Exits and Safe what they
--             keep; Rw.Writers is where its readers and writers collide,
--             Cv.Broadcast where two woken waiters do,
--             Cv.Timeout a wait that nobody wakes.
-- Intr        intr.c: pending interrupts, their handlers, and the thread that calls them. Held is the guard of
--             its loop by the interrupt flag, Raise a turn of that thread after any interrupts, Establish is `bmk_isr_netinit`, Wakes the runs of all of it.
-- Machine     arch/i386/machdep.c: descriptors, interrupt controllers, timer; Masks is what the writes leave.
-- Rumpuser    rumpuser.c: parameters, memory, random numbers, clock; Decimal is the printing of a number,
--             Limit the text that `rumpuser_getparam` leaves for RUMP_MEMLIMIT.
-- Pci, Libc   rumppci.c, with Irq for the way of an interrupt's number to intr.c, and libc_malloc.c, with Mmap for
--             libc_emul.c's `mmap`.
-- Boot        `bmk_main` of kernel.c: all of it set up, one after another. Steps and Up are what it leaves.
-- Examples    concrete states and runs.
--
-- A state is a record that the operations take and return. Threads, waiters and blocks are named by their
-- addresses, numbers below 2^32, and 0 is NULL; sizes and addresses wrap at 32 bits where the C code's
-- do. `none` is a run that does not come back: a panic, a failed assertion, a fault. A function that calls
-- `bmk_sched` in its middle is two functions, one up to the call and one behind it, since other threads
-- run in between. The times of the clock are parameters, as are the threads that interrupts wake while
-- the processor halts (Sched.Round).
--
-- A run is a sequence of steps of a relation (Memalloc.Blocks.Steps, Sched.Run,
-- Fiber.Mutex.Run, Fiber.Rw.Run, Intr.Wakes), and what holds
-- of every state that is reached is an invariant that each step keeps. The runs of the allocator are those in which fewer than
-- 2^19 pages were handed out before each request: from 2^20 on the counter of pages wraps.
--
-- Loops over data are recursion on it. The walk over the memory map is on fuel, its length and 1, as each
-- step is four bytes at least; the loops of the allocator double a 32-bit number that starts at 32 or more,
-- which becomes 0 in the 27th step at the latest, and have fuel for 28; the loop of `wakeup_all` has fuel
-- for the waiters and one more round.
--
-- Not modelled: the assembler of a thread switch and the stack pointer that it saves; counters of type int
-- beyond their range; the upcalls into the rump kernel; the bytes in the allocator's blocks and the variants
-- of memalloc.c for tests; the stubs of libc_emul.c, libc_errno.c and the assembler of the startup; app.c and
-- undefs.c, which are a demonstration and stubs; librt, a copy of compiler-rt.
pub mod Base
pub mod Subr
pub mod Kernel
pub mod Bits
pub mod Queue
pub mod Heap
pub mod Sched
pub mod Fiber
pub mod Memalloc
pub mod Intr
pub mod Boot
pub mod Machine
pub mod Rumpuser
pub mod Pci
pub mod Libc
pub mod Examples
