-- ===== src/Lib.antt =====
-- uthread: a user-space thread scheduler (src/uthread.c, include/uthread.h).
--
-- The library keeps thread control blocks in intrusive lists and switches between them with
-- `swapcontext`. In single-core mode one OS thread runs them all: a timer signal or a call of
-- `uthread_yield` polls for events, puts the current thread behind the ready queue and runs what the
-- scheduling policy chooses. Mutexes, semaphores and channels keep wait queues through the same
-- `next` field as the ready queue, the run queues and the sleep list. In M:N mode each virtual
-- processor has a run queue and steals from the others.
--
-- Files, and the functions of src/uthread.c that they model under the same names:
--   Common            lists, Boolean tests, 32-bit words.
--   Machine           `struct tcb` by fields, the globals (`World`), the commands. Machine/Chain and
--                     Machine/Queue: singly linked lists and queues, refined to lists of addresses;
--                     Machine/Apart: operations on one list leave the others.
--   Spinlock          a spinlock and the OS threads that interleave on it.
--   Signals, Trace    `block_signals`, the spinlocks as one OS thread sees them; `trace_emit` and
--                     the other trace functions (Trace/Dump, Trace/Written: what is kept and what
--                     the file has).
--   ReadyQueue        `enqueue`, `dequeue`, `remove_from_ready_queue`.
--   Policy            `round_robin_next`, `priority_next`, `schedule_next`.
--   Sleep             `check_sleep_list`.
--   GlobalList        the global list, guarded stacks, `gc_finished_threads`.
--   Io, Blocking      `check_io_events`; `uthread_sleep`, `uthread_read`, `uthread_write`,
--                     `sigsegv_handler`.
--   Switch            `uthread_yield`, `uthread_exit`, `thread_wrapper`, `uthread_self`.
--   Sync, Channel     mutexes and semaphores, with runs of threads on one of them
--                     (Sync/Exclusion, Sync/Permits); channels.
--   Create, Start     `uthread_create_with_priority`; `uthread_init`, `uthread_init_mn`, and
--                     `uthread_mn_run` but for the loops of its processors.
--   Processors        `vp_enqueue`, `vp_dequeue`, `try_steal`, `mn_yield`, `mn_exit`.
--   VpLoop            `vp_loop`.
--   System            the well-formed states of single-core mode, all lists together, and on them
--                     whole calls up to their context switch: `uthread_yield` (Whole),
--                     `uthread_sleep` (Slept), `uthread_read` and `uthread_write` (Reading),
--                     `uthread_exit` (Exited, Last), `uthread_mutex_lock` and `uthread_sem_wait`
--                     (Acquire), `uthread_create_with_priority` (Create). Sweep,
--                     Polling, Turns, Waiting, Idle, Parked: their parts, the waiting loop among
--                     them. Runs: calls one after the other as a step relation.
--   Petersons         the demo of Peterson's lock (demos/petersons/petersons.c).
--   Tests             concrete worlds, and the theorems at them.
--
-- A function of the code is a command: it takes the world and returns a result with the world after
-- it, or it faults (an access of NULL or of a block that is not allocated), exits, or spins on a lock
-- that is held. A C `int` is its 32-bit pattern, read as signed by `slt` and `sle`; `uint64_t` times
-- wrap at 2 ^ 64. Each loop over a list is given `rounds` rounds; a list of fewer than
-- `rounds` blocks needs no more, and each loop over it stands with that bound as a hypothesis.
-- The loop that waits for a thread polls at most `rounds` times, with a reading of the clock each
-- time; `rounds` is enough where the time of a sleeper comes within as many readings.
--
-- A function that switches contexts is modelled up to its `swapcontext`, with the thread that is
-- resumed as the result, and what it does once resumed is a function of its own. The answers of the
-- operating system (the clock, epoll events, `calloc`, `mmap`, `read`) are streams of `Os` or
-- arguments; its calls for effect are logged in their order, `fprintf` with its arguments. The
-- scheduler functions of a program are a parameter.
--
-- Not modelled: OS threads that run at the same time, but for a spinlock (the code of a processor is
-- modelled as that processor runs it, `current_thread` and `my_vp` are its own), signal handlers
-- that interrupt a function, the flags and masks of `sigaction`, how `fprintf` prints a number,
-- the contents of stacks, and the benchmarks and tests. In the demo of Peterson's lock the accesses
-- keep the order in which the program is written: a compiler that reorders them is not modelled.
pub mod Common
pub mod Machine
pub mod Signals
pub mod Spinlock
pub mod Trace
pub mod ReadyQueue
pub mod Sleep
pub mod GlobalList
pub mod Io
pub mod Processors
pub mod VpLoop
pub mod Switch
pub mod Sync
pub mod Channel
pub mod Create
pub mod Start
pub mod Blocking
pub mod Policy
pub mod System
pub mod Petersons
mod Tests
