-- ===== src/Create.antt =====
-- src/uthread.c: threads are allocated and created, and the library starts (`alloc_tcb`,
-- `uthread_create_with_priority`, `uthread_create`, `uthread_init`, `uthread_init_mn`,
-- `uthread_mn_run`).
pub mod Publish
pub mod Refuse
use user_thread_scheduler.Common.{ℕ, Bool, true, ◌==◌, if◌then◌else◌, update, inc32, minus_one}
use user_thread_scheduler.GlobalList.{
  global_list_add, alloc_guarded_stack, free, gc_finished_threads,
}
use user_thread_scheduler.Machine.{
  Ptr, null, ready, unset, in_wrapper, Tcbs, trace_create, Cmd, pure, ◌>>=◌, ◌>>◌, gets, modify,
  load, store, set_state,
}
use user_thread_scheduler.ReadyQueue.{enqueue}
use user_thread_scheduler.Signals.{
  block_signals, unblock_signals, spinlock_acquire, acquire_global_list, release_global_list,
  acquire_ready, release_ready,
}
use user_thread_scheduler.Trace.{trace_emit}

-- What the operating system answers to a creation: the block of `calloc`, the region of `mmap`
-- (NULL for a failure of either), and whether `mprotect` succeeds.
pub record Grant : Type 0 where
  pub block : Ptr
  pub region : Ptr
  pub protects : Bool

-- A block of zeros, but for `io_fd`.
abbrev pub cleared : Ptr → Tcbs → Tcbs
cleared p t = record {
  thread_id = update t.thread_id p 0;
  state = update t.state p ready;
  stack = update t.stack p null;
  stack_alloc = update t.stack_alloc p 0;
  fn = update t.fn p null;
  arg = update t.arg p null;
  priority = update t.priority p 0;
  creation_order = update t.creation_order p 0;
  next = update t.next p null;
  global_next = update t.global_next p null;
  global_prev = update t.global_prev p null;
  io_fd = update t.io_fd p minus_one;
  io_events = update t.io_events p 0;
  io_result = update t.io_result p 0;
  sleep_until_ns = update t.sleep_until_ns p 0;
  vp_id = update t.vp_id p 0;
  context = update t.context p unset;
}

unfoldable pub alloc_tcb : Ptr → Cmd Ptr
alloc_tcb block = if block == null then pure null else do
  modify (λ w. record w { live = update w.live block true; tcb = cleared block w.tcb })
  pure block

abbrev pub fetch_thread_id : Cmd ℕ
fetch_thread_id = do
  id ← gets (λ w. w.next_thread_id)
  modify (λ w. record w { next_thread_id = inc32 w.next_thread_id })
  pure id

abbrev pub fetch_creation_order : Cmd ℕ
fetch_creation_order = do
  n ← gets (λ w. w.creation_counter)
  modify (λ w. record w { creation_counter = inc32 w.creation_counter })
  pure n

unfoldable pub collect_locked : Cmd (Unit {0})
unfolding spinlock_acquire gc_finished_threads
collect_locked = do acquire_global_list; gc_finished_threads; release_global_list

-- The fields of a new block, up to its stack.
unfoldable pub fill_in : Ptr → Ptr → Ptr → ℕ → Cmd (Unit {0})
fill_in p fn arg priority = do
  id ← fetch_thread_id
  store p (λ t. record t { thread_id = update t.thread_id p id })
  set_state p ready
  store p (λ t. record t { fn = update t.fn p fn })
  store p (λ t. record t { arg = update t.arg p arg })
  store p (λ t. record t { priority = update t.priority p priority })
  n ← fetch_creation_order
  store p (λ t. record t { creation_order = update t.creation_order p n })

-- A new thread enters the global list and the ready queue.
unfoldable pub publish : Ptr → Cmd (Unit {0})
unfolding spinlock_acquire global_list_add enqueue
publish p = do
  acquire_global_list
  global_list_add p
  release_global_list
  mn ← gets (λ w. w.mn_mode)
  if mn then (acquire_ready >> enqueue p) >> release_ready else enqueue p

-- The thread once it has a stack.
unfoldable pub launch : Ptr → Cmd ℕ
unfolding publish unblock_signals
launch p = do
  store p (λ t. record t { context = update t.context p in_wrapper })
  publish p
  tid ← load (λ t. t.thread_id) p
  trace_emit tid trace_create 0
  unblock_signals
  load (λ t. t.thread_id) p

unfoldable pub create_in : Grant → Ptr → Ptr → Ptr → ℕ → Cmd ℕ
unfolding fill_in alloc_guarded_stack launch free unblock_signals
create_in g p fn arg priority = do
  fill_in p fn arg priority
  (region, size) ← alloc_guarded_stack g.region g.protects
  store p (λ t. record t { stack = update t.stack p region })
  store p (λ t. record t { stack_alloc = update t.stack_alloc p size })
  if region == null then free p >> unblock_signals >> pure minus_one else launch p

unfoldable pub uthread_create_with_priority : Grant → Ptr → Ptr → ℕ → Cmd ℕ
unfolding block_signals unblock_signals collect_locked alloc_tcb create_in
uthread_create_with_priority g fn arg priority = do
  block_signals
  collect_locked
  p ← alloc_tcb g.block
  if p == null then unblock_signals >> pure minus_one else create_in g p fn arg priority

unfoldable pub uthread_create : Grant → Ptr → Ptr → Cmd ℕ
unfolding uthread_create_with_priority
uthread_create g fn arg = uthread_create_with_priority g fn arg 0
