-- ===== src/Switch.antt =====
-- src/uthread.c: context switches (`uthread_yield`, `uthread_exit`, `uthread_self`, `alrm_handler`,
-- `thread_wrapper`). A function is modelled up to its `swapcontext`; what it does once its thread
-- is resumed is a function of its own. `user` is what the scheduler functions of the program do.
pub mod Turn
pub mod Rotation
pub mod RunOn
use user_thread_scheduler.Common.{
  ℕ, zero, suc, Bool, not, ◌&&◌, ◌==◌, if◌then◌else◌, update, minus_one, slt,
}
use user_thread_scheduler.GlobalList.{gc_finished_threads, has_live}
use user_thread_scheduler.Io.{check_io_events}
use user_thread_scheduler.Machine.{
  Ptr, null, ready, running, finished, Context, in_yield, in_exit, trace_run, trace_yield,
  trace_exit, exited, out_of_fuel, Cmd, pure, ◌>>=◌, ◌>>◌, gets, modify, load, store, with_rounds,
  get_state, set_state,
}
use user_thread_scheduler.Policy.{is_ready, schedule_next}
use user_thread_scheduler.Processors.{is_running, mn_yield, mn_exit}
use user_thread_scheduler.ReadyQueue.{enqueue, remove_from_ready_queue}
use user_thread_scheduler.Signals.{block_signals, unblock_signals}
use user_thread_scheduler.Sleep.{check_sleep_list}
use user_thread_scheduler.Trace.{trace_emit, uthread_dump_trace}

-- How a function of the library ends on its thread: it returns, another thread is resumed, or the
-- scheduler of the virtual processor is.
pub data Outcome : Type 0 where
  returned to_scheduler : Outcome
  switches : Ptr → Outcome

-- The polling before a scheduling decision.
unfoldable pub poll : Cmd (Unit {0})
unfolding check_io_events check_sleep_list
poll = check_io_events >> check_sleep_list

-- `next` becomes the current thread, and `swapcontext` saves where `prev` is.
unfoldable pub switch_to : Ptr → Context → Ptr → Cmd Outcome
switch_to prev at next = do
  modify (λ w. record w { current_thread = next })
  set_state next running
  tid ← load (λ t. t.thread_id) next
  trace_emit tid trace_run 0
  store prev (λ t. record t { context = update t.context prev at })
  pure (switches next)

unfoldable pub requeue_running : Ptr → Cmd (Unit {0})
requeue_running prev = do
  set_state prev ready
  tid ← load (λ t. t.thread_id) prev
  trace_emit tid trace_yield 0
  enqueue prev

-- A running thread goes to the end of the ready queue.
unfoldable pub requeue : Ptr → Cmd (Unit {0})
unfolding requeue_running
requeue prev = do s ← get_state prev; if is_running s then requeue_running prev else pure tt

-- The loop that waits for an event or for the end of a sleep.
unfoldable pub idle_loop : (ℕ → Cmd Ptr) → ℕ → Cmd Ptr
unfolding block_signals unblock_signals poll schedule_next
idle_loop user zero = λ _. out_of_fuel
idle_loop user (suc k) = do
  block_signals
  poll
  next ← schedule_next user
  if not (next == null) then pure next else do unblock_signals; idle_loop user k

-- Whether somebody can still become ready.
unfoldable pub can_wait : Cmd Bool
unfolding has_live
can_wait = do alive ← has_live; fd ← gets (λ w. w.epoll_fd); pure (alive && not (slt fd 0))

-- `exit(code)`
abbrev pub exit : {A : Type 0} → ℕ → Cmd A
exit code w = exited code w

unfoldable pub wait_for_thread : (ℕ → Cmd Ptr) → Cmd Ptr
unfolding unblock_signals idle_loop
wait_for_thread user = unblock_signals >> with_rounds (idle_loop user)

-- There is no ready thread: wait for one, or run `last_words` and end the process.
unfoldable pub wait_or_exit : (ℕ → Cmd Ptr) → Cmd (Unit {0}) → Cmd Ptr
unfolding can_wait wait_for_thread
wait_or_exit user last_words = do
  waits ← can_wait
  if waits then wait_for_thread user else do last_words; exit 0

-- `prev` was requeued and the scheduler gives nobody: it runs on.
unfoldable pub run_on : Ptr → Cmd (Unit {0})
unfolding remove_from_ready_queue unblock_signals
run_on prev = do
  set_state prev running
  remove_from_ready_queue prev
  tid ← load (λ t. t.thread_id) prev
  trace_emit tid trace_run 0
  unblock_signals

-- `uthread_yield` from its scheduling decision.
unfoldable pub yield_to : (ℕ → Cmd Ptr) → Ptr → Ptr → Cmd Outcome
unfolding switch_to run_on wait_or_exit uthread_dump_trace
yield_to user prev next = if not (next == null) then switch_to prev in_yield next else do
  s ← get_state prev
  if is_ready s
      then run_on prev >> pure returned
      else do n ← wait_or_exit user uthread_dump_trace; switch_to prev in_yield n

-- `uthread_yield` behind its polling.
unfoldable pub reschedule : (ℕ → Cmd Ptr) → Cmd Outcome
unfolding requeue schedule_next yield_to
reschedule user = do
  prev ← gets (λ w. w.current_thread)
  requeue prev
  next ← schedule_next user
  yield_to user prev next

unfoldable pub uthread_yield : (ℕ → Cmd Ptr) → Cmd Outcome
unfolding mn_yield block_signals gc_finished_threads poll reschedule
uthread_yield user = do
  mn ← gets (λ w. w.mn_mode)
  if mn
      then mn_yield >> pure to_scheduler
      else do block_signals; gc_finished_threads; poll; reschedule user

-- `uthread_yield` behind its `swapcontext`.
unfoldable pub yield_resumed : Cmd (Unit {0})
unfolding unblock_signals
yield_resumed = unblock_signals

-- The timer signal.
unfoldable pub alrm_handler : (ℕ → Cmd Ptr) → Cmd Outcome
unfolding uthread_yield
alrm_handler user = uthread_yield user

-- `uthread_exit` behind its polling.
unfoldable pub leave : (ℕ → Cmd Ptr) → Ptr → Cmd Outcome
unfolding schedule_next switch_to wait_or_exit gc_finished_threads uthread_dump_trace
leave user prev = do
  next ← schedule_next user
  next' ←
      if not (next == null)
      then pure next
      else wait_or_exit user (gc_finished_threads >> uthread_dump_trace)
  switch_to prev in_exit next'

unfoldable pub uthread_exit : (ℕ → Cmd Ptr) → Cmd Outcome
unfolding mn_exit block_signals poll leave
uthread_exit user = do
  mn ← gets (λ w. w.mn_mode)
  if mn then mn_exit >> pure to_scheduler else do
    block_signals
    prev ← gets (λ w. w.current_thread)
    set_state prev finished
    tid ← load (λ t. t.thread_id) prev
    trace_emit tid trace_exit 0
    poll
    leave user prev

-- `thread_wrapper` up to the call of `fn`: the function and its argument.
unfoldable pub thread_wrapper : Cmd (Ptr × Ptr)
unfolding unblock_signals
thread_wrapper = do
  unblock_signals
  p ← gets (λ w. w.current_thread)
  fn ← load (λ t. t.fn) p
  arg ← load (λ t. t.arg) p
  pure (fn, arg)

unfoldable pub uthread_self : Cmd ℕ
uthread_self = do
  p ← gets (λ w. w.current_thread)
  if p == null then pure minus_one else load (λ t. t.thread_id) p
