-- ===== src/Sync.antt =====
-- src/uthread.c: mutexes (`uthread_mutex_init`, `uthread_mutex_lock`, `uthread_mutex_unlock`) and
-- semaphores (`uthread_sem_init`, `uthread_sem_wait`, `uthread_sem_post`).
--
-- The object is passed in, and handed back as it is at the return or at the context switch.
pub mod Waiting
pub mod Serve
pub mod Fifo
pub mod Exclusion
pub mod Permits
use user_thread_scheduler.Common.{ℕ, Bool, true, false, ◌==◌, if◌then◌else◌, inc32, dec32, slt}
use user_thread_scheduler.Machine.{
  Ptr, null, ready, blocked, trace_block, trace_unblock, Ends, ends, Cmd, pure, ◌>>=◌, ◌>>◌, gets,
  load, set_next, set_state,
}
use user_thread_scheduler.Machine.Queue.{push_back, pop_front}
use user_thread_scheduler.Processors.{locked}
use user_thread_scheduler.ReadyQueue.{enqueue}
use user_thread_scheduler.Signals.{block_signals, unblock_signals}
use user_thread_scheduler.Switch.{Outcome, returned, uthread_yield}
use user_thread_scheduler.Trace.{trace_emit}

-- `uthread_mutex_t`
pub record Mutex : Type 0 where
  pub locked : ℕ
  pub wait : Ends

-- `uthread_sem_t`
pub record Semaphore : Type 0 where
  pub count : ℕ
  pub wait : Ends

-- The current thread is marked blocked and goes to the end of a wait queue.
unfoldable pub block_on : Ends → Cmd Ends
block_on q = do
  me ← gets (λ w. w.current_thread)
  set_state me blocked
  set_next me null
  tid ← load (λ t. t.thread_id) me
  trace_emit tid trace_block 0
  push_back q me

-- The first thread of a wait queue becomes ready.
unfoldable pub wake_first : Ends → Cmd Ends
wake_first q = do
  q' ← pop_front q q.head
  set_next q.head null
  set_state q.head ready
  tid ← load (λ t. t.thread_id) q.head
  trace_emit tid trace_unblock 0
  enqueue q.head
  pure q'

abbrev pub new_mutex : Mutex
new_mutex = record { locked = 0; wait = ends null null }

unfoldable pub uthread_mutex_init : Cmd Mutex
uthread_mutex_init = pure new_mutex

-- `uthread_mutex_lock` up to its return or its context switch: whether the caller took the mutex.
unfoldable pub lock_enter : Mutex → Cmd (Mutex × Bool)
unfolding block_signals unblock_signals block_on
lock_enter m = do
  block_signals
  if m.locked == 0
      then unblock_signals >> pure (record { locked = 1; wait = m.wait }, true)
      else do q ← block_on m.wait; pure (record { locked = m.locked; wait = q }, false)

unfoldable pub uthread_mutex_lock : (ℕ → Cmd Ptr) → Mutex → Cmd (Mutex × Outcome)
unfolding lock_enter uthread_yield
uthread_mutex_lock user m = do
  (m', taken) ← lock_enter m
  if taken then pure (m', returned) else do o ← uthread_yield user; pure (m', o)

-- The mutex and the queue under `uthread_mutex_unlock`.
unfoldable pub hand_over : Mutex → Cmd Mutex
unfolding wake_first
hand_over m =
    if m.wait.head == null
    then pure (record { locked = 0; wait = m.wait })
    else do q ← wake_first m.wait; pure (record { locked = m.locked; wait = q })

unfoldable pub uthread_mutex_unlock : Mutex → Cmd Mutex
unfolding block_signals unblock_signals hand_over
uthread_mutex_unlock m = do block_signals; m' ← hand_over m; unblock_signals; pure m'

unfoldable pub uthread_sem_init : ℕ → Cmd Semaphore
uthread_sem_init initial_count = pure (record { count = initial_count; wait = ends null null })

-- `uthread_sem_wait` up to its return or its context switch: whether the caller took a permit.
unfoldable pub sem_enter : Semaphore → Cmd (Semaphore × Bool)
unfolding block_signals unblock_signals block_on
sem_enter s = do
  block_signals
  if slt 0 s.count
      then unblock_signals >> pure (record { count = dec32 s.count; wait = s.wait }, true)
      else do q ← block_on s.wait; pure (record { count = s.count; wait = q }, false)

unfoldable pub uthread_sem_wait : (ℕ → Cmd Ptr) → Semaphore → Cmd (Semaphore × Outcome)
unfolding sem_enter uthread_yield
uthread_sem_wait user s = do
  (s', taken) ← sem_enter s
  if taken then pure (s', returned) else do o ← uthread_yield user; pure (s', o)

-- The count and the queue under `uthread_sem_post`.
unfoldable pub give : Semaphore → Cmd Semaphore
unfolding wake_first
give s =
    if s.wait.head == null
    then pure (record { count = inc32 s.count; wait = s.wait })
    else do q ← wake_first s.wait; pure (record { count = dec32 (inc32 s.count); wait = q })

unfoldable pub uthread_sem_post : Semaphore → Cmd Semaphore
unfolding block_signals unblock_signals give
uthread_sem_post s = do block_signals; s' ← give s; unblock_signals; pure s'
