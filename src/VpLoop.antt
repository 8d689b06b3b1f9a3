-- ===== src/VpLoop.antt =====
-- src/uthread.c: the loop of a virtual processor (`vp_loop`), which looks for a thread and runs it.
pub mod Dispatch
use user_thread_scheduler.Common.{ℕ, zero, suc, true, not, ◌==◌, if◌then◌else◌, update}
use user_thread_scheduler.GlobalList.{has_live}
use user_thread_scheduler.Machine.{
  Ptr, null, running, trace_run, out_of_fuel, Cmd, pure, ◌>>=◌, ◌>>◌, gets, modify, load, store,
  with_rounds, set_state,
}
use user_thread_scheduler.Processors.{set_vp, vp_dequeue, try_steal}
use user_thread_scheduler.ReadyQueue.{dequeue}
use user_thread_scheduler.Signals.{
  spinlock_acquire, acquire_global_list, release_global_list, acquire_ready, release_ready,
}
use user_thread_scheduler.Trace.{trace_emit}

-- How a round of `vp_loop` ends: the loop is left, the processor sleeps, or a thread is run.
pub data Round : Type 0 where
  left slept : Round
  runs : Ptr → Round

-- Where a processor looks for a thread: its own queue, the global queue, the other processors.
unfoldable pub find_thread : ℕ → Cmd Ptr
unfolding spinlock_acquire vp_dequeue try_steal
find_thread i = do
  own ← vp_dequeue i
  if not (own == null) then pure own else do
    acquire_ready
    global ← dequeue
    release_ready
    if not (global == null) then pure global else try_steal i

unfoldable pub run_thread : ℕ → Ptr → Cmd Round
run_thread i next = do
  set_vp i (λ v. record v { current = next })
  modify (λ w. record w { current_thread = next })
  set_state next running
  id ← gets (λ w. (w.vps i).vp_id)
  store next (λ t. record t { vp_id = update t.vp_id next id })
  tid ← load (λ t. t.thread_id) next
  trace_emit tid trace_run id
  pure (runs next)

-- One round of `vp_loop`, up to `swapcontext` to the thread.
unfoldable pub vp_round : ℕ → Cmd Round
unfolding spinlock_acquire find_thread run_thread has_live
vp_round i = do
  on ← gets (λ w. (w.vps i).running)
  if not on then pure left else do
    next ← find_thread i
    if not (next == null) then run_thread i next else do
      acquire_global_list
      alive ← has_live
      release_global_list
      if alive then pure slept else pure left

-- What `vp_loop` does once its thread has switched back.
unfoldable pub vp_resumed : ℕ → Cmd (Unit {0})
vp_resumed i = set_vp i (λ v. record v { current = null })

-- The first rounds of `vp_loop` on processor `i`, until one runs a thread or the loop is left.
unfoldable pub vp_search : ℕ → ℕ → Cmd Round
unfolding vp_round
vp_search i zero = λ _. out_of_fuel
vp_search i (suc k) = do
  r ← vp_round i
  elim r [ left ↦ pure left | slept ↦ vp_search i k | runs p ↦ pure (runs p) ]

-- `vp_loop` up to its first switch to a thread, with SIGALRM blocked (`pthread_sigmask`).
unfoldable pub vp_loop : ℕ → Cmd Round
unfolding vp_search
vp_loop i = do
  id ← gets (λ w. (w.vps i).vp_id)
  modify (λ w. record w { my_vp_id = id })
  modify (λ w. record w { alarm_blocked = true })
  with_rounds (vp_search i)
