-- ===== src/Policy.antt =====
-- src/uthread.c: the scheduling policies (`round_robin_next`, `priority_next`, `schedule_next`,
-- `uthread_set_scheduler`).
pub mod Best
use user_thread_scheduler.Common.{
  ℕ, zero, suc, Bool, true, false, ◌&&◌, ◌||◌, ◌==◌, if◌then◌else◌, slt,
}
use user_thread_scheduler.Machine.{
  Ptr, null, ThreadState, ready, SchedulerFn, no_policy, round_robin_policy, priority_policy,
  user_policy, out_of_fuel, Cmd, pure, ◌>>=◌, ◌>>◌, gets, modify, load, get_next, with_rounds,
  get_state,
}
use user_thread_scheduler.ReadyQueue.{dequeue, remove_from_ready_queue}

unfoldable pub round_robin_next : Cmd Ptr
round_robin_next = dequeue

abbrev pub is_ready : ThreadState → Bool
is_ready ready = true
is_ready _ = false

-- `cur->priority < best->priority || (cur->priority == best->priority && …)`
abbrev pub comes_first : (cp bp co bo : ℕ) → Bool
comes_first cp bp co bo = slt cp bp || ((cp == bp) && slt co bo)

unfoldable pub better : Ptr → Ptr → Cmd Bool
better cur best = if best == null then pure true else do
  cp ← load (λ t. t.priority) cur
  bp ← load (λ t. t.priority) best
  co ← load (λ t. t.creation_order) cur
  bo ← load (λ t. t.creation_order) best
  pure (comes_first cp bp co bo)

unfoldable pub best_loop : ℕ → Ptr → Ptr → Cmd Ptr
unfolding better
best_loop zero best cur = λ _. out_of_fuel
best_loop (suc k) best cur = if cur == null then pure best else do
  s ← get_state cur
  b ← if is_ready s then better cur best else pure false
  n ← get_next cur
  best_loop k (if b then cur else best) n

unfoldable pub priority_next : Cmd Ptr
unfolding best_loop remove_from_ready_queue
priority_next = do
  q ← gets (λ w. w.ready)
  best ← with_rounds (λ k. best_loop k null q.head)
  if best == null then pure tt else remove_from_ready_queue best
  pure best

-- `user` is what the scheduler functions of the program do.
unfoldable pub schedule_next : (ℕ → Cmd Ptr) → Cmd Ptr
unfolding round_robin_next priority_next
schedule_next user = do
  f ← gets (λ w. w.current_scheduler)
  elim f [
    | no_policy ↦ round_robin_next
    | round_robin_policy ↦ round_robin_next
    | priority_policy ↦ priority_next
    | user_policy i ↦ user i
  ]

unfoldable pub uthread_set_scheduler : SchedulerFn → Cmd (Unit {0})
uthread_set_scheduler policy = modify (λ w. record w { current_scheduler = policy })
