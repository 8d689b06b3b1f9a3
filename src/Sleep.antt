-- ===== src/Sleep.antt =====
-- src/uthread.c: the sleep list (`check_sleep_list`).
pub mod Loop
pub mod Wake
use user_thread_scheduler.Common.{
  ℕ, zero, suc, ◌≡◌, true, false, List, [], ◌∷◌, has, Distinct, leb, ◌==◌, if◌then◌else◌, update,
}
use user_thread_scheduler.Machine.{
  Ptr, null, ready, trace_wakeup, World, out_of_fuel, Cmd, pure, ◌>>=◌, ◌>>◌, gets, modify, load,
  store, get_next, set_next, with_rounds, set_state,
}
use user_thread_scheduler.Machine.Chain.{Chain}
use user_thread_scheduler.ReadyQueue.{enqueue, IsReadyQueue}
use user_thread_scheduler.Signals.{spinlock_acquire, acquire_sleep_list, release_sleep_list}
use user_thread_scheduler.Trace.{get_time_ns, trace_emit}

-- The body of the loop at a thread whose time has come, up to `enqueue`.
unfoldable pub wake : Ptr → Ptr → Cmd (Unit {0})
wake prev cur = do
  nx ← get_next cur
  if prev == null then modify (λ w. record w { sleep_list_head = nx }) else set_next prev nx
  store cur (λ t. record t { sleep_until_ns = update t.sleep_until_ns cur 0 })
  set_state cur ready
  set_next cur null
  tid ← load (λ t. t.thread_id) cur
  trace_emit tid trace_wakeup 0
  enqueue cur

unfoldable pub sleep_loop : ℕ → ℕ → Ptr → Ptr → Cmd (Unit {0})
sleep_loop now zero prev cur = λ _. out_of_fuel
sleep_loop now (suc k) prev cur = if cur == null then pure tt else do
  nx ← get_next cur
  due ← load (λ t. t.sleep_until_ns) cur
  if leb due now then (do wake prev cur; sleep_loop now k prev nx) else sleep_loop now k cur nx

unfoldable pub check_sleep_list : Cmd (Unit {0})
unfolding sleep_loop get_time_ns spinlock_acquire
check_sleep_list = do
  now ← get_time_ns
  acquire_sleep_list
  head ← gets (λ w. w.sleep_list_head)
  with_rounds (λ k. sleep_loop now k null head)
  release_sleep_list

-- The sleep list holds `ss` and the ready queue `xs`, and no thread is in both.
pub record IsSleeping (w : World) (xs ss : List Ptr) : Type 0 where
  pub ready : IsReadyQueue w xs
  pub chain : Chain w.live w.tcb.next w.sleep_list_head ss
  pub distinct : Distinct ss
  pub apart : (a : Ptr) → has a ss ≡ true → has a xs ≡ false

-- The threads whose time has come at `now`, and those that sleep on.
abbrev pub due : ℕ → (Ptr → ℕ) → List Ptr → List Ptr
due now until [] = []
due now until (x ∷ xs) = if leb (until x) now then x ∷ due now until xs else due now until xs

abbrev pub asleep : ℕ → (Ptr → ℕ) → List Ptr → List Ptr
asleep now until [] = []
asleep now until (x ∷ xs) =
    if leb (until x) now then asleep now until xs else x ∷ asleep now until xs
