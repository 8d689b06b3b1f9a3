-- ===== src/Switch/RunOn.antt =====
-- src/uthread.c: `uthread_yield` where the scheduler function of the program gives no thread.
use mathlib.Core.Path.{subst}
use user_thread_scheduler.Common.{
  ℕ, suc, ◌<◌, ◌≡◌, refl, sym, ◌∙◌, inl, inr, true, false, List, [], ◌∷◌, ◌++◌, append-nil, arith,
  length, length-append, has, erase, erase-append, ◌==◌, ==_iff, Bool-cases, update, eq_self,
}
use user_thread_scheduler.Machine.{
  Ptr, null, ready, running, trace_run, trace_yield, no_policy, round_robin_policy, priority_policy,
  user_policy, World, ok, Cmd, ◌>>=◌, ◌>>◌, access,
}
use user_thread_scheduler.Machine.Queue.{IsQueue-TailIsOk}
use user_thread_scheduler.Policy.{round_robin_next, priority_next, schedule_next}
use user_thread_scheduler.ReadyQueue.{IsReadyQueue, enqueue-ok, enqueue-IsReadyQueue}
use user_thread_scheduler.ReadyQueue.Remove.{with_ready, Removal, remove_from_ready_queue-erase}
use user_thread_scheduler.Signals.{unblock_signals-ok}
use user_thread_scheduler.Switch.{returned, requeue_running, requeue, run_on, yield_to, reschedule}
use user_thread_scheduler.Switch.Turn.{requeued}
use user_thread_scheduler.Trace.{traced, trace_emit-ok}

-- `p` runs under the scheduler function `i` of the program, and `xs` are ready.
pub record IsAlone (w : World) (p : Ptr) (xs : List Ptr) (i : ℕ) : Type 0 where
  pub current : w.current_thread ≡ p
  pub alive : access w.live p ≡ true
  pub state : w.tcb.state p ≡ running
  pub queue : IsReadyQueue w xs
  pub apart : has p xs ≡ false
  pub policy : w.current_scheduler ≡ user_policy i
  pub few : suc (length xs) < w.rounds
  pub single : w.mn_mode ≡ false

-- The call returns, and the thread runs on with the ready queue as before.
pub record RanOn (user : ℕ → Cmd Ptr) (w : World) (p : Ptr) (xs : List Ptr) : Type 0 where
  pub end : World
  pub returns : reschedule user w ≡ ok returned end
  pub queue : IsReadyQueue end xs
  pub states : (a : Ptr) → end.tcb.state a ≡ w.tcb.state a
  pub current : end.current_thread ≡ p
  pub unblocked : end.alarm_blocked ≡ false

erase-snoc : (p : Ptr) (xs : List Ptr) → has p xs ≡ false → erase p (xs ++ p ∷ []) ≡ xs
erase-snoc p xs h = erase-append p xs [] h ∙ append-nil xs

module _ (user : ℕ → Cmd Ptr) {w : World} {p : Ptr} {xs : List Ptr} {i : ℕ}
    (v : IsAlone w p xs i) where
  requeue-alone : requeue p w ≡ ok tt (requeued w p)
  unfolding requeue requeue_running
  requeue-alone = rw (
    v.alive,
    v.state,
    v.alive,
    v.alive,
    trace_emit-ok (w.tcb.thread_id p) trace_yield 0
        (record w { tcb = record w.tcb { state = update w.tcb.state p ready } }),
    enqueue-ok p
        (traced (w.tcb.thread_id p) trace_yield 0
          (record w { tcb = record w.tcb { state = update w.tcb.state p ready } }))
        (IsQueue-TailIsOk v.queue.queue) v.alive,
  )

  -- The caller is marked running again before it is taken out of the queue.
  abbrev rerun : World
  rerun = record (requeued w p) {
    tcb = record (requeued w p).tcb { state = update (requeued w p).tcb.state p running };
  }

  rerun-IsReadyQueue : IsReadyQueue rerun (xs ++ p ∷ [])
  rerun-IsReadyQueue =
      let r = enqueue-IsReadyQueue {w = w} p v.queue v.alive v.apart in
      record { queue = r.queue; count = r.count }

  taken_out : Removal rerun p (xs ++ p ∷ [])
  taken_out =
      remove_from_ready_queue-erase p rerun-IsReadyQueue
        (omega (arith, length-append xs (p ∷ []), v.few))

  abbrev ran_on : World
  ran_on =
      let u =
        traced (w.tcb.thread_id p) trace_run 0
          (with_ready rerun taken_out.next taken_out.ready taken_out.count) in
      record u { alarm_blocked = false }

  run_on-ok : run_on p (requeued w p) ≡ ok tt ran_on
  unfolding run_on
  run_on-ok = rw (
    v.alive,
    taken_out.returns,
    v.alive,
    trace_emit-ok (w.tcb.thread_id p) trace_run 0
        (with_ready rerun taken_out.next taken_out.ready taken_out.count),
    unblock_signals-ok
        (traced (w.tcb.thread_id p) trace_run 0
          (with_ready rerun taken_out.next taken_out.ready taken_out.count))
        v.single,
  )

  user_chooses : schedule_next user (requeued w p) ≡ user i (requeued w p)
  unfolding schedule_next
  user_chooses =
      subst
        (λ f.
          (elim f as (λ _. Cmd Ptr) [
            | no_policy ↦ round_robin_next
            | round_robin_policy ↦ round_robin_next
            | priority_policy ↦ priority_next
            | user_policy k ↦ user k
          ])
            (requeued w p)
          ≡ user i (requeued w p))
        (sym v.policy) refl

  rescheduled_alone :
      user i (requeued w p) ≡ ok null (requeued w p) → reschedule user w ≡ ok returned ran_on
  unfolding reschedule yield_to
  rescheduled_alone nobody =
      subst (λ q. (requeue q >> (schedule_next user >>= yield_to user q)) w ≡ ok returned ran_on)
        (sym v.current) (rw (requeue-alone, user_chooses, nobody, v.alive, eq_self p, run_on-ok))

-- A running thread under a scheduler function of the program that gives no thread is put behind the
-- ready queue and taken out again: with a well-formed queue without it and fewer than `rounds`
-- threads, the call returns with the same threads ready in the same order, every thread in its
-- state of before, the caller running as the current thread and the signal unblocked.
pub reschedule-RanOn :
    (user : ℕ → Cmd Ptr) {w : World} {p : Ptr} {xs : List Ptr} {i : ℕ}
    → IsAlone w p xs i
    → user i (requeued w p) ≡ ok null (requeued w p)
    → RanOn user w p xs
reschedule-RanOn user {w} {p} {xs} v nobody =
    let q = subst (IsReadyQueue _) (erase-snoc p xs v.apart) (taken_out user v).holds in
    record {
      end = ran_on user v;
      returns = rescheduled_alone user v nobody;
      queue = record { queue = q.queue; count = q.count };
      states = λ a. elim (Bool-cases (p == a)) [
        | inl same ↦
            let e : p ≡ a = (==_iff p a).0 same in
            rw same (subst (λ z. running ≡ w.tcb.state z) e (sym v.state))
        | inr other ↦ rw other refl
      ];
      current = v.current;
      unblocked = refl;
    }
