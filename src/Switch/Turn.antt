-- ===== src/Switch/Turn.antt =====
-- src/uthread.c: one `uthread_yield` of a running thread under the round robin policy.
use mathlib.Core.Path.{subst}
use user_thread_scheduler.Common.{
  ℕ, ◌≡◌, refl, sym, ap, ◌∙◌, true, false, List, [], ◌∷◌, ◌++◌, has, Distinct, update, eq_self,
}
use user_thread_scheduler.Machine.{
  Ptr, ready, running, Context, in_yield, trace_run, trace_yield, no_policy, round_robin_policy,
  priority_policy, user_policy, World, ok, Cmd, ◌>>=◌, ◌>>◌, access, access-ne-null,
}
use user_thread_scheduler.Machine.Queue.{IsQueue-TailIsOk}
use user_thread_scheduler.Policy.{round_robin_next, priority_next, schedule_next}
use user_thread_scheduler.ReadyQueue.{
  dequeue, IsReadyQueue, enqueued, dequeued, enqueue-ok, enqueue-IsReadyQueue, dequeue-cons,
  dequeue-IsReadyQueue,
}
use user_thread_scheduler.Switch.{
  switches, switch_to, requeue_running, requeue, yield_to, reschedule,
}
use user_thread_scheduler.Trace.{traced, trace_emit-ok}

-- `p` runs under the round robin policy, and the ready queue holds the other ready threads `xs`.
pub record IsTurnOf (w : World) (p : Ptr) (xs : List Ptr) : Type 0 where
  pub current : w.current_thread ≡ p
  pub alive : access w.live p ≡ true
  pub state : w.tcb.state p ≡ running
  pub queue : IsReadyQueue w xs
  pub apart : has p xs ≡ false
  pub policy : w.current_scheduler ≡ no_policy

-- The world once `p` is behind the ready queue.
abbrev pub requeued : World → Ptr → World
requeued w p = enqueued p (
    traced (w.tcb.thread_id p) trace_yield 0
      (record w { tcb = record w.tcb { state = update w.tcb.state p ready } }))

-- The world once `z` runs.
abbrev pub started : World → Ptr → Context → Ptr → World
started w p at z =
    let v = record w {
      current_thread = z;
      tcb = record w.tcb { state = update w.tcb.state z running };
    } in
    let u = traced (v.tcb.thread_id z) trace_run 0 v in
    record u { tcb = record u.tcb { context = update u.tcb.context p at } }

pub switch_to-ok :
    (w : World) (p : Ptr) (at : Context) (z : Ptr)
    → access w.live p ≡ true
    → access w.live z ≡ true
    → switch_to p at z w ≡ ok (switches z) (started w p at z)
unfolding switch_to
switch_to-ok w p at z l m = rw (
  m,
  m,
  trace_emit-ok (w.tcb.thread_id z) trace_run 0 (record w {
    current_thread = z;
    tcb = record w.tcb { state = update w.tcb.state z running };
  }),
  l,
)

pub schedule_next-default :
    (user : ℕ → Cmd Ptr) (w : World)
    → w.current_scheduler ≡ no_policy
    → schedule_next user w ≡ dequeue w
unfolding schedule_next round_robin_next
schedule_next-default user w h =
    subst
      (λ f.
        (elim f as (λ _. Cmd Ptr) [
          | no_policy ↦ round_robin_next
          | round_robin_policy ↦ round_robin_next
          | priority_policy ↦ priority_next
          | user_policy i ↦ user i
        ])
          w
        ≡ dequeue w)
      (sym h) refl

module _ {w : World} {p : Ptr} {xs : List Ptr} (user : ℕ → Cmd Ptr) (v : IsTurnOf w p xs) where
  pub requeue-ok : requeue p w ≡ ok tt (requeued w p)
  unfolding requeue requeue_running
  requeue-ok = rw (
    v.alive,
    v.state,
    v.alive,
    v.alive,
    trace_emit-ok (w.tcb.thread_id p) trace_yield 0
        (record w { tcb = record w.tcb { state = update w.tcb.state p ready } }),
    enqueue-ok p
        (traced (w.tcb.thread_id p) trace_yield 0
          (record w { tcb = record w.tcb { state = update w.tcb.state p ready } }))
        (IsQueue-TailIsOk v.queue.queue) v.alive,
  )

  requeued-IsReadyQueue : IsReadyQueue (requeued w p) (xs ++ p ∷ [])
  requeued-IsReadyQueue =
      enqueue-IsReadyQueue p (record { queue = v.queue.queue; count = v.queue.count }) v.alive
        v.apart

  turn : (z : Ptr) (zs : List Ptr) → xs ++ p ∷ [] ≡ z ∷ zs → IsReadyQueue (requeued w p) (z ∷ zs)
  turn z zs e = subst (IsReadyQueue (requeued w p)) e requeued-IsReadyQueue

  abbrev pub after : Ptr → World
  after z = started (dequeued (requeued w p)) p in_yield z

  module _ (z : Ptr) (zs : List Ptr) (e : xs ++ p ∷ [] ≡ z ∷ zs) where
    pub head_is : (requeued w p).ready.head ≡ z
    head_is = (turn z zs e).queue.chain.0

    z_lives : access w.live z ≡ true
    z_lives = (turn z zs e).queue.chain.1

    schedule-ok : schedule_next user (requeued w p) ≡ ok z (dequeued (requeued w p))
    schedule-ok =
        schedule_next-default user (requeued w p) v.policy
        ∙ dequeue-cons (turn z zs e)
        ∙ ap (λ h. ok h (dequeued (requeued w p))) head_is

    yield_to-ok : yield_to user p z (dequeued (requeued w p)) ≡ ok (switches z) (after z)
    unfolding yield_to
    yield_to-ok =
        rw (access-ne-null w.live z z_lives)
          (switch_to-ok (dequeued (requeued w p)) p in_yield z v.alive z_lives)

    pub reschedule-ok : reschedule user w ≡ ok (switches z) (after z)
    unfolding reschedule
    reschedule-ok =
        subst
          (λ q.
            (requeue q >> (schedule_next user >>= yield_to user q)) w ≡ ok (switches z) (after z))
          (sym v.current) (rw (requeue-ok, schedule-ok, yield_to-ok))

    -- The next thread has its turn, and `zs` wait.
    pub after-IsTurnOf : Distinct (xs ++ p ∷ []) → IsTurnOf (after z) z zs
    after-IsTurnOf d =
        let q = dequeue-IsReadyQueue (turn z zs e) in
        let alone : Distinct (z ∷ zs) = subst Distinct e d in
        record {
          current = refl;
          alive = z_lives;
          state = rw (eq_self z);
          queue = record { queue = q.queue; count = q.count };
          apart = alone.0;
          policy = v.policy;
        }
