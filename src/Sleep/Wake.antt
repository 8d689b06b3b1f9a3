-- ===== src/Sleep/Wake.antt =====
-- src/uthread.c: what `check_sleep_list` does to the sleep list and the ready queue.
use user_thread_scheduler.Common.{
  ℕ, ◌≡◌, ◌⊎◌, inl, inr, true, false, List, [], ◌∷◌, ◌++◌, arith, length-append, has, has-append,
  Distinct-right, has-middle, Distinct-middle, Distinct-apart, ◌==◌, if◌then◌else◌, ==_iff, update,
  inc32,
}
use user_thread_scheduler.Machine.{
  Ptr, null, ThreadState, ready, trace_wakeup, Trace, Os, Ends, World, ok, access, access-ne-null,
}
use user_thread_scheduler.Machine.Apart.{IsQueue-unlinked, Chain-outside, Chain-linked}
use user_thread_scheduler.Machine.Chain.{
  last, Chain, Chain-update, Chain-access, Chain-after, next_unlinked, Chain-unlinked,
}
use user_thread_scheduler.Machine.Queue.{IsQueue, linked, pushed, TailIsOk, push-IsQueue}
use user_thread_scheduler.ReadyQueue.{enqueue-ok}
use user_thread_scheduler.Sleep.{wake, IsSleeping}
use user_thread_scheduler.Trace.{recorded, clocked, trace_emit-ok}

-- What waking threads may change.
pub record Wakeups : Type 0 where
  pub next : Ptr → Ptr
  pub state : Ptr → ThreadState
  pub until : Ptr → ℕ
  pub queue : Ends
  pub count : ℕ
  pub sleepers : Ptr
  pub trace : Trace
  pub os : Os

abbrev pub woken : World → Wakeups → World
woken w d = record w {
  tcb = record w.tcb { next = d.next; state = d.state; sleep_until_ns = d.until };
  ready = d.queue;
  ready_count = d.count;
  sleep_list_head = d.sleepers;
  trace = d.trace;
  os = d.os;
}

-- One round of the loop: the thread `t` behind `ys`.
abbrev pub one_woken : World → Ptr → Ptr → Wakeups
one_woken w prev t = record {
  next = linked (update (next_unlinked w.tcb.next prev t) t null) w.ready t;
  state = update w.tcb.state t ready;
  until = update w.tcb.sleep_until_ns t 0;
  queue = pushed w.ready t;
  count = inc32 w.ready_count;
  sleepers = if prev == null then w.tcb.next t else w.sleep_list_head;
  trace = recorded (w.tcb.thread_id t) trace_wakeup 0 w.trace w.os;
  os = clocked w.trace w.os;
}

pub wake-ok :
    (prev t : Ptr) (w : World)
    → access w.live t ≡ true
    → ((prev == null) ≡ true) ⊎ (access w.live prev ≡ true)
    → TailIsOk w.live w.ready
    → wake prev t w ≡ ok tt (woken w (one_woken w prev t))
unfolding wake
wake-ok prev t w l (inl first) q =
    rw (l, first, l, l, l, l, trace_emit-ok (w.tcb.thread_id t) trace_wakeup 0 _)
      (enqueue-ok t _ q l)
wake-ok prev t w l (inr inner) q =
    rw
      (
        l,
        access-ne-null w.live prev inner,
        inner,
        l,
        l,
        l,
        l,
        trace_emit-ok (w.tcb.thread_id t) trace_wakeup 0 _,
      )
      (enqueue-ok t _ q l)

module _ {w : World} {xs : List Ptr} (ys : List Ptr) (t : Ptr) (zs : List Ptr)
    (v : IsSleeping w xs (ys ++ t ∷ zs)) where
  t-member : has t (ys ++ t ∷ zs) ≡ true
  t-member = ground (arith, has-append t ys (t ∷ zs))

  t-live : access w.live t ≡ true
  t-live = Chain-access w.live w.tcb.next w.sleep_list_head ys t zs v.chain

  has-rest : (a : Ptr) → has a (ys ++ zs) ≡ true → has a (ys ++ t ∷ zs) ≡ true
  has-rest a h = ground (arith, has-append a ys zs, has-append a ys (t ∷ zs))

  has-front : (a : Ptr) → has a ys ≡ true → has a (ys ++ t ∷ zs) ≡ true
  has-front a h = ground (arith, has-append a ys (t ∷ zs))

  spliced : IsQueue w.live (next_unlinked w.tcb.next (last ys) t) w.ready xs
  spliced =
      IsQueue-unlinked ys t v.ready.queue (v.apart t t-member) (λ a h. v.apart a (has-front a h))

  -- One round wakes `t` and keeps the lists well formed.
  pub wake-IsSleeping : IsSleeping (woken w (one_woken w (last ys) t)) (xs ++ t ∷ []) (ys ++ zs)
  wake-IsSleeping = record {
    ready = record {
      queue = push-IsQueue t spliced t-live (v.apart t t-member);
      count = omega (arith, v.ready.count, length-append {0} xs (t ∷ []));
    };
    chain =
        Chain-linked (update (next_unlinked w.tcb.next (last ys) t) t null) _ t (ys ++ zs) spliced
          (Chain-update w.live _ t null _ (ys ++ zs)
            (Chain-unlinked w.live w.tcb.next w.sleep_list_head ys t zs v.chain v.distinct)
            (has-middle t ys zs v.distinct))
          (λ a h. v.apart a (has-rest a h));
    distinct = Distinct-middle t ys zs v.distinct;
    apart = λ a h. ground (
      arith,
      v.apart a (has-rest a h),
      has-append a xs (t ∷ []),
      has-middle t ys zs v.distinct,
      ==_iff a t,
    );
  }

  -- The rest of the list is still ahead.
  pub wake-Chain : Chain w.live (woken w (one_woken w (last ys) t)).tcb.next (w.tcb.next t) zs
  wake-Chain =
      Chain-linked (update (next_unlinked w.tcb.next (last ys) t) t null) _ t zs spliced
        (Chain-update w.live _ t null _ zs
          (Chain-outside w.live w.tcb.next _ zs ys t
            (Chain-after w.live w.tcb.next w.sleep_list_head ys t zs v.chain) t-behind
            (λ a h. ground (arith, Distinct-apart ys (t ∷ zs) v.distinct a)))
          t-behind)
        (λ a h. v.apart a (ground (arith, has-append a ys (t ∷ zs))))
    where
      t-behind : has t zs ≡ false
      t-behind = (Distinct-right ys (t ∷ zs) v.distinct).0
