-- ===== src/Processors/Yield.antt =====
-- src/uthread.c: `vp_enqueue` and `mn_yield`.
use user_thread_scheduler.Common.{
  ℕ, ◌+◌, ◌^◌, ◌<◌, ◌≡◌, refl, true, false, List, [], ◌∷◌, ◌++◌, arith, length, length-append, has,
  ◌==◌, if◌then◌else◌, update, eq_self, inc32,
}
use user_thread_scheduler.Machine.{
  Ptr, null, ready, running, in_mn_yield, trace_yield, VirtualProcessor, World, ok, access,
}
use user_thread_scheduler.Machine.Queue.{
  linked, pushed, IsQueue-TailIsOk, push-IsQueue, push_back-ok,
}
use user_thread_scheduler.Processors.{set_at, locked, unlocked, vp_enqueue, yield_running, mn_yield}
use user_thread_scheduler.Processors.RunQueue.{IsRunQueue}
use user_thread_scheduler.Trace.{traced, trace_emit-ok}

-- The processors once `p` is behind the run queue of `i`.
abbrev joined : World → ℕ → Ptr → ℕ → VirtualProcessor
joined w i p = set_at i unlocked (
    set_at i (λ v. record v { local_count = inc32 v.local_count })
      (set_at i (λ v. record v { queue = pushed (w.vps i).queue p }) (set_at i locked w.vps)))

abbrev pub vp_enqueued : World → ℕ → Ptr → World
vp_enqueued w i p = record w {
  tcb = record w.tcb {
    next = linked (update w.tcb.next p null) (w.vps i).queue p;
    vp_id = update w.tcb.vp_id p (w.vps i).vp_id;
  };
  vps = joined w i p;
}

module _ {w : World} {xs : List Ptr} (i : ℕ) (p : Ptr) (v : IsRunQueue w i xs)
    (alive : access w.live p ≡ true) (new : has p xs ≡ false) (small : length xs + 1 < 2 ^ 31) where
  vp_enqueue-ok : vp_enqueue i p w ≡ ok tt (vp_enqueued w i p)
  unfolding vp_enqueue
  vp_enqueue-ok =
      let free_lock : ((w.vps i).queue_lock == 0) ≡ true = rw v.free in
      rw (
        free_lock,
        alive,
        eq_self i,
        alive,
        eq_self i,
        push_back-ok
            (record w {
              tcb = record w.tcb {
                next = update w.tcb.next p null;
                vp_id = update w.tcb.vp_id p (w.vps i).vp_id;
              };
              vps = set_at i locked w.vps;
            })
            (w.vps i).queue p (IsQueue-TailIsOk v.queue),
        eq_self i,
      )

  vp_enqueued-IsRunQueue : IsRunQueue (vp_enqueued w i p) i (xs ++ p ∷ [])
  vp_enqueued-IsRunQueue = record {
    queue = rw (eq_self i) (push-IsQueue p v.queue alive new);
    count = rw (eq_self i) (omega (arith, v.count, small, length-append {0} xs (p ∷ [])));
    small = omega (arith, small, length-append {0} xs (p ∷ []));
    free = rw (eq_self i) refl;
  }

-- The world at the `vp_enqueue` of `mn_yield`.
abbrev made_ready : World → World
made_ready w =
    let p = w.current_thread in
    traced (w.tcb.thread_id p) trace_yield (w.vps w.my_vp_id).vp_id
      (record w { tcb = record w.tcb { state = update w.tcb.state p ready } })

pub record Yielded (w : World) (xs : List Ptr) : Type 0 where
  pub end : World
  pub returns : mn_yield w ≡ ok tt end
  pub holds : IsRunQueue end w.my_vp_id (xs ++ w.current_thread ∷ [])
  pub states :
      (a : Ptr) → end.tcb.state a ≡ (if w.current_thread == a then ready else w.tcb.state a)
  pub saved : end.tcb.context w.current_thread ≡ in_mn_yield
  pub others : (j : ℕ) → (w.my_vp_id == j) ≡ false → end.vps j ≡ w.vps j

-- A running thread that is not in the well-formed run queue of its processor, which holds `xs`,
-- and that calls `mn_yield` becomes ready, behind `xs`, and its context is saved; the other
-- threads keep their states and the other processors are untouched. The queue has to stay shorter
-- than 2 ^ 31.
pub mn_yield-Yielded :
    (w : World) (xs : List Ptr)
    → IsRunQueue w w.my_vp_id xs
    → access w.live w.current_thread ≡ true
    → w.tcb.state w.current_thread ≡ running
    → has w.current_thread xs ≡ false
    → length xs + 1 < 2 ^ 31
    → Yielded w xs
unfolding mn_yield yield_running
mn_yield-Yielded w xs v alive state new small = record {
  end = record u {
    tcb = record u.tcb { context = update u.tcb.context w.current_thread in_mn_yield };
  };
  returns = rw (
    alive,
    state,
    alive,
    alive,
    trace_emit-ok (w.tcb.thread_id w.current_thread) trace_yield (w.vps w.my_vp_id).vp_id
        (record w { tcb = record w.tcb { state = update w.tcb.state w.current_thread ready } }),
    vp_enqueue-ok w.my_vp_id w.current_thread at_enqueue alive new small,
    alive,
  );
  holds = record { queue = q.queue; count = q.count; small = q.small; free = q.free };
  states = λ a. refl;
  saved = rw (eq_self w.current_thread) refl;
  others = λ j h. rw h refl;
}
  where
    u : World
    u = vp_enqueued (made_ready w) w.my_vp_id w.current_thread

    at_enqueue : IsRunQueue (made_ready w) w.my_vp_id xs
    at_enqueue = record { queue = v.queue; count = v.count; small = v.small; free = v.free }

    q : IsRunQueue u w.my_vp_id (xs ++ w.current_thread ∷ [])
    q = vp_enqueued-IsRunQueue w.my_vp_id w.current_thread at_enqueue alive new small
