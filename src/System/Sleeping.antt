-- ===== src/System/Sleeping.antt =====
-- src/uthread.c: `uthread_sleep` up to its call of `uthread_yield`.
use mathlib.Core.Path.{subst}
use user_thread_scheduler.Blocking.{uthread_sleep}
use user_thread_scheduler.Common.{
  ℕ, suc, ◌+◌, ◌*◌, ◌%◌, ◌^◌, ◌≤◌, ◌<◌, ◌≡◌, refl, sym, inl, inr, true, false, List, ◌∷◌, arith,
  length, take, All, All-map, has, leb, ◌==◌, ==_iff, Bool-cases, update, eq_self,
}
use user_thread_scheduler.Io.{max_epoll_events}
use user_thread_scheduler.Io.Events.{reported}
use user_thread_scheduler.Machine.{Ptr, io_blocked, trace_sleep, Os, World, Cmd, access}
use user_thread_scheduler.Machine.Chain.{Chain-update}
use user_thread_scheduler.Machine.Queue.{IsQueue-update}
use user_thread_scheduler.Signals.{spinlock_acquire, block_signals-ok}
use user_thread_scheduler.Switch.{uthread_yield}
use user_thread_scheduler.System.{IsSystem, IsFairReport}
use user_thread_scheduler.System.Frames.{has-reported, All-has}
use user_thread_scheduler.System.Parked.{IsParked}
use user_thread_scheduler.System.Waiting.{IsAwaited, All-take, View, view}
use user_thread_scheduler.Trace.{time_ns, get_time_ns, traced, trace_emit-ok}
use user_thread_scheduler.Trace.Bounds.{Later, clocked-Later}

module _ (w : World) (p : Ptr) (ms : ℕ) where
  -- The time until which the thread sleeps.
  abbrev pub wake_time : ℕ
  wake_time = (time_ns (w.os.clock w.os.ticks) + ms * 1000000) % 2 ^ 64

  abbrev marked : World
  marked = record w {
    alarm_blocked = true;
    tcb = record w.tcb {
      sleep_until_ns = update w.tcb.sleep_until_ns p wake_time;
      state = update w.tcb.state p io_blocked;
    };
    os = record w.os { ticks = w.os.ticks + 1 };
  }

  -- The world in which `uthread_sleep` calls `uthread_yield`.
  abbrev pub slept : World
  slept =
      let u = traced (w.tcb.thread_id p) trace_sleep 0 marked in
      record u {
        tcb = record u.tcb { next = update u.tcb.next p w.sleep_list_head };
        sleep_list_head = p;
        sleep_list_lock = 0;
      }

  -- What the choice of the next thread depends on.
  abbrev pub slept_view : View
  slept_view = record {
    state = update w.tcb.state p io_blocked;
    until = update w.tcb.sleep_until_ns p wake_time;
    clock = w.os.clock;
    events = w.os.events;
  }

module _ (user : ℕ → Cmd Ptr) (ms : ℕ) {w : World} {p : Ptr} {xs ss gs : List Ptr}
    (v : IsSystem w p xs ss gs) where
  uthread_sleep-current :
      access w.live w.current_thread ≡ true
      → uthread_sleep user ms w ≡ uthread_yield user (slept w w.current_thread ms)
  unfolding uthread_sleep get_time_ns spinlock_acquire
  uthread_sleep-current l =
      let open_lock : (w.sleep_list_lock == 0) ≡ true = rw v.rest.free_lock in
      rw (
        block_signals-ok w v.rest.single,
        l,
        l,
        l,
        trace_emit-ok (w.tcb.thread_id w.current_thread) trace_sleep 0
            (marked w w.current_thread ms),
        open_lock,
        l,
      )

  pub uthread_sleep-ok : uthread_sleep user ms w ≡ uthread_yield user (slept w p ms)
  uthread_sleep-ok =
      subst
        (λ me.
          access w.live me ≡ true → uthread_sleep user ms w ≡ uthread_yield user (slept w me ms))
        v.current uthread_sleep-current v.alive

  pub slept-IsParked : suc (length ss) < w.rounds → IsParked (slept w p ms) p xs (p ∷ ss) gs
  slept-IsParked room = record {
    current = v.current;
    alive = v.alive;
    stopped = rw (eq_self p) refl;
    parked = rw (eq_self p) refl;
    rest = record {
      lists = record {
        ready = record {
          queue = IsQueue-update p w.sleep_list_head v.rest.lists.ready.queue v.unready;
          count = v.rest.lists.ready.count;
        };
        chain = (
          refl,
          v.alive,
          rw (eq_self p) (
              Chain-update w.live w.tcb.next p w.sleep_list_head w.sleep_list_head ss
                v.rest.lists.chain v.awake),
        );
        distinct = (v.awake, v.rest.lists.distinct);
        apart = λ a h. elim (Bool-cases (p == a)) [
          | inl same ↦ subst (λ z. has z xs ≡ false) ((==_iff p a).0 same) v.unready
          | inr other ↦ v.rest.lists.apart a (ground (arith, h, other))
        ];
      };
      ready_states = λ a h.
          let other : (p == a) ≡ false = ground (arith, v.unready, h, ==_iff p a) in
          rw other (v.rest.ready_states a h);
      sleep_states = λ a h. elim (Bool-cases (p == a)) [
        | inl same ↦ rw same refl
        | inr other ↦ rw other (v.rest.sleep_states a (ground (arith, h, other)))
      ];
      global = record { links = v.rest.global.links; distinct = v.rest.global.distinct };
      few = v.rest.few;
      few_asleep = room;
      free_lock = refl;
      policy = v.rest.policy;
      single = v.rest.single;
      epoll = v.rest.epoll;
    };
  }

  slept-IsFairReport :
      (a : Ptr) → IsFairReport w (p ∷ ss) a → IsFairReport (slept w p ms) (p ∷ ss) a
  slept-IsFairReport a (inl no_thread) = inl no_thread
  slept-IsFairReport a (inr f) =
      let other : (p == a) ≡ false = ground (arith, f.2) in inr (f.0, rw other f.1, f.2)

  abbrev tr_os : Os
  tr_os = record w.os { ticks = w.os.ticks + 1 }

  pub slept-Later : Later tr_os (slept w p ms).os
  slept-Later = clocked-Later w.trace tr_os

  pub slept-view : view (slept w p ms) ≡ slept_view w p ms
  slept-view = λ i. record {
    state = update w.tcb.state p io_blocked;
    until = update w.tcb.sleep_until_ns p (wake_time w p ms);
    clock = slept-Later.clock i;
    events = slept-Later.events i;
  }

  pub slept-IsAwaited :
      {limit : ℕ}
      → ((j : ℕ) → All (IsFairReport w (p ∷ ss)) (w.os.events j))
      → ((t : ℕ) → limit ≤ t → leb (wake_time w p ms) (time_ns (w.os.clock t)) ≡ true)
      → has p gs ≡ true
      → IsAwaited (slept w p ms) xs (p ∷ ss) gs limit
  slept-IsAwaited fair comes listed = record {
    fair = λ j.
        subst (λ e. All (IsFairReport (slept w p ms) (p ∷ ss)) (e j)) (sym slept-Later.events)
          (All-map (IsFairReport w (p ∷ ss)) (IsFairReport (slept w p ms) (p ∷ ss))
            slept-IsFairReport (w.os.events j) (fair j));
    wakes = λ e. (
      p,
      record {
        sleeps = ground (arith, eq_self p);
        listed = listed;
        comes = λ t h. rw (eq_self p, slept-Later.clock) (comes t h);
      },
    );
  }

  -- The reports do not wake the sleeper.
  pub unreported :
      (j : ℕ)
      → All (IsFairReport w (p ∷ ss)) (w.os.events j)
      → has p (reported (update w.tcb.state p io_blocked) (take max_epoll_events (w.os.events j)))
        ≡ false
  unreported j fair =
      let reps = take max_epoll_events (w.os.events j) in
      elim (Bool-cases (has p (reported (update w.tcb.state p io_blocked) reps))) [
        | inl bad ↦
            let r = has-reported (update w.tcb.state p io_blocked) p reps bad in
            elim (All-has (IsFairReport w (p ∷ ss)) p reps
              (All-take (IsFairReport w (p ∷ ss)) max_epoll_events (w.os.events j) fair) r.0) [
                | inl no_thread ↦ absurd (ground (arith, r.1, no_thread))
                | inr f ↦ absurd (ground (arith, f.2, eq_self p))
              ]
        | inr good ↦ good
      ]
