-- ===== src/System/Registered.antt =====
-- src/uthread.c: `wait_for_io` up to its call of `uthread_yield`.
use mathlib.Core.Path.{subst}
use user_thread_scheduler.Blocking.{epollet, wait_for_io}
use user_thread_scheduler.Common.{
  ℕ, ◌+◌, ◌≡◌, refl, sym, ap, ◌∙◌, inl, inr, true, false, List, [], ◌∷◌, ◌++◌, arith, take, All,
  All-map, has, has-append, ◌==◌, ==_iff, Bool-cases, update, eq_self,
}
use user_thread_scheduler.Io.{max_epoll_events}
use user_thread_scheduler.Io.Events.{reported}
use user_thread_scheduler.Machine.{
  Ptr, io_blocked, Context, trace_io_block, epoll_ctl_add, Os, World, Run, Cmd, access,
}
use user_thread_scheduler.Signals.{block_signals-ok}
use user_thread_scheduler.Sleep.{due}
use user_thread_scheduler.Switch.{Outcome, uthread_yield}
use user_thread_scheduler.System.{IsSystem, IsFairReport}
use user_thread_scheduler.System.Frames.{has-reported, has-due}
use user_thread_scheduler.System.Parked.{IsParked, Resumed}
use user_thread_scheduler.System.Waiting.{IsSleeper, IsAwaited, View, view}
use user_thread_scheduler.Trace.{time_ns, traced, trace_emit-ok}
use user_thread_scheduler.Trace.Bounds.{clocked_calls, Logs-trans, Logs-same, Later, clocked-Later}

module _ (w : World) (p : Ptr) (fd events : ℕ) where
  abbrev registered : World
  registered = record w {
    alarm_blocked = true;
    tcb = record w.tcb {
      io_fd = update w.tcb.io_fd p fd;
      io_events = update w.tcb.io_events p events;
      state = update w.tcb.state p io_blocked;
    };
  }

  -- The world in which the call yields: the descriptor is registered.
  abbrev pub io_parked : World
  io_parked =
      let u = traced (w.tcb.thread_id p) trace_io_block 0 registered in
      record u {
        os = record u.os { calls = u.os.calls ++ epoll_ctl_add fd (events + epollet) p ∷ [] };
      }

  abbrev pub io_view : View
  io_view = record {
    state = update w.tcb.state p io_blocked;
    until = w.tcb.sleep_until_ns;
    clock = w.os.clock;
    events = w.os.events;
  }

has_between :
    (a : ℕ) (xs ys zs : List ℕ)
    → has a xs ≡ false
    → has a zs ≡ false
    → has a (xs ++ ys ++ zs) ≡ true
    → has a ys ≡ true
has_between a xs ys zs h k m = ground (arith, has-append a (xs ++ ys) zs, has-append a xs ys)

module _ (user : ℕ → Cmd Ptr) (fd events : ℕ) {w : World} {p : Ptr} {xs ss gs : List Ptr}
    (v : IsSystem w p xs ss gs) where
  wait_for_io-current :
      access w.live w.current_thread ≡ true
      → wait_for_io user fd events w ≡ uthread_yield user (io_parked w w.current_thread fd events)
  unfolding wait_for_io
  wait_for_io-current l = rw (
    block_signals-ok w v.rest.single,
    l,
    l,
    l,
    l,
    trace_emit-ok (w.tcb.thread_id w.current_thread) trace_io_block 0
        (registered w w.current_thread fd events),
  )

  pub wait_for_io-ok : wait_for_io user fd events w ≡ uthread_yield user (io_parked w p fd events)
  wait_for_io-ok =
      subst
        (λ me.
          access w.live me ≡ true
          → wait_for_io user fd events w ≡ uthread_yield user (io_parked w me fd events))
        v.current wait_for_io-current v.alive

  pub io-IsParked : IsParked (io_parked w p fd events) p xs ss gs
  io-IsParked = record {
    current = v.current;
    alive = v.alive;
    stopped = rw (eq_self p) refl;
    parked = rw (eq_self p) refl;
    rest = record {
      lists = record {
        ready = record { queue = v.rest.lists.ready.queue; count = v.rest.lists.ready.count };
        chain = v.rest.lists.chain;
        distinct = v.rest.lists.distinct;
        apart = v.rest.lists.apart;
      };
      ready_states = λ a h.
          let other : (p == a) ≡ false = ground (arith, v.unready, h, ==_iff p a) in
          rw other (v.rest.ready_states a h);
      sleep_states = λ a h.
          let other : (p == a) ≡ false = ground (arith, v.awake, h, ==_iff p a) in
          rw other (v.rest.sleep_states a h);
      global = record { links = v.rest.global.links; distinct = v.rest.global.distinct };
      few = v.rest.few;
      few_asleep = v.rest.few_asleep;
      free_lock = v.rest.free_lock;
      policy = v.rest.policy;
      single = v.rest.single;
      epoll = v.rest.epoll;
    };
  }

  io-IsFairReport : (a : Ptr) → IsFairReport w ss a → IsFairReport (io_parked w p fd events) ss a
  io-IsFairReport a (inl no_thread) = inl no_thread
  io-IsFairReport a (inr f) = elim (Bool-cases (p == a)) [
    | inl same ↦ inr (f.0, rw same refl, f.2)
    | inr other ↦ inr (f.0, rw other f.1, f.2)
  ]

  pub io-Later : Later w.os (io_parked w p fd events).os
  io-Later =
      let r = clocked-Later w.trace w.os in
      record {
        clock = r.clock;
        events = r.events;
        ticks = r.ticks;
        log =
            Logs-trans r.log
              (record { more = epoll_ctl_add fd (events + epollet) p ∷ []; added = refl });
      }

  -- From behind the registration on.
  pub registered-Later :
      Later
        (record w.os { calls = w.os.calls ++ epoll_ctl_add fd (events + epollet) p ∷ [] })
        (io_parked w p fd events).os
  registered-Later = record {
    clock = io-Later.clock;
    events = io-Later.events;
    ticks = io-Later.ticks;
    log =
        Logs-same
          (ap (λ c. c ++ epoll_ctl_add fd (events + epollet) p ∷ []) (clocked_calls w.trace w.os));
  }

  pub io-view : view (io_parked w p fd events) ≡ io_view w p fd events
  io-view = λ i. record {
    state = update w.tcb.state p io_blocked;
    until = w.tcb.sleep_until_ns;
    clock = io-Later.clock i;
    events = io-Later.events i;
  }

  pub io-IsAwaited :
      {limit : ℕ}
      → ((j : ℕ) → All (IsFairReport w ss) (w.os.events j))
      → (xs ≡ [] → (q : Ptr) × IsSleeper w ss gs q limit)
      → IsAwaited (io_parked w p fd events) xs ss gs limit
  io-IsAwaited fair wakes = record {
    fair = λ j.
        subst (λ e. All (IsFairReport (io_parked w p fd events) ss) (e j)) (sym io-Later.events)
          (All-map (IsFairReport w ss) (IsFairReport (io_parked w p fd events) ss) io-IsFairReport
            (w.os.events j) (fair j));
    wakes = λ e.
        let (q, s) = wakes e in
        (
          q,
          record {
            sleeps = s.sleeps;
            listed = s.listed;
            comes = λ t h. rw io-Later.clock (s.comes t h);
          },
        );
  }

  -- The thread is made ready by a report alone.
  pub Resumed-reported :
      {run : Run Outcome} {at : Context} {t : Os} {gs' : List Ptr}
      (r : Resumed run p at (io_view w p fd events) t xs ss gs')
      → has p (r.next ∷ r.others) ≡ true
      → has p (take max_epoll_events (w.os.events r.poll)) ≡ true
  Resumed-reported r h =
      let reps =
        reported (io_view w p fd events).state (take max_epoll_events (w.os.events r.poll)) in
      let dues = due (time_ns (w.os.clock r.reading)) w.tcb.sleep_until_ns ss in
      let not_due : has p dues ≡ false = elim (Bool-cases (has p dues)) [
        | inl bad ↦ absurd (
            ground (
              arith,
              v.awake,
              has-due (time_ns (w.os.clock r.reading)) w.tcb.sleep_until_ns p ss bad,
            ))
        | inr good ↦ good
      ] in
      let here = has_between p xs reps dues v.unready not_due (ap (has p) r.order ∙ h) in
      (has-reported (io_view w p fd events).state p (take max_epoll_events (w.os.events r.poll))
        here).0
