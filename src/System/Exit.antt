-- ===== src/System/Exit.antt =====
-- src/uthread.c: `uthread_exit` up to the switch to the next thread.
use mathlib.Core.Path.{subst}
use user_thread_scheduler.Common.{
  ℕ, ◌+◌, ◌<◌, ◌≡◌, refl, sym, inl, inr, true, false, List, [], ◌∷◌, arith, All, All-map, ◌==◌,
  if◌then◌else◌, ==_iff, update, eq_self,
}
use user_thread_scheduler.GlobalList.{gc_finished_threads}
use user_thread_scheduler.Machine.{
  Ptr, finished, in_exit, trace_exit, World, ok, Cmd, pure, and_then, ◌>>=◌, ◌>>◌, gets, access,
  load, set_state, access-ne-null,
}
use user_thread_scheduler.Processors.{mn_exit}
use user_thread_scheduler.ReadyQueue.{dequeued, dequeue-nil}
use user_thread_scheduler.Signals.{block_signals, block_signals-ok}
use user_thread_scheduler.Switch.{to_scheduler, poll, switch_to, idle_loop, leave, uthread_exit}
use user_thread_scheduler.Switch.Turn.{schedule_next-default}
use user_thread_scheduler.System.{IsSystem, IsFairReport}
use user_thread_scheduler.System.Idle.{
  schedule_next-polled, polled-IsChosen, Found-now, first-cases,
}
use user_thread_scheduler.System.Parked.{
  IsParked, Resumed, Found-Resumed, Resumed-before, wait_loop, idle-Found,
}
use user_thread_scheduler.System.Polling.{all_ready, after_poll, poll-ok}
use user_thread_scheduler.System.Waiting.{
  IsSleeper, IsAwaited, View, view, polled_fair, quiet-IsResting,
}
use user_thread_scheduler.Trace.{trace_emit, uthread_dump_trace, traced, trace_emit-ok}
use user_thread_scheduler.Trace.Bounds.{Later, clocked-Later}

module _ (user : ℕ → Cmd Ptr) {w : World} {p : Ptr} {xs ss gs : List Ptr}
    (v : IsParked w p xs ss gs) {limit : ℕ} (a : IsAwaited w xs ss gs limit)
    (more : limit < w.os.ticks + w.rounds) where
  abbrev polled : World
  polled = after_poll v.rest (polled_fair v.rest a)

  left_now :
      (z : Ptr) (zs : List Ptr)
      → all_ready v.rest (polled_fair v.rest a) ≡ z ∷ zs
      → (poll >> leave user p) w ≡ and_then (ok z (dequeued polled)) (λ n. switch_to p in_exit n)
  unfolding leave
  left_now z zs e = rw (
    poll-ok v.rest (polled_fair v.rest a),
    schedule_next-polled v.rest (polled_fair v.rest a) z zs e user,
    access-ne-null w.live z (polled-IsChosen v.rest (polled_fair v.rest a) z zs e).alive,
  )

  left_later :
      all_ready v.rest (polled_fair v.rest a) ≡ []
      → (poll >> leave user p) w
        ≡ and_then
            (idle_loop user w.rounds (record polled { alarm_blocked = false }))
            (λ n. switch_to p in_exit n)
  unfolding leave
  left_later e =
      let rest = quiet-IsResting v.rest a e in
      rw (
        poll-ok v.rest (polled_fair v.rest a),
        schedule_next-default user polled v.rest.policy,
        dequeue-nil rest.lists.ready,
        wait_loop user v a more e (gc_finished_threads >> uthread_dump_trace),
      )

  poll-leave-Resumed : Resumed ((poll >> leave user p) w) p in_exit (view w) w.os xs ss gs
  poll-leave-Resumed = elim (first-cases (all_ready v.rest (polled_fair v.rest a))) [
    | inl e ↦
        subst (λ r. Resumed r p in_exit (view w) w.os xs ss gs) (sym (left_later e))
          (Found-Resumed p in_exit v.alive (idle-Found user v a more e))
    | inr c ↦
        subst (λ r. Resumed r p in_exit (view w) w.os xs ss gs) (sym (left_now c.0 c.1 c.2))
          (Found-Resumed p in_exit v.alive
            (Found-now v.rest (polled_fair v.rest a) c.0 c.1 c.2 _ refl))
  ]

module _ (w : World) (p : Ptr) where
  abbrev over : World
  over = record w {
    alarm_blocked = true;
    tcb = record w.tcb { state = update w.tcb.state p finished };
  }

  -- The world in which `uthread_exit` polls.
  abbrev pub ended_thread : World
  ended_thread = traced (w.tcb.thread_id p) trace_exit 0 over

  abbrev pub ended_view : View
  ended_view = record {
    state = update w.tcb.state p finished;
    until = w.tcb.sleep_until_ns;
    clock = w.os.clock;
    events = w.os.events;
  }

module _ (user : ℕ → Cmd Ptr) {w : World} {p : Ptr} {xs ss gs : List Ptr}
    (v : IsSystem w p xs ss gs) where
  uthread_exit-current :
      access w.live w.current_thread ≡ true
      → uthread_exit user w
        ≡ (poll >> leave user w.current_thread) (ended_thread w w.current_thread)
  unfolding uthread_exit
  uthread_exit-current l =
      let end =
        trace_emit-ok (w.tcb.thread_id w.current_thread) trace_exit 0 (over w w.current_thread) in
      subst
        (λ b.
          (if b
              then mn_exit >> pure to_scheduler
              else block_signals
                >> (gets (λ u. u.current_thread) >>= λ prev.
                    set_state prev finished
                    >> (load (λ t. t.thread_id) prev >>= λ tid.
                        trace_emit tid trace_exit 0 >> (poll >> leave user prev))))
            w
          ≡ (poll >> leave user w.current_thread) (ended_thread w w.current_thread))
        (sym v.rest.single) (rw (block_signals-ok w v.rest.single, l, l, end))

  pub uthread_exit-ok : uthread_exit user w ≡ (poll >> leave user p) (ended_thread w p)
  uthread_exit-ok =
      subst
        (λ me.
          access w.live me ≡ true
          → uthread_exit user w ≡ (poll >> leave user me) (ended_thread w me))
        v.current uthread_exit-current v.alive

  pub ended-IsParked : IsParked (ended_thread w p) p xs ss gs
  ended-IsParked = record {
    current = v.current;
    alive = v.alive;
    stopped = rw (eq_self p) refl;
    parked = rw (eq_self p) refl;
    rest = record {
      lists = record {
        ready = record { queue = v.rest.lists.ready.queue; count = v.rest.lists.ready.count };
        chain = v.rest.lists.chain;
        distinct = v.rest.lists.distinct;
        apart = v.rest.lists.apart;
      };
      ready_states = λ a h.
          let other : (p == a) ≡ false = ground (arith, v.unready, h, ==_iff p a) in
          rw other (v.rest.ready_states a h);
      sleep_states = λ a h.
          let other : (p == a) ≡ false = ground (arith, v.awake, h, ==_iff p a) in
          rw other (v.rest.sleep_states a h);
      global = record { links = v.rest.global.links; distinct = v.rest.global.distinct };
      few = v.rest.few;
      few_asleep = v.rest.few_asleep;
      free_lock = v.rest.free_lock;
      policy = v.rest.policy;
      single = v.rest.single;
      epoll = v.rest.epoll;
    };
  }

  ended-IsFairReport : (a : Ptr) → IsFairReport w (p ∷ ss) a → IsFairReport (ended_thread w p) ss a
  ended-IsFairReport a (inl no_thread) = inl no_thread
  ended-IsFairReport a (inr f) =
      let other : (p == a) ≡ false = ground (arith, f.2) in
      inr (f.0, rw other f.1, ground (arith, f.2))

  pub ended-Later : Later w.os (ended_thread w p).os
  ended-Later =
      let r = clocked-Later w.trace w.os in
      record { clock = r.clock; events = r.events; ticks = r.ticks; log = r.log }

  ended-view : view (ended_thread w p) ≡ ended_view w p
  ended-view = λ i. record {
    state = update w.tcb.state p finished;
    until = w.tcb.sleep_until_ns;
    clock = ended-Later.clock i;
    events = ended-Later.events i;
  }

  ended-IsAwaited :
      {limit : ℕ}
      → ((j : ℕ) → All (IsFairReport w (p ∷ ss)) (w.os.events j))
      → (xs ≡ [] → (q : Ptr) × IsSleeper w ss gs q limit)
      → IsAwaited (ended_thread w p) xs ss gs limit
  ended-IsAwaited fair wakes = record {
    fair = λ j.
        subst (λ e. All (IsFairReport (ended_thread w p) ss) (e j)) (sym ended-Later.events)
          (All-map (IsFairReport w (p ∷ ss)) (IsFairReport (ended_thread w p) ss) ended-IsFairReport
            (w.os.events j) (fair j));
    wakes = λ e.
        let (q, s) = wakes e in
        (
          q,
          record {
            sleeps = s.sleeps;
            listed = s.listed;
            comes = λ t h. rw ended-Later.clock (s.comes t h);
          },
        );
  }

pub uthread_exit-Resumed :
    (user : ℕ → Cmd Ptr) {w : World} {p : Ptr} {xs ss gs : List Ptr}
    → IsSystem w p xs ss gs
    → ((j : ℕ) → All (IsFairReport w (p ∷ ss)) (w.os.events j))
    → (limit : ℕ) → (xs ≡ [] → (q : Ptr) × IsSleeper w ss gs q limit)
    → limit < w.os.ticks + w.rounds
    → Resumed (uthread_exit user w) p in_exit (ended_view w p) w.os xs ss gs
uthread_exit-Resumed user {w} v fair limit wakes more =
    Resumed-before (uthread_exit-ok user v) (sym (ended-view user v)) (ended-Later user v) (
      poll-leave-Resumed user (ended-IsParked user v) (ended-IsAwaited user v fair wakes)
        (omega (arith, (ended-Later user v).ticks, more)))
