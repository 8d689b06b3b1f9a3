-- ===== src/System/Parked.antt =====
-- src/uthread.c: the call of the scheduler by a thread that does not run on.
use mathlib.Core.Path.{subst₂, subst}
use user_thread_scheduler.Common.{
  ℕ, ◌+◌, ◌≤◌, ◌<◌, ◌≡◌, refl, sym, ap, inl, inr, Bool, true, false, List, [], ◌∷◌, ◌++◌, arith,
  take, All, has, ◌==◌, if◌then◌else◌, Bool-cases, eq_self,
}
use user_thread_scheduler.GlobalList.{is_finished}
use user_thread_scheduler.GlobalList.Live.{has_live-true}
use user_thread_scheduler.Io.{max_epoll_events}
use user_thread_scheduler.Io.Events.{reported, reports}
use user_thread_scheduler.Machine.{
  Ptr, ready, running, Context, in_yield, Os, World, Run, ok, Cmd, and_then, ◌>>=◌, ◌>>◌, access,
  access-ne-null,
}
use user_thread_scheduler.Policy.{is_ready, schedule_next}
use user_thread_scheduler.Processors.{is_running}
use user_thread_scheduler.ReadyQueue.{dequeued, dequeue-nil}
use user_thread_scheduler.Signals.{unblock_signals-ok}
use user_thread_scheduler.Sleep.{due, asleep}
use user_thread_scheduler.Switch.{
  Outcome, switches, poll, switch_to, requeue, idle_loop, can_wait, wait_for_thread, wait_or_exit,
  yield_to, reschedule,
}
use user_thread_scheduler.Switch.Turn.{started, switch_to-ok, schedule_next-default}
use user_thread_scheduler.System.{IsResting, IsSystem, IsFairReport}
use user_thread_scheduler.System.Idle.{
  alarm-IsAwaited, schedule_next-polled, polled-IsChosen, Found-now, first-cases, Found-before,
  idle_loop-Found,
}
use user_thread_scheduler.System.Polling.{
  by_report, by_clock, all_ready, after_poll, poll-ok, poll_states,
}
use user_thread_scheduler.System.Sweep.{alarm-IsResting}
use user_thread_scheduler.System.Turns.{started-IsSystem}
use user_thread_scheduler.System.Waiting.{
  IsAwaited, View, view, Found, polled_fair, polled-Later, no_ready, quiet_view, quiet-IsResting,
  quiet-IsAwaited, quiet_ticks,
}
use user_thread_scheduler.Trace.{time_ns, uthread_dump_trace}
use user_thread_scheduler.Trace.Bounds.{clocked_calls, Logs, Logs-trans, Logs-same, Later}

-- The current thread `p` waits or has finished; it is not in the ready queue.
pub record IsParked (w : World) (p : Ptr) (xs ss gs : List Ptr) : Type 0 where
  pub current : w.current_thread ≡ p
  pub alive : access w.live p ≡ true
  pub stopped : is_running (w.tcb.state p) ≡ false
  pub parked : is_ready (w.tcb.state p) ≡ false
  pub rest : IsResting w xs ss gs

-- The call switches from `p` to the first of the threads that a poll finds, and the others wait in
-- the order of the poll; the states of the other threads are as before.
pub record Resumed (run : Run Outcome) (p : Ptr) (at : Context) (s : View) (os : Os)
    (xs ss gs : List Ptr) : Type 0 where
  pub poll : ℕ
  pub reading : ℕ
  pub later : os.ticks ≤ reading
  pub next : Ptr
  pub others : List Ptr
  pub order :
      xs
        ++ reported s.state (take max_epoll_events (s.events poll))
        ++ due (time_ns (s.clock reading)) s.until ss
      ≡ next ∷ others
  pub end : World
  pub returns : run ≡ ok (switches next) end
  pub holds : IsSystem end next others (asleep (time_ns (s.clock reading)) s.until ss) gs
  pub saved : end.tcb.context p ≡ at
  pub states :
      (a : Ptr)
      → end.tcb.state a ≡ (
          if next == a
          then running
          else if has a (
              reported s.state (take max_epoll_events (s.events poll))
              ++ due (time_ns (s.clock reading)) s.until ss)
          then ready
          else s.state a)
  pub logged : Logs os.calls end.os.calls

pub Found-Resumed :
    {run : Run Ptr} {s : View} {live : Ptr → Bool} {os : Os} {xs ss gs : List Ptr} (p : Ptr)
    (at : Context)
    → access live p ≡ true
    → Found run s live os xs ss gs
    → Resumed (and_then run (λ n. switch_to p at n)) p at s os xs ss gs
Found-Resumed p at alive f = record {
  poll = f.poll;
  reading = f.reading;
  later = f.later;
  next = f.next;
  others = f.others;
  order = f.order;
  end = started f.end p at f.next;
  returns = rw f.returns (
      switch_to-ok f.end p at f.next (subst (λ l. access l p ≡ true) (sym f.same_live) alive)
        f.holds.alive);
  holds = started-IsSystem p at f.holds;
  saved = rw (eq_self p) refl;
  states = λ a. ap (λ s. if f.next == a then running else s) (f.states a);
  logged = Logs-trans f.logged (Logs-same (clocked_calls f.end.trace f.end.os));
}

pub Resumed-before :
    {run run' : Run Outcome} {p : Ptr} {at : Context} {s s' : View} {t t' : Os}
    {xs ss gs : List Ptr}
    → run ≡ run'
    → s ≡ s'
    → Later t t'
    → Resumed run' p at s' t' xs ss gs
    → Resumed run p at s t xs ss gs
Resumed-before {p} {at} {t} {xs} {ss} {gs} e f later r =
    subst₂ (λ m v. Resumed m p at v t xs ss gs) (sym e) (sym f)
      (record {
        poll = r.poll;
        reading = r.reading;
        later = omega (arith, later.ticks, r.later);
        next = r.next;
        others = r.others;
        order = r.order;
        end = r.end;
        returns = r.returns;
        holds = r.holds;
        saved = r.saved;
        states = r.states;
        logged = Logs-trans later.log r.logged;
      })

module _ (user : ℕ → Cmd Ptr) {w : World} {p : Ptr} {xs ss gs : List Ptr}
    (v : IsParked w p xs ss gs) {limit : ℕ} (a : IsAwaited w xs ss gs limit)
    (more : limit < w.os.ticks + w.rounds) where
  abbrev fair : All (IsFairReport w ss) (reports w)
  fair = polled_fair v.rest a

  abbrev u : World
  u = after_poll v.rest fair

  still_stopped : is_running (u.tcb.state p) ≡ false
  still_stopped = elim (Bool-cases (has p (by_report v.rest fair ++ by_clock v.rest fair))) [
    | inl now_ready ↦ rw (poll_states v.rest fair p, now_ready) refl
    | inr same ↦ rw (poll_states v.rest fair p, same) v.stopped
  ]

  requeue-none : requeue p u ≡ ok tt u
  unfolding requeue
  requeue-none = rw (v.alive, still_stopped)

  rescheduled : reschedule user u ≡ and_then (schedule_next user u) (yield_to user p)
  unfolding reschedule
  rescheduled =
      subst
        (λ c.
          (requeue c >> (schedule_next user >>= yield_to user c)) u
          ≡ and_then (schedule_next user u) (yield_to user p))
        (sym v.current) (rw requeue-none refl)

  -- A poll finds somebody at once.
  module _ (z : Ptr) (zs : List Ptr) (e : all_ready v.rest fair ≡ z ∷ zs) where
    switched_now :
        (poll >> reschedule user) w ≡ and_then (ok z (dequeued u)) (λ n. switch_to p in_yield n)
    unfolding yield_to
    switched_now = rw (
      poll-ok v.rest fair,
      rescheduled,
      schedule_next-polled v.rest fair z zs e user,
      access-ne-null w.live z (polled-IsChosen v.rest fair z zs e).alive,
    )

  -- It finds nobody.
  module _ (e : all_ready v.rest fair ≡ []) where
    still_parked : is_ready (u.tcb.state p) ≡ false
    still_parked = rw (ap (λ s. s.state p) (quiet_view v.rest a e)) v.parked

    pub wait_loop :
        (last_words : Cmd (Unit {0}))
        → wait_or_exit user last_words u
          ≡ idle_loop user w.rounds (record u { alarm_blocked = false })
    unfolding wait_or_exit can_wait wait_for_thread
    wait_loop last_words =
        let rest = quiet-IsResting v.rest a e in
        let (q, s) = a.wakes (no_ready v.rest a e) in
        let on : is_finished (u.tcb.state q) ≡ false = rw (rest.sleep_states q s.sleeps) refl in
        rw (
          has_live-true q rest.global rest.few s.listed on,
          rest.epoll,
          unblock_signals-ok u rest.single,
        )

    waited :
        (poll >> reschedule user) w
        ≡ and_then
            (idle_loop user w.rounds (record u { alarm_blocked = false }))
            (λ n. switch_to p in_yield n)
    unfolding yield_to
    waited =
        let rest = quiet-IsResting v.rest a e in
        rw (
          poll-ok v.rest fair,
          rescheduled,
          schedule_next-default user u v.rest.policy,
          dequeue-nil rest.lists.ready,
          v.alive,
          still_parked,
          wait_loop uthread_dump_trace,
        )

    pub idle-Found :
        Found
          (idle_loop user w.rounds (record u { alarm_blocked = false }))
          (view w)
          w.live
          w.os
          xs
          ss
          gs
    idle-Found =
        let later = quiet_ticks v.rest a e in
        let found =
          idle_loop-Found user w.rounds (record u { alarm_blocked = false })
            (alarm-IsResting false (quiet-IsResting v.rest a e))
            (alarm-IsAwaited false (quiet-IsAwaited v.rest a e)) (omega (arith, later, more))
            (omega (arith, v.rest.few)) in
        subst
          (λ l.
            Found (idle_loop user w.rounds (record u { alarm_blocked = false })) (view w) w.live
              w.os l ss gs)
          (sym (no_ready v.rest a e))
          (Found-before refl (sym (quiet_view v.rest a e)) (polled-Later v.rest a) found)

  pub poll-reschedule-Resumed :
      Resumed ((poll >> reschedule user) w) p in_yield (view w) w.os xs ss gs
  poll-reschedule-Resumed = elim (first-cases (all_ready v.rest fair)) [
    | inl e ↦
        subst (λ r. Resumed r p in_yield (view w) w.os xs ss gs) (sym (waited e))
          (Found-Resumed p in_yield v.alive (idle-Found e))
    | inr c ↦
        subst (λ r. Resumed r p in_yield (view w) w.os xs ss gs) (sym (switched_now c.0 c.1 c.2))
          (Found-Resumed p in_yield v.alive (Found-now v.rest fair c.0 c.1 c.2 _ refl))
  ]
