-- ===== src/System/Idle.antt =====
-- src/uthread.c: the waiting loop ends at the latest when the time of a sleeper has come.
use mathlib.Core.Path.{subst₂, subst}
use user_thread_scheduler.Common.{
  ℕ, zero, suc, ◌+◌, ◌<◌, ◌≡◌, refl, sym, ap, ◌∙◌, ◌⊎◌, inl, inr, Bool, true, false, List, [], ◌∷◌,
  ◌++◌, arith, All, has, if◌then◌else◌,
}
use user_thread_scheduler.Io.Events.{reports}
use user_thread_scheduler.Machine.{Ptr, ready, Os, World, Run, ok, Cmd, access-ne-null}
use user_thread_scheduler.Policy.{schedule_next}
use user_thread_scheduler.ReadyQueue.{dequeued, dequeue-nil}
use user_thread_scheduler.Signals.{blocked_signals, block_signals-ok, unblock_signals-ok}
use user_thread_scheduler.Sleep.{due, asleep}
use user_thread_scheduler.Switch.{idle_loop}
use user_thread_scheduler.Switch.Turn.{schedule_next-default}
use user_thread_scheduler.System.{IsResting, IsChosen, IsFairReport}
use user_thread_scheduler.System.Polling.{
  io_checked, by_report, sleep-Checked, still_asleep, all_ready, after_poll, poll-ok, poll_states,
  polled-IsResting,
}
use user_thread_scheduler.System.Sweep.{alarm-IsResting}
use user_thread_scheduler.System.Turns.{schedule_next-first, dequeued-IsChosen}
use user_thread_scheduler.System.Waiting.{
  IsAwaited, View, view, Found, polled_fair, polled-Later, quiet_view, quiet-IsResting, quiet_limit,
  quiet-IsAwaited, quiet_ticks,
}
use user_thread_scheduler.Trace.{time_ns}
use user_thread_scheduler.Trace.Bounds.{Logs-refl, Logs-trans, Later}

pub alarm-IsAwaited :
    {w : World} {xs ss gs : List Ptr} {limit : ℕ} (b : Bool)
    → IsAwaited w xs ss gs limit
    → IsAwaited (record w { alarm_blocked = b }) xs ss gs limit
alarm-IsAwaited b a = record {
  fair = a.fair;
  wakes = λ e.
      let (q, s) = a.wakes e in
      (q, record { sleeps = s.sleeps; listed = s.listed; comes = s.comes });
}

-- A poll that finds somebody.
module _ {w : World} {xs ss gs : List Ptr} (v : IsResting w xs ss gs)
    (fair : All (IsFairReport w ss) (reports w)) (z : Ptr) (zs : List Ptr)
    (e : all_ready v fair ≡ z ∷ zs) where
  first-IsResting : IsResting (after_poll v fair) (z ∷ zs) (still_asleep v fair) gs
  first-IsResting =
      subst (λ l. IsResting (after_poll v fair) l (still_asleep v fair) gs) e
        (polled-IsResting v fair)

  pub schedule_next-polled :
      (user : ℕ → Cmd Ptr)
      → schedule_next user (after_poll v fair) ≡ ok z (dequeued (after_poll v fair))
  schedule_next-polled user = schedule_next-first first-IsResting user

  pub polled-IsChosen : IsChosen (dequeued (after_poll v fair)) z zs (still_asleep v fair) gs
  polled-IsChosen = dequeued-IsChosen first-IsResting

  pub Found-now :
      (run : Run Ptr)
      → run ≡ ok z (dequeued (after_poll v fair))
      → Found run (view w) w.live w.os xs ss gs
  Found-now run r =
      let io = io_checked v fair in
      let time : time_ns (io.changes.os.clock io.changes.os.ticks)
          ≡ time_ns (w.os.clock io.changes.os.ticks) =
        ap (λ c. time_ns (c io.changes.os.ticks)) io.later.clock in
      record {
        poll = w.os.polls;
        reading = io.changes.os.ticks;
        later = io.later.ticks;
        next = z;
        others = zs;
        order = ap (λ t. xs ++ by_report v fair ++ due t w.tcb.sleep_until_ns ss) (sym time) ∙ e;
        end = dequeued (after_poll v fair);
        returns = r;
        holds =
            subst
              (λ t.
                IsChosen (dequeued (after_poll v fair)) z zs (asleep t w.tcb.sleep_until_ns ss) gs)
              time polled-IsChosen;
        same_live = refl;
        states = λ a.
            poll_states v fair a
            ∙ ap
                (λ t.
                  if has a (by_report v fair ++ due t w.tcb.sleep_until_ns ss)
                  then ready
                  else w.tcb.state a)
                time;
        logged =
            Logs-trans io.later.log
              (Logs-trans (Logs-refl io.changes.os.calls) (sleep-Checked v fair).later.log);
      }

pub first-cases : (xs : List Ptr) → (xs ≡ []) ⊎ ((z : Ptr) × (zs : List Ptr) × (xs ≡ z ∷ zs))
first-cases [] = inl refl
first-cases (z ∷ zs) = inr (z, zs, refl)

module _ (user : ℕ → Cmd Ptr) (k : ℕ) (w : World) {ss gs : List Ptr}
    (v : IsResting (blocked_signals w) [] ss gs) {limit : ℕ}
    (a : IsAwaited (blocked_signals w) [] ss gs limit) where
  -- The poll finds somebody.
  round_found :
      (z : Ptr) (zs : List Ptr)
      → all_ready v (polled_fair v a) ≡ z ∷ zs
      → idle_loop user (suc k) w ≡ ok z (dequeued (after_poll v (polled_fair v a)))
  unfolding idle_loop
  round_found z zs e = rw (
    block_signals-ok w v.single,
    poll-ok v (polled_fair v a),
    schedule_next-polled v (polled_fair v a) z zs e user,
    access-ne-null w.live z (polled-IsChosen v (polled_fair v a) z zs e).alive,
  )

  -- It finds nobody, and the loop goes on.
  round_quiet :
      all_ready v (polled_fair v a) ≡ []
      → idle_loop user (suc k) w
        ≡ idle_loop user k (record (after_poll v (polled_fair v a)) { alarm_blocked = false })
  unfolding idle_loop
  round_quiet e =
      let rest = quiet-IsResting v a e in
      rw (
        block_signals-ok w v.single,
        poll-ok v (polled_fair v a),
        schedule_next-default user (after_poll v (polled_fair v a)) v.policy,
        dequeue-nil rest.lists.ready,
        unblock_signals-ok (after_poll v (polled_fair v a)) v.single,
      )

pub Found-before :
    {run run' : Run Ptr} {s s' : View} {live : Ptr → Bool} {t t' : Os} {xs ss gs : List Ptr}
    → run ≡ run'
    → s ≡ s'
    → Later t t'
    → Found run' s' live t' xs ss gs
    → Found run s live t xs ss gs
Found-before {live} {t} {xs} {ss} {gs} e f later r =
    subst₂ (λ m v. Found m v live t xs ss gs) (sym e) (sym f)
      (record {
        poll = r.poll;
        reading = r.reading;
        later = omega (arith, later.ticks, r.later);
        next = r.next;
        others = r.others;
        order = r.order;
        end = r.end;
        returns = r.returns;
        holds = r.holds;
        same_live = r.same_live;
        states = r.states;
        logged = Logs-trans later.log r.logged;
      })

-- Where no thread is ready, the reports are fair and a thread sleeps whose time has come from some
-- reading of the clock on, the loop ends with enough fuel for the readings up to it: it takes the
-- first of the threads that one of its polls makes ready.
pub idle_loop-Found :
    (user : ℕ → Cmd Ptr) (k : ℕ) (w : World) {ss gs : List Ptr}
    → IsResting w [] ss gs
    → {limit : ℕ} → IsAwaited w [] ss gs limit
    → limit < w.os.ticks + k
    → 0 < k
    → Found (idle_loop user k w) (view w) w.live w.os [] ss gs
idle_loop-Found user zero w v a h more = absurd (omega arith)
idle_loop-Found user (suc k) w v {limit} a h more =
    let u = alarm-IsResting true v in
    let b = alarm-IsAwaited true a in
    elim (first-cases (all_ready u (polled_fair u b))) [
      | inl e ↦
          let r =
            idle_loop-Found user k
              (record (after_poll u (polled_fair u b)) { alarm_blocked = false })
              (alarm-IsResting false (quiet-IsResting u b e))
              (alarm-IsAwaited false (quiet-IsAwaited u b e)) (omega (arith, quiet_ticks u b e))
              (omega (arith, quiet_limit u b e)) in
          Found-before (round_quiet user k w u b e) (sym (quiet_view u b e)) (polled-Later u b) r
      | inr c ↦
          Found-now u (polled_fair u b) c.0 c.1 c.2 (idle_loop user (suc k) w)
            (round_found user k w u b c.0 c.1 c.2)
    ]
