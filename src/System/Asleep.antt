-- ===== src/System/Asleep.antt =====
-- src/uthread.c: `uthread_yield` of a thread that waits, and the calls that end with it
-- (`uthread_sleep`, `uthread_read`, `uthread_write`).
use mathlib.Core.Path.{subst}
use user_thread_scheduler.Common.{
  ℕ, ◌+◌, ◌<◌, ◌≡◌, refl, sym, ◌∙◌, inl, inr, true, false, List, [], ◌∷◌, arith, has, ◌==◌, ==_iff,
  Bool-cases, eq_self,
}
use user_thread_scheduler.GlobalList.Collect.{is_garbage, garbage, survivors, unmaps}
use user_thread_scheduler.Machine.{Ptr, ThreadState, in_yield, World, Cmd, ◌>>◌}
use user_thread_scheduler.Signals.{blocked_signals}
use user_thread_scheduler.Switch.{poll, reschedule, uthread_yield}
use user_thread_scheduler.System.{IsResting}
use user_thread_scheduler.System.Idle.{alarm-IsAwaited}
use user_thread_scheduler.System.Parked.{IsParked, Resumed, Resumed-before, poll-reschedule-Resumed}
use user_thread_scheduler.System.Sweep.{
  alarm-IsResting, swept, after_gc, spared-access, swept-IsResting, swept_reports,
}
use user_thread_scheduler.System.Waiting.{IsAwaited, view}
use user_thread_scheduler.System.Whole.{uthread_yield-single}
use user_thread_scheduler.Trace.Bounds.{Later}

pub blocked-IsParked :
    {w : World} {p : Ptr} {xs ss gs : List Ptr}
    → IsParked w p xs ss gs
    → IsParked (blocked_signals w) p xs ss gs
blocked-IsParked v = record {
  current = v.current;
  alive = v.alive;
  stopped = v.stopped;
  parked = v.parked;
  rest = alarm-IsResting true v.rest;
}

swept-IsParked :
    {w : World} {p : Ptr} {xs ss gs : List Ptr} (v : IsParked w p xs ss gs)
    → IsParked (after_gc v.rest) p xs ss (survivors w.tcb.state w.current_thread gs)
swept-IsParked {w} {p} v = record {
  current = v.current;
  alive =
      let me : (p == w.current_thread) ≡ true = rw v.current (eq_self p) in
      spared-access v.rest p (ground (arith, me)) v.alive;
  stopped = v.stopped;
  parked = v.parked;
  rest = swept-IsResting v.rest;
}

-- A thread that is not collected is still listed.
survives :
    (state : Ptr → ThreadState) (me q : Ptr) (gs : List Ptr)
    → has q gs ≡ true
    → is_garbage state me q ≡ false
    → has q (survivors state me gs) ≡ true
survives state me q [] h on = h
survives state me q (x ∷ gs) h on = elim (Bool-cases (x == q)) [
  | inl same ↦ let e : x ≡ q = (==_iff x q).0 same in rw (e, on) (ground arith)
  | inr other ↦ ground (arith, other, h, survives state me q gs)
]

swept-IsAwaited :
    {w : World} {xs ss gs : List Ptr} (v : IsResting w xs ss gs) {limit : ℕ}
    → IsAwaited w xs ss gs limit
    → IsAwaited (after_gc v) xs ss (survivors w.tcb.state w.current_thread gs) limit
swept-IsAwaited {w} {gs} v a = record {
  fair = λ j. swept_reports v (w.os.events j) (a.fair j);
  wakes = λ e.
      let (q, s) = a.wakes e in
      let on : is_garbage w.tcb.state w.current_thread q ≡ false =
        rw (v.sleep_states q s.sleeps) refl in
      (
        q,
        record {
          sleeps = s.sleeps;
          listed = survives w.tcb.state w.current_thread q gs s.listed on;
          comes = s.comes;
        },
      );
}

pub uthread_yield-Resumed :
    (user : ℕ → Cmd Ptr) {w : World} {p : Ptr} {xs ss gs : List Ptr}
    → IsParked w p xs ss gs
    → {limit : ℕ} → IsAwaited w xs ss gs limit
    → limit < w.os.ticks + w.rounds
    → Resumed
        (uthread_yield user w)
        p
        in_yield
        (view w)
        w.os
        xs
        ss
        (survivors w.tcb.state w.current_thread gs)
uthread_yield-Resumed user {w} {p} {xs} {ss} {gs} v a more =
    let u = blocked-IsParked v in
    let b = alarm-IsAwaited true a in
    let run : uthread_yield user w ≡ (poll >> reschedule user) (after_gc u.rest) =
      uthread_yield-single user w v.rest.single ∙ rw (swept u.rest).returns refl in
    let gc-Later : Later w.os (after_gc u.rest).os = record {
      clock = refl;
      events = refl;
      ticks = omega arith;
      log = record {
        more = unmaps w.tcb.stack w.tcb.stack_alloc (garbage w.tcb.state w.current_thread gs);
        added = (swept u.rest).calls;
      };
    } in
    subst
      (λ r. Resumed r p in_yield (view w) w.os xs ss (survivors w.tcb.state w.current_thread gs))
      (sym run)
      (Resumed-before refl refl gc-Later
        (poll-reschedule-Resumed user (swept-IsParked u) (swept-IsAwaited u.rest b) more))
