-- ===== src/System/Slept.antt =====
-- src/uthread.c: `uthread_sleep` up to the switch to the next thread.
use mathlib.Core.Path.{subst}
use user_thread_scheduler.Blocking.{uthread_sleep}
use user_thread_scheduler.Common.{
  ℕ, suc, ◌+◌, ◌≤◌, ◌<◌, ◌≡◌, sym, ap, inl, inr, true, List, [], ◌∷◌, ◌++◌, arith, length, take,
  All, has, has-append, leb, ◌==◌, ==_iff, Bool-cases, update, eq_self,
}
use user_thread_scheduler.GlobalList.Collect.{survivors}
use user_thread_scheduler.Io.{max_epoll_events}
use user_thread_scheduler.Io.Events.{reported}
use user_thread_scheduler.Machine.{Ptr, io_blocked, Context, in_yield, Os, World, Run, Cmd}
use user_thread_scheduler.Sleep.{due}
use user_thread_scheduler.Switch.{Outcome}
use user_thread_scheduler.System.{IsSystem, IsFairReport}
use user_thread_scheduler.System.Asleep.{uthread_yield-Resumed}
use user_thread_scheduler.System.Parked.{Resumed, Resumed-before}
use user_thread_scheduler.System.Sleeping.{
  wake_time, slept_view, uthread_sleep-ok, slept-IsParked, slept-Later, slept-view, slept-IsAwaited,
  unreported,
}
use user_thread_scheduler.Trace.{time_ns}
use user_thread_scheduler.Trace.Bounds.{ticked-Later, Later-trans}

due_only :
    (now : ℕ) (until : Ptr → ℕ) (q : Ptr) (ss : List Ptr)
    → has q (due now until ss) ≡ true
    → leb (until q) now ≡ true
due_only now until q [] h = absurd cc
due_only now until q (x ∷ ss) h = elim (Bool-cases (x == q)) [
  | inl same ↦ elim (Bool-cases (leb (until x) now)) [
    | inl time ↦ subst (λ z. leb (until z) now ≡ true) ((==_iff x q).0 same) time
    | inr early ↦ due_only now until q ss (ground (arith, h, early))
  ]
  | inr other ↦ due_only now until q ss (ground (arith, h, other))
]

Resumed-late :
    (user : ℕ → Cmd Ptr) (ms : ℕ) {w : World} {p : Ptr} {xs ss gs : List Ptr}
    → IsSystem w p xs ss gs
    → ((j : ℕ) → All (IsFairReport w (p ∷ ss)) (w.os.events j))
    → {run : Run Outcome} {at : Context} {t : Os} {gs' : List Ptr}
    → (r : Resumed run p at (slept_view w p ms) t xs (p ∷ ss) gs')
    → has p (r.next ∷ r.others) ≡ true
    → wake_time w p ms ≤ time_ns (w.os.clock r.reading)
Resumed-late user ms {w} {p} {xs} {ss} v fair r h =
    let reps = reported (slept_view w p ms).state (take max_epoll_events (w.os.events r.poll)) in
    let dues = due (time_ns (w.os.clock r.reading)) (slept_view w p ms).until (p ∷ ss) in
    let here : has p dues ≡ true = ground (
      arith,
      ap (has p) r.order,
      h,
      has-append p (xs ++ reps) dues,
      has-append p xs reps,
      v.unready,
      unreported user ms v r.poll (fair r.poll),
    ) in
    let late =
      due_only (time_ns (w.os.clock r.reading)) (slept_view w p ms).until p (p ∷ ss) here in
    ground (arith, late, eq_self p)

-- `uthread_sleep` switches to the next thread, and its own thread is ready at its time at the
-- earliest.
pub record Slept (user : ℕ → Cmd Ptr) (ms : ℕ) (w : World) (p : Ptr) (xs ss gs : List Ptr)
    : Type 0 where
  pub resumed :
      Resumed
        (uthread_sleep user ms w)
        p
        in_yield
        (slept_view w p ms)
        w.os
        xs
        (p ∷ ss)
        (survivors (update w.tcb.state p io_blocked) w.current_thread gs)
  pub not_early :
      has p (resumed.next ∷ resumed.others) ≡ true
      → wake_time w p ms ≤ time_ns (w.os.clock resumed.reading)

-- In a well-formed state of single-core mode, where the thread that runs is listed, fewer than
-- `rounds` threads sleep with it, every report of `epoll_wait` is for no thread or for a live one
-- other than the caller that has not finished and does not sleep, the clock shows the wake-up time
-- from some reading on and there is fuel for the readings up to it, `uthread_sleep` ends at its
-- context switch, also where no other thread is ready: the thread resumed is the first of the ready
-- ones, the reported ones and the sleepers whose time has come at one poll, the others wait in this
-- order, and the state is well formed. The caller is in the sleep list unless its wake-up time, the
-- time of the call and `ms` milliseconds, has come.
pub uthread_sleep-Slept :
    (user : ℕ → Cmd Ptr) (ms : ℕ) {w : World} {p : Ptr} {xs ss gs : List Ptr}
    → IsSystem w p xs ss gs
    → suc (length ss) < w.rounds
    → has p gs ≡ true
    → ((j : ℕ) → All (IsFairReport w (p ∷ ss)) (w.os.events j))
    → (limit : ℕ) → ((t : ℕ) → limit ≤ t → leb (wake_time w p ms) (time_ns (w.os.clock t)) ≡ true)
    → limit < w.os.ticks + w.rounds
    → Slept user ms w p xs ss gs
uthread_sleep-Slept user ms {w} {p} {xs} {ss} {gs} v room listed fair limit comes more =
    let later = Later-trans (ticked-Later w.os) (slept-Later user ms v) in
    let r =
      uthread_yield-Resumed user (slept-IsParked user ms v room)
        (slept-IsAwaited user ms v fair comes listed) (omega (arith, later.ticks, more)) in
    let back = Resumed-before (uthread_sleep-ok user ms v) (sym (slept-view user ms v)) later r in
    record { resumed = back; not_early = Resumed-late user ms v fair back }
