-- ===== src/System/Unwoken.antt =====
-- src/uthread.c: a thread that waits for no report and does not sleep is not woken by a poll.
use user_thread_scheduler.Common.{
  ℕ, ◌≡◌, refl, sym, ap, ◌∙◌, inl, inr, false, List, ◌∷◌, ◌++◌, arith, take, has, has-append, ◌==◌,
  Bool-cases,
}
use user_thread_scheduler.Io.{max_epoll_events, is_io_blocked}
use user_thread_scheduler.Io.Events.{reported}
use user_thread_scheduler.Machine.{Ptr, Context, Os, Run}
use user_thread_scheduler.Sleep.{due}
use user_thread_scheduler.Switch.{Outcome}
use user_thread_scheduler.System.Frames.{has-reported, has-due}
use user_thread_scheduler.System.Parked.{Resumed}
use user_thread_scheduler.System.Waiting.{View}
use user_thread_scheduler.Trace.{time_ns}

module _ (s : View) (p : Ptr) (xs ss : List Ptr) (unready : has p xs ≡ false)
    (awake : has p ss ≡ false) (no_io : is_io_blocked (s.state p) ≡ false) where
  unreported_by : (ps : List Ptr) → has p (reported s.state ps) ≡ false
  unreported_by ps = elim (Bool-cases (has p (reported s.state ps))) [
    | inl bad ↦ absurd (ground (arith, (has-reported s.state p ps bad).1, no_io))
    | inr good ↦ good
  ]

  never_due : (now : ℕ) → has p (due now s.until ss) ≡ false
  never_due now = elim (Bool-cases (has p (due now s.until ss))) [
    | inl bad ↦ absurd (ground (arith, awake, has-due now s.until p ss bad))
    | inr good ↦ good
  ]

  -- It is neither the thread that runs nor one that is ready, and its state is the one it had.
  pub Resumed-unwoken :
      {run : Run Outcome} {at : Context} {os : Os} {gs : List Ptr}
      (r : Resumed run p at s os xs ss gs)
      → (has p (r.next ∷ r.others) ≡ false) × (r.end.tcb.state p ≡ s.state p)
  Resumed-unwoken r =
      let reps = reported s.state (take max_epoll_events (s.events r.poll)) in
      let dues = due (time_ns (s.clock r.reading)) s.until ss in
      let quiet = unreported_by (take max_epoll_events (s.events r.poll)) in
      let idle = never_due (time_ns (s.clock r.reading)) in
      let out : has p (r.next ∷ r.others) ≡ false =
        sym (ap (has p) r.order)
        ∙ ground
            (arith, quiet, idle, unready, has-append p (xs ++ reps) dues, has-append p xs reps) in
      let other : (r.next == p) ≡ false = ground (arith, out) in
      let untouched : has p (reps ++ dues) ≡ false =
        ground (arith, quiet, idle, has-append p reps dues) in
      (out, r.states p ∙ rw (other, untouched) refl)
