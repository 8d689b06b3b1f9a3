-- ===== src/System/Waiting.antt =====
-- src/uthread.c: the loop of `uthread_yield` and `uthread_exit` that waits for a thread.
use mathlib.Core.Path.{subst₂, subst, fun_ext}
use user_thread_scheduler.Common.{
  ℕ, zero, suc, ◌+◌, ◌≤◌, ◌<◌, ◌≡◌, refl, sym, ap, ◌∙◌, inl, inr, Bool, true, List, [], ◌∷◌, ◌++◌,
  arith, take, All, All-map, has, leb, ◌==◌, if◌then◌else◌, ==_iff, Bool-cases,
}
use user_thread_scheduler.Io.{max_epoll_events}
use user_thread_scheduler.Io.Events.{reported, reports}
use user_thread_scheduler.Machine.{Ptr, ThreadState, ready, Timespec, Os, World, Run, ok}
use user_thread_scheduler.Sleep.{due, asleep}
use user_thread_scheduler.System.{IsResting, IsChosen, IsFairReport}
use user_thread_scheduler.System.Polling.{
  io_checked, by_report, sleep-Checked, poll_time, by_clock, all_ready, after_poll, poll_states,
  polled-IsResting,
}
use user_thread_scheduler.Trace.{time_ns}
use user_thread_scheduler.Trace.Bounds.{Logs, Later, ticked-Later, Later-trans}

-- `q` is listed and sleeps, and from the reading `limit` of the clock on its time has come.
pub record IsSleeper (w : World) (ss gs : List Ptr) (q : Ptr) (limit : ℕ) : Type 0 where
  pub sleeps : has q ss ≡ true
  pub listed : has q gs ≡ true
  pub comes : (t : ℕ) → limit ≤ t → leb (w.tcb.sleep_until_ns q) (time_ns (w.os.clock t)) ≡ true

-- The reports are fair, and where no thread is ready somebody sleeps whose time comes.
pub record IsAwaited (w : World) (xs ss gs : List Ptr) (limit : ℕ) : Type 0 where
  pub fair : (j : ℕ) → All (IsFairReport w ss) (w.os.events j)
  pub wakes : xs ≡ [] → (q : Ptr) × IsSleeper w ss gs q limit

pub All-take {κ} : (P : Ptr → Type κ) (n : ℕ) (ps : List Ptr) → All P ps → All P (take n ps)
All-take P zero ps l = tt
All-take P (suc n) [] l = tt
All-take P (suc n) (x ∷ ps) l = (l.0, All-take P n ps l.1)

append_none : (xs ys : List Ptr) → xs ++ ys ≡ [] → (xs ≡ []) × (ys ≡ [])
append_none [] ys e = (refl, e)
append_none (x ∷ xs) ys e = absurd cc

-- Where nobody's time has come all sleep on.
none_due :
    (now : ℕ) (until : Ptr → ℕ) (ss : List Ptr) → due now until ss ≡ [] → asleep now until ss ≡ ss
none_due now until [] e = refl
none_due now until (x ∷ ss) e = elim (Bool-cases (leb (until x) now)) [
  | inl time ↦ absurd (ground (arith, e, time))
  | inr early ↦ rw early (ap (λ l. x ∷ l) (none_due now until ss (ground (arith, e, early))))
]

has-due_late :
    (now : ℕ) (until : Ptr → ℕ) (q : Ptr) (ss : List Ptr)
    → has q ss ≡ true
    → leb (until q) now ≡ true
    → has q (due now until ss) ≡ true
has-due_late now until q [] h time = h
has-due_late now until q (x ∷ ss) h time = elim (Bool-cases (x == q)) [
  | inl same ↦
      let here : leb (until x) now ≡ true =
        subst (λ z. leb (until z) now ≡ true) (sym ((==_iff x q).0 same)) time in
      ground (arith, here, same)
  | inr other ↦ ground (arith, other, h, has-due_late now until q ss)
]

-- What the choice of a poll depends on.
pub record View : Type 0 where
  pub state : Ptr → ThreadState
  pub until : Ptr → ℕ
  pub clock : ℕ → Timespec
  pub events : ℕ → List Ptr

abbrev pub view : World → View
view w = record {
  state = w.tcb.state;
  until = w.tcb.sleep_until_ns;
  clock = w.os.clock;
  events = w.os.events;
}

-- A poll finds threads: the ready ones, then those that its reports and a reading of the clock make
-- ready; these are ready behind it, and the others are as before.
pub record Found (run : Run Ptr) (s : View) (live : Ptr → Bool) (os : Os) (xs ss gs : List Ptr)
    : Type 0 where
  pub poll : ℕ
  pub reading : ℕ
  pub later : os.ticks ≤ reading
  pub next : Ptr
  pub others : List Ptr
  pub order :
      xs
        ++ reported s.state (take max_epoll_events (s.events poll))
        ++ due (time_ns (s.clock reading)) s.until ss
      ≡ next ∷ others
  pub end : World
  pub returns : run ≡ ok next end
  pub holds : IsChosen end next others (asleep (time_ns (s.clock reading)) s.until ss) gs
  pub same_live : end.live ≡ live
  pub states :
      (a : Ptr)
      → end.tcb.state a ≡ (
          if has a (
            reported s.state (take max_epoll_events (s.events poll))
            ++ due (time_ns (s.clock reading)) s.until ss)
          then ready
          else s.state a)
  pub logged : Logs os.calls end.os.calls

module _ {w : World} {xs ss gs : List Ptr} (v : IsResting w xs ss gs) {limit : ℕ}
    (a : IsAwaited w xs ss gs limit) where
  pub polled_fair : All (IsFairReport w ss) (reports w)
  polled_fair =
      All-take (IsFairReport w ss) max_epoll_events (w.os.events w.os.polls) (a.fair w.os.polls)

  pub polled-Later : Later w.os (after_poll v polled_fair).os
  polled-Later = Later-trans (io_checked v polled_fair).later (
      Later-trans (ticked-Later (io_checked v polled_fair).changes.os)
        (sleep-Checked v polled_fair).later)

  -- A poll that wakes nobody leaves the state as it was, but for the clock.
  module _ (e : all_ready v polled_fair ≡ []) where
    no_clock : by_clock v polled_fair ≡ []
    no_clock = (append_none (xs ++ by_report v polled_fair) (by_clock v polled_fair) e).1

    no_report : by_report v polled_fair ≡ []
    no_report =
        (append_none xs (by_report v polled_fair)
          (append_none (xs ++ by_report v polled_fair) (by_clock v polled_fair) e).0).1

    pub no_ready : xs ≡ []
    no_ready =
        (append_none xs (by_report v polled_fair)
          (append_none (xs ++ by_report v polled_fair) (by_clock v polled_fair) e).0).0

    quiet_state : (after_poll v polled_fair).tcb.state ≡ w.tcb.state
    quiet_state = fun_ext (λ b. poll_states v polled_fair b ∙ rw (no_report, no_clock) refl)

    quiet_until : (after_poll v polled_fair).tcb.sleep_until_ns ≡ w.tcb.sleep_until_ns
    quiet_until = fun_ext (λ b. (sleep-Checked v polled_fair).untils b ∙ rw no_clock refl)

    quiet_clock : (after_poll v polled_fair).os.clock ≡ w.os.clock
    quiet_clock = (sleep-Checked v polled_fair).later.clock ∙ (io_checked v polled_fair).later.clock

    quiet_events : (after_poll v polled_fair).os.events ≡ w.os.events
    quiet_events =
        (sleep-Checked v polled_fair).later.events ∙ (io_checked v polled_fair).later.events

    pub quiet_view : view (after_poll v polled_fair) ≡ view w
    quiet_view = λ i. record {
      state = quiet_state i;
      until = quiet_until i;
      clock = quiet_clock i;
      events = quiet_events i;
    }

    pub quiet-IsResting : IsResting (after_poll v polled_fair) [] ss gs
    quiet-IsResting =
        subst₂ (λ xs ts. IsResting (after_poll v polled_fair) xs ts gs) e
          (none_due (poll_time v polled_fair) w.tcb.sleep_until_ns ss no_clock)
          (polled-IsResting v polled_fair)

    pub quiet_limit : w.os.ticks < limit
    quiet_limit =
        let (q, s) = a.wakes (no_ready) in
        elim (Bool-cases (leb limit (io_checked v polled_fair).changes.os.ticks)) [
          | inl reached ↦
              let time =
                s.comes (io_checked v polled_fair).changes.os.ticks (ground (arith, reached)) in
              let here : leb (w.tcb.sleep_until_ns q) (poll_time v polled_fair) ≡ true =
                ap
                  (λ c.
                    leb (w.tcb.sleep_until_ns q)
                      (time_ns (c (io_checked v polled_fair).changes.os.ticks)))
                  (io_checked v polled_fair).later.clock
                ∙ time in
              let bad =
                has-due_late (poll_time v polled_fair) w.tcb.sleep_until_ns q ss s.sleeps here in
              absurd (ground (arith, bad, no_clock))
          | inr early ↦ ground (arith, early, (io_checked v polled_fair).later.ticks)
        ]

    quiet_reports : (b : Ptr) → IsFairReport w ss b → IsFairReport (after_poll v polled_fair) ss b
    quiet_reports b (inl no_thread) = inl no_thread
    quiet_reports b (inr f) = inr (f.0, rw quiet_state f.1, f.2)

    pub quiet-IsAwaited : IsAwaited (after_poll v polled_fair) [] ss gs limit
    quiet-IsAwaited = record {
      fair = λ j.
          subst (λ f. All (IsFairReport (after_poll v polled_fair) ss) (f j)) (sym quiet_events)
            (All-map (IsFairReport w ss) (IsFairReport (after_poll v polled_fair) ss) quiet_reports
              (w.os.events j) (a.fair j));
      wakes = λ _.
          let (q, s) = a.wakes no_ready in
          (
            q,
            record {
              sleeps = s.sleeps;
              listed = s.listed;
              comes = λ t h. rw (quiet_until, quiet_clock) (s.comes t h);
            },
          );
    }

    pub quiet_ticks : w.os.ticks + 1 ≤ (after_poll v polled_fair).os.ticks
    quiet_ticks =
        omega
          (arith, (io_checked v polled_fair).later.ticks, (sleep-Checked v polled_fair).later.ticks)
