-- ===== src/System/Polling.antt =====
-- src/uthread.c: the polling of `uthread_yield`, `uthread_exit` and their waiting loops.
use user_thread_scheduler.Common.{
  ℕ, ◌≡◌, refl, ◌∙◌, inl, inr, true, false, ◌||◌, List, ◌++◌, arith, All, All-map, has, has-append,
  if◌then◌else◌, Bool-cases,
}
use user_thread_scheduler.Io.{is_io_blocked}
use user_thread_scheduler.Io.Events.{
  reported, IsReport, either_ready, reports, Answered, check_io_events-Answered,
}
use user_thread_scheduler.Io.Wake.{io_woken, IsPolling}
use user_thread_scheduler.Machine.{Ptr, ready, io_blocked, World, ok}
use user_thread_scheduler.Machine.Apart.{Chain-same}
use user_thread_scheduler.Sleep.{IsSleeping, due, asleep}
use user_thread_scheduler.Sleep.Loop.{time_read, ticked, Checked, check_sleep_list-Checked}
use user_thread_scheduler.Sleep.Wake.{woken}
use user_thread_scheduler.Switch.{poll}
use user_thread_scheduler.System.{IsResting, IsSystem, IsFairReport}
use user_thread_scheduler.System.Frames.{has-reported, All-has, has-due, has-asleep, length-asleep}

module _ {w : World} {xs ss gs : List Ptr} (v : IsResting w xs ss gs)
    (env : All (IsFairReport w ss) (reports w)) where
  resting-IsPolling : IsPolling w xs
  resting-IsPolling = record {
    ready = v.lists.ready;
    none_waits = λ a h. rw (v.ready_states a h) refl;
  }

  fair-IsReport : (a : Ptr) → IsFairReport w ss a → IsReport w.live a
  fair-IsReport a (inl no_thread) = inl no_thread
  fair-IsReport a (inr f) = inr f.0

  pub io_checked : Answered w xs
  io_checked =
      check_io_events-Answered w xs resting-IsPolling v.epoll
        (All-map (IsFairReport w ss) (IsReport w.live) fair-IsReport (reports w) env)

  -- The threads that the reports make ready.
  abbrev pub by_report : List Ptr
  by_report = reported w.tcb.state (reports w)

  abbrev pub after_io : World
  after_io = io_woken w io_checked.changes

  -- A thread of the sleep list is not woken by a report.
  asleep_unreported : (a : Ptr) → has a ss ≡ true → has a by_report ≡ false
  asleep_unreported a h = elim (Bool-cases (has a by_report)) [
    | inl bad ↦
        let r = has-reported w.tcb.state a (reports w) bad in
        elim (All-has (IsFairReport w ss) a (reports w) env r.0) [
          | inl no_thread ↦ absurd (ground (arith, r.1, no_thread))
          | inr f ↦ absurd (ground (arith, f.2, h))
        ]
    | inr good ↦ good
  ]

  io-IsSleeping : IsSleeping after_io (xs ++ by_report) ss
  io-IsSleeping = record {
    ready = io_checked.holds.ready;
    chain =
        Chain-same w.live w.tcb.next io_checked.changes.next w.sleep_list_head ss v.lists.chain
          (λ a h. io_checked.outside a (v.lists.apart a h) (asleep_unreported a h));
    distinct = v.lists.distinct;
    apart =
        λ a h. ground (arith, has-append a xs by_report, v.lists.apart a h, asleep_unreported a h);
  }

  pub sleep-Checked : Checked after_io (xs ++ by_report) ss
  sleep-Checked = check_sleep_list-Checked io-IsSleeping v.few_asleep v.free_lock

  abbrev pub poll_time : ℕ
  poll_time = time_read after_io

  -- The threads whose time has come, and those that sleep on.
  abbrev pub by_clock : List Ptr
  by_clock = due poll_time w.tcb.sleep_until_ns ss

  abbrev pub still_asleep : List Ptr
  still_asleep = asleep poll_time w.tcb.sleep_until_ns ss

  -- The threads that are ready behind the polling.
  abbrev pub all_ready : List Ptr
  all_ready = xs ++ by_report ++ by_clock

  abbrev pub after_poll : World
  after_poll = woken (ticked after_io) sleep-Checked.changes

  pub poll-ok : poll w ≡ ok tt after_poll
  unfolding poll
  poll-ok = rw (io_checked.returns, sleep-Checked.returns)

  pub poll_states :
      (a : Ptr)
      → after_poll.tcb.state a ≡ (if has a (by_report ++ by_clock) then ready else w.tcb.state a)
  poll_states a =
      sleep-Checked.states a
      ∙ (rw (io_checked.states a, has-append a by_report by_clock)
          (either_ready (has a by_clock) (has a by_report) (w.tcb.state a)))

  all_ready_parts : (a : Ptr) → has a all_ready ≡ (has a xs || has a (by_report ++ by_clock))
  all_ready_parts a = ground (
    arith,
    has-append a (xs ++ by_report) by_clock,
    has-append a xs by_report,
    has-append a by_report by_clock,
  )

  polled_ready_states : (a : Ptr) → has a all_ready ≡ true → after_poll.tcb.state a ≡ ready
  polled_ready_states a h = elim (Bool-cases (has a (by_report ++ by_clock))) [
    | inl now_ready ↦ poll_states a ∙ rw now_ready refl
    | inr same ↦
        poll_states a ∙ rw same (v.ready_states a (ground (arith, h, same, all_ready_parts a)))
  ]

  polled_sleep_states : (a : Ptr) → has a still_asleep ≡ true → after_poll.tcb.state a ≡ io_blocked
  polled_sleep_states a h =
      let out = sleep-Checked.holds.apart a h in
      let same : has a (by_report ++ by_clock) ≡ false = ground (arith, out, all_ready_parts a) in
      poll_states a ∙ rw same (v.sleep_states a (has-asleep poll_time w.tcb.sleep_until_ns a ss h))

  pub polled-IsResting : IsResting after_poll all_ready still_asleep gs
  polled-IsResting = record {
    lists = sleep-Checked.holds;
    ready_states = polled_ready_states;
    sleep_states = polled_sleep_states;
    global = record { links = v.global.links; distinct = v.global.distinct };
    few = v.few;
    few_asleep = omega (arith, v.few_asleep, length-asleep poll_time w.tcb.sleep_until_ns ss);
    free_lock = refl;
    policy = v.policy;
    single = v.single;
    epoll = v.epoll;
  }

  -- A thread that is neither ready, nor asleep, nor waiting for a report, is as before.
  pub unpolled :
      (a : Ptr)
      → has a xs ≡ false
      → has a ss ≡ false
      → is_io_blocked (w.tcb.state a) ≡ false
      → has a all_ready ≡ false
  unpolled a h k s =
      let out : has a by_report ≡ false = elim (Bool-cases (has a by_report)) [
        | inl bad ↦ absurd (ground (arith, s, has-reported w.tcb.state a (reports w) bad))
        | inr good ↦ good
      ] in
      let not_due : has a by_clock ≡ false = elim (Bool-cases (has a by_clock)) [
        | inl bad ↦ absurd (ground (arith, k, has-due poll_time w.tcb.sleep_until_ns a ss bad))
        | inr good ↦ good
      ] in
      ground
        (arith, h, out, not_due, has-append a (xs ++ by_report) by_clock, has-append a xs by_report)

pub polled-IsSystem :
    {w : World} {p : Ptr} {xs ss gs : List Ptr} (v : IsSystem w p xs ss gs)
    (env : All (IsFairReport w ss) (reports w))
    → IsSystem (after_poll v.rest env) p (all_ready v.rest env) (still_asleep v.rest env) gs
polled-IsSystem {w} {p} {xs} {ss} v env =
    let out : has p (all_ready v.rest env) ≡ false =
      unpolled v.rest env p v.unready v.awake (rw v.running_state refl) in
    let same : has p (by_report v.rest env ++ by_clock v.rest env) ≡ false = ground (
      arith,
      out,
      has-append p (xs ++ by_report v.rest env) (by_clock v.rest env),
      has-append p xs (by_report v.rest env),
      has-append p (by_report v.rest env) (by_clock v.rest env),
    ) in
    record {
      current = v.current;
      alive = v.alive;
      running_state = poll_states v.rest env p ∙ rw same v.running_state;
      unready = out;
      awake = elim (Bool-cases (has p (still_asleep v.rest env))) [
        | inl bad ↦ absurd (
            ground
              (arith, has-asleep (poll_time v.rest env) w.tcb.sleep_until_ns p ss bad, v.awake))
        | inr good ↦ good
      ];
      rest = polled-IsResting v.rest env;
    }
