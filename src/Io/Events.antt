-- ===== src/Io/Events.antt =====
-- src/uthread.c: `check_io_events` makes the waiting threads that are reported ready.
use mathlib.Core.List.{map}
use user_thread_scheduler.Common.{
  ℕ, ◌+◌, ◌≡◌, refl, sym, ap, ◌∙◌, ◌⊎◌, inl, inr, Bool, true, false, not, ◌&&◌, ◌||◌, List, [], ◌∷◌,
  ◌++◌, append-nil, append_assoc, arith, take, All, has, has-append, ◌==◌, if◌then◌else◌,
  Bool-cases, update, slt,
}
use user_thread_scheduler.Io.{
  max_epoll_events, epoll_wait, is_io_blocked, io_wake, io_event, io_loop, check_io_events,
}
use user_thread_scheduler.Io.Wake.{
  IoChanges, io_woken, IsPolling, deleted, one_io_woken, io_wake-ok, io_wake-IsPolling,
  io_wake-outside,
}
use user_thread_scheduler.Machine.{
  Ptr, null, ThreadState, ready, SysCall, epoll_ctl_del, World, ok, access, access-ne-null,
}
use user_thread_scheduler.Sleep.Wake.{woken}
use user_thread_scheduler.Trace.{clocked}
use user_thread_scheduler.Trace.Bounds.{
  clocked_calls, Logs-trans, Later, Later-refl, Later-trans, clocked-Later,
}

abbrev pub is_woken : (Ptr → ThreadState) → Ptr → Bool
is_woken state p = not (p == null) && is_io_blocked (state p)

-- The threads that the reports `ps` wake: a second report of a thread finds it ready.
abbrev pub reported : (Ptr → ThreadState) → List Ptr → List Ptr
reported state [] = []
reported state (p ∷ ps) =
    let others = reported (update state p ready) ps in
    let same = reported state ps in if is_woken state p then p ∷ others else same

abbrev pub deletions : (Ptr → ℕ) → List Ptr → List SysCall
deletions fd ps = map (λ p. epoll_ctl_del (fd p)) ps

-- A report is for a live thread or carries no thread.
abbrev pub IsReport : (Ptr → Bool) → Ptr → Type 0
IsReport live p = ((p == null) ≡ true) ⊎ (access live p ≡ true)

-- The loop over the reports runs from `w` to `io_woken w changes`.
pub record Polled (w : World) (xs ps : List Ptr) : Type 0 where
  pub changes : IoChanges
  pub returns : io_loop ps w ≡ ok tt (io_woken w changes)
  pub holds : IsPolling (io_woken w changes) (xs ++ reported w.tcb.state ps)
  pub states :
      (a : Ptr)
      → changes.state a ≡ (if has a (reported w.tcb.state ps) then ready else w.tcb.state a)
  pub calls : changes.os.calls ≡ w.os.calls ++ deletions w.tcb.io_fd (reported w.tcb.state ps)
  pub outside :
      (a : Ptr)
      → has a xs ≡ false
      → has a (reported w.tcb.state ps) ≡ false
      → changes.next a ≡ w.tcb.next a
  pub later : Later w.os changes.os

abbrev unchanged : World → IoChanges
unchanged w = record {
  next = w.tcb.next;
  state = w.tcb.state;
  queue = w.ready;
  count = w.ready_count;
  trace = w.trace;
  os = w.os;
}

io_event-woken :
    (w : World) (p : Ptr)
    → is_woken w.tcb.state p ≡ true
    → access w.live p ≡ true
    → io_event p w ≡ io_wake p w
unfolding io_event
io_event-woken w p h l =
    let some_thread : (p == null) ≡ false = access-ne-null w.live p l in
    let waits : is_io_blocked (w.tcb.state p) ≡ true = ground arith in rw (some_thread, l, waits)

io_event-same :
    (w : World) (p : Ptr)
    → is_woken w.tcb.state p ≡ false
    → IsReport w.live p
    → io_event p w ≡ ok tt w
unfolding io_event
io_event-same w p h (inl none_there) = rw none_there
io_event-same w p h (inr l) =
    let some_thread : (p == null) ≡ false = access-ne-null w.live p l in
    let waits : is_io_blocked (w.tcb.state p) ≡ false = ground arith in rw (some_thread, l, waits)

report-access :
    (live : Ptr → Bool) (state : Ptr → ThreadState) (p : Ptr)
    → is_woken state p ≡ true
    → IsReport live p
    → access live p ≡ true
report-access live state p h (inl none_there) = absurd (ground arith)
report-access live state p h (inr l) = l

pub either_ready :
    (b c : Bool) (s : ThreadState)
    → (if b then ready else if c then ready else s) ≡ (if c || b then ready else s)
either_ready true true s = refl
either_ready true false s = refl
either_ready false c s = ground arith

deleted-Later : (w : World) (p : Ptr) → Later w.os (clocked w.trace (deleted w p))
deleted-Later w p =
    let r = clocked-Later w.trace (deleted w p) in
    record {
      clock = r.clock;
      events = r.events;
      ticks = r.ticks;
      log = Logs-trans (record { more = epoll_ctl_del (w.tcb.io_fd p) ∷ []; added = refl }) r.log;
    }

io_loop-Polled :
    (w : World) (xs ps : List Ptr) → IsPolling w xs → All (IsReport w.live) ps → Polled w xs ps
unfolding io_loop
io_loop-Polled w xs [] v l = record {
  changes = unchanged w;
  returns = refl;
  holds = rw (append-nil xs) (record {
    ready = record { queue = v.ready.queue; count = v.ready.count };
    none_waits = v.none_waits;
  });
  states = λ a. refl;
  calls = sym (append-nil w.os.calls);
  outside = λ a h k. refl;
  later = Later-refl w.os;
}
io_loop-Polled w xs (p ∷ ps) v l = elim (Bool-cases (is_woken w.tcb.state p)) [
  | inl woken ↦
      let alive : access w.live p ≡ true = report-access w.live w.tcb.state p woken l.0 in
      let waits : is_io_blocked (w.tcb.state p) ≡ true = ground arith in
      let u = io_woken w (one_io_woken w p) in
      let r = io_loop-Polled u (xs ++ p ∷ []) ps (io_wake-IsPolling p v alive waits) l.1 in
      record {
        changes = r.changes;
        returns = rw (io_event-woken w p woken alive, io_wake-ok p v alive waits, r.returns);
        holds = rw woken (rw (← append_assoc xs (p ∷ []) (reported u.tcb.state ps)) r.holds);
        states = λ a.
            rw woken (
              r.states a ∙ either_ready (has a (reported u.tcb.state ps)) (p == a) (w.tcb.state a));
        calls = rw woken (
            r.calls
            ∙ ap (λ c. c ++ deletions w.tcb.io_fd (reported u.tcb.state ps))
                (clocked_calls w.trace (deleted w p))
            ∙ append_assoc w.os.calls (epoll_ctl_del (w.tcb.io_fd p) ∷ [])
                (deletions w.tcb.io_fd (reported u.tcb.state ps)));
        outside = rw woken (λ a h k.
            let other : (p == a) ≡ false = ground (arith, k) in
            let rest : has a (reported u.tcb.state ps) ≡ false = ground (arith, k) in
            r.outside a (ground (arith, has-append a xs (p ∷ []), h, other)) rest
            ∙ io_wake-outside p v alive waits a h other);
        later = Later-trans (deleted-Later w p) r.later;
      }
  | inr same ↦
      let r = io_loop-Polled w xs ps v l.1 in
      record {
        changes = r.changes;
        returns = rw (io_event-same w p same l.0, r.returns);
        holds = rw same r.holds;
        states = rw same r.states;
        calls = rw same r.calls;
        outside = rw same r.outside;
        later = r.later;
      }
]

-- The reports of the next `epoll_wait`.
abbrev pub reports : World → List Ptr
reports w = take max_epoll_events (w.os.events w.os.polls)

abbrev pub asked : World → World
asked w = record w { os = record w.os { polls = w.os.polls + 1 } }

pub record Answered (w : World) (xs : List Ptr) : Type 0 where
  pub changes : IoChanges
  pub returns : check_io_events w ≡ ok tt (io_woken w changes)
  pub holds : IsPolling (io_woken w changes) (xs ++ reported w.tcb.state (reports w))
  pub states :
      (a : Ptr)
      → changes.state a
        ≡ (if has a (reported w.tcb.state (reports w)) then ready else w.tcb.state a)
  pub calls :
      changes.os.calls ≡ w.os.calls ++ deletions w.tcb.io_fd (reported w.tcb.state (reports w))
  pub outside :
      (a : Ptr)
      → has a xs ≡ false
      → has a (reported w.tcb.state (reports w)) ≡ false
      → changes.next a ≡ w.tcb.next a
  pub later : Later w.os changes.os

-- With a valid epoll descriptor, a well-formed ready queue in which no thread waits for I/O, and
-- reports for live threads or for none, `check_io_events` returns; each thread that is reported
-- and waits for I/O becomes ready once, in the order of the first reports, behind the ready
-- threads, and its descriptor is deleted; no other thread changes its state.
pub check_io_events-Answered :
    (w : World) (xs : List Ptr)
    → IsPolling w xs
    → slt w.epoll_fd 0 ≡ false
    → All (IsReport w.live) (reports w)
    → Answered w xs
unfolding check_io_events epoll_wait
check_io_events-Answered w xs v valid l =
    let u : IsPolling (asked w) xs = record {
      ready = record { queue = v.ready.queue; count = v.ready.count };
      none_waits = v.none_waits;
    } in
    let r = io_loop-Polled (asked w) xs (reports w) u l in
    record {
      changes = r.changes;
      returns = rw (valid, r.returns);
      holds = r.holds;
      states = r.states;
      calls = r.calls;
      outside = r.outside;
      later = record {
        clock = r.later.clock;
        events = r.later.events;
        ticks = r.later.ticks;
        log = r.later.log;
      };
    }
