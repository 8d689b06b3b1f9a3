-- ===== src/System/Reading.antt =====
-- src/uthread.c: `uthread_read` and `uthread_write` where the descriptor is not ready.
use user_thread_scheduler.Blocking.{
  would_block, IoOutcome, waits, epollet, wait_for_io, with_nonblock, set_nonblocking, epollin,
  epollout, attempt, uthread_read, uthread_write,
}
use user_thread_scheduler.Common.{
  ℕ, ◌+◌, ◌<◌, ◌≡◌, refl, sym, ap, ◌∙◌, inl, inr, true, List, [], ◌∷◌, ◌++◌, append-nil, arith,
  take, All, has, if◌then◌else◌, Bool-cases, update, slt,
}
use user_thread_scheduler.GlobalList.Collect.{survivors}
use user_thread_scheduler.Io.{max_epoll_events}
use user_thread_scheduler.Machine.{
  Ptr, io_blocked, in_yield, SysCall, epoll_ctl_add, fcntl_setfl, Os, World, ok, Cmd, pure,
  and_then, ◌>>◌,
}
use user_thread_scheduler.Switch.{switches}
use user_thread_scheduler.System.{IsSystem, IsFairReport}
use user_thread_scheduler.System.Asleep.{uthread_yield-Resumed}
use user_thread_scheduler.System.Parked.{Resumed, Resumed-before}
use user_thread_scheduler.System.Registered.{
  io_view, wait_for_io-ok, io-IsParked, registered-Later, io-view, io-IsAwaited, Resumed-reported,
}
use user_thread_scheduler.System.Waiting.{IsSleeper}

module _ (fd flags : ℕ) where
  -- The call by which the descriptor is made non-blocking, none where its flags are not known.
  abbrev pub setfl_calls : List SysCall
  setfl_calls = if slt flags 0 then [] else fcntl_setfl fd (with_nonblock flags) ∷ []

  abbrev pub nonblocking : World → World
  nonblocking w = record w { os = record w.os { calls = w.os.calls ++ setfl_calls } }

  -- The calls up to the registration of the descriptor for `events` and `p`, edge-triggered.
  abbrev pub registered_os : (events : ℕ) (p : Ptr) → Os → Os
  registered_os events p os = record os {
    calls = os.calls ++ setfl_calls ++ epoll_ctl_add fd (events + epollet) p ∷ [];
  }

  set_nonblocking-ok :
      (set_result : ℕ) {A : Type 0} (next : Cmd A) (w : World)
      → (set_nonblocking fd flags set_result >> next) w ≡ next (nonblocking w)
  unfolding set_nonblocking
  set_nonblocking-ok set_result next w = elim (Bool-cases (slt flags 0)) [
    | inl unknown ↦
        rw unknown (
          ap (λ c. next (record w { os = record w.os { calls = c } }))
            (sym (append-nil w.os.calls)))
    | inr known ↦ rw known refl
  ]

  module _ {w : World} {p : Ptr} {xs ss gs : List Ptr} (v : IsSystem w p xs ss gs) where
    nonblocking-IsSystem : IsSystem (nonblocking w) p xs ss gs
    nonblocking-IsSystem = record {
      current = v.current;
      alive = v.alive;
      running_state = v.running_state;
      unready = v.unready;
      awake = v.awake;
      rest = record {
        lists = record {
          ready = record { queue = v.rest.lists.ready.queue; count = v.rest.lists.ready.count };
          chain = v.rest.lists.chain;
          distinct = v.rest.lists.distinct;
          apart = v.rest.lists.apart;
        };
        ready_states = v.rest.ready_states;
        sleep_states = v.rest.sleep_states;
        global = record { links = v.rest.global.links; distinct = v.rest.global.distinct };
        few = v.rest.few;
        few_asleep = v.rest.few_asleep;
        free_lock = v.rest.free_lock;
        policy = v.rest.policy;
        single = v.rest.single;
        epoll = v.rest.epoll;
      };
    }

    nonblocking_wakes :
        {limit : ℕ}
        → (xs ≡ [] → (q : Ptr) × IsSleeper w ss gs q limit)
        → xs ≡ []
        → (q : Ptr) × IsSleeper (nonblocking w) ss gs q limit
    nonblocking_wakes wakes e =
        let (q, s) = wakes e in
        (q, record { sleeps = s.sleeps; listed = s.listed; comes = s.comes })

-- `call` makes its descriptor non-blocking, registers it and switches to the next thread; its own
-- thread is ready again only where a poll reports it.
pub record Registers (user : ℕ → Cmd Ptr) (call : Cmd IoOutcome) (fd flags events : ℕ) (w : World)
    (p : Ptr) (xs ss gs : List Ptr) : Type 0 where
  pub resumed :
      Resumed
        (wait_for_io user fd events (nonblocking fd flags w))
        p
        in_yield
        (io_view w p fd events)
        (registered_os fd flags events p w.os)
        xs
        ss
        (survivors (update w.tcb.state p io_blocked) w.current_thread gs)
  pub returns : call w ≡ ok (waits (switches resumed.next)) resumed.end
  pub only_reported :
      has p (resumed.next ∷ resumed.others) ≡ true
      → has p (take max_epoll_events (w.os.events resumed.poll)) ≡ true

attempt-Registers :
    (user : ℕ → Cmd Ptr) (fd flags events : ℕ) {w : World} {p : Ptr} {xs ss gs : List Ptr}
    (call : Cmd IoOutcome)
    → call w ≡ attempt user fd events would_block (nonblocking fd flags w)
    → IsSystem w p xs ss gs
    → ((j : ℕ) → All (IsFairReport w ss) (w.os.events j))
    → (limit : ℕ) → (xs ≡ [] → (q : Ptr) × IsSleeper w ss gs q limit)
    → limit < w.os.ticks + w.rounds
    → Registers user call fd flags events w p xs ss gs
unfolding attempt
attempt-Registers user fd flags events {w} {p} call run v fair limit wakes more =
    let u = nonblocking-IsSystem fd flags v in
    let later = registered-Later user fd events u in
    let r =
      uthread_yield-Resumed user (io-IsParked user fd events u)
        (io-IsAwaited user fd events u fair (nonblocking_wakes fd flags v wakes))
        (omega (arith, later.ticks, more)) in
    let back =
      Resumed-before (wait_for_io-ok user fd events u) (sym (io-view user fd events u)) later r in
    record {
      resumed = back;
      returns = run ∙ ap (λ r. and_then r (λ o. pure (waits o))) back.returns;
      only_reported = Resumed-reported user fd events u back;
    }

-- In a well-formed state of single-core mode, where every report of `epoll_wait` is for no thread or
-- for a live one that has not finished and does not sleep, and where, if no thread is ready, a
-- listed thread sleeps whose wake-up time the clock shows from some reading on, with fuel for the
-- readings up to it: a `uthread_read` or `uthread_write` that would block sets O_NONBLOCK (unless
-- the flags of its descriptor cannot be read), registers the descriptor for EPOLLIN or EPOLLOUT with
-- EPOLLET and its thread, in this order and before any other call of the operating system for
-- effect, and ends at the switch to the next thread in a well-formed state; its own thread is ready
-- again only where a poll reports it.
pub uthread_read-write-Registers :
    (user : ℕ → Cmd Ptr) (fd flags set_result : ℕ) {w : World} {p : Ptr} {xs ss gs : List Ptr}
    → IsSystem w p xs ss gs
    → ((j : ℕ) → All (IsFairReport w ss) (w.os.events j))
    → (limit : ℕ) → (xs ≡ [] → (q : Ptr) × IsSleeper w ss gs q limit)
    → limit < w.os.ticks + w.rounds
    → Registers user
        (uthread_read user fd flags set_result would_block)
        fd
        flags
        epollin
        w
        p
        xs
        ss
        gs
      × Registers user
          (uthread_write user fd flags set_result would_block)
          fd
          flags
          epollout
          w
          p
          xs
          ss
          gs
unfolding uthread_read uthread_write
uthread_read-write-Registers user fd flags set_result {w} v fair limit wakes more = (
  attempt-Registers user fd flags epollin _
      (set_nonblocking-ok fd flags set_result (attempt user fd epollin would_block) w) v fair limit
      wakes more,
  attempt-Registers user fd flags epollout _
      (set_nonblocking-ok fd flags set_result (attempt user fd epollout would_block) w) v fair limit
      wakes more,
)
