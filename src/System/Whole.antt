-- ===== src/System/Whole.antt =====
-- src/uthread.c: `uthread_yield` from its first statement to its context switch.
use mathlib.Core.Path.{subst}
use user_thread_scheduler.Common.{
  ℕ, ◌≤◌, ◌≡◌, refl, sym, ap, ◌∙◌, true, false, List, [], ◌∷◌, ◌++◌, All, has, if◌then◌else◌,
  eq_self,
}
use user_thread_scheduler.GlobalList.{gc_finished_threads}
use user_thread_scheduler.GlobalList.Collect.{garbage, survivors}
use user_thread_scheduler.Io.Events.{reported, reports}
use user_thread_scheduler.Machine.{Ptr, in_yield, World, ok, Cmd, pure, ◌>>◌}
use user_thread_scheduler.Processors.{mn_yield}
use user_thread_scheduler.Signals.{block_signals, blocked_signals, block_signals-ok}
use user_thread_scheduler.Sleep.{due, asleep}
use user_thread_scheduler.Switch.{to_scheduler, switches, poll, reschedule, uthread_yield}
use user_thread_scheduler.Switch.Turn.{requeued, after, reschedule-ok}
use user_thread_scheduler.System.{IsResting, IsSystem, IsFairReport}
use user_thread_scheduler.System.Polling.{
  io_checked, poll_time, all_ready, poll-ok, polled-IsSystem,
}
use user_thread_scheduler.System.Sweep.{alarm-IsResting, swept, swept_reports, swept-IsSystem}
use user_thread_scheduler.System.Turns.{
  IsSystem-IsTurnOf, requeued-IsResting, dequeued-IsChosen, started-IsSystem,
}
use user_thread_scheduler.Trace.{time_ns}

pub uthread_yield-single :
    (user : ℕ → Cmd Ptr) (w : World)
    → w.mn_mode ≡ false
    → uthread_yield user w ≡ (gc_finished_threads >> (poll >> reschedule user)) (blocked_signals w)
unfolding uthread_yield
uthread_yield-single user w h =
    subst
      (λ b.
        (if b
            then mn_yield >> pure to_scheduler
            else block_signals >> (gc_finished_threads >> (poll >> reschedule user)))
          w
        ≡ (gc_finished_threads >> (poll >> reschedule user)) (blocked_signals w))
      (sym h) (rw (block_signals-ok w h))

pub blocked-IsSystem :
    {w : World} {p : Ptr} {xs ss gs : List Ptr}
    → IsSystem w p xs ss gs
    → IsSystem (blocked_signals w) p xs ss gs
blocked-IsSystem v = record {
  current = v.current;
  alive = v.alive;
  running_state = v.running_state;
  unready = v.unready;
  awake = v.awake;
  rest = alarm-IsResting true v.rest;
}

-- The threads that are ready behind the polling at time `now`, then the one that yields.
abbrev pub next_turns : World → ℕ → Ptr → List Ptr → List Ptr → List Ptr
next_turns w now p xs ss =
    xs ++ reported w.tcb.state (reports w) ++ due now w.tcb.sleep_until_ns ss ++ p ∷ []

pub record YieldedTo (user : ℕ → Cmd Ptr) (w : World) (p : Ptr) (xs ss gs : List Ptr) : Type 0 where
  pub now : ℕ
  pub reading : ℕ
  pub clock : now ≡ time_ns (w.os.clock reading)
  pub later : w.os.ticks ≤ reading
  pub next : Ptr
  pub others : List Ptr
  pub order : next_turns w now p xs ss ≡ next ∷ others
  pub end : World
  pub returns : uthread_yield user w ≡ ok (switches next) end
  pub holds :
      IsSystem end next others
        (asleep now w.tcb.sleep_until_ns ss)
        (survivors w.tcb.state w.current_thread gs)
  pub saved : end.tcb.context p ≡ in_yield
  pub freed :
      (a : Ptr)
      → end.live a ≡ (if has a (garbage w.tcb.state w.current_thread gs) then false else w.live a)

snoc-cons : (xs : List Ptr) (p : Ptr) → (z : Ptr) × (zs : List Ptr) × (xs ++ p ∷ [] ≡ z ∷ zs)
snoc-cons [] p = (p, [], refl)
snoc-cons (x ∷ xs) p = (x, xs ++ p ∷ [], refl)

rescheduled-IsSystem :
    (user : ℕ → Cmd Ptr) {w : World} {p : Ptr} {xs ss gs : List Ptr} (v : IsSystem w p xs ss gs)
    (z : Ptr) (zs : List Ptr)
    → xs ++ p ∷ [] ≡ z ∷ zs
    → IsSystem (after user (IsSystem-IsTurnOf v) z) z zs ss gs
rescheduled-IsSystem user {w} {p} {ss} {gs} v z zs e =
    started-IsSystem p in_yield
      (dequeued-IsChosen (subst (λ l. IsResting (requeued w p) l ss gs) e (requeued-IsResting v)))

-- In a well-formed state of single-core mode with no scheduler function, with reports for no thread
-- or for live threads that have not finished and are not in the sleep list, `uthread_yield` returns
-- to the thread whose turn it is: the first of the ready threads, then of the reported ones that
-- wait, then of the sleepers whose time has come at a reading of the clock, then the caller.
-- The finished threads are freed, the context of the caller is saved, and the state is well formed
-- again, with the others in this order in the ready queue.
pub uthread_yield-YieldedTo :
    (user : ℕ → Cmd Ptr) {w : World} {p : Ptr} {xs ss gs : List Ptr}
    → IsSystem w p xs ss gs
    → All (IsFairReport w ss) (reports w)
    → YieldedTo user w p xs ss gs
uthread_yield-YieldedTo user {w} {p} {xs} {ss} {gs} v env =
    let u = blocked-IsSystem v in
    let swept_env = swept_reports u.rest (reports w) env in
    let r = (swept-IsSystem u).rest in
    let q = polled-IsSystem (swept-IsSystem u) swept_env in
    let c = snoc-cons (all_ready r swept_env) p in
    record {
      now = poll_time r swept_env;
      reading = (io_checked r swept_env).changes.os.ticks;
      clock =
          ap (λ k. time_ns (k (io_checked r swept_env).changes.os.ticks))
            (io_checked r swept_env).later.clock;
      later = (io_checked r swept_env).later.ticks;
      next = c.0;
      others = c.1;
      order = c.2;
      end = after user (IsSystem-IsTurnOf q) c.0;
      returns =
          uthread_yield-single user w v.rest.single
          ∙ rw (
            (swept u.rest).returns,
            poll-ok r swept_env,
            reschedule-ok user (IsSystem-IsTurnOf q) c.0 c.1 c.2,
          );
      holds = rescheduled-IsSystem user q c.0 c.1 c.2;
      saved = rw (eq_self p) refl;
      freed = (swept u.rest).alive;
    }
