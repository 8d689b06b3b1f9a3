-- ===== src/System/Entering.antt =====
-- src/uthread.c: a thread that enters a wait queue, up to the context switch of its `uthread_yield`.
use mathlib.Core.Path.{subst}
use user_thread_scheduler.Common.{
  ℕ, ◌+◌, ◌<◌, ◌≡◌, refl, sym, inl, inr, true, false, List, [], ◌∷◌, ◌++◌, arith, All, All-map, has,
  ◌==◌, ==_iff, Bool-cases, update, eq_self,
}
use user_thread_scheduler.GlobalList.Collect.{survivors}
use user_thread_scheduler.Machine.{Ptr, null, blocked, in_yield, Ends, World, Cmd}
use user_thread_scheduler.Machine.Apart.{Chain-linked}
use user_thread_scheduler.Machine.Chain.{Chain-update}
use user_thread_scheduler.Machine.Queue.{pushed}
use user_thread_scheduler.Signals.{blocked_signals}
use user_thread_scheduler.Switch.{uthread_yield}
use user_thread_scheduler.Sync.Exclusion.{IsWaiting-alarm}
use user_thread_scheduler.Sync.Fifo.{queued, queued-IsWaiting}
use user_thread_scheduler.Sync.Serve.{IsWaiting}
use user_thread_scheduler.System.{IsSystem, IsFairReport}
use user_thread_scheduler.System.Asleep.{uthread_yield-Resumed}
use user_thread_scheduler.System.Parked.{IsParked, Resumed, Resumed-before}
use user_thread_scheduler.System.Waiting.{IsSleeper, IsAwaited, View, view}
use user_thread_scheduler.Trace.Bounds.{Later, clocked-Later}

-- What the choice of a poll depends on behind it.
abbrev pub waiting_view : World → View
waiting_view w = record {
  state = update w.tcb.state w.current_thread blocked;
  until = w.tcb.sleep_until_ns;
  clock = w.os.clock;
  events = w.os.events;
}

-- The current thread is in no list; the wait queue has no thread of the sleep list.
pub record IsEntering (w : World) (q : Ends) (xs ss gs ts : List Ptr) : Type 0 where
  pub formed : IsSystem w w.current_thread xs ss gs
  pub waiters : IsWaiting w q xs ts
  pub new : has w.current_thread ts ≡ false
  pub apart : (a : Ptr) → has a ss ≡ true → has a ts ≡ false

module _ {w : World} {q : Ends} {xs ss gs ts : List Ptr} (v : IsEntering w q xs ss gs ts) where
  abbrev pub in_queue : World
  in_queue = queued (blocked_signals w) q

  pub entered_queues :
      IsWaiting in_queue (pushed q w.current_thread) xs (ts ++ w.current_thread ∷ [])
  entered_queues =
      queued-IsWaiting (IsWaiting-alarm true v.waiters) v.formed.alive v.new v.formed.unready

  pub queued-IsParked : IsParked in_queue w.current_thread xs ss gs
  queued-IsParked = record {
    current = refl;
    alive = v.formed.alive;
    stopped = rw (eq_self w.current_thread) refl;
    parked = rw (eq_self w.current_thread) refl;
    rest = record {
      lists = record {
        ready = entered_queues.ready;
        chain =
            Chain-linked _ _ w.current_thread ss v.waiters.waiters
              (Chain-update w.live w.tcb.next w.current_thread null w.sleep_list_head ss
                v.formed.rest.lists.chain v.formed.awake)
              v.apart;
        distinct = v.formed.rest.lists.distinct;
        apart = v.formed.rest.lists.apart;
      };
      ready_states = λ a h.
          let other : (w.current_thread == a) ≡ false =
            ground (arith, v.formed.unready, h, ==_iff w.current_thread a) in
          rw other (v.formed.rest.ready_states a h);
      sleep_states = λ a h.
          let other : (w.current_thread == a) ≡ false =
            ground (arith, v.formed.awake, h, ==_iff w.current_thread a) in
          rw other (v.formed.rest.sleep_states a h);
      global = record {
        links = v.formed.rest.global.links;
        distinct = v.formed.rest.global.distinct;
      };
      few = v.formed.rest.few;
      few_asleep = v.formed.rest.few_asleep;
      free_lock = v.formed.rest.free_lock;
      policy = v.formed.rest.policy;
      single = v.formed.rest.single;
      epoll = v.formed.rest.epoll;
    };
  }

  queued-Later : Later w.os in_queue.os
  queued-Later =
      let r = clocked-Later w.trace w.os in
      record { clock = r.clock; events = r.events; ticks = r.ticks; log = r.log }

  queued-view : view in_queue ≡ waiting_view w
  queued-view = λ i. record {
    state = update w.tcb.state w.current_thread blocked;
    until = w.tcb.sleep_until_ns;
    clock = queued-Later.clock i;
    events = queued-Later.events i;
  }

  queued-IsFairReport : (a : Ptr) → IsFairReport w ss a → IsFairReport in_queue ss a
  queued-IsFairReport a (inl no_thread) = inl no_thread
  queued-IsFairReport a (inr f) = elim (Bool-cases (w.current_thread == a)) [
    | inl same ↦ inr (f.0, rw same refl, f.2)
    | inr other ↦ inr (f.0, rw other f.1, f.2)
  ]

  queued-IsAwaited :
      {limit : ℕ}
      → ((j : ℕ) → All (IsFairReport w ss) (w.os.events j))
      → (xs ≡ [] → (t : Ptr) × IsSleeper w ss gs t limit)
      → IsAwaited in_queue xs ss gs limit
  queued-IsAwaited fair wakes = record {
    fair = λ j.
        subst (λ e. All (IsFairReport in_queue ss) (e j)) (sym queued-Later.events)
          (All-map (IsFairReport w ss) (IsFairReport in_queue ss) queued-IsFairReport
            (w.os.events j) (fair j));
    wakes = λ e.
        let (t, s) = wakes e in
        (
          t,
          record {
            sleeps = s.sleeps;
            listed = s.listed;
            comes = λ n h. rw queued-Later.clock (s.comes n h);
          },
        );
  }

  pub queued-Resumed :
      (user : ℕ → Cmd Ptr)
      → ((j : ℕ) → All (IsFairReport w ss) (w.os.events j))
      → (limit : ℕ) → (xs ≡ [] → (t : Ptr) × IsSleeper w ss gs t limit)
      → limit < w.os.ticks + w.rounds
      → Resumed
          (uthread_yield user in_queue)
          w.current_thread
          in_yield
          (waiting_view w)
          w.os
          xs
          ss
          (survivors (update w.tcb.state w.current_thread blocked) w.current_thread gs)
  queued-Resumed user fair limit wakes more = Resumed-before refl (sym queued-view) queued-Later (
      uthread_yield-Resumed user queued-IsParked (queued-IsAwaited fair wakes)
        (omega (arith, queued-Later.ticks, more)))
