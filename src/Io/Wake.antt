-- ===== src/Io/Wake.antt =====
-- src/uthread.c: `check_io_events` makes one waiting thread ready.
use user_thread_scheduler.Common.{
  ℕ, ◌≡◌, refl, ◌∙◌, true, false, List, [], ◌∷◌, ◌++◌, arith, has, has-append, ◌==◌, ==_iff, update,
  inc32,
}
use user_thread_scheduler.Io.{is_io_blocked, io_wake}
use user_thread_scheduler.Machine.{
  Ptr, null, ThreadState, ready, trace_io_unblock, Trace, epoll_ctl_del, Os, Ends, World, ok,
  access,
}
use user_thread_scheduler.Machine.Apart.{linked-outside}
use user_thread_scheduler.Machine.Queue.{linked, pushed, IsQueue-TailIsOk}
use user_thread_scheduler.ReadyQueue.{IsReadyQueue, enqueue-ok, enqueue-IsReadyQueue}
use user_thread_scheduler.Trace.{recorded, clocked, traced, trace_emit-ok}

-- What the wake-ups may change.
pub record IoChanges : Type 0 where
  pub next : Ptr → Ptr
  pub state : Ptr → ThreadState
  pub queue : Ends
  pub count : ℕ
  pub trace : Trace
  pub os : Os

abbrev pub io_woken : World → IoChanges → World
io_woken w d = record w {
  tcb = record w.tcb { next = d.next; state = d.state };
  ready = d.queue;
  ready_count = d.count;
  trace = d.trace;
  os = d.os;
}

-- The ready queue holds `xs`, and no thread in it waits for I/O.
pub record IsPolling (w : World) (xs : List Ptr) : Type 0 where
  pub ready : IsReadyQueue w xs
  pub none_waits : (a : Ptr) → has a xs ≡ true → is_io_blocked (w.tcb.state a) ≡ false

abbrev pub deleted : World → Ptr → Os
deleted w p = record w.os { calls = w.os.calls ++ epoll_ctl_del (w.tcb.io_fd p) ∷ [] }

abbrev pub one_io_woken : World → Ptr → IoChanges
one_io_woken w p = record {
  next = linked (update w.tcb.next p null) w.ready p;
  state = update w.tcb.state p ready;
  queue = pushed w.ready p;
  count = inc32 w.ready_count;
  trace = recorded (w.tcb.thread_id p) trace_io_unblock 0 w.trace (deleted w p);
  os = clocked w.trace (deleted w p);
}

module _ {w : World} {xs : List Ptr} (p : Ptr) (v : IsPolling w xs) (alive : access w.live p ≡ true)
    (waits : is_io_blocked (w.tcb.state p) ≡ true) where
  abbrev at_trace : World
  at_trace = record w {
    tcb = record w.tcb { state = update w.tcb.state p ready };
    os = deleted w p;
  }

  pub io_wake-ok : io_wake p w ≡ ok tt (io_woken w (one_io_woken w p))
  unfolding io_wake
  io_wake-ok = rw (
    alive,
    alive,
    alive,
    trace_emit-ok (w.tcb.thread_id p) trace_io_unblock 0 at_trace,
    enqueue-ok p (traced (w.tcb.thread_id p) trace_io_unblock 0 at_trace)
        (IsQueue-TailIsOk v.ready.queue) alive,
  )

  not_ready : has p xs ≡ false
  not_ready = ground (arith, v.none_waits p)

  pub io_wake-IsPolling : IsPolling (io_woken w (one_io_woken w p)) (xs ++ p ∷ [])
  io_wake-IsPolling =
      let r = enqueue-IsReadyQueue p v.ready alive not_ready in
      record {
        ready = record { queue = r.queue; count = r.count };
        none_waits = λ a h. ground (arith, v.none_waits a, has-append a xs (p ∷ []), ==_iff p a);
      }

  pub io_wake-outside :
      (a : Ptr) → has a xs ≡ false → (p == a) ≡ false → (one_io_woken w p).next a ≡ w.tcb.next a
  io_wake-outside a h other =
      linked-outside (update w.tcb.next p null) p a v.ready.queue h ∙ rw other refl
