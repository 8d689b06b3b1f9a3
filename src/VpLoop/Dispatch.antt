-- ===== src/VpLoop/Dispatch.antt =====
-- src/uthread.c: a round of `vp_loop` with a thread in the run queue.
use user_thread_scheduler.Common.{
  ℕ, ◌≡◌, refl, true, false, List, ◌∷◌, ◌==◌, if◌then◌else◌, update, eq_self,
}
use user_thread_scheduler.Machine.{
  Ptr, null, running, trace_run, VirtualProcessor, World, ok, access, access-ne-null,
}
use user_thread_scheduler.Processors.{set_at}
use user_thread_scheduler.Processors.RunQueue.{IsRunQueue, with_vps, Dequeued, vp_dequeue-cons}
use user_thread_scheduler.Trace.{traced, trace_emit-ok}
use user_thread_scheduler.VpLoop.{runs, find_thread, run_thread, vp_round}

abbrev set_current : Ptr → VirtualProcessor → VirtualProcessor
set_current x v = record v { current = x }

-- The world once processor `i` runs `x`.
abbrev running_on : World → ℕ → Ptr → World
running_on w i x = traced (w.tcb.thread_id x) trace_run (w.vps i).vp_id (record w {
  vps = set_at i (set_current x) w.vps;
  current_thread = x;
  tcb = record w.tcb {
    state = update w.tcb.state x running;
    vp_id = update w.tcb.vp_id x (w.vps i).vp_id;
  };
})

run_thread-ok :
    (w : World) (i : ℕ) (x : Ptr)
    → access w.live x ≡ true
    → run_thread i x w ≡ ok (runs x) (running_on w i x)
unfolding run_thread
run_thread-ok w i x l = rw (
  l,
  eq_self i,
  l,
  l,
  trace_emit-ok (w.tcb.thread_id x) trace_run (w.vps i).vp_id (record w {
    vps = set_at i (set_current x) w.vps;
    current_thread = x;
    tcb = record w.tcb {
      state = update w.tcb.state x running;
      vp_id = update w.tcb.vp_id x (w.vps i).vp_id;
    };
  }),
)

-- Processor `i` runs the first thread of its queue, `x`, and `xs` wait.
pub record Dispatched (w : World) (i : ℕ) (x : Ptr) (xs : List Ptr) : Type 0 where
  pub end : World
  pub returns : vp_round i w ≡ ok (runs x) end
  pub holds : IsRunQueue end i xs
  pub current : (end.current_thread ≡ x) × ((end.vps i).current ≡ x)
  pub states : (a : Ptr) → end.tcb.state a ≡ (if x == a then running else w.tcb.state a)
  pub owner : end.tcb.vp_id x ≡ (end.vps i).vp_id
  pub others : (j : ℕ) → (i == j) ≡ false → end.vps j ≡ w.vps j

-- A round of `vp_loop` on a processor that is on and whose well-formed run queue is not empty runs
-- the first thread of that queue, without a look at the global queue or at other processors: the
-- thread becomes the current one, is running and belongs to the processor; the other threads keep
-- their states and the other processors are untouched.
pub vp_round-Dispatched :
    (w : World) (i : ℕ) (x : Ptr) (xs : List Ptr)
    → IsRunQueue w i (x ∷ xs)
    → (w.vps i).running ≡ true
    → Dispatched w i x xs
unfolding vp_round find_thread
vp_round-Dispatched w i x xs v on = record {
  end = running_on u i x;
  returns = rw (on, t.returns, some_thread, some_thread, run_thread-ok u i x alive);
  holds = record {
    queue = rw (eq_self i) t.holds.queue;
    count = rw (eq_self i) t.holds.count;
    small = t.holds.small;
    free = rw (eq_self i) t.holds.free;
  };
  current = (refl, rw (eq_self i) refl);
  states = λ a. refl;
  owner = rw (eq_self i, eq_self x) refl;
  others = λ j h. rw h (t.others j h);
}
  where
    t : Dequeued w i x xs
    t = vp_dequeue-cons i v

    u : World
    u = with_vps w (update w.tcb.next x null) w.tcb.vp_id t.vps

    alive : access w.live x ≡ true
    alive = v.queue.chain.1

    some_thread : (x == null) ≡ false
    some_thread = access-ne-null w.live x alive
