-- ===== src/System/Sweep.antt =====
-- src/uthread.c: the collection of finished threads keeps the state well formed.
use user_thread_scheduler.Common.{
  ℕ, ◌≡◌, refl, ◌∙◌, inl, inr, Bool, true, false, List, arith, All, All-map,
}
use user_thread_scheduler.GlobalList.Collect.{collected, is_garbage, survivors}
use user_thread_scheduler.GlobalList.Garbage.{Swept, gc_finished_threads-Swept}
use user_thread_scheduler.Machine.{Ptr, World, access}
use user_thread_scheduler.System.{IsResting, IsSystem, IsFairReport}
use user_thread_scheduler.System.Frames.{IsSleeping-live, spared, length-survivors}

-- The mask of SIGALRM and the lock of the global list play no part.
pub masked-IsResting :
    {w : World} {xs ss gs : List Ptr} (b : Bool) (k : ℕ)
    → IsResting w xs ss gs
    → IsResting (record w { alarm_blocked = b; global_list_lock = k }) xs ss gs
masked-IsResting b k v = record {
  lists = record {
    ready = record { queue = v.lists.ready.queue; count = v.lists.ready.count };
    chain = v.lists.chain;
    distinct = v.lists.distinct;
    apart = v.lists.apart;
  };
  ready_states = v.ready_states;
  sleep_states = v.sleep_states;
  global = record { links = v.global.links; distinct = v.global.distinct };
  few = v.few;
  few_asleep = v.few_asleep;
  free_lock = v.free_lock;
  policy = v.policy;
  single = v.single;
  epoll = v.epoll;
}

pub alarm-IsResting :
    {w : World} {xs ss gs : List Ptr} (b : Bool)
    → IsResting w xs ss gs
    → IsResting (record w { alarm_blocked = b }) xs ss gs
alarm-IsResting {w} b v = masked-IsResting b w.global_list_lock v

module _ {w : World} {xs ss gs : List Ptr} (v : IsResting w xs ss gs) where
  pub swept : Swept w gs
  swept = gc_finished_threads-Swept v.global v.few

  abbrev pub after_gc : World
  after_gc = collected w swept.changes

  spared_live :
      (a : Ptr)
      → is_garbage w.tcb.state w.current_thread a ≡ false
      → swept.changes.live a ≡ w.live a
  spared_live a h = swept.alive a ∙ rw (spared w.tcb.state w.current_thread a gs h) refl

  pub spared-access :
      (a : Ptr)
      → is_garbage w.tcb.state w.current_thread a ≡ false
      → access w.live a ≡ true
      → access swept.changes.live a ≡ true
  unfolding access
  spared-access a h l = ground (arith, l, spared_live a h)

  pub swept-IsResting : IsResting after_gc xs ss (survivors w.tcb.state w.current_thread gs)
  swept-IsResting = record {
    lists =
        IsSleeping-live swept.changes v.lists (λ a h. spared_live a (rw (v.ready_states a h) refl))
          (λ a h. spared_live a (rw (v.sleep_states a h) refl));
    ready_states = v.ready_states;
    sleep_states = v.sleep_states;
    global = record { links = swept.holds.links; distinct = swept.holds.distinct };
    few = omega (arith, v.few, length-survivors w.tcb.state w.current_thread gs);
    few_asleep = v.few_asleep;
    free_lock = v.free_lock;
    policy = v.policy;
    single = v.single;
    epoll = v.epoll;
  }

  spared-IsFairReport : (a : Ptr) → IsFairReport w ss a → IsFairReport after_gc ss a
  spared-IsFairReport a (inl no_thread) = inl no_thread
  spared-IsFairReport a (inr f) = inr (spared-access a (rw f.1 refl) f.0, f.1, f.2)

  pub swept_reports :
      (ps : List Ptr) → All (IsFairReport w ss) ps → All (IsFairReport after_gc ss) ps
  swept_reports ps l =
      All-map (IsFairReport w ss) (IsFairReport after_gc ss) spared-IsFairReport ps l

pub swept-IsSystem :
    {w : World} {p : Ptr} {xs ss gs : List Ptr} (v : IsSystem w p xs ss gs)
    → IsSystem (after_gc v.rest) p xs ss (survivors w.tcb.state w.current_thread gs)
swept-IsSystem {p} v = record {
  current = v.current;
  alive = spared-access v.rest p (rw v.running_state refl) v.alive;
  running_state = v.running_state;
  unready = v.unready;
  awake = v.awake;
  rest = swept-IsResting v.rest;
}
