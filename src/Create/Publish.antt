-- ===== src/Create/Publish.antt =====
-- src/uthread.c: `uthread_create_with_priority` from the block of the new thread on.
use user_thread_scheduler.Common.{
  ℕ, ◌+◌, ◌≡◌, refl, true, false, List, [], ◌∷◌, ◌++◌, has, ◌==◌, update, eq_self, inc32,
}
use user_thread_scheduler.Create.{Grant, fill_in, publish, launch, create_in}
use user_thread_scheduler.GlobalList.{
  stack_size, guard_page_size, global_list_add, alloc_guarded_stack,
}
use user_thread_scheduler.GlobalList.Add.{global_added, global_list_add-ok, added-IsGlobalList}
use user_thread_scheduler.GlobalList.Links.{IsGlobalList}
use user_thread_scheduler.Machine.{Ptr, null, ready, in_wrapper, trace_create, World, ok, access}
use user_thread_scheduler.Machine.Queue.{IsQueue-TailIsOk}
use user_thread_scheduler.ReadyQueue.{IsReadyQueue, enqueued, enqueue-ok, enqueue-IsReadyQueue}
use user_thread_scheduler.Signals.{unblock_signals-ok}
use user_thread_scheduler.Trace.{traced, trace_emit-ok}

abbrev pub initialised : World → Ptr → Ptr → Ptr → ℕ → World
initialised w p fn arg priority = record w {
  tcb = record w.tcb {
    thread_id = update w.tcb.thread_id p w.next_thread_id;
    state = update w.tcb.state p ready;
    fn = update w.tcb.fn p fn;
    arg = update w.tcb.arg p arg;
    priority = update w.tcb.priority p priority;
    creation_order = update w.tcb.creation_order p w.creation_counter;
  };
  next_thread_id = inc32 w.next_thread_id;
  creation_counter = inc32 w.creation_counter;
}

abbrev pub stacked : World → Ptr → Ptr → ℕ → World
stacked w p region size = record w {
  tcb = record w.tcb {
    stack = update w.tcb.stack p region;
    stack_alloc = update w.tcb.stack_alloc p size;
  };
}

abbrev published : World → Ptr → World
published w p = enqueued p (record (global_added w p) { global_list_lock = 0 })

abbrev wrapped : World → Ptr → World
wrapped w p = record w { tcb = record w.tcb { context = update w.tcb.context p in_wrapper } }

abbrev launched : World → Ptr → World
launched w p =
    let u = traced (w.tcb.thread_id p) trace_create 0 (published (wrapped w p) p) in
    record u { alarm_blocked = false }

-- The scheduler in single-core mode: `gs` exist, `xs` of them are ready, and `p` is a new block.
pub record IsNew (w : World) (p : Ptr) (gs xs : List Ptr) : Type 0 where
  pub global : IsGlobalList w gs
  pub queue : IsReadyQueue w xs
  pub alive : access w.live p ≡ true
  pub unlisted : has p gs ≡ false
  pub unready : has p xs ≡ false
  pub free_lock : w.global_list_lock ≡ 0
  pub single : w.mn_mode ≡ false

pub fill_in-ok :
    (w : World) (p fn arg : Ptr) (priority : ℕ)
    → access w.live p ≡ true
    → fill_in p fn arg priority w ≡ ok tt (initialised w p fn arg priority)
unfolding fill_in
fill_in-ok w p fn arg priority l = rw (l, l, l, l, l, l)

module _ {w : World} {p : Ptr} {gs xs : List Ptr} (v : IsNew w p gs xs) where
  abbrev at_lock : World
  at_lock = record w { global_list_lock = 1 }

  publish-ok : publish p w ≡ ok tt (published w p)
  unfolding publish
  publish-ok =
      let open_lock : (w.global_list_lock == 0) ≡ true = rw v.free_lock in
      let added : global_list_add p at_lock ≡ ok tt (global_added at_lock p) =
        global_list_add-ok p (record { links = v.global.links; distinct = v.global.distinct })
          v.alive v.unlisted in
      rw (
        open_lock,
        added,
        v.single,
        enqueue-ok p (record (global_added w p) { global_list_lock = 0; mn_mode = false })
            (IsQueue-TailIsOk v.queue.queue) v.alive,
      )

  published-IsReadyQueue : IsReadyQueue (published w p) (xs ++ p ∷ [])
  published-IsReadyQueue =
      let r = enqueue-IsReadyQueue p v.queue v.alive v.unready in
      record { queue = r.queue; count = r.count }

  published-IsGlobalList : IsGlobalList (published w p) (p ∷ gs)
  published-IsGlobalList =
      let r = added-IsGlobalList p v.global v.alive v.unlisted in
      record { links = r.links; distinct = r.distinct }

module _ {w : World} {p : Ptr} {gs xs : List Ptr} (v : IsNew w p gs xs) where
  wrapped-IsNew : IsNew (wrapped w p) p gs xs
  wrapped-IsNew = record {
    global = record { links = v.global.links; distinct = v.global.distinct };
    queue = record { queue = v.queue.queue; count = v.queue.count };
    alive = v.alive;
    unlisted = v.unlisted;
    unready = v.unready;
    free_lock = v.free_lock;
    single = v.single;
  }

  launch-ok : launch p w ≡ ok (w.tcb.thread_id p) (launched w p)
  unfolding launch
  launch-ok = rw (
    v.alive,
    publish-ok wrapped-IsNew,
    v.alive,
    trace_emit-ok (w.tcb.thread_id p) trace_create 0 (published (wrapped w p) p),
    unblock_signals-ok (traced (w.tcb.thread_id p) trace_create 0 (published (wrapped w p) p))
        v.single,
    v.alive,
  )

-- The world in which a creation in `p` ends.
abbrev pub created : World → Grant → Ptr → Ptr → Ptr → ℕ → World
created w g p fn arg priority =
    launched (stacked (initialised w p fn arg priority) p g.region (stack_size + guard_page_size)) p

module _ {w : World} (g : Grant) {p : Ptr} (fn arg : Ptr) (priority : ℕ) {gs xs : List Ptr}
    (v : IsNew w p gs xs) where
  stacked-IsNew :
      IsNew
        (stacked (initialised w p fn arg priority) p g.region (stack_size + guard_page_size))
        p
        gs
        xs
  stacked-IsNew = record {
    global = record { links = v.global.links; distinct = v.global.distinct };
    queue = record { queue = v.queue.queue; count = v.queue.count };
    alive = v.alive;
    unlisted = v.unlisted;
    unready = v.unready;
    free_lock = v.free_lock;
    single = v.single;
  }

  pub create_in-ok :
      (g.region == null) ≡ false
      → g.protects ≡ true
      → create_in g p fn arg priority w ≡ ok w.next_thread_id (created w g p fn arg priority)
  unfolding create_in alloc_guarded_stack
  create_in-ok mapped protected = rw (
    fill_in-ok w p fn arg priority v.alive,
    mapped,
    protected,
    v.alive,
    v.alive,
    mapped,
    launch-ok stacked-IsNew,
    eq_self p,
  )

  pub created-IsGlobalList : IsGlobalList (created w g p fn arg priority) (p ∷ gs)
  created-IsGlobalList =
      let r = published-IsGlobalList (wrapped-IsNew stacked-IsNew) in
      record { links = r.links; distinct = r.distinct }

  pub created-IsReadyQueue : IsReadyQueue (created w g p fn arg priority) (xs ++ p ∷ [])
  created-IsReadyQueue =
      let r = published-IsReadyQueue (wrapped-IsNew stacked-IsNew) in
      record { queue = r.queue; count = r.count }

-- What a creation in the block `p` with the stack `region` comes to.
pub record Created (w : World) (g : Grant) (p fn arg : Ptr) (priority : ℕ) (gs xs : List Ptr)
    : Type 0 where
  pub end : World
  pub returns : create_in g p fn arg priority w ≡ ok w.next_thread_id end
  pub global : IsGlobalList end (p ∷ gs)
  pub queue : IsReadyQueue end (xs ++ p ∷ [])
  pub id : end.tcb.thread_id p ≡ w.next_thread_id
  pub state : end.tcb.state p ≡ ready
  pub entry : (end.tcb.fn p ≡ fn) × (end.tcb.arg p ≡ arg) × (end.tcb.context p ≡ in_wrapper)
  pub rank : (end.tcb.priority p ≡ priority) × (end.tcb.creation_order p ≡ w.creation_counter)
  pub stack : (end.tcb.stack p ≡ g.region) × (end.tcb.stack_alloc p ≡ stack_size + guard_page_size)
  pub others : (a : Ptr) → (p == a) ≡ false → end.tcb.state a ≡ w.tcb.state a
  pub next_id : end.next_thread_id ≡ inc32 w.next_thread_id

-- In single-core mode, with the lock of the global list free and the lists well formed, where
-- `mmap` gives a region and `mprotect` succeeds, a creation in a new block returns the next
-- thread id; the thread is first in the global list and last in the ready queue, ready, with its
-- function, argument, priority, creation order and guarded stack; the other threads keep their
-- places and states.
pub create_in-Created :
    (w : World) (g : Grant) (p fn arg : Ptr) (priority : ℕ) (gs xs : List Ptr)
    → IsNew w p gs xs
    → (g.region == null) ≡ false
    → g.protects ≡ true
    → Created w g p fn arg priority gs xs
create_in-Created w g p fn arg priority gs xs v mapped protected = record {
  end = created w g p fn arg priority;
  returns = create_in-ok g fn arg priority v mapped protected;
  global = created-IsGlobalList g fn arg priority v;
  queue = created-IsReadyQueue g fn arg priority v;
  id = rw (eq_self p) refl;
  state = rw (eq_self p) refl;
  entry = rw (eq_self p) (refl, refl, refl);
  rank = rw (eq_self p) (refl, refl);
  stack = rw (eq_self p) (refl, refl);
  others = λ a h. rw h refl;
  next_id = refl;
}
