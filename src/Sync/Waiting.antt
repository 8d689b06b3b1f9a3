-- ===== src/Sync/Waiting.antt =====
-- src/uthread.c: the first thread of a wait queue becomes ready; the current thread enters one.
use mathlib.Core.Path.{subst}
use user_thread_scheduler.Common.{◌≡◌, true, false, List, [], ◌∷◌, ◌++◌, arith, has, update}
use user_thread_scheduler.Machine.{Ptr, null, ready, trace_unblock, Ends, World, ok, access}
use user_thread_scheduler.Machine.Apart.{Chain-linked}
use user_thread_scheduler.Machine.Queue.{
  IsQueue, popped, IsQueue-TailIsOk, pop-IsQueue, head-access, IsQueue-update, pop_front-ok,
}
use user_thread_scheduler.ReadyQueue.{IsReadyQueue, enqueued, enqueue-ok, enqueue-IsReadyQueue}
use user_thread_scheduler.Sync.{wake_first}
use user_thread_scheduler.Trace.{traced, trace_emit-ok}

-- The world once the first thread of `q` is ready.
abbrev pub served : World → Ends → World
served w q = enqueued q.head (
    traced (w.tcb.thread_id q.head) trace_unblock 0 (record w {
      tcb = record w.tcb {
        next = update w.tcb.next q.head null;
        state = update w.tcb.state q.head ready;
      };
    }))

-- What is left of the wait queue.
abbrev pub unserved : World → Ends → Ends
unserved w q = popped w.tcb.next q q.head

module _ {w : World} {q : Ends} {xs ts : List Ptr} {t : Ptr} (r : IsReadyQueue w xs)
    (v : IsQueue w.live w.tcb.next q (t ∷ ts))
    (apart : (a : Ptr) → has a (t ∷ ts) ≡ true → has a xs ≡ false) where
  first : q.head ≡ t
  first = v.chain.0

  alive : access w.live q.head ≡ true
  alive = head-access v

  abbrev at_enqueue : World
  at_enqueue = traced (w.tcb.thread_id q.head) trace_unblock 0 (record w {
    tcb = record w.tcb {
      next = update w.tcb.next q.head null;
      state = update w.tcb.state q.head ready;
    };
  })

  pub wake_first-ok : wake_first q w ≡ ok (unserved w q) (served w q)
  unfolding wake_first
  wake_first-ok = rw (
    pop_front-ok w q q.head alive,
    alive,
    alive,
    alive,
    trace_emit-ok (w.tcb.thread_id q.head) trace_unblock 0 (record w {
      tcb = record w.tcb {
        next = update w.tcb.next q.head null;
        state = update w.tcb.state q.head ready;
      };
    }),
    enqueue-ok q.head at_enqueue (IsQueue-TailIsOk r.queue) alive,
  )

  not_ready : has q.head xs ≡ false
  not_ready = rw first (apart t (ground arith))

  pub served-IsReadyQueue : IsReadyQueue (served w q) (xs ++ t ∷ [])
  served-IsReadyQueue =
      let s : IsReadyQueue at_enqueue xs = record {
        queue = IsQueue-update q.head null r.queue not_ready;
        count = r.count;
      } in
      subst (λ h. IsReadyQueue (served w q) (xs ++ h ∷ [])) first
        (enqueue-IsReadyQueue q.head s alive not_ready)

  pub unserved-IsQueue : IsQueue (served w q).live (served w q).tcb.next (unserved w q) ts
  unserved-IsQueue =
      let others : has q.head ts ≡ false = rw first v.distinct.0 in
      let u = IsQueue-update q.head null (pop-IsQueue v) others in
      record {
        chain = Chain-linked _ _ q.head ts r.queue u.chain (λ a h. apart a (ground arith));
        tail = u.tail;
        distinct = u.distinct;
      }
