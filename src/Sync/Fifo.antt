-- ===== src/Sync/Fifo.antt =====
-- src/uthread.c: a mutex is handed to the threads that wait for it in the order of their arrival.
use user_thread_scheduler.Common.{
  ℕ, zero, suc, ◌≡◌, refl, ◌∙◌, true, false, List, [], ◌∷◌, ◌++◌, append-nil, append_assoc, arith,
  length, All, has, Distinct, has-append, has-middle, ==_iff, update,
}
use user_thread_scheduler.Machine.{
  Ptr, null, blocked, trace_block, Ends, World, ok, Cmd, pure, ◌>>=◌, ◌>>◌, modify, access,
}
use user_thread_scheduler.Machine.Apart.{Chain-linked}
use user_thread_scheduler.Machine.Queue.{
  with_next, linked, pushed, IsQueue-TailIsOk, push-IsQueue, IsQueue-update, push_back-ok,
}
use user_thread_scheduler.Sync.{Mutex, block_on, uthread_mutex_unlock}
use user_thread_scheduler.Sync.Serve.{IsWaiting, uthread_mutex_unlock-Unlocked}
use user_thread_scheduler.Trace.{traced, trace_emit-ok}

-- The world and the queue once the current thread is at the end of the wait queue `q`.
abbrev pub queued : World → Ends → World
queued w q =
    let me = w.current_thread in
    let u = traced (w.tcb.thread_id me) trace_block 0 (record w {
      tcb = record w.tcb {
        state = update w.tcb.state me blocked;
        next = update w.tcb.next me null;
      };
    }) in
    with_next u (linked u.tcb.next q me)

module _ {w : World} {q : Ends} {xs ts : List Ptr} (v : IsWaiting w q xs ts)
    (alive : access w.live w.current_thread ≡ true) (new : has w.current_thread ts ≡ false)
    (unready : has w.current_thread xs ≡ false) where
  pub block_on-ok : block_on q w ≡ ok (pushed q w.current_thread) (queued w q)
  unfolding block_on
  block_on-ok = rw (
    alive,
    alive,
    alive,
    trace_emit-ok (w.tcb.thread_id w.current_thread) trace_block 0 (record w {
      tcb = record w.tcb {
        state = update w.tcb.state w.current_thread blocked;
        next = update w.tcb.next w.current_thread null;
      };
    }),
    push_back-ok
        (traced (w.tcb.thread_id w.current_thread) trace_block 0 (record w {
          tcb = record w.tcb {
            state = update w.tcb.state w.current_thread blocked;
            next = update w.tcb.next w.current_thread null;
          };
        }))
        q w.current_thread (IsQueue-TailIsOk v.waiters),
  )

  pub queued-IsWaiting :
      IsWaiting (queued w q) (pushed q w.current_thread) xs (ts ++ w.current_thread ∷ [])
  queued-IsWaiting =
      let r = IsQueue-update w.current_thread null v.ready.queue unready in
      record {
        ready = record {
          queue = record {
            chain =
                Chain-linked _ _ w.current_thread xs v.waiters r.chain
                  (λ a h. ground (arith, v.apart a));
            tail = r.tail;
            distinct = r.distinct;
          };
          count = v.ready.count;
        };
        waiters = push-IsQueue w.current_thread v.waiters alive new;
        apart = λ a h. ground (
          arith,
          v.apart a,
          has-append a ts (w.current_thread ∷ []),
          unready,
          ==_iff w.current_thread a,
        );
        single = v.single;
      }

abbrev scheduled : World → Ptr → World
scheduled w p = record w { current_thread = p }

-- The threads `ps` block in turn, each as the current thread.
unfoldable pub block_each : List Ptr → Ends → Cmd Ends
unfolding block_on
block_each [] q = pure q
block_each (p ∷ ps) q = do modify (λ w. scheduled w p); q' ← block_on q; block_each ps q'

-- `n` unlocks.
unfoldable pub unlock_many : ℕ → Mutex → Cmd Mutex
unfolding uthread_mutex_unlock
unlock_many zero m = pure m
unlock_many (suc n) m = do m' ← uthread_mutex_unlock m; unlock_many n m'

pub record AllBlocked (w : World) (q : Ends) (xs ts ps : List Ptr) : Type 0 where
  pub end : World
  pub wait : Ends
  pub returns : block_each ps q w ≡ ok wait end
  pub holds : IsWaiting end wait xs (ts ++ ps)

pub record AllServed (w : World) (m : Mutex) (xs ts : List Ptr) : Type 0 where
  pub end : World
  pub mutex : Mutex
  pub returns : unlock_many (length ts) m w ≡ ok mutex end
  pub holds : IsWaiting end mutex.wait (xs ++ ts) []
  pub locked : mutex.locked ≡ m.locked

scheduled-IsWaiting :
    {w : World} {q : Ends} {xs ts : List Ptr} (p : Ptr)
    → IsWaiting w q xs ts
    → IsWaiting (scheduled w p) q xs ts
scheduled-IsWaiting p v = record {
  ready = record { queue = v.ready.queue; count = v.ready.count };
  waiters = v.waiters;
  apart = v.apart;
  single = v.single;
}

-- A block that is in neither of three lists.
absent_from :
    (p : Ptr) (xs ts ps : List Ptr)
    → Distinct (xs ++ ts ++ p ∷ ps)
    → (has p ts ≡ false) × (has p xs ≡ false)
absent_from p xs ts ps d =
    let absent : has p (xs ++ ts ++ ps) ≡ false = has-middle p (xs ++ ts) ps d in
    (
      ground (arith, has-append p (xs ++ ts) ps, has-append p xs ts),
      ground (arith, has-append p (xs ++ ts) ps, has-append p xs ts),
    )

unlock_many-AllServed :
    (w : World) (m : Mutex) (xs ts : List Ptr) → IsWaiting w m.wait xs ts → AllServed w m xs ts
unfolding unlock_many
unlock_many-AllServed w m xs [] v = record {
  end = w;
  mutex = m;
  returns = refl;
  holds = rw (append-nil xs) v;
  locked = refl;
}
unlock_many-AllServed w m xs (t ∷ ts) v =
    let u = uthread_mutex_unlock-Unlocked w m xs (t ∷ ts) v in
    let r = unlock_many-AllServed u.end u.mutex (xs ++ t ∷ []) ts u.holds in
    record {
      end = r.end;
      mutex = r.mutex;
      returns = rw (u.returns, r.returns);
      holds = rw (← append_assoc xs (t ∷ []) ts) r.holds;
      locked = r.locked ∙ u.locked;
    }

block_each-AllBlocked :
    (w : World) (q : Ends) (xs ts ps : List Ptr)
    → IsWaiting w q xs ts
    → All (λ p. access w.live p ≡ true) ps
    → Distinct (xs ++ ts ++ ps)
    → AllBlocked w q xs ts ps
unfolding block_each
block_each-AllBlocked w q xs ts [] v l d = record {
  end = w;
  wait = q;
  returns = refl;
  holds = rw (append-nil ts) v;
}
block_each-AllBlocked w q xs ts (p ∷ ps) v l d =
    let absent = absent_from p xs ts ps d in
    let s = scheduled-IsWaiting p v in
    let b = queued-IsWaiting s l.0 absent.0 absent.1 in
    let r =
      block_each-AllBlocked (queued (scheduled w p) q) (pushed q p) xs (ts ++ p ∷ []) ps b l.1
        (rw (← append_assoc xs ts (p ∷ []), append_assoc (xs ++ ts) (p ∷ []) ps) d) in
    record {
      end = r.end;
      wait = r.wait;
      returns = rw (block_on-ok s l.0 absent.0 absent.1, r.returns);
      holds = rw (← append_assoc ts (p ∷ []) ps) r.holds;
    }

-- The run of the theorem below.
abbrev pub block_then_unlock : List Ptr → Mutex → Cmd Mutex
block_then_unlock ps m = do
  q ← block_each ps m.wait
  unlock_many (length ps) (record { locked = m.locked; wait = q })

pub record Handed (w : World) (m : Mutex) (xs ps : List Ptr) : Type 0 where
  pub end : World
  pub mutex : Mutex
  pub returns : block_then_unlock ps m w ≡ ok mutex end
  pub holds : IsWaiting end mutex.wait (xs ++ ps) []
  pub locked : mutex.locked ≡ m.locked

-- In single-core mode, the distinct live threads `ps`, none of which is ready, wait in turn for a
-- mutex that nobody waits for yet. As many unlocks make them ready in the order of their arrival,
-- behind the ready threads, and leave the mutex as locked as it was.
pub block_then_unlock-Handed :
    (w : World) (m : Mutex) (xs ps : List Ptr)
    → IsWaiting w m.wait xs []
    → All (λ p. access w.live p ≡ true) ps
    → Distinct (xs ++ ps)
    → Handed w m xs ps
block_then_unlock-Handed w m xs ps v l d =
    let b = block_each-AllBlocked w m.wait xs [] ps v l (rw (append-nil xs) d) in
    let u =
      unlock_many-AllServed b.end (record { locked = m.locked; wait = b.wait }) xs ps b.holds in
    record {
      end = u.end;
      mutex = u.mutex;
      returns = rw (b.returns, u.returns);
      holds = u.holds;
      locked = u.locked;
    }
