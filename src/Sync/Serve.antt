-- ===== src/Sync/Serve.antt =====
-- src/uthread.c: `uthread_mutex_unlock` and `uthread_sem_post` serve the waiting threads in order.
use user_thread_scheduler.Common.{
  ◌^◌, ◌<◌, ◌≡◌, refl, Bool, true, false, List, [], ◌∷◌, ◌++◌, append-nil, arith, take, drop, has,
  has-append, ◌==◌, if◌then◌else◌, ==_iff, inc32, dec32,
}
use user_thread_scheduler.Machine.{Ptr, null, ready, Ends, World, ok, access-ne-null}
use user_thread_scheduler.Machine.Queue.{IsQueue, head-access}
use user_thread_scheduler.ReadyQueue.{IsReadyQueue}
use user_thread_scheduler.Signals.{blocked_signals, block_signals-ok, unblock_signals-ok}
use user_thread_scheduler.Sync.{
  Mutex, Semaphore, wake_first, hand_over, uthread_mutex_unlock, give, uthread_sem_post,
}
use user_thread_scheduler.Sync.Waiting.{
  served, unserved, wake_first-ok, served-IsReadyQueue, unserved-IsQueue,
}

abbrev pub is_empty : List Ptr → Bool
is_empty [] = true
is_empty (t ∷ ts) = false

-- The queues of a synchronisation object and of the scheduler: `ts` wait, `xs` are ready, and
-- nobody does both. The scheduler is in single-core mode.
pub record IsWaiting (w : World) (q : Ends) (xs ts : List Ptr) : Type 0 where
  pub ready : IsReadyQueue w xs
  pub waiters : IsQueue w.live w.tcb.next q ts
  pub apart : (a : Ptr) → has a ts ≡ true → has a xs ≡ false
  pub single : w.mn_mode ≡ false

-- The queues once signals are blocked.
blocked-IsReadyQueue :
    {w : World} {xs : List Ptr} → IsReadyQueue w xs → IsReadyQueue (blocked_signals w) xs
blocked-IsReadyQueue v = record { queue = v.queue; count = v.count }

-- The world once the first waiting thread is ready and the signals are delivered again.
abbrev relieved : World → Ends → World
relieved w q = record (served (blocked_signals w) q) { alarm_blocked = false }

module _ {w : World} {q : Ends} {xs ts : List Ptr} {t : Ptr} (v : IsWaiting w q xs (t ∷ ts)) where
  some_waiter : (q.head == null) ≡ false
  some_waiter = access-ne-null w.live q.head (head-access v.waiters)

  wake_first-served :
      wake_first q (blocked_signals w)
      ≡ ok (unserved (blocked_signals w) q) (served (blocked_signals w) q)
  wake_first-served = wake_first-ok (blocked-IsReadyQueue v.ready) v.waiters v.apart

  relieved-IsWaiting : IsWaiting (relieved w q) (unserved (blocked_signals w) q) (xs ++ t ∷ []) ts
  relieved-IsWaiting =
      let r = served-IsReadyQueue (blocked-IsReadyQueue v.ready) v.waiters v.apart in
      record {
        ready = record { queue = r.queue; count = r.count };
        waiters = unserved-IsQueue (blocked-IsReadyQueue v.ready) v.waiters v.apart;
        apart = λ a h.
            ground (arith, v.apart a, has-append a xs (t ∷ []), v.waiters.distinct.0, ==_iff t a);
        single = v.single;
      }

  relieved_states :
      (a : Ptr)
      → (relieved w q).tcb.state a ≡ (if has a (take 1 (t ∷ ts)) then ready else w.tcb.state a)
  relieved_states a = rw v.waiters.chain.0 (ground arith)

pub record Unlocked (w : World) (m : Mutex) (xs ts : List Ptr) : Type 0 where
  pub end : World
  pub mutex : Mutex
  pub returns : uthread_mutex_unlock m w ≡ ok mutex end
  pub holds : IsWaiting end mutex.wait (xs ++ take 1 ts) (drop 1 ts)
  pub locked : mutex.locked ≡ (if is_empty ts then 0 else m.locked)
  pub states : (a : Ptr) → end.tcb.state a ≡ (if has a (take 1 ts) then ready else w.tcb.state a)
  pub signals : end.alarm_blocked ≡ false

-- `uthread_mutex_unlock` in single-core mode, where `ts` wait in a well-formed queue and `xs` are
-- ready, with no thread in common: if threads wait, the first of them becomes ready, behind `xs`,
-- and the mutex stays locked for it; if nobody waits the mutex is unlocked. Signals are delivered
-- again.
pub uthread_mutex_unlock-Unlocked :
    (w : World) (m : Mutex) (xs ts : List Ptr) → IsWaiting w m.wait xs ts → Unlocked w m xs ts
unfolding uthread_mutex_unlock hand_over
uthread_mutex_unlock-Unlocked w m xs [] v =
    let nobody : (m.wait.head == null) ≡ true = rw v.waiters.chain in
    record {
      end = record w { alarm_blocked = false };
      mutex = record { locked = 0; wait = m.wait };
      returns =
          rw (block_signals-ok w v.single, nobody, unblock_signals-ok (blocked_signals w) v.single);
      holds = record {
        ready = rw (append-nil xs) (record { queue = v.ready.queue; count = v.ready.count });
        waiters = v.waiters;
        apart = λ a h. rw (append-nil xs) (v.apart a h);
        single = v.single;
      };
      locked = refl;
      states = λ a. refl;
      signals = refl;
    }
uthread_mutex_unlock-Unlocked w m xs (t ∷ ts) v = record {
  end = relieved w m.wait;
  mutex = record { locked = m.locked; wait = unserved (blocked_signals w) m.wait };
  returns = rw (
    block_signals-ok w v.single,
    some_waiter v,
    wake_first-served v,
    unblock_signals-ok (served (blocked_signals w) m.wait) v.single,
  );
  holds = relieved-IsWaiting v;
  locked = refl;
  states = relieved_states v;
  signals = refl;
}

pub record Posted (w : World) (s : Semaphore) (xs ts : List Ptr) : Type 0 where
  pub end : World
  pub semaphore : Semaphore
  pub returns : uthread_sem_post s w ≡ ok semaphore end
  pub holds : IsWaiting end semaphore.wait (xs ++ take 1 ts) (drop 1 ts)
  pub count : semaphore.count ≡ (if is_empty ts then inc32 s.count else s.count)
  pub states : (a : Ptr) → end.tcb.state a ≡ (if has a (take 1 ts) then ready else w.tcb.state a)
  pub signals : end.alarm_blocked ≡ false

-- `uthread_sem_post` in single-core mode, where `ts` wait in a well-formed queue and `xs` are
-- ready, with no thread in common, and the count is a 32-bit pattern: if threads wait, the first
-- of them becomes ready, behind `xs`, and the count is as before; if nobody waits the count is
-- one more. Signals are delivered again.
pub uthread_sem_post-Posted :
    (w : World) (s : Semaphore) (xs ts : List Ptr)
    → IsWaiting w s.wait xs ts
    → s.count < 2 ^ 32
    → Posted w s xs ts
unfolding uthread_sem_post give
uthread_sem_post-Posted w s xs [] v small =
    let nobody : (s.wait.head == null) ≡ true = rw v.waiters.chain in
    record {
      end = record w { alarm_blocked = false };
      semaphore = record { count = inc32 s.count; wait = s.wait };
      returns =
          rw (block_signals-ok w v.single, nobody, unblock_signals-ok (blocked_signals w) v.single);
      holds = record {
        ready = rw (append-nil xs) (record { queue = v.ready.queue; count = v.ready.count });
        waiters = v.waiters;
        apart = λ a h. rw (append-nil xs) (v.apart a h);
        single = v.single;
      };
      count = refl;
      states = λ a. refl;
      signals = refl;
    }
uthread_sem_post-Posted w s xs (t ∷ ts) v small = record {
  end = relieved w s.wait;
  semaphore = record { count = dec32 (inc32 s.count); wait = unserved (blocked_signals w) s.wait };
  returns = rw (
    block_signals-ok w v.single,
    some_waiter v,
    wake_first-served v,
    unblock_signals-ok (served (blocked_signals w) s.wait) v.single,
  );
  holds = relieved-IsWaiting v;
  count = omega (arith, small);
  states = relieved_states v;
  signals = refl;
}
