-- ===== src/Sync/Exclusion.antt =====
-- src/uthread.c: at most one thread holds a mutex, whatever order threads run in.
pub mod Kept
use user_thread_scheduler.Common.{
  ℕ, ◌≡◌, refl, ap, ◌∙◌, inl, inr, Bool, true, false, List, [], ◌∷◌, ◌++◌, arith, length, take,
  drop, has, erase, has-append, ◌==◌, if◌then◌else◌, ==_iff, Bool-cases,
}
use user_thread_scheduler.Machine.{Ptr, null, ready, Ends, World, ok, access}
use user_thread_scheduler.Machine.Apart.{Chain-linked}
use user_thread_scheduler.Machine.Chain.{Chain-update}
use user_thread_scheduler.Machine.Queue.{pushed, IsQueue-update}
use user_thread_scheduler.Processors.{locked}
use user_thread_scheduler.ReadyQueue.{
  enqueue, dequeue, enqueued, dequeued, enqueue-IsReadyQueue, dequeue-IsReadyQueue,
}
use user_thread_scheduler.Signals.{blocked_signals, block_signals-ok, unblock_signals-ok}
use user_thread_scheduler.Sync.{Mutex, lock_enter, uthread_mutex_unlock}
use user_thread_scheduler.Sync.Fifo.{queued, block_on-ok}
use user_thread_scheduler.Sync.Serve.{is_empty, IsWaiting}
use user_thread_scheduler.Tests.{world}

-- A mutex with the threads that wait for it, those that hold it and those that are ready.
pub record Scene : Type 0 where
  pub world : World
  pub mutex : Mutex
  pub ready : List Ptr
  pub waiting : List Ptr
  pub holders : List Ptr

-- A live thread in no list.
pub record IsFree (c : Scene) (p : Ptr) : Type 0 where
  pub alive : access c.world.live p ≡ true
  pub new : has p c.waiting ≡ false
  pub unready : has p c.ready ≡ false

-- The scene behind the call of `uthread_mutex_lock`.
abbrev pub entered : Scene → Mutex → Bool → World → Scene
entered c m taken w = record {
  world = w;
  mutex = m;
  ready = c.ready;
  waiting = if taken then c.waiting else c.waiting ++ c.world.current_thread ∷ [];
  holders = if taken then c.world.current_thread ∷ c.holders else c.holders;
}

-- What happens next. Whether the caller of `uthread_mutex_lock` takes the mutex or waits is what the
-- function answers; a thread that waits holds the mutex once it is handed over; any thread in no
-- list may become ready, and the scheduler runs the first ready thread.
pub data Move : Scene → Scene → Type 0 where
  locks :
      (c : Scene) (m : Mutex) (taken : Bool) (w : World)
      → IsFree c c.world.current_thread
      → lock_enter c.mutex c.world ≡ ok (m, taken) w
      → Move c (entered c m taken w)
  gives_back :
      (c : Scene) (m : Mutex) (w : World)
      → has c.world.current_thread c.holders ≡ true
      → uthread_mutex_unlock c.mutex c.world ≡ ok m w
      → Move c (record {
        world = w;
        mutex = m;
        ready = c.ready ++ take 1 c.waiting;
        waiting = drop 1 c.waiting;
        holders = erase c.world.current_thread c.holders ++ take 1 c.waiting;
      })
  becomes_ready :
      (c : Scene) (p : Ptr) (w : World)
      → IsFree c p
      → enqueue p c.world ≡ ok tt w
      → Move c (record c { world = w; ready = c.ready ++ p ∷ [] })
  runs_next :
      (c : Scene) (z : Ptr) (zs : List Ptr) (n : Ptr) (w : World)
      → c.ready ≡ z ∷ zs
      → dequeue c.world ≡ ok n w
      → Move c (record c { world = record w { current_thread = n }; ready = zs })

-- Nobody holds a mutex that is not locked, and then nobody waits; otherwise one thread holds it.
pub record IsExclusive (c : Scene) : Type 0 where
  pub lists : IsWaiting c.world c.mutex.wait c.ready c.waiting
  pub open_mutex : (c.mutex.locked == 0) ≡ true → (c.holders ≡ []) × (c.waiting ≡ [])
  pub held : (c.mutex.locked == 0) ≡ false → length c.holders ≡ 1

pub IsWaiting-enqueued :
    {w : World} {q : Ends} {xs ts : List Ptr} (p : Ptr)
    → IsWaiting w q xs ts
    → access w.live p ≡ true
    → has p ts ≡ false
    → has p xs ≡ false
    → IsWaiting (enqueued p w) q (xs ++ p ∷ []) ts
IsWaiting-enqueued {w} {q} {xs} {ts} p v alive new unready = record {
  ready = enqueue-IsReadyQueue p v.ready alive unready;
  waiters = record {
    chain =
        Chain-linked _ q.head p ts v.ready.queue
          (Chain-update w.live w.tcb.next p null q.head ts v.waiters.chain new) v.apart;
    tail = v.waiters.tail;
    distinct = v.waiters.distinct;
  };
  apart = λ a h. ground (arith, v.apart a h, has-append a xs (p ∷ []), ==_iff p a, new, h);
  single = v.single;
}

pub IsWaiting-dequeued :
    {w : World} {q : Ends} {ts : List Ptr} (z : Ptr) (zs : List Ptr)
    → IsWaiting w q (z ∷ zs) ts
    → IsWaiting (record (dequeued w) { current_thread = z }) q zs ts
IsWaiting-dequeued {w} {q} {ts} z zs v =
    let r = dequeue-IsReadyQueue v.ready in
    let out : has w.ready.head ts ≡ false = elim (Bool-cases (has z ts)) [
      | inl bad ↦ absurd (ground (arith, v.apart z bad))
      | inr good ↦ ap (λ h. has h ts) v.ready.queue.chain.0 ∙ good
    ] in
    record {
      ready = record { queue = r.queue; count = r.count };
      waiters = IsQueue-update w.ready.head null v.waiters out;
      apart = λ a h. ground (arith, v.apart a h);
      single = v.single;
    }

pub IsWaiting-alarm :
    {w : World} {q : Ends} {xs ts : List Ptr} (b : Bool)
    → IsWaiting w q xs ts
    → IsWaiting (record w { alarm_blocked = b }) q xs ts
IsWaiting-alarm b v = record {
  ready = record { queue = v.ready.queue; count = v.ready.count };
  waiters = v.waiters;
  apart = v.apart;
  single = v.single;
}

-- Both branches of `uthread_mutex_lock`.
pub lock-free :
    (m : Mutex) (w : World)
    → w.mn_mode ≡ false
    → (m.locked == 0) ≡ true
    → lock_enter m w
      ≡ ok (record { locked = 1; wait = m.wait }, true) (record w { alarm_blocked = false })
unfolding lock_enter
lock-free m w single hit =
    rw (block_signals-ok w single, hit, unblock_signals-ok (blocked_signals w) single)

pub lock-taken :
    {w : World} {m : Mutex} {xs ts : List Ptr}
    → IsWaiting w m.wait xs ts
    → (m.locked == 0) ≡ false
    → access w.live w.current_thread ≡ true
    → has w.current_thread ts ≡ false
    → has w.current_thread xs ≡ false
    → lock_enter m w
      ≡ ok
          (record { locked = m.locked; wait = pushed m.wait w.current_thread }, false)
          (queued (blocked_signals w) m.wait)
unfolding lock_enter
lock-taken {w} v miss alive new unready =
    rw (block_signals-ok w v.single, miss, block_on-ok (IsWaiting-alarm true v) alive new unready)

pub one_holder : (p : Ptr) (hs : List Ptr) → length hs ≡ 1 → has p hs ≡ true → erase p hs ≡ []
one_holder p [] e h = refl
one_holder p (x ∷ []) e h = ground (arith, h)
one_holder p (x ∷ y ∷ hs) e h = absurd (omega arith)

-- The mutex once it is given back, and its holders.
pub given_back :
    (m : Mutex) (p : Ptr) (hs ts : List Ptr)
    → erase p hs ≡ []
    → (m.locked == 0) ≡ false
    → (l : ℕ) → l ≡ (if is_empty ts then 0 else m.locked)
    → ((l == 0) ≡ true → (erase p hs ++ take 1 ts ≡ []) × (drop 1 ts ≡ []))
      × ((l == 0) ≡ false → length (erase p hs ++ take 1 ts) ≡ 1)
given_back m p hs [] e locked l f = rw e (λ h. (refl, refl), λ h. absurd (ground (arith, f, h)))
given_back m p hs (t ∷ ts) e locked l f =
    rw e (λ h. absurd (ground (arith, f, h, locked)), λ h. refl)
