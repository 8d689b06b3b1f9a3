-- ===== src/Sync/Permits.antt =====
-- src/uthread.c: a semaphore lets through as many threads as it has permits, and lets nobody wait
-- while it has one.
pub mod Kept
use user_thread_scheduler.Common.{
  ℕ, ◌+◌, ◌^◌, ◌<◌, ◌≡◌, refl, Bool, true, false, List, [], ◌∷◌, ◌++◌, arith, length, take, drop,
  has, ◌==◌, if◌then◌else◌, inc32, dec32, slt,
}
use user_thread_scheduler.Machine.{Ptr, ready, World, ok, access}
use user_thread_scheduler.Machine.Queue.{pushed}
use user_thread_scheduler.ReadyQueue.{enqueue, dequeue}
use user_thread_scheduler.Signals.{blocked_signals, block_signals-ok, unblock_signals-ok}
use user_thread_scheduler.Sync.{Semaphore, sem_enter, uthread_sem_post}
use user_thread_scheduler.Sync.Exclusion.{IsWaiting-alarm}
use user_thread_scheduler.Sync.Fifo.{queued, block_on-ok}
use user_thread_scheduler.Sync.Serve.{is_empty, IsWaiting}
use user_thread_scheduler.Tests.{world}

-- A semaphore with the threads that wait for it and those that are ready, its first count, and how
-- many times it was posted and taken so far.
pub record Counter : Type 0 where
  pub world : World
  pub semaphore : Semaphore
  pub ready : List Ptr
  pub waiting : List Ptr
  pub initial : ℕ
  pub posted : ℕ
  pub taken : ℕ

-- A live thread in no list.
pub record IsLoose (c : Counter) (p : Ptr) : Type 0 where
  pub alive : access c.world.live p ≡ true
  pub new : has p c.waiting ≡ false
  pub unready : has p c.ready ≡ false

-- The counter behind the call of `uthread_sem_wait`.
abbrev pub arrived : Counter → Semaphore → Bool → World → Counter
arrived c s taken w = record {
  world = w;
  semaphore = s;
  ready = c.ready;
  waiting = if taken then c.waiting else c.waiting ++ c.world.current_thread ∷ [];
  initial = c.initial;
  posted = c.posted;
  taken = if taken then c.taken + 1 else c.taken;
}

-- What happens next. Whether the caller of `uthread_sem_wait` passes or waits is what the function
-- answers; a thread that waits has taken a permit once a post makes it ready.
pub data Act : Counter → Counter → Type 0 where
  arrives :
      (c : Counter) (s : Semaphore) (taken : Bool) (w : World)
      → IsLoose c c.world.current_thread
      → sem_enter c.semaphore c.world ≡ ok (s, taken) w
      → Act c (arrived c s taken w)
  posts :
      (c : Counter) (s : Semaphore) (w : World)
      → c.initial + c.posted + 1 < 2 ^ 31
      → uthread_sem_post c.semaphore c.world ≡ ok s w
      → Act c (record c {
        world = w;
        semaphore = s;
        ready = c.ready ++ take 1 c.waiting;
        waiting = drop 1 c.waiting;
        posted = c.posted + 1;
        taken = c.taken + length (take 1 c.waiting);
      })
  gets_ready :
      (c : Counter) (p : Ptr) (w : World)
      → IsLoose c p
      → enqueue p c.world ≡ ok tt w
      → Act c (record c { world = w; ready = c.ready ++ p ∷ [] })
  goes_on :
      (c : Counter) (z : Ptr) (zs : List Ptr) (n : Ptr) (w : World)
      → c.ready ≡ z ∷ zs
      → dequeue c.world ≡ ok n w
      → Act c (record c { world = record w { current_thread = n }; ready = zs })

-- Every permit was there at first or was posted, and is left or was taken; nobody waits while one is
-- left.
pub record IsBalanced (c : Counter) : Type 0 where
  pub lists : IsWaiting c.world c.semaphore.wait c.ready c.waiting
  pub balance : c.semaphore.count + c.taken ≡ c.initial + c.posted
  pub small : c.initial + c.posted < 2 ^ 31
  pub prompt : (c.semaphore.count == 0) ≡ false → c.waiting ≡ []

pub sem_wait-passes :
    (s : Semaphore) (w : World)
    → w.mn_mode ≡ false
    → slt 0 s.count ≡ true
    → sem_enter s w
      ≡ ok
          (record { count = dec32 s.count; wait = s.wait }, true)
          (record w { alarm_blocked = false })
unfolding sem_enter
sem_wait-passes s w single hit =
    rw (block_signals-ok w single, hit, unblock_signals-ok (blocked_signals w) single)

pub sem_wait-queues :
    {w : World} {s : Semaphore} {xs ts : List Ptr}
    → IsWaiting w s.wait xs ts
    → slt 0 s.count ≡ false
    → access w.live w.current_thread ≡ true
    → has w.current_thread ts ≡ false
    → has w.current_thread xs ≡ false
    → sem_enter s w
      ≡ ok
          (record { count = s.count; wait = pushed s.wait w.current_thread }, false)
          (queued (blocked_signals w) s.wait)
unfolding sem_enter
sem_wait-queues {w} v miss alive new unready =
    rw (block_signals-ok w v.single, miss, block_on-ok (IsWaiting-alarm true v) alive new unready)

pub passed-IsBalanced :
    (c : Counter)
    → IsBalanced c
    → slt 0 c.semaphore.count ≡ true
    → IsBalanced (record c {
      world = record c.world { alarm_blocked = false };
      semaphore = record { count = dec32 c.semaphore.count; wait = c.semaphore.wait };
      taken = c.taken + 1;
    })
passed-IsBalanced c v hit =
    let some_left : (c.semaphore.count == 0) ≡ false = ground (arith, hit) in
    let less : c.semaphore.count < 2 ^ 31 = omega (arith, v.balance, v.small) in
    let one_less : dec32 c.semaphore.count + 1 ≡ c.semaphore.count =
      ground (arith, some_left, less) in
    record {
      lists = IsWaiting-alarm false v.lists;
      balance = omega (arith, one_less, v.balance);
      small = v.small;
      prompt = λ h. v.prompt some_left;
    }

pub posted-balance :
    (n k taken m : ℕ) (ts : List Ptr)
    → m ≡ (if is_empty ts then inc32 n else n)
    → n + taken ≡ k
    → k + 1 < 2 ^ 31
    → m + (taken + length (take 1 ts)) ≡ k + 1
posted-balance n k taken m [] f e h = omega (arith, f, e, h)
posted-balance n k taken m (t ∷ ts) f e h = omega (arith, f, e, h)

pub posted-prompt :
    (n m : ℕ) (ts : List Ptr)
    → m ≡ (if is_empty ts then inc32 n else n)
    → ((n == 0) ≡ false → ts ≡ [])
    → (m == 0) ≡ false
    → drop 1 ts ≡ []
posted-prompt n m [] f h some_left = refl
posted-prompt n m (t ∷ ts) f h some_left = absurd (ground (arith, h (ground (arith, f, some_left))))
