-- ===== src/Sync/Permits/Kept.antt =====
-- src/uthread.c: every use of a semaphore keeps the count of its permits.
use mathlib.Core.Path.{subst₂, subst}
use user_thread_scheduler.Common.{
  ℕ, ◌+◌, ◌^◌, ◌<◌, ◌≡◌, refl, sym, ◌∙◌, inl, inr, Bool, true, false, List, [], ◌∷◌, ◌++◌, arith,
  length, take, drop, Bool-cases, slt,
}
use user_thread_scheduler.Machine.{Ptr, World, ok}
use user_thread_scheduler.Machine.Queue.{pushed, IsQueue-TailIsOk}
use user_thread_scheduler.Machine.Results.{same_end, same_value}
use user_thread_scheduler.ReadyQueue.{IsReadyQueue, enqueue-ok, dequeue-cons}
use user_thread_scheduler.Signals.{blocked_signals}
use user_thread_scheduler.Sync.{Semaphore, uthread_sem_init, sem_enter}
use user_thread_scheduler.Sync.Exclusion.{IsWaiting-enqueued, IsWaiting-dequeued, IsWaiting-alarm}
use user_thread_scheduler.Sync.Fifo.{queued, queued-IsWaiting}
use user_thread_scheduler.Sync.Permits.{
  Counter, IsLoose, arrived, Act, arrives, posts, gets_ready, goes_on, IsBalanced, sem_wait-passes,
  sem_wait-queues, passed-IsBalanced, posted-balance, posted-prompt,
}
use user_thread_scheduler.Sync.Serve.{IsWaiting, uthread_sem_post-Posted}

queued-IsBalanced :
    (c : Counter)
    → IsBalanced c
    → slt 0 c.semaphore.count ≡ false
    → IsLoose c c.world.current_thread
    → IsBalanced (record c {
      world = queued (blocked_signals c.world) c.semaphore.wait;
      semaphore = record c.semaphore { wait = pushed c.semaphore.wait c.world.current_thread };
      waiting = c.waiting ++ c.world.current_thread ∷ [];
    })
queued-IsBalanced c v miss f = record {
  lists = queued-IsWaiting (IsWaiting-alarm true v.lists) f.alive f.new f.unready;
  balance = v.balance;
  small = v.small;
  prompt = λ h.
      let less : c.semaphore.count < 2 ^ 31 = omega (arith, v.balance, v.small) in
      absurd (ground (arith, h, miss, less));
}

arrived-IsBalanced :
    (c : Counter) (r : Semaphore × Bool) (w : World)
    → IsBalanced c
    → IsLoose c c.world.current_thread
    → sem_enter c.semaphore c.world ≡ ok r w
    → IsBalanced (arrived c r.0 r.1 w)
arrived-IsBalanced c r w v f run =
    let P : Semaphore × Bool → World → Type 0 = λ n u. IsBalanced (arrived c n.0 n.1 u) in
    elim (Bool-cases (slt 0 c.semaphore.count)) [
      | inl hit ↦
          let e = sem_wait-passes c.semaphore c.world v.lists.single hit in
          subst₂ P (same_value e run) (same_end e run) (passed-IsBalanced c v hit)
      | inr miss ↦
          let e = sem_wait-queues v.lists miss f.alive f.new f.unready in
          subst₂ P (same_value e run) (same_end e run) (queued-IsBalanced c v miss f)
    ]

Act-IsBalanced : {c d : Counter} → Act c d → IsBalanced c → IsBalanced d
Act-IsBalanced (arrives c s taken w f run) v = arrived-IsBalanced c (s, taken) w v f run
Act-IsBalanced (posts c s w room run) v =
    let less : c.semaphore.count < 2 ^ 32 = omega (arith, v.balance, v.small) in
    let r = uthread_sem_post-Posted c.world c.semaphore c.ready c.waiting v.lists less in
    subst₂
      (λ n u. IsBalanced (record c {
        world = u;
        semaphore = n;
        ready = c.ready ++ take 1 c.waiting;
        waiting = drop 1 c.waiting;
        posted = c.posted + 1;
        taken = c.taken + length (take 1 c.waiting);
      }))
      (same_value r.returns run) (same_end r.returns run)
      (record {
        lists = r.holds;
        balance = omega (
          arith,
          posted-balance c.semaphore.count (c.initial + c.posted) c.taken r.semaphore.count
              c.waiting r.count v.balance room,
        );
        small = omega (arith, room);
        prompt = posted-prompt c.semaphore.count r.semaphore.count c.waiting r.count v.prompt;
      })
Act-IsBalanced (gets_ready c p w f run) v =
    let e = enqueue-ok p c.world (IsQueue-TailIsOk v.lists.ready.queue) f.alive in
    subst (λ u. IsBalanced (record c { world = u; ready = c.ready ++ p ∷ [] })) (same_end e run)
      (record {
        lists = IsWaiting-enqueued p v.lists f.alive f.new f.unready;
        balance = v.balance;
        small = v.small;
        prompt = v.prompt;
      })
Act-IsBalanced (goes_on c z zs n w some_ready run) v =
    let l = subst (λ xs. IsWaiting c.world c.semaphore.wait xs c.waiting) some_ready v.lists in
    let e = dequeue-cons l.ready in
    subst₂ (λ a u. IsBalanced (record c { world = record u { current_thread = a }; ready = zs }))
      (sym l.ready.queue.chain.0 ∙ same_value e run) (same_end e run)
      (record {
        lists = IsWaiting-dequeued z zs l;
        balance = v.balance;
        small = v.small;
        prompt = v.prompt;
      })

-- What uses of the semaphore reach.
pub data Uses (c : Counter) : Counter → Type 0 where
  no_use : Uses c c
  once_more : (d e : Counter) → Uses c d → Act d e → Uses c e

Uses-IsBalanced : {c d : Counter} → IsBalanced c → Uses c d → IsBalanced d
Uses-IsBalanced v no_use = v
Uses-IsBalanced v (once_more d e r s) = Act-IsBalanced s (Uses-IsBalanced v r)

-- The semaphore behind `uthread_sem_init`.
abbrev pub counter_at : World → Semaphore → ℕ → List Ptr → Counter
counter_at w s n xs = record {
  world = w;
  semaphore = s;
  ready = xs;
  waiting = [];
  initial = n;
  posted = 0;
  taken = 0;
}

-- From `uthread_sem_init` with a count below 2 ^ 31 in single-core mode with a well-formed ready
-- queue, in every order in which threads in no list call `uthread_sem_wait` up to its return or its context switch (which lets them pass or
-- makes them wait, as its test of the count says), post (below 2 ^ 31 permits in all), become ready
-- and run, where a thread that waits takes a permit once a post makes it ready: the count and
-- the permits taken are the first count and the permits posted, so no more waits go through than
-- that; nobody waits while the count is positive; and the wait queue and the ready queue stay well
-- formed with no thread in common.
pub uthread_sem_init-IsBalanced :
    (w : World) (n : ℕ) (xs : List Ptr) {s : Semaphore} {w' : World} {d : Counter}
    → IsReadyQueue w xs
    → w.mn_mode ≡ false
    → n < 2 ^ 31
    → uthread_sem_init n w ≡ ok s w'
    → Uses (counter_at w' s n xs) d
    → IsBalanced d
unfolding uthread_sem_init
uthread_sem_init-IsBalanced w n xs q single small run r =
    Uses-IsBalanced
      (subst₂ (λ t u. IsBalanced (counter_at u t n xs)) (same_value refl run) (same_end refl run)
        (record {
          lists = record {
            ready = q;
            waiters = record { chain = refl; tail = refl; distinct = tt };
            apart = λ a h. absurd cc;
            single = single;
          };
          balance = omega arith;
          small = omega (arith, small);
          prompt = λ h. refl;
        }))
      r
