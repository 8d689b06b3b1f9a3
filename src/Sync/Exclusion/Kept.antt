-- ===== src/Sync/Exclusion/Kept.antt =====
-- src/uthread.c: mutual exclusion is kept by every move.
use mathlib.Core.Path.{subst₂, subst}
use user_thread_scheduler.Common.{
  ◌≡◌, refl, sym, ap, ◌∙◌, inl, inr, Bool, true, false, List, [], ◌∷◌, ◌++◌, arith, take, drop, has,
  erase, ◌==◌, Bool-cases,
}
use user_thread_scheduler.Machine.{Ptr, World, ok}
use user_thread_scheduler.Machine.Queue.{pushed, IsQueue-TailIsOk}
use user_thread_scheduler.Machine.Results.{same_end, same_value}
use user_thread_scheduler.ReadyQueue.{IsReadyQueue, enqueue-ok, dequeue-cons}
use user_thread_scheduler.Signals.{blocked_signals}
use user_thread_scheduler.Sync.{Mutex, uthread_mutex_init, lock_enter}
use user_thread_scheduler.Sync.Exclusion.{
  Scene, IsFree, entered, Move, locks, gives_back, becomes_ready, runs_next, IsExclusive,
  IsWaiting-enqueued, IsWaiting-dequeued, IsWaiting-alarm, lock-free, lock-taken, one_holder,
  given_back,
}
use user_thread_scheduler.Sync.Fifo.{queued, queued-IsWaiting}
use user_thread_scheduler.Sync.Serve.{IsWaiting, Unlocked, uthread_mutex_unlock-Unlocked}

Scene-takes :
    (c : Scene)
    → IsExclusive c
    → (c.mutex.locked == 0) ≡ true
    → IsExclusive (record c {
      world = record c.world { alarm_blocked = false };
      mutex = record { locked = 1; wait = c.mutex.wait };
      holders = c.world.current_thread ∷ c.holders;
    })
Scene-takes c v hit = record {
  lists = IsWaiting-alarm false v.lists;
  open_mutex = λ h. absurd cc;
  held = λ h. rw (v.open_mutex hit).0 refl;
}

Scene-waits :
    (c : Scene)
    → IsExclusive c
    → (c.mutex.locked == 0) ≡ false
    → IsFree c c.world.current_thread
    → IsExclusive (record c {
      world = queued (blocked_signals c.world) c.mutex.wait;
      mutex = record c.mutex { wait = pushed c.mutex.wait c.world.current_thread };
      waiting = c.waiting ++ c.world.current_thread ∷ [];
    })
Scene-waits c v miss f = record {
  lists = queued-IsWaiting (IsWaiting-alarm true v.lists) f.alive f.new f.unready;
  open_mutex = λ h. absurd (ground (arith, h, miss));
  held = v.held;
}

module _ (c : Scene) (v : IsExclusive c) (holds : has c.world.current_thread c.holders ≡ true) where
  is_locked : (c.mutex.locked == 0) ≡ false
  is_locked = elim (Bool-cases (c.mutex.locked == 0)) [
    | inl bad ↦ absurd (ground (arith, holds, ap (has c.world.current_thread) (v.open_mutex bad).0))
    | inr good ↦ good
  ]

  after_unlock : Unlocked c.world c.mutex c.ready c.waiting
  after_unlock = uthread_mutex_unlock-Unlocked c.world c.mutex c.ready c.waiting v.lists

  Scene-gives : IsExclusive (record {
    world = after_unlock.end;
    mutex = after_unlock.mutex;
    ready = c.ready ++ take 1 c.waiting;
    waiting = drop 1 c.waiting;
    holders = erase c.world.current_thread c.holders ++ take 1 c.waiting;
  })
  Scene-gives =
      let g =
        given_back c.mutex c.world.current_thread c.holders c.waiting
          (one_holder c.world.current_thread c.holders (v.held is_locked) holds) is_locked
          after_unlock.mutex.locked after_unlock.locked in
      record { lists = after_unlock.holds; open_mutex = g.0; held = g.1 }

entered-IsExclusive :
    (c : Scene) (r : Mutex × Bool) (w : World)
    → IsExclusive c
    → IsFree c c.world.current_thread
    → lock_enter c.mutex c.world ≡ ok r w
    → IsExclusive (entered c r.0 r.1 w)
entered-IsExclusive c r w v f run =
    let P : Mutex × Bool → World → Type 0 = λ n u. IsExclusive (entered c n.0 n.1 u) in
    elim (Bool-cases (c.mutex.locked == 0)) [
      | inl hit ↦
          let e = lock-free c.mutex c.world v.lists.single hit in
          subst₂ P (same_value e run) (same_end e run) (Scene-takes c v hit)
      | inr miss ↦
          let e = lock-taken v.lists miss f.alive f.new f.unready in
          subst₂ P (same_value e run) (same_end e run) (Scene-waits c v miss f)
    ]

Move-IsExclusive : {c d : Scene} → Move c d → IsExclusive c → IsExclusive d
Move-IsExclusive (locks c m taken w f run) v = entered-IsExclusive c (m, taken) w v f run
Move-IsExclusive (gives_back c m w holds run) v =
    let r = after_unlock c v holds in
    subst₂
      (λ n u. IsExclusive (record {
        world = u;
        mutex = n;
        ready = c.ready ++ take 1 c.waiting;
        waiting = drop 1 c.waiting;
        holders = erase c.world.current_thread c.holders ++ take 1 c.waiting;
      }))
      (same_value r.returns run) (same_end r.returns run) (Scene-gives c v holds)
Move-IsExclusive (becomes_ready c p w f run) v =
    let e = enqueue-ok p c.world (IsQueue-TailIsOk v.lists.ready.queue) f.alive in
    subst (λ u. IsExclusive (record c { world = u; ready = c.ready ++ p ∷ [] })) (same_end e run)
      (record {
        lists = IsWaiting-enqueued p v.lists f.alive f.new f.unready;
        open_mutex = v.open_mutex;
        held = v.held;
      })
Move-IsExclusive (runs_next c z zs n w some_ready run) v =
    let l = subst (λ xs. IsWaiting c.world c.mutex.wait xs c.waiting) some_ready v.lists in
    let e = dequeue-cons l.ready in
    subst₂ (λ a u. IsExclusive (record c { world = record u { current_thread = a }; ready = zs }))
      (sym l.ready.queue.chain.0 ∙ same_value e run) (same_end e run)
      (record { lists = IsWaiting-dequeued z zs l; open_mutex = v.open_mutex; held = v.held })

-- The scenes that moves reach.
pub data Plays (c : Scene) : Scene → Type 0 where
  opening : Plays c c
  one_more : (d e : Scene) → Plays c d → Move d e → Plays c e

Plays-IsExclusive : {c d : Scene} → IsExclusive c → Plays c d → IsExclusive d
Plays-IsExclusive v opening = v
Plays-IsExclusive v (one_more d e r s) = Move-IsExclusive s (Plays-IsExclusive v r)

-- The scene at `uthread_mutex_init`.
abbrev pub at_init : World → Mutex → List Ptr → Scene
at_init w m xs = record { world = w; mutex = m; ready = xs; waiting = []; holders = [] }

-- From `uthread_mutex_init` in single-core mode with a well-formed ready queue, in every order in
-- which threads in no list call `uthread_mutex_lock` up to its return or its context switch (which lets them take the mutex or makes them
-- wait, as its test of the lock word says), give the mutex back while they hold it (the first thread that
-- waits is then its holder), become ready and run: exactly one thread holds the mutex while it is
-- locked, nobody holds it or waits for it while it is not, and its wait queue and the ready queue
-- stay well formed with no thread in common.
pub uthread_mutex_init-IsExclusive :
    (w : World) (xs : List Ptr) {m : Mutex} {w' : World} {d : Scene}
    → IsReadyQueue w xs
    → w.mn_mode ≡ false
    → uthread_mutex_init w ≡ ok m w'
    → Plays (at_init w' m xs) d
    → IsExclusive d
unfolding uthread_mutex_init
uthread_mutex_init-IsExclusive w xs q single run r =
    Plays-IsExclusive
      (subst₂ (λ n u. IsExclusive (at_init u n xs)) (same_value refl run) (same_end refl run)
        (record {
          lists = record {
            ready = q;
            waiters = record { chain = refl; tail = refl; distinct = tt };
            apart = λ a h. absurd cc;
            single = single;
          };
          open_mutex = λ h. (refl, refl);
          held = λ h. absurd cc;
        }))
      r
