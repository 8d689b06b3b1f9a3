-- ===== src/Tests/Locks.antt =====
-- The theorem on spinlocks: thread 1 acquires the lock, thread 2 tries, thread 1 leaves, thread 2
-- acquires.
use user_thread_scheduler.Common.{ℕ, ◌≡◌, refl, true, false, [], ◌∷◌, arith, update}
use user_thread_scheduler.Machine.{null, ends, access}
use user_thread_scheduler.Machine.Queue.{pushed}
use user_thread_scheduler.ReadyQueue.{IsReadyQueue, dequeued, dequeue-cons, dequeue-IsReadyQueue}
use user_thread_scheduler.Signals.{blocked_signals}
use user_thread_scheduler.Spinlock.{
  Place, outside, inside, spinning, LockState, spinlock_init, exchange, spinlock_release, calls,
  tries, leaves, Reaches, at_start, then_step,
}
use user_thread_scheduler.Spinlock.Exclusion.{inside_unique}
use user_thread_scheduler.Sync.{new_mutex, uthread_mutex_init, uthread_sem_init}
use user_thread_scheduler.Sync.Exclusion.{
  Scene, locks, runs_next, IsExclusive, lock-free, lock-taken,
}
use user_thread_scheduler.Sync.Exclusion.Kept.{
  Plays, opening, one_more, at_init, uthread_mutex_init-IsExclusive,
}
use user_thread_scheduler.Sync.Fifo.{queued}
use user_thread_scheduler.Sync.Permits.{Counter, arrives, IsBalanced, sem_wait-passes}
use user_thread_scheduler.Sync.Permits.Kept.{
  no_use, once_more, counter_at, uthread_sem_init-IsBalanced,
}
use user_thread_scheduler.Sync.Serve.{IsWaiting}
use user_thread_scheduler.Tests.{three_ready, three_ready-IsReadyQueue}

abbrev nobody : ℕ → Place
nobody i = outside

abbrev second : LockState
second =
    let s₁ = spinlock_init nobody in
    let s₂ = record s₁ { place = update s₁.place 1 (spinning 0) } in
    let s₃ = exchange 1 0 s₂ in
    let s₄ = record s₃ { place = update s₃.place 2 (spinning 0) } in
    exchange 2 1 (spinlock_release 1 (exchange 2 0 s₄))

second-Reaches : Reaches (spinlock_init nobody) second
unfolding spinlock_init exchange spinlock_release
second-Reaches =
    then_step
      (then_step
        (then_step
          (then_step (then_step (then_step at_start (calls 1 refl)) (tries 1 0 refl))
            (calls 2 refl))
          (tries 2 0 refl))
        (leaves 1 refl))
      (tries 2 1 refl)

second_inside : second.place 2 ≡ inside
unfolding spinlock_init exchange spinlock_release
second_inside = refl

abbrev holder : ℕ
holder = 2

inside_unique_example : holder ≡ holder
inside_unique_example =
    inside_unique nobody second holder holder (λ k. refl) second-Reaches second_inside second_inside

-- Thread 5 takes a mutex, thread 2 runs and waits for it.
abbrev five_takes : Scene
five_takes = at_init (record three_ready { current_thread = 5 }) new_mutex (2 ∷ 3 ∷ 4 ∷ [])

abbrev five_holds : Scene
five_holds = record five_takes {
  world = record five_takes.world { alarm_blocked = false };
  mutex = record { locked = 1; wait = new_mutex.wait };
  holders = 5 ∷ [];
}

abbrev two_runs : Scene
two_runs = record five_holds {
  world = record (dequeued five_holds.world) { current_thread = 2 };
  ready = 3 ∷ 4 ∷ [];
}

abbrev two_waits : Scene
two_waits = record two_runs {
  world = queued (blocked_signals two_runs.world) two_runs.mutex.wait;
  mutex = record two_runs.mutex { wait = pushed two_runs.mutex.wait 2 };
  waiting = 2 ∷ [];
}

five_holds-IsReadyQueue : IsReadyQueue five_holds.world (2 ∷ 3 ∷ 4 ∷ [])
five_holds-IsReadyQueue = record {
  queue = three_ready-IsReadyQueue.queue;
  count = three_ready-IsReadyQueue.count;
}

two_runs-IsWaiting : IsWaiting two_runs.world two_runs.mutex.wait (3 ∷ 4 ∷ []) []
two_runs-IsWaiting =
    let r = dequeue-IsReadyQueue five_holds-IsReadyQueue in
    record {
      ready = record { queue = r.queue; count = r.count };
      waiters = record { chain = refl; tail = refl; distinct = tt };
      apart = λ a h. absurd cc;
      single = refl;
    }

two_waits-Plays : Plays five_takes two_waits
unfolding access
two_waits-Plays =
    one_more two_runs two_waits
      (one_more five_holds two_runs
        (one_more five_takes five_holds opening (
          locks five_takes five_holds.mutex true five_holds.world
            (record { alive = refl; new = refl; unready = refl })
            (lock-free new_mutex five_takes.world refl refl)))
        (runs_next five_holds 2 (3 ∷ 4 ∷ []) 2 (dequeued five_holds.world) refl
          (dequeue-cons five_holds-IsReadyQueue)))
      (locks two_runs two_waits.mutex false two_waits.world
        (record { alive = refl; new = refl; unready = refl })
        (lock-taken two_runs-IsWaiting refl refl refl refl))

uthread_mutex_init-IsExclusive_example : IsExclusive two_waits
unfolding uthread_mutex_init
uthread_mutex_init-IsExclusive_example =
    uthread_mutex_init-IsExclusive (record three_ready { current_thread = 5 }) (2 ∷ 3 ∷ 4 ∷ [])
      (record { queue = three_ready-IsReadyQueue.queue; count = three_ready-IsReadyQueue.count })
      refl refl two_waits-Plays

-- A semaphore of one permit: thread 5 passes.
abbrev one_permit : Counter
one_permit =
    counter_at (record three_ready { current_thread = 5 })
      (record { count = 1; wait = ends null null }) 1 (2 ∷ 3 ∷ 4 ∷ [])

abbrev five_passed : Counter
five_passed = record one_permit {
  world = record one_permit.world { alarm_blocked = false };
  semaphore = record { count = 0; wait = ends null null };
  taken = 1;
}

uthread_sem_init-IsBalanced_example : IsBalanced five_passed
unfolding uthread_sem_init access
uthread_sem_init-IsBalanced_example =
    uthread_sem_init-IsBalanced (record three_ready { current_thread = 5 }) 1 (2 ∷ 3 ∷ 4 ∷ [])
      (record { queue = three_ready-IsReadyQueue.queue; count = three_ready-IsReadyQueue.count })
      refl (omega arith) refl
      (once_more one_permit five_passed no_use (
        arrives one_permit five_passed.semaphore true five_passed.world
          (record { alive = refl; new = refl; unready = refl })
          (sem_wait-passes one_permit.semaphore one_permit.world refl refl)))
