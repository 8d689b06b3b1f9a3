-- ===== src/Tests/Acquiring.antt =====
-- The theorems on `uthread_mutex_lock` and `uthread_sem_wait`: thread 5 asks for a mutex that is
-- locked and for a semaphore with no permit; 2, 3 and 4 are ready.
use user_thread_scheduler.Common.{refl, inl, inr, false, [], ◌∷◌, arith, minus_one}
use user_thread_scheduler.Machine.{null, ends, pure, access}
use user_thread_scheduler.Sync.{Mutex, Semaphore, uthread_mutex_lock, uthread_sem_wait}
use user_thread_scheduler.System.Acquire.{
  Acquires, uthread_mutex_lock-Acquires, uthread_sem_wait-Acquires,
}
use user_thread_scheduler.System.Entering.{IsEntering}
use user_thread_scheduler.Tests.Systems.{system, system-IsSystem}

nobody_waits : IsEntering system (ends null null) (2 ∷ 3 ∷ 4 ∷ []) (7 ∷ 6 ∷ []) (2 ∷ 8 ∷ 5 ∷ []) []
nobody_waits = record {
  formed = system-IsSystem;
  waiters = record {
    ready = system-IsSystem.rest.lists.ready;
    waiters = record { chain = refl; tail = refl; distinct = tt };
    apart = λ a h. absurd cc;
    single = refl;
  };
  new = refl;
  apart = λ a h. refl;
}

abbrev taken_mutex : Mutex
taken_mutex = record { locked = 1; wait = ends null null }

abbrev no_permit : Semaphore
no_permit = record { count = 0; wait = ends null null }

uthread_mutex_lock-Acquires_example :
    Acquires
      (λ _. pure null)
      (uthread_mutex_lock (λ _. pure null) taken_mutex)
      false
      (record { locked = 1; wait = ends null null })
      (record { locked = 1; wait = ends 5 5 })
      (ends null null)
      system
      (2 ∷ 3 ∷ 4 ∷ [])
      (7 ∷ 6 ∷ [])
      (2 ∷ 8 ∷ 5 ∷ [])
      []
unfolding access
uthread_mutex_lock-Acquires_example =
    uthread_mutex_lock-Acquires (λ _. pure null) taken_mutex nobody_waits
      (λ j. (inr (refl, refl, refl), (inl refl, tt))) 0 (λ e. absurd cc) (omega arith)

uthread_sem_wait-Acquires_example :
    Acquires
      (λ _. pure null)
      (uthread_sem_wait (λ _. pure null) no_permit)
      false
      (record { count = minus_one; wait = ends null null })
      (record { count = 0; wait = ends 5 5 })
      (ends null null)
      system
      (2 ∷ 3 ∷ 4 ∷ [])
      (7 ∷ 6 ∷ [])
      (2 ∷ 8 ∷ 5 ∷ [])
      []
unfolding access
uthread_sem_wait-Acquires_example =
    uthread_sem_wait-Acquires (λ _. pure null) no_permit nobody_waits
      (λ j. (inr (refl, refl, refl), (inl refl, tt))) 0 (λ e. absurd cc) (omega arith)
