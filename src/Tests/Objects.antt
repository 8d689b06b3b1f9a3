-- ===== src/Tests/Objects.antt =====
-- The theorems on mutexes and semaphores, where 2, 3 and 4 are ready and 6 and 7 wait.
use user_thread_scheduler.Common.{refl, [], ◌∷◌, arith, ◌==◌, if◌then◌else◌}
use user_thread_scheduler.Machine.{ready, blocked, ends, World, access}
use user_thread_scheduler.Sync.{Mutex, Semaphore}
use user_thread_scheduler.Sync.Fifo.{Handed, block_then_unlock-Handed}
use user_thread_scheduler.Sync.Serve.{
  IsWaiting, Unlocked, uthread_mutex_unlock-Unlocked, Posted, uthread_sem_post-Posted,
}
use user_thread_scheduler.Tests.{blocks, three_ready, three_ready-IsReadyQueue}

abbrev two_wait : World
two_wait = record three_ready {
  tcb = record blocks {
    next = λ p. if p == 2 then 3 else if p == 3 then 4 else if p == 6 then 7 else 0;
    state = λ p. if p == 6 then blocked else if p == 7 then blocked else ready;
  };
}

two_wait-IsWaiting : IsWaiting two_wait (ends 6 7) (2 ∷ 3 ∷ 4 ∷ []) (6 ∷ 7 ∷ [])
unfolding access
two_wait-IsWaiting = record {
  ready = record {
    queue = record {
      chain = (refl, refl, (refl, refl, (refl, refl, refl)));
      tail = refl;
      distinct = (refl, (refl, (refl, tt)));
    };
    count = refl;
  };
  waiters = record {
    chain = (refl, refl, (refl, refl, refl));
    tail = refl;
    distinct = (refl, (refl, tt));
  };
  apart = λ a h. ground arith;
  single = refl;
}

nobody_waits-IsWaiting : IsWaiting three_ready (ends 0 0) (2 ∷ 3 ∷ 4 ∷ []) []
nobody_waits-IsWaiting = record {
  ready = three_ready-IsReadyQueue;
  waiters = record { chain = refl; tail = refl; distinct = tt };
  apart = λ a h. absurd cc;
  single = refl;
}

abbrev wanted : Mutex
wanted = record { locked = 1; wait = ends 6 7 }

abbrev held : Mutex
held = record { locked = 1; wait = ends 0 0 }

abbrev empty_semaphore : Semaphore
empty_semaphore = record { count = 0; wait = ends 6 7 }

uthread_mutex_unlock-Unlocked_example : Unlocked two_wait wanted (2 ∷ 3 ∷ 4 ∷ []) (6 ∷ 7 ∷ [])
uthread_mutex_unlock-Unlocked_example =
    uthread_mutex_unlock-Unlocked two_wait wanted (2 ∷ 3 ∷ 4 ∷ []) (6 ∷ 7 ∷ []) two_wait-IsWaiting

uthread_sem_post-Posted_example : Posted two_wait empty_semaphore (2 ∷ 3 ∷ 4 ∷ []) (6 ∷ 7 ∷ [])
uthread_sem_post-Posted_example =
    uthread_sem_post-Posted two_wait empty_semaphore (2 ∷ 3 ∷ 4 ∷ []) (6 ∷ 7 ∷ [])
      two_wait-IsWaiting (omega arith)

block_then_unlock-Handed_example : Handed three_ready held (2 ∷ 3 ∷ 4 ∷ []) (7 ∷ 5 ∷ [])
unfolding access
block_then_unlock-Handed_example =
    block_then_unlock-Handed three_ready held (2 ∷ 3 ∷ 4 ∷ []) (7 ∷ 5 ∷ []) nobody_waits-IsWaiting
      (refl, (refl, tt)) (refl, (refl, (refl, (refl, (refl, tt)))))
