-- ===== src/Tests/Thefts.antt =====
-- The theorem on work stealing, at a victim with three threads.
use user_thread_scheduler.Common.{◌%◌, ◌^◌, refl, true, [], ◌∷◌, arith, ◌==◌, if◌then◌else◌}
use user_thread_scheduler.Machine.{ready, running, ends, World, access}
use user_thread_scheduler.Processors.RunQueue.{IsRunQueue}
use user_thread_scheduler.Processors.Theft.{Robbed, rob-Robbed}
use user_thread_scheduler.Processors.Visit.{Theft, victim_loop-Theft}
use user_thread_scheduler.Processors.Yield.{Yielded, mn_yield-Yielded}
use user_thread_scheduler.Tests.{three_ready}
use user_thread_scheduler.VpLoop.Dispatch.{Dispatched, vp_round-Dispatched}

abbrev one_busy : World
one_busy = record three_ready {
  ready = ends 0 0;
  ready_count = 0;
  vps = λ i. record {
    vp_id = i % 2 ^ 32;
    queue = if i == 1 then ends 2 4 else ends 0 0;
    local_count = if i == 1 then 3 else 0;
    queue_lock = 0;
    current = 0;
    running = true;
  };
}

one_busy-IsRunQueue : IsRunQueue one_busy 1 (2 ∷ 3 ∷ 4 ∷ [])
unfolding access
one_busy-IsRunQueue = record {
  queue = record {
    chain = (refl, refl, (refl, refl, (refl, refl, refl)));
    tail = refl;
    distinct = (refl, (refl, (refl, tt)));
  };
  count = refl;
  small = omega arith;
  free = refl;
}

rob-Robbed_example : Robbed one_busy 0 1 (2 ∷ 3 ∷ 4 ∷ [])
rob-Robbed_example = rob-Robbed 0 1 one_busy-IsRunQueue (omega arith) refl

idle-IsRunQueue : IsRunQueue one_busy 0 []
idle-IsRunQueue = record {
  queue = record { chain = refl; tail = refl; distinct = tt };
  count = refl;
  small = omega arith;
  free = refl;
}

victim_loop-Theft_example : Theft one_busy 0 1 2 1 0 [] (2 ∷ 3 ∷ 4 ∷ [])
victim_loop-Theft_example =
    victim_loop-Theft 0 1 2 1 0 idle-IsRunQueue one_busy-IsRunQueue (omega arith) refl refl
      (refl, (refl, (refl, tt))) (omega arith)

-- Processor 1 runs 2 and then, as thread 5, yields.
vp_round-Dispatched_example : Dispatched one_busy 1 2 (3 ∷ 4 ∷ [])
vp_round-Dispatched_example = vp_round-Dispatched one_busy 1 2 (3 ∷ 4 ∷ []) one_busy-IsRunQueue refl

abbrev five_on_one : World
five_on_one = record one_busy {
  tcb = record one_busy.tcb { state = λ p. if p == 5 then running else ready };
  current_thread = 5;
  mn_mode = true;
  my_vp_id = 1;
}

five_on_one-IsRunQueue : IsRunQueue five_on_one 1 (2 ∷ 3 ∷ 4 ∷ [])
five_on_one-IsRunQueue = record {
  queue = one_busy-IsRunQueue.queue;
  count = refl;
  small = omega arith;
  free = refl;
}

mn_yield-Yielded_example : Yielded five_on_one (2 ∷ 3 ∷ 4 ∷ [])
unfolding access
mn_yield-Yielded_example =
    mn_yield-Yielded five_on_one (2 ∷ 3 ∷ 4 ∷ []) five_on_one-IsRunQueue refl refl refl
      (omega arith)
