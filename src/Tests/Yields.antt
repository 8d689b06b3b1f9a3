-- ===== src/Tests/Yields.antt =====
-- The theorem on `uthread_yield`, where thread 5 runs and three are ready.
use user_thread_scheduler.Common.{ℕ, refl, [], ◌∷◌, arith, ◌==◌, if◌then◌else◌}
use user_thread_scheduler.Machine.{Ptr, null, ready, running, user_policy, World, Cmd, pure, access}
use user_thread_scheduler.Switch.Rotation.{IsFair, turns-IsFair}
use user_thread_scheduler.Switch.RunOn.{IsAlone, RanOn, reschedule-RanOn}
use user_thread_scheduler.Switch.Turn.{IsTurnOf}
use user_thread_scheduler.Tests.{three_ready, three_ready-IsReadyQueue}

abbrev five_runs : World
five_runs = record three_ready {
  tcb = record three_ready.tcb { state = λ p. if p == 5 then running else ready };
  current_thread = 5;
}

abbrev no_function : ℕ → Cmd Ptr
no_function i = pure null

five_runs-IsTurnOf : IsTurnOf five_runs 5 (2 ∷ 3 ∷ 4 ∷ [])
unfolding access
five_runs-IsTurnOf = record {
  current = refl;
  alive = refl;
  state = refl;
  queue = record { queue = three_ready-IsReadyQueue.queue; count = three_ready-IsReadyQueue.count };
  apart = refl;
  policy = refl;
}

turns-IsFair_example : IsFair no_function five_runs 5 (2 ∷ 3 ∷ 4 ∷ [])
turns-IsFair_example = turns-IsFair no_function five_runs 5 (2 ∷ 3 ∷ 4 ∷ []) five_runs-IsTurnOf

abbrev by_program : World
by_program = record five_runs { current_scheduler = user_policy 0 }

by_program-IsAlone : IsAlone by_program 5 (2 ∷ 3 ∷ 4 ∷ []) 0
unfolding access
by_program-IsAlone = record {
  current = refl;
  alive = refl;
  state = refl;
  queue = record { queue = three_ready-IsReadyQueue.queue; count = three_ready-IsReadyQueue.count };
  apart = refl;
  policy = refl;
  few = omega arith;
  single = refl;
}

reschedule-RanOn_example : RanOn no_function by_program 5 (2 ∷ 3 ∷ 4 ∷ [])
reschedule-RanOn_example = reschedule-RanOn no_function by_program-IsAlone refl
