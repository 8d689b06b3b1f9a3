-- ===== src/Tests/Counting.antt =====
-- The theorems on the demo of Peterson's lock.
use user_thread_scheduler.Common.{
  ℕ, ◌+◌, ◌*◌, ◌≡◌, refl, Bool, true, false, ◌&&◌, List, [], ◌∷◌, arith,
}
use user_thread_scheduler.Petersons.{
  iterations, tests_flag, enters, access_next, main_left, schedule, run_demo,
}
use user_thread_scheduler.Petersons.Ends.{two_turns, run_demo_ends}
use user_thread_scheduler.Petersons.Pair.{critical}
use user_thread_scheduler.Petersons.Safety.{run_demo_exclusive, run_demo_report}

-- Both workers have raised their flag and given way; the second has to wait.
abbrev both_try : List Bool
both_try = true ∷ false ∷ true ∷ false ∷ true ∷ true ∷ false ∷ false ∷ []

run_demo_exclusive_example :
    (critical (run_demo both_try main_left).place0 && critical (run_demo both_try main_left).place1)
    ≡ false
run_demo_exclusive_example = run_demo_exclusive both_try

both_try_runs :
    ((run_demo both_try main_left).place0 ≡ enters 0)
    × ((run_demo both_try main_left).place1 ≡ tests_flag 0)
unfolding run_demo schedule access_next
both_try_runs = (refl, refl)

abbrev many : ℕ
many = 36 * iterations + 43

run_demo_ends_example : (run_demo (two_turns many) main_left).shared.ended ≡ true
run_demo_ends_example = run_demo_ends many (omega arith)

run_demo_report_example : (run_demo (two_turns many) main_left).shared.report ≡ 2 * iterations
run_demo_report_example = run_demo_report (two_turns many) (run_demo_ends many (omega arith))
