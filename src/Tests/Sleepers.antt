-- ===== src/Tests/Sleepers.antt =====
-- The theorem on the sleep list, at two sleepers of which one is due.
use user_thread_scheduler.Common.{◌≡◌, refl, [], ◌∷◌, arith}
use user_thread_scheduler.Machine.{ends, World, ok, access}
use user_thread_scheduler.Machine.Queue.{push_back}
use user_thread_scheduler.ReadyQueue.{enqueue}
use user_thread_scheduler.Sleep.{wake, check_sleep_list}
use user_thread_scheduler.Sleep.Loop.{Checked, check_sleep_list-Checked}
use user_thread_scheduler.Tests.{two_asleep, two_asleep-IsSleeping}
use user_thread_scheduler.Trace.{trace_emit}

check_sleep_list-Checked_example : Checked two_asleep (2 ∷ 3 ∷ 4 ∷ []) (7 ∷ 6 ∷ [])
check_sleep_list-Checked_example = check_sleep_list-Checked two_asleep-IsSleeping (omega arith) refl

check_sleep_list_runs :
    (w' : World) × (check_sleep_list two_asleep ≡ ok tt w')
    × (w'.ready ≡ ends 2 7)
    × (w'.sleep_list_head ≡ 6)
unfolding check_sleep_list access wake trace_emit enqueue push_back
check_sleep_list_runs = (_, refl, refl, refl)
