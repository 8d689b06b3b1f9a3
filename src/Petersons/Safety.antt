-- ===== src/Petersons/Safety.antt =====
-- demos/petersons/petersons.c: Peterson's lock excludes, and the message shows the right counter.
use user_thread_scheduler.Common.{
  ◌*◌, ◌≡◌, refl, Bool, true, false, ◌&&◌, List, [], ◌∷◌, arith, if◌then◌else◌,
}
use user_thread_scheduler.Petersons.{
  iterations, access_next, Demo, main_left, moved0, moved1, schedule, run_demo,
}
use user_thread_scheduler.Petersons.Pair.{critical, IsPair}
use user_thread_scheduler.Petersons.Places.{IsPair-swap}
use user_thread_scheduler.Petersons.Steps.{access_next-IsPair}

abbrev pub IsDemo : Demo → Type 0
IsDemo d = IsPair 0 d.shared d.place0 d.place1

either-IsDemo : (b : Bool) (d e : Demo) → IsDemo d → IsDemo e → IsDemo (if b then d else e)
either-IsDemo true d e v u = v
either-IsDemo false d e v u = u

pub schedule-IsDemo : (b : Bool) (d : Demo) → IsDemo d → IsDemo (schedule b d)
unfolding schedule
schedule-IsDemo true d v =
    either-IsDemo d.shared.ended d (moved0 d (access_next 0 d.shared d.place0)) v
      (access_next-IsPair 0 (omega arith) d.place0 v)
schedule-IsDemo false d v =
    either-IsDemo d.shared.ended d (moved1 d (access_next 1 d.shared d.place1)) v (
      IsPair-swap 1 (omega arith)
        (access_next-IsPair 1 (omega arith) d.place1 (IsPair-swap 0 (omega arith) v)))

run_demo-IsDemo : (bs : List Bool) (d : Demo) → IsDemo d → IsDemo (run_demo bs d)
unfolding run_demo
run_demo-IsDemo [] d v = v
run_demo-IsDemo (b ∷ bs) d v = run_demo-IsDemo bs (schedule b d) (schedule-IsDemo b d v)

pub main_left-IsDemo : IsDemo main_left
main_left-IsDemo = record {
  flag_self = refl;
  flag_other = refl;
  turn = omega arith;
  self_first = λ c t. cc;
  other_first = λ c t. cc;
  exclusive = refl;
  one_late = refl;
  counter = refl;
  finished = refl;
  local_self = omega arith;
  local_other = omega arith;
  reported = λ e. cc;
}

-- Whatever the order in which the two workers make their accesses, they are never both between the
-- return of `lock` and the write of `unlock`.
pub run_demo_exclusive :
    (bs : List Bool)
    → (critical (run_demo bs main_left).place0 && critical (run_demo bs main_left).place1) ≡ false
run_demo_exclusive bs = (run_demo-IsDemo bs main_left main_left-IsDemo).exclusive

-- Whatever the order in which the two workers make their accesses, if the process has ended then
-- the counter that it printed is twice the number of iterations.
pub run_demo_report :
    (bs : List Bool)
    → (run_demo bs main_left).shared.ended ≡ true
    → (run_demo bs main_left).shared.report ≡ 2 * iterations
run_demo_report bs = (run_demo-IsDemo bs main_left main_left-IsDemo).reported
