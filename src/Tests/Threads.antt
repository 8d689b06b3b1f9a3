-- ===== src/Tests/Threads.antt =====
-- The theorem on the collection of threads, at a list of three: thread 3 is finished.
use user_thread_scheduler.Common.{◌*◌, ◌≡◌, refl, [], ◌∷◌, arith, ◌==◌, if◌then◌else◌}
use user_thread_scheduler.GlobalList.{free_guarded_stack, collect, gc_finished_threads}
use user_thread_scheduler.GlobalList.Garbage.{Swept, gc_finished_threads-Swept}
use user_thread_scheduler.GlobalList.Links.{IsGlobalList}
use user_thread_scheduler.Machine.{ready, finished, munmap, World, ok, access}
use user_thread_scheduler.Tests.{blocks, world}

abbrev one_finished : World
one_finished = record world {
  tcb = record blocks {
    global_next = λ p. if p == 2 then 3 else if p == 3 then 4 else 0;
    global_prev = λ p. if p == 3 then 2 else if p == 4 then 3 else 0;
    state = λ p. if p == 3 then finished else if p == 2 then finished else ready;
    stack = λ p. p * 100000;
    stack_alloc = λ p. 69632;
  };
  global_thread_list = 2;
  current_thread = 2;
}

one_finished-IsGlobalList : IsGlobalList one_finished (2 ∷ 3 ∷ 4 ∷ [])
unfolding access
one_finished-IsGlobalList = record {
  links = (refl, refl, refl, (refl, refl, refl, (refl, refl, refl, refl)));
  distinct = (refl, (refl, (refl, tt)));
}

gc_finished_threads-Swept_example : Swept one_finished (2 ∷ 3 ∷ 4 ∷ [])
gc_finished_threads-Swept_example =
    gc_finished_threads-Swept one_finished-IsGlobalList (omega arith)

gc_finished_threads_runs :
    (w' : World) × (gc_finished_threads one_finished ≡ ok tt w')
    × (w'.os.calls ≡ munmap 300000 69632 ∷ [])
    × (w'.tcb.global_next 2 ≡ 4)
unfolding gc_finished_threads access free_guarded_stack collect
gc_finished_threads_runs = (_, refl, refl, refl)
