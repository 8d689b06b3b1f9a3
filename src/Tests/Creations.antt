-- ===== src/Tests/Creations.antt =====
-- The theorems on thread creation, where 2 is in the global list, 2, 3 and 4 are ready, and block 8
-- is new.
use user_thread_scheduler.Common.{refl, inr, true, false, [], ◌∷◌}
use user_thread_scheduler.Create.{Grant}
use user_thread_scheduler.Create.Publish.{IsNew, Created, create_in-Created}
use user_thread_scheduler.Create.Refuse.{Refused, create_in-Refused}
use user_thread_scheduler.Machine.{World, access}
use user_thread_scheduler.Tests.{three_ready, three_ready-IsReadyQueue}

abbrev before : World
before = record three_ready { global_thread_list = 2; next_thread_id = 5; creation_counter = 6 }

before-IsNew : IsNew before 8 (2 ∷ []) (2 ∷ 3 ∷ 4 ∷ [])
unfolding access
before-IsNew = record {
  global = record { links = (refl, refl, refl, refl); distinct = (refl, tt) };
  queue = record { queue = three_ready-IsReadyQueue.queue; count = three_ready-IsReadyQueue.count };
  alive = refl;
  unlisted = refl;
  unready = refl;
  free_lock = refl;
  single = refl;
}

abbrev granted : Grant
granted = record { block = 8; region = 500000; protects = true }

abbrev unguarded : Grant
unguarded = record { block = 8; region = 500000; protects = false }

create_in-Created_example : Created before granted 8 700 800 3 (2 ∷ []) (2 ∷ 3 ∷ 4 ∷ [])
create_in-Created_example =
    create_in-Created before granted 8 700 800 3 (2 ∷ []) (2 ∷ 3 ∷ 4 ∷ []) before-IsNew refl refl

create_in-Refused_example : Refused before unguarded 8 700 800 3 (2 ∷ []) (2 ∷ 3 ∷ 4 ∷ [])
create_in-Refused_example =
    create_in-Refused before unguarded 8 700 800 3 (2 ∷ []) (2 ∷ 3 ∷ 4 ∷ []) before-IsNew
      (inr (refl, refl))
