-- ===== src/Tests/Queues.antt =====
-- The theorems on the ready queue and on the policies, at a queue of three threads.
use user_thread_scheduler.Common.{◌≡◌, refl, [], ◌∷◌, arith}
use user_thread_scheduler.Machine.{Ptr, ends, World, ok, ◌>>◌, access}
use user_thread_scheduler.Policy.{priority_next}
use user_thread_scheduler.Policy.Best.{IsWord, Chosen, priority_next-Chosen}
use user_thread_scheduler.ReadyQueue.{unlink, IsReadyQueue}
use user_thread_scheduler.ReadyQueue.Fifo.{enqueue_all, dequeue_many, enqueue-dequeue-fifo}
use user_thread_scheduler.ReadyQueue.Remove.{Removal, remove_from_ready_queue-erase}
use user_thread_scheduler.Tests.{three_ready, three_ready-IsReadyQueue}

enqueue-dequeue-fifo_example :
    (w' : World) × ((enqueue_all (7 ∷ 5 ∷ []) >> dequeue_many 5) three_ready
      ≡ ok (2 ∷ 3 ∷ 4 ∷ 7 ∷ 5 ∷ []) w')
    × IsReadyQueue w' []
unfolding access
enqueue-dequeue-fifo_example =
    enqueue-dequeue-fifo three_ready (2 ∷ 3 ∷ 4 ∷ []) (7 ∷ 5 ∷ []) three_ready-IsReadyQueue
      (refl, (refl, tt)) (refl, (refl, (refl, (refl, (refl, tt)))))

remove_from_ready_queue-erase_example : Removal three_ready 3 (2 ∷ 3 ∷ 4 ∷ [])
remove_from_ready_queue-erase_example =
    remove_from_ready_queue-erase 3 three_ready-IsReadyQueue (omega arith)

three_words : (p : Ptr) → IsWord three_ready.tcb p
three_words p = ground arith

priority_next-Chosen_example : Chosen three_ready (2 ∷ 3 ∷ 4 ∷ [])
priority_next-Chosen_example =
    priority_next-Chosen three_ready-IsReadyQueue (omega arith) three_words

-- Thread 3 has priority -1, the others 5.
priority_next_runs : (w' : World) × (priority_next three_ready ≡ ok 3 w') × (w'.ready ≡ ends 2 4)
unfolding priority_next access unlink
priority_next_runs = (_, refl, refl)
