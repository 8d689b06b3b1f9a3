-- ===== src/ReadyQueue.antt =====
-- src/uthread.c: the ready queue (`enqueue`, `dequeue`, `remove_from_ready_queue`).
pub mod Fifo
pub mod Remove
use user_thread_scheduler.Common.{
  ℕ, zero, suc, ◌%◌, ◌^◌, ◌≡◌, true, false, List, [], ◌∷◌, ◌++◌, arith, length, length-append, has,
  ◌==◌, if◌then◌else◌, update, inc32, dec32,
}
use user_thread_scheduler.Machine.{
  Ptr, null, ready, Ends, ends, World, ok, out_of_fuel, Cmd, pure, ◌>>=◌, ◌>>◌, gets, modify,
  access, get_next, set_next, with_rounds, access-ne-null,
}
use user_thread_scheduler.Machine.Queue.{
  push_back, pop_front, IsQueue, with_next, linked, pushed, popped, TailIsOk, push-IsQueue,
  pop-IsQueue, head-access, push_back-ok, pop_front-ok,
}

abbrev pub set_ready : Ends → Cmd (Unit {0})
set_ready q = modify (λ w. record w { ready = q })

unfoldable pub enqueue : Ptr → Cmd (Unit {0})
enqueue p = do
  set_next p null
  q ← gets (λ w. w.ready)
  q' ← push_back q p
  set_ready q'
  modify (λ w. record w { ready_count = inc32 w.ready_count })

unfoldable pub dequeue : Cmd Ptr
dequeue = do
  q ← gets (λ w. w.ready)
  if q.head == null then pure null else do
    q' ← pop_front q q.head
    set_ready q'
    set_next q.head null
    modify (λ w. record w { ready_count = dec32 w.ready_count })
    pure q.head

-- The body of the loop at the block that is looked for.
unfoldable pub unlink : Ptr → Ptr → Cmd (Unit {0})
unlink prev cur = do
  n ← get_next cur
  q ← gets (λ w. w.ready)
  if prev == null then set_ready (ends n q.tail) else set_next prev n
  q ← gets (λ w. w.ready)
  set_ready (ends q.head (if cur == q.tail then prev else q.tail))
  set_next cur null
  modify (λ w. record w { ready_count = dec32 w.ready_count })

unfoldable pub remove_loop : ℕ → Ptr → Ptr → Ptr → Cmd (Unit {0})
remove_loop zero target prev cur = λ _. out_of_fuel
remove_loop (suc k) target prev cur =
    if cur == null
    then pure tt
    else if cur == target
    then unlink prev cur
    else do n ← get_next cur; remove_loop k target cur n

unfoldable pub remove_from_ready_queue : Ptr → Cmd (Unit {0})
unfolding remove_loop
remove_from_ready_queue target = do
  q ← gets (λ w. w.ready)
  with_rounds λ k. remove_loop k target null q.head

-- The ready queue holds `xs`, and counts them.
pub record IsReadyQueue (w : World) (xs : List Ptr) : Type 0 where
  pub queue : IsQueue w.live w.tcb.next w.ready xs
  pub count : w.ready_count ≡ length xs % 2 ^ 32

abbrev pub enqueued : Ptr → World → World
enqueued p w = record w {
  tcb = record w.tcb { next = linked (update w.tcb.next p null) w.ready p };
  ready = pushed w.ready p;
  ready_count = inc32 w.ready_count;
}

abbrev pub dequeued : World → World
dequeued w = record w {
  tcb = record w.tcb { next = update w.tcb.next w.ready.head null };
  ready = popped w.tcb.next w.ready w.ready.head;
  ready_count = dec32 w.ready_count;
}

pub enqueue-ok :
    (p : Ptr) (w : World)
    → TailIsOk w.live w.ready
    → access w.live p ≡ true
    → enqueue p w ≡ ok tt (enqueued p w)
unfolding enqueue
enqueue-ok p w t l = rw (l, push_back-ok (with_next w (update w.tcb.next p null)) w.ready p t)

module _ {w : World} where
  pub enqueue-IsReadyQueue :
      {xs : List Ptr} (p : Ptr)
      → IsReadyQueue w xs
      → access w.live p ≡ true
      → has p xs ≡ false
      → IsReadyQueue (enqueued p w) (xs ++ p ∷ [])
  enqueue-IsReadyQueue {xs} p v l h = record {
    queue = push-IsQueue p v.queue l h;
    count = omega (arith, v.count, length-append {0} xs (p ∷ []));
  }

  pub dequeue-nil : IsReadyQueue w [] → dequeue w ≡ ok null w
  unfolding dequeue
  dequeue-nil v = let e : (w.ready.head == null) ≡ true = rw v.queue.chain in rw e

  pub dequeue-cons :
      {x : Ptr} {xs : List Ptr} → IsReadyQueue w (x ∷ xs) → dequeue w ≡ ok w.ready.head (dequeued w)
  unfolding dequeue
  dequeue-cons {x} {xs} v =
      let l : access w.live w.ready.head ≡ true = head-access v.queue in
      rw (access-ne-null w.live w.ready.head l, pop_front-ok w w.ready w.ready.head l, l)

  pub dequeue-IsReadyQueue :
      {x : Ptr} {xs : List Ptr} → IsReadyQueue w (x ∷ xs) → IsReadyQueue (dequeued w) xs
  dequeue-IsReadyQueue v = record { queue = pop-IsQueue v.queue; count = omega (arith, v.count) }
