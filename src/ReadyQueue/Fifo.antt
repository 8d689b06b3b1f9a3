-- ===== src/ReadyQueue/Fifo.antt =====
-- src/uthread.c: `enqueue` and `dequeue` are first in, first out.
use user_thread_scheduler.Common.{
  ℕ, zero, suc, ◌≡◌, refl, ap, true, false, List, [], ◌∷◌, ◌++◌, append-nil, append_assoc, arith,
  length, All, has, Distinct, has-append, has-middle,
}
use user_thread_scheduler.Machine.{Ptr, World, ok, Cmd, pure, ◌>>=◌, ◌>>◌, access}
use user_thread_scheduler.Machine.Queue.{IsQueue-TailIsOk}
use user_thread_scheduler.ReadyQueue.{
  enqueue, dequeue, IsReadyQueue, enqueued, dequeued, enqueue-ok, enqueue-IsReadyQueue,
  dequeue-cons, dequeue-IsReadyQueue,
}

-- The blocks of `ps` are enqueued in this order.
abbrev pub enqueue_all : List Ptr → Cmd (Unit {0})
enqueue_all [] = pure tt
enqueue_all (p ∷ ps) = enqueue p >> enqueue_all ps

abbrev pub all_enqueued : List Ptr → World → World
all_enqueued [] w = w
all_enqueued (p ∷ ps) w = all_enqueued ps (enqueued p w)

-- `n` blocks are dequeued.
abbrev pub dequeue_many : ℕ → Cmd (List Ptr)
dequeue_many zero = pure []
dequeue_many (suc n) = do p ← dequeue; ps ← dequeue_many n; pure (p ∷ ps)

abbrev pub many_dequeued : ℕ → World → World
many_dequeued zero w = w
many_dequeued (suc n) w = many_dequeued n (dequeued w)

pub enqueue_all-IsReadyQueue :
    (w : World) (xs ps : List Ptr)
    → IsReadyQueue w xs
    → All (λ p. access w.live p ≡ true) ps
    → Distinct (xs ++ ps)
    → (enqueue_all ps w ≡ ok tt (all_enqueued ps w)) × IsReadyQueue (all_enqueued ps w) (xs ++ ps)
enqueue_all-IsReadyQueue w xs [] v l d = (refl, rw append-nil v)
enqueue_all-IsReadyQueue w xs (p ∷ ps) v l d =
    let new : has p xs ≡ false = ground (arith, has-middle p xs ps d, has-append p xs ps) in
    let more =
      enqueue_all-IsReadyQueue (enqueued p w) (xs ++ p ∷ []) ps (enqueue-IsReadyQueue p v l.0 new)
        l.1 (rw (append_assoc xs (p ∷ []) ps) d) in
    (
      rw (enqueue-ok p w (IsQueue-TailIsOk v.queue) l.0) more.0,
      rw (← append_assoc xs (p ∷ []) ps) more.1,
    )

pub dequeue_many-IsReadyQueue :
    (w : World) (xs ys : List Ptr)
    → IsReadyQueue w (xs ++ ys)
    → (dequeue_many (length xs) w ≡ ok xs (many_dequeued (length xs) w))
      × IsReadyQueue (many_dequeued (length xs) w) ys
dequeue_many-IsReadyQueue w [] ys v = (refl, v)
dequeue_many-IsReadyQueue w (x ∷ xs) ys v =
    let more = dequeue_many-IsReadyQueue (dequeued w) xs ys (dequeue-IsReadyQueue v) in
    (
      rw (dequeue-cons v, more.0)
          (ap (λ y. ok (y ∷ xs) (many_dequeued (length xs) (dequeued w))) v.queue.chain.0),
      more.1,
    )

-- From a well-formed queue that holds `xs`, enqueueing the distinct live blocks `ps` that are not
-- in it and then dequeueing as many blocks as there are gives `xs` and then `ps`, and leaves the
-- queue empty.
pub enqueue-dequeue-fifo :
    (w : World) (xs ps : List Ptr)
    → IsReadyQueue w xs
    → All (λ p. access w.live p ≡ true) ps
    → Distinct (xs ++ ps)
    → (w' : World) × ((enqueue_all ps >> dequeue_many (length (xs ++ ps))) w ≡ ok (xs ++ ps) w')
      × IsReadyQueue w' []
enqueue-dequeue-fifo w xs ps v l d =
    let (full, holds) = enqueue_all-IsReadyQueue w xs ps v l d in
    let (taken, empty) =
      dequeue_many-IsReadyQueue (all_enqueued ps w) (xs ++ ps) [] (rw append-nil holds) in
    (_, rw (full, taken), empty)
