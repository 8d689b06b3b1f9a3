-- ===== src/Machine/Queue.antt =====
-- Queues threaded through the `next` field and known by their two ends: the statements that
-- src/uthread.c repeats for the ready queue, the wait queues and the run queues.
use mathlib.Core.Path.{subst}
use user_thread_scheduler.Common.{
  ◌≡◌, refl, sym, ◌⊎◌, inl, inr, Bool, true, false, List, [], ◌∷◌, ◌++◌, arith, has, Distinct,
  Distinct-snoc, ◌==◌, if◌then◌else◌, update,
}
use user_thread_scheduler.Machine.{
  Ptr, null, Ends, ends, World, ok, Cmd, pure, ◌>>=◌, ◌>>◌, access, get_next, set_next,
  access-ne-null,
}
use user_thread_scheduler.Machine.Chain.{
  last, Chain, last-snoc, Chain-update, Chain-ne-null, last-ne-null, access-last, Chain-snoc,
}

-- `if (tail) tail->next = p; else head = p; tail = p;`
unfoldable pub push_back : Ends → Ptr → Cmd Ends
push_back q p =
    if q.tail == null then pure (ends p p) else do set_next q.tail p; pure (ends q.head p)

-- `head = p->next; if (!head) tail = NULL;` for the first block `p`
unfoldable pub pop_front : Ends → Ptr → Cmd Ends
pop_front q p = do n ← get_next p; pure (ends n (if n == null then null else q.tail))

-- The queue holds the distinct blocks `xs` in this order.
pub record IsQueue (live : Ptr → Bool) (next : Ptr → Ptr) (q : Ends) (xs : List Ptr) : Type 0 where
  pub chain : Chain live next q.head xs
  pub tail : q.tail ≡ last xs
  pub distinct : Distinct xs

abbrev pub with_next : World → (Ptr → Ptr) → World
with_next w f = record w { tcb = record w.tcb { next = f } }

-- The `next` fields and the ends after `push_back`, and the ends after `pop_front`.
abbrev pub linked : (Ptr → Ptr) → Ends → Ptr → Ptr → Ptr
linked next q p = if q.tail == null then next else update next q.tail p

abbrev pub pushed : Ends → Ptr → Ends
pushed q p = if q.tail == null then ends p p else ends q.head p

abbrev pub popped : (Ptr → Ptr) → Ends → Ptr → Ends
popped next q p = ends (next p) (if next p == null then null else q.tail)

-- The tail pointer is NULL or points to a live block.
abbrev pub TailIsOk : (Ptr → Bool) → Ends → Type 0
TailIsOk live q = ((q.tail == null) ≡ true) ⊎ (access live q.tail ≡ true)

module _ {live : Ptr → Bool} {next : Ptr → Ptr} {q : Ends} where
  pub IsQueue-TailIsOk : {xs : List Ptr} → IsQueue live next q xs → TailIsOk live q
  IsQueue-TailIsOk {xs = []} v = inl (ground arith)
  IsQueue-TailIsOk {xs = x ∷ xs} v = inr (rw v.tail (access-last live next q.head x xs v.chain))

  pub IsQueue-empty : IsQueue live next q [] → (q.tail == null) ≡ true
  IsQueue-empty v = rw v.tail

  -- The new block is the last one.
  pub push-IsQueue :
      {xs : List Ptr} (p : Ptr)
      → IsQueue live next q xs
      → access live p ≡ true
      → has p xs ≡ false
      → IsQueue live (linked (update next p null) q p) (pushed q p) (xs ++ p ∷ [])
  push-IsQueue {xs = []} p v l h =
      let empty : (q.tail == null) ≡ true = ground arith in
      rw empty (record { chain = (refl, l, ground arith); tail = refl; distinct = (refl, tt) })
  push-IsQueue {xs = x ∷ xs} p v l h =
      let more : (q.tail == null) ≡ false =
        rw v.tail (last-ne-null live next q.head x xs v.chain) in
      rw more (
        rw v.tail (record {
          chain = Chain-snoc live next p q.head x xs v.chain v.distinct h l;
          tail = sym (last-snoc p (x ∷ xs));
          distinct = Distinct-snoc p (x ∷ xs) v.distinct h;
        }))

  -- The first block leaves.
  pub pop-IsQueue :
      {x : Ptr} {xs : List Ptr}
      → IsQueue live next q (x ∷ xs)
      → IsQueue live (update next q.head null) (popped next q q.head) xs
  pop-IsQueue {x} {xs} v =
      subst (λ h. IsQueue live (update next h null) (popped next q h) xs) (sym v.chain.0)
        (from_first xs v)
    where
      from_first :
          (xs : List Ptr)
          → IsQueue live next q (x ∷ xs)
          → IsQueue live (update next x null) (popped next q x) xs
      from_first [] v = record { chain = v.chain.2; tail = ground arith; distinct = tt }
      from_first (y ∷ ys) v = record {
        chain = Chain-update live next x null (next x) (y ∷ ys) v.chain.2 v.distinct.0;
        tail = rw (Chain-ne-null live next (next x) y ys v.chain.2) v.tail;
        distinct = v.distinct.1;
      }

  pub head-access :
      {x : Ptr} {xs : List Ptr} → IsQueue live next q (x ∷ xs) → access live q.head ≡ true
  head-access v = rw v.chain.0 v.chain.1

  -- A queue is not touched by a write to the `next` field of a block that is not in it.
  pub IsQueue-update :
      {xs : List Ptr} (a b : Ptr)
      → IsQueue live next q xs
      → has a xs ≡ false
      → IsQueue live (update next a b) q xs
  IsQueue-update {xs} a b v h = record {
    chain = Chain-update live next a b q.head xs v.chain h;
    tail = v.tail;
    distinct = v.distinct;
  }

pub push_back-ok :
    (w : World) (q : Ends) (p : Ptr)
    → TailIsOk w.live q
    → push_back q p w ≡ ok (pushed q p) (with_next w (linked w.tcb.next q p))
unfolding push_back
push_back-ok w q p (inl e) = rw e
push_back-ok w q p (inr l) = rw (access-ne-null w.live q.tail l, l)

pub pop_front-ok :
    (w : World) (q : Ends) (p : Ptr)
    → access w.live p ≡ true
    → pop_front q p w ≡ ok (popped w.tcb.next q p) w
unfolding pop_front
pop_front-ok w q p l = rw l
