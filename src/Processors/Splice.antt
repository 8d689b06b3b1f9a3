-- ===== src/Processors/Splice.antt =====
-- src/uthread.c: `try_steal` puts the stolen list behind the thief's queue.
use user_thread_scheduler.Common.{
  ◌≡◌, sym, ◌∙◌, inl, inr, Bool, false, List, [], ◌∷◌, ◌++◌, arith, Distinct, has-append, ◌==◌,
  if◌then◌else◌, update, eq_self,
}
use user_thread_scheduler.Machine.{Ptr, null, Ends, ends, World, ok, access-ne-null}
use user_thread_scheduler.Machine.Chain.{
  last, Chain, has-last, Chain-update, last-ne-null, last-append,
}
use user_thread_scheduler.Machine.Queue.{IsQueue, with_next, TailIsOk, IsQueue-empty}
use user_thread_scheduler.Processors.{splice}

Chain-append :
    (live : Ptr → Bool) (next : Ptr → Ptr) (p s x : Ptr) (xs zs : List Ptr)
    → Chain live next p (x ∷ xs)
    → Chain live next s zs
    → Distinct (x ∷ xs ++ zs)
    → Chain live (update next (last (x ∷ xs)) s) p (x ∷ xs ++ zs)
Chain-append live next p s x [] zs (e, l, c) k d =
    (e, l, rw (eq_self x) (Chain-update live next x s s zs k d.0))
Chain-append live next p s x (y ∷ xs) zs (e, l, c) k d =
    let other : (last (y ∷ xs) == x) ≡ false =
      ground (arith, d.0, has-append x (y ∷ xs) zs, has-last y xs) in
    (e, l, rw other (Chain-append live next (next x) s y xs zs c k d.1))

abbrev pub next_spliced : (Ptr → Ptr) → Ends → Ends → Ptr → Ptr
next_spliced next q s = if q.tail == null then next else update next q.tail s.head

abbrev pub ends_spliced : Ends → Ends → Ends
ends_spliced q s = if q.tail == null then s else ends q.head s.tail

pub splice-ok :
    (w : World) (q s : Ends)
    → TailIsOk w.live q
    → splice q s w ≡ ok (ends_spliced q s) (with_next w (next_spliced w.tcb.next q s))
unfolding splice
splice-ok w q s (inl e) = rw e
splice-ok w q s (inr l) = rw (access-ne-null w.live q.tail l, l)

last-cons-append :
    (x : Ptr) (xs : List Ptr) (z : Ptr) (zs : List Ptr) → last (x ∷ xs ++ z ∷ zs) ≡ last (z ∷ zs)
last-cons-append x xs z zs = last-append (x ∷ xs) z zs

-- The spliced queue holds the thief's threads and then the stolen ones.
pub splice-IsQueue :
    {live : Ptr → Bool} {next : Ptr → Ptr} {q s : Ends} (xs : List Ptr) (z : Ptr) (zs : List Ptr)
    → IsQueue live next q xs
    → IsQueue live next s (z ∷ zs)
    → Distinct (xs ++ z ∷ zs)
    → IsQueue live (next_spliced next q s) (ends_spliced q s) (xs ++ z ∷ zs)
splice-IsQueue {q} [] z zs v u d = rw (IsQueue-empty v) u
splice-IsQueue {live} {next} {q} {s} (x ∷ xs) z zs v u d =
    let more : (q.tail == null) ≡ false = rw v.tail (last-ne-null live next q.head x xs v.chain) in
    rw more (
      rw v.tail (record {
        chain = Chain-append live next q.head s.head x xs (z ∷ zs) v.chain u.chain d;
        tail = u.tail ∙ sym (last-append (x ∷ xs) z zs);
        distinct = d;
      }))
