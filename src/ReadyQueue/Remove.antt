-- ===== src/ReadyQueue/Remove.antt =====
-- src/uthread.c: what `remove_from_ready_queue` does to the ready queue.
use mathlib.Core.Path.{subst}
use user_thread_scheduler.Common.{
  ℕ, zero, suc, ◌<◌, ◌≡◌, refl, sym, ap, ◌⊎◌, inl, inr, Bool, true, false, List, [], ◌∷◌, ◌++◌,
  append-nil, append_assoc, arith, length, length-append, has, Distinct, erase, has-append,
  erase-append, erase-absent, Distinct-erase, Distinct-right, ◌==◌, if◌then◌else◌, ==_iff,
  Bool-cases, eq_self, dec32,
}
use user_thread_scheduler.Machine.{Ptr, null, Ends, ends, World, ok, access, access-ne-null}
use user_thread_scheduler.Machine.Chain.{
  last, Chain, has-last, last-snoc, Chain-update, last-append, Chain-access, access-prefix,
  next_unlinked, prev_ok, next_unlinked-outside, Chain-unlink,
}
use user_thread_scheduler.Machine.Queue.{IsQueue}
use user_thread_scheduler.ReadyQueue.{unlink, remove_loop, remove_from_ready_queue, IsReadyQueue}

-- Everything but the `next` fields and the ready queue is as in `w`.
abbrev pub with_ready : World → (Ptr → Ptr) → Ends → ℕ → World
with_ready w next q c = record w { tcb = record w.tcb { next = next }; ready = q; ready_count = c }

abbrev ends_unlinked : (Ptr → Ptr) → Ends → Ptr → Ptr → Ends
ends_unlinked next q prev cur =
    ends (if prev == null then next cur else q.head) (if cur == q.tail then prev else q.tail)

unlink-ok :
    (prev cur : Ptr) (w : World)
    → access w.live cur ≡ true
    → ((prev == null) ≡ true) ⊎ (access w.live prev ≡ true)
    → unlink prev cur w
      ≡ ok tt (
          with_ready w
            (next_unlinked w.tcb.next prev cur)
            (ends_unlinked w.tcb.next w.ready prev cur)
            (dec32 w.ready_count))
unfolding unlink
unlink-ok prev cur w l (inl first) = rw (l, first, l)
unlink-ok prev cur w l (inr inner) = rw (l, access-ne-null w.live prev inner, inner, l)

-- The tail pointer, where `prev` is the block before `t`.
last-erased :
    (t : Ptr) (ys zs : List Ptr)
    → Distinct (ys ++ t ∷ zs)
    → (if t == last (ys ++ t ∷ zs) then last ys else last (ys ++ t ∷ zs)) ≡ last (ys ++ zs)
last-erased t ys [] d = rw (last-snoc t ys, eq_self t) (ap last (sym (append-nil ys)))
last-erased t ys (z ∷ zs) d =
    let new : (has t (z ∷ zs)) ≡ false = (Distinct-right ys (t ∷ z ∷ zs) d).0 in
    let ne : (t == last (z ∷ zs)) ≡ false = ground (arith, has-last z zs) in
    rw (last-append ys t (z ∷ zs), last-append ys z zs, ne)

module _ (live : Ptr → Bool) (next : Ptr → Ptr) (q : Ends) (t : Ptr) where
  unlink-IsQueue :
      (ys zs : List Ptr)
      → has t ys ≡ false
      → IsQueue live next q (ys ++ t ∷ zs)
      → IsQueue live (next_unlinked next (last ys) t) (ends_unlinked next q (last ys) t) (ys ++ zs)
  unlink-IsQueue [] zs h v = record {
    chain = Chain-update live next t null (next t) zs v.chain.2 v.distinct.0;
    tail = rw v.tail (last-erased t [] zs v.distinct);
    distinct = v.distinct.1;
  }
  unlink-IsQueue (y ∷ ys) zs h v =
      let inner : (last (y ∷ ys) == null) ≡ false =
        access-ne-null live _ (access-prefix live next q.head y ys (t ∷ zs) v.chain) in
      rw inner (record {
        chain = Chain-unlink live next t zs q.head y ys v.chain v.distinct;
        tail = rw v.tail (last-erased t (y ∷ ys) zs v.distinct);
        distinct =
            subst Distinct (erase-append t (y ∷ ys) zs h)
              (Distinct-erase t (y ∷ ys ++ t ∷ zs) v.distinct);
      })

-- `xs` without the block `t`, in a world that differs from `w` in the ready queue alone.
pub record Removal (w : World) (t : Ptr) (xs : List Ptr) : Type 0 where
  pub next : Ptr → Ptr
  pub ready : Ends
  pub count : ℕ
  pub returns : remove_from_ready_queue t w ≡ ok tt (with_ready w next ready count)
  pub holds : IsReadyQueue (with_ready w next ready count) (erase t xs)
  pub outside : (a : Ptr) → has a xs ≡ false → next a ≡ w.tcb.next a

-- The same of the loop, at the rest `zs` of the queue.
record LoopRemoval (k : ℕ) (w : World) (t prev cur : Ptr) (xs : List Ptr) : Type 0 where
  next : Ptr → Ptr
  ready : Ends
  count : ℕ
  returns : remove_loop k t prev cur w ≡ ok tt (with_ready w next ready count)
  holds : IsReadyQueue (with_ready w next ready count) (erase t xs)
  outside : (a : Ptr) → has a xs ≡ false → next a ≡ w.tcb.next a

module _ (w : World) (t : Ptr) where
  at_target :
      (k : ℕ) (ys zs : List Ptr)
      → IsReadyQueue w (ys ++ t ∷ zs)
      → has t ys ≡ false
      → LoopRemoval (suc k) w t (last ys) t (ys ++ t ∷ zs)
  unfolding remove_loop
  at_target k ys zs v h = record {
    next = next_unlinked w.tcb.next (last ys) t;
    ready = ends_unlinked w.tcb.next w.ready (last ys) t;
    count = dec32 w.ready_count;
    returns =
        rw (access-ne-null w.live t live, eq_self t)
          (unlink-ok (last ys) t w live
            (prev_ok w.live w.tcb.next w.ready.head ys (t ∷ zs) v.queue.chain));
    holds = rw (erase-append t ys zs h) (record {
      queue = unlink-IsQueue w.live w.tcb.next w.ready t ys zs h v.queue;
      count = omega (arith, v.count, length-append {0} ys (t ∷ zs), length-append {0} ys zs);
    });
    outside = λ a out. next_unlinked-outside w.tcb.next ys zs t a out;
  }
    where
      live : access w.live t ≡ true
      live = Chain-access w.live w.tcb.next w.ready.head ys t zs v.queue.chain

  past_other :
      (k : ℕ) (ys : List Ptr) (z : Ptr) (zs : List Ptr)
      → (z == t) ≡ false
      → access w.live z ≡ true
      → LoopRemoval k w t z (w.tcb.next z) ((ys ++ z ∷ []) ++ zs)
      → LoopRemoval (suc k) w t (last ys) z (ys ++ z ∷ zs)
  unfolding remove_loop
  past_other k ys z zs miss live r = record {
    next = r.next;
    ready = r.ready;
    count = r.count;
    returns = rw (access-ne-null w.live z live, miss, live) r.returns;
    holds = rw (← append_assoc ys (z ∷ []) zs) r.holds;
    outside = λ a out. r.outside a (rw (append_assoc ys (z ∷ []) zs) out);
  }

  remove_loop-ok :
      (k : ℕ) (cur : Ptr) (ys zs : List Ptr)
      → IsReadyQueue w (ys ++ zs)
      → Chain w.live w.tcb.next cur zs
      → has t ys ≡ false
      → length zs < k
      → LoopRemoval k w t (last ys) cur (ys ++ zs)
  unfolding remove_loop
  remove_loop-ok zero cur ys zs v c h fuel = absurd (omega arith)
  remove_loop-ok (suc k) cur ys [] v c h fuel =
      let end : (cur == null) ≡ true = rw c in
      let none_left : has t (ys ++ []) ≡ false = rw append-nil h in
      record {
        next = w.tcb.next;
        ready = w.ready;
        count = w.ready_count;
        returns = rw end;
        holds = rw (erase-absent t (ys ++ []) none_left) v;
        outside = λ a out. refl;
      }
  remove_loop-ok (suc k) cur ys (z ∷ zs) v c h fuel = elim (Bool-cases (z == t)) [
    | inl hit ↦
        let same : z ≡ t = (==_iff z t).0 hit in
        rw (c.0, same) (at_target k ys zs (rw (← same) v) h)
    | inr miss ↦ rw c.0 (
        past_other k ys z zs miss c.1 (
          subst (λ p. LoopRemoval k w t p (w.tcb.next z) ((ys ++ z ∷ []) ++ zs)) (last-snoc z ys)
            (remove_loop-ok k (w.tcb.next z) (ys ++ z ∷ []) zs (rw (append_assoc ys (z ∷ []) zs) v)
              c.2 (ground (arith, has-append t ys (z ∷ []))) (omega arith))))
  ]

-- From a well-formed ready queue of fewer threads than `rounds`, `remove_from_ready_queue`
-- returns, takes its block out of the queue if it is there, leaves the others in their order, and
-- does not write to the `next` field of a block outside the queue.
pub remove_from_ready_queue-erase :
    {w : World} {xs : List Ptr} (t : Ptr)
    → IsReadyQueue w xs
    → length xs < w.rounds
    → Removal w t xs
unfolding remove_from_ready_queue
remove_from_ready_queue-erase {w} {xs} t v enough = record {
  next = next;
  ready = ready;
  count = count;
  returns = returns;
  holds = holds;
  outside = outside;
}
  where
    open (remove_loop-ok w t w.rounds w.ready.head [] xs v v.queue.chain refl enough) use {
      next, ready, count, returns, holds, outside,
    }
