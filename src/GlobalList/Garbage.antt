-- ===== src/GlobalList/Garbage.antt =====
-- src/uthread.c: `gc_finished_threads` over the whole list.
use user_thread_scheduler.Common.{
  ℕ, zero, suc, ◌<◌, ◌≡◌, refl, ◌∙◌, inl, inr, true, false, List, [], ◌∷◌, ◌++◌, append-nil,
  append_assoc, arith, length, has, Distinct-right, Distinct-middle, ◌==◌, if◌then◌else◌,
  Bool-cases,
}
use user_thread_scheduler.GlobalList.{collect, gc_loop, gc_finished_threads}
use user_thread_scheduler.GlobalList.Around.{
  next-Neighbour, prev-Neighbour, Links-collected, Chain-collected,
}
use user_thread_scheduler.GlobalList.Collect.{
  Collection, collected, is_garbage, garbage, survivors, unmap, unmaps, one_collected, collect-ok,
}
use user_thread_scheduler.GlobalList.Links.{IsGlobalList, Links-after, Links-at, Links-Chain}
use user_thread_scheduler.Machine.{Ptr, null, ThreadState, World, ok, access, access-ne-null}
use user_thread_scheduler.Machine.Chain.{Chain}

-- From `w` the loop runs to `collected w changes`.
record Rest (k : ℕ) (w : World) (cur : Ptr) (ys zs : List Ptr) : Type 0 where
  changes : Collection
  returns : gc_loop k cur w ≡ ok tt (collected w changes)
  holds : IsGlobalList (collected w changes) (ys ++ survivors w.tcb.state w.current_thread zs)
  alive :
      (a : Ptr)
      → changes.live a
        ≡ (if has a (garbage w.tcb.state w.current_thread zs) then false else w.live a)
  calls :
      changes.calls
      ≡ w.os.calls ++ unmaps w.tcb.stack w.tcb.stack_alloc (garbage w.tcb.state w.current_thread zs)

module _ (w : World) (ys : List Ptr) (t : Ptr) (zs : List Ptr)
    (v : IsGlobalList w (ys ++ t ∷ zs)) where
  abbrev after_collect : World
  after_collect = collected w (one_collected w t)

  abbrev state : Ptr → ThreadState
  state = w.tcb.state

  t-live : access w.live t ≡ true
  t-live =
      (Links-at w.live w.tcb.global_next w.tcb.global_prev null w.global_thread_list ys t zs
        v.links).0

  collect-IsGlobalList : IsGlobalList after_collect (ys ++ zs)
  collect-IsGlobalList = record {
    links =
        Links-collected w.live w.tcb.global_next w.tcb.global_prev w.global_thread_list ys t zs
          v.links v.distinct;
    distinct = Distinct-middle t ys zs v.distinct;
  }

  collect_lem : collect t w ≡ ok tt after_collect
  collect_lem =
      collect-ok w t t-live
        (rw
          (Links-at w.live w.tcb.global_next w.tcb.global_prev null w.global_thread_list ys t zs
            v.links).1
          (prev-Neighbour w.live w.tcb.global_next w.tcb.global_prev w.global_thread_list ys t zs
            v.links v.distinct))
        (next-Neighbour w.live w.tcb.global_next w.tcb.global_prev t zs
          (Links-after w.live w.tcb.global_next w.tcb.global_prev null w.global_thread_list ys t zs
            v.links)
          (Distinct-right ys (t ∷ zs) v.distinct).0)

  collects :
      (k : ℕ)
      → is_garbage state w.current_thread t ≡ true
      → Rest k after_collect (w.tcb.global_next t) ys zs
      → Rest (suc k) w t ys (t ∷ zs)
  unfolding gc_loop
  collects k dead r = record {
    changes = r.changes;
    returns = rw (access-ne-null w.live t t-live, t-live, t-live, dead, collect_lem) r.returns;
    holds = rw dead r.holds;
    alive = rw dead λ a. ground (arith, r.alive a);
    calls =
        rw dead (r.calls ∙ append_assoc w.os.calls (unmap (w.tcb.stack t) (w.tcb.stack_alloc t)) _);
  }

  keeps :
      (k : ℕ)
      → is_garbage state w.current_thread t ≡ false
      → Rest k w (w.tcb.global_next t) (ys ++ t ∷ []) zs
      → Rest (suc k) w t ys (t ∷ zs)
  unfolding gc_loop
  keeps k alive r = record {
    changes = r.changes;
    returns = rw (access-ne-null w.live t t-live, t-live, t-live, alive) r.returns;
    holds = rw (alive, ← append_assoc ys (t ∷ []) (survivors state w.current_thread zs)) r.holds;
    alive = rw alive r.alive;
    calls = rw alive r.calls;
  }

gc_loop-Rest :
    (k : ℕ) (w : World) (cur : Ptr) (ys zs : List Ptr)
    → IsGlobalList w (ys ++ zs)
    → Chain w.live w.tcb.global_next cur zs
    → length zs < k
    → Rest k w cur ys zs
unfolding gc_loop
gc_loop-Rest zero w cur ys zs v c fuel = absurd (omega arith)
gc_loop-Rest (suc k) w cur ys [] v c fuel = record {
  changes = record {
    next = w.tcb.global_next;
    prev = w.tcb.global_prev;
    first = w.global_thread_list;
    live = w.live;
    calls = w.os.calls;
  };
  returns = let end : (cur == null) ≡ true = rw c in rw end;
  holds = v;
  alive = λ a. refl;
  calls = rw append-nil;
}
gc_loop-Rest (suc k) w cur ys (t ∷ zs) v (e, l, c) fuel =
    elim (Bool-cases (is_garbage w.tcb.state w.current_thread t)) [
      | inl dead ↦ rw e (
          collects w ys t zs v k dead (
            gc_loop-Rest k (collected w (one_collected w t)) (w.tcb.global_next t) ys zs
              (collect-IsGlobalList w ys t zs v)
              (Chain-collected w.live w.tcb.global_next w.tcb.global_prev w.global_thread_list ys t
                zs v.links v.distinct)
              (omega arith)))
      | inr alive ↦ rw e (
          keeps w ys t zs v k alive (
            gc_loop-Rest k w (w.tcb.global_next t) (ys ++ t ∷ []) zs
              (rw (append_assoc ys (t ∷ []) zs) v) c (omega arith)))
    ]

-- The list holds the survivors, exactly the garbage has been freed, and the stacks of the garbage
-- have been unmapped in the order of the list.
pub record Swept (w : World) (gs : List Ptr) : Type 0 where
  pub changes : Collection
  pub returns : gc_finished_threads w ≡ ok tt (collected w changes)
  pub holds : IsGlobalList (collected w changes) (survivors w.tcb.state w.current_thread gs)
  pub alive :
      (a : Ptr)
      → changes.live a
        ≡ (if has a (garbage w.tcb.state w.current_thread gs) then false else w.live a)
  pub calls :
      changes.calls
      ≡ w.os.calls ++ unmaps w.tcb.stack w.tcb.stack_alloc (garbage w.tcb.state w.current_thread gs)

-- From a well-formed global list of fewer threads than `rounds`, `gc_finished_threads` returns;
-- it frees exactly the finished threads other than the current one, unmaps the stack of each of
-- them that has one, leaves the others linked in their order, and changes no other field of a
-- block.
pub gc_finished_threads-Swept :
    {w : World} {gs : List Ptr} → IsGlobalList w gs → length gs < w.rounds → Swept w gs
unfolding gc_finished_threads
gc_finished_threads-Swept {w} {gs} v enough = record {
  changes = r.changes;
  returns = r.returns;
  holds = r.holds;
  alive = r.alive;
  calls = r.calls;
}
  where
    r : Rest w.rounds w w.global_thread_list [] gs
    r =
        gc_loop-Rest w.rounds w w.global_thread_list [] gs v
          (Links-Chain w.live w.tcb.global_next w.tcb.global_prev null w.global_thread_list gs
            v.links)
          enough
