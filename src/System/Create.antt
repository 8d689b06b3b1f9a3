-- ===== src/System/Create.antt =====
-- src/uthread.c: the whole of `uthread_create_with_priority` keeps the state well formed.
use user_thread_scheduler.Common.{
  ℕ, suc, ◌+◌, ◌<◌, ◌≡◌, refl, ap, ◌∙◌, inl, inr, true, false, List, [], ◌∷◌, ◌++◌, arith, length,
  has, has-append, ◌==◌, if◌then◌else◌, ==_iff, Bool-cases, update, eq_self,
}
use user_thread_scheduler.Create.{Grant, alloc_tcb, collect_locked, uthread_create_with_priority}
use user_thread_scheduler.Create.Publish.{
  IsNew, created, create_in-ok, created-IsGlobalList, created-IsReadyQueue,
}
use user_thread_scheduler.GlobalList.{stack_size, guard_page_size}
use user_thread_scheduler.GlobalList.Collect.{garbage, survivors}
use user_thread_scheduler.Machine.{Ptr, null, ready, World, ok}
use user_thread_scheduler.Machine.Apart.{Chain-linked}
use user_thread_scheduler.Machine.Chain.{Chain-update}
use user_thread_scheduler.Processors.{unlocked}
use user_thread_scheduler.Signals.{spinlock_acquire, block_signals-ok}
use user_thread_scheduler.System.{IsSystem}
use user_thread_scheduler.System.Block.{with_block, b_awake, b_other, block-IsSystem, block-IsNew}
use user_thread_scheduler.System.Frames.{length-survivors}
use user_thread_scheduler.System.Sweep.{masked-IsResting, swept, after_gc, swept-IsSystem}
use user_thread_scheduler.System.Whole.{blocked-IsSystem}

module _ {w : World} {p : Ptr} {xs ss gs : List Ptr} (v : IsSystem w p xs ss gs) (b : Ptr)
    (fresh : w.live b ≡ false) where
  -- The new thread is the last of the ready ones.
  module _ (g : Grant) (fn arg : Ptr) (priority : ℕ) (n : IsNew (with_block w b) b gs xs)
      (room : suc (length gs) < w.rounds) where
    abbrev end : World
    end = created (with_block w b) g b fn arg priority

    end_ready : (a : Ptr) → has a (xs ++ b ∷ []) ≡ true → end.tcb.state a ≡ ready
    end_ready a h = elim (Bool-cases (b == a)) [
      | inl same ↦ rw same refl
      | inr other ↦
          rw other (v.rest.ready_states a (ground (arith, h, other, has-append a xs (b ∷ []))))
    ]

    created-IsSystem : IsSystem end p (xs ++ b ∷ []) ss (b ∷ gs)
    created-IsSystem =
        let u = block-IsSystem v b fresh in
        let q = created-IsReadyQueue g fn arg priority n in
        let all = created-IsGlobalList g fn arg priority n in
        record {
          current = v.current;
          alive = u.alive;
          running_state = rw (b_other v b fresh) v.running_state;
          unready = ground (arith, has-append p xs (b ∷ []), v.unready, b_other v b fresh);
          awake = v.awake;
          rest = record {
            lists = record {
              ready = q;
              chain =
                  Chain-linked _ w.sleep_list_head b ss u.rest.lists.ready.queue
                    (Chain-update (update w.live b true) _ b null w.sleep_list_head ss
                      u.rest.lists.chain (b_awake v b fresh))
                    v.rest.lists.apart;
              distinct = v.rest.lists.distinct;
              apart = λ a h.
                  let other : (b == a) ≡ false = ground (arith, b_awake v b fresh, h, ==_iff b a) in
                  ground (arith, v.rest.lists.apart a h, other, has-append a xs (b ∷ []));
            };
            ready_states = end_ready;
            sleep_states = λ a h.
                let other : (b == a) ≡ false = ground (arith, b_awake v b fresh, h, ==_iff b a) in
                rw other (v.rest.sleep_states a h);
            global = all;
            few = room;
            few_asleep = v.rest.few_asleep;
            free_lock = v.rest.free_lock;
            policy = v.rest.policy;
            single = v.rest.single;
            epoll = v.rest.epoll;
          };
        }

-- Within the locked section that collects the finished threads.
locked-IsSystem :
    {w : World} {p : Ptr} {xs ss gs : List Ptr} (k : ℕ)
    → IsSystem w p xs ss gs
    → IsSystem (record w { global_list_lock = k }) p xs ss gs
locked-IsSystem {w} k v = record {
  current = v.current;
  alive = v.alive;
  running_state = v.running_state;
  unready = v.unready;
  awake = v.awake;
  rest = masked-IsResting w.alarm_blocked k v.rest;
}

-- What a whole creation comes to.
pub record Entered (w : World) (g : Grant) (fn arg : Ptr) (priority : ℕ) (p : Ptr)
    (xs ss gs : List Ptr) : Type 0 where
  pub end : World
  pub returns : uthread_create_with_priority g fn arg priority w ≡ ok w.next_thread_id end
  pub holds :
      IsSystem end p (xs ++ g.block ∷ []) ss (g.block ∷ survivors w.tcb.state w.current_thread gs)
  pub freed :
      (a : Ptr)
      → end.live a ≡ (
          if g.block == a
          then true
          else if has a (garbage w.tcb.state w.current_thread gs)
          then false
          else w.live a)
  pub id : end.tcb.thread_id g.block ≡ w.next_thread_id
  pub entry : (end.tcb.fn g.block ≡ fn) × (end.tcb.arg g.block ≡ arg)
  pub rank :
      (end.tcb.priority g.block ≡ priority) × (end.tcb.creation_order g.block ≡ w.creation_counter)
  pub stack :
      (end.tcb.stack g.block ≡ g.region)
      × (end.tcb.stack_alloc g.block ≡ stack_size + guard_page_size)

-- In a well-formed state of single-core mode with the lock of the global list free and fewer than
-- `rounds` threads with the new one, where `calloc` gives a block that no thread has once the
-- finished ones are collected, `mmap` gives a region and `mprotect` succeeds, a creation returns
-- the next thread id; the blocks of the finished threads are freed and those of the others
-- are not, the new thread is last in the ready queue and
-- first in the global list with its function, argument, priority, creation order and guarded
-- stack, and the state is well formed with the same thread running.
pub uthread_create_with_priority-Entered :
    (g : Grant) (fn arg : Ptr) (priority : ℕ) {w : World} {p : Ptr} {xs ss gs : List Ptr}
    → IsSystem w p xs ss gs
    → w.global_list_lock ≡ 0
    → suc (length gs) < w.rounds
    → (g.block == null) ≡ false
    → (if has g.block (garbage w.tcb.state w.current_thread gs) then false else w.live g.block)
      ≡ false
    → (g.region == null) ≡ false
    → g.protects ≡ true
    → Entered w g fn arg priority p xs ss gs
unfolding uthread_create_with_priority collect_locked alloc_tcb spinlock_acquire
uthread_create_with_priority-Entered g fn arg priority {w} {p} {xs} {ss} {gs} v unlocked room there
      unused mapped protected =
    let u = locked-IsSystem 1 (blocked-IsSystem v) in
    let r = locked-IsSystem 0 (swept-IsSystem u) in
    let open_lock : (w.global_list_lock == 0) ≡ true = rw unlocked in
    let fresh = (swept u.rest).alive g.block ∙ unused in
    let n = block-IsNew r g.block fresh there refl in
    record {
      end =
          created (with_block (record (after_gc u.rest) { global_list_lock = 0 }) g.block) g g.block
            fn arg priority;
      returns = rw (
        block_signals-ok w v.rest.single,
        open_lock,
        (swept u.rest).returns,
        there,
        there,
        create_in-ok g fn arg priority n mapped protected,
      );
      holds =
          created-IsSystem r g.block fresh g fn arg priority n
            (omega (arith, room, length-survivors w.tcb.state w.current_thread gs));
      freed = λ a. ap (λ b. if g.block == a then true else b) ((swept u.rest).alive a);
      id = rw (eq_self g.block) refl;
      entry = rw (eq_self g.block) (refl, refl);
      rank = rw (eq_self g.block) (refl, refl);
      stack = rw (eq_self g.block) (refl, refl);
    }
