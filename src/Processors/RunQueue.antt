-- ===== src/Processors/RunQueue.antt =====
-- src/uthread.c: the run queue of a virtual processor (`vp_enqueue`, `vp_dequeue`).
use mathlib.Core.Path.{subst}
use user_thread_scheduler.Common.{
  ℕ, ◌^◌, ◌<◌, ◌≡◌, true, false, List, [], ◌∷◌, arith, length, ◌==◌, update, eq_self, dec32,
}
use user_thread_scheduler.Machine.{Ptr, null, VirtualProcessor, World, ok, access, access-ne-null}
use user_thread_scheduler.Machine.Queue.{IsQueue, popped, pop-IsQueue, head-access, pop_front-ok}
use user_thread_scheduler.Processors.{set_at, locked, unlocked, vp_dequeue}

-- The run queue of processor `i` holds `xs` and counts them, and its lock is free.
pub record IsRunQueue (w : World) (i : ℕ) (xs : List Ptr) : Type 0 where
  pub queue : IsQueue w.live w.tcb.next (w.vps i).queue xs
  pub count : (w.vps i).local_count ≡ length xs
  pub small : length xs < 2 ^ 31
  pub free : (w.vps i).queue_lock ≡ 0

-- Everything but the `next` fields, the owners and the processors is as in `w`.
abbrev pub with_vps : World → (Ptr → Ptr) → (Ptr → ℕ) → (ℕ → VirtualProcessor) → World
with_vps w next owner vps = record w {
  tcb = record w.tcb { next = next; vp_id = owner };
  vps = vps;
}

pub record Dequeued (w : World) (i : ℕ) (x : Ptr) (xs : List Ptr) : Type 0 where
  pub vps : ℕ → VirtualProcessor
  pub returns : vp_dequeue i w ≡ ok x (with_vps w (update w.tcb.next x null) w.tcb.vp_id vps)
  pub holds : IsRunQueue (with_vps w (update w.tcb.next x null) w.tcb.vp_id vps) i xs
  pub others : (j : ℕ) → (i == j) ≡ false → vps j ≡ w.vps j

module _ {w : World} {x : Ptr} {xs : List Ptr} (i : ℕ) (v : IsRunQueue w i (x ∷ xs)) where
  abbrev first_taken : ℕ → VirtualProcessor
  first_taken = set_at i unlocked (
      set_at i (λ v. record v { local_count = dec32 v.local_count })
        (set_at i (λ v. record v { queue = popped w.tcb.next (w.vps i).queue (w.vps i).queue.head })
          (set_at i locked w.vps)))

  vp_dequeue-ok :
      vp_dequeue i w
      ≡ ok
          (w.vps i).queue.head
          (with_vps w (update w.tcb.next (w.vps i).queue.head null) w.tcb.vp_id first_taken)
  unfolding vp_dequeue
  vp_dequeue-ok =
      let l : access w.live (w.vps i).queue.head ≡ true = head-access v.queue in
      let free_lock : ((w.vps i).queue_lock == 0) ≡ true = rw v.free in
      rw (
        free_lock,
        eq_self i,
        access-ne-null w.live (w.vps i).queue.head l,
        pop_front-ok (record w { vps = set_at i locked w.vps }) (w.vps i).queue (w.vps i).queue.head
            l,
        eq_self i,
        l,
        eq_self i,
      )

  -- `vp_dequeue` takes the first thread of the run queue.
  pub vp_dequeue-cons : Dequeued w i x xs
  vp_dequeue-cons = record {
    vps = first_taken;
    returns =
        subst
          (λ h.
            vp_dequeue i w ≡ ok h (with_vps w (update w.tcb.next h null) w.tcb.vp_id first_taken))
          v.queue.chain.0 vp_dequeue-ok;
    holds = record {
      queue = rw (eq_self i) (
          subst
            (λ h.
              IsQueue w.live (update w.tcb.next h null)
                (popped w.tcb.next (w.vps i).queue (w.vps i).queue.head) xs)
            v.queue.chain.0 (pop-IsQueue v.queue));
      count = rw (eq_self i) (omega (arith, v.count, v.small));
      small = omega (arith, v.small);
      free = rw (eq_self i);
    };
    others = λ j h. rw h;
  }

-- On an empty run queue it returns NULL.
pub vp_dequeue-nil :
    {w : World} (i : ℕ)
    → IsRunQueue w i []
    → (vps : ℕ → VirtualProcessor) × (vp_dequeue i w ≡ ok null (record w { vps = vps }))
      × ((j : ℕ) → vps j ≡ w.vps j)
unfolding vp_dequeue
vp_dequeue-nil {w} i v =
    let free_lock : ((w.vps i).queue_lock == 0) ≡ true = rw v.free in
    let end : ((w.vps i).queue.head == null) ≡ true = rw v.queue.chain in
    (
      set_at i unlocked (set_at i locked w.vps),
      rw (free_lock, eq_self i, end, eq_self i),
      λ j. ground (arith, v.free),
    )
