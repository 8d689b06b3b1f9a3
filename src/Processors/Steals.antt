-- ===== src/Processors/Steals.antt =====
-- src/uthread.c: the end of `try_steal`, which puts the stolen threads behind the queue of the thief.
use user_thread_scheduler.Common.{
  ℕ, ◌+◌, ◌%◌, ◌^◌, ◌<◌, ◌≡◌, refl, true, List, [], ◌∷◌, ◌++◌, arith, length, length-append,
  Distinct, ◌==◌, eq_self,
}
use user_thread_scheduler.Machine.{Ptr, trace_steal, Ends, VirtualProcessor, World, ok, access}
use user_thread_scheduler.Machine.Queue.{IsQueue, IsQueue-TailIsOk, head-access}
use user_thread_scheduler.Processors.{set_at, locked, unlocked, vp_dequeue, add_loot, keep_loot}
use user_thread_scheduler.Processors.RunQueue.{IsRunQueue}
use user_thread_scheduler.Processors.Splice.{next_spliced, ends_spliced, splice-ok, splice-IsQueue}
use user_thread_scheduler.Trace.{recorded, clocked, trace_emit-ok}

-- The thief runs the first of its own threads `xs` and the stolen `z ∷ zs`, and queues the others.
abbrev pub first_of : List Ptr → Ptr → Ptr
first_of [] z = z
first_of (x ∷ xs) z = x

abbrev pub rest_of : List Ptr → Ptr → List Ptr → List Ptr
rest_of [] z zs = zs
rest_of (x ∷ xs) z zs = xs ++ z ∷ zs

pub first-rest :
    (xs : List Ptr) (z : Ptr) (zs : List Ptr) → xs ++ z ∷ zs ≡ first_of xs z ∷ rest_of xs z zs
first-rest [] z zs = refl
first-rest (x ∷ xs) z zs = refl

-- The thief's processor once the loot is behind its queue.
abbrev loaded : World → ℕ → ℕ → Ends → ℕ → VirtualProcessor
loaded w thief n loot = set_at thief unlocked (
    set_at thief (λ v. record v { local_count = (v.local_count + n) % 2 ^ 32 })
      (set_at thief (λ v. record v { queue = ends_spliced (w.vps thief).queue loot })
        (set_at thief locked w.vps)))

abbrev pub loot_kept : World → ℕ → ℕ → Ends → World
loot_kept w thief n loot = record w {
  tcb = record w.tcb { next = next_spliced w.tcb.next (w.vps thief).queue loot };
  vps = loaded w thief n loot;
  trace =
      recorded (w.tcb.thread_id loot.head) trace_steal (loaded w thief n loot thief).vp_id w.trace
        w.os;
  os = clocked w.trace w.os;
}

module _ {w : World} {xs : List Ptr} {z : Ptr} {zs : List Ptr} (thief n : ℕ) (loot : Ends)
    (v : IsRunQueue w thief xs) (u : IsQueue w.live w.tcb.next loot (z ∷ zs))
    (d : Distinct (xs ++ z ∷ zs)) (all : n ≡ length (z ∷ zs)) (small : length xs + n < 2 ^ 31) where
  pub loot_kept-IsRunQueue : IsRunQueue (loot_kept w thief n loot) thief (xs ++ z ∷ zs)
  loot_kept-IsRunQueue = record {
    queue = rw (eq_self thief) (splice-IsQueue xs z zs v.queue u d);
    count = rw (eq_self thief) (omega (arith, v.count, all, small, length-append {0} xs (z ∷ zs)));
    small = omega (arith, all, small, length-append {0} xs (z ∷ zs));
    free = rw (eq_self thief);
  }

  abbrev loot_added : World
  loot_added = record w {
    tcb = record w.tcb { next = next_spliced w.tcb.next (w.vps thief).queue loot };
    vps = loaded w thief n loot;
  }

  add_loot-ok : add_loot thief n loot w ≡ ok tt loot_added
  unfolding add_loot
  add_loot-ok =
      let free_lock : ((w.vps thief).queue_lock == 0) ≡ true = rw v.free in
      rw (
        free_lock,
        eq_self thief,
        splice-ok (record w { vps = set_at thief locked w.vps }) (w.vps thief).queue loot
            (IsQueue-TailIsOk v.queue),
        eq_self thief,
      )

  pub keep_loot-ok : keep_loot thief n loot w ≡ vp_dequeue thief (loot_kept w thief n loot)
  unfolding keep_loot
  keep_loot-ok =
      let l : access w.live loot.head ≡ true = head-access u in
      rw (
        add_loot-ok,
        l,
        trace_emit-ok (w.tcb.thread_id loot.head) trace_steal (loaded w thief n loot thief).vp_id
            loot_added,
      )
