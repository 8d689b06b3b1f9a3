-- ===== src/Processors/Theft.antt =====
-- src/uthread.c: `try_steal` takes half of the victim's threads.
use mathlib.Core.Path.{subst}
use user_thread_scheduler.Common.{
  ℕ, zero, suc, ◌-◌, ◌/◌, ◌^◌, ◌≤◌, ◌<◌, ◌≡◌, refl, sym, ap, ◌∙◌, Bool, true, false, List, [], ◌∷◌,
  ◌++◌, arith, length, take, drop, has, Distinct, Distinct-right, ◌==◌, if◌then◌else◌, eq_self, sle,
}
use user_thread_scheduler.Machine.{Ptr, null, Ends, ends, VirtualProcessor, World, ok}
use user_thread_scheduler.Machine.Chain.{last, Chain, Chain-ne-null}
use user_thread_scheduler.Machine.Queue.{IsQueue}
use user_thread_scheduler.Processors.{set_at, locked, unlocked, clear_tail, rob_some, rob}
use user_thread_scheduler.Processors.RunQueue.{IsRunQueue}
use user_thread_scheduler.Processors.Steal.{robbed, Moved, steal_loop-Moved}

length-drop : (n : ℕ) (ys : List Ptr) → length (drop n ys) ≡ length ys - n
length-drop zero ys = omega arith
length-drop (suc n) [] = omega arith
length-drop (suc n) (y ∷ ys) = omega (arith, length-drop n ys)

pub take-append-drop : (n : ℕ) (ys : List Ptr) → take n ys ++ drop n ys ≡ ys
take-append-drop zero ys = refl
take-append-drop (suc n) [] = refl
take-append-drop (suc n) (y ∷ ys) = ap (λ l. y ∷ l) (take-append-drop n ys)

last-drop : (n : ℕ) (ys : List Ptr) → n < length ys → last (drop n ys) ≡ last ys
last-drop n [] h = absurd (omega arith)
last-drop zero (y ∷ ys) h = refl
last-drop (suc n) (y ∷ []) h = absurd (omega arith)
last-drop (suc n) (y ∷ x ∷ ys) h = last-drop n (x ∷ ys) (omega arith)

-- The queue that is left to the victim is not empty.
clear_tail-IsQueue :
    (live : Ptr → Bool) (next : Ptr → Ptr) (q : Ends) (ys : List Ptr)
    → Chain live next q.head ys
    → 0 < length ys
    → q.tail ≡ last ys
    → Distinct ys
    → IsQueue live next (clear_tail q) ys
clear_tail-IsQueue live next q [] c pos t d = absurd (omega arith)
clear_tail-IsQueue live next q (y ∷ ys) c pos t d =
    rw (Chain-ne-null live next q.head y ys c) (record { chain = c; tail = t; distinct = d })

not_few : (n : ℕ) → 2 ≤ n → n < 2 ^ 31 → sle n 1 ≡ false
not_few n many small = ground arith

-- The first half of `ys` has left the run queue of `victim` and is the list `loot`; every other
-- processor is as before.
pub record Robbed (w : World) (thief victim : ℕ) (ys : List Ptr) : Type 0 where
  pub next : Ptr → Ptr
  pub owner : Ptr → ℕ
  pub vps : ℕ → VirtualProcessor
  pub loot : Ends
  pub returns : rob thief victim w ≡ ok (length ys / 2, loot) (robbed w next owner vps)
  pub stolen : IsQueue w.live next loot (take (length ys / 2) ys)
  pub left_over : IsRunQueue (robbed w next owner vps) victim (drop (length ys / 2) ys)
  pub others : (j : ℕ) → (victim == j) ≡ false → vps j ≡ w.vps j
  pub outside : (a : Ptr) → has a ys ≡ false → next a ≡ w.tcb.next a
  pub owners :
      (a : Ptr)
      → owner a ≡ (if has a (take (length ys / 2) ys) then (w.vps thief).vp_id else w.tcb.vp_id a)

module _ {w : World} {ys : List Ptr} (thief victim : ℕ) (v : IsRunQueue w victim ys)
    (many : 2 ≤ length ys) (other : (victim == thief) ≡ false) where
  abbrev at_lock : World
  at_lock = record w { vps = set_at victim locked w.vps }

  moved : Moved at_lock victim (w.vps thief).vp_id (length ys / 2) (ends null null) [] ys
  moved =
      steal_loop-Moved at_lock victim (w.vps thief).vp_id (length ys / 2) (ends null null) [] ys
        (record { chain = refl; tail = refl; distinct = tt }) (rw (eq_self victim) v.queue.chain)
        v.queue.distinct (λ a h. refl) (rw (eq_self victim) v.count) v.small

  victim_tail : (moved.vps victim).queue.tail ≡ last (drop (length ys / 2) ys)
  victim_tail =
      moved.tail
      ∙ rw (eq_self victim) (v.queue.tail ∙ sym (last-drop (length ys / 2) ys (omega arith)))

  abbrev left_vps : ℕ → VirtualProcessor
  left_vps =
      set_at victim unlocked
        (set_at victim (λ v. record v { queue = clear_tail v.queue }) moved.vps)

  rob_some-ok :
      rob_some thief victim (length ys / 2) at_lock
      ≡ ok (length ys / 2, moved.loot) (robbed w moved.next moved.owner left_vps)
  unfolding rob_some
  rob_some-ok = rw (other, moved.returns)

  rob-rob_some : rob thief victim w ≡ rob_some thief victim ((w.vps victim).local_count / 2) at_lock
  unfolding rob
  rob-rob_some =
      let free_lock : ((w.vps victim).queue_lock == 0) ≡ true = rw v.free in
      let few : sle (w.vps victim).local_count 1 ≡ false =
        rw v.count (not_few (length ys) many v.small) in
      rw (free_lock, eq_self victim, few)

  -- A victim other than the thief, with a well-formed run queue of at least two threads and a
  -- free lock, loses the first half of its threads, rounded down; they form a list in the same
  -- order and belong to the thief's processor, and the victim keeps the others in a well-formed
  -- queue.
  pub rob-Robbed : Robbed w thief victim ys
  rob-Robbed = record {
    next = moved.next;
    owner = moved.owner;
    vps = left_vps;
    loot = moved.loot;
    returns =
        rob-rob_some
        ∙ subst
            (λ n.
              rob_some thief victim (n / 2) at_lock
              ≡ ok (length ys / 2, moved.loot) (robbed w moved.next moved.owner left_vps))
            (sym v.count) rob_some-ok;
    stolen = moved.stolen_queue;
    left_over = record {
      queue = rw (eq_self victim) (
          clear_tail-IsQueue w.live moved.next (moved.vps victim).queue (drop (length ys / 2) ys)
            moved.rest (omega (arith, length-drop (length ys / 2) ys)) victim_tail
            (Distinct-right (take (length ys / 2) ys) (drop (length ys / 2) ys)
              (rw (take-append-drop (length ys / 2) ys) v.queue.distinct)));
      count = rw (eq_self victim) moved.count;
      small = omega (arith, v.small, length-drop (length ys / 2) ys);
      free = rw (eq_self victim);
    };
    others = λ j h. rw h (moved.others j h ∙ rw h);
    outside = moved.outside;
    owners = λ a. moved.owners a;
  }
