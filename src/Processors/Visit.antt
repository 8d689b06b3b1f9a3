-- ===== src/Processors/Visit.antt =====
-- src/uthread.c: the loop of `try_steal` over the victims, at a victim with threads to spare.
use mathlib.Core.Path.{subst}
use user_thread_scheduler.Common.{
  ℕ, zero, suc, ◌+◌, ◌/◌, ◌%◌, ◌^◌, ◌≤◌, ◌<◌, ◌≡◌, refl, sym, ap, ◌∙◌, false, List, [], ◌∷◌, ◌++◌,
  append_assoc, arith, length, take, drop, Distinct, has-append, Distinct-apart, ◌==◌,
}
use user_thread_scheduler.Machine.{Ptr, null, World, ok, access-ne-null}
use user_thread_scheduler.Machine.Apart.{IsQueue-same}
use user_thread_scheduler.Machine.Queue.{IsQueue, head-access}
use user_thread_scheduler.Processors.{victim_loop}
use user_thread_scheduler.Processors.RunQueue.{IsRunQueue, Dequeued, vp_dequeue-cons}
use user_thread_scheduler.Processors.Steal.{robbed}
use user_thread_scheduler.Processors.Steals.{
  first_of, rest_of, first-rest, loot_kept, loot_kept-IsRunQueue, keep_loot-ok,
}
use user_thread_scheduler.Processors.Theft.{take-append-drop, Robbed, rob-Robbed}

take-cons :
    (k : ℕ) (ys : List Ptr)
    → 1 ≤ k
    → 1 ≤ length ys
    → (z : Ptr) × (zs : List Ptr) × (take k ys ≡ z ∷ zs)
take-cons zero ys h j = absurd (omega arith)
take-cons (suc k) [] h j = absurd (omega arith)
take-cons (suc k) (y ∷ ys) h j = (y, take k ys, refl)

length-take : (k : ℕ) (ys : List Ptr) → k ≤ length ys → length (take k ys) ≡ k
length-take zero ys h = refl
length-take (suc k) [] h = absurd (omega arith)
length-take (suc k) (y ∷ ys) h = omega (arith, length-take k ys (omega arith))

Distinct-left : (xs ys : List Ptr) → Distinct (xs ++ ys) → Distinct xs
Distinct-left [] ys d = tt
Distinct-left (x ∷ xs) ys d = (ground (arith, d.0, has-append x xs ys), Distinct-left xs ys d.1)

-- A theft in one round of the loop over the victims: the thief runs `first`; the others wait.
pub record Theft (w : World) (thief start num n i : ℕ) (xs ys : List Ptr) : Type 0 where
  pub first : Ptr
  pub rest : List Ptr
  pub end : World
  pub returns : victim_loop thief start num (suc n) i w ≡ ok first end
  pub order : xs ++ take (length ys / 2) ys ≡ first ∷ rest
  pub holds : IsRunQueue end thief rest

module _ {w : World} {xs ys : List Ptr} (thief start num n i : ℕ) (v : IsRunQueue w thief xs)
    (u : IsRunQueue w ((start + i) % num) ys) (many : 2 ≤ length ys)
    (own : ((start + i) % num == (w.vps thief).vp_id) ≡ false)
    (other : ((start + i) % num == thief) ≡ false) (d : Distinct (xs ++ ys))
    (small : length xs + length ys < 2 ^ 31) where
  abbrev victim : ℕ
  victim = (start + i) % num

  abbrev k : ℕ
  k = length ys / 2

  r : Robbed w thief victim ys
  r = rob-Robbed thief victim u many other

  abbrev after_rob : World
  after_rob = robbed w r.next r.owner r.vps

  thief_left : IsRunQueue after_rob thief xs
  thief_left = record {
    queue =
        rw (r.others thief other)
          (IsQueue-same r.next v.queue (λ a h. r.outside a (Distinct-apart xs ys d a h)));
    count = rw (r.others thief other) v.count;
    small = v.small;
    free = rw (r.others thief other) v.free;
  }

  alone : Distinct (xs ++ take k ys)
  alone =
      Distinct-left (xs ++ take k ys) (drop k ys)
        (rw (append_assoc xs (take k ys) (drop k ys), take-append-drop k ys) d)

  module _ (z : Ptr) (zs : List Ptr) (e : take k ys ≡ z ∷ zs) where
    loot-IsQueue : IsQueue w.live r.next r.loot (z ∷ zs)
    loot-IsQueue = subst (IsQueue w.live r.next r.loot) e r.stolen

    all_alone : Distinct (xs ++ z ∷ zs)
    all_alone = subst (λ l. Distinct (xs ++ l)) e alone

    size : k ≡ length (z ∷ zs)
    size = sym (length-take k ys (omega arith)) ∙ ap (λ l. length l) e

    bound : length xs + k < 2 ^ 31
    bound = omega (arith, small)

    kept_queue :
        IsRunQueue (loot_kept after_rob thief k r.loot) thief (first_of xs z ∷ rest_of xs z zs)
    kept_queue =
        subst (IsRunQueue (loot_kept after_rob thief k r.loot) thief) (first-rest xs z zs)
          (loot_kept-IsRunQueue thief k r.loot thief_left loot-IsQueue all_alone size bound)

    taken : Dequeued (loot_kept after_rob thief k r.loot) thief (first_of xs z) (rest_of xs z zs)
    taken = vp_dequeue-cons thief kept_queue

    theft : Theft w thief start num n i xs ys
    unfolding victim_loop
    theft = record {
      first = first_of xs z;
      rest = rest_of xs z zs;
      end = _;
      returns =
          let some_loot : (r.loot.head == null) ≡ false =
            access-ne-null w.live r.loot.head (head-access loot-IsQueue) in
          rw (
            own,
            r.returns,
            some_loot,
            keep_loot-ok thief k r.loot thief_left loot-IsQueue all_alone size bound,
            taken.returns,
          );
      order = ap (λ l. xs ++ l) e ∙ first-rest xs z zs;
      holds = taken.holds;
    }

  -- Where the victim of the round is another processor with at least two threads, both run queues
  -- are well formed with no thread in common, and their lengths together stay below 2 ^ 31, the
  -- thief takes the first half of the victim's threads, rounded down, behind its own queue, and gets
  -- the first thread of that queue.
  pub victim_loop-Theft : Theft w thief start num n i xs ys
  victim_loop-Theft =
      let c = take-cons k ys (omega (arith, many)) (omega (arith, many)) in theft c.0 c.1 c.2
