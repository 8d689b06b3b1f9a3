-- ===== src/Processors/Steal.antt =====
-- src/uthread.c: the inner loop of `try_steal` moves threads from the front of the victim's queue.
use user_thread_scheduler.Common.{
  ℕ, zero, suc, ◌^◌, ◌<◌, ◌≡◌, refl, ◌∙◌, true, false, List, [], ◌∷◌, ◌++◌, append-nil,
  append_assoc, arith, length, take, drop, has, Distinct, has-append, ◌==◌, if◌then◌else◌, ==_iff,
  update, eq_self, dec32,
}
use user_thread_scheduler.Machine.{
  Ptr, null, Ends, ends, VirtualProcessor, World, ok, access, access-ne-null,
}
use user_thread_scheduler.Machine.Apart.{Chain-linked, linked-outside}
use user_thread_scheduler.Machine.Chain.{Chain, Chain-update}
use user_thread_scheduler.Machine.Queue.{
  IsQueue, linked, pushed, IsQueue-TailIsOk, push-IsQueue, push_back-ok,
}
use user_thread_scheduler.Processors.{steal_loop}

-- What a theft may change.
abbrev pub robbed : World → (Ptr → Ptr) → (Ptr → ℕ) → (ℕ → VirtualProcessor) → World
robbed w next owner vps = record w { tcb = record w.tcb { next = next; vp_id = owner }; vps = vps }

-- `n` threads of `ys` have moved behind `stolen`, which held `xs`.
pub record Moved (w : World) (victim thief_id n : ℕ) (stolen : Ends) (xs ys : List Ptr)
    : Type 0 where
  pub next : Ptr → Ptr
  pub owner : Ptr → ℕ
  pub vps : ℕ → VirtualProcessor
  pub loot : Ends
  pub returns : steal_loop victim thief_id n stolen w ≡ ok loot (robbed w next owner vps)
  pub stolen_queue : IsQueue w.live next loot (xs ++ take n ys)
  pub rest : Chain w.live next (vps victim).queue.head (drop n ys)
  pub tail : (vps victim).queue.tail ≡ (w.vps victim).queue.tail
  pub count : (vps victim).local_count ≡ length (drop n ys)
  pub lock : (vps victim).queue_lock ≡ (w.vps victim).queue_lock
  pub others : (j : ℕ) → (victim == j) ≡ false → vps j ≡ w.vps j
  pub outside : (a : Ptr) → has a (xs ++ ys) ≡ false → next a ≡ w.tcb.next a
  pub owners : (a : Ptr) → owner a ≡ (if has a (take n ys) then thief_id else w.tcb.vp_id a)

-- After one thread, `y`, has moved.
abbrev moved_to : World → ℕ → ℕ → (Ptr → Ptr) → Ptr → World
moved_to w victim thief_id next y = robbed w next (update w.tcb.vp_id y thief_id) (
    update w.vps victim (record (w.vps victim) {
      queue = ends (w.tcb.next y) (w.vps victim).queue.tail;
      local_count = dec32 (w.vps victim).local_count;
    }))

abbrev one_moved : World → ℕ → ℕ → Ends → Ptr → World
one_moved w victim thief_id stolen y =
    moved_to w victim thief_id (linked (update w.tcb.next y null) stolen y) y

module _ (w : World) (victim thief_id n : ℕ) (stolen : Ends) (xs : List Ptr) (y : Ptr)
    (ys : List Ptr) (e : (w.vps victim).queue.head ≡ y) (l : access w.live y ≡ true)
    (v : IsQueue w.live w.tcb.next stolen xs) where
  moves_one :
      Moved
        (one_moved w victim thief_id stolen y)
        victim
        thief_id
        n
        (pushed stolen y)
        (xs ++ y ∷ [])
        ys
      → Moved w victim thief_id (suc n) stolen xs (y ∷ ys)
  unfolding steal_loop
  moves_one r = record {
    next = r.next;
    owner = r.owner;
    vps = r.vps;
    loot = r.loot;
    returns =
        rw
          (
            e,
            access-ne-null w.live y l,
            l,
            l,
            l,
            push_back-ok (moved_to w victim thief_id (update w.tcb.next y null) y) stolen y
                (IsQueue-TailIsOk v),
          )
          r.returns;
    stolen_queue = rw (← append_assoc xs (y ∷ []) (take n ys)) r.stolen_queue;
    rest = r.rest;
    tail = r.tail ∙ rw (eq_self victim);
    count = r.count;
    lock = r.lock ∙ rw (eq_self victim);
    others = λ j h. r.others j h ∙ rw h;
    outside = λ a h.
        r.outside a (rw (append_assoc xs (y ∷ []) ys) h)
        ∙ linked-outside (update w.tcb.next y null) y a v (ground (arith, has-append a xs (y ∷ ys)))
        ∙ ground (arith, has-append a xs (y ∷ ys));
    owners = λ a. ground (arith, r.owners a);
  }

pub steal_loop-Moved :
    (w : World) (victim thief_id n : ℕ) (stolen : Ends) (xs ys : List Ptr)
    → IsQueue w.live w.tcb.next stolen xs
    → Chain w.live w.tcb.next (w.vps victim).queue.head ys
    → Distinct ys
    → ((a : Ptr) → has a ys ≡ true → has a xs ≡ false)
    → (w.vps victim).local_count ≡ length ys
    → length ys < 2 ^ 31
    → Moved w victim thief_id n stolen xs ys
unfolding steal_loop
steal_loop-Moved w victim thief_id zero stolen xs ys v c d apart count small = record {
  next = w.tcb.next;
  owner = w.tcb.vp_id;
  vps = w.vps;
  loot = stolen;
  returns = refl;
  stolen_queue = rw append-nil v;
  rest = c;
  tail = refl;
  count = count;
  lock = refl;
  others = λ j h. refl;
  outside = λ a h. refl;
  owners = λ a. refl;
}
steal_loop-Moved w victim thief_id (suc n) stolen xs [] v c d apart count small = record {
  next = w.tcb.next;
  owner = w.tcb.vp_id;
  vps = w.vps;
  loot = stolen;
  returns = let end : ((w.vps victim).queue.head == null) ≡ true = rw c in rw end;
  stolen_queue = rw append-nil v;
  rest = c;
  tail = refl;
  count = count;
  lock = refl;
  others = λ j h. refl;
  outside = λ a h. refl;
  owners = λ a. refl;
}
steal_loop-Moved w victim thief_id (suc n) stolen xs (y ∷ ys) v (e, l, c) d apart count small =
    moves_one w victim thief_id n stolen xs y ys e l v (
      steal_loop-Moved (one_moved w victim thief_id stolen y) victim thief_id n (pushed stolen y)
        (xs ++ y ∷ []) ys (push-IsQueue y v l new)
        (rw (eq_self victim) (
          Chain-linked (update w.tcb.next y null) (w.tcb.next y) y ys v
            (Chain-update w.live w.tcb.next y null (w.tcb.next y) ys c d.0)
            (λ a h. apart a (ground arith))))
        d.1 (λ a h. ground (arith, apart a, has-append a xs (y ∷ []), ==_iff y a, d.0))
        (rw (eq_self victim) (omega (arith, count))) (omega arith))
  where
    new : has y xs ≡ false
    new = apart y (ground arith)
