-- ===== src/System/Frames.antt =====
-- src/uthread.c: lists under the changes that other components make, and who is in the lists of
-- threads that are woken or collected.
use mathlib.Core.Path.{subst}
use user_thread_scheduler.Common.{
  ℕ, ◌≤◌, ◌≡◌, inl, inr, Bool, true, false, List, [], ◌∷◌, arith, length, All, has, ◌==◌, ==_iff,
  Bool-cases, update,
}
use user_thread_scheduler.GlobalList.Collect.{Collection, collected, is_garbage, garbage, survivors}
use user_thread_scheduler.Io.Events.{is_woken, reported}
use user_thread_scheduler.Machine.{Ptr, ThreadState, ready, World, access}
use user_thread_scheduler.Machine.Chain.{Chain}
use user_thread_scheduler.Sleep.{IsSleeping, due, asleep}
use user_thread_scheduler.Sleep.Wake.{woken}

-- Blocks outside a list may be freed.
pub Chain-live :
    (live live' : Ptr → Bool) (next : Ptr → Ptr) (p : Ptr) (xs : List Ptr)
    → Chain live next p xs
    → ((a : Ptr) → has a xs ≡ true → live' a ≡ live a)
    → Chain live' next p xs
unfolding access
Chain-live live live' next p [] c same = c
Chain-live live live' next p (x ∷ xs) (e, l, c) same = (
  e,
  ground (arith, l, same x),
  Chain-live live live' next (next x) xs c (λ a h. same a (ground arith)),
)

pub IsSleeping-live :
    {w : World} {xs ss : List Ptr} (d : Collection)
    → IsSleeping w xs ss
    → ((a : Ptr) → has a xs ≡ true → d.live a ≡ w.live a)
    → ((a : Ptr) → has a ss ≡ true → d.live a ≡ w.live a)
    → IsSleeping (collected w d) xs ss
IsSleeping-live {w} {xs} {ss} d v same same_asleep = record {
  ready = record {
    queue = record {
      chain = Chain-live w.live d.live w.tcb.next w.ready.head xs v.ready.queue.chain same;
      tail = v.ready.queue.tail;
      distinct = v.ready.queue.distinct;
    };
    count = v.ready.count;
  };
  chain = Chain-live w.live d.live w.tcb.next w.sleep_list_head ss v.chain same_asleep;
  distinct = v.distinct;
  apart = v.apart;
}

-- The threads that are collected.
pub has-garbage :
    (state : Ptr → ThreadState) (me a : Ptr) (gs : List Ptr)
    → has a (garbage state me gs) ≡ true
    → is_garbage state me a ≡ true
has-garbage state me a [] h = absurd cc
has-garbage state me a (x ∷ gs) h = elim (Bool-cases (is_garbage state me x)) [
  | inl bad ↦ elim (Bool-cases (x == a)) [
    | inl same ↦ subst (λ z. is_garbage state me z ≡ true) ((==_iff x a).0 same) bad
    | inr other ↦ has-garbage state me a gs (ground (arith, h, bad, other))
  ]
  | inr good ↦ has-garbage state me a gs (ground (arith, h, good))
]

-- A thread that has not finished, or is the current one, is spared.
pub spared :
    (state : Ptr → ThreadState) (me a : Ptr) (gs : List Ptr)
    → is_garbage state me a ≡ false
    → has a (garbage state me gs) ≡ false
spared state me a gs h = elim (Bool-cases (has a (garbage state me gs))) [
  | inl bad ↦ absurd (ground (arith, has-garbage state me a gs bad, h))
  | inr good ↦ good
]

pub length-survivors :
    (state : Ptr → ThreadState) (me : Ptr) (gs : List Ptr)
    → length (survivors state me gs) ≤ length gs
length-survivors state me [] = omega arith
length-survivors state me (x ∷ gs) = ground (arith, length-survivors state me gs)

-- The threads that `check_io_events` wakes are reported, and wait.
pub has-reported :
    (state : Ptr → ThreadState) (a : Ptr) (ps : List Ptr)
    → has a (reported state ps) ≡ true
    → (has a ps ≡ true) × (is_woken state a ≡ true)
has-reported state a [] h = absurd cc
has-reported state a (p ∷ ps) h = elim (Bool-cases (is_woken state p)) [
  | inl woken ↦ elim (Bool-cases (p == a)) [
    | inl same ↦
        (ground (arith, same), subst (λ z. is_woken state z ≡ true) ((==_iff p a).0 same) woken)
    | inr other ↦
        let r = has-reported (update state p ready) a ps (ground (arith, h, woken, other)) in
        (ground (arith, r.0), ground (arith, r.1, other))
  ]
  | inr same ↦
      let r = has-reported state a ps (ground (arith, h, same)) in (ground (arith, r.0), r.1)
]

pub All-has {κ} : (P : Ptr → Type κ) (a : Ptr) (ps : List Ptr) → All P ps → has a ps ≡ true → P a
All-has P a [] l h = absurd cc
All-has P a (p ∷ ps) l h = elim (Bool-cases (p == a)) [
  | inl same ↦ subst P ((==_iff p a).0 same) l.0
  | inr other ↦ All-has P a ps l.1 (ground (arith, h, other))
]

-- Both parts of the sleep list are of it.
pub has-due :
    (now : ℕ) (until : Ptr → ℕ) (a : Ptr) (ss : List Ptr)
    → has a (due now until ss) ≡ true
    → has a ss ≡ true
has-due now until a [] h = h
has-due now until a (x ∷ ss) h = ground (arith, h, has-due now until a ss)

pub has-asleep :
    (now : ℕ) (until : Ptr → ℕ) (a : Ptr) (ss : List Ptr)
    → has a (asleep now until ss) ≡ true
    → has a ss ≡ true
has-asleep now until a [] h = h
has-asleep now until a (x ∷ ss) h = ground (arith, h, has-asleep now until a ss)

pub length-asleep :
    (now : ℕ) (until : Ptr → ℕ) (ss : List Ptr) → length (asleep now until ss) ≤ length ss
length-asleep now until [] = omega arith
length-asleep now until (x ∷ ss) = ground (arith, length-asleep now until ss)
