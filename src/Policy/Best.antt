-- ===== src/Policy/Best.antt =====
-- src/uthread.c: the thread that `priority_next` chooses.
use user_thread_scheduler.Common.{
  ℕ, zero, suc, ◌+◌, ◌*◌, ◌%◌, ◌^◌, ◌≤◌, ◌<◌, ◌≡◌, refl, ◌≢◌, ◌↔◌, ◌⊎◌, inl, inr, Bool, true, false,
  ◌&&◌, ◌||◌, List, [], ◌∷◌, ◌++◌, append-nil, append_assoc, arith, length, All, All-append,
  All-map, has, has-append, ◌==◌, if◌then◌else◌, Bool-cases,
}
use user_thread_scheduler.Machine.{
  Ptr, null, ThreadState, ready, Tcbs, World, ok, pure, access, access-ne-null,
}
use user_thread_scheduler.Machine.Chain.{Chain}
use user_thread_scheduler.Policy.{is_ready, comes_first, better, best_loop, priority_next}
use user_thread_scheduler.ReadyQueue.{IsReadyQueue}
use user_thread_scheduler.ReadyQueue.Remove.{with_ready, Removal, remove_from_ready_queue-erase}

-- A thread's place in the order of the policy: the signed priority, then the signed creation order.
abbrev pub signed : ℕ → ℕ
signed x = (x + 2 ^ 31) % 2 ^ 32

abbrev pub rank : Tcbs → Ptr → ℕ
rank t p = signed (t.priority p) * 2 ^ 32 + signed (t.creation_order p)

abbrev pub ReadyIn : Tcbs → Ptr → Type 0
ReadyIn t p = t.state p ≡ ready

-- `best` is a ready thread of `xs`, and no ready thread of `xs` has a smaller rank.
pub record IsBest (t : Tcbs) (xs : List Ptr) (best : Ptr) : Type 0 where
  pub ne_null : best ≢ null
  pub member : has best xs ≡ true
  pub is_ready : ReadyIn t best
  pub least : All (λ p. ReadyIn t p → rank t best ≤ rank t p) xs

-- Does the loop take `x` in place of `best`?
abbrev takes : Tcbs → Ptr → Ptr → Bool
takes t best x =
    is_ready (t.state x)
    && ((best == null)
        || comes_first (t.priority x) (t.priority best) (t.creation_order x)
            (t.creation_order best))

-- What the loop computes, with no memory to fault on.
pick : Tcbs → Ptr → List Ptr → Ptr
pick t best [] = best
pick t best (x ∷ xs) =
    pick t
      (if is_ready (t.state x)
          && ((best == null)
              || comes_first (t.priority x) (t.priority best) (t.creation_order x)
                  (t.creation_order best))
        then x
        else best)
      xs

abbrev pub IsWord : Tcbs → Ptr → Type 0
IsWord t p = (t.priority p < 2 ^ 32) × (t.creation_order p < 2 ^ 32)

comes_first-rank :
    (t : Tcbs) (x b : Ptr)
    → IsWord t x
    → IsWord t b
    → (comes_first (t.priority x) (t.priority b) (t.creation_order x) (t.creation_order b) ≡ true)
      ↔ (rank t x < rank t b)
comes_first-rank t x b hx hb = ground arith

-- `best` is NULL, or a live block.
abbrev IsChoice : World → Ptr → Type 0
IsChoice w p = ((p == null) ≡ true) ⊎ (access w.live p ≡ true)

if-IsChoice :
    (w : World) (b : Bool) (x best : Ptr)
    → access w.live x ≡ true
    → IsChoice w best
    → IsChoice w (if b then x else best)
if-IsChoice w true x best l c = inr l
if-IsChoice w false x best l c = c

test-ok :
    (w : World) (best x : Ptr)
    → access w.live x ≡ true
    → IsChoice w best
    → (if is_ready (w.tcb.state x) then better x best else pure false) w ≡ ok (takes w.tcb best x) w
unfolding better
test-ok w best x l c = elim (Bool-cases (is_ready (w.tcb.state x))) [
  | inl is ↦ elim c [
    | inl zero_p ↦ rw (is, zero_p)
    | inr live ↦ rw (is, access-ne-null w.live best live, l, live, l, live)
  ]
  | inr other ↦ rw other
]

best_loop-pick :
    (w : World) (k : ℕ) (best cur : Ptr) (xs : List Ptr)
    → Chain w.live w.tcb.next cur xs
    → IsChoice w best
    → length xs < k
    → best_loop k best cur w ≡ ok (pick w.tcb best xs) w
unfolding best_loop pick
best_loop-pick w zero best cur xs c b fuel = absurd (omega arith)
best_loop-pick w (suc k) best cur [] c b fuel = let e : (cur == null) ≡ true = rw c in rw e
best_loop-pick w (suc k) best cur (x ∷ xs) (e, l, c) b fuel =
    rw (e, access-ne-null w.live x l, l, test-ok w best x l b, l)
      (best_loop-pick w k (if takes w.tcb best x then x else best) (w.tcb.next x) xs c
        (if-IsChoice w (takes w.tcb best x) x best l b) (omega arith))

-- What `pick` returns, given that `best` is the best of the blocks before `xs`.
abbrev Choice : Tcbs → List Ptr → Ptr → Type 0
Choice t xs p = ((p ≡ null) × All (λ q. t.state q ≢ ready) xs) ⊎ IsBest t xs p

ready_iff : {s : ThreadState} → (is_ready s ≡ true) ↔ (s ≡ ready)
ready_iff {s} = ground arith

module _ (t : Tcbs) (ys : List Ptr) (x : Ptr) (ne : x ≢ null) where
  abbrev NotAfter : Ptr → Ptr → Type 0
  NotAfter b p = ReadyIn t p → rank t b ≤ rank t p

  has-end : has x (ys ++ x ∷ []) ≡ true
  has-end = ground (arith, has-append x ys (x ∷ []))

  -- `x` is chosen.
  taken : ReadyIn t x → All (NotAfter x) ys → IsBest t (ys ++ x ∷ []) x
  taken r all = record {
    ne_null = ne;
    member = has-end;
    is_ready = r;
    least = All-append (NotAfter x) ys (x ∷ []) all ((λ _. omega arith), tt);
  }

  -- `best` stays.
  kept : (best : Ptr) → IsBest t ys best → NotAfter best x → IsBest t (ys ++ x ∷ []) best
  kept best v low = record {
    ne_null = v.ne_null;
    member = ground (arith, has-append best ys (x ∷ []), v.member);
    is_ready = v.is_ready;
    least = All-append (NotAfter best) ys (x ∷ []) v.least (low, tt);
  }

  Choice-step :
      (best : Ptr)
      → Choice t ys best
      → IsWord t x
      → IsWord t best
      → Choice t (ys ++ x ∷ []) (if takes t best x then x else best)
  Choice-step best (inl (e, idle)) hx hb =
      let unset : (best == null) ≡ true = rw e in
      elim (Bool-cases (is_ready (t.state x))) [
        | inl r ↦
            rw (r, unset)
              (inr (
                taken (ready_iff.0 r) (
                  All-map (λ p. t.state p ≢ ready) (NotAfter x) (λ p no r. absurd (no r)) ys idle)))
        | inr r ↦ rw r (
            inl (
              e,
              All-append (λ p. t.state p ≢ ready) ys (x ∷ []) idle ((λ h. cc (ready_iff.1 h)), tt),
            ))
      ]
  Choice-step best (inr v) hx hb = elim (Bool-cases (takes t best x)) [
    | inl r ↦ rw r (
        inr (
          taken (ready_iff.0 (ground arith)) (
            All-map (NotAfter best) (NotAfter x)
              (λ p h s. ground (arith, h s, comes_first-rank t x best hx hb, v.ne_null)) ys
              v.least)))
    | inr r ↦
        rw r
          (inr (kept best v (λ s. ground (arith, ready_iff.1 s, comes_first-rank t x best hx hb))))
  ]

pick-Choice :
    (t : Tcbs) (ys : List Ptr) (best : Ptr) (xs : List Ptr)
    → Choice t ys best
    → ((p : Ptr) → IsWord t p)
    → All (λ p. p ≢ null) xs
    → Choice t (ys ++ xs) (pick t best xs)
unfolding pick
pick-Choice t ys best [] c h n = rw append-nil c
pick-Choice t ys best (x ∷ xs) c h n = rw (← append_assoc ys (x ∷ []) xs) (
    pick-Choice t (ys ++ x ∷ []) (if takes t best x then x else best) xs
      (Choice-step t ys x n.0 best c (h x) (h best)) h n.1)

Chain-All-ne-null :
    (live : Ptr → Bool) (next : Ptr → Ptr) (p : Ptr) (xs : List Ptr)
    → Chain live next p xs
    → All (λ q. q ≢ null) xs
Chain-All-ne-null live next p [] c = tt
Chain-All-ne-null live next p (x ∷ xs) (e, l, c) =
    ((λ z. ground (arith, access-ne-null live x l)), Chain-All-ne-null live next (next x) xs c)

-- No thread of the queue is ready and nothing changes, or the best ready thread is returned and
-- taken out of the queue.
abbrev pub Chosen : World → List Ptr → Type 0
Chosen w xs =
    (All (λ p. w.tcb.state p ≢ ready) xs × (priority_next w ≡ ok null w))
    ⊎ ((best : Ptr) × (r : Removal w best xs) × IsBest w.tcb xs best
        × (priority_next w ≡ ok best (with_ready w r.next r.ready r.count)))

-- From a well-formed ready queue of fewer threads than `rounds`, whose priorities and creation
-- orders are 32-bit patterns, `priority_next` returns the thread with the least signed priority
-- among those in state ready, the oldest of those with the same priority, and removes it alone;
-- if there is none it returns NULL and changes nothing.
pub priority_next-Chosen :
    {w : World} {xs : List Ptr}
    → IsReadyQueue w xs
    → length xs < w.rounds
    → ((p : Ptr) → IsWord w.tcb p)
    → Chosen w xs
unfolding priority_next
priority_next-Chosen {w} {xs} v enough words = elim choice [
  | inl (e, idle) ↦ inl (idle, rw found (rw e))
  | inr b ↦
      let r : Removal w (pick w.tcb null xs) xs =
        remove_from_ready_queue-erase (pick w.tcb null xs) v enough in
      inr (
        pick w.tcb null xs,
        r,
        b,
        rw found (
            let ne : (pick w.tcb null xs == null) ≡ false = ground (arith, b.ne_null) in
            rw (ne, r.returns)),
      )
]
  where
    choice : Choice w.tcb xs (pick w.tcb null xs)
    choice =
        pick-Choice w.tcb [] null xs (inl (refl, tt)) words
          (Chain-All-ne-null w.live w.tcb.next w.ready.head xs v.queue.chain)

    found : best_loop w.rounds null w.ready.head w ≡ ok (pick w.tcb null xs) w
    found = best_loop-pick w w.rounds null w.ready.head xs v.queue.chain (inl refl) enough
