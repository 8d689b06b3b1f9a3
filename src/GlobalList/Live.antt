-- ===== src/GlobalList/Live.antt =====
-- src/uthread.c: the search of `uthread_yield` and `uthread_exit` for a thread that lives.
use user_thread_scheduler.Common.{
  ℕ, zero, suc, ◌<◌, ◌≡◌, refl, ap, ◌∙◌, inl, inr, Bool, true, false, List, [], ◌∷◌, arith, length,
  has, ◌==◌, if◌then◌else◌, ==_iff, Bool-cases,
}
use user_thread_scheduler.GlobalList.{is_finished, live_loop, has_live}
use user_thread_scheduler.GlobalList.Links.{Links, IsGlobalList}
use user_thread_scheduler.Machine.{Ptr, null, ThreadState, World, ok, access-ne-null}

abbrev pub some_live : (Ptr → ThreadState) → List Ptr → Bool
some_live state [] = false
some_live state (x ∷ xs) = if is_finished (state x) then some_live state xs else true

live_loop-ok :
    (w : World) (k : ℕ) (b p : Ptr) (xs : List Ptr)
    → Links w.live w.tcb.global_next w.tcb.global_prev b p xs
    → length xs < k
    → live_loop k p w ≡ ok (some_live w.tcb.state xs) w
unfolding live_loop
live_loop-ok w zero b p xs c h = absurd (omega arith)
live_loop-ok w (suc k) b p [] c h = let end : (p == null) ≡ true = rw c in rw end
live_loop-ok w (suc k) b p (x ∷ xs) (e, l, f, c) h =
    let some_thread : (x == null) ≡ false = access-ne-null w.live x l in
    elim (Bool-cases (is_finished (w.tcb.state x))) [
      | inl over ↦
          rw (
            e,
            some_thread,
            l,
            l,
            over,
            live_loop-ok w k x (w.tcb.global_next x) xs c (omega arith),
          )
      | inr on ↦ rw (e, some_thread, l, l, on)
    ]

some_live-has :
    (state : Ptr → ThreadState) (q : Ptr) (xs : List Ptr)
    → has q xs ≡ true
    → is_finished (state q) ≡ false
    → some_live state xs ≡ true
some_live-has state q [] h on = absurd cc
some_live-has state q (x ∷ xs) h on = elim (Bool-cases (x == q)) [
  | inl same ↦ let e : x ≡ q = (==_iff x q).0 same in rw (e, on) refl
  | inr other ↦ ground (arith, some_live-has state q xs (ground (arith, h, other)) on)
]

pub has_live-some :
    {w : World} {gs : List Ptr}
    → IsGlobalList w gs
    → length gs < w.rounds
    → has_live w ≡ ok (some_live w.tcb.state gs) w
unfolding has_live
has_live-some {w} {gs} v few = live_loop-ok w w.rounds null w.global_thread_list gs v.links few

pub has_live-true :
    {w : World} {gs : List Ptr} (q : Ptr)
    → IsGlobalList w gs
    → length gs < w.rounds
    → has q gs ≡ true
    → is_finished (w.tcb.state q) ≡ false
    → has_live w ≡ ok true w
has_live-true {w} {gs} q v few h on =
    has_live-some v few ∙ ap (λ b. ok b w) (some_live-has w.tcb.state q gs h on)
