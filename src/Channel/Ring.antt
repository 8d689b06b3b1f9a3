-- ===== src/Channel/Ring.antt =====
-- src/uthread.c: the ring buffer of a channel is a bounded queue.
use mathlib.Core.Path.{subst}
use native.Mathlib.Nat.{mod_self, mod-eq_of_lt}
use user_thread_scheduler.Channel.{Channel, advance, ring_access, put, take_out}
use user_thread_scheduler.Common.{
  ℕ, ◌+◌, ◌-◌, ◌%◌, ◌≤◌, ◌<◌, ◌≡◌, refl, sym, ◌∙◌, inl, inr, true, false, List, [], ◌∷◌, ◌++◌,
  arith, length, length-append, ltb, ◌==◌, if◌then◌else◌, Bool-cases, update, inc32, slt,
}
use user_thread_scheduler.Machine.{Ptr, World, ok}

-- The position `x` of a ring of `c` places, for `x` below twice `c`.
abbrev pub wrap : ℕ → ℕ → ℕ
wrap c x = if ltb x c then x else x - c

-- From position `i` on the buffer holds the messages `ms`.
abbrev pub Holds : (ℕ → Ptr) → ℕ → ℕ → List Ptr → Type 0
Holds buffer c i [] = Unit
Holds buffer c i (m ∷ ms) = (buffer i ≡ m) × Holds buffer c (wrap c (i + 1)) ms

-- The channel holds the messages `ms`, oldest first.
pub record IsRing (ch : Channel) (ms : List Ptr) : Type 0 where
  pub some_room : 1 ≤ ch.capacity
  pub bounded : ch.capacity ≤ 64
  pub head : ch.head < ch.capacity
  pub tail : ch.tail ≡ wrap ch.capacity (ch.head + length ms)
  pub fits : length ms ≤ ch.capacity
  pub holds : Holds ch.buffer ch.capacity ch.head ms

remainder : (i c : ℕ) → i < c → (i + 1) % c ≡ wrap c (i + 1)
remainder i c h = elim (Bool-cases (i + 1 == c)) [
  | inl e ↦
      let whole : c ≡ i + 1 = ground arith in
      subst (λ d. (i + 1) % d ≡ wrap d (i + 1)) (sym whole) (mod_self (i + 1) ∙ (ground arith))
  | inr ne ↦ mod-eq_of_lt {n = i + 1} {m = c} (ground arith) ∙ (ground arith)
]

advance-wrap : (i c : ℕ) → i < c → c ≤ 64 → advance i c ≡ wrap c (i + 1)
advance-wrap i c h k =
    let words : advance i c ≡ (i + 1) % c =
      let small : inc32 i ≡ i + 1 = omega (arith, h, k) in
      let positive : slt c 0 ≡ false = ground arith in rw (small, positive) refl in
    words ∙ remainder i c h

-- A write behind the messages.
Holds-snoc :
    (buffer : ℕ → Ptr) (c i m : ℕ) (ms : List Ptr)
    → i < c
    → length ms < c
    → Holds buffer c i ms
    → Holds (update buffer (wrap c (i + length ms)) m) c i (ms ++ m ∷ [])
Holds-snoc buffer c i m [] h k v = (ground arith, tt)
Holds-snoc buffer c i m (x ∷ xs) h k v =
    let elsewhere : (wrap c (i + length (x ∷ xs)) == i) ≡ false = ground arith in
    let same : wrap c (i + length (x ∷ xs)) ≡ wrap c (wrap c (i + 1) + length xs) = ground arith in
    (
      rw elsewhere v.0,
      subst (λ t. Holds (update buffer t m) c (wrap c (i + 1)) (xs ++ m ∷ [])) (sym same)
          (Holds-snoc buffer c (wrap c (i + 1)) m xs (ground arith) (omega arith) v.1),
    )

module _ {ch : Channel} {ms : List Ptr} (v : IsRing ch ms) where
  abbrev pub filled : Ptr → Channel
  filled msg = record ch {
    buffer = update ch.buffer ch.tail msg;
    tail = advance ch.tail ch.capacity;
  }

  abbrev pub drained : Channel
  drained = record ch { head = advance ch.head ch.capacity }

  tail_small : ch.tail < ch.capacity
  tail_small = ground (arith, v.tail, v.head, v.fits)

  pub put-ok : (msg : Ptr) (w : World) → put msg ch w ≡ ok (filled msg) w
  unfolding put
  put-ok msg w =
      let inside : ring_access ch.tail ch.capacity ≡ true =
        ground (arith, tail_small, v.bounded, v.some_room) in
      rw inside

  pub filled-IsRing : (msg : Ptr) → length ms < ch.capacity → IsRing (filled msg) (ms ++ msg ∷ [])
  filled-IsRing msg room = record {
    some_room = v.some_room;
    bounded = v.bounded;
    head = v.head;
    tail =
        rw
          (
            advance-wrap ch.tail ch.capacity tail_small v.bounded,
            v.tail,
            length-append {0} ms (msg ∷ []),
          )
          (ground (arith, v.head, room));
    fits = omega (arith, room, length-append {0} ms (msg ∷ []));
    holds = rw v.tail (Holds-snoc ch.buffer ch.capacity ch.head msg ms v.head room v.holds);
  }

  pub take_out-ok : (w : World) → take_out ch w ≡ ok (ch.buffer ch.head, drained) w
  unfolding take_out
  take_out-ok w =
      let inside : ring_access ch.head ch.capacity ≡ true =
        ground (arith, v.head, v.bounded, v.some_room) in
      rw inside

pub drained-IsRing :
    {ch : Channel} {m : Ptr} {ms : List Ptr} (v : IsRing ch (m ∷ ms)) → IsRing (drained v) ms
drained-IsRing {ch} {m} {ms} v = record {
  some_room = v.some_room;
  bounded = v.bounded;
  head = rw (advance-wrap ch.head ch.capacity v.head v.bounded) (ground (arith, v.head));
  tail =
      rw (advance-wrap ch.head ch.capacity v.head v.bounded)
        (ground (arith, v.tail, v.head, v.fits));
  fits = omega (arith, v.fits);
  holds = rw (advance-wrap ch.head ch.capacity v.head v.bounded) v.holds.1;
}
