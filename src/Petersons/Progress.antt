-- ===== src/Petersons/Progress.antt =====
-- demos/petersons/petersons.c: where the workers take turns the process ends.
use user_thread_scheduler.Common.{
  ℕ, ◌+◌, ◌-◌, ◌*◌, ◌≤◌, ◌<◌, ◌≡◌, refl, ◌⊎◌, inl, inr, Bool, true, false, not, ◌&&◌, ◌||◌, arith,
  ltb, ◌==◌, if◌then◌else◌, Bool-cases,
}
use user_thread_scheduler.Machine.Chain.{last}
use user_thread_scheduler.Petersons.{
  iterations, Shared, Point, raises, gives, tests_flag, tests_turn, enters, adds, lowers, counts,
  checks, prints, lowers_last, returned_last, access_next,
}
use user_thread_scheduler.Petersons.Pair.{testing, is_up, late, IsPair}
use user_thread_scheduler.Petersons.Places.{testing-up}

-- The accesses that the worker has left, but for rounds of the loop in `lock`.
abbrev pub left_over : Point → ℕ
left_over (raises i) = 7 + 6 * (iterations - i)
left_over (gives i) = 6 + 6 * (iterations - i)
left_over (tests_flag i) = 5 + 6 * (iterations - i)
left_over (tests_turn i) = 5 + 6 * (iterations - i)
left_over (enters i) = 4 + 6 * (iterations - i)
left_over (adds i temp) = 3 + 6 * (iterations - i)
left_over (lowers i) = 2 + 6 * (iterations - i)
left_over (counts old) = 3
left_over checks = 2
left_over prints = 1
left_over lowers_last = 1
left_over returned_last = 0

abbrev pub at_turn : Point → Bool
at_turn (tests_turn i) = true
at_turn (tests_flag i) = false
at_turn (raises i) = false
at_turn (gives i) = false
at_turn (enters i) = false
at_turn (adds i temp) = false
at_turn (lowers i) = false
at_turn (counts old) = false
at_turn checks = false
at_turn prints = false
at_turn lowers_last = false
at_turn returned_last = false

abbrev pub is_done : Point → Bool
is_done returned_last = true
is_done (tests_turn i) = false
is_done (tests_flag i) = false
is_done (raises i) = false
is_done (gives i) = false
is_done (enters i) = false
is_done (adds i temp) = false
is_done (lowers i) = false
is_done (counts old) = false
is_done checks = false
is_done prints = false
is_done lowers_last = false

-- The accesses until the worker that has precedence enters, where one tests.
abbrev pub favour : ℕ → Shared → Point → Point → ℕ
favour self m p q =
    if testing p && testing q
    then (if (if m.turn == self then at_turn p else at_turn q) then 1 else 2)
    else if testing p && not (is_up q)
    then (if at_turn p then 2 else 1)
    else if testing q && not (is_up p)
    then (if at_turn q then 2 else 1)
    else 0

abbrev pub weight : ℕ → Shared → Point → Point → ℕ
weight self m p q = 3 * (left_over p + left_over q) + favour self m p q

-- Has the worker `self` to wait for the other?
abbrev pub idle : ℕ → Shared → Point → Point → Bool
idle self m p q =
    is_done p
    || (testing p
        && (if testing q
            then not (m.turn == self)
            else is_up q && not (at_turn p && (m.turn == self))))

done_lem :
    (p : Point) → is_done p ≡ true → (late p ≡ true) × (testing p ≡ false) × (is_up p ≡ false)
done_lem p h = ground arith

up_done : (p : Point) → is_up p ≡ true → is_done p ≡ false
up_done p h = ground arith

testing_done : (p : Point) → testing p ≡ true → is_done p ≡ false
testing_done p h = ground arith

favour-le : (self : ℕ) (m : Shared) (p q : Point) → favour self m p q ≤ 2
favour-le self m p q = ground arith

pub weight-swap :
    (self : ℕ) (m : Shared) (p q : Point)
    → self ≤ 1
    → m.turn ≤ 1
    → weight (1 - self) m q p ≡ weight self m p q
weight-swap self m p q h k = ground arith

-- An access that is not one of the waiting loop outweighs a change of precedence.
weight-drops :
    (self : ℕ) (m n : Shared) (p p' q : Point)
    → left_over p' + 1 ≤ left_over p
    → weight self n p' q < weight self m p q
weight-drops self m n p p' q h = omega (arith, h, favour-le self n p' q)

abbrev pub Moves : ℕ → Shared → Point → Point → Type 0
Moves self m p q =
    (weight self (access_next self m p).0 (access_next self m p).1 q < weight self m p q)
    ⊎ ((access_next self m p).0.ended ≡ true)

-- A worker that need not wait makes progress, or ends the process.
module _ (self : ℕ) {m : Shared} {q : Point} (small : self ≤ 1) where
  pub moves : (p : Point) → IsPair self m p q → idle self m p q ≡ false → Moves self m p q
  unfolding access_next
  moves (raises i) v h =
      inl
        (weight-drops self m (access_next self m (raises i)).0 (raises i) (gives i) q (omega arith))
  moves (gives i) v h = inl (
      weight-drops self m (access_next self m (gives i)).0 (gives i) (tests_flag i) q (omega arith))
  moves (tests_flag i) v h = elim (Bool-cases (m.flag (1 - self) == 1)) [
    | inl up ↦ rw up (inl (ground (arith, h, small, v.flag_other, up)))
    | inr down ↦ rw down (inl (weight-drops self m m (tests_flag i) (enters i) q (omega arith)))
  ]
  moves (tests_turn i) v h = elim (Bool-cases (m.turn == 1 - self)) [
    | inl theirs ↦ rw theirs (inl (ground (arith, h, small, theirs)))
    | inr own ↦ rw own (inl (weight-drops self m m (tests_turn i) (enters i) q (omega arith)))
  ]
  moves (enters i) v h = elim (Bool-cases (ltb i iterations)) [
    | inl more ↦ rw more (inl (weight-drops self m m (enters i) (adds i m.counter) q (omega arith)))
    | inr last ↦
        rw last (inl (weight-drops self m m (enters i) (counts m.finished) q (omega arith)))
  ]
  moves (adds i temp) v h = inl (
      weight-drops self m (access_next self m (adds i temp)).0 (adds i temp) (lowers i) q
        (omega arith))
  moves (lowers i) v h = inl (
      weight-drops self m (access_next self m (lowers i)).0 (lowers i) (raises (i + 1)) q
        (omega (arith, v.local_self)))
  moves (counts old) v h =
      inl (
        weight-drops self m (access_next self m (counts old)).0 (counts old) checks q (omega arith))
  moves checks v h = elim (Bool-cases (m.finished == 2)) [
    | inl both ↦ rw both (inl (weight-drops self m m checks prints q (omega arith)))
    | inr first ↦ rw first (inl (weight-drops self m m checks lowers_last q (omega arith)))
  ]
  moves prints v h = inr refl
  moves lowers_last v h = inl (
      weight-drops self m (access_next self m lowers_last).0 lowers_last returned_last q
        (omega arith))
  moves returned_last v h = absurd cc

  -- What an access of a worker that waits leaves as it was.
  pub stalls :
      (p : Point)
      → IsPair self m p q
      → idle self m p q ≡ true
      → ((access_next self m p).0 ≡ m)
        × (weight self m (access_next self m p).1 q ≡ weight self m p q)
        × (testing (access_next self m p).1 ≡ testing p)
        × (is_up (access_next self m p).1 ≡ is_up p)
  unfolding access_next
  stalls (tests_flag i) v h = elim (Bool-cases (m.flag (1 - self) == 1)) [
    | inl up ↦ rw up (refl, ground (arith, h, testing-up q), refl, refl)
    | inr down ↦ absurd (ground (arith, v.flag_other, down, testing-up q, h))
  ]
  stalls (tests_turn i) v h = elim (Bool-cases (m.turn == 1 - self)) [
    | inl theirs ↦ rw theirs (refl, ground (arith, h, testing-up q), refl, refl)
    | inr own ↦ absurd (ground (arith, own, v.turn, small, h))
  ]
  stalls returned_last v h = (refl, refl, refl, refl)
  stalls (raises i) v h = absurd cc
  stalls (gives i) v h = absurd cc
  stalls (enters i) v h = absurd cc
  stalls (adds i temp) v h = absurd cc
  stalls (lowers i) v h = absurd cc
  stalls (counts old) v h = absurd cc
  stalls checks v h = absurd cc
  stalls prints v h = absurd cc
  stalls lowers_last v h = absurd cc

  -- The two workers do not wait for each other.
  pub one_waits :
      (p : Point) → IsPair self m p q → idle self m p q ≡ true → idle (1 - self) m q p ≡ false
  one_waits p v h =
      ground
        (arith, h, small, v.turn, v.one_late, done_lem p, done_lem q, testing_done q, up_done q)
