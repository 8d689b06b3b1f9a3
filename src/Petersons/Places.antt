-- ===== src/Petersons/Places.antt =====
-- demos/petersons/petersons.c: facts on the places of the workers.
use user_thread_scheduler.Common.{ℕ, ◌-◌, ◌≤◌, ◌≡◌, refl, true, false, ◌&&◌, arith}
use user_thread_scheduler.Petersons.{
  iterations, Shared, Point, raises, gives, tests_flag, tests_turn, enters, adds, lowers, counts,
  checks, prints, lowers_last, returned_last,
}
use user_thread_scheduler.Petersons.Pair.{
  critical, testing, is_up, late, added, counted, IsLocal, IsPair,
}

pub critical-up : (p : Point) → critical p ≡ true → is_up p ≡ true
critical-up (enters i) h = refl
critical-up (adds i temp) h = refl
critical-up (lowers i) h = refl
critical-up (counts old) h = refl
critical-up checks h = refl
critical-up prints h = refl
critical-up lowers_last h = refl
critical-up (raises i) h = cc
critical-up (gives i) h = cc
critical-up (tests_flag i) h = cc
critical-up (tests_turn i) h = cc
critical-up returned_last h = cc

pub testing-up : (p : Point) → testing p ≡ true → is_up p ≡ true
testing-up (tests_flag i) h = refl
testing-up (tests_turn i) h = refl
testing-up (enters i) h = cc
testing-up (adds i temp) h = cc
testing-up (lowers i) h = cc
testing-up (counts old) h = cc
testing-up checks h = cc
testing-up prints h = cc
testing-up lowers_last h = cc
testing-up (raises i) h = cc
testing-up (gives i) h = cc
testing-up returned_last h = cc

-- Only a worker in the critical section has locals that depend on `counter` and `finished`.
pub IsLocal-outside : (c d f g : ℕ) (q : Point) → critical q ≡ false → IsLocal c f q → IsLocal d g q
IsLocal-outside c d f g (raises i) h l = l
IsLocal-outside c d f g (gives i) h l = l
IsLocal-outside c d f g (tests_flag i) h l = l
IsLocal-outside c d f g (tests_turn i) h l = l
IsLocal-outside c d f g returned_last h l = tt
IsLocal-outside c d f g (enters i) h l = absurd cc
IsLocal-outside c d f g (adds i temp) h l = absurd cc
IsLocal-outside c d f g (lowers i) h l = absurd cc
IsLocal-outside c d f g (counts old) h l = absurd cc
IsLocal-outside c d f g checks h l = absurd cc
IsLocal-outside c d f g prints h l = absurd cc
IsLocal-outside c d f g lowers_last h l = absurd cc

pub added-le : (c f : ℕ) (p : Point) → IsLocal c f p → added p ≤ iterations
added-le c f (raises i) l = l
added-le c f (gives i) l = l
added-le c f (tests_flag i) l = l
added-le c f (tests_turn i) l = l
added-le c f (enters i) l = l
added-le c f (adds i temp) l = omega (arith, l.1)
added-le c f (lowers i) l = omega (arith, l)
added-le c f (counts old) l = omega arith
added-le c f checks l = omega arith
added-le c f prints l = omega arith
added-le c f lowers_last l = omega arith
added-le c f returned_last l = omega arith

pub counted-le : (p : Point) → counted p ≤ 1
counted-le p = ground arith

-- The second worker has counted itself, so it has made all its increments.
pub counted-added : (p : Point) → counted p ≡ 1 → added p ≡ iterations
counted-added p h = ground arith

pub IsPair-swap :
    (self : ℕ) {m : Shared} {p q : Point} → self ≤ 1 → IsPair self m p q → IsPair (1 - self) m q p
IsPair-swap self {m} {p} {q} h v =
    let twice : 1 - (1 - self) ≡ self = omega (arith, h) in
    record {
      flag_self = v.flag_other;
      flag_other = rw twice v.flag_self;
      turn = v.turn;
      self_first = v.other_first;
      other_first = λ c t. rw twice (v.self_first c t);
      exclusive = ground (arith, v.exclusive);
      one_late = ground (arith, v.one_late);
      counter = omega (arith, v.counter);
      finished = omega (arith, v.finished);
      local_self = v.local_other;
      local_other = v.local_self;
      reported = v.reported;
    }

-- An access that reads: the worker goes on to `p'`.
module _ (self : ℕ) {m : Shared} {p q : Point} (p' : Point) (v : IsPair self m p q) where
  pub reads-IsPair :
      is_up p' ≡ is_up p
      → added p' ≡ added p
      → counted p' ≡ counted p
      → IsLocal m.counter m.finished p'
      → (critical p' ≡ true → testing q ≡ true → m.turn ≡ self)
      → (critical q ≡ true → testing p' ≡ true → m.turn ≡ 1 - self)
      → (critical p' && critical q) ≡ false
      → (late p' && late q) ≡ false
      → IsPair self m p' q
  reads-IsPair up a c l first second alone late_one = record {
    flag_self = rw up v.flag_self;
    flag_other = v.flag_other;
    turn = v.turn;
    self_first = first;
    other_first = second;
    exclusive = alone;
    one_late = late_one;
    counter = rw a v.counter;
    finished = rw c v.finished;
    local_self = l;
    local_other = v.local_other;
    reported = v.reported;
  }

pub late-counted : (p : Point) → late p ≡ true → counted p ≡ 1
late-counted p h = ground arith
