-- ===== src/Petersons/Steps.antt =====
-- demos/petersons/petersons.c: each access keeps what the workers hold between them.
use user_thread_scheduler.Common.{
  ℕ, ◌-◌, ◌≤◌, ◌≡◌, refl, sym, inl, inr, true, false, arith, ltb, ◌==◌, Bool-cases, eq_self, inc32,
}
use user_thread_scheduler.Machine.Chain.{last}
use user_thread_scheduler.Petersons.{
  iterations, Shared, Point, raises, gives, tests_flag, tests_turn, enters, adds, lowers, counts,
  checks, prints, lowers_last, returned_last, access_next,
}
use user_thread_scheduler.Petersons.Pair.{critical, testing, is_up, added, counted, IsPair}
use user_thread_scheduler.Petersons.Places.{
  critical-up, testing-up, IsLocal-outside, added-le, counted-le, counted-added, reads-IsPair,
  late-counted,
}

abbrev AccessKeeps : ℕ → Shared → Point → Point → Type 0
AccessKeeps self m p q = IsPair self (access_next self m p).0 (access_next self m p).1 q

other_flag : (self : ℕ) → self ≤ 1 → (self == 1 - self) ≡ false
other_flag self small = ground (arith, small)

module _ (self : ℕ) {m : Shared} {q : Point} (small : self ≤ 1) where
  raises-keeps : (i : ℕ) → IsPair self m (raises i) q → AccessKeeps self m (raises i) q
  unfolding access_next
  raises-keeps i v = record {
    flag_self = rw (eq_self self) refl;
    flag_other = rw (other_flag self small) v.flag_other;
    turn = v.turn;
    self_first = λ c t. absurd cc;
    other_first = λ c t. absurd cc;
    exclusive = refl;
    one_late = refl;
    counter = v.counter;
    finished = v.finished;
    local_self = v.local_self;
    local_other = v.local_other;
    reported = v.reported;
  }

  gives-keeps : (i : ℕ) → IsPair self m (gives i) q → AccessKeeps self m (gives i) q
  unfolding access_next
  gives-keeps i v = record {
    flag_self = v.flag_self;
    flag_other = v.flag_other;
    turn = omega arith;
    self_first = λ c t. absurd cc;
    other_first = λ c t. refl;
    exclusive = refl;
    one_late = refl;
    counter = v.counter;
    finished = v.finished;
    local_self = v.local_self;
    local_other = v.local_other;
    reported = v.reported;
  }

  -- The worker enters.
  enters_by :
      (i : ℕ) (p : Point)
      → IsPair self m p q
      → is_up p ≡ true
      → added p ≡ i
      → counted p ≡ 0
      → i ≤ iterations
      → (testing q ≡ true → m.turn ≡ self)
      → critical q ≡ false
      → IsPair self m (enters i) q
  enters_by i p v up a c l first alone =
      reads-IsPair self (enters i) v (sym up) (sym a) (sym c) l (λ _ t. first t) (λ _ t. absurd cc)
        alone refl

  tests_flag-keeps : (i : ℕ) → IsPair self m (tests_flag i) q → AccessKeeps self m (tests_flag i) q
  unfolding access_next
  tests_flag-keeps i v = elim (Bool-cases (m.flag (1 - self) == 1)) [
    | inl up ↦ rw up (
        reads-IsPair self (tests_turn i) v refl refl refl v.local_self (λ c t. absurd cc)
          (λ c t. v.other_first c refl) refl refl)
    | inr down ↦
        let low : is_up q ≡ false = ground (arith, v.flag_other, down) in
        let outside : critical q ≡ false = ground (arith, critical-up q) in
        rw down (
          enters_by i (tests_flag i) v refl refl refl v.local_self
            (λ t. absurd (ground (arith, testing-up q t))) outside)
  ]

  tests_turn-keeps : (i : ℕ) → IsPair self m (tests_turn i) q → AccessKeeps self m (tests_turn i) q
  unfolding access_next
  tests_turn-keeps i v = elim (Bool-cases (m.turn == 1 - self)) [
    | inl theirs ↦ rw theirs (
        reads-IsPair self (tests_flag i) v refl refl refl v.local_self (λ c t. absurd cc)
          (λ c t. v.other_first c refl) refl refl)
    | inr own ↦
        let mine : m.turn ≡ self = ground (arith, v.turn, small, own) in
        let outside : critical q ≡ false = elim (Bool-cases (critical q)) [
          | inl c ↦ absurd (ground (arith, v.other_first c refl, own))
          | inr c ↦ c
        ] in
        rw own (enters_by i (tests_turn i) v refl refl refl v.local_self (λ t. mine) outside)
  ]

  -- The worker is alone in the critical section.
  alone : (p : Point) → IsPair self m p q → critical p ≡ true → critical q ≡ false
  alone p v c = ground (arith, v.exclusive, c)

  enters-keeps : (i : ℕ) → IsPair self m (enters i) q → AccessKeeps self m (enters i) q
  unfolding access_next
  enters-keeps i v = elim (Bool-cases (ltb i iterations)) [
    | inl more ↦ rw more (
        reads-IsPair self (adds i m.counter) v refl refl refl (refl, ground (arith, more))
          (λ c t. v.self_first refl t) (λ c t. absurd cc) (alone (enters i) v refl) refl)
    | inr last ↦
        let all : iterations ≡ i = ground (arith, last, v.local_self) in
        rw last (
          reads-IsPair self (counts m.finished) v refl all refl refl (λ c t. v.self_first refl t)
            (λ c t. absurd cc) (alone (enters i) v refl) refl)
  ]

  adds-keeps : (i temp : ℕ) → IsPair self m (adds i temp) q → AccessKeeps self m (adds i temp) q
  unfolding access_next
  adds-keeps i temp v =
      let outside = alone (adds i temp) v refl in
      let few = added-le m.counter m.finished q v.local_other in
      record {
        flag_self = v.flag_self;
        flag_other = v.flag_other;
        turn = v.turn;
        self_first = λ c t. v.self_first refl t;
        other_first = λ c t. absurd cc;
        exclusive = outside;
        one_late = refl;
        counter = omega (arith, v.counter, few, v.local_self.0, v.local_self.1);
        finished = v.finished;
        local_self = v.local_self.1;
        local_other =
            IsLocal-outside m.counter (inc32 temp) m.finished m.finished q outside v.local_other;
        reported = v.reported;
      }

  lowers-keeps : (i : ℕ) → IsPair self m (lowers i) q → AccessKeeps self m (lowers i) q
  unfolding access_next
  lowers-keeps i v = record {
    flag_self = rw (eq_self self) refl;
    flag_other = rw (other_flag self small) v.flag_other;
    turn = v.turn;
    self_first = λ c t. absurd cc;
    other_first = λ c t. absurd cc;
    exclusive = refl;
    one_late = refl;
    counter = v.counter;
    finished = v.finished;
    local_self = omega (arith, v.local_self);
    local_other = v.local_other;
    reported = v.reported;
  }

  counts-keeps : (old : ℕ) → IsPair self m (counts old) q → AccessKeeps self m (counts old) q
  unfolding access_next
  counts-keeps old v =
      let outside = alone (counts old) v refl in
      record {
        flag_self = v.flag_self;
        flag_other = v.flag_other;
        turn = v.turn;
        self_first = λ c t. v.self_first refl t;
        other_first = λ c t. absurd cc;
        exclusive = outside;
        one_late = refl;
        counter = v.counter;
        finished = omega (arith, v.finished, v.local_self, counted-le q);
        local_self = tt;
        local_other =
            IsLocal-outside m.counter m.counter m.finished (inc32 old) q outside v.local_other;
        reported = v.reported;
      }

  checks-keeps : IsPair self m checks q → AccessKeeps self m checks q
  unfolding access_next
  checks-keeps v = elim (Bool-cases (m.finished == 2)) [
    | inl both ↦ rw both (
        reads-IsPair self prints v refl refl refl (ground (arith, both))
          (λ c t. v.self_first refl t) (λ c t. absurd cc) (alone checks v refl) refl)
    | inr first ↦ rw first (
        reads-IsPair self lowers_last v refl refl refl tt (λ c t. v.self_first refl t)
          (λ c t. absurd cc) (alone checks v refl)
          (ground (arith, late-counted q, v.finished, first)))
  ]

  prints-keeps : IsPair self m prints q → AccessKeeps self m prints q
  unfolding access_next
  prints-keeps v =
      let all = counted-added q (omega (arith, v.finished, v.local_self)) in
      record {
        flag_self = v.flag_self;
        flag_other = v.flag_other;
        turn = v.turn;
        self_first = v.self_first;
        other_first = v.other_first;
        exclusive = v.exclusive;
        one_late = refl;
        counter = v.counter;
        finished = v.finished;
        local_self = v.local_self;
        local_other = v.local_other;
        reported = λ e. omega (arith, v.counter, all);
      }

  lowers_last-keeps : IsPair self m lowers_last q → AccessKeeps self m lowers_last q
  unfolding access_next
  lowers_last-keeps v = record {
    flag_self = rw (eq_self self) refl;
    flag_other = rw (other_flag self small) v.flag_other;
    turn = v.turn;
    self_first = λ c t. absurd cc;
    other_first = λ c t. absurd cc;
    exclusive = refl;
    one_late = v.one_late;
    counter = v.counter;
    finished = v.finished;
    local_self = tt;
    local_other = v.local_other;
    reported = v.reported;
  }

  pub access_next-IsPair :
      (p : Point)
      → IsPair self m p q
      → IsPair self (access_next self m p).0 (access_next self m p).1 q
  unfolding access_next
  access_next-IsPair (raises i) v = raises-keeps i v
  access_next-IsPair (gives i) v = gives-keeps i v
  access_next-IsPair (tests_flag i) v = tests_flag-keeps i v
  access_next-IsPair (tests_turn i) v = tests_turn-keeps i v
  access_next-IsPair (enters i) v = enters-keeps i v
  access_next-IsPair (adds i temp) v = adds-keeps i temp v
  access_next-IsPair (lowers i) v = lowers-keeps i v
  access_next-IsPair (counts old) v = counts-keeps old v
  access_next-IsPair checks v = checks-keeps v
  access_next-IsPair prints v = prints-keeps v
  access_next-IsPair lowers_last v = lowers_last-keeps v
  access_next-IsPair returned_last v = v
