-- ===== src/Petersons/Pair.antt =====
-- demos/petersons/petersons.c: what the two workers hold between them.
use user_thread_scheduler.Common.{
  ℕ, ◌+◌, ◌-◌, ◌*◌, ◌≤◌, ◌<◌, ◌≡◌, Bool, true, false, ◌&&◌, if◌then◌else◌,
}
use user_thread_scheduler.Petersons.{
  iterations, Shared, Point, raises, gives, tests_flag, tests_turn, enters, adds, lowers, counts,
  checks, prints, lowers_last, returned_last,
}

abbrev pub critical : Point → Bool
critical (enters i) = true
critical (adds i temp) = true
critical (lowers i) = true
critical (counts old) = true
critical checks = true
critical prints = true
critical lowers_last = true
critical (raises i) = false
critical (gives i) = false
critical (tests_flag i) = false
critical (tests_turn i) = false
critical returned_last = false

abbrev pub testing : Point → Bool
testing (tests_flag i) = true
testing (tests_turn i) = true
testing (enters i) = false
testing (adds i temp) = false
testing (lowers i) = false
testing (counts old) = false
testing checks = false
testing prints = false
testing lowers_last = false
testing (raises i) = false
testing (gives i) = false
testing returned_last = false

-- Is the flag of the worker up?
abbrev pub is_up : Point → Bool
is_up (raises i) = false
is_up returned_last = false
is_up (gives i) = true
is_up (tests_flag i) = true
is_up (tests_turn i) = true
is_up (enters i) = true
is_up (adds i temp) = true
is_up (lowers i) = true
is_up (counts old) = true
is_up checks = true
is_up prints = true
is_up lowers_last = true

-- Has the worker found that the other had not counted itself yet?
abbrev pub late : Point → Bool
late lowers_last = true
late returned_last = true
late (raises i) = false
late (gives i) = false
late (tests_flag i) = false
late (tests_turn i) = false
late (enters i) = false
late (adds i temp) = false
late (lowers i) = false
late (counts old) = false
late checks = false
late prints = false

-- The increments of `counter` and of `finished` that the worker has made.
abbrev pub added : Point → ℕ
added (raises i) = i
added (gives i) = i
added (tests_flag i) = i
added (tests_turn i) = i
added (enters i) = i
added (adds i temp) = i
added (lowers i) = i + 1
added (counts old) = iterations
added checks = iterations
added prints = iterations
added lowers_last = iterations
added returned_last = iterations

abbrev pub counted : Point → ℕ
counted checks = 1
counted prints = 1
counted lowers_last = 1
counted returned_last = 1
counted (raises i) = 0
counted (gives i) = 0
counted (tests_flag i) = 0
counted (tests_turn i) = 0
counted (enters i) = 0
counted (adds i temp) = 0
counted (lowers i) = 0
counted (counts old) = 0

-- The locals agree with the shared variables, and the round is in range.
abbrev pub IsLocal : ℕ → ℕ → Point → Type 0
IsLocal c f (adds i temp) = (temp ≡ c) × (i < iterations)
IsLocal c f (lowers i) = i < iterations
IsLocal c f (counts old) = old ≡ f
IsLocal c f prints = f ≡ 2
IsLocal c f (raises i) = i ≤ iterations
IsLocal c f (gives i) = i ≤ iterations
IsLocal c f (tests_flag i) = i ≤ iterations
IsLocal c f (tests_turn i) = i ≤ iterations
IsLocal c f (enters i) = i ≤ iterations
IsLocal c f checks = Unit
IsLocal c f lowers_last = Unit
IsLocal c f returned_last = Unit

-- The worker `self` is at `p`, the other at `q`.
pub record IsPair (self : ℕ) (m : Shared) (p q : Point) : Type 0 where
  pub flag_self : m.flag self ≡ (if is_up p then 1 else 0)
  pub flag_other : m.flag (1 - self) ≡ (if is_up q then 1 else 0)
  pub turn : m.turn ≤ 1
  pub self_first : critical p ≡ true → testing q ≡ true → m.turn ≡ self
  pub other_first : critical q ≡ true → testing p ≡ true → m.turn ≡ 1 - self
  pub exclusive : (critical p && critical q) ≡ false
  pub one_late : (late p && late q) ≡ false
  pub counter : m.counter ≡ added p + added q
  pub finished : m.finished ≡ counted p + counted q
  pub local_self : IsLocal m.counter m.finished p
  pub local_other : IsLocal m.counter m.finished q
  pub reported : m.ended ≡ true → m.report ≡ 2 * iterations
