-- ===== src/Petersons/Ends.antt =====
-- demos/petersons/petersons.c: where the workers take turns the process ends.
use mathlib.Core.Path.{subst}
use user_thread_scheduler.Common.{
  ℕ, zero, suc, ◌+◌, ◌*◌, ◌<◌, ◌≡◌, refl, sym, ap, ◌∙◌, ◌⊎◌, inl, inr, Bool, true, false, List, [],
  ◌∷◌, arith, if◌then◌else◌, Bool-cases,
}
use user_thread_scheduler.GlobalList.{free}
use user_thread_scheduler.Petersons.{
  iterations, Shared, Point, access_next, Demo, main_left, moved0, moved1, schedule, run_demo,
}
use user_thread_scheduler.Petersons.Pair.{IsPair}
use user_thread_scheduler.Petersons.Places.{IsPair-swap}
use user_thread_scheduler.Petersons.Progress.{
  weight, idle, weight-swap, Moves, moves, stalls, one_waits,
}
use user_thread_scheduler.Petersons.Safety.{IsDemo, main_left-IsDemo}
use user_thread_scheduler.Petersons.Steps.{access_next-IsPair}

abbrev weight_of : Demo → ℕ
weight_of d = weight 0 d.shared d.place0 d.place1

module _ (d : Demo) (v : IsDemo d) where
  abbrev one : Shared × Point
  one = access_next 0 d.shared d.place0

  abbrev two : Shared × Point
  two = access_next 1 one.0 d.place1

  middle : IsPair 0 one.0 one.1 d.place1
  middle = access_next-IsPair 0 (omega arith) d.place0 v

  end : IsPair 0 two.0 one.1 two.1
  end =
      IsPair-swap 1 (omega arith)
        (access_next-IsPair 1 (omega arith) d.place1 (IsPair-swap 0 (omega arith) middle))

  abbrev Falls : ℕ → Type 0
  Falls n = (weight 0 two.0 one.1 two.1 < n) ⊎ (two.0.ended ≡ true)

  -- The second access, seen from the second worker.
  second : Moves 1 one.0 d.place1 one.1 → Falls (weight 0 one.0 one.1 d.place1)
  second (inr e) = inr e
  second (inl h) = inl (
      omega (
        arith,
        h,
        weight-swap 0 two.0 one.1 two.1 (omega arith) end.turn,
        weight-swap 0 one.0 one.1 d.place1 (omega arith) middle.turn,
      ))

  -- The second access does not make up for what the first has won.
  second-le : (w : ℕ) → weight 0 one.0 one.1 d.place1 < w → Falls w
  second-le w h =
      let u = IsPair-swap 0 (omega arith) middle in
      elim (Bool-cases (idle 1 one.0 d.place1 one.1)) [
        | inl stuck ↦
            let s = stalls 1 (omega arith) d.place1 u stuck in
            inl (
              omega (
                arith,
                h,
                weight-swap 0 two.0 one.1 two.1 (omega arith) end.turn,
                weight-swap 0 one.0 one.1 d.place1 (omega arith) middle.turn,
                s.1,
                ap (λ m. weight 1 m two.1 one.1) s.0,
              ))
        | inr free ↦ elim (second (moves 1 (omega arith) d.place1 u free)) [
          | inl fell ↦ inl (omega (arith, fell, h))
          | inr e ↦ inr e
        ]
      ]

  -- The two accesses of a turn make progress.
  turn-falls : (one.0.ended ≡ true) ⊎ Falls (weight_of d)
  turn-falls = elim (Bool-cases (idle 0 d.shared d.place0 d.place1)) [
    | inl stuck ↦
        let s = stalls 0 (omega arith) d.place0 v stuck in
        let free : idle 1 one.0 d.place1 one.1 ≡ false =
          rw (s.0, s.2, s.3) (one_waits 0 (omega arith) d.place0 v stuck) in
        let u = IsPair-swap 0 (omega arith) middle in
        inr (elim (second (moves 1 (omega arith) d.place1 u free)) [
          | inl fell ↦ inl (omega (arith, fell, s.1, ap (λ m. weight 0 m one.1 d.place1) s.0))
          | inr e ↦ inr e
        ])
    | inr free ↦ elim (moves 0 (omega arith) d.place0 v free) [
      | inl fell ↦ inr (second-le (weight_of d) fell)
      | inr e ↦ inl e
    ]
  ]

-- The workers take turns.
abbrev pub two_turns : ℕ → List Bool
two_turns zero = []
two_turns (suc n) = true ∷ false ∷ two_turns n

schedule-ended : (b : Bool) (d : Demo) → d.shared.ended ≡ true → schedule b d ≡ d
unfolding schedule
schedule-ended true d e =
    subst (λ z. (if z then d else moved0 d (access_next 0 d.shared d.place0)) ≡ d) (sym e) refl
schedule-ended false d e =
    subst (λ z. (if z then d else moved1 d (access_next 1 d.shared d.place1)) ≡ d) (sym e) refl

-- Before its end the process makes the access.
schedule0-on :
    (d : Demo)
    → d.shared.ended ≡ false
    → schedule true d ≡ moved0 d (access_next 0 d.shared d.place0)
unfolding schedule
schedule0-on d e =
    subst
      (λ z.
        (if z then d else moved0 d (access_next 0 d.shared d.place0))
        ≡ moved0 d (access_next 0 d.shared d.place0))
      (sym e) refl

schedule1-on :
    (d : Demo)
    → d.shared.ended ≡ false
    → schedule false d ≡ moved1 d (access_next 1 d.shared d.place1)
unfolding schedule
schedule1-on d e =
    subst
      (λ z.
        (if z then d else moved1 d (access_next 1 d.shared d.place1))
        ≡ moved1 d (access_next 1 d.shared d.place1))
      (sym e) refl

run_demo-ended :
    (bs : List Bool) (d : Demo) → d.shared.ended ≡ true → (run_demo bs d).shared.ended ≡ true
unfolding run_demo
run_demo-ended [] d e = e
run_demo-ended (b ∷ bs) d e =
    subst (λ c. (run_demo bs c).shared.ended ≡ true) (sym (schedule-ended b d e))
      (run_demo-ended bs d e)

-- The first turn leads from `d` over `x` to `y`.
turn-run :
    (n : ℕ) (d x y : Demo)
    → schedule true d ≡ x
    → schedule false x ≡ y
    → (run_demo (two_turns n) y).shared.ended ≡ true
    → (run_demo (two_turns (suc n)) d).shared.ended ≡ true
unfolding run_demo
turn-run n d x y e f h =
    subst (λ z. (run_demo (two_turns n) z).shared.ended ≡ true) (sym (ap (schedule false) e ∙ f)) h

two_turns-ends :
    (n : ℕ) (d : Demo) → IsDemo d → weight_of d < n → (run_demo (two_turns n) d).shared.ended ≡ true
two_turns-ends zero d v h = absurd (omega arith)
two_turns-ends (suc n) d v h = elim (Bool-cases d.shared.ended) [
  | inl e ↦ run_demo-ended (two_turns (suc n)) d e
  | inr on ↦
      let x = moved0 d (one d v) in
      let y = moved1 x (two d v) in
      elim (Bool-cases x.shared.ended) [
        | inl e ↦
            turn-run n d x x (schedule0-on d on) (schedule-ended false x e)
              (run_demo-ended (two_turns n) x e)
        | inr on1 ↦
            turn-run n d x y (schedule0-on d on) (schedule1-on x on1) (elim (turn-falls d v) [
              | inl e ↦ absurd (ground (arith, e, on1))
              | inr f ↦ elim f [
                | inl fell ↦ two_turns-ends n y (end d v) (omega (arith, fell, h))
                | inr e ↦ run_demo-ended (two_turns n) y e
              ]
            ])
      ]
]

-- Where the two workers take turns at their accesses, the process ends: after at most
-- 36 * ITERATIONS + 43 turns `exit(0)` has been called.
pub run_demo_ends :
    (n : ℕ) → 36 * iterations + 42 < n → (run_demo (two_turns n) main_left).shared.ended ≡ true
run_demo_ends n h = two_turns-ends n main_left main_left-IsDemo h
