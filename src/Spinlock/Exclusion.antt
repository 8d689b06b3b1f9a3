-- ===== src/Spinlock/Exclusion.antt =====
-- src/uthread.c: at most one OS thread holds a spinlock.
use mathlib.Core.Path.{subst}
use user_thread_scheduler.Common.{
  ℕ, ◌≡◌, refl, ap, inl, inr, Bool, true, false, arith, ◌==◌, if◌then◌else◌, ==_iff, Bool-cases,
  update, eq_self,
}
use user_thread_scheduler.Spinlock.{
  Place, outside, inside, spinning, LockState, spinlock_init, spun, exchange, spinlock_release,
  LockStep, calls, tries, leaves, Reaches, at_start, then_step,
}

abbrev pub is_inside : Place → Bool
is_inside outside = false
is_inside inside = true
is_inside (spinning n) = false

-- The lock is free and nobody is inside, or its word is 1 and one thread is inside.
data IsLock (s : LockState) : Type 0 where
  is_free : s.lock ≡ 0 → ((i : ℕ) → is_inside (s.place i) ≡ false) → IsLock s
  is_held :
      (i : ℕ)
      → s.lock ≡ 1
      → is_inside (s.place i) ≡ true
      → ((j : ℕ) → is_inside (s.place j) ≡ true → (i == j) ≡ true)
      → IsLock s

place_update :
    (f : ℕ → Place) (i : ℕ) (to : Place) (j : ℕ)
    → is_inside (update f i to j) ≡ (if i == j then is_inside to else is_inside (f j))
place_update f i to j = elim (Bool-cases (i == j)) [
  | inl same ↦ rw same refl
  | inr other ↦ rw other refl
]

same_place : (f : ℕ → Place) (i j : ℕ) → (i == j) ≡ true → is_inside (f i) ≡ is_inside (f j)
same_place f i j h = ap (λ k. is_inside (f k)) ((==_iff i j).0 h)

-- A thread that is not inside moves to another place that is not inside.
moves-IsLock :
    (s : LockState) (i : ℕ) (to : Place)
    → is_inside (s.place i) ≡ false
    → is_inside to ≡ false
    → IsLock s
    → IsLock (record s { place = update s.place i to })
moves-IsLock s i to h k (is_free z none_inside) =
    is_free z (λ j. ground (arith, place_update s.place i to j, none_inside j, k))
moves-IsLock s i to h k (is_held o z there only) =
    is_held o z (ground (arith, place_update s.place i to o, there, same_place s.place i o, h))
      (λ j m. only j (ground (arith, place_update s.place i to j, m, k)))

-- The exchange of a thread in the loop.
tries-IsLock :
    (s : LockState) (i n : ℕ) → s.place i ≡ spinning n → IsLock s → IsLock (exchange i n s)
unfolding exchange
tries-IsLock s i n e (is_free z none_inside) =
    let zero_word : (s.lock == 0) ≡ true = rw z refl in
    is_held i refl (rw (zero_word, eq_self i) refl) (λ j m. ground (
      arith,
      place_update s.place i (if s.lock == 0 then inside else spinning (spun n)) j,
      none_inside j,
      m,
    ))
tries-IsLock s i n e (is_held o z there only) =
    let taken : (s.lock == 0) ≡ false = rw z refl in
    let waits : is_inside (if s.lock == 0 then inside else spinning (spun n)) ≡ false =
      rw taken refl in
    subst
      (λ l. IsLock (record {
        lock = l;
        place = update s.place i (if s.lock == 0 then inside else spinning (spun n));
      }))
      z
      (moves-IsLock s i (if s.lock == 0 then inside else spinning (spun n)) (rw e refl) waits
        (is_held o z there only))

leaves-IsLock :
    (s : LockState) (i : ℕ) → s.place i ≡ inside → IsLock s → IsLock (spinlock_release i s)
unfolding spinlock_release
leaves-IsLock s i e (is_free z none_inside) =
    let m : is_inside (s.place i) ≡ true = rw e refl in absurd (ground (arith, none_inside i, m))
leaves-IsLock s i e (is_held o z there only) =
    let m : is_inside (s.place i) ≡ true = rw e refl in
    is_free refl (λ j. ground (arith, place_update s.place i outside j, only j, only i m))

step-IsLock : (s u : LockState) → IsLock s → LockStep s u → IsLock u
step-IsLock s u v (calls i e) = moves-IsLock s i (spinning 0) (rw e refl) refl v
step-IsLock s u v (tries i n e) = tries-IsLock s i n e v
step-IsLock s u v (leaves i e) = leaves-IsLock s i e v

Reaches-IsLock :
    (places : ℕ → Place) (u : LockState)
    → ((i : ℕ) → places i ≡ outside)
    → Reaches (spinlock_init places) u
    → IsLock u
unfolding spinlock_init
Reaches-IsLock places u out at_start = is_free refl (λ i. rw (out i) refl)
Reaches-IsLock places u out (then_step {t} r s) = step-IsLock t u (Reaches-IsLock places t out r) s

-- From an initialised lock that nobody uses, in any interleaving of OS threads that acquire it and
-- release what they have acquired, two threads that are inside are the same.
pub inside_unique :
    (places : ℕ → Place) (u : LockState) (i j : ℕ)
    → ((k : ℕ) → places k ≡ outside)
    → Reaches (spinlock_init places) u
    → u.place i ≡ inside
    → u.place j ≡ inside
    → i ≡ j
inside_unique places u i j out r e f =
    let v = Reaches-IsLock places u out r in
    let m : is_inside (u.place i) ≡ true = rw e refl in
    let n : is_inside (u.place j) ≡ true = rw f refl in
    elim v [
      | is_free z none_inside ↦ absurd (ground (arith, none_inside i, m))
      | is_held o z there only ↦ ground (arith, only i m, only j n)
    ]
