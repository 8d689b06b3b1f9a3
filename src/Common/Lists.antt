-- ===== src/Common/Lists.antt =====
-- Lists over the native numbers.
use Prim.Native.Nat.{ℕ, zero, suc, ◌+◌}
use mathlib.Core.Path.{◌≡◌, refl}
use mathlib.Core.Bool.{Bool, true, false, ◌||◌}
use mathlib.Core.List.{List, [], ◌∷◌, ◌++◌}
use native.Mathlib.Omega.{arith}
use user_thread_scheduler.Common.Tests.{◌==◌, if◌then◌else◌, ==_iff}

module _ {ℓ} {A : Type ℓ} where
  abbrev pub length : List A → ℕ
  length [] = 0
  length (x ∷ xs) = suc (length xs)

  abbrev pub take : ℕ → List A → List A
  take zero xs = []
  take (suc n) [] = []
  take (suc n) (x ∷ xs) = x ∷ take n xs

  abbrev pub drop : ℕ → List A → List A
  drop zero xs = xs
  drop (suc n) [] = []
  drop (suc n) (x ∷ xs) = drop n xs

  pub length-append : (xs ys : List A) → length (xs ++ ys) ≡ length xs + length ys
  length-append [] ys = omega arith
  length-append (x ∷ xs) ys = omega (arith, length-append xs ys)

  -- A predicate of every element.
  abbrev pub All {κ} : (A → Type κ) → List A → Type κ
  All P [] = Unit
  All P (x ∷ xs) = P x × All P xs

  pub All-append {κ} : (P : A → Type κ) (xs ys : List A) → All P xs → All P ys → All P (xs ++ ys)
  All-append P [] ys h k = k
  All-append P (x ∷ xs) ys h k = (h.0, All-append P xs ys h.1 k)

module _ {ℓ κ μ} {A : Type ℓ} (P : A → Type κ) (Q : A → Type μ) where
  pub All-map : ((a : A) → P a → Q a) → (xs : List A) → All P xs → All Q xs
  All-map f [] h = tt
  All-map f (x ∷ xs) h = (f x h.0, All-map f xs h.1)

abbrev pub has : ℕ → List ℕ → Bool
has a [] = false
has a (x ∷ xs) = (x == a) || has a xs

-- No element stands twice.
abbrev pub Distinct : List ℕ → Type 0
Distinct [] = Unit
Distinct (x ∷ xs) = (has x xs ≡ false) × Distinct xs

-- The list without the first occurrence of `a`.
abbrev pub erase : ℕ → List ℕ → List ℕ
erase a [] = []
erase a (x ∷ xs) = if x == a then xs else x ∷ erase a xs

pub has-append : (a : ℕ) (xs ys : List ℕ) → has a (xs ++ ys) ≡ (has a xs || has a ys)
has-append a [] ys = refl
has-append a (x ∷ xs) ys = ground (arith, has-append a xs ys)

pub has-erase : (a b : ℕ) (xs : List ℕ) → has a xs ≡ false → has a (erase b xs) ≡ false
has-erase a b [] h = refl
has-erase a b (x ∷ xs) h = ground (arith, has-erase a b xs)

pub Distinct-snoc : (a : ℕ) (xs : List ℕ) → Distinct xs → has a xs ≡ false → Distinct (xs ++ a ∷ [])
Distinct-snoc a [] d h = (refl, tt)
Distinct-snoc a (x ∷ xs) d h =
    (ground (arith, has-append x xs (a ∷ [])), Distinct-snoc a xs d.1 (ground arith))

pub erase-append : (t : ℕ) (ys zs : List ℕ) → has t ys ≡ false → erase t (ys ++ t ∷ zs) ≡ ys ++ zs
erase-append t [] zs h = ground arith
erase-append t (y ∷ ys) zs h = ground (arith, erase-append t ys zs)

pub erase-absent : (t : ℕ) (xs : List ℕ) → has t xs ≡ false → erase t xs ≡ xs
erase-absent t [] h = refl
erase-absent t (x ∷ xs) h = ground (arith, erase-absent t xs)

pub Distinct-erase : (t : ℕ) (xs : List ℕ) → Distinct xs → Distinct (erase t xs)
Distinct-erase t [] d = tt
Distinct-erase t (x ∷ xs) d = ground (arith, has-erase x t xs, Distinct-erase t xs)

pub Distinct-right : (xs ys : List ℕ) → Distinct (xs ++ ys) → Distinct ys
Distinct-right [] ys d = d
Distinct-right (x ∷ xs) ys d = Distinct-right xs ys d.1

-- Where `t` stands in a list with no repetitions it is not in the rest.
pub has-middle : (t : ℕ) (ys zs : List ℕ) → Distinct (ys ++ t ∷ zs) → has t (ys ++ zs) ≡ false
has-middle t [] zs d = d.0
has-middle t (y ∷ ys) zs d = ground (arith, has-middle t ys zs d.1, has-append y ys (t ∷ zs))

pub Distinct-middle : (t : ℕ) (ys zs : List ℕ) → Distinct (ys ++ t ∷ zs) → Distinct (ys ++ zs)
Distinct-middle t [] zs d = d.1
Distinct-middle t (y ∷ ys) zs d =
    (ground (arith, d.0, has-append y ys (t ∷ zs), has-append y ys zs), Distinct-middle t ys zs d.1)

pub Distinct-apart :
    (xs ys : List ℕ) → Distinct (xs ++ ys) → (a : ℕ) → has a xs ≡ true → has a ys ≡ false
Distinct-apart [] ys d a h = cc
Distinct-apart (x ∷ xs) ys d a h =
    ground (arith, d.0, has-append x xs ys, ==_iff x a, Distinct-apart xs ys d.1 a)
