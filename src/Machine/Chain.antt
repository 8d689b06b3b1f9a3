-- ===== src/Machine/Chain.antt =====
-- Lists threaded through the `next` field of the blocks.
use mathlib.Core.Path.{subst}
use user_thread_scheduler.Common.{
  ◌≡◌, refl, sym, ◌⊎◌, inl, inr, Bool, true, false, List, [], ◌∷◌, ◌++◌, arith, has, Distinct,
  has-append, ◌==◌, if◌then◌else◌, update, eq_self,
}
use user_thread_scheduler.Machine.{Ptr, null, access, access-ne-null}

abbrev pub last : List Ptr → Ptr
last [] = null
last (x ∷ []) = x
last (x ∷ y ∷ ys) = last (y ∷ ys)

-- From `p` the `next` pointers lead through the live blocks `xs` to NULL.
abbrev pub Chain : (Ptr → Bool) → (Ptr → Ptr) → Ptr → List Ptr → Type 0
Chain live next p [] = p ≡ null
Chain live next p (x ∷ xs) = (p ≡ x) × (access live x ≡ true) × Chain live next (next x) xs

pub has-last : (x : Ptr) (xs : List Ptr) → has (last (x ∷ xs)) (x ∷ xs) ≡ true
has-last x [] = ground arith
has-last x (y ∷ ys) = ground (arith, has-last y ys)

pub last-snoc : (a : Ptr) (xs : List Ptr) → last (xs ++ a ∷ []) ≡ a
last-snoc a [] = refl
last-snoc a (x ∷ []) = refl
last-snoc a (x ∷ y ∷ ys) = last-snoc a (y ∷ ys)

module _ (live : Ptr → Bool) where
  -- A write to the `next` field of another block leaves a chain as it is.
  pub Chain-update :
      (next : Ptr → Ptr) (a v p : Ptr) (xs : List Ptr)
      → Chain live next p xs
      → has a xs ≡ false
      → Chain live (update next a v) p xs
  Chain-update next a v p [] c h = c
  Chain-update next a v p (x ∷ xs) (e, l, c) h =
      let ne : (a == x) ≡ false = ground arith in
      (e, l, rw ne (Chain-update next a v (next x) xs c (ground arith)))

  pub Chain-ne-null :
      (next : Ptr → Ptr) (p x : Ptr) (xs : List Ptr)
      → Chain live next p (x ∷ xs)
      → (p == null) ≡ false
  Chain-ne-null next p x xs (e, l, c) = rw e (access-ne-null live x l)

  pub last-ne-null :
      (next : Ptr → Ptr) (p x : Ptr) (xs : List Ptr)
      → Chain live next p (x ∷ xs)
      → (last (x ∷ xs) == null) ≡ false
  last-ne-null next p x [] (e, l, c) = access-ne-null live x l
  last-ne-null next p x (y ∷ ys) (e, l, c) = last-ne-null next (next x) y ys c

  pub access-last :
      (next : Ptr → Ptr) (p x : Ptr) (xs : List Ptr)
      → Chain live next p (x ∷ xs)
      → access live (last (x ∷ xs)) ≡ true
  access-last next p x [] (e, l, c) = l
  access-last next p x (y ∷ ys) (e, l, c) = access-last next (next x) y ys c

  -- The last block of a chain is made to point at a new one.
  pub Chain-snoc :
      (next : Ptr → Ptr) (a p x : Ptr) (xs : List Ptr)
      → Chain live next p (x ∷ xs)
      → Distinct (x ∷ xs)
      → has a (x ∷ xs) ≡ false
      → access live a ≡ true
      → Chain live (update (update next a null) (last (x ∷ xs)) a) p (x ∷ xs ++ a ∷ [])
  Chain-snoc next a p x [] (e, l, c) d h la = (e, l, (ground arith, la, ground arith))
  Chain-snoc next a p x (y ∷ ys) (e, l, c) d h la =
      let other : (last (y ∷ ys) == x) ≡ false = ground (arith, has-last y ys) in
      let new : (a == x) ≡ false = ground arith in
      (e, l, rw (other, new) (Chain-snoc next a (next x) y ys c d.1 (ground arith) la))

pub last-append : (xs : List Ptr) (z : Ptr) (zs : List Ptr) → last (xs ++ z ∷ zs) ≡ last (z ∷ zs)
last-append [] z zs = refl
last-append (x ∷ []) z zs = refl
last-append (x ∷ y ∷ ys) z zs = last-append (y ∷ ys) z zs

pub Chain-access :
    (live : Ptr → Bool) (next : Ptr → Ptr) (p : Ptr) (ys : List Ptr) (t : Ptr) (zs : List Ptr)
    → Chain live next p (ys ++ t ∷ zs)
    → access live t ≡ true
Chain-access live next p [] t zs c = c.1
Chain-access live next p (y ∷ ys) t zs c = Chain-access live next (next y) ys t zs c.2

pub Chain-after :
    (live : Ptr → Bool) (next : Ptr → Ptr) (p : Ptr) (ys : List Ptr) (t : Ptr) (zs : List Ptr)
    → Chain live next p (ys ++ t ∷ zs)
    → Chain live next (next t) zs
Chain-after live next p [] t zs c = c.2
Chain-after live next p (y ∷ ys) t zs c = Chain-after live next (next y) ys t zs c.2

pub access-prefix :
    (live : Ptr → Bool) (next : Ptr → Ptr) (p y : Ptr) (ys zs : List Ptr)
    → Chain live next p (y ∷ ys ++ zs)
    → access live (last (y ∷ ys)) ≡ true
access-prefix live next p y [] zs c = c.1
access-prefix live next p y (x ∷ ys) zs c = access-prefix live next (next y) x ys zs c.2

-- `next` after `prev->next = cur->next` (where there is a `prev`) and `cur->next = NULL`.
abbrev pub next_unlinked : (Ptr → Ptr) → Ptr → Ptr → Ptr → Ptr
next_unlinked next prev cur =
    update (if prev == null then next else update next prev (next cur)) cur null

pub prev_ok :
    (live : Ptr → Bool) (next : Ptr → Ptr) (p : Ptr) (ys zs : List Ptr)
    → Chain live next p (ys ++ zs)
    → ((last ys == null) ≡ true) ⊎ (access live (last ys) ≡ true)
prev_ok live next p [] zs c = inl refl
prev_ok live next p (y ∷ ys) zs c = inr (access-prefix live next p y ys zs c)

pub next_unlinked-outside :
    (next : Ptr → Ptr) (ys zs : List Ptr) (t a : Ptr)
    → has a (ys ++ t ∷ zs) ≡ false
    → next_unlinked next (last ys) t a ≡ next a
next_unlinked-outside next [] zs t a h = ground arith
next_unlinked-outside next (y ∷ ys) zs t a h =
    ground (arith, has-append a (y ∷ ys) (t ∷ zs), has-last y ys)

module _ (live : Ptr → Bool) (next : Ptr → Ptr) (t : Ptr) (zs : List Ptr) where
  pub Chain-unlink :
      (p y : Ptr) (ys : List Ptr)
      → Chain live next p (y ∷ ys ++ t ∷ zs)
      → Distinct (y ∷ ys ++ t ∷ zs)
      → Chain live (update (update next (last (y ∷ ys)) (next t)) t null) p (y ∷ ys ++ zs)
  Chain-unlink p y [] (e, l, (_, _, c)) (dy, (dt, d)) =
      let ne : (t == y) ≡ false = ground arith in
      let kept : Chain live (update next y (next t)) (next t) zs =
        Chain-update live next y (next t) (next t) zs c (ground arith) in
      (e, l, rw (ne, eq_self y) (Chain-update live _ t null (next t) zs kept dt))
  Chain-unlink p y (z ∷ ys) (e, l, c) (dy, d) =
      let parts = has-append y (z ∷ ys) (t ∷ zs) in
      let ne : (t == y) ≡ false = ground (arith, parts) in
      let other : (last (z ∷ ys) == y) ≡ false = ground (arith, parts, has-last z ys) in
      (e, l, rw (ne, other) (Chain-unlink (next y) z ys c d))

-- The same with a list that may begin with `t`; its first pointer is then redirected.
pub Chain-unlinked :
    (live : Ptr → Bool) (next : Ptr → Ptr) (p : Ptr) (ys : List Ptr) (t : Ptr) (zs : List Ptr)
    → Chain live next p (ys ++ t ∷ zs)
    → Distinct (ys ++ t ∷ zs)
    → Chain live (next_unlinked next (last ys) t) (if last ys == null then next t else p) (ys ++ zs)
Chain-unlinked live next p [] t zs c d = Chain-update live next t null (next t) zs c.2 d.0
Chain-unlinked live next p (y ∷ ys) t zs c d =
    subst
      (λ first.
        Chain live (update (if first then next else update next (last (y ∷ ys)) (next t)) t null)
          (if first then next t else p) (y ∷ ys ++ zs))
      (sym (access-ne-null live _ (access-prefix live next p y ys (t ∷ zs) c)))
      (Chain-unlink live next t zs p y ys c d)
