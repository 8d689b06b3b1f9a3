-- ===== src/GlobalList/Links.antt =====
-- src/uthread.c: doubly linked lists through `global_next` and `global_prev`.
use mathlib.Core.Path.{subst}
use user_thread_scheduler.Common.{
  ◌≡◌, refl, sym, ◌∙◌, inl, inr, Bool, true, false, List, [], ◌∷◌, ◌++◌, arith, has, Distinct,
  has-append, ◌==◌, if◌then◌else◌, Bool-cases, update, eq_self,
}
use user_thread_scheduler.Machine.{Ptr, null, World, access, access-ne-null}
use user_thread_scheduler.Machine.Chain.{last, Chain, has-last, next_unlinked}

-- From `p`, whose predecessor is `b`, the pointers lead through the live blocks `xs`, both ways.
abbrev pub Links : (Ptr → Bool) → (Ptr → Ptr) → (Ptr → Ptr) → Ptr → Ptr → List Ptr → Type 0
Links live next prev b p [] = p ≡ null
Links live next prev b p (x ∷ xs) =
    (p ≡ x) × (access live x ≡ true) × (prev x ≡ b) × Links live next prev x (next x) xs

-- The global list holds the distinct blocks `gs`.
pub record IsGlobalList (w : World) (gs : List Ptr) : Type 0 where
  pub links : Links w.live w.tcb.global_next w.tcb.global_prev null w.global_thread_list gs
  pub distinct : Distinct gs

module _ (live : Ptr → Bool) where
  pub Links-next :
      (next prev : Ptr → Ptr) (a v b p : Ptr) (xs : List Ptr)
      → Links live next prev b p xs
      → has a xs ≡ false
      → Links live (update next a v) prev b p xs
  Links-next next prev a v b p [] c h = c
  Links-next next prev a v b p (x ∷ xs) (e, l, f, c) h =
      let ne : (a == x) ≡ false = ground arith in
      (e, l, f, rw ne (Links-next next prev a v x (next x) xs c (ground arith)))

  pub Links-prev :
      (next prev : Ptr → Ptr) (a v b p : Ptr) (xs : List Ptr)
      → Links live next prev b p xs
      → has a xs ≡ false
      → Links live next (update prev a v) b p xs
  Links-prev next prev a v b p [] c h = c
  Links-prev next prev a v b p (x ∷ xs) (e, l, f, c) h =
      (e, l, ground arith, Links-prev next prev a v x (next x) xs c (ground arith))

  -- The first block of a list gets another predecessor.
  pub Links-first :
      (next prev : Ptr → Ptr) (b v p : Ptr) (xs : List Ptr)
      → Links live next prev b p xs
      → Distinct xs
      → Links live next (if p == null then prev else update prev p v) v p xs
  Links-first next prev b v p [] c d = c
  Links-first next prev b v p (x ∷ xs) (e, l, f, c) d =
      let some_block : (p == null) ≡ false = rw e (access-ne-null live x l) in
      let apart : has p xs ≡ false = rw e d.0 in
      subst (λ z. Links live next (if z then prev else update prev p v) v p (x ∷ xs))
        (sym some_block) (e, l, ground arith, Links-prev next prev p v x (next x) xs c apart)

-- `prev` after `t` has been taken out, where `q` is its predecessor.
abbrev pub prev_removed : (Ptr → Ptr) → (Ptr → Ptr) → Ptr → Ptr → Ptr → Ptr
prev_removed prev next q t = update (if next t == null then prev else update prev (next t) q) t null

-- The predecessor of what stands behind `ys`, and the first block once `t` behind `ys` is gone.
abbrev pub lead : Ptr → List Ptr → Ptr
lead b [] = b
lead b (y ∷ ys) = last (y ∷ ys)

abbrev pub first_left : (Ptr → Ptr) → Ptr → List Ptr → Ptr → Ptr
first_left next p [] t = next t
first_left next p (y ∷ ys) t = p

module _ (live : Ptr → Bool) (next prev : Ptr → Ptr) where
  if-Links-next :
      (z : Bool) (f : Ptr → Ptr) (a v b p : Ptr) (xs : List Ptr)
      → Links live next f b p xs
      → has a xs ≡ false
      → Links live (if z then next else update next a v) f b p xs
  if-Links-next true f a v b p xs c h = c
  if-Links-next false f a v b p xs c h = Links-next live next f a v b p xs c h

  -- The blocks behind `t` get the predecessor `b`.
  Links-tail :
      (b t : Ptr) (zs : List Ptr)
      → Links live next prev t (next t) zs
      → has t zs ≡ false
      → Distinct zs
      → has b zs ≡ false
      → Links live (next_unlinked next b t) (prev_removed prev next b t) b (next t) zs
  Links-tail b t zs c h d out =
      Links-prev live _ _ t null b (next t) zs
        (Links-next live _ _ t null b (next t) zs
          (if-Links-next (b == null) _ b (next t) b (next t) zs
            (Links-first live next prev t b (next t) zs c d) out)
          h)
        h

  next-ne :
      (t y : Ptr) (zs : List Ptr)
      → Links live next prev t (next t) zs
      → access live y ≡ true
      → has y zs ≡ false
      → (next t == null) ≡ false
      → (next t == y) ≡ false
  next-ne t y [] c l h some_block = ground arith
  next-ne t y (z ∷ zs) c l h some_block = ground arith

  prev_removed-other :
      (q t y : Ptr) (zs : List Ptr)
      → Links live next prev t (next t) zs
      → access live y ≡ true
      → has y zs ≡ false
      → (t == y) ≡ false
      → prev_removed prev next q t y ≡ prev y
  prev_removed-other q t y zs c l h ne = elim (Bool-cases (next t == null)) [
    | inl end ↦ rw (ne, end)
    | inr more ↦ rw (ne, more, next-ne t y zs c l h more)
  ]

  next_unlinked_self :
      (y t : Ptr) → (t == y) ≡ false → access live y ≡ true → next_unlinked next y t y ≡ next t
  next_unlinked_self y t ne l = rw (ne, access-ne-null live y l, eq_self y)

  next_unlinked-other :
      (q t y : Ptr) → (t == y) ≡ false → (q == y) ≡ false → next_unlinked next q t y ≡ next y
  next_unlinked-other q t y ne other = ground arith

  pub Links-after :
      (b p : Ptr) (ys : List Ptr) (t : Ptr) (zs : List Ptr)
      → Links live next prev b p (ys ++ t ∷ zs)
      → Links live next prev t (next t) zs
  Links-after b p [] t zs c = c.3
  Links-after b p (y ∷ ys) t zs c = Links-after y (next y) ys t zs c.3

  -- What the fields of a block in the middle say.
  pub Links-at :
      (b p : Ptr) (ys : List Ptr) (t : Ptr) (zs : List Ptr)
      → Links live next prev b p (ys ++ t ∷ zs)
      → (access live t ≡ true) × (prev t ≡ lead b ys)
  Links-at b p [] t zs c = (c.1, c.2)
  Links-at b p (y ∷ []) t zs c = (c.3.1, c.3.2)
  Links-at b p (y ∷ x ∷ ys) t zs c = Links-at y (next y) (x ∷ ys) t zs c.3

  -- The list without `t`.
  pub Links-removed :
      (b p : Ptr) (ys : List Ptr) (t : Ptr) (zs : List Ptr)
      → Links live next prev b p (ys ++ t ∷ zs)
      → Distinct (ys ++ t ∷ zs)
      → has b (ys ++ t ∷ zs) ≡ false
      → Links live
          (next_unlinked next (lead b ys) t)
          (prev_removed prev next (lead b ys) t)
          b
          (first_left next p ys t)
          (ys ++ zs)
  Links-removed b p [] t zs c d out = Links-tail b t zs c.3 d.0 d.1 (ground arith)
  Links-removed b p (y ∷ []) t zs (e, l, f, c) d out =
      let ne : (t == y) ≡ false = ground (arith, d.0) in
      let apart : has y zs ≡ false = ground (arith, d.0) in
      (
        e,
        l,
        prev_removed-other y t y zs c.3 l apart ne ∙ f,
        subst (λ n. Links live (next_unlinked next y t) (prev_removed prev next y t) y n zs)
            (sym (next_unlinked_self y t ne l)) (Links-tail y t zs c.3 d.1.0 d.1.1 apart),
      )
  Links-removed b p (y ∷ x ∷ ys) t zs (e, l, f, c) d out =
      let parts = has-append y (x ∷ ys) (t ∷ zs) in
      let ne : (t == y) ≡ false = ground (arith, d.0, parts) in
      let apart : has y zs ≡ false = ground (arith, d.0, parts) in
      let other : (last (x ∷ ys) == y) ≡ false = ground (arith, d.0, parts, has-last x ys) in
      (
        e,
        l,
        prev_removed-other (last (x ∷ ys)) t y zs (Links-after y (next y) (x ∷ ys) t zs c) l apart
              ne
            ∙ f,
        subst
            (λ n.
              Links live (next_unlinked next (last (x ∷ ys)) t)
                (prev_removed prev next (last (x ∷ ys)) t) y n (x ∷ ys ++ zs))
            (sym (next_unlinked-other (last (x ∷ ys)) t y ne other))
            (Links-removed y (next y) (x ∷ ys) t zs c d.1 d.0),
      )

  pub Links-Chain : (b p : Ptr) (xs : List Ptr) → Links live next prev b p xs → Chain live next p xs
  Links-Chain b p [] c = c
  Links-Chain b p (x ∷ xs) (e, l, f, c) = (e, l, Links-Chain x (next x) xs c)

pub access-freed :
    (live : Ptr → Bool) (t a : Ptr)
    → (t == a) ≡ false
    → access live a ≡ true
    → access (update live t false) a ≡ true
unfolding access
access-freed live t a ne l = ground arith

-- Freeing a block that is not in a list.
pub Links-freed :
    (live : Ptr → Bool) (next prev : Ptr → Ptr) (t b p : Ptr) (xs : List Ptr)
    → Links live next prev b p xs
    → has t xs ≡ false
    → Links (update live t false) next prev b p xs
Links-freed live next prev t b p [] c h = c
Links-freed live next prev t b p (x ∷ xs) (e, l, f, c) h = (
  e,
  access-freed live t x (ground arith) l,
  f,
  Links-freed live next prev t x (next x) xs c (ground arith),
)

pub Chain-freed :
    (live : Ptr → Bool) (next : Ptr → Ptr) (t p : Ptr) (xs : List Ptr)
    → Chain live next p xs
    → has t xs ≡ false
    → Chain (update live t false) next p xs
Chain-freed live next t p [] c h = c
Chain-freed live next t p (x ∷ xs) (e, l, c) h = (
  e,
  access-freed live t x (ground arith) l,
  Chain-freed live next t (next x) xs c (ground arith),
)

pub Chain-has-null :
    (live : Ptr → Bool) (next : Ptr → Ptr) (p : Ptr) (xs : List Ptr)
    → Chain live next p xs
    → has null xs ≡ false
Chain-has-null live next p [] c = refl
Chain-has-null live next p (x ∷ xs) (e, l, c) =
    ground (arith, access-ne-null live x l, Chain-has-null live next (next x) xs c)

pub lead-null : (ys : List Ptr) → lead null ys ≡ last ys
lead-null [] = refl
lead-null (y ∷ ys) = refl
