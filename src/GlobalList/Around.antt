-- ===== src/GlobalList/Around.antt =====
-- src/uthread.c: the neighbours of a collected thread, and the global list without it.
use mathlib.Core.Path.{subst}
use user_thread_scheduler.Common.{
  ◌≡◌, refl, sym, inl, inr, Bool, false, List, [], ◌∷◌, ◌++◌, arith, has, Distinct, has-append,
  Distinct-right, has-middle, Distinct-apart, ◌==◌, if◌then◌else◌, ==_iff, update,
}
use user_thread_scheduler.GlobalList.Collect.{Neighbour}
use user_thread_scheduler.GlobalList.Links.{
  Links, prev_removed, lead, first_left, Links-after, Links-at, Links-removed, Links-Chain,
  Links-freed, Chain-freed, Chain-has-null, lead-null,
}
use user_thread_scheduler.Machine.{Ptr, null, access-ne-null}
use user_thread_scheduler.Machine.Apart.{Chain-outside}
use user_thread_scheduler.Machine.Chain.{last, Chain, has-last, access-prefix, next_unlinked}

module _ (live : Ptr → Bool) (next prev : Ptr → Ptr) where
  pub next-Neighbour :
      (t : Ptr) (zs : List Ptr)
      → Links live next prev t (next t) zs
      → has t zs ≡ false
      → Neighbour live t (next t)
  next-Neighbour t [] c h = inl (rw c)
  next-Neighbour t (z ∷ zs) c h = inr (rw c.0 c.1, ground arith)

  pub prev-Neighbour :
      (p : Ptr) (ys : List Ptr) (t : Ptr) (zs : List Ptr)
      → Links live next prev null p (ys ++ t ∷ zs)
      → Distinct (ys ++ t ∷ zs)
      → Neighbour live t (lead null ys)
  prev-Neighbour p [] t zs c d = inl refl
  prev-Neighbour p (y ∷ ys) t zs c d = inr (
    access-prefix live next p y ys (t ∷ zs)
        (Links-Chain live next prev null p (y ∷ ys ++ t ∷ zs) c),
    ground (
      arith,
      has-middle t (y ∷ ys) zs d,
      has-append t (y ∷ ys) zs,
      has-last y ys,
      ==_iff (last (y ∷ ys)) t,
    ),
  )

  pub first_left-if :
      (p : Ptr) (ys : List Ptr) (t : Ptr) (zs : List Ptr)
      → Links live next prev null p (ys ++ t ∷ zs)
      → (if lead null ys == null then next t else p) ≡ first_left next p ys t
  first_left-if p [] t zs c = refl
  first_left-if p (y ∷ ys) t zs c = rw (
      access-ne-null live (last (y ∷ ys)) (
        access-prefix live next p y ys (t ∷ zs)
          (Links-Chain live next prev null p (y ∷ ys ++ t ∷ zs) c)))

  -- The list once `t` has been unlinked and freed.
  pub Links-collected :
      (p : Ptr) (ys : List Ptr) (t : Ptr) (zs : List Ptr)
      → Links live next prev null p (ys ++ t ∷ zs)
      → Distinct (ys ++ t ∷ zs)
      → Links
          (update live t false)
          (next_unlinked next (prev t) t)
          (prev_removed prev next (prev t) t)
          null
          (if prev t == null then next t else p)
          (ys ++ zs)
  Links-collected p ys t zs c d =
      subst
        (λ q.
          Links (update live t false) (next_unlinked next q t) (prev_removed prev next q t) null
            (if q == null then next t else p) (ys ++ zs))
        (sym (Links-at live next prev null p ys t zs c).1)
        (subst
          (λ f.
            Links (update live t false) (next_unlinked next (lead null ys) t)
              (prev_removed prev next (lead null ys) t) null f (ys ++ zs))
          (sym (first_left-if p ys t zs c))
          (Links-freed live _ _ t null _ (ys ++ zs)
            (Links-removed live next prev null p ys t zs c d (
              Chain-has-null live next p (ys ++ t ∷ zs)
                (Links-Chain live next prev null p (ys ++ t ∷ zs) c)))
            (has-middle t ys zs d)))

  -- What is behind `t` is still in reach.
  pub Chain-collected :
      (p : Ptr) (ys : List Ptr) (t : Ptr) (zs : List Ptr)
      → Links live next prev null p (ys ++ t ∷ zs)
      → Distinct (ys ++ t ∷ zs)
      → Chain (update live t false) (next_unlinked next (prev t) t) (next t) zs
  Chain-collected p ys t zs c d =
      subst (λ q. Chain (update live t false) (next_unlinked next q t) (next t) zs)
        (sym (Links-at live next prev null p ys t zs c).1)
        (Chain-freed live _ t (next t) zs
          (rw (lead-null ys) (
            Chain-outside live next (next t) zs ys t
              (Links-Chain live next prev t (next t) zs
                (Links-after live next prev null p ys t zs c))
              behind (λ a h. ground (arith, Distinct-apart ys (t ∷ zs) d a))))
          behind)
    where
      behind : has t zs ≡ false
      behind = (Distinct-right ys (t ∷ zs) d).0
