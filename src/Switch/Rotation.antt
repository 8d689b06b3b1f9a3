-- ===== src/Switch/Rotation.antt =====
-- src/uthread.c: `uthread_yield` under the round robin policy goes round.
use mathlib.Core.List.{map}
use mathlib.Core.Path.{subst₂, subst}
use user_thread_scheduler.Common.{
  ℕ, zero, suc, ◌≡◌, refl, sym, ◌∙◌, List, [], ◌∷◌, ◌++◌, append-nil, append_assoc, length,
  Distinct, Distinct-snoc,
}
use user_thread_scheduler.Machine.{Ptr, World, ok, Cmd, pure, ◌>>=◌}
use user_thread_scheduler.Switch.{Outcome, switches, reschedule}
use user_thread_scheduler.Switch.Turn.{IsTurnOf, after, reschedule-ok, after-IsTurnOf}

-- `n` threads in turn yield; the results of the calls.
unfoldable pub turns : (ℕ → Cmd Ptr) → ℕ → Cmd (List Outcome)
unfolding reschedule
turns user zero = pure []
turns user (suc n) = do o ← reschedule user; os ← turns user n; pure (o ∷ os)

snoc-injective : (xs ys : List Ptr) (a b : Ptr) → xs ++ a ∷ [] ≡ ys ++ b ∷ [] → (xs ≡ ys) × (a ≡ b)
snoc-injective [] [] a b h = (refl, cc)
snoc-injective [] (y ∷ []) a b h = absurd cc
snoc-injective [] (y ∷ y' ∷ ys) a b h = absurd cc
snoc-injective (x ∷ []) [] a b h = absurd cc
snoc-injective (x ∷ x' ∷ xs) [] a b h = absurd cc
snoc-injective (x ∷ xs) (y ∷ ys) a b h = let (e, f) = snoc-injective xs ys a b cc in (cc, f)

-- After some turns `p` runs, and `xs` wait for it.
pub record Rotated (user : ℕ → Cmd Ptr) (n : ℕ) (w : World) (os : List Outcome) (all : List Ptr)
    : Type 0 where
  pub end : World
  pub returns : turns user n w ≡ ok os end
  pub last : Ptr
  pub others : List Ptr
  pub holds : IsTurnOf end last others
  pub order : others ++ last ∷ [] ≡ all

turns-Rotated :
    (user : ℕ → Cmd Ptr) (w : World) (p : Ptr) (xs ts us : List Ptr)
    → IsTurnOf w p xs
    → xs ++ p ∷ [] ≡ ts ++ us
    → Distinct (ts ++ us)
    → Rotated user (length ts) w (map switches ts) (us ++ ts)
unfolding turns
turns-Rotated user w p xs [] us v e d = record {
  end = w;
  returns = refl;
  last = p;
  others = xs;
  holds = v;
  order = rw (append-nil us) e;
}
turns-Rotated user w p xs (z ∷ zs) us v e d =
    let next = after-IsTurnOf user v z (zs ++ us) e (subst Distinct (sym e) d) in
    let rest =
      turns-Rotated user (after user v z) z (zs ++ us) zs (us ++ z ∷ []) next
        (append_assoc zs us (z ∷ []))
        (subst Distinct (append_assoc zs us (z ∷ [])) (Distinct-snoc z (zs ++ us) d.1 d.0)) in
    record {
      end = rest.end;
      returns = rw (reschedule-ok user v z (zs ++ us) e, rest.returns);
      last = rest.last;
      others = rest.others;
      holds = rest.holds;
      order = rest.order ∙ append_assoc us (z ∷ []) zs;
    }

pub record IsFair (user : ℕ → Cmd Ptr) (w : World) (p : Ptr) (xs : List Ptr) : Type 0 where
  pub end : World
  pub returns : turns user (length (xs ++ p ∷ [])) w ≡ ok (map switches (xs ++ p ∷ [])) end
  pub again : IsTurnOf end p xs

-- With no scheduler function set, where `p` runs, the well-formed ready queue holds `xs`, and every
-- thread that gets its turn calls `uthread_yield`, of which this is the part behind the polling:
-- the threads `xs` run in their order, then `p` runs again with the same ready queue.
pub turns-IsFair :
    (user : ℕ → Cmd Ptr) (w : World) (p : Ptr) (xs : List Ptr)
    → IsTurnOf w p xs
    → IsFair user w p xs
turns-IsFair user w p xs v = record {
  end = t.end;
  returns = t.returns;
  again = subst₂ (IsTurnOf t.end) same.1 same.0 t.holds;
}
  where
    t : Rotated user (length (xs ++ p ∷ [])) w (map switches (xs ++ p ∷ [])) (xs ++ p ∷ [])
    t =
        turns-Rotated user w p xs (xs ++ p ∷ []) [] v (sym (append-nil (xs ++ p ∷ [])))
          (rw append-nil (Distinct-snoc p xs v.queue.queue.distinct v.apart))

    same : (t.others ≡ xs) × (t.last ≡ p)
    same = snoc-injective t.others xs t.last p t.order
