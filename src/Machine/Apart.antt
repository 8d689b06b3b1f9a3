-- ===== src/Machine/Apart.antt =====
-- Queues and chains that have no block in common: an operation on one leaves the other as it is.
use mathlib.Core.Path.{subst}
use user_thread_scheduler.Common.{
  ◌≡◌, sym, Bool, true, false, List, [], ◌∷◌, arith, has, ◌==◌, if◌then◌else◌, update,
}
use user_thread_scheduler.Machine.{Ptr, null, Ends}
use user_thread_scheduler.Machine.Chain.{last, Chain, has-last, Chain-update, next_unlinked}
use user_thread_scheduler.Machine.Queue.{IsQueue, linked, IsQueue-empty, IsQueue-update}

if-update-IsQueue :
    {live : Ptr → Bool} {next : Ptr → Ptr} {q : Ends} {xs : List Ptr} (b : Bool) (a v : Ptr)
    → IsQueue live next q xs
    → has a xs ≡ false
    → IsQueue live (if b then next else update next a v) q xs
if-update-IsQueue true a v i h = i
if-update-IsQueue false a v i h = IsQueue-update a v i h

-- A write to the `next` field of `ys` and of `t` leaves a queue apart from them.
pub IsQueue-unlinked :
    {live : Ptr → Bool} {next : Ptr → Ptr} {q : Ends} {xs : List Ptr} (ys : List Ptr) (t : Ptr)
    → IsQueue live next q xs
    → has t xs ≡ false
    → ((a : Ptr) → has a ys ≡ true → has a xs ≡ false)
    → IsQueue live (next_unlinked next (last ys) t) q xs
IsQueue-unlinked [] t v h apart = IsQueue-update t null v h
IsQueue-unlinked {next} {xs} (y ∷ ys) t v h apart =
    let other : has (last (y ∷ ys)) xs ≡ false = apart (last (y ∷ ys)) (has-last y ys) in
    IsQueue-update t null
      (if-update-IsQueue (last (y ∷ ys) == null) (last (y ∷ ys)) (next t) v other) h

if-update-Chain :
    (live : Ptr → Bool) (b : Bool) (f : Ptr → Ptr) (a v p : Ptr) (ss : List Ptr)
    → Chain live f p ss
    → has a ss ≡ false
    → Chain live (if b then f else update f a v) p ss
if-update-Chain live true f a v p ss c h = c
if-update-Chain live false f a v p ss c h = Chain-update live f a v p ss c h

pub Chain-outside :
    (live : Ptr → Bool) (next : Ptr → Ptr) (p : Ptr) (ss ys : List Ptr) (t : Ptr)
    → Chain live next p ss
    → has t ss ≡ false
    → ((a : Ptr) → has a ys ≡ true → has a ss ≡ false)
    → Chain live (next_unlinked next (last ys) t) p ss
Chain-outside live next p ss [] t c h apart = Chain-update live next t null p ss c h
Chain-outside live next p ss (y ∷ ys) t c h apart =
    Chain-update live _ t null p ss
      (if-update-Chain live (last (y ∷ ys) == null) next (last (y ∷ ys)) (next t) p ss c
        (apart (last (y ∷ ys)) (has-last y ys)))
      h

-- `push_back` on a queue leaves a chain apart from it.
pub Chain-linked :
    {live : Ptr → Bool} {next : Ptr → Ptr} {q : Ends} {xs : List Ptr} (f : Ptr → Ptr) (p t : Ptr)
    (ss : List Ptr)
    → IsQueue live next q xs
    → Chain live f p ss
    → ((a : Ptr) → has a ss ≡ true → has a xs ≡ false)
    → Chain live (linked f q t) p ss
Chain-linked {live} {q} {xs = []} f p t ss v c apart =
    subst (λ b. Chain live (if b then f else update f q.tail t) p ss) (sym (IsQueue-empty v)) c
Chain-linked {live} {q} {xs = x ∷ xs} f p t ss v c apart =
    if-update-Chain live (q.tail == null) f q.tail t p ss c
      (rw v.tail (ground (arith, apart (last (x ∷ xs)), has-last x xs)))

pub linked-outside :
    {live : Ptr → Bool} {next : Ptr → Ptr} {q : Ends} {xs : List Ptr} (f : Ptr → Ptr) (t a : Ptr)
    → IsQueue live next q xs
    → has a xs ≡ false
    → linked f q t a ≡ f a
linked-outside {q} {xs = []} f t a v h = rw (IsQueue-empty v)
linked-outside {q} {xs = x ∷ xs} f t a v h =
    let ne : (q.tail == a) ≡ false = rw v.tail (ground (arith, has-last x xs)) in ground arith

-- A queue depends on the `next` fields of its own blocks alone.
pub Chain-same :
    (live : Ptr → Bool) (f g : Ptr → Ptr) (p : Ptr) (xs : List Ptr)
    → Chain live f p xs
    → ((a : Ptr) → has a xs ≡ true → g a ≡ f a)
    → Chain live g p xs
Chain-same live f g p [] c same = c
Chain-same live f g p (x ∷ xs) (e, l, c) same = (
  e,
  l,
  rw (same x (ground arith)) (Chain-same live f g (f x) xs c (λ a h. same a (ground arith))),
)

pub IsQueue-same :
    {live : Ptr → Bool} {f : Ptr → Ptr} {q : Ends} {xs : List Ptr} (g : Ptr → Ptr)
    → IsQueue live f q xs
    → ((a : Ptr) → has a xs ≡ true → g a ≡ f a)
    → IsQueue live g q xs
IsQueue-same {live} {f} {q} {xs} g v same = record {
  chain = Chain-same live f g q.head xs v.chain same;
  tail = v.tail;
  distinct = v.distinct;
}
