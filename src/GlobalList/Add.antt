-- ===== src/GlobalList/Add.antt =====
-- src/uthread.c: `global_list_add`.
use user_thread_scheduler.Common.{
  ◌≡◌, refl, inl, inr, Bool, true, false, List, [], ◌∷◌, arith, has, ◌==◌, if◌then◌else◌,
  Bool-cases, update, eq_self,
}
use user_thread_scheduler.GlobalList.{global_list_add}
use user_thread_scheduler.GlobalList.Links.{
  Links, IsGlobalList, Links-next, Links-prev, Links-first,
}
use user_thread_scheduler.Machine.{Ptr, null, World, ok, access}

abbrev pub prev_added : (Ptr → Ptr) → Ptr → Ptr → Ptr → Ptr
prev_added prev first p =
    if first == null then update prev p null else update (update prev p null) first p

abbrev pub global_added : World → Ptr → World
global_added w p = record w {
  tcb = record w.tcb {
    global_next = update w.tcb.global_next p w.global_thread_list;
    global_prev = prev_added w.tcb.global_prev w.global_thread_list p;
  };
  global_thread_list = p;
}

module _ (live : Ptr → Bool) (next prev : Ptr → Ptr) where
  first_live :
      (f : Ptr) (gs : List Ptr)
      → Links live next prev null f gs
      → (f == null) ≡ false
      → access live f ≡ true
  first_live f [] c more = absurd (ground arith)
  first_live f (g ∷ gs) c more = rw c.0 c.1

  first_other :
      (f p : Ptr) (gs : List Ptr)
      → Links live next prev null f gs
      → has p gs ≡ false
      → (f == null) ≡ false
      → (f == p) ≡ false
  first_other f p [] c new more = absurd (ground arith)
  first_other f p (g ∷ gs) c new more = ground arith

module _ {w : World} {gs : List Ptr} (p : Ptr) (v : IsGlobalList w gs)
    (alive : access w.live p ≡ true) (new : has p gs ≡ false) where
  pub global_list_add-ok : global_list_add p w ≡ ok tt (global_added w p)
  unfolding global_list_add
  global_list_add-ok = elim (Bool-cases (w.global_thread_list == null)) [
    | inl empty ↦ rw (alive, alive, empty)
    | inr more ↦
        let l : access w.live w.global_thread_list ≡ true =
          first_live w.live w.tcb.global_next w.tcb.global_prev w.global_thread_list gs v.links
            more in
        rw (alive, alive, more, l)
  ]

  added_first : prev_added w.tcb.global_prev w.global_thread_list p p ≡ null
  added_first = elim (Bool-cases (w.global_thread_list == null)) [
    | inl empty ↦ rw (empty, eq_self p) refl
    | inr more ↦
        let other =
          first_other w.live w.tcb.global_next w.tcb.global_prev w.global_thread_list p gs v.links
            new more in
        rw (more, other, eq_self p) refl
  ]

  added-Links :
      Links w.live
        (global_added w p).tcb.global_next
        (global_added w p).tcb.global_prev
        p
        (update w.tcb.global_next p w.global_thread_list p)
        gs
  added-Links = rw (eq_self p) (
      Links-next w.live w.tcb.global_next _ p w.global_thread_list p w.global_thread_list gs
        (Links-first w.live w.tcb.global_next (update w.tcb.global_prev p null) null p
          w.global_thread_list gs
          (Links-prev w.live w.tcb.global_next w.tcb.global_prev p null null w.global_thread_list gs
            v.links new)
          v.distinct)
        new)

  pub added-IsGlobalList : IsGlobalList (global_added w p) (p ∷ gs)
  added-IsGlobalList = record {
    links = (refl, alive, added_first, added-Links);
    distinct = (new, v.distinct);
  }
