-- ===== src/GlobalList/Collect.antt =====
-- src/uthread.c: `gc_finished_threads` frees the finished threads and nothing else.
use user_thread_scheduler.Common.{
  ℕ, ◌≡◌, ◌⊎◌, inl, inr, Bool, true, false, not, ◌&&◌, List, [], ◌∷◌, ◌++◌, append-nil, ◌==◌,
  if◌then◌else◌, Bool-cases, update,
}
use user_thread_scheduler.GlobalList.{is_mapped, free_guarded_stack, free, is_finished, collect}
use user_thread_scheduler.GlobalList.Links.{prev_removed}
use user_thread_scheduler.Machine.{
  Ptr, null, ThreadState, SysCall, munmap, World, ok, ◌>>◌, access, access-ne-null,
}
use user_thread_scheduler.Machine.Chain.{next_unlinked}

-- What a collection may change.
pub record Collection : Type 0 where
  pub next : Ptr → Ptr
  pub prev : Ptr → Ptr
  pub first : Ptr
  pub live : Ptr → Bool
  pub calls : List SysCall

abbrev pub collected : World → Collection → World
collected w d = record w {
  tcb = record w.tcb { global_next = d.next; global_prev = d.prev };
  global_thread_list = d.first;
  live = d.live;
  os = record w.os { calls = d.calls };
}

-- The threads that are collected: finished, and not the current one.
abbrev pub is_garbage : (Ptr → ThreadState) → Ptr → Ptr → Bool
is_garbage state me p = is_finished (state p) && not (p == me)

abbrev pub garbage : (Ptr → ThreadState) → Ptr → List Ptr → List Ptr
garbage state me [] = []
garbage state me (x ∷ xs) =
    if is_garbage state me x then x ∷ garbage state me xs else garbage state me xs

abbrev pub survivors : (Ptr → ThreadState) → Ptr → List Ptr → List Ptr
survivors state me [] = []
survivors state me (x ∷ xs) =
    if is_garbage state me x then survivors state me xs else x ∷ survivors state me xs

-- The `munmap` of the stack of each collected thread that has one.
abbrev pub unmap : Ptr → ℕ → List SysCall
unmap stack size = if is_mapped stack size then munmap stack size ∷ [] else []

abbrev pub unmaps : (Ptr → Ptr) → (Ptr → ℕ) → List Ptr → List SysCall
unmaps stack size [] = []
unmaps stack size (x ∷ xs) = unmap (stack x) (size x) ++ unmaps stack size xs

abbrev pub one_collected : World → Ptr → Collection
one_collected w t = record {
  next = next_unlinked w.tcb.global_next (w.tcb.global_prev t) t;
  prev = prev_removed w.tcb.global_prev w.tcb.global_next (w.tcb.global_prev t) t;
  first = if w.tcb.global_prev t == null then w.tcb.global_next t else w.global_thread_list;
  live = update w.live t false;
  calls = w.os.calls ++ unmap (w.tcb.stack t) (w.tcb.stack_alloc t);
}

-- The neighbours of a block: NULL or live, and not the block itself.
abbrev pub Neighbour : (Ptr → Bool) → Ptr → Ptr → Type 0
Neighbour live t n = ((n == null) ≡ true) ⊎ ((access live n ≡ true) × ((n == t) ≡ false))

freed : Ptr → ℕ → Ptr → World → World
freed stack size t w = record w {
  live = update w.live t false;
  os = record w.os { calls = w.os.calls ++ unmap stack size };
}

freed-ok :
    (stack : Ptr) (size : ℕ) (t : Ptr) (w : World)
    → access w.live t ≡ true
    → (free_guarded_stack stack size >> free t) w ≡ ok tt (freed stack size t w)
unfolding free_guarded_stack free freed
freed-ok stack size t w l = elim (Bool-cases (is_mapped stack size)) [
  | inl mapped ↦ rw (mapped, l)
  | inr bare ↦ rw (bare, l, append-nil)
]

pub collect-ok :
    (w : World) (t : Ptr)
    → access w.live t ≡ true
    → Neighbour w.live t (w.tcb.global_prev t)
    → Neighbour w.live t (w.tcb.global_next t)
    → collect t w ≡ ok tt (collected w (one_collected w t))
unfolding collect freed
collect-ok w t l (inl first) (inl end) =
    rw (l, l, first, l, l, end, l, l, l, l) (freed-ok (w.tcb.stack t) (w.tcb.stack_alloc t) t _ l)
collect-ok w t l (inl first) (inr (n, o)) =
    rw (l, l, first, l, l, access-ne-null w.live _ n, n, l, l, l, l)
      (freed-ok (w.tcb.stack t) (w.tcb.stack_alloc t) t _ l)
collect-ok w t l (inr (p, q)) (inl end) =
    rw (l, l, access-ne-null w.live _ p, p, l, l, q, end, l, l, l, l)
      (freed-ok (w.tcb.stack t) (w.tcb.stack_alloc t) t _ l)
collect-ok w t l (inr (p, q)) (inr (n, o)) =
    rw (l, l, access-ne-null w.live _ p, p, l, l, q, access-ne-null w.live _ n, n, l, l, l, l)
      (freed-ok (w.tcb.stack t) (w.tcb.stack_alloc t) t _ l)
