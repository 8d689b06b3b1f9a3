-- ===== src/Blocking/Overflow.antt =====
-- src/uthread.c: which addresses `sigsegv_handler` takes for a stack overflow, and whose.
use user_thread_scheduler.Blocking.{in_guard, guard_loop, sigsegv_handler}
use user_thread_scheduler.Common.{
  ℕ, zero, suc, ◌+◌, ◌<◌, ◌≡◌, refl, ◌∙◌, inl, inr, Bool, true, false, not, ◌||◌, List, [], ◌∷◌,
  ◌++◌, arith, length, ◌==◌, if◌then◌else◌, Bool-cases,
}
use user_thread_scheduler.GlobalList.{guard_page_size}
use user_thread_scheduler.GlobalList.Links.{Links, IsGlobalList}
use user_thread_scheduler.Machine.{
  Ptr, null, default_overflow, SysCall, overflow_message, raise_segv, sigaction, World, ok, exited,
  access, access-ne-null,
}

-- The first listed thread in whose guard page the address lies, NULL if there is none.
abbrev pub victim_of : (Ptr → Ptr) → Ptr → List Ptr → Ptr
victim_of stack addr [] = null
victim_of stack addr (x ∷ xs) =
    let others = victim_of stack addr xs in if in_guard (stack x) addr then x else others

-- Does the address lie in the guard page of some listed thread?
abbrev pub overflows : (Ptr → Ptr) → Ptr → List Ptr → Bool
overflows stack addr [] = false
overflows stack addr (x ∷ xs) = in_guard (stack x) addr || overflows stack addr xs

-- The search gives that thread.
record Searched (w : World) (k : ℕ) (addr p : Ptr) (xs : List Ptr) : Type 0 where
  returns : guard_loop k addr p w ≡ ok (victim_of w.tcb.stack addr xs) w
  exists : (victim_of w.tcb.stack addr xs == null) ≡ not (overflows w.tcb.stack addr xs)
  alive :
      overflows w.tcb.stack addr xs ≡ true → access w.live (victim_of w.tcb.stack addr xs) ≡ true

guard_loop-Searched :
    (w : World) (k : ℕ) (addr b p : Ptr) (xs : List Ptr)
    → Links w.live w.tcb.global_next w.tcb.global_prev b p xs
    → length xs < k
    → Searched w k addr p xs
unfolding guard_loop
guard_loop-Searched w zero addr b p xs c h = absurd (omega arith)
guard_loop-Searched w (suc k) addr b p [] c h = record {
  returns = let end : (p == null) ≡ true = rw c in rw end;
  exists = refl;
  alive = λ bad. absurd cc;
}
guard_loop-Searched w (suc k) addr b p (x ∷ xs) (e, l, f, c) h =
    let some_thread : (x == null) ≡ false = access-ne-null w.live x l in
    elim (Bool-cases (in_guard (w.tcb.stack x) addr)) [
      | inl hit ↦ record {
        returns = rw (e, some_thread, l, l, hit);
        exists = rw (hit, some_thread) refl;
        alive = rw hit (λ _. l);
      }
      | inr miss ↦
          let r = guard_loop-Searched w k addr x (w.tcb.global_next x) xs c (omega arith) in
          record {
            returns = rw (e, some_thread, l, l, miss) r.returns;
            exists = rw miss r.exists;
            alive = rw miss r.alive;
          }
    ]

-- With one more call of the operating system, or two.
abbrev pub calling : World → List SysCall → World
calling w cs = record w { os = record w.os { calls = w.os.calls ++ cs } }

-- With a well-formed global list of fewer threads than `rounds`, the handler ends the process with
-- status 139 where the address lies in the guard page of a listed thread, with a message that names
-- the first such thread and its guard page; at any other address it sets the default action of
-- SIGSEGV, raises SIGSEGV and returns.
pub sigsegv_handler-overflows :
    (addr : Ptr) {w : World} {gs : List Ptr}
    → IsGlobalList w gs
    → length gs < w.rounds
    → sigsegv_handler addr w ≡ (
        let t = victim_of w.tcb.stack addr gs in
        if overflows w.tcb.stack addr gs
        then exited 139 (
            calling w (
              overflow_message
                (w.tcb.thread_id t)
                addr
                (w.tcb.stack t)
                (w.tcb.stack t + guard_page_size)
              ∷ []))
        else ok tt (calling (calling w (sigaction default_overflow ∷ [])) (raise_segv ∷ [])))
unfolding sigsegv_handler
sigsegv_handler-overflows addr {w} {gs} v few =
    let r = guard_loop-Searched w w.rounds addr null w.global_thread_list gs v.links few in
    elim (Bool-cases (overflows w.tcb.stack addr gs)) [
      | inl hit ↦
          let found : (victim_of w.tcb.stack addr gs == null) ≡ false = r.exists ∙ rw hit refl in
          let l = r.alive hit in rw (r.returns, found, l, l, hit)
      | inr miss ↦
          let none_found : (victim_of w.tcb.stack addr gs == null) ≡ true =
            r.exists ∙ rw miss refl in
          rw (r.returns, none_found, miss)
    ]
