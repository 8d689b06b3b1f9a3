-- ===== src/GlobalList.antt =====
-- src/uthread.c: the global thread list (`global_list_add`, `global_list_remove`), the stacks
-- (`alloc_guarded_stack`, `free_guarded_stack`) and the collection of finished threads
-- (`gc_finished_threads`).
pub mod Add
pub mod Around
pub mod Collect
pub mod Garbage
pub mod Links
pub mod Live
use user_thread_scheduler.Common.{
  ℕ, zero, suc, ◌+◌, ◌*◌, Bool, true, false, not, ◌&&◌, ltb, ◌==◌, if◌then◌else◌, update,
}
use user_thread_scheduler.Machine.{
  Ptr, null, ThreadState, finished, munmap, ok, fault, out_of_fuel, Cmd, pure, ◌>>=◌, ◌>>◌, gets,
  modify, access, load, store, with_rounds, get_state, log_call,
}

abbrev pub stack_size : ℕ
stack_size = 64 * 1024

abbrev pub guard_page_size : ℕ
guard_page_size = 4096

abbrev pub get_global_next : Ptr → Cmd Ptr
get_global_next = load (λ t. t.global_next)

abbrev pub get_global_prev : Ptr → Cmd Ptr
get_global_prev = load (λ t. t.global_prev)

abbrev pub set_global_next : Ptr → Ptr → Cmd (Unit {0})
set_global_next p q = store p (λ t. record t { global_next = update t.global_next p q })

abbrev pub set_global_prev : Ptr → Ptr → Cmd (Unit {0})
set_global_prev p q = store p (λ t. record t { global_prev = update t.global_prev p q })

abbrev pub set_global_list : Ptr → Cmd (Unit {0})
set_global_list p = modify (λ w. record w { global_thread_list = p })

unfoldable pub global_list_add : Ptr → Cmd (Unit {0})
global_list_add p = do
  set_global_prev p null
  first ← gets (λ w. w.global_thread_list)
  set_global_next p first
  if first == null then pure tt else set_global_prev first p
  set_global_list p

unfoldable pub global_list_remove : Ptr → Cmd (Unit {0})
global_list_remove p = do
  prev ← get_global_prev p
  next ← get_global_next p
  if prev == null then set_global_list next else set_global_next prev next
  next ← get_global_next p
  prev ← get_global_prev p
  if next == null then pure tt else set_global_prev next prev
  set_global_prev p null
  set_global_next p null

-- `region` is what `mmap` returns, NULL for MAP_FAILED, and `protects` tells whether `mprotect`
-- succeeds. The result is the region and its size.
unfoldable pub alloc_guarded_stack : Ptr → Bool → Cmd (Ptr × ℕ)
alloc_guarded_stack region protects =
    let alloc_size = stack_size + guard_page_size in
    if region == null
    then pure (null, 0)
    else if not protects
    then log_call (munmap region alloc_size) >> pure (null, 0)
    else pure (region, alloc_size)

abbrev pub is_mapped : Ptr → ℕ → Bool
is_mapped region alloc_size = not (region == null) && ltb 0 alloc_size

unfoldable pub free_guarded_stack : Ptr → ℕ → Cmd (Unit {0})
free_guarded_stack region alloc_size =
    if is_mapped region alloc_size then log_call (munmap region alloc_size) else pure tt

-- `free(p)`
unfoldable pub free : Ptr → Cmd (Unit {0})
free p w = if access w.live p then ok tt (record w { live = update w.live p false }) else fault

abbrev pub is_finished : ThreadState → Bool
is_finished finished = true
is_finished _ = false

unfoldable pub collect : Ptr → Cmd (Unit {0})
unfolding global_list_remove free_guarded_stack free
collect p = do
  global_list_remove p
  stack ← load (λ t. t.stack) p
  size ← load (λ t. t.stack_alloc) p
  free_guarded_stack stack size
  free p

unfoldable pub gc_loop : ℕ → Ptr → Cmd (Unit {0})
gc_loop zero cur = λ _. out_of_fuel
gc_loop (suc k) cur = if cur == null then pure tt else do
  next ← get_global_next cur
  s ← get_state cur
  me ← gets (λ w. w.current_thread)
  if is_finished s && not (cur == me) then collect cur else pure tt
  gc_loop k next

unfoldable pub gc_finished_threads : Cmd (Unit {0})
unfolding gc_loop
gc_finished_threads = do
  first ← gets (λ w. w.global_thread_list)
  with_rounds (λ k. gc_loop k first)

-- The loop that looks for a thread which is not finished.
unfoldable pub live_loop : ℕ → Ptr → Cmd Bool
live_loop zero t = λ _. out_of_fuel
live_loop (suc k) t = if t == null then pure false else do
  s ← get_state t
  next ← get_global_next t
  if is_finished s then live_loop k next else pure true

unfoldable pub has_live : Cmd Bool
unfolding live_loop
has_live = do first ← gets (λ w. w.global_thread_list); with_rounds (λ k. live_loop k first)
