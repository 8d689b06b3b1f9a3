-- ===== src/Blocking.antt =====
-- src/uthread.c: calls that put the thread to sleep (`uthread_sleep`, `uthread_read`,
-- `uthread_write`, `set_nonblocking`), and the handler of stack overflows (`sigsegv_handler`).
pub mod Overflow
use user_thread_scheduler.Common.{
  ℕ, zero, suc, ◌+◌, ◌*◌, ◌%◌, ◌^◌, Bool, not, ◌&&◌, ltb, leb, ◌==◌, if◌then◌else◌, update,
  minus_one, slt,
}
use user_thread_scheduler.GlobalList.{guard_page_size, get_global_next}
use user_thread_scheduler.Machine.{
  Ptr, null, io_blocked, trace_io_block, trace_sleep, default_overflow, epoll_ctl_add, fcntl_setfl,
  overflow_message, raise_segv, sigaction, out_of_fuel, Cmd, pure, ◌>>=◌, ◌>>◌, gets, modify, load,
  store, set_next, with_rounds, set_state, log_call,
}
use user_thread_scheduler.Signals.{
  block_signals, spinlock_acquire, acquire_sleep_list, release_sleep_list,
}
use user_thread_scheduler.Switch.{Outcome, exit, uthread_yield}
use user_thread_scheduler.Trace.{get_time_ns, trace_emit}

pub data SysResult : Type 0 where
  done : ℕ → SysResult
  would_block : SysResult

-- How the first part of `uthread_read` and `uthread_write` ends: a result, or a context switch.
pub data IoOutcome : Type 0 where
  result : ℕ → IoOutcome
  waits : Outcome → IoOutcome

unfoldable pub uthread_sleep : (ℕ → Cmd Ptr) → ℕ → Cmd Outcome
unfolding block_signals get_time_ns spinlock_acquire uthread_yield
uthread_sleep user ms = do
  block_signals
  now ← get_time_ns
  me ← gets (λ w. w.current_thread)
  store me
      λ t. record t { sleep_until_ns = update t.sleep_until_ns me ((now + ms * 1000000) % 2 ^ 64) }
  set_state me io_blocked
  tid ← load (λ t. t.thread_id) me
  trace_emit tid trace_sleep 0
  acquire_sleep_list
  h ← gets (λ w. w.sleep_list_head)
  set_next me h
  modify (λ w. record w { sleep_list_head = me })
  release_sleep_list
  uthread_yield user

-- `EPOLLET`, a bit of its own.
abbrev pub epollet : ℕ
epollet = 2 ^ 31

-- The current thread waits for `events` on `fd`.
unfoldable pub wait_for_io : (ℕ → Cmd Ptr) → ℕ → ℕ → Cmd Outcome
unfolding block_signals uthread_yield
wait_for_io user fd events = do
  block_signals
  me ← gets (λ w. w.current_thread)
  store me (λ t. record t { io_fd = update t.io_fd me fd })
  store me (λ t. record t { io_events = update t.io_events me events })
  set_state me io_blocked
  tid ← load (λ t. t.thread_id) me
  trace_emit tid trace_io_block 0
  log_call (epoll_ctl_add fd (events + epollet) me)
  uthread_yield user

abbrev pub o_nonblock : ℕ
o_nonblock = 2048

-- `flags | O_NONBLOCK`
abbrev pub with_nonblock : ℕ → ℕ
with_nonblock flags = if leb o_nonblock (flags % 4096) then flags else flags + o_nonblock

-- `flags` is what `fcntl` with F_GETFL answers, negative for a failure, and `set_result` what it
-- answers with F_SETFL.
unfoldable pub set_nonblocking : (fd flags set_result : ℕ) → Cmd ℕ
set_nonblocking fd flags set_result =
    if slt flags 0
    then pure minus_one
    else do log_call (fcntl_setfl fd (with_nonblock flags)); pure set_result

abbrev pub epollin : ℕ
epollin = 1

abbrev pub epollout : ℕ
epollout = 4

-- `first` is what the first `read` or `write` gives: a result, an error of another kind included,
-- or that it would block.
unfoldable pub attempt : (ℕ → Cmd Ptr) → ℕ → ℕ → SysResult → Cmd IoOutcome
unfolding wait_for_io
attempt user fd events (done n) = pure (result n)
attempt user fd events would_block = do o ← wait_for_io user fd events; pure (waits o)

unfoldable pub uthread_read : (ℕ → Cmd Ptr) → (fd flags set_result : ℕ) → SysResult → Cmd IoOutcome
unfolding set_nonblocking attempt
uthread_read user fd flags set_result first = do
  _ ← set_nonblocking fd flags set_result
  attempt user fd epollin first

unfoldable pub uthread_write : (ℕ → Cmd Ptr) → (fd flags set_result : ℕ) → SysResult → Cmd IoOutcome
unfolding set_nonblocking attempt
uthread_write user fd flags set_result first = do
  _ ← set_nonblocking fd flags set_result
  attempt user fd epollout first

-- Either call once its thread is resumed, up to the second `read` or `write`.
unfoldable pub io_resumed : Cmd (Unit {0})
io_resumed = do
  me ← gets (λ w. w.current_thread)
  store me (λ t. record t { io_fd = update t.io_fd me minus_one })

-- Does the address lie in the guard page of the stack?
abbrev pub in_guard : Ptr → Ptr → Bool
in_guard stack addr = not (stack == null) && (leb stack addr && ltb addr (stack + guard_page_size))

-- The first thread of the global list in whose guard page `addr` lies, NULL if there is none.
unfoldable pub guard_loop : ℕ → Ptr → Ptr → Cmd Ptr
guard_loop zero addr t = λ _. out_of_fuel
guard_loop (suc k) addr t = if t == null then pure null else do
  stack ← load (λ b. b.stack) t
  next ← get_global_next t
  if in_guard stack addr then pure t else guard_loop k addr next

-- The message and the exit with 139 at an overflow; otherwise the signal is raised again, with its
-- default action, which takes effect once the handler has returned.
unfoldable pub sigsegv_handler : Ptr → Cmd (Unit {0})
unfolding guard_loop
sigsegv_handler addr = do
  first ← gets (λ w. w.global_thread_list)
  t ← with_rounds (λ k. guard_loop k addr first)
  if t == null then log_call (sigaction default_overflow) >> log_call raise_segv else do
    tid ← load (λ b. b.thread_id) t
    guard_lo ← load (λ b. b.stack) t
    log_call (overflow_message tid addr guard_lo (guard_lo + guard_page_size))
    exit 139
