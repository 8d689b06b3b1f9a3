-- ===== src/Io.antt =====
-- src/uthread.c: readiness events (`check_io_events`).
pub mod Wake
pub mod Events
use user_thread_scheduler.Common.{
  ℕ, ◌+◌, Bool, true, false, List, [], ◌∷◌, take, ◌==◌, if◌then◌else◌, slt,
}
use user_thread_scheduler.Machine.{
  Ptr, null, ThreadState, ready, io_blocked, trace_io_unblock, epoll_ctl_del, Cmd, pure, ◌>>=◌,
  ◌>>◌, gets, modify, load, get_state, set_state, log_call,
}
use user_thread_scheduler.ReadyQueue.{enqueue}
use user_thread_scheduler.Trace.{trace_emit}

abbrev pub max_epoll_events : ℕ
max_epoll_events = 64

-- `epoll_wait(epoll_fd, events, MAX_EPOLL_EVENTS, 0)`: the `data.ptr` of the events that are
-- reported, at most as many as fit. A failure reports none.
unfoldable pub epoll_wait : Cmd (List Ptr)
epoll_wait = do
  ps ← gets (λ w. take max_epoll_events (w.os.events w.os.polls))
  modify (λ w. record w { os = record w.os { polls = w.os.polls + 1 } })
  pure ps

abbrev pub is_io_blocked : ThreadState → Bool
is_io_blocked io_blocked = true
is_io_blocked _ = false

-- One event, for a thread that waits.
unfoldable pub io_wake : Ptr → Cmd (Unit {0})
io_wake p = do
  fd ← load (λ t. t.io_fd) p
  log_call (epoll_ctl_del fd)
  set_state p ready
  tid ← load (λ t. t.thread_id) p
  trace_emit tid trace_io_unblock 0
  enqueue p

unfoldable pub io_event : Ptr → Cmd (Unit {0})
io_event p =
    if p == null
    then pure tt
    else do s ← get_state p; if is_io_blocked s then io_wake p else pure tt

unfoldable pub io_loop : List Ptr → Cmd (Unit {0})
io_loop [] = pure tt
io_loop (p ∷ ps) = io_event p >> io_loop ps

unfoldable pub check_io_events : Cmd (Unit {0})
unfolding epoll_wait io_loop io_event
check_io_events = do
  fd ← gets (λ w. w.epoll_fd)
  if slt fd 0 then pure tt else do ps ← epoll_wait; io_loop ps
