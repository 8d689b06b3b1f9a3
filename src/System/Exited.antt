-- ===== src/System/Exited.antt =====
-- src/uthread.c: the thread that `uthread_exit` leaves is finished.
use user_thread_scheduler.Common.{ℕ, ◌+◌, ◌<◌, ◌≡◌, refl, ◌∙◌, false, List, [], ◌∷◌, All, eq_self}
use user_thread_scheduler.Io.{is_io_blocked}
use user_thread_scheduler.Machine.{Ptr, finished, in_exit, World, Cmd}
use user_thread_scheduler.Switch.{uthread_exit}
use user_thread_scheduler.System.{IsSystem, IsFairReport}
use user_thread_scheduler.System.Exit.{ended_view, uthread_exit-Resumed}
use user_thread_scheduler.System.Parked.{Resumed}
use user_thread_scheduler.System.Unwoken.{Resumed-unwoken}
use user_thread_scheduler.System.Waiting.{IsSleeper}

pub record Exited (user : ℕ → Cmd Ptr) (w : World) (p : Ptr) (xs ss gs : List Ptr) : Type 0 where
  pub resumed : Resumed (uthread_exit user w) p in_exit (ended_view w p) w.os xs ss gs
  pub marked : resumed.end.tcb.state p ≡ finished

-- In a well-formed state of single-core mode, where every report of `epoll_wait` is for no thread or
-- for a live one other than the caller that has not finished and does not sleep, and where, if no
-- thread is ready, a listed thread sleeps whose wake-up time the clock shows from some reading on,
-- with fuel for the readings up to it, `uthread_exit` marks the caller finished and ends at its
-- context switch: the thread resumed is the first of the ready ones, the reported ones and the
-- sleepers whose time has come at one poll, the others wait in this order, and the state is well
-- formed with every thread, the finished one too, still listed. The caller is still marked finished
-- then, and so is every other thread in the state it was in, but for the one that runs and those
-- that the poll made ready.
pub uthread_exit-Exited :
    (user : ℕ → Cmd Ptr) {w : World} {p : Ptr} {xs ss gs : List Ptr}
    → IsSystem w p xs ss gs
    → ((j : ℕ) → All (IsFairReport w (p ∷ ss)) (w.os.events j))
    → (limit : ℕ) → (xs ≡ [] → (q : Ptr) × IsSleeper w ss gs q limit)
    → limit < w.os.ticks + w.rounds
    → Exited user w p xs ss gs
uthread_exit-Exited user {w} {p} {xs} {ss} v fair limit wakes more =
    let r = uthread_exit-Resumed user v fair limit wakes more in
    let no_io : is_io_blocked ((ended_view w p).state p) ≡ false = rw (eq_self p) refl in
    let out = Resumed-unwoken (ended_view w p) p xs ss v.unready v.awake no_io r in
    record { resumed = r; marked = out.1 ∙ rw (eq_self p) refl }
