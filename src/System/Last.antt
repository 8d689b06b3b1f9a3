-- ===== src/System/Last.antt =====
-- src/uthread.c: the process ends when its last thread exits.
use mathlib.Core.Path.{subst, fun_ext}
use user_thread_scheduler.Common.{
  ℕ, ◌≡◌, refl, sym, ◌∙◌, inl, true, false, List, [], ◌∷◌, ◌++◌, arith, All, All-map, has, ◌==◌,
  if◌then◌else◌, update,
}
use user_thread_scheduler.GlobalList.{gc_finished_threads}
use user_thread_scheduler.GlobalList.Collect.{collected, garbage}
use user_thread_scheduler.GlobalList.Garbage.{Swept, gc_finished_threads-Swept}
use user_thread_scheduler.GlobalList.Live.{some_live, has_live-some}
use user_thread_scheduler.Io.{max_epoll_events}
use user_thread_scheduler.Io.Events.{is_woken, reported, reports}
use user_thread_scheduler.Machine.{Ptr, null, ThreadState, finished, World, exited, Cmd, ◌>>◌}
use user_thread_scheduler.ReadyQueue.{dequeue-nil}
use user_thread_scheduler.Switch.{poll, can_wait, wait_or_exit, leave, uthread_exit}
use user_thread_scheduler.Switch.Turn.{schedule_next-default}
use user_thread_scheduler.System.{IsResting, IsSystem, IsFairReport}
use user_thread_scheduler.System.Exit.{ended_thread, uthread_exit-ok, ended-IsParked, ended-Later}
use user_thread_scheduler.System.Parked.{IsParked}
use user_thread_scheduler.System.Polling.{
  by_report, after_poll, poll-ok, poll_states, polled-IsResting,
}
use user_thread_scheduler.System.Waiting.{All-take}
use user_thread_scheduler.Trace.{uthread_dump_trace}
use user_thread_scheduler.Trace.Written.{Dumped, uthread_dump_trace-Dumped}

-- No report carries a thread.
abbrev pub NoThread : Ptr → Type 0
NoThread a = (a == null) ≡ true

reported-none :
    (state : Ptr → ThreadState) (ps : List Ptr) → All NoThread ps → reported state ps ≡ []
reported-none state [] l = refl
reported-none state (a ∷ ps) l =
    let asleep : is_woken state a ≡ false = ground (arith, l.0) in
    rw asleep (reported-none state ps l.1)

module _ (user : ℕ → Cmd Ptr) {w : World} {p : Ptr} {gs : List Ptr} (v : IsParked w p [] [] gs)
    (quiet : (j : ℕ) → All NoThread (w.os.events j))
    (over_all : some_live w.tcb.state gs ≡ false) where
  none_reported : All NoThread (reports w)
  none_reported = All-take NoThread max_epoll_events (w.os.events w.os.polls) (quiet w.os.polls)

  fair_none : All (IsFairReport w []) (reports w)
  fair_none = All-map NoThread (IsFairReport w []) (λ a h. inl h) (reports w) none_reported

  abbrev at_rest : World
  at_rest = after_poll v.rest fair_none

  nobody_reported : by_report v.rest fair_none ≡ []
  nobody_reported = reported-none w.tcb.state (reports w) none_reported

  rest_state : at_rest.tcb.state ≡ w.tcb.state
  rest_state = fun_ext (λ b. poll_states v.rest fair_none b ∙ rw nobody_reported refl)

  rest-IsResting : IsResting at_rest [] [] gs
  rest-IsResting =
      subst (λ l. IsResting at_rest (l ++ []) [] gs) nobody_reported
        (polled-IsResting v.rest fair_none)

  gone : Swept at_rest gs
  gone = gc_finished_threads-Swept rest-IsResting.global rest-IsResting.few

  dumped : Dumped (collected at_rest gone.changes)
  dumped = uthread_dump_trace-Dumped (collected at_rest gone.changes)

  abbrev last_world : World
  last_world = record (collected at_rest gone.changes) {
    os = record (collected at_rest gone.changes).os {
      calls = (collected at_rest gone.changes).os.calls ++ dumped.calls;
    };
  }

  words_ok :
      wait_or_exit user (gc_finished_threads >> uthread_dump_trace) at_rest ≡ exited 0 last_world
  unfolding wait_or_exit can_wait
  words_ok =
      let dead : some_live at_rest.tcb.state gs ≡ false = rw rest_state over_all in
      rw
        (has_live-some rest-IsResting.global rest-IsResting.few, dead, gone.returns, dumped.returns)

  poll-leave-exits : (poll >> leave user p) w ≡ exited 0 last_world
  unfolding leave
  poll-leave-exits = rw (
    poll-ok v.rest fair_none,
    schedule_next-default user at_rest v.rest.policy,
    dequeue-nil rest-IsResting.lists.ready,
    words_ok,
  )

  last_live :
      (a : Ptr)
      → last_world.live a
        ≡ (if has a (garbage w.tcb.state w.current_thread gs) then false else w.live a)
  last_live a = gone.alive a ∙ rw rest_state refl

-- The process ends with status 0 and frees the threads that have finished.
pub record Ended (user : ℕ → Cmd Ptr) (w : World) (p : Ptr) (gs : List Ptr) : Type 0 where
  pub end : World
  pub exits : uthread_exit user w ≡ exited 0 end
  pub freed :
      (a : Ptr)
      → end.live a ≡ (
          if has a (garbage (update w.tcb.state p finished) w.current_thread gs)
          then false
          else w.live a)

-- In a well-formed state of single-core mode with no thread ready or asleep, where every other
-- listed thread has finished and no report of `epoll_wait` carries a thread, `uthread_exit` ends
-- the process with status 0, after the finished threads have been freed, but for the caller.
pub uthread_exit-Ended :
    (user : ℕ → Cmd Ptr) {w : World} {p : Ptr} {gs : List Ptr}
    → IsSystem w p [] [] gs
    → ((j : ℕ) → All NoThread (w.os.events j))
    → some_live (update w.tcb.state p finished) gs ≡ false
    → Ended user w p gs
uthread_exit-Ended user {w} {p} {gs} v quiet over_all =
    let u = ended-IsParked user v in
    let still : (j : ℕ) → All NoThread ((ended_thread w p).os.events j) =
      λ j. subst (λ e. All NoThread (e j)) (sym (ended-Later user v).events) (quiet j) in
    record {
      end = last_world user u still over_all;
      exits = uthread_exit-ok user v ∙ poll-leave-exits user u still over_all;
      freed = last_live user u still over_all;
    }
