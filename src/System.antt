-- ===== src/System.antt =====
-- src/uthread.c: the well-formed states of single-core mode, over all of the lists together.
pub mod Frames
pub mod Polling
pub mod Sweep
pub mod Turns
pub mod Whole
pub mod Waiting
pub mod Idle
pub mod Parked
pub mod Asleep
pub mod Sleeping
pub mod Slept
pub mod Exit
pub mod Exited
pub mod Unwoken
pub mod Entering
pub mod Acquire
pub mod Block
pub mod Create
pub mod Registered
pub mod Reading
pub mod Last
pub mod Runs
use user_thread_scheduler.Common.{◌<◌, ◌≡◌, ◌⊎◌, true, false, List, length, has, ◌==◌, slt}
use user_thread_scheduler.GlobalList.{is_finished}
use user_thread_scheduler.GlobalList.Links.{IsGlobalList}
use user_thread_scheduler.Machine.{Ptr, null, ready, running, io_blocked, no_policy, World, access}
use user_thread_scheduler.Sleep.{IsSleeping}

-- `xs` are ready, `ss` sleep or wait in the sleep list, `gs` exist; there is no scheduler function.
-- Nothing is said of the current thread.
pub record IsResting (w : World) (xs ss gs : List Ptr) : Type 0 where
  pub lists : IsSleeping w xs ss
  pub ready_states : (a : Ptr) → has a xs ≡ true → w.tcb.state a ≡ ready
  pub sleep_states : (a : Ptr) → has a ss ≡ true → w.tcb.state a ≡ io_blocked
  pub global : IsGlobalList w gs
  pub few : length gs < w.rounds
  pub few_asleep : length ss < w.rounds
  pub free_lock : w.sleep_list_lock ≡ 0
  pub policy : w.current_scheduler ≡ no_policy
  pub single : w.mn_mode ≡ false
  pub epoll : slt w.epoll_fd 0 ≡ false

-- With `p` running.
pub record IsSystem (w : World) (p : Ptr) (xs ss gs : List Ptr) : Type 0 where
  pub current : w.current_thread ≡ p
  pub alive : access w.live p ≡ true
  pub running_state : w.tcb.state p ≡ running
  pub unready : has p xs ≡ false
  pub awake : has p ss ≡ false
  pub rest : IsResting w xs ss gs

-- With `z` taken out of the ready queue, for the switch to come.
pub record IsChosen (w : World) (z : Ptr) (zs ss gs : List Ptr) : Type 0 where
  pub alive : access w.live z ≡ true
  pub unready : has z zs ≡ false
  pub awake : has z ss ≡ false
  pub rest : IsResting w zs ss gs

-- What a report of `epoll_wait` may be: no thread, or a live thread that has not finished and is
-- not in the sleep list.
abbrev pub IsFairReport : World → List Ptr → Ptr → Type 0
IsFairReport w ss a =
    ((a == null) ≡ true)
    ⊎ ((access w.live a ≡ true) × (is_finished (w.tcb.state a) ≡ false) × (has a ss ≡ false))
