-- ===== src/System/Runs.antt =====
-- src/uthread.c: runs of the program: calls of `uthread_yield`, `uthread_sleep`, `uthread_exit` and
-- `uthread_create_with_priority` one after the other, each by the thread that runs then.
use mathlib.Core.Path.{subst}
use user_thread_scheduler.Blocking.{uthread_sleep}
use user_thread_scheduler.Common.{
  ℕ, suc, ◌+◌, ◌≤◌, ◌<◌, ◌≡◌, true, false, List, [], ◌∷◌, length, All, has, leb, ◌==◌,
  if◌then◌else◌, slt,
}
use user_thread_scheduler.Create.{Grant, uthread_create_with_priority}
use user_thread_scheduler.GlobalList.Collect.{garbage}
use user_thread_scheduler.Io.Events.{reports}
use user_thread_scheduler.Machine.{Ptr, null, World, Run, ok, Cmd}
use user_thread_scheduler.Machine.Results.{same_end}
use user_thread_scheduler.Sleep.{asleep}
use user_thread_scheduler.Start.{uthread_init}
use user_thread_scheduler.Start.Initial.{uthread_init-Started}
use user_thread_scheduler.Switch.{Outcome, uthread_yield, uthread_exit}
use user_thread_scheduler.System.{IsSystem, IsFairReport}
use user_thread_scheduler.System.Create.{uthread_create_with_priority-Entered}
use user_thread_scheduler.System.Exit.{uthread_exit-Resumed}
use user_thread_scheduler.System.Sleeping.{wake_time}
use user_thread_scheduler.System.Slept.{uthread_sleep-Slept}
use user_thread_scheduler.System.Waiting.{IsSleeper}
use user_thread_scheduler.System.Whole.{uthread_yield-YieldedTo}
use user_thread_scheduler.Trace.{time_ns}

-- What the environment gives to the calls, for the lists of the state.
pub record CanSleep (w : World) (ms limit : ℕ) (p : Ptr) (ss gs : List Ptr) : Type 0 where
  pub room : suc (length ss) < w.rounds
  pub listed : has p gs ≡ true
  pub fair : (j : ℕ) → All (IsFairReport w (p ∷ ss)) (w.os.events j)
  pub comes : (t : ℕ) → limit ≤ t → leb (wake_time w p ms) (time_ns (w.os.clock t)) ≡ true
  pub more : limit < w.os.ticks + w.rounds

pub record CanExit (w : World) (limit : ℕ) (p : Ptr) (xs ss gs : List Ptr) : Type 0 where
  pub fair : (j : ℕ) → All (IsFairReport w (p ∷ ss)) (w.os.events j)
  pub wakes : xs ≡ [] → (q : Ptr) × IsSleeper w ss gs q limit
  pub more : limit < w.os.ticks + w.rounds

pub record CanCreate (w : World) (g : Grant) (gs : List Ptr) : Type 0 where
  pub unlocked : w.global_list_lock ≡ 0
  pub room : suc (length gs) < w.rounds
  pub there : (g.block == null) ≡ false
  pub unused :
      (if has g.block (garbage w.tcb.state w.current_thread gs) then false else w.live g.block)
      ≡ false
  pub mapped : (g.region == null) ≡ false
  pub protected : g.protects ≡ true

-- One call, which ends at its return or at its context switch.
pub data Step (user : ℕ → Cmd Ptr) : World → World → Type 0 where
  yields :
      (w w' : World) (o : Outcome)
      → ((p : Ptr) (xs ss gs : List Ptr)
          → IsSystem w p xs ss gs
          → All (IsFairReport w ss) (reports w))
      → uthread_yield user w ≡ ok o w'
      → Step user w w'
  sleeps_for :
      (w w' : World) (o : Outcome) (ms limit : ℕ)
      → ((p : Ptr) (xs ss gs : List Ptr) → IsSystem w p xs ss gs → CanSleep w ms limit p ss gs)
      → uthread_sleep user ms w ≡ ok o w'
      → Step user w w'
  exits :
      (w w' : World) (o : Outcome) (limit : ℕ)
      → ((p : Ptr) (xs ss gs : List Ptr) → IsSystem w p xs ss gs → CanExit w limit p xs ss gs)
      → uthread_exit user w ≡ ok o w'
      → Step user w w'
  creates :
      (w w' : World) (id : ℕ) (g : Grant) (fn arg : Ptr) (priority : ℕ)
      → ((p : Ptr) (xs ss gs : List Ptr) → IsSystem w p xs ss gs → CanCreate w g gs)
      → uthread_create_with_priority g fn arg priority w ≡ ok id w'
      → Step user w w'

-- The states that calls reach from `w`.
pub data Follows (user : ℕ → Cmd Ptr) (w : World) : World → Type 0 where
  starts : Follows user w w
  calls_next : (u v : World) → Follows user w u → Step user u v → Follows user w v

pub record WellFormed (w : World) : Type 0 where
  pub current : Ptr
  pub ready : List Ptr
  pub sleeping : List Ptr
  pub threads : List Ptr
  pub holds : IsSystem w current ready sleeping threads

WellFormed-same :
    {A : Type 0} {run : Run A} {a b : A} {u v : World} {p : Ptr} {xs ss gs : List Ptr}
    → run ≡ ok a u
    → run ≡ ok b v
    → IsSystem u p xs ss gs
    → WellFormed v
WellFormed-same {p} {xs} {ss} {gs} e f h = record {
  current = p;
  ready = xs;
  sleeping = ss;
  threads = gs;
  holds = subst (λ w. IsSystem w p xs ss gs) (same_end e f) h;
}

Step-WellFormed :
    {user : ℕ → Cmd Ptr} {w w' : World} → Step user w w' → WellFormed w → WellFormed w'
Step-WellFormed {user} (yields w w' o env run) s =
    let r =
      uthread_yield-YieldedTo user s.holds (env s.current s.ready s.sleeping s.threads s.holds) in
    WellFormed-same r.returns run r.holds
Step-WellFormed {user} (sleeps_for w w' o ms limit env run) s =
    let c = env s.current s.ready s.sleeping s.threads s.holds in
    let r = uthread_sleep-Slept user ms s.holds c.room c.listed c.fair limit c.comes c.more in
    WellFormed-same r.resumed.returns run r.resumed.holds
Step-WellFormed {user} (exits w w' o limit env run) s =
    let c = env s.current s.ready s.sleeping s.threads s.holds in
    let r = uthread_exit-Resumed user s.holds c.fair limit c.wakes c.more in
    WellFormed-same r.returns run r.holds
Step-WellFormed (creates w w' id g fn arg priority env run) s =
    let c = env s.current s.ready s.sleeping s.threads s.holds in
    let r =
      uthread_create_with_priority-Entered g fn arg priority s.holds c.unlocked c.room c.there
        c.unused c.mapped c.protected in
    WellFormed-same r.returns run r.holds

Follows-WellFormed :
    {user : ℕ → Cmd Ptr} {w u : World} → WellFormed w → Follows user w u → WellFormed u
Follows-WellFormed s starts = s
Follows-WellFormed s (calls_next u v r c) = Step-WellFormed c (Follows-WellFormed s r)

-- Every state that calls of `uthread_yield`, `uthread_sleep`, `uthread_exit` and
-- `uthread_create_with_priority` in any order reach from the end of an `uthread_init` with no sleeper
-- before, a block, a descriptor and two rounds, where the environment gives to each call what the
-- theorem on that call asks of it, is well formed:
-- the current thread is live, runs and is in no queue; the ready queue is a list of distinct live
-- ready threads, as many as its count says; the sleep list is one of distinct live waiting threads;
-- no thread is in both; and the global list is a doubly linked list of distinct live threads.
pub uthread_init-WellFormed :
    (user : ℕ → Cmd Ptr) (w : World) (block fd : ℕ) {u v : World}
    → (block == null) ≡ false
    → w.sleep_list_head ≡ null
    → slt fd 0 ≡ false
    → 1 < w.rounds
    → uthread_init block fd w ≡ ok tt u
    → Follows user u v
    → WellFormed v
uthread_init-WellFormed user w block fd there asleep valid rounds run r =
    let s = uthread_init-Started {w = w} {block = block} {fd = fd} there asleep valid rounds in
    Follows-WellFormed (WellFormed-same s.returns run s.holds) r
