-- ===== src/Start/Initial.antt =====
-- src/uthread.c: `uthread_init` makes a well-formed state in which the main thread runs.
use user_thread_scheduler.Common.{
  ℕ, ◌*◌, ◌<◌, ◌≡◌, refl, ◌∙◌, Bool, true, false, List, [], ◌∷◌, ◌++◌, append_assoc, arith, ◌==◌,
  update, eq_self, inc32, slt,
}
use user_thread_scheduler.Create.{cleared, alloc_tcb}
use user_thread_scheduler.GlobalList.{global_list_add}
use user_thread_scheduler.GlobalList.Add.{global_added, global_list_add-ok, added-IsGlobalList}
use user_thread_scheduler.GlobalList.Links.{IsGlobalList}
use user_thread_scheduler.Machine.{
  Ptr, null, running, on_alarm, on_overflow, SysCall, sigaction, setitimer, World, ok, access,
}
use user_thread_scheduler.Sleep.{asleep}
use user_thread_scheduler.Start.{reset, start_main, time_quantum_ms, preempt, uthread_init}
use user_thread_scheduler.System.{IsSystem}

abbrev pub main_fields : World → Ptr → World
main_fields w p = record w {
  tcb = record w.tcb {
    thread_id = update w.tcb.thread_id p 0;
    state = update w.tcb.state p running;
    creation_order = update w.tcb.creation_order p w.creation_counter;
    stack = update w.tcb.stack p null;
    stack_alloc = update w.tcb.stack_alloc p 0;
  };
  creation_counter = inc32 w.creation_counter;
}

abbrev pub main_started : World → Ptr → World
main_started w p = record (global_added (main_fields w p) p) { current_thread = p }

start_main-ok :
    (w : World) (p : Ptr)
    → access w.live p ≡ true
    → IsGlobalList w []
    → start_main p w ≡ ok tt (main_started w p)
unfolding start_main
start_main-ok w p l g =
    let added : global_list_add p (main_fields w p) ≡ ok tt (global_added (main_fields w p) p) =
      global_list_add-ok {gs = []} p (record { links = g.links; distinct = g.distinct }) l refl in
    rw (l, l, l, l, l, added)

-- The globals and the block before the main thread is entered.
abbrev pub allocated_world : World → Ptr → World
allocated_world w p =
    let r = reset 1 false w in record r { live = update r.live p true; tcb = cleared p r.tcb }

-- The calls that install the timer and the handlers.
abbrev pub preemption : List SysCall
preemption = sigaction on_alarm ∷ setitimer (time_quantum_ms * 1000) ∷ sigaction on_overflow ∷ []

abbrev pub preempted : World → World
preempted w = record w {
  os = record w.os {
    calls =
        w.os.calls
        ++ sigaction on_alarm ∷ []
        ++ setitimer (time_quantum_ms * 1000) ∷ []
        ++ sigaction on_overflow ∷ [];
  };
}

-- What `uthread_init` comes to.
pub record Started (w : World) (block fd : ℕ) : Type 0 where
  pub end : World
  pub returns : uthread_init block fd w ≡ ok tt end
  pub holds : IsSystem end block [] [] (block ∷ [])
  pub id : end.tcb.thread_id block ≡ 0
  pub next_id : end.next_thread_id ≡ 1
  pub installs : end.os.calls ≡ w.os.calls ++ preemption
  pub stackless : (end.tcb.stack block ≡ null) × (end.tcb.stack_alloc block ≡ 0)

block-access :
    (live : Ptr → Bool) (p : Ptr) → (p == null) ≡ false → access (update live p true) p ≡ true
unfolding access
block-access live p h = rw (h, eq_self p) refl

-- Where no thread sleeps, `calloc` gives a block and `epoll_create1` a descriptor, and two rounds are
-- given, `uthread_init` returns in a well-formed state of single-core mode: the main thread, of
-- thread id 0 and without a stack of the library, runs and is the only thread, both queues are
-- empty, the next thread id is 1, and the handlers of SIGALRM and SIGSEGV and a timer of 10 ms are
-- installed.
pub uthread_init-Started :
    {w : World} {block fd : ℕ}
    → (block == null) ≡ false
    → w.sleep_list_head ≡ null
    → slt fd 0 ≡ false
    → 1 < w.rounds
    → Started w block fd
unfolding uthread_init alloc_tcb preempt
uthread_init-Started {w} {block} {fd} there asleep valid rounds =
    let u = allocated_world w block in
    let l = block-access w.live block there in
    let g : IsGlobalList u [] = record { links = refl; distinct = tt } in
    let added : IsGlobalList (global_added (main_fields u block) block) (block ∷ []) =
      added-IsGlobalList {gs = []} block (record { links = refl; distinct = tt }) l refl in
    record {
      end = record (preempted (main_started u block)) { epoll_fd = fd };
      returns = rw (there, there, start_main-ok u block l g);
      holds = record {
        current = refl;
        alive = l;
        running_state = rw (eq_self block);
        unready = refl;
        awake = refl;
        rest = record {
          lists = record {
            ready = record {
              queue = record { chain = refl; tail = refl; distinct = tt };
              count = refl;
            };
            chain = asleep;
            distinct = tt;
            apart = λ a h. refl;
          };
          ready_states = λ a h. absurd cc;
          sleep_states = λ a h. absurd cc;
          global = record { links = added.links; distinct = added.distinct };
          few = rounds;
          few_asleep = omega arith;
          free_lock = refl;
          policy = refl;
          single = refl;
          epoll = valid;
        };
      };
      id = rw (eq_self block) refl;
      next_id = refl;
      installs =
          append_assoc (w.os.calls ++ sigaction on_alarm ∷ [])
            (setitimer (time_quantum_ms * 1000) ∷ []) (sigaction on_overflow ∷ [])
          ∙ append_assoc w.os.calls (sigaction on_alarm ∷ [])
              (setitimer (time_quantum_ms * 1000) ∷ sigaction on_overflow ∷ []);
      stackless = rw (eq_self block) (refl, refl);
    }
