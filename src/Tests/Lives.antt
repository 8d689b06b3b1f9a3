-- ===== src/Tests/Lives.antt =====
-- The theorems on the start of the library, on creations, exits and overflows.
use user_thread_scheduler.Blocking.{
  would_block, epollin, epollout, uthread_read, uthread_write, sigsegv_handler,
}
use user_thread_scheduler.Blocking.Overflow.{
  victim_of, overflows, calling, sigsegv_handler-overflows,
}
use user_thread_scheduler.Common.{◌+◌, ◌≡◌, refl, inl, inr, true, [], ◌∷◌, arith, if◌then◌else◌}
use user_thread_scheduler.Create.{Grant, alloc_tcb}
use user_thread_scheduler.GlobalList.{guard_page_size, global_list_add}
use user_thread_scheduler.Machine.{
  null, default_overflow, overflow_message, raise_segv, sigaction, World, ok, exited, pure, access,
}
use user_thread_scheduler.Start.{start_main, preempt, uthread_init}
use user_thread_scheduler.Start.Crew.{MnReady, uthread_init_mn-MnReady}
use user_thread_scheduler.Start.Initial.{
  main_started, allocated_world, preempted, Started, uthread_init-Started,
}
use user_thread_scheduler.Switch.{switches}
use user_thread_scheduler.System.Create.{Entered, uthread_create_with_priority-Entered}
use user_thread_scheduler.System.Exited.{Exited, uthread_exit-Exited}
use user_thread_scheduler.System.Last.{Ended, uthread_exit-Ended}
use user_thread_scheduler.System.Reading.{Registers, uthread_read-write-Registers}
use user_thread_scheduler.System.Runs.{
  yields, starts, calls_next, WellFormed, uthread_init-WellFormed,
}
use user_thread_scheduler.System.Whole.{YieldedTo, uthread_yield-YieldedTo}
use user_thread_scheduler.Tests.{world}
use user_thread_scheduler.Tests.Systems.{system, system-IsSystem, alone, alone-IsSystem}

uthread_init-Started_example : Started world 7 3
uthread_init-Started_example = uthread_init-Started refl refl refl (omega arith)

-- Thread 8 is finished: its block may be given again. The new thread takes block 8.
abbrev reused : Grant
reused = record { block = 8; region = 900000; protects = true }

uthread_create_with_priority-Entered_example :
    Entered system reused 700 701 4 5 (2 ∷ 3 ∷ 4 ∷ []) (7 ∷ 6 ∷ []) (2 ∷ 8 ∷ 5 ∷ [])
uthread_create_with_priority-Entered_example =
    uthread_create_with_priority-Entered reused 700 701 4 system-IsSystem refl (omega arith) refl
      refl refl refl

-- Two threads are ready when thread 5 exits.
uthread_exit-Exited_example :
    Exited (λ _. pure null) system 5 (2 ∷ 3 ∷ 4 ∷ []) (7 ∷ 6 ∷ []) (2 ∷ 8 ∷ 5 ∷ [])
unfolding access
uthread_exit-Exited_example =
    uthread_exit-Exited (λ _. pure null) system-IsSystem
      (λ j. (inr (refl, refl, refl), (inl refl, tt))) 0 (λ e. absurd cc) (omega arith)

-- An access just above the bottom of the stack of thread 5.
sigsegv_handler-overflows_example : sigsegv_handler 500010 system ≡ (
    let t = victim_of system.tcb.stack 500010 (2 ∷ 8 ∷ 5 ∷ []) in
    if overflows system.tcb.stack 500010 (2 ∷ 8 ∷ 5 ∷ [])
    then exited 139 (
        calling system (
          overflow_message
            (system.tcb.thread_id t)
            500010
            (system.tcb.stack t)
            (system.tcb.stack t + guard_page_size)
          ∷ []))
    else ok tt (calling (calling system (sigaction default_overflow ∷ [])) (raise_segv ∷ [])))
sigsegv_handler-overflows_example =
    sigsegv_handler-overflows 500010 system-IsSystem.rest.global (omega arith)

-- The library starts and the main thread yields.
abbrev begun : World
begun = record (preempted (main_started (allocated_world world 7) 7)) { epoll_fd = 3 }

begins : uthread_init 7 3 world ≡ ok tt begun
unfolding uthread_init alloc_tcb start_main preempt global_list_add access
begins = refl

begun-WellFormed : WellFormed begun
begun-WellFormed =
    uthread_init-WellFormed (λ _. pure null) world 7 3 refl refl refl (omega arith) begins starts

first_yield :
    YieldedTo
      (λ _. pure null)
      begun
      begun-WellFormed.current
      begun-WellFormed.ready
      begun-WellFormed.sleeping
      begun-WellFormed.threads
first_yield = uthread_yield-YieldedTo (λ _. pure null) begun-WellFormed.holds tt

uthread_init-WellFormed_example : WellFormed first_yield.end
uthread_init-WellFormed_example =
    uthread_init-WellFormed (λ _. pure null) world 7 3 refl refl refl (omega arith) begins
      (calls_next begun first_yield.end starts (
        yields begun first_yield.end (switches first_yield.next) (λ p xs ss gs h. tt)
          first_yield.returns))

uthread_exit-Ended_example : Ended (λ _. pure null) alone 5 (5 ∷ [])
uthread_exit-Ended_example = uthread_exit-Ended (λ _. pure null) alone-IsSystem (λ j. tt) refl

-- The descriptor 12 has the flags O_RDWR.
uthread_read-write-Registers_example :
    Registers
      (λ _. pure null)
      (uthread_read (λ _. pure null) 12 2 0 would_block)
      12
      2
      epollin
      system
      5
      (2 ∷ 3 ∷ 4 ∷ [])
      (7 ∷ 6 ∷ [])
      (2 ∷ 8 ∷ 5 ∷ [])
    × Registers
        (λ _. pure null)
        (uthread_write (λ _. pure null) 12 2 0 would_block)
        12
        2
        epollout
        system
        5
        (2 ∷ 3 ∷ 4 ∷ [])
        (7 ∷ 6 ∷ [])
        (2 ∷ 8 ∷ 5 ∷ [])
unfolding access
uthread_read-write-Registers_example =
    uthread_read-write-Registers (λ _. pure null) 12 2 0 system-IsSystem
      (λ j. (inr (refl, refl, refl), (inl refl, tt))) 0 (λ e. absurd cc) (omega arith)

-- 100 processors are asked for.
uthread_init_mn-MnReady_example : MnReady world 100 3
uthread_init_mn-MnReady_example = uthread_init_mn-MnReady world 100 3 (omega arith)
