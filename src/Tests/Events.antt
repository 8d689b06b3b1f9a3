-- ===== src/Tests/Events.antt =====
-- The theorems on the recorder and on readiness events.
use user_thread_scheduler.Common.{
  ◌+◌, ◌≡◌, refl, inl, inr, true, false, List, [], ◌∷◌, arith, ◌==◌, if◌then◌else◌, Bool-cases,
}
use user_thread_scheduler.Io.Events.{Answered, check_io_events-Answered}
use user_thread_scheduler.Io.Wake.{IsPolling}
use user_thread_scheduler.Machine.{
  ready, blocked, io_blocked, trace_create, trace_run, World, access,
}
use user_thread_scheduler.Tests.{world, three_ready, three_ready-IsReadyQueue}
use user_thread_scheduler.Trace.Dump.{Emission, IsTrace, Traced, emit_all-Traced}
use user_thread_scheduler.Trace.Written.{Written, uthread_dump_trace-Written}

abbrev tracing : World
tracing = record world { trace = record world.trace { allocated = true; enabled = true } }

tracing-IsTrace : IsTrace tracing.trace []
tracing-IsTrace = record {
  enabled = refl;
  allocated = refl;
  count = refl;
  bounded = omega arith;
  events = refl;
}

abbrev two_emissions : List Emission
two_emissions =
    record { tid = 1; type = trace_create; core_id = 0 }
    ∷ record { tid = 1; type = trace_run; core_id = 0 }
    ∷ []

emit_all-Traced_example : Traced tracing two_emissions []
emit_all-Traced_example = emit_all-Traced tracing two_emissions [] tracing-IsTrace

-- Thread 6 is reported twice and thread 7 is not waiting.
abbrev one_reported : World
one_reported = record three_ready {
  tcb = record three_ready.tcb {
    state = λ p. if p == 6 then io_blocked else if p == 7 then blocked else ready;
    io_fd = λ p. p + 10;
  };
  os = record world.os { events = λ k. 6 ∷ 0 ∷ 7 ∷ 6 ∷ [] };
}

one_reported-IsPolling : IsPolling one_reported (2 ∷ 3 ∷ 4 ∷ [])
unfolding access
one_reported-IsPolling = record {
  ready = record { queue = three_ready-IsReadyQueue.queue; count = three_ready-IsReadyQueue.count };
  none_waits = λ a h.
      let other : (a == 6) ≡ false = ground arith in
      elim (Bool-cases (a == 7)) [
        | inl seven ↦ rw (other, seven) refl
        | inr not_seven ↦ rw (other, not_seven) refl
      ];
}

check_io_events-Answered_example : Answered one_reported (2 ∷ 3 ∷ 4 ∷ [])
unfolding access
check_io_events-Answered_example =
    check_io_events-Answered one_reported (2 ∷ 3 ∷ 4 ∷ []) one_reported-IsPolling refl
      (inr refl, (inl refl, (inr refl, (inr refl, tt))))

-- The recorder has no buffer yet.
uthread_dump_trace-Written_example : Written world true two_emissions
uthread_dump_trace-Written_example = uthread_dump_trace-Written world true two_emissions refl
