-- ===== src/Trace.antt =====
-- src/uthread.c: the event recorder (`get_time_ns`, `trace_emit`, the names and phases of events,
-- `uthread_trace_enable`, `uthread_trace_disable`, `uthread_dump_trace`).
pub mod Bounds
pub mod Dump
pub mod Written
use Prim.Native.String.{String}
use user_thread_scheduler.Common.{
  ℕ, zero, suc, ◌+◌, ◌*◌, ◌%◌, ◌^◌, ◌≡◌, inl, inr, Bool, true, false, not, ◌||◌, List, [], ◌∷◌, ltb,
  if◌then◌else◌, Bool-cases, update, inc32, dec32, slt, sle,
}
use user_thread_scheduler.Machine.{
  TraceEventType, trace_create, trace_ready, trace_run, trace_yield, trace_preempt, trace_block,
  trace_unblock, trace_io_block, trace_io_unblock, trace_sleep, trace_wakeup, trace_exit,
  trace_steal, TraceEvent, Trace, Timespec, fopen_trace, fclose_trace, fprintf_text, fprintf_event,
  Os, World, ok, Cmd, pure, ◌>>=◌, ◌>>◌, gets, modify, log_call,
}

abbrev pub trace_buffer_size : ℕ
trace_buffer_size = 2 ^ 20

abbrev pub time_ns : Timespec → ℕ
time_ns ts = (ts.tv_sec * 1000000000 + ts.tv_nsec) % 2 ^ 64

unfoldable pub get_time_ns : Cmd ℕ
get_time_ns = do
  now ← gets (λ w. time_ns (w.os.clock w.os.ticks))
  modify (λ w. record w { os = record w.os { ticks = w.os.ticks + 1 } })
  pure now

-- `atomic_fetch_add(&trace_count, 1)` and `atomic_fetch_sub(&trace_count, 1)`
abbrev pub fetch_add_trace_count : Cmd ℕ
fetch_add_trace_count = do
  idx ← gets (λ w. w.trace.count)
  modify (λ w. record w { trace = record w.trace { count = inc32 w.trace.count } })
  pure idx

abbrev pub fetch_sub_trace_count : Cmd (Unit {0})
fetch_sub_trace_count =
    modify (λ w. record w { trace = record w.trace { count = dec32 w.trace.count } })

abbrev pub event : ℕ → TraceEventType → ℕ → ℕ → TraceEvent
event t y at c = record { tid = t; type = y; timestamp_ns = at; core_id = c }

unfoldable pub trace_emit : ℕ → TraceEventType → ℕ → Cmd (Unit {0})
unfolding get_time_ns
trace_emit t y c = do
  on ← gets (λ w. w.trace.enabled)
  buf ← gets (λ w. w.trace.allocated)
  if not on || not buf then pure tt else do
    idx ← fetch_add_trace_count
    if sle trace_buffer_size idx then fetch_sub_trace_count else do
      now ← get_time_ns
      modify λ w. record w {
        trace = record w.trace { buffer = update w.trace.buffer idx (event t y now c) };
      }

-- The instant, the begin and the end of a duration, as the trace viewer spells them.
unfoldable pub trace_event_phase : TraceEventType → String
trace_event_phase trace_run = "B"
trace_event_phase trace_yield = "E"
trace_event_phase trace_preempt = "E"
trace_event_phase trace_block = "E"
trace_event_phase trace_io_block = "E"
trace_event_phase trace_sleep = "E"
trace_event_phase trace_exit = "E"
trace_event_phase _ = "i"

unfoldable pub trace_event_name : TraceEventType → String
trace_event_name trace_create = "CREATE"
trace_event_name trace_ready = "READY"
trace_event_name trace_run = "RUN"
trace_event_name trace_yield = "YIELD"
trace_event_name trace_preempt = "PREEMPT"
trace_event_name trace_block = "BLOCK"
trace_event_name trace_unblock = "UNBLOCK"
trace_event_name trace_io_block = "IO_BLOCK"
trace_event_name trace_io_unblock = "IO_UNBLOCK"
trace_event_name trace_sleep = "SLEEP"
trace_event_name trace_wakeup = "WAKEUP"
trace_event_name trace_exit = "EXIT"
trace_event_name trace_steal = "STEAL"

abbrev pub no_event : TraceEvent
no_event = event 0 trace_create 0 0

-- `got` tells whether `calloc` returns a buffer; `calloc` is called only where there is none.
unfoldable pub uthread_trace_enable : Bool → Cmd (Unit {0})
uthread_trace_enable got = do
  modify λ w. if w.trace.allocated then w else record w {
    trace = record w.trace {
      allocated = got;
      buffer = if got then (λ _. no_event) else w.trace.buffer;
    };
  }
  modify (λ w. record w { trace = record w.trace { count = 0 } })
  modify (λ w. record w { trace = record w.trace { enabled = true } })

unfoldable pub uthread_trace_disable : Cmd (Unit {0})
uthread_trace_disable = modify (λ w. record w { trace = record w.trace { enabled = false } })

-- The first `n` events of the buffer, oldest first.
abbrev pub events_from : (ℕ → TraceEvent) → ℕ → ℕ → List TraceEvent
events_from buffer i zero = []
events_from buffer i (suc n) = buffer i ∷ events_from buffer (i + 1) n

-- The rounds of the loop of `uthread_dump_trace` from the event `i` on: `n` events are left.
unfoldable pub dump_loop : (n i : ℕ) → Cmd (Unit {0})
dump_loop zero i = pure tt
dump_loop (suc n) i = do
  ev ← gets (λ w. w.trace.buffer i)
  let separator = if ltb 0 i then ",\n" else "" in
      log_call (
        fprintf_event separator (trace_event_name ev.type) (trace_event_phase ev.type)
          ev.timestamp_ns ev.tid ev.core_id)
  dump_loop n (i + 1)

-- `count`, capped at the size of the buffer
abbrev pub capped : ℕ → ℕ
capped count = if slt trace_buffer_size count then trace_buffer_size else count

unfoldable pub uthread_dump_trace : Cmd (Unit {0})
unfolding dump_loop
uthread_dump_trace = do
  tr ← gets (λ w. w.trace)
  if not tr.allocated then pure tt else if sle tr.count 0 then pure tt else do
    opened ← gets (λ w. w.os.file_opens)
    if not opened then pure tt else do
      log_call fopen_trace
      log_call (fprintf_text "{\"traceEvents\":[\n")
      dump_loop (capped tr.count) 0
      log_call (fprintf_text "\n]}\n")
      log_call fclose_trace

-- What `trace_emit` leaves of the trace and of the clock.
pub recorded : ℕ → TraceEventType → ℕ → Trace → Os → Trace
recorded t y c tr os =
    if not tr.enabled || not tr.allocated
    then tr
    else if sle trace_buffer_size tr.count
    then record tr { count = dec32 (inc32 tr.count) }
    else record tr {
      count = inc32 tr.count;
      buffer = update tr.buffer tr.count (event t y (time_ns (os.clock os.ticks)) c);
    }

pub clocked : Trace → Os → Os
clocked tr os =
    if not tr.enabled || not tr.allocated
    then os
    else if sle trace_buffer_size tr.count
    then os
    else record os { ticks = os.ticks + 1 }

abbrev pub traced : ℕ → TraceEventType → ℕ → World → World
traced t y c w = record w { trace = recorded t y c w.trace w.os; os = clocked w.trace w.os }

-- `trace_emit` returns, and writes nothing but the trace and the clock.
pub trace_emit-ok :
    (t : ℕ) (y : TraceEventType) (c : ℕ) (w : World) → trace_emit t y c w ≡ ok tt (traced t y c w)
unfolding trace_emit recorded clocked
trace_emit-ok t y c w = elim (Bool-cases (not w.trace.enabled || not w.trace.allocated)) [
  | inl off ↦ rw off
  | inr on ↦ elim (Bool-cases (sle trace_buffer_size w.trace.count)) [
    | inl full ↦ rw (on, full)
    | inr room ↦ rw (on, room)
  ]
]
