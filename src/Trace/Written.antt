-- ===== src/Trace/Written.antt =====
-- src/uthread.c: the file that `uthread_dump_trace` writes has the events that were recorded.
use Prim.Native.String.{String}
use mathlib.Core.Path.{subst}
use user_thread_scheduler.Common.{
  ℕ, zero, suc, ◌+◌, ◌^◌, ◌<◌, ◌≡◌, refl, sym, ap, ◌∙◌, inl, inr, Bool, true, false, not, ◌||◌,
  List, [], ◌∷◌, ◌++◌, append-nil, append_assoc, arith, length, ltb, if◌then◌else◌, Bool-cases, sle,
}
use user_thread_scheduler.Machine.{
  TraceEvent, Trace, SysCall, fopen_trace, fclose_trace, fprintf_text, fprintf_event, World, ok,
  Cmd, pure, ◌>>◌, log_call,
}
use user_thread_scheduler.Trace.{
  trace_buffer_size, trace_event_phase, trace_event_name, no_event, uthread_trace_enable,
  events_from, dump_loop, capped, uthread_dump_trace,
}
use user_thread_scheduler.Trace.Dump.{Emission, emit_all, kept, IsTrace, emit_all-Traced}

-- The `fprintf` of each event, the first one behind `separator`.
abbrev pub entries : String → List TraceEvent → List SysCall
entries separator [] = []
entries separator (e ∷ es) =
    fprintf_event separator (trace_event_name e.type) (trace_event_phase e.type) e.timestamp_ns
      e.tid e.core_id
    ∷ entries ",\n" es

-- The calls that write a file of the events.
abbrev pub page_of : List TraceEvent → List SysCall
page_of es =
    fopen_trace
    ∷ fprintf_text "{\"traceEvents\":[\n"
    ∷ (entries "" es ++ (fprintf_text "\n]}\n" ∷ fclose_trace ∷ []))

-- There are none for no event, or where the file does not open.
abbrev pub file_of : Bool → List TraceEvent → List SysCall
file_of opens [] = []
file_of opens (e ∷ es) = if opens then page_of (e ∷ es) else []

abbrev pub wrote : World → List SysCall → World
wrote w cs = record w { os = record w.os { calls = w.os.calls ++ cs } }

wrote_twice : (w : World) (bs cs : List SysCall) → wrote (wrote w bs) cs ≡ wrote w (bs ++ cs)
wrote_twice w bs cs = λ i. record w { os = record w.os { calls = append_assoc w.os.calls bs cs i } }

wrote_none : (w : World) → w ≡ wrote w []
wrote_none w = λ i. record w { os = record w.os { calls = sym (append-nil w.os.calls) i } }

abbrev separator_at : ℕ → String
separator_at i = if ltb 0 i then ",\n" else ""

dump_loop-entries :
    (w : World) (n i : ℕ)
    → dump_loop n i w ≡ ok tt (wrote w (entries (separator_at i) (events_from w.trace.buffer i n)))
unfolding dump_loop
dump_loop-entries w zero i = ap (ok tt) (wrote_none w)
dump_loop-entries w (suc n) i =
    let e = w.trace.buffer i in
    let line =
      fprintf_event (separator_at i) (trace_event_name e.type) (trace_event_phase e.type)
        e.timestamp_ns e.tid e.core_id in
    let further : ltb 0 (i + 1) ≡ true = ground arith in
    dump_loop-entries (wrote w (line ∷ [])) n (i + 1)
    ∙ ap (ok tt) (
        wrote_twice w (line ∷ [])
          (entries (separator_at (i + 1)) (events_from w.trace.buffer (i + 1) n))
        ∙ rw further refl)

-- The file of `n` events.
abbrev writes : ℕ → Cmd (Unit {0})
writes n = do
  log_call fopen_trace
  log_call (fprintf_text "{\"traceEvents\":[\n")
  dump_loop n 0
  log_call (fprintf_text "\n]}\n")
  log_call fclose_trace

writes-page :
    (w : World) (n : ℕ) → writes n w ≡ ok tt (wrote w (page_of (events_from w.trace.buffer 0 n)))
writes-page w n =
    let a = fopen_trace ∷ [] in
    let b = fprintf_text "{\"traceEvents\":[\n" ∷ [] in
    let ls = entries "" (events_from w.trace.buffer 0 n) in
    let c = fprintf_text "\n]}\n" ∷ [] in
    let d = fclose_trace ∷ [] in
    let u = wrote (wrote w a) b in
    rw (dump_loop-entries u n 0) (
      ap (ok tt) (
        wrote_twice (wrote u ls) c d
        ∙ (wrote_twice u ls (c ++ d)
            ∙ (wrote_twice (wrote w a) b (ls ++ (c ++ d))
                ∙ wrote_twice w a (b ++ (ls ++ (c ++ d)))))))

abbrev to_file : Bool → ℕ → Cmd (Unit {0})
to_file opens n = if not opens then pure tt else writes n

abbrev guarded : (there empty : Bool) → ℕ → Cmd (Unit {0})
guarded there empty n =
    if not there then pure tt else if empty then pure tt else λ u. to_file u.os.file_opens n u

dump-guarded :
    (w : World) {there empty : Bool}
    → w.trace.allocated ≡ there
    → sle w.trace.count 0 ≡ empty
    → uthread_dump_trace w ≡ guarded there empty (capped w.trace.count) w
unfolding uthread_dump_trace
dump-guarded w e f = λ i. guarded (e i) (f i) (capped w.trace.count) w

dump-to_file :
    (w : World) {opens : Bool}
    → w.trace.allocated ≡ true
    → sle w.trace.count 0 ≡ false
    → w.os.file_opens ≡ opens
    → uthread_dump_trace w ≡ to_file opens (capped w.trace.count) w
dump-to_file w e f g = dump-guarded w e f ∙ ap (λ b. to_file b (capped w.trace.count) w) g

-- A dump writes to no memory.
pub record Dumped (w : World) : Type 0 where
  pub calls : List SysCall
  pub returns : uthread_dump_trace w ≡ ok tt (wrote w calls)

pub uthread_dump_trace-Dumped : (w : World) → Dumped w
uthread_dump_trace-Dumped w = elim (Bool-cases w.trace.allocated) [
  | inr missing ↦ record {
    calls = [];
    returns = dump-guarded w missing refl ∙ ap (ok tt) (wrote_none w);
  }
  | inl there ↦ elim (Bool-cases (sle w.trace.count 0)) [
    | inl empty ↦ record {
      calls = [];
      returns = dump-guarded w there empty ∙ ap (ok tt) (wrote_none w);
    }
    | inr some_event ↦ elim (Bool-cases w.os.file_opens) [
      | inr shut ↦ record {
        calls = [];
        returns = dump-to_file w there some_event shut ∙ ap (ok tt) (wrote_none w);
      }
      | inl opened ↦ record {
        calls = page_of (events_from w.trace.buffer 0 (capped w.trace.count));
        returns = dump-to_file w there some_event opened ∙ writes-page w (capped w.trace.count);
      }
    ]
  ]
]

-- The dump of a buffer that holds `e` and `es`, whatever count stands above its size.
dump-held :
    (w : World) (e : TraceEvent) (es : List TraceEvent)
    → w.trace.allocated ≡ true
    → sle w.trace.count 0 ≡ false
    → capped w.trace.count ≡ length (e ∷ es)
    → events_from w.trace.buffer 0 (length (e ∷ es)) ≡ e ∷ es
    → uthread_dump_trace w ≡ ok tt (wrote w (file_of w.os.file_opens (e ∷ es)))
dump-held w e es there some_event fits events =
    let held : events_from w.trace.buffer 0 (capped w.trace.count) ≡ e ∷ es =
      ap (events_from w.trace.buffer 0) fits ∙ events in
    elim (Bool-cases w.os.file_opens) [
      | inr shut ↦
          dump-to_file w there some_event shut
          ∙ (ap (ok tt) (wrote_none w) ∙ ap (λ b. ok tt (wrote w (file_of b (e ∷ es)))) (sym shut))
      | inl opened ↦
          dump-to_file w there some_event opened
          ∙ (writes-page w (capped w.trace.count)
              ∙ (ap (λ l. ok tt (wrote w (page_of l))) held
                  ∙ ap (λ b. ok tt (wrote w (file_of b (e ∷ es)))) (sym opened)))
    ]

dump-file :
    (w : World) (es : List TraceEvent)
    → IsTrace w.trace es
    → uthread_dump_trace w ≡ ok tt (wrote w (file_of w.os.file_opens es))
dump-file w [] v =
    let empty : sle w.trace.count 0 ≡ true = ground (arith, v.count) in
    dump-guarded w v.allocated empty ∙ ap (ok tt) (wrote_none w)
dump-file w (e ∷ es) v =
    dump-held w e es v.allocated (ground (arith, v.count, v.bounded))
      (ground (arith, v.count, v.bounded)) v.events

-- `k` processors have added one to the count of events and have not taken it back yet.
abbrev pub claimed : ℕ → World → World
claimed k w = record w { trace = record w.trace { count = w.trace.count + k } }

dump-full :
    (w : World) (es : List TraceEvent) (k : ℕ)
    → IsTrace w.trace es
    → length es ≡ trace_buffer_size
    → trace_buffer_size + k < 2 ^ 31
    → uthread_dump_trace (claimed k w) ≡ ok tt (wrote (claimed k w) (file_of w.os.file_opens es))
dump-full w [] k v full room = absurd (omega (arith, full))
dump-full w (e ∷ es) k v full room =
    let sum : w.trace.count + k ≡ trace_buffer_size + k = omega (arith, v.count, full) in
    dump-held (claimed k w) e es v.allocated (ground (arith, sum, room))
      (ground (arith, sum, room, full)) v.events

-- The recorder is switched on, events are emitted, and the trace is dumped.
pub record Written (w : World) (got : Bool) (rs : List Emission) : Type 0 where
  pub end : World
  pub returns : (uthread_trace_enable got >> (emit_all rs >> uthread_dump_trace)) w ≡ ok tt end
  pub file : end.os.calls ≡ w.os.calls ++ file_of w.os.file_opens (kept w.os.clock w.os.ticks rs [])
  pub holds : IsTrace end.trace (kept w.os.clock w.os.ticks rs [])
  pub again :
      (k : ℕ)
      → length (kept w.os.clock w.os.ticks rs []) ≡ trace_buffer_size
      → trace_buffer_size + k < 2 ^ 31
      → uthread_dump_trace (claimed k end)
        ≡ ok tt (wrote (claimed k end) (file_of w.os.file_opens (kept w.os.clock w.os.ticks rs [])))

-- Behind the switching on.
recorded-Written :
    (w : World) (got : Bool) (rs : List Emission) (tr : Trace)
    → uthread_trace_enable got w ≡ ok tt (record w { trace = tr })
    → IsTrace tr []
    → Written w got rs
recorded-Written w got rs tr on v =
    let d = emit_all-Traced (record w { trace = tr }) rs [] v in
    let u = record w { trace = d.trace; os = d.os } in
    record {
      end = wrote u (file_of d.os.file_opens (kept w.os.clock w.os.ticks rs []));
      returns = rw (on, d.returns) (dump-file u (kept w.os.clock w.os.ticks rs []) d.holds);
      file = λ i. d.calls i ++ file_of (d.opens i) (kept w.os.clock w.os.ticks rs []);
      holds = d.holds;
      again = λ k full room.
          let es = kept w.os.clock w.os.ticks rs [] in
          let v' = wrote u (file_of d.os.file_opens es) in
          dump-full v' es k d.holds full room
          ∙ ap (λ b. ok tt (wrote (claimed k v') (file_of b es))) d.opens;
    }

-- The recorder once it is switched on, with `buffer` for its memory.
abbrev switched_on : Trace → (ℕ → TraceEvent) → Trace
switched_on tr buffer = record { allocated = true; buffer = buffer; count = 0; enabled = true }

switched_on-IsTrace : (tr : Trace) (buffer : ℕ → TraceEvent) → IsTrace (switched_on tr buffer) []
switched_on-IsTrace tr buffer = record {
  enabled = refl;
  allocated = refl;
  count = refl;
  bounded = omega arith;
  events = refl;
}

enable-there :
    (w : World) (got : Bool)
    → w.trace.allocated ≡ true
    → uthread_trace_enable got w ≡ ok tt (record w { trace = switched_on w.trace w.trace.buffer })
unfolding uthread_trace_enable
enable-there w got there = rw there refl

enable-new :
    (w : World)
    → w.trace.allocated ≡ false
    → uthread_trace_enable true w ≡ ok tt (record w { trace = switched_on w.trace (λ _. no_event) })
unfolding uthread_trace_enable
enable-new w missing = rw missing refl

-- Where the recorder has a buffer or gets one, `uthread_trace_enable`, then any calls of
-- `trace_emit`, then `uthread_dump_trace` write a file of exactly the events that were recorded
-- since: the header, each of the first 2 ^ 20 events in its order, by its name and phase, with the
-- time of its call, its thread and its core and with a separator before all but the first, then the
-- footer. Where no event was recorded or the file does not open, nothing is written. The trace still
-- holds these events, and a further dump writes the same file, also where the buffer is full and
-- other processors have raised the count above its size and have not yet taken that back.
pub uthread_dump_trace-Written :
    (w : World) (got : Bool) (rs : List Emission)
    → (w.trace.allocated || got) ≡ true
    → Written w got rs
uthread_dump_trace-Written w got rs has_buffer = elim (Bool-cases w.trace.allocated) [
  | inl there ↦
      recorded-Written w got rs (switched_on w.trace w.trace.buffer) (enable-there w got there)
        (switched_on-IsTrace w.trace w.trace.buffer)
  | inr missing ↦
      let given : true ≡ got = sym (ground (arith, has_buffer, missing)) in
      subst (λ b. Written w b rs) given
        (recorded-Written w true rs (switched_on w.trace (λ _. no_event)) (enable-new w missing)
          (switched_on-IsTrace w.trace (λ _. no_event)))
]
