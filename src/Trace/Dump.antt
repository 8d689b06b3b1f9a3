-- ===== src/Trace/Dump.antt =====
-- src/uthread.c: what the recorder keeps of the events.
use mathlib.Core.Path.{subst}
use user_thread_scheduler.Common.{
  ℕ, zero, suc, ◌+◌, ◌≤◌, ◌<◌, ◌≡◌, refl, sym, ap, ◌∙◌, inl, inr, true, false, List, [], ◌∷◌, ◌++◌,
  arith, length, length-append, ltb, ◌==◌, if◌then◌else◌, Bool-cases, update, inc32, dec32, sle,
}
use user_thread_scheduler.Machine.{
  TraceEventType, TraceEvent, Trace, Timespec, Os, World, ok, Cmd, pure, ◌>>◌,
}
use user_thread_scheduler.Trace.{
  trace_buffer_size, time_ns, event, trace_emit, events_from, recorded, clocked, traced,
  trace_emit-ok,
}
use user_thread_scheduler.Trace.Bounds.{clocked_calls, clocked_opens}

-- A call of `trace_emit`: thread, type and core.
pub record Emission : Type 0 where
  pub tid : ℕ
  pub type : TraceEventType
  pub core_id : ℕ

unfoldable pub emit_all : List Emission → Cmd (Unit {0})
unfolding trace_emit
emit_all [] = pure tt
emit_all (r ∷ rs) = trace_emit r.tid r.type r.core_id >> emit_all rs

-- The events that are kept behind `es`: each until the buffer is full, with the clock from reading
-- `k` on.
abbrev pub kept : (ℕ → Timespec) → ℕ → List Emission → List TraceEvent → List TraceEvent
kept clock k [] es = es
kept clock k (r ∷ rs) es =
    let more =
      kept clock (k + 1) rs (es ++ event r.tid r.type (time_ns (clock k)) r.core_id ∷ []) in
    if ltb (length es) trace_buffer_size then more else es

-- The trace is on and holds the events `es`.
pub record IsTrace (tr : Trace) (es : List TraceEvent) : Type 0 where
  pub enabled : tr.enabled ≡ true
  pub allocated : tr.allocated ≡ true
  pub count : tr.count ≡ length es
  pub bounded : length es ≤ trace_buffer_size
  pub events : events_from tr.buffer 0 (length es) ≡ es

events_from-update :
    (b : ℕ → TraceEvent) (e : TraceEvent) (i n j : ℕ)
    → i + n ≤ j
    → events_from (update b j e) i n ≡ events_from b i n
events_from-update b e i zero j h = refl
events_from-update b e i (suc n) j h =
    let other : (j == i) ≡ false = ground arith in
    rw (other, events_from-update b e (i + 1) n j (omega arith)) refl

events_from-suc :
    (b : ℕ → TraceEvent) (i n : ℕ) → events_from b i (suc n) ≡ events_from b i n ++ b (i + n) ∷ []
events_from-suc b i zero = ap (λ k. b k ∷ []) (omega arith)
events_from-suc b i (suc n) =
    ap (λ es. b i ∷ es)
      (events_from-suc b (i + 1) n ∙ ap (λ k. events_from b (i + 1) n ++ b k ∷ []) (omega arith))

module _ (tr : Trace) (os : Os) (r : Emission) (es : List TraceEvent) (v : IsTrace tr es) where
  abbrev new_event : TraceEvent
  new_event = event r.tid r.type (time_ns (os.clock os.ticks)) r.core_id

  abbrev appended : Trace
  appended = recorded r.tid r.type r.core_id tr os

  module _ (room : length es < trace_buffer_size) where
    not_full : sle trace_buffer_size tr.count ≡ false
    not_full = rw v.count (ground (arith, room))

    appended-room :
        appended
        ≡ record tr { count = inc32 tr.count; buffer = update tr.buffer tr.count new_event }
    unfolding recorded
    appended-room = rw (v.enabled, v.allocated, not_full)

    appended_events :
        events_from (update tr.buffer tr.count new_event) 0 (length (es ++ new_event ∷ []))
        ≡ es ++ new_event ∷ []
    appended_events =
        let len : length (es ++ new_event ∷ []) ≡ suc (length es) =
          omega (arith, length-append {0} es (new_event ∷ [])) in
        let old : events_from (update tr.buffer tr.count new_event) 0 (length es) ≡ es =
          events_from-update tr.buffer new_event 0 (length es) tr.count (omega (arith, v.count))
          ∙ v.events in
        let at : (tr.count == (0 + length es)) ≡ true = ground (arith, v.count) in
        rw (len, events_from-suc (update tr.buffer tr.count new_event) 0 (length es), old, at)

    -- Room is left: one more event.
    pub recorded-IsTrace : IsTrace appended (es ++ new_event ∷ [])
    recorded-IsTrace =
        subst (λ t. IsTrace t (es ++ new_event ∷ [])) (sym appended-room)
          (record {
            enabled = v.enabled;
            allocated = v.allocated;
            count = omega (arith, v.count, room, length-append {0} es (new_event ∷ []));
            bounded = omega (arith, room, length-append {0} es (new_event ∷ []));
            events = appended_events;
          })

    clock-room : clocked tr os ≡ record os { ticks = os.ticks + 1 }
    unfolding clocked
    clock-room = rw (v.enabled, v.allocated, not_full)

  appended-full :
      sle trace_buffer_size tr.count ≡ true
      → appended ≡ record tr { count = dec32 (inc32 tr.count) }
  unfolding recorded
  appended-full h = rw (v.enabled, v.allocated, h)

  -- None is left: the event is dropped.
  pub recorded-full : length es ≡ trace_buffer_size → IsTrace appended es
  recorded-full full =
      let is_full : sle trace_buffer_size tr.count ≡ true = rw v.count (ground (arith, full)) in
      subst (λ t. IsTrace t es) (sym (appended-full is_full))
        (record {
          enabled = v.enabled;
          allocated = v.allocated;
          count = omega (arith, v.count, full);
          bounded = v.bounded;
          events = v.events;
        })

kept-full :
    (clock : ℕ → Timespec) (k : ℕ) (rs : List Emission) (es : List TraceEvent)
    → ltb (length es) trace_buffer_size ≡ false
    → kept clock k rs es ≡ es
kept-full clock k [] es h = refl
kept-full clock k (r ∷ rs) es h = rw h refl

-- The events `es` of the buffer have been joined by those of `rs` that found room.
pub record Traced (w : World) (rs : List Emission) (es : List TraceEvent) : Type 0 where
  pub trace : Trace
  pub os : Os
  pub returns : emit_all rs w ≡ ok tt (record w { trace = trace; os = os })
  pub holds : IsTrace trace (kept w.os.clock w.os.ticks rs es)
  pub calls : os.calls ≡ w.os.calls
  pub opens : os.file_opens ≡ w.os.file_opens

-- A recorder that is on and holds the events `es` keeps, of the events that follow, the first
-- ones up to 2 ^ 20 in all, in their order, each with the clock at its call, and drops the later
-- ones; the calls return, change no memory but the trace, and make no other call of the operating
-- system than to read the clock.
pub emit_all-Traced :
    (w : World) (rs : List Emission) (es : List TraceEvent) → IsTrace w.trace es → Traced w rs es
unfolding emit_all
emit_all-Traced w [] es v = record {
  trace = w.trace;
  os = w.os;
  returns = refl;
  holds = v;
  calls = refl;
  opens = refl;
}
emit_all-Traced w (r ∷ rs) es v = elim (Bool-cases (ltb (length es) trace_buffer_size)) [
  | inl room ↦
      let fits : length es < trace_buffer_size = ground (arith, room) in
      let u = traced r.tid r.type r.core_id w in
      let e = new_event w.trace w.os r es v in
      let d = emit_all-Traced u rs (es ++ e ∷ []) (recorded-IsTrace w.trace w.os r es v fits) in
      record {
        trace = d.trace;
        os = d.os;
        returns = rw (trace_emit-ok r.tid r.type r.core_id w, d.returns);
        holds = rw room (
            subst (λ o. IsTrace d.trace (kept o.clock o.ticks rs (es ++ e ∷ [])))
              (clock-room w.trace w.os r es v fits) d.holds);
        calls = d.calls ∙ clocked_calls w.trace w.os;
        opens = d.opens ∙ clocked_opens w.trace w.os;
      }
  | inr full ↦
      let all : length es ≡ trace_buffer_size = ground (arith, full, v.bounded) in
      let u = traced r.tid r.type r.core_id w in
      let d = emit_all-Traced u rs es (recorded-full w.trace w.os r es v all) in
      record {
        trace = d.trace;
        os = d.os;
        returns = rw (trace_emit-ok r.tid r.type r.core_id w, d.returns);
        holds =
            rw full (subst (IsTrace d.trace) (kept-full u.os.clock u.os.ticks rs es full) d.holds);
        calls = d.calls ∙ clocked_calls w.trace w.os;
        opens = d.opens ∙ clocked_opens w.trace w.os;
      }
]
