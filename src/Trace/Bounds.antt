-- ===== src/Trace/Bounds.antt =====
-- src/uthread.c: what `trace_emit` leaves of the operating system.
use user_thread_scheduler.Common.{
  ◌+◌, ◌≤◌, ◌≡◌, refl, sym, ap, ◌∙◌, ◌⊎◌, inl, inr, not, ◌||◌, List, [], ◌++◌, append-nil,
  append_assoc, arith, Bool-cases, sle,
}
use user_thread_scheduler.Machine.{Trace, SysCall, Os}
use user_thread_scheduler.Trace.{trace_buffer_size, clocked}

clocked-cases :
    (tr : Trace) (os : Os)
    → (clocked tr os ≡ os) ⊎ (clocked tr os ≡ record os { ticks = os.ticks + 1 })
unfolding clocked
clocked-cases tr os = elim (Bool-cases (not tr.enabled || not tr.allocated)) [
  | inl off ↦ inl (rw off refl)
  | inr on ↦ elim (Bool-cases (sle trace_buffer_size tr.count)) [
    | inl full ↦ inl (rw (on, full) refl)
    | inr room ↦ inr (rw (on, room) refl)
  ]
]

pub clocked_calls : (tr : Trace) (os : Os) → (clocked tr os).calls ≡ os.calls
clocked_calls tr os = elim (clocked-cases tr os) [
  | inl same ↦ rw same refl
  | inr later ↦ rw later refl
]

pub clocked_opens : (tr : Trace) (os : Os) → (clocked tr os).file_opens ≡ os.file_opens
clocked_opens tr os = elim (clocked-cases tr os) [
  | inl same ↦ rw same refl
  | inr later ↦ rw later refl
]

-- Calls were added to a log.
pub record Logs (before after : List SysCall) : Type 0 where
  pub more : List SysCall
  pub added : after ≡ before ++ more

pub Logs-refl : (a : List SysCall) → Logs a a
Logs-refl a = record { more = []; added = sym (append-nil a) }

pub Logs-trans : {a b c : List SysCall} → Logs a b → Logs b c → Logs a c
Logs-trans {a} r s = record {
  more = r.more ++ s.more;
  added = s.added ∙ (ap (λ b. b ++ s.more) r.added ∙ append_assoc a r.more s.more);
}

-- Where nothing is added.
pub Logs-same : {a b : List SysCall} → b ≡ a → Logs a b
Logs-same {a} e = record { more = []; added = e ∙ sym (append-nil a) }

-- The clock and the events are those of before, and the clock was read and calls were made in
-- between.
pub record Later (before after : Os) : Type 0 where
  pub clock : after.clock ≡ before.clock
  pub events : after.events ≡ before.events
  pub ticks : before.ticks ≤ after.ticks
  pub log : Logs before.calls after.calls

pub Later-refl : (os : Os) → Later os os
Later-refl os = record {
  clock = refl;
  events = refl;
  ticks = omega arith;
  log = Logs-refl os.calls;
}

-- A reading of the clock.
pub ticked-Later : (os : Os) → Later os (record os { ticks = os.ticks + 1 })
ticked-Later os = record {
  clock = refl;
  events = refl;
  ticks = omega arith;
  log = Logs-refl os.calls;
}

pub Later-trans : {a b c : Os} → Later a b → Later b c → Later a c
Later-trans r s = record {
  clock = s.clock ∙ r.clock;
  events = s.events ∙ r.events;
  ticks = omega (arith, r.ticks, s.ticks);
  log = Logs-trans r.log s.log;
}

pub clocked-Later : (tr : Trace) (os : Os) → Later os (clocked tr os)
clocked-Later tr os = elim (clocked-cases tr os) [
  | inl same ↦ rw same (Later-refl os)
  | inr later ↦ rw later (ticked-Later os)
]
