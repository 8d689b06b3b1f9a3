-- ===== src/Petersons.antt =====
-- demos/petersons/petersons.c: two threads that count under Peterson's lock.
--
-- The threads share one OS thread, so their accesses of the shared variables happen one after the
-- other; the timer may switch between any two of them. The accesses are taken in the order in
-- which the program is written.
pub mod Pair
pub mod Places
pub mod Steps
pub mod Safety
pub mod Progress
pub mod Ends
use user_thread_scheduler.Common.{
  ℕ, ◌+◌, ◌-◌, Bool, true, false, List, [], ◌∷◌, ltb, ◌==◌, if◌then◌else◌, update, inc32,
}
use user_thread_scheduler.Machine.{finished}

-- `ITERATIONS`
abbrev pub iterations : ℕ
iterations = 500000

-- The shared variables, and what the process has printed once it has ended.
pub record Shared : Type 0 where
  pub flag : ℕ → ℕ
  pub turn : ℕ
  pub counter : ℕ
  pub finished : ℕ
  pub ended : Bool
  pub report : ℕ

-- The next access of a worker in round `i`, with the locals that are live there. The round
-- `iterations` is the one behind the loop.
pub data Point : Type 0 where
  -- `lock`
  raises gives tests_flag tests_turn : (i : ℕ) → Point
  -- the critical section, and its `unlock`
  enters : (i : ℕ) → Point
  adds : (i temp : ℕ) → Point
  lowers : (i : ℕ) → Point
  -- `finished++`, its test, the message, the last `unlock`
  counts : (old : ℕ) → Point
  checks prints lowers_last returned_last : Point

abbrev pub set_flag : ℕ → ℕ → Shared → Shared
set_flag self v m = record m { flag = update m.flag self v }

-- One access of the worker `self`.
unfoldable pub access_next : ℕ → Shared → Point → Shared × Point
access_next self m (raises i) = (set_flag self 1 m, gives i)
access_next self m (gives i) = (record m { turn = 1 - self }, tests_flag i)
access_next self m (tests_flag i) = (m, if m.flag (1 - self) == 1 then tests_turn i else enters i)
access_next self m (tests_turn i) = (m, if m.turn == 1 - self then tests_flag i else enters i)
access_next self m (enters i) =
    (m, if ltb i iterations then adds i m.counter else counts m.finished)
access_next self m (adds i temp) = (record m { counter = inc32 temp }, lowers i)
access_next self m (lowers i) = (set_flag self 0 m, raises (i + 1))
access_next self m (counts old) = (record m { finished = inc32 old }, checks)
access_next self m checks = (m, if m.finished == 2 then prints else lowers_last)
access_next self m prints = (record m { ended = true; report = m.counter }, prints)
access_next self m lowers_last = (set_flag self 0 m, returned_last)
access_next self m returned_last = (m, returned_last)

pub record Demo : Type 0 where
  pub shared : Shared
  pub place0 : Point
  pub place1 : Point

-- The state in which `main` leaves.
abbrev pub main_left : Demo
main_left = record {
  shared = record { flag = λ _. 0; turn = 0; counter = 0; finished = 0; ended = false; report = 0 };
  place0 = raises 0;
  place1 = raises 0;
}

abbrev pub moved0 : Demo → Shared × Point → Demo
moved0 d r = record { shared = r.0; place0 = r.1; place1 = d.place1 }

abbrev pub moved1 : Demo → Shared × Point → Demo
moved1 d r = record { shared = r.0; place0 = d.place0; place1 = r.1 }

-- The worker that runs next, 0 for true, makes an access; `exit(0)` ends both.
unfoldable pub schedule : Bool → Demo → Demo
unfolding access_next
schedule true d = if d.shared.ended then d else moved0 d (access_next 0 d.shared d.place0)
schedule false d = if d.shared.ended then d else moved1 d (access_next 1 d.shared d.place1)

unfoldable pub run_demo : List Bool → Demo → Demo
unfolding schedule
run_demo [] d = d
run_demo (b ∷ bs) d = run_demo bs (schedule b d)
