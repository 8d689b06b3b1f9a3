-- ===== src/Spinlock.antt =====
-- src/uthread.c: a spinlock and the OS threads that use it, which interleave at each access of the
-- lock word (`spinlock_init`, `spinlock_acquire`, `spinlock_release`).
pub mod Exclusion
use user_thread_scheduler.Common.{ℕ, ◌+◌, ◌≡◌, ltb, ◌==◌, if◌then◌else◌, update}

-- Where an OS thread is: not at the lock, in the loop of `spinlock_acquire`, or behind it. In the
-- loop `spin_count` only chooses between a pause and `sched_yield`.
pub data Place : Type 0 where
  outside inside : Place
  spinning : (spin_count : ℕ) → Place

-- The lock word and the places of the OS threads.
pub record LockState : Type 0 where
  pub lock : ℕ
  pub place : ℕ → Place

unfoldable pub spinlock_init : (ℕ → Place) → LockState
spinlock_init places = record { lock = 0; place = places }

-- The spin count after a failed exchange.
abbrev pub spun : ℕ → ℕ
spun spin_count = if ltb spin_count 100 then spin_count + 1 else spin_count

-- `atomic_exchange(&sl->lock, 1) != 0` of thread `i`: one round of the loop.
unfoldable pub exchange : ℕ → ℕ → LockState → LockState
exchange i spin_count s = record {
  lock = 1;
  place = update s.place i (if s.lock == 0 then inside else spinning (spun spin_count));
}

-- `atomic_store(&sl->lock, 0)`
unfoldable pub spinlock_release : ℕ → LockState → LockState
spinlock_release i s = record { lock = 0; place = update s.place i outside }

-- One access of one OS thread. A thread releases only a lock that it has acquired.
pub data LockStep (s : LockState) : LockState → Type 0 where
  calls :
      (i : ℕ)
      → s.place i ≡ outside
      → LockStep s (record s { place = update s.place i (spinning 0) })
  tries : (i n : ℕ) → s.place i ≡ spinning n → LockStep s (exchange i n s)
  leaves : (i : ℕ) → s.place i ≡ inside → LockStep s (spinlock_release i s)

pub data Reaches (s : LockState) : LockState → Type 0 where
  at_start : Reaches s s
  then_step : {t u : LockState} → Reaches s t → LockStep t u → Reaches s u
