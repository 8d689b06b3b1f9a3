-- ===== src/Signals.antt =====
-- src/uthread.c: `block_signals`, `unblock_signals`, and the spinlocks as one OS thread sees them.
use user_thread_scheduler.Common.{ℕ, ◌≡◌, true, false, ◌==◌, if◌then◌else◌}
use user_thread_scheduler.Machine.{World, ok, spins, Cmd, pure, ◌>>=◌, gets, modify}

unfoldable pub block_signals : Cmd (Unit {0})
block_signals = do
  mn ← gets (λ w. w.mn_mode)
  if mn then pure tt else modify (λ w. record w { alarm_blocked = true })

unfoldable pub unblock_signals : Cmd (Unit {0})
unblock_signals = do
  mn ← gets (λ w. w.mn_mode)
  if mn then pure tt else modify (λ w. record w { alarm_blocked = false })

-- `atomic_exchange(&lock, 1)` until it returns 0. With one OS thread nobody else can release the
-- lock, so the loop never ends once the first exchange has failed.
unfoldable pub spinlock_acquire : (World → ℕ) → (World → World) → Cmd (Unit {0})
spinlock_acquire word set w = if word w == 0 then ok tt (set w) else spins

abbrev pub acquire_sleep_list : Cmd (Unit {0})
unfolding spinlock_acquire
acquire_sleep_list =
    spinlock_acquire (λ w. w.sleep_list_lock) (λ w. record w { sleep_list_lock = 1 })

abbrev pub release_sleep_list : Cmd (Unit {0})
release_sleep_list = modify (λ w. record w { sleep_list_lock = 0 })

abbrev pub acquire_global_list : Cmd (Unit {0})
unfolding spinlock_acquire
acquire_global_list =
    spinlock_acquire (λ w. w.global_list_lock) (λ w. record w { global_list_lock = 1 })

abbrev pub release_global_list : Cmd (Unit {0})
release_global_list = modify (λ w. record w { global_list_lock = 0 })

abbrev pub acquire_ready : Cmd (Unit {0})
unfolding spinlock_acquire
acquire_ready = spinlock_acquire (λ w. w.ready_lock) (λ w. record w { ready_lock = 1 })

abbrev pub release_ready : Cmd (Unit {0})
release_ready = modify (λ w. record w { ready_lock = 0 })

-- Both in single-core mode.
abbrev pub blocked_signals : World → World
blocked_signals w = record w { alarm_blocked = true }

pub block_signals-ok : (w : World) → w.mn_mode ≡ false → block_signals w ≡ ok tt (blocked_signals w)
unfolding block_signals
block_signals-ok w h = rw h

pub unblock_signals-ok :
    (w : World) → w.mn_mode ≡ false → unblock_signals w ≡ ok tt (record w { alarm_blocked = false })
unfolding unblock_signals
unblock_signals-ok w h = rw h
