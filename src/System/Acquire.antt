-- ===== src/System/Acquire.antt =====
-- src/uthread.c: the whole of `uthread_mutex_lock` and `uthread_sem_wait`.
use user_thread_scheduler.Common.{
  ℕ, ◌+◌, ◌<◌, ◌≡◌, refl, ap, ◌∙◌, Bool, true, false, List, [], ◌∷◌, ◌++◌, All, has, ◌==◌,
  if◌then◌else◌, update, eq_self, dec32, slt,
}
use user_thread_scheduler.GlobalList.{free}
use user_thread_scheduler.GlobalList.Collect.{survivors}
use user_thread_scheduler.Io.{is_io_blocked}
use user_thread_scheduler.Machine.{
  Ptr, blocked, in_yield, Ends, World, ok, Cmd, pure, and_then, ◌>>=◌,
}
use user_thread_scheduler.Machine.Queue.{pushed}
use user_thread_scheduler.Signals.{blocked_signals}
use user_thread_scheduler.Switch.{Outcome, returned, switches, uthread_yield}
use user_thread_scheduler.Sync.{
  Mutex, Semaphore, lock_enter, uthread_mutex_lock, sem_enter, uthread_sem_wait,
}
use user_thread_scheduler.Sync.Exclusion.{lock-free, lock-taken}
use user_thread_scheduler.Sync.Fifo.{queued}
use user_thread_scheduler.Sync.Permits.{sem_wait-passes, sem_wait-queues}
use user_thread_scheduler.Sync.Serve.{IsWaiting}
use user_thread_scheduler.System.{IsSystem, IsFairReport}
use user_thread_scheduler.System.Entering.{waiting_view, IsEntering, entered_queues, queued-Resumed}
use user_thread_scheduler.System.Parked.{Resumed}
use user_thread_scheduler.System.Sweep.{alarm-IsResting}
use user_thread_scheduler.System.Unwoken.{Resumed-unwoken}
use user_thread_scheduler.System.Waiting.{IsSleeper}
use user_thread_scheduler.Trace.Dump.{kept}

-- A call `call` that answers `taken` where the object is free, and otherwise `kept` once its thread
-- is the last of the queue `q`, behind `ts`, and another one runs.
pub record Acquires {A : Type 0} (user : ℕ → Cmd Ptr) (call : Cmd (A × Outcome)) (free : Bool)
    (taken kept : A) (q : Ends) (w : World) (xs ss gs ts : List Ptr) : Type 0 where
  pub returns :
      free ≡ true
      → (call w ≡ ok (taken, returned) (record w { alarm_blocked = false }))
        × IsSystem (record w { alarm_blocked = false }) w.current_thread xs ss gs
  pub queue :
      IsWaiting
        (queued (blocked_signals w) q)
        (pushed q w.current_thread)
        xs
        (ts ++ w.current_thread ∷ [])
  pub resumed :
      Resumed
        (uthread_yield user (queued (blocked_signals w) q))
        w.current_thread
        in_yield
        (waiting_view w)
        w.os
        xs
        ss
        (survivors (update w.tcb.state w.current_thread blocked) w.current_thread gs)
  pub waits : free ≡ false → call w ≡ ok (kept, switches resumed.next) resumed.end
  pub unwoken :
      (has w.current_thread (resumed.next ∷ resumed.others) ≡ false)
      × (resumed.end.tcb.state w.current_thread ≡ blocked)

alarm-IsSystem :
    {w : World} {p : Ptr} {xs ss gs : List Ptr} (b : Bool)
    → IsSystem w p xs ss gs
    → IsSystem (record w { alarm_blocked = b }) p xs ss gs
alarm-IsSystem b v = record {
  current = v.current;
  alive = v.alive;
  running_state = v.running_state;
  unready = v.unready;
  awake = v.awake;
  rest = alarm-IsResting b v.rest;
}

module _ (user : ℕ → Cmd Ptr) {w : World} {q : Ends} {xs ss gs ts : List Ptr}
    (v : IsEntering w q xs ss gs ts) (fair : (j : ℕ) → All (IsFairReport w ss) (w.os.events j))
    (limit : ℕ) (wakes : xs ≡ [] → (t : Ptr) × IsSleeper w ss gs t limit)
    (more : limit < w.os.ticks + w.rounds) where
  -- What both calls share: `enter` is the call up to its return or its context switch.
  entering-Acquires :
      {A : Type 0} (enter : Cmd (A × Bool)) (call : Cmd (A × Outcome)) (free : Bool)
      (taken kept : A)
      → call w
        ≡ and_then
            (enter w)
            (λ r. if r.1 then pure (r.0, returned) else do o ← uthread_yield user; pure (r.0, o))
      → (free ≡ true → enter w ≡ ok (taken, true) (record w { alarm_blocked = false }))
      → (free ≡ false → enter w ≡ ok (kept, false) (queued (blocked_signals w) q))
      → Acquires user call free taken kept q w xs ss gs ts
  entering-Acquires {A} enter call free taken kept run now later =
      let r = queued-Resumed v user fair limit wakes more in
      let rest : (A × Bool) → Cmd (A × Outcome) =
        λ r. if r.1 then pure (r.0, returned) else (do o ← uthread_yield user; pure (r.0, o)) in
      let me = w.current_thread in
      let no_io : is_io_blocked ((waiting_view w).state me) ≡ false = rw (eq_self me) refl in
      let out = Resumed-unwoken (waiting_view w) me xs ss v.formed.unready v.formed.awake no_io r in
      record {
        returns = λ h. (run ∙ ap (λ e. and_then e rest) (now h), alarm-IsSystem false v.formed);
        queue = entered_queues v;
        resumed = r;
        waits = λ h.
            run
            ∙ (ap (λ e. and_then e rest) (later h)
                ∙ ap (λ e. and_then e (λ o. pure (kept, o))) r.returns);
        unwoken = (out.0, out.1 ∙ rw (eq_self me) refl);
      }

-- In a well-formed state of single-core mode, with a well-formed wait queue that has no thread of
-- another list and not the caller, where every report of `epoll_wait` is for no thread or for a live
-- one that has not finished and does not sleep, and where, if no thread is ready, a listed thread
-- sleeps whose wake-up time the clock shows from some reading on, with fuel for the readings up to
-- it: `uthread_mutex_lock` of a mutex that is not locked returns with it locked, in a well-formed
-- state with the same thread running; otherwise it leaves the mutex locked, puts the caller at the
-- end of its wait queue, which is well formed when it yields, and ends at the switch to the next
-- thread, in a well-formed state in which the caller is blocked and not ready.
pub uthread_mutex_lock-Acquires :
    (user : ℕ → Cmd Ptr) (m : Mutex) {w : World} {xs ss gs ts : List Ptr}
    → IsEntering w m.wait xs ss gs ts
    → ((j : ℕ) → All (IsFairReport w ss) (w.os.events j))
    → (limit : ℕ) → (xs ≡ [] → (t : Ptr) × IsSleeper w ss gs t limit)
    → limit < w.os.ticks + w.rounds
    → Acquires user
        (uthread_mutex_lock user m)
        (m.locked == 0)
        (record { locked = 1; wait = m.wait })
        (record { locked = m.locked; wait = pushed m.wait w.current_thread })
        m.wait
        w
        xs
        ss
        gs
        ts
unfolding uthread_mutex_lock
uthread_mutex_lock-Acquires user m {w} v fair limit wakes more =
    entering-Acquires user v fair limit wakes more (lock_enter m) (uthread_mutex_lock user m) _ _ _
      refl (lock-free m w v.formed.rest.single)
      (λ h. lock-taken v.waiters h v.formed.alive v.new v.formed.unready)

-- In a well-formed state of single-core mode, with a well-formed wait queue that has no thread of
-- another list and not the caller, where every report of `epoll_wait` is for no thread or for a live
-- one that has not finished and does not sleep, and where, if no thread is ready, a listed thread
-- sleeps whose wake-up time the clock shows from some reading on, with fuel for the readings up to
-- it: `uthread_sem_wait` of a semaphore with a positive count returns with the count one less, in a
-- well-formed state with the same thread running; otherwise it leaves the count, puts the caller at
-- the end of the wait queue, which is well formed when it yields, and ends at the switch to the next
-- thread, in a well-formed state in which the caller is blocked and not ready.
pub uthread_sem_wait-Acquires :
    (user : ℕ → Cmd Ptr) (s : Semaphore) {w : World} {xs ss gs ts : List Ptr}
    → IsEntering w s.wait xs ss gs ts
    → ((j : ℕ) → All (IsFairReport w ss) (w.os.events j))
    → (limit : ℕ) → (xs ≡ [] → (t : Ptr) × IsSleeper w ss gs t limit)
    → limit < w.os.ticks + w.rounds
    → Acquires user
        (uthread_sem_wait user s)
        (slt 0 s.count)
        (record { count = dec32 s.count; wait = s.wait })
        (record { count = s.count; wait = pushed s.wait w.current_thread })
        s.wait
        w
        xs
        ss
        gs
        ts
unfolding uthread_sem_wait
uthread_sem_wait-Acquires user s {w} v fair limit wakes more =
    entering-Acquires user v fair limit wakes more (sem_enter s) (uthread_sem_wait user s) _ _ _
      refl (sem_wait-passes s w v.formed.rest.single)
      (λ h. sem_wait-queues v.waiters h v.formed.alive v.new v.formed.unready)
