-- ===== src/Start.antt =====
-- src/uthread.c: the library starts and ends (`uthread_init`, `uthread_init_mn`, `uthread_mn_run`
-- but for the loops of its processors).
pub mod Initial
pub mod Crew
use user_thread_scheduler.Common.{
  ℕ, zero, suc, ◌+◌, ◌-◌, ◌*◌, Bool, true, false, ltb, ◌==◌, if◌then◌else◌, update, slt,
}
use user_thread_scheduler.Create.{alloc_tcb, fetch_creation_order}
use user_thread_scheduler.GlobalList.{global_list_add, gc_finished_threads}
use user_thread_scheduler.Machine.{
  Ptr, null, ready, running, on_alarm, on_overflow, sigaction, setitimer, pthread_create,
  pthread_join, ends, no_policy, VirtualProcessor, World, Cmd, pure, ◌>>=◌, ◌>>◌, gets, modify,
  store, set_state, log_call,
}
use user_thread_scheduler.Processors.{set_vp}
use user_thread_scheduler.Switch.{exit}
use user_thread_scheduler.Trace.{uthread_dump_trace}

-- The globals that both modes reset. The sleep list is not among them.
abbrev pub reset : ℕ → Bool → World → World
reset first_id mn w = record w {
  global_list_lock = 0;
  ready_lock = 0;
  sleep_list_lock = 0;
  global_thread_list = null;
  ready = ends null null;
  ready_count = 0;
  next_thread_id = first_id;
  creation_counter = 0;
  current_scheduler = no_policy;
  mn_mode = mn;
}

unfoldable pub start_main : Ptr → Cmd (Unit {0})
unfolding global_list_add
start_main p = do
  store p (λ t. record t { thread_id = update t.thread_id p 0 })
  set_state p running
  n ← fetch_creation_order
  store p (λ t. record t { creation_order = update t.creation_order p n })
  store p (λ t. record t { stack = update t.stack p null })
  store p (λ t. record t { stack_alloc = update t.stack_alloc p 0 })
  global_list_add p
  modify (λ w. record w { current_thread = p })

-- `TIME_QUANTUM_MS`
abbrev pub time_quantum_ms : ℕ
time_quantum_ms = 10

-- The timer and the handlers.
unfoldable pub preempt : Cmd (Unit {0})
preempt = do
  log_call (sigaction on_alarm)
  log_call (setitimer (time_quantum_ms * 1000))
  log_call (sigaction on_overflow)

-- `block` is what `calloc` returns and `fd` what `epoll_create1` returns.
unfoldable pub uthread_init : Ptr → ℕ → Cmd (Unit {0})
unfolding alloc_tcb start_main preempt
uthread_init block fd = do
  modify (reset 1 false)
  p ← alloc_tcb block
  if p == null then exit 1 else do start_main p; preempt; modify (λ w. record w { epoll_fd = fd })

abbrev pub max_virtual_procs : ℕ
max_virtual_procs = 64

-- The number of processors that is used for the number asked for.
unfoldable pub clamp : ℕ → ℕ
clamp n =
    let m = if slt n 1 then 1 else n in if slt max_virtual_procs m then max_virtual_procs else m

abbrev pub new_vp : ℕ → VirtualProcessor
new_vp i = record {
  vp_id = i;
  queue = ends null null;
  local_count = 0;
  queue_lock = 0;
  current = null;
  running = true;
}

-- The first `n` processors.
abbrev pub fresh_vps : ℕ → (ℕ → VirtualProcessor) → ℕ → VirtualProcessor
fresh_vps n vps i = if ltb i n then new_vp i else vps i

unfoldable pub uthread_init_mn : ℕ → ℕ → Cmd (Unit {0})
unfolding clamp
uthread_init_mn num_processors fd = do
  let n = clamp num_processors
  modify (reset 0 true)
  modify (λ w. record w { num_vps = n })
  log_call (sigaction on_overflow)
  modify (λ w. record w { epoll_fd = fd })
  log_call (setitimer 0)
  modify (λ w. record w { vps = fresh_vps n w.vps })

-- A pthread for each of `k` processors from `i` on.
unfoldable pub spawn : ℕ → ℕ → Cmd (Unit {0})
spawn zero i = pure tt
spawn (suc k) i = do log_call (pthread_create i); spawn k (i + 1)

-- The processors from `i` on stop, each awaited before the next.
unfoldable pub stop_others : ℕ → ℕ → Cmd (Unit {0})
stop_others zero i = pure tt
stop_others (suc k) i = do
  set_vp i (λ v. record v { running = false })
  log_call (pthread_join i)
  stop_others k (i + 1)

-- `uthread_mn_run` before the loop of processor 0, and after it.
unfoldable pub mn_start : Cmd (Unit {0})
unfolding spawn
mn_start = do num ← gets (λ w. w.num_vps); spawn (num - 1) 1

unfoldable pub mn_finish : Cmd (Unit {0})
unfolding stop_others uthread_dump_trace gc_finished_threads
mn_finish = do
  num ← gets (λ w. w.num_vps)
  stop_others (num - 1) 1
  uthread_dump_trace
  gc_finished_threads
