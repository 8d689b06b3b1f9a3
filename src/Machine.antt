-- ===== src/Machine.antt =====
-- The memory that src/uthread.c works on, and commands over it.
--
-- `struct tcb` (include/uthread.h) is stored by fields: `Tcbs` has one array for each member,
-- indexed by the address of the block. `live` marks the blocks that `calloc` gave out and `free` has
-- not taken back; an access of any other address, NULL included, is a fault.
pub mod Apart
pub mod Chain
pub mod Queue
pub mod Results
use Prim.Native.String.{String}
use user_thread_scheduler.Common.{
  ℕ, ◌≡◌, Bool, true, false, List, [], ◌∷◌, ◌++◌, arith, ◌==◌, if◌then◌else◌, update,
}
use user_thread_scheduler.Spinlock.{calls}

abbrev pub Ptr : Type 0
Ptr = ℕ

abbrev pub null : Ptr
null = 0

-- `uthread_state_t`
pub data ThreadState : Type 0 where
  ready running blocked io_blocked finished : ThreadState

-- Where a saved `ucontext_t` resumes: not set yet, at the start of `thread_wrapper`, or behind the
-- `swapcontext` of the function named.
pub data Context : Type 0 where
  unset in_wrapper in_yield in_exit in_mn_yield : Context

pub record Tcbs : Type 0 where
  pub thread_id : Ptr → ℕ
  pub state : Ptr → ThreadState
  pub stack : Ptr → Ptr
  pub stack_alloc : Ptr → ℕ
  pub fn : Ptr → Ptr
  pub arg : Ptr → Ptr
  pub priority : Ptr → ℕ
  pub creation_order : Ptr → ℕ
  pub next : Ptr → Ptr
  pub global_next : Ptr → Ptr
  pub global_prev : Ptr → Ptr
  pub io_fd : Ptr → ℕ
  pub io_events : Ptr → ℕ
  pub io_result : Ptr → ℕ
  pub sleep_until_ns : Ptr → ℕ
  pub vp_id : Ptr → ℕ
  pub context : Ptr → Context

-- `trace_event_type_t`
pub data TraceEventType : Type 0 where
  trace_create trace_ready trace_run trace_yield trace_preempt trace_block trace_unblock :
      TraceEventType
  trace_io_block trace_io_unblock trace_sleep trace_wakeup trace_exit trace_steal : TraceEventType

pub record TraceEvent : Type 0 where
  pub tid : ℕ
  pub type : TraceEventType
  pub timestamp_ns : ℕ
  pub core_id : ℕ

-- `trace_buffer` (allocated or NULL, and its contents), `trace_count` and `trace_enabled`
pub record Trace : Type 0 where
  pub allocated : Bool
  pub buffer : ℕ → TraceEvent
  pub count : ℕ
  pub enabled : Bool

pub record Timespec : Type 0 where
  pub tv_sec : ℕ
  pub tv_nsec : ℕ

-- The handlers that `sigaction` installs: `alrm_handler` for SIGALRM with SA_RESTART, and
-- `sigsegv_handler` for SIGSEGV with SA_SIGINFO, and the default action of SIGSEGV (SIG_DFL).
pub data Handler : Type 0 where
  on_alarm on_overflow default_overflow : Handler

-- Calls of the operating system that the code makes for their effect alone. `setitimer` has the
-- same value and interval, in microseconds; a pthread is named by its virtual processor.
-- `fcntl_setfl` is `fcntl` with F_SETFL, `raise_segv` is `raise(SIGSEGV)`, `overflow_message` the
-- `fprintf` of `sigsegv_handler`, and the calls below it write the trace file: `fprintf` of a text, or
-- of one event with the separator before it.
pub data SysCall : Type 0 where
  epoll_ctl_add : (fd events : ℕ) (ptr : Ptr) → SysCall
  epoll_ctl_del : (fd : ℕ) → SysCall
  munmap : (region : Ptr) (size : ℕ) → SysCall
  fcntl_setfl : (fd flags : ℕ) → SysCall
  overflow_message : (tid : ℕ) (addr guard_lo guard_hi : Ptr) → SysCall
  raise_segv : SysCall
  fopen_trace fclose_trace : SysCall
  fprintf_text : String → SysCall
  fprintf_event : (separator name phase : String) (timestamp_ns tid core_id : ℕ) → SysCall
  sigaction : Handler → SysCall
  setitimer : (period_us : ℕ) → SysCall
  pthread_create pthread_join : (vp : ℕ) → SysCall

-- What the operating system answers: the clock at each reading, and the events of each
-- `epoll_wait`. `ticks` and `polls` count the calls made so far;
-- `file_opens` tells whether `fopen` succeeds.
pub record Os : Type 0 where
  pub clock : ℕ → Timespec
  pub ticks : ℕ
  pub events : ℕ → List Ptr
  pub polls : ℕ
  pub calls : List SysCall
  pub file_opens : Bool

-- A list by its two ends, as the ready queue, the wait queues and the run queues keep it.
pub record Ends : Type 0 where
  pub head : Ptr
  pub tail : Ptr

abbrev pub ends : Ptr → Ptr → Ends
ends h t = record { head = h; tail = t }

-- `scheduler_fn`: NULL, one of the two policies of the library, or a function of the program.
pub data SchedulerFn : Type 0 where
  no_policy round_robin_policy priority_policy : SchedulerFn
  user_policy : ℕ → SchedulerFn

-- `virtual_processor_t`: its local run queue, the lock of that queue, and the thread it runs.
pub record VirtualProcessor : Type 0 where
  pub vp_id : ℕ
  pub queue : Ends
  pub local_count : ℕ
  pub queue_lock : ℕ
  pub current : Ptr
  pub running : Bool

-- The globals of uthread.c. `ready` is `ready_head` and `ready_tail`,
-- `my_vp` is the entry of `vps` at `my_vp_id`; a spinlock is its word.
-- `rounds` is no global: it bounds the rounds that each loop of the model is given.
pub record World : Type 0 where
  pub tcb : Tcbs
  pub live : Ptr → Bool
  pub global_thread_list : Ptr
  pub global_list_lock : ℕ
  pub next_thread_id : ℕ
  pub current_thread : Ptr
  pub creation_counter : ℕ
  pub ready : Ends
  pub ready_count : ℕ
  pub ready_lock : ℕ
  pub current_scheduler : SchedulerFn
  pub epoll_fd : ℕ
  pub sleep_list_head : Ptr
  pub sleep_list_lock : ℕ
  pub mn_mode : Bool
  pub vps : ℕ → VirtualProcessor
  pub num_vps : ℕ
  pub my_vp_id : ℕ
  pub alarm_blocked : Bool
  pub trace : Trace
  pub os : Os
  pub rounds : ℕ

-- The result of a command: it returns, it is undefined, the process exits, it spins for ever on a
-- lock that is held, or the fuel of a loop is used up.
pub data Run {ℓ} (A : Type ℓ) : Type ℓ where
  ok : A → World → Run A
  fault : Run A
  exited : ℕ → World → Run A
  spins : Run A
  out_of_fuel : Run A

abbrev pub Cmd : Type 0 → Type 0
Cmd A = World → Run A

abbrev pub pure : {A : Type 0} → A → Cmd A
pure = ok

module _ {A B : Type 0} where
  abbrev pub and_then : Run A → (A → Cmd B) → Run B
  and_then (ok a w) k = k a w
  and_then fault k = fault
  and_then (exited c w) k = exited c w
  and_then spins k = spins
  and_then out_of_fuel k = out_of_fuel

  infixl 5 ◌>>=◌ ◌>>◌
  abbrev pub ◌>>=◌ : Cmd A → (A → Cmd B) → Cmd B
  m >>= k = λ w. and_then (m w) k

  abbrev pub ◌>>◌ : Cmd A → Cmd B → Cmd B
  m >> n = m >>= λ _. n

abbrev pub gets : {A : Type 0} → (World → A) → Cmd A
gets f w = ok (f w) w

abbrev pub modify : (World → World) → Cmd (Unit {0})
modify f w = ok tt (f w)

-- May the block at `p` be accessed?
unfoldable pub access : (Ptr → Bool) → Ptr → Bool
access live p = if p == null then false else live p

-- `p->field`
abbrev pub load : {A : Type 0} → (Tcbs → Ptr → A) → Ptr → Cmd A
load field p w = if access w.live p then ok (field w.tcb p) w else fault

-- `p->field = v`, where `write` is the assignment
abbrev pub store : Ptr → (Tcbs → Tcbs) → Cmd (Unit {0})
store p write w = if access w.live p then ok tt (record w { tcb = write w.tcb }) else fault

abbrev pub get_next : Ptr → Cmd Ptr
get_next = load (λ t. t.next)

abbrev pub set_next : Ptr → Ptr → Cmd (Unit {0})
set_next p q = store p (λ t. record t { next = update t.next p q })

-- The number of rounds that a loop is given.
abbrev pub with_rounds : {A : Type 0} → (ℕ → Cmd A) → Cmd A
with_rounds loop w = loop w.rounds w

abbrev pub get_state : Ptr → Cmd ThreadState
get_state = load (λ t. t.state)

abbrev pub set_state : Ptr → ThreadState → Cmd (Unit {0})
set_state p s = store p (λ t. record t { state = update t.state p s })

pub access-ne-null : (live : Ptr → Bool) (p : Ptr) → access live p ≡ true → (p == null) ≡ false
unfolding access
access-ne-null live p h = ground arith

-- A call of the operating system for its effect.
abbrev pub log_call : SysCall → Cmd (Unit {0})
log_call c = modify (λ w. record w { os = record w.os { calls = w.os.calls ++ c ∷ [] } })
