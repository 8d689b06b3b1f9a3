-- ===== src/Processors.antt =====
-- src/uthread.c: the virtual processors of M:N mode (`vp_enqueue`, `vp_dequeue`, `try_steal`,
-- `mn_yield`, `mn_exit`).
pub mod RunQueue
pub mod Splice
pub mod Steal
pub mod Steals
pub mod Theft
pub mod Visit
pub mod Yield
use user_thread_scheduler.Common.{
  ℕ, zero, suc, ◌+◌, ◌*◌, ◌/◌, ◌%◌, ◌^◌, Bool, true, false, ◌==◌, if◌then◌else◌, update, inc32,
  dec32, sle,
}
use user_thread_scheduler.Machine.{
  Ptr, null, ThreadState, ready, running, finished, in_mn_yield, trace_yield, trace_exit,
  trace_steal, Ends, ends, VirtualProcessor, Cmd, pure, ◌>>=◌, ◌>>◌, gets, modify, load, store,
  get_next, set_next, get_state, set_state,
}
use user_thread_scheduler.Machine.Queue.{push_back, pop_front}
use user_thread_scheduler.Signals.{spinlock_acquire}
use user_thread_scheduler.Trace.{get_time_ns, trace_emit}

abbrev pub set_at :
    ℕ → (VirtualProcessor → VirtualProcessor) → (ℕ → VirtualProcessor) → ℕ → VirtualProcessor
set_at i f vps = update vps i (f (vps i))

abbrev pub set_vp : ℕ → (VirtualProcessor → VirtualProcessor) → Cmd (Unit {0})
set_vp i f = modify (λ w. record w { vps = set_at i f w.vps })

abbrev pub locked : VirtualProcessor → VirtualProcessor
locked v = record v { queue_lock = 1 }

abbrev pub unlocked : VirtualProcessor → VirtualProcessor
unlocked v = record v { queue_lock = 0 }

-- The lock of the run queue of processor `i`.
abbrev pub acquire_vp : ℕ → Cmd (Unit {0})
unfolding spinlock_acquire
acquire_vp i =
    spinlock_acquire (λ w. (w.vps i).queue_lock) (λ w. record w { vps = set_at i locked w.vps })

abbrev pub release_vp : ℕ → Cmd (Unit {0})
release_vp i = set_vp i unlocked

unfoldable pub vp_enqueue : ℕ → Ptr → Cmd (Unit {0})
unfolding spinlock_acquire
vp_enqueue i p = do
  acquire_vp i
  set_next p null
  id ← gets (λ w. (w.vps i).vp_id)
  store p (λ t. record t { vp_id = update t.vp_id p id })
  q ← gets (λ w. (w.vps i).queue)
  q' ← push_back q p
  set_vp i (λ v. record v { queue = q' })
  set_vp i (λ v. record v { local_count = inc32 v.local_count })
  release_vp i

-- The part of `vp_dequeue` under the lock.
unfoldable pub vp_take : ℕ → Cmd Ptr
vp_take i = do
  q ← gets (λ w. (w.vps i).queue)
  if q.head == null then pure null else do
    q' ← pop_front q q.head
    set_vp i (λ v. record v { queue = q' })
    set_next q.head null
    set_vp i (λ v. record v { local_count = dec32 v.local_count })
    pure q.head

unfoldable pub vp_dequeue : ℕ → Cmd Ptr
unfolding spinlock_acquire vp_take
vp_dequeue i = do acquire_vp i; p ← vp_take i; release_vp i; pure p

-- The inner loop of `try_steal`: up to `n` threads leave the front of the victim's queue for the
-- list `stolen`; `thief_id` is written into each.
unfoldable pub steal_loop : ℕ → ℕ → ℕ → Ends → Cmd Ends
steal_loop victim thief_id zero stolen = pure stolen
steal_loop victim thief_id (suc n) stolen = do
  t ← gets (λ w. (w.vps victim).queue.head)
  if t == null then pure stolen else do
    next ← get_next t
    set_vp victim
        λ v. record v { queue = ends next v.queue.tail; local_count = dec32 v.local_count }
    set_next t null
    store t (λ b. record b { vp_id = update b.vp_id t thief_id })
    stolen' ← push_back stolen t
    steal_loop victim thief_id n stolen'

-- `if (!victim->local_head) victim->local_tail = NULL;`
abbrev pub clear_tail : Ends → Ends
clear_tail q = if q.head == null then ends q.head null else q

-- The theft from one victim: `steal_count` and the list that is stolen.
unfoldable pub rob_some : ℕ → ℕ → ℕ → Cmd (ℕ × Ends)
unfolding steal_loop
rob_some thief victim steal_count = do
  thief_id ← gets (λ w. (w.vps thief).vp_id)
  stolen ← steal_loop victim thief_id steal_count (ends null null)
  set_vp victim (λ v. record v { queue = clear_tail v.queue })
  release_vp victim
  pure (steal_count, stolen)

unfoldable pub rob : ℕ → ℕ → Cmd (ℕ × Ends)
unfolding spinlock_acquire rob_some
rob thief victim = do
  acquire_vp victim
  count ← gets (λ w. (w.vps victim).local_count)
  if sle count 1
      then release_vp victim >> pure (0, ends null null)
      else rob_some thief victim (count / 2)

-- The stolen list goes behind the thief's queue.
unfoldable pub splice : Ends → Ends → Cmd Ends
splice q stolen =
    if q.tail == null
    then pure stolen
    else do set_next q.tail stolen.head; pure (ends q.head stolen.tail)

unfoldable pub add_loot : ℕ → ℕ → Ends → Cmd (Unit {0})
unfolding spinlock_acquire
add_loot thief steal_count stolen = do
  acquire_vp thief
  q ← gets (λ w. (w.vps thief).queue)
  q' ← splice q stolen
  set_vp thief (λ v. record v { queue = q' })
  set_vp thief (λ v. record v { local_count = (v.local_count + steal_count) % 2 ^ 32 })
  release_vp thief

unfoldable pub keep_loot : ℕ → ℕ → Ends → Cmd Ptr
keep_loot thief steal_count stolen = do
  add_loot thief steal_count stolen
  tid ← load (λ t. t.thread_id) stolen.head
  id ← gets (λ w. (w.vps thief).vp_id)
  trace_emit tid trace_steal id
  vp_dequeue thief

-- The loop over the victims: `n` are left, `i` have been tried.
unfoldable pub victim_loop : ℕ → ℕ → ℕ → ℕ → ℕ → Cmd Ptr
unfolding rob keep_loot
victim_loop thief start num zero i = pure null
victim_loop thief start num (suc n) i = do
  id ← gets (λ w. (w.vps thief).vp_id)
  let vid = (start + i) % num
  if vid == id then victim_loop thief start num n (i + 1) else do
    (steal_count, stolen) ← rob thief vid
    if stolen.head == null
        then victim_loop thief start num n (i + 1)
        else keep_loot thief steal_count stolen

unfoldable pub try_steal : ℕ → Cmd Ptr
unfolding victim_loop get_time_ns
try_steal thief = do
  num ← gets (λ w. w.num_vps)
  if sle num 1 then pure null else do
    id ← gets (λ w. (w.vps thief).vp_id)
    now ← get_time_ns
    let seed = (id * 31 + now) % 2 ^ 32
    victim_loop thief (seed % num) num num 0

abbrev pub is_running : ThreadState → Bool
is_running running = true
is_running _ = false

unfoldable pub yield_running : Ptr → ℕ → Cmd (Unit {0})
unfolding vp_enqueue
yield_running prev me = do
  set_state prev ready
  tid ← load (λ t. t.thread_id) prev
  id ← gets (λ w. (w.vps me).vp_id)
  trace_emit tid trace_yield id
  vp_enqueue me prev

-- Up to `swapcontext` to the scheduler of the processor.
unfoldable pub mn_yield : Cmd (Unit {0})
unfolding yield_running
mn_yield = do
  prev ← gets (λ w. w.current_thread)
  me ← gets (λ w. w.my_vp_id)
  s ← get_state prev
  if is_running s then yield_running prev me else pure tt
  store prev (λ t. record t { context = update t.context prev in_mn_yield })

-- Up to `setcontext`.
unfoldable pub mn_exit : Cmd (Unit {0})
mn_exit = do
  prev ← gets (λ w. w.current_thread)
  set_state prev finished
  tid ← load (λ t. t.thread_id) prev
  me ← gets (λ w. w.my_vp_id)
  trace_emit tid trace_exit me
