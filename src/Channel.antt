-- ===== src/Channel.antt =====
-- src/uthread.c: channels (`uthread_channel_init`, `uthread_channel_send`, `uthread_channel_recv`),
-- a ring buffer between two semaphores. A call may be suspended in its semaphore wait and in its
-- mutex lock, so it is modelled by its three stages.
pub mod Ring
pub mod Bounded
use user_thread_scheduler.Common.{
  ℕ, ◌-◌, ◌%◌, ◌^◌, Bool, not, ◌&&◌, ltb, ◌==◌, if◌then◌else◌, update, inc32, slt,
}
use user_thread_scheduler.Machine.{Ptr, fault, Cmd, pure, ◌>>=◌}
use user_thread_scheduler.Switch.{Outcome}
use user_thread_scheduler.Sync.{
  Mutex, Semaphore, uthread_mutex_init, uthread_mutex_lock, uthread_mutex_unlock, uthread_sem_init,
  uthread_sem_wait, uthread_sem_post,
}

-- `uthread_channel_t`
pub record Channel : Type 0 where
  pub buffer : ℕ → Ptr
  pub head : ℕ
  pub tail : ℕ
  pub capacity : ℕ
  pub space_available : Semaphore
  pub messages_available : Semaphore
  pub mutex : Mutex

abbrev pub channel_max_capacity : ℕ
channel_max_capacity = 64

-- The buffer of a new channel is what its memory holds.
unfoldable pub uthread_channel_init : (ℕ → Ptr) → ℕ → Cmd Channel
unfolding uthread_sem_init uthread_mutex_init
uthread_channel_init memory capacity = do
  let c = if slt channel_max_capacity capacity then channel_max_capacity else capacity
  space ← uthread_sem_init c
  messages ← uthread_sem_init 0
  m ← uthread_mutex_init
  pure record {
    buffer = memory;
    head = 0;
    tail = 0;
    capacity = c;
    space_available = space;
    messages_available = messages;
    mutex = m;
  }

-- The magnitude of a signed word: `i % c` for `i ≥ 0` is the remainder by it.
abbrev pub magnitude : ℕ → ℕ
magnitude c = if slt c 0 then 2 ^ 32 - c else c

-- `(i + 1) % capacity`
abbrev pub advance : ℕ → ℕ → ℕ
advance i c = inc32 i % magnitude c

-- The accesses of the ring. A remainder by 0 and an index out of the buffer are undefined.
abbrev pub ring_access : ℕ → ℕ → Bool
ring_access i c = ltb i channel_max_capacity && not (c == 0)

unfoldable pub put : Ptr → Channel → Cmd Channel
put msg ch =
    if ring_access ch.tail ch.capacity
    then pure
        (record ch { buffer = update ch.buffer ch.tail msg; tail = advance ch.tail ch.capacity })
    else λ _. fault

unfoldable pub take_out : Channel → Cmd (Ptr × Channel)
take_out ch =
    if ring_access ch.head ch.capacity
    then pure (ch.buffer ch.head, record ch { head = advance ch.head ch.capacity })
    else λ _. fault

unfoldable pub send_wait : (ℕ → Cmd Ptr) → Channel → Cmd (Channel × Outcome)
unfolding uthread_sem_wait
send_wait user ch = do
  (s, o) ← uthread_sem_wait user ch.space_available
  pure (record ch { space_available = s }, o)

-- The second stage of both operations.
unfoldable pub channel_lock : (ℕ → Cmd Ptr) → Channel → Cmd (Channel × Outcome)
unfolding uthread_mutex_lock
channel_lock user ch = do
  (m, o) ← uthread_mutex_lock user ch.mutex
  pure (record ch { mutex = m }, o)

unfoldable pub send_message : Ptr → Channel → Cmd Channel
unfolding put uthread_mutex_unlock uthread_sem_post
send_message msg ch = do
  ch' ← put msg ch
  m ← uthread_mutex_unlock ch'.mutex
  s ← uthread_sem_post ch'.messages_available
  pure (record ch' { mutex = m; messages_available = s })

unfoldable pub recv_wait : (ℕ → Cmd Ptr) → Channel → Cmd (Channel × Outcome)
unfolding uthread_sem_wait
recv_wait user ch = do
  (s, o) ← uthread_sem_wait user ch.messages_available
  pure (record ch { messages_available = s }, o)

unfoldable pub recv_message : Channel → Cmd (Ptr × Channel)
unfolding take_out uthread_mutex_unlock uthread_sem_post
recv_message ch = do
  (msg, ch') ← take_out ch
  m ← uthread_mutex_unlock ch'.mutex
  s ← uthread_sem_post ch'.space_available
  pure (msg, record ch' { mutex = m; space_available = s })
