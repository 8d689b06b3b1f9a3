-- ===== src/Channel/Bounded.antt =====
-- src/uthread.c: the accesses of a channel to its ring buffer, in any order, refine a bounded queue.
use user_thread_scheduler.Channel.{Channel, put, take_out}
use user_thread_scheduler.Channel.Ring.{
  IsRing, filled, drained, put-ok, filled-IsRing, take_out-ok, drained-IsRing,
}
use user_thread_scheduler.Common.{ℕ, ◌<◌, ◌≡◌, refl, ap, List, [], ◌∷◌, ◌++◌, arith, length}
use user_thread_scheduler.Machine.{Ptr, World, ok, Cmd, pure, ◌>>=◌}

-- The accesses that `uthread_channel_send` and `uthread_channel_recv` make under the mutex.
pub data Access : Type 0 where
  sends : Ptr → Access
  receives : Access

-- The code: the messages received, and the channel.
unfoldable pub run_ring : List Access → Channel → Cmd (List Ptr × Channel)
unfolding put take_out
run_ring [] ch = pure ([], ch)
run_ring (sends m ∷ ops) ch = do ch' ← put m ch; run_ring ops ch'
run_ring (receives ∷ ops) ch = do
  (m, ch') ← take_out ch
  (got, ch'') ← run_ring ops ch'
  pure (m ∷ got, ch'')

-- What a queue of `c` places promises: from the messages `ms` the accesses receive `got` and leave
-- `left`. The semaphores admit a send only where there is room, and a receive only where there is a
-- message.
pub data QueueRun (c : ℕ) : (ops : List Access) (ms got left : List Ptr) → Type 0 where
  no_access : {ms : List Ptr} → QueueRun c [] ms [] ms
  sent :
      {m : Ptr} {ops : List Access} {ms got left : List Ptr}
      → length ms < c
      → QueueRun c ops (ms ++ m ∷ []) got left
      → QueueRun c (sends m ∷ ops) ms got left
  received :
      {m : Ptr} {ops : List Access} {ms got left : List Ptr}
      → QueueRun c ops ms got left
      → QueueRun c (receives ∷ ops) (m ∷ ms) (m ∷ got) left

pub record Delivered (w : World) (ch : Channel) (ops : List Access) (got left : List Ptr)
    : Type 0 where
  pub end : Channel
  pub returns : run_ring ops ch w ≡ ok (got, end) w
  pub holds : IsRing end left
  pub capacity : end.capacity ≡ ch.capacity

-- From a well-formed ring of at most 64 places, in any order of sends and receives that a queue
-- of as many places admits, the code receives what the queue receives, every access is inside the
-- buffer, and the ring holds at the end what the queue holds.
pub run_ring-Delivered :
    {c : ℕ} {ops : List Access} {ms got left : List Ptr} (w : World) (ch : Channel)
    → IsRing ch ms
    → ch.capacity ≡ c
    → QueueRun c ops ms got left
    → Delivered w ch ops got left
unfolding run_ring
run_ring-Delivered w ch v e no_access = record {
  end = ch;
  returns = refl;
  holds = v;
  capacity = refl;
}
run_ring-Delivered w ch v e (sent {m} room r) =
    let d = run_ring-Delivered w (filled v m) (filled-IsRing v m (omega (arith, room, e))) e r in
    record {
      end = d.end;
      returns = rw (put-ok v m w, d.returns);
      holds = d.holds;
      capacity = d.capacity;
    }
run_ring-Delivered w ch v e (received {m} {got} r) =
    let d = run_ring-Delivered w (drained v) (drained-IsRing v) e r in
    record {
      end = d.end;
      returns = rw (take_out-ok v w, d.returns) (ap (λ a. ok (a ∷ got, d.end) w) v.holds.0);
      holds = d.holds;
      capacity = d.capacity;
    }
