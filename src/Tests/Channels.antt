-- ===== src/Tests/Channels.antt =====
-- The theorem on the ring buffer, at a channel of three places whose messages wrap round.
use user_thread_scheduler.Channel.{Channel}
use user_thread_scheduler.Channel.Bounded.{
  Access, sends, receives, QueueRun, no_access, sent, received, Delivered, run_ring-Delivered,
}
use user_thread_scheduler.Channel.Ring.{IsRing}
use user_thread_scheduler.Common.{refl, List, [], ◌∷◌, arith, ◌==◌, if◌then◌else◌}
use user_thread_scheduler.Machine.{ends}
use user_thread_scheduler.Sync.{new_mutex}
use user_thread_scheduler.Tests.{world}

abbrev two_sent : Channel
two_sent = record {
  buffer = λ i. if i == 2 then 70 else if i == 0 then 71 else 0;
  head = 2;
  tail = 1;
  capacity = 3;
  space_available = record { count = 1; wait = ends 0 0 };
  messages_available = record { count = 2; wait = ends 0 0 };
  mutex = new_mutex;
}

two_sent-IsRing : IsRing two_sent (70 ∷ 71 ∷ [])
two_sent-IsRing = record {
  some_room = omega arith;
  bounded = omega arith;
  head = omega arith;
  tail = refl;
  fits = omega arith;
  holds = (refl, (refl, tt));
}

-- Send 72, receive 70, send 73, receive 71 and 72.
abbrev accesses : List Access
accesses = sends 72 ∷ receives ∷ sends 73 ∷ receives ∷ receives ∷ []

accesses-QueueRun : QueueRun 3 accesses (70 ∷ 71 ∷ []) (70 ∷ 71 ∷ 72 ∷ []) (73 ∷ [])
accesses-QueueRun =
    sent (omega arith) (received (sent (omega arith) (received (received no_access))))

run_ring-Delivered_example : Delivered world two_sent accesses (70 ∷ 71 ∷ 72 ∷ []) (73 ∷ [])
run_ring-Delivered_example =
    run_ring-Delivered world two_sent two_sent-IsRing refl accesses-QueueRun
