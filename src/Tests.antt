-- ===== src/Tests.antt =====
-- Small concrete worlds of the state of src/uthread.c, and the theorems at them.
mod Queues
mod Sleepers
mod Threads
mod Thefts
mod Yields
mod Objects
mod Channels
mod Events
mod Creations
mod Locks
mod Counting
mod Systems
mod Lives
mod Acquiring
use user_thread_scheduler.Common.{
  ◌%◌, ◌^◌, refl, true, false, [], ◌∷◌, arith, ltb, ◌==◌, if◌then◌else◌, minus_one,
}
use user_thread_scheduler.Machine.{
  ready, running, unset, Tcbs, Timespec, ends, no_policy, World, access,
}
use user_thread_scheduler.ReadyQueue.{IsReadyQueue}
use user_thread_scheduler.Sleep.{IsSleeping}
use user_thread_scheduler.Spinlock.{calls}
use user_thread_scheduler.Trace.{no_event}

abbrev pub no_spec : Timespec
no_spec = record { tv_sec = 0; tv_nsec = 0 }

-- Blocks 1 to 9 are allocated; thread ids, priorities and orders are read off the address.
abbrev pub blocks : Tcbs
blocks = record {
  thread_id = λ p. p;
  state = λ _. ready;
  stack = λ _. 0;
  stack_alloc = λ _. 0;
  fn = λ _. 0;
  arg = λ _. 0;
  priority = λ p. if p == 3 then minus_one else 5;
  creation_order = λ p. p % 2 ^ 32;
  next = λ _. 0;
  global_next = λ _. 0;
  global_prev = λ _. 0;
  io_fd = λ _. minus_one;
  io_events = λ _. 0;
  io_result = λ _. 0;
  sleep_until_ns = λ _. 0;
  vp_id = λ _. 0;
  context = λ _. unset;
}

abbrev pub world : World
world = record {
  tcb = blocks;
  live = λ p. ltb p 10;
  global_thread_list = 0;
  global_list_lock = 0;
  next_thread_id = 1;
  current_thread = 0;
  creation_counter = 1;
  ready = ends 0 0;
  ready_count = 0;
  ready_lock = 0;
  current_scheduler = no_policy;
  epoll_fd = 3;
  sleep_list_head = 0;
  sleep_list_lock = 0;
  mn_mode = false;
  vps = λ i. record {
    vp_id = i % 2 ^ 32;
    queue = ends 0 0;
    local_count = 0;
    queue_lock = 0;
    current = 0;
    running = true;
  };
  num_vps = 2;
  my_vp_id = 0;
  alarm_blocked = false;
  trace = record { allocated = false; buffer = λ _. no_event; count = 0; enabled = false };
  os = record {
    clock = λ k. record { tv_sec = 1; tv_nsec = k };
    ticks = 0;
    events = λ _. [];
    polls = 0;
    calls = [];
    file_opens = true;
  };
  rounds = 10;
}

-- The ready queue holds 2, 3 and 4.
abbrev pub three_ready : World
three_ready = record world {
  tcb = record blocks { next = λ p. if p == 2 then 3 else if p == 3 then 4 else 0 };
  ready = ends 2 4;
  ready_count = 3;
}

pub three_ready-IsReadyQueue : IsReadyQueue three_ready (2 ∷ 3 ∷ 4 ∷ [])
unfolding access
three_ready-IsReadyQueue = record {
  queue = record {
    chain = (refl, refl, (refl, refl, (refl, refl, refl)));
    tail = refl;
    distinct = (refl, (refl, (refl, tt)));
  };
  count = refl;
}

-- With it, 6 and 7 sleep: 7 until 20 ns, 6 until 3 seconds.
abbrev pub two_asleep : World
two_asleep = record three_ready {
  tcb = record blocks {
    next = λ p. if p == 2 then 3 else if p == 3 then 4 else if p == 7 then 6 else 0;
    sleep_until_ns = λ p. if p == 7 then 20 else 3000000000;
  };
  sleep_list_head = 7;
}

pub two_asleep-IsSleeping : IsSleeping two_asleep (2 ∷ 3 ∷ 4 ∷ []) (7 ∷ 6 ∷ [])
unfolding access
two_asleep-IsSleeping = record {
  ready = record {
    queue = record {
      chain = (refl, refl, (refl, refl, (refl, refl, refl)));
      tail = refl;
      distinct = (refl, (refl, (refl, tt)));
    };
    count = refl;
  };
  chain = (refl, refl, (refl, refl, refl));
  distinct = (refl, (refl, tt));
  apart = λ a h. ground arith;
}
