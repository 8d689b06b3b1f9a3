-- ===== src/Tests/Systems.antt =====
-- The theorem on the whole of `uthread_yield`: thread 5 runs, 2, 3 and 4 are ready, 7 and 6 sleep,
-- 8 is finished, and 9 waits for an event that is reported.
use user_thread_scheduler.Common.{
  ◌*◌, ◌≡◌, refl, inl, inr, true, [], ◌∷◌, arith, leb, ◌==◌, if◌then◌else◌,
}
use user_thread_scheduler.Machine.{null, ready, running, io_blocked, finished, World, pure, access}
use user_thread_scheduler.Switch.{idle_loop}
use user_thread_scheduler.System.{IsResting, IsSystem}
use user_thread_scheduler.System.Idle.{idle_loop-Found}
use user_thread_scheduler.System.Slept.{Slept, uthread_sleep-Slept}
use user_thread_scheduler.System.Waiting.{IsAwaited, view, Found}
use user_thread_scheduler.System.Whole.{YieldedTo, uthread_yield-YieldedTo}
use user_thread_scheduler.Tests.{world, two_asleep, two_asleep-IsSleeping}

abbrev pub system : World
system = record two_asleep {
  tcb = record two_asleep.tcb {
    state = λ p.
        if p == 5
        then running
        else if p == 6
        then io_blocked
        else if p == 7
        then io_blocked
        else if p == 9
        then io_blocked
        else if p == 8
        then finished
        else ready;
    global_next = λ p. if p == 2 then 8 else if p == 8 then 5 else 0;
    global_prev = λ p. if p == 8 then 2 else if p == 5 then 8 else 0;
    stack = λ p. p * 100000;
    stack_alloc = λ _. 69632;
  };
  global_thread_list = 2;
  current_thread = 5;
  os = record world.os { events = λ k. 9 ∷ 0 ∷ [] };
}

system-IsResting : IsResting system (2 ∷ 3 ∷ 4 ∷ []) (7 ∷ 6 ∷ []) (2 ∷ 8 ∷ 5 ∷ [])
unfolding access
system-IsResting = record {
  lists = record {
    ready = record {
      queue = two_asleep-IsSleeping.ready.queue;
      count = two_asleep-IsSleeping.ready.count;
    };
    chain = two_asleep-IsSleeping.chain;
    distinct = two_asleep-IsSleeping.distinct;
    apart = two_asleep-IsSleeping.apart;
  };
  ready_states = λ a h. ground arith;
  sleep_states = λ a h. ground arith;
  global = record {
    links = (refl, refl, refl, (refl, refl, refl, (refl, refl, refl, refl)));
    distinct = (refl, (refl, (refl, tt)));
  };
  few = omega arith;
  few_asleep = omega arith;
  free_lock = refl;
  policy = refl;
  single = refl;
  epoll = refl;
}

pub system-IsSystem : IsSystem system 5 (2 ∷ 3 ∷ 4 ∷ []) (7 ∷ 6 ∷ []) (2 ∷ 8 ∷ 5 ∷ [])
unfolding access
system-IsSystem = record {
  current = refl;
  alive = refl;
  running_state = refl;
  unready = refl;
  awake = refl;
  rest = system-IsResting;
}

uthread_yield-YieldedTo_example :
    YieldedTo (λ _. pure null) system 5 (2 ∷ 3 ∷ 4 ∷ []) (7 ∷ 6 ∷ []) (2 ∷ 8 ∷ 5 ∷ [])
unfolding access
uthread_yield-YieldedTo_example =
    uthread_yield-YieldedTo (λ _. pure null) system-IsSystem
      (inr (refl, refl, refl), (inl refl, tt))

-- Thread 5 is alone and sleeps 2.5 seconds; the clock shows 0, 1, 2 and then 3 seconds.
abbrev pub alone : World
alone = record world {
  tcb = record world.tcb { state = λ _. running };
  global_thread_list = 5;
  current_thread = 5;
  os = record world.os { clock = λ k. record { tv_sec = if leb 3 k then 3 else k; tv_nsec = 0 } };
}

pub alone-IsSystem : IsSystem alone 5 [] [] (5 ∷ [])
unfolding access
alone-IsSystem = record {
  current = refl;
  alive = refl;
  running_state = refl;
  unready = refl;
  awake = refl;
  rest = record {
    lists = record {
      ready = record { queue = record { chain = refl; tail = refl; distinct = tt }; count = refl };
      chain = refl;
      distinct = tt;
      apart = λ a h. refl;
    };
    ready_states = λ a h. absurd cc;
    sleep_states = λ a h. absurd cc;
    global = record { links = (refl, refl, refl, refl); distinct = (refl, tt) };
    few = omega arith;
    few_asleep = omega arith;
    free_lock = refl;
    policy = refl;
    single = refl;
    epoll = refl;
  };
}

uthread_sleep-Slept_example : Slept (λ _. pure null) 2500 alone 5 [] [] (5 ∷ [])
uthread_sleep-Slept_example =
    uthread_sleep-Slept (λ _. pure null) 2500 alone-IsSystem (omega arith) refl (λ j. tt) 3
      (λ t h. let late : leb 3 t ≡ true = ground arith in rw late refl) (omega arith)

-- Thread 5 sleeps until 2.5 seconds, and no other thread exists.
abbrev dozing : World
dozing = record alone {
  tcb = record alone.tcb { state = λ _. io_blocked; sleep_until_ns = λ _. 2500000000 };
  sleep_list_head = 5;
}

dozing-IsResting : IsResting dozing [] (5 ∷ []) (5 ∷ [])
unfolding access
dozing-IsResting = record {
  lists = record {
    ready = record { queue = record { chain = refl; tail = refl; distinct = tt }; count = refl };
    chain = (refl, refl, refl);
    distinct = (refl, tt);
    apart = λ a h. refl;
  };
  ready_states = λ a h. absurd cc;
  sleep_states = λ a h. refl;
  global = record { links = (refl, refl, refl, refl); distinct = (refl, tt) };
  few = omega arith;
  few_asleep = omega arith;
  free_lock = refl;
  policy = refl;
  single = refl;
  epoll = refl;
}

dozing-IsAwaited : IsAwaited dozing [] (5 ∷ []) (5 ∷ []) 3
dozing-IsAwaited = record {
  fair = λ j. tt;
  wakes = λ e. (
    5,
    record {
      sleeps = refl;
      listed = refl;
      comes = λ t h. let late : leb 3 t ≡ true = ground arith in rw late refl;
    },
  );
}

idle_loop-Found_example :
    Found
      (idle_loop (λ _. pure null) 4 dozing)
      (view dozing)
      dozing.live
      dozing.os
      []
      (5 ∷ [])
      (5 ∷ [])
idle_loop-Found_example =
    idle_loop-Found (λ _. pure null) 4 dozing dozing-IsResting dozing-IsAwaited (omega arith)
      (omega arith)
