-- ===== src/Start/Crew.antt =====
-- src/uthread.c: the virtual processors that `uthread_init_mn` sets up and `uthread_mn_run` stops.
use user_thread_scheduler.Common.{
  ℕ, ◌^◌, ◌≤◌, ◌<◌, ◌≡◌, refl, true, false, [], ◌∷◌, ◌++◌, arith, ltb,
}
use user_thread_scheduler.GlobalList.Links.{IsGlobalList}
use user_thread_scheduler.Machine.{on_overflow, sigaction, setitimer, World, ok}
use user_thread_scheduler.ReadyQueue.{IsReadyQueue}
use user_thread_scheduler.Start.{
  reset, max_virtual_procs, clamp, new_vp, fresh_vps, uthread_init_mn,
}

pub clamp-bounds : (n : ℕ) → n < 2 ^ 32 → (1 ≤ clamp n) × (clamp n ≤ max_virtual_procs)
unfolding clamp
clamp-bounds n h = ground arith

pub clamp-same : (n : ℕ) → 1 ≤ n → n ≤ max_virtual_procs → clamp n ≡ n
unfolding clamp
clamp-same n h k = ground arith

-- What `uthread_init_mn` comes to.
pub record MnReady (w : World) (num fd : ℕ) : Type 0 where
  pub end : World
  pub returns : uthread_init_mn num fd w ≡ ok tt end
  pub least : 1 ≤ end.num_vps
  pub most : end.num_vps ≤ max_virtual_procs
  pub asked : 1 ≤ num → num ≤ max_virtual_procs → end.num_vps ≡ num
  pub crew : (i : ℕ) → i < end.num_vps → end.vps i ≡ new_vp i
  pub beyond : (i : ℕ) → end.num_vps ≤ i → end.vps i ≡ w.vps i
  pub lists : (IsReadyQueue end []) × (IsGlobalList end [])
  pub mode : (end.mn_mode ≡ true) × (end.epoll_fd ≡ fd) × (end.next_thread_id ≡ 0)
  pub installs : end.os.calls ≡ w.os.calls ++ sigaction on_overflow ∷ [] ++ setitimer 0 ∷ []

-- For any `int` asked for, `uthread_init_mn` returns in M:N mode with 1 to 64 processors, as many as
-- asked for where that is possible; these have their numbers, empty run queues, free locks and no
-- thread, and run; the other entries of the array are untouched. The ready queue and the global
-- list are empty, thread ids start at 0, the overflow handler is installed and the timer is off.
pub uthread_init_mn-MnReady : (w : World) (num fd : ℕ) → num < 2 ^ 32 → MnReady w num fd
unfolding uthread_init_mn
uthread_init_mn-MnReady w num fd word = record {
  end = end;
  returns = refl;
  least = (clamp-bounds num word).0;
  most = (clamp-bounds num word).1;
  asked = clamp-same num;
  crew = λ i h. let inside : ltb i (clamp num) ≡ true = ground arith in rw inside refl;
  beyond = λ i h. let outside : ltb i (clamp num) ≡ false = ground arith in rw outside refl;
  lists = (
    record { queue = record { chain = refl; tail = refl; distinct = tt }; count = refl },
    record { links = refl; distinct = tt },
  );
  mode = (refl, refl, refl);
  installs = refl;
}
  where
    end : World
    end = record (reset 0 true w) {
      num_vps = clamp num;
      epoll_fd = fd;
      vps = fresh_vps (clamp num) w.vps;
      os = record w.os { calls = w.os.calls ++ sigaction on_overflow ∷ [] ++ setitimer 0 ∷ [] };
    }
