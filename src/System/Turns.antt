-- ===== src/System/Turns.antt =====
-- src/uthread.c: requeueing, choosing and switching keep the state well formed.
use user_thread_scheduler.Common.{
  ℕ, ◌≡◌, refl, ap, ◌∙◌, inl, inr, true, false, List, [], ◌∷◌, ◌++◌, arith, has, has-append, ◌==◌,
  ==_iff, Bool-cases, eq_self,
}
use user_thread_scheduler.Machine.{Ptr, null, ready, io_blocked, Context, World, ok, Cmd}
use user_thread_scheduler.Machine.Apart.{Chain-linked}
use user_thread_scheduler.Machine.Chain.{Chain-update}
use user_thread_scheduler.Policy.{schedule_next}
use user_thread_scheduler.ReadyQueue.{
  dequeued, enqueue-IsReadyQueue, dequeue-cons, dequeue-IsReadyQueue,
}
use user_thread_scheduler.Switch.Turn.{IsTurnOf, requeued, started, schedule_next-default}
use user_thread_scheduler.System.{IsResting, IsSystem, IsChosen}

pub IsSystem-IsTurnOf :
    {w : World} {p : Ptr} {xs ss gs : List Ptr} → IsSystem w p xs ss gs → IsTurnOf w p xs
IsSystem-IsTurnOf v = record {
  current = v.current;
  alive = v.alive;
  state = v.running_state;
  queue = v.rest.lists.ready;
  apart = v.unready;
  policy = v.rest.policy;
}

-- The thread that yields is behind the ready ones.
module _ {w : World} {p : Ptr} {xs ss gs : List Ptr} (v : IsSystem w p xs ss gs) where
  requeued_apart : (a : Ptr) → has a ss ≡ true → has a (xs ++ p ∷ []) ≡ false
  requeued_apart a h =
      let other : (p == a) ≡ false = ground (arith, v.awake, h, ==_iff p a) in
      ground (arith, v.rest.lists.apart a h, other, has-append a xs (p ∷ []))

  requeued_ready : (a : Ptr) → has a (xs ++ p ∷ []) ≡ true → (requeued w p).tcb.state a ≡ ready
  requeued_ready a h = elim (Bool-cases (p == a)) [
    | inl same ↦ rw same refl
    | inr other ↦
        rw other (v.rest.ready_states a (ground (arith, h, other, has-append a xs (p ∷ []))))
  ]

  requeued_asleep : (a : Ptr) → has a ss ≡ true → (requeued w p).tcb.state a ≡ io_blocked
  requeued_asleep a h =
      let other : (p == a) ≡ false = ground (arith, v.awake, h, ==_iff p a) in
      rw other (v.rest.sleep_states a h)

  pub requeued-IsResting : IsResting (requeued w p) (xs ++ p ∷ []) ss gs
  requeued-IsResting = record {
    lists = record {
      ready =
          enqueue-IsReadyQueue p
            (record { queue = v.rest.lists.ready.queue; count = v.rest.lists.ready.count }) v.alive
            v.unready;
      chain =
          Chain-linked _ w.sleep_list_head p ss v.rest.lists.ready.queue
            (Chain-update w.live w.tcb.next p null w.sleep_list_head ss v.rest.lists.chain v.awake)
            v.rest.lists.apart;
      distinct = v.rest.lists.distinct;
      apart = requeued_apart;
    };
    ready_states = requeued_ready;
    sleep_states = requeued_asleep;
    global = record { links = v.rest.global.links; distinct = v.rest.global.distinct };
    few = v.rest.few;
    few_asleep = v.rest.few_asleep;
    free_lock = v.rest.free_lock;
    policy = v.rest.policy;
    single = v.rest.single;
    epoll = v.rest.epoll;
  }

-- The default policy takes the first ready thread.
module _ {w : World} {z : Ptr} {zs ss gs : List Ptr} (v : IsResting w (z ∷ zs) ss gs) where
  pub schedule_next-first : (user : ℕ → Cmd Ptr) → schedule_next user w ≡ ok z (dequeued w)
  schedule_next-first user =
      schedule_next-default user w v.policy
      ∙ dequeue-cons v.lists.ready
      ∙ ap (λ h. ok h (dequeued w)) v.lists.ready.queue.chain.0

  z_awake : has z ss ≡ false
  z_awake = elim (Bool-cases (has z ss)) [
    | inl bad ↦ absurd (ground (arith, v.lists.apart z bad))
    | inr good ↦ good
  ]

  pub dequeued-IsChosen : IsChosen (dequeued w) z zs ss gs
  dequeued-IsChosen = record {
    alive = v.lists.ready.queue.chain.1;
    unready = v.lists.ready.queue.distinct.0;
    awake = z_awake;
    rest = record {
      lists = record {
        ready = dequeue-IsReadyQueue v.lists.ready;
        chain =
            Chain-update w.live w.tcb.next w.ready.head null w.sleep_list_head ss v.lists.chain
              (ap (λ h. has h ss) v.lists.ready.queue.chain.0 ∙ z_awake);
        distinct = v.lists.distinct;
        apart = λ a h. ground (arith, v.lists.apart a h);
      };
      ready_states = λ a h. v.ready_states a (ground (arith, h));
      sleep_states = v.sleep_states;
      global = record { links = v.global.links; distinct = v.global.distinct };
      few = v.few;
      few_asleep = v.few_asleep;
      free_lock = v.free_lock;
      policy = v.policy;
      single = v.single;
      epoll = v.epoll;
    };
  }

-- The chosen thread runs.
pub started-IsSystem :
    {w : World} (p : Ptr) (at : Context) {z : Ptr} {zs ss gs : List Ptr}
    → IsChosen w z zs ss gs
    → IsSystem (started w p at z) z zs ss gs
started-IsSystem {w} p at {z} {zs} {ss} v = record {
  current = refl;
  alive = v.alive;
  running_state = rw (eq_self z);
  unready = v.unready;
  awake = v.awake;
  rest = record {
    lists = record {
      ready = record { queue = v.rest.lists.ready.queue; count = v.rest.lists.ready.count };
      chain = v.rest.lists.chain;
      distinct = v.rest.lists.distinct;
      apart = v.rest.lists.apart;
    };
    ready_states = λ a h.
        let other : (z == a) ≡ false = ground (arith, v.unready, h, ==_iff z a) in
        rw other (v.rest.ready_states a h);
    sleep_states = λ a h.
        let other : (z == a) ≡ false = ground (arith, v.awake, h, ==_iff z a) in
        rw other (v.rest.sleep_states a h);
    global = record { links = v.rest.global.links; distinct = v.rest.global.distinct };
    few = v.rest.few;
    few_asleep = v.rest.few_asleep;
    free_lock = v.rest.free_lock;
    policy = v.rest.policy;
    single = v.rest.single;
    epoll = v.rest.epoll;
  };
}
