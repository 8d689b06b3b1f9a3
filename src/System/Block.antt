-- ===== src/System/Block.antt =====
-- src/uthread.c: a block from `calloc` is in no list, and the state with it is well formed.
use mathlib.Core.Path.{subst}
use user_thread_scheduler.Common.{
  ◌≡◌, refl, inl, inr, Bool, true, false, List, [], ◌∷◌, arith, has, ◌==◌, ==_iff, Bool-cases,
  update, eq_self,
}
use user_thread_scheduler.Create.{cleared}
use user_thread_scheduler.Create.Publish.{IsNew}
use user_thread_scheduler.GlobalList.Links.{Links, Links-next, Links-prev, Links-Chain}
use user_thread_scheduler.Machine.{Ptr, null, World, access}
use user_thread_scheduler.Machine.Chain.{Chain, Chain-update}
use user_thread_scheduler.Processors.{unlocked}
use user_thread_scheduler.System.{IsSystem}
use user_thread_scheduler.System.Frames.{Chain-live}

fresh_other :
    (live : Ptr → Bool) (b a : Ptr) → access live a ≡ true → live b ≡ false → (b == a) ≡ false
unfolding access
fresh_other live b a l h = elim (Bool-cases (b == a)) [
  | inl same ↦
      let dead : live a ≡ false = subst (λ z. live z ≡ false) ((==_iff b a).0 same) h in
      absurd (ground (arith, l, dead))
  | inr other ↦ other
]

has-Chain :
    (live : Ptr → Bool) (next : Ptr → Ptr) (b p : Ptr) (xs : List Ptr)
    → Chain live next p xs
    → live b ≡ false
    → has b xs ≡ false
has-Chain live next b p [] c h = refl
has-Chain live next b p (x ∷ xs) (e, l, c) h =
    ground (arith, fresh_other live b x l h, ==_iff b x, has-Chain live next b (next x) xs c h)

-- The world with a new block.
abbrev pub with_block : World → Ptr → World
with_block w b = record w { live = update w.live b true; tcb = cleared b w.tcb }

live_updated :
    (live : Ptr → Bool) (b a : Ptr) → access live a ≡ true → access (update live b true) a ≡ true
unfolding access
live_updated live b a l = ground (arith, l)

Links-live :
    (live live' : Ptr → Bool) (next prev : Ptr → Ptr) (b p : Ptr) (xs : List Ptr)
    → Links live next prev b p xs
    → ((a : Ptr) → access live a ≡ true → access live' a ≡ true)
    → Links live' next prev b p xs
Links-live live live' next prev b p [] c more = c
Links-live live live' next prev b p (x ∷ xs) (e, l, f, c) more =
    (e, more x l, f, Links-live live live' next prev x (next x) xs c more)

module _ {w : World} {p : Ptr} {xs ss gs : List Ptr} (v : IsSystem w p xs ss gs) (b : Ptr)
    (fresh : w.live b ≡ false) where
  pub b_unready : has b xs ≡ false
  b_unready = has-Chain w.live w.tcb.next b w.ready.head xs v.rest.lists.ready.queue.chain fresh

  pub b_awake : has b ss ≡ false
  b_awake = has-Chain w.live w.tcb.next b w.sleep_list_head ss v.rest.lists.chain fresh

  b_unlisted : has b gs ≡ false
  b_unlisted =
      has-Chain w.live w.tcb.global_next b w.global_thread_list gs
        (Links-Chain w.live w.tcb.global_next w.tcb.global_prev null w.global_thread_list gs
          v.rest.global.links)
        fresh

  pub b_other : (b == p) ≡ false
  b_other = fresh_other w.live b p v.alive fresh

  Chain-block :
      (head : Ptr) (l : List Ptr)
      → Chain w.live w.tcb.next head l
      → has b l ≡ false
      → Chain (update w.live b true) (update w.tcb.next b null) head l
  Chain-block head l c h =
      Chain-update (update w.live b true) w.tcb.next b null head l
        (Chain-live w.live (update w.live b true) w.tcb.next head l c
          (λ a k. let other : (b == a) ≡ false = ground (arith, h, k, ==_iff b a) in rw other refl))
        h

  pub block-IsSystem : IsSystem (with_block w b) p xs ss gs
  block-IsSystem = record {
    current = v.current;
    alive = live_updated w.live b p v.alive;
    running_state = rw b_other v.running_state;
    unready = v.unready;
    awake = v.awake;
    rest = record {
      lists = record {
        ready = record {
          queue = record {
            chain = Chain-block w.ready.head xs v.rest.lists.ready.queue.chain b_unready;
            tail = v.rest.lists.ready.queue.tail;
            distinct = v.rest.lists.ready.queue.distinct;
          };
          count = v.rest.lists.ready.count;
        };
        chain = Chain-block w.sleep_list_head ss v.rest.lists.chain b_awake;
        distinct = v.rest.lists.distinct;
        apart = v.rest.lists.apart;
      };
      ready_states = λ a h.
          let other : (b == a) ≡ false = ground (arith, b_unready, h, ==_iff b a) in
          rw other (v.rest.ready_states a h);
      sleep_states = λ a h.
          let other : (b == a) ≡ false = ground (arith, b_awake, h, ==_iff b a) in
          rw other (v.rest.sleep_states a h);
      global = record {
        links =
            Links-prev (update w.live b true) (update w.tcb.global_next b null) w.tcb.global_prev b
              null null w.global_thread_list gs
              (Links-next (update w.live b true) w.tcb.global_next w.tcb.global_prev b null null
                w.global_thread_list gs
                (Links-live w.live (update w.live b true) w.tcb.global_next w.tcb.global_prev null
                  w.global_thread_list gs v.rest.global.links (λ a. live_updated w.live b a))
                b_unlisted)
              b_unlisted;
        distinct = v.rest.global.distinct;
      };
      few = v.rest.few;
      few_asleep = v.rest.few_asleep;
      free_lock = v.rest.free_lock;
      policy = v.rest.policy;
      single = v.rest.single;
      epoll = v.rest.epoll;
    };
  }

  pub block-IsNew : (b == null) ≡ false → w.global_list_lock ≡ 0 → IsNew (with_block w b) b gs xs
  unfolding access
  block-IsNew there unlocked = record {
    global = block-IsSystem.rest.global;
    queue = block-IsSystem.rest.lists.ready;
    alive = rw (there, eq_self b) refl;
    unlisted = b_unlisted;
    unready = b_unready;
    free_lock = unlocked;
    single = v.rest.single;
  }
