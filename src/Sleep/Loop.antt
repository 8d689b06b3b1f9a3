-- ===== src/Sleep/Loop.antt =====
-- src/uthread.c: `check_sleep_list` wakes exactly the threads whose time has come.
use mathlib.Core.Path.{subst₂, subst}
use user_thread_scheduler.Common.{
  ℕ, zero, suc, ◌+◌, ◌<◌, ◌≡◌, refl, sym, ap, ◌∙◌, inl, inr, true, false, List, [], ◌∷◌, ◌++◌,
  append-nil, append_assoc, arith, length, has, Distinct-right, leb, ◌==◌, if◌then◌else◌,
  Bool-cases, update,
}
use user_thread_scheduler.GlobalList.{free}
use user_thread_scheduler.Machine.{Ptr, null, ready, World, ok, access, access-ne-null}
use user_thread_scheduler.Machine.Chain.{last, Chain, last-snoc, Chain-access, prev_ok}
use user_thread_scheduler.Machine.Queue.{IsQueue-TailIsOk}
use user_thread_scheduler.Sleep.{sleep_loop, check_sleep_list, IsSleeping, due, asleep}
use user_thread_scheduler.Sleep.Wake.{
  Wakeups, woken, one_woken, wake-ok, wake-IsSleeping, wake-Chain,
}
use user_thread_scheduler.Trace.{time_ns}
use user_thread_scheduler.Trace.Bounds.{Later, Later-refl, Later-trans, clocked-Later}

due-update :
    (now : ℕ) (until : Ptr → ℕ) (t v : Ptr) (xs : List Ptr)
    → has t xs ≡ false
    → due now (update until t v) xs ≡ due now until xs
due-update now until t v [] h = refl
due-update now until t v (x ∷ xs) h = ground (arith, due-update now until t v xs)

asleep-update :
    (now : ℕ) (until : Ptr → ℕ) (t v : Ptr) (xs : List Ptr)
    → has t xs ≡ false
    → asleep now (update until t v) xs ≡ asleep now until xs
asleep-update now until t v [] h = refl
asleep-update now until t v (x ∷ xs) h = ground (arith, asleep-update now until t v xs)

-- From `w` the loop runs to `woken w changes`, with the due threads of `zs` ready and the others of
-- `ys ++ zs` asleep.
record Rest (now k : ℕ) (w : World) (prev cur : Ptr) (xs ys zs : List Ptr) : Type 0 where
  changes : Wakeups
  returns : sleep_loop now k prev cur w ≡ ok tt (woken w changes)
  holds :
      IsSleeping
        (woken w changes)
        (xs ++ due now w.tcb.sleep_until_ns zs)
        (ys ++ asleep now w.tcb.sleep_until_ns zs)
  states :
      (a : Ptr)
      → changes.state a ≡ (if has a (due now w.tcb.sleep_until_ns zs) then ready else w.tcb.state a)
  untils :
      (a : Ptr)
      → changes.until a
        ≡ (if has a (due now w.tcb.sleep_until_ns zs) then 0 else w.tcb.sleep_until_ns a)
  later : Later w.os changes.os

abbrev unchanged : World → Wakeups
unchanged w = record {
  next = w.tcb.next;
  state = w.tcb.state;
  until = w.tcb.sleep_until_ns;
  queue = w.ready;
  count = w.ready_count;
  sleepers = w.sleep_list_head;
  trace = w.trace;
  os = w.os;
}

module _ (now k : ℕ) (w : World) (xs ys : List Ptr) (t : Ptr) (zs : List Ptr)
    (v : IsSleeping w xs (ys ++ t ∷ zs)) where
  abbrev after_wake : World
  after_wake = woken w (one_woken w (last ys) t)

  t-live : access w.live t ≡ true
  t-live = Chain-access w.live w.tcb.next w.sleep_list_head ys t zs v.chain

  fresh : has t zs ≡ false
  fresh = (Distinct-right ys (t ∷ zs) v.distinct).0

  woken_now :
      leb (w.tcb.sleep_until_ns t) now ≡ true
      → Rest now k after_wake (last ys) (w.tcb.next t) (xs ++ t ∷ []) ys zs
      → Rest now (suc k) w (last ys) t xs ys (t ∷ zs)
  unfolding sleep_loop
  woken_now time r = record {
    changes = r.changes;
    returns =
        rw
          (
            access-ne-null w.live t t-live,
            t-live,
            t-live,
            time,
            wake-ok (last ys) t w t-live
                (prev_ok w.live w.tcb.next w.sleep_list_head ys (t ∷ zs) v.chain)
                (IsQueue-TailIsOk v.ready.queue),
          )
          r.returns;
    holds = rw time (
        subst₂ (λ awake sleepers. IsSleeping (woken w r.changes) awake (ys ++ sleepers))
          (append_assoc xs (t ∷ []) _ ∙ ap (λ l. xs ++ t ∷ l) same_due)
          (asleep-update now w.tcb.sleep_until_ns t 0 zs fresh) r.holds);
    states = rw time λ a.
        let s =
          subst (λ l. r.changes.state a ≡ (if has a l then ready else after_wake.tcb.state a))
            same_due (r.states a) in
        ground (arith, s);
    untils = rw time λ a.
        let s =
          subst (λ l. r.changes.until a ≡ (if has a l then 0 else after_wake.tcb.sleep_until_ns a))
            same_due (r.untils a) in
        ground (arith, s);
    later = Later-trans (clocked-Later w.trace w.os) r.later;
  }
    where
      same_due : due now (update w.tcb.sleep_until_ns t 0) zs ≡ due now w.tcb.sleep_until_ns zs
      same_due = due-update now w.tcb.sleep_until_ns t 0 zs fresh

  sleeps_on :
      leb (w.tcb.sleep_until_ns t) now ≡ false
      → Rest now k w t (w.tcb.next t) xs (ys ++ t ∷ []) zs
      → Rest now (suc k) w (last ys) t xs ys (t ∷ zs)
  unfolding sleep_loop
  sleeps_on early r = record {
    changes = r.changes;
    returns = rw (access-ne-null w.live t t-live, t-live, t-live, early) r.returns;
    holds = rw (early, ← append_assoc ys (t ∷ []) (asleep now w.tcb.sleep_until_ns zs)) r.holds;
    states = rw early r.states;
    untils = rw early r.untils;
    later = r.later;
  }

sleep_loop-Rest :
    (now k : ℕ) (w : World) (cur : Ptr) (xs ys zs : List Ptr)
    → IsSleeping w xs (ys ++ zs)
    → Chain w.live w.tcb.next cur zs
    → length zs < k
    → Rest now k w (last ys) cur xs ys zs
unfolding sleep_loop
sleep_loop-Rest now zero w cur xs ys zs v c fuel = absurd (omega arith)
sleep_loop-Rest now (suc k) w cur xs ys [] v c fuel = record {
  changes = unchanged w;
  returns = let end : (cur == null) ≡ true = rw c in rw end;
  holds = subst (λ l. IsSleeping w l (ys ++ [])) (sym (append-nil xs)) v;
  states = λ a. refl;
  untils = λ a. refl;
  later = Later-refl w.os;
}
sleep_loop-Rest now (suc k) w cur xs ys (t ∷ zs) v (e, l, c) fuel =
    elim (Bool-cases (leb (w.tcb.sleep_until_ns t) now)) [
      | inl time ↦ rw e (
          woken_now now k w xs ys t zs v time (
            sleep_loop-Rest now k (woken w (one_woken w (last ys) t)) (w.tcb.next t) (xs ++ t ∷ [])
              ys zs (wake-IsSleeping ys t zs v) (wake-Chain ys t zs v) (omega arith)))
      | inr early ↦ rw e (
          sleeps_on now k w xs ys t zs v early (
            subst (λ p. Rest now k w p (w.tcb.next t) xs (ys ++ t ∷ []) zs) (last-snoc t ys)
              (sleep_loop-Rest now k w (w.tcb.next t) xs (ys ++ t ∷ []) zs
                (rw (append_assoc ys (t ∷ []) zs) v) c (omega arith))))
    ]

-- The time that `check_sleep_list` reads, and the world with the clock read and the lock free.
abbrev pub time_read : World → ℕ
time_read w = time_ns (w.os.clock w.os.ticks)

abbrev pub ticked : World → World
ticked w = record w { os = record w.os { ticks = w.os.ticks + 1 }; sleep_list_lock = 0 }

-- The due sleepers are at the end of the ready queue, in the order of the sleep list, in state ready
-- and with no wake-up time; the others sleep on; no other state or wake-up time changes.
pub record Checked (w : World) (xs ss : List Ptr) : Type 0 where
  pub changes : Wakeups
  pub returns : check_sleep_list w ≡ ok tt (woken (ticked w) changes)
  pub holds :
      IsSleeping
        (woken (ticked w) changes)
        (xs ++ due (time_read w) w.tcb.sleep_until_ns ss)
        (asleep (time_read w) w.tcb.sleep_until_ns ss)
  pub states :
      (a : Ptr)
      → changes.state a
        ≡ (if has a (due (time_read w) w.tcb.sleep_until_ns ss) then ready else w.tcb.state a)
  pub untils :
      (a : Ptr)
      → changes.until a
        ≡ (if has a (due (time_read w) w.tcb.sleep_until_ns ss) then 0 else w.tcb.sleep_until_ns a)
  pub later : Later (ticked w).os changes.os

-- Where the lock is free, the ready queue and the sleep list are well formed with no thread in
-- common, and fewer threads than `rounds` sleep, `check_sleep_list` returns; the threads whose
-- time has come become ready, behind the ready threads and in the order of the sleep list, with a
-- wake-up time of 0, and the others sleep on in their order.
pub check_sleep_list-Checked :
    {w : World} {xs ss : List Ptr}
    → IsSleeping w xs ss
    → length ss < w.rounds
    → w.sleep_list_lock ≡ 0
    → Checked w xs ss
unfolding check_sleep_list
check_sleep_list-Checked {w} {xs} {ss} v enough free = record {
  changes = r.changes;
  returns = rw (unlocked, r.returns);
  holds = record {
    ready = record { queue = r.holds.ready.queue; count = r.holds.ready.count };
    chain = r.holds.chain;
    distinct = r.holds.distinct;
    apart = r.holds.apart;
  };
  states = r.states;
  untils = r.untils;
  later = record {
    clock = r.later.clock;
    events = r.later.events;
    ticks = r.later.ticks;
    log = r.later.log;
  };
}
  where
    unlocked : (w.sleep_list_lock == 0) ≡ true
    unlocked = rw free

    locked : World
    locked = record w { os = record w.os { ticks = w.os.ticks + 1 }; sleep_list_lock = 1 }

    r : Rest (time_read w) w.rounds locked null w.sleep_list_head xs [] ss
    r =
        sleep_loop-Rest (time_read w) w.rounds locked w.sleep_list_head xs [] ss
          (record {
            ready = record { queue = v.ready.queue; count = v.ready.count };
            chain = v.chain;
            distinct = v.distinct;
            apart = v.apart;
          })
          v.chain enough
