-- ===== src/Create/Refuse.antt =====
-- src/uthread.c: `uthread_create_with_priority` where no guarded stack is given.
use user_thread_scheduler.Common.{
  ℕ, ◌+◌, ◌≡◌, refl, sym, ◌⊎◌, inl, inr, true, false, List, [], ◌∷◌, ◌++◌, append-nil, ◌==◌,
  if◌then◌else◌, update, minus_one,
}
use user_thread_scheduler.Create.{Grant, create_in}
use user_thread_scheduler.Create.Publish.{initialised, stacked, IsNew, fill_in-ok}
use user_thread_scheduler.GlobalList.{stack_size, guard_page_size, alloc_guarded_stack, free}
use user_thread_scheduler.GlobalList.Links.{IsGlobalList, Links-freed, Chain-freed}
use user_thread_scheduler.Machine.{Ptr, null, SysCall, munmap, World, ok}
use user_thread_scheduler.ReadyQueue.{IsReadyQueue}
use user_thread_scheduler.Signals.{unblock_signals-ok}

-- `mmap` fails, or `mprotect` does.
abbrev pub IsDenied : Grant → Type 0
IsDenied g = ((g.region == null) ≡ true) ⊎ (((g.region == null) ≡ false) × (g.protects ≡ false))

-- A creation that fails.
pub record Refused (w : World) (g : Grant) (p fn arg : Ptr) (priority : ℕ) (gs xs : List Ptr)
    : Type 0 where
  pub end : World
  pub returns : create_in g p fn arg priority w ≡ ok minus_one end
  pub global : IsGlobalList end gs
  pub queue : IsReadyQueue end xs
  pub freed : end.live ≡ update w.live p false
  pub unmapped :
      end.os.calls
      ≡ w.os.calls
        ++ (if g.region == null then [] else munmap g.region (stack_size + guard_page_size) ∷ [])

-- The world at the end: `calls` is what has been logged.
abbrev undone : World → Ptr → Ptr → Ptr → ℕ → List SysCall → World
undone w p fn arg priority calls =
    let s = stacked (initialised w p fn arg priority) p null 0 in
    record s {
      live = update w.live p false;
      os = record w.os { calls = calls };
      alarm_blocked = false;
    }

module _ {w : World} {p : Ptr} {gs xs : List Ptr} (v : IsNew w p gs xs) (fn arg : Ptr)
    (priority : ℕ) (calls : List SysCall) where
  undone-IsGlobalList : IsGlobalList (undone w p fn arg priority calls) gs
  undone-IsGlobalList = record {
    links =
        Links-freed w.live w.tcb.global_next w.tcb.global_prev p null w.global_thread_list gs
          v.global.links v.unlisted;
    distinct = v.global.distinct;
  }

  undone-IsReadyQueue : IsReadyQueue (undone w p fn arg priority calls) xs
  undone-IsReadyQueue = record {
    queue = record {
      chain = Chain-freed w.live w.tcb.next p w.ready.head xs v.queue.queue.chain v.unready;
      tail = v.queue.queue.tail;
      distinct = v.queue.queue.distinct;
    };
    count = v.queue.count;
  }

-- In single-core mode, with the lists well formed, where `mmap` or `mprotect` fails, a creation
-- in a new block returns -1, frees the block, unmaps a region that was given, and leaves the
-- global list and the ready queue with the threads they had.
pub create_in-Refused :
    (w : World) (g : Grant) (p fn arg : Ptr) (priority : ℕ) (gs xs : List Ptr)
    → IsNew w p gs xs
    → IsDenied g
    → Refused w g p fn arg priority gs xs
unfolding create_in alloc_guarded_stack free
create_in-Refused w g p fn arg priority gs xs v (inl no_region) = record {
  end = undone w p fn arg priority w.os.calls;
  returns = rw (
    fill_in-ok w p fn arg priority v.alive,
    no_region,
    v.alive,
    v.alive,
    v.alive,
    unblock_signals-ok
        (record (stacked (initialised w p fn arg priority) p null 0) {
          live = update w.live p false;
        })
        v.single,
  );
  global = undone-IsGlobalList v fn arg priority w.os.calls;
  queue = undone-IsReadyQueue v fn arg priority w.os.calls;
  freed = refl;
  unmapped = rw no_region (sym (append-nil w.os.calls));
}
create_in-Refused w g p fn arg priority gs xs v (inr (mapped, unprotected)) =
    let calls = w.os.calls ++ munmap g.region (stack_size + guard_page_size) ∷ [] in
    record {
      end = undone w p fn arg priority calls;
      returns = rw (
        fill_in-ok w p fn arg priority v.alive,
        mapped,
        unprotected,
        v.alive,
        v.alive,
        v.alive,
        unblock_signals-ok
            (record (stacked (initialised w p fn arg priority) p null 0) {
              live = update w.live p false;
              os = record w.os { calls = calls };
            })
            v.single,
      );
      global = undone-IsGlobalList v fn arg priority calls;
      queue = undone-IsReadyQueue v fn arg priority calls;
      freed = refl;
      unmapped = rw mapped refl;
    }
