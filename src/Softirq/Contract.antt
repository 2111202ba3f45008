-- ===== src/Softirq/Contract.antt =====
-- What `softirq_execute` asks of handlers, and how its last round ends.
use f9_kernel.Base.{ℕ, suc, ◌<◌, ◌≡◌, ◌≢◌, refl, Bool, true, false, ◌||◌, some, has}
use f9_kernel.Tcb.{null, inactive}
use f9_kernel.Sched.{Sched, ok}
use f9_kernel.Sched.Inv.{Queues, Holds}
use f9_kernel.Kernel.{Kernel, SoftirqType, kte_softirq, notification_softirq, syscall_softirq}
use f9_kernel.Kernel.Schedule.{set_kernel_state-Idle}
use f9_kernel.Ktimer.{Ktimer}
use f9_kernel.Notify.Async.Batch.{IsCounted}
use f9_kernel.Softirq.{
  SoftirqHandler, Handlers, clear_pending, with_kernel, run_softirqs, any_pending, softirq_execute,
}

-- The kernel's invariant, with a pool of `max` asynchronous events.
pub record Ready (max : ℕ) (k : Kernel) : Type 0 where
  pub queues : Queues
  pub holds : Holds k.sched queues
  pub thread : k.kernel_thread ≢ null
  pub counted : IsCounted max k.async

-- What `softirq_execute` asks of the handler of a softirq, where `work` measures the work left: it
-- returns and keeps the invariant, and less work is left, whatever softirqs it schedules.
pub record Returned (max : ℕ) (work : Ktimer → ℕ) (type : SoftirqType) (h : SoftirqHandler)
    (k : Ktimer) : Type 0 where
  pub after : Ktimer
  pub runs : h k ≡ ok after
  pub ready : Ready max after.kernel
  pub less : work (with_kernel after (clear_pending type after.kernel)) < work k

abbrev pub Handles : ℕ → (Ktimer → ℕ) → SoftirqType → SoftirqHandler → Type 0
Handles max work type h =
    (k : Ktimer) → Ready max k.kernel → k.kernel.pending type ≡ true → Returned max work type h k

-- The table has a handler for each softirq, and what the handlers leave is less work each time. The
-- scheduler's state is no work.
pub record Served (max : ℕ) (work : Ktimer → ℕ) (hs : Handlers) : Type 0 where
  pub handler : SoftirqType → SoftirqHandler
  pub registered : (type : SoftirqType) → hs type ≡ some (handler type)
  pub handles : (type : SoftirqType) → Handles max work type (handler type)
  pub steady :
      (k : Ktimer) (s : Sched) → work (with_kernel k (record (k.kernel) { sched = s })) ≡ work k

pub clear-Ready :
    {max : ℕ} {k : Kernel} (type : SoftirqType) → Ready max k → Ready max (clear_pending type k)
clear-Ready type r = record {
  queues = r.queues;
  holds = r.holds;
  thread = r.thread;
  counted = r.counted;
}

-- The kernel after the last round of `softirq_execute`, with `fuel + 1` rounds at most.
pub record Executed (max fuel : ℕ) (hs : Handlers) (executed : Bool) (k : Ktimer) : Type 0 where
  pub after : Ktimer
  pub runs :
      softirq_execute (suc fuel) hs (executed, k)
      ≡ ok (some ((executed || any_pending k.kernel), after))
  pub nothing : (u : SoftirqType) → after.kernel.pending u ≡ false
  pub stops : (after.kernel.sched.tcb after.kernel.kernel_thread).state ≡ inactive
  pub ready : Ready max after.kernel
  pub waits : (p : ℕ) → p < 32 → has after.kernel.kernel_thread (ready.queues p) ≡ false

pub each_type :
    (f : SoftirqType → Bool)
    → f kte_softirq ≡ false
    → f notification_softirq ≡ false
    → f syscall_softirq ≡ false
    → (u : SoftirqType) → f u ≡ false
each_type f p q r kte_softirq = p
each_type f p q r notification_softirq = q
each_type f p q r syscall_softirq = r

-- The end of the last round.
pub finish :
    {max fuel : ℕ} {hs : Handlers} {executed : Bool} {k : Ktimer} (k' : Ktimer)
    → run_softirqs hs (executed, k) ≡ ok ((executed || any_pending k.kernel), k')
    → Ready max k'.kernel
    → ((u : SoftirqType) → k'.kernel.pending u ≡ false)
    → (x : Executed max fuel hs executed k) × (x.after.kernel.async ≡ k'.kernel.async)
unfolding softirq_execute
finish {max} {executed = executed} {k} k' runs ready nothing =
    let idle = set_kernel_state-Idle k'.kernel ready.holds in
    (
      record {
        after = with_kernel k' (record (k'.kernel) { sched = idle.after });
        runs =
            rw
              (
                runs,
                nothing kte_softirq,
                nothing notification_softirq,
                nothing syscall_softirq,
                idle.runs,
              )
              refl;
        nothing = nothing;
        stops = idle.stops;
        ready = record {
          queues = idle.queues;
          holds = idle.holds;
          thread = ready.thread;
          counted = ready.counted;
        };
        waits = idle.waits;
      },
      refl,
    )
