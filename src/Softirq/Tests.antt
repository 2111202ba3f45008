-- ===== src/Softirq/Tests.antt =====
-- Runs of softirqs on a concrete state: the handlers of the timer and of system calls do no more than to
-- schedule the softirq of the asynchronous queue.
use f9_kernel.Base.{◌≡◌, ◌≢◌, refl, arith, true, false, some, [], ◌∷◌}
use f9_kernel.Tcb.{inactive}
use f9_kernel.Sched.{ok}
use f9_kernel.Sched.Example.{example_queues, example-Holds}
use f9_kernel.Kernel.{SoftirqType, notification_softirq, syscall_softirq, is_type}
use f9_kernel.Kernel.Example.{example_kernel, example_async, event}
use f9_kernel.Ktimer.{Ktimer}
use f9_kernel.Notify.Async.Batch.{is_live}
use f9_kernel.ThreadMap.{search_loop, thread_map_search, thread_by_globalid}
use f9_kernel.Softirq.{Handlers, SoftirqHandler, notification_handler, softirq_execute}
use f9_kernel.Softirq.Contract.{Ready}
use f9_kernel.Softirq.Strand.{softirq_execute_strands}
use f9_kernel.Softirq.Work.{notifying_handler}

abbrev handlers : Handlers
handlers notification_softirq = some notification_handler
handlers _ = some notifying_handler

handler_of : SoftirqType → SoftirqHandler
handler_of notification_softirq = notification_handler
handler_of _ = notifying_handler

-- Six events for thread 3 wait, and their softirq is pending.
abbrev crowded : Ktimer
crowded = record {
  ktimer_now = 0;
  ktimer_enabled = false;
  ktimer_delta = 0;
  ktimer_time = 0;
  event_queue = [];
  pool_used = 0;
  coalesce_cache = [];
  coalesce_active = false;
  kernel = record example_kernel {
    async = record example_async {
      queue = event 3 ∷ event 3 ∷ event 3 ∷ event 3 ∷ event 3 ∷ event 3 ∷ [];
      pool_used = 6;
      queue_count = 6;
    };
    pending = λ t. is_type t notification_softirq;
  };
}

crowded-Ready : Ready 16 crowded.kernel
crowded-Ready = record {
  queues = example_queues;
  holds = example-Holds;
  thread = ground arith;
  counted = record { counts = refl; pool = refl; fits = omega arith };
}

-- The softirq of system calls is pending; its handler schedules one that stands before it.
abbrev calling : Ktimer
calling = record crowded {
  kernel = record (crowded.kernel) { pending = λ t. is_type t syscall_softirq };
}

event_lives : is_live crowded.kernel (event 3) ≡ true
unfolding thread_by_globalid thread_map_search search_loop
event_lives = refl

softirq_execute_strands_example :
    (k' : Ktimer) × (softirq_execute 1 handlers (false, crowded) ≡ ok (some (true, k')))
    × (k'.kernel.async.queue ≢ [])
    × ((u : SoftirqType) → k'.kernel.pending u ≡ false)
    × ((k'.kernel.sched.tcb k'.kernel.kernel_thread).state ≡ inactive)
softirq_execute_strands_example =
    softirq_execute_strands 16 0 handlers crowded (omega arith) refl refl refl refl crowded-Ready
      (rw event_lives (omega arith))
