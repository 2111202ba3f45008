-- ===== src/Kernel/Example.antt =====
-- A kernel state to test on: the scheduler's example, with the threads 1 to 4 in the thread map, an
-- event for thread 3 and one for a thread that is gone. Thread 4 runs the softirqs.
use f9_kernel.Base.{ℕ, ◌+◌, ◌*◌, ◌^◌, false, [], ◌∷◌}
use f9_kernel.Kernel.{AsyncEvent, Async, Kernel}
use f9_kernel.Sched.Example.{example}

abbrev pub event : ℕ → AsyncEvent
event n = record { target_id = n * 2 ^ 14; notify_bits = 1; event_data = 7 }

abbrev pub example_async : Async
example_async = record {
  queue = event 3 ∷ event 9 ∷ [];
  pool_used = 2;
  queue_count = 2;
  posted = 2;
  delivered = 0;
  dropped = 0;
  batches = 0;
  reschedules = 0;
}

abbrev pub example_kernel : Kernel
example_kernel = record {
  sched = example;
  threads = record { thread_map = λ i. i + 1; thread_count = 4 };
  async = example_async;
  pending = λ t. false;
  kernel_thread = 4;
  irq = 0;
}
