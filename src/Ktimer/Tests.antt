-- ===== src/Ktimer/Tests.antt =====
-- Runs of the kernel timer on a concrete chain of events.
use f9_kernel.Base.{
  ℕ, ◌+◌, ◌^◌, ◌%◌, ◌≡◌, ◌≤◌, refl, true, false, bit_or, List, [], ◌∷◌, arith, ◌==◌, if◌then◌else◌,
  length,
}
use f9_kernel.Tcb.{Ptr}
use f9_kernel.Sched.{ok}
use f9_kernel.Sched.Example.{example-Holds}
use f9_kernel.Kernel.{kte_softirq}
use f9_kernel.Kernel.Example.{example_kernel}
use f9_kernel.Ktimer.{KtimerEvent, Ktimer, ktimer_notify_handler, ktimer_event_schedule}
use f9_kernel.Ktimer.Tick.{ticks, passed, ticks_end}
use f9_kernel.Ktimer.Expire.{coalesce, cache_size}
use f9_kernel.Ktimer.Expire.Coalesce.{owed, coalesce-owed}

-- A periodic event, `delta` ticks behind its predecessor.
abbrev timer_event : Ptr → ℕ → KtimerEvent
timer_event id delta = record {
  id = id;
  handler = ktimer_notify_handler;
  delta = delta;
  data_ = 500;
  notify_thread = 3;
  notify_bits = 2;
  deadline = 1500;
}

abbrev example_timer : Ktimer
example_timer = record {
  ktimer_now = 1000;
  ktimer_enabled = true;
  ktimer_delta = 3;
  ktimer_time = 40;
  event_queue = timer_event 1 200 ∷ timer_event 2 300 ∷ [];
  pool_used = 2;
  coalesce_cache = (3, 2) ∷ [];
  coalesce_active = true;
  kernel = example_kernel;
}

-- The first event has begun to count 40 ticks ago; the new one is the first.
abbrev begun : Ktimer
begun = record example_timer { ktimer_delta = 160 }

-- It expires after 100 ticks instead of 140, and the others 140 ticks late.
expiries :
    (ktimer_event_schedule 140 (timer_event 7 0) begun).1.event_queue
    ≡ record (timer_event 7 0) { delta = 0 } ∷ begun.event_queue
unfolding ktimer_event_schedule
expiries = refl

ticks_end_example :
    ((j : ℕ) → j ≤ 2 → ticks j example_timer ≡ ok (passed j example_timer))
    × ((k' : Ktimer) × (ticks 3 example_timer ≡ ok k')
        × (k'.ktimer_enabled ≡ false)
        × (k'.ktimer_delta ≡ 0)
        × (k'.ktimer_time ≡ 0)
        × (k'.ktimer_now ≡ (example_timer.ktimer_now + 3) % 2 ^ 64)
        × (k'.event_queue ≡ example_timer.event_queue)
        × (k'.kernel.pending kte_softirq ≡ true))
ticks_end_example = ticks_end 2 example_timer example-Holds (ground arith) refl (omega arith) refl

coalesce-owed_example :
    (cache : List (Ptr × ℕ)) × (coalesce 3 4 example_timer
      ≡ ok (record example_timer { coalesce_cache = cache }))
    × (length cache ≤ cache_size)
    × ((q : Ptr)
        → owed q cache ≡ (
            if q == 3
            then bit_or (owed q example_timer.coalesce_cache) 4
            else owed q example_timer.coalesce_cache))
coalesce-owed_example = coalesce-owed 3 4 example_timer (omega arith) refl
