-- ===== src/Syscall/Tests.antt =====
-- Runs of the system calls on a concrete state.
use f9_kernel.Base.{
  ◌+◌, ◌*◌, ◌^◌, ◌<◌, ◌≤◌, ◌≡◌, ◌≢◌, refl, false, bit_and, ◌||◌, none, arith, [], ◌==◌,
  if◌then◌else◌,
}
use f9_kernel.Tcb.{Ptr, Tcb, runnable, svc_blocked, notify_blocked}
use f9_kernel.ThreadMap.{search_loop, thread_map_search, thread_by_globalid}
use f9_kernel.Sched.{Sched, ok, ◌>>=◌, set_tcb}
use f9_kernel.Sched.Inv.{Holds}
use f9_kernel.Sched.Store.{set_tcb-Holds}
use f9_kernel.Sched.Links.{strip}
use f9_kernel.Sched.Example.{thread, example, example_queues, example-Holds}
use f9_kernel.Kernel.{Kernel}
use f9_kernel.Kernel.Example.{example_kernel}
use f9_kernel.Notify.{and_not}
use f9_kernel.Ktimer.{Ktimer}
use f9_kernel.Syscall.{
  Frame, Syscall, Environment, notify_post, sys_system_clock, sys_notify_wait, sys_notify_post,
  svc_handler, dispatch,
}
use f9_kernel.Syscall.Caller.{queued_at}
use f9_kernel.Syscall.Clock.{result_of, system_clock_bounds}
use f9_kernel.Syscall.Dispatch.{Blocked, GoesOn, entered, syscall_returns}
use f9_kernel.Syscall.Notify.{waits_for, sys_notify_wait_lem}
use f9_kernel.Syscall.Post.{Meet, Met, wait_meets_post}

abbrev frame : Frame
frame = record { r1 = 8; r2 = 1; r3 = 7; regs = λ i. 0 }

-- A second of ticks.
abbrev timer : Ktimer
timer = record {
  ktimer_now = 2563;
  ktimer_enabled = false;
  ktimer_delta = 0;
  ktimer_time = 0;
  event_queue = [];
  pool_used = 0;
  coalesce_cache = [];
  coalesce_active = false;
  kernel = example_kernel;
}

abbrev call : Syscall
call = record { caller = 1; frame = frame; user = λ p. 0; ktimer = timer }

abbrev env : Environment
env = record {
  ticks_per_sec = 2563;
  max_events = 64;
  fresh = λ k. 77;
  sys_thread_control = ok;
  sys_ipc = ok;
}

system_clock_bounds_example :
    let u = result_of (sys_system_clock 2563 call) in
    (u * 2563 ≤ 2563 * 1000000) × (2563 * 1000000 * 65536 < (u + 1) * 2563 * 65536 + 2563 * 2563)
system_clock_bounds_example = system_clock_bounds 2563 call (omega arith) (omega arith)

-- A second of ticks is a microsecond short.
second : result_of (sys_system_clock 2563 call) ≡ 999999
unfolding sys_system_clock
second = refl

syscall_returns_example :
    (k₁ : Kernel) × (svc_handler (λ t k. none) notify_post 9 example_kernel ≡ ok (1, k₁))
    × Blocked 1 example_kernel k₁
    × ((k' : Syscall) × (dispatch env notify_post (entered 1 k₁ call) ≡ ok k') × GoesOn 1 k')
syscall_returns_example =
    syscall_returns env (λ t k. none) notify_post 9 call refl example-Holds (ground arith)
      (ground arith) (ground arith)

-- Thread 4 is to wait for bit 3, and thread 1 is to post it to thread 4.
abbrev waiter : Tcb
waiter = record (thread 0 0 svc_blocked 4 4) { saved_r0 = 8 }

abbrev poster : Tcb
poster = record (thread 2 2 runnable 5 1) { saved_r0 = 4 * 2 ^ 14 }

abbrev both : Sched
both = set_tcb 1 poster (set_tcb 4 waiter example)

both-Holds : Holds both example_queues
both-Holds =
    set_tcb-Holds (set_tcb-Holds example-Holds 4 waiter refl refl refl (λ r. cc)) 1 poster refl refl
      refl (λ r. refl)

both-Meet : Meet both example_queues 4 1 frame example_kernel.threads
unfolding thread_by_globalid thread_map_search search_loop
both-Meet = record {
  holds = both-Holds;
  waiter = omega arith;
  apart = omega arith;
  idle = refl;
  awake = refl;
  waits = refl;
  bits = omega arith;
  words = omega arith;
  found = refl;
  some_bit = omega arith;
}

wait_meets_post_example :
    ((s' : Sched) × ((sys_notify_wait 4 both >>= sys_notify_post 1 frame example_kernel.threads)
        ≡ ok s')
      × Met both example_queues 4 1 frame s')
    × ((s' : Sched) × ((sys_notify_post 1 frame example_kernel.threads both >>= sys_notify_wait 4)
          ≡ ok s')
        × Met both example_queues 4 1 frame s')
wait_meets_post_example = wait_meets_post both-Meet

sys_notify_wait_example :
    let c = both.tcb 4 in
    let got = bit_and c.notify_bits c.saved_r0 in
    let blocks = waits_for 4 both in
    (s' : Sched) × (sys_notify_wait 4 both ≡ ok s')
    × Holds s' (if blocks then example_queues else queued_at both 4 example_queues)
    × ((s'.tcb 4).state ≡ (if blocks then notify_blocked else runnable))
    × (blocks ≡ false → (s'.tcb 4).saved_r0 ≡ (if c.saved_r0 == 0 then 0 else got))
    × ((s'.tcb 4).notify_mask ≡ (if blocks then c.saved_r0 else 0))
    × ((s'.tcb 4).notify_bits
        ≡ (if blocks || c.saved_r0 == 0 then c.notify_bits else and_not c.notify_bits got))
    × ((q : Ptr) → q ≢ 4 → strip (s'.tcb q) ≡ strip (both.tcb q))
sys_notify_wait_example = sys_notify_wait_lem both-Holds 4 (omega arith) refl
