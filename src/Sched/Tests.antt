-- ===== src/Sched/Tests.antt =====
-- Runs of the scheduler on a concrete state.
use f9_kernel.Base.{◌≡◌, ◌⊎◌, ◌↔◌, ◌<◌, refl, some, arith}
use f9_kernel.Tcb.{runnable}
use f9_kernel.Sched.{
  Sched, ok, set_tcb, select_thread, schedule_select, sched_yield, sched_preemption_change,
}
use f9_kernel.Sched.Inv.{Holds}
use f9_kernel.Sched.Example.{example, example_queues, example-Holds}
use f9_kernel.Sched.Store.{set_tcb-Holds}
use f9_kernel.Sched.Enqueue.{Enqueued, sched_enqueue_refines}
use f9_kernel.Sched.Dequeue.{Dequeued, sched_dequeue_refines}
use f9_kernel.Sched.Yield.{Yielded, sched_yield_refines}
use f9_kernel.Sched.Priority.{Reprioritised, sched_set_priority_refines}
use f9_kernel.Sched.Select.{IsHighest, schedule_select_lem, preempts_iff, yield_no_switch}

-- Thread 3 is made runnable before it is put in.
abbrev woken_three : Sched
woken_three = set_tcb 3 (record (example.tcb 3) { state = runnable }) example

woken_three-Holds : Holds woken_three example_queues
woken_three-Holds = set_tcb-Holds example-Holds 3 _ refl refl refl (λ r. refl)

sched_enqueue_example : Enqueued woken_three example_queues 3
sched_enqueue_example = sched_enqueue_refines 3 woken_three-Holds (ground arith) refl

sched_dequeue_example : Dequeued example example_queues 1
sched_dequeue_example = sched_dequeue_refines 1 example-Holds

sched_yield_example : Yielded example example_queues
sched_yield_example = sched_yield_refines example-Holds

sched_set_priority_example : Reprioritised example example_queues 2 7
sched_set_priority_example =
    sched_set_priority_refines 2 7 example-Holds (ground arith) (ground arith)

five-IsHighest : IsHighest example_queues 5
five-IsHighest = record { in_range = omega arith; here = refl; above = λ i lt. ground arith }

schedule_select_example : schedule_select example ≡ ok (select_thread 5 1 example)
schedule_select_example = schedule_select_lem example-Holds five-IsHighest refl

-- Thread 2 runs while thread 1 heads the queue.
abbrev two_runs : Sched
two_runs = record example { current = 2 }

two_runs-Holds : Holds two_runs example_queues
two_runs-Holds = record {
  ring = example-Holds.ring;
  nodup = example-Holds.nodup;
  member = example-Holds.member;
  absent = example-Holds.absent;
  bitmap = example-Holds.bitmap;
}

preempts_example :
    (((select_thread 5 1 two_runs).0 ≡ 1) ↔ (5 < (two_runs.tcb 2).preempt_threshold))
    × (((select_thread 5 1 two_runs).0 ≡ 1) ⊎ ((select_thread 5 1 two_runs).0 ≡ 2))
preempts_example =
    preempts_iff two_runs-Holds five-IsHighest refl (ground arith) refl (ground arith)
      (schedule_select_lem two_runs-Holds five-IsHighest refl)

yield_no_switch_example : (s' : Sched) × (schedule_select (sched_yield example) ≡ ok (1, s'))
yield_no_switch_example = yield_no_switch example-Holds refl five-IsHighest (omega arith)

-- Thread 1 after its threshold was set to 4.
abbrev lowered : Sched
lowered =
    set_tcb 1 (record (example.tcb 1) { preempt_threshold = 4; user_preempt_threshold = 4 }) example

lowered_runs : sched_preemption_change 1 4 example ≡ some (5, lowered)
unfolding sched_preemption_change
lowered_runs = refl
