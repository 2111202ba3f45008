-- ===== src/Sched/Example.antt =====
-- A scheduler state to test on: threads 1 and 2 ready at level 5, with 1 running; thread 3, at level
-- 3, waits for notifications; thread 4 is not running.
use f9_kernel.Base.{
  ℕ, ◌-◌, ◌*◌, ◌^◌, refl, true, false, inl, inr, arith, [], ◌∷◌, ◌==◌, if◌then◌else◌, Bool-cases,
}
use f9_kernel.Base.Bits.{bit-pow}
use f9_kernel.Tcb.{Ptr, ThreadState, inactive, runnable, notify_blocked, Tcb}
use f9_kernel.Sched.{Sched}
use f9_kernel.Sched.Inv.{Queues, Holds}

abbrev pub thread : Ptr → Ptr → ThreadState → ℕ → ℕ → Tcb
thread prev next state priority id = record {
  prev = prev;
  next = next;
  state = state;
  priority = priority;
  base_priority = priority;
  preempt_threshold = priority;
  user_priority = priority;
  t_globalid = id * 2 ^ 14;
  user_preempt_threshold = priority;
  inherit_priority = priority;
  notify_bits = 6;
  notify_mask = 3;
  notify_data = 0;
  notify_pending = true;
  saved_r0 = 0;
}

abbrev pub example_tcb : Ptr → Tcb
example_tcb q =
    if q == 1
    then thread 2 2 runnable 5 1
    else if q == 2
    then thread 1 1 runnable 5 2
    else if q == 3
    then thread 0 0 notify_blocked 3 3
    else thread 0 0 inactive 4 q

abbrev pub example : Sched
example = record {
  ready_bitmap = 2 ^ 26;
  preempted_bitmap = 0;
  ready_queue = λ i. if i == 5 then 1 else 0;
  tcb = example_tcb;
  current = 1;
  pendsv = false;
}

abbrev pub example_queues : Queues
example_queues i = if i == 5 then 1 ∷ 2 ∷ [] else []

pub example-Holds : Holds example example_queues
example-Holds = record {
  ring = λ p lt. elim (Bool-cases (p == 5)) [
    | inl five ↦ rw five (refl, (refl, refl, (refl, refl)))
    | inr other ↦ rw other refl
  ];
  nodup = λ p lt. ground arith;
  member = λ p q lt h. ground arith;
  absent = λ q h. ground arith;
  bitmap = λ p lt. ground (arith, bit-pow 26 (31 - p));
}
