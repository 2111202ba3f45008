-- ===== src/Inherit/Tests.antt =====
-- Priority inheritance on a concrete state: thread 2, alone at level 5, holds what thread 3, of level
-- 3, waits for.
use f9_kernel.Base.{
  ◌-◌, ◌^◌, ◌≡◌, refl, false, inl, inr, arith, [], ◌∷◌, ◌==◌, if◌then◌else◌, Bool-cases,
}
use f9_kernel.Base.Bits.{bit-pow}
use f9_kernel.Tcb.{inactive, runnable, notify_blocked}
use f9_kernel.Sched.{Sched, ok, clamp}
use f9_kernel.Sched.Inv.{Queues, Holds, level}
use f9_kernel.Sched.Example.{thread}
use f9_kernel.Inherit.{thread_priority_inherit, inherit_corrupts}

abbrev lone : Sched
lone = record {
  ready_bitmap = 2 ^ 26;
  preempted_bitmap = 0;
  ready_queue = λ i. if i == 5 then 2 else 0;
  tcb = λ q.
      if q == 2
      then thread 2 2 runnable 5 2
      else if q == 3
      then thread 0 0 notify_blocked 3 3
      else thread 0 0 inactive 4 q;
  current = 2;
  pendsv = false;
}

abbrev lone_queues : Queues
lone_queues i = if i == 5 then 2 ∷ [] else []

lone-Holds : Holds lone lone_queues
lone-Holds = record {
  ring = λ p lt. elim (Bool-cases (p == 5)) [
    | inl five ↦ rw five (refl, (refl, refl))
    | inr other ↦ rw other refl
  ];
  nodup = λ p lt. ground arith;
  member = λ p q lt h. ground arith;
  absent = λ q h. ground arith;
  bitmap = λ p lt. ground (arith, bit-pow 26 (31 - p));
}

inherit_corrupts_example :
    (s' : Sched) × (thread_priority_inherit 3 2 lone ≡ ok s')
    × (s'.ready_queue (clamp (lone.tcb 3).priority) ≡ 2)
    × (s'.ready_queue (level lone 2) ≡ 2)
    × ((qs' : Queues) → ¬ Holds s' qs')
inherit_corrupts_example =
    inherit_corrupts lone-Holds 3 2 (ground arith) (ground arith) refl (omega arith)
