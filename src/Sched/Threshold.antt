-- ===== src/Sched/Threshold.antt =====
-- `sched_preemption_change`: the thresholds that it accepts, and when it asks for a reschedule.
use f9_kernel.Base.{
  ℕ, ◌<◌, ◌≡◌, refl, ◌≢◌, ◌↔◌, ◌⊎◌, true, false, none, some, arith, ◌==◌, if◌then◌else◌,
}
use f9_kernel.Tcb.{Ptr, null, Tcb}
use f9_kernel.Sched.{Sched, sched_preemption_change, threshold_raised, tighter}
use f9_kernel.Sched.Inv.{Queues, Holds}
use f9_kernel.Sched.Store.{set_tcb-Holds}
use f9_kernel.Sched.Select.{IsHighest, clz32-highest}

-- `sched_preemption_change` fails exactly for `NULL` and for a threshold above the user priority.
pub preemption_change_fails_iff :
    (t : Ptr) (v : ℕ) (s : Sched)
    → (sched_preemption_change t v s ≡ none) ↔ ((t ≡ null) ⊎ ((s.tcb t).user_priority < v))
unfolding sched_preemption_change threshold_raised
preemption_change_fails_iff t v s = ground arith

module _ (s s' : Sched) (t : Ptr) (v old : ℕ)
    (done : sched_preemption_change t v s ≡ some (old, s')) where
  -- The old user threshold is returned, the new one is stored, and the threshold in force is the
  -- tighter of the new one and the inherited priority; every other thread stays as it is.
  pub preemption_change_stores :
      (old ≡ (s.tcb t).user_preempt_threshold)
      × ((s'.tcb t).user_preempt_threshold ≡ v)
      × ((s'.tcb t).preempt_threshold ≡ tighter v (s.tcb t).inherit_priority)
      × ((q : Ptr) → q ≢ t → s'.tcb q ≡ s.tcb q)
  unfolding sched_preemption_change threshold_raised
  preemption_change_stores = (ground arith, ground arith, ground arith, λ q ne. ground arith)

  -- A reschedule is asked for exactly where the current thread's threshold rose above its old user
  -- threshold and lets the highest ready priority through.
  pub reschedule_iff :
      {qs : Queues} {p : ℕ}
      → Holds s qs
      → IsHighest qs p
      → s.pendsv ≡ false
      → (s'.pendsv ≡ true) ↔ (
          (t ≡ s.current)
          × (old < tighter v (s.tcb t).inherit_priority)
          × (p < tighter v (s.tcb t).inherit_priority))
  unfolding sched_preemption_change threshold_raised
  reschedule_iff inv top idle = ground (arith, clz32-highest inv top)

  pub preemption_change_tcb : s'.tcb ≡ (λ q.
      if q == t
      then record (s.tcb t) {
        preempt_threshold = tighter v (s.tcb t).inherit_priority;
        user_preempt_threshold = v;
      }
      else s.tcb q)
  unfolding sched_preemption_change threshold_raised
  preemption_change_tcb = ground arith

  preemption_change_queue : s'.ready_queue ≡ s.ready_queue
  unfolding sched_preemption_change threshold_raised
  preemption_change_queue = ground arith

  preemption_change_bitmap : s'.ready_bitmap ≡ s.ready_bitmap
  unfolding sched_preemption_change threshold_raised
  preemption_change_bitmap = ground arith

  -- The queues stay.
  pub preemption_change-Holds : {qs : Queues} → Holds s qs → Holds s' qs
  preemption_change-Holds inv =
      let c : Tcb = record (s.tcb t) {
        preempt_threshold = tighter v (s.tcb t).inherit_priority;
        user_preempt_threshold = v;
      } in
      let held = set_tcb-Holds inv t c refl refl refl (λ r. r) in
      record {
        ring = rw (preemption_change_tcb, preemption_change_queue) held.ring;
        nodup = held.nodup;
        member = rw preemption_change_tcb held.member;
        absent = rw preemption_change_tcb held.absent;
        bitmap = rw preemption_change_bitmap held.bitmap;
      }
