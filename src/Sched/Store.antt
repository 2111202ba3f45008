-- ===== src/Sched/Store.antt =====
-- Writes to a control block that keep its links and its priority.
use f9_kernel.Base.{◌≡◌, ◌≢◌, true, arith, has, ◌==◌, Bool-cases}
use mathlib.Core.Path.{fun_ext}
use f9_kernel.Tcb.{Ptr, Tcb, is_runnable}
use f9_kernel.Sched.{Sched, set_tcb}
use f9_kernel.Sched.Inv.{Queues, Holds, level, level-lt, next_of, prev_of}

module _ (t : Ptr) (c : Tcb) (s : Sched) where
  -- What is read back after a write.
  pub tcb-set_tcb_self : (set_tcb t c s).tcb t ≡ c
  tcb-set_tcb_self = ground arith

  pub tcb-set_tcb_ne : (q : Ptr) → q ≢ t → (set_tcb t c s).tcb q ≡ s.tcb q
  tcb-set_tcb_ne q ne = ground arith

-- A block may be replaced by one with the same links and priority that is runnable if the thread is
-- queued.
pub set_tcb_queued-Holds :
    {s : Sched} {qs : Queues}
    → Holds s qs
    → (t : Ptr) (c : Tcb) → c.next ≡ (s.tcb t).next
    → c.prev ≡ (s.tcb t).prev
    → c.priority ≡ (s.tcb t).priority
    → (has t (qs (level s t)) ≡ true → is_runnable c.state ≡ true)
    → Holds (set_tcb t c s) qs
set_tcb_queued-Holds {s} {qs} inv t c same_next same_prev same_priority run = record {
  ring = λ p lt. rw (next_same, prev_same) (inv.ring p lt);
  nodup = inv.nodup;
  member = λ p q lt h. ground (arith, inv.member p q lt h, run, Bool-cases (q == t));
  absent = λ q h. ground (arith, inv.absent q, inv.absent t);
  bitmap = inv.bitmap;
}
  where
    s' : Sched
    s' = set_tcb t c s

    next_same : next_of s' ≡ next_of s
    next_same = fun_ext λ q. ground arith

    prev_same : prev_of s' ≡ prev_of s
    prev_same = fun_ext λ q. ground arith

-- It is enough that the new block is runnable if the old one was.
pub set_tcb-Holds :
    {s : Sched} {qs : Queues}
    → Holds s qs
    → (t : Ptr) (c : Tcb) → c.next ≡ (s.tcb t).next
    → c.prev ≡ (s.tcb t).prev
    → c.priority ≡ (s.tcb t).priority
    → (is_runnable (s.tcb t).state ≡ true → is_runnable c.state ≡ true)
    → Holds (set_tcb t c s) qs
set_tcb-Holds {s} inv t c same_next same_prev same_priority run =
    set_tcb_queued-Holds inv t c same_next same_prev same_priority
      (λ h. run ((inv.member (level s t) t (level-lt s t) h).1))
