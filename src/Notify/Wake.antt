-- ===== src/Notify/Wake.antt =====
-- Waking a thread that waits for notifications.
use f9_kernel.Base.{
  ℕ, ◌≡◌, ◌≢◌, ◌⊎◌, refl, ap, ◌∙◌, bit_and, true, false, not, inl, inr, arith, ◌==◌,
}
use f9_kernel.Tcb.{Ptr, null, Tcb, runnable, notify_blocked, is_notify_blocked}
use f9_kernel.Sched.{Sched, ok, set_tcb}
use f9_kernel.Sched.Links.{strip}
use f9_kernel.Sched.Inv.{Queues, Holds, level, put, enqueue}
use f9_kernel.Sched.Store.{set_tcb-Holds}
use f9_kernel.Sched.Enqueue.{sched_enqueue_refines}
use f9_kernel.Notify.{and_not, woken, notify_wake_thread}

-- A blocked thread is in no queue, so its block may be written.
woken-Holds :
    {s : Sched} {qs : Queues}
    → Holds s qs
    → (t : Ptr) (matched : ℕ) → (s.tcb t).state ≡ notify_blocked
    → Holds (set_tcb t (woken matched (s.tcb t)) s) qs
woken-Holds {s} inv t matched blocked =
    set_tcb-Holds inv t (woken matched (s.tcb t)) refl refl refl (λ run. ground (arith, blocked))

-- The thread after it was woken is `woken`, but for its links.
pub notify_wake_thread-woken :
    {s : Sched} {qs : Queues}
    → Holds s qs
    → (t : Ptr) → t ≢ null
    → (s.tcb t).state ≡ notify_blocked
    → bit_and (s.tcb t).notify_bits (s.tcb t).notify_mask ≢ 0
    → let c = s.tcb t in
      let matched = bit_and c.notify_bits c.notify_mask in
      (s' : Sched) × (notify_wake_thread t s ≡ ok (true, s'))
      × Holds s' (put qs (level s t) (enqueue t (qs (level s t))))
      × (strip (s'.tcb t) ≡ strip (woken matched c))
      × ((q : Ptr) → q ≢ t → strip (s'.tcb q) ≡ strip (s.tcb q))
unfolding notify_wake_thread
notify_wake_thread-woken {s} {qs} inv t ne blocked some_bit =
    let matched = bit_and (s.tcb t).notify_bits (s.tcb t).notify_mask in
    let s₁ = set_tcb t (woken matched (s.tcb t)) s in
    let (s', e, held, rest) =
      sched_enqueue_refines t (woken-Holds inv t matched blocked) ne (ground arith) in
    let here : s₁.tcb t ≡ woken matched (s.tcb t) = ground arith in
    (
      s',
      ground (arith, e),
      rw here at held,
      rest.threads t ∙ ap strip here,
      λ q h. let there : s₁.tcb q ≡ s.tcb q = ground (arith, h) in rest.threads q ∙ ap strip there,
    )

-- `notify_wake_thread` wakes a thread that waits for notifications with a bit up that it waits for:
-- the matched bits become its return value and are cleared, the pending flag follows the bits that
-- are left, its mask is cleared, and it goes runnable to the tail of the queue of its level. No other
-- thread changes but for its queue links.
pub notify_wake_thread_wakes :
    {s : Sched} {qs : Queues}
    → Holds s qs
    → (t : Ptr) → t ≢ null
    → (s.tcb t).state ≡ notify_blocked
    → bit_and (s.tcb t).notify_bits (s.tcb t).notify_mask ≢ 0
    → let c = s.tcb t in
      let matched = bit_and c.notify_bits c.notify_mask in
      (s' : Sched) × (notify_wake_thread t s ≡ ok (true, s'))
      × Holds s' (put qs (level s t) (enqueue t (qs (level s t))))
      × ((s'.tcb t).saved_r0 ≡ matched)
      × ((s'.tcb t).notify_bits ≡ and_not c.notify_bits matched)
      × ((s'.tcb t).notify_pending ≡ not (and_not c.notify_bits matched == 0))
      × ((s'.tcb t).notify_mask ≡ 0)
      × ((s'.tcb t).state ≡ runnable)
      × ((q : Ptr) → q ≢ t → strip (s'.tcb q) ≡ strip (s.tcb q))
notify_wake_thread_wakes inv t ne blocked some_bit =
    let (s', e, held, at, rest) = notify_wake_thread-woken inv t ne blocked some_bit in
    (
      s',
      e,
      held,
      ap (λ (c : Tcb). c.saved_r0) at,
      ap (λ (c : Tcb). c.notify_bits) at,
      ap (λ (c : Tcb). c.notify_pending) at,
      ap (λ (c : Tcb). c.notify_mask) at,
      ap (λ (c : Tcb). c.state) at,
      rest,
    )

-- `notify_wake_thread` does nothing for a thread that is not blocked on notifications, or that waits
-- for none of the bits that are up.
pub notify_wake_thread_idle :
    (s : Sched) (t : Ptr)
    → (is_notify_blocked (s.tcb t).state ≡ false)
      ⊎ (bit_and (s.tcb t).notify_bits (s.tcb t).notify_mask ≡ 0)
    → notify_wake_thread t s ≡ ok (false, s)
unfolding notify_wake_thread
notify_wake_thread_idle s t (inl awake) = ground arith
notify_wake_thread_idle s t (inr no_bit) = ground arith
