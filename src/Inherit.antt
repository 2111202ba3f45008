-- ===== src/Inherit.antt =====
-- kernel/thread.c, priority inheritance: `thread_priority_inherit`, `thread_priority_disinherit`.
mod Tests
use f9_kernel.Base.{
  ℕ, ◌<◌, ◌≡◌, ◌≢◌, refl, sym, subst, ap, true, false, List, [], ◌∷◌, arith, ◌==◌, ltb,
  if◌then◌else◌, ◌||◌, has,
}
use f9_kernel.Tcb.{Tcb, Ptr, null, is_runnable}
use f9_kernel.Sched.{
  Sched, Run, ok, clamp, tighter, set_tcb, sched_is_queued, sched_enqueue, sched_dequeue,
  dequeue_last, enqueue_first,
}
use f9_kernel.Sched.Links.{strip}
use f9_kernel.Sched.Dequeue.{strip-dequeue_last, prev-dequeue_last, heads-dequeue_last}
use f9_kernel.Sched.Enqueue.{heads-enqueue_first}
use f9_kernel.Sched.Inv.{
  Queues, next_of, prev_of, level, IsRing, Holds, level-lt, sched_is_queued-has,
}

-- The end of both functions: a queued thread is taken out and put in again. The priority has been
-- changed by then.
pub requeue : Ptr → Sched → Run Sched
requeue t s = if sched_is_queued t s then sched_enqueue t (sched_dequeue t s) else ok s

-- The holder with the waiter's priority, inherited and in force.
abbrev pub boosted : ℕ → Tcb → Tcb
boosted prio h = record h {
  inherit_priority = prio;
  priority = prio;
  preempt_threshold = tighter h.user_preempt_threshold prio;
}

-- `thread_priority_inherit`
pub thread_priority_inherit : (waiter holder : Ptr) → Sched → Run Sched
unfolding requeue
thread_priority_inherit waiter holder s =
    let prio = (s.tcb waiter).priority in
    if waiter == null || holder == null
    then ok s
    else if ltb prio (s.tcb holder).priority
    then requeue holder (set_tcb holder (boosted prio (s.tcb holder)) s)
    else ok s

-- `thread_priority_disinherit`
pub thread_priority_disinherit : Ptr → Sched → Run Sched
unfolding requeue
thread_priority_disinherit holder s =
    let h = s.tcb holder in
    if holder == null then ok s else requeue holder (set_tcb holder (boosted h.user_priority h) s)

module _ {s : Sched} {qs : Queues} (inv : Holds s qs) (waiter holder : Ptr) (hn : holder ≢ null)
    (alone : qs (level s holder) ≡ holder ∷ [])
    (urgent : clamp (s.tcb waiter).priority < level s holder) where
  -- The state when the holder is taken out, under its new priority.
  s₁ : Sched
  s₁ = set_tcb holder (boosted (s.tcb waiter).priority (s.tcb holder)) s

  s₂ : Sched
  unfolding s₁
  s₂ = dequeue_last holder (level s₁ holder) s₁

  s₃ : Sched
  unfolding s₂
  s₃ = enqueue_first holder (level s₂ holder) s₂

  ring_alone :
      (s.ready_queue (level s holder) ≡ holder)
      × ((s.tcb holder).next ≡ holder)
      × ((s.tcb holder).prev ≡ holder)
  ring_alone =
      let r =
        subst (IsRing (next_of s) (prev_of s) (s.ready_queue (level s holder))) alone
          (inv.ring (level s holder) (level-lt s holder)) in
      (r.0, r.1.0, r.1.1)

  holder_runs : is_runnable (s.tcb holder).state ≡ true
  holder_runs = (inv.member (level s holder) holder (level-lt s holder) (ground (arith, alone))).1

  new_level : level s₁ holder ≡ clamp (s.tcb waiter).priority
  unfolding s₁
  new_level = ground arith

  still_level : level s₂ holder ≡ level s₁ holder
  unfolding s₂
  still_level = ap (λ (c : Tcb). clamp c.priority) (strip-dequeue_last holder s₁ holder)

  dequeued : sched_dequeue holder s₁ ≡ s₂
  unfolding s₂ sched_dequeue
  dequeued = ground (arith, ring_alone)

  enqueued : sched_enqueue holder s₂ ≡ ok s₃
  unfolding s₃ sched_enqueue
  enqueued = ground (
    arith,
    holder_runs,
    ap (λ (c : Tcb). c.state) (strip-dequeue_last holder s₁ holder),
    prev-dequeue_last holder s₁ holder,
    heads-dequeue_last holder s₁ (level s₁ holder),
    still_level,
  )

  heads :
      (s₃.ready_queue (clamp (s.tcb waiter).priority) ≡ holder)
      × (s₃.ready_queue (level s holder) ≡ holder)
  unfolding s₃
  heads = ground (
    arith,
    ring_alone,
    new_level,
    still_level,
    heads-enqueue_first holder s₂ (clamp (s.tcb waiter).priority),
    heads-enqueue_first holder s₂ (level s holder),
    heads-dequeue_last holder s₁ (level s holder),
  )

head_mem : (nx pv : ℕ → ℕ) (h : ℕ) (l : List ℕ) → IsRing nx pv h l → h ≢ null → has h l ≡ true
head_mem nx pv h [] r ne = absurd (ne r)
head_mem nx pv h (x ∷ xs) r ne = ground arith

-- `thread_priority_inherit` of a holder that waits alone in its ready queue, for a waiter of a more
-- urgent level, breaks the ready queues: the priority is changed before the holder is taken out, so
-- the holder ends as the head of two queues, and no assignment of threads to queues fits the state.
pub inherit_corrupts :
    {s : Sched} {qs : Queues}
    → Holds s qs
    → (waiter holder : Ptr) → waiter ≢ null
    → holder ≢ null
    → qs (level s holder) ≡ holder ∷ []
    → clamp (s.tcb waiter).priority < level s holder
    → (s' : Sched) × (thread_priority_inherit waiter holder s ≡ ok s')
      × (s'.ready_queue (clamp (s.tcb waiter).priority) ≡ holder)
      × (s'.ready_queue (level s holder) ≡ holder)
      × ((qs' : Queues) → ¬ Holds s' qs')
unfolding thread_priority_inherit s₁
inherit_corrupts {s} {qs} inv waiter holder wn hn alone urgent =
    let s' = s₃ inv waiter holder hn alone urgent in
    let (new, old) = heads inv waiter holder hn alone urgent in
    (
      s',
      ground (
        arith,
        dequeued inv waiter holder hn alone urgent,
        enqueued inv waiter holder hn alone urgent,
        ring_alone inv waiter holder hn alone urgent,
      ),
      new,
      old,
      λ qs' bad.
          let w = clamp (s.tcb waiter).priority in
          let p = level s holder in
          let at_w = head_mem _ _ _ (qs' w) (bad.ring w (ground arith)) (ground (arith, new)) in
          let at_p = head_mem _ _ _ (qs' p) (bad.ring p (ground arith)) (ground (arith, old)) in
          ground (
            arith,
            at_w,
            at_p,
            new,
            old,
            bad.member w holder (ground arith),
            bad.member p holder (ground arith),
          ),
    )
