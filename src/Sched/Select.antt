-- ===== src/Sched/Select.antt =====
-- `schedule_select`: the head of the highest ready queue, unless the preemption threshold of the
-- running thread keeps it off.
use f9_kernel.Base.{
  ℕ, ◌-◌, ◌<◌, ◌≤◌, ◌≡◌, ◌≢◌, ◌↔◌, ◌⊎◌, refl, subst, ◌∙◌, ap, true, false, List, [], ◌∷◌, arith,
  has, rotate,
}
use f9_kernel.Base.Bits.{bit}
use f9_kernel.Tcb.{Tcb, Ptr, null, is_runnable}
use f9_kernel.Sched.{
  Sched, ok, panic, clz32, schedule_select, select_thread, clear_preempted, sched_yield,
}
use f9_kernel.Sched.Bitmap.{clz-le, clz_above, clz_at}
use f9_kernel.Sched.Inv.{Queues, next_of, prev_of, level, IsRing, Holds, is_empty, put, level-lt}
use f9_kernel.Sched.Yield.{Yielded, sched_yield_refines}

-- `p` is the highest priority at which a thread waits.
pub record IsHighest (qs : Queues) (p : ℕ) : Type 0 where
  pub in_range : p < 32
  pub here : is_empty (qs p) ≡ false
  pub above : (i : ℕ) → i < p → is_empty (qs i) ≡ true

module _ {s : Sched} {qs : Queues} (inv : Holds s qs) where
  -- The leading zeros of the bitmap are the highest priority with a ready thread.
  pub clz32-highest : {p : ℕ} → IsHighest qs p → clz32 s.ready_bitmap ≡ p
  clz32-highest {p} top = ground (
    arith,
    clz-le 32 s.ready_bitmap,
    clz_above 32 s.ready_bitmap p,
    clz_at 32 s.ready_bitmap,
    inv.bitmap p top.in_range,
    top.here,
    earlier,
  )
    where
      c : ℕ
      c = clz32 s.ready_bitmap

      earlier : clz32 s.ready_bitmap < p → bit s.ready_bitmap (31 - clz32 s.ready_bitmap) ≡ 0
      earlier lt = ground (
        arith,
        inv.bitmap (clz32 s.ready_bitmap) (omega (arith, top.in_range)),
        top.above (clz32 s.ready_bitmap) lt,
      )

  -- With no thread in any queue `schedule_select` panics.
  pub schedule_select_empty :
      ((p : ℕ) → p < 32 → is_empty (qs p) ≡ true) → schedule_select s ≡ panic
  unfolding schedule_select
  schedule_select_empty none_ready =
      ground (arith, clz-le 32 s.ready_bitmap, clz_at 32 s.ready_bitmap, clear)
    where
      clear : clz32 s.ready_bitmap < 32 → bit s.ready_bitmap (31 - clz32 s.ready_bitmap) ≡ 0
      clear lt =
          ground (arith, inv.bitmap (clz32 s.ready_bitmap) lt, none_ready (clz32 s.ready_bitmap) lt)

  head_of : {p x : ℕ} {xs : List ℕ} → p < 32 → qs p ≡ x ∷ xs → (s.ready_queue p ≡ x) × (x ≢ null)
  head_of {p} {x} lt e = (
    (subst (IsRing (next_of s) (prev_of s) (s.ready_queue p)) e (inv.ring p lt)).0,
    (inv.member p x lt (ground (arith, e))).2,
  )

  -- In a state that stands for queues, with thread `x` at the head of the highest ready queue `p`,
  -- `schedule_select` does not panic, and puts `x` and `p` to the threshold test.
  pub schedule_select_lem :
      {p x : ℕ} {xs : List ℕ}
      → IsHighest qs p
      → qs p ≡ x ∷ xs
      → schedule_select s ≡ ok (select_thread p x s)
  unfolding schedule_select
  schedule_select_lem {p} top e =
      rw (clz32-highest top, (head_of top.in_range e).0)
        (ground (arith, top.in_range, head_of top.in_range e))

  -- The preemption-threshold rule: with the current thread runnable and another thread `x` at the
  -- head of the highest ready queue `p`, `x` is selected exactly when `p` is below (that is, more
  -- urgent than) the current thread's threshold; otherwise the current thread goes on.
  pub preempts_iff :
      {p x : ℕ} {xs : List ℕ} {r : Ptr} {s' : Sched}
      → IsHighest qs p
      → qs p ≡ x ∷ xs
      → s.current ≢ null
      → is_runnable (s.tcb s.current).state ≡ true
      → s.current ≢ x
      → schedule_select s ≡ ok (r, s')
      → ((r ≡ x) ↔ (p < (s.tcb s.current).preempt_threshold)) × ((r ≡ x) ⊎ (r ≡ s.current))
  unfolding select_thread
  preempts_iff {p} {x} top e cn run ne h = ground (arith, schedule_select_lem top e)

  -- A blocked, absent or already chosen current thread keeps nobody off: the head of the highest
  -- ready queue is selected.
  pub select_head :
      {p x : ℕ} {xs : List ℕ}
      → IsHighest qs p
      → qs p ≡ x ∷ xs
      → (s.current ≡ null) ⊎ (is_runnable (s.tcb s.current).state ≡ false) ⊎ (s.current ≡ x)
      → schedule_select s ≡ ok (x, clear_preempted p s)
  unfolding select_thread
  select_head {p} {x} top e free = ground (arith, schedule_select_lem top e)

  -- Selection does not touch the ready queues.
  pub schedule_select-Holds :
      {p x : ℕ} {xs : List ℕ} {r : Ptr} {s' : Sched}
      → IsHighest qs p
      → qs p ≡ x ∷ xs
      → schedule_select s ≡ ok (r, s')
      → Holds s' qs
  schedule_select-Holds {p} {x} {r} {s'} top e h =
      subst (λ u. Holds u qs) same
        (record { ring = ring; nodup = nodup; member = member; absent = absent; bitmap = bitmap })
    where
      open inv use {ring, nodup, member, absent, bitmap}

      same : record s { preempted_bitmap = s'.preempted_bitmap } ≡ s'
      same = unfold select_thread in ground (arith, schedule_select_lem top e)

nonempty : (l : List ℕ) → is_empty l ≡ false → (x : ℕ) × (xs : List ℕ) × (l ≡ x ∷ xs)
nonempty [] h = cc
nonempty (x ∷ xs) h = (x, xs, refl)

is_empty-rotate : (l : List ℕ) → is_empty (rotate l) ≡ is_empty l
is_empty-rotate [] = refl
is_empty-rotate (x ∷ []) = refl
is_empty-rotate (x ∷ y ∷ l) = refl

-- With a threshold at or above the highest ready priority the current thread goes on.
keeps_current :
    {s : Sched} {qs : Queues} {p : ℕ}
    → Holds s qs
    → IsHighest qs p
    → s.current ≢ null
    → is_runnable (s.tcb s.current).state ≡ true
    → (s.tcb s.current).preempt_threshold ≤ p
    → (s' : Sched) × (schedule_select s ≡ ok (s.current, s'))
unfolding select_thread
keeps_current {s} {qs} {p} inv top cn run le =
    let (x, xs, e) = nonempty (qs p) top.here in
    ((select_thread p x s).1, ground (arith, schedule_select_lem inv top e))

-- A current thread that stays runnable goes on after `sched_yield`: where its level `p` is the
-- highest with a ready thread and its threshold is at most `p`, `schedule_select` picks the current
-- thread again, whatever thread the rotation brought to the head of the queue.
pub yield_no_switch :
    {s : Sched} {qs : Queues}
    → Holds s qs
    → has s.current (qs (level s s.current)) ≡ true
    → IsHighest qs (level s s.current)
    → (s.tcb s.current).preempt_threshold ≤ level s s.current
    → (s' : Sched) × (schedule_select (sched_yield s) ≡ ok (s.current, s'))
yield_no_switch {s} {qs} inv queued top le =
    let same = y.1 in
    let t = same.threads s.current in
    let cur : (sched_yield s).current ≡ s.current = same.current in
    let m = inv.member p s.current (level-lt s s.current) queued in
    let (u, e) =
      keeps_current held top' (rw cur m.2) (rw (cur, ap (λ (c : Tcb). c.state) t) m.1)
        (rw (cur, ap (λ (c : Tcb). c.preempt_threshold) t) le) in
    (u, e ∙ ap (λ c. ok (c, u)) cur)
  where
    p : ℕ
    p = level s s.current

    y : Yielded s qs
    y = sched_yield_refines inv

    ys : Queues
    ys = put qs (level s s.current) (rotate (qs (level s s.current)))

    held : Holds (sched_yield s) ys
    held = rw queued at (y.0)

    top' : IsHighest ys (level s s.current)
    top' = record {
      in_range = top.in_range;
      here = ground (arith, is_empty-rotate (qs (level s s.current)), top.here);
      above = λ i h. ground (arith, top.above i h);
    }
