-- ===== src/Notify/Mask/Wait.antt =====
-- What waiting on a notification mask promises: one slot for each waiting thread.
use f9_kernel.Base.{
  ℕ, ◌+◌, ◌^◌, ◌%◌, ◌<◌, ◌≡◌, ◌≢◌, refl, ap, ◌∙◌, sym, inl, inr, arith, Bool, true, false, ◌||◌,
  none, some, length, length-set, set, ◌==◌, ltb, Bool-cases,
}
use f9_kernel.Tcb.{nilthread, Ptr, null}
use f9_kernel.Sched.{ok}
use f9_kernel.Sched.Inv.{Queues, Holds}
use f9_kernel.Kernel.{Kernel, inc}
use f9_kernel.Notify.Async.Batch.{IsCounted}
use f9_kernel.Notify.Async.Post.{notification_post-Posted}
use f9_kernel.Notify.Mask.{
  WaitOption, Slot, NotificationMask, Masks, waiter_condition_met, one_less, register, notify_if,
  wait_at, notification_mask_wait, notification_mask_unwait,
}
use f9_kernel.Notify.Mask.Slots.{
  occupied, has_waiter, slot_of, unique, Written, find_slot-update, find_slot-free, find_slot-none,
  unwait_slots-Removed, unwait_slots-none, occupied-le,
}

-- A mask has eight slots, no thread has two of them, and the ones in use are counted.
pub record IsMask (g : NotificationMask) : Type 0 where
  pub size : length g.slots ≡ 8
  pub counts : g.num_waiters ≡ occupied g.slots
  pub once : unique g.slots ≡ true

-- The kernel can post notifications.
pub record CanPost (max : ℕ) (qs : Queues) (kern : Kernel) : Type 0 where
  pub small : max < 2 ^ 32
  pub holds : Holds kern.sched qs
  pub kernel_thread : kern.kernel_thread ≢ null
  pub counted : IsCounted max kern.async

-- The notification at once, if the condition is met, returns with the mask as it was.
record Notified (max : ℕ) (w : Slot) (thread : Ptr) (m : Masks) : Type 0 where
  after : Masks
  runs : notify_if max w thread m ≡ ok (true, after)
  group : after.group ≡ m.group

notify_if-Notified :
    {qs : Queues} (max : ℕ) (w : Slot) (thread : Ptr) (m : Masks)
    → thread ≢ null
    → CanPost max qs m.kernel
    → Notified max w thread m
unfolding notify_if
notify_if-Notified max w thread m ne c =
    elim (Bool-cases (waiter_condition_met m.group.current_flags w.waiter_mask w.waiter_option)) [
      | inl met ↦
          let p =
            notification_post-Posted max thread w.notify_bits m.group.current_flags m.kernel c.small
              c.holds ne c.kernel_thread c.counted in
          record {
            after = record m { kernel = p.after; notifications = inc m.notifications };
            runs = rw (met, p.runs) refl;
            group = refl;
          }
      | inr unmet ↦ record { after = m; runs = rw unmet refl; group = refl }
    ]

-- `wait_at` registers the waiter and does not panic.
record Registered (max : ℕ) (w : Slot) (thread : Ptr) (i : ℕ) (u : Bool) (m : Masks) : Type 0 where
  after : Masks
  runs : wait_at max w thread (some (i, u)) m ≡ ok (true, after)
  group : after.group ≡ (register i w u m).group

wait_at-Registered :
    {qs : Queues} (max : ℕ) (w : Slot) (thread : Ptr) (i : ℕ) (u : Bool) (m : Masks)
    → thread ≢ null
    → CanPost max qs m.kernel
    → Registered max w thread i u m
unfolding wait_at
wait_at-Registered max w thread i true m ne c =
    let n = notify_if-Notified max w thread (register i w true m) ne c in
    record { after = n.after; runs = n.runs; group = n.group }
wait_at-Registered max w thread i false m ne c =
    let n = notify_if-Notified max w thread (register i w false m) ne c in
    record { after = n.after; runs = n.runs; group = n.group }

-- The global id of a thread, and its slot.
abbrev pub gid_of : Masks → Ptr → ℕ
gid_of m thread = (m.kernel.sched.tcb thread).t_globalid

abbrev pub waiter : Masks → ℕ → WaitOption → Ptr → ℕ → Slot
waiter m requested_flags wait_option thread notify_bit = record {
  waiter_id = gid_of m thread;
  waiter_mask = requested_flags;
  notify_bits = notify_bit;
  waiter_option = wait_option;
}

-- A mask after a thread was registered on it, or refused.
pub record Waited (w : Slot) (g g' : NotificationMask) (done : Bool) : Type 0 where
  pub accepts : done ≡ (has_waiter w.waiter_id g.slots || ltb (occupied g.slots) 8)
  pub mask : IsMask g'
  pub mine : done ≡ true → slot_of w.waiter_id g'.slots ≡ some w
  pub others : (h : ℕ) → h ≢ nilthread → h ≢ w.waiter_id → slot_of h g'.slots ≡ slot_of h g.slots

Written-Waited :
    (w : Slot) (m : Masks) (i more : ℕ)
    → IsMask m.group
    → Written w m.group.slots i more
    → (g' : NotificationMask) → g'.slots ≡ set m.group.slots i w
    → g'.num_waiters ≡ (more + m.group.num_waiters) % 2 ^ 8
    → (has_waiter w.waiter_id m.group.slots || ltb (occupied m.group.slots) 8) ≡ true
    → Waited w m.group g' true
Written-Waited w m i more mask r g' s n room = record {
  accepts = sym room;
  mask = record {
    size = rw s (length-set m.group.slots i w ∙ mask.size);
    counts =
        let few = occupied-le (set m.group.slots i w) in
        let same = length-set m.group.slots i w in
        rw s (ground (arith, n, r.counts, few, same, mask.counts, mask.size));
    once = rw s (r.once mask.once);
  };
  mine = λ d. rw s r.mine;
  others = λ h nh ne. rw s (r.others h nh ne);
}

-- Where notifications can be posted and the mask is right, `notification_mask_wait` of a thread with
-- an id never panics. It succeeds exactly if the thread waits already
-- or a slot is free. Then the thread has the one slot with its flags, option and bit; whether it
-- succeeds or not, the slots of the other threads stay and the count of waiters is right.
pub notification_mask_wait-Waited :
    {qs : Queues} (max flags : ℕ) (opt : WaitOption) (thread : Ptr) (bits : ℕ) (m : Masks)
    → thread ≢ null
    → gid_of m thread ≢ nilthread
    → CanPost max qs m.kernel
    → IsMask m.group
    → (done : Bool) × (m' : Masks) × (notification_mask_wait max flags opt thread bits m
        ≡ ok (done, m'))
      × Waited (waiter m flags opt thread bits) m.group m'.group done
unfolding notification_mask_wait wait_at
notification_mask_wait-Waited max flags opt thread bits m ne real c mask =
    elim (Bool-cases (has_waiter w.waiter_id m.group.slots)) [
      | inl old ↦
          let (i, e, r) = find_slot-update w real m.group.slots 0 none old in
          let at : 0 + i ≡ i = omega arith in
          let done = wait_at-Registered max w thread i true m ne c in
          (
            true,
            done.after,
            rw (live, e, at) done.runs,
            Written-Waited w m i 0 mask r done.after.group
                (ap (λ (g : NotificationMask). g.slots) done.group)
                (ap (λ (g : NotificationMask). g.num_waiters) done.group ∙ small_count)
                (rw old refl),
          )
      | inr new ↦ elim (Bool-cases (ltb (occupied m.group.slots) 8)) [
        | inl room ↦
            let (i, e, r) =
              find_slot-free w real m.group.slots 0 new (ground (arith, room, mask.size)) in
            let at : 0 + i ≡ i = omega arith in
            let done = wait_at-Registered max w thread i false m ne c in
            (
              true,
              done.after,
              rw (live, e, at) done.runs,
              Written-Waited w m i 1 mask r done.after.group
                  (ap (λ (g : NotificationMask). g.slots) done.group)
                  (ap (λ (g : NotificationMask). g.num_waiters) done.group ∙ one_more)
                  (rw (new, room) refl),
            )
        | inr full ↦
            let e = find_slot-none w real m.group.slots 0 new (ground (arith, full, mask.size)) in
            (
              false,
              m,
              rw (live, e) refl,
              record {
                accepts = rw (new, full) refl;
                mask = mask;
                mine = λ d. ground arith;
                others = λ h nh o. refl;
              },
            )
      ]
    ]
  where
    w : Slot
    w = waiter m flags opt thread bits

    live : (thread == null) ≡ false
    live = ground (arith, ne)

    small_count : m.group.num_waiters ≡ (0 + m.group.num_waiters) % 2 ^ 8
    small_count = let few = occupied-le m.group.slots in ground (arith, few, mask.counts, mask.size)

    one_more : (m.group.num_waiters + 1) % 2 ^ 8 ≡ (1 + m.group.num_waiters) % 2 ^ 8
    one_more = ground arith

-- For a right mask `notification_mask_unwait` of a thread with an id succeeds exactly if the thread waits on the mask. Then it has
-- no slot any more; the slots of the other threads stay and the count of waiters is right.
pub notification_mask_unwait-Waited :
    (thread : Ptr) (m : Masks)
    → thread ≢ null
    → gid_of m thread ≢ nilthread
    → IsMask m.group
    → (m' : Masks) × (notification_mask_unwait thread m
        ≡ (has_waiter (gid_of m thread) m.group.slots, m'))
      × IsMask m'.group
      × (has_waiter (gid_of m thread) m'.group.slots ≡ false)
      × ((h : ℕ)
          → h ≢ nilthread
          → h ≢ gid_of m thread
          → slot_of h m'.group.slots ≡ slot_of h m.group.slots)
unfolding notification_mask_unwait
notification_mask_unwait-Waited thread m ne real mask =
    elim (Bool-cases (has_waiter (gid_of m thread) m.group.slots)) [
      | inl old ↦
          let (ws', e, r) = unwait_slots-Removed (gid_of m thread) real m.group.slots old in
          let few = occupied-le m.group.slots in
          (
            record m { group = record (one_less m.group) { slots = ws' }; unwaits = inc m.unwaits },
            rw (live, e, old) refl,
            record {
              size = r.size ∙ mask.size;
              counts = ground (arith, r.counts, mask.counts, few, mask.size);
              once = r.once mask.once;
            },
            r.mine mask.once,
            r.others,
          )
      | inr new ↦
          let e = unwait_slots-none (gid_of m thread) real m.group.slots new in
          (m, rw (live, e, new) refl, mask, new, λ h nh o. refl)
    ]
  where
    live : (thread == null) ≡ false
    live = ground (arith, ne)
