-- ===== src/Notify/Mask/Set.antt =====
-- What setting the flags of a notification mask does to its waiters.
use f9_kernel.Base.{
  ℕ, suc, ◌+◌, ◌^◌, ◌<◌, ◌≤◌, ◌≡◌, ◌≢◌, refl, ap, ◌∙◌, sym, inl, inr, arith, Bool, true, false, not,
  bit_or, List, [], ◌∷◌, map, length, fun_ext, ◌==◌, if◌then◌else◌, Bool-cases,
}
use f9_kernel.Tcb.{nilthread, Ptr, null}
use f9_kernel.ThreadMap.{thread_by_globalid}
use f9_kernel.Sched.{ok}
use f9_kernel.Sched.Inv.{Queues}
use f9_kernel.Kernel.{AsyncEvent, Kernel, inc}
use f9_kernel.Notify.Async.Deliver.{target_same}
use f9_kernel.Notify.Async.Post.{notification_post-Posted}
use f9_kernel.Notify.Mask.{
  Slot, NotificationMask, Masks, empty_slot, waiter_condition_met, one_less, visit_slot,
  visit_slots, notification_mask_set,
}
use f9_kernel.Notify.Mask.Slots.{occupied, has_waiter, unique, occupied-le}
use f9_kernel.Notify.Mask.Wait.{IsMask, CanPost}

-- Whether a thread id is that of a live thread.
abbrev pub is_alive : Kernel → ℕ → Bool
is_alive k id = not (thread_by_globalid k.sched.tcb k.threads id == null)

-- A slot with its waiter taken out if the thread is gone.
abbrev pub clean : (ℕ → Bool) → Slot → Slot
clean alive w = if w.waiter_id == nilthread then w else if alive w.waiter_id then w else empty_slot

has_waiter-clean :
    (alive : ℕ → Bool) (ws : List Slot) (h : ℕ)
    → h ≢ nilthread
    → has_waiter h ws ≡ false
    → has_waiter h (map (clean alive) ws) ≡ false
has_waiter-clean alive [] h nh none_has = refl
has_waiter-clean alive (w ∷ ws) h nh none_has = ground (arith, has_waiter-clean alive ws h nh)

unique-clean :
    (alive : ℕ → Bool) (ws : List Slot) → unique ws ≡ true → unique (map (clean alive) ws) ≡ true
unique-clean alive [] u = refl
unique-clean alive (w ∷ ws) u = elim (Bool-cases (w.waiter_id == nilthread)) [
  | inl free ↦ ground (arith, free, unique-clean alive ws, u)
  | inr used ↦ elim (Bool-cases (alive w.waiter_id)) [
    | inl live ↦ ground (
      arith,
      used,
      live,
      unique-clean alive ws,
      has_waiter-clean alive ws w.waiter_id (ground arith),
      u,
    )
    | inr dead ↦ ground (arith, used, dead, unique-clean alive ws, u)
  ]
]

length-clean : (alive : ℕ → Bool) (ws : List Slot) → length (map (clean alive) ws) ≡ length ws
length-clean alive [] = refl
length-clean alive (w ∷ ws) = ap suc (length-clean alive ws)

occupied-cons : (w : Slot) (ws : List Slot) → occupied (w ∷ ws) ≡ occupied (w ∷ []) + occupied ws
occupied-cons w ws = ground arith

occupied-clean_le :
    (alive : ℕ → Bool) (w : Slot) → occupied (clean alive w ∷ []) ≤ occupied (w ∷ [])
occupied-clean_le alive w = ground arith

-- The kernel after notifications were posted finds the same threads.
record Kept (k k' : Kernel) : Type 0 where
  threads : k'.threads ≡ k.threads
  ids : (q : Ptr) → (k'.sched.tcb q).t_globalid ≡ (k.sched.tcb q).t_globalid

is_alive-Kept : (k k' : Kernel) → Kept k k' → is_alive k' ≡ is_alive k
is_alive-Kept k k' kept = fun_ext λ id.
    let e : AsyncEvent = record { target_id = id; notify_bits = 0; event_data = 0 } in
    ap (λ t. not (t == null)) (target_same k k' kept.threads kept.ids e)

-- One slot after the loop has visited it.
record VisitedSlot (max : ℕ) (w : Slot) (m : Masks) : Type 0 where
  after : Masks
  runs : visit_slot max w m ≡ ok (clean (is_alive m.kernel) w, after)
  slots : after.group.slots ≡ m.group.slots
  flags : after.group.current_flags ≡ m.group.current_flags
  counts :
      after.group.num_waiters + occupied (w ∷ [])
      ≡ m.group.num_waiters + occupied (clean (is_alive m.kernel) w ∷ [])
  queues : Queues
  can_post : CanPost max queues after.kernel
  kept : Kept m.kernel after.kernel

visit_slot-Visited :
    {qs : Queues} (max : ℕ) (w : Slot) (m : Masks)
    → CanPost max qs m.kernel
    → occupied (w ∷ []) ≤ m.group.num_waiters
    → m.group.num_waiters < 2 ^ 8
    → VisitedSlot max w m
unfolding visit_slot
visit_slot-Visited {qs} max w m c le small = elim (Bool-cases (w.waiter_id == nilthread)) [
  | inl free ↦ record {
    after = m;
    runs = rw free refl;
    slots = refl;
    flags = refl;
    counts = let same : clean (is_alive m.kernel) w ≡ w = rw free refl in rw same refl;
    queues = qs;
    can_post = c;
    kept = record { threads = refl; ids = λ q. refl };
  }
  | inr used ↦ elim (Bool-cases (is_alive m.kernel w.waiter_id)) [
    | inr dead ↦
        let gone : (thread_by_globalid m.kernel.sched.tcb m.kernel.threads w.waiter_id == null)
            ≡ true =
          ground arith in
        let out : clean (is_alive m.kernel) w ≡ empty_slot = rw (used, dead) refl in
        record {
          after = record m { group = one_less m.group };
          runs = rw (out, used, gone) refl;
          slots = refl;
          flags = refl;
          counts = rw (out, used) (ground (arith, rw used at le));
          queues = qs;
          can_post = c;
          kept = record { threads = refl; ids = λ q. refl };
        }
    | inl live ↦
        elim (Bool-cases
          (waiter_condition_met m.group.current_flags w.waiter_mask w.waiter_option)) [
            | inr unmet ↦
                let there : (thread_by_globalid m.kernel.sched.tcb m.kernel.threads w.waiter_id
                      == null)
                    ≡ false =
                  ground arith in
                let same : clean (is_alive m.kernel) w ≡ w = rw (used, live) refl in
                record {
                  after = m;
                  runs = rw (same, used, there, unmet) refl;
                  slots = refl;
                  flags = refl;
                  counts = rw same refl;
                  queues = qs;
                  can_post = c;
                  kept = record { threads = refl; ids = λ q. refl };
                }
            | inl met ↦
                let waiter = thread_by_globalid m.kernel.sched.tcb m.kernel.threads w.waiter_id in
                let there : (waiter == null) ≡ false = ground arith in
                let same : clean (is_alive m.kernel) w ≡ w = rw (used, live) refl in
                let p =
                  notification_post-Posted max waiter w.notify_bits m.group.current_flags m.kernel
                    c.small c.holds (ground (arith, there)) c.kernel_thread c.counted in
                record {
                  after = record m { kernel = p.after; notifications = inc m.notifications };
                  runs = rw (same, used, there, met, p.runs) refl;
                  slots = refl;
                  flags = refl;
                  counts = rw same refl;
                  queues = p.queues;
                  can_post = record {
                    small = c.small;
                    holds = p.holds;
                    kernel_thread = rw (p.kernel_thread) c.kernel_thread;
                    counted = p.counted;
                  };
                  kept = record { threads = p.threads; ids = p.ids };
                }
          ]
  ]
]

-- The slots from some index on after the loop has visited them.
record Visited (max : ℕ) (ws : List Slot) (m : Masks) : Type 0 where
  after : Masks
  runs : visit_slots max ws m ≡ ok (map (clean (is_alive m.kernel)) ws, after)
  flags : after.group.current_flags ≡ m.group.current_flags
  counts :
      after.group.num_waiters + occupied ws
      ≡ m.group.num_waiters + occupied (map (clean (is_alive m.kernel)) ws)

add_steps :
    (n n₁ n₂ a b a' b' : ℕ) → n₁ + a ≡ n + a' → n₂ + b ≡ n₁ + b' → n₂ + (a + b) ≡ n + (a' + b')
add_steps n n₁ n₂ a b a' b' first then_rest = omega (arith, first, then_rest)

visit_slots-Visited :
    (max : ℕ) (ws : List Slot) (m : Masks) (qs : Queues)
    → CanPost max qs m.kernel
    → occupied ws ≤ m.group.num_waiters
    → m.group.num_waiters < 2 ^ 8
    → Visited max ws m
unfolding visit_slots
visit_slots-Visited max [] m qs c le small = record {
  after = m;
  runs = refl;
  flags = refl;
  counts = refl;
}
visit_slots-Visited max (w ∷ ws) m qs c le small =
    let v = visit_slot-Visited max w m c (ground (arith, le)) small in
    let same : is_alive v.after.kernel ≡ is_alive m.kernel =
      is_alive-Kept m.kernel v.after.kernel v.kept in
    let here = occupied-le (w ∷ []) in
    let clean_le = occupied-clean_le (is_alive m.kernel) w in
    let more : occupied (w ∷ ws) ≡ occupied (w ∷ []) + occupied ws = occupied-cons w ws in
    let r =
      visit_slots-Visited max ws v.after v.queues v.can_post (omega (arith, v.counts, more, le))
        (omega (arith, v.counts, clean_le, small)) in
    record {
      after = r.after;
      runs = rw (v.runs, r.runs, same) refl;
      flags = r.flags ∙ v.flags;
      counts =
          let alive = is_alive m.kernel in
          let rest : r.after.group.num_waiters + occupied ws
              ≡ v.after.group.num_waiters + occupied (map (clean alive) ws) =
            rw same at r.counts in
          ap (λ n. r.after.group.num_waiters + n) more
          ∙ add_steps _ _ _ (occupied (w ∷ [])) (occupied ws) _ _ v.counts rest
          ∙ sym (
              ap (λ n. m.group.num_waiters + n)
                (occupied-cons (clean alive w) (map (clean alive) ws)));
    }

-- Where notifications can be posted and the mask is right, `notification_mask_set` never panics. The flags are added to those of the mask, waiters whose
-- threads are gone lose their slots, all other slots stay, and the count of waiters is right.
pub notification_mask_set-IsMask :
    {qs : Queues} (max flags : ℕ) (m : Masks)
    → CanPost max qs m.kernel
    → IsMask m.group
    → (m' : Masks) × (notification_mask_set max flags m ≡ ok m')
      × (m'.group.current_flags ≡ bit_or m.group.current_flags flags)
      × (m'.group.slots ≡ map (clean (is_alive m.kernel)) m.group.slots)
      × IsMask m'.group
unfolding notification_mask_set
notification_mask_set-IsMask {qs} max flags m c mask =
    let g : NotificationMask = record (m.group) {
      current_flags = bit_or m.group.current_flags flags;
    } in
    let m₁ : Masks = record m { group = g; sets = inc m.sets } in
    let few = occupied-le m.group.slots in
    let v =
      visit_slots-Visited max g.slots m₁ qs c (omega (arith, mask.counts))
        (omega (arith, mask.counts, few, mask.size)) in
    let slots = map (clean (is_alive m.kernel)) m.group.slots in
    (
      record (v.after) { group = record (v.after.group) { slots = slots } },
      rw (v.runs) refl,
      v.flags,
      refl,
      record {
        size = length-clean (is_alive m.kernel) m.group.slots ∙ mask.size;
        counts = omega (arith, v.counts, mask.counts);
        once = unique-clean (is_alive m.kernel) m.group.slots mask.once;
      },
    )
