-- ===== src/Notify/Mask.antt =====
-- kernel/notification.c: notification masks, groups of event flags on which up to eight threads wait.
-- The parallel arrays of a mask are one list of slots. `max` is CONFIG_MAX_NOTIFICATIONS, and the
-- pointers to masks are not `NULL`.
pub mod Set
pub mod Slots
pub mod Wait
use f9_kernel.Base.{
  ℕ, zero, suc, ◌+◌, ◌-◌, ◌^◌, ◌%◌, bit_and, bit_or, Bool, true, false, not, ◌&&◌, Option, none,
  some, List, [], ◌∷◌, set, ◌==◌, if◌then◌else◌,
}
use f9_kernel.Tcb.{Ptr, null, nilthread}
use f9_kernel.ThreadMap.{thread_by_globalid}
use f9_kernel.Sched.{Run, ok, ◌>>=◌}
use f9_kernel.Kernel.{Kernel, inc}
use f9_kernel.Notify.{and_not}
use f9_kernel.Notify.Async.{notification_post}

-- NOTIFICATION_MASK_OR and NOTIFICATION_MASK_AND
pub data WaitOption : Type 0 where
  mask_or mask_and : WaitOption

-- One index of the arrays of a mask.
pub record Slot : Type 0 where
  pub waiter_id : ℕ
  pub waiter_mask : ℕ
  pub notify_bits : ℕ
  pub waiter_option : WaitOption

-- `notification_mask_t`
pub record NotificationMask : Type 0 where
  pub id : ℕ
  pub current_flags : ℕ
  pub slots : List Slot
  pub num_waiters : ℕ
  pub flags : ℕ
  pub name : Ptr

-- A mask with the static counters of notification.c and the kernel.
pub record Masks : Type 0 where
  pub group : NotificationMask
  pub id_counter : ℕ
  pub created : ℕ
  pub deleted : ℕ
  pub sets : ℕ
  pub clears : ℕ
  pub waits : ℕ
  pub unwaits : ℕ
  pub notifications : ℕ
  pub kernel : Kernel

-- `waiter_condition_met`
abbrev pub waiter_condition_met : ℕ → ℕ → WaitOption → Bool
waiter_condition_met current_flags waiter_mask mask_or =
    not (bit_and current_flags waiter_mask == 0)
waiter_condition_met current_flags waiter_mask mask_and =
    bit_and current_flags waiter_mask == waiter_mask

abbrev pub empty_slot : Slot
empty_slot = record {
  waiter_id = nilthread;
  waiter_mask = 0;
  notify_bits = 0;
  waiter_option = mask_or;
}

-- `clear_waiter_slots`, with its loop on `n` slots.
abbrev pub empty_slots : ℕ → List Slot
empty_slots zero = []
empty_slots (suc n) = empty_slot ∷ empty_slots n

abbrev pub clear_waiter_slots : NotificationMask → NotificationMask
clear_waiter_slots g = record g { num_waiters = 0; slots = empty_slots 8 }

-- `notification_mask_create`
unfoldable pub notification_mask_create : Ptr → Masks → Masks
notification_mask_create name m =
    let g = record (clear_waiter_slots m.group) {
      id = m.id_counter;
      current_flags = 0;
      flags = 0;
      name = name;
    } in
    record m { group = g; id_counter = inc m.id_counter; created = inc m.created }

-- `notification_mask_delete`
unfoldable pub notification_mask_delete : Masks → Masks
notification_mask_delete m = record m {
  group = record (clear_waiter_slots m.group) { current_flags = 0; id = 0 };
  deleted = inc m.deleted;
}

-- `num_waiters--` on 8 bits.
abbrev pub one_less : NotificationMask → NotificationMask
one_less g = record g { num_waiters = (g.num_waiters + 255) % 2 ^ 8 }

-- What the loop of `notification_mask_set` does with one slot.
unfoldable pub visit_slot : ℕ → Slot → Masks → Run (Slot × Masks)
visit_slot max w m =
    let waiter = thread_by_globalid m.kernel.sched.tcb m.kernel.threads w.waiter_id in
    if w.waiter_id == nilthread
    then ok (w, m)
    else if waiter == null
    then ok (empty_slot, record m { group = one_less m.group })
    else if not (waiter_condition_met m.group.current_flags w.waiter_mask w.waiter_option)
    then ok (w, m)
    else notification_post max waiter w.notify_bits m.group.current_flags m.kernel
      >>= λ (sent, kern). ok (w, record m { kernel = kern; notifications = inc m.notifications })

unfoldable pub visit_slots : ℕ → List Slot → Masks → Run (List Slot × Masks)
visit_slots max [] m = ok ([], m)
visit_slots max (w ∷ ws) m =
    visit_slot max w m >>= λ (w', m₁). visit_slots max ws m₁ >>= λ (ws', m₂). ok (w' ∷ ws', m₂)

-- `notification_mask_set`
unfoldable pub notification_mask_set : ℕ → ℕ → Masks → Run Masks
notification_mask_set max flags_to_set m =
    let g = record (m.group) { current_flags = bit_or m.group.current_flags flags_to_set } in
    visit_slots max g.slots (record m { group = g; sets = inc m.sets }) >>= λ (slots, m').
    ok (record m' { group = record (m'.group) { slots = slots } })

-- `notification_mask_clear`
unfoldable pub notification_mask_clear : ℕ → Masks → Masks
notification_mask_clear flags_to_clear m = record m {
  group = record (m.group) { current_flags = and_not m.group.current_flags flags_to_clear };
  clears = inc m.clears;
}

-- `notification_mask_get`
unfoldable pub notification_mask_get : Masks → ℕ
notification_mask_get m = m.group.current_flags

-- The search of `notification_mask_wait` from slot `i` on, where `slot` is the first free slot before
-- it: the slot of the thread, with `true`, or the first free one.
unfoldable pub find_slot : ℕ → List Slot → ℕ → Option ℕ → Option (ℕ × Bool)
find_slot gid [] i none = none
find_slot gid [] i (some slot) = some (slot, false)
find_slot gid (w ∷ ws) i none =
    let free = find_slot gid ws (i + 1) (some i) in
    let taken = find_slot gid ws (i + 1) none in
    if w.waiter_id == gid then some (i, true) else if w.waiter_id == nilthread then free else taken
find_slot gid (w ∷ ws) i (some slot) =
    let rest = find_slot gid ws (i + 1) (some slot) in
    if w.waiter_id == gid then some (i, true) else rest

-- The slot is written, and a new waiter is counted.
abbrev pub register : ℕ → Slot → Bool → Masks → Masks
register i w is_update m =
    let g = record (m.group) { slots = set m.group.slots i w } in
    if is_update then record m { group = g } else record m {
      group = record g { num_waiters = (g.num_waiters + 1) % 2 ^ 8 };
      waits = inc m.waits;
    }

-- The end of `notification_mask_wait`: the waiter is notified at once if its condition is met.
unfoldable pub notify_if : ℕ → Slot → Ptr → Masks → Run (Bool × Masks)
notify_if max w thread m =
    if waiter_condition_met m.group.current_flags w.waiter_mask w.waiter_option
    then (notification_post max thread w.notify_bits m.group.current_flags m.kernel
        >>= λ (sent, kern).
            ok (true, record m { kernel = kern; notifications = inc m.notifications }))
    else ok (true, m)

-- The part of `notification_mask_wait` after the search, with a slot found or not.
unfoldable pub wait_at : ℕ → Slot → Ptr → Option (ℕ × Bool) → Masks → Run (Bool × Masks)
wait_at max w thread none m = ok (false, m)
wait_at max w thread (some (i, is_update)) m = notify_if max w thread (register i w is_update m)

-- `notification_mask_wait` with one of the two wait options; the result says whether it returns 0.
unfoldable pub notification_mask_wait : ℕ → ℕ → WaitOption → Ptr → ℕ → Masks → Run (Bool × Masks)
notification_mask_wait max requested_flags wait_option thread notify_bit m =
    let gid = (m.kernel.sched.tcb thread).t_globalid in
    let w : Slot = record {
      waiter_id = gid;
      waiter_mask = requested_flags;
      notify_bits = notify_bit;
      waiter_option = wait_option;
    } in
    if thread == null
    then ok (false, m)
    else wait_at max w thread (find_slot gid m.group.slots 0 none) m

-- The loop of `notification_mask_unwait`; `none` if the thread has no slot.
unfoldable pub unwait_slots : ℕ → List Slot → Option (List Slot)
unwait_slots gid [] = none
unwait_slots gid (w ∷ ws) =
    let rest = unwait_slots gid ws in
    if w.waiter_id == gid then some (empty_slot ∷ ws) else keep_slot w rest
  where
    keep_slot : Slot → Option (List Slot) → Option (List Slot)
    keep_slot w none = none
    keep_slot w (some ws) = some (w ∷ ws)

abbrev pub unwait_with : Option (List Slot) → Masks → Bool × Masks
unwait_with none m = (false, m)
unwait_with (some slots) m = (
  true,
  record m { group = record (one_less m.group) { slots = slots }; unwaits = inc m.unwaits },
)

-- `notification_mask_unwait`
unfoldable pub notification_mask_unwait : Ptr → Masks → Bool × Masks
notification_mask_unwait thread m =
    if thread == null
    then (false, m)
    else unwait_with (unwait_slots (m.kernel.sched.tcb thread).t_globalid m.group.slots) m

-- `notification_mask_waiter_count`
unfoldable pub notification_mask_waiter_count : Masks → ℕ
notification_mask_waiter_count m = m.group.num_waiters
