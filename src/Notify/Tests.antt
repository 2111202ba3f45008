-- ===== src/Notify/Tests.antt =====
-- Runs of notifications on a concrete state.
use f9_kernel.Base.{
  ◌+◌, ◌%◌, ◌<◌, ◌*◌, ◌^◌, ◌≡◌, ◌≢◌, refl, true, false, not, Bool, bit_and, bit_or, map, [], ◌∷◌,
  arith, ◌==◌,
}
use f9_kernel.Tcb.{Ptr, null, runnable}
use f9_kernel.ThreadMap.{thread_by_globalid, thread_map_search, search_loop}
use f9_kernel.Sched.{Sched, ok}
use f9_kernel.Sched.Inv.{Holds, level, put, enqueue}
use f9_kernel.Sched.Links.{strip}
use f9_kernel.Sched.Example.{example, example_queues, example-Holds}
use f9_kernel.Kernel.{Kernel}
use f9_kernel.Kernel.Example.{example_kernel, example_async, event}
use f9_kernel.Notify.{and_not, notify_wake_thread}
use f9_kernel.Notify.Wake.{notify_wake_thread_wakes}
use f9_kernel.Notify.Async.{batch_size, notification_async_handler}
use f9_kernel.Notify.Async.Batch.{
  IsCounted, Handled, is_live, count_live, notification_async_handler-Handled, handler_drains_dead,
}
use f9_kernel.Notify.Async.Post.{Posted, notification_post-Posted}
use f9_kernel.Notify.Mask.{
  mask_or, mask_and, Slot, NotificationMask, Masks, empty_slots, notification_mask_set,
  notification_mask_wait,
}
use f9_kernel.Notify.Mask.Set.{is_alive, clean, notification_mask_set-IsMask}
use f9_kernel.Notify.Mask.Wait.{IsMask, CanPost, Waited, waiter, notification_mask_wait-Waited}

notify_wake_thread_example :
    let matched = bit_and (example.tcb 3).notify_bits (example.tcb 3).notify_mask in
    (s' : Sched) × (notify_wake_thread 3 example ≡ ok (true, s'))
    × Holds s' (put example_queues (level example 3) (enqueue 3 (example_queues (level example 3))))
    × ((s'.tcb 3).saved_r0 ≡ matched)
    × ((s'.tcb 3).notify_bits ≡ and_not (example.tcb 3).notify_bits matched)
    × ((s'.tcb 3).notify_pending ≡ not (and_not (example.tcb 3).notify_bits matched == 0))
    × ((s'.tcb 3).notify_mask ≡ 0)
    × ((s'.tcb 3).state ≡ runnable)
    × ((q : Ptr) → q ≢ 3 → strip (s'.tcb q) ≡ strip (example.tcb q))
notify_wake_thread_example =
    notify_wake_thread_wakes example-Holds 3 (ground arith) refl (ground arith)

example-IsCounted : IsCounted 16 example_kernel.async
example-IsCounted = record { counts = refl; pool = refl; fits = omega arith }

notification_async_handler_example : Handled 16 example_kernel
notification_async_handler_example =
    notification_async_handler-Handled 16 example_kernel (omega arith) example-Holds (ground arith)
      example-IsCounted

notification_post_example : Posted 16 2 5 9 example_kernel
notification_post_example =
    notification_post-Posted 16 2 5 9 example_kernel (omega arith) example-Holds (ground arith)
      (ground arith) example-IsCounted

-- The same kernel with an event for thread 3 behind six events for a thread that is gone.
abbrev deserted : Kernel
deserted = record example_kernel {
  async = record example_async {
    queue = event 9 ∷ event 9 ∷ event 9 ∷ event 9 ∷ event 9 ∷ event 9 ∷ event 3 ∷ [];
    pool_used = 7;
    queue_count = 7;
  };
}

deserted-IsCounted : IsCounted 16 deserted.async
deserted-IsCounted = record { counts = refl; pool = refl; fits = omega arith }

gone : is_live deserted (event 9) ≡ false
unfolding thread_by_globalid thread_map_search search_loop
gone = refl

lives : is_live deserted (event 3) ≡ true
unfolding thread_by_globalid thread_map_search search_loop
lives = refl

one_lives : count_live (is_live deserted) deserted.async.queue < batch_size
one_lives = rw (gone, lives) (omega arith)

handler_drains_dead_example :
    (k' : Kernel) × (notification_async_handler deserted ≡ ok k')
    × (k'.async.queue ≡ [])
    × (k'.async.delivered ≡ (0 + count_live (is_live deserted) deserted.async.queue) % 2 ^ 32)
handler_drains_dead_example =
    handler_drains_dead 16 deserted (omega arith) example-Holds (ground arith) deserted-IsCounted
      one_lives

-- A mask on which thread 3 waits.
abbrev three_waits : Slot
three_waits = record {
  waiter_id = 3 * 2 ^ 14;
  waiter_mask = 2;
  notify_bits = 1;
  waiter_option = mask_and;
}

abbrev example_mask : NotificationMask
example_mask = record {
  id = 1;
  current_flags = 6;
  slots = three_waits ∷ empty_slots 7;
  num_waiters = 1;
  flags = 0;
  name = null;
}

abbrev example_masks : Masks
example_masks = record {
  group = example_mask;
  id_counter = 2;
  created = 1;
  deleted = 0;
  sets = 0;
  clears = 0;
  waits = 1;
  unwaits = 0;
  notifications = 0;
  kernel = example_kernel;
}

example-IsMask : IsMask example_mask
example-IsMask = record { size = refl; counts = refl; once = refl }

example-CanPost : CanPost 16 example_queues example_kernel
example-CanPost = record {
  small = omega arith;
  holds = example-Holds;
  kernel_thread = ground arith;
  counted = example-IsCounted;
}

notification_mask_wait_example :
    (done : Bool) × (m' : Masks) × (notification_mask_wait 16 4 mask_or 2 8 example_masks
      ≡ ok (done, m'))
    × Waited (waiter example_masks 4 mask_or 2 8) example_mask m'.group done
notification_mask_wait_example =
    notification_mask_wait-Waited 16 4 mask_or 2 8 example_masks (ground arith) (ground arith)
      example-CanPost example-IsMask

notification_mask_set_example :
    (m' : Masks) × (notification_mask_set 16 1 example_masks ≡ ok m')
    × (m'.group.current_flags ≡ bit_or 6 1)
    × (m'.group.slots ≡ map (clean (is_alive example_kernel)) example_mask.slots)
    × IsMask m'.group
notification_mask_set_example =
    notification_mask_set-IsMask 16 1 example_masks example-CanPost example-IsMask
