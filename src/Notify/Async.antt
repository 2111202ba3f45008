-- ===== src/Notify/Async.antt =====
-- kernel/notification.c: the asynchronous queue, `notification_post` and the softirq that delivers
-- its events in batches. The queue is a list; of the pool `notification_async_table` the number of
-- allocated elements is kept, and `max` is CONFIG_MAX_NOTIFICATIONS, its size.
pub mod Batch
pub mod Deliver
pub mod Post
use f9_kernel.Base.{
  ℕ, zero, suc, ◌+◌, ◌-◌, ◌^◌, ◌%◌, bit_or, Bool, true, false, not, List, [], ◌∷◌, ◌++◌, ◌==◌, leb,
  ltb, if◌then◌else◌,
}
use f9_kernel.Tcb.{Ptr, null, Tcb}
use f9_kernel.ThreadMap.{thread_by_globalid}
use f9_kernel.Sched.{Sched, Run, ok, ◌>>=◌, set_tcb}
use f9_kernel.Kernel.{AsyncEvent, Async, Kernel, inc, softirq_schedule, notification_softirq}
use f9_kernel.Notify.{set_bits, notify_wake_thread}

-- NOTIFICATION_BATCH_SIZE
abbrev pub batch_size : ℕ
batch_size = 4

-- A 32-bit counter goes down by one.
abbrev pub dec : ℕ → ℕ
dec n = (n + (2 ^ 32 - 1)) % 2 ^ 32

-- The event is at the tail of the queue, and an element of the pool is in use for it.
abbrev pub append_event : AsyncEvent → Async → Async
append_event e a = record a {
  queue = a.queue ++ (e ∷ []);
  pool_used = a.pool_used + 1;
  queue_count = inc a.queue_count;
  posted = inc a.posted;
}

-- `notification_post`; the result says whether it returns 0.
unfoldable pub notification_post : ℕ → Ptr → ℕ → ℕ → Kernel → Run (Bool × Kernel)
notification_post max t bits data_ k =
    let e : AsyncEvent = record {
      target_id = (k.sched.tcb t).t_globalid;
      notify_bits = bits;
      event_data = data_;
    } in
    if t == null
    then ok (false, k)
    else if leb max k.async.pool_used
    then ok (false, record k { async = record (k.async) { dropped = inc k.async.dropped } })
    else softirq_schedule notification_softirq (record k { async = append_event e k.async })
      >>= λ k'. ok (true, k')

-- The thread that an event is for, `null` if it is gone.
abbrev pub target : Kernel → AsyncEvent → Ptr
target k e = thread_by_globalid k.sched.tcb k.threads e.target_id

-- The event is off the queue, and its element is back in the pool.
abbrev pub free_event : Async → Async
free_event a = record a { pool_used = a.pool_used - 1; queue_count = dec a.queue_count }

-- What the handler does with the event of a live thread.
unfoldable pub deliver_event : AsyncEvent → Kernel → Run Kernel
deliver_event e k =
    let t = target k e in
    let c = k.sched.tcb t in
    let c' = record (set_bits (bit_or c.notify_bits e.notify_bits) c) {
      notify_data = e.event_data;
    } in
    notify_wake_thread t (set_tcb t c' k.sched) >>= λ (woke, s).
    ok (record k { sched = s; async = free_event k.async })

-- The loop of `notification_async_handler` on the events in the queue, `delivered` of which are
-- delivered. The first component of the result is `delivered` at the end.
unfoldable pub batch_loop : List AsyncEvent → ℕ → Kernel → Run (ℕ × Kernel)
batch_loop [] delivered k = ok (delivered, k)
batch_loop (e ∷ es) delivered k =
    let k₁ = record k { async = record (k.async) { queue = es } } in
    let dead = batch_loop es delivered (record k₁ { async = free_event k₁.async }) in
    let live = deliver_event e k₁ >>= batch_loop es (delivered + 1) in
    if ltb delivered batch_size
    then if target k₁ e == null then dead else live
    else ok (delivered, k)

abbrev pub reschedule_rest : Kernel → List AsyncEvent → Run Kernel
reschedule_rest k [] = ok k
reschedule_rest k (e ∷ es) = softirq_schedule notification_softirq k >>= λ k'.
    ok (record k' { async = record (k'.async) { reschedules = inc k'.async.reschedules } })

-- `notification_async_handler`
unfoldable pub notification_async_handler : Kernel → Run Kernel
notification_async_handler k =
    let k₁ = record k { async = record (k.async) { batches = inc k.async.batches } } in
    batch_loop k₁.async.queue 0 k₁ >>= λ (delivered, k₂).
    reschedule_rest
      (record k₂ {
        async = record (k₂.async) { delivered = (k₂.async.delivered + delivered) % 2 ^ 32 };
      })
      k₂.async.queue

-- `notification_queue_depth`
unfoldable pub notification_queue_depth : Kernel → ℕ
notification_queue_depth k = k.async.queue_count

-- `notification_queue_full`
unfoldable pub notification_queue_full : ℕ → Kernel → Bool
notification_queue_full max k = leb max k.async.queue_count
