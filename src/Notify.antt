-- ===== src/Notify.antt =====
-- kernel/notification.c: notification bits of a thread, waking a thread that waits for them, and
-- delivery from softirq context. `irq_save_flags` and `irq_restore_flags` make each one step.
pub mod Async
pub mod Bits
pub mod Mask
pub mod Wake
mod Tests
use f9_kernel.Base.{
  ℕ, ◌-◌, ◌^◌, bit_and, bit_or, Bool, true, false, not, Option, none, some, ◌==◌, if◌then◌else◌,
}
use f9_kernel.Base.Bits.{bit_not}
use f9_kernel.Tcb.{Ptr, null, Tcb, runnable, is_notify_blocked}
use f9_kernel.Sched.{Sched, Run, ok, ◌>>=◌, set_tcb, sched_enqueue}
use f9_kernel.Kernel.{Kernel, inc, update_tcb}

-- `update_notify_pending`, with the bits that it follows.
abbrev pub set_bits : ℕ → Tcb → Tcb
set_bits b t = record t { notify_bits = b; notify_pending = not (b == 0) }

-- `a & ~b`
abbrev pub and_not : ℕ → ℕ → ℕ
and_not a b = bit_and a (bit_not 32 b)

-- `notification_signal`
unfoldable pub notification_signal : Ptr → ℕ → Sched → Sched
notification_signal t bits s =
    if t == null then s else set_tcb t (set_bits (bit_or (s.tcb t).notify_bits bits) (s.tcb t)) s

-- `notification_clear`
unfoldable pub notification_clear : Ptr → ℕ → Sched → Sched
notification_clear t bits s =
    if t == null then s else set_tcb t (set_bits (and_not (s.tcb t).notify_bits bits) (s.tcb t)) s

-- `notification_get`
unfoldable pub notification_get : Ptr → Sched → ℕ
notification_get t s = if t == null then 0 else (s.tcb t).notify_bits

-- `notification_get_extended`; `none` is -1. The argument `out_event` is not `NULL`.
unfoldable pub notification_get_extended : Ptr → Sched → Option (ℕ × ℕ)
notification_get_extended t s =
    if t == null then none else some ((s.tcb t).notify_bits, (s.tcb t).notify_data)

-- `notification_read_clear`
unfoldable pub notification_read_clear : Ptr → ℕ → Sched → ℕ × Sched
notification_read_clear t mask s = if t == null then (0, s) else (
  (s.tcb t).notify_bits,
  set_tcb t (set_bits (and_not (s.tcb t).notify_bits mask) (s.tcb t)) s,
)

-- The control block of a thread woken with `matched`.
abbrev pub woken : ℕ → Tcb → Tcb
woken matched t = record (set_bits (and_not t.notify_bits matched) t) {
  saved_r0 = matched;
  notify_mask = 0;
  state = runnable;
}

-- `notify_wake_thread`
unfoldable pub notify_wake_thread : Ptr → Sched → Run (Bool × Sched)
notify_wake_thread t s =
    let c = s.tcb t in
    let matched = bit_and c.notify_bits c.notify_mask in
    if t == null
    then ok (false, s)
    else if not (is_notify_blocked c.state)
    then ok (false, s)
    else if matched == 0
    then ok (false, s)
    else sched_enqueue t (set_tcb t (woken matched c) s) >>= λ s'. ok (true, s')

-- `notification_post_softirq` without CONFIG_DEBUG; the result says whether it returns 0.
unfoldable pub notification_post_softirq : Ptr → ℕ → Kernel → Run (Bool × Kernel)
notification_post_softirq t bits k =
    if t == null
    then ok (false, k)
    else if not (k.irq == 0)
    then ok (false, k)
    else notify_wake_thread t (notification_signal t bits k.sched) >>= λ (_, s). ok (
      true,
      record k {
        sched = s;
        async = record (k.async) { posted = inc k.async.posted; delivered = inc k.async.delivered };
      },
    )
