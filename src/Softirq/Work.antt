-- ===== src/Softirq/Work.antt =====
-- Handlers that leave less work, as `softirq_execute` asks it: the notification handler, and handlers
-- that schedule it.
use f9_kernel.Base.{ℕ, ◌+◌, ◌<◌, ◌^◌, ◌≡◌, refl, arith, Bool, true, false, if◌then◌else◌}
use f9_kernel.Sched.{ok, ◌>>=◌}
use f9_kernel.Kernel.{
  SoftirqType, kte_softirq, notification_softirq, syscall_softirq, is_type, softirq_schedule,
}
use f9_kernel.Kernel.Schedule.{softirq_schedule-Scheduled}
use f9_kernel.Ktimer.{Ktimer}
use f9_kernel.Notify.Async.Batch.{notification_async_handler-Handled}
use f9_kernel.Softirq.{SoftirqHandler, with_kernel, notification_handler}
use f9_kernel.Softirq.Contract.{Handles}
use f9_kernel.Softirq.Strand.{handled_Ready}

-- The softirqs that are pending, where those of the timer and of system calls count twice: their
-- handlers may schedule the one of the asynchronous queue.
abbrev pub flag_work : Ktimer → ℕ
flag_work k =
    let p = k.kernel.pending in
    (if p kte_softirq then 2 else 0)
    + (if p notification_softirq then 1 else 0)
    + (if p syscall_softirq then 2 else 0)

-- The notification handler keeps what `softirq_execute` asks of a handler.
pub notification_handler-Handles :
    (max : ℕ) → max < 2 ^ 32 → Handles max flag_work notification_softirq notification_handler
notification_handler-Handles max small k ready set =
    let h =
      notification_async_handler-Handled max k.kernel small ready.holds ready.thread
        ready.counted in
    record {
      after = with_kernel k h.after;
      runs = rw (h.runs) refl;
      ready = handled_Ready ready h;
      less = rw (h.others kte_softirq refl, h.others syscall_softirq refl, set) (omega arith);
    }

fewer :
    (type : SoftirqType)
    → is_type type notification_softirq ≡ false
    → (p : SoftirqType → Bool) → p type ≡ true
    → (let p' = λ (t : SoftirqType).
          if is_type t type then false else if is_type t notification_softirq then true else p t in
        (if p' kte_softirq then 2 else 0)
        + (if p' notification_softirq then 1 else 0)
        + (if p' syscall_softirq then 2 else 0))
      < (if p kte_softirq then 2 else 0)
        + (if p notification_softirq then 1 else 0)
        + (if p syscall_softirq then 2 else 0)
fewer kte_softirq other p set = rw set (ground arith)
fewer notification_softirq other p set = absurd (ground (arith, other))
fewer syscall_softirq other p set = rw set (ground arith)

-- A handler of the timer or of system calls that does no more than to schedule the softirq of the
-- asynchronous queue keeps it, too.
abbrev pub notifying_handler : SoftirqHandler
notifying_handler k =
    softirq_schedule notification_softirq k.kernel >>= λ kern. ok (with_kernel k kern)

pub notifying_handler-Handles :
    (max : ℕ) (type : SoftirqType)
    → is_type type notification_softirq ≡ false
    → Handles max flag_work type notifying_handler
notifying_handler-Handles max type other k ready set =
    let (kern, e, sch) =
      softirq_schedule-Scheduled notification_softirq k.kernel ready.holds ready.thread in
    record {
      after = with_kernel k kern;
      runs = rw e refl;
      ready = record {
        queues = sch.queues;
        holds = sch.holds;
        thread = rw (sch.kernel_thread) ready.thread;
        counted = rw (sch.async) ready.counted;
      };
      less = rw (sch.pending) (fewer type other k.kernel.pending set);
    }
