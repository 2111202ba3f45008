-- ===== src/Kernel.antt =====
-- The kernel state that notifications, softirqs and timers share: the scheduler with the thread
-- control blocks, the thread map, kernel/softirq.c's flags and the asynchronous queue of
-- kernel/notification.c. Also `set_kernel_state` of kernel/systhread.c and `softirq_schedule`.
pub mod Example
pub mod Schedule
use f9_kernel.Base.{ℕ, ◌+◌, ◌%◌, ◌^◌, Bool, true, false, List, if◌then◌else◌}
use f9_kernel.Tcb.{Ptr, Tcb, ThreadState, runnable, is_runnable}
use f9_kernel.Sched.{Sched, Run, ok, panic, ◌>>=◌, set_tcb, sched_enqueue, sched_dequeue}
use f9_kernel.ThreadMap.{ThreadMap}

-- `softirq_type_t`
pub data SoftirqType : Type 0 where
  kte_softirq notification_softirq syscall_softirq : SoftirqType

-- `notification_async_t` without its link: the queue is a list.
pub record AsyncEvent : Type 0 where
  pub target_id : ℕ
  pub notify_bits : ℕ
  pub event_data : ℕ

-- The static variables of notification.c. `pool_used` counts the elements of
-- `notification_async_table` that are allocated.
pub record Async : Type 0 where
  pub queue : List AsyncEvent
  pub pool_used : ℕ
  pub queue_count : ℕ
  pub posted : ℕ
  pub delivered : ℕ
  pub dropped : ℕ
  pub batches : ℕ
  pub reschedules : ℕ

-- `irq` is what `irq_number()` reads: 0 outside interrupt handlers. `kernel_thread` is the thread
-- that runs the softirqs.
pub record Kernel : Type 0 where
  pub sched : Sched
  pub threads : ThreadMap
  pub async : Async
  pub pending : SoftirqType → Bool
  pub kernel_thread : Ptr
  pub irq : ℕ

-- A 32-bit counter goes up by one.
abbrev pub inc : ℕ → ℕ
inc n = (n + 1) % 2 ^ 32

abbrev pub is_type : SoftirqType → SoftirqType → Bool
is_type kte_softirq kte_softirq = true
is_type notification_softirq notification_softirq = true
is_type syscall_softirq syscall_softirq = true
is_type _ _ = false

abbrev pub with_sched : Kernel → Run Sched → Run Kernel
with_sched k r = r >>= λ s. ok (record k { sched = s })

abbrev pub update_tcb : Ptr → Tcb → Kernel → Kernel
update_tcb p t k = record k { sched = set_tcb p t k.sched }

-- `set_kernel_state`
unfoldable pub set_kernel_state : ThreadState → Kernel → Run Kernel
set_kernel_state st k =
    let t = k.kernel_thread in
    let s₁ = if is_runnable st then k.sched else sched_dequeue t k.sched in
    let s₂ = set_tcb t (record (s₁.tcb t) { state = st }) s₁ in
    with_sched k (if is_runnable st then sched_enqueue t s₂ else ok s₂)

-- `softirq_schedule`
unfoldable pub softirq_schedule : SoftirqType → Kernel → Run Kernel
unfolding set_kernel_state
softirq_schedule type k =
    set_kernel_state runnable
      (record k { pending = λ t. if is_type t type then true else k.pending t })
