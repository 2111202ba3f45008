-- ===== src/Syscall.antt =====
-- kernel/syscall.c: the system calls, as the kernel thread runs them in a softirq, and the dispatch on
-- their number. `param1[REG_R0]` is the word `saved_r0` of the caller. The results of
-- `sys_thread_control` and `sys_ipc` are parameters of the dispatch.
pub mod Caller
pub mod Clock
pub mod Dispatch
pub mod Kept
pub mod Notify
pub mod Post
pub mod Schedule
mod Tests
use f9_kernel.Base.{
  ℕ, ◌*◌, ◌/◌, ◌%◌, ◌^◌, bit_and, bit_or, Bool, true, false, not, ◌&&◌, ◌||◌, Option, none, some,
  ltb, ◌==◌, if◌then◌else◌,
}
use f9_kernel.Tcb.{
  Ptr, null, ThreadState, inactive, runnable, svc_blocked, recv_blocked, send_blocked,
  notify_blocked, Tcb,
}
use f9_kernel.ThreadMap.{ThreadMap, thread_by_globalid}
use f9_kernel.Sched.{
  Sched, Run, ok, ◌>>=◌, set_tcb, priority_levels, sched_enqueue, sched_dequeue, sched_set_priority,
  sched_preemption_change,
}
use f9_kernel.Kernel.{Kernel, with_sched, softirq_schedule, syscall_softirq}
use f9_kernel.Notify.{notification_signal, notification_clear, notification_get, notify_wake_thread}
use f9_kernel.Ktimer.{KtimerEvent, Ktimer, ktimer_event_create_notify}

-- `syscall_t`
pub data SyscallNumber : Type 0 where
  kernel_interface exchange_registers thread_control system_clock thread_switch schedule ipc lipc
        unmap space_control processor_control memory_control timer_notify notify_wait notify_post
        notify_clear :
      SyscallNumber

-- The caller's saved registers but R0: R1 to R3 of the exception frame, and `ctx.regs`, which starts
-- with R4.
pub record Frame : Type 0 where
  pub r1 : ℕ
  pub r2 : ℕ
  pub r3 : ℕ
  pub regs : ℕ → ℕ

-- What the system calls change: the kernel with its timer, the caller's frame, and the words of user
-- memory, which are none of the kernel's own.
pub record Syscall : Type 0 where
  pub caller : Ptr
  pub frame : Frame
  pub user : Ptr → ℕ
  pub ktimer : Ktimer

abbrev pub sched_of : Syscall → Sched
sched_of k = k.ktimer.kernel.sched

-- `param1[REG_R0] = v`
abbrev pub set_r0 : Ptr → ℕ → Sched → Sched
set_r0 caller v s = set_tcb caller (record (s.tcb caller) { saved_r0 = v }) s

-- `caller->state = T_RUNNABLE; sched_enqueue(caller);`
unfoldable pub resume : Ptr → Sched → Run Sched
resume caller s =
    sched_enqueue caller (set_tcb caller (record (s.tcb caller) { state = runnable }) s)

-- The caller with a result, no longer waiting.
abbrev pub returned : ℕ → Tcb → Tcb
returned v t = record t { saved_r0 = v; notify_mask = 0 }

abbrev pub waiting : ℕ → Tcb → Tcb
waiting mask t = record t { notify_mask = mask; state = notify_blocked }

-- `sys_notify_wait`
unfoldable pub sys_notify_wait : Ptr → Sched → Run Sched
sys_notify_wait caller s =
    let mask = (s.tcb caller).saved_r0 in
    let matched = bit_and (notification_get caller s) mask in
    let s₁ = notification_clear caller matched s in
    if mask == 0
    then resume caller (set_tcb caller (returned 0 (s.tcb caller)) s)
    else if not (matched == 0)
    then resume caller (set_tcb caller (returned matched (s₁.tcb caller)) s₁)
    else ok (set_tcb caller (waiting mask (s.tcb caller)) s)

-- `sys_notify_post`
unfoldable pub sys_notify_post : Ptr → Frame → ThreadMap → Sched → Run Sched
sys_notify_post caller f m s =
    let bits = f.r1 in
    let target = thread_by_globalid s.tcb m (s.tcb caller).saved_r0 in
    if bits == 0
    then ok (set_r0 caller 0 s)
    else if target == null
    then ok (set_r0 caller 0 s)
    else notify_wake_thread target (notification_signal target bits s) >>= λ (_, s₁).
        ok (set_r0 caller 1 s₁)

-- `sys_notify_clear`
unfoldable pub sys_notify_clear : Ptr → Sched → Sched
sys_notify_clear caller s =
    let bits = (s.tcb caller).saved_r0 in
    let cleared = bit_and (notification_get caller s) bits in
    if bits == 0
    then set_r0 caller 0 s
    else set_r0 caller cleared (notification_clear caller cleared s)

-- The results of `sys_schedule`.
abbrev pub schedresult_error : ℕ
schedresult_error = 0

abbrev pub schedresult : ThreadState → ℕ
schedresult inactive = 2
schedresult runnable = 3
schedresult send_blocked = 5
schedresult svc_blocked = 6
schedresult notify_blocked = 6
schedresult recv_blocked = 7

-- `sys_schedule` from the priority on; 255 means that it does not change.
unfoldable pub change_priority : Ptr → ℕ → Sched → Run Sched
change_priority target new s =
    if not (new == 255) && ltb new priority_levels
    then (sched_set_priority target new s >>= λ s₁.
        ok
          (set_tcb target (record (s₁.tcb target) { user_priority = new; base_priority = new }) s₁))
    else ok s

-- The threshold; `none` is an error.
unfoldable pub change_threshold : Ptr → ℕ → Sched → Option Sched
change_threshold target new s =
    if new == 255
    then some s
    else (elim (sched_preemption_change target new s) [ none ↦ none | some (old, s₁) ↦ some s₁ ])

abbrev pub report : Ptr → Ptr → Sched → Option Sched → Sched
report caller target s none = set_r0 caller schedresult_error s
report caller target s (some s₁) = set_r0 caller (schedresult (s₁.tcb target).state) s₁

-- `*old_control = (target->preempt_threshold << 16) | target->priority`
abbrev pub save_control : Ptr → Tcb → (Ptr → ℕ) → Ptr → ℕ
save_control old_control t user p =
    if not (old_control == 0) && (p == old_control)
    then bit_or (t.preempt_threshold * 2 ^ 16) t.priority
    else user p

-- `sys_schedule`
unfoldable pub sys_schedule : Ptr → Frame → ThreadMap → (Ptr → ℕ) → Sched → Run ((Ptr → ℕ) × Sched)
sys_schedule caller f m user s =
    let target = thread_by_globalid s.tcb m (s.tcb caller).saved_r0 in
    let new_priority = f.r3 % 2 ^ 8 in
    let new_threshold = f.regs 0 / 2 ^ 16 % 2 ^ 8 in
    if target == null
    then ok (user, set_r0 caller schedresult_error s)
    else change_priority target new_priority s >>= λ s₁. ok (
      save_control (f.regs 1) (s.tcb target) user,
      report caller target s₁ (change_threshold target new_threshold s₁),
    )

abbrev pub handle : Option KtimerEvent → Ptr
handle none = null
handle (some e) = e.id

abbrev pub with_r0 : Ptr → ℕ → Ktimer → Ktimer
with_r0 caller v k = record k {
  kernel = record (k.kernel) { sched = set_r0 caller v k.kernel.sched };
}

abbrev pub give_handle : Ptr → Option KtimerEvent × Ktimer → Ktimer
give_handle caller (e, k) = with_r0 caller (handle e) k

-- `sys_timer_notify`, without its debug output. `max` and `fresh` are those of
-- `ktimer_event_create_notify`.
unfoldable pub sys_timer_notify : ℕ → Ptr → Ptr → Frame → Ktimer → Ktimer
sys_timer_notify max fresh caller f k =
    let ticks = (k.kernel.sched.tcb caller).saved_r0 in
    let current = k.kernel.sched.current in
    if (ticks == 0) || (f.r1 == 0)
    then with_r0 caller 0 k
    else give_handle caller
        (ktimer_event_create_notify max fresh ticks current f.r1 (not (f.r2 == 0)) k)

-- USEC_PER_TICK_FP, by TICKS_PER_SEC
abbrev pub usec_per_tick_fp : ℕ → ℕ
usec_per_tick_fp ticks_per_sec = 1000000 * 2 ^ 16 / ticks_per_sec

-- The microseconds of `sys_system_clock`.
unfoldable pub usec_at : ℕ → ℕ → ℕ
usec_at ticks_per_sec ticks = ticks * usec_per_tick_fp ticks_per_sec % 2 ^ 64 / 2 ^ 16

-- `sys_system_clock`
unfoldable pub sys_system_clock : ℕ → Syscall → Syscall
unfolding usec_at
sys_system_clock ticks_per_sec k =
    let usec = usec_at ticks_per_sec k.ktimer.ktimer_now in
    record k {
      ktimer = with_r0 k.caller (usec % 2 ^ 32) k.ktimer;
      frame = record (k.frame) { r1 = usec / 2 ^ 32 % 2 ^ 32 };
    }

abbrev pub put_sched : Syscall → Sched → Syscall
put_sched k s = record k {
  ktimer = record (k.ktimer) { kernel = record (k.ktimer.kernel) { sched = s } };
}

abbrev pub lift_sched : Syscall → Run Sched → Run Syscall
lift_sched k r = r >>= λ s. ok (put_sched k s)

-- A system call that does not block: the caller goes on.
unfoldable pub finish_call : Run Syscall → Run Syscall
unfolding resume
finish_call r = r >>= λ k. lift_sched k (resume k.caller (sched_of k))

-- What the platform and the other files give: TICKS_PER_SEC, the pool of timer events with the address
-- that it gives next, and the two system calls that are not modelled here.
pub record Environment : Type 0 where
  pub ticks_per_sec : ℕ
  pub max_events : ℕ
  pub fresh : Syscall → Ptr
  pub sys_thread_control : Syscall → Run Syscall
  pub sys_ipc : Syscall → Run Syscall

module _ (env : Environment) where
  open env use {ticks_per_sec, max_events, fresh, sys_thread_control, sys_ipc}

  -- `syscall_handler` for a number of `syscall_t`.
  unfoldable pub dispatch : SyscallNumber → Syscall → Run Syscall
  dispatch thread_control k = finish_call (sys_thread_control k)
  dispatch schedule k = finish_call (
      sys_schedule k.caller k.frame k.ktimer.kernel.threads k.user (sched_of k) >>= λ (user, s).
      ok (put_sched (record k { user = user }) s))
  dispatch system_clock k = finish_call (ok (sys_system_clock ticks_per_sec k))
  dispatch timer_notify k =
      finish_call
        (ok (record k { ktimer = sys_timer_notify max_events (fresh k) k.caller k.frame k.ktimer }))
  dispatch notify_wait k = lift_sched k (sys_notify_wait k.caller (sched_of k))
  dispatch notify_post k =
      finish_call
        (lift_sched k (sys_notify_post k.caller k.frame k.ktimer.kernel.threads (sched_of k)))
  dispatch notify_clear k = finish_call (ok (put_sched k (sys_notify_clear k.caller (sched_of k))))
  dispatch ipc k = sys_ipc k
  dispatch _ k = finish_call (ok k)

-- `__svc_handler` from the caller's block on, where the fast path of IPC does not take the call.
unfoldable pub svc_block : Ptr → Kernel → Run Kernel
svc_block caller k =
    let s = sched_dequeue caller k.sched in
    let s₁ = set_tcb caller (record (s.tcb caller) { state = svc_blocked }) s in
    softirq_schedule syscall_softirq (record k { sched = s₁ })

-- `__svc_handler`. `fastpath` is `ipc_fastpath_helper`: `none` where it does not take the call.
-- The result has the caller, unless it was the kernel that asked for a context switch.
unfoldable pub svc_handler :
    (Ptr → Kernel → Option Kernel) → SyscallNumber → Ptr → Kernel → Run (Ptr × Kernel)
unfolding svc_block
svc_handler fastpath number caller k =
    let current = k.sched.current in
    let slow = svc_block current k >>= λ k₁. ok (current, k₁) in
    if current == k.kernel_thread then ok (caller, k) else elim number [
      | ipc ↦ elim (fastpath current k) [ none ↦ slow | some k₁ ↦ ok (current, k₁) ]
      | _ ↦ slow
    ]
