-- ===== src/Syscall/Dispatch.antt =====
-- From the SVC instruction through the softirq: the caller of a system call gets to run again.
use f9_kernel.Base.{
  ℕ, ◌<◌, ◌≡◌, ◌≢◌, refl, ap, ◌∙◌, arith, Bool, true, false, Option, ◌==◌, inl, inr, has, erase,
  has-erase_self, Bool-cases,
}
use f9_kernel.Tcb.{Ptr, null, Tcb, runnable, svc_blocked}
use f9_kernel.Sched.{ok, ◌>>=◌, clamp, set_tcb, sched_dequeue}
use f9_kernel.Sched.Links.{strip}
use f9_kernel.Sched.Inv.{Queues, Holds, level, level-lt, put}
use f9_kernel.Sched.Store.{tcb-set_tcb_self, set_tcb_queued-Holds}
use f9_kernel.Sched.Dequeue.{sched_dequeue_refines}
use f9_kernel.Kernel.{Kernel, syscall_softirq}
use f9_kernel.Kernel.Schedule.{softirq_schedule-Scheduled}
use f9_kernel.Syscall.{
  SyscallNumber, thread_control, system_clock, schedule, timer_notify, notify_wait, notify_post,
  notify_clear, ipc, kernel_interface, exchange_registers, thread_switch, lipc, unmap,
  space_control, processor_control, memory_control, Syscall, Environment, sched_of, finish_call,
  dispatch, sys_system_clock, svc_block, svc_handler,
}
use f9_kernel.Syscall.Kept.{clear-Holds, post-Holds, schedule-Holds, timer-Holds}
use f9_kernel.Syscall.Caller.{finish_call-Finished}
use f9_kernel.Syscall.Schedule.{set_r0-Holds}

-- The system calls that neither wait nor are parameters of the dispatch.
abbrev pub is_immediate : SyscallNumber → Bool
is_immediate thread_control = false
is_immediate notify_wait = false
is_immediate ipc = false
is_immediate _ = true

-- The caller goes on: it is runnable and in the queue of its level.
pub record GoesOn (caller : Ptr) (k : Syscall) : Type 0 where
  pub queues : Queues
  pub holds : Holds (sched_of k) queues
  pub runs : ((sched_of k).tcb caller).state ≡ runnable
  pub waits : has caller (queues (level (sched_of k) caller)) ≡ true

goes_on :
    {qs : Queues} (k : Syscall)
    → Holds (sched_of k) qs
    → k.caller ≢ null
    → (k' : Syscall) × (finish_call (ok k) ≡ ok k') × GoesOn k.caller k'
goes_on k inv ne =
    let (k', e, r) = finish_call-Finished k inv ne in
    (k', e, record { queues = r.queues; holds = r.holds; runs = r.runs; waits = r.waits })

module _ (env : Environment) (k : Syscall) {qs : Queues} (inv : Holds (sched_of k) qs)
    (ne : k.caller ≢ null) where
  pub dispatch-GoesOn :
      (number : SyscallNumber)
      → is_immediate number ≡ true
      → (k' : Syscall) × (dispatch env number k ≡ ok k') × GoesOn k.caller k'
  unfolding dispatch sys_system_clock
  dispatch-GoesOn thread_control h = cc
  dispatch-GoesOn notify_wait h = cc
  dispatch-GoesOn ipc h = cc
  dispatch-GoesOn schedule h =
      let (user, s', e, (_, held)) =
        schedule-Holds inv k.caller ne k.frame k.ktimer.kernel.threads k.user in
      rw e (goes_on _ held ne)
  dispatch-GoesOn system_clock h =
      goes_on (sys_system_clock env.ticks_per_sec k) (set_r0-Holds k.caller _ inv) ne
  dispatch-GoesOn timer_notify h =
      goes_on _ (timer-Holds env.max_events (env.fresh k) k.caller k.frame k.ktimer inv) ne
  dispatch-GoesOn notify_post h =
      let (s', e, (_, held)) = post-Holds inv k.caller ne k.frame k.ktimer.kernel.threads in
      rw e (goes_on _ held ne)
  dispatch-GoesOn notify_clear h = goes_on _ (clear-Holds inv k.caller ne) ne
  dispatch-GoesOn kernel_interface h = goes_on k inv ne
  dispatch-GoesOn exchange_registers h = goes_on k inv ne
  dispatch-GoesOn thread_switch h = goes_on k inv ne
  dispatch-GoesOn lipc h = goes_on k inv ne
  dispatch-GoesOn unmap h = goes_on k inv ne
  dispatch-GoesOn space_control h = goes_on k inv ne
  dispatch-GoesOn processor_control h = goes_on k inv ne
  dispatch-GoesOn memory_control h = goes_on k inv ne

-- The kernel after `svc_block`: the caller waits, and the softirq of the system calls is pending.
pub record Blocked (caller : Ptr) (k k' : Kernel) : Type 0 where
  pub queues : Queues
  pub holds : Holds k'.sched queues
  pub state : (k'.sched.tcb caller).state ≡ svc_blocked
  pub nowhere : (p : ℕ) → p < 32 → has caller (queues p) ≡ false
  pub pending : k'.pending syscall_softirq ≡ true
  pub kernel_runs : (k'.sched.tcb k.kernel_thread).state ≡ runnable

pub svc_block-Blocked :
    {qs : Queues} (caller : Ptr) (k : Kernel)
    → Holds k.sched qs
    → k.kernel_thread ≢ null
    → caller ≢ k.kernel_thread
    → (k' : Kernel) × (svc_block caller k ≡ ok k') × Blocked caller k k'
unfolding svc_block
svc_block-Blocked {qs} caller k inv ne apart =
    let p = level k.sched caller in
    let (held, same) = sched_dequeue_refines caller inv in
    let s = sched_dequeue caller k.sched in
    let qs₁ = put qs p (erase caller (qs p)) in
    let c : Tcb = record (s.tcb caller) { state = svc_blocked } in
    let keeps : level s caller ≡ p = ap (λ (x : Tcb). clamp x.priority) (same.threads caller) in
    let gone : has caller (qs₁ (level s caller)) ≡ false =
      rw keeps
        (ground (arith, has-erase_self caller (qs p) (inv.nodup p (level-lt k.sched caller)))) in
    let held₂ =
      set_tcb_queued-Holds held caller c refl refl refl (λ h. absurd (ground (arith, gone))) in
    let k₁ : Kernel = record k { sched = set_tcb caller c s } in
    let (k', e, r) = softirq_schedule-Scheduled syscall_softirq k₁ held₂ ne in
    let waits : (k'.sched.tcb caller).state ≡ svc_blocked =
      ap (λ (x : Tcb). x.state) (r.others caller apart ∙ ap strip (tcb-set_tcb_self caller c s)) in
    (
      k',
      e,
      record {
        queues = r.queues;
        holds = r.holds;
        state = waits;
        nowhere = λ i lt. elim (Bool-cases (has caller (r.queues i))) [
          | inl h ↦ absurd (ground (arith, r.holds.member i caller lt h))
          | inr h ↦ h
        ];
        pending = r.is_pending;
        kernel_runs = r.runs;
      },
    )

-- The state in which the softirq runs the system call.
abbrev pub entered : Ptr → Kernel → Syscall → Syscall
entered caller kernel k = record k {
  caller = caller;
  ktimer = record (k.ktimer) { kernel = kernel };
}

svc_handler_slow :
    (fastpath : Ptr → Kernel → Option Kernel) (number : SyscallNumber) (c : Ptr) (k : Kernel)
    → is_immediate number ≡ true
    → k.sched.current ≢ k.kernel_thread
    → svc_handler fastpath number c k
      ≡ (svc_block k.sched.current k >>= λ k₁. ok (k.sched.current, k₁))
unfolding svc_handler
svc_handler_slow fastpath thread_control c k h ne = cc
svc_handler_slow fastpath notify_wait c k h ne = cc
svc_handler_slow fastpath ipc c k h ne = cc
svc_handler_slow fastpath _ c k h ne =
    let user : (k.sched.current == k.kernel_thread) ≡ false = ground arith in rw user refl

-- A thread other than the kernel thread that makes a system call which is neither IPC nor a wait nor a thread control gets to run
-- again: the SVC handler blocks it and takes it out of the ready queues, with the softirq of the
-- system calls pending and the kernel thread runnable; in the softirq the system call, whatever its
-- parameters are, does not panic and leaves the thread runnable in the queue of its level.
pub syscall_returns :
    {qs : Queues} (env : Environment) (fastpath : Ptr → Kernel → Option Kernel)
    (number : SyscallNumber) (c : Ptr) (k : Syscall)
    → is_immediate number ≡ true
    → Holds (sched_of k) qs
    → k.ktimer.kernel.kernel_thread ≢ null
    → (sched_of k).current ≢ null
    → (sched_of k).current ≢ k.ktimer.kernel.kernel_thread
    → let t = (sched_of k).current in
      (k₁ : Kernel) × (svc_handler fastpath number c k.ktimer.kernel ≡ ok (t, k₁))
      × Blocked t k.ktimer.kernel k₁
      × ((k' : Syscall) × (dispatch env number (entered t k₁ k) ≡ ok k') × GoesOn t k')
syscall_returns env fastpath number c k h inv kernel_ne ne apart =
    let t = (sched_of k).current in
    let (k₁, e, b) = svc_block-Blocked t k.ktimer.kernel inv kernel_ne apart in
    (
      k₁,
      svc_handler_slow fastpath number c k.ktimer.kernel h apart ∙ rw e refl,
      b,
      dispatch-GoesOn env (entered t k₁ k) b.holds ne number h,
    )
