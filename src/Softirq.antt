-- ===== src/Softirq.antt =====
-- kernel/softirq.c: the table of softirqs and the loop that the kernel thread runs. The flags
-- `schedule` are the field `pending` of the kernel, the handlers a function from the softirq's type;
-- the debugger's softirq is left out.
pub mod Contract
pub mod Execute
pub mod Strand
pub mod Work
mod Tests
use f9_kernel.Base.{ℕ, zero, suc, Bool, true, false, ◌||◌, Option, none, some, if◌then◌else◌}
use f9_kernel.Tcb.{runnable, inactive}
use f9_kernel.Sched.{Run, ok, ◌>>=◌}
use f9_kernel.Kernel.{
  Kernel, SoftirqType, kte_softirq, notification_softirq, syscall_softirq, is_type,
  set_kernel_state,
}
use f9_kernel.Notify.Async.{notification_async_handler}
use f9_kernel.Ktimer.{Ktimer}

-- `softirq_handler_t`; a handler may change all of the kernel's state.
abbrev pub SoftirqHandler : Type 0
SoftirqHandler = Ktimer → Run Ktimer

-- The field `handler` of the table's elements; `none` is `NULL`.
abbrev pub Handlers : Type 0
Handlers = SoftirqType → Option SoftirqHandler

-- The flag of one softirq is 0.
abbrev pub clear_pending : SoftirqType → Kernel → Kernel
clear_pending type k = record k { pending = λ t. if is_type t type then false else k.pending t }

abbrev pub with_kernel : Ktimer → Kernel → Ktimer
with_kernel k kern = record k { kernel = kern }

-- `softirq_register`
unfoldable pub softirq_register :
    SoftirqType → Option SoftirqHandler → Handlers → Kernel → Handlers × Kernel
softirq_register type handler hs k =
    ((λ t. if is_type t type then handler else hs t), clear_pending type k)

-- The body of the loop in `softirq_execute`, for a softirq with the given flag and handler. The flag
-- is cleared after the handler ran.
unfoldable pub run_pending :
    SoftirqType → Bool → Option SoftirqHandler → Bool × Ktimer → Run (Bool × Ktimer)
run_pending type true (some handler) (executed, k) =
    handler k >>= λ k'. ok (true, with_kernel k' (clear_pending type k'.kernel))
run_pending type true none r = ok r
run_pending type false handler r = ok r

abbrev pub run_softirq : SoftirqType → Handlers → Bool × Ktimer → Run (Bool × Ktimer)
run_softirq type hs (executed, k) = run_pending type (k.kernel.pending type) (hs type) (executed, k)

-- The loop over the softirqs.
abbrev pub run_softirqs : Handlers → Bool × Ktimer → Run (Bool × Ktimer)
run_softirqs hs r =
    run_softirq kte_softirq hs r
    >>= run_softirq notification_softirq hs
    >>= run_softirq syscall_softirq hs

-- The second loop: whether a softirq is scheduled.
abbrev pub any_pending : Kernel → Bool
any_pending k =
    k.pending kte_softirq || (k.pending notification_softirq || k.pending syscall_softirq)

-- The part of `softirq_execute` with interrupts disabled.
abbrev pub settle : Kernel → Run Kernel
settle k = set_kernel_state (if any_pending k then runnable else inactive) k

-- `softirq_execute` from `retry` on, with at most `fuel` rounds; `none` is that they were not
-- enough. The first component of the result is `executed`.
unfoldable pub softirq_execute : ℕ → Handlers → Bool × Ktimer → Run (Option (Bool × Ktimer))
softirq_execute zero hs r = ok none
softirq_execute (suc fuel) hs r = run_softirqs hs r >>= λ (executed, k). settle k.kernel >>= λ kern.
    if any_pending k.kernel
    then softirq_execute fuel hs (executed, with_kernel k kern)
    else ok (some (executed, with_kernel k kern))

-- The notification handler on the whole state.
abbrev pub notification_handler : SoftirqHandler
notification_handler k = notification_async_handler k.kernel >>= λ kern. ok (with_kernel k kern)
