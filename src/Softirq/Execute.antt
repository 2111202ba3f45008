-- ===== src/Softirq/Execute.antt =====
-- What `softirq_execute` does with handlers that keep the kernel's invariant, and that may schedule any
-- softirq again as long as some measure of the work left goes down.
use f9_kernel.Base.{ℕ, ◌<◌, ◌≤◌, ◌≡◌, Bool, true, false, ◌||◌}
use f9_kernel.Sched.{ok}
use f9_kernel.Kernel.{Kernel, SoftirqType}
use f9_kernel.Ktimer.{Ktimer}
use f9_kernel.Softirq.{Handlers, run_softirq, run_softirqs, any_pending}
use f9_kernel.Softirq.Contract.{Ready}

-- The state after one softirq was looked at.
record Step (max : ℕ) (work : Ktimer → ℕ) (type : SoftirqType) (hs : Handlers) (executed : Bool)
    (k : Ktimer) : Type 0 where
  after : Ktimer
  runs : run_softirq type hs (executed, k) ≡ ok ((executed || k.kernel.pending type), after)
  ready : Ready max after.kernel
  idle : k.kernel.pending type ≡ false → after ≡ k
  less : k.kernel.pending type ≡ true → work after < work k
  le : work after ≤ work k

-- The state after the loop over the softirqs.
record Round (max : ℕ) (work : Ktimer → ℕ) (hs : Handlers) (executed : Bool) (k : Ktimer)
    : Type 0 where
  after : Ktimer
  runs : run_softirqs hs (executed, k) ≡ ok ((executed || any_pending k.kernel), after)
  ready : Ready max after.kernel
  idle : any_pending k.kernel ≡ false → after ≡ k
  less : any_pending k.kernel ≡ true → work after < work k
