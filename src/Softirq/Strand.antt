-- ===== src/Softirq/Strand.antt =====
-- What `softirq_execute` does with the softirq of the asynchronous queue, whose handler schedules
-- itself again when it leaves events.
use f9_kernel.Base.{ℕ, suc, ◌<◌, ◌^◌, ◌≡◌, ◌≢◌, refl, sym, ap, ◌∙◌, arith, true, false, some, []}
use f9_kernel.Tcb.{inactive}
use f9_kernel.Sched.{ok}
use f9_kernel.Kernel.{
  Async, Kernel, SoftirqType, kte_softirq, notification_softirq, syscall_softirq,
}
use f9_kernel.Ktimer.{Ktimer}
use f9_kernel.Notify.Async.{batch_size}
use f9_kernel.Notify.Async.Batch.{
  is_live, count_live, count_live-append_nil, Handled, notification_async_handler-Handled,
}
use f9_kernel.Softirq.{
  Handlers, clear_pending, with_kernel, run_pending, run_softirqs, any_pending,
  notification_handler, softirq_execute,
}
use f9_kernel.Softirq.Contract.{Ready, clear-Ready, each_type, finish}

pub handled_Ready : {max : ℕ} {k : Kernel} → Ready max k → (h : Handled max k) → Ready max h.after
handled_Ready ready h = record {
  queues = h.queues;
  holds = h.holds;
  thread = rw (h.kernel_thread) ready.thread;
  counted = h.counted;
}

-- A single invocation of the handler leaves events if more than a batch of them have live threads.
left_over :
    {max : ℕ} {k : Kernel} (h : Handled max k)
    → batch_size < count_live (is_live k) k.async.queue
    → h.after.async.queue ≢ []
left_over {k} h many nil =
    let same : count_live (is_live k) k.async.queue ≡ count_live (is_live k) h.batch =
      ap (count_live (is_live k)) h.split
      ∙ count_live-append_nil (is_live k) h.batch h.after.async.queue nil in
    absurd (ground (arith, h.bound, same))

-- `softirq_execute` loses events until the next `notification_post`: if the softirq of the
-- asynchronous queue alone is pending, and more than NOTIFICATION_BATCH_SIZE events in the queue have
-- live threads, it returns after one round with events in the queue, no softirq pending and the
-- kernel thread inactive, since it clears the flag that the handler has set for the rest.
pub softirq_execute_strands :
    (max fuel : ℕ) (hs : Handlers) (k : Ktimer)
    → max < 2 ^ 32
    → hs notification_softirq ≡ some notification_handler
    → k.kernel.pending kte_softirq ≡ false
    → k.kernel.pending notification_softirq ≡ true
    → k.kernel.pending syscall_softirq ≡ false
    → Ready max k.kernel
    → batch_size < count_live (is_live k.kernel) k.kernel.async.queue
    → (k' : Ktimer) × (softirq_execute (suc fuel) hs (false, k) ≡ ok (some (true, k')))
      × (k'.kernel.async.queue ≢ [])
      × ((u : SoftirqType) → k'.kernel.pending u ≡ false)
      × ((k'.kernel.sched.tcb k'.kernel.kernel_thread).state ≡ inactive)
unfolding run_pending
softirq_execute_strands max fuel hs k small e p₁ p₂ p₃ ready many =
    let h =
      notification_async_handler-Handled max k.kernel small ready.holds ready.thread
        ready.counted in
    let k' = with_kernel k (clear_pending notification_softirq h.after) in
    let runs : run_softirqs hs (false, k) ≡ ok (true, k') =
      rw (p₁, p₂, e, h.runs, h.others syscall_softirq refl, p₃) refl in
    let any : any_pending k.kernel ≡ true = rw (p₁, p₂) refl in
    let (x, same) =
      finish {fuel = fuel} {executed = false} k' (runs ∙ ap (λ b. ok (b, k')) (sym any))
        (clear-Ready notification_softirq (handled_Ready ready h))
        (each_type k'.kernel.pending (h.others kte_softirq refl ∙ p₁) refl
          (h.others syscall_softirq refl ∙ p₃)) in
    (
      x.after,
      x.runs ∙ ap (λ b. ok (some (b, x.after))) any,
      λ nil. left_over h many (sym (ap (λ (a : Async). a.queue) same) ∙ nil),
      x.nothing,
      x.stops,
    )
