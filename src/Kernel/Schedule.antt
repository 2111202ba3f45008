-- ===== src/Kernel/Schedule.antt =====
-- Scheduling a softirq makes the kernel thread runnable.
use f9_kernel.Base.{
  ℕ, ◌<◌, ◌≡◌, ◌≢◌, refl, ap, ◌∙◌, true, false, arith, if◌then◌else◌, has, erase, has-erase_self,
  Bool-cases, inl, inr,
}
use f9_kernel.Tcb.{Ptr, null, Tcb, runnable, inactive}
use f9_kernel.Sched.{Sched, ok, set_tcb, clamp, sched_dequeue}
use f9_kernel.Sched.Links.{strip}
use f9_kernel.Sched.Inv.{Queues, Holds, level, level-lt, put, enqueue}
use f9_kernel.Sched.Dequeue.{sched_dequeue_refines}
use f9_kernel.Sched.Store.{tcb-set_tcb_ne, set_tcb-Holds, set_tcb_queued-Holds}
use f9_kernel.Sched.Enqueue.{sched_enqueue_refines}
use f9_kernel.Kernel.{
  Kernel, SoftirqType, kte_softirq, notification_softirq, syscall_softirq, is_type,
  softirq_schedule, set_kernel_state,
}

-- The kernel after `softirq_schedule`: only the scheduler and the pending flags differ, threads
-- keep their ids and their notification words, and the softirq is pending.
pub record Scheduled (type : SoftirqType) (k k' : Kernel) (qs : Queues) : Type 0 where
  pub queues : Queues
  pub holds : Holds k'.sched queues
  pub async : k'.async ≡ k.async
  pub threads : k'.threads ≡ k.threads
  pub kernel_thread : k'.kernel_thread ≡ k.kernel_thread
  pub ids : (q : Ptr) → (k'.sched.tcb q).t_globalid ≡ (k.sched.tcb q).t_globalid
  pub is_pending : k'.pending type ≡ true
  pub pending : k'.pending ≡ (λ u. if is_type u type then true else k.pending u)
  pub runs : (k'.sched.tcb k.kernel_thread).state ≡ runnable
  pub others : (q : Ptr) → q ≢ k.kernel_thread → strip (k'.sched.tcb q) ≡ strip (k.sched.tcb q)

is_type_refl : (type : SoftirqType) → is_type type type ≡ true
is_type_refl kte_softirq = refl
is_type_refl notification_softirq = refl
is_type_refl syscall_softirq = refl

-- `softirq_schedule` never panics where there is a kernel thread. It makes the softirq pending and the
-- kernel thread runnable and queued, and keeps the scheduler's invariant, the asynchronous queue, the
-- thread map and the threads' ids.
pub softirq_schedule-Scheduled :
    {qs : Queues} (type : SoftirqType) (k : Kernel)
    → Holds k.sched qs
    → k.kernel_thread ≢ null
    → (k' : Kernel) × (softirq_schedule type k ≡ ok k') × Scheduled type k k' qs
unfolding softirq_schedule set_kernel_state
softirq_schedule-Scheduled {qs} type k inv ne =
    let t = k.kernel_thread in
    let c : Tcb = record (k.sched.tcb t) { state = runnable } in
    let s₁ = set_tcb t c k.sched in
    let held = set_tcb-Holds inv t c refl refl refl (λ r. refl) in
    let here : s₁.tcb t ≡ c = ground arith in
    let (s', e, held', rest) = sched_enqueue_refines t held ne (ground arith) in
    let k₁ : Kernel = record k { pending = λ u. if is_type u type then true else k.pending u } in
    (
      record k₁ { sched = s' },
      ground (arith, e),
      record {
        queues = put qs (level s₁ t) (enqueue t (qs (level s₁ t)));
        holds = held';
        async = refl;
        threads = refl;
        kernel_thread = refl;
        ids = λ q. ap (λ (x : Tcb). x.t_globalid) (rest.threads q) ∙ ground arith;
        is_pending = rw (is_type_refl type) refl;
        pending = refl;
        runs = ap (λ (x : Tcb). x.state) (rest.threads t) ∙ ap (λ (x : Tcb). x.state) here;
        others = λ q h. rest.threads q ∙ ap strip (tcb-set_tcb_ne t c k.sched q h);
      },
    )

-- The kernel when its thread has to run: only the scheduler differs.
pub record Awake (k : Kernel) : Type 0 where
  pub after : Sched
  pub runs : set_kernel_state runnable k ≡ ok (record k { sched = after })
  pub queues : Queues
  pub holds : Holds after queues

-- `set_kernel_state(T_RUNNABLE)` of a kernel thread does not panic, keeps the scheduler's invariant and
-- changes nothing else.
pub set_kernel_state-Awake :
    {qs : Queues} (k : Kernel) → Holds k.sched qs → k.kernel_thread ≢ null → Awake k
unfolding set_kernel_state
set_kernel_state-Awake {qs} k inv ne =
    let t = k.kernel_thread in
    let c : Tcb = record (k.sched.tcb t) { state = runnable } in
    let s₁ = set_tcb t c k.sched in
    let held = set_tcb-Holds inv t c refl refl refl (λ r. refl) in
    let (s', e, held', _) = sched_enqueue_refines t held ne (ground arith) in
    record {
      after = s';
      runs = ground (arith, e);
      queues = put qs (level s₁ t) (enqueue t (qs (level s₁ t)));
      holds = held';
    }

-- The kernel when its thread has nothing to do: only the scheduler differs.
pub record Idle (k : Kernel) : Type 0 where
  pub after : Sched
  pub runs : set_kernel_state inactive k ≡ ok (record k { sched = after })
  pub queues : Queues
  pub holds : Holds after queues
  pub stops : (after.tcb k.kernel_thread).state ≡ inactive
  pub waits : (p : ℕ) → p < 32 → has k.kernel_thread (queues p) ≡ false

-- `set_kernel_state(T_INACTIVE)` takes the kernel thread out of the ready queues before it writes the
-- state, so that the scheduler's invariant is kept, and changes nothing else.
pub set_kernel_state-Idle : {qs : Queues} (k : Kernel) → Holds k.sched qs → Idle k
unfolding set_kernel_state
set_kernel_state-Idle {qs} k inv =
    let t = k.kernel_thread in
    let p = level k.sched t in
    let (held, same) = sched_dequeue_refines t inv in
    let s₁ = sched_dequeue t k.sched in
    let qs₁ = put qs p (erase t (qs p)) in
    let c : Tcb = record (s₁.tcb t) { state = inactive } in
    let keeps : level s₁ t ≡ p = ap (λ (x : Tcb). clamp x.priority) (same.threads t) in
    let gone : has t (qs₁ (level s₁ t)) ≡ false =
      rw keeps (ground (arith, has-erase_self t (qs p) (inv.nodup p (level-lt k.sched t)))) in
    let held₂ = set_tcb_queued-Holds held t c refl refl refl (λ h. absurd (ground (arith, gone))) in
    record {
      after = set_tcb t c s₁;
      runs = refl;
      queues = qs₁;
      holds = held₂;
      stops = ground arith;
      waits = λ i lt. elim (Bool-cases (has t (qs₁ i))) [
        | inl h ↦ absurd (ground (arith, held₂.member i t lt h))
        | inr h ↦ h
      ];
    }
