-- ===== src/Notify/Async/Deliver.antt =====
-- What the softirq does with one event of a live thread.
use f9_kernel.Base.{
  ℕ, ◌≡◌, ◌≢◌, refl, ap, ◌∙◌, inl, inr, arith, Bool, true, false, bit_or, bit_and, ◌==◌, Bool-cases,
}
use f9_kernel.Tcb.{
  Ptr, null, Tcb, ThreadState, is_notify_blocked, inactive, runnable, svc_blocked, recv_blocked,
  send_blocked, notify_blocked,
}
use f9_kernel.ThreadMap.{thread_by_globalid}
use f9_kernel.ThreadMap.Search.{thread_by_globalid_same}
use f9_kernel.Sched.{Sched, ok, set_tcb}
use f9_kernel.Sched.Links.{strip}
use f9_kernel.Sched.Inv.{Queues, Holds, level, put, enqueue}
use f9_kernel.Sched.Store.{set_tcb-Holds}
use f9_kernel.Kernel.{AsyncEvent, Kernel}
use f9_kernel.Notify.{set_bits, woken, notify_wake_thread}
use f9_kernel.Notify.Wake.{notify_wake_thread-woken, notify_wake_thread_idle}
use f9_kernel.Notify.Async.{target, free_event, deliver_event}

-- Threads are looked up by their ids only.
pub target_same :
    (k k' : Kernel)
    → k'.threads ≡ k.threads
    → ((q : Ptr) → (k'.sched.tcb q).t_globalid ≡ (k.sched.tcb q).t_globalid)
    → (e : AsyncEvent) → target k' e ≡ target k e
target_same k k' m ids e =
    thread_by_globalid_same _ _ k'.threads ids e.target_id
    ∙ ap (λ t. thread_by_globalid k.sched.tcb t e.target_id) m

-- The kernel after the event of a live thread is delivered.
pub record Delivery (e : AsyncEvent) (k k' : Kernel) : Type 0 where
  pub runs : deliver_event e k ≡ ok k'
  pub queues : Queues
  pub holds : Holds k'.sched queues
  pub async : k'.async ≡ free_event k.async
  pub threads : k'.threads ≡ k.threads
  pub kernel_thread : k'.kernel_thread ≡ k.kernel_thread
  pub pending : k'.pending ≡ k.pending
  pub ids : (q : Ptr) → (k'.sched.tcb q).t_globalid ≡ (k.sched.tcb q).t_globalid

-- Waking never fails.
pub record Woke (t : Ptr) (s : Sched) : Type 0 where
  pub woke : Bool
  pub after : Sched
  pub runs : notify_wake_thread t s ≡ ok (woke, after)
  pub queues : Queues
  pub holds : Holds after queues
  pub ids : (q : Ptr) → (after.tcb q).t_globalid ≡ (s.tcb q).t_globalid

notify_blocked_only : (st : ThreadState) → is_notify_blocked st ≡ true → st ≡ notify_blocked
notify_blocked_only inactive h = ground arith
notify_blocked_only runnable h = ground arith
notify_blocked_only svc_blocked h = ground arith
notify_blocked_only recv_blocked h = ground arith
notify_blocked_only send_blocked h = ground arith
notify_blocked_only notify_blocked h = refl

woken_ids :
    {t : Ptr} {m : ℕ} (s s' : Sched)
    → strip (s'.tcb t) ≡ strip (woken m (s.tcb t))
    → ((q : Ptr) → q ≢ t → strip (s'.tcb q) ≡ strip (s.tcb q))
    → (q : Ptr) → (s'.tcb q).t_globalid ≡ (s.tcb q).t_globalid
woken_ids {t} {m} s s' at rest q = elim (Bool-cases (q == t)) [
  | inl same ↦ let e : q ≡ t = ground arith in rw e (ap (λ (x : Tcb). x.t_globalid) at)
  | inr other ↦ ap (λ (x : Tcb). x.t_globalid) (rest q (ground arith))
]

pub wake : {qs : Queues} (t : Ptr) (s : Sched) → Holds s qs → t ≢ null → Woke t s
wake {qs} t s inv ne = elim (Bool-cases (is_notify_blocked (s.tcb t).state)) [
  | inr awake ↦ record {
    woke = false;
    after = s;
    runs = notify_wake_thread_idle s t (inl awake);
    queues = qs;
    holds = inv;
    ids = λ q. refl;
  }
  | inl blocked ↦ elim (Bool-cases (bit_and (s.tcb t).notify_bits (s.tcb t).notify_mask == 0)) [
    | inl no_bit ↦ record {
      woke = false;
      after = s;
      runs = notify_wake_thread_idle s t (inr (ground arith));
      queues = qs;
      holds = inv;
      ids = λ q. refl;
    }
    | inr some_bit ↦
        let (s', e, held, at, rest) =
          notify_wake_thread-woken inv t ne (notify_blocked_only _ blocked) (ground arith) in
        record {
          woke = true;
          after = s';
          runs = e;
          queues = put qs (level s t) (enqueue t (qs (level s t)));
          holds = held;
          ids = woken_ids s s' at rest;
        }
  ]
]

pub deliver :
    {qs : Queues} (e : AsyncEvent) (k : Kernel)
    → Holds k.sched qs
    → target k e ≢ null
    → (k' : Kernel) × Delivery e k k'
unfolding deliver_event
deliver e k inv ne =
    let t = target k e in
    let c = k.sched.tcb t in
    let c' : Tcb = record (set_bits (bit_or c.notify_bits e.notify_bits) c) {
      notify_data = e.event_data;
    } in
    let held = set_tcb-Holds inv t c' refl refl refl (λ run. run) in
    let w = wake t (set_tcb t c' k.sched) held ne in
    (
      record k { sched = w.after; async = free_event k.async },
      record {
        runs = rw w.runs refl;
        queues = w.queues;
        holds = w.holds;
        async = refl;
        threads = refl;
        kernel_thread = refl;
        pending = refl;
        ids = λ q. w.ids q ∙ ground arith;
      },
    )
