-- ===== src/Ipc/Wake.antt =====
-- What IPC makes of the ready queues: the receiver is woken, and the sender goes on or waits.
use f9_kernel.Base.{
  ℕ, ◌<◌, ◌≡◌, ◌≢◌, refl, ap, ◌∙◌, arith, Bool, true, false, List, [], ◌∷◌, ◌==◌, if◌then◌else◌,
  inl, inr, has, has-append, Bool-cases,
}
use f9_kernel.Tcb.{Ptr, null, Tcb, runnable, recv_blocked, is_runnable}
use f9_kernel.Sched.{Sched, Run, ok, ◌>>=◌, clamp, set_tcb, sched_set_priority}
use f9_kernel.Sched.Links.{strip}
use f9_kernel.Sched.Inv.{Queues, Holds, level, level-lt, enqueue}
use f9_kernel.Sched.Store.{tcb-set_tcb_self, tcb-set_tcb_ne, set_tcb-Holds, set_tcb_queued-Holds}
use f9_kernel.Sched.Priority.{set_priority_always}
use f9_kernel.Syscall.{resume}
use f9_kernel.Syscall.Caller.{queued_at, Resumed, resume-Resumed}
use f9_kernel.Ipc.{
  prio_ipc, thread_make_runnable, restore_priority, thread_make_sender_runnable, set_state,
}

pub make_runnable-Resumed :
    {s : Sched} {qs : Queues}
    → Holds s qs
    → (t : Ptr) → t ≢ null
    → (s' : Sched) × (thread_make_runnable t s ≡ ok s') × Resumed t s qs s'
unfolding thread_make_runnable resume
make_runnable-Resumed inv t ne = resume-Resumed inv t ne

has-enqueue_self : (t : Ptr) (xs : List Ptr) → has t (enqueue t xs) ≡ true
has-enqueue_self t xs = ground (arith, has-append t xs (t ∷ []))

has-queued_at_self :
    (s : Sched) (t : Ptr) (qs : Queues) → has t (queued_at s t qs (level s t)) ≡ true
has-queued_at_self s t qs = ground (arith, has-enqueue_self t (qs (level s t)))

-- A thread stays in its queue when another one is queued.
pub has-queued_at :
    (s : Sched) (u t : Ptr) (qs : Queues) (p : ℕ)
    → has t (qs p) ≡ true
    → has t (queued_at s u qs p) ≡ true
has-queued_at s u t qs p h = elim (Bool-cases (p == level s u)) [
  | inl same ↦
      let e : p ≡ level s u = ground arith in
      rw same (ground (arith, has-append t (qs (level s u)) (u ∷ []), ap (λ i. has t (qs i)) e))
  | inr other ↦ rw other h
]

-- A thread that is not runnable is in no queue.
pub not_queued :
    {s : Sched} {qs : Queues}
    → Holds s qs
    → (t : Ptr) → is_runnable (s.tcb t).state ≡ false
    → has t (qs (level s t)) ≡ false
not_queued {s} {qs} inv t idle = elim (Bool-cases (has t (qs (level s t)))) [
  | inl h ↦ absurd (ground (arith, inv.member (level s t) t (level-lt s t) h))
  | inr h ↦ h
]

-- The state after the receiver `t` is woken with `id` as the sender.
pub record Received (t : Ptr) (id : ℕ) (boost : Bool) (s s' : Sched) : Type 0 where
  pub queues : Queues
  pub holds : Holds s' queues
  pub waits : has t (queues (level s' t)) ≡ true
  pub block :
      strip (s'.tcb t)
      ≡ strip (record (s.tcb t) {
        saved_r0 = id;
        priority = if boost then prio_ipc else (s.tcb t).priority;
        state = runnable;
      })
  pub others : (q : Ptr) → q ≢ t → strip (s'.tcb q) ≡ strip (s.tcb q)

abbrev raised : Ptr → Bool → Sched → Run Sched
raised t boost s = if boost then sched_set_priority t prio_ipc s else ok s

module _ {s : Sched} {qs : Queues} (inv : Holds s qs) (t : Ptr) (ne : t ≢ null) where
  -- Waking after the boost.
  wake_after :
      {s₁ : Sched} {qs₁ : Queues} (id : ℕ) (boost : Bool)
      → Holds s₁ qs₁
      → strip (s₁.tcb t)
        ≡ strip (record (s.tcb t) {
          saved_r0 = id;
          priority = if boost then prio_ipc else (s.tcb t).priority;
        })
      → ((q : Ptr) → q ≢ t → strip (s₁.tcb q) ≡ strip (s.tcb q))
      → (s' : Sched) × (thread_make_runnable t s₁ ≡ ok s') × Received t id boost s s'
  wake_after {s₁} {qs₁} id boost held block others =
      let (s', e, r) = make_runnable-Resumed held t ne in
      let same : level s' t ≡ level s₁ t = ap (λ (c : Tcb). clamp c.priority) (r.block) in
      (
        s',
        e,
        record {
          queues = queued_at s₁ t qs₁;
          holds = r.holds;
          waits = rw same (has-queued_at_self s₁ t qs₁);
          block = r.block ∙ ap (λ (c : Tcb). record c { state = runnable }) block;
          others = λ q h. r.others q h ∙ others q h;
        },
      )

  pub receive-Received :
      (id : ℕ) (boost : Bool)
      → (s' : Sched) × ((raised t boost (set_tcb t (record (s.tcb t) { saved_r0 = id }) s)
            >>= thread_make_runnable t)
          ≡ ok s')
        × Received t id boost s s'
  receive-Received id true =
      let c : Tcb = record (s.tcb t) { saved_r0 = id } in
      let s₀ = set_tcb t c s in
      let held₀ = set_tcb-Holds inv t c refl refl refl (λ r. r) in
      let (s₁, e, (qs₁, held₁), _, blocks) = set_priority_always t prio_ipc held₀ ne in
      let c₁ : Tcb = record (s₀.tcb t) { priority = prio_ipc } in
      let (s', e', r) =
        wake_after id true held₁
          (blocks t
            ∙ ap strip (tcb-set_tcb_self t c₁ s₀)
            ∙ ap (λ (x : Tcb). strip (record x { priority = prio_ipc })) (tcb-set_tcb_self t c s))
          (λ q h. blocks q ∙ ap strip (tcb-set_tcb_ne t c₁ s₀ q h ∙ tcb-set_tcb_ne t c s q h)) in
      (s', rw e e', r)
  receive-Received id false =
      let c : Tcb = record (s.tcb t) { saved_r0 = id } in
      wake_after id false (set_tcb-Holds inv t c refl refl refl (λ r. r))
        (ap strip (tcb-set_tcb_self t c s)) (λ q h. ap strip (tcb-set_tcb_ne t c s q h))

-- The sender `t` at its base priority, in the queues that were.
abbrev Restored : Sched → Queues → Ptr → Type 0
Restored s qs t =
    (s' : Sched) × (restore_priority t s ≡ ok s')
    × Holds s' qs
    × (strip (s'.tcb t) ≡ strip (record (s.tcb t) { priority = clamp (s.tcb t).base_priority }))
    × ((q : Ptr) → q ≢ t → strip (s'.tcb q) ≡ strip (s.tcb q))

-- The state after the sender `t` is through; it waits if it has a receive phase.
pub record Sent (t : Ptr) (receives : Bool) (s : Sched) (qs : Queues) (s' : Sched) : Type 0 where
  pub queues : Queues
  pub holds : Holds s' queues
  pub keeps : (q p : ℕ) → has q (qs p) ≡ true → has q (queues p) ≡ true
  pub state : (s'.tcb t).state ≡ (if receives then recv_blocked else runnable)
  pub priority : (s'.tcb t).priority ≡ clamp (s.tcb t).base_priority
  pub queued : receives ≡ false → has t (queues (level s' t)) ≡ true
  pub others : (q : Ptr) → q ≢ t → strip (s'.tcb q) ≡ strip (s.tcb q)

module _ {s : Sched} {qs : Queues} (inv : Holds s qs) (t : Ptr) (ne : t ≢ null)
    (idle : is_runnable (s.tcb t).state ≡ false) (base : (s.tcb t).base_priority < 32) where
  restored : Restored s qs t
  unfolding restore_priority
  restored =
      let c : Tcb = record (s.tcb t) { priority = clamp (s.tcb t).base_priority } in
      elim (Bool-cases ((s.tcb t).priority == (s.tcb t).base_priority)) [
        | inl same ↦
            let e : (s.tcb t).priority ≡ clamp (s.tcb t).base_priority = ground arith in
            (
              s,
              rw same refl,
              inv,
              ap (λ p. strip (record (s.tcb t) { priority = p })) e,
              λ q h. refl,
            )
        | inr other ↦
            let (s', e, _, held, blocks) = set_priority_always t (s.tcb t).base_priority inv ne in
            (
              s',
              rw other e,
              held (not_queued inv t idle),
              blocks t ∙ ap strip (tcb-set_tcb_self t c s),
              λ q h. blocks q ∙ ap strip (tcb-set_tcb_ne t c s q h),
            )
      ]

  pub make_sender-Sent :
      (s' : Sched) × (thread_make_sender_runnable t s ≡ ok s') × Sent t false s qs s'
  unfolding thread_make_sender_runnable
  make_sender-Sent =
      let (s₁, e, held, block, others) = restored in
      let (s', e', r) = make_runnable-Resumed held t ne in
      let same : level s' t ≡ level s₁ t = ap (λ (c : Tcb). clamp c.priority) r.block in
      (
        s',
        rw e e',
        record {
          queues = queued_at s₁ t qs;
          holds = r.holds;
          keeps = λ q p h. has-queued_at s₁ t q qs p h;
          state = ap (λ (c : Tcb). c.state) r.block;
          priority = ap (λ (c : Tcb). c.priority) r.block ∙ ap (λ (c : Tcb). c.priority) block;
          queued = λ _. rw same (has-queued_at_self s₁ t qs);
          others = λ q h. r.others q h ∙ others q h;
        },
      )

  pub block_sender-Sent :
      (s₁ : Sched) × (restore_priority t s ≡ ok s₁) × Sent t true s qs (set_state t recv_blocked s₁)
  block_sender-Sent =
      let (s₁, e, held, block, others) = restored in
      let c : Tcb = record (s₁.tcb t) { state = recv_blocked } in
      let idle₁ = ap (λ (x : Tcb). is_runnable x.state) block ∙ idle in
      let out = not_queued held t idle₁ in
      let here = tcb-set_tcb_self t c s₁ in
      (
        s₁,
        e,
        record {
          queues = qs;
          holds = set_tcb_queued-Holds held t c refl refl refl (λ h. cc);
          keeps = λ q p h. h;
          state = ap (λ (x : Tcb). x.state) here;
          priority = ap (λ (x : Tcb). x.priority) here ∙ ap (λ (x : Tcb). x.priority) block;
          queued = λ h. cc;
          others = λ q h. ap strip (tcb-set_tcb_ne t c s₁ q h) ∙ others q h;
        },
      )
