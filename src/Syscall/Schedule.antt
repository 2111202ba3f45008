-- ===== src/Syscall/Schedule.antt =====
-- SYS_SCHEDULE: the priority and the preemption threshold of a thread.
use f9_kernel.Base.{
  ℕ, ◌/◌, ◌%◌, ◌^◌, ◌≡◌, ◌≢◌, refl, sym, ap, ◌∙◌, arith, Bool, true, false, not, ◌&&◌, ◌⊎◌, none,
  some, ltb, ◌==◌, if◌then◌else◌, inl, inr, Bool-cases, Option-cases,
}
use f9_kernel.Tcb.{Ptr, null, Tcb}
use f9_kernel.ThreadMap.{ThreadMap, thread_by_globalid}
use f9_kernel.Sched.{Sched, ok, clamp, set_tcb, tighter, sched_preemption_change}
use f9_kernel.Sched.Links.{strip}
use f9_kernel.Sched.Inv.{Queues, Holds}
use f9_kernel.Sched.Store.{tcb-set_tcb_self, tcb-set_tcb_ne, set_tcb-Holds}
use f9_kernel.Sched.Priority.{set_priority_always}
use f9_kernel.Sched.Threshold.{
  preemption_change_fails_iff, preemption_change_tcb, preemption_change-Holds,
}
use f9_kernel.Syscall.{
  Frame, set_r0, save_control, change_priority, change_threshold, sys_schedule, schedresult,
}

-- The block of the thread after its priority was changed.
abbrev pub reprioritised : ℕ → Tcb → Tcb
reprioritised new c = record c {
  priority = if ltb new 32 then new else c.priority;
  user_priority = if ltb new 32 then new else c.user_priority;
  base_priority = if ltb new 32 then new else c.base_priority;
}

-- The block of the thread after its threshold was changed, and whether that is refused.
abbrev pub rethresholded : ℕ → Tcb → Tcb
rethresholded new c = record c {
  preempt_threshold = if new == 255 then c.preempt_threshold else tighter new c.inherit_priority;
  user_preempt_threshold = if new == 255 then c.user_preempt_threshold else new;
}

abbrev pub is_refused : ℕ → Tcb → Bool
is_refused new c = not (new == 255) && ltb c.user_priority new

change_priority-Holds :
    {s : Sched} {qs : Queues} (t : Ptr) (new : ℕ)
    → Holds s qs
    → t ≢ null
    → (s' : Sched) × (change_priority t new s ≡ ok s')
      × ((qs' : Queues) × Holds s' qs')
      × (strip (s'.tcb t) ≡ strip (reprioritised new (s.tcb t)))
      × ((q : Ptr) → q ≢ t → strip (s'.tcb q) ≡ strip (s.tcb q))
unfolding change_priority
change_priority-Holds {s} {qs} t new inv ne = elim (Bool-cases (ltb new 32)) [
  | inl small ↦
      let (s₁, e, (qs₁, held), _, blocks) = set_priority_always t new inv ne in
      let c₁ : Tcb = record (s₁.tcb t) { user_priority = new; base_priority = new } in
      let c : Tcb = record (s.tcb t) { priority = clamp new } in
      let fits : clamp new ≡ new = ground arith in
      let valid : (new == 255) ≡ false = ground arith in
      let block : strip (s₁.tcb t) ≡ strip (record (s.tcb t) { priority = new }) =
        blocks t
        ∙ ap strip (tcb-set_tcb_self t c s)
        ∙ ap (λ p. strip (record (s.tcb t) { priority = p })) fits in
      (
        set_tcb t c₁ s₁,
        rw (valid, small, e) refl,
        (qs₁, set_tcb-Holds held t c₁ refl refl refl (λ r. r)),
        rw small (
            ap strip (tcb-set_tcb_self t c₁ s₁)
            ∙ ap (λ (x : Tcb). record x { user_priority = new; base_priority = new }) block),
        λ q h.
            ap strip (tcb-set_tcb_ne t c₁ s₁ q h) ∙ blocks q ∙ ap strip (tcb-set_tcb_ne t c s q h),
      )
  | inr big ↦ (s, rw big (ground arith), (qs, inv), rw big refl, λ q h. refl)
]

abbrev Accepted : Ptr → ℕ → Sched → Queues → Type 0
Accepted t new s qs =
    (is_refused new (s.tcb t) ≡ false)
    × ((s' : Sched) × (change_threshold t new s ≡ some s')
        × Holds s' qs
        × (s'.tcb t ≡ rethresholded new (s.tcb t))
        × ((q : Ptr) → q ≢ t → s'.tcb q ≡ s.tcb q))

change_threshold_cases :
    {s : Sched} {qs : Queues} (t : Ptr) (new : ℕ)
    → Holds s qs
    → t ≢ null
    → ((is_refused new (s.tcb t) ≡ true) × (change_threshold t new s ≡ none)) ⊎ Accepted t new s qs
unfolding change_threshold
change_threshold_cases {s} {qs} t new inv ne =
    let c : Tcb = record (s.tcb t) {
      preempt_threshold = tighter new (s.tcb t).inherit_priority;
      user_preempt_threshold = new;
    } in
    elim (Bool-cases (new == 255)) [
      | inl keep ↦ inr (rw keep refl, (s, rw keep refl, inv, rw keep refl, λ q h. refl))
      | inr change ↦ elim (Option-cases (sched_preemption_change t new s)) [
        | inl none_ ↦
            inl (ground (arith, preemption_change_fails_iff t new s), rw (change, none_) refl)
        | inr ((old, s'), e) ↦
            let block =
              λ (q : Ptr). ap (λ (f : Ptr → Tcb). f q) (preemption_change_tcb s s' t new old e) in
            inr (
              ground (arith, preemption_change_fails_iff t new s),
              (
                s',
                rw (change, e) refl,
                preemption_change-Holds s s' t new old e inv,
                rw change (block t ∙ tcb-set_tcb_self t c s),
                λ q h. block q ∙ tcb-set_tcb_ne t c s q h,
              ),
            )
      ]
    ]

-- The block of thread `q` where the caller was told `v`.
abbrev pub answered : Ptr → ℕ → Ptr → Tcb → Tcb
answered caller v q c = if q == caller then record c { saved_r0 = v } else c

answered-set_r0 :
    (caller : Ptr) (v w : ℕ) (s : Sched) (q : Ptr) (c : Tcb)
    → v ≡ w
    → strip (s.tcb q) ≡ strip c
    → strip ((set_r0 caller v s).tcb q) ≡ strip (answered caller w q c)
answered-set_r0 caller v w s q c told same = elim (Bool-cases (q == caller)) [
  | inl h ↦
      let e : q ≡ caller = ground arith in
      rw h (
        ap (λ p. strip (record (s.tcb p) { saved_r0 = v })) (sym e)
        ∙ ap (λ (x : Tcb). record x { saved_r0 = v }) same
        ∙ ap (λ n. strip (record c { saved_r0 = n })) told)
  | inr h ↦ rw h same
]

-- What `sys_schedule` returns is the caller's R0.
pub set_r0-Holds :
    {s : Sched} {qs : Queues} (caller : Ptr) (v : ℕ) → Holds s qs → Holds (set_r0 caller v s) qs
set_r0-Holds {s} caller v inv =
    set_tcb-Holds inv caller (record (s.tcb caller) { saved_r0 = v }) refl refl refl (λ r. r)

-- What `sys_schedule` returns for a thread with the block `c`, where it has its new priority in `c'`.
abbrev pub answer : ℕ → Tcb → Tcb → ℕ
answer threshold c c' = if is_refused threshold c' then 0 else schedresult c.state

-- What `sys_schedule` leaves, where it names a thread: the caller has its answer in R0, and each
-- thread is as it was else, but for the change that was asked for and for the queue links.
pub record Rescheduled (caller : Ptr) (f : Frame) (s : Sched) (t : Ptr) (s' : Sched) : Type 0 where
  pub queues : Queues
  pub holds : Holds s' queues
  pub block :
      let threshold = f.regs 0 / 2 ^ 16 % 2 ^ 8 in
      let c = reprioritised (f.r3 % 2 ^ 8) (s.tcb t) in
      strip (s'.tcb t)
      ≡ strip (
          answered caller
            (answer threshold (s.tcb t) c)
            t
            (if is_refused threshold c then c else rethresholded threshold c))
  pub result :
      let threshold = f.regs 0 / 2 ^ 16 % 2 ^ 8 in
      let c = reprioritised (f.r3 % 2 ^ 8) (s.tcb t) in
      (s'.tcb caller).saved_r0 ≡ answer threshold (s.tcb t) c
  pub others :
      let threshold = f.regs 0 / 2 ^ 16 % 2 ^ 8 in
      let c = reprioritised (f.r3 % 2 ^ 8) (s.tcb t) in
      (q : Ptr)
      → q ≢ t
      → strip (s'.tcb q) ≡ strip (answered caller (answer threshold (s.tcb t) c) q (s.tcb q))

module _ {s : Sched} {qs : Queues} (inv : Holds s qs) (caller : Ptr) (f : Frame) (m : ThreadMap)
    (user : Ptr → ℕ) (t : Ptr) (ne : t ≢ null)
    (found : thread_by_globalid s.tcb m (s.tcb caller).saved_r0 ≡ t) where
  pub sys_schedule_lem :
      (s' : Sched) × (sys_schedule caller f m user s
        ≡ ok (save_control (f.regs 1) (s.tcb t) user, s'))
      × Rescheduled caller f s t s'
  unfolding sys_schedule
  sys_schedule_lem =
      let new = f.r3 % 2 ^ 8 in
      let threshold = f.regs 0 / 2 ^ 16 % 2 ^ 8 in
      let valid : (t == null) ≡ false = ground arith in
      let (s₁, e, (qs₁, held), block, rest) = change_priority-Holds t new inv ne in
      let c = reprioritised new (s.tcb t) in
      elim (change_threshold_cases t threshold held ne) [
        | inl (bad, e₂) ↦ (
          set_r0 caller 0 s₁,
          rw (found, valid, e, e₂) refl,
          record {
            queues = qs₁;
            holds = set_r0-Holds caller 0 held;
            block =
                rw (sym (ap (is_refused threshold) block) ∙ bad)
                  (answered-set_r0 caller 0 0 s₁ t c refl block);
            result =
                rw (sym (ap (is_refused threshold) block) ∙ bad)
                  (ap (λ (x : Tcb). x.saved_r0) (tcb-set_tcb_self caller _ s₁));
            others = λ q h.
                rw (sym (ap (is_refused threshold) block) ∙ bad)
                  (answered-set_r0 caller 0 0 s₁ q (s.tcb q) refl (rest q h));
          },
        )
        | inr (good, (s₂, e₂, held₂, block₂, rest₂)) ↦
            let told : (s₂.tcb t).state ≡ (s.tcb t).state =
              ap (λ (x : Tcb). x.state) block₂ ∙ ap (λ (x : Tcb). x.state) block in
            (
              set_r0 caller (schedresult (s₂.tcb t).state) s₂,
              rw (found, valid, e, e₂) refl,
              record {
                queues = qs₁;
                holds = set_r0-Holds caller _ held₂;
                block = rw (sym (ap (is_refused threshold) block) ∙ good) (
                    answered-set_r0 caller _ _ s₂ t (rethresholded threshold c)
                      (ap schedresult told) (ap strip block₂ ∙ ap (rethresholded threshold) block));
                result = rw (sym (ap (is_refused threshold) block) ∙ good) (
                    ap (λ (x : Tcb). x.saved_r0) (tcb-set_tcb_self caller _ s₂)
                    ∙ ap schedresult told);
                others = λ q h. rw (sym (ap (is_refused threshold) block) ∙ good) (
                    answered-set_r0 caller _ _ s₂ q (s.tcb q) (ap schedresult told)
                      (ap strip (rest₂ q h) ∙ rest q h));
              },
            )
      ]
