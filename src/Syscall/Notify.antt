-- ===== src/Syscall/Notify.antt =====
-- SYS_NOTIFY_WAIT, SYS_NOTIFY_POST and SYS_NOTIFY_CLEAR, and how they meet.
use f9_kernel.Base.{
  ℕ, ◌≡◌, ◌≢◌, refl, ap, ◌∙◌, fun_ext, arith, bit_and, Bool, true, false, not, ◌&&◌, ◌||◌, inl, inr,
  ◌==◌, if◌then◌else◌, Bool-cases,
}
use f9_kernel.Tcb.{Ptr, null, Tcb, runnable, is_runnable, notify_blocked}
use f9_kernel.Sched.{Sched, ok, set_tcb}
use f9_kernel.Sched.Links.{strip}
use f9_kernel.Sched.Inv.{Queues, Holds, level}
use f9_kernel.Sched.Store.{set_tcb-Holds}
use f9_kernel.Notify.{set_bits, and_not, notification_clear, notification_get}
use f9_kernel.Syscall.{resume, returned, waiting, sys_notify_wait}
use f9_kernel.Syscall.Caller.{resumed, queued_at, resume-Resumed}

-- A block is written, and again what is made of it.
pub set_tcb_again :
    (p : Ptr) (f : Tcb → Tcb) (c : Tcb) (s : Sched)
    → let s₁ = set_tcb p c s in set_tcb p (f (s₁.tcb p)) s₁ ≡ set_tcb p (f c) s
set_tcb_again p f c s =
    let self : (p == p) ≡ true = ground arith in
    rw self (
      ap (λ (g : Ptr → Tcb). record s { tcb = g })
        (fun_ext λ q. elim (Bool-cases (q == p)) [ inl h ↦ rw h refl | inr h ↦ rw h refl ]))

module _ (s : Sched) {caller : Ptr} (ne : caller ≢ null) where
  pub notification_clear_lem :
      (bits : ℕ)
      → notification_clear caller bits s
        ≡ set_tcb caller (set_bits (and_not (s.tcb caller).notify_bits bits) (s.tcb caller)) s
  unfolding notification_clear
  notification_clear_lem bits = let valid : (caller == null) ≡ false = ground arith in rw valid refl

  pub notification_get_lem : notification_get caller s ≡ (s.tcb caller).notify_bits
  unfolding notification_get
  notification_get_lem = ground arith

-- The caller's block is written before it is resumed.
pub resume_written :
    {s : Sched} {qs : Queues}
    → Holds s qs
    → (caller : Ptr) → caller ≢ null
    → (c : Tcb) → c.next ≡ (s.tcb caller).next
    → c.prev ≡ (s.tcb caller).prev
    → c.priority ≡ (s.tcb caller).priority
    → c.state ≡ (s.tcb caller).state
    → (s' : Sched) × (resume caller (set_tcb caller c s) ≡ ok s')
      × Holds s' (queued_at s caller qs)
      × (strip (s'.tcb caller) ≡ resumed c)
      × ((q : Ptr) → q ≢ caller → strip (s'.tcb q) ≡ strip (s.tcb q))
resume_written {s} {qs} inv caller ne c nx pv pr st =
    let s₁ = set_tcb caller c s in
    let held = set_tcb-Holds inv caller c nx pv pr (λ r. rw st r) in
    let here : s₁.tcb caller ≡ c = ground arith in
    let same : level s₁ caller ≡ level s caller = rw (here, pr) refl in
    let (s', e, r) = resume-Resumed held caller ne in
    (
      s',
      e,
      rw same at r.holds,
      r.block ∙ ap resumed here,
      λ q h. let there : s₁.tcb q ≡ s.tcb q = ground (arith, h) in r.others q h ∙ ap strip there,
    )

-- The bits that a thread waits for in vain: none that it names is up.
abbrev pub waits_for : Ptr → Sched → Bool
waits_for caller s =
    let c = s.tcb caller in not (c.saved_r0 == 0) && (bit_and c.notify_bits c.saved_r0 == 0)

-- The caller's block after `sys_notify_wait`.
abbrev pub block_after : Tcb → Tcb
block_after c =
    let got = bit_and c.notify_bits c.saved_r0 in
    if c.saved_r0 == 0
    then resumed (returned 0 c)
    else if not (got == 0)
    then resumed (returned got (set_bits (and_not c.notify_bits got) c))
    else strip (waiting c.saved_r0 c)

abbrev Waits : Ptr → Sched → Queues → Type 0
Waits caller s qs =
    (s' : Sched) × (sys_notify_wait caller s ≡ ok s')
    × Holds s' (if waits_for caller s then qs else queued_at s caller qs)
    × (strip (s'.tcb caller) ≡ block_after (s.tcb caller))
    × ((q : Ptr) → q ≢ caller → strip (s'.tcb q) ≡ strip (s.tcb q))

module _ {s : Sched} {qs : Queues} (inv : Holds s qs) (caller : Ptr) (ne : caller ≢ null)
    (idle : is_runnable (s.tcb caller).state ≡ false) where
  wait_invalid : ((s.tcb caller).saved_r0 == 0) ≡ true → Waits caller s qs
  unfolding sys_notify_wait
  wait_invalid zero_mask =
      let (s', e, held, at, rest) =
        resume_written inv caller ne (returned 0 (s.tcb caller)) refl refl refl refl in
      (s', rw zero_mask e, rw zero_mask held, rw zero_mask at, rest)

  wait_fast :
      ((s.tcb caller).saved_r0 == 0) ≡ false
      → (bit_and (s.tcb caller).notify_bits (s.tcb caller).saved_r0 == 0) ≡ false
      → Waits caller s qs
  unfolding sys_notify_wait
  wait_fast some_mask some_bit =
      let c = s.tcb caller in
      let got = bit_and c.notify_bits c.saved_r0 in
      let left = set_bits (and_not c.notify_bits got) c in
      let (s', e, held, at, rest) =
        resume_written inv caller ne (returned got left) refl refl refl refl in
      let written = set_tcb_again caller (returned got) left s in
      (
        s',
        rw (notification_get_lem s ne, some_mask, some_bit, notification_clear_lem s ne got)
            (ap (resume caller) written ∙ e),
        rw (some_mask, some_bit) held,
        rw (some_mask, some_bit) at,
        rest,
      )

  wait_slow :
      ((s.tcb caller).saved_r0 == 0) ≡ false
      → (bit_and (s.tcb caller).notify_bits (s.tcb caller).saved_r0 == 0) ≡ true
      → Waits caller s qs
  unfolding sys_notify_wait
  wait_slow some_mask no_bit =
      let c = s.tcb caller in
      let s₁ = set_tcb caller (waiting c.saved_r0 c) s in
      let held = set_tcb-Holds inv caller (waiting c.saved_r0 c) refl refl refl (λ r. cc) in
      let self : (caller == caller) ≡ true = ground arith in
      (
        s₁,
        rw (notification_get_lem s ne, some_mask, no_bit) refl,
        rw (some_mask, no_bit) held,
        rw (some_mask, no_bit, self) refl,
        λ q h. let other : (q == caller) ≡ false = ground arith in rw other refl,
      )

  pub sys_notify_wait-Waits : Waits caller s qs
  sys_notify_wait-Waits = elim (Bool-cases ((s.tcb caller).saved_r0 == 0)) [
    | inl zero_mask ↦ wait_invalid zero_mask
    | inr some_mask ↦
        elim (Bool-cases (bit_and (s.tcb caller).notify_bits (s.tcb caller).saved_r0 == 0)) [
          | inl no_bit ↦ wait_slow some_mask no_bit
          | inr some_bit ↦ wait_fast some_mask some_bit
        ]
  ]

  -- `sys_notify_wait` returns at once with 0 for an empty mask, and with the bits that are up and in
  -- the mask where there are any, which it clears; else it blocks the caller, with the mask and all
  -- its bits kept. It does not panic. A caller that returns is runnable, waits for nothing and goes to
  -- the tail of the queue of its level; one that blocks is in no queue. No other thread changes but for its links.
  pub sys_notify_wait_lem :
      let c = s.tcb caller in
      let got = bit_and c.notify_bits c.saved_r0 in
      let blocks = waits_for caller s in
      (s' : Sched) × (sys_notify_wait caller s ≡ ok s')
      × Holds s' (if blocks then qs else queued_at s caller qs)
      × ((s'.tcb caller).state ≡ (if blocks then notify_blocked else runnable))
      × (blocks ≡ false → (s'.tcb caller).saved_r0 ≡ (if c.saved_r0 == 0 then 0 else got))
      × ((s'.tcb caller).notify_mask ≡ (if blocks then c.saved_r0 else 0))
      × ((s'.tcb caller).notify_bits
          ≡ (if blocks || c.saved_r0 == 0 then c.notify_bits else and_not c.notify_bits got))
      × ((q : Ptr) → q ≢ caller → strip (s'.tcb q) ≡ strip (s.tcb q))
  sys_notify_wait_lem =
      let (s', e, held, at, rest) = sys_notify_wait-Waits in
      (
        s',
        e,
        held,
        ap (λ (c : Tcb). c.state) at ∙ ground arith,
        λ b. ap (λ (c : Tcb). c.saved_r0) at ∙ ground arith,
        ap (λ (c : Tcb). c.notify_mask) at ∙ ground arith,
        ap (λ (c : Tcb). c.notify_bits) at ∙ ground arith,
        rest,
      )
