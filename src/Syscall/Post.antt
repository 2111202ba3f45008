-- ===== src/Syscall/Post.antt =====
-- SYS_NOTIFY_POST, and how it meets SYS_NOTIFY_WAIT: no order of the two loses a wake-up.
use f9_kernel.Base.{
  ℕ, ◌^◌, ◌<◌, ◌≡◌, ◌≢◌, refl, sym, ap, ap₂, ◌∙◌, arith, bit_and, bit_or, true, false, ◌==◌, inl,
  inr, Bool-cases,
}
use f9_kernel.Base.Bits.{bit_and-lt, bit_and-bit_or, bit_or_zero}
use f9_kernel.Tcb.{Ptr, null, Tcb, runnable, is_runnable, is_notify_blocked, notify_blocked}
use f9_kernel.ThreadMap.{ThreadMap, thread_by_globalid}
use f9_kernel.ThreadMap.Search.{thread_by_globalid_same}
use f9_kernel.Sched.{Sched, ok, ◌>>=◌, clamp, set_tcb}
use f9_kernel.Sched.Links.{strip}
use f9_kernel.Sched.Inv.{Queues, Holds, level}
use f9_kernel.Sched.Store.{tcb-set_tcb_self, tcb-set_tcb_ne, set_tcb-Holds}
use f9_kernel.Notify.{set_bits, and_not, woken, notification_signal}
use f9_kernel.Notify.Wake.{notify_wake_thread-woken, notify_wake_thread_idle}
use f9_kernel.Syscall.{Frame, set_r0, waiting, returned, sys_notify_post, sys_notify_wait}
use f9_kernel.Syscall.Caller.{resumed, queued_at}
use f9_kernel.Syscall.Notify.{waits_for, block_after, sys_notify_wait-Waits}

-- The thread's block with the bits signalled.
abbrev pub signalled : ℕ → Tcb → Tcb
signalled bits c = set_bits (bit_or c.notify_bits bits) c

module _ (s : Sched) {t : Ptr} (ne : t ≢ null) where
  pub notification_signal_lem :
      (bits : ℕ) → notification_signal t bits s ≡ set_tcb t (signalled bits (s.tcb t)) s
  unfolding notification_signal
  notification_signal_lem bits = let valid : (t == null) ≡ false = ground arith in rw valid refl

-- The result of a post that reaches the thread `t`.
module _ {s : Sched} {qs : Queues} (inv : Holds s qs) (caller : Ptr) (f : Frame) (m : ThreadMap)
    (t : Ptr) (ne : t ≢ null) (bits : f.r1 ≢ 0) (apart : caller ≢ t)
    (found : thread_by_globalid s.tcb m (s.tcb caller).saved_r0 ≡ t) where
  abbrev after : Tcb
  after = signalled f.r1 (s.tcb t)

  pub post_wakes :
      (s.tcb t).state ≡ notify_blocked
      → bit_and after.notify_bits after.notify_mask ≢ 0
      → (s' : Sched) × (sys_notify_post caller f m s ≡ ok s')
        × Holds s' (queued_at s t qs)
        × (strip (s'.tcb t) ≡ strip (woken (bit_and after.notify_bits after.notify_mask) after))
        × (strip (s'.tcb caller) ≡ strip (record (s.tcb caller) { saved_r0 = 1 }))
        × ((q : Ptr) → q ≢ t → q ≢ caller → strip (s'.tcb q) ≡ strip (s.tcb q))
  unfolding sys_notify_post
  post_wakes blocked some_bit =
      let s₁ = set_tcb t after s in
      let held₁ = set_tcb-Holds inv t after refl refl refl (λ r. r) in
      let here = tcb-set_tcb_self t after s in
      let (s₂, e, held₂, at, rest) =
        notify_wake_thread-woken held₁ t ne (rw here blocked) (rw here some_bit) in
      let c : Tcb = record (s₂.tcb caller) { saved_r0 = 1 } in
      let other : (t == caller) ≡ false = ground arith in
      let self : (caller == caller) ≡ true = ground arith in
      (
        set_tcb caller c s₂,
        rw (found, no_bits, valid, notification_signal_lem s ne f.r1, e) refl,
        rw here at (set_tcb-Holds held₂ caller c refl refl refl (λ r. r)),
        rw other (rw here at at),
        rw self (
            ap (λ (x : Tcb). record x { saved_r0 = 1 }) (rest caller apart)
            ∙ ap (λ (x : Tcb). record (strip x) { saved_r0 = 1 })
                (tcb-set_tcb_ne t after s caller apart)),
        λ q h g.
            ap strip (tcb-set_tcb_ne caller c s₂ q g)
            ∙ rest q h
            ∙ ap strip (tcb-set_tcb_ne t after s q h),
      )
    where
      no_bits : (f.r1 == 0) ≡ false
      no_bits = ground arith

      valid : (t == null) ≡ false
      valid = ground arith

  pub post_only :
      is_notify_blocked (s.tcb t).state ≡ false
      → sys_notify_post caller f m s ≡ ok (set_r0 caller 1 (set_tcb t after s))
  unfolding sys_notify_post
  post_only awake =
      let no_bits : (f.r1 == 0) ≡ false = ground arith in
      let valid : (t == null) ≡ false = ground arith in
      let s₁ = set_tcb t after s in
      let here = tcb-set_tcb_self t after s in
      rw
        (
          found,
          no_bits,
          valid,
          notification_signal_lem s ne f.r1,
          notify_wake_thread_idle s₁ t (inl (rw here awake)),
        )
        refl

-- Two system calls wait to be handled: thread `w` is to wait for the bits in its mask, none of which is
-- up, and thread `p` is to post bits to it.
pub record Meet (s : Sched) (qs : Queues) (w p : Ptr) (f : Frame) (m : ThreadMap) : Type 0 where
  pub holds : Holds s qs
  pub waiter : w ≢ null
  pub apart : p ≢ w
  pub idle : is_runnable (s.tcb w).state ≡ false
  pub awake : is_notify_blocked (s.tcb w).state ≡ false
  pub waits : waits_for w s ≡ true
  pub bits : f.r1 < 2 ^ 32
  pub words : (s.tcb w).notify_bits < 2 ^ 32
  pub found : thread_by_globalid s.tcb m (s.tcb p).saved_r0 ≡ w
  pub some_bit : bit_and f.r1 (s.tcb w).saved_r0 ≢ 0

-- What both orders lead to.
pub record Met (s : Sched) (qs : Queues) (w p : Ptr) (f : Frame) (s' : Sched) : Type 0 where
  pub holds : Holds s' (queued_at s w qs)
  pub runs : (s'.tcb w).state ≡ runnable
  pub result : (s'.tcb w).saved_r0 ≡ bit_and f.r1 (s.tcb w).saved_r0
  pub left :
      (s'.tcb w).notify_bits
      ≡ and_not (bit_or (s.tcb w).notify_bits f.r1) (bit_and f.r1 (s.tcb w).saved_r0)
  pub mask : (s'.tcb w).notify_mask ≡ 0
  pub posted : (s'.tcb p).saved_r0 ≡ 1
  pub others : (q : Ptr) → q ≢ w → q ≢ p → strip (s'.tcb q) ≡ strip (s.tcb q)

module _ {s : Sched} {qs : Queues} {w p : Ptr} {f : Frame} {m : ThreadMap}
    (h : Meet s qs w p f m) where
  got :
      bit_and (bit_or (s.tcb w).notify_bits f.r1) (s.tcb w).saved_r0
      ≡ bit_and f.r1 (s.tcb w).saved_r0
  got =
      let none_up : bit_and (s.tcb w).notify_bits (s.tcb w).saved_r0 ≡ 0 =
        ground (arith, h.waits) in
      bit_and-bit_or 32 (s.tcb w).notify_bits f.r1 (s.tcb w).saved_r0 h.words h.bits
      ∙ ap (λ x. bit_or x (bit_and f.r1 (s.tcb w).saved_r0)) none_up
      ∙ bit_or_zero _

  bits_up : f.r1 ≢ 0
  bits_up = ground (arith, bit_and-lt 0 f.r1 (s.tcb w).saved_r0, h.some_bit)

  -- The waiter first.
  module _ (s₁ : Sched) (held : Holds s₁ qs)
      (at : strip (s₁.tcb w) ≡ strip (waiting (s.tcb w).saved_r0 (s.tcb w)))
      (rest : (q : Ptr) → q ≢ w → strip (s₁.tcb q) ≡ strip (s.tcb q)) where
    got_then :
        bit_and (bit_or (s₁.tcb w).notify_bits f.r1) (s₁.tcb w).notify_mask
        ≡ bit_and f.r1 (s.tcb w).saved_r0
    got_then =
        ap₂ (λ b k. bit_and (bit_or b f.r1) k) (ap (λ (c : Tcb). c.notify_bits) at)
          (ap (λ (c : Tcb). c.notify_mask) at)
        ∙ got

    same_id : (q : Ptr) → (s₁.tcb q).t_globalid ≡ (s.tcb q).t_globalid
    same_id q = elim (Bool-cases (q == w)) [
      | inl same ↦ let e : q ≡ w = ground arith in rw e (ap (λ (c : Tcb). c.t_globalid) at)
      | inr other ↦ ap (λ (c : Tcb). c.t_globalid) (rest q (ground arith))
    ]

    target_then : thread_by_globalid s₁.tcb m (s₁.tcb p).saved_r0 ≡ w
    target_then =
        ap (thread_by_globalid s₁.tcb m) (ap (λ (c : Tcb). c.saved_r0) (rest p h.apart))
        ∙ thread_by_globalid_same s.tcb s₁.tcb m same_id (s.tcb p).saved_r0
        ∙ h.found

    post_then : (s' : Sched) × (sys_notify_post p f m s₁ ≡ ok s') × Met s qs w p f s'
    post_then =
        let level_same : level s₁ w ≡ level s w = ap (λ (c : Tcb). clamp c.priority) at in
        let (s₂, e, held₂, at₂, told, rest₂) =
          post_wakes held p f m w h.waiter bits_up h.apart target_then
            (ap (λ (c : Tcb). c.state) at) (λ z. h.some_bit (sym got_then ∙ z)) in
        let left = ap (λ (c : Tcb). c.notify_bits) at₂ in
        (
          s₂,
          e,
          record {
            holds = rw level_same at held₂;
            runs = ap (λ (c : Tcb). c.state) at₂;
            result = ap (λ (c : Tcb). c.saved_r0) at₂ ∙ got_then;
            left =
                left
                ∙ ap₂ (λ b k. and_not (bit_or b f.r1) k) (ap (λ (c : Tcb). c.notify_bits) at)
                    got_then;
            mask = ap (λ (c : Tcb). c.notify_mask) at₂;
            posted = ap (λ (c : Tcb). c.saved_r0) told;
            others = λ q a b. rest₂ q a b ∙ rest q a;
          },
        )

  wait_first :
      (s' : Sched) × ((sys_notify_wait w s >>= sys_notify_post p f m) ≡ ok s') × Met s qs w p f s'
  wait_first =
      let (s₁, e, held, at, rest) = sys_notify_wait-Waits h.holds w h.waiter h.idle in
      let (s₂, e₂, met) = post_then s₁ (rw h.waits at held) (at ∙ ground (arith, h.waits)) rest in
      (s₂, rw e e₂, met)

  -- The post first.
  module _ (s₁ : Sched) (held : Holds s₁ qs) (at : s₁.tcb w ≡ signalled f.r1 (s.tcb w))
      (told : (s₁.tcb p).saved_r0 ≡ 1)
      (rest : (q : Ptr) → q ≢ w → q ≢ p → strip (s₁.tcb q) ≡ strip (s.tcb q)) where
    fast : waits_for w s₁ ≡ false
    fast = rw (at, got) (ground (arith, h.some_bit))

    block_then :
        let g = bit_and f.r1 (s.tcb w).saved_r0 in
        let c = signalled f.r1 (s.tcb w) in
        block_after (s₁.tcb w) ≡ resumed (returned g (set_bits (and_not c.notify_bits g) c))
    block_then =
        let valid : ((s.tcb w).saved_r0 == 0) ≡ false = ground (arith, h.waits) in
        let up : (bit_and f.r1 (s.tcb w).saved_r0 == 0) ≡ false = ground (arith, h.some_bit) in
        rw (at, valid, got, up) refl

    wait_then : (s' : Sched) × (sys_notify_wait w s₁ ≡ ok s') × Met s qs w p f s'
    wait_then =
        let level_same : level s₁ w ≡ level s w = ap (λ (c : Tcb). clamp c.priority) at in
        let idle₁ = ap (λ (c : Tcb). is_runnable c.state) at ∙ h.idle in
        let (s₂, e, held₂, at₂, rest₂) = sys_notify_wait-Waits held w h.waiter idle₁ in
        let block = at₂ ∙ block_then in
        (
          s₂,
          e,
          record {
            holds = rw level_same at (rw fast at held₂);
            runs = ap (λ (c : Tcb). c.state) block;
            result = ap (λ (c : Tcb). c.saved_r0) block;
            left = ap (λ (c : Tcb). c.notify_bits) block;
            mask = ap (λ (c : Tcb). c.notify_mask) block;
            posted = ap (λ (c : Tcb). c.saved_r0) (rest₂ p h.apart) ∙ told;
            others = λ q a b. rest₂ q a ∙ rest q a b;
          },
        )

  post_first :
      (s' : Sched) × ((sys_notify_post p f m s >>= sys_notify_wait w) ≡ ok s') × Met s qs w p f s'
  post_first =
      let c = signalled f.r1 (s.tcb w) in
      let s₁ = set_tcb w c s in
      let s₂ = set_r0 p 1 s₁ in
      let held₁ = set_tcb-Holds h.holds w c refl refl refl (λ r. r) in
      let held₂ =
        set_tcb-Holds held₁ p (record (s₁.tcb p) { saved_r0 = 1 }) refl refl refl (λ r. r) in
      let t = record (s₁.tcb p) { saved_r0 = 1 } in
      let here : s₂.tcb w ≡ c =
        tcb-set_tcb_ne p t s₁ w (λ z. h.apart (sym z)) ∙ tcb-set_tcb_self w c s in
      let (s₃, e, met) =
        wait_then s₂ held₂ here (ap (λ (x : Tcb). x.saved_r0) (tcb-set_tcb_self p t s₁))
          (λ q a b. ap strip (tcb-set_tcb_ne p t s₁ q b ∙ tcb-set_tcb_ne w c s q a)) in
      (s₃, rw (post_only h.holds p f m w h.waiter bits_up h.apart h.found h.awake) e, met)

-- Where a thread is to wait for bits, none of which is up, and another thread posts some of them to it, no order of
-- the two system calls loses the wake-up: with either first, neither panics, and in the end the
-- waiter is runnable, at the tail of the queue of its level, with the posted bits that it waits for
-- as its result; exactly these are down again, it waits for nothing, and the post returns 1. No other
-- thread changes but for its queue links.
pub wait_meets_post :
    {s : Sched} {qs : Queues} {w p : Ptr} {f : Frame} {m : ThreadMap}
    → Meet s qs w p f m
    → ((s' : Sched) × ((sys_notify_wait w s >>= sys_notify_post p f m) ≡ ok s') × Met s qs w p f s')
      × ((s' : Sched) × ((sys_notify_post p f m s >>= sys_notify_wait w) ≡ ok s')
          × Met s qs w p f s')
wait_meets_post h = (wait_first h, post_first h)
