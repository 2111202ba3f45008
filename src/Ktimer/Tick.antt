-- ===== src/Ktimer/Tick.antt =====
-- The timer interrupt counts down to the softirq.
use f9_kernel.Base.{
  ℕ, zero, suc, ◌+◌, ◌-◌, ◌^◌, ◌%◌, ◌<◌, ◌≤◌, ◌≡◌, ◌≢◌, refl, sym, arith, true, false, ◌==◌, ltb,
}
use f9_kernel.Tcb.{null}
use f9_kernel.Sched.{Run, ok, ◌>>=◌}
use f9_kernel.Sched.Inv.{Queues, Holds}
use f9_kernel.Kernel.{kte_softirq}
use f9_kernel.Kernel.Schedule.{softirq_schedule-Scheduled}
use f9_kernel.Ktimer.{Ktimer, __ktimer_handler}

-- `n` timer interrupts.
abbrev pub ticks : ℕ → Ktimer → Run Ktimer
ticks zero k = ok k
ticks (suc n) k = __ktimer_handler k >>= ticks n

-- `j` of the ticks to the first event have passed.
abbrev pub passed : ℕ → Ktimer → Ktimer
passed j k = record k {
  ktimer_now = (k.ktimer_now + j) % 2 ^ 64;
  ktimer_enabled = true;
  ktimer_time = k.ktimer_time + j;
  ktimer_delta = k.ktimer_delta - j;
}

tick-passed :
    (k : Ktimer)
    → k.ktimer_enabled ≡ true
    → 1 < k.ktimer_delta
    → __ktimer_handler k ≡ ok (passed 1 k)
unfolding __ktimer_handler
tick-passed k on lt =
    let some_left : ltb 0 k.ktimer_delta ≡ true = ground arith in
    let not_last : (k.ktimer_delta - 1 == 0) ≡ false = ground arith in
    rw (some_left, not_last, on) refl

-- Interrupts before the last one only count: the ticks that remain go down, and the elapsed time and
-- the clock go up.
pub ticks_before :
    (n : ℕ) (k : Ktimer)
    → k.ktimer_enabled ≡ true
    → k.ktimer_now < 2 ^ 64
    → n < k.ktimer_delta
    → ticks n k ≡ ok (passed n k)
unfolding __ktimer_handler
ticks_before zero k on now lt =
    let same_now : (k.ktimer_now + 0) % 2 ^ 64 ≡ k.ktimer_now = ground arith in
    let same_time : k.ktimer_time + 0 ≡ k.ktimer_time = omega arith in
    let same_delta : k.ktimer_delta - 0 ≡ k.ktimer_delta = omega arith in
    rw (same_now, same_time, same_delta, sym on) refl
ticks_before (suc n) k on now lt =
    let k₁ = passed 1 k in
    let add_now : ((k.ktimer_now + 1) % 2 ^ 64 + n) % 2 ^ 64 ≡ (k.ktimer_now + suc n) % 2 ^ 64 =
      ground arith in
    let add_time : k.ktimer_time + 1 + n ≡ k.ktimer_time + suc n = omega arith in
    let add_delta : k.ktimer_delta - 1 - n ≡ k.ktimer_delta - suc n = omega arith in
    let ih : ticks n k₁ ≡ ok (passed n k₁) = ticks_before n k₁ refl (ground arith) (omega arith) in
    rw (tick-passed k on (omega arith)) (rw (add_now, add_time, add_delta) at ih)

-- All the interrupts of the countdown, the last one included.
last_tick :
    {qs : Queues} (n : ℕ) (k : Ktimer)
    → Holds k.kernel.sched qs
    → k.kernel.kernel_thread ≢ null
    → k.ktimer_enabled ≡ true
    → k.ktimer_now < 2 ^ 64
    → k.ktimer_delta ≡ suc n
    → (k' : Ktimer) × (ticks (suc n) k ≡ ok k')
      × (k'.ktimer_enabled ≡ false)
      × (k'.ktimer_delta ≡ 0)
      × (k'.ktimer_time ≡ 0)
      × (k'.ktimer_now ≡ (k.ktimer_now + suc n) % 2 ^ 64)
      × (k'.event_queue ≡ k.event_queue)
      × (k'.kernel.pending kte_softirq ≡ true)
unfolding __ktimer_handler
last_tick zero k inv ne on now e =
    let (kern, run, sch) = softirq_schedule-Scheduled kte_softirq k.kernel inv ne in
    (
      record k {
        ktimer_now = (k.ktimer_now + 1) % 2 ^ 64;
        ktimer_enabled = false;
        ktimer_time = 0;
        ktimer_delta = 0;
        kernel = kern;
      },
      rw (on, e, run) refl,
      refl,
      refl,
      refl,
      refl,
      refl,
      sch.is_pending,
    )
last_tick (suc n) k inv ne on now e =
    let k₁ = passed 1 k in
    let (k', run, off, delta, time, clock, queue, up) =
      last_tick n k₁ inv ne refl (ground arith) (ground (arith, e)) in
    (
      k',
      rw (tick-passed k on (omega (arith, e))) run,
      off,
      delta,
      time,
      ground (arith, clock),
      queue,
      up,
    )

-- A countdown of `n + 1` ticks takes exactly that many interrupts. After any number of them up to
-- `n`, the timer is enabled with the ticks that remain, clock and elapsed time count the interrupts, and
-- nothing else has changed, so no softirq was scheduled. The next one stops the countdown and resets it,
-- makes the timer softirq pending, and leaves the chain of events.
pub ticks_end :
    {qs : Queues} (n : ℕ) (k : Ktimer)
    → Holds k.kernel.sched qs
    → k.kernel.kernel_thread ≢ null
    → k.ktimer_enabled ≡ true
    → k.ktimer_now < 2 ^ 64
    → k.ktimer_delta ≡ suc n
    → ((j : ℕ) → j ≤ n → ticks j k ≡ ok (passed j k))
      × ((k' : Ktimer) × (ticks (suc n) k ≡ ok k')
          × (k'.ktimer_enabled ≡ false)
          × (k'.ktimer_delta ≡ 0)
          × (k'.ktimer_time ≡ 0)
          × (k'.ktimer_now ≡ (k.ktimer_now + suc n) % 2 ^ 64)
          × (k'.event_queue ≡ k.event_queue)
          × (k'.kernel.pending kte_softirq ≡ true))
ticks_end n k inv ne on now e =
    (λ j le. ticks_before j k on now (omega (arith, e)), last_tick n k inv ne on now e)
