-- ===== src/Syscall/Clock.antt =====
-- SYS_SYSTEM_CLOCK: how far the fixed-point conversion is from the exact time.
use f9_kernel.Base.{ℕ, ◌+◌, ◌*◌, ◌^◌, ◌<◌, ◌≤◌, ◌≡◌, true, arith, ◌==◌}
use native.Mathlib.Nat.{
  mul-le-mul_left, mul-le-mul_right, mul-lt-mul_of_pos_right, div-mul-le_self, lt-div-mul-add,
}
use f9_kernel.Syscall.{Syscall, sched_of, usec_per_tick_fp, usec_at, sys_system_clock}

-- A fixed-point factor `f` for `t` steps in 65536000000, and what it makes of `n` steps.
scale_below : (u f n t : ℕ) → u * 65536 ≤ n * f → f * t ≤ 65536000000 → u * t ≤ n * 1000000
scale_below u f n t e g = omega (arith, mul-le-mul_right t e, mul-le-mul_left n g)

scale_above :
    (u f n t : ℕ)
    → n * f < (u + 1) * 65536
    → 65536000000 ≤ f * t + t
    → 0 < t
    → n * 1000000 * 65536 < (u + 1) * t * 65536 + n * t
scale_above u f n t e g pos = omega (arith, mul-lt-mul_of_pos_right e pos, mul-le-mul_left n g)

-- The 64 bits of R1 and R0.
abbrev pub result_of : Syscall → ℕ
result_of k = ((sched_of k).tcb k.caller).saved_r0 + k.frame.r1 * 2 ^ 32

result_of-clock :
    (tps : ℕ) (k : Syscall) → result_of (sys_system_clock tps k) ≡ usec_at tps k.ktimer.ktimer_now
unfolding sys_system_clock usec_at
result_of-clock tps k =
    let self : (k.caller == k.caller) ≡ true = ground arith in rw self (omega arith)

-- With `n` ticks since the start and `ticks_per_sec` of them in a second, as long as the product with the conversion
-- factor fits into 64 bits, R1 and R0 hold `u` microseconds with u ≤ n / ticks_per_sec seconds, and
-- the clock is less than a microsecond and 1 / 65536 of a microsecond for each tick behind.
pub system_clock_bounds :
    (tps : ℕ) (k : Syscall)
    → 0 < tps
    → k.ktimer.ktimer_now * usec_per_tick_fp tps < 2 ^ 64
    → let n = k.ktimer.ktimer_now in
      let u = result_of (sys_system_clock tps k) in
      (u * tps ≤ n * 1000000) × (n * 1000000 * 65536 < (u + 1) * tps * 65536 + n * tps)
unfolding usec_at
system_clock_bounds tps k pos fits =
    let n = k.ktimer.ktimer_now in
    let u = usec_at tps n in
    let f = usec_per_tick_fp tps in
    rw (result_of-clock tps k) (
      scale_below u f n tps (omega arith) (div-mul-le_self 65536000000 tps),
      scale_above u f n tps (omega arith) (omega (arith, lt-div-mul-add {a = 65536000000} pos)) pos,
    )
