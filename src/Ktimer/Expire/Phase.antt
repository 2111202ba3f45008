-- ===== src/Ktimer/Expire/Phase.antt =====
-- Periodic timers keep their phase.
use f9_kernel.Base.{ℕ, zero, suc, ◌+◌, ◌*◌, ◌^◌, ◌<◌, ◌≤◌, ◌≡◌, refl, arith, ltb, if◌then◌else◌}
use f9_kernel.Ktimer.{KtimerEvent}
use f9_kernel.Ktimer.Expire.{reschedule}

-- The deadline after `n` expiries, each handled at some time `now i`.
abbrev pub expiries : ℕ → (ℕ → ℕ) → KtimerEvent → KtimerEvent
expiries zero now kte = kte
expiries (suc n) now kte = (reschedule (now n) (expiries n now kte)).1

data-expiries : (n : ℕ) (now : ℕ → ℕ) (kte : KtimerEvent) → (expiries n now kte).data_ ≡ kte.data_
unfolding reschedule
data-expiries zero now kte = refl
data-expiries (suc n) now kte = ground (arith, data-expiries n now kte)

-- However late its expiries are handled, the deadline of a periodic timer after `n` of them is the
-- first one plus `n` periods, as long as this fits 64 bits.
pub deadline-expiries :
    (n : ℕ) (now : ℕ → ℕ) (kte : KtimerEvent)
    → 0 < kte.deadline
    → kte.data_ < 2 ^ 32
    → kte.deadline + n * kte.data_ < 2 ^ 64
    → (expiries n now kte).deadline ≡ kte.deadline + n * kte.data_
unfolding reschedule
deadline-expiries zero now kte pos small bound = ground arith
deadline-expiries (suc n) now kte pos small bound =
    let step : suc n * kte.data_ ≡ n * kte.data_ + kte.data_ = omega arith in
    let ih = deadline-expiries n now kte pos small (omega (arith, bound, step)) in
    ground (arith, ih, step, data-expiries n now kte)

-- A periodic timer is due again at its next deadline, or one tick later if that has passed; it is
-- never freed.
pub reschedule-ticks :
    (now : ℕ) (kte : KtimerEvent)
    → 0 < kte.deadline
    → kte.data_ < 2 ^ 32
    → kte.deadline + kte.data_ < 2 ^ 64
    → kte.deadline ≤ now
    → now + (reschedule now kte).0
      ≡ (if ltb now (kte.deadline + kte.data_) then kte.deadline + kte.data_ else now + 1)
unfolding reschedule
reschedule-ticks now kte pos small bound due = ground arith
