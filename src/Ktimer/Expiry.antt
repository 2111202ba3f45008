-- ===== src/Ktimer/Expiry.antt =====
-- Where `ktimer_event_schedule` puts an event: the ticks that are left until each event expires.
use f9_kernel.Base.{
  ℕ, ◌+◌, ◌-◌, ◌<◌, ◌≤◌, ◌≡◌, ◌⊎◌, Bool, true, false, List, [], ◌∷◌, ◌++◌, ◌==◌, ltb, if◌then◌else◌,
}
use f9_kernel.Tcb.{Ptr}
use f9_kernel.Ktimer.{KtimerEvent, Ktimer, minticks}
use f9_kernel.Ktimer.Order.{times, is_first}

-- The events of a chain with the ticks left until each expires: the first one when the countdown,
-- of `delta` ticks, is over, and each other one its delta later than its predecessor.
abbrev pub left : ℕ → List KtimerEvent → List (Ptr × ℕ)
left delta [] = []
left delta (e ∷ es) = (e.id, delta) ∷ times delta es

-- All expire `n` ticks later.
abbrev pub delayed : ℕ → List (Ptr × ℕ) → List (Ptr × ℕ)
delayed n [] = []
delayed n ((p, t) ∷ xs) = (p, t + n) ∷ delayed n xs

-- Whether the countdown to the first event began `time` ticks ago, with `delta` ticks left.
abbrev pub is_counting : ℕ → ℕ → List KtimerEvent → Bool
is_counting time delta [] = true
is_counting time delta (e ∷ es) = e.delta == time + delta

-- All expire `n` ticks sooner.
abbrev sooner : ℕ → List (Ptr × ℕ) → List (Ptr × ℕ)
sooner n [] = []
sooner n ((p, t) ∷ xs) = (p, t - n) ∷ sooner n xs

-- The ticks left before and after an event was put in behind the first one, `elapsed` ticks after the
-- countdown began: those of the other events are the same.
pub record Behind (ticks elapsed : ℕ) (id : Ptr) (old new : List (Ptr × ℕ)) : Type 0 where
  pub time : ℕ
  pub before : List (Ptr × ℕ)
  pub after : List (Ptr × ℕ)
  pub was : old ≡ before ++ after
  pub is : new ≡ before ++ ((id, time) ∷ after)
  pub in_time : time + elapsed ≤ ticks
  pub close : ticks < time + elapsed + minticks

-- The ticks that are lost for the other events where an event for `ticks` becomes the first one.
abbrev pub lost : ℕ → ℕ → ℕ
lost ticks elapsed = elapsed + (if ltb ticks minticks then ticks else 0)

-- The ticks left until each event expires, after an event was scheduled for `ticks`.
abbrev pub Expiries : ℕ → KtimerEvent → Ktimer → Ktimer → Type 0
Expiries ticks kte k k' =
    let old = left k.ktimer_delta k.event_queue in
    let new = left k'.ktimer_delta k'.event_queue in
    ((is_first ticks k.event_queue ≡ true)
      × (new ≡ (kte.id, ticks) ∷ delayed (lost ticks k.ktimer_time) old))
    ⊎ ((is_first ticks k.event_queue ≡ false) × Behind ticks k.ktimer_time kte.id old new)
