-- ===== src/Ktimer/Order.antt =====
-- Where `ktimer_event_schedule` puts an event: the expiry times of the chain.
use f9_kernel.Base.{
  ℕ, ◌+◌, ◌-◌, ◌^◌, ◌%◌, ◌<◌, ◌≤◌, ◌≡◌, refl, ap, inl, inr, arith, Bool, true, not, ◌||◌, ◌&&◌,
  List, [], ◌∷◌, ◌++◌, leb, ltb, if◌then◌else◌, Bool-cases,
}
use f9_kernel.Tcb.{Ptr}
use f9_kernel.Ktimer.{KtimerEvent, Ktimer, minticks, sub32, chain, insert_after}

-- The events of a chain with the sum of the deltas up to each, counted from `base`: the tick at which
-- it expires if `base` is the tick at which the countdown to the first one began.
abbrev pub times : ℕ → List KtimerEvent → List (Ptr × ℕ)
times base [] = []
times base (e ∷ es) = (e.id, base + e.delta) ∷ times (base + e.delta) es

-- The ticks to the end of the chain.
abbrev pub total : List KtimerEvent → ℕ
total [] = 0
total (e ∷ es) = e.delta + total es

-- Whether all expire by tick `n`, and not before tick `n`.
abbrev pub all_by : ℕ → List (Ptr × ℕ) → Bool
all_by n [] = true
all_by n ((p, t) ∷ xs) = leb t n && all_by n xs

abbrev pub all_from : ℕ → List (Ptr × ℕ) → Bool
all_from n [] = true
all_from n ((p, t) ∷ xs) = leb n t && all_from n xs

-- The times of a chain before and after an event was put in for `ticks`: those of the other events
-- are the same, that of the new one is up to MINTICKS - 1 ticks less, behind those of the events up to it and in front of
-- those from `ticks` on.
pub record Inserted (ticks base : ℕ) (id : Ptr) (old new : List (Ptr × ℕ)) : Type 0 where
  pub time : ℕ
  pub before : List (Ptr × ℕ)
  pub after : List (Ptr × ℕ)
  pub was : old ≡ before ++ after
  pub is : new ≡ before ++ ((id, time) ∷ after)
  pub early : all_by time before ≡ true
  pub late : all_from ticks after ≡ true
  pub in_time : time ≤ ticks
  pub from : base ≤ time
  pub close : ticks < time + minticks

all_from-times : (n base : ℕ) (es : List KtimerEvent) → n ≤ base → all_from n (times base es) ≡ true
all_from-times n base [] le = refl
all_from-times n base (e ∷ es) le =
    ground (arith, all_from-times n (base + e.delta) es (omega arith))

all_from-times_next :
    (n base : ℕ) (e : KtimerEvent) (es : List KtimerEvent)
    → n ≤ base + e.delta
    → all_from n (times base (e ∷ es)) ≡ true
all_from-times_next n base e es le = ground (arith, all_from-times n (base + e.delta) es le)

-- The delta that an event gets `delta` ticks after its predecessor.
abbrev rounded : ℕ → ℕ
rounded delta = if ltb delta minticks then 0 else delta

module _ (ticks base : ℕ) (kte : KtimerEvent) (le : base ≤ ticks) (small : ticks < 2 ^ 31) where
  delta_small : sub32 ticks base ≡ ticks - base
  delta_small = ground arith

  chain_delta :
      (if leb (2 ^ 31) (sub32 ticks base) || ltb (sub32 ticks base) minticks
        then 0
        else sub32 ticks base)
      ≡ rounded (ticks - base)
  chain_delta = rw delta_small (ground arith)

  next_delta :
      (n : ℕ)
      → ticks ≤ base + n
      → n < 2 ^ 31
      → base + rounded (ticks - base) + sub32 n (rounded (ticks - base)) ≡ base + n
  next_delta n far lt = ground arith

  chain-Inserted :
      (rest : List KtimerEvent)
      → base + total rest < 2 ^ 31
      → all_from ticks (times base rest) ≡ true
      → Inserted ticks base kte.id
          (times base rest)
          (times base (chain kte (sub32 ticks base) rest))
  chain-Inserted [] bound late = record {
    time = base + rounded (ticks - base);
    before = [];
    after = [];
    was = refl;
    is = rw chain_delta refl;
    early = refl;
    late = refl;
    in_time = ground arith;
    from = omega arith;
    close = ground arith;
  }
  chain-Inserted (n ∷ rest) bound late = record {
    time = base + rounded (ticks - base);
    before = [];
    after = times base (n ∷ rest);
    was = refl;
    is = rw (chain_delta, next_delta n.delta (ground (arith, late)) (omega arith)) refl;
    early = refl;
    late = late;
    in_time = ground arith;
    from = omega arith;
    close = ground arith;
  }

later :
    {ticks b : ℕ} {id : Ptr} {old new : List (Ptr × ℕ)} (x : Ptr) (t base : ℕ)
    → base ≤ b
    → t ≤ b
    → Inserted ticks b id old new
    → Inserted ticks base id ((x, t) ∷ old) ((x, t) ∷ new)
later x t base base_le le i = record {
  time = i.time;
  before = (x, t) ∷ i.before;
  after = i.after;
  was = ap (λ l. (x, t) ∷ l) i.was;
  is = ap (λ l. (x, t) ∷ l) i.is;
  early = ground (arith, i.early, i.from);
  late = i.late;
  in_time = i.in_time;
  from = omega (arith, i.from, base_le);
  close = i.close;
}

pub insert_after-Inserted :
    (ticks : ℕ) (kte : KtimerEvent) (small : ticks < 2 ^ 31) (base : ℕ) (e : KtimerEvent)
    (rest : List KtimerEvent)
    → base + e.delta ≤ ticks
    → base + e.delta + total rest < 2 ^ 31
    → Inserted ticks
        (base + e.delta)
        kte.id
        (times base (e ∷ rest))
        (times base (insert_after ticks base kte e rest))
unfolding insert_after
insert_after-Inserted ticks kte small base e [] le bound =
    later e.id (base + e.delta) (base + e.delta) (omega arith) (omega arith)
      (chain-Inserted ticks (base + e.delta) kte le small [] bound refl)
insert_after-Inserted ticks kte small base e (n ∷ rest) le bound =
    let step : (base + e.delta) % 2 ^ 32 ≡ base + e.delta = ground arith in
    let sum : (base + e.delta + n.delta) % 2 ^ 32 ≡ base + e.delta + n.delta = ground arith in
    elim (Bool-cases (ltb (base + e.delta + n.delta) ticks)) [
      | inl more ↦
          rw (step, sum, more)
            (later e.id (base + e.delta) (base + e.delta) (omega arith) (omega arith) (
              insert_after-Inserted ticks kte small (base + e.delta) n rest (ground arith)
                (omega arith)))
      | inr stop ↦
          rw (step, sum, stop)
            (later e.id (base + e.delta) (base + e.delta) (omega arith) (omega arith) (
              chain-Inserted ticks (base + e.delta) kte le small (n ∷ rest) (omega arith)
                (all_from-times_next ticks (base + e.delta) n rest (ground arith))))
    ]

-- Whether an event for `ticks` becomes the first of the chain.
abbrev pub is_first : ℕ → List KtimerEvent → Bool
is_first ticks [] = true
is_first ticks (e ∷ es) = not (leb e.delta ticks)

-- The timer's state after an event was scheduled.
pub record Scheduled (ticks : ℕ) (kte : KtimerEvent) (q : List KtimerEvent) (k k' : Ktimer)
    : Type 0 where
  pub order : Inserted ticks 0 kte.id (times 0 q) (times 0 k'.event_queue)
  pub counts : k'.ktimer_delta ≡ (if is_first ticks q then ticks else k.ktimer_delta)
  pub elapsed : k'.ktimer_time ≡ (if is_first ticks q then 0 else k.ktimer_time)
