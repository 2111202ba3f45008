-- ===== src/Ktimer.antt =====
-- kernel/ktimer.c: the kernel timer. The chain of events is a list, ordered by expiry, in which each
-- event keeps the ticks between its predecessor and itself; the timer interrupt counts down to the
-- first one. CONFIG_KTIMER_MINTICKS is 128, CONFIG_KTIMER_DIRECT_NOTIFY and CONFIG_KTIMER_TICKLESS
-- are off. Of the pool `ktimer_event_table`, of `max` elements, the number in use is kept.
pub mod Expiry
pub mod Order
pub mod Expire
pub mod Tick
mod Tests
use f9_kernel.Base.{
  ℕ, zero, suc, ◌+◌, ◌-◌, ◌^◌, ◌%◌, Bool, true, false, not, ◌||◌, ◌&&◌, List, [], ◌∷◌, Option, none,
  some, ◌==◌, leb, ltb, if◌then◌else◌,
}
use f9_kernel.Tcb.{Ptr, null}
use f9_kernel.Sched.{Run, ok, ◌>>=◌}
use f9_kernel.Kernel.{Kernel, softirq_schedule, kte_softirq}

-- `ktimer_event_handler_t`: the handler of notification timers, or the function that a caller of
-- `ktimer_event_create` gives; 0 is `NULL`.
pub data Handler : Type 0 where
  ktimer_notify_handler : Handler
  callback : ℕ → Handler

-- `ktimer_event_t` without its link; `id` is its address.
pub record KtimerEvent : Type 0 where
  pub id : Ptr
  pub handler : Handler
  pub delta : ℕ
  pub data_ : ℕ
  pub notify_thread : Ptr
  pub notify_bits : ℕ
  pub deadline : ℕ

-- The static variables of ktimer.c with the kernel that its calls change. The first `coalesce_count`
-- entries of `coalesce_cache` are a list.
pub record Ktimer : Type 0 where
  pub ktimer_now : ℕ
  pub ktimer_enabled : Bool
  pub ktimer_delta : ℕ
  pub ktimer_time : ℕ
  pub event_queue : List KtimerEvent
  pub pool_used : ℕ
  pub coalesce_cache : List (Ptr × ℕ)
  pub coalesce_active : Bool
  pub kernel : Kernel

-- CONFIG_KTIMER_MINTICKS
abbrev pub minticks : ℕ
minticks = 128

-- `ktimer_disable`
abbrev pub ktimer_disable : Ktimer → Ktimer
ktimer_disable k = record k { ktimer_enabled = false }

-- `ktimer_enable`
abbrev pub ktimer_enable : ℕ → Ktimer → Ktimer
ktimer_enable delta k = record k { ktimer_delta = delta; ktimer_time = 0; ktimer_enabled = true }

-- `__ktimer_handler`
unfoldable pub __ktimer_handler : Ktimer → Run Ktimer
__ktimer_handler k =
    let k₁ = record k { ktimer_now = (k.ktimer_now + 1) % 2 ^ 64 } in
    let k₂ = record k₁ { ktimer_time = k.ktimer_time + 1; ktimer_delta = k.ktimer_delta - 1 } in
    let off = record k₁ { ktimer_enabled = false; ktimer_time = 0; ktimer_delta = 0 } in
    if k.ktimer_enabled && ltb 0 k.ktimer_delta
    then (if k.ktimer_delta - 1 == 0
        then (softirq_schedule kte_softirq k.kernel >>= λ kern. ok (record off { kernel = kern }))
        else ok k₂)
    else ok k₁

-- `a - b` on 32-bit words.
abbrev pub sub32 : ℕ → ℕ → ℕ
sub32 a b = (a + (2 ^ 32 - b % 2 ^ 32)) % 2 ^ 32

-- `ktimer_event_recalc` of the event that heads the rest of the chain, if any.
abbrev pub ktimer_event_recalc : ℕ → List KtimerEvent → List KtimerEvent
ktimer_event_recalc new_delta [] = []
ktimer_event_recalc new_delta (e ∷ es) = record e { delta = sub32 e.delta new_delta } ∷ es

-- The end of `ktimer_event_schedule`: `kte` is linked in front of the rest. `delta` is a signed
-- 32-bit number, and less than MINTICKS also if it is negative.
abbrev pub chain : KtimerEvent → ℕ → List KtimerEvent → List KtimerEvent
chain kte delta rest =
    let d = if leb (2 ^ 31) delta || ltb delta minticks then 0 else delta in
    record kte { delta = d } ∷ ktimer_event_recalc d rest

-- The `do` loop of `ktimer_event_schedule` at `event`, with the insertion that follows it.
unfoldable pub insert_after :
    ℕ → ℕ → KtimerEvent → KtimerEvent → List KtimerEvent → List KtimerEvent
insert_after ticks etime kte event [] = event ∷ chain kte (sub32 ticks (etime + event.delta)) []
insert_after ticks etime kte event (next ∷ rest) =
    let etime' = (etime + event.delta) % 2 ^ 32 in
    let further = insert_after ticks etime' kte next rest in
    if ltb ((etime' + next.delta) % 2 ^ 32) ticks
    then event ∷ further
    else event ∷ chain kte (sub32 ticks etime') (next ∷ rest)

-- The ticks from now, as `ktimer_event_schedule` adjusts them by the time elapsed.
abbrev pub adjusted : ℕ → Ktimer → ℕ
adjusted ticks k =
    let elapsed = k.ktimer_time % 2 ^ 32 in if leb ticks elapsed then 1 else ticks - elapsed

abbrev pub schedule_at : ℕ → KtimerEvent → List KtimerEvent → Ktimer → Ktimer
schedule_at ticks kte [] k =
    ktimer_enable ticks (record k { event_queue = record kte { delta = ticks } ∷ [] })
schedule_at ticks kte (e ∷ es) k =
    if leb e.delta ticks
    then record k { event_queue = insert_after ticks 0 kte e es }
    else ktimer_enable ticks (record k { event_queue = chain kte ticks (e ∷ es) })

-- `ktimer_event_schedule`; the result says whether it returns 0.
unfoldable pub ktimer_event_schedule : ℕ → KtimerEvent → Ktimer → Bool × Ktimer
ktimer_event_schedule ticks kte k =
    if ticks == 0 then (false, k) else (true, schedule_at (adjusted ticks k) kte k.event_queue k)

abbrev pub is_null : Handler → Bool
is_null ktimer_notify_handler = false
is_null (callback f) = f == 0

-- The event is scheduled, or goes back to the pool.
abbrev pub schedule_or_free : ℕ → KtimerEvent → Bool × Ktimer → Ktimer → Option KtimerEvent × Ktimer
schedule_or_free ticks kte (true, k') k = (some kte, k')
schedule_or_free ticks kte (false, k') k = (none, k)

-- `ktimer_event_create`; `fresh` is the address that `ktable_alloc` gives.
unfoldable pub ktimer_event_create :
    ℕ → Ptr → ℕ → Handler → ℕ → Ktimer → Option KtimerEvent × Ktimer
ktimer_event_create max fresh ticks handler data_ k =
    let kte : KtimerEvent = record {
      id = fresh;
      handler = handler;
      delta = 0;
      data_ = data_;
      notify_thread = null;
      notify_bits = 0;
      deadline = 0;
    } in
    if is_null handler
    then (none, k)
    else if leb max k.pool_used
    then (none, k)
    else schedule_or_free ticks kte
        (ktimer_event_schedule ticks kte (record k { pool_used = k.pool_used + 1 })) k

-- `ktimer_event_create_notify`
unfoldable pub ktimer_event_create_notify :
    ℕ → Ptr → ℕ → Ptr → ℕ → Bool → Ktimer → Option KtimerEvent × Ktimer
ktimer_event_create_notify max fresh ticks notify_thread notify_bits periodic k =
    let kte : KtimerEvent = record {
      id = fresh;
      handler = ktimer_notify_handler;
      delta = 0;
      data_ = if periodic then ticks else 0;
      notify_thread = notify_thread;
      notify_bits = notify_bits;
      deadline = if periodic then (k.ktimer_now + ticks) % 2 ^ 64 else 0;
    } in
    if (notify_thread == null) || (notify_bits == 0)
    then (none, k)
    else if leb max k.pool_used
    then (none, k)
    else schedule_or_free ticks kte
        (ktimer_event_schedule ticks kte (record k { pool_used = k.pool_used + 1 })) k
