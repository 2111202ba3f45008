-- ===== src/Ktimer/Expire.antt =====
-- kernel/ktimer.c: the timer softirq. The events that expire together are handled in order; their
-- notifications are gathered by thread in the coalescing cache and delivered at the end.
pub mod Coalesce
pub mod Phase
use f9_kernel.Base.{
  ℕ, zero, suc, ◌+◌, ◌-◌, ◌^◌, ◌%◌, bit_or, Bool, true, false, not, ◌||◌, List, [], ◌∷◌, ◌++◌,
  length, ◌==◌, leb, ltb, if◌then◌else◌,
}
use f9_kernel.Tcb.{Ptr, null}
use f9_kernel.Sched.{Run, ok, ◌>>=◌}
use f9_kernel.Kernel.{Kernel}
use f9_kernel.Notify.{notification_post_softirq}
use f9_kernel.Notify.Async.{notification_post}
use f9_kernel.Ktimer.{
  Handler, ktimer_notify_handler, callback, KtimerEvent, Ktimer, ktimer_disable, ktimer_enable,
  ktimer_event_schedule,
}

-- KTIMER_COALESCE_CACHE_SIZE
abbrev pub cache_size : ℕ
cache_size = 8

abbrev pub in_cache : Ptr → List (Ptr × ℕ) → Bool
in_cache t [] = false
in_cache t ((p, bits) ∷ cache) = (p == t) || in_cache t cache

-- The first entry of the thread takes the bits.
abbrev pub or_bits : Ptr → ℕ → List (Ptr × ℕ) → List (Ptr × ℕ)
or_bits t b [] = []
or_bits t b ((p, bits) ∷ cache) =
    if p == t then (p, bit_or bits b) ∷ cache else (p, bits) ∷ or_bits t b cache

-- The part of `ktimer_notify_handler` that adds a notification to the cache.
unfoldable pub coalesce : Ptr → ℕ → Ktimer → Run Ktimer
coalesce t b k =
    if in_cache t k.coalesce_cache
    then ok (record k { coalesce_cache = or_bits t b k.coalesce_cache })
    else if ltb (length k.coalesce_cache) cache_size
    then ok (record k { coalesce_cache = k.coalesce_cache ++ ((t, b) ∷ []) })
    else notification_post_softirq t b k.kernel >>= λ (sent, kern). ok (record k { kernel = kern })

-- The fallback when `notification_post_softirq` fails; `max` is CONFIG_MAX_NOTIFICATIONS.
abbrev pub fall_back : ℕ → Ptr → ℕ → Ktimer → Bool × Kernel → Run Ktimer
fall_back max t b k (true, kern) = ok (record k { kernel = kern })
fall_back max t b k (false, kern) =
    notification_post max t b (k.ktimer_now % 2 ^ 32) kern >>= λ (sent, kern').
    ok (record k { kernel = kern' })

-- The notification of `ktimer_notify_handler`.
unfoldable pub notify : ℕ → Ptr → ℕ → Ktimer → Run Ktimer
notify max t b k =
    if k.coalesce_active
    then coalesce t b k
    else notification_post_softirq t b k.kernel >>= fall_back max t b k

-- The deadline of a periodic event goes on by its period, which is in `data`.
abbrev pub next_deadline : KtimerEvent → ℕ
next_deadline kte = (kte.deadline + kte.data_ % 2 ^ 32) % 2 ^ 64

-- The ticks to the next deadline that `ktimer_notify_handler` returns, and the event.
unfoldable pub reschedule : ℕ → KtimerEvent → ℕ × KtimerEvent
reschedule now kte =
    let kte' = record kte { deadline = next_deadline kte } in
    if ltb 0 kte.deadline
    then (if ltb now (next_deadline kte)
        then ((next_deadline kte - now) % 2 ^ 32, kte')
        else (1, kte'))
    else (0, kte)

-- A handler's result: its return value with the event and the state that it leaves.
abbrev pub Handled : Type 0
Handled = Run (ℕ × (KtimerEvent × Ktimer))

-- `ktimer_notify_handler`
unfoldable pub run_notify_handler : ℕ → KtimerEvent → Ktimer → Handled
run_notify_handler max kte k =
    if kte.notify_thread == null
    then ok (0, (kte, k))
    else notify max kte.notify_thread kte.notify_bits k >>= λ k'.
        ok ((reschedule k'.ktimer_now kte).0, ((reschedule k'.ktimer_now kte).1, k'))

-- A call of `event->handler`; `call` gives the functions of the callers of `ktimer_event_create`.
abbrev pub call_handler : ℕ → (ℕ → KtimerEvent → Ktimer → Handled) → KtimerEvent → Ktimer → Handled
call_handler max call kte k =
    let run : Handler → Handled = λ h. elim h [
      | ktimer_notify_handler ↦ run_notify_handler max kte k
      | callback f ↦ call f kte k
    ] in
    run kte.handler

-- The head of the chain and the events that expire with it, and the rest of the chain.
abbrev pub with_zero : List KtimerEvent → List KtimerEvent × List KtimerEvent
with_zero [] = ([], [])
with_zero (e ∷ es) = if e.delta == 0 then (e ∷ (with_zero es).0, (with_zero es).1) else ([], e ∷ es)

-- What becomes of a handled event: it is scheduled again or goes back to the pool.
abbrev pub after_handler : ℕ × (KtimerEvent × Ktimer) → Ktimer
after_handler (h_retvalue, (kte, k)) =
    if h_retvalue == 0
    then record k { pool_used = k.pool_used - 1 }
    else (ktimer_event_schedule h_retvalue kte k).1

-- The walk over the events that expire.
unfoldable pub walk_chain :
    ℕ → (ℕ → KtimerEvent → Ktimer → Handled) → List KtimerEvent → Ktimer → Run Ktimer
walk_chain max call [] k = ok k
walk_chain max call (e ∷ es) k =
    call_handler max call e k >>= λ r. walk_chain max call es (after_handler r)

-- The delivery of the cached notifications.
unfoldable pub flush : List (Ptr × ℕ) → Kernel → Run Kernel
flush [] kern = ok kern
flush ((t, b) ∷ cache) kern =
    notification_post_softirq t b kern >>= λ (sent, kern'). flush cache kern'

-- `ktimer_enable` for the head of the chain, if there is one.
abbrev pub enable_head : List KtimerEvent → Ktimer → Ktimer
enable_head [] k = k
enable_head (e ∷ es) k = ktimer_enable e.delta k

-- `ktimer_event_handler` on the chain of the timer.
abbrev pub handle_chain :
    ℕ → (ℕ → KtimerEvent → Ktimer → Handled) → List KtimerEvent → Ktimer → Run Ktimer
handle_chain max call [] k = ok (ktimer_disable k)
handle_chain max call (e ∷ es) k =
    walk_chain max call (e ∷ (with_zero es).0)
      (record k { coalesce_active = true; coalesce_cache = []; event_queue = (with_zero es).1 })
    >>= λ k'. flush k'.coalesce_cache k'.kernel >>= λ kern. ok (
        enable_head k'.event_queue
          (record k' { kernel = kern; coalesce_active = false; coalesce_cache = [] }))

-- `ktimer_event_handler`
unfoldable pub ktimer_event_handler : ℕ → (ℕ → KtimerEvent → Ktimer → Handled) → Ktimer → Run Ktimer
ktimer_event_handler max call k = handle_chain max call k.event_queue k
