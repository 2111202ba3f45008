-- ===== src/Notify/Async/Batch.antt =====
-- What the asynchronous queue promises: its counters, and which events a batch takes.
use f9_kernel.Base.{
  ℕ, suc, ◌+◌, ◌^◌, ◌%◌, ◌<◌, ◌≤◌, ◌≡◌, ◌≢◌, ◌⊎◌, refl, ap, ◌∙◌, sym, fun_ext, inl, inr, arith,
  Bool, true, false, not, List, [], ◌∷◌, ◌++◌, length, ◌==◌, ltb, if◌then◌else◌, Bool-cases,
}
use f9_kernel.Tcb.{null}
use f9_kernel.Sched.{ok}
use f9_kernel.Sched.Inv.{Queues, Holds}
use f9_kernel.Kernel.{AsyncEvent, Async, Kernel, SoftirqType, is_type, inc, notification_softirq}
use f9_kernel.Kernel.Schedule.{softirq_schedule-Scheduled}
use f9_kernel.Notify.Async.Deliver.{target_same, deliver}
use f9_kernel.Notify.Async.{
  batch_size, target, free_event, batch_loop, reschedule_rest, notification_async_handler,
}

-- The counter and the pool both follow the queue, which fits the pool.
pub record IsCounted (max : ℕ) (a : Async) : Type 0 where
  pub counts : a.queue_count ≡ length a.queue
  pub pool : a.pool_used ≡ length a.queue
  pub fits : length a.queue ≤ max

free-IsCounted :
    (max : ℕ) (a : Async) (e : AsyncEvent) (es : List AsyncEvent)
    → max < 2 ^ 32
    → IsCounted max a
    → a.queue ≡ e ∷ es
    → IsCounted max (free_event (record a { queue = es }))
free-IsCounted max a e es small c q =
    let n : length a.queue ≡ suc (length es) = rw q refl in
    record {
      counts = ground (arith, c.counts, n, c.fits);
      pool = ground (arith, c.pool, n);
      fits = ground (arith, c.fits, n);
    }

-- The number of events in a list whose threads live.
abbrev pub count_live : (AsyncEvent → Bool) → List AsyncEvent → ℕ
count_live live [] = 0
count_live live (e ∷ es) = let n = count_live live es in if live e then suc n else n

-- Whether the thread of an event lives.
abbrev pub is_live : Kernel → AsyncEvent → Bool
is_live k e = not (target k e == null)

-- The loop ends after a prefix of the queue in which `done` threads live.
record Looped (max : ℕ) (delivered : ℕ) (es : List AsyncEvent) (k : Kernel) : Type 0 where
  done : ℕ
  after : Kernel
  runs : batch_loop es delivered k ≡ ok (done, after)
  batch : List AsyncEvent
  split : es ≡ batch ++ after.async.queue
  live : done ≡ delivered + count_live (is_live k) batch
  bound : done ≤ batch_size
  full : (done ≡ batch_size) ⊎ (after.async.queue ≡ [])
  counted : IsCounted max after.async
  queues : Queues
  holds : Holds after.sched queues
  total : after.async.delivered ≡ k.async.delivered
  kernel_thread : after.kernel_thread ≡ k.kernel_thread
  pending : after.pending ≡ k.pending

loop :
    (max : ℕ) (small : max < 2 ^ 32) (es : List AsyncEvent) (delivered : ℕ) (k : Kernel)
    (qs : Queues)
    → Holds k.sched qs
    → k.async.queue ≡ es
    → IsCounted max k.async
    → delivered ≤ batch_size
    → Looped max delivered es k
unfolding batch_loop
loop max small [] delivered k qs inv q c le = record {
  done = delivered;
  after = k;
  runs = refl;
  batch = [];
  split = sym q;
  live = ground arith;
  bound = le;
  full = inr q;
  counted = c;
  queues = qs;
  holds = inv;
  total = refl;
  kernel_thread = refl;
  pending = refl;
}
loop max small (e ∷ es) delivered k qs inv q c le = elim (Bool-cases (ltb delivered batch_size)) [
  | inr stop ↦ record {
    done = delivered;
    after = k;
    runs = rw stop refl;
    batch = [];
    split = sym q;
    live = ground arith;
    bound = le;
    full = inl (ground arith);
    counted = c;
    queues = qs;
    holds = inv;
    total = refl;
    kernel_thread = refl;
    pending = refl;
  }
  | inl more ↦ elim (Bool-cases (target k e == null)) [
    | inl gone ↦
        let k₁ : Kernel = record k { async = free_event (record (k.async) { queue = es }) } in
        let counted₁ : IsCounted max k₁.async = free-IsCounted max k.async e es small c q in
        let r = loop max small es delivered k₁ qs inv refl counted₁ le in
        record {
          done = r.done;
          after = r.after;
          runs = rw (more, gone) r.runs;
          batch = e ∷ r.batch;
          split = ap (λ x. e ∷ x) r.split;
          live = rw gone r.live;
          bound = r.bound;
          full = r.full;
          counted = r.counted;
          queues = r.queues;
          holds = r.holds;
          total = r.total;
          kernel_thread = r.kernel_thread;
          pending = r.pending;
        }
    | inr alive ↦
        let k₁ : Kernel = record k { async = record (k.async) { queue = es } } in
        let (k₂, d) = deliver e k₁ inv (ground arith) in
        let counted₂ : IsCounted max k₂.async =
          rw (d.async) (free-IsCounted max k.async e es small c q) in
        let same : is_live k₂ ≡ is_live k =
          fun_ext λ x. ap (λ t. not (t == null)) (target_same k₁ k₂ d.threads d.ids x) in
        let r =
          loop max small es (delivered + 1) k₂ d.queues d.holds
            (ap (λ (a : Async). a.queue) d.async) counted₂ (ground arith) in
        record {
          done = r.done;
          after = r.after;
          runs = rw (more, alive, d.runs) r.runs;
          batch = e ∷ r.batch;
          split = ap (λ x. e ∷ x) r.split;
          live = rw alive (ground (arith, rw same at r.live));
          bound = r.bound;
          full = r.full;
          counted = r.counted;
          queues = r.queues;
          holds = r.holds;
          total = r.total ∙ ap (λ (a : Async). a.delivered) d.async;
          kernel_thread = r.kernel_thread ∙ d.kernel_thread;
          pending = r.pending ∙ d.pending;
        }
  ]
]

-- The kernel after `notification_async_handler`.
pub record Handled (max : ℕ) (k : Kernel) : Type 0 where
  pub after : Kernel
  pub runs : notification_async_handler k ≡ ok after
  pub batch : List AsyncEvent
  pub split : k.async.queue ≡ batch ++ after.async.queue
  pub bound : count_live (is_live k) batch ≤ batch_size
  pub full : (count_live (is_live k) batch ≡ batch_size) ⊎ (after.async.queue ≡ [])
  pub total : after.async.delivered ≡ (k.async.delivered + count_live (is_live k) batch) % 2 ^ 32
  pub counted : IsCounted max after.async
  pub again : (after.async.queue ≡ []) ⊎ (after.pending notification_softirq ≡ true)
  pub others :
      (type : SoftirqType)
      → is_type type notification_softirq ≡ false
      → after.pending type ≡ k.pending type
  pub kernel_thread : after.kernel_thread ≡ k.kernel_thread
  pub queues : Queues
  pub holds : Holds after.sched queues

-- What rescheduling the softirq leaves.
record Rescheduled (max : ℕ) (k : Kernel) (es : List AsyncEvent) : Type 0 where
  after : Kernel
  runs : reschedule_rest k es ≡ ok after
  queue : after.async.queue ≡ k.async.queue
  total : after.async.delivered ≡ k.async.delivered
  counted : IsCounted max after.async
  again : (es ≡ []) ⊎ (after.pending notification_softirq ≡ true)
  others :
      (type : SoftirqType)
      → is_type type notification_softirq ≡ false
      → after.pending type ≡ k.pending type
  kernel_thread : after.kernel_thread ≡ k.kernel_thread
  queues : Queues
  holds : Holds after.sched queues

reschedule :
    (max : ℕ) (k : Kernel) (es : List AsyncEvent) (qs : Queues)
    → Holds k.sched qs
    → k.kernel_thread ≢ null
    → IsCounted max k.async
    → Rescheduled max k es
reschedule max k [] qs inv ne c = record {
  after = k;
  runs = refl;
  queue = refl;
  total = refl;
  counted = c;
  again = inl refl;
  others = λ type other. refl;
  kernel_thread = refl;
  queues = qs;
  holds = inv;
}
reschedule max k (e ∷ es) qs inv ne c =
    let (k', run, sch) = softirq_schedule-Scheduled notification_softirq k inv ne in
    record {
      after = record k' { async = record (k'.async) { reschedules = inc k'.async.reschedules } };
      runs = rw run refl;
      queue = ap (λ (a : Async). a.queue) sch.async;
      total = ap (λ (a : Async). a.delivered) sch.async;
      counted =
          let c' : IsCounted max k'.async = rw (sch.async) c in
          record { counts = c'.counts; pool = c'.pool; fits = c'.fits };
      again = inr sch.is_pending;
      others = λ type other. rw (sch.pending, other) refl;
      kernel_thread = sch.kernel_thread;
      queues = sch.queues;
      holds = sch.holds;
    }

reached : {done n : ℕ} {P : Type 0} → done ≡ 0 + n → (done ≡ batch_size) ⊎ P → (n ≡ batch_size) ⊎ P
reached e (inl x) = inl (ground (arith, e, x))
reached e (inr y) = inr y

-- With the scheduler's invariant, a kernel thread, and right counters of a pool of less than 2^32
-- events, `notification_async_handler` never panics. It takes a prefix of the queue, in order, of which at
-- most NOTIFICATION_BATCH_SIZE events have a live thread; it stops at an empty queue or at that
-- number. The events of live threads are added to the counter of delivered events. Counter and pool
-- follow the queue, the scheduler's invariant is kept, and if events are left, the softirq is
-- pending again. The kernel thread and the other softirqs stay.
pub notification_async_handler-Handled :
    {qs : Queues} (max : ℕ) (k : Kernel)
    → max < 2 ^ 32
    → Holds k.sched qs
    → k.kernel_thread ≢ null
    → IsCounted max k.async
    → Handled max k
unfolding notification_async_handler
notification_async_handler-Handled {qs} max k small inv ne c =
    let k₁ : Kernel = record k { async = record (k.async) { batches = inc k.async.batches } } in
    let c₁ : IsCounted max k₁.async = record { counts = c.counts; pool = c.pool; fits = c.fits } in
    let r = loop max small k₁.async.queue 0 k₁ qs inv refl c₁ (omega arith) in
    let k₂ : Kernel = record (r.after) {
      async = record (r.after.async) { delivered = (r.after.async.delivered + r.done) % 2 ^ 32 };
    } in
    let c₂ : IsCounted max k₂.async = record {
      counts = r.counted.counts;
      pool = r.counted.pool;
      fits = r.counted.fits;
    } in
    let z = reschedule max k₂ k₂.async.queue r.queues r.holds (rw (r.kernel_thread) ne) c₂ in
    record {
      after = z.after;
      runs = rw (r.runs) z.runs;
      batch = r.batch;
      split = rw (z.queue) r.split;
      bound = ground (arith, r.bound, r.live);
      full = rw (z.queue) (reached r.live r.full);
      total = ground (arith, z.total, r.total, r.live);
      counted = z.counted;
      again = rw (z.queue) z.again;
      others =
          λ type other. z.others type other ∙ ap (λ (f : SoftirqType → Bool). f type) r.pending;
      kernel_thread = z.kernel_thread ∙ r.kernel_thread;
      queues = z.queues;
      holds = z.holds;
    }

count_live-append_le :
    (live : AsyncEvent → Bool) (xs ys : List AsyncEvent)
    → count_live live xs ≤ count_live live (xs ++ ys)
count_live-append_le live [] ys = omega arith
count_live-append_le live (x ∷ xs) ys = ground (arith, count_live-append_le live xs ys)

pub count_live-append_nil :
    (live : AsyncEvent → Bool) (xs ys : List AsyncEvent)
    → ys ≡ []
    → count_live live (xs ++ ys) ≡ count_live live xs
count_live-append_nil live [] ys e = rw e refl
count_live-append_nil live (x ∷ xs) ys e = ground (arith, count_live-append_nil live xs ys e)

-- Events of dead threads do not count: if less than NOTIFICATION_BATCH_SIZE events in the queue have a
-- live thread, one invocation of the handler takes all of the queue, however long it is, and adds
-- the events of live threads only to the counter of delivered events.
pub handler_drains_dead :
    {qs : Queues} (max : ℕ) (k : Kernel)
    → max < 2 ^ 32
    → Holds k.sched qs
    → k.kernel_thread ≢ null
    → IsCounted max k.async
    → count_live (is_live k) k.async.queue < batch_size
    → (k' : Kernel) × (notification_async_handler k ≡ ok k')
      × (k'.async.queue ≡ [])
      × (k'.async.delivered ≡ (k.async.delivered + count_live (is_live k) k.async.queue) % 2 ^ 32)
handler_drains_dead max k small inv ne c few =
    let h = notification_async_handler-Handled max k small inv ne c in
    let live = is_live k in
    let part : count_live live h.batch ≤ count_live live k.async.queue =
      rw (h.split) (count_live-append_le live h.batch h.after.async.queue) in
    let nil : h.after.async.queue ≡ [] = elim h.full [
      | inl all ↦ absurd (omega (arith, all, part, few))
      | inr nil ↦ nil
    ] in
    let same : count_live live k.async.queue ≡ count_live live h.batch =
      ap (count_live live) h.split ∙ count_live-append_nil live h.batch h.after.async.queue nil in
    (h.after, h.runs, nil, h.total ∙ ap (λ n. (k.async.delivered + n) % 2 ^ 32) (sym same))
