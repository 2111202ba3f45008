-- ===== src/Notify/Async/Post.antt =====
-- What posting an event to the asynchronous queue promises.
use f9_kernel.Base.{
  ℕ, ◌+◌, ◌^◌, ◌<◌, ◌≡◌, ◌≢◌, refl, ap, inl, inr, arith, true, false, [], ◌∷◌, ◌++◌, length,
  length-append, ◌==◌, leb, ltb, if◌then◌else◌, Bool-cases,
}
use f9_kernel.Tcb.{Ptr, null}
use f9_kernel.Sched.{ok}
use f9_kernel.Sched.Inv.{Queues, Holds}
use f9_kernel.Kernel.{AsyncEvent, Async, Kernel, inc, notification_softirq}
use f9_kernel.Kernel.Schedule.{softirq_schedule-Scheduled}
use f9_kernel.Notify.Async.{append_event, notification_post}
use f9_kernel.Notify.Async.Batch.{IsCounted}

append-IsCounted :
    (max : ℕ) (a : Async) (e : AsyncEvent)
    → max < 2 ^ 32
    → IsCounted max a
    → length a.queue < max
    → IsCounted max (append_event e a)
append-IsCounted max a e small c lt =
    let grows : length (a.queue ++ (e ∷ [])) ≡ length a.queue + 1 =
      length-append a.queue (e ∷ []) in
    record {
      counts = ground (arith, c.counts, grows);
      pool = ground (arith, c.pool, grows);
      fits = ground (arith, grows);
    }

-- The kernel after `notification_post` for a thread.
pub record Posted (max : ℕ) (t : Ptr) (bits data_ : ℕ) (k : Kernel) : Type 0 where
  pub after : Kernel
  pub runs : notification_post max t bits data_ k ≡ ok (ltb (length k.async.queue) max, after)
  pub queue : after.async.queue ≡ (
      if ltb (length k.async.queue) max
      then k.async.queue
        ++ (record {
          target_id = (k.sched.tcb t).t_globalid;
          notify_bits = bits;
          event_data = data_;
        }
            ∷ [])
      else k.async.queue)
  pub counted : IsCounted max after.async
  pub queues : Queues
  pub holds : Holds after.sched queues
  pub kernel_thread : after.kernel_thread ≡ k.kernel_thread
  pub threads : after.threads ≡ k.threads
  pub ids : (q : Ptr) → (after.sched.tcb q).t_globalid ≡ (k.sched.tcb q).t_globalid

-- With the scheduler's invariant, a kernel thread, and right counters of a pool of less than 2^32
-- events, `notification_post` for a thread never panics. It succeeds exactly if the pool has room: then the
-- event is the last of the queue, and otherwise the queue stays. Counter and pool follow the queue,
-- and the scheduler's invariant is kept.
pub notification_post-Posted :
    {qs : Queues} (max : ℕ) (t : Ptr) (bits data_ : ℕ) (k : Kernel)
    → max < 2 ^ 32
    → Holds k.sched qs
    → t ≢ null
    → k.kernel_thread ≢ null
    → IsCounted max k.async
    → Posted max t bits data_ k
unfolding notification_post
notification_post-Posted {qs} max t bits data_ k small inv live ne c =
    elim (Bool-cases (ltb (length k.async.queue) max)) [
      | inl room ↦
          let e : AsyncEvent = record {
            target_id = (k.sched.tcb t).t_globalid;
            notify_bits = bits;
            event_data = data_;
          } in
          let k₁ : Kernel = record k { async = append_event e k.async } in
          let (k', run, sch) = softirq_schedule-Scheduled notification_softirq k₁ inv ne in
          let some_room : leb max k.async.pool_used ≡ false = ground (arith, c.pool) in
          let ne' : (t == null) ≡ false = ground arith in
          record {
            after = k';
            runs = rw (ne', some_room, run, room) refl;
            queue = rw room (ap (λ (a : Async). a.queue) sch.async);
            counted = rw (sch.async) (append-IsCounted max k.async e small c (ground arith));
            queues = sch.queues;
            holds = sch.holds;
            kernel_thread = sch.kernel_thread;
            threads = sch.threads;
            ids = sch.ids;
          }
      | inr full ↦
          let no_room : leb max k.async.pool_used ≡ true = ground (arith, c.pool) in
          let ne' : (t == null) ≡ false = ground arith in
          record {
            after = record k { async = record (k.async) { dropped = inc k.async.dropped } };
            runs = rw (ne', no_room, full) refl;
            queue = rw full refl;
            counted = record { counts = c.counts; pool = c.pool; fits = c.fits };
            queues = qs;
            holds = inv;
            kernel_thread = refl;
            threads = refl;
            ids = λ q. refl;
          }
    ]
