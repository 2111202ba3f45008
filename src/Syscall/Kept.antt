-- ===== src/Syscall/Kept.antt =====
-- The system calls that do not block keep the invariant of the scheduler.
use f9_kernel.Base.{
  ℕ, ◌≡◌, ◌≢◌, refl, arith, Bool, true, false, not, ◌||◌, List, [], ◌∷◌, ◌==◌, leb, inl, inr,
  Bool-cases,
}
use f9_kernel.Tcb.{Ptr, null}
use f9_kernel.ThreadMap.{ThreadMap, thread_by_globalid}
use f9_kernel.Sched.{Sched, ok, set_tcb}
use f9_kernel.Sched.Inv.{Queues, Holds}
use f9_kernel.Sched.Store.{set_tcb-Holds}
use f9_kernel.Notify.{set_bits, and_not, notification_clear}
use f9_kernel.Notify.Async.Deliver.{wake}
use f9_kernel.Ktimer.{
  KtimerEvent, Ktimer, adjusted, schedule_at, schedule_or_free, ktimer_event_schedule,
  ktimer_event_create_notify,
}
use f9_kernel.Syscall.{
  Frame, set_r0, save_control, sys_notify_post, sys_notify_clear, sys_timer_notify, sys_schedule,
}
use f9_kernel.Syscall.Post.{notification_signal_lem, signalled}
use f9_kernel.Syscall.Schedule.{set_r0-Holds, sys_schedule_lem}

notification_clear-Holds :
    {s : Sched} {qs : Queues} (t : Ptr) (bits : ℕ)
    → Holds s qs
    → Holds (notification_clear t bits s) qs
unfolding notification_clear
notification_clear-Holds {s} t bits inv =
    let c = set_bits (and_not (s.tcb t).notify_bits bits) (s.tcb t) in
    elim (Bool-cases (t == null)) [
      | inl h ↦ rw h inv
      | inr h ↦ rw h (set_tcb-Holds inv t c refl refl refl (λ r. r))
    ]

-- What each system call makes of the scheduler keeps its invariant.
module _ {s : Sched} {qs : Queues} (inv : Holds s qs) (caller : Ptr) (ne : caller ≢ null) where
  pub clear-Holds : Holds (sys_notify_clear caller s) qs
  unfolding sys_notify_clear
  clear-Holds = elim (Bool-cases ((s.tcb caller).saved_r0 == 0)) [
    | inl h ↦ rw h (set_r0-Holds caller 0 inv)
    | inr h ↦ rw h (set_r0-Holds caller _ (notification_clear-Holds caller _ inv))
  ]

  pub post-Holds :
      (f : Frame) (m : ThreadMap)
      → (s' : Sched) × (sys_notify_post caller f m s ≡ ok s') × ((qs' : Queues) × Holds s' qs')
  unfolding sys_notify_post
  post-Holds f m =
      let t = thread_by_globalid s.tcb m (s.tcb caller).saved_r0 in
      elim (Bool-cases (f.r1 == 0)) [
        | inl none_ ↦ (set_r0 caller 0 s, rw none_ refl, (qs, set_r0-Holds caller 0 inv))
        | inr some_ ↦ elim (Bool-cases (t == null)) [
          | inl gone ↦ (set_r0 caller 0 s, rw (some_, gone) refl, (qs, set_r0-Holds caller 0 inv))
          | inr there ↦
              let valid : t ≢ null = ground arith in
              let c = signalled f.r1 (s.tcb t) in
              let held = set_tcb-Holds inv t c refl refl refl (λ r. r) in
              let woke = wake t (set_tcb t c s) held valid in
              (
                set_r0 caller 1 woke.after,
                rw (some_, there, notification_signal_lem s valid f.r1, woke.runs) refl,
                (woke.queues, set_r0-Holds caller 1 woke.holds),
              )
        ]
      ]

  pub schedule-Holds :
      (f : Frame) (m : ThreadMap) (user : Ptr → ℕ)
      → (user' : Ptr → ℕ) × (s' : Sched) × (sys_schedule caller f m user s ≡ ok (user', s'))
        × ((qs' : Queues) × Holds s' qs')
  unfolding sys_schedule
  schedule-Holds f m user =
      let t = thread_by_globalid s.tcb m (s.tcb caller).saved_r0 in
      elim (Bool-cases (t == null)) [
        | inl gone ↦ (user, set_r0 caller 0 s, rw gone refl, (qs, set_r0-Holds caller 0 inv))
        | inr there ↦
            let (s', e, r) = sys_schedule_lem inv caller f m user t (ground arith) refl in
            (save_control (f.regs 1) (s.tcb t) user, s', e, (r.queues, r.holds))
      ]

schedule_at_kernel :
    (ticks : ℕ) (kte : KtimerEvent) (es : List KtimerEvent) (k : Ktimer)
    → (schedule_at ticks kte es k).kernel ≡ k.kernel
schedule_at_kernel ticks kte [] k = refl
schedule_at_kernel ticks kte (e ∷ es) k = ground arith

schedule_or_free_kernel :
    (ticks : ℕ) (kte : KtimerEvent) (r : Bool × Ktimer) (k : Ktimer)
    → r.1.kernel ≡ k.kernel
    → (schedule_or_free ticks kte r k).1.kernel ≡ k.kernel
schedule_or_free_kernel ticks kte (true, k') k e = e
schedule_or_free_kernel ticks kte (false, k') k e = refl

event_schedule_kernel :
    (ticks : ℕ) (kte : KtimerEvent) (k : Ktimer)
    → (ktimer_event_schedule ticks kte k).1.kernel ≡ k.kernel
unfolding ktimer_event_schedule
event_schedule_kernel ticks kte k = elim (Bool-cases (ticks == 0)) [
  | inl h ↦ rw h refl
  | inr h ↦ rw h (schedule_at_kernel (adjusted ticks k) kte k.event_queue k)
]

create_notify_kernel :
    (max : ℕ) (fresh : Ptr) (ticks : ℕ) (t : Ptr) (bits : ℕ) (periodic : Bool) (k : Ktimer)
    → (ktimer_event_create_notify max fresh ticks t bits periodic k).1.kernel ≡ k.kernel
unfolding ktimer_event_create_notify
create_notify_kernel max fresh ticks t bits periodic k =
    elim (Bool-cases ((t == null) || (bits == 0))) [
      | inl h ↦ rw h refl
      | inr h ↦ elim (Bool-cases (leb max k.pool_used)) [
        | inl full ↦ rw (h, full) refl
        | inr room ↦
            rw (h, room) (schedule_or_free_kernel ticks _ _ k (event_schedule_kernel ticks _ _))
      ]
    ]

pub timer-Holds :
    {qs : Queues} (max : ℕ) (fresh caller : Ptr) (f : Frame) (k : Ktimer)
    → Holds k.kernel.sched qs
    → Holds (sys_timer_notify max fresh caller f k).kernel.sched qs
unfolding sys_timer_notify
timer-Holds max fresh caller f k inv =
    let ticks = (k.kernel.sched.tcb caller).saved_r0 in
    elim (Bool-cases ((ticks == 0) || (f.r1 == 0))) [
      | inl h ↦ rw h (set_r0-Holds caller 0 inv)
      | inr h ↦
          rw
            (
              h,
              create_notify_kernel max fresh ticks k.kernel.sched.current f.r1 (not (f.r2 == 0)) k,
            )
            (set_r0-Holds caller _ inv)
    ]
