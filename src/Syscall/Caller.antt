-- ===== src/Syscall/Caller.antt =====
-- A system call that does not block ends with its caller runnable and in the queue of its level.
use f9_kernel.Base.{◌≡◌, ◌≢◌, refl, ap, ◌∙◌, arith, true, has, has-append, List, [], ◌∷◌}
use f9_kernel.Tcb.{Ptr, null, Tcb, runnable}
use f9_kernel.Sched.{Sched, ok, clamp, set_tcb}
use f9_kernel.Sched.Links.{strip}
use f9_kernel.Sched.Inv.{Queues, Holds, level, put, enqueue}
use f9_kernel.Sched.Store.{set_tcb-Holds}
use f9_kernel.Sched.Enqueue.{sched_enqueue_refines}
use f9_kernel.Syscall.{Syscall, sched_of, resume, put_sched, finish_call}

-- A block that differs from the caller's in its links only, but for the state, which is runnable.
abbrev pub resumed : Tcb → Tcb
resumed c = record (strip c) { state = runnable }

-- The queues with the caller at the tail of its level, unless it is queued.
abbrev pub queued_at : Sched → Ptr → Queues → Queues
queued_at s t qs = put qs (level s t) (enqueue t (qs (level s t)))

-- The scheduler after `resume`.
pub record Resumed (caller : Ptr) (s : Sched) (qs : Queues) (s' : Sched) : Type 0 where
  pub holds : Holds s' (queued_at s caller qs)
  pub block : strip (s'.tcb caller) ≡ resumed (s.tcb caller)
  pub others : (q : Ptr) → q ≢ caller → strip (s'.tcb q) ≡ strip (s.tcb q)

pub resume-Resumed :
    {s : Sched} {qs : Queues}
    → Holds s qs
    → (caller : Ptr) → caller ≢ null
    → (s' : Sched) × (resume caller s ≡ ok s') × Resumed caller s qs s'
unfolding resume
resume-Resumed {s} {qs} inv caller ne =
    let c : Tcb = record (s.tcb caller) { state = runnable } in
    let s₁ = set_tcb caller c s in
    let held = set_tcb-Holds inv caller c refl refl refl (λ r. refl) in
    let here : s₁.tcb caller ≡ c = ground arith in
    let (s', e, held', rest) = sched_enqueue_refines caller held ne (ground arith) in
    (
      s',
      e,
      record {
        holds = rw here at held';
        block = rest.threads caller ∙ ap strip here;
        others = λ q h.
            let there : s₁.tcb q ≡ s.tcb q = ground (arith, h) in rest.threads q ∙ ap strip there;
      },
    )

-- The kernel after a system call whose work left it as `k`.
pub record Finished (k k' : Syscall) : Type 0 where
  pub queues : Queues
  pub holds : Holds (sched_of k') queues
  pub runs : ((sched_of k').tcb k.caller).state ≡ runnable
  pub waits : has k.caller (queues (level (sched_of k') k.caller)) ≡ true
  pub result : ((sched_of k').tcb k.caller).saved_r0 ≡ ((sched_of k).tcb k.caller).saved_r0
  pub rest : k' ≡ put_sched k (sched_of k')

has-enqueue : (t : Ptr) (xs : List Ptr) → has t (enqueue t xs) ≡ true
has-enqueue t xs = ground (arith, has-append t xs (t ∷ []))

pub finish_call-Finished :
    {qs : Queues} (k : Syscall)
    → Holds (sched_of k) qs
    → k.caller ≢ null
    → (k' : Syscall) × (finish_call (ok k) ≡ ok k') × Finished k k'
unfolding finish_call
finish_call-Finished {qs} k inv ne =
    let (s', e, r) = resume-Resumed inv k.caller ne in
    let block = r.block in
    let s = sched_of k in
    let t = k.caller in
    let same : level s' t ≡ level s t = ap (λ (c : Tcb). clamp c.priority) block in
    (
      put_sched k s',
      rw e refl,
      record {
        queues = queued_at (sched_of k) k.caller qs;
        holds = r.holds;
        runs = ap (λ (c : Tcb). c.state) block;
        waits = rw same (ground (arith, has-enqueue t (qs (level s t))));
        result = ap (λ (c : Tcb). c.saved_r0) block;
        rest = refl;
      },
    )
