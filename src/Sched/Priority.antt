-- ===== src/Sched/Priority.antt =====
-- `sched_set_priority` moves a queued thread to the queue of its new level.
use f9_kernel.Base.{
  ℕ, ◌<◌, ◌≡◌, ◌≢◌, refl, subst, ◌∙◌, ap, true, false, inl, inr, [], ◌∷◌, ◌++◌, arith, ◌==◌,
  if◌then◌else◌, has, erase, has-erase_self, Bool-cases,
}
use mathlib.Core.Path.{fun_ext}
use f9_kernel.Tcb.{Tcb, Ptr, null, is_runnable}
use f9_kernel.Sched.{Sched, ok, clamp, set_tcb, sched_dequeue, sched_set_priority}
use f9_kernel.Sched.Links.{strip}
use f9_kernel.Sched.Inv.{
  Queues, next_of, prev_of, level, Holds, put, enqueue, SameRest, level-lt, sched_is_queued-has,
}
use f9_kernel.Sched.Enqueue.{sched_enqueue_refines}
use f9_kernel.Sched.Dequeue.{sched_dequeue_refines}

-- The thread with another priority.
abbrev pub with_priority : Ptr → ℕ → Sched → Sched
with_priority t v s = set_tcb t (record (s.tcb t) { priority = v }) s

module _ {s : Sched} {qs : Queues} (inv : Holds s qs) (t : Ptr) (v : ℕ)
    (out : has t (qs (level s t)) ≡ false) where
  nowhere : (p : ℕ) → p < 32 → has t (qs p) ≡ false
  nowhere p lt = elim (Bool-cases (has t (qs p))) [
    | inl h ↦ absurd (ground (arith, inv.member p t lt h))
    | inr h ↦ h
  ]

  -- A thread that is in no queue may change its priority.
  with_priority-Holds : Holds (with_priority t v s) qs
  with_priority-Holds = record {
    ring = λ p lt. rw (next_same, prev_same) (inv.ring p lt);
    nodup = inv.nodup;
    member = λ p q lt h. ground (arith, inv.member p q lt h, nowhere p lt);
    absent = λ q h. ground (arith, inv.absent q, inv.absent t);
    bitmap = inv.bitmap;
  }
    where
      next_same : next_of (with_priority t v s) ≡ next_of s
      next_same = fun_ext λ q. ground arith

      prev_same : prev_of (with_priority t v s) ≡ prev_of s
      prev_same = fun_ext λ q. ground arith

-- The queues after a thread of level `p` goes to level `v`.
abbrev pub moved : Ptr → ℕ → ℕ → Queues → Queues
moved t p v qs = let left = put qs p (erase t (qs p)) in put left v (left v ++ (t ∷ []))

-- What `sched_set_priority` does where the priority changes.
abbrev pub Reprioritised : Sched → Queues → Ptr → ℕ → Type 0
Reprioritised s qs t v =
    (s' : Sched) × (sched_set_priority t v s ≡ ok s')
    × Holds s' (if has t (qs (level s t)) then moved t (level s t) (clamp v) qs else qs)
    × ((s'.tcb t).priority ≡ clamp v)
    × ((q : Ptr) → strip (s'.tcb q) ≡ strip ((with_priority t (clamp v) s).tcb q))

module _ {s : Sched} {qs : Queues} (inv : Holds s qs) (t : Ptr) (v : ℕ) (ne : t ≢ null)
    (change : (s.tcb t).priority ≢ clamp v) where
  unqueued : has t (qs (level s t)) ≡ false → Reprioritised s qs t v
  unqueued out = (
    with_priority t (clamp v) s,
    unfold sched_set_priority in ground (arith, sched_is_queued-has inv t),
    rw out (with_priority-Holds inv t (clamp v) out),
    ground arith,
    λ q. refl,
  )

  queued : has t (qs (level s t)) ≡ true → Reprioritised s qs t v
  queued h =
      let (s', e, held, rest) =
        sched_enqueue_refines t (with_priority-Holds dq.0 t (clamp v) out) ne run in
      (
        s',
        unfold sched_set_priority in ground (arith, sched_is_queued-has inv t, e),
        rw h (subst (Holds s') queues held),
        ap (λ (c : Tcb). c.priority) (rest.threads t) ∙ new_priority,
        λ q. rest.threads q ∙ same_block q,
      )
    where
      left : Queues
      left = put qs (level s t) (erase t (qs (level s t)))

      s₂ : Sched
      s₂ = with_priority t (clamp v) (sched_dequeue t s)

      dq : Holds (sched_dequeue t s) left × SameRest s (sched_dequeue t s)
      dq = sched_dequeue_refines t inv

      same_block :
          (q : Ptr)
          → strip ((with_priority t (clamp v) (sched_dequeue t s)).tcb q)
            ≡ strip ((with_priority t (clamp v) s).tcb q)
      same_block q = elim (Bool-cases (q == t)) [
        | inl h ↦ rw h (ap (λ (c : Tcb). record c { priority = clamp v }) (dq.1.threads t))
        | inr h ↦ rw h (dq.1.threads q)
      ]

      same_level : level (sched_dequeue t s) t ≡ level s t
      same_level = ap (λ (c : Tcb). clamp c.priority) (dq.1.threads t)

      out : has t (left (level (sched_dequeue t s) t)) ≡ false
      out =
          rw same_level (
            ground (arith, has-erase_self t (qs (level s t)), inv.nodup (level s t) (level-lt s t)))

      run : is_runnable (s₂.tcb t).state ≡ true
      run = ground (
        arith,
        ap (λ (c : Tcb). c.state) (dq.1.threads t),
        inv.member (level s t) t (level-lt s t) h,
      )

      new_priority : (s₂.tcb t).priority ≡ clamp v
      new_priority = ground arith

      new_level : level s₂ t ≡ clamp v
      new_level = ground arith

      queues :
          put left (level s₂ t) (enqueue t (left (level s₂ t))) ≡ moved t (level s t) (clamp v) qs
      queues = rw (new_level, nowhere dq.0 t (clamp v) out (clamp v) (ground arith)) refl

-- In a state that stands for queues `sched_set_priority` of a thread to another priority does not panic: a queued thread goes from the queue of
-- its old level to the tail of the queue of the new one, a thread that is not queued stays so, and
-- its priority is the new one, 31 where the argument is out of range. But for the links of threads
-- nothing else of any thread changes.
pub sched_set_priority_refines :
    {s : Sched} {qs : Queues} (t : Ptr) (v : ℕ)
    → Holds s qs
    → t ≢ null
    → (s.tcb t).priority ≢ clamp v
    → Reprioritised s qs t v
sched_set_priority_refines {s} {qs} t v inv ne change = elim (Bool-cases (has t (qs (level s t)))) [
  | inl h ↦ queued inv t v ne change h
  | inr h ↦ unqueued inv t v ne change h
]

-- A priority may be set whatever it was. The queues of a thread that is in none stay.
abbrev pub PrioritySet : Sched → Queues → Ptr → ℕ → Type 0
PrioritySet s qs t v =
    (s' : Sched) × (sched_set_priority t v s ≡ ok s')
    × ((qs' : Queues) × Holds s' qs')
    × (has t (qs (level s t)) ≡ false → Holds s' qs)
    × ((q : Ptr) → strip (s'.tcb q) ≡ strip ((with_priority t (clamp v) s).tcb q))

same_priority :
    (t : Ptr) (v : ℕ) (s : Sched)
    → (s.tcb t).priority ≡ clamp v
    → (q : Ptr) → strip (s.tcb q) ≡ strip ((with_priority t (clamp v) s).tcb q)
same_priority t v s e q = elim (Bool-cases (q == t)) [
  | inl h ↦
      let at : q ≡ t = ground arith in
      rw (h, at) (ap (λ p. strip (record (s.tcb t) { priority = p })) e)
  | inr h ↦ rw h refl
]

pub set_priority_always :
    {s : Sched} {qs : Queues} (t : Ptr) (v : ℕ) → Holds s qs → t ≢ null → PrioritySet s qs t v
set_priority_always {s} {qs} t v inv ne = elim (Bool-cases ((s.tcb t).priority == clamp v)) [
  | inl same ↦ (
    s,
    unfold sched_set_priority in ground arith,
    (qs, inv),
    λ out. inv,
    same_priority t v s (ground arith),
  )
  | inr other ↦
      let (s', e, held, _, blocks) = sched_set_priority_refines t v inv ne (ground arith) in
      (s', e, (_, held), λ out. rw out at held, blocks)
]
