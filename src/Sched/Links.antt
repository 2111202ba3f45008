-- ===== src/Sched/Links.antt =====
-- What a write to one link of one thread changes, and what it leaves alone.
use f9_kernel.Base.{ℕ, ◌≡◌, refl, inl, inr, arith, ◌==◌, if◌then◌else◌, Bool-cases}
use f9_kernel.Tcb.{Ptr, null, Tcb}
use f9_kernel.Sched.{Sched, set_next, set_prev, move_head}

-- A thread control block without its links.
abbrev pub strip : Tcb → Tcb
strip t = record t { prev = null; next = null }

module _ (p v : Ptr) (s : Sched) (q : Ptr) where
  pub next-set_next : ((set_next p v s).tcb q).next ≡ (if q == p then v else (s.tcb q).next)
  unfolding set_next
  next-set_next = ground arith

  pub prev-set_next : ((set_next p v s).tcb q).prev ≡ (s.tcb q).prev
  unfolding set_next
  prev-set_next = ground arith

  pub strip-set_next : strip ((set_next p v s).tcb q) ≡ strip (s.tcb q)
  unfolding set_next
  strip-set_next = elim (Bool-cases (q == p)) [
    | inl h ↦ let e : q ≡ p = ground arith in rw (h, e) refl
    | inr h ↦ rw h refl
  ]

  pub prev-set_prev : ((set_prev p v s).tcb q).prev ≡ (if q == p then v else (s.tcb q).prev)
  unfolding set_prev
  prev-set_prev = ground arith

  pub next-set_prev : ((set_prev p v s).tcb q).next ≡ (s.tcb q).next
  unfolding set_prev
  next-set_prev = ground arith

  pub strip-set_prev : strip ((set_prev p v s).tcb q) ≡ strip (s.tcb q)
  unfolding set_prev
  strip-set_prev = elim (Bool-cases (q == p)) [
    | inl h ↦ let e : q ≡ p = ground arith in rw (h, e) refl
    | inr h ↦ rw h refl
  ]

module _ (p v : Ptr) (s : Sched) where
  pub ready_queue-set_next : (i : ℕ) → (set_next p v s).ready_queue i ≡ s.ready_queue i
  unfolding set_next
  ready_queue-set_next i = refl

  pub ready_queue-set_prev : (i : ℕ) → (set_prev p v s).ready_queue i ≡ s.ready_queue i
  unfolding set_prev
  ready_queue-set_prev i = refl

  pub ready_bitmap-set_next : (set_next p v s).ready_bitmap ≡ s.ready_bitmap
  unfolding set_next
  ready_bitmap-set_next = refl

  pub ready_bitmap-set_prev : (set_prev p v s).ready_bitmap ≡ s.ready_bitmap
  unfolding set_prev
  ready_bitmap-set_prev = refl

module _ (t : Ptr) (prio : ℕ) (next : Ptr) (s : Sched) where
  pub next-move_head : (q : Ptr) → ((move_head t prio next s).tcb q).next ≡ (s.tcb q).next
  unfolding move_head
  next-move_head q = ground arith

  pub prev-move_head : (q : Ptr) → ((move_head t prio next s).tcb q).prev ≡ (s.tcb q).prev
  unfolding move_head
  prev-move_head q = ground arith

  pub strip-move_head : (q : Ptr) → strip ((move_head t prio next s).tcb q) ≡ strip (s.tcb q)
  unfolding move_head
  strip-move_head q = elim (Bool-cases (s.ready_queue prio == t)) [
    | inl h ↦ rw h refl
    | inr h ↦ rw h refl
  ]

  pub ready_bitmap-move_head : (move_head t prio next s).ready_bitmap ≡ s.ready_bitmap
  unfolding move_head
  ready_bitmap-move_head = ground arith

  pub ready_queue-move_head :
      (i : ℕ)
      → (move_head t prio next s).ready_queue i ≡ (
          if i == prio
          then (if s.ready_queue prio == t then next else s.ready_queue prio)
          else s.ready_queue i)
  unfolding move_head
  ready_queue-move_head i = ground arith

pub ruleset links = (
  next-move_head, prev-move_head, ready_bitmap-move_head, ready_queue-move_head, next-set_next,
  prev-set_next, next-set_prev, prev-set_prev, ready_queue-set_next, ready_queue-set_prev,
  ready_bitmap-set_next, ready_bitmap-set_prev,
)

pub ruleset strips = (strip-move_head, strip-set_next, strip-set_prev)
