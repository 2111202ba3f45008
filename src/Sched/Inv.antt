-- ===== src/Sched/Inv.antt =====
-- What the scheduler's pointers stand for: one list of threads for each priority.
use f9_kernel.Base.{
  ℕ, ◌-◌, ◌<◌, ◌≡◌, ◌≢◌, refl, sym, subst, ap, Bool, true, false, inl, inr, List, [], ◌∷◌, ◌++◌,
  ◌∙◌, arith, ◌==◌, if◌then◌else◌, has, distinct, last, has-last, Bool-cases,
}
use mathlib.Core.Path.{fun_ext}
use f9_kernel.Base.Bits.{bit}
use f9_kernel.Tcb.{Ptr, null, Tcb, is_runnable}
use f9_kernel.Sched.{Sched, clamp, sched_is_queued}
use f9_kernel.Sched.Links.{strip}
use f9_kernel.Sched.Ring.{Links, Seg, Seg-last, Seg-frame, prev_mem}

-- The threads that wait at each priority, first to run first.
abbrev pub Queues : Type 0
Queues = ℕ → List Ptr

abbrev pub next_of : Sched → Links
next_of s p = (s.tcb p).next

abbrev pub prev_of : Sched → Links
prev_of s p = (s.tcb p).prev

-- The priority level at which a thread is queued.
abbrev pub level : Sched → Ptr → ℕ
level s t = clamp (s.tcb t).priority

-- `head` heads the circular doubly linked list of the given threads.
abbrev pub IsRing : Links → Links → Ptr → List Ptr → Type 0
IsRing nx pv head [] = head ≡ null
IsRing nx pv head (x ∷ xs) = (head ≡ x) × Seg nx pv x xs x

abbrev pub is_empty : List Ptr → Bool
is_empty [] = true
is_empty (x ∷ xs) = false

-- The scheduler's state stands for the queues `qs`.
pub record Holds (s : Sched) (qs : Queues) : Type 0 where
  pub ring : (p : ℕ) → p < 32 → IsRing (next_of s) (prev_of s) (s.ready_queue p) (qs p)
  pub nodup : (p : ℕ) → p < 32 → distinct (qs p) ≡ true
  pub member :
      (p t : ℕ)
      → p < 32
      → has t (qs p) ≡ true
      → (level s t ≡ p) × (is_runnable (s.tcb t).state ≡ true) × (t ≢ null)
  pub absent : (t : ℕ) → has t (qs (level s t)) ≡ false → (s.tcb t).prev ≡ null
  pub bitmap : (p : ℕ) → p < 32 → bit s.ready_bitmap (31 - p) ≡ (if is_empty (qs p) then 0 else 1)

pub level-lt : (s : Sched) (t : ℕ) → level s t < 32
level-lt s t = ground arith

ring_prev_mem :
    (nx pv : Links) (head t : ℕ) (xs : List ℕ)
    → IsRing nx pv head xs
    → has t xs ≡ true
    → has (pv t) xs ≡ true
ring_prev_mem nx pv head t [] r h = cc
ring_prev_mem nx pv head t (x ∷ xs) r h = elim (Bool-cases (t == x)) [
  | inl same ↦
      let e : t ≡ x = ground arith in
      let back : pv t ≡ last x xs = rw e ((Seg-last nx pv x xs x r.1).0) in
      subst (λ q. has q (x ∷ xs) ≡ true) (sym back) (has-last x xs)
  | inr other ↦ prev_mem nx pv t x xs x r.1 (ground arith)
]

module _ {s : Sched} {qs : Queues} (inv : Holds s qs) where
  -- A queued thread stands at its own level only.
  pub not_elsewhere : (t p : ℕ) → p < 32 → level s t ≢ p → has t (qs p) ≡ false
  not_elsewhere t p lt ne = elim (Bool-cases (has t (qs p))) [
    | inl h ↦ absurd (ne (inv.member p t lt h).0)
    | inr h ↦ h
  ]

  -- `sched_is_queued` says whether the thread is in the queue of its level.
  pub sched_is_queued-has : (t : ℕ) → sched_is_queued t s ≡ has t (qs (level s t))
  sched_is_queued-has t = elim (Bool-cases (has t (qs (level s t)))) [
    | inl h ↦
        let p = level s t in
        let back = ring_prev_mem _ _ (s.ready_queue p) t (qs p) (inv.ring p (level-lt s t)) h in
        ground (arith, inv.member p (s.tcb t).prev (level-lt s t) back)
    | inr h ↦ rw h (ground (arith, inv.absent t h))
  ]

-- The queues with the one of priority `p` replaced.
abbrev pub put : Queues → ℕ → List Ptr → Queues
put qs p ys i = if i == p then ys else qs i

-- What an operation on the queue of priority `p` has to establish.
pub record Rebuild (s : Sched) (qs : Queues) (s' : Sched) (p : ℕ) (ys : List Ptr) : Type 0 where
  pub ring : IsRing (next_of s') (prev_of s') (s'.ready_queue p) ys
  pub nodup : distinct ys ≡ true
  pub heads : (i : ℕ) → i ≢ p → s'.ready_queue i ≡ s.ready_queue i
  pub keep : (q : ℕ) → strip (s'.tcb q) ≡ strip (s.tcb q)
  pub outside :
      (q : ℕ)
      → has q (qs p) ≡ false
      → has q ys ≡ false
      → ((s'.tcb q).next ≡ (s.tcb q).next) × ((s'.tcb q).prev ≡ (s.tcb q).prev)
  pub fresh :
      (q : ℕ)
      → has q (qs p) ≡ false
      → has q ys ≡ true
      → (level s q ≡ p) × (is_runnable (s.tcb q).state ≡ true) × (q ≢ null)
  pub dropped : (q : ℕ) → has q (qs p) ≡ true → has q ys ≡ false → (s'.tcb q).prev ≡ null
  pub bitmap :
      (i : ℕ)
      → i < 32
      → bit s'.ready_bitmap (31 - i)
        ≡ (if i == p then (if is_empty ys then 0 else 1) else bit s.ready_bitmap (31 - i))

IsRing-frame :
    (nx pv nx' pv' : Links) (head : ℕ) (xs : List ℕ)
    → IsRing nx pv head xs
    → ((q : ℕ) → has q xs ≡ true → (nx' q ≡ nx q) × (pv' q ≡ pv q))
    → IsRing nx' pv' head xs
IsRing-frame nx pv nx' pv' head [] r same = r
IsRing-frame nx pv nx' pv' head (x ∷ xs) r same = (
  r.0,
  Seg-frame nx pv nx' pv' x xs x r.1 (λ q h. (same q h).0) (λ q h. (same q (ground arith)).1),
)

module _ {s s' : Sched} {qs : Queues} {p : ℕ} {ys : List Ptr} (inv : Holds s qs) (lt : p < 32)
    (r : Rebuild s qs s' p ys) where
  keep_parts :
      (q : ℕ) → ((s'.tcb q).priority ≡ (s.tcb q).priority) × ((s'.tcb q).state ≡ (s.tcb q).state)
  keep_parts q = (ap (λ (c : Tcb). c.priority) (r.keep q), ap (λ (c : Tcb). c.state) (r.keep q))

  -- Links of a thread at another level stay.
  other_links :
      (q i : ℕ)
      → i < 32
      → i ≢ p
      → has q (qs i) ≡ true
      → ((s'.tcb q).next ≡ (s.tcb q).next) × ((s'.tcb q).prev ≡ (s.tcb q).prev)
  other_links q i li ne h =
      let away = not_elsewhere inv q p lt (ground (arith, inv.member i q li h)) in
      elim (Bool-cases (has q ys)) [
        | inl new ↦ absurd (ground (arith, r.fresh q away new, inv.member i q li h))
        | inr old ↦ r.outside q away old
      ]

  level_keep : (t : ℕ) → level s' t ≡ level s t
  level_keep t = rw ((keep_parts t).0) refl

  Rebuild-IsRing :
      (i : ℕ) → i < 32 → IsRing (next_of s') (prev_of s') (s'.ready_queue i) (put qs p ys i)
  Rebuild-IsRing i li = elim (Bool-cases (i == p)) [
    | inl same ↦ let e : i ≡ p = ground arith in rw (same, e) r.ring
    | inr other ↦
        let ne : i ≢ p = ground arith in
        rw (other, r.heads i ne)
          (IsRing-frame _ _ _ _ (s.ready_queue i) (qs i) (inv.ring i li)
            (λ q h. other_links q i li ne h))
  ]

  Rebuild-member :
      (i t : ℕ)
      → i < 32
      → has t (put qs p ys i) ≡ true
      → (level s' t ≡ i) × (is_runnable (s'.tcb t).state ≡ true) × (t ≢ null)
  Rebuild-member i t li h = ground (
    arith,
    keep_parts t,
    level_keep t,
    r.fresh t,
    inv.member i t li,
    inv.member p t lt,
    Bool-cases (has t (qs p)),
    Bool-cases (i == p),
  )

  Rebuild-absent : (t : ℕ) → has t (put qs p ys (level s' t)) ≡ false → (s'.tcb t).prev ≡ null
  Rebuild-absent t h = elim (Bool-cases (level s t == p)) [
    | inl same ↦
        let e : level s t ≡ p = ground arith in
        let gone : has t ys ≡ false = ground (arith, level_keep t) in
        elim (Bool-cases (has t (qs p))) [
          | inl old ↦ r.dropped t old gone
          | inr never ↦ (r.outside t never gone).1 ∙ inv.absent t (rw e never)
        ]
    | inr other ↦
        let away = not_elsewhere inv t p lt (ground arith) in
        let gone : has t (qs (level s t)) ≡ false = rw (level_keep t, other) at h in
        elim (Bool-cases (has t ys)) [
          | inl new ↦ absurd (ground (arith, r.fresh t away new))
          | inr old ↦ (r.outside t away old).1 ∙ inv.absent t gone
        ]
  ]

  pub Rebuild-Holds : Holds s' (put qs p ys)
  Rebuild-Holds = record {
    ring = Rebuild-IsRing;
    nodup = λ i li. ground (arith, r.nodup, inv.nodup i li);
    member = Rebuild-member;
    absent = Rebuild-absent;
    bitmap = λ i li. ground (arith, r.bitmap i li, inv.bitmap i li);
  }

-- The queue with a thread appended, unless it is there.
abbrev pub enqueue : Ptr → List Ptr → List Ptr
enqueue t xs = if has t xs then xs else xs ++ (t ∷ [])

-- All but the links of a thread control block, the queue heads and the bitmap of the ready queues.
pub record SameRest (s s' : Sched) : Type 0 where
  pub threads : (q : ℕ) → strip (s'.tcb q) ≡ strip (s.tcb q)
  pub current : s'.current ≡ s.current
  pub preempted : s'.preempted_bitmap ≡ s.preempted_bitmap
  pub pendsv : s'.pendsv ≡ s.pendsv

-- To put back what is there changes nothing.
pub put_same : (qs : Queues) (p : ℕ) → put qs p (qs p) ≡ qs
put_same qs p = fun_ext λ i. elim (Bool-cases (i == p)) [
  | inl h ↦ let e : i ≡ p = ground arith in rw (h, e) refl
  | inr h ↦ rw h refl
]
