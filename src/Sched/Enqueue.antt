-- ===== src/Sched/Enqueue.antt =====
-- `sched_enqueue` appends to the queue of the thread's level.
use f9_kernel.Base.{
  ℕ, bit_or, ◌≡◌, ◌≢◌, refl, subst, true, false, inl, inr, List, [], ◌∷◌, ◌++◌, arith, ◌==◌,
  if◌then◌else◌, has, distinct, last, has-last, has-append, distinct-snoc, Bool-cases,
}
use f9_kernel.Tcb.{Ptr, null, is_runnable}
use f9_kernel.Sched.{
  Sched, ok, prio_mask, sched_enqueue, enqueue_first, enqueue_tail, set_next, set_prev,
}
use f9_kernel.Sched.Links.{strip, links, strips}
use f9_kernel.Sched.Ring.{Seg, Seg-last, Seg-snoc, Seg-retarget}
use f9_kernel.Sched.Bitmap.{bit-set_ready}
use f9_kernel.Sched.Inv.{
  Queues, next_of, prev_of, level, IsRing, Holds, Rebuild, Rebuild-Holds, put, put_same, enqueue,
  SameRest, level-lt, sched_is_queued-has,
}

module _ (t : Ptr) (s : Sched) (q : Ptr) where
  pub next-enqueue_first :
      ((enqueue_first t (level s t) s).tcb q).next ≡ (if q == t then t else (s.tcb q).next)
  unfolding enqueue_first
  next-enqueue_first = simp links

  pub prev-enqueue_first :
      ((enqueue_first t (level s t) s).tcb q).prev ≡ (if q == t then t else (s.tcb q).prev)
  unfolding enqueue_first
  prev-enqueue_first = simp links

  pub strip-enqueue_first : strip ((enqueue_first t (level s t) s).tcb q) ≡ strip (s.tcb q)
  unfolding enqueue_first
  strip-enqueue_first = simp strips

  pub heads-enqueue_first :
      (enqueue_first t (level s t) s).ready_queue q
      ≡ (if q == level s t then t else s.ready_queue q)
  unfolding enqueue_first
  heads-enqueue_first = simp links

  pub bitmap-enqueue_first :
      (enqueue_first t (level s t) s).ready_bitmap ≡ bit_or s.ready_bitmap (prio_mask (level s t))
  unfolding enqueue_first
  bitmap-enqueue_first = simp links

  module _ (x : Ptr) where
    abbrev tail : Ptr
    tail = (s.tcb x).prev

    next-enqueue_tail :
        ((enqueue_tail t x s).tcb q).next
        ≡ (if q == tail then t else if q == t then x else (s.tcb q).next)
    unfolding enqueue_tail
    next-enqueue_tail = simp links

    prev-enqueue_tail :
        ((enqueue_tail t x s).tcb q).prev
        ≡ (if q == x then t else if q == t then tail else (s.tcb q).prev)
    unfolding enqueue_tail
    prev-enqueue_tail = simp links

    strip-enqueue_tail : strip ((enqueue_tail t x s).tcb q) ≡ strip (s.tcb q)
    unfolding enqueue_tail
    strip-enqueue_tail = simp strips

    heads-enqueue_tail : (enqueue_tail t x s).ready_queue q ≡ s.ready_queue q
    unfolding enqueue_tail
    heads-enqueue_tail = simp links

    bitmap-enqueue_tail : (enqueue_tail t x s).ready_bitmap ≡ s.ready_bitmap
    unfolding enqueue_tail
    bitmap-enqueue_tail = simp links

module _ {s : Sched} {qs : Queues} (inv : Holds s qs) (t : Ptr) (ne : t ≢ null)
    (run : is_runnable (s.tcb t).state ≡ true) where
  first_Rebuild :
      qs (level s t) ≡ [] → Rebuild s qs (enqueue_first t (level s t) s) (level s t) (t ∷ [])
  first_Rebuild e = record {
    ring = (
      ground (arith, heads-enqueue_first t s (level s t)),
      (ground (arith, next-enqueue_first t s t), ground (arith, prev-enqueue_first t s t)),
    );
    nodup = refl;
    heads = λ i h. ground (arith, heads-enqueue_first t s i);
    keep = strip-enqueue_first t s;
    outside = λ q h k. ground (arith, next-enqueue_first t s q, prev-enqueue_first t s q);
    fresh = λ q h k. ground (arith, level-lt s t);
    dropped = λ q h k. absurd (ground (arith, e));
    bitmap = λ i li.
        rw (bitmap-enqueue_first t s i)
          (bit-set_ready s.ready_bitmap (level s t) i (level-lt s t) li);
  }

  module _ (x : ℕ) (xs : List ℕ) (e : qs (level s t) ≡ x ∷ xs) (out : has t (x ∷ xs) ≡ false) where
    IsRing-before : IsRing (next_of s) (prev_of s) (s.ready_queue (level s t)) (x ∷ xs)
    IsRing-before =
        subst (IsRing (next_of s) (prev_of s) (s.ready_queue (level s t))) e
          (inv.ring (level s t) (level-lt s t))

    nodup_before : distinct (x ∷ xs) ≡ true
    nodup_before = subst (λ l. distinct l ≡ true) e (inv.nodup (level s t) (level-lt s t))

    old_tail : (s.tcb x).prev ≡ last x xs
    old_tail = (Seg-last _ _ x xs x IsRing-before.1).0

    tail_ring :
        Seg (next_of (enqueue_tail t x s)) (prev_of (enqueue_tail t x s)) x (xs ++ (t ∷ [])) x
    tail_ring =
        Seg-snoc _ _ x xs t x
          (Seg-retarget _ _ _ _ x xs x t IsRing-before.1 nodup_before
            (ground (arith, next-enqueue_tail t s (last x xs) x, old_tail))
            (ground (arith, prev-enqueue_tail t s t x, old_tail))
            (λ q h k. ground (arith, next-enqueue_tail t s q x, old_tail))
            (λ q h. ground (arith, prev-enqueue_tail t s q x, nodup_before)))
          (ground (arith, next-enqueue_tail t s t x, old_tail, has-last x xs))
          (ground (arith, prev-enqueue_tail t s x x))

    tail_Rebuild : Rebuild s qs (enqueue_tail t x s) (level s t) ((x ∷ xs) ++ (t ∷ []))
    tail_Rebuild = record {
      ring = (ground (arith, heads-enqueue_tail t s (level s t) x, IsRing-before.0), tail_ring);
      nodup = distinct-snoc t (x ∷ xs) nodup_before out;
      heads = λ i h. heads-enqueue_tail t s i x;
      keep = λ q. strip-enqueue_tail t s q x;
      outside = λ q h k. ground (
        arith,
        next-enqueue_tail t s q x,
        prev-enqueue_tail t s q x,
        has-append q (x ∷ xs) (t ∷ []),
        has-last x xs,
        old_tail,
      );
      fresh = λ q h k. ground (arith, has-append q (x ∷ xs) (t ∷ []));
      dropped = λ q h k. absurd (ground (arith, has-append q (x ∷ xs) (t ∷ [])));
      bitmap = λ i li. ground (arith, bitmap-enqueue_tail t s i x, inv.bitmap (level s t));
    }

first_SameRest : (t : Ptr) (s : Sched) → SameRest s (enqueue_first t (level s t) s)
unfolding enqueue_first set_next set_prev
first_SameRest t s = record {
  threads = strip-enqueue_first t s;
  current = refl;
  preempted = refl;
  pendsv = refl;
}

tail_SameRest : (t x : Ptr) (s : Sched) → SameRest s (enqueue_tail t x s)
unfolding enqueue_tail set_next set_prev
tail_SameRest t x s = record {
  threads = λ q. strip-enqueue_tail t s q x;
  current = refl;
  preempted = refl;
  pendsv = refl;
}

-- What `sched_enqueue` does to the queues.
abbrev pub Enqueued : Sched → Queues → Ptr → Type 0
Enqueued s qs t =
    (s' : Sched) × (sched_enqueue t s ≡ ok s')
    × Holds s' (put qs (level s t) (enqueue t (qs (level s t))))
    × SameRest s s'

module _ {s : Sched} {qs : Queues} (inv : Holds s qs) (t : Ptr) (ne : t ≢ null)
    (run : is_runnable (s.tcb t).state ≡ true) where
  enqueue_queued : has t (qs (level s t)) ≡ true → Enqueued s qs t
  unfolding sched_enqueue
  enqueue_queued h = (
    s,
    ground (arith, sched_is_queued-has inv t),
    rw (h, put_same qs (level s t)) inv,
    record { threads = λ q. refl; current = refl; preempted = refl; pendsv = refl },
  )

  enqueue_new :
      (xs : List Ptr) → qs (level s t) ≡ xs → has t (qs (level s t)) ≡ false → Enqueued s qs t
  unfolding sched_enqueue
  enqueue_new [] e h = (
    enqueue_first t (level s t) s,
    ground (arith, sched_is_queued-has inv t, head),
    rw (h, e) (Rebuild-Holds inv (level-lt s t) (first_Rebuild inv t ne run e)),
    first_SameRest t s,
  )
    where
      head : s.ready_queue (level s t) ≡ null
      head =
          subst (IsRing (next_of s) (prev_of s) (s.ready_queue (level s t))) e
            (inv.ring (level s t) (level-lt s t))
  enqueue_new (x ∷ xs) e h = (
    enqueue_tail t x s,
    ground (arith, sched_is_queued-has inv t, head.0, inv.member (level s t) x (level-lt s t)),
    rw (h, e) (Rebuild-Holds inv (level-lt s t) (tail_Rebuild inv t ne run x xs e (rw e at h))),
    tail_SameRest t x s,
  )
    where
      head : IsRing (next_of s) (prev_of s) (s.ready_queue (level s t)) (x ∷ xs)
      head =
          subst (IsRing (next_of s) (prev_of s) (s.ready_queue (level s t))) e
            (inv.ring (level s t) (level-lt s t))

-- In a state that stands for queues `sched_enqueue` of a runnable thread does not panic; it appends the thread to the queue of its
-- level unless it is there, and leaves the other queues and the rest of the state as they are.
pub sched_enqueue_refines :
    {s : Sched} {qs : Queues} (t : Ptr)
    → Holds s qs
    → t ≢ null
    → is_runnable (s.tcb t).state ≡ true
    → Enqueued s qs t
sched_enqueue_refines {s} {qs} t inv ne run = elim (Bool-cases (has t (qs (level s t)))) [
  | inl old ↦ enqueue_queued inv t ne run old
  | inr new ↦ enqueue_new inv t ne run (qs (level s t)) refl new
]
