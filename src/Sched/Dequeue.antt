-- ===== src/Sched/Dequeue.antt =====
-- In a state that stands for queues `sched_dequeue` takes the thread out of the queue of its level.
use f9_kernel.Base.{
  ℕ, bit_and, ◌≡◌, ◌≢◌, refl, sym, subst, true, false, inl, inr, List, [], ◌∷◌, ◌∙◌, ap, arith,
  ◌==◌, if◌then◌else◌, has, distinct, erase, last, has-last, has-erase_ne, distinct-erase,
  erase_not_mem, Bool-cases,
}
use f9_kernel.Base.Bits.{bit_not}
use f9_kernel.Tcb.{Ptr, null}
use f9_kernel.Sched.{
  Sched, prio_mask, sched_dequeue, dequeue_last, dequeue_linked, set_next, set_prev, move_head,
}
use f9_kernel.Sched.Links.{strip, links, strips}
use f9_kernel.Sched.Ring.{
  Seg, Seg-last, Seg-retarget, Seg-erase, prev_mem, next_mem, prev_ne, next_ne,
}
use f9_kernel.Sched.Bitmap.{bit-clear_ready}
use f9_kernel.Sched.Inv.{
  Queues, next_of, prev_of, level, IsRing, Holds, Rebuild, Rebuild-Holds, put, put_same, SameRest,
  level-lt, sched_is_queued-has,
}

module _ (t : Ptr) (s : Sched) (q : Ptr) where
  pub next-dequeue_last :
      ((dequeue_last t (level s t) s).tcb q).next ≡ (if q == t then null else (s.tcb q).next)
  unfolding dequeue_last
  next-dequeue_last = simp links

  pub prev-dequeue_last :
      ((dequeue_last t (level s t) s).tcb q).prev ≡ (if q == t then null else (s.tcb q).prev)
  unfolding dequeue_last
  prev-dequeue_last = simp links

  pub strip-dequeue_last : strip ((dequeue_last t (level s t) s).tcb q) ≡ strip (s.tcb q)
  unfolding dequeue_last
  strip-dequeue_last = simp strips

  pub heads-dequeue_last :
      (dequeue_last t (level s t) s).ready_queue q
      ≡ (if q == level s t then null else s.ready_queue q)
  unfolding dequeue_last
  heads-dequeue_last = simp links

  pub bitmap-dequeue_last :
      (dequeue_last t (level s t) s).ready_bitmap
      ≡ bit_and s.ready_bitmap (bit_not 32 (prio_mask (level s t)))
  unfolding dequeue_last
  bitmap-dequeue_last = simp links

  next-dequeue_linked :
      ((dequeue_linked t (level s t) s).tcb q).next
      ≡ (if q == t then null else if q == (s.tcb t).prev then (s.tcb t).next else (s.tcb q).next)
  unfolding dequeue_linked
  next-dequeue_linked = simp links

  prev-dequeue_linked :
      ((dequeue_linked t (level s t) s).tcb q).prev
      ≡ (if q == t then null else if q == (s.tcb t).next then (s.tcb t).prev else (s.tcb q).prev)
  unfolding dequeue_linked
  prev-dequeue_linked = simp links

  strip-dequeue_linked : strip ((dequeue_linked t (level s t) s).tcb q) ≡ strip (s.tcb q)
  unfolding dequeue_linked
  strip-dequeue_linked = simp strips

  heads-dequeue_linked : (dequeue_linked t (level s t) s).ready_queue q ≡ (
      if q == level s t
      then (if s.ready_queue (level s t) == t then (s.tcb t).next else s.ready_queue (level s t))
      else s.ready_queue q)
  unfolding dequeue_linked
  heads-dequeue_linked = simp links

  bitmap-dequeue_linked : (dequeue_linked t (level s t) s).ready_bitmap ≡ s.ready_bitmap
  unfolding dequeue_linked
  bitmap-dequeue_linked = simp links

module _ {s : Sched} {qs : Queues} (inv : Holds s qs) (t : Ptr) where
  abbrev p : ℕ
  p = level s t

  last_Rebuild :
      qs (level s t) ≡ t ∷ [] → Rebuild s qs (dequeue_last t (level s t) s) (level s t) []
  last_Rebuild e = record {
    ring = ground (arith, heads-dequeue_last t s (level s t));
    nodup = refl;
    heads = λ i h. ground (arith, heads-dequeue_last t s i);
    keep = strip-dequeue_last t s;
    outside = λ q h k. ground (arith, next-dequeue_last t s q, prev-dequeue_last t s q, e);
    fresh = λ q h k. cc;
    dropped = λ q h k. ground (arith, prev-dequeue_last t s q, e);
    bitmap = λ i li.
        rw (bitmap-dequeue_last t s i)
          (bit-clear_ready s.ready_bitmap (level s t) i (level-lt s t) li);
  }

  -- The links of what is left, with the thread at the head and with the thread further back.
  module _ (x : ℕ) (xs : List ℕ) (e : qs (level s t) ≡ x ∷ xs) where
    IsRing-at : IsRing (next_of s) (prev_of s) (s.ready_queue (level s t)) (x ∷ xs)
    IsRing-at =
        subst (IsRing (next_of s) (prev_of s) (s.ready_queue (level s t))) e
          (inv.ring (level s t) (level-lt s t))

    nodup_at : distinct (x ∷ xs) ≡ true
    nodup_at = subst (λ l. distinct l ≡ true) e (inv.nodup (level s t) (level-lt s t))

  module _ (b : ℕ) (bs : List ℕ) (e : qs (level s t) ≡ t ∷ b ∷ bs) where
    head_ends :
        ((s.tcb t).next ≡ b)
        × ((s.tcb b).prev ≡ t)
        × ((s.tcb t).prev ≡ last b bs)
        × ((s.tcb (last b bs)).next ≡ t)
    head_ends =
        let r = (IsRing-at t (b ∷ bs) e).1 in
        let l = Seg-last _ _ b bs t r.2 in (r.0, r.1, l.0, l.1)

    apart : has t (b ∷ bs) ≡ false
    apart = ground (arith, nodup_at t (b ∷ bs) e)

    head_ring :
        Seg
          (next_of (dequeue_linked t (level s t) s))
          (prev_of (dequeue_linked t (level s t) s))
          b
          bs
          b
    head_ring =
        let (n, p, pt, nl) = head_ends in
        Seg-retarget _ _ _ _ b bs t b (IsRing-at t (b ∷ bs) e).1.2
          (ground (arith, nodup_at t (b ∷ bs) e))
          (ground (arith, next-dequeue_linked t s (last b bs), n, pt, has-last b bs, apart))
          (ground (arith, prev-dequeue_linked t s b, n, pt, apart))
          (λ q h k. ground (arith, next-dequeue_linked t s q, n, pt, apart))
          (λ q h. ground (arith, prev-dequeue_linked t s q, n, pt, nodup_at t (b ∷ bs) e))

    head_Rebuild : Rebuild s qs (dequeue_linked t (level s t) s) (level s t) (b ∷ bs)
    head_Rebuild =
        let (n, p, pt, nl) = head_ends in
        record {
          ring = (
            ground (arith, heads-dequeue_linked t s (level s t), n, (IsRing-at t (b ∷ bs) e).0),
            head_ring,
          );
          nodup = ground (arith, nodup_at t (b ∷ bs) e);
          heads = λ i h. ground (arith, heads-dequeue_linked t s i);
          keep = strip-dequeue_linked t s;
          outside = λ q h k. ground (
            arith,
            next-dequeue_linked t s q,
            prev-dequeue_linked t s q,
            n,
            pt,
            has-last b bs,
            e,
          );
          fresh = λ q h k. absurd (ground (arith, e));
          dropped = λ q h k. ground (arith, prev-dequeue_linked t s q, e);
          bitmap = λ i li. ground (arith, bitmap-dequeue_linked t s i, inv.bitmap (level s t), e);
        }

  module _ (x : ℕ) (xs : List ℕ) (e : qs (level s t) ≡ x ∷ xs) (other : t ≢ x)
      (inside : has t xs ≡ true) where
    mid_facts :
        (has x xs ≡ false)
        × ((s.tcb t).prev ≢ t)
        × ((s.tcb t).next ≢ t)
        × (has (s.tcb t).prev (x ∷ xs) ≡ true)
        × (has (s.tcb t).next (x ∷ xs) ≡ true)
    mid_facts =
        let r = (IsRing-at x xs e).1 in
        let d = nodup_at x xs e in
        let out : has x xs ≡ false = ground (arith, d) in
        (
          out,
          prev_ne _ _ t x xs x r d inside,
          next_ne _ _ t x xs x r d out inside,
          prev_mem _ _ t x xs x r inside,
          ground (arith, next_mem _ _ t x xs x r (ground arith)),
        )

    mid_ring :
        Seg
          (next_of (dequeue_linked t (level s t) s))
          (prev_of (dequeue_linked t (level s t) s))
          x
          (erase t xs)
          x
    mid_ring =
        let (out, pne, nne, pin, nin) = mid_facts in
        Seg-erase _ _ _ _ t x xs x (IsRing-at x xs e).1 (nodup_at x xs e) out inside
          (ground (arith, next-dequeue_linked t s (s.tcb t).prev, pne))
          (ground (arith, prev-dequeue_linked t s (s.tcb t).next, nne))
          (λ q h k. ground (arith, next-dequeue_linked t s q))
          (λ q h k. ground (arith, prev-dequeue_linked t s q))

    mid_Rebuild : Rebuild s qs (dequeue_linked t (level s t) s) (level s t) (x ∷ erase t xs)
    mid_Rebuild =
        let (out, pne, nne, pin, nin) = mid_facts in
        record {
          ring = (
            ground (arith, heads-dequeue_linked t s (level s t), (IsRing-at x xs e).0, other),
            mid_ring,
          );
          nodup = ground (arith, nodup_at x xs e, distinct-erase t xs, has-erase_ne x t xs);
          heads = λ i h. ground (arith, heads-dequeue_linked t s i);
          keep = strip-dequeue_linked t s;
          outside = λ q h k.
              ground
                (arith, next-dequeue_linked t s q, prev-dequeue_linked t s q, e, pin, nin, inside);
          fresh = λ q h k. absurd (ground (arith, e, has-erase_ne q t xs));
          dropped = λ q h k. ground (arith, prev-dequeue_linked t s q, e, has-erase_ne q t xs);
          bitmap = λ i li. ground (arith, bitmap-dequeue_linked t s i, inv.bitmap (level s t), e);
        }

last_SameRest : (t : Ptr) (s : Sched) → SameRest s (dequeue_last t (level s t) s)
unfolding dequeue_last set_next set_prev
last_SameRest t s = record {
  threads = strip-dequeue_last t s;
  current = refl;
  preempted = refl;
  pendsv = refl;
}

linked_SameRest : (t : Ptr) (s : Sched) → SameRest s (dequeue_linked t (level s t) s)
unfolding dequeue_linked set_next set_prev move_head
linked_SameRest t s = record {
  threads = strip-dequeue_linked t s;
  current = ground arith;
  preempted = ground arith;
  pendsv = ground arith;
}

-- What `sched_dequeue` does to the queues.
abbrev pub Dequeued : Sched → Queues → Ptr → Type 0
Dequeued s qs t =
    Holds (sched_dequeue t s) (put qs (level s t) (erase t (qs (level s t))))
    × SameRest s (sched_dequeue t s)

module _ {s : Sched} {qs : Queues} (inv : Holds s qs) (t : Ptr) where
  dequeue_absent : has t (qs (level s t)) ≡ false → Dequeued s qs t
  dequeue_absent h = subst Result (sym same) (
    rw (erase_not_mem t (qs (level s t)) h, put_same qs (level s t)) inv,
    record { threads = λ q. refl; current = refl; preempted = refl; pendsv = refl },
  )
    where
      Result : Sched → Type 0
      Result u = Holds u (put qs (level s t) (erase t (qs (level s t)))) × SameRest s u

      same : sched_dequeue t s ≡ s
      same = unfold sched_dequeue in ground (arith, sched_is_queued-has inv t)

  conclude :
      (u : Sched) (ys : List Ptr)
      → sched_dequeue t s ≡ u
      → erase t (qs (level s t)) ≡ ys
      → Rebuild s qs u (level s t) ys
      → SameRest s u
      → Dequeued s qs t
  conclude u ys eu ey r same = rw (eu, ey) (Rebuild-Holds inv (level-lt s t) r, same)

  dequeue_head :
      (xs : List Ptr) → qs (level s t) ≡ t ∷ xs → has t (qs (level s t)) ≡ true → Dequeued s qs t
  unfolding sched_dequeue
  dequeue_head [] e h =
      conclude (dequeue_last t (level s t) s) []
        (ground (
          arith,
          sched_is_queued-has inv t,
          (IsRing-at inv t t [] e).1.0,
          inv.member (level s t) t (level-lt s t) h,
        ))
        (ground (arith, e)) (last_Rebuild inv t e) (last_SameRest t s)
  dequeue_head (b ∷ bs) e h =
      conclude (dequeue_linked t (level s t) s) (b ∷ bs)
        (ground (
          arith,
          sched_is_queued-has inv t,
          head_ends inv t b bs e,
          apart inv t b bs e,
          inv.member (level s t) t (level-lt s t) h,
        ))
        (ground (arith, e)) (head_Rebuild inv t b bs e) (linked_SameRest t s)

  dequeue_present :
      (xs : List Ptr) → qs (level s t) ≡ xs → has t (qs (level s t)) ≡ true → Dequeued s qs t
  unfolding sched_dequeue
  dequeue_present [] e h = absurd (ground (arith, e))
  dequeue_present (x ∷ xs) e h = elim (Bool-cases (t == x)) [
    | inl same ↦
        let here : t ≡ x = ground arith in dequeue_head xs (e ∙ ap (λ y. y ∷ xs) (sym here)) h
    | inr miss ↦
        let other : t ≢ x = ground arith in
        let inside : has t xs ≡ true = ground (arith, e) in
        conclude (dequeue_linked t (level s t) s) (x ∷ erase t xs)
          (ground (
            arith,
            sched_is_queued-has inv t,
            mid_facts inv t x xs e other inside,
            inv.member (level s t) t (level-lt s t) h,
          ))
          (ground (arith, e)) (mid_Rebuild inv t x xs e other inside) (linked_SameRest t s)
  ]

-- `sched_dequeue` takes the thread, if it is queued, out of the queue of its level, keeps the order
-- of the others, and leaves the other queues and the rest of the state as they are.
pub sched_dequeue_refines : {s : Sched} {qs : Queues} (t : Ptr) → Holds s qs → Dequeued s qs t
sched_dequeue_refines {s} {qs} t inv = elim (Bool-cases (has t (qs (level s t)))) [
  | inl h ↦ dequeue_present inv t (qs (level s t)) refl h
  | inr h ↦ dequeue_absent inv t h
]
