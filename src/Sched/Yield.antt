-- ===== src/Sched/Yield.antt =====
-- In a state that stands for queues `sched_yield` moves the head of the current thread's queue to its tail.
use f9_kernel.Base.{
  ℕ, ◌≡◌, refl, subst, true, false, inl, inr, List, [], ◌∷◌, ◌++◌, arith, if◌then◌else◌, has,
  distinct, rotate, has-append, distinct-snoc, Bool-cases,
}
use f9_kernel.Sched.{Sched, sched_yield, set_head}
use f9_kernel.Sched.Ring.{Seg-snoc}
use f9_kernel.Sched.Inv.{
  Queues, next_of, prev_of, level, IsRing, Holds, Rebuild, Rebuild-Holds, put, put_same, SameRest,
  level-lt, sched_is_queued-has,
}

-- What `sched_yield` does to the queues.
abbrev pub Yielded : Sched → Queues → Type 0
Yielded s qs =
    let p = level s s.current in
    Holds (sched_yield s) (if has s.current (qs p) then put qs p (rotate (qs p)) else qs)
    × SameRest s (sched_yield s)

module _ {s : Sched} {qs : Queues} (inv : Holds s qs) where
  abbrev here : ℕ
  here = level s s.current

  rotate_Rebuild :
      (x b : ℕ) (bs : List ℕ)
      → qs (level s s.current) ≡ x ∷ b ∷ bs
      → Rebuild s qs (set_head (level s s.current) b s) (level s s.current) (b ∷ (bs ++ (x ∷ [])))
  rotate_Rebuild x b bs e = record {
    ring = (ground arith, Seg-snoc _ _ b bs x b r.1.2 r.1.0 r.1.1);
    nodup = distinct-snoc x (b ∷ bs) (ground (arith, d)) (ground (arith, d));
    heads = λ i h. ground arith;
    keep = λ q. refl;
    outside = λ q h k. (refl, refl);
    fresh = λ q h k. absurd (ground (arith, e, has-append q (b ∷ bs) (x ∷ [])));
    dropped = λ q h k. absurd (ground (arith, e, has-append q (b ∷ bs) (x ∷ [])));
    bitmap = λ i li. ground (arith, inv.bitmap (level s s.current), e);
  }
    where
      p : ℕ
      p = level s s.current

      r : IsRing (next_of s) (prev_of s) (s.ready_queue p) (x ∷ b ∷ bs)
      r =
          subst (IsRing (next_of s) (prev_of s) (s.ready_queue p)) e
            (inv.ring p (level-lt s s.current))

      d : distinct (x ∷ b ∷ bs) ≡ true
      d = subst (λ l. distinct l ≡ true) e (inv.nodup p (level-lt s s.current))

  yield_to :
      (u : Sched) (ys : Queues)
      → sched_yield s ≡ u
      → (if has s.current (qs (level s s.current))
          then put qs (level s s.current) (rotate (qs (level s s.current)))
          else qs)
        ≡ ys
      → Holds u ys
      → SameRest s u
      → Yielded s qs
  yield_to u ys eu ey h same = rw (eu, ey) (h, same)

  rotated :
      (ys : List ℕ)
      → has s.current (qs (level s s.current)) ≡ true
      → rotate (qs (level s s.current)) ≡ ys
      → (if has s.current (qs (level s s.current))
          then put qs (level s s.current) (rotate (qs (level s s.current)))
          else qs)
        ≡ put qs (level s s.current) ys
  rotated ys h e = rw (h, e) refl

  yield_queue :
      (xs : List ℕ)
      → qs (level s s.current) ≡ xs
      → has s.current (qs (level s s.current)) ≡ true
      → Yielded s qs
  yield_queue [] e h = absurd (ground (arith, e))
  yield_queue (x ∷ []) e h =
      yield_to s (put qs (level s s.current) (x ∷ [])) stay (rotated _ h (rw e refl))
        (rw (← e, put_same qs (level s s.current)) inv)
        (record { threads = λ q. refl; current = refl; preempted = refl; pendsv = refl })
    where
      r : IsRing (next_of s) (prev_of s) (s.ready_queue (level s s.current)) (x ∷ [])
      r =
          subst (IsRing (next_of s) (prev_of s) (s.ready_queue (level s s.current))) e
            (inv.ring (level s s.current) (level-lt s s.current))

      stay : sched_yield s ≡ s
      stay = unfold sched_yield in ground (arith, r.0, r.1)
  yield_queue (x ∷ b ∷ bs) e h =
      yield_to (set_head (level s s.current) b s)
        (put qs (level s s.current) (b ∷ (bs ++ (x ∷ [])))) go (rotated _ h (rw e refl))
        (Rebuild-Holds inv (level-lt s s.current) (rotate_Rebuild x b bs e))
        (record { threads = λ q. refl; current = refl; preempted = refl; pendsv = refl })
    where
      p : ℕ
      p = level s s.current

      r : IsRing (next_of s) (prev_of s) (s.ready_queue (level s s.current)) (x ∷ b ∷ bs)
      r =
          subst (IsRing (next_of s) (prev_of s) (s.ready_queue (level s s.current))) e
            (inv.ring (level s s.current) (level-lt s s.current))

      d : distinct (x ∷ b ∷ bs) ≡ true
      d = subst (λ l. distinct l ≡ true) e (inv.nodup (level s s.current) (level-lt s s.current))

      go : sched_yield s ≡ set_head (level s s.current) b s
      go =
          unfold sched_yield in
          rw (r.0, r.1.0)
            (ground (
              arith,
              d,
              sched_is_queued-has inv s.current,
              inv.member (level s s.current) s.current (level-lt s s.current) h,
              inv.member (level s s.current) x (level-lt s s.current) (ground (arith, e)),
            ))

-- `sched_yield` moves the head of the current thread's queue to its tail if the current thread is
-- queued, and changes nothing else.
pub sched_yield_refines : {s : Sched} {qs : Queues} → Holds s qs → Yielded s qs
sched_yield_refines {s} {qs} inv = elim (Bool-cases (has s.current (qs (level s s.current)))) [
  | inl h ↦ yield_queue inv (qs (level s s.current)) refl h
  | inr h ↦
      yield_to inv s qs (stay h) (rw h refl) inv
        (record { threads = λ q. refl; current = refl; preempted = refl; pendsv = refl })
]
  where
    stay : has s.current (qs (level s s.current)) ≡ false → sched_yield s ≡ s
    stay h = unfold sched_yield in ground (arith, sched_is_queued-has inv s.current)
