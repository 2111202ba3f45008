-- ===== src/Ktimer/Expire/Coalesce.antt =====
-- The coalescing cache keeps the notification bits of each thread.
use f9_kernel.Base.{
  ℕ, ◌≤◌, ◌≡◌, refl, inl, inr, arith, bit_or, true, false, ◌||◌, List, [], ◌∷◌, ◌++◌, length,
  length-append, ◌==◌, ltb, if◌then◌else◌, Bool-cases,
}
use f9_kernel.Base.Bits.{bit_or_zero}
use f9_kernel.Tcb.{Ptr}
use f9_kernel.Sched.{ok}
use f9_kernel.Ktimer.{Ktimer}
use f9_kernel.Ktimer.Expire.{cache_size, in_cache, or_bits, coalesce}

-- The bits that the cache has for a thread.
abbrev pub owed : Ptr → List (Ptr × ℕ) → ℕ
owed t [] = 0
owed t ((p, bits) ∷ cache) = if p == t then bits else owed t cache

owed-or_bits :
    (t b q : ℕ) (cache : List (Ptr × ℕ))
    → in_cache t cache ≡ true
    → owed q (or_bits t b cache) ≡ (if q == t then bit_or (owed q cache) b else owed q cache)
owed-or_bits t b q [] h = ground arith
owed-or_bits t b q ((p, bits) ∷ cache) h = ground (arith, owed-or_bits t b q cache)

owed-append :
    (t b q : ℕ) (cache : List (Ptr × ℕ))
    → in_cache t cache ≡ false
    → owed q (cache ++ ((t, b) ∷ [])) ≡ (if q == t then b else owed q cache)
owed-append t b q [] h = ground arith
owed-append t b q ((p, bits) ∷ cache) h = ground (arith, owed-append t b q cache)

owed_absent : (t : ℕ) (cache : List (Ptr × ℕ)) → in_cache t cache ≡ false → owed t cache ≡ 0
owed_absent t [] h = refl
owed_absent t ((p, bits) ∷ cache) h = ground (arith, owed_absent t cache)

length-or_bits : (t b : ℕ) (cache : List (Ptr × ℕ)) → length (or_bits t b cache) ≡ length cache
length-or_bits t b [] = refl
length-or_bits t b ((p, bits) ∷ cache) = ground (arith, length-or_bits t b cache)

-- Unless the cache is full and does not have the thread, the notification goes into the cache: the
-- bits for its thread grow by the new ones, those of the others stay, and the cache keeps to its size.
pub coalesce-owed :
    (t b : ℕ) (k : Ktimer)
    → length k.coalesce_cache ≤ cache_size
    → (in_cache t k.coalesce_cache || ltb (length k.coalesce_cache) cache_size) ≡ true
    → (cache : List (Ptr × ℕ)) × (coalesce t b k ≡ ok (record k { coalesce_cache = cache }))
      × (length cache ≤ cache_size)
      × ((q : Ptr)
          → owed q cache
            ≡ (if q == t then bit_or (owed q k.coalesce_cache) b else owed q k.coalesce_cache))
unfolding coalesce
coalesce-owed t b k fits room = elim (Bool-cases (in_cache t k.coalesce_cache)) [
  | inl old ↦ (
    or_bits t b k.coalesce_cache,
    rw old refl,
    ground (arith, length-or_bits t b k.coalesce_cache, fits),
    λ q. owed-or_bits t b q k.coalesce_cache old,
  )
  | inr new ↦
      let some_room : ltb (length k.coalesce_cache) cache_size ≡ true = ground (arith, room, new) in
      let zero_bits = owed_absent t k.coalesce_cache new in
      (
        k.coalesce_cache ++ ((t, b) ∷ []),
        rw (new, some_room) refl,
        ground (arith, some_room, length-append k.coalesce_cache ((t, b) ∷ [])),
        λ q. elim (Bool-cases (q == t)) [
          | inl same ↦
              let e : q ≡ t = ground arith in
              let grown = owed-append t b q k.coalesce_cache new in
              ground (arith, rw e at grown, zero_bits, bit_or_zero b, e)
          | inr other ↦ ground (arith, owed-append t b q k.coalesce_cache new)
        ],
      )
]
