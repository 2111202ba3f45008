-- ===== src/Ktable/Alloc.antt =====
-- Allocation takes the lowest free element, and freeing it gives it back.
use f9_kernel.Base.{
  ℕ, zero, suc, ◌+◌, ◌-◌, ◌*◌, ◌/◌, ◌%◌, ◌^◌, ◌<◌, ◌≤◌, ◌≡◌, ◌≢◌, ◌↔◌, refl, inl, inr, none, some,
  arith, ◌==◌, Bool-cases,
}
use f9_kernel.Bitmap.{
  bitmap_get_bit, bitmap_set_bit, bitmap_test_and_set_bit, get-le, get-set, get-clear,
}
use f9_kernel.Ktable.{Ktable, element, alloc_from, ktable_alloc, ktable_getid, ktable_free}

-- Element `i` is marked as allocated.
abbrev pub Taken : Ktable → ℕ → Type 0
Taken kt i = bitmap_get_bit kt.bitmap i ≡ 1

-- A table that `ktable_alloc` accepts, below the end of the address space.
pub record IsTable (kt : Ktable) : Type 0 where
  pub base_pos : kt.base ≢ 0
  pub num_pos : kt.num ≢ 0
  pub size_pos : kt.size ≢ 0
  pub num_small : kt.num < 2 ^ 31
  pub fits : kt.base + kt.num * kt.size < 2 ^ 32

-- What a successful allocation of element `i` is: the lowest free one, marked, and no other.
pub record Allocated (kt : Ktable) (i e : ℕ) (kt' : Ktable) : Type 0 where
  pub in_range : i < kt.num
  pub was_free : bitmap_get_bit kt.bitmap i ≡ 0
  pub lowest : (j : ℕ) → j < i → Taken kt j
  pub address : e ≡ element kt i
  pub marked : kt' ≡ record kt { bitmap = bitmap_set_bit kt.bitmap i }

module _ (kt : Ktable) where
  alloc_from-some :
      (n i : ℕ) {e : ℕ} {kt' : Ktable}
      → n + i ≡ kt.num
      → ((j : ℕ) → j < i → Taken kt j)
      → alloc_from n i kt ≡ (some e, kt')
      → (k : ℕ) × Allocated kt k e kt'
  unfolding alloc_from bitmap_test_and_set_bit
  alloc_from-some zero i sum below h = cc
  alloc_from-some (suc n) i sum below h = elim (Bool-cases (bitmap_get_bit kt.bitmap i == 0)) [
    | inl free ↦ (
      i,
      record {
        in_range = omega arith;
        was_free = ground arith;
        lowest = below;
        address = ground arith;
        marked = ground arith;
      },
    )
    | inr taken ↦
        alloc_from-some n (i + 1) (omega arith)
          (λ j lt. ground (arith, below j, get-le kt.bitmap i)) (ground arith)
  ]

  alloc_from-none_iff :
      (n i : ℕ) → (alloc_from n i kt ≡ (none, kt)) ↔ ((j : ℕ) → i ≤ j → j < n + i → Taken kt j)
  unfolding alloc_from bitmap_test_and_set_bit
  alloc_from-none_iff zero i = (λ h j le lt. absurd (omega arith), λ all. refl)
  alloc_from-none_iff (suc n) i = elim (Bool-cases (bitmap_get_bit kt.bitmap i == 0)) [
    | inl free ↦ (λ h. cc, λ all. absurd (ground (arith, all i)))
    | inr taken ↦ (
      λ h j le lt.
          ground (arith, (alloc_from-none_iff n (i + 1)).0 (ground arith) j, get-le kt.bitmap i),
      λ all.
          ground (
            arith,
            (alloc_from-none_iff n (i + 1)).1 (λ j le lt. all j (omega arith) (omega arith)),
          ),
    )
  ]

  module _ (t : IsTable kt) where
    -- A successful `ktable_alloc` returns the lowest free element and marks it, and no other.
    pub ktable_alloc-Allocated :
        {e : ℕ} {kt' : Ktable} → ktable_alloc kt ≡ (some e, kt') → (i : ℕ) × Allocated kt i e kt'
    unfolding ktable_alloc
    ktable_alloc-Allocated h =
        alloc_from-some kt.num 0 (omega arith) (λ j lt. absurd (omega arith)) (ground (arith, t))

    -- `ktable_alloc` fails exactly when every element is allocated, and then changes nothing.
    pub ktable_alloc-none_iff : (ktable_alloc kt ≡ (none, kt)) ↔ ((j : ℕ) → j < kt.num → Taken kt j)
    unfolding ktable_alloc
    ktable_alloc-none_iff = (
      λ h j lt. (alloc_from-none_iff kt.num 0).0 (ground (arith, t)) j (omega arith) (omega arith),
      λ all. ground (arith, t, (alloc_from-none_iff kt.num 0).1 (λ j le lt. all j (omega arith))),
    )

    -- `ktable_getid` finds the index of each element's address.
    pub ktable_getid-element : (i : ℕ) → i < kt.num → ktable_getid kt (element kt i) ≡ some i
    unfolding ktable_getid
    ktable_getid-element i lt = rw offset (rw back (ground (arith, t.num_small)))
      where
        below : i * kt.size < kt.num * kt.size
        below = grind (arith, t.size_pos)

        offset : (element kt i + 2 ^ 32 - kt.base) % 2 ^ 32 ≡ i * kt.size
        offset = omega (arith, t.fits, below)

        back : i * kt.size / kt.size ≡ i
        back = grind (arith, t.size_pos)

    -- To free what was just allocated gives the bitmap back, bit by bit.
    pub ktable_free-alloc :
        {e : ℕ} {kt' : Ktable}
        → ktable_alloc kt ≡ (some e, kt')
        → (j : ℕ) → bitmap_get_bit (ktable_free kt' e).bitmap j ≡ bitmap_get_bit kt.bitmap j
    unfolding ktable_free ktable_getid
    ktable_free-alloc {e} {kt'} h j =
        let (i, a) = ktable_alloc-Allocated h in
        let found : ktable_getid kt' e ≡ some i =
          rw (a.marked, a.address) (ktable_getid-element i a.in_range) in
        ground (arith, found, a.marked, a.was_free, get-clear kt'.bitmap i j, get-set kt.bitmap i j)
