-- ===== src/Memory/Search.antt =====
-- Which pool `mempool_search` finds.
use f9_kernel.Base.{
  ℕ, ◌+◌, ◌-◌, ◌%◌, ◌^◌, ◌<◌, ◌≡◌, refl, ap, inl, inr, arith, Bool, true, false, not, ◌&&◌, List,
  [], ◌∷◌, ◌++◌, Option, none, some, length, leb, ltb, Bool-cases,
}
use f9_kernel.Memory.{Mempool, search_from, mempool_search}

-- The pool holds the area from `base` up to `end_`.
abbrev pub contains : Mempool → ℕ → ℕ → Bool
contains m base end_ = leb m.start base && leb end_ m.end_

abbrev pub none_contains : List Mempool → ℕ → ℕ → Bool
none_contains [] base end_ = true
none_contains (m ∷ ms) base end_ = not (contains m base end_) && none_contains ms base end_

-- A search for the area, with the number of pools that were passed before: the first pool that
-- holds it, or none does.
pub data Searched (memmap : List Mempool) (passed base end_ : ℕ) : Option ℕ → Type 0 where
  missing : none_contains memmap base end_ ≡ true → Searched memmap passed base end_ none
  found :
      (before after : List Mempool) (m : Mempool) (i : ℕ)
      → memmap ≡ before ++ (m ∷ after)
      → i ≡ passed + length before
      → contains m base end_ ≡ true
      → none_contains before base end_ ≡ true
      → Searched memmap passed base end_ (some i)

search_more :
    {ms : List Mempool} {base end_ : ℕ} (passed : ℕ) (m : Mempool) (o : Option ℕ)
    → contains m base end_ ≡ false
    → Searched ms (passed + 1) base end_ o
    → Searched (m ∷ ms) passed base end_ o
search_more passed m _ miss (missing h) = missing (rw (miss, h) refl)
search_more passed m _ miss (found before after m' i e at hit none_before) =
    found (m ∷ before) after m' i (ap (λ xs. m ∷ xs) e) (omega arith) hit
      (rw (miss, none_before) refl)

search_from-Searched :
    (memmap : List Mempool) (passed base end_ : ℕ)
    → Searched memmap passed base end_ (search_from passed base end_ memmap)
unfolding search_from
search_from-Searched [] passed base end_ = missing refl
search_from-Searched (m ∷ ms) passed base end_ = elim (Bool-cases (contains m base end_)) [
  | inl hit ↦ rw hit (found [] ms m passed refl (omega arith) hit refl)
  | inr miss ↦
      rw miss (search_more passed m _ miss (search_from-Searched ms (passed + 1) base end_))
]

-- For an area that ends below 2^32, `mempool_search` returns the index of the first pool of the table
-- that holds the whole area, and -1 only if no pool does.
pub mempool_search-Searched :
    (memmap : List Mempool) (base size : ℕ)
    → base + size < 2 ^ 32
    → Searched memmap 0 base (base + size) (mempool_search memmap base size)
unfolding mempool_search
mempool_search-Searched memmap base size h =
    let fits : (ltb 0 size && ltb (2 ^ 32 - 1 - size + 1) base) ≡ false = ground arith in
    let same : (base + size) % 2 ^ 32 ≡ base + size = omega arith in
    rw (fits, same) (search_from-Searched memmap 0 base (base + size))

-- An area that ends above 2^32 is refused.
pub mempool_search_overflow :
    (memmap : List Mempool) (base size : ℕ)
    → base < 2 ^ 32
    → size < 2 ^ 32
    → 2 ^ 32 < base + size
    → mempool_search memmap base size ≡ none
unfolding mempool_search
mempool_search_overflow memmap base size hb hs over = ground arith
