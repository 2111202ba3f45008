-- ===== src/Fpage/Insert.antt =====
-- Where `insert_fpage_chain_to_as` puts a chain.
use f9_kernel.Base.{
  ℕ, ◌+◌, ◌<◌, ◌≤◌, ◌≡◌, refl, sym, ap, arith, Bool, true, false, ◌&&◌, List, [], ◌∷◌, ◌++◌, ltb,
  leb, has, erase, last, ◌==◌, ◌^◌, Bool-cases, inl, inr,
}
use f9_kernel.Fpage.Spaced.{Spaced, append_nil}
use f9_kernel.Fpage.Chain.{Tiles}
use f9_kernel.Base.Bits.{pow_pos}
use f9_kernel.Tcb.{Ptr}
use f9_kernel.Fpage.{Fpage}
use f9_kernel.Fpage.Space.{is_nil, last_of, insert_behind, insert_fpage_chain_to_as}

-- The bases of all pages are at most `b`.
abbrev pub all_upto : (Ptr → Fpage) → ℕ → List Ptr → Bool
all_upto page b [] = true
all_upto page b (p ∷ ps) = leb (page p).base b && all_upto page b ps

-- The first page, if there is one, begins behind `b`.
abbrev pub begins_behind : (Ptr → Fpage) → ℕ → List Ptr → Bool
begins_behind page b [] = true
begins_behind page b (p ∷ ps) = ltb b (page p).base

insert_behind_lem :
    (page : Ptr → Fpage) (b : ℕ) (chain : List Ptr) (fp : Ptr) (xs ys : List Ptr)
    → all_upto page b xs ≡ true
    → begins_behind page b ys ≡ true
    → insert_behind page b chain fp (xs ++ ys) ≡ fp ∷ (xs ++ (chain ++ ys))
unfolding insert_behind
insert_behind_lem page b chain fp [] [] low high = ap (λ zs. fp ∷ zs) (sym (append_nil chain))
insert_behind_lem page b chain fp [] (y ∷ ys) low high = rw high refl
insert_behind_lem page b chain fp (x ∷ xs) ys low high =
    let more = insert_behind_lem page b chain x xs ys (ground arith) high in
    let past : ltb b (page x).base ≡ false = ground arith in rw past (ap (λ zs. fp ∷ zs) more)

-- `insert_fpage_chain_to_as` puts a chain between the pages that begin at or before its last page and
-- those that begin behind it, and keeps the order of the others and of the chain.
pub insert_fpage_chain_to_as_lem :
    (page : Ptr → Fpage) (chain xs ys : List Ptr)
    → is_nil chain ≡ false
    → all_upto page (page (last_of chain)).base xs ≡ true
    → begins_behind page (page (last_of chain)).base ys ≡ true
    → insert_fpage_chain_to_as page (xs ++ ys) chain ≡ xs ++ (chain ++ ys)
unfolding insert_fpage_chain_to_as
insert_fpage_chain_to_as_lem page chain [] [] some_pages low high = sym (append_nil chain)
insert_fpage_chain_to_as_lem page chain [] (y ∷ ys) some_pages low high = rw (some_pages, high) refl
insert_fpage_chain_to_as_lem page chain (x ∷ xs) ys some_pages low high =
    let past : ltb (page (last_of chain)).base (page x).base ≡ false = ground arith in
    rw (some_pages, past)
      (insert_behind_lem page (page (last_of chain)).base chain x xs ys (ground arith) high)

-- Facts about a page in the middle of an address space: the pages before it begin before it.
pub Spaced-before :
    (page : Ptr → Fpage) (lo : ℕ) (xs : List Ptr) (fp : Ptr) (ys : List Ptr) (b : ℕ)
    → Spaced page lo (xs ++ (fp ∷ ys))
    → (page fp).base ≤ b
    → (lo ≤ (page fp).base) × (all_upto page b xs ≡ true) × (has fp xs ≡ false)
Spaced-before page lo [] fp ys b (le, al, ge, h) up = (le, refl, refl)
Spaced-before page lo (x ∷ xs) fp ys b (le, al, ge, h) up =
    let (low, upto, gone) =
      Spaced-before page ((page x).base + 2 ^ (page x).shift) xs fp ys b h up in
    let before : (page x).base < (page fp).base = omega (arith, pow_pos (page x).shift) in
    let apart : (fp == x) ≡ false = elim (Bool-cases (fp == x)) [
      | inl same ↦
          let e : fp ≡ x = ground arith in absurd (omega (arith, ap (λ q. (page q).base) e))
      | inr other ↦ other
    ] in
    (omega arith, ground arith, ground arith)

-- The pages from the middle on.
pub Spaced-from :
    (page : Ptr → Fpage) (lo : ℕ) (xs ys : List Ptr)
    → Spaced page lo (xs ++ ys)
    → (lo' : ℕ) × Spaced page lo' ys
Spaced-from page lo [] ys h = (lo, h)
Spaced-from page lo (x ∷ xs) ys (le, al, ge, h) =
    Spaced-from page ((page x).base + 2 ^ (page x).shift) xs ys h

pub Spaced-begins :
    (page : Ptr → Fpage) (lo b : ℕ) (ys : List Ptr)
    → Spaced page lo ys
    → b < lo
    → begins_behind page b ys ≡ true
Spaced-begins page lo b [] h lt = refl
Spaced-begins page lo b (y ∷ ys) (le, al, ge, h) lt = ground arith

-- The last page of a chain that tiles an area begins in it, and no page of the chain behind it.
pub Tiles-last :
    (page : Ptr → Fpage) (base : ℕ) (p : Ptr) (ps : List Ptr) (end_ : ℕ)
    → Tiles page base (p ∷ ps) end_
    → (base ≤ (page (last p ps)).base) × ((page (last p ps)).base < end_)
Tiles-last page base p [] end_ (b, al, ge, t) = (omega arith, omega (arith, pow_pos (page p).shift))
Tiles-last page base p (q ∷ ps) end_ (b, al, ge, t) =
    let (i, j) = Tiles-last page (base + 2 ^ (page p).shift) q ps end_ t in (omega arith, j)

Tiles-le :
    (page : Ptr → Fpage) (base : ℕ) (ps : List Ptr) (end_ : ℕ)
    → Tiles page base ps end_
    → base ≤ end_
Tiles-le page base [] end_ t = omega arith
Tiles-le page base (p ∷ ps) end_ (e, al, ge, t) =
    omega (arith, Tiles-le page (base + 2 ^ (page p).shift) ps end_ t)

pub Tiles-upto :
    (page : Ptr → Fpage) (base : ℕ) (ps : List Ptr) (end_ b : ℕ)
    → Tiles page base ps end_
    → end_ ≤ b
    → all_upto page b ps ≡ true
Tiles-upto page base [] end_ b t le = refl
Tiles-upto page base (p ∷ ps) end_ b (e, al, ge, t) le =
    let rest = Tiles-upto page (base + 2 ^ (page p).shift) ps end_ b t le in
    let fits = Tiles-le page (base + 2 ^ (page p).shift) ps end_ t in ground (arith, rest, fits)

pub all_upto-append :
    (page : Ptr → Fpage) (b : ℕ) (xs ys : List Ptr)
    → all_upto page b xs ≡ true
    → all_upto page b ys ≡ true
    → all_upto page b (xs ++ ys) ≡ true
all_upto-append page b [] ys h k = k
all_upto-append page b (x ∷ xs) ys h k =
    ground (arith, all_upto-append page b xs ys (ground arith) k)

pub erase-middle :
    (fp : Ptr) (xs ys : List Ptr) → has fp xs ≡ false → erase fp (xs ++ (fp ∷ ys)) ≡ xs ++ ys
erase-middle fp [] ys h = ground arith
erase-middle fp (x ∷ xs) ys h = ground (arith, erase-middle fp xs ys (ground arith))
