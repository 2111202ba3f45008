-- ===== src/Fpage/Chain.antt =====
-- What `create_fpage_chain` builds: flexible pages that tile an area.
use f9_kernel.Base.{
  ℕ, zero, suc, ◌+◌, ◌-◌, ◌*◌, ◌%◌, ◌^◌, ◌≤◌, ◌<◌, ◌≡◌, ◌⊎◌, inl, inr, refl, ap, sym, subst, ◌∙◌,
  arith, true, false, List, [], ◌∷◌, ◌++◌, ◌==◌, has, distinct, has-append, length, length-append,
  Bool-cases, some, none,
}
use f9_kernel.Tcb.{Ptr}
use native.Mathlib.Nat.{pow-suc}
use f9_kernel.Base.Bits.{pow_pos}
use f9_kernel.Memory.{Mempool}
use f9_kernel.Fpage.{
  Fpage, Pages, new_fpage, write_page, create_fpage, chain_shift, chain_next, chain_loop,
  create_fpage_chain,
}
use f9_kernel.Fpage.Log2.{Aligned, chain_shift-Aligned, chain_shift_fits, chain_shift_ge}

-- The pages tile the area from `base` up to `end_`: each begins where its predecessor ends, and its
-- base is a multiple of its size, which is at least the smallest one, as the MPU wants it.
abbrev pub Tiles : (Ptr → Fpage) → ℕ → List Ptr → ℕ → Type 0
Tiles page base [] end_ = base ≡ end_
Tiles page base (p ∷ ps) end_ =
    ((page p).base ≡ base)
    × Aligned base (page p).shift
    × (8 ≤ (page p).shift)
    × Tiles page (base + 2 ^ (page p).shift) ps end_

-- Tiles depend on their pages only.
pub Tiles-frame :
    (page page' : Ptr → Fpage) (base : ℕ) (ps : List Ptr) (end_ : ℕ)
    → ((q : Ptr) → has q ps ≡ true → page' q ≡ page q)
    → Tiles page base ps end_
    → Tiles page' base ps end_
Tiles-frame page page' base [] end_ same t = t
Tiles-frame page page' base (p ∷ ps) end_ same (b, a, s, t) =
    let e : page' p ≡ page p = same p (ground arith) in
    rw e (
      b,
      a,
      s,
      Tiles-frame page page' (base + 2 ^ (page p).shift) ps end_ (λ q h. same q (ground arith)) t,
    )

-- The result of a chain of pages for the area of `size` bytes at `base`.
pub record Chained (base size : ℕ) (ps : Pages) (r : List Ptr × Pages) : Type 0 where
  pub covered : ℕ
  pub tiles : Tiles (r.1).page base r.0 (base + covered)
  pub complete : (covered ≡ size) ⊎ ((covered < size) × ((r.1).free ≡ []))
  pub taken : ps.free ≡ r.0 ++ (r.1).free
  pub others : (q : Ptr) → has q r.0 ≡ false → (r.1).page q ≡ ps.page q

pub pow_multiple : (m : ℕ) → 8 ≤ m → 2 ^ m % 256 ≡ 0
pow_multiple zero h = absurd (omega arith)
pow_multiple (suc m) h = elim (Bool-cases (m == 7)) [
  | inl seven ↦ let e : m ≡ 7 = ground arith in rw e refl
  | inr more ↦ omega (arith, pow-suc 2 m, pow_multiple m (ground arith))
]

create_fpage-none :
    (memmap : List Mempool) (base shift mpid : ℕ) (ps : Pages)
    → ps.free ≡ []
    → create_fpage memmap base shift mpid ps ≡ none
unfolding create_fpage
create_fpage-none memmap base shift mpid ps e = rw e refl

create_fpage-some :
    (memmap : List Mempool) (base shift mpid : ℕ) (ps : Pages) (p : Ptr) (rest : List Ptr)
    → ps.free ≡ p ∷ rest
    → create_fpage memmap base shift mpid ps
      ≡ some (p, write_page p (new_fpage memmap base shift mpid p) (record ps { free = rest }))
unfolding create_fpage
create_fpage-some memmap base shift mpid ps p rest e = rw e refl

List-cases : (xs : List Ptr) → (xs ≡ []) ⊎ ((x : Ptr) × (rest : List Ptr) × (xs ≡ x ∷ rest))
List-cases [] = inl refl
List-cases (x ∷ rest) = inr (x, rest, refl)

empty_chain :
    (base size : ℕ) (ps : Pages) → (size ≡ 0) ⊎ (ps.free ≡ []) → Chained base size ps ([], ps)
empty_chain base size ps (inl e) = record {
  covered = 0;
  tiles = omega arith;
  complete = inl (omega arith);
  taken = refl;
  others = λ q h. refl;
}
empty_chain base size ps (inr e) = record {
  covered = 0;
  tiles = omega arith;
  complete = elim (Bool-cases (size == 0)) [
    | inl z ↦ inl (ground arith)
    | inr nz ↦ inr (ground arith, e)
  ];
  taken = refl;
  others = λ q h. refl;
}

-- A page in front of a chain that begins where the page ends.
link :
    {base size : ℕ} (s : ℕ) (ps ps' : Pages) (p : Ptr) (rest : List Ptr) (r : List Ptr × Pages)
    → ps.free ≡ p ∷ rest
    → distinct (p ∷ rest) ≡ true
    → ps'.free ≡ rest
    → ((ps'.page p).base ≡ base) × ((ps'.page p).shift ≡ s)
    → ((q : Ptr) → (q == p) ≡ false → ps'.page q ≡ ps.page q)
    → Aligned base s
    → 8 ≤ s
    → 2 ^ s ≤ size
    → Chained (base + 2 ^ s) (size - 2 ^ s) ps' r
    → Chained base size ps (p ∷ r.0, r.1)
link {base} {size} s ps ps' p rest r free d free' (at, sh) same al ge fits c =
    let out : has p r.0 ≡ false =
      ground (arith, has-append p r.0 (r.1).free, sym free' ∙ c.taken) in
    let own : (r.1).page p ≡ ps'.page p = c.others p out in
    let shift : ((r.1).page p).shift ≡ s = ap (λ (x : Fpage). x.shift) own ∙ sh in
    record {
      covered = 2 ^ s + c.covered;
      tiles = rw shift (
        ap (λ (x : Fpage). x.base) own ∙ at,
        al,
        ge,
        subst (Tiles (r.1).page (base + 2 ^ s) r.0) (omega arith) c.tiles,
      );
      complete = elim c.complete [
        | inl all ↦ inl (omega arith)
        | inr (less, none_left) ↦ inr (omega arith, none_left)
      ];
      taken = free ∙ ap (λ xs. p ∷ xs) (sym free' ∙ c.taken);
      others = λ q h. c.others q (ground arith) ∙ same q (ground arith);
    }

chain_loop-Chained :
    (fuel : ℕ) (memmap : List Mempool) (base size mpid : ℕ) (ps : Pages)
    → size ≤ fuel
    → base + size ≤ 2 ^ 32
    → base % 256 ≡ 0
    → size % 256 ≡ 0
    → distinct ps.free ≡ true
    → Chained base size ps (chain_loop fuel memmap (base % 2 ^ 32) size mpid ps)
unfolding chain_loop chain_next
chain_loop-Chained zero memmap base size mpid ps le top hb hs d =
    empty_chain base size ps (inl (omega arith))
chain_loop-Chained (suc fuel) memmap base zero mpid ps le top hb hs d =
    empty_chain base zero ps (inl refl)
chain_loop-Chained (suc fuel) memmap base (suc n) mpid ps le top hb hs d =
    let s = chain_shift base (suc n) in
    let same : base % 2 ^ 32 ≡ base = omega arith in
    elim (List-cases ps.free) [
      | inl e ↦
          rw (same, create_fpage-none memmap base s mpid ps e) (empty_chain base (suc n) ps (inr e))
      | inr (p, rest, e) ↦
          let ps' = write_page p (new_fpage memmap base s mpid p) (record ps { free = rest }) in
          let ge = chain_shift_ge base (suc n) hb hs (omega arith) in
          let fits = chain_shift_fits base (suc n) (omega arith) in
          let pow = pow_multiple s ge in
          let r =
            chain_loop-Chained fuel memmap (base + 2 ^ s) (suc n - 2 ^ s) mpid ps'
              (omega (arith, pow_pos s)) (omega arith) (omega arith) (omega arith)
              (ground (arith, rw e at d)) in
          rw (same, create_fpage-some memmap base s mpid ps p rest e)
            (link s ps ps' p rest _ e (rw e at d) refl (ground arith, ground arith)
              (λ q h. ground arith) (chain_shift-Aligned base (suc n) (omega arith)) ge fits r)
    ]

-- For an area of whole smallest pages that ends at 2^32 at most, `create_fpage_chain` ends, and its
-- pages, taken from the free ones in order, tile the area from its base on: all of it, or less only if
-- no page is free any more. Other pages stay.
pub create_fpage_chain-Chained :
    (memmap : List Mempool) (base size mpid : ℕ) (ps : Pages)
    → base < 2 ^ 32
    → base + size ≤ 2 ^ 32
    → base % 256 ≡ 0
    → size % 256 ≡ 0
    → distinct ps.free ≡ true
    → Chained base size ps (create_fpage_chain memmap base size mpid ps)
unfolding create_fpage_chain
create_fpage_chain-Chained memmap base size mpid ps small top hb hs d =
    let same : base % 2 ^ 32 ≡ base = omega arith in
    subst (λ b. Chained base size ps (chain_loop size memmap b size mpid ps)) same
      (chain_loop-Chained size memmap base size mpid ps (omega arith) top hb hs d)

pub Tiles-length :
    (page : Ptr → Fpage) (base : ℕ) (ps : List Ptr) (end_ : ℕ)
    → Tiles page base ps end_
    → base + 256 * length ps ≤ end_
Tiles-length page base [] end_ t = omega arith
Tiles-length page base (p ∷ ps) end_ (b, a, s, t) =
    let big : 256 ≤ 2 ^ (page p).shift =
      omega (arith, pow_multiple (page p).shift s, pow_pos (page p).shift) in
    omega (arith, Tiles-length page (base + 2 ^ (page p).shift) ps end_ t)

-- The chain covers the whole area if as many pages are free as the area has smallest pages.
pub Chained-full :
    (base size : ℕ) (ps : Pages) (r : List Ptr × Pages)
    → size ≤ 256 * length ps.free
    → Chained base size ps r
    → Tiles (r.1).page base r.0 (base + size)
Chained-full base size ps r many c =
    let all : c.covered ≡ size = elim c.complete [
      | inl e ↦ e
      | inr (less, nil) ↦
          let n : length ps.free ≡ length r.0 + length (r.1).free =
            ap length c.taken ∙ length-append r.0 (r.1).free in
          let z : length (r.1).free ≡ 0 = ap length nil in
          absurd (omega (arith, Tiles-length (r.1).page base r.0 (base + c.covered) c.tiles))
    ] in
    subst (λ n. Tiles (r.1).page base r.0 (base + n)) all c.tiles

-- `create_fpage_chain` covers the whole area if as many pages are free as the area has smallest pages.
pub create_fpage_chain_covers :
    (memmap : List Mempool) (base size mpid : ℕ) (ps : Pages)
    → base < 2 ^ 32
    → base + size ≤ 2 ^ 32
    → base % 256 ≡ 0
    → size % 256 ≡ 0
    → distinct ps.free ≡ true
    → size ≤ 256 * length ps.free
    → (chain : List Ptr) × (ps' : Pages) × (create_fpage_chain memmap base size mpid ps
        ≡ (chain, ps'))
      × Tiles ps'.page base chain (base + size)
create_fpage_chain_covers memmap base size mpid ps small top hb hs d many =
    let r = create_fpage_chain memmap base size mpid ps in
    let c = create_fpage_chain-Chained memmap base size mpid ps small top hb hs d in
    (r.0, r.1, refl, Chained-full base size ps r many c)
