-- ===== src/Fpage/Cover.antt =====
-- kernel/fpage.c: which addresses of an area `assign_fpages_ext` covers with pages.
use f9_kernel.Base.{
  ℕ, ◌+◌, ◌-◌, ◌*◌, ◌/◌, ◌%◌, ◌^◌, ◌≤◌, ◌<◌, ◌≡◌, refl, ap, ◌∙◌, arith, true, false, inl, inr, List,
  [], ◌∷◌, ◌==◌, ltb, leb, if◌then◌else◌, has, length, has-append, length-append, Bool-cases,
  Option, some,
}
use f9_kernel.Tcb.{Ptr}
use f9_kernel.Memory.{Mempool, has_fpages, mempool_align}
use f9_kernel.Fpage.{Fpage, Pages, fpage_end, create_fpage_chain}
use f9_kernel.Fpage.Chain.{Tiles, Tiles-frame, Tiles-length, Chained-full}
use f9_kernel.Fpage.Space.{
  Assigned, in_front, is_nil, first_of, last_of, keep_first, More, close_chain, assign_rest,
  assign_gap, assign_step, assign_loop, choose_pool, assign_in_pool, assign_found,
  assign_fpages_ext,
}
use f9_kernel.Fpage.Spaced.{
  IsSpace, IsSpace-tail, IsSpace-created, created_kept, created_used, Spaced-top,
}
use f9_kernel.Fpage.Assign.{align, created, end_of, lt→ltb, keep, loop, Continues}

-- A page of the list holds the address.
abbrev pub Held : (Ptr → Fpage) → List Ptr → ℕ → Type 0
Held page xs a =
    (p : Ptr) × (has p xs ≡ true) × ((page p).base ≤ a) × (a < (page p).base + 2 ^ (page p).shift)

Tiles-Held :
    (page : Ptr → Fpage) (base : ℕ) (ps : List Ptr) (end_ a : ℕ)
    → Tiles page base ps end_
    → base ≤ a
    → a < end_
    → Held page ps a
Tiles-Held page base [] end_ a t le lt = absurd (omega arith)
Tiles-Held page base (p ∷ ps) end_ a (b, w, ge, t) le lt =
    elim (Bool-cases (ltb a (base + 2 ^ (page p).shift))) [
      | inl here ↦ (p, ground arith, omega arith, ground arith)
      | inr later ↦
          let (q, i, j, k) =
            Tiles-Held page (base + 2 ^ (page p).shift) ps end_ a t (ground arith) lt in
          (q, ground arith, j, k)
    ]

-- The result covers the area from `base` to `end_`.
pub record Covers (base end_ : ℕ) (r : Assigned) : Type 0 where
  pub returns : r.returns ≡ true
  pub holds : (a : ℕ) → base ≤ a → a < end_ → Held r.pages.page r.list a

-- Nothing is left to cover.
Covers-nothing :
    (base end_ : ℕ) (r : Assigned) → end_ ≤ base → r.returns ≡ true → Covers base end_ r
Covers-nothing base end_ r le ok = record {
  returns = ok;
  holds = λ a low high. absurd (omega arith);
}

-- Pages in front of a result keep what it covers, and add what they hold themselves.
Covers-in_front :
    (base mid end_ : ℕ) (chain : List Ptr) (r : Assigned)
    → ((a : ℕ) → base ≤ a → a < mid → a < end_ → Held r.pages.page chain a)
    → Covers mid end_ r
    → Covers base end_ (in_front chain r)
Covers-in_front base mid end_ chain r held c = record {
  returns = c.returns;
  holds = λ a low high. elim (Bool-cases (ltb a mid)) [
    | inl here ↦
        let (q, i, j, k) = held a low (ground arith) high in
        (q, ground (arith, has-append q chain r.list), j, k)
    | inr later ↦
        let (q, i, j, k) = c.holds a (ground arith) high in
        (q, ground (arith, has-append q chain r.list), j, k)
  ];
}

pub Tiles-some :
    (page : Ptr → Fpage) (base : ℕ) (ps : List Ptr) (end_ : ℕ)
    → Tiles page base ps end_
    → base < end_
    → is_nil ps ≡ false
Tiles-some page base [] end_ t lt = absurd (omega arith)
Tiles-some page base (p ∷ ps) end_ t lt = refl

-- Enough pages are free for the smallest pages from `base` to `end_`.
abbrev pub Enough : ℕ → ℕ → Pages → Type 0
Enough base end_ ps = (end_ + 255) / 256 * 256 - base ≤ 256 * length ps.free

-- The rest of the loop covers what is left of the area.
abbrev CoversMore : ℕ → List Ptr → ℕ → More → Type 0
CoversMore lo rest end_ more =
    (base : ℕ) (pfirst plast : Ptr) (ps : Pages)
    → IsSpace lo rest ps
    → lo ≤ base
    → base % 256 ≡ 0
    → Enough base end_ ps
    → Covers base end_ (more base pfirst plast ps)

module _ (memmap : List Mempool) (mpid : ℕ) (supported : has_fpages memmap mpid ≡ true) where
  cover_rest :
      (lo base end_ : ℕ) (pfirst plast : Ptr) (ps : Pages)
      → IsSpace lo [] ps
      → base % 256 ≡ 0
      → end_ ≤ 2 ^ 32 - 256
      → Enough base end_ ps
      → Covers base end_ (assign_rest memmap mpid base end_ pfirst plast ps)
  unfolding assign_rest close_chain
  cover_rest lo base end_ pfirst plast ps s al top enough = elim (Bool-cases (ltb base end_)) [
    | inr none_left ↦ rw none_left (Covers-nothing base end_ _ (ground arith) refl)
    | inl left ↦
        let e : mempool_align memmap mpid base ≡ base =
          align memmap mpid supported base (ground arith) ∙ omega arith in
        let aend = (end_ + 255) / 256 * 256 in
        let lt : base < aend = ground arith in
        let chain = create_fpage_chain memmap base (aend - base) mpid ps in
        let c =
          created memmap mpid supported base aend ps lt (omega arith) al (omega arith) s.free in
        let tiles = Chained-full base (aend - base) ps chain enough c in
        let some_pages = Tiles-some (chain.1).page base chain.0 _ tiles (omega arith) in
        rw
          (
            left,
            e,
            align memmap mpid supported end_ top,
            lt→ltb memmap mpid supported base aend lt,
            some_pages,
          )
          (record {
            returns = refl;
            holds = λ a low high.
                Tiles-Held (chain.1).page base chain.0 (base + (aend - base)) a tiles low
                  (omega arith);
          })
  ]

  -- The page `fp`, from which the loop goes on at `base'`.
  cover_keep :
      (lo base base' end_ : ℕ) (pfirst plast fp : Ptr) (rest : List Ptr) (ps : Pages) (more : More)
      → IsSpace lo (fp ∷ rest) ps
      → ((a : ℕ)
          → base ≤ a
          → a < base'
          → a < end_
          → ((ps.page fp).base ≤ a) × (a < (ps.page fp).base + 2 ^ (ps.page fp).shift))
      → (ps.page fp).base + 2 ^ (ps.page fp).shift ≤ base'
      → base' % 256 ≡ 0
      → Enough base' end_ ps
      → Continues memmap mpid supported ((ps.page fp).base + 2 ^ (ps.page fp).shift) rest more
      → CoversMore ((ps.page fp).base + 2 ^ (ps.page fp).shift) rest end_ more
      → Covers base end_ (in_front (fp ∷ []) (more base' pfirst plast ps))
  cover_keep lo base base' end_ pfirst plast fp rest ps more s here le al enough go cov =
      let tail = IsSpace-tail lo fp rest ps s in
      let g = go base' pfirst plast ps tail le al in
      let same = (g.kept fp (s.used fp (ground arith))).0 in
      Covers-in_front base base' end_ (fp ∷ []) (more base' pfirst plast ps)
        (λ a low high last.
          let (i, j) = here a low high last in (fp, ground arith, rw same i, rw same j))
        (cov base' pfirst plast ps tail le al enough)

  cover_gap :
      (lo base aend end_ : ℕ) (pfirst plast fp : Ptr) (rest : List Ptr) (ps : Pages) (more : More)
      → IsSpace lo (fp ∷ rest) ps
      → lo ≤ base
      → base % 256 ≡ 0
      → base < aend
      → aend % 256 ≡ 0
      → aend ≤ (ps.page fp).base
      → ((a : ℕ) → aend ≤ a → a < end_ → (ps.page fp).base ≤ a)
      → aend ≤ (end_ + 255) / 256 * 256
      → Enough base end_ ps
      → Continues memmap mpid supported ((ps.page fp).base + 2 ^ (ps.page fp).shift) rest more
      → CoversMore ((ps.page fp).base + 2 ^ (ps.page fp).shift) rest end_ more
      → Covers base end_ (assign_gap memmap mpid base aend pfirst plast fp rest ps more)
  unfolding assign_gap
  cover_gap lo base aend end_ pfirst plast fp rest ps more s le al lt ae low reach most enough go
        cov =
      let p = ps.page fp in
      let (le_p, al_p, ge_p, h) = s.spaced in
      let (is_end, al_end) = end_of memmap mpid supported lo fp rest ps s in
      let top = Spaced-top ps.page (p.base + 2 ^ p.shift) rest h in
      let some_left : leb aend base ≡ false = ground arith in
      let chain = create_fpage_chain memmap base (aend - base) mpid ps in
      let c = created memmap mpid supported base aend ps lt (omega arith) al ae s.free in
      let tiles = Chained-full base (aend - base) ps chain (omega arith) c in
      let some_pages = Tiles-some (chain.1).page base chain.0 _ tiles (omega arith) in
      let s' =
        IsSpace-created lo (base + (aend - base)) base (aend - base) (fp ∷ rest) ps chain s
          (omega arith, al_p, ge_p, h) c in
      let same : (chain.1).page fp ≡ p =
        created_kept base (aend - base) ps chain c fp (s.used fp (ground arith)) in
      let first = keep_first pfirst (first_of chain.0) in
      let go' : Continues memmap mpid supported
          (((chain.1).page fp).base + 2 ^ ((chain.1).page fp).shift) rest more =
        rw same go in
      let cov' : CoversMore (((chain.1).page fp).base + 2 ^ ((chain.1).page fp).shift) rest end_
          more =
        rw same cov in
      let le' : ((chain.1).page fp).base + 2 ^ ((chain.1).page fp).shift ≤ fpage_end p =
        rw (same, is_end) (omega arith) in
      let g =
        keep memmap mpid supported (base + (aend - base)) (fpage_end p) first (last_of chain.0) fp
          rest chain.1 more s' le' al_end go' in
      let used_up : length ps.free ≡ length chain.0 + length (chain.1).free =
        ap length c.taken ∙ length-append chain.0 (chain.1).free in
      let r = more (fpage_end p) first (last_of chain.0) chain.1 in
      let many = Tiles-length (chain.1).page base chain.0 (base + (aend - base)) tiles in
      rw (some_left, some_pages)
        (Covers-in_front base aend end_ chain.0 (in_front (fp ∷ []) r)
          (λ a low_a high_a last.
            Tiles-Held r.pages.page base chain.0 (base + (aend - base)) a
              (Tiles-frame (chain.1).page r.pages.page base chain.0 (base + (aend - base))
                (λ q m. (g.kept q (created_used base (aend - base) ps chain s.free c q m)).0) tiles)
              low_a (omega arith))
          (cover_keep (base + (aend - base)) aend (fpage_end p) end_ first (last_of chain.0) fp rest
            chain.1 more s'
            (λ a low_a high_a last. rw same (reach a low_a last, omega (arith, is_end))) le' al_end
            (omega (arith, used_up, many, is_end)) go' cov'))

  cover_step :
      (lo base end_ : ℕ) (pfirst plast fp : Ptr) (rest : List Ptr) (ps : Pages) (more : More)
      → IsSpace lo (fp ∷ rest) ps
      → lo ≤ base
      → base % 256 ≡ 0
      → end_ ≤ 2 ^ 32 - 256
      → Enough base end_ ps
      → Continues memmap mpid supported ((ps.page fp).base + 2 ^ (ps.page fp).shift) rest more
      → CoversMore ((ps.page fp).base + 2 ^ (ps.page fp).shift) rest end_ more
      → Covers base end_ (assign_step memmap mpid base end_ pfirst plast fp rest ps more)
  unfolding assign_step
  cover_step lo base end_ pfirst plast fp rest ps more s le al top enough go cov =
      let p = ps.page fp in
      let (le_p, al_p, ge_p, h) = s.spaced in
      let (is_end, al_end) = end_of memmap mpid supported lo fp rest ps s in
      let top_p = Spaced-top ps.page (p.base + 2 ^ p.shift) rest h in
      elim (Bool-cases (leb end_ base)) [
        | inl all ↦ rw all (Covers-nothing base end_ _ (ground arith) refl)
        | inr some_left ↦ elim (Bool-cases (ltb base p.base)) [
          | inl before ↦
              let stop = if ltb end_ p.base then end_ else p.base in
              let aend = (stop + 255) / 256 * 256 in
              let e : mempool_align memmap mpid base ≡ base =
                align memmap mpid supported base (ground arith) ∙ omega arith in
              let e' : mempool_align memmap mpid stop ≡ aend =
                align memmap mpid supported stop (ground arith) in
              rw (some_left, before, e, e')
                (cover_gap lo base aend end_ pfirst plast fp rest ps more s le al (ground arith)
                  (omega arith) (ground arith) (λ a low high. ground arith) (ground arith) enough go
                  cov)
          | inr at_page ↦ elim (Bool-cases (ltb base (fpage_end p))) [
            | inl inside ↦
                rw (some_left, at_page, inside)
                  (cover_keep lo base (fpage_end p) end_ _ _ fp rest ps more s
                    (λ a low high last. (ground arith, omega (arith, is_end)))
                    (omega (arith, is_end)) al_end (ground arith) go cov)
            | inr behind ↦
                rw (some_left, at_page, behind)
                  (cover_keep lo base base end_ _ _ fp rest ps more s
                    (λ a low high last. absurd (omega arith)) (ground (arith, is_end)) al enough go
                    cov)
          ]
        ]
      ]

  cover_loop :
      (xs : List Ptr) (lo base end_ : ℕ) (pfirst plast : Ptr) (ps : Pages)
      → IsSpace lo xs ps
      → lo ≤ base
      → base % 256 ≡ 0
      → end_ ≤ 2 ^ 32 - 256
      → Enough base end_ ps
      → Covers base end_ (assign_loop memmap mpid base end_ pfirst plast xs ps)
  unfolding assign_loop
  cover_loop [] lo base end_ pfirst plast ps s le al top enough =
      cover_rest lo base end_ pfirst plast ps s al top enough
  cover_loop (fp ∷ rest) lo base end_ pfirst plast ps s le al top enough =
      let next = (ps.page fp).base + 2 ^ (ps.page fp).shift in
      cover_step lo base end_ pfirst plast fp rest ps _ s le al top enough
        (λ b first last ps' s' le' al'.
          loop memmap mpid supported rest next b end_ first last ps' s' le' al' top)
        (λ b first last ps' s' le' al' enough'.
          cover_loop rest next b end_ first last ps' s' le' al' top enough')

-- `assign_fpages_ext` covers the whole area: where a pool that supports flexible pages is given or found,
-- the area is not empty, begins at a smallest page and ends before the last one, and as many pages
-- are free as the area has smallest pages, it returns 0, and each address of the area is in a page of
-- the address space.
pub assign_fpages_ext-Covers :
    (memmap : List Mempool) (mpid : Option ℕ) (i : ℕ) (list : List Ptr) (base size : ℕ)
    (pfirst plast : Ptr) (ps : Pages)
    → choose_pool memmap mpid base size ≡ some i
    → has_fpages memmap i ≡ true
    → 0 < size
    → IsSpace 0 list ps
    → base % 256 ≡ 0
    → base + size ≤ 2 ^ 32 - 256
    → (size + 255) / 256 ≤ length ps.free
    → Covers base (base + size) (assign_fpages_ext memmap mpid list base size pfirst plast ps)
unfolding assign_fpages_ext assign_found assign_in_pool
assign_fpages_ext-Covers memmap mpid i list base size pfirst plast ps pool supported pos s al top
      enough =
    let some_size : (size == 0) ≡ false = ground arith in
    let same : (base + size) % 2 ^ 32 ≡ base + size = omega arith in
    let no_wrap : ltb (base + size) base ≡ false = ground arith in
    rw (some_size, pool, supported, same, no_wrap)
      (cover_loop memmap i supported list 0 base (base + size) pfirst plast ps s (omega arith) al
        top (omega arith))
