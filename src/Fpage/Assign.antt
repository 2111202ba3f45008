-- ===== src/Fpage/Assign.antt =====
-- What `assign_fpages_ext` does to an address space.
use f9_kernel.Base.{
  ℕ, ◌+◌, ◌-◌, ◌*◌, ◌/◌, ◌%◌, ◌^◌, ◌≤◌, ◌<◌, ◌≡◌, refl, ◌∙◌, arith, true, false, inl, inr, List, [],
  ◌∷◌, ◌==◌, ltb, leb, if◌then◌else◌, distinct, Option, none, some, Bool-cases,
}
use f9_kernel.Tcb.{Ptr}
use f9_kernel.Memory.{Mempool, has_fpages, mempool_align}
use f9_kernel.Memory.Align.{addr_align_up_lem}
use f9_kernel.Fpage.{Pages, fpage_end, create_fpage_chain}
use f9_kernel.Fpage.Chain.{Chained, create_fpage_chain-Chained, pow_multiple}
use f9_kernel.Fpage.Space.{
  in_front, is_nil, More, close_chain, assign_rest, assign_gap, assign_step, assign_loop,
  assign_in_pool, assign_found, choose_pool, assign_fpages_ext,
}
use f9_kernel.Fpage.Spaced.{
  IsSpace, Grown, Grown_same, Grown-keep, Grown-fill, Grown-last, IsSpace-created, IsSpace-tail,
  Spaced-top, created_kept,
}

module _ (memmap : List Mempool) (mpid : ℕ) (supported : has_fpages memmap mpid ≡ true) where
  pub lt→ltb : (a b : ℕ) → a < b → ltb a b ≡ true
  lt→ltb a b h = ground arith

  -- Alignment of an address up to the last smallest page.
  pub align : (a : ℕ) → a ≤ 2 ^ 32 - 256 → mempool_align memmap mpid a ≡ (a + 255) / 256 * 256
  unfolding mempool_align
  align a h = rw (supported, addr_align_up_lem a (omega arith)) (ground arith)

  pub created :
      (abase aend : ℕ) (ps : Pages)
      → abase < aend
      → aend ≤ 2 ^ 32 - 256
      → abase % 256 ≡ 0
      → aend % 256 ≡ 0
      → distinct ps.free ≡ true
      → Chained abase (aend - abase) ps (create_fpage_chain memmap abase (aend - abase) mpid ps)
  created abase aend ps lt top ha he d =
      create_fpage_chain-Chained memmap abase (aend - abase) mpid ps (omega arith) (omega arith) ha
        (omega arith) d

  last :
      (lo base aend : ℕ) (pfirst plast : Ptr) (ps : Pages)
      → IsSpace lo [] ps
      → lo ≤ base
      → base % 256 ≡ 0
      → base < aend
      → aend ≤ 2 ^ 32 - 256
      → (c : Chained base (aend - base) ps (create_fpage_chain memmap base (aend - base) mpid ps))
      → Grown lo [] ps
          (close_chain pfirst plast (create_fpage_chain memmap base (aend - base) mpid ps) ps)
  unfolding close_chain
  last lo base aend pfirst plast ps s le al lt top c =
      let chain = create_fpage_chain memmap base (aend - base) mpid ps in
      elim (Bool-cases (is_nil chain.0)) [
        | inl nil ↦ rw nil (Grown_same lo [] ps _ s refl refl)
        | inr some_pages ↦
            rw some_pages
              (Grown-last lo base (aend - base) ps chain _ le al (omega arith) s c refl refl)
      ]

  pub fill_rest :
      (lo base end_ : ℕ) (pfirst plast : Ptr) (ps : Pages)
      → IsSpace lo [] ps
      → lo ≤ base
      → base % 256 ≡ 0
      → end_ ≤ 2 ^ 32 - 256
      → Grown lo [] ps (assign_rest memmap mpid base end_ pfirst plast ps)
  unfolding assign_rest
  fill_rest lo base end_ pfirst plast ps s le al top = elim (Bool-cases (ltb base end_)) [
    | inr none_left ↦ rw none_left (Grown_same lo [] ps _ s refl refl)
    | inl left ↦
        let e : mempool_align memmap mpid base ≡ base = align base (ground arith) ∙ omega arith in
        let aend = (end_ + 255) / 256 * 256 in
        let lt : base < aend = ground arith in
        let c = created base aend ps lt (omega arith) al (omega arith) s.free in
        rw (left, e, align end_ top, lt→ltb base aend lt)
          (last lo base aend pfirst plast ps s le al lt (omega arith) c)
  ]

  -- What the rest of the loop does to the pages behind `fp`.
  abbrev pub Continues : ℕ → List Ptr → More → Type 0
  Continues lo rest more =
      (base : ℕ) (pfirst plast : Ptr) (ps : Pages)
      → IsSpace lo rest ps
      → lo ≤ base
      → base % 256 ≡ 0
      → Grown lo rest ps (more base pfirst plast ps)

  -- The page `fp` and what the loop does behind it.
  pub keep :
      (lo base : ℕ) (pfirst plast fp : Ptr) (rest : List Ptr) (ps : Pages) (more : More)
      → IsSpace lo (fp ∷ rest) ps
      → (ps.page fp).base + 2 ^ (ps.page fp).shift ≤ base
      → base % 256 ≡ 0
      → Continues ((ps.page fp).base + 2 ^ (ps.page fp).shift) rest more
      → Grown lo (fp ∷ rest) ps (in_front (fp ∷ []) (more base pfirst plast ps))
  keep lo base pfirst plast fp rest ps more s le al go =
      Grown-keep lo fp rest ps _ s (go base pfirst plast ps (IsSpace-tail lo fp rest ps s) le al)

  -- The end of a page of an address space does not wrap around.
  pub end_of :
      (lo : ℕ) (fp : Ptr) (rest : List Ptr) (ps : Pages)
      → IsSpace lo (fp ∷ rest) ps
      → (fpage_end (ps.page fp) ≡ (ps.page fp).base + 2 ^ (ps.page fp).shift)
        × (fpage_end (ps.page fp) % 256 ≡ 0)
  end_of lo fp rest ps s =
      let p = ps.page fp in
      let (le, al, ge, h) = s.spaced in
      let top = Spaced-top ps.page (p.base + 2 ^ p.shift) rest h in
      (omega arith, omega (arith, pow_multiple p.shift ge))

  pub gap :
      (lo base aend : ℕ) (pfirst plast fp : Ptr) (rest : List Ptr) (ps : Pages) (more : More)
      → IsSpace lo (fp ∷ rest) ps
      → lo ≤ base
      → base % 256 ≡ 0
      → base < aend
      → aend % 256 ≡ 0
      → aend ≤ (ps.page fp).base
      → Continues ((ps.page fp).base + 2 ^ (ps.page fp).shift) rest more
      → Grown lo (fp ∷ rest) ps (assign_gap memmap mpid base aend pfirst plast fp rest ps more)
  unfolding assign_gap
  gap lo base aend pfirst plast fp rest ps more s le al lt ae low go =
      let p = ps.page fp in
      let (le_p, al_p, ge_p, h) = s.spaced in
      let (is_end, al_end) = end_of lo fp rest ps s in
      let top = Spaced-top ps.page (p.base + 2 ^ p.shift) rest h in
      let some_left : leb aend base ≡ false = ground arith in
      let chain = create_fpage_chain memmap base (aend - base) mpid ps in
      let c = created base aend ps lt (omega arith) al ae s.free in
      elim (Bool-cases (is_nil chain.0)) [
        | inl nil ↦ rw (some_left, nil) (Grown_same lo (fp ∷ rest) ps _ s refl refl)
        | inr some_pages ↦
            let s' =
              IsSpace-created lo (base + (aend - base)) base (aend - base) (fp ∷ rest) ps chain s
                (omega arith, al_p, ge_p, h) c in
            let same : (chain.1).page fp ≡ p =
              created_kept base (aend - base) ps chain c fp (s.used fp (ground arith)) in
            let go' : Continues (((chain.1).page fp).base + 2 ^ ((chain.1).page fp).shift) rest
                more =
              rw same go in
            rw (some_left, some_pages)
              (Grown-fill lo base (aend - base) (fp ∷ rest) ps chain _ le al s c (
                keep (base + (aend - base)) (fpage_end p) _ _ fp rest chain.1 more s'
                  (rw (same, is_end) (omega arith)) al_end go'))
      ]

  pub step :
      (lo base end_ : ℕ) (pfirst plast fp : Ptr) (rest : List Ptr) (ps : Pages) (more : More)
      → IsSpace lo (fp ∷ rest) ps
      → lo ≤ base
      → base % 256 ≡ 0
      → end_ ≤ 2 ^ 32 - 256
      → Continues ((ps.page fp).base + 2 ^ (ps.page fp).shift) rest more
      → Grown lo (fp ∷ rest) ps (assign_step memmap mpid base end_ pfirst plast fp rest ps more)
  unfolding assign_step
  step lo base end_ pfirst plast fp rest ps more s le al top go =
      let p = ps.page fp in
      let (le_p, al_p, ge_p, h) = s.spaced in
      let (is_end, al_end) = end_of lo fp rest ps s in
      let top_p = Spaced-top ps.page (p.base + 2 ^ p.shift) rest h in
      elim (Bool-cases (leb end_ base)) [
        | inl all ↦ rw all (Grown_same lo (fp ∷ rest) ps _ s refl refl)
        | inr some_left ↦ elim (Bool-cases (ltb base p.base)) [
          | inl before ↦
              let stop = if ltb end_ p.base then end_ else p.base in
              let aend = (stop + 255) / 256 * 256 in
              let e : mempool_align memmap mpid base ≡ base =
                align base (ground arith) ∙ omega arith in
              let e' : mempool_align memmap mpid stop ≡ aend = align stop (ground arith) in
              rw (some_left, before, e, e')
                (gap lo base aend pfirst plast fp rest ps more s le al (ground arith) (omega arith)
                  (ground arith) go)
          | inr at_page ↦ elim (Bool-cases (ltb base (fpage_end p))) [
            | inl inside ↦
                rw (some_left, at_page, inside)
                  (keep lo (fpage_end p) _ _ fp rest ps more s (omega (arith, is_end)) al_end go)
            | inr behind ↦
                rw (some_left, at_page, behind)
                  (keep lo base _ _ fp rest ps more s (ground (arith, is_end)) al go)
          ]
        ]
      ]

  pub loop :
      (xs : List Ptr) (lo base end_ : ℕ) (pfirst plast : Ptr) (ps : Pages)
      → IsSpace lo xs ps
      → lo ≤ base
      → base % 256 ≡ 0
      → end_ ≤ 2 ^ 32 - 256
      → Grown lo xs ps (assign_loop memmap mpid base end_ pfirst plast xs ps)
  unfolding assign_loop
  loop [] lo base end_ pfirst plast ps s le al top =
      fill_rest lo base end_ pfirst plast ps s le al top
  loop (fp ∷ rest) lo base end_ pfirst plast ps s le al top =
      step lo base end_ pfirst plast fp rest ps _ s le al top (λ b first last ps' s' le' al'.
        loop rest ((ps.page fp).base + 2 ^ (ps.page fp).shift) b end_ first last ps' s' le' al' top)

  pub assign_in_pool-Grown :
      (list : List Ptr) (base size : ℕ) (pfirst plast : Ptr) (ps : Pages)
      → IsSpace 0 list ps
      → base % 256 ≡ 0
      → base + size ≤ 2 ^ 32 - 256
      → Grown 0 list ps (assign_in_pool memmap mpid list base size pfirst plast ps)
  unfolding assign_in_pool
  assign_in_pool-Grown list base size pfirst plast ps s al top =
      let same : (base + size) % 2 ^ 32 ≡ base + size = omega arith in
      let no_wrap : ltb (base + size) base ≡ false = ground arith in
      rw (supported, same, no_wrap)
        (loop list 0 base (base + size) pfirst plast ps s (omega arith) al top)

fails-Grown :
    (list : List Ptr) (pfirst plast : Ptr) (ps : Pages)
    → IsSpace 0 list ps
    → Grown 0 list ps
        (record { returns = false; list = list; pfirst = pfirst; plast = plast; pages = ps })
fails-Grown list pfirst plast ps s = Grown_same 0 list ps _ s refl refl

in_any_pool :
    (memmap : List Mempool) (mpid : ℕ) (list : List Ptr) (base size : ℕ) (pfirst plast : Ptr)
    (ps : Pages)
    → IsSpace 0 list ps
    → base % 256 ≡ 0
    → base + size ≤ 2 ^ 32 - 256
    → Grown 0 list ps (assign_in_pool memmap mpid list base size pfirst plast ps)
unfolding assign_in_pool
in_any_pool memmap mpid list base size pfirst plast ps s al top =
    elim (Bool-cases (has_fpages memmap mpid)) [
      | inl yes_fpages ↦
          assign_in_pool-Grown memmap mpid yes_fpages list base size pfirst plast ps s al top
      | inr no_fpages ↦ rw no_fpages (fails-Grown list pfirst plast ps s)
    ]

found-Grown :
    (memmap : List Mempool) (mpid : Option ℕ) (list : List Ptr) (base size : ℕ) (pfirst plast : Ptr)
    (ps : Pages)
    → IsSpace 0 list ps
    → base % 256 ≡ 0
    → base + size ≤ 2 ^ 32 - 256
    → Grown 0 list ps (assign_found memmap mpid list base size pfirst plast ps)
unfolding assign_found
found-Grown memmap (some mpid) list base size pfirst plast ps s al top =
    in_any_pool memmap mpid list base size pfirst plast ps s al top
found-Grown memmap none list base size pfirst plast ps s al top = fails-Grown list pfirst plast ps s

-- `assign_fpages_ext` for an area that begins at a smallest page and ends before the last one keeps an
-- address space one, on every path, errors included: its pages stay aligned, in the order of their
-- addresses and without overlap, none of them is free, the pages it had are still there, and no
-- page that was in use is changed.
pub assign_fpages_ext-Grown :
    (memmap : List Mempool) (mpid : Option ℕ) (list : List Ptr) (base size : ℕ) (pfirst plast : Ptr)
    (ps : Pages)
    → IsSpace 0 list ps
    → base % 256 ≡ 0
    → base + size ≤ 2 ^ 32 - 256
    → Grown 0 list ps (assign_fpages_ext memmap mpid list base size pfirst plast ps)
unfolding assign_fpages_ext
assign_fpages_ext-Grown memmap mpid list base size pfirst plast ps s al top =
    elim (Bool-cases (size == 0)) [
      | inl nothing ↦ rw nothing (fails-Grown list pfirst plast ps s)
      | inr something ↦ rw something (
          found-Grown memmap (choose_pool memmap mpid base size) list base size pfirst plast ps s al
            top)
    ]
