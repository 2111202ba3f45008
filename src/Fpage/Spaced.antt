-- ===== src/Fpage/Spaced.antt =====
-- The well-formed list of an address space: aligned pages in the order of their addresses that do not
-- overlap, none of which is free.
use f9_kernel.Base.{
  ℕ, ◌+◌, ◌-◌, ◌%◌, ◌^◌, ◌≤◌, ◌≡◌, refl, ap, sym, ◌∙◌, arith, true, false, inl, inr, ◌||◌, List, [],
  ◌∷◌, ◌++◌, ◌==◌, has, distinct, has-append, Bool-cases,
}
use f9_kernel.Tcb.{Ptr}
use f9_kernel.Fpage.{Fpage, Pages}
use f9_kernel.Fpage.Chain.{Tiles, Tiles-frame, Chained, pow_multiple}
use f9_kernel.Fpage.Space.{Assigned, in_front}

-- Pages from `lo` on; the last one ends below 2^32.
abbrev pub Spaced : (Ptr → Fpage) → ℕ → List Ptr → Type 0
Spaced page lo [] = lo ≤ 2 ^ 32 - 256
Spaced page lo (p ∷ ps) =
    (lo ≤ (page p).base)
    × ((page p).base % 256 ≡ 0)
    × (8 ≤ (page p).shift)
    × Spaced page ((page p).base + 2 ^ (page p).shift) ps

pub Spaced-frame :
    (page page' : Ptr → Fpage) (lo : ℕ) (xs : List Ptr)
    → ((q : Ptr) → has q xs ≡ true → page' q ≡ page q)
    → Spaced page lo xs
    → Spaced page' lo xs
Spaced-frame page page' lo [] same h = h
Spaced-frame page page' lo (p ∷ ps) same (le, al, ge, h) =
    let e : page' p ≡ page p = same p (ground arith) in
    rw e (
      le,
      al,
      ge,
      Spaced-frame page page' ((page p).base + 2 ^ (page p).shift) ps (λ q k. same q (ground arith))
          h,
    )

pub Spaced-lower :
    (page : Ptr → Fpage) (lo lo' : ℕ) (xs : List Ptr)
    → lo' ≤ lo
    → Spaced page lo xs
    → Spaced page lo' xs
Spaced-lower page lo lo' [] le h = omega arith
Spaced-lower page lo lo' (p ∷ ps) le (low, al, ge, rest) = (omega arith, al, ge, rest)

-- Pages that tile an area stand in front of those that begin behind it.
pub Tiles-Spaced :
    (page : Ptr → Fpage) (a : ℕ) (chain : List Ptr) (b : ℕ) (xs : List Ptr)
    → a % 256 ≡ 0
    → Tiles page a chain b
    → Spaced page b xs
    → Spaced page a (chain ++ xs)
Tiles-Spaced page a [] b xs al t h = Spaced-lower page b a xs (omega arith) h
Tiles-Spaced page a (p ∷ chain) b xs al (e, w, ge, t) h = (
  omega arith,
  omega arith,
  ge,
  rw e (
      Tiles-Spaced page (a + 2 ^ (page p).shift) chain b xs
        (omega (arith, pow_multiple (page p).shift ge)) t h),
)

-- The list stands for an address space: its pages are spaced and not free, and no free page is listed
-- twice.
pub record IsSpace (lo : ℕ) (xs : List Ptr) (ps : Pages) : Type 0 where
  pub spaced : Spaced ps.page lo xs
  pub used : (q : Ptr) → has q xs ≡ true → has q ps.free ≡ false
  pub free : distinct ps.free ≡ true

-- What an assignment makes of an address space: it is one again, with all the pages that it had, and
-- pages that are not free stay as they are.
pub record Grown (lo : ℕ) (xs : List Ptr) (ps : Pages) (r : Assigned) : Type 0 where
  pub space : IsSpace lo r.list r.pages
  pub more : (q : Ptr) → has q xs ≡ true → has q r.list ≡ true
  pub kept :
      (q : Ptr)
      → has q ps.free ≡ false
      → (r.pages.page q ≡ ps.page q) × (has q r.pages.free ≡ false)

-- Nothing changes.
pub Grown_same :
    (lo : ℕ) (xs : List Ptr) (ps : Pages) (r : Assigned)
    → IsSpace lo xs ps
    → r.list ≡ xs
    → r.pages ≡ ps
    → Grown lo xs ps r
Grown_same lo xs ps r s e₁ e₂ = record {
  space = rw (e₁, e₂) s;
  more = λ q h. rw e₁ h;
  kept = λ q h. (rw e₂ refl, rw e₂ h);
}

-- A page of the list stands in front of what becomes of the pages behind it.
pub Grown-keep :
    (lo : ℕ) (p : Ptr) (xs : List Ptr) (ps : Pages) (r : Assigned)
    → IsSpace lo (p ∷ xs) ps
    → Grown ((ps.page p).base + 2 ^ (ps.page p).shift) xs ps r
    → Grown lo (p ∷ xs) ps (in_front (p ∷ []) r)
Grown-keep lo p xs ps r s g =
    let (e, gone) = g.kept p (s.used p (ground arith)) in
    let (le, al, ge, rest) = s.spaced in
    record {
      space = record {
        spaced = rw e (le, al, ge, g.space.spaced);
        used = λ q h. elim (Bool-cases (q == p)) [
          | inl same ↦ let i : q ≡ p = ground arith in rw i gone
          | inr other ↦ g.space.used q (ground arith)
        ];
        free = g.space.free;
      };
      more = λ q h. ground (arith, g.more q);
      kept = g.kept;
    }

apart :
    (q : Ptr) (xs ys : List Ptr)
    → distinct (xs ++ ys) ≡ true
    → (has q xs ≡ true → has q ys ≡ false) × (distinct ys ≡ true)
apart q [] ys d = (λ h. ground arith, d)
apart q (x ∷ xs) ys d =
    let (i, j) = apart q xs ys (ground arith) in
    (λ h. ground (arith, has-append x xs ys, Bool-cases (q == x)), j)

-- A chain of new pages stands in front of what becomes of the pages behind it.
pub Grown-fill :
    (lo base size : ℕ) (xs : List Ptr) (ps : Pages) (chain : List Ptr × Pages) (r : Assigned)
    → lo ≤ base
    → base % 256 ≡ 0
    → IsSpace lo xs ps
    → Chained base size ps chain
    → Grown (base + size) xs chain.1 r
    → Grown lo xs ps (in_front chain.0 r)
Grown-fill lo base size xs ps (chain, ps') r le al s c g =
    let new_free : distinct (chain ++ ps'.free) ≡ true = rw c.taken at s.free in
    let now_used : (q : Ptr) → has q chain ≡ true → has q ps'.free ≡ false =
      λ q. (apart q chain ps'.free new_free).0 in
    let before : (q : Ptr) → has q ps.free ≡ (has q chain || has q ps'.free) =
      λ q. ap (has q) c.taken ∙ has-append q chain ps'.free in
    let at_most : base + c.covered ≤ base + size = elim c.complete [
      | inl e ↦ omega arith
      | inr (less, nil) ↦ omega arith
    ] in
    let tiles =
      Tiles-frame ps'.page r.pages.page base chain (base + c.covered)
        (λ q h. (g.kept q (now_used q h)).0) c.tiles in
    record {
      space = record {
        spaced = Spaced-lower r.pages.page base lo (chain ++ r.list) le (
            Tiles-Spaced r.pages.page base chain (base + c.covered) r.list al tiles (
              Spaced-lower r.pages.page (base + size) (base + c.covered) r.list at_most
                g.space.spaced));
        used = λ q h. elim (Bool-cases (has q chain)) [
          | inl new ↦ (g.kept q (now_used q new)).1
          | inr old ↦ g.space.used q (ground (arith, has-append q chain r.list))
        ];
        free = g.space.free;
      };
      more = λ q h. rw (has-append q chain r.list) (ground (arith, g.more q h));
      kept = λ q h. (
        (g.kept q (ground (arith, before q))).0 ∙ c.others q (ground (arith, before q)),
        (g.kept q (ground (arith, before q))).1,
      );
    }

-- The pages of an address space after others were created.
pub IsSpace-created :
    (lo hi base size : ℕ) (xs : List Ptr) (ps : Pages) (chain : List Ptr × Pages)
    → IsSpace lo xs ps
    → Spaced ps.page hi xs
    → Chained base size ps chain
    → IsSpace hi xs chain.1
IsSpace-created lo hi base size xs ps (chain, ps') s h c =
    let before : (q : Ptr) → has q ps.free ≡ (has q chain || has q ps'.free) =
      λ q. ap (has q) c.taken ∙ has-append q chain ps'.free in
    record {
      spaced =
          Spaced-frame ps.page ps'.page hi xs
            (λ q k. c.others q (ground (arith, before q, s.used q k))) h;
      used = λ q k. ground (arith, before q, s.used q k);
      free = (apart 0 chain ps'.free (rw c.taken at s.free)).1;
    }

pub append_nil : (xs : List Ptr) → xs ++ [] ≡ xs
append_nil [] = refl
append_nil (x ∷ xs) = ap (λ ys. x ∷ ys) (append_nil xs)

-- A chain of new pages behind all others.
pub Grown-last :
    (lo base size : ℕ) (ps : Pages) (chain : List Ptr × Pages) (r : Assigned)
    → lo ≤ base
    → base % 256 ≡ 0
    → base + size ≤ 2 ^ 32 - 256
    → IsSpace lo [] ps
    → Chained base size ps chain
    → r.list ≡ chain.0
    → r.pages ≡ chain.1
    → Grown lo [] ps r
Grown-last lo base size ps chain r le al top s c e₁ e₂ =
    let end_ : Assigned = record r { list = [] } in
    let rest : Grown (base + size) [] chain.1 end_ =
      Grown_same (base + size) [] chain.1 end_
        (IsSpace-created lo (base + size) base size [] ps chain s top c) refl e₂ in
    let g = Grown-fill lo base size [] ps chain end_ le al s c rest in
    record {
      space = rw (e₁ ∙ sym (append_nil chain.0)) g.space;
      more = λ q h. absurd (ground arith);
      kept = g.kept;
    }

pub Spaced-top :
    (page : Ptr → Fpage) (lo : ℕ) (xs : List Ptr) → Spaced page lo xs → lo ≤ 2 ^ 32 - 256
Spaced-top page lo [] h = h
Spaced-top page lo (p ∷ ps) (le, al, ge, h) =
    omega (arith, Spaced-top page ((page p).base + 2 ^ (page p).shift) ps h)

-- The pages behind the first one.
pub IsSpace-tail :
    (lo : ℕ) (p : Ptr) (xs : List Ptr) (ps : Pages)
    → IsSpace lo (p ∷ xs) ps
    → IsSpace ((ps.page p).base + 2 ^ (ps.page p).shift) xs ps
IsSpace-tail lo p xs ps s =
    let (le, al, ge, rest) = s.spaced in
    record { spaced = rest; used = λ q h. s.used q (ground arith); free = s.free }

-- A page that is not free stays when others are created.
pub created_kept :
    (base size : ℕ) (ps : Pages) (chain : List Ptr × Pages)
    → Chained base size ps chain
    → (q : Ptr) → has q ps.free ≡ false
    → (chain.1).page q ≡ ps.page q
created_kept base size ps (chain, ps') c q h =
    c.others q (ground (arith, ap (has q) c.taken ∙ has-append q chain ps'.free))

-- The pages of a new chain are not free any more.
pub created_used :
    (base size : ℕ) (ps : Pages) (chain : List Ptr × Pages)
    → distinct ps.free ≡ true
    → Chained base size ps chain
    → (q : Ptr) → has q chain.0 ≡ true
    → has q (chain.1).free ≡ false
created_used base size ps (chain, ps') d c q = (apart q chain ps'.free (rw c.taken at d)).0
