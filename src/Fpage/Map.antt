-- ===== src/Fpage/Map.antt =====
-- kernel/fpage.c: `map_fpage` and `unmap_fpage`. The mappings of a page are a circular list along
-- `map_next`, through the page and its clones in other address spaces.
use f9_kernel.Base.{
  ℕ, zero, suc, ◌+◌, ◌^◌, ◌≤◌, ◌<◌, ◌≡◌, ◌≢◌, refl, ap, sym, ◌∙◌, arith, bit_and, bit_or, Bool,
  true, false, List, [], ◌∷◌, ◌++◌, length, has, erase, last, Option, none, some, ◌==◌,
  if◌then◌else◌, Bool-cases, inl, inr, has-append, length-append, erase_not_mem, last-append,
}
use f9_kernel.Base.Bits.{
  bit, bit_not, bit-le, bit-pow, bit_ext, bit_and-lt, bit_or-lt, bit-bit_and, bit-bit_or,
  bit-bit_not,
}
use Prim.Native.Nat.{min}
use f9_kernel.Tcb.{Ptr}
use f9_kernel.Fpage.{
  Fpage, Pages, fpage_always, fpage_clone, fpage_mapped, write_page, alloc_fpage, insert_free,
  destroy_fpage,
}
use f9_kernel.Fpage.Space.{
  As, insert_behind, insert_fpage_chain_to_as, insert_chain, remove_fpage_from_as,
}

-- What `map_fpage` writes to the new page.
abbrev pub clone_fpage : Fpage → Fpage
clone_fpage p = record p { flags = bit_or fpage_clone (bit_and p.flags fpage_always) }

-- The page `fpage` with its clone `fpmap`, which follows it in the list of mappings.
abbrev pub link_clone : Ptr → Ptr → Bool → Pages → Pages
link_clone fpage fpmap is_map ps =
    let p = ps.page fpage in
    let flags = if is_map then bit_or p.flags fpage_mapped else p.flags in
    write_page fpage (record p { flags = flags; map_next = fpmap })
      (write_page fpmap (clone_fpage (record p { flags = flags })) ps)

abbrev pub map_to : As → Ptr → Bool → Pages → Option (Ptr × Pages) → Bool × As × Pages
map_to dst fpage is_map ps none = (false, dst, ps)
map_to dst fpage is_map ps (some (fpmap, ps₁)) =
    let ps₂ = link_clone fpage fpmap is_map ps₁ in
    (true, insert_chain ps₂.page dst (fpmap ∷ []), ps₂)

-- `map_fpage` to the address space `dst`, for pointers that are not NULL; `is_map` says whether the
-- action is MAP. The first component of the result is whether it returns 0.
unfoldable pub map_fpage : As → Ptr → Bool → Pages → Bool × As × Pages
map_fpage dst fpage is_map ps = map_to dst fpage is_map ps (alloc_fpage ps)

-- The search of `unmap_fpage` for the page before `fpage` with `guard` rounds left; `none` is that the
-- guard ran out.
unfoldable pub find_previous : ℕ → (Ptr → Fpage) → Ptr → Ptr → Option Ptr
find_previous zero page fpage prev = none
find_previous (suc guard) page fpage prev =
    let further = find_previous guard page fpage (page prev).map_next in
    if (page prev).map_next == fpage then some prev else further

-- The rest of `unmap_fpage`: the page leaves the mappings, its address space and the table.
abbrev pub unlink_fpage : As → Ptr → Ptr → Pages → As × Pages
unlink_fpage space fpage prev ps =
    let p = ps.page prev in
    let v : Fpage = record p {
      flags = bit_and p.flags (bit_not 6 fpage_mapped);
      map_next = (ps.page fpage).map_next;
    } in
    (remove_fpage_from_as space fpage, destroy_fpage fpage (write_page prev v ps))

abbrev pub unmap_from : As → Ptr → Pages → Option Ptr → Bool × As × Pages
unmap_from space fpage ps none = (false, space, ps)
unmap_from space fpage ps (some prev) =
    let (space', ps') = unlink_fpage space fpage prev ps in (true, space', ps')

-- `unmap_fpage`; `max` is CONFIG_MAX_FPAGES. The first component of the result is whether it returns 0.
unfoldable pub unmap_fpage : ℕ → As → Ptr → Pages → Bool × As × Pages
unmap_fpage max space fpage ps =
    if bit_and (ps.page fpage).flags fpage_clone == 0
    then (false, space, ps)
    else unmap_from space fpage ps (find_previous max ps.page fpage fpage)

-- A path along `map_next` from `a` through the given pages to `b`.
abbrev pub Mapped : (Ptr → Fpage) → Ptr → List Ptr → Ptr → Type 0
Mapped page a [] b = (page a).map_next ≡ b
Mapped page a (x ∷ xs) b = ((page a).map_next ≡ x) × Mapped page x xs b

find_previous_lem :
    (guard : ℕ) (page : Ptr → Fpage) (fpage a : Ptr) (xs : List Ptr)
    → Mapped page a xs fpage
    → has fpage xs ≡ false
    → length xs < guard
    → find_previous guard page fpage a ≡ some (last a xs)
unfolding find_previous
find_previous_lem zero page fpage a xs m h lt = absurd (omega arith)
find_previous_lem (suc guard) page fpage a [] m h lt = ground arith
find_previous_lem (suc guard) page fpage a (x ∷ xs) (e, m) h lt =
    let further = find_previous_lem guard page fpage x xs m (ground arith) (omega arith) in
    let other : (x == fpage) ≡ false = ground arith in rw (e, other) further

erase-insert_behind :
    (page : Ptr → Fpage) (b : ℕ) (c fp : Ptr) (xs : List Ptr)
    → has c (fp ∷ xs) ≡ false
    → erase c (insert_behind page b (c ∷ []) fp xs) ≡ fp ∷ xs
unfolding insert_behind
erase-insert_behind page b c fp [] h = ground arith
erase-insert_behind page b c fp (x ∷ xs) h =
    ground (arith, erase-insert_behind page b c x xs (ground arith))

-- A page that is inserted into a list and taken out again leaves the list as it was.
erase-insert :
    (page : Ptr → Fpage) (c : Ptr) (xs : List Ptr)
    → has c xs ≡ false
    → erase c (insert_fpage_chain_to_as page xs (c ∷ [])) ≡ xs
unfolding insert_fpage_chain_to_as
erase-insert page c [] h = ground arith
erase-insert page c (fp ∷ xs) h = ground (arith, erase-insert_behind page (page c).base c fp xs h)

Mapped-frame :
    (page page' : Ptr → Fpage) (a : Ptr) (xs : List Ptr) (b : Ptr)
    → ((q : Ptr) → has q (a ∷ xs) ≡ true → (page' q).map_next ≡ (page q).map_next)
    → Mapped page a xs b
    → Mapped page' a xs b
Mapped-frame page page' a [] b same m = same a (ground arith) ∙ m
Mapped-frame page page' a (x ∷ xs) b same (e, m) =
    (same a (ground arith) ∙ e, Mapped-frame page page' x xs b (λ q h. same q (ground arith)) m)

Mapped-snoc :
    (page : Ptr → Fpage) (a : Ptr) (xs : List Ptr) (b c : Ptr)
    → Mapped page a xs b
    → (page b).map_next ≡ c
    → Mapped page a (xs ++ (b ∷ [])) c
Mapped-snoc page a [] b c m e = (m, e)
Mapped-snoc page a (x ∷ xs) b c (i, m) e = (i, Mapped-snoc page x xs b c m e)

-- A path from another page that has the same successor.
Mapped-restart :
    (page page' : Ptr → Fpage) (a a' : Ptr) (xs : List Ptr) (b : Ptr)
    → (page' a').map_next ≡ (page a).map_next
    → ((q : Ptr) → has q xs ≡ true → (page' q).map_next ≡ (page q).map_next)
    → Mapped page a xs b
    → Mapped page' a' xs b
Mapped-restart page page' a a' [] b same rest m = same ∙ m
Mapped-restart page page' a a' (x ∷ xs) b same rest (e, m) =
    (same ∙ e, Mapped-frame page page' x xs b rest m)

-- The page `p` with its mappings `ms`, and an address space that it may be mapped to: none of these
-- pages is free, the mappings form a circle, and the free pages are in order.
pub record Mappable (max : ℕ) (dst : As) (p : Ptr) (ms : List Ptr) (ps : Pages) : Type 0 where
  pub circle : Mapped ps.page p ms p
  pub once : has p ms ≡ false
  pub used : (q : Ptr) → has q (p ∷ ms) ≡ true → has q ps.free ≡ false
  pub apart :
      (q : Ptr) → has q ps.free ≡ true → (has q dst.first ≡ false) × (has q dst.mpu_first ≡ false)
  pub guard : length ms + 2 ≤ max
  pub flags : (ps.page p).flags < 2 ^ 6
  pub unmapped : bit (ps.page p).flags 2 ≡ 0

-- FPAGE_MAPPED is set and cleared again.
clear_mapped :
    (f : ℕ) → f < 2 ^ 6 → bit f 2 ≡ 0 → bit_and (bit_or f fpage_mapped) (bit_not 6 fpage_mapped) ≡ f
clear_mapped f small unset =
    bit_ext 6 _ f (bit_and-lt 6 _ _ (bit_or-lt 6 f 4 small (omega arith))) small λ i lt. ground (
      arith,
      bit-bit_and (bit_or f 4) (bit_not 6 4) i,
      bit-bit_or f 4 i,
      bit-bit_not 6 4 i (omega arith) lt,
      bit-pow 2 i,
      bit-le f i,
      Bool-cases (i == 2),
    )

-- A clone is marked as one.
is_clone : (x : ℕ) → (bit_and (bit_or fpage_clone x) fpage_clone == 0) ≡ false
unfolding bit
is_clone x = elim (Bool-cases (bit_and (bit_or 2 x) 2 == 0)) [
  | inr h ↦ h
  | inl h ↦
      let z : bit_and (bit_or 2 x) 2 ≡ 0 = ground arith in
      let one : bit (bit_and (bit_or 2 x) 2) 1 ≡ min (bit (bit_or 2 x) 1) 1 =
        bit-bit_and (bit_or 2 x) 2 1 in
      absurd (omega (arith, one, ap (λ n. bit n 1) z, bit-bit_or 2 x 1))
]

restored :
    (x y : Fpage) (c next : Ptr)
    → y ≡ record x { flags = bit_or x.flags fpage_mapped; map_next = c }
    → next ≡ x.map_next
    → x.flags < 2 ^ 6
    → bit x.flags 2 ≡ 0
    → record y { flags = bit_and y.flags (bit_not 6 fpage_mapped); map_next = next } ≡ x
restored x y c next e n small unset = rw (e, n, clear_mapped x.flags small unset) refl

module _ {max : ℕ} {dst : As} {p : Ptr} {ms : List Ptr} {ps : Pages} (ok : Mappable max dst p ms ps)
    (c : Ptr) (rest : List Ptr) (e : ps.free ≡ c ∷ rest) where
  ps₁ : Pages
  ps₁ = link_clone p c true (record ps { free = rest })

  new : (p == c) ≡ false
  new = ground (arith, ok.used p (ground arith), ap (has p) e)

  clone_new : has c ms ≡ false
  clone_new = elim (Bool-cases (has c ms)) [
    | inl h ↦ absurd (ground (arith, ok.used c (ground arith), ap (has c) e))
    | inr h ↦ h
  ]

  around : Mapped ps₁.page c (ms ++ (p ∷ [])) c
  unfolding ps₁
  around =
      Mapped-snoc ps₁.page c ms p c
        (Mapped-restart ps.page ps₁.page p c ms p (ground (arith, new)) others ok.circle)
        (ground arith)
    where
      others : (q : Ptr) → has q ms ≡ true → (ps₁.page q).map_next ≡ (ps.page q).map_next
      others q h = ground (arith, ok.once, clone_new, Bool-cases (q == p), Bool-cases (q == c))

  found : find_previous max ps₁.page c c ≡ some p
  unfolding ps₁
  found =
      find_previous_lem max ps₁.page c c (ms ++ (p ∷ [])) around
        (ground (arith, has-append c ms (p ∷ []), clone_new, new))
        (omega (arith, length-append ms (p ∷ []), ok.guard))
      ∙ ap some (last-append c ms p)

-- `unmap_fpage` undoes `map_fpage`: a page that is mapped to an address space and then unmapped from it
-- leaves the address space, the free pages and all pages but the clone as they were, if the page's
-- mappings form a circle shorter than the guard of the search, the free pages are in order, and the
-- page had no other mapping marked by FPAGE_MAPPED.
pub map_unmap :
    {max : ℕ} {dst : As} {p : Ptr} {ms : List Ptr} {ps : Pages}
    → Mappable max dst p ms ps
    → (c : Ptr) (rest : List Ptr) → ps.free ≡ c ∷ rest
    → insert_free c rest ≡ c ∷ rest
    → (dst' : As) × (ps₁ ps₂ : Pages) × (map_fpage dst p true ps ≡ (true, dst', ps₁))
      × (unmap_fpage max dst' c ps₁ ≡ (true, dst, ps₂))
      × (ps₂.free ≡ ps.free)
      × ((q : Ptr) → q ≢ c → ps₂.page q ≡ ps.page q)
unfolding map_fpage unmap_fpage ps₁
map_unmap {max} {dst} {p} {ms} {ps} ok c rest e ordered =
    let ps' = ps₁ ok c rest e in
    let dst' = insert_chain ps'.page dst (c ∷ []) in
    let (space, ps'') = unlink_fpage dst' c p ps' in
    let held = ok.apart c (ground (arith, ap (has c) e)) in
    let clone : (bit_and (ps'.page c).flags fpage_clone == 0) ≡ false =
      ground (arith, new ok c rest e, is_clone (bit_and (bit_or (ps.page p).flags 4) 1)) in
    let back : space ≡ dst =
      rw (erase-insert ps'.page c dst.first held.0, erase_not_mem c dst.mpu_first held.1) refl in
    (
      dst',
      ps',
      ps'',
      rw e refl,
      rw (clone, found ok c rest e) (ap (λ (s : As). (true, s, ps'')) back),
      ordered ∙ sym e,
      λ q ne. elim (Bool-cases (q == p)) [
        | inl same ↦
            let i : q ≡ p = ground arith in
            let self : (p == p) ≡ true = ground arith in
            let next : (ps'.page c).map_next ≡ (ps.page p).map_next =
              ground (arith, new ok c rest e) in
            rw same (
              restored (ps.page p) (ps'.page p) c (ps'.page c).map_next (rw self refl) next ok.flags
                ok.unmapped
              ∙ ap ps.page (sym i))
        | inr other ↦ ground arith
      ],
    )
