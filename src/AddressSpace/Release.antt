-- ===== src/AddressSpace/Release.antt =====
-- References to address spaces, and what becomes of the pages of one that is destroyed.
use f9_kernel.Base.{
  ℕ, ◌+◌, ◌-◌, ◌^◌, ◌%◌, ◌<◌, ◌≡◌, ◌≢◌, refl, ap, sym, ◌∙◌, fun_ext, arith, Bool, true, false, ◌||◌,
  ◌&&◌, inl, inr, List, [], ◌∷◌, ◌==◌, has, bit_and, Bool-cases,
}
use f9_kernel.Tcb.{Ptr, null}
use f9_kernel.Fpage.{Fpage, Pages, fpage_clone, insert_free, destroy_fpage}
use f9_kernel.Fpage.Space.{As}
use f9_kernel.AddressSpace.{
  Spaces, write_space, as_get, release_fpage, release_fpages, as_destroy, as_put,
}

-- No page of the list is a clone.
abbrev pub all_own : (Ptr → Fpage) → List Ptr → Bool
all_own page [] = true
all_own page (p ∷ ps) = (bit_and (page p).flags fpage_clone == 0) && all_own page ps

has-insert_free : (q p : Ptr) (xs : List Ptr) → has q (insert_free p xs) ≡ ((q == p) || has q xs)
has-insert_free q p [] = ground arith
has-insert_free q p (x ∷ xs) = ground (arith, has-insert_free q p xs)

-- The loop of `as_destroy` on pages of which none is a clone.
release :
    (max : ℕ) (xs : List Ptr) (space : As) (ps : Pages)
    → all_own ps.page xs ≡ true
    → (ps' : Pages) × (release_fpages max xs space ps ≡ (space, ps'))
      × (ps'.page ≡ ps.page)
      × ((q : Ptr) → has q ps'.free ≡ (has q xs || has q ps.free))
unfolding release_fpages release_fpage
release max [] space ps own = (ps, refl, refl, λ q. refl)
release max (fp ∷ rest) space ps own =
    let here : (bit_and (ps.page fp).flags fpage_clone == 0) ≡ true = ground arith in
    let (ps', run, same, free) = release max rest space (destroy_fpage fp ps) (ground arith) in
    (ps', rw here run, same, λ q. ground (arith, free q, has-insert_free q fp ps.free))

-- What a destroyed address space leaves behind.
pub record Destroyed (p : Ptr) (xs : List Ptr) (s s' : Spaces) : Type 0 where
  pub pages : s'.pages.page ≡ s.pages.page
  pub spaces : s'.free_spaces ≡ insert_free p s.free_spaces
  pub free : (q : Ptr) → has q s'.pages.free ≡ (has q xs || has q s.pages.free)

as_destroy-Destroyed :
    (max : ℕ) (p : Ptr) (s : Spaces)
    → all_own s.pages.page (s.space p).first ≡ true
    → Destroyed p (s.space p).first s (as_destroy max p s)
unfolding as_destroy
as_destroy-Destroyed max p s own =
    let (ps', run, same, free) = release max (s.space p).first (s.space p) s.pages own in
    record { pages = rw run same; spaces = refl; free = λ q. rw run (free q) }

read_written : (p : Ptr) (v : As) (s : Spaces) → (write_space p v s).space p ≡ v
read_written p v s = let self : (p == p) ≡ true = ground arith in rw self refl

write_twice :
    (p : Ptr) (v w : As) (s : Spaces) → write_space p v (write_space p w s) ≡ write_space p v s
write_twice p v w s =
    ap (λ (f : Ptr → As). record s { space = f })
      (fun_ext λ q. elim (Bool-cases (q == p)) [ inl h ↦ rw h refl | inr h ↦ rw h refl ])

write_same : (p : Ptr) (s : Spaces) → write_space p (s.space p) s ≡ s
write_same p s =
    ap (λ (f : Ptr → As). record s { space = f })
      (fun_ext λ q. elim (Bool-cases (q == p)) [
        | inl h ↦ let e : q ≡ p = ground arith in rw h (ap s.space (sym e))
        | inr h ↦ rw h refl
      ])

-- When the last reference to an address space without clones is put, all its pages and no others go
-- back to the table of pages, the address space goes back to its own table, and no page is changed.
pub as_put-Destroyed :
    (max : ℕ) (p : Ptr) (s : Spaces)
    → p ≢ null
    → (s.space p).shared ≡ 1
    → all_own s.pages.page (s.space p).first ≡ true
    → Destroyed p (s.space p).first s (as_put max p s)
unfolding as_put
as_put-Destroyed max p s ne one own =
    let s' = write_space p (record (s.space p) { shared = 0 }) s in
    let first : (s'.space p).first ≡ (s.space p).first =
      ap (λ (v : As). v.first) (read_written p (record (s.space p) { shared = 0 }) s) in
    let d = as_destroy-Destroyed max p s' (rw first own) in
    let there : (p == null) ≡ false = ground arith in
    rw (there, one)
      (record {
        pages = d.pages;
        spaces = d.spaces;
        free = λ q. d.free q ∙ ap (λ xs. has q xs || has q s.pages.free) first;
      })

get_lem :
    (p : Ptr) (s : Spaces)
    → (p == null) ≡ false
    → (s.space p).shared + 1 < 2 ^ 32
    → as_get p s ≡ write_space p (record (s.space p) { shared = (s.space p).shared + 1 }) s
unfolding as_get
get_lem p s ne small =
    let same : ((s.space p).shared + 1) % 2 ^ 32 ≡ (s.space p).shared + 1 = omega arith in
    rw (ne, same) refl

put_lem :
    (max : ℕ) (p : Ptr) (s : Spaces)
    → (p == null) ≡ false
    → 1 < (s.space p).shared
    → as_put max p s ≡ write_space p (record (s.space p) { shared = (s.space p).shared - 1 }) s
unfolding as_put
put_lem max p s ne more =
    let some_now : ((s.space p).shared == 0) ≡ false = ground arith in
    let some_left : ((s.space p).shared - 1 == 0) ≡ false = ground arith in
    rw (ne, some_now, some_left) refl

-- A reference that is taken and put again leaves everything as it was, as long as the count does not
-- wrap around.
pub as_put-as_get :
    (max : ℕ) (p : Ptr) (s : Spaces)
    → p ≢ null
    → 0 < (s.space p).shared
    → (s.space p).shared + 1 < 2 ^ 32
    → as_put max p (as_get p s) ≡ s
as_put-as_get max p s ne pos small =
    let there : (p == null) ≡ false = ground arith in
    let v : As = record (s.space p) { shared = (s.space p).shared + 1 } in
    let s' = write_space p v s in
    let read : s'.space p ≡ v = read_written p v s in
    let more : 1 < (s'.space p).shared = rw read (omega arith) in
    let less : (s.space p).shared + 1 - 1 ≡ (s.space p).shared = omega arith in
    let back : record (s'.space p) { shared = (s'.space p).shared - 1 } ≡ s.space p =
      rw (read, less) refl in
    ap (as_put max p) (get_lem p s there small)
    ∙ put_lem max p s' there more
    ∙ ap (λ (x : As). write_space p x s') back
    ∙ write_twice p (s.space p) v s
    ∙ write_same p s
