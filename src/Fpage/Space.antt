-- ===== src/Fpage/Space.antt =====
-- kernel/fpage.c: operations on the list of flexible pages of an address space, `as->first` along
-- `as_next`, and on the list `as->mpu_first` along `mpu_next`.
use f9_kernel.Base.{
  ℕ, ◌+◌, ◌-◌, ◌^◌, ◌%◌, Bool, true, false, not, ◌||◌, List, [], ◌∷◌, ◌++◌, last, erase, Option,
  none, some, ◌==◌, ltb, leb, if◌then◌else◌,
}
use f9_kernel.Tcb.{Ptr, null}
use f9_kernel.Memory.{Mempool, has_fpages, mempool_align, mempool_align_base, mempool_search}
use f9_kernel.Fpage.{Fpage, Pages, fpage_end, destroy_fpage, create_fpage_chain}

-- `as_t`
pub record As : Type 0 where
  pub as_spaceid : ℕ
  pub first : List Ptr
  pub mpu_first : List Ptr
  pub mpu_stack_first : Ptr
  pub shared : ℕ

abbrev pub is_nil : List Ptr → Bool
is_nil [] = true
is_nil (p ∷ ps) = false

-- The first and the last page of a chain; `null` if there is none.
abbrev pub first_of : List Ptr → Ptr
first_of [] = null
first_of (p ∷ ps) = p

abbrev pub last_of : List Ptr → Ptr
last_of [] = null
last_of (p ∷ ps) = last p ps

-- The search of `insert_fpage_chain_to_as` behind the page `fp`, for a chain whose last page has the
-- base `b`.
unfoldable pub insert_behind : (Ptr → Fpage) → ℕ → List Ptr → Ptr → List Ptr → List Ptr
insert_behind page b chain fp [] = fp ∷ chain
insert_behind page b chain fp (next ∷ rest) =
    let further = insert_behind page b chain next rest in
    if ltb b (page next).base then fp ∷ (chain ++ (next ∷ rest)) else fp ∷ further

-- `insert_fpage_chain_to_as`
unfoldable pub insert_fpage_chain_to_as : (Ptr → Fpage) → List Ptr → List Ptr → List Ptr
insert_fpage_chain_to_as page [] chain = chain
insert_fpage_chain_to_as page (fp ∷ rest) chain =
    let b = (page (last_of chain)).base in
    if is_nil chain
    then fp ∷ rest
    else if ltb b (page fp).base
    then chain ++ (fp ∷ rest)
    else insert_behind page b chain fp rest

abbrev pub insert_chain : (Ptr → Fpage) → As → List Ptr → As
insert_chain page space chain = record space {
  first = insert_fpage_chain_to_as page space.first chain;
}

-- `remove_fpage_from_as`; `remove_fpage_from_list` takes the page out of a list if it is there.
abbrev pub remove_fpage_from_as : As → Ptr → As
remove_fpage_from_as space fp = record space {
  first = erase fp space.first;
  mpu_first = erase fp space.mpu_first;
}

-- `free_fpage_chain`
abbrev pub free_fpage_chain : List Ptr → Pages → Pages
free_fpage_chain [] ps = ps
free_fpage_chain (p ∷ chain) ps = free_fpage_chain chain (destroy_fpage p ps)

-- The point of `split_fpage` after it was rounded: down for the right side, up for the left one.
abbrev pub split_point : List Mempool → ℕ → ℕ → Bool → ℕ
split_point memmap mpid split rl =
    if rl then mempool_align_base memmap mpid split else mempool_align memmap mpid split

-- What `split_fpage` does with the two chains that it created.
abbrev pub replace_fpage : As → Ptr → List Ptr → List Ptr → Bool → Pages → Ptr × As × Pages
replace_fpage space fpage left right rl ps =
    let ps' = destroy_fpage fpage ps in
    let space₁ = insert_chain ps'.page (remove_fpage_from_as space fpage) left in
    if is_nil left || is_nil right
    then (null, space, free_fpage_chain right (free_fpage_chain left ps))
    else (if rl then first_of right else last_of left, insert_chain ps'.page space₁ right, ps')

-- `split_fpage` for pointers that are not NULL; the first component of the result is what it returns.
unfoldable pub split_fpage : List Mempool → As → Ptr → ℕ → Bool → Pages → Ptr × As × Pages
split_fpage memmap space fpage split rl ps =
    let p = ps.page fpage in
    let end_ = fpage_end p in
    let at = split_point memmap p.mpid split rl in
    let (left, ps₁) = create_fpage_chain memmap p.base (at - p.base) p.mpid ps in
    let (right, ps₂) = create_fpage_chain memmap at (end_ - at) p.mpid ps₁ in
    if leb at p.base || leb end_ at
    then (fpage, space, ps)
    else if not (p.map_next == fpage)
    then (null, space, ps)
    else replace_fpage space fpage left right rl ps₂

-- The result of `assign_fpages_ext`: whether it returns 0, the list of the address space, `*pfirst`
-- and `*plast`, and the pages.
pub record Assigned : Type 0 where
  pub returns : Bool
  pub list : List Ptr
  pub pfirst : Ptr
  pub plast : Ptr
  pub pages : Pages

-- The result with pages in front of the list.
abbrev pub in_front : List Ptr → Assigned → Assigned
in_front chain r = record r { list = chain ++ r.list }

-- `*pfirst` after pages from `p` on are assigned.
abbrev pub keep_first : Ptr → Ptr → Ptr
keep_first pfirst p = if pfirst == null then p else pfirst

-- A chain of pages is linked behind the list, unless none was created.
unfoldable pub close_chain : Ptr → Ptr → List Ptr × Pages → Pages → Assigned
close_chain pfirst plast (chain, ps') ps =
    let stay : Assigned = record {
      returns = true;
      list = [];
      pfirst = pfirst;
      plast = plast;
      pages = ps;
    } in
    let linked : Assigned = record {
      returns = true;
      list = chain;
      pfirst = keep_first pfirst (first_of chain);
      plast = last_of chain;
      pages = ps';
    } in
    if is_nil chain then stay else linked

-- The code of `assign_fpages_ext` that follows the loop.
unfoldable pub assign_rest : List Mempool → ℕ → ℕ → ℕ → Ptr → Ptr → Pages → Assigned
assign_rest memmap mpid base end_ pfirst plast ps =
    let abase = mempool_align memmap mpid base in
    let aend = mempool_align memmap mpid end_ in
    let stay : Assigned = record {
      returns = true;
      list = [];
      pfirst = pfirst;
      plast = plast;
      pages = ps;
    } in
    if ltb base end_
    then (if ltb abase aend
        then close_chain pfirst plast (create_fpage_chain memmap abase (aend - abase) mpid ps) ps
        else stay)
    else stay

-- The rest of the loop of `assign_fpages_ext`: from a base, `*pfirst`, `*plast` and the pages.
abbrev pub More : Type 0
More = ℕ → Ptr → Ptr → Pages → Assigned

-- The branch of the loop that creates pages in the gap before the page `fp`, from `abase` to `aend`.
unfoldable pub assign_gap :
    List Mempool → ℕ → ℕ → ℕ → Ptr → Ptr → Ptr → List Ptr → Pages → More → Assigned
assign_gap memmap mpid abase aend pfirst plast fp rest ps more =
    let p = ps.page fp in
    let (chain, ps') = create_fpage_chain memmap abase (aend - abase) mpid ps in
    let fails : Assigned = record {
      returns = false;
      list = fp ∷ rest;
      pfirst = pfirst;
      plast = plast;
      pages = ps;
    } in
    if leb aend abase
    then in_front (fp ∷ []) (more p.base pfirst plast ps)
    else if is_nil chain
    then fails
    else in_front chain (
        in_front (fp ∷ [])
          (more (fpage_end p) (keep_first pfirst (first_of chain)) (last_of chain) ps'))

-- One round of the loop, at the page `fp`.
unfoldable pub assign_step :
    List Mempool → ℕ → ℕ → ℕ → Ptr → Ptr → Ptr → List Ptr → Pages → More → Assigned
assign_step memmap mpid base end_ pfirst plast fp rest ps more =
    let p = ps.page fp in
    let stop = if ltb end_ p.base then end_ else p.base in
    let stay : Assigned = record {
      returns = true;
      list = fp ∷ rest;
      pfirst = pfirst;
      plast = plast;
      pages = ps;
    } in
    if leb end_ base
    then stay
    else if ltb base p.base
    then assign_gap memmap mpid (mempool_align memmap mpid base) (mempool_align memmap mpid stop)
        pfirst plast fp rest ps more
    else if ltb base (fpage_end p)
    then in_front (fp ∷ []) (more (fpage_end p) (keep_first pfirst fp) fp ps)
    else in_front (fp ∷ []) (more base pfirst plast ps)

-- The loop of `assign_fpages_ext` at the rest of the list.
unfoldable pub assign_loop : List Mempool → ℕ → ℕ → ℕ → Ptr → Ptr → List Ptr → Pages → Assigned
assign_loop memmap mpid base end_ pfirst plast [] ps =
    assign_rest memmap mpid base end_ pfirst plast ps
assign_loop memmap mpid base end_ pfirst plast (fp ∷ rest) ps =
    assign_step memmap mpid base end_ pfirst plast fp rest ps
      λ b first last ps'. assign_loop memmap mpid b end_ first last rest ps'

-- `assign_fpages_ext` with an address space, from the choice of the pool on.
unfoldable pub assign_in_pool : List Mempool → ℕ → List Ptr → ℕ → ℕ → Ptr → Ptr → Pages → Assigned
assign_in_pool memmap mpid list base size pfirst plast ps =
    let end_ = (base + size) % 2 ^ 32 in
    let fails : Assigned = record {
      returns = false;
      list = list;
      pfirst = pfirst;
      plast = plast;
      pages = ps;
    } in
    if not (has_fpages memmap mpid)
    then fails
    else if ltb end_ base
    then fails
    else assign_loop memmap mpid base end_ pfirst plast list ps

-- The pool that `assign_fpages_ext` uses: the one given, or, for -1, the one that it searches.
abbrev pub choose_pool : List Mempool → Option ℕ → ℕ → ℕ → Option ℕ
choose_pool memmap (some mpid) base size = some mpid
choose_pool memmap none base size = mempool_search memmap base size

unfoldable pub assign_found :
    List Mempool → Option ℕ → List Ptr → ℕ → ℕ → Ptr → Ptr → Pages → Assigned
assign_found memmap (some mpid) list base size pfirst plast ps =
    assign_in_pool memmap mpid list base size pfirst plast ps
assign_found memmap none list base size pfirst plast ps = record {
  returns = false;
  list = list;
  pfirst = pfirst;
  plast = plast;
  pages = ps;
}

-- `assign_fpages_ext` with an address space; an `mpid` of -1 is `none`.
unfoldable pub assign_fpages_ext :
    List Mempool → Option ℕ → List Ptr → ℕ → ℕ → Ptr → Ptr → Pages → Assigned
assign_fpages_ext memmap mpid list base size pfirst plast ps =
    let fails : Assigned = record {
      returns = false;
      list = list;
      pfirst = pfirst;
      plast = plast;
      pages = ps;
    } in
    if size == 0
    then fails
    else assign_found memmap (choose_pool memmap mpid base size) list base size pfirst plast ps

-- `assign_fpages`
unfoldable pub assign_fpages : List Mempool → As → ℕ → ℕ → Pages → Bool × As × Pages
assign_fpages memmap space base size ps =
    let r = assign_fpages_ext memmap none space.first base size null null ps in
    (r.returns, record space { first = r.list }, r.pages)
