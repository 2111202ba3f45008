-- ===== src/AddressSpace/MapArea.antt =====
-- kernel/memory.c: `map_area`, which maps an area of one address space into another. The address
-- spaces are not NULL.
use f9_kernel.Base.{
  ℕ, ◌+◌, ◌-◌, ◌^◌, ◌%◌, Bool, true, false, not, ◌&&◌, ◌||◌, List, [], ◌∷◌, Option, none, some, ltb,
  leb, ◌==◌, if◌then◌else◌,
}
use f9_kernel.Tcb.{Ptr, null}
use f9_kernel.Memory.{Mempool}
use f9_kernel.Fpage.{Fpage, Pages, fpage_end}
use f9_kernel.Fpage.Space.{As, split_fpage, Assigned, assign_fpages_ext}
use f9_kernel.Fpage.Map.{map_fpage}
use f9_kernel.AddressSpace.{Spaces, write_space}

-- `addr_in_fpage`
abbrev pub addr_in_fpage : ℕ → Fpage → Bool → Bool
addr_in_fpage addr p incl_end =
    (leb p.base addr && ltb addr (fpage_end p)) || (incl_end && (addr == fpage_end p))

-- The loop that looks for the first and the last page of an area that is not privileged; `none` is the
-- return value -1.
unfoldable pub find_range : (Ptr → Fpage) → ℕ → ℕ → ℕ → Ptr → List Ptr → Option (Ptr × Ptr)
find_range page base end_ probe first [] = some (first, null)
find_range page base end_ probe first (fp ∷ rest) =
    let p = page fp in
    let first' = if (first == null) && addr_in_fpage base p false then fp else first in
    let probe' = if first' == null then probe else (probe + 2 ^ p.shift) % 2 ^ 32 in
    let further = find_range page base end_ probe' first' rest in
    if addr_in_fpage end_ p true
    then some (first', fp)
    else if not (first' == null) && not (addr_in_fpage probe p true)
    then none
    else further

-- The search for the last page again, after the first one was split.
unfoldable pub find_last : (Ptr → Fpage) → ℕ → Ptr → List Ptr → Ptr
find_last page end_ last [] = last
find_last page end_ last (fp ∷ rest) =
    if addr_in_fpage end_ (page fp) true then fp else find_last page end_ last rest

-- The list from a page on.
unfoldable pub from_page : Ptr → List Ptr → List Ptr
from_page fp [] = []
from_page fp (x ∷ xs) = if x == fp then x ∷ xs else from_page fp xs

-- The loop that maps the pages up to the last one.
unfoldable pub map_pages : Ptr → List Ptr → Bool → As → Pages → Bool × As × Pages
map_pages last [] is_map dst ps = (false, dst, ps)
map_pages last (fp ∷ rest) is_map dst ps =
    let (done, dst', ps') = map_fpage dst fp is_map ps in
    let further = map_pages last rest is_map dst' ps' in
    if not done then (false, dst', ps') else if fp == last then (true, dst', ps') else further

abbrev pub map_chain : Ptr → Ptr → Ptr → Ptr → Bool → Spaces → Bool × Spaces
map_chain src dst first last is_map s =
    let pages = from_page first (s.space src).first in
    let (done, space, ps) = map_pages last pages is_map (s.space dst) s.pages in
    (done, record (write_space dst space s) { pages = ps })

-- `map_area` from the first and the last page on.
unfoldable pub map_range :
    List Mempool → Ptr → Ptr → ℕ → ℕ → Bool → Ptr → Ptr → Spaces → Bool × Spaces
map_range memmap src dst base end_ is_map first last s =
    let (first', space, ps) = split_fpage memmap (s.space src) first base true s.pages in
    let last' =
      if first == last then find_last ps.page end_ last (from_page first' space.first) else last in
    let (last'', space', ps') = split_fpage memmap space last' end_ false ps in
    let s' = record (write_space src space' s) { pages = ps' } in
    if (last == null) || (first == null)
    then (false, s)
    else if (last'' == null) || (first' == null)
    then (false, s')
    else map_chain src dst first' last'' is_map s'

abbrev pub with_pages : Ptr → Assigned → Spaces → Spaces
with_pages src r s = record (write_space src (record (s.space src) { first = r.list }) s) {
  pages = r.pages;
}

abbrev pub map_found :
    List Mempool → Ptr → Ptr → ℕ → ℕ → Bool → Option (Ptr × Ptr) → Spaces → Bool × Spaces
map_found memmap src dst base end_ is_map none s = (false, s)
map_found memmap src dst base end_ is_map (some (first, last)) s =
    map_range memmap src dst base end_ is_map first last s

-- `map_area`; `is_map` says whether the action is MAP, and the first component of the result whether
-- it returns 0.
unfoldable pub map_area : List Mempool → Ptr → Ptr → ℕ → ℕ → Bool → Bool → Spaces → Bool × Spaces
unfolding map_range
map_area memmap src dst base size is_map is_privileged s =
    let end_ = (base + size) % 2 ^ 32 in
    let list = (s.space src).first in
    let r = assign_fpages_ext memmap none list base size null null s.pages in
    let s₁ = with_pages src r s in
    let range = find_range s.pages.page base end_ base null list in
    if ltb 0 size && ltb (2 ^ 32 - size) base
    then (false, s)
    else if is_privileged
    then (if not r.returns
        then (false, s₁)
        else if src == dst
        then (true, s₁)
        else map_range memmap src dst base end_ is_map r.pfirst r.plast s₁)
    else if src == dst
    then (true, s)
    else map_found memmap src dst base end_ is_map range s
