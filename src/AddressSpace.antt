-- ===== src/AddressSpace.antt =====
-- kernel/memory.c: the life of address spaces. The table `as_table` is the list of its free elements,
-- the lowest first, and the address spaces a function from pointer to `as_t`. Interrupts are disabled
-- around the changes of the count of references, so that each operation is one step.
pub mod MapArea
pub mod Release
mod Tests
use f9_kernel.Base.{ℕ, ◌+◌, ◌-◌, ◌^◌, ◌%◌, bit_and, Bool, List, [], ◌∷◌, ◌==◌, if◌then◌else◌}
use f9_kernel.Tcb.{Ptr, null}
use f9_kernel.Fpage.{Pages, fpage_clone, insert_free, destroy_fpage}
use f9_kernel.Fpage.Space.{As}
use f9_kernel.Fpage.Map.{unmap_fpage}

-- The address spaces with `as_table` and the flexible pages.
pub record Spaces : Type 0 where
  pub space : Ptr → As
  pub free_spaces : List Ptr
  pub pages : Pages

abbrev pub write_space : Ptr → As → Spaces → Spaces
write_space p v s = record s { space = λ q. if q == p then v else s.space q }

-- What `as_create` writes to a new address space.
abbrev pub new_space : ℕ → As
new_space as_spaceid = record {
  as_spaceid = as_spaceid;
  first = [];
  mpu_first = [];
  mpu_stack_first = null;
  shared = 1;
}

-- `as_create`; the first component of the result is what it returns.
unfoldable pub as_create : ℕ → Spaces → Ptr × Spaces
as_create as_spaceid s = elim (s.free_spaces) [
  | [] ↦ (null, s)
  | p ∷ rest ↦ (p, write_space p (new_space as_spaceid) (record s { free_spaces = rest }))
]

-- `as_get`
unfoldable pub as_get : Ptr → Spaces → Spaces
as_get p s =
    let v = s.space p in
    if p == null then s else write_space p (record v { shared = (v.shared + 1) % 2 ^ 32 }) s

-- One round of the loop in `as_destroy`: a clone is unmapped, another page goes back to the table.
-- `max` is CONFIG_MAX_FPAGES.
unfoldable pub release_fpage : ℕ → Ptr → As → Pages → As × Pages
release_fpage max fp space ps =
    if bit_and (ps.page fp).flags fpage_clone == 0
    then (space, destroy_fpage fp ps)
    else ((unmap_fpage max space fp ps).1, (unmap_fpage max space fp ps).2)

-- The loop of `as_destroy` over the pages of the address space.
unfoldable pub release_fpages : ℕ → List Ptr → As → Pages → As × Pages
release_fpages max [] space ps = (space, ps)
release_fpages max (fp ∷ rest) space ps =
    let (space', ps') = release_fpage max fp space ps in release_fpages max rest space' ps'

-- `as_destroy`
unfoldable pub as_destroy : ℕ → Ptr → Spaces → Spaces
as_destroy max p s =
    let (v, ps) = release_fpages max (s.space p).first (s.space p) s.pages in
    record (write_space p v s) { free_spaces = insert_free p s.free_spaces; pages = ps }

-- `as_put`
unfoldable pub as_put : ℕ → Ptr → Spaces → Spaces
as_put max p s =
    let v = s.space p in
    let s' = write_space p (record v { shared = v.shared - 1 }) s in
    if p == null
    then s
    else if v.shared == 0
    then s
    else if v.shared - 1 == 0
    then as_destroy max p s'
    else s'
