-- ===== src/Fpage.antt =====
-- kernel/fpage.c and include/fpage.h: flexible pages. The pages are a function from pointer to page;
-- a chain along `as_next` or `mpu_next` is the list of its pages, and of `fpage_table` the addresses
-- of the free elements are kept, the lowest first. CONFIG_LARGEST_FPAGE_SHIFT is 16; the count of
-- allocations, which only debug output reads, is left out.
pub mod Insert
pub mod Log2
pub mod Assign
pub mod Chain
pub mod Cover
pub mod Map
pub mod Space
pub mod Spaced
pub mod Split
mod Tests
use f9_kernel.Base.{
  ℕ, zero, suc, ◌+◌, ◌-◌, ◌/◌, ◌%◌, ◌^◌, bit_and, bit_or, Bool, true, false, not, ◌&&◌, ◌||◌, List,
  [], ◌∷◌, ◌++◌, Option, none, some, ◌==◌, ltb, leb, if◌then◌else◌,
}
use f9_kernel.Tcb.{Ptr, null}
use f9_kernel.Memory.{Mempool, flags_at, mp_map_always}

-- `fpage_t` without `as_next` and `mpu_next`.
pub record Fpage : Type 0 where
  pub base : ℕ
  pub mpid : ℕ
  pub flags : ℕ
  pub shift : ℕ
  pub rwx : ℕ
  pub map_next : Ptr

-- The pages with `fpage_table`.
pub record Pages : Type 0 where
  pub page : Ptr → Fpage
  pub free : List Ptr

-- FPAGE_ALWAYS, FPAGE_CLONE, FPAGE_MAPPED
abbrev pub fpage_always : ℕ
fpage_always = 1

abbrev pub fpage_clone : ℕ
fpage_clone = 2

abbrev pub fpage_mapped : ℕ
fpage_mapped = 4

-- CONFIG_LARGEST_FPAGE_SHIFT
abbrev pub largest_fpage_shift : ℕ
largest_fpage_shift = 16

-- FPAGE_END; a page may end at 2^32.
abbrev pub fpage_end : Fpage → ℕ
fpage_end p = (p.base + 2 ^ p.shift) % 2 ^ 32

abbrev pub write_page : Ptr → Fpage → Pages → Pages
write_page p v ps = record ps { page = λ q. if q == p then v else ps.page q }

-- The loop of `fp_addr_log2`; a word that is not 0 has its lowest bit within 32 rounds.
unfoldable pub trailing_zeros : ℕ → ℕ → ℕ
trailing_zeros zero addr = 0
trailing_zeros (suc n) addr =
    let rest = trailing_zeros n (addr / 2) in if addr % 2 == 0 then suc rest else 0

-- `fp_addr_log2`
unfoldable pub fp_addr_log2 : ℕ → ℕ
fp_addr_log2 addr = if addr == 0 then largest_fpage_shift else trailing_zeros 32 addr

-- The loop of `fp_size_log2`; 32 rounds are enough for a word.
unfoldable pub halvings : ℕ → ℕ → ℕ
halvings zero size = 0
halvings (suc n) size = let rest = halvings n (size / 2) in if ltb 1 size then suc rest else 0

-- `fp_size_log2`
unfoldable pub fp_size_log2 : ℕ → ℕ
fp_size_log2 size = if size == 0 then 0 else halvings 32 size

-- `ktable_alloc(&fpage_table)` takes the lowest free element.
abbrev pub alloc_fpage : Pages → Option (Ptr × Pages)
alloc_fpage ps = elim (ps.free) [ [] ↦ none | p ∷ rest ↦ some (p, record ps { free = rest }) ]

abbrev pub insert_free : Ptr → List Ptr → List Ptr
insert_free p [] = p ∷ []
insert_free p (q ∷ qs) = let rest = insert_free p qs in if ltb p q then p ∷ q ∷ qs else q ∷ rest

-- `destroy_fpage`
abbrev pub destroy_fpage : Ptr → Pages → Pages
destroy_fpage p ps = record ps { free = insert_free p ps.free }

-- MP_USER_PERM
abbrev pub user_perm : ℕ → ℕ
user_perm flags = bit_and flags 240 / 2 ^ 4

-- What `create_fpage` writes to a new page.
abbrev pub new_fpage : List Mempool → ℕ → ℕ → ℕ → Ptr → Fpage
new_fpage memmap base shift mpid p =
    let mflags = flags_at memmap mpid in
    record {
      base = base;
      mpid = mpid % 2 ^ 6;
      flags = if bit_and mflags mp_map_always == 0 then 0 else fpage_always;
      shift = shift;
      rwx = user_perm mflags;
      map_next = p;
    }

-- `create_fpage`
unfoldable pub create_fpage : List Mempool → ℕ → ℕ → ℕ → Pages → Option (Ptr × Pages)
create_fpage memmap base shift mpid ps = elim (alloc_fpage ps) [
  | none ↦ none
  | some (p, ps') ↦ some (p, write_page p (new_fpage memmap base shift mpid p) ps')
]

-- The shift of the next page in `create_fpage_chain`: the smaller of what the base's alignment and
-- the size allow.
unfoldable pub chain_shift : ℕ → ℕ → ℕ
chain_shift base size =
    let bshift = fp_addr_log2 base in
    let sshift = fp_size_log2 size in if ltb bshift sshift then bshift else sshift

-- The rest of a round: the chain is left incomplete if no page was created, and the page heads what
-- the further rounds give.
unfoldable pub chain_next :
    Option (Ptr × Pages) → Pages → (Pages → List Ptr × Pages) → List Ptr × Pages
chain_next none ps more = ([], ps)
chain_next (some (p, ps')) ps more = (p ∷ (more ps').0, (more ps').1)

-- The loop of `create_fpage_chain` with at most `fuel` rounds.
unfoldable pub chain_loop : ℕ → List Mempool → ℕ → ℕ → ℕ → Pages → List Ptr × Pages
chain_loop zero memmap base size mpid ps = ([], ps)
chain_loop (suc fuel) memmap base zero mpid ps = ([], ps)
chain_loop (suc fuel) memmap base (suc n) mpid ps =
    let shift = chain_shift base (suc n) in
    chain_next (create_fpage memmap base shift mpid ps) ps
      (chain_loop fuel memmap ((base + 2 ^ shift) % 2 ^ 32) (suc n - 2 ^ shift) mpid)

-- `create_fpage_chain` for `*pfirst` and `*plast` that are NULL: they are the ends of the chain. Each
-- round takes off a part of the size, so that as many rounds as the size are enough.
unfoldable pub create_fpage_chain : List Mempool → ℕ → ℕ → ℕ → Pages → List Ptr × Pages
create_fpage_chain memmap base size mpid ps = chain_loop size memmap base size mpid ps
