-- ===== src/Fpage/Tests.antt =====
-- Runs on a few flexible pages.
use f9_kernel.Base.{some, ℕ, ◌+◌, ◌≡◌, ◌≢◌, refl, arith, true, List, [], ◌∷◌, none, map, ◌++◌}
use f9_kernel.Base.Bits.{bit-zero}
use f9_kernel.Tcb.{Ptr, null}
use f9_kernel.Memory.{Mempool, available}
use f9_kernel.Fpage.{
  Fpage, Pages, trailing_zeros, fp_addr_log2, halvings, fp_size_log2, create_fpage, chain_shift,
  chain_next, chain_loop, create_fpage_chain,
}
use f9_kernel.Fpage.Chain.{Chained, create_fpage_chain-Chained}
use f9_kernel.Fpage.Spaced.{IsSpace, Grown}
use f9_kernel.Fpage.Cover.{Covers, assign_fpages_ext-Covers}
use f9_kernel.Fpage.Assign.{assign_fpages_ext-Grown}
use f9_kernel.Fpage.Split.{Replaced, split_fpage-Replaced}
use f9_kernel.Fpage.Map.{map_fpage, unmap_fpage, Mappable, map_unmap}
use f9_kernel.Fpage.Space.{
  choose_pool, split_point, As, close_chain, assign_rest, assign_gap, assign_step, assign_loop,
  assign_in_pool, assign_found, assign_fpages_ext,
}
use f9_kernel.Memory.{
  addr_align_down, mempool_align_base, addr_align_up, mempool_align, search_from, mempool_search,
}

-- One pool of SRAM that user threads may read and write.
abbrev pools : List Mempool
pools = record { start = 0x20000000; end_ = 0x20018000; flags = 0x0130; tag = available } ∷ []

abbrev no_page : Fpage
no_page = record { base = 0; mpid = 0; flags = 0; shift = 0; rwx = 0; map_next = 0 }

abbrev fresh_pages : Pages
fresh_pages = record { page = λ p. no_page; free = 1 ∷ 2 ∷ 3 ∷ 4 ∷ 5 ∷ [] }

abbrev ends : Pages → Ptr → ℕ × ℕ
ends ps p = ((ps.page p).base, (ps.page p).shift)

chain_run :
    map
      (ends ((create_fpage_chain pools 0x20000100 0x700 0 fresh_pages).1))
      (create_fpage_chain pools 0x20000100 0x700 0 fresh_pages).0
    ≡ (0x20000100, 8) ∷ (0x20000200, 9) ∷ (0x20000400, 10) ∷ []
unfolding create_fpage_chain chain_loop chain_next create_fpage chain_shift fp_addr_log2
    fp_size_log2 trailing_zeros halvings
chain_run = refl

-- A page of 256 bytes at 0x20000100.
abbrev one_page : Pages
one_page = record {
  page = λ p. record { base = 0x20000100; mpid = 0; flags = 0; shift = 8; rwx = 3; map_next = p };
  free = 2 ∷ 3 ∷ [];
}

-- From an address in the last unit before a page, the area is assigned a second time: the page 2 has
-- the base and the size of page 1.
overlap_run :
    let r = assign_fpages_ext pools none (1 ∷ []) 0x200000F0 0x110 null null one_page in
    (r.list ≡ 1 ∷ 2 ∷ []) × (ends r.pages 1 ≡ (0x20000100, 8)) × (ends r.pages 2 ≡ (0x20000100, 8))
unfolding create_fpage_chain chain_loop chain_next create_fpage chain_shift fp_addr_log2
    fp_size_log2 trailing_zeros halvings close_chain assign_rest assign_gap assign_step assign_loop
    assign_in_pool assign_found assign_fpages_ext addr_align_up mempool_align search_from
    mempool_search
overlap_run = (refl, refl, refl)

-- An area that begins in a gap and ends in the page behind it: `*plast` is the page of the gap.
last_run :
    let r = assign_fpages_ext pools none (1 ∷ []) 0x20000000 0x200 null null one_page in
    (r.list ≡ 2 ∷ 1 ∷ []) × (r.pfirst ≡ 2) × (r.plast ≡ 2)
unfolding create_fpage_chain chain_loop chain_next create_fpage chain_shift fp_addr_log2
    fp_size_log2 trailing_zeros halvings close_chain assign_rest assign_gap assign_step assign_loop
    assign_in_pool assign_found assign_fpages_ext addr_align_up mempool_align search_from
    mempool_search
last_run = (refl, refl, refl)

-- An address space that holds page 1.
abbrev own_space : List Ptr
own_space = 1 ∷ []

own_space-IsSpace : IsSpace 0 own_space one_page
own_space-IsSpace = record {
  spaced = (omega arith, refl, omega arith, omega arith);
  used = λ q h. ground arith;
  free = refl;
}

assign_fpages_ext_example :
    Grown 0 own_space one_page
      (assign_fpages_ext pools none own_space 0x20000000 0x300 null null one_page)
assign_fpages_ext_example =
    assign_fpages_ext-Grown pools none own_space 0x20000000 0x300 null null one_page
      own_space-IsSpace refl (omega arith)

create_fpage_chain_example :
    Chained 0x20000100 0x700 fresh_pages (create_fpage_chain pools 0x20000100 0x700 0 fresh_pages)
create_fpage_chain_example =
    create_fpage_chain-Chained pools 0x20000100 0x700 0 fresh_pages (omega arith) (omega arith) refl
      refl refl

pool_found : choose_pool pools none 0x20000000 0x200 ≡ some 0
unfolding search_from mempool_search
pool_found = refl

assign_fpages_ext-Covers_example :
    Covers 0x20000000
      (0x20000000 + 0x200)
      (assign_fpages_ext pools none own_space 0x20000000 0x200 null null one_page)
assign_fpages_ext-Covers_example =
    assign_fpages_ext-Covers pools none 0 own_space 0x20000000 0x200 null null one_page pool_found
      refl (omega arith) own_space-IsSpace refl (omega arith) (omega arith)

abbrev other_space : As
other_space = record {
  as_spaceid = 2;
  first = 9 ∷ [];
  mpu_first = 9 ∷ [];
  mpu_stack_first = null;
  shared = 1;
}

one_page-Mappable : Mappable 256 other_space 1 [] one_page
one_page-Mappable = record {
  circle = refl;
  once = refl;
  used = λ q h. ground arith;
  apart = λ q h. (ground arith, ground arith);
  guard = omega arith;
  flags = omega arith;
  unmapped = bit-zero 2;
}

map_unmap_example :
    (dst' : As) × (ps₁ ps₂ : Pages) × (map_fpage other_space 1 true one_page ≡ (true, dst', ps₁))
    × (unmap_fpage 256 dst' 2 ps₁ ≡ (true, other_space, ps₂))
    × (ps₂.free ≡ one_page.free)
    × ((q : Ptr) → q ≢ 2 → ps₂.page q ≡ one_page.page q)
map_unmap_example = map_unmap one_page-Mappable 2 (3 ∷ []) refl refl

-- A page of 512 bytes that can be split in two.
abbrev wide_page : Pages
wide_page = record {
  page = λ p. record { base = 0x20000200; mpid = 0; flags = 0; shift = 9; rwx = 3; map_next = p };
  free = 2 ∷ 3 ∷ [];
}

wide_page-IsSpace : IsSpace 0 ([] ++ (1 ∷ [])) wide_page
wide_page-IsSpace = record {
  spaced = (omega arith, refl, omega arith, omega arith);
  used = λ q h. ground arith;
  free = refl;
}

abbrev wide_space : As
wide_space = record other_space { first = 1 ∷ []; mpu_first = 1 ∷ [] }

middle : split_point pools 0 0x20000301 true ≡ 0x20000300
unfolding mempool_align_base addr_align_down
middle = refl

split_fpage-Replaced_example :
    Replaced pools wide_space 1 0x20000301 true wide_page [] [] 0x20000300
split_fpage-Replaced_example =
    split_fpage-Replaced pools wide_space 1 0x20000301 true wide_page [] [] 0x20000300
      wide_page-IsSpace refl refl middle refl (omega arith) (omega arith) (omega arith)
