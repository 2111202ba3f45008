-- ===== src/Memory.antt =====
-- kernel/memory.c: memory pools and the alignment of addresses to the smallest flexible page.
-- CONFIG_SMALLEST_FPAGE_SHIFT is 8. The table `memmap` is an argument, since its addresses come from
-- the linker; an index of a pool that is -1 is `none`.
pub mod Align
pub mod Search
mod Tests
use f9_kernel.Base.{
  ℕ, zero, suc, ◌+◌, ◌-◌, ◌^◌, ◌%◌, bit_and, Bool, true, false, not, ◌&&◌, List, [], ◌∷◌, Option,
  none, some, ◌==◌, ltb, leb, if◌then◌else◌,
}
use f9_kernel.Base.Bits.{bit_not}

-- `mempool_tag_t`
pub data MempoolTag : Type 0 where
  kernel_text kernel_data user_text user_data available devices unknown : MempoolTag

-- `mempool_t` without its name.
pub record Mempool : Type 0 where
  pub start : ℕ
  pub end_ : ℕ
  pub flags : ℕ
  pub tag : MempoolTag

-- CONFIG_SMALLEST_FPAGE_SIZE
abbrev pub smallest_fpage_size : ℕ
smallest_fpage_size = 256

-- INVALID_FPAGE_REGION
abbrev pub invalid_fpage_region : ℕ
invalid_fpage_region = 2 ^ 32 - 1

-- MP_FPAGE_MASK and MP_MAP_ALWAYS
abbrev pub mp_fpage_mask : ℕ
mp_fpage_mask = 3840

abbrev pub mp_map_always : ℕ
mp_map_always = 4096

-- `addr_align_up`; the second test is that the sum wrapped around.
unfoldable pub addr_align_up : ℕ → ℕ → ℕ
addr_align_up addr size =
    let mask = bit_not 32 (size - 1) in
    let aligned = bit_and ((addr + (size - 1)) % 2 ^ 32) mask in
    if ltb aligned addr then mask else aligned

-- `addr_align_down`
unfoldable pub addr_align_down : ℕ → ℕ → ℕ
addr_align_down addr size = bit_and addr (bit_not 32 (size - 1))

-- The flags of a pool of the table; past the end of the table there are none.
abbrev pub flags_at : List Mempool → ℕ → ℕ
flags_at [] i = 0
flags_at (m ∷ ms) zero = m.flags
flags_at (m ∷ ms) (suc i) = flags_at ms i

-- The pool supports flexible pages.
abbrev pub has_fpages : List Mempool → ℕ → Bool
has_fpages memmap mpid = not (bit_and (flags_at memmap mpid) mp_fpage_mask == 0)

-- `mempool_align`
unfoldable pub mempool_align : List Mempool → ℕ → ℕ → ℕ
mempool_align memmap mpid addr =
    if has_fpages memmap mpid then addr_align_up addr smallest_fpage_size else invalid_fpage_region

-- `mempool_align_base`
unfoldable pub mempool_align_base : List Mempool → ℕ → ℕ → ℕ
mempool_align_base memmap mpid addr =
    if has_fpages memmap mpid
    then addr_align_down addr smallest_fpage_size
    else invalid_fpage_region

-- `addr_is_fpage_aligned`
unfoldable pub addr_is_fpage_aligned : ℕ → Bool
addr_is_fpage_aligned addr = bit_and addr (smallest_fpage_size - 1) == 0

-- The loop of `mempool_search` from index `i` on.
unfoldable pub search_from : ℕ → ℕ → ℕ → List Mempool → Option ℕ
search_from i base end_ [] = none
search_from i base end_ (m ∷ ms) =
    let rest = search_from (i + 1) base end_ ms in
    if leb m.start base && leb end_ m.end_ then some i else rest

-- `mempool_search`
unfoldable pub mempool_search : List Mempool → ℕ → ℕ → Option ℕ
mempool_search memmap base size =
    if ltb 0 size && ltb (2 ^ 32 - 1 - size + 1) base
    then none
    else search_from 0 base ((base + size) % 2 ^ 32) memmap
