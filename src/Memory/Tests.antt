-- ===== src/Memory/Tests.antt =====
-- Searches in a table of two pools.
use f9_kernel.Base.{◌≡◌, refl, List, [], ◌∷◌, some}
use f9_kernel.Memory.{search_from, Mempool, kernel_text, available, mempool_search}

abbrev text_pool : Mempool
text_pool = record { start = 0x08000000; end_ = 0x08010000; flags = 5; tag = kernel_text }

abbrev ram_pool : Mempool
ram_pool = record { start = 0x20000000; end_ = 0x20018000; flags = 0x0130; tag = available }

abbrev two_pools : List Mempool
two_pools = text_pool ∷ ram_pool ∷ []

mempool_search_run : mempool_search two_pools 0x20000100 0x200 ≡ some 1
unfolding mempool_search search_from
mempool_search_run = refl
