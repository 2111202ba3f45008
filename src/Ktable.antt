-- ===== src/Ktable.antt =====
-- kernel/lib/ktable.c: tables of fixed-size elements with a bitmap of the allocated ones. `NULL` is
-- `none`; the pointers `kt` and `kt->bitmap` are those of `DECLARE_KTABLE` and never `NULL`.
pub mod Alloc
mod Tests
use f9_kernel.Base.{
  ℕ, zero, suc, ◌+◌, ◌-◌, ◌*◌, ◌/◌, ◌%◌, ◌^◌, Bool, ◌||◌, Option, none, some, ◌==◌, ltb, leb,
  if◌then◌else◌,
}
use f9_kernel.Bitmap.{Words, bitmap_get_bit, bitmap_clear_bit, bitmap_test_and_set_bit}

-- `struct ktable`
pub record Ktable : Type 0 where
  pub bitmap : Words
  pub base : ℕ
  pub num : ℕ
  pub size : ℕ

-- `kt->data + (i * kt->size)`
abbrev pub element : Ktable → ℕ → ℕ
element kt i = (kt.base + i * kt.size) % 2 ^ 32

-- Word `k` after the first `n` bytes of the bitmap were set to 0, on a little-endian machine.
abbrev pub clear_bytes : ℕ → Words → Words
clear_bytes n b k =
    if leb (4 * k + 4) n
    then 0
    else if leb n (4 * k)
    then b k
    else b k / 2 ^ (8 * (n - 4 * k)) * 2 ^ (8 * (n - 4 * k))

-- `ktable_init`
unfoldable pub ktable_init : Ktable → Ktable
ktable_init kt = record kt { bitmap = clear_bytes (kt.num / 8) kt.bitmap }

-- `ktable_is_allocated`; `none` is -1.
unfoldable pub ktable_is_allocated : Ktable → ℕ → Option ℕ
ktable_is_allocated kt i = if ltb kt.num i then none else some (bitmap_get_bit kt.bitmap i)

-- `ktable_alloc_id`
unfoldable pub ktable_alloc_id : Ktable → ℕ → Option ℕ × Ktable
ktable_alloc_id kt i =
    let (free, b) = bitmap_test_and_set_bit kt.bitmap i in
    if ltb kt.num i
    then (none, kt)
    else if free
    then (some (element kt i), record kt { bitmap = b })
    else (none, kt)

-- The loop of `ktable_alloc` with `n` indices left, from `i` on.
unfoldable pub alloc_from : ℕ → ℕ → Ktable → Option ℕ × Ktable
alloc_from zero i kt = (none, kt)
alloc_from (suc n) i kt =
    let rest = alloc_from n (i + 1) kt in
    let (free, b) = bitmap_test_and_set_bit kt.bitmap i in
    if free then (some (element kt i), record kt { bitmap = b }) else rest

-- `ktable_alloc`
unfoldable pub ktable_alloc : Ktable → Option ℕ × Ktable
unfolding alloc_from
ktable_alloc kt =
    if kt.base == 0 || (kt.num == 0 || kt.size == 0) then (none, kt) else alloc_from kt.num 0 kt

-- `ktable_getid`; `none` is -1.
unfoldable pub ktable_getid : Ktable → ℕ → Option ℕ
ktable_getid kt e =
    let i = (e + 2 ^ 32 - kt.base) % 2 ^ 32 / kt.size in
    if ltb kt.num i || leb (2 ^ 31) i then none else some i

-- `ktable_free`
unfoldable pub ktable_free : Ktable → ℕ → Ktable
ktable_free kt e = elim (ktable_getid kt e) [
  | none ↦ kt
  | some i ↦ record kt { bitmap = bitmap_clear_bit kt.bitmap i }
]
