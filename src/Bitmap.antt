-- ===== src/Bitmap.antt =====
-- include/lib/bitmap.h without CONFIG_BITMAP_BITBAND, and `test_and_set_bit` of platform/bitops.c.
-- A bitmap is the memory from `kt->bitmap` on, as a function from word index to 32-bit word.
use f9_kernel.Base.{
  ℕ, ◌/◌, ◌%◌, ◌^◌, ◌<◌, ◌≤◌, ◌≡◌, bit_and, bit_or, Bool, arith, ◌==◌, if◌then◌else◌, true, false,
}
use f9_kernel.Base.Bits.{
  bit, bit_not, bit-le, bit-bit_and, bit-bit_or, bit-bit_not, bit-pow, pow-lt-pow, bit_and-lt,
  bit_or-lt,
}

abbrev pub Words : Type 0
Words = ℕ → ℕ

-- `BITMASK(bit)`
abbrev pub mask : ℕ → ℕ
mask i = 2 ^ (i % 32)

-- A write to `BITWORD`.
abbrev pub write : Words → ℕ → ℕ → Words
write b i w k = if k == i / 32 then w else b k

-- `bitmap_set_bit`
unfoldable pub bitmap_set_bit : Words → ℕ → Words
bitmap_set_bit b i = write b i (bit_or (b (i / 32)) (mask i))

-- `bitmap_clear_bit`
unfoldable pub bitmap_clear_bit : Words → ℕ → Words
bitmap_clear_bit b i = write b i (bit_and (b (i / 32)) (bit_not 32 (mask i)))

-- `bitmap_get_bit`: `(word >> offset) & 1` is the digit at the offset.
unfoldable pub bitmap_get_bit : Words → ℕ → ℕ
unfolding bit
bitmap_get_bit b i = bit (b (i / 32)) (i % 32)

-- `bitmap_test_and_set_bit`: whether the bit was clear, and the bitmap with the bit set if it was.
unfoldable pub bitmap_test_and_set_bit : Words → ℕ → Bool × Words
unfolding bitmap_get_bit bitmap_set_bit
bitmap_test_and_set_bit b i =
    if bitmap_get_bit b i == 0 then (true, bitmap_set_bit b i) else (false, b)

-- Every word fits 32 bits.
abbrev pub IsWords : Words → Type 0
IsWords b = (k : ℕ) → b k < 2 ^ 32

pub get-le : (b : Words) (i : ℕ) → bitmap_get_bit b i ≤ 1
unfolding bitmap_get_bit
get-le b i = bit-le (b (i / 32)) (i % 32)

mask-lt : (i : ℕ) → mask i < 2 ^ 32
mask-lt i = pow-lt-pow (i % 32) 32 (omega arith)

-- Setting a bit sets it and leaves the others.
pub get-set :
    (b : Words) (i j : ℕ)
    → bitmap_get_bit (bitmap_set_bit b i) j ≡ (if j == i then 1 else bitmap_get_bit b j)
unfolding bitmap_get_bit bitmap_set_bit
get-set b i j = ground (
  arith,
  bit-bit_or (b (i / 32)) (mask i) (j % 32),
  bit-pow (i % 32) (j % 32),
  bit-le (b (i / 32)) (j % 32),
)

-- Clearing a bit clears it and leaves the others.
pub get-clear :
    (b : Words) (i j : ℕ)
    → bitmap_get_bit (bitmap_clear_bit b i) j ≡ (if j == i then 0 else bitmap_get_bit b j)
unfolding bitmap_get_bit bitmap_clear_bit
get-clear b i j = ground (
  arith,
  bit-bit_and (b (i / 32)) (bit_not 32 (mask i)) (j % 32),
  bit-bit_not 32 (mask i) (j % 32) (mask-lt i) (omega arith),
  bit-pow (i % 32) (j % 32),
  bit-le (b (i / 32)) (j % 32),
)

pub IsWords-set : (b : Words) (i : ℕ) → IsWords b → IsWords (bitmap_set_bit b i)
unfolding bitmap_set_bit
IsWords-set b i w k =
    ground (arith, w k, bit_or-lt 32 (b (i / 32)) (mask i) (w (i / 32)) (mask-lt i))

pub IsWords-clear : (b : Words) (i : ℕ) → IsWords b → IsWords (bitmap_clear_bit b i)
unfolding bitmap_clear_bit
IsWords-clear b i w k =
    ground (arith, w k, bit_and-lt 32 (b (i / 32)) (bit_not 32 (mask i)) (w (i / 32)))
