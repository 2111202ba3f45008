-- ===== src/Memory/Align.antt =====
-- What the masks of kernel/memory.c compute: the multiples of 256 above and below an address.
use f9_kernel.Base.{
  ℕ, zero, suc, ◌+◌, ◌-◌, ◌*◌, ◌/◌, ◌%◌, ◌^◌, ◌<◌, ◌≡◌, ◌↔◌, refl, ap, ◌∙◌, arith, true, bit_and,
  ltb, if◌then◌else◌,
}
use Prim.Native.Nat.{min}
use native.Mathlib.Nat.{pow-suc}
use f9_kernel.Base.Bits.{bit_and-halves, pow_pos, bit_not, bit-bit_and, bit-zero, lt-pow_of_bit}
use f9_kernel.Memory.{smallest_fpage_size, addr_align_up, addr_align_down, addr_is_fpage_aligned}

lt_pow : (n : ℕ) → n < 2 ^ n
lt_pow zero = omega arith
lt_pow (suc n) = omega (arith, pow-suc 2 n, lt_pow n)

halves : (a b : ℕ) → bit_and a b ≡ bit_and (a / 2) (b / 2) * 2 + min (a % 2) (b % 2)
halves a b = bit_and-halves a a b (lt_pow a)

ones : (w x : ℕ) → x < 2 ^ w → bit_and x (2 ^ w - 1) ≡ x
ones zero x h = let e : x ≡ 0 = omega arith in rw e refl
ones (suc w) x h =
    let half : (2 ^ suc w - 1) / 2 ≡ 2 ^ w - 1 = omega (arith, pow-suc 2 w, pow_pos w) in
    let rest : bit_and (x / 2) ((2 ^ suc w - 1) / 2) ≡ x / 2 =
      ap (bit_and (x / 2)) half ∙ ones w (x / 2) (omega (arith, pow-suc 2 w)) in
    omega (arith, halves x (2 ^ suc w - 1), pow-suc 2 w, pow_pos w, rest)

even : (a b : ℕ) → b % 2 ≡ 0 → bit_and a b ≡ bit_and (a / 2) (b / 2) * 2
even a b h = omega (arith, halves a b)

odd : (a b : ℕ) → b % 2 ≡ 1 → bit_and a b ≡ bit_and (a / 2) (b / 2) * 2 + a % 2
odd a b h = omega (arith, halves a b)

-- The mask of `size` 256 clears the eight lowest digits.
pub bit_and_mask : (x : ℕ) → x < 2 ^ 32 → bit_and x (bit_not 32 (256 - 1)) ≡ x / 256 * 256
bit_and_mask x h = omega (
  arith,
  even x 4294967040 refl,
  even (x / 2) 2147483520 refl,
  even (x / 2 / 2) 1073741760 refl,
  even (x / 2 / 2 / 2) 536870880 refl,
  even (x / 2 / 2 / 2 / 2) 268435440 refl,
  even (x / 2 / 2 / 2 / 2 / 2) 134217720 refl,
  even (x / 2 / 2 / 2 / 2 / 2 / 2) 67108860 refl,
  even (x / 2 / 2 / 2 / 2 / 2 / 2 / 2) 33554430 refl,
  ones 24 (x / 2 / 2 / 2 / 2 / 2 / 2 / 2 / 2) (omega arith),
)

bit_and_zero : (a : ℕ) → bit_and a 0 ≡ 0
bit_and_zero a =
    let low : bit_and a 0 < 1 =
      lt-pow_of_bit 0 (bit_and a 0) (bit_and a 0) (omega arith)
        (λ i h. omega (arith, bit-bit_and a 0 i, bit-zero i)) in
    omega arith

pub bit_and_low : (x : ℕ) → bit_and x 255 ≡ x % 256
bit_and_low x = omega (
  arith,
  odd x 255 refl,
  odd (x / 2) 127 refl,
  odd (x / 2 / 2) 63 refl,
  odd (x / 2 / 2 / 2) 31 refl,
  odd (x / 2 / 2 / 2 / 2) 15 refl,
  odd (x / 2 / 2 / 2 / 2 / 2) 7 refl,
  odd (x / 2 / 2 / 2 / 2 / 2 / 2) 3 refl,
  odd (x / 2 / 2 / 2 / 2 / 2 / 2 / 2) 1 refl,
  bit_and_zero (x / 2 / 2 / 2 / 2 / 2 / 2 / 2 / 2),
)

-- `addr_align_up` to the smallest page is the first multiple of 256 from the address on, or, past the
-- last one, the last one.
pub addr_align_up_lem :
    (addr : ℕ)
    → addr < 2 ^ 32
    → addr_align_up addr smallest_fpage_size
      ≡ (if ltb (2 ^ 32 - 256) addr then 2 ^ 32 - 256 else (addr + 255) / 256 * 256)
unfolding addr_align_up
addr_align_up_lem addr h = ground (arith, bit_and_mask ((addr + 255) % 2 ^ 32) (omega arith))

-- `addr_align_down` to the smallest page is the last multiple of 256 up to the address.
pub addr_align_down_lem :
    (addr : ℕ) → addr < 2 ^ 32 → addr_align_down addr smallest_fpage_size ≡ addr / 256 * 256
unfolding addr_align_down
addr_align_down_lem addr h = bit_and_mask addr h

-- `addr_is_fpage_aligned` tests for the multiples of 256.
pub addr_is_fpage_aligned_iff : (addr : ℕ) → (addr_is_fpage_aligned addr ≡ true) ↔ (addr % 256 ≡ 0)
unfolding addr_is_fpage_aligned
addr_is_fpage_aligned_iff addr = ground (arith, bit_and_low addr)
