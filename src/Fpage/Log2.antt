-- ===== src/Fpage/Log2.antt =====
-- What `fp_addr_log2` and `fp_size_log2` compute.
use f9_kernel.Base.{
  ℕ, zero, suc, ◌*◌, ◌/◌, ◌%◌, ◌^◌, ◌≤◌, ◌<◌, ◌≡◌, arith, ◌==◌, Bool-cases, inl, inr,
}
use native.Mathlib.Nat.{pow-suc}
use f9_kernel.Base.Bits.{pow_pos}
use f9_kernel.Fpage.{trailing_zeros, fp_addr_log2, halvings, fp_size_log2, chain_shift}

-- `a` is a multiple of `2 ^ m`.
abbrev pub Aligned : ℕ → ℕ → Type 0
Aligned a m = (q : ℕ) × (a ≡ q * 2 ^ m)

twice : (q m : ℕ) → q * 2 ^ suc m ≡ 2 * (q * 2 ^ m)
twice q m = rw (pow-suc 2 m) (omega arith)

trailing_zeros-Aligned : (n a m : ℕ) → m ≤ trailing_zeros n a → Aligned a m
unfolding trailing_zeros
trailing_zeros-Aligned n a zero h = (a, omega arith)
trailing_zeros-Aligned zero a (suc m) h = absurd (omega arith)
trailing_zeros-Aligned (suc n) a (suc m) h =
    let even : a % 2 ≡ 0 = ground arith in
    let (q, e) = trailing_zeros-Aligned n (a / 2) m (ground arith) in
    (q, omega (arith, even, e, twice q m))

trailing_zeros_ge : (k n b : ℕ) → k ≤ n → k ≤ trailing_zeros n (2 ^ k * b)
unfolding trailing_zeros
trailing_zeros_ge zero n b h = omega arith
trailing_zeros_ge (suc k) zero b h = absurd (omega arith)
trailing_zeros_ge (suc k) (suc n) b h =
    let half : 2 ^ suc k * b ≡ 2 * (2 ^ k * b) = rw (pow-suc 2 k) (omega arith) in
    let next : 2 ^ suc k * b / 2 ≡ 2 ^ k * b = omega (arith, half) in
    let rest : k ≤ trailing_zeros n (2 ^ suc k * b / 2) =
      rw next (trailing_zeros_ge k n b (omega arith)) in
    ground (arith, half)

halvings-le : (n s m : ℕ) → 0 < s → m ≤ halvings n s → 2 ^ m ≤ s
unfolding halvings
halvings-le n s zero pos h = omega arith
halvings-le zero s (suc m) pos h = absurd (omega arith)
halvings-le (suc n) s (suc m) pos h =
    let big : 1 < s = ground arith in
    let half : 2 ^ m ≤ s / 2 = halvings-le n (s / 2) m (omega arith) (ground arith) in
    omega (arith, pow-suc 2 m, half)

halvings_ge : (k n s : ℕ) → k ≤ n → 2 ^ k ≤ s → k ≤ halvings n s
unfolding halvings
halvings_ge zero n s h le = omega arith
halvings_ge (suc k) zero s h le = absurd (omega arith)
halvings_ge (suc k) (suc n) s h le =
    let big : 1 < s = omega (arith, pow-suc 2 k, pow_pos k) in
    let rest = halvings_ge k n (s / 2) (omega arith) (omega (arith, pow-suc 2 k)) in ground arith

-- The shift of the next page of a chain: the page is aligned and fits.
pub chain_shift-Aligned : (base size : ℕ) → 0 < size → Aligned base (chain_shift base size)
unfolding chain_shift fp_addr_log2
chain_shift-Aligned base size pos = elim (Bool-cases (base == 0)) [
  | inl none_set ↦ (0, ground arith)
  | inr some_set ↦ trailing_zeros-Aligned 32 base (chain_shift base size) (ground arith)
]

pub chain_shift_fits : (base size : ℕ) → 0 < size → 2 ^ chain_shift base size ≤ size
unfolding chain_shift fp_size_log2
chain_shift_fits base size pos = halvings-le 32 size (chain_shift base size) pos (ground arith)

-- Pages of an aligned area are not smaller than the smallest page.
pub chain_shift_ge :
    (base size : ℕ) → base % 256 ≡ 0 → size % 256 ≡ 0 → 0 < size → 8 ≤ chain_shift base size
unfolding chain_shift fp_addr_log2 fp_size_log2
chain_shift_ge base size hb hs pos =
    let by_size : 8 ≤ halvings 32 size = halvings_ge 8 32 size (omega arith) (omega arith) in
    let e : base ≡ 2 ^ 8 * (base / 256) = omega arith in
    let by_base : 8 ≤ trailing_zeros 32 base =
      rw e (trailing_zeros_ge 8 32 (base / 256) (omega arith)) in
    ground (arith, by_size, by_base)
