-- ===== src/Sched/Bitmap.antt =====
-- `ready_bitmap`: bit `31 - prio` stands for priority `prio`.
use f9_kernel.Base.{
  ℕ, zero, suc, ◌-◌, ◌≤◌, ◌<◌, ◌≡◌, bit_and, bit_or, arith, ◌==◌, if◌then◌else◌, inl, inr,
  Bool-cases,
}
use f9_kernel.Base.Bits.{
  bit, bit_not, bit-le, bit-bit_or, bit-bit_and, bit-bit_not, bit-pow, pow-lt-pow,
}
use f9_kernel.Sched.{prio_mask, clz}

-- `bitmap |= 1 << (31 - prio)` sets the bit of that priority and no other.
pub bit-set_ready :
    (x p i : ℕ)
    → p < 32
    → i < 32
    → bit (bit_or x (prio_mask p)) (31 - i) ≡ (if i == p then 1 else bit x (31 - i))
bit-set_ready x p i hp hi =
    ground
      (arith, bit-bit_or x (prio_mask p) (31 - i), bit-pow (31 - p) (31 - i), bit-le x (31 - i))

-- `bitmap &= ~(1 << (31 - prio))` clears the bit of that priority and no other.
pub bit-clear_ready :
    (x p i : ℕ)
    → p < 32
    → i < 32
    → bit (bit_and x (bit_not 32 (prio_mask p))) (31 - i) ≡ (if i == p then 0 else bit x (31 - i))
bit-clear_ready x p i hp hi = ground (
  arith,
  bit-bit_and x (bit_not 32 (prio_mask p)) (31 - i),
  bit-bit_not 32 (prio_mask p) (31 - i) (pow-lt-pow (31 - p) 32 (omega arith)) (omega arith),
  bit-pow (31 - p) (31 - i),
  bit-le x (31 - i),
)

-- `clz` counts the zeros above the highest bit that is set.
pub clz-le : (w x : ℕ) → clz w x ≤ w
unfolding clz
clz-le zero x = omega arith
clz-le (suc w) x = ground (arith, clz-le w x)

pub clz_above : (w x i : ℕ) → i < clz w x → bit x (w - 1 - i) ≡ 0
unfolding clz
clz_above zero x i h = absurd (omega arith)
clz_above (suc w) x zero h =
    let top : suc w - 1 - zero ≡ w = omega arith in rw top (ground (arith, bit-le x w))
clz_above (suc w) x (suc i) h =
    let down : suc w - 1 - suc i ≡ w - 1 - i = omega arith in
    rw down (ground (arith, clz_above w x i))

pub clz_at : (w x : ℕ) → clz w x < w → bit x (w - 1 - clz w x) ≡ 1
unfolding clz
clz_at zero x h = absurd (omega arith)
clz_at (suc w) x h = elim (Bool-cases (bit x w == 1)) [
  | inl one ↦ let top : suc w - 1 - 0 ≡ w = omega arith in rw one (rw top (ground arith))
  | inr other ↦
      let down : suc w - 1 - suc (clz w x) ≡ w - 1 - clz w x = omega arith in
      rw other (rw down (clz_at w x (ground arith)))
]
