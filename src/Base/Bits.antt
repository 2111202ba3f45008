-- ===== src/Base/Bits.antt =====
-- Words as sequences of binary digits: what `|`, `&`, `~` and `1 << k` of C do to each digit.
use Prim.Native.Nat.{
  ℕ, zero, suc, ◌+◌, ◌*◌, ◌-◌, ◌/◌, ◌%◌, ◌^◌, ◌≤◌, ◌<◌, min, max, digits, bit_and, bit_or,
  bit_and-bitwise, bit_or-bitwise,
}
use mathlib.Core.Path.{◌≡◌, refl, sym, ap, ◌∙◌}
use native.Mathlib.Omega.{arith}
use native.Mathlib.Nat.{pow-suc}
use f9_kernel.Base.Tests.{◌==◌, if◌then◌else◌}

-- Digit `i` of a word, 0 or 1.
unfoldable pub bit : ℕ → ℕ → ℕ
bit x zero = x % 2
bit x (suc i) = bit (x / 2) i

-- `~x` on a word of `w` bits, for `x < 2 ^ w`.
abbrev pub bit_not : ℕ → ℕ → ℕ
bit_not w x = 2 ^ w - 1 - x

pub bit-le : (x i : ℕ) → bit x i ≤ 1
unfolding bit
bit-le x zero = omega arith
bit-le x (suc i) = bit-le (x / 2) i

pub bit-zero : (i : ℕ) → bit 0 i ≡ 0
unfolding bit
bit-zero zero = refl
bit-zero (suc i) = bit-zero i

and_digits : (n a b i : ℕ) → a ≤ n → bit (digits (λ b. zero) min n a b) i ≡ min (bit a i) (bit b i)
unfolding bit
and_digits zero zero b i h = omega (arith, bit-zero i)
and_digits zero (suc a) b i h = absurd (omega arith)
and_digits (suc n) zero b i h = omega (arith, bit-zero i)
and_digits (suc n) (suc a) b zero h = omega arith
and_digits (suc n) (suc a) b (suc i) h =
    ap (λ k. bit k i) (omega arith) ∙ and_digits n (suc a / 2) (b / 2) i (omega arith)

or_digits : (n a b i : ℕ) → a ≤ n → bit (digits (λ b. b) max n a b) i ≡ max (bit a i) (bit b i)
unfolding bit
or_digits zero zero b i h = omega (arith, bit-zero i)
or_digits zero (suc a) b i h = absurd (omega arith)
or_digits (suc n) zero b i h = omega (arith, bit-zero i)
or_digits (suc n) (suc a) b zero h = omega arith
or_digits (suc n) (suc a) b (suc i) h =
    ap (λ k. bit k i) (omega arith) ∙ or_digits n (suc a / 2) (b / 2) i (omega arith)

pub bit-bit_and : (a b i : ℕ) → bit (bit_and a b) i ≡ min (bit a i) (bit b i)
bit-bit_and a b i = ap (λ k. bit k i) (bit_and-bitwise a b) ∙ and_digits a a b i (omega arith)

pub bit-bit_or : (a b i : ℕ) → bit (bit_or a b) i ≡ max (bit a i) (bit b i)
bit-bit_or a b i = ap (λ k. bit k i) (bit_or-bitwise a b) ∙ or_digits a a b i (omega arith)

pub bit-pow : (k i : ℕ) → bit (2 ^ k) i ≡ (if i == k then 1 else 0)
unfolding bit
bit-pow zero zero = refl
bit-pow zero (suc i) = ground (arith, bit-zero i)
bit-pow (suc k) zero = ground (arith, pow-suc 2 k)
bit-pow (suc k) (suc i) =
    let half : 2 ^ suc k / 2 ≡ 2 ^ k = omega (arith, pow-suc 2 k) in
    ap (λ n. bit n i) half ∙ ground (arith, bit-pow k i)

pub pow_pos : (k : ℕ) → 1 ≤ 2 ^ k
pow_pos zero = omega arith
pow_pos (suc k) = omega (arith, pow-suc 2 k, pow_pos k)

pub bit-bit_not : (w x i : ℕ) → x < 2 ^ w → i < w → bit (bit_not w x) i ≡ 1 - bit x i
unfolding bit
bit-bit_not zero x i h lt = elim lt [ ]
bit-bit_not (suc w) x zero h lt = omega (arith, pow-suc 2 w)
bit-bit_not (suc w) x (suc i) h lt =
    ap (λ n. bit n i) (omega (arith, pow-suc 2 w, pow_pos w))
    ∙ bit-bit_not w (x / 2) i (omega (arith, pow-suc 2 w)) (omega arith)

-- A word below `2 ^ w` has no digit from `w` on, and a word without such digits is below `2 ^ w`.
pub bit_high : (w x i : ℕ) → x < 2 ^ w → w ≤ i → bit x i ≡ 0
unfolding bit
bit_high zero x i h le = ap (λ n. bit n i) (omega arith) ∙ bit-zero i
bit_high (suc w) x zero h le = absurd (omega arith)
bit_high (suc w) x (suc i) h le = bit_high w (x / 2) i (omega (arith, pow-suc 2 w)) (omega arith)

-- Words of `w` bits with the same digits are equal.
pub bit_ext : (w x y : ℕ) → x < 2 ^ w → y < 2 ^ w → ((i : ℕ) → i < w → bit x i ≡ bit y i) → x ≡ y
unfolding bit
bit_ext zero x y hx hy same = omega arith
bit_ext (suc w) x y hx hy same =
    let half : x / 2 ≡ y / 2 =
      bit_ext w (x / 2) (y / 2) (omega (arith, pow-suc 2 w)) (omega (arith, pow-suc 2 w))
        (λ i h. same (suc i) (omega arith)) in
    let low : x % 2 ≡ y % 2 = same 0 (omega arith) in omega arith

-- A bound on a word from its digits.
pub lt-pow_of_bit : (w n x : ℕ) → x ≤ n → ((i : ℕ) → w ≤ i → bit x i ≡ 0) → x < 2 ^ w
unfolding bit
lt-pow_of_bit zero zero x h high = omega arith
lt-pow_of_bit zero (suc n) x h high =
    let low : x % 2 ≡ 0 = high 0 (omega arith) in
    let rest : x / 2 < 1 =
      lt-pow_of_bit zero n (x / 2) (omega arith) (λ i k. high (suc i) (omega arith)) in
    omega arith
lt-pow_of_bit (suc w) n x h high =
    let rest : x / 2 < 2 ^ w =
      lt-pow_of_bit w n (x / 2) (omega arith) (λ i k. high (suc i) (omega arith)) in
    omega (arith, pow-suc 2 w)

pub bit_or-lt : (w a b : ℕ) → a < 2 ^ w → b < 2 ^ w → bit_or a b < 2 ^ w
bit_or-lt w a b ha hb =
    lt-pow_of_bit w (bit_or a b) (bit_or a b) (omega arith)
      λ i h. omega (arith, bit-bit_or a b i, bit_high w a i ha h, bit_high w b i hb h)

pub bit_and-lt : (w a b : ℕ) → a < 2 ^ w → bit_and a b < 2 ^ w
bit_and-lt w a b ha =
    lt-pow_of_bit w (bit_and a b) (bit_and a b) (omega arith)
      λ i h. omega (arith, bit-bit_and a b i, bit_high w a i ha h)

pub pow-lt-pow : (k w : ℕ) → k < w → 2 ^ k < 2 ^ w
pow-lt-pow k zero h = elim h [ ]
pow-lt-pow zero (suc w) h = omega (arith, pow-suc 2 w, pow_pos w)
pow-lt-pow (suc k) (suc w) h = omega (arith, pow-suc 2 k, pow-suc 2 w, pow-lt-pow k w)

-- The lowest digit of `&` on words of `w` bits, and the digits above it.
pub bit_and-halves :
    (w a b : ℕ) → a < 2 ^ w → bit_and a b ≡ bit_and (a / 2) (b / 2) * 2 + min (a % 2) (b % 2)
unfolding bit
bit_and-halves w a b small =
    bit_ext (suc w) _ _ (omega (arith, pow-suc 2 w, bit_and-lt w a b small))
      (omega (arith, pow-suc 2 w, bit_and-lt w (a / 2) (b / 2) (omega arith))) λ i lt. digit i
  where
    digit :
        (i : ℕ) → bit (bit_and a b) i ≡ bit (bit_and (a / 2) (b / 2) * 2 + min (a % 2) (b % 2)) i
    digit zero = omega (arith, bit-bit_and a b zero)
    digit (suc i) =
        let half : (bit_and (a / 2) (b / 2) * 2 + min (a % 2) (b % 2)) / 2
            ≡ bit_and (a / 2) (b / 2) =
          omega arith in
        bit-bit_and a b (suc i) ∙ sym (ap (λ n. bit n i) half ∙ bit-bit_and (a / 2) (b / 2) i)

pub bit_or_zero : (b : ℕ) → bit_or 0 b ≡ b
bit_or_zero b = bit_or-bitwise 0 b

-- `&` distributes over `|` on words.
pub bit_and-bit_or :
    (w a b c : ℕ)
    → a < 2 ^ w
    → b < 2 ^ w
    → bit_and (bit_or a b) c ≡ bit_or (bit_and a c) (bit_and b c)
bit_and-bit_or w a b c ha hb =
    bit_ext w _ _ (bit_and-lt w (bit_or a b) c (bit_or-lt w a b ha hb))
      (bit_or-lt w _ _ (bit_and-lt w a c ha) (bit_and-lt w b c hb))
      λ i lt. omega (
        arith,
        bit-bit_and (bit_or a b) c i,
        bit-bit_or a b i,
        bit-bit_or (bit_and a c) (bit_and b c) i,
        bit-bit_and a c i,
        bit-bit_and b c i,
      )
