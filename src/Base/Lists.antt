-- ===== src/Base/Lists.antt =====
-- Lists measured and indexed by native numbers, and lists of addresses.
use Prim.Native.Nat.{ℕ, zero, suc, ◌+◌, ◌<◌}
use mathlib.Core.Path.{◌≡◌, refl, ap}
use mathlib.Core.Logic.{◌≢◌}
use mathlib.Core.Bool.{Bool, true, false, not, ◌&&◌, ◌||◌}
use mathlib.Core.List.{List, [], ◌∷◌, ◌++◌}
use mathlib.Core.Option.{Option, none, some}
use native.Mathlib.Omega.{arith}
use f9_kernel.Base.Tests.{◌==◌, if◌then◌else◌}

module _ {ℓ} {A : Type ℓ} where
  abbrev pub length : List A → ℕ
  length [] = 0
  length (x ∷ xs) = suc (length xs)

  abbrev pub get_elem? : List A → ℕ → Option A
  get_elem? [] i = none
  get_elem? (x ∷ xs) zero = some x
  get_elem? (x ∷ xs) (suc i) = get_elem? xs i

  -- A write out of bounds changes nothing.
  abbrev pub set : List A → ℕ → A → List A
  set [] i v = []
  set (x ∷ xs) zero v = v ∷ xs
  set (x ∷ xs) (suc i) v = x ∷ set xs i v

  pub length-append : (xs ys : List A) → length (xs ++ ys) ≡ length xs + length ys
  length-append [] ys = omega arith
  length-append (x ∷ xs) ys = omega (arith, length-append xs ys)

  pub length-set : (xs : List A) (i : ℕ) (v : A) → length (set xs i v) ≡ length xs
  length-set [] i v = refl
  length-set (x ∷ xs) zero v = refl
  length-set (x ∷ xs) (suc i) v = ap suc (length-set xs i v)

module _ {ℓ} {A : Type ℓ} where
  abbrev pub get_or : List A → ℕ → A → A
  get_or [] i d = d
  get_or (x ∷ xs) zero d = x
  get_or (x ∷ xs) (suc i) d = get_or xs i d

  pub get_or-set_self :
      (xs : List A) (i : ℕ) (v d : A) → i < length xs → get_or (set xs i v) i d ≡ v
  get_or-set_self [] i v d h = absurd (omega arith)
  get_or-set_self (x ∷ xs) zero v d h = refl
  get_or-set_self (x ∷ xs) (suc i) v d h = get_or-set_self xs i v d (omega arith)

  pub get_or-set_ne :
      (xs : List A) {i j : ℕ} (v d : A) → i ≢ j → get_or (set xs i v) j d ≡ get_or xs j d
  get_or-set_ne [] v d h = refl
  get_or-set_ne (x ∷ xs) {i = zero} {j = zero} v d h = absurd (h refl)
  get_or-set_ne (x ∷ xs) {i = zero} {j = suc j} v d h = refl
  get_or-set_ne (x ∷ xs) {i = suc i} {j = zero} v d h = refl
  get_or-set_ne (x ∷ xs) {i = suc i} {j = suc j} v d h = get_or-set_ne xs v d (λ e. h (ap suc e))

-- Membership of an address in a list.
abbrev pub has : ℕ → List ℕ → Bool
has a [] = false
has a (x ∷ xs) = (a == x) || has a xs

-- No address stands twice.
abbrev pub distinct : List ℕ → Bool
distinct [] = true
distinct (x ∷ xs) = not (has x xs) && distinct xs

-- The list without the first occurrence of an address.
abbrev pub erase : ℕ → List ℕ → List ℕ
erase a [] = []
erase a (x ∷ xs) = if a == x then xs else x ∷ erase a xs

-- The last element of `x ∷ xs`.
abbrev pub last : ℕ → List ℕ → ℕ
last x [] = x
last x (y ∷ ys) = last y ys

-- The first element moved behind the others.
abbrev pub rotate : List ℕ → List ℕ
rotate [] = []
rotate (x ∷ xs) = xs ++ (x ∷ [])

pub has-append : (a : ℕ) (xs ys : List ℕ) → has a (xs ++ ys) ≡ (has a xs || has a ys)
has-append a [] ys = refl
has-append a (x ∷ xs) ys = ground (arith, has-append a xs ys)

pub has-last : (x : ℕ) (xs : List ℕ) → has (last x xs) (x ∷ xs) ≡ true
has-last x [] = ground arith
has-last x (y ∷ ys) = ground (arith, has-last y ys)

pub last-append : (x : ℕ) (xs : List ℕ) (t : ℕ) → last x (xs ++ (t ∷ [])) ≡ t
last-append x [] t = refl
last-append x (y ∷ ys) t = last-append y ys t

pub has-erase_ne : (a t : ℕ) (xs : List ℕ) → (a == t) ≡ false → has a (erase t xs) ≡ has a xs
has-erase_ne a t [] h = refl
has-erase_ne a t (x ∷ xs) h = ground (arith, has-erase_ne a t xs h)

pub has-erase_self : (t : ℕ) (xs : List ℕ) → distinct xs ≡ true → has t (erase t xs) ≡ false
has-erase_self t [] h = refl
has-erase_self t (x ∷ xs) h = ground (arith, has-erase_self t xs)

pub distinct-erase : (t : ℕ) (xs : List ℕ) → distinct xs ≡ true → distinct (erase t xs) ≡ true
distinct-erase t [] h = refl
distinct-erase t (x ∷ xs) h = ground (arith, distinct-erase t xs, has-erase_ne x t xs)

pub distinct-snoc :
    (t : ℕ) (xs : List ℕ) → distinct xs ≡ true → has t xs ≡ false → distinct (xs ++ (t ∷ [])) ≡ true
distinct-snoc t [] h k = refl
distinct-snoc t (x ∷ xs) h k = ground (arith, distinct-snoc t xs, has-append x xs (t ∷ []))

pub erase_not_mem : (t : ℕ) (xs : List ℕ) → has t xs ≡ false → erase t xs ≡ xs
erase_not_mem t [] h = refl
erase_not_mem t (x ∷ xs) h = ground (arith, erase_not_mem t xs)
