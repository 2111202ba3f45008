-- ===== src/Sched/Ring.antt =====
-- Circular doubly linked lists, as predicates on the two link functions.
use f9_kernel.Base.{
  ℕ, ◌≡◌, ◌≢◌, true, false, ◌||◌, List, [], ◌∷◌, ◌++◌, arith, ◌==◌, has, distinct, erase, last,
  has-last, Bool-cases, inl, inr,
}

abbrev pub Links : Type 0
Links = ℕ → ℕ

-- From `a` the links lead through the nodes `bs` to `z`, and back.
abbrev pub Seg : Links → Links → ℕ → List ℕ → ℕ → Type 0
Seg nx pv a [] z = (nx a ≡ z) × (pv z ≡ a)
Seg nx pv a (b ∷ bs) z = (nx a ≡ b) × (pv b ≡ a) × Seg nx pv b bs z

module _ (nx pv : Links) where
  pub Seg-last :
      (a : ℕ) (bs : List ℕ) (z : ℕ) → Seg nx pv a bs z → (pv z ≡ last a bs) × (nx (last a bs) ≡ z)
  Seg-last a [] z s = (s.1, s.0)
  Seg-last a (b ∷ bs) z s = Seg-last b bs z s.2

  pub prev_mem :
      (t a : ℕ) (bs : List ℕ) (z : ℕ)
      → Seg nx pv a bs z
      → has t bs ≡ true
      → has (pv t) (a ∷ bs) ≡ true
  prev_mem t a [] z s h = cc
  prev_mem t a (b ∷ bs) z s h = ground (arith, prev_mem t b bs z s.2)

  pub next_mem :
      (t a : ℕ) (bs : List ℕ) (z : ℕ)
      → Seg nx pv a bs z
      → has t (a ∷ bs) ≡ true
      → (has (nx t) bs || nx t == z) ≡ true
  next_mem t a [] z s h = ground arith
  next_mem t a (b ∷ bs) z s h = ground (arith, next_mem t b bs z s.2)

  -- A node inside a segment is not its own neighbour.
  pub prev_ne :
      (t a : ℕ) (bs : List ℕ) (z : ℕ)
      → Seg nx pv a bs z
      → distinct (a ∷ bs) ≡ true
      → has t bs ≡ true
      → pv t ≢ t
  prev_ne t a [] z s d h = cc
  prev_ne t a (b ∷ bs) z s d h = ground (arith, prev_ne t b bs z s.2)

  pub next_ne :
      (t a : ℕ) (bs : List ℕ) (z : ℕ)
      → Seg nx pv a bs z
      → distinct (a ∷ bs) ≡ true
      → has z bs ≡ false
      → has t bs ≡ true
      → nx t ≢ t
  next_ne t a [] z s d zo h = cc
  next_ne t a (b ∷ []) z s d zo h = ground arith
  next_ne t a (b ∷ c ∷ cs) z s d zo h = ground (arith, next_ne t b (c ∷ cs) z s.2)

  -- A node is put behind the last one.
  pub Seg-snoc :
      (a : ℕ) (bs : List ℕ) (t z : ℕ)
      → Seg nx pv a bs t
      → nx t ≡ z
      → pv z ≡ t
      → Seg nx pv a (bs ++ (t ∷ [])) z
  Seg-snoc a [] t z s e f = (s.0, s.1, (e, f))
  Seg-snoc a (b ∷ bs) t z s e f = (s.0, s.1, Seg-snoc b bs t z s.2 e f)

  module _ (nx' pv' : Links) where
    -- The segment stays where the links that it uses stay.
    pub Seg-frame :
        (a : ℕ) (bs : List ℕ) (z : ℕ)
        → Seg nx pv a bs z
        → ((q : ℕ) → has q (a ∷ bs) ≡ true → nx' q ≡ nx q)
        → ((q : ℕ) → (has q bs || q == z) ≡ true → pv' q ≡ pv q)
        → Seg nx' pv' a bs z
    Seg-frame a [] z s n p = (ground (arith, n a), ground (arith, p z))
    Seg-frame a (b ∷ bs) z s n p = (
      ground (arith, n a),
      ground (arith, p b),
      Seg-frame b bs z s.2 (λ q h. n q (ground arith)) (λ q h. p q (ground arith)),
    )

    -- The last node is linked to another end.
    pub Seg-retarget :
        (a : ℕ) (bs : List ℕ) (z z' : ℕ)
        → Seg nx pv a bs z
        → distinct (a ∷ bs) ≡ true
        → nx' (last a bs) ≡ z'
        → pv' z' ≡ last a bs
        → ((q : ℕ) → has q (a ∷ bs) ≡ true → q ≢ last a bs → nx' q ≡ nx q)
        → ((q : ℕ) → has q bs ≡ true → pv' q ≡ pv q)
        → Seg nx' pv' a bs z'
    Seg-retarget a [] z z' s d e f n p = (e, f)
    Seg-retarget a (b ∷ bs) z z' s d e f n p = (
      ground (arith, n a, has-last b bs),
      ground (arith, p b),
      Seg-retarget b bs z z' s.2 (ground arith) e f (λ q h ne. n q (ground arith) ne)
          (λ q h. p q (ground arith)),
    )

    -- The node behind `a` is linked out.
    unlink_second :
        (t a : ℕ) (bs : List ℕ) (z : ℕ)
        → Seg nx pv a (t ∷ bs) z
        → distinct (a ∷ t ∷ bs) ≡ true
        → has z (t ∷ bs) ≡ false
        → nx' a ≡ nx t
        → pv' (nx t) ≡ a
        → ((q : ℕ) → q ≢ a → q ≢ t → nx' q ≡ nx q)
        → ((q : ℕ) → q ≢ nx t → q ≢ t → pv' q ≡ pv q)
        → Seg nx' pv' a bs z
    unlink_second t a [] z s d zo e f n p = (ground arith, ground arith)
    unlink_second t a (c ∷ cs) z s d zo e f n p = (
      ground arith,
      ground arith,
      Seg-frame c cs z s.2.2 (λ q h. n q (ground arith) (ground arith))
          (λ q h. p q (ground arith) (ground arith)),
    )

    -- A node inside is linked out: its neighbours point at one another.
    pub Seg-erase :
        (t a : ℕ) (bs : List ℕ) (z : ℕ)
        → Seg nx pv a bs z
        → distinct (a ∷ bs) ≡ true
        → has z bs ≡ false
        → has t bs ≡ true
        → nx' (pv t) ≡ nx t
        → pv' (nx t) ≡ pv t
        → ((q : ℕ) → q ≢ pv t → q ≢ t → nx' q ≡ nx q)
        → ((q : ℕ) → q ≢ nx t → q ≢ t → pv' q ≡ pv q)
        → Seg nx' pv' a (erase t bs) z
    Seg-erase t a [] z s d zo h e f n p = cc
    Seg-erase t a (b ∷ bs) z s d zo h e f n p = elim (Bool-cases (t == b)) [
      | inl hit ↦
          let same : t ≡ b = ground arith in
          rw hit (
            unlink_second t a bs z (rw same s) (rw same d) (rw same zo) (ground arith)
              (ground arith) (λ q. ground (arith, n q)) p)
      | inr miss ↦
          let inside : has t bs ≡ true = ground arith in
          rw miss (
            ground (arith, n a, prev_mem t b bs z s.2 inside),
            ground (arith, p b, next_mem t b bs z s.2 (ground arith)),
            Seg-erase t b bs z s.2 (ground arith) (ground arith) inside e f n p,
          )
    ]
