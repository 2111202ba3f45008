-- ===== src/Notify/Mask/Slots.antt =====
-- The slots of a notification mask: each waiting thread has one, and they are counted.
use f9_kernel.Base.{
  ℕ, suc, ◌+◌, ◌<◌, ◌≤◌, ◌≡◌, ◌≢◌, refl, ap, ◌∙◌, inl, inr, arith, Bool, true, false, not, ◌||◌,
  ◌&&◌, Option, none, some, List, [], ◌∷◌, length, set, ◌==◌, if◌then◌else◌, Bool-cases,
}
use f9_kernel.Tcb.{nilthread}
use f9_kernel.Notify.Mask.{Slot, empty_slot, find_slot, unwait_slots}

-- The number of slots in use.
abbrev pub occupied : List Slot → ℕ
occupied [] = 0
occupied (w ∷ ws) = let n = occupied ws in if w.waiter_id == nilthread then n else suc n

abbrev pub has_waiter : ℕ → List Slot → Bool
has_waiter gid [] = false
has_waiter gid (w ∷ ws) = (w.waiter_id == gid) || has_waiter gid ws

-- The slot of a thread.
abbrev pub slot_of : ℕ → List Slot → Option Slot
slot_of gid [] = none
slot_of gid (w ∷ ws) = if w.waiter_id == gid then some w else slot_of gid ws

-- No thread has two slots.
abbrev pub unique : List Slot → Bool
unique [] = true
unique (w ∷ ws) = ((w.waiter_id == nilthread) || not (has_waiter w.waiter_id ws)) && unique ws

-- Slot `k` of `ws` may be given to `w`: `more` waiters are added, and other threads keep their slots.
pub record Written (w : Slot) (ws : List Slot) (k more : ℕ) : Type 0 where
  pub mine : slot_of w.waiter_id (set ws k w) ≡ some w
  pub others : (h : ℕ) → h ≢ nilthread → h ≢ w.waiter_id → slot_of h (set ws k w) ≡ slot_of h ws
  pub counts : occupied (set ws k w) ≡ more + occupied ws
  pub waiters :
      (h : ℕ) → h ≢ nilthread → has_waiter h (set ws k w) ≡ ((h == w.waiter_id) || has_waiter h ws)
  pub once : unique ws ≡ true → unique (set ws k w) ≡ true

pub occupied-le : (ws : List Slot) → occupied ws ≤ length ws
occupied-le [] = omega arith
occupied-le (w ∷ ws) = ground (arith, occupied-le ws)

add_zero : (i : ℕ) → i + 0 ≡ i
add_zero i = omega arith

-- A slot found `k` slots from `i` on.
abbrev found : ℕ → Bool → Option (ℕ × Bool)
found i b = some (i, b)

shift : (i k : ℕ) (b : Bool) → found (i + 1 + k) b ≡ found (i + suc k) b
shift i k b = let e : i + 1 + k ≡ i + suc k = omega arith in ap (λ n. found n b) e

find_slot-next :
    (gid : ℕ) (v : Slot) (ws : List Slot) (i k : ℕ) (b : Bool)
    → (v.waiter_id == gid) ≡ false
    → find_slot gid ws (i + 1) (if v.waiter_id == nilthread then some i else none)
      ≡ found (i + 1 + k) b
    → find_slot gid (v ∷ ws) i none ≡ found (i + suc k) b
unfolding find_slot
find_slot-next gid v ws i k b other e = elim (Bool-cases (v.waiter_id == nilthread)) [
  | inl free ↦ rw (other, free) ((rw free at e) ∙ shift i k b)
  | inr used ↦ rw (other, used) ((rw used at e) ∙ shift i k b)
]

find_slot-skip :
    (gid : ℕ) (v : Slot) (ws : List Slot) (i j k : ℕ) (b : Bool)
    → (v.waiter_id == gid) ≡ false
    → find_slot gid ws (i + 1) (some j) ≡ found (i + 1 + k) b
    → find_slot gid (v ∷ ws) i (some j) ≡ found (i + suc k) b
unfolding find_slot
find_slot-skip gid v ws i j k b other e = rw other (e ∙ shift i k b)

module _ (w : Slot) (real : w.waiter_id ≢ nilthread) where
  -- The first slot is the thread's, or is free and the thread has none.
  first_update : (v : Slot) (ws : List Slot) → v.waiter_id ≡ w.waiter_id → Written w (v ∷ ws) 0 0
  first_update v ws e = record {
    mine = ground arith;
    others = λ h nh ne. ground (arith, e);
    counts = ground (arith, e);
    waiters = λ h nh. ground (arith, e);
    once = λ u. rw e at u;
  }

  first_free :
      (v : Slot) (ws : List Slot)
      → v.waiter_id ≡ nilthread
      → has_waiter w.waiter_id ws ≡ false
      → Written w (v ∷ ws) 0 1
  first_free v ws e new = record {
    mine = ground arith;
    others = λ h nh ne. ground (arith, e);
    counts = ground (arith, e);
    waiters = λ h nh. ground (arith, e);
    once = λ u. ground (arith, u, new);
  }

  next_slot :
      (v : Slot) (ws : List Slot) (k more : ℕ)
      → v.waiter_id ≢ w.waiter_id
      → Written w ws k more
      → Written w (v ∷ ws) (suc k) more
  next_slot v ws k more ne r = record {
    mine = ground (arith, r.mine);
    others = λ h nh o. ground (arith, r.others h nh o);
    counts = ground (arith, r.counts);
    waiters = λ h nh. ground (arith, r.waiters h nh);
    once = λ u. elim (Bool-cases (v.waiter_id == nilthread)) [
      | inl free ↦ ground (arith, free, r.once, u)
      | inr used ↦ ground (arith, used, r.once, r.waiters v.waiter_id (ground arith), u)
    ];
  }

  -- A waiter's own slot is found.
  pub find_slot-update :
      (ws : List Slot) (i : ℕ) (slot : Option ℕ)
      → has_waiter w.waiter_id ws ≡ true
      → (k : ℕ) × (find_slot w.waiter_id ws i slot ≡ some (i + k, true)) × Written w ws k 0
  unfolding find_slot
  find_slot-update [] i slot h = ground arith
  find_slot-update (v ∷ ws) i (some j) h = elim (Bool-cases (v.waiter_id == w.waiter_id)) [
    | inl same ↦ (0, rw (same, add_zero i) refl, first_update v ws (ground arith))
    | inr other ↦
        let (k, e, r) = find_slot-update ws (i + 1) (some j) (ground (arith, h, other)) in
        (
          suc k,
          find_slot-skip w.waiter_id v ws i j k true other e,
          next_slot v ws k 0 (ground arith) r,
        )
  ]
  find_slot-update (v ∷ ws) i none h = elim (Bool-cases (v.waiter_id == w.waiter_id)) [
    | inl same ↦ (0, rw (same, add_zero i) refl, first_update v ws (ground arith))
    | inr other ↦
        let (k, e, r) =
          find_slot-update ws (i + 1) (if v.waiter_id == nilthread then some i else none)
            (ground (arith, h, other)) in
        (
          suc k,
          find_slot-next w.waiter_id v ws i k true other e,
          next_slot v ws k 0 (ground arith) r,
        )
  ]

  find_slot-kept :
      (ws : List Slot) (i j : ℕ)
      → has_waiter w.waiter_id ws ≡ false
      → find_slot w.waiter_id ws i (some j) ≡ some (j, false)
  unfolding find_slot
  find_slot-kept [] i j h = refl
  find_slot-kept (v ∷ ws) i j h = ground (arith, find_slot-kept ws (i + 1) j)

  -- For another thread a free slot is found, if there is one.
  pub find_slot-free :
      (ws : List Slot) (i : ℕ)
      → has_waiter w.waiter_id ws ≡ false
      → occupied ws < length ws
      → (k : ℕ) × (find_slot w.waiter_id ws i none ≡ some (i + k, false)) × Written w ws k 1
  unfolding find_slot
  find_slot-free [] i h room = absurd (omega (arith, room))
  find_slot-free (v ∷ ws) i h room = elim (Bool-cases (v.waiter_id == nilthread)) [
    | inl free ↦
        let kept = find_slot-kept ws (i + 1) i (ground (arith, h)) in
        let other : (v.waiter_id == w.waiter_id) ≡ false = ground (arith, h) in
        (0, rw (other, free, add_zero i) kept, first_free v ws (ground arith) (ground (arith, h)))
    | inr used ↦
        let (k, e, r) = find_slot-free ws (i + 1) (ground (arith, h)) (ground (arith, room)) in
        let other : (v.waiter_id == w.waiter_id) ≡ false = ground (arith, h) in
        (
          suc k,
          find_slot-next w.waiter_id v ws i k false other (rw used e),
          next_slot v ws k 1 (ground arith) r,
        )
  ]

  pub find_slot-none :
      (ws : List Slot) (i : ℕ)
      → has_waiter w.waiter_id ws ≡ false
      → length ws ≤ occupied ws
      → find_slot w.waiter_id ws i none ≡ none
  unfolding find_slot
  find_slot-none [] i h full = refl
  find_slot-none (v ∷ ws) i h full =
      let some_used = occupied-le ws in ground (arith, find_slot-none ws (i + 1), h, full)

-- Taking a waiter out: it has no slot then, and the other threads keep theirs.
pub record Removed (gid : ℕ) (ws ws' : List Slot) : Type 0 where
  pub size : length ws' ≡ length ws
  pub counts : suc (occupied ws') ≡ occupied ws
  pub mine : unique ws ≡ true → has_waiter gid ws' ≡ false
  pub others : (h : ℕ) → h ≢ nilthread → h ≢ gid → slot_of h ws' ≡ slot_of h ws
  pub fewer : (h : ℕ) → h ≢ nilthread → has_waiter h ws ≡ false → has_waiter h ws' ≡ false
  pub once : unique ws ≡ true → unique ws' ≡ true

module _ (gid : ℕ) (real : gid ≢ nilthread) where
  first_Removed :
      (v : Slot) (ws : List Slot) → v.waiter_id ≡ gid → Removed gid (v ∷ ws) (empty_slot ∷ ws)
  first_Removed v ws e = record {
    size = refl;
    counts = ground (arith, e);
    mine = λ u. ground (arith, rw e at u);
    others = λ h nh ne. ground (arith, e);
    fewer = λ h nh f. ground (arith, e);
    once = λ u. ground (arith, u);
  }

  next_Removed :
      (v : Slot) (ws ws' : List Slot)
      → v.waiter_id ≢ gid
      → Removed gid ws ws'
      → Removed gid (v ∷ ws) (v ∷ ws')
  next_Removed v ws ws' ne r = record {
    size = ap suc r.size;
    counts = ground (arith, r.counts);
    mine = λ u. ground (arith, r.mine, u);
    others = λ h nh o. ground (arith, r.others h nh o);
    fewer = λ h nh f. ground (arith, r.fewer h nh);
    once = λ u. elim (Bool-cases (v.waiter_id == nilthread)) [
      | inl free ↦ ground (arith, free, r.once, u)
      | inr used ↦ ground (arith, used, r.once, r.fewer v.waiter_id (ground arith), u)
    ];
  }

  pub unwait_slots-Removed :
      (ws : List Slot)
      → has_waiter gid ws ≡ true
      → (ws' : List Slot) × (unwait_slots gid ws ≡ some ws') × Removed gid ws ws'
  unfolding unwait_slots
  unwait_slots-Removed [] h = ground arith
  unwait_slots-Removed (v ∷ ws) h = elim (Bool-cases (v.waiter_id == gid)) [
    | inl same ↦ (empty_slot ∷ ws, rw same refl, first_Removed v ws (ground arith))
    | inr other ↦
        let (ws', e, r) = unwait_slots-Removed ws (ground (arith, h, other)) in
        (v ∷ ws', rw (other, e) refl, next_Removed v ws ws' (ground arith) r)
  ]

  pub unwait_slots-none : (ws : List Slot) → has_waiter gid ws ≡ false → unwait_slots gid ws ≡ none
  unfolding unwait_slots
  unwait_slots-none [] h = refl
  unwait_slots-none (v ∷ ws) h =
      let other : (v.waiter_id == gid) ≡ false = ground (arith, h) in
      rw (other, unwait_slots-none ws (ground (arith, h))) refl
