-- ===== src/ThreadMap/Search.antt =====
-- The binary search finds the insertion point, and the look-up finds exactly the threads that are
-- in the map.
use f9_kernel.Base.{
  ℕ, zero, suc, ◌+◌, ◌-◌, ◌/◌, ◌<◌, ◌≤◌, ◌≡◌, ◌≢◌, ◌↔◌, inl, inr, ap, fun_ext, arith, ltb, leb,
  ◌==◌, if◌then◌else◌, Bool-cases,
}
use f9_kernel.Tcb.{Ptr, null, Tcb}
use f9_kernel.ThreadMap.{
  ThreadMap, globalid_to_tid, tid_of, search_loop, thread_map_search, thread_by_globalid,
}

-- Threads are looked up by their ids only.
pub thread_by_globalid_same :
    (tcb tcb' : Ptr → Tcb) (m : ThreadMap)
    → ((q : Ptr) → (tcb' q).t_globalid ≡ (tcb q).t_globalid)
    → (globalid : ℕ) → thread_by_globalid tcb' m globalid ≡ thread_by_globalid tcb m globalid
unfolding thread_by_globalid thread_map_search
thread_by_globalid_same tcb tcb' m ids globalid = ap (lookup globalid m) (fun_ext ids)
  where
    lookup : ℕ → ThreadMap → (Ptr → ℕ) → Ptr
    lookup globalid m id =
        let tid = λ (i : ℕ). globalid_to_tid (id (m.thread_map i)) in
        let key = globalid_to_tid globalid in
        let idx = search_loop m.thread_count tid key 0 m.thread_count in
        if leb m.thread_count idx then null else if tid idx == key then m.thread_map idx else null

-- The keys of the first `n` entries ascend.
abbrev pub Ascending : (ℕ → ℕ) → ℕ → Type 0
Ascending key n = (i j : ℕ) → i < j → j < n → key i < key j

-- `r` parts the keys below `tid` from the others, among the first `n`.
pub record IsPoint (key : ℕ → ℕ) (n tid r : ℕ) : Type 0 where
  pub in_range : r ≤ n
  pub before : (i : ℕ) → i < r → key i < tid
  pub after : (i : ℕ) → r ≤ i → i < n → tid ≤ key i

module _ (key : ℕ → ℕ) (n tid : ℕ) (up : Ascending key n) where
  search_loop-IsPoint :
      (k from to : ℕ)
      → from ≤ to
      → to ≤ n
      → to - from ≤ k
      → ((i : ℕ) → i < from → key i < tid)
      → ((i : ℕ) → to ≤ i → i < n → tid ≤ key i)
      → IsPoint key n tid (search_loop k key tid from to)
  unfolding search_loop
  search_loop-IsPoint zero from to le tn h lo hi = record {
    in_range = omega arith;
    before = lo;
    after = λ i a b. hi i (omega arith) b;
  }
  search_loop-IsPoint (suc k) from to le tn h lo hi = elim (Bool-cases (ltb from to)) [
    | inr done ↦
        rw done
          (record { in_range = omega arith; before = lo; after = λ i a b. hi i (ground arith) b })
    | inl more ↦
        let lt : from < to = ground arith in
        elim (Bool-cases (leb tid (key (from + (to - from) / 2)))) [
          | inl low ↦
              rw (more, low)
                (search_loop-IsPoint k from (from + (to - from) / 2) (omega arith) (omega arith)
                  (omega arith) lo (λ i a b. ground (arith, up (from + (to - from) / 2) i)))
          | inr high ↦
              rw (more, high)
                (search_loop-IsPoint k (from + (to - from) / 2 + 1) to (omega arith) tn
                  (omega arith) (λ i a. ground (arith, up i (from + (to - from) / 2))) hi)
        ]
  ]

module _ (tcb : Ptr → Tcb) (m : ThreadMap) where
  -- The thread ids of the map, by index.
  abbrev pub key_of : ℕ → ℕ
  key_of i = tid_of tcb (m.thread_map i)

  -- The map is sorted by thread id, no id stands twice, and no entry is `NULL`.
  pub record IsMap : Type 0 where
    pub ascending : Ascending key_of m.thread_count
    pub entries : (i : ℕ) → i < m.thread_count → m.thread_map i ≢ null

  module _ (v : IsMap) (globalid : ℕ) where
    -- `thread_map_search` returns the insertion point of the id.
    pub thread_map_search-IsPoint :
        IsPoint key_of m.thread_count
          (globalid_to_tid globalid)
          (thread_map_search tcb m globalid m.thread_count)
    unfolding thread_map_search
    thread_map_search-IsPoint =
        search_loop-IsPoint key_of m.thread_count (globalid_to_tid globalid) v.ascending
          m.thread_count 0 m.thread_count (omega arith) (omega arith) (omega arith)
          (λ i h. absurd (omega arith)) (λ i a b. absurd (omega arith))

    -- `thread_by_globalid` returns a thread exactly when it stands in the map with that thread id,
    -- and else `NULL`.
    pub thread_by_globalid_iff :
        (p : Ptr)
        → p ≢ null
        → (thread_by_globalid tcb m globalid ≡ p) ↔ (
            (i : ℕ) × (i < m.thread_count)
            × (m.thread_map i ≡ p)
            × (key_of i ≡ globalid_to_tid globalid))
    unfolding thread_by_globalid
    thread_by_globalid_iff p ne = (
      λ h. (idx, ground arith, ground arith, ground arith),
      λ (i, lt, at, e).
          let same : i ≡ idx = ground (
            arith,
            thread_map_search-IsPoint,
            thread_map_search-IsPoint.before i,
            thread_map_search-IsPoint.after idx,
            v.ascending idx i,
          ) in
          ground (arith, same),
    )
      where
        idx : ℕ
        idx = thread_map_search tcb m globalid m.thread_count
