-- ===== src/ThreadMap/Update.antt =====
-- `thread_map_insert` and `thread_map_delete` keep the map sorted.
use f9_kernel.Base.{
  ℕ, zero, suc, ◌+◌, ◌-◌, ◌<◌, ◌≤◌, ◌≡◌, ◌≢◌, refl, false, inl, inr, arith, ◌==◌, ltb, leb,
  if◌then◌else◌, ◌&&◌, Bool-cases, ap, ◌∙◌,
}
use f9_kernel.Tcb.{Ptr, null, Tcb}
use f9_kernel.ThreadMap.{
  ThreadMap, globalid_to_tid, tid_of, thread_map_search, shift_up, shift_down, write_map,
  thread_map_insert, thread_map_delete, thread_by_globalid,
}
use f9_kernel.ThreadMap.Search.{
  IsMap, IsPoint, key_of, thread_map_search-IsPoint, thread_by_globalid_iff,
}

-- `shift_up` moves the `n` entries from `i` on one place up.
shift_up_lem :
    (n i : ℕ) (a : ℕ → Ptr) (k : ℕ)
    → shift_up n i a k ≡ (if ltb i k && leb k (i + n) then a (k - 1) else a k)
unfolding shift_up
shift_up_lem zero i a k = ground arith
shift_up_lem (suc n) i a k =
    ground (arith, shift_up_lem n i (write_map a (i + suc n) (a (i + n))) k, same)
  where
    same : k ≡ i + suc n → a (k - 1) ≡ a (i + n)
    same h = ap a (omega arith)

-- `shift_down` moves the `n` entries behind `i` one place down.
shift_down_lem :
    (n i : ℕ) (a : ℕ → Ptr) (k : ℕ)
    → shift_down n i a k ≡ (if leb i k && ltb k (i + n) then a (k + 1) else a k)
unfolding shift_down
shift_down_lem zero i a k = ground arith
shift_down_lem (suc n) i a k =
    ground (arith, shift_down_lem n (i + 1) (write_map a i (a (i + 1))) k, same)
  where
    same : k ≡ i → a (k + 1) ≡ a (i + 1)
    same h = ap a (omega arith)

module _ (tcb : Ptr → Tcb) (m : ThreadMap) (v : IsMap tcb m) (globalid : ℕ) where
  abbrev point : ℕ
  point = thread_map_search tcb m globalid m.thread_count

  -- What stands at each place after the insertion.
  insert_entry :
      (thr : Ptr) (k : ℕ)
      → k ≤ m.thread_count
      → (thread_map_insert tcb globalid thr m).thread_map k
        ≡ (if k == point then thr else if ltb k point then m.thread_map k else m.thread_map (k - 1))
  unfolding thread_map_insert
  insert_entry thr k le = ground (
    arith,
    thread_map_search-IsPoint tcb m v globalid,
    shift_up_lem (m.thread_count - point) point m.thread_map k,
  )

  insert_count :
      (thr : Ptr) → (thread_map_insert tcb globalid thr m).thread_count ≡ m.thread_count + 1
  unfolding thread_map_insert
  insert_count thr = ground arith

  -- What stands at each place after the deletion of the entry at the point.
  delete_entry :
      (k : ℕ)
      → point < m.thread_count
      → k + 1 < m.thread_count
      → (thread_map_delete tcb globalid m).thread_map k
        ≡ (if ltb k point then m.thread_map k else m.thread_map (k + 1))
  unfolding thread_map_delete
  delete_entry k here le =
      ground (arith, shift_down_lem (m.thread_count - 1 - point) point m.thread_map k)

  delete_count :
      point < m.thread_count → (thread_map_delete tcb globalid m).thread_count ≡ m.thread_count - 1
  unfolding thread_map_delete
  delete_count h = ground arith

  -- `thread_map_insert` of a new thread id keeps the map sorted, and makes the look-up find the
  -- thread.
  pub thread_map_insert-IsMap :
      (thr : Ptr)
      → thr ≢ null
      → tid_of tcb thr ≡ globalid_to_tid globalid
      → ((i : ℕ) → i < m.thread_count → key_of tcb m i ≢ globalid_to_tid globalid)
      → IsMap tcb (thread_map_insert tcb globalid thr m)
  thread_map_insert-IsMap thr ne id new = record {
    ascending = λ i j lt le. ground (
      arith,
      key_entry i (ground (arith, insert_count thr)),
      key_entry j (ground (arith, insert_count thr)),
      insert_count thr,
      pt.in_range,
      pt.before i,
      pt.after (j - 1),
      new (j - 1),
      v.ascending i j,
      v.ascending i (j - 1),
      v.ascending (i - 1) (j - 1),
    );
    entries = λ i lt. ground (
      arith,
      insert_entry thr i (ground (arith, insert_count thr)),
      insert_count thr,
      pt.in_range,
      v.entries i,
      v.entries (i - 1),
    );
  }
    where
      pt : IsPoint (key_of tcb m) m.thread_count (globalid_to_tid globalid) point
      pt = thread_map_search-IsPoint tcb m v globalid

      key_entry :
          (k : ℕ)
          → k ≤ m.thread_count
          → key_of tcb (thread_map_insert tcb globalid thr m) k ≡ (
              if k == point
              then globalid_to_tid globalid
              else if ltb k point
              then key_of tcb m k
              else key_of tcb m (k - 1))
      key_entry k le = ground (arith, ap (tid_of tcb) (insert_entry thr k le), id)

  -- `thread_map_delete` of a thread id in the map keeps it sorted.
  pub thread_map_delete-IsMap :
      (d : ℕ)
      → d < m.thread_count
      → key_of tcb m d ≡ globalid_to_tid globalid
      → IsMap tcb (thread_map_delete tcb globalid m)
  thread_map_delete-IsMap d lt id = record {
    ascending = λ i j h le. ground (
      arith,
      delete_entry i here (ground (arith, delete_count here)),
      delete_entry j here (ground (arith, delete_count here)),
      delete_count here,
      v.ascending i j,
      v.ascending i (j + 1),
      v.ascending (i + 1) (j + 1),
    );
    entries = λ i h. ground (
      arith,
      delete_entry i here (ground (arith, delete_count here)),
      delete_count here,
      v.entries i,
      v.entries (i + 1),
    );
  }
    where
      pt : IsPoint (key_of tcb m) m.thread_count (globalid_to_tid globalid) point
      pt = thread_map_search-IsPoint tcb m v globalid

      here : point < m.thread_count
      here = ground (arith, pt.before d, pt.in_range)

  -- After `thread_map_insert` of a new thread id the look-up finds the thread under that id, and
  -- under every other id what it found before.
  pub thread_by_globalid-insert :
      (thr : Ptr)
      → thr ≢ null
      → tid_of tcb thr ≡ globalid_to_tid globalid
      → ((i : ℕ) → i < m.thread_count → key_of tcb m i ≢ globalid_to_tid globalid)
      → (g : ℕ)
      → thread_by_globalid tcb (thread_map_insert tcb globalid thr m) g ≡ (
          if globalid_to_tid g == globalid_to_tid globalid then thr else thread_by_globalid tcb m g)
  thread_by_globalid-insert thr ne id new g =
      elim (Bool-cases (globalid_to_tid g == globalid_to_tid globalid)) [
        | inl same ↦ rw same (
            (thread_by_globalid_iff tcb m' v' g thr ne).1 (
              point,
              ground (arith, insert_count thr, pt.in_range),
              ground (arith, insert_entry thr point pt.in_range),
              ground (arith, insert_entry thr point pt.in_range),
            ))
        | inr other ↦ rw other (elim (Bool-cases (thread_by_globalid tcb m g == null)) [
          | inl gone ↦ elim (Bool-cases (thread_by_globalid tcb m' g == null)) [
            | inl none_too ↦ ground arith
            | inr some_now ↦
                absurd
                  (ground (arith, to_old other (thread_by_globalid tcb m' g) (ground arith) refl))
          ]
          | inr found ↦ to_new other (thread_by_globalid tcb m g) (ground arith) refl
        ])
      ]
    where
      pt : IsPoint (key_of tcb m) m.thread_count (globalid_to_tid globalid) point
      pt = thread_map_search-IsPoint tcb m v globalid

      m' : ThreadMap
      m' = thread_map_insert tcb globalid thr m

      v' : IsMap tcb m'
      v' = thread_map_insert-IsMap thr ne id new

      to_old :
          (globalid_to_tid g == globalid_to_tid globalid) ≡ false
          → (p : Ptr) → p ≢ null
          → thread_by_globalid tcb m' g ≡ p
          → thread_by_globalid tcb m g ≡ p
      to_old other p pn h =
          let (j, lt, at, key) = (thread_by_globalid_iff tcb m' v' g p pn).0 h in
          let le : j ≤ m.thread_count = ground (arith, insert_count thr) in
          let apart : j ≢ point = ground (arith, ap (tid_of tcb) (insert_entry thr j le)) in
          (thread_by_globalid_iff tcb m v g p pn).1 (
            if ltb j point then j else j - 1,
            ground (arith, pt.in_range),
            ground (arith, insert_entry thr j le),
            ground (arith, insert_entry thr j le),
          )

      to_new :
          (globalid_to_tid g == globalid_to_tid globalid) ≡ false
          → (p : Ptr) → p ≢ null
          → thread_by_globalid tcb m g ≡ p
          → thread_by_globalid tcb m' g ≡ p
      to_new other p pn h =
          let (i, lt, at, key) = (thread_by_globalid_iff tcb m v g p pn).0 h in
          let k : ℕ = if ltb i point then i else i + 1 in
          let le : k ≤ m.thread_count = ground arith in
          let entry : m'.thread_map k ≡ m.thread_map i = ground (arith, insert_entry thr k le) in
          (thread_by_globalid_iff tcb m' v' g p pn).1
            (k, ground (arith, insert_count thr), entry ∙ at, ap (tid_of tcb) entry ∙ key)
