-- ===== src/ThreadMap.antt =====
-- kernel/thread.c: `thread_map`, the array of threads sorted by thread id, and the binary search on
-- it. The array is a function from index to pointer, of which `thread_count` entries are in use.
pub mod Search
pub mod Update
mod Tests
use f9_kernel.Base.{
  ℕ, zero, suc, ◌+◌, ◌-◌, ◌/◌, ◌^◌, Bool, true, false, ◌||◌, ◌==◌, ltb, leb, if◌then◌else◌,
}
use f9_kernel.Tcb.{Ptr, null, Tcb}

pub record ThreadMap : Type 0 where
  pub thread_map : ℕ → Ptr
  pub thread_count : ℕ

-- `GLOBALID_TO_TID`
abbrev pub globalid_to_tid : ℕ → ℕ
globalid_to_tid id = id / 2 ^ 14

-- The thread ids of the threads, read through the control blocks.
abbrev pub tid_of : (Ptr → Tcb) → Ptr → ℕ
tid_of tcb p = globalid_to_tid (tcb p).t_globalid

-- The loop of `thread_map_search` with `n` rounds left. The interval shrinks in each round, so
-- `thread_count` rounds are enough.
unfoldable pub search_loop : ℕ → (ℕ → ℕ) → ℕ → ℕ → ℕ → ℕ
search_loop zero key tid from to = from
search_loop (suc n) key tid from to =
    let mid = from + (to - from) / 2 in
    let lower = search_loop n key tid from mid in
    let upper = search_loop n key tid (mid + 1) to in
    if ltb from to then (if leb tid (key mid) then lower else upper) else from

-- `thread_map_search`
unfoldable pub thread_map_search : (Ptr → Tcb) → ThreadMap → ℕ → ℕ → ℕ
thread_map_search tcb m globalid count =
    search_loop count (λ i. tid_of tcb (m.thread_map i)) (globalid_to_tid globalid) 0 count

abbrev pub write_map : (ℕ → Ptr) → ℕ → Ptr → ℕ → Ptr
write_map a i p k = if k == i then p else a k

-- `for (; j > i; --j) thread_map[j] = thread_map[j - 1];` with `n = j - i` rounds.
unfoldable pub shift_up : ℕ → ℕ → (ℕ → Ptr) → ℕ → Ptr
shift_up zero i a = a
shift_up (suc n) i a = shift_up n i (write_map a (i + suc n) (a (i + n)))

-- `for (; i < thread_count; i++) thread_map[i] = thread_map[i + 1];` with `n` rounds.
unfoldable pub shift_down : ℕ → ℕ → (ℕ → Ptr) → ℕ → Ptr
shift_down zero i a = a
shift_down (suc n) i a = shift_down n (i + 1) (write_map a i (a (i + 1)))

-- `thread_map_insert`
unfoldable pub thread_map_insert : (Ptr → Tcb) → ℕ → Ptr → ThreadMap → ThreadMap
thread_map_insert tcb globalid thr m =
    let n = m.thread_count in
    let i = thread_map_search tcb m globalid n in
    if n == 0
    then record { thread_map = write_map m.thread_map 0 thr; thread_count = 1 }
    else record {
      thread_map = write_map (shift_up (n - i) i m.thread_map) i thr;
      thread_count = n + 1;
    }

-- `thread_map_delete`
unfoldable pub thread_map_delete : (Ptr → Tcb) → ℕ → ThreadMap → ThreadMap
thread_map_delete tcb globalid m =
    let n = m.thread_count in
    let i = thread_map_search tcb m globalid n in
    if n == 1
    then record m { thread_count = 0 }
    else record { thread_map = shift_down (n - 1 - i) i m.thread_map; thread_count = n - 1 }

-- `thread_by_globalid`
unfoldable pub thread_by_globalid : (Ptr → Tcb) → ThreadMap → ℕ → Ptr
thread_by_globalid tcb m globalid =
    let idx = thread_map_search tcb m globalid m.thread_count in
    let thr = m.thread_map idx in
    if leb m.thread_count idx
    then null
    else if tid_of tcb thr == globalid_to_tid globalid
    then thr
    else null
