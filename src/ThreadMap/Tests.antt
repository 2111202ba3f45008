-- ===== src/ThreadMap/Tests.antt =====
-- Runs of the thread map.
use f9_kernel.Base.{ℕ, ◌+◌, ◌*◌, ◌^◌, ◌<◌, ◌≡◌, ◌≢◌, ◌↔◌, refl, arith, ◌==◌, if◌then◌else◌}
use f9_kernel.Sched.Example.{example_tcb}
use f9_kernel.ThreadMap.{ThreadMap, globalid_to_tid, thread_map_insert, thread_by_globalid}
use f9_kernel.ThreadMap.Search.{IsMap, key_of, thread_by_globalid_iff}
use f9_kernel.ThreadMap.Update.{thread_by_globalid-insert}

-- The threads 1, 2 and 4.
abbrev three_threads : ThreadMap
three_threads = record { thread_map = λ i. if i == 2 then 4 else i + 1; thread_count = 3 }

three_threads-IsMap : IsMap example_tcb three_threads
three_threads-IsMap = record { ascending = λ i j a b. ground arith; entries = λ i lt. ground arith }

thread_by_globalid_example : (thread_by_globalid example_tcb three_threads (4 * 2 ^ 14) ≡ 4) ↔ (
    (i : ℕ) × (i < 3)
    × (three_threads.thread_map i ≡ 4)
    × (key_of example_tcb three_threads i ≡ globalid_to_tid (4 * 2 ^ 14)))
thread_by_globalid_example =
    thread_by_globalid_iff example_tcb three_threads three_threads-IsMap (4 * 2 ^ 14) 4
      (ground arith)

not_in : (i : ℕ) → i < 3 → key_of example_tcb three_threads i ≢ globalid_to_tid (3 * 2 ^ 14)
not_in i lt = ground arith

thread_by_globalid-insert_example :
    thread_by_globalid example_tcb
      (thread_map_insert example_tcb (3 * 2 ^ 14) 3 three_threads)
      (4 * 2 ^ 14)
    ≡ (if globalid_to_tid (4 * 2 ^ 14) == globalid_to_tid (3 * 2 ^ 14)
        then 3
        else thread_by_globalid example_tcb three_threads (4 * 2 ^ 14))
thread_by_globalid-insert_example =
    thread_by_globalid-insert example_tcb three_threads three_threads-IsMap (3 * 2 ^ 14) 3
      (ground arith) refl not_in (4 * 2 ^ 14)
