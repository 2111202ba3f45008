-- ===== src/ByteQueue/Tests.antt =====
-- Runs of the byte queue.
use f9_kernel.Base.{◌≡◌, true, [], ◌∷◌, arith}
use f9_kernel.ByteQueue.{Queue, queue_ok, queue_push, queue_is_empty}
use f9_kernel.ByteQueue.Fifo.{IsValid, push_full}

-- A queue of four bytes that wraps round, with one byte in it.
abbrev wrapped : Queue
wrapped = record { data_ = 10 ∷ 20 ∷ 30 ∷ 40 ∷ []; top = 2; end = 0; size = 4 }

wrapped-IsValid : IsValid wrapped
wrapped-IsValid = record {
  room = omega arith;
  word = omega arith;
  storage = omega arith;
  top_in = omega arith;
  end_in = omega arith;
}

-- The queue with one byte more.
abbrev full : Queue
full = record wrapped { end = 1 }

full-IsValid : IsValid full
full-IsValid = record {
  room = omega arith;
  word = omega arith;
  storage = omega arith;
  top_in = omega arith;
  end_in = omega arith;
}

push_full_example :
    ((queue_push full 5).0 ≡ queue_ok) × (queue_is_empty (queue_push full 5).1 ≡ true)
push_full_example = push_full full-IsValid 5 (ground arith)
