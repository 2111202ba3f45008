-- ===== src/ByteQueue.antt =====
-- kernel/lib/queue.c: the byte queue of the debug UART. `top` and `end` are indices into `data`;
-- both advance before they are used, and start again at 0 when they reach `size - 1`.
pub mod Fifo
mod Tests
use f9_kernel.Base.{
  ℕ, ◌+◌, ◌-◌, ◌%◌, ◌^◌, Bool, Option, none, some, List, ◌==◌, leb, if◌then◌else◌, get_or, set,
}

-- `struct queue_t`
pub record Queue : Type 0 where
  pub data_ : List ℕ
  pub top : ℕ
  pub end : ℕ
  pub size : ℕ

-- QUEUE_OK, QUEUE_OVERFLOW and QUEUE_EMPTY
pub data Status : Type 0 where
  queue_ok queue_overflow queue_empty : Status

-- `queue_length`, on 32-bit words
unfoldable pub queue_length : Queue → ℕ
queue_length q =
    if leb q.top q.end then q.end - q.top else (q.size + q.top + 2 ^ 32 - q.end) % 2 ^ 32

-- `queue_init`
unfoldable pub queue_init : List ℕ → ℕ → Queue
queue_init addr size = record { data_ = addr; top = 0; end = 0; size = size }

-- `++i; if (i == size - 1) i = 0;`
abbrev pub advance : ℕ → ℕ → ℕ
advance size i = if (i + 1) % 2 ^ 32 == (size + 2 ^ 32 - 1) % 2 ^ 32 then 0 else (i + 1) % 2 ^ 32

-- `queue_push`
unfoldable pub queue_push : Queue → ℕ → Status × Queue
queue_push q element =
    let end = advance q.size q.end in
    if queue_length q == q.size
    then (queue_overflow, q)
    else (queue_ok, record q { end = end; data_ = set q.data_ end element })

-- `queue_is_empty`
unfoldable pub queue_is_empty : Queue → Bool
queue_is_empty q = queue_length q == 0

-- `queue_pop`; the option is what goes through `element`.
unfoldable pub queue_pop : Queue → Status × Option ℕ × Queue
queue_pop q =
    let top = advance q.size q.top in
    if queue_length q == 0
    then (queue_empty, none, q)
    else (queue_ok, some (get_or q.data_ top 0), record q { top = top })
