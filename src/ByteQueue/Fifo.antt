-- ===== src/ByteQueue/Fifo.antt =====
-- The byte queue against a list of bytes.
use f9_kernel.Base.{
  ℕ, zero, suc, ◌+◌, ◌-◌, ◌^◌, ◌<◌, ◌≤◌, ◌≡◌, ◌≢◌, refl, ap, ap₂, ◌∙◌, true, some, List, [], ◌∷◌,
  ◌++◌, arith, ◌==◌, leb, ltb, if◌then◌else◌, length, get_or, set, length-set, get_or-set_self,
  get_or-set_ne,
}
use f9_kernel.ByteQueue.{
  Queue, queue_ok, queue_length, queue_init, advance, queue_push, queue_is_empty, queue_pop,
}

-- Both indices stand below `size - 1`, and the storage holds `size` bytes.
pub record IsValid (q : Queue) : Type 0 where
  pub room : 2 ≤ q.size
  pub word : q.size ≤ 2 ^ 31
  pub storage : q.size ≤ length q.data_
  pub top_in : q.top < q.size - 1
  pub end_in : q.end < q.size - 1

-- How many bytes wait, out of at most `size - 2`.
abbrev pub count : Queue → ℕ
count q = if leb q.top q.end then q.end - q.top else q.size - 1 + q.end - q.top

-- The `n` bytes behind index `i`, round the end of the storage.
abbrev pub bytes : List ℕ → ℕ → ℕ → ℕ → List ℕ
bytes buf size i zero = []
bytes buf size i (suc n) = get_or buf (advance size i) 0 ∷ bytes buf size (advance size i) n

-- The bytes that wait, oldest first.
abbrev pub contents : Queue → List ℕ
contents q = bytes q.data_ q.size q.top (count q)

-- `queue_init` with room for a byte gives a valid queue with no byte in it.
pub queue_init-IsValid :
    (addr : List ℕ) (size : ℕ)
    → 2 ≤ size
    → size ≤ 2 ^ 31
    → size ≤ length addr
    → IsValid (queue_init addr size) × (contents (queue_init addr size) ≡ [])
unfolding queue_init
queue_init-IsValid addr size h w l =
    (record { room = h; word = w; storage = l; top_in = omega arith; end_in = omega arith }, refl)

module _ {q : Queue} (v : IsValid q) where
  -- `queue_push` keeps the indices inside the storage.
  pub queue_push-IsValid : (x : ℕ) → IsValid (queue_push q x).1
  unfolding queue_push queue_length
  queue_push-IsValid x = ground (arith, length-set q.data_ (advance q.size q.end) x)

  -- `queue_pop` keeps the indices inside the storage.
  pub queue_pop-IsValid : IsValid (queue_pop q).2
  unfolding queue_pop queue_length
  queue_pop-IsValid = ground arith

  -- `queue_is_empty` holds exactly when no byte waits.
  pub queue_is_empty-count : queue_is_empty q ≡ (count q == 0)
  unfolding queue_is_empty queue_length
  queue_is_empty-count = ground arith

-- The index reached from `i` in `k` steps, for at most one turn.
abbrev ahead : ℕ → ℕ → ℕ → ℕ
ahead size i k = if ltb (i + k) (size - 1) then i + k else i + k - (size - 1)

-- To write behind the last of `n` bytes adds a byte at the end.
bytes-set :
    (buf : List ℕ) (size x n i e : ℕ)
    → size ≤ 2 ^ 31
    → size ≤ length buf
    → i < size - 1
    → n + 1 < size
    → e ≡ ahead size i (n + 1)
    → bytes (set buf e x) size i (suc n) ≡ bytes buf size i n ++ (x ∷ [])
bytes-set buf size x zero i e w hs hi hn h =
    ap (λ (y : ℕ). y ∷ [])
      (ap (λ k. get_or (set buf e x) k 0) here ∙ get_or-set_self buf e x 0 (ground arith))
  where
    here : advance size i ≡ e
    here = ground arith
bytes-set buf size x (suc n) i e w hs hi hn h =
    ap₂ ◌∷◌ (get_or-set_ne buf x 0 apart)
      (bytes-set buf size x n (advance size i) e w hs (ground arith) (omega arith) (ground arith))
  where
    apart : e ≢ advance size i
    apart = ground arith

bytes_of_pos :
    (buf : List ℕ) (size i n : ℕ)
    → n ≢ 0
    → bytes buf size i n ≡ get_or buf (advance size i) 0 ∷ bytes buf size (advance size i) (n - 1)
bytes_of_pos buf size i zero h = absurd (h refl)
bytes_of_pos buf size i (suc n) h = ap (λ k. bytes buf size i (suc k)) (omega arith)

module _ {q : Queue} (v : IsValid q) where
  -- While fewer than `size - 2` bytes wait, `queue_push` appends its byte to those that wait.
  pub push-append :
      (x : ℕ)
      → count q < q.size - 2
      → let (s, q') = queue_push q x in (s ≡ queue_ok) × (contents q' ≡ contents q ++ (x ∷ []))
  unfolding queue_push queue_length
  push-append x free = (
    ground arith,
    ap (λ b. contents b) pushed
        ∙ ap (bytes (set q.data_ end' x) q.size q.top) grown
        ∙ bytes-set q.data_ q.size x (count q) q.top end' v.word v.storage v.top_in (ground arith)
            (ground arith),
  )
    where
      end' : ℕ
      end' = advance q.size q.end

      pushed : (queue_push q x).1 ≡ record q { end = end'; data_ = set q.data_ end' x }
      pushed = ground arith

      grown : (if leb q.top end' then end' - q.top else q.size - 1 + end' - q.top) ≡ suc (count q)
      grown = ground arith

  -- `queue_pop` of a queue with a byte in it returns the oldest byte and leaves the others.
  pub pop-cons :
      count q ≢ 0
      → (b : ℕ) × (q' : Queue) × (queue_pop q ≡ (queue_ok, some b, q'))
        × (contents q ≡ b ∷ contents q')
  unfolding queue_pop queue_length
  pop-cons pos = (
    get_or q.data_ top' 0,
    record q { top = top' },
    ground arith,
    bytes_of_pos q.data_ q.size q.top (count q) pos
        ∙ ap (λ n. get_or q.data_ top' 0 ∷ bytes q.data_ q.size top' n) shrunk,
  )
    where
      top' : ℕ
      top' = advance q.size q.top

      shrunk : count q - 1 ≡ (if leb top' q.end then q.end - top' else q.size - 1 + q.end - top')
      shrunk = ground arith

  -- Where `size - 2` bytes wait, all that the source's indices can tell apart, `queue_push` reports
  -- no overflow, and it leaves a queue that is empty for `queue_is_empty`.
  pub push_full :
      (x : ℕ)
      → count q ≡ q.size - 2
      → ((queue_push q x).0 ≡ queue_ok) × (queue_is_empty (queue_push q x).1 ≡ true)
  unfolding queue_push queue_length queue_is_empty
  push_full x full = ground arith
