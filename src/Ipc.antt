-- ===== src/Ipc.antt =====
-- kernel/ipc.c: the transfer of a message from one thread to another, and timeouts of IPC. The fields of
-- `struct tcb` and of its UTCB that only IPC uses stand in a record of their own.
-- The callback `ipc_notify` after a delivery is left out.
pub mod Call
pub mod Deliver
pub mod Fail
pub mod Message
pub mod Transfer
pub mod Wake
mod Tests
use f9_kernel.Base.{
  ℕ, zero, suc, ◌+◌, ◌-◌, ◌/◌, ◌%◌, ◌^◌, bit_or, Bool, true, false, not, ◌&&◌, ◌||◌, List, Option,
  none, some, ltb, ◌==◌, if◌then◌else◌,
}
use f9_kernel.Tcb.{Ptr, null, nilthread, Tcb, ThreadState, runnable, recv_blocked, send_blocked}
use f9_kernel.ThreadMap.{globalid_to_tid}
use f9_kernel.Sched.{Sched, Run, ok, ◌>>=◌, set_tcb, sched_enqueue, sched_set_priority}
use f9_kernel.Memory.{Mempool, addr_is_fpage_aligned}
use f9_kernel.AddressSpace.{Spaces}
use f9_kernel.AddressSpace.MapArea.{map_area}

-- What IPC reads and writes of a thread beside the fields of `Tcb`: the registers R4 to R11 that its
-- context saves, the short message buffer, `mr` of its UTCB, R1 and R2 of its exception frame, and so
-- on.
pub record IpcBlock : Type 0 where
  pub regs : ℕ → ℕ
  pub msg_buffer : ℕ → ℕ
  pub mr : ℕ → ℕ
  pub ctx_sp : Ptr
  pub frame_r1 : ℕ
  pub frame_r2 : ℕ
  pub ipc_from : ℕ
  pub timeout_event : Ptr
  pub intended_receiver : ℕ
  pub sender : ℕ
  pub error_code : ℕ
  pub as_ : Ptr
  pub t_pager : ℕ
  pub utcb : Ptr

pub record Ipc : Type 0 where
  pub sched : Sched
  pub block : Ptr → IpcBlock
  pub spaces : Spaces

abbrev pub write_block : Ptr → IpcBlock → (Ptr → IpcBlock) → Ptr → IpcBlock
write_block p b f q = if q == p then b else f q

abbrev pub set_block : Ptr → IpcBlock → Ipc → Ipc
set_block p b k = record k { block = write_block p b k.block }

-- IPC_MR_COUNT
abbrev pub ipc_mr_count : ℕ
ipc_mr_count = 48

-- L4_ANYTHREAD
abbrev pub anythread : ℕ
anythread = 0xFFFFFFFF

-- SCHED_PRIO_IPC
abbrev pub prio_ipc : ℕ
prio_ipc = 3

-- THREAD_ROOT
abbrev pub thread_root : ℕ
thread_root = 2

-- `ipc_read_mr`
unfoldable pub ipc_read_mr : IpcBlock → ℕ → ℕ
ipc_read_mr b i =
    if ltb i 8 then b.regs i else if ltb i 40 then b.msg_buffer (i - 8) else b.mr (i - 40)

abbrev pub write_word : (ℕ → ℕ) → ℕ → ℕ → ℕ → ℕ
write_word a i v j = if j == i then v else a j

-- `ipc_write_mr`
unfoldable pub ipc_write_mr : ℕ → ℕ → IpcBlock → IpcBlock
ipc_write_mr i v b =
    if ltb i 8
    then record b { regs = write_word b.regs i v }
    else if ltb i 40
    then record b { msg_buffer = write_word b.msg_buffer (i - 8) v }
    else record b { mr = write_word b.mr (i - 40) v }

-- `n_untyped` and `n_typed` of a message tag.
abbrev pub n_untyped : ℕ → ℕ
n_untyped raw = raw % 2 ^ 6

abbrev pub n_typed : ℕ → ℕ
n_typed raw = raw / 2 ^ 6 % 2 ^ 6

-- `thread_make_runnable`
unfoldable pub thread_make_runnable : Ptr → Sched → Run Sched
thread_make_runnable thr s =
    sched_enqueue thr (set_tcb thr (record (s.tcb thr) { state = runnable }) s)

-- Back to the base priority, as `thread_make_sender_runnable` and `do_ipc` do it.
unfoldable pub restore_priority : Ptr → Sched → Run Sched
restore_priority thr s =
    let c = s.tcb thr in
    if c.priority == c.base_priority then ok s else sched_set_priority thr c.base_priority s

-- `thread_make_sender_runnable`
unfoldable pub thread_make_sender_runnable : Ptr → Sched → Run Sched
thread_make_sender_runnable thr s = restore_priority thr s >>= thread_make_runnable thr

-- `enum user_error_t`, as far as IPC uses it; the phase of receiving adds 1.
abbrev pub ue_ipc_phase_recv : ℕ
ue_ipc_phase_recv = 1

abbrev pub ue_ipc_timeout : ℕ
ue_ipc_timeout = 2

abbrev pub ue_ipc_msg_overflow : ℕ
ue_ipc_msg_overflow = 8

abbrev pub ue_ipc_aborted : ℕ
ue_ipc_aborted = 14

-- `user_ipc_error`: the flag 0x8 of the tag is set.
abbrev pub user_ipc_error : ℕ → IpcBlock → IpcBlock
user_ipc_error error b = record (ipc_write_mr 0 (bit_or (ipc_read_mr b 0) (2 ^ 15)) b) {
  error_code = error;
}

abbrev pub set_state : Ptr → ThreadState → Sched → Sched
set_state p st s = set_tcb p (record (s.tcb p) { state = st }) s

-- `do_ipc_error`; all its callers give T_RUNNABLE for both states.
unfoldable pub do_ipc_error : Ptr → Ptr → ℕ → Ipc → Ipc
do_ipc_error from to error k =
    let k₁ = set_block from (user_ipc_error error (k.block from)) k in
    let k₂ = set_block to (user_ipc_error (error + ue_ipc_phase_recv) (k₁.block to)) k₁ in
    record k₂ { sched = set_state to runnable (set_state from runnable k₂.sched) }

-- The loop that copies `n` untyped words from the `i`-th on.
unfoldable pub copy_untyped : ℕ → ℕ → Ptr → Ptr → (Ptr → IpcBlock) → Ptr → IpcBlock
copy_untyped zero i from to f = f
copy_untyped (suc n) i from to f =
    copy_untyped n (i + 1) from to
      (write_block to (ipc_write_mr i (ipc_read_mr (f from) i) (f to)) f)

-- `thread_ispriviliged`
abbrev pub thread_ispriviliged : Tcb → Bool
thread_ispriviliged c = globalid_to_tid c.t_globalid == thread_root

-- IPC_TI_MAP_GRANT and IPC_TI_GRANT in the header of a typed item.
abbrev pub is_map_grant : ℕ → Bool
is_map_grant raw = raw / 8 % 2 == 1

abbrev pub is_grant : ℕ → Bool
is_grant raw = raw / 2 % 2 == 1

-- `x & 0xFFFFFFC0`
abbrev pub without_low : ℕ → ℕ
without_low x = x - x % 64

-- The call of `map_area` for an item; the first component is whether it succeeds.
abbrev pub map_item : List Mempool → Ptr → Ptr → ℕ → ℕ → Ipc → Bool × Spaces
map_item memmap from to raw typed_data k =
    if addr_is_fpage_aligned (without_low raw)
    then map_area memmap (k.block from).as_ (k.block to).as_ (without_low raw)
        (without_low typed_data) (not (is_grant raw)) (thread_ispriviliged (k.sched.tcb from))
        k.spaces
    else (false, k.spaces)

-- The loop over `n` typed words from the `i`-th on. `item` is the tag of the item that is being read,
-- if there is one; the first component is false where the loop ends in an error.
unfoldable pub copy_typed : List Mempool → ℕ → ℕ → Option ℕ → Ptr → Ptr → Ipc → Bool × Ipc
copy_typed memmap zero i item from to k = (true, k)
copy_typed memmap (suc n) i none from to k =
    let word = ipc_read_mr (k.block from) i in
    copy_typed memmap n (i + 1) (some word) from to
      (set_block to (ipc_write_mr i word (k.block to)) k)
copy_typed memmap (suc n) i (some raw) from to k =
    let word = ipc_read_mr (k.block from) i in
    let k₁ = set_block to (ipc_write_mr i word (k.block to)) k in
    let (mapped, spaces) = map_item memmap from to raw word k₁ in
    let k₂ = if is_map_grant raw then record k₁ { spaces = spaces } else k₁ in
    let rest =
      copy_typed memmap n (i + 1) (if is_map_grant raw then none else some raw) from to k₂ in
    if is_map_grant raw && not mapped then (false, k₂) else rest

-- `do_ipc` from the write of the receiver's R0 on: the receiver goes on.
unfoldable pub wake_receiver : Ptr → Ptr → Ipc → Run Ipc
wake_receiver from to k =
    let id = (k.sched.tcb from).t_globalid in
    let b = k.block to in
    let s = set_tcb to (record (k.sched.tcb to) { saved_r0 = id }) k.sched in
    (if b.ipc_from == anythread then sched_set_priority to prio_ipc s else ok s)
    >>= thread_make_runnable to
    >>= λ s₁.
        ok (record (set_block to (record b { sender = id; ipc_from = nilthread }) k) { sched = s₁ })

-- The sender goes on, or waits for a message if it has a receive phase.
unfoldable pub finish_sender : Ptr → Ipc → Run Ipc
finish_sender from k =
    let b = k.block from in
    if b.frame_r1 == nilthread
    then (thread_make_sender_runnable from k.sched >>= λ s. ok (record k { sched = s }))
    else restore_priority from k.sched >>= λ s.
        ok (record (set_block from (record b { ipc_from = b.frame_r1 }) k) {
          sched = set_state from recv_blocked s;
        })

-- `do_ipc` after the words are copied.
unfoldable pub end_ipc : Ptr → Ptr → Bool × Ipc → Run Ipc
end_ipc from to (false, k) = ok (do_ipc_error from to ue_ipc_aborted k)
end_ipc from to (true, k) =
    if ((k.block to).ctx_sp == null) || ((k.block from).ctx_sp == null)
    then ok (do_ipc_error from to ue_ipc_aborted k)
    else wake_receiver from to k >>= finish_sender from

abbrev pub no_timeout : Ptr → Ipc → Ipc
no_timeout p k = set_block p (record (k.block p) { timeout_event = null }) k

-- `do_ipc`
unfoldable pub do_ipc : List Mempool → Ptr → Ptr → Ipc → Run Ipc
do_ipc memmap from to k =
    let k₁ = no_timeout to (no_timeout from k) in
    let raw = ipc_read_mr (k₁.block from) 0 in
    let untyped_last = n_untyped raw + 1 in
    let typed_last = untyped_last + n_typed raw in
    let k₂ = set_block to (ipc_write_mr 0 raw (k₁.block to)) k₁ in
    let k₃ = record k₂ { block = copy_untyped (n_untyped raw) 1 from to k₂.block } in
    if ltb ipc_mr_count typed_last
    then ok (do_ipc_error from to ue_ipc_msg_overflow k₁)
    else end_ipc from to (copy_typed memmap (n_typed raw) untyped_last none from to k₃)

abbrev pub timed_out : ThreadState → IpcBlock → IpcBlock
timed_out recv_blocked b = user_ipc_error (ue_ipc_timeout + ue_ipc_phase_recv) b
timed_out send_blocked b = user_ipc_error ue_ipc_timeout b
timed_out _ b = b

-- `ipc_timeout` for the event `event` of the thread `thr`.
unfoldable pub ipc_timeout : Ptr → Ptr → Ipc → Run Ipc
ipc_timeout event thr k =
    let b = k.block thr in
    let b' = timed_out (k.sched.tcb thr).state b in
    if b.timeout_event == event
    then (thread_make_runnable thr k.sched >>= λ s.
        ok (record (set_block thr (record b' { timeout_event = null }) k) { sched = s }))
    else ok k
