-- ===== src/Ipc/Call.antt =====
-- kernel/ipc.c: `sys_ipc`, which sends, receives, starts a thread or sleeps. The last line of the source's
-- function is never reached: where there is no thread to send to, there is one to receive from.
use f9_kernel.Base.{
  ℕ, zero, suc, ◌+◌, ◌-◌, ◌*◌, ◌/◌, ◌%◌, ◌^◌, bit_and, Bool, true, false, not, ◌&&◌, ◌||◌, List,
  Option, none, some, ltb, ◌==◌, if◌then◌else◌,
}
use f9_kernel.Tcb.{Ptr, null, nilthread, ThreadState, inactive, recv_blocked, send_blocked}
use f9_kernel.ThreadMap.{ThreadMap, globalid_to_tid, thread_by_globalid}
use f9_kernel.Sched.{Run, ok, ◌>>=◌}
use f9_kernel.Memory.{Mempool, flags_at, mempool_search, addr_is_fpage_aligned}
use f9_kernel.Ipc.{
  IpcBlock, Ipc, set_block, ipc_mr_count, anythread, ipc_read_mr, n_untyped, n_typed, set_state,
  thread_make_runnable, ue_ipc_msg_overflow, ue_ipc_aborted, user_ipc_error, is_map_grant, map_item,
  do_ipc, without_low,
}

-- What `sys_ipc` calls that is not modelled: the log and interrupt threads, the context of a thread that
-- is started, the address of a new timer event, and TICKS_PER_SEC.
pub record Services : Type 0 where
  pub user_log : Ptr → Ipc → Ipc
  pub user_interrupt_config : Ptr → Ipc → Ipc
  pub user_interrupt_handler_update : Ptr → Ipc → Ipc
  pub init_context : Ptr → Ptr → Ipc → Ipc
  pub ktimer_event_create : ℕ → Ptr → Ipc → Ptr
  pub ticks_per_sec : ℕ

abbrev pub is_recv_blocked : ThreadState → Bool
is_recv_blocked recv_blocked = true
is_recv_blocked _ = false

abbrev pub is_send_blocked : ThreadState → Bool
is_send_blocked send_blocked = true
is_send_blocked _ = false

abbrev pub is_inactive : ThreadState → Bool
is_inactive inactive = true
is_inactive _ = false

-- TID_TO_GLOBALID of THREAD_LOG, THREAD_IRQ_REQUEST and THREAD_INTERRUPT
abbrev pub tid_to_globalid : ℕ → ℕ
tid_to_globalid tid = tid * 2 ^ 14

abbrev pub thread_interrupt : ℕ
thread_interrupt = 3

abbrev pub thread_irq_request : ℕ
thread_irq_request = 4

abbrev pub thread_log : ℕ
thread_log = 5

-- `thread_make_runnable(caller)`
abbrev pub go_on : Ptr → Ipc → Run Ipc
go_on caller k = thread_make_runnable caller k.sched >>= λ s. ok (record k { sched = s })

-- The ticks of a timeout: `m` in the 10 low bits of the word, `e` in the next 5.
abbrev pub timeout_ticks : ℕ → ℕ → ℕ
timeout_ticks ticks_per_sec timeout =
    timeout % 2 ^ 10 * 2 ^ (timeout / 2 ^ 10 % 2 ^ 5) % 2 ^ 32 / (1000000 / ticks_per_sec)

-- `if (timeout) sys_ipc_timeout(timeout);`
unfoldable pub sys_ipc_timeout : Services → Ptr → ℕ → Ipc → Ipc
sys_ipc_timeout sv caller timeout k =
    let event = sv.ktimer_event_create (timeout_ticks sv.ticks_per_sec timeout) caller k in
    if timeout == 0
    then k
    else set_block caller (record (k.block caller) { timeout_event = event }) k

-- An error of the caller, which goes on.
unfoldable pub refuse : ℕ → Ptr → Ipc → Run Ipc
refuse error caller k = go_on caller (set_block caller (user_ipc_error error (k.block caller)) k)

-- MP_UW
abbrev pub mp_uw : ℕ
mp_uw = 2 ^ 5

abbrev pub is_user_writable : List Mempool → Option ℕ → Bool
is_user_writable memmap none = false
is_user_writable memmap (some pid) = not (bit_and (flags_at memmap pid) mp_uw == 0)

-- The start of an inactive thread: MR2 is its stack pointer and MR3 the size of its stack.
unfoldable pub start_thread : Services → List Mempool → Ptr → Ptr → Ipc → Run Ipc
start_thread sv memmap caller to k =
    let sp = ipc_read_mr (k.block caller) 2 in
    let stack_size = ipc_read_mr (k.block caller) 3 in
    let bottom = (sp + (2 ^ 32 - stack_size % 2 ^ 32)) % 2 ^ 32 in
    if is_user_writable memmap (mempool_search memmap bottom stack_size)
    then go_on caller (sv.init_context caller to k) >>= go_on to
    else refuse ue_ipc_aborted caller k

-- The loop over `n` typed words for an inactive thread: the items are mapped, and nothing is copied. An
-- item whose base is not aligned ends the loop.
unfoldable pub map_items : List Mempool → ℕ → ℕ → Option ℕ → Ptr → Ptr → Ipc → Ipc
map_items memmap zero i item from to k = k
map_items memmap (suc n) i none from to k =
    map_items memmap n (i + 1) (some (ipc_read_mr (k.block from) i)) from to k
map_items memmap (suc n) i (some raw) from to k =
    let word = ipc_read_mr (k.block from) i in
    let (_, spaces) = map_item memmap from to raw word k in
    let k₁ = if is_map_grant raw then record k { spaces = spaces } else k in
    let rest =
      map_items memmap n (i + 1) (if is_map_grant raw then none else some raw) from to k₁ in
    if is_map_grant raw && not (addr_is_fpage_aligned (without_low raw)) then k else rest

-- A message of the pager to an inactive thread.
unfoldable pub send_inactive : Services → List Mempool → Ptr → Ptr → Ipc → Run Ipc
send_inactive sv memmap caller to k =
    let raw = ipc_read_mr (k.block caller) 0 in
    let untyped_last = n_untyped raw + 1 in
    if (n_untyped raw == 5) && (n_typed raw == 0)
    then start_thread sv memmap caller to k
    else if ltb ipc_mr_count (untyped_last + n_typed raw)
    then refuse ue_ipc_msg_overflow caller k
    else go_on caller (map_items memmap (n_typed raw) untyped_last none caller to k)

-- No receiver is ready: an error, or the caller waits for one.
unfoldable pub send_blocks : Services → ℕ → ℕ → Ptr → Ptr → Ipc → Run Ipc
send_blocks sv to_tid timeout caller to k =
    let b : IpcBlock = record (k.block caller) { intended_receiver = to_tid } in
    if to == null
    then refuse ue_ipc_aborted caller k
    else if is_inactive (k.sched.tcb to).state && (timeout == 0)
    then refuse ue_ipc_aborted caller k
    else ok (
        sys_ipc_timeout sv caller timeout
          (record (set_block caller b k) { sched = set_state caller send_blocked k.sched }))

-- `sys_ipc` with a thread to send to.
unfoldable pub sys_send : Services → List Mempool → ThreadMap → ℕ → ℕ → Ptr → Ipc → Run Ipc
sys_send sv memmap m to_tid timeout caller k =
    let to = thread_by_globalid k.sched.tcb m to_tid in
    let c = k.sched.tcb to in
    let pager = globalid_to_tid (k.block to).t_pager in
    if to_tid == tid_to_globalid thread_log
    then go_on caller (sv.user_log caller k)
    else if to_tid == tid_to_globalid thread_irq_request
    then go_on caller (sv.user_interrupt_config caller k)
    else if not (to == null)
        && (is_recv_blocked c.state || (to_tid == (k.sched.tcb caller).t_globalid))
    then do_ipc memmap caller to k
    else if not (to == null)
        && is_inactive c.state
        && not ((k.block to).utcb == null)
        && (pager == globalid_to_tid (k.sched.tcb caller).t_globalid)
    then send_inactive sv memmap caller to k
    else send_blocks sv to_tid timeout caller to k

-- Whether the thread waits to send to the caller.
abbrev pub sends_to : Ptr → Ptr → Ipc → Bool
sends_to caller thr k =
    not (thr == null)
    && is_send_blocked (k.sched.tcb thr).state
    && ((k.block thr).intended_receiver == (k.sched.tcb caller).t_globalid)

-- The search for a thread that waits to send to the caller, with `n` entries of the map left.
unfoldable pub find_sender : ℕ → ℕ → ThreadMap → Ptr → Ipc → Ptr
find_sender zero i m caller k = null
find_sender (suc n) i m caller k =
    let thr = m.thread_map i in
    let rest = find_sender n (i + 1) m caller k in if sends_to caller thr k then thr else rest

-- The caller waits to receive.
unfoldable pub receive_blocks : Services → ℕ → ℕ → Ptr → Ipc → Ipc
receive_blocks sv from_tid timeout caller k =
    let b : IpcBlock = record (k.block caller) { ipc_from = from_tid } in
    let k₁ = record (set_block caller b k) { sched = set_state caller recv_blocked k.sched } in
    sys_ipc_timeout sv caller timeout (
      if from_tid == tid_to_globalid thread_interrupt
      then sv.user_interrupt_handler_update caller k₁
      else k₁)

-- `sys_ipc` with a thread to receive from only.
unfoldable pub sys_receive : Services → List Mempool → ThreadMap → ℕ → ℕ → Ptr → Ipc → Run Ipc
sys_receive sv memmap m from_tid timeout caller k =
    let any = find_sender (m.thread_count - 1) 1 m caller k in
    let one = thread_by_globalid k.sched.tcb m from_tid in
    let waits = ok (receive_blocks sv from_tid timeout caller k) in
    if from_tid == anythread
    then (if any == null then waits else do_ipc memmap any caller k)
    else if not (from_tid == tid_to_globalid thread_interrupt) && sends_to caller one k
    then do_ipc memmap one caller k
    else waits

-- `sys_ipc`
unfoldable pub sys_ipc : Services → List Mempool → ThreadMap → Ptr → Ipc → Run Ipc
sys_ipc sv memmap m caller k =
    let to_tid = (k.sched.tcb caller).saved_r0 in
    let from_tid = (k.block caller).frame_r1 in
    let timeout = (k.block caller).frame_r2 in
    let asleep = record k { sched = set_state caller inactive k.sched } in
    if (to_tid == nilthread) && (from_tid == nilthread)
    then ok (sys_ipc_timeout sv caller timeout asleep)
    else if to_tid == nilthread
    then sys_receive sv memmap m from_tid timeout caller k
    else sys_send sv memmap m to_tid timeout caller k
