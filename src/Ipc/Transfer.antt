-- ===== src/Ipc/Transfer.antt =====
-- A message without typed items: what `do_ipc` makes of the two threads.
use f9_kernel.Base.{ℕ, ◌<◌, ◌≡◌, ◌≢◌, sym, ap, ◌∙◌, false, not, List, leb, ◌==◌, if◌then◌else◌}
use f9_kernel.Tcb.{nilthread, Ptr, null, is_runnable}
use f9_kernel.Sched.Inv.{Queues, Holds}
use f9_kernel.Memory.{Mempool}
use f9_kernel.Ipc.{
  IpcBlock, Ipc, write_block, ipc_mr_count, anythread, ipc_read_mr, ipc_write_mr, n_untyped,
  n_typed, copy_untyped, no_timeout,
}
use f9_kernel.Ipc.Message.{envelope}
use f9_kernel.Ipc.Deliver.{block_self, block_ne, Switched}

-- A block whose timeout is cleared.
abbrev pub untimed : IpcBlock → IpcBlock
untimed b = record b { timeout_event = null }

module _ (k : Ipc) {from to : Ptr} (apart : from ≢ to) where
  pub no_timeout-from : (no_timeout to (no_timeout from k)).block from ≡ untimed (k.block from)
  no_timeout-from =
      block_ne to _ (no_timeout from k).block from apart
      ∙ block_self from (untimed (k.block from)) k.block

  pub no_timeout-to : (no_timeout to (no_timeout from k)).block to ≡ untimed (k.block to)
  no_timeout-to =
      block_self to _ (no_timeout from k).block
      ∙ ap untimed (block_ne from (untimed (k.block from)) k.block to (λ e. apart (sym e)))

  pub no_timeout-others :
      (q : Ptr) → q ≢ from → q ≢ to → (no_timeout to (no_timeout from k)).block q ≡ k.block q
  no_timeout-others q a b =
      block_ne to _ (no_timeout from k).block q b
      ∙ block_ne from (untimed (k.block from)) k.block q a

  pub raw_same :
      ipc_read_mr ((no_timeout to (no_timeout from k)).block from) 0 ≡ ipc_read_mr (k.block from) 0
  unfolding ipc_read_mr
  raw_same = ap (λ (b : IpcBlock). ipc_read_mr b 0) no_timeout-from

-- The blocks after the tag and `n` words are copied.
pub record Transferred (n : ℕ) (from to : Ptr) (f f' : Ptr → IpcBlock) : Type 0 where
  pub words :
      (j : ℕ)
      → ipc_read_mr (f' to) j ≡ (if leb j n then ipc_read_mr (f from) j else ipc_read_mr (f to) j)
  pub rest : envelope (f' to) ≡ envelope (f to)
  pub others : (q : Ptr) → q ≢ to → f' q ≡ f q

-- The kernel after a message of `n` untyped words was delivered.
pub record Delivered (n : ℕ) (from to : Ptr) (k k' : Ipc) : Type 0 where
  pub sched :
      Switched from to
        ((k.block to).ipc_from == anythread)
        (not ((k.block from).frame_r1 == nilthread))
        k.sched
        k'.sched
  pub words :
      (j : ℕ)
      → ipc_read_mr (k'.block to) j
        ≡ (if leb j n then ipc_read_mr (k.block from) j else ipc_read_mr (k.block to) j)
  pub receiver :
      envelope (k'.block to)
      ≡ envelope (record (k.block to) {
        timeout_event = null;
        sender = (k.sched.tcb from).t_globalid;
        ipc_from = nilthread;
      })
  pub sender : k'.block from ≡ record (k.block from) {
    timeout_event = null;
    ipc_from =
        if (k.block from).frame_r1 == nilthread
        then (k.block from).ipc_from
        else (k.block from).frame_r1;
  }
  pub others : (q : Ptr) → q ≢ from → q ≢ to → k'.block q ≡ k.block q
  pub spaces : k'.spaces ≡ k.spaces

-- The sender `from` waits in the kernel with a message of `n` untyped words and no typed ones, and both
-- threads have a stack.
pub record CanDeliver (n : ℕ) (from to : Ptr) (k : Ipc) (qs : Queues) : Type 0 where
  pub holds : Holds k.sched qs
  pub apart : from ≢ to
  pub from_ne : from ≢ null
  pub to_ne : to ≢ null
  pub idle : is_runnable (k.sched.tcb from).state ≡ false
  pub base : (k.sched.tcb from).base_priority < 32
  pub untyped : n_untyped (ipc_read_mr (k.block from) 0) ≡ n
  pub typed : n_typed (ipc_read_mr (k.block from) 0) ≡ 0
  pub short : n < ipc_mr_count
  pub from_sp : (k.block from).ctx_sp ≢ null
  pub to_sp : (k.block to).ctx_sp ≢ null

-- The sender's block as its receive phase leaves it.
abbrev receive_phase : IpcBlock → IpcBlock
receive_phase b = if b.frame_r1 == nilthread then b else record b { ipc_from = b.frame_r1 }

module _ (memmap : List Mempool) {n : ℕ} {from to : Ptr} {k : Ipc} {qs : Queues}
    (h : CanDeliver n from to k qs) where
  k₁ : Ipc
  k₁ = no_timeout to (no_timeout from k)

  -- `do_ipc` up to its last part.
  k₃ : Ipc
  k₃ = record k₁ {
    block =
        copy_untyped n 1 from to
          (write_block to (ipc_write_mr 0 (ipc_read_mr (k₁.block from) 0) (k₁.block to)) k₁.block);
  }
