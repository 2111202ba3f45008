-- ===== src/Ipc/Tests.antt =====
-- Runs of IPC on a concrete state.
use f9_kernel.Base.{ℕ, ◌+◌, ◌<◌, ◌≡◌, refl, arith, [], ◌==◌, if◌then◌else◌}
use f9_kernel.Tcb.{Tcb, svc_blocked, recv_blocked}
use f9_kernel.Sched.{Sched, ok, set_tcb}
use f9_kernel.Sched.Inv.{Holds}
use f9_kernel.Sched.Store.{set_tcb-Holds}
use f9_kernel.Sched.Example.{thread, example, example_queues, example-Holds}
use f9_kernel.Fpage.{Fpage}
use f9_kernel.AddressSpace.{Spaces, new_space}
use f9_kernel.Ipc.{IpcBlock, Ipc, ipc_mr_count, ipc_read_mr, n_untyped, n_typed, do_ipc}
use f9_kernel.Ipc.Fail.{Stranded, Corrupt, do_ipc_strands, self_ipc_corrupts}

abbrev no_page : Fpage
no_page = record { base = 0; mpid = 0; flags = 0; shift = 8; rwx = 0; map_next = 0 }

abbrev no_spaces : Spaces
no_spaces = record {
  space = λ p. new_space p;
  free_spaces = [];
  pages = record { page = λ p. no_page; free = [] };
}

-- A block whose message has the given tag, and R1 in its frame.
abbrev with_tag : ℕ → ℕ → IpcBlock
with_tag tag r1 = record {
  regs = λ i. if i == 0 then tag else i + 100;
  msg_buffer = λ i. i;
  mr = λ i. i;
  ctx_sp = 0x20001000;
  frame_r1 = r1;
  frame_r2 = 0;
  ipc_from = 0;
  timeout_event = 9;
  intended_receiver = 0;
  sender = 0;
  error_code = 0;
  as_ = 1;
  t_pager = 0;
  utcb = 0x20002000;
}

-- Thread 4 is to send to thread 3, which waits to receive.
abbrev sender : Tcb
sender = thread 0 0 svc_blocked 4 4

abbrev receiver : Tcb
receiver = thread 0 0 recv_blocked 3 3

abbrev at_rest : Sched
at_rest = set_tcb 4 sender (set_tcb 3 receiver example)

at_rest-Holds : Holds at_rest example_queues
at_rest-Holds =
    set_tcb-Holds (set_tcb-Holds example-Holds 3 receiver refl refl refl (λ r. cc)) 4 sender refl
      refl refl (λ r. cc)

abbrev sending : ℕ → ℕ → Ipc
sending tag r1 = record { sched = at_rest; block = λ p. with_tag tag r1; spaces = no_spaces }

two_words : (r1 : ℕ) → n_untyped (ipc_read_mr (with_tag 2 r1) 0) ≡ 2
unfolding ipc_read_mr
two_words r1 = refl

none_typed : (r1 : ℕ) → n_typed (ipc_read_mr (with_tag 2 r1) 0) ≡ 0
unfolding ipc_read_mr
none_typed r1 = refl

too_long :
    ipc_mr_count
    < n_untyped (ipc_read_mr (with_tag 63 0) 0) + 1 + n_typed (ipc_read_mr (with_tag 63 0) 0)
unfolding ipc_read_mr
too_long = omega arith

-- 63 words.
do_ipc_strands_example :
    (k' : Ipc) × (do_ipc [] 4 3 (sending 63 0) ≡ ok k') × Stranded 4 3 example_queues k'
do_ipc_strands_example =
    do_ipc_strands [] (sending 63 0) 4 3 at_rest-Holds (omega arith) refl refl too_long

-- Thread 4 calls itself.
self_ipc_corrupts_example : (k' : Ipc) × (do_ipc [] 4 4 (sending 2 5) ≡ ok k') × Corrupt 4 k'.sched
self_ipc_corrupts_example =
    self_ipc_corrupts [] (sending 2 5) 4 at_rest-Holds (omega arith) refl (omega arith)
      (omega arith) (omega (arith, two_words 5)) (none_typed 5) (omega arith)
