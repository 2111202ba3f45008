-- ===== src/Ipc/Fail.antt =====
-- Two ways in which `do_ipc` goes wrong: a message that is too long, and a message of a thread to itself.
use f9_kernel.Base.{
  ℕ, zero, suc, ◌+◌, ◌<◌, ◌≡◌, ◌≢◌, refl, sym, ap, ◌∙◌, arith, true, false, not, List, ltb, ◌==◌,
  inl, inr, has, Bool-cases,
}
use f9_kernel.Tcb.{nilthread, Ptr, null, Tcb, runnable, recv_blocked, is_runnable}
use f9_kernel.Sched.{Sched, ok, ◌>>=◌, set_tcb, sched_is_queued}
use f9_kernel.Sched.Inv.{Queues, Holds, level, sched_is_queued-has}
use f9_kernel.Sched.Store.{tcb-set_tcb_self, tcb-set_tcb_ne, set_tcb_queued-Holds}
use f9_kernel.Memory.{Mempool}
use f9_kernel.Ipc.{
  IpcBlock, Ipc, write_block, ipc_mr_count, anythread, ue_ipc_msg_overflow, ipc_read_mr,
  ipc_write_mr, n_untyped, n_typed, copy_untyped, copy_typed, end_ipc, no_timeout, do_ipc,
  do_ipc_error, wake_receiver, finish_sender, user_ipc_error, set_state, restore_priority,
}
use f9_kernel.Ipc.Message.{envelope, envelope-write}
use f9_kernel.Ipc.Deliver.{block_self, block_ne}
use f9_kernel.Ipc.Transfer.{untimed, raw_same, no_timeout-from, no_timeout-to}
use f9_kernel.Ipc.Wake.{not_queued, receive-Received}

-- A thread in no queue may get any state.
set_state-Holds :
    {s : Sched} {qs : Queues}
    → Holds s qs
    → (t : Ptr) → has t (qs (level s t)) ≡ false
    → Holds (set_state t runnable s) qs
set_state-Holds {s} inv t out =
    set_tcb_queued-Holds inv t (record (s.tcb t) { state = runnable }) refl refl refl (λ h. refl)

-- The threads after an error: their states say that they run, but no queue has them.
pub record Stranded (from to : Ptr) (qs : Queues) (k' : Ipc) : Type 0 where
  pub holds : Holds k'.sched qs
  pub from_state : (k'.sched.tcb from).state ≡ runnable
  pub to_state : (k'.sched.tcb to).state ≡ runnable
  pub from_nowhere : (p : ℕ) → p < 32 → has from (qs p) ≡ false
  pub to_nowhere : (p : ℕ) → p < 32 → has to (qs p) ≡ false
  pub from_timeout : (k'.block from).timeout_event ≡ null
  pub to_timeout : (k'.block to).timeout_event ≡ null

nowhere :
    {s : Sched} {qs : Queues}
    → Holds s qs
    → (t : Ptr) → is_runnable (s.tcb t).state ≡ false
    → (p : ℕ) → p < 32
    → has t (qs p) ≡ false
nowhere {s} {qs} inv t idle p lt = elim (Bool-cases (has t (qs p))) [
  | inl h ↦ absurd (ground (arith, inv.member p t lt h))
  | inr h ↦ h
]

timeout-write : (i v : ℕ) (b : IpcBlock) → (ipc_write_mr i v b).timeout_event ≡ b.timeout_event
timeout-write i v b = ap (λ (x : IpcBlock). x.timeout_event) (envelope-write i v b)

module _ (k : Ipc) {qs : Queues} (inv : Holds k.sched qs) (from to : Ptr) (apart : from ≢ to)
    (from_idle : is_runnable (k.sched.tcb from).state ≡ false)
    (to_idle : is_runnable (k.sched.tcb to).state ≡ false)
    (from_timeout : (k.block from).timeout_event ≡ null)
    (to_timeout : (k.block to).timeout_event ≡ null) where
  error-Stranded : (error : ℕ) → Stranded from to qs (do_ipc_error from to error k)
  unfolding do_ipc_error
  error-Stranded error =
      let s = k.sched in
      let c : Tcb = record (s.tcb from) { state = runnable } in
      let s₁ = set_tcb from c s in
      let held = set_state-Holds inv from (not_queued inv from from_idle) in
      let to_same = tcb-set_tcb_ne from c s to (λ e. apart (sym e)) in
      let to_idle₁ = ap (λ (x : Tcb). is_runnable x.state) to_same ∙ to_idle in
      let d : Tcb = record (s₁.tcb to) { state = runnable } in
      let b = user_ipc_error error (k.block from) in
      let f = write_block from b k.block in
      record {
        holds = set_state-Holds held to (not_queued held to to_idle₁);
        from_state =
            ap (λ (x : Tcb). x.state)
              (tcb-set_tcb_ne to d s₁ from apart ∙ tcb-set_tcb_self from c s);
        to_state = ap (λ (x : Tcb). x.state) (tcb-set_tcb_self to d s₁);
        from_nowhere = nowhere inv from from_idle;
        to_nowhere = nowhere inv to to_idle;
        from_timeout =
            ap (λ (x : IpcBlock). x.timeout_event)
              (block_ne to _ f from apart ∙ block_self from b k.block)
            ∙ timeout-write 0 _ (k.block from)
            ∙ from_timeout;
        to_timeout =
            ap (λ (x : IpcBlock). x.timeout_event) (block_self to _ f)
            ∙ timeout-write 0 _ (f to)
            ∙ ap (λ (x : IpcBlock). x.timeout_event)
                (block_ne from b k.block to (λ e. apart (sym e)))
            ∙ to_timeout;
      }

-- A message of more than 47 words from one waiting thread to another strands both: `do_ipc` sets their
-- states to T_RUNNABLE and clears their timeouts, but puts neither into a ready queue, and the queues
-- stay as they were, so neither runs again on its own.
pub do_ipc_strands :
    (memmap : List Mempool) (k : Ipc) {qs : Queues} (from to : Ptr)
    → Holds k.sched qs
    → from ≢ to
    → is_runnable (k.sched.tcb from).state ≡ false
    → is_runnable (k.sched.tcb to).state ≡ false
    → let raw = ipc_read_mr (k.block from) 0 in
      ipc_mr_count < n_untyped raw + 1 + n_typed raw
      → (k' : Ipc) × (do_ipc memmap from to k ≡ ok k') × Stranded from to qs k'
unfolding do_ipc
do_ipc_strands memmap k from to inv apart from_idle to_idle long =
    let k₁ = no_timeout to (no_timeout from k) in
    let raw = raw_same k apart in
    let over : ltb ipc_mr_count
          (n_untyped (ipc_read_mr (k₁.block from) 0) + 1 + n_typed (ipc_read_mr (k₁.block from) 0))
        ≡ true =
      ap (λ r. ltb ipc_mr_count (n_untyped r + 1 + n_typed r)) raw ∙ ground arith in
    (
      do_ipc_error from to ue_ipc_msg_overflow k₁,
      rw over refl,
      error-Stranded k₁ inv from to apart from_idle to_idle
          (ap (λ (b : IpcBlock). b.timeout_event) (no_timeout-from k apart))
          (ap (λ (b : IpcBlock). b.timeout_event) (no_timeout-to k apart)) ue_ipc_msg_overflow,
    )

-- The blocks of a thread that copies from itself keep all but the message registers.
copy_self :
    (n i : ℕ) (t : Ptr) (f : Ptr → IpcBlock) → envelope (copy_untyped n i t t f t) ≡ envelope (f t)
unfolding copy_untyped
copy_self zero i t f = refl
copy_self (suc n) i t f =
    let b = ipc_write_mr i (ipc_read_mr (f t) i) (f t) in
    copy_self n (i + 1) t (write_block t b f)
    ∙ ap envelope (block_self t b f)
    ∙ envelope-write i _ (f t)

-- No queues fit a thread that has a link but does not run.
no_queues :
    (s : Sched) (t : Ptr)
    → sched_is_queued t s ≡ true
    → is_runnable (s.tcb t).state ≡ false
    → (qs : Queues) → ¬ Holds s qs
no_queues s t queued idle qs inv = ground (arith, sched_is_queued-has inv t, not_queued inv t idle)

-- The scheduler after a thread that is in a ready queue is blocked.
pub record Corrupt (t : Ptr) (s : Sched) : Type 0 where
  pub queued : sched_is_queued t s ≡ true
  pub blocked : (s.tcb t).state ≡ recv_blocked
  pub fits_none : (qs : Queues) → ¬ Holds s qs

module _ (k : Ipc) {qs : Queues} (inv : Holds k.sched qs) (t : Ptr) (ne : t ≢ null)
    (base : (k.sched.tcb t).priority ≡ (k.sched.tcb t).base_priority)
    (named : (k.block t).ipc_from ≢ anythread) (receives : (k.block t).frame_r1 ≢ nilthread) where
  end_self : (k' : Ipc) × ((wake_receiver t t k >>= finish_sender t) ≡ ok k') × Corrupt t k'.sched
  unfolding wake_receiver finish_sender restore_priority
  end_self =
      let id = (k.sched.tcb t).t_globalid in
      let b = k.block t in
      let b' : IpcBlock = record b { sender = id; ipc_from = nilthread } in
      let (s₁, e₁, r) = receive-Received inv t ne id false in
      let other : (b.ipc_from == anythread) ≡ false = ground arith in
      let here = block_self t b' k.block in
      let more : (b.frame_r1 == nilthread) ≡ false = ground arith in
      let same : ((s₁.tcb t).priority == (s₁.tcb t).base_priority) ≡ true =
        ground (
          arith,
          ap (λ (c : Tcb). c.priority) r.block,
          ap (λ (c : Tcb). c.base_priority) r.block,
        ) in
      let c : Tcb = record (s₁.tcb t) { state = recv_blocked } in
      let at = tcb-set_tcb_self t c s₁ in
      let state = ap (λ (x : Tcb). x.state) at in
      let queued : sched_is_queued t (set_tcb t c s₁) ≡ true =
        ap (λ (x : Tcb). not (x.prev == null)) at ∙ sched_is_queued-has r.holds t ∙ r.waits in
      (
        record k {
          sched = set_tcb t c s₁;
          block = write_block t (record b' { ipc_from = b.frame_r1 }) (write_block t b' k.block);
        },
        rw (other, e₁, here, more, same) refl,
        record {
          queued = queued;
          blocked = state;
          fits_none = no_queues (set_tcb t c s₁) t queued (ap is_runnable state);
        },
      )

module _ (memmap : List Mempool) (k : Ipc) (t : Ptr) where
  -- The parts of `do_ipc` from a thread to itself.
  self₁ : Ipc
  self₁ = no_timeout t (no_timeout t k)

  self₃ : Ipc
  self₃ = record self₁ {
    block = copy_untyped (n_untyped (ipc_read_mr (self₁.block t) 0)) 1 t t (
        write_block t (ipc_write_mr 0 (ipc_read_mr (self₁.block t) 0) (self₁.block t)) self₁.block);
  }

  self₁_block : self₁.block t ≡ untimed (k.block t)
  unfolding self₁
  self₁_block =
      block_self t _ (no_timeout t k).block
      ∙ ap untimed (block_self t (untimed (k.block t)) k.block)

  self₁_raw : ipc_read_mr (self₁.block t) 0 ≡ ipc_read_mr (k.block t) 0
  unfolding ipc_read_mr
  self₁_raw = ap (λ (b : IpcBlock). ipc_read_mr b 0) self₁_block

  self₃_block : envelope (self₃.block t) ≡ envelope (untimed (k.block t))
  unfolding self₃
  self₃_block =
      copy_self _ 1 t _
      ∙ ap envelope (block_self t _ self₁.block)
      ∙ envelope-write 0 _ (self₁.block t)
      ∙ ap envelope self₁_block

  self-steps :
      n_untyped (ipc_read_mr (k.block t) 0) < ipc_mr_count
      → n_typed (ipc_read_mr (k.block t) 0) ≡ 0
      → (k.block t).ctx_sp ≢ null
      → do_ipc memmap t t k ≡ (wake_receiver t t self₃ >>= finish_sender t)
  unfolding do_ipc end_ipc copy_typed self₁ self₃
  self-steps short typed sp =
      let none_ : n_typed (ipc_read_mr (self₁.block t) 0) ≡ 0 = ap n_typed self₁_raw ∙ typed in
      let fits : ltb ipc_mr_count (n_untyped (ipc_read_mr (self₁.block t) 0) + 1 + 0) ≡ false =
        ap (λ r. ltb ipc_mr_count (n_untyped r + 1 + 0)) self₁_raw ∙ ground arith in
      let stack : ((self₃.block t).ctx_sp == null) ≡ false =
        ground (arith, ap (λ (b : IpcBlock). b.ctx_sp) self₃_block) in
      rw (none_, fits, stack) refl

  -- A thread at its base priority that waits for no thread in particular and sends itself a message
  -- without typed items, with a receive phase, breaks the ready queues: `do_ipc` queues it as the
  -- receiver and then blocks it as the sender, so a thread that does not run stays in a ready queue,
  -- and the scheduler's state stands for no queues any more.
  pub self_ipc_corrupts :
      {qs : Queues}
      → Holds k.sched qs
      → t ≢ null
      → (k.sched.tcb t).priority ≡ (k.sched.tcb t).base_priority
      → (k.block t).ipc_from ≢ anythread
      → (k.block t).frame_r1 ≢ nilthread
      → n_untyped (ipc_read_mr (k.block t) 0) < ipc_mr_count
      → n_typed (ipc_read_mr (k.block t) 0) ≡ 0
      → (k.block t).ctx_sp ≢ null
      → (k' : Ipc) × (do_ipc memmap t t k ≡ ok k') × Corrupt t k'.sched
  unfolding self₁ self₃
  self_ipc_corrupts inv ne base named receives short typed sp =
      let from = ap (λ (b : IpcBlock). b.ipc_from) self₃_block in
      let r1 = ap (λ (b : IpcBlock). b.frame_r1) self₃_block in
      let (k', e, c) =
        end_self self₃ inv t ne base (λ z. named (sym from ∙ z)) (λ z. receives (sym r1 ∙ z)) in
      (k', self-steps short typed sp ∙ e, c)
