-- ===== src/Ipc/Deliver.antt =====
-- `do_ipc` delivers a message without typed items.
use f9_kernel.Base.{
  ◌<◌, ◌≡◌, ◌≢◌, refl, sym, ap, ◌∙◌, arith, Bool, true, false, not, ◌==◌, if◌then◌else◌, inl, inr,
  has, Bool-cases,
}
use f9_kernel.Tcb.{nilthread, Ptr, null, Tcb, runnable, recv_blocked, is_runnable}
use f9_kernel.Sched.{Sched, ok, ◌>>=◌, clamp}
use f9_kernel.Sched.Links.{strip}
use f9_kernel.Sched.Inv.{Queues, Holds, level}
use f9_kernel.Ipc.{
  IpcBlock, Ipc, write_block, anythread, prio_ipc, wake_receiver, finish_sender, set_state,
}
use f9_kernel.Ipc.Wake.{receive-Received, make_sender-Sent, block_sender-Sent, Received, Sent}

pub block_self : (p : Ptr) (b : IpcBlock) (f : Ptr → IpcBlock) → write_block p b f p ≡ b
block_self p b f = ground arith

pub block_ne :
    (p : Ptr) (b : IpcBlock) (f : Ptr → IpcBlock) (q : Ptr) → q ≢ p → write_block p b f q ≡ f q
block_ne p b f q ne = ground arith

-- The scheduler after the receiver is woken, with its priority raised or not, and the sender goes on
-- or waits to receive.
pub record Switched (from to : Ptr) (boost receives : Bool) (s s' : Sched) : Type 0 where
  pub queues : Queues
  pub holds : Holds s' queues
  pub runs : (s'.tcb to).state ≡ runnable
  pub waits : has to (queues (level s' to)) ≡ true
  pub told : (s'.tcb to).saved_r0 ≡ (s.tcb from).t_globalid
  pub boosted : (s'.tcb to).priority ≡ (if boost then prio_ipc else (s.tcb to).priority)
  pub sender_state : (s'.tcb from).state ≡ (if receives then recv_blocked else runnable)
  pub sender_priority : (s'.tcb from).priority ≡ (s.tcb from).base_priority
  pub sender_waits : receives ≡ false → has from (queues (level s' from)) ≡ true
  pub others : (q : Ptr) → q ≢ from → q ≢ to → strip (s'.tcb q) ≡ strip (s.tcb q)

switched :
    {from to : Ptr} {boost receives : Bool} {s s₁ s₂ : Sched}
    → from ≢ to
    → (s.tcb from).base_priority < 32
    → (r : Received to (s.tcb from).t_globalid boost s s₁) → Sent from receives s₁ r.queues s₂
    → Switched from to boost receives s s₂
switched {from} {to} {boost} {receives} {s} {s₁} {s₂} apart base r m =
    let kept = m.others to (λ e. apart (sym e)) in
    let same : level s₂ to ≡ level s₁ to = ap (λ (c : Tcb). clamp c.priority) kept in
    let base_same : (s₁.tcb from).base_priority ≡ (s.tcb from).base_priority =
      ap (λ (c : Tcb). c.base_priority) (r.others from apart) in
    record {
      queues = m.queues;
      holds = m.holds;
      runs = ap (λ (c : Tcb). c.state) (kept ∙ r.block);
      waits = rw same (m.keeps to (level s₁ to) r.waits);
      told = ap (λ (c : Tcb). c.saved_r0) (kept ∙ r.block);
      boosted = ap (λ (c : Tcb). c.priority) (kept ∙ r.block);
      sender_state = m.state;
      sender_priority = m.priority ∙ ground (arith, base_same);
      sender_waits = m.queued;
      others = λ q a b. m.others q a ∙ r.others q b;
    }

-- The state after the last part of `do_ipc`.
pub record Ended (from to : Ptr) (k k' : Ipc) : Type 0 where
  pub sched :
      Switched from to
        ((k.block to).ipc_from == anythread)
        (not ((k.block from).frame_r1 == nilthread))
        k.sched
        k'.sched
  pub receiver :
      k'.block to
      ≡ record (k.block to) { sender = (k.sched.tcb from).t_globalid; ipc_from = nilthread }
  pub sender : k'.block from ≡ (
      if (k.block from).frame_r1 == nilthread
      then k.block from
      else record (k.block from) { ipc_from = (k.block from).frame_r1 })
  pub others : (q : Ptr) → q ≢ from → q ≢ to → k'.block q ≡ k.block q
  pub spaces : k'.spaces ≡ k.spaces

module _ {k : Ipc} {qs : Queues} (inv : Holds k.sched qs) (from to : Ptr) (apart : from ≢ to)
    (from_ne : from ≢ null) (to_ne : to ≢ null)
    (idle : is_runnable (k.sched.tcb from).state ≡ false)
    (base : (k.sched.tcb from).base_priority < 32) where
  pub end-Ended :
      (k' : Ipc) × ((wake_receiver from to k >>= finish_sender from) ≡ ok k') × Ended from to k k'
  unfolding wake_receiver finish_sender
  end-Ended =
      let id = (k.sched.tcb from).t_globalid in
      let b = k.block to in
      let b' : IpcBlock = record b { sender = id; ipc_from = nilthread } in
      let boost = b.ipc_from == anythread in
      let (s₁, e₁, r) = receive-Received inv to to_ne id boost in
      let f = write_block to b' k.block in
      let same = r.others from apart in
      let idle₁ = ap (λ (c : Tcb). is_runnable c.state) same ∙ idle in
      let base_same = ap (λ (c : Tcb). c.base_priority) same in
      let base₁ : (s₁.tcb from).base_priority < 32 = rw base_same base in
      let from_block : f from ≡ k.block from = block_ne to b' k.block from apart in
      elim (Bool-cases ((k.block from).frame_r1 == nilthread)) [
        | inl done ↦
            let (s₂, e₂, m) = make_sender-Sent r.holds from from_ne idle₁ base₁ in
            (
              record k { sched = s₂; block = f },
              rw (e₁, from_block, done, e₂) refl,
              record {
                sched = rw done (switched apart base r m);
                receiver = block_self to b' k.block;
                sender = rw done from_block;
                others = λ q a c. block_ne to b' k.block q c;
                spaces = refl;
              },
            )
        | inr more ↦
            let (s₂, e₂, m) = block_sender-Sent r.holds from from_ne idle₁ base₁ in
            let c : IpcBlock = record (k.block from) { ipc_from = (k.block from).frame_r1 } in
            (
              record k { sched = set_state from recv_blocked s₂; block = write_block from c f },
              rw (e₁, from_block, more, e₂) refl,
              record {
                sched = rw more (switched apart base r m);
                receiver = block_ne from c f to (λ e. apart (sym e)) ∙ block_self to b' k.block;
                sender = rw more (block_self from c f);
                others = λ q a d. block_ne from c f q a ∙ block_ne to b' k.block q d;
                spaces = refl;
              },
            )
      ]
