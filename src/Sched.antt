-- ===== src/Sched.antt =====
-- kernel/sched.c: the 32-level priority bitmap scheduler, over an explicit store of thread control
-- blocks. The ready queues are the source's circular doubly linked lists, threaded through the
-- blocks' `sched_link`. `irq_kernel_critical_enter` and `_exit` make each operation one step.
pub mod Bitmap
pub mod Dequeue
pub mod Enqueue
pub mod Example
pub mod Inv
pub mod Links
pub mod Priority
pub mod Ring
pub mod Select
pub mod Store
mod Tests
pub mod Threshold
pub mod Yield
use f9_kernel.Base.{
  ℕ, zero, suc, ◌-◌, ◌^◌, bit_and, bit_or, Bool, true, false, not, ◌&&◌, ltb, leb, ◌==◌,
  if◌then◌else◌, Option, none, some,
}
use f9_kernel.Base.Bits.{bit, bit_not}
use f9_kernel.Tcb.{Ptr, null, Tcb, runnable, is_runnable}

-- The static variables of sched.c, the thread control blocks, `current` of thread.c and the PendSV
-- bit of the interrupt control register.
pub record Sched : Type 0 where
  pub ready_bitmap : ℕ
  pub preempted_bitmap : ℕ
  pub ready_queue : ℕ → Ptr
  pub tcb : Ptr → Tcb
  pub current : Ptr
  pub pendsv : Bool

-- A call returns, or ends in `panic`, which does not return.
pub data Run (A : Type 0) : Type 0 where
  ok : A → Run A
  panic : Run A

infixl 5 ◌>>=◌
abbrev pub ◌>>=◌ : {A B : Type 0} → Run A → (A → Run B) → Run B
ok a >>= f = f a
panic >>= f = panic

-- SCHED_PRIORITY_LEVELS and SCHED_PRIO_IDLE
abbrev pub priority_levels : ℕ
priority_levels = 32

abbrev pub prio_idle : ℕ
prio_idle = 31

-- A priority out of range is that of the idle thread.
abbrev pub clamp : ℕ → ℕ
clamp prio = if leb priority_levels prio then prio_idle else prio

-- `1UL << (31 - prio)`
abbrev pub prio_mask : ℕ → ℕ
prio_mask prio = 2 ^ (31 - prio)

-- The instruction `clz` on a word of `w` bits: the zeros above the highest one.
unfoldable pub clz : ℕ → ℕ → ℕ
unfolding bit
clz zero x = 0
clz (suc w) x = let rest = clz w x in if bit x w == 1 then 0 else suc rest

abbrev pub clz32 : ℕ → ℕ
clz32 x = clz 32 x

-- Writes to one field of a block, to one queue head and to the bitmaps.
abbrev pub set_tcb : Ptr → Tcb → Sched → Sched
set_tcb p t s = record s { tcb = λ q. if q == p then t else s.tcb q }

unfoldable pub set_next : Ptr → Ptr → Sched → Sched
set_next p v s = set_tcb p (record (s.tcb p) { next = v }) s

unfoldable pub set_prev : Ptr → Ptr → Sched → Sched
set_prev p v s = set_tcb p (record (s.tcb p) { prev = v }) s

abbrev pub set_head : ℕ → Ptr → Sched → Sched
set_head prio p s = record s { ready_queue = λ i. if i == prio then p else s.ready_queue i }

abbrev pub set_ready : ℕ → Sched → Sched
set_ready prio s = record s { ready_bitmap = bit_or s.ready_bitmap (prio_mask prio) }

abbrev pub clear_ready : ℕ → Sched → Sched
clear_ready prio s = record s {
  ready_bitmap = bit_and s.ready_bitmap (bit_not 32 (prio_mask prio));
}

abbrev pub set_preempted : ℕ → Sched → Sched
set_preempted prio s = record s { preempted_bitmap = bit_or s.preempted_bitmap (prio_mask prio) }

abbrev pub clear_preempted : ℕ → Sched → Sched
clear_preempted prio s = record s {
  preempted_bitmap = bit_and s.preempted_bitmap (bit_not 32 (prio_mask prio));
}

-- `sched_init`
unfoldable pub sched_init : Sched → Sched
sched_init s = record s {
  ready_bitmap = 0;
  preempted_bitmap = 0;
  ready_queue = λ i. if ltb i priority_levels then null else s.ready_queue i;
}

-- `sched_is_queued`
abbrev pub sched_is_queued : Ptr → Sched → Bool
sched_is_queued t s = not ((s.tcb t).prev == null)

-- `sched_link_init`
abbrev pub sched_link_init : Ptr → Sched → Sched
sched_link_init t s = set_next t null (set_prev t null s)

-- The two branches that `sched_enqueue` ends in.
unfoldable pub enqueue_first : Ptr → ℕ → Sched → Sched
enqueue_first t prio s = set_ready prio (set_next t t (set_prev t t (set_head prio t s)))

unfoldable pub enqueue_tail : Ptr → Ptr → Sched → Sched
enqueue_tail t head s =
    let tail = (s.tcb head).prev in
    set_prev head t (set_next tail t (set_prev t tail (set_next t head s)))

-- `sched_enqueue`
unfoldable pub sched_enqueue : Ptr → Sched → Run Sched
sched_enqueue t s =
    let prio = clamp (s.tcb t).priority in
    let head = s.ready_queue prio in
    if t == null
    then ok s
    else if not (is_runnable (s.tcb t).state)
    then panic
    else if sched_is_queued t s
    then ok s
    else if head == null
    then ok (enqueue_first t prio s)
    else ok (enqueue_tail t head s)

-- The two branches of `sched_dequeue` that unlink a thread. `move_head` updates the queue's head if
-- the thread was the head.
unfoldable pub dequeue_last : Ptr → ℕ → Sched → Sched
dequeue_last t prio s = sched_link_init t (clear_ready prio (set_head prio null s))

unfoldable pub move_head : Ptr → ℕ → Ptr → Sched → Sched
move_head t prio next s = if s.ready_queue prio == t then set_head prio next s else s

unfoldable pub dequeue_linked : Ptr → ℕ → Sched → Sched
dequeue_linked t prio s =
    let prev = (s.tcb t).prev in
    let next = (s.tcb t).next in
    sched_link_init t (move_head t prio next (set_prev next prev (set_next prev next s)))

-- `sched_dequeue`
unfoldable pub sched_dequeue : Ptr → Sched → Sched
sched_dequeue t s =
    let prio = clamp (s.tcb t).priority in
    if t == null
    then s
    else if not (sched_is_queued t s)
    then s
    else if t == (s.tcb t).next
    then dequeue_last t prio s
    else dequeue_linked t prio s

-- `sched_yield`
unfoldable pub sched_yield : Sched → Sched
sched_yield s =
    let curr = s.current in
    let prio = clamp (s.tcb curr).priority in
    let head = s.ready_queue prio in
    if curr == null
    then s
    else if not (sched_is_queued curr s)
    then s
    else if not (head == null) && not ((s.tcb head).next == head)
    then set_head prio (s.tcb head).next s
    else s

-- The end of `schedule_select`, from the thread at the head of the highest ready queue on.
unfoldable pub select_thread : ℕ → Ptr → Sched → Ptr × Sched
select_thread prio thread s =
    let curr = s.current in
    let c = s.tcb curr in
    if not (curr == null)
      && is_runnable c.state
      && not (curr == thread)
      && leb c.preempt_threshold prio
    then (curr, if c.preempt_threshold == c.priority then s else set_preempted c.priority s)
    else (thread, clear_preempted prio s)

-- `schedule_select`
unfoldable pub schedule_select : Sched → Run (Ptr × Sched)
schedule_select s =
    let prio = clz32 s.ready_bitmap in
    let thread = s.ready_queue prio in
    if leb priority_levels prio
    then panic
    else if thread == null
    then panic
    else ok (select_thread prio thread s)

-- `sched_set_priority`
unfoldable pub sched_set_priority : Ptr → ℕ → Sched → Run Sched
sched_set_priority t new s =
    let prio = clamp new in
    let was_queued = sched_is_queued t s in
    let s₁ = if was_queued then sched_dequeue t s else s in
    let s₂ = set_tcb t (record (s₁.tcb t) { priority = prio }) s₁ in
    if t == null
    then ok s
    else if (s.tcb t).priority == prio
    then ok s
    else if was_queued
    then sched_enqueue t s₂
    else ok s₂

-- The threshold in force: the tighter of what the user set and what was inherited.
abbrev pub tighter : ℕ → ℕ → ℕ
tighter threshold inherited = if ltb threshold inherited then threshold else inherited

-- The part of `sched_preemption_change` that runs for the current thread when its threshold rose:
-- the new state, and whether to reschedule.
unfoldable pub threshold_raised : Ptr → Sched → Sched × Bool
threshold_raised t s =
    let c = s.tcb t in
    if ltb (clz32 s.ready_bitmap) c.preempt_threshold
    then (clear_preempted c.priority s, true)
    else if c.preempt_threshold == c.priority
    then (clear_preempted c.priority s, false)
    else (s, false)

-- `sched_preemption_change`; `none` is the return value -1, else the old user threshold, which the
-- source stores through `old_threshold`, stands beside the new state.
unfoldable pub sched_preemption_change : Ptr → ℕ → Sched → Option (ℕ × Sched)
sched_preemption_change t new s =
    let c = s.tcb t in
    let old = c.user_preempt_threshold in
    let c' = record c {
      preempt_threshold = tighter new c.inherit_priority;
      user_preempt_threshold = new;
    } in
    let s₁ = set_tcb t c' s in
    let raised = threshold_raised t s₁ in
    if t == null
    then none
    else if ltb c.user_priority new
    then none
    else if t == s.current && ltb old c'.preempt_threshold
    then some (old, record (raised.0) { pendsv = if raised.1 then true else s.pendsv })
    else some (old, s₁)
