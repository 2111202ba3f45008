-- ===== src/Tcb.antt =====
-- include/thread.h: the thread control block, as far as the modelled code reads or writes it.
-- A pointer is a number and `NULL` is 0. The saved `R0` of a blocked thread, `thr_sp[REG_R0]` on
-- its stack, is the field `saved_r0`.
use f9_kernel.Base.{ℕ, Bool, true, false}

abbrev pub Ptr : Type 0
Ptr = ℕ

abbrev pub null : Ptr
null = 0

-- L4_NILTHREAD
abbrev pub nilthread : ℕ
nilthread = 0

-- `thread_state_t`
pub data ThreadState : Type 0 where
  inactive runnable svc_blocked recv_blocked send_blocked notify_blocked : ThreadState

abbrev pub is_runnable : ThreadState → Bool
is_runnable runnable = true
is_runnable _ = false

abbrev pub is_notify_blocked : ThreadState → Bool
is_notify_blocked notify_blocked = true
is_notify_blocked _ = false

-- `struct tcb`
pub record Tcb : Type 0 where
  pub prev : Ptr
  pub next : Ptr
  pub state : ThreadState
  pub priority : ℕ
  pub base_priority : ℕ
  pub preempt_threshold : ℕ
  pub user_priority : ℕ
  pub t_globalid : ℕ
  pub user_preempt_threshold : ℕ
  pub inherit_priority : ℕ
  pub notify_bits : ℕ
  pub notify_mask : ℕ
  pub notify_data : ℕ
  pub notify_pending : Bool
  pub saved_r0 : ℕ
