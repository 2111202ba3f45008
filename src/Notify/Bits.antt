-- ===== src/Notify/Bits.antt =====
-- Notification bits, one by one.
use f9_kernel.Base.{ℕ, ◌-◌, ◌^◌, ◌<◌, ◌≡◌, ◌≢◌, not, arith, ◌==◌, if◌then◌else◌}
use Prim.Native.Nat.{min, max}
use f9_kernel.Base.Bits.{bit, bit_not, bit-le, bit-bit_and, bit-bit_or, bit-bit_not}
use f9_kernel.Tcb.{Ptr, null}
use f9_kernel.Sched.{Sched}
use f9_kernel.Notify.{
  and_not, notification_signal, notification_clear, notification_get, notification_read_clear,
}

-- The flag that the IPC path reads is up exactly when a bit is up.
abbrev pub PendingFits : Sched → Type 0
PendingFits s = (q : Ptr) → (s.tcb q).notify_pending ≡ not ((s.tcb q).notify_bits == 0)

pub bit-and_not :
    (a b i : ℕ) → b < 2 ^ 32 → i < 32 → bit (and_not a b) i ≡ min (bit a i) (1 - bit b i)
bit-and_not a b i hb hi = ground (arith, bit-bit_and a (bit_not 32 b) i, bit-bit_not 32 b i hb hi)

module _ (t : Ptr) (bits : ℕ) (s : Sched) (fits : PendingFits s) where
  -- `notification_signal` keeps the pending flags right.
  pub signal-PendingFits : PendingFits (notification_signal t bits s)
  unfolding notification_signal
  signal-PendingFits q = ground (arith, fits q)

  -- `notification_clear` keeps the pending flags right.
  pub clear-PendingFits : PendingFits (notification_clear t bits s)
  unfolding notification_clear
  clear-PendingFits q = ground (arith, fits q)

  -- `notification_read_clear` keeps the pending flags right.
  pub read_clear-PendingFits : PendingFits (notification_read_clear t bits s).1
  unfolding notification_read_clear
  read_clear-PendingFits q = ground (arith, fits q)

module _ (t : Ptr) (ne : t ≢ null) (s : Sched) (i : ℕ) (lt : i < 32) where
  -- A bit signalled is up until it is cleared, and no other bit is touched.
  pub bit-signal :
      (bits : ℕ)
      → bit (notification_get t (notification_signal t bits s)) i
        ≡ max (bit (notification_get t s) i) (bit bits i)
  unfolding notification_signal notification_get
  bit-signal bits = ground (arith, bit-bit_or (s.tcb t).notify_bits bits i)

  -- `notification_read_clear` returns the bits as they were; of the thread's bits the ones in the mask
  -- are down then, and the others as they were.
  pub bit-read_clear :
      (mask : ℕ)
      → mask < 2 ^ 32
      → let (got, s') = notification_read_clear t mask s in
        (bit got i ≡ bit (notification_get t s) i)
        × (bit (notification_get t s') i ≡ (if bit mask i == 1 then 0 else bit got i))
  unfolding notification_read_clear notification_get
  bit-read_clear mask small = ground (
    arith,
    bit-and_not (s.tcb t).notify_bits mask i small lt,
    bit-le mask i,
    bit-le (s.tcb t).notify_bits i,
  )
