-- ===== src/Lib.antt =====
-- F9 microkernel: models of the kernel's core and theorems about them.
--
-- The kernel runs user threads on one processor. kernel/sched.c keeps the runnable threads in 32
-- queues and picks the next one; kernel/thread.c keeps the control blocks, finds threads by their id
-- and lends priorities; kernel/notification.c wakes threads by notification bits, at once or through a
-- queue that a softirq empties in batches, and keeps groups of event flags; kernel/ktimer.c counts
-- down to timer events and handles them in a softirq, which notifies threads. kernel/lib has the tables
-- of kernel objects, their bitmaps and the byte queue of the debug UART. kernel/softirq.c runs the
-- softirqs of the timer and the notifications in the kernel thread. kernel/fpage.c divides areas of the
-- memory pools of kernel/memory.c into flexible pages, which the MPU can protect, and keeps them in the
-- lists of address spaces. kernel/syscall.c takes system calls: the SVC handler blocks the caller, and the
-- softirq of the system calls does the work and lets it go on. kernel/ipc.c copies a message from one
-- thread to another and wakes the receiver.
--
-- Files:
--   Base, Base/Tests, Base/Lists, Base/Bits   shared names, tests, lists and the bits of words
--   Tcb              struct tcb and thread_state_t of include/thread.h
--   Sched            kernel/sched.c, each function under its name. Sched/Inv says what the pointers
--                    stand for: `Holds s qs` relates the circular lists and the bitmap of `s` to the
--                    lists `qs`; Enqueue, Dequeue, Yield, Select, Priority and Threshold prove the
--                    operations against it. Ring, Links, Bitmap and Store hold lemmas.
--   Inherit          thread_priority_inherit and thread_priority_disinherit of kernel/thread.c
--   ThreadMap        the sorted array of threads in kernel/thread.c and its binary search
--   Bitmap, Ktable   include/lib/bitmap.h and kernel/lib/ktable.c
--   ByteQueue        kernel/lib/queue.c
--   Kernel           the state that notifications and softirqs share, softirq_schedule of
--                    kernel/softirq.c and set_kernel_state of kernel/systhread.c
--   Notify           kernel/notification.c: bits and waking; Notify/Async the queue and its handler,
--                    Notify/Mask the groups of event flags
--   Ktimer           kernel/ktimer.c: the chain of events and the interrupt; Ktimer/Expire the softirq,
--                    Ktimer/Order the chain, Ktimer/Expiry when its events expire
--   Softirq          kernel/softirq.c; Softirq/Contract what it asks of handlers, Softirq/Execute
--                    the loop, Softirq/Work handlers for it, and
--                    Softirq/Strand the softirq of the asynchronous queue
--   Memory           kernel/memory.c: pools, alignment and the search for a pool
--   Fpage            kernel/fpage.c and include/fpage.h: Fpage/Chain the chains of pages, Fpage/Space the
--                    lists of address spaces, Fpage/Spaced when they are well-formed, Fpage/Assign
--                    and Fpage/Cover what assign_fpages_ext makes of one, Fpage/Insert
--                    where a chain is inserted, Fpage/Split what a split leaves, Fpage/Map the mappings
--   AddressSpace     kernel/memory.c: the creation of address spaces and the count of their references;
--                    AddressSpace/MapArea map_area
--   Ipc              kernel/ipc.c: message registers, do_ipc and ipc_timeout. Ipc/Message is about the
--                    copy of words, Ipc/Wake and Ipc/Deliver about the ready queues, Ipc/Transfer
--                    about a whole delivery, Ipc/Fail about messages that go wrong;
--                    Ipc/Call has sys_ipc
--   Syscall          kernel/syscall.c: the system calls and their dispatch. Syscall/Notify and
--                    Syscall/Post are about SYS_NOTIFY_WAIT and SYS_NOTIFY_POST, Syscall/Schedule and
--                    Syscall/Clock about those calls, Syscall/Dispatch about the way of a call from
--                    the SVC handler to the softirq and back; Caller and Kept hold lemmas
-- The modules named Tests and Example hold concrete states and runs.
--
-- Pointers are numbers, 0 is NULL, and the control blocks are a function from pointer to block. A
-- function that may call panic returns a `Run`. Words are natural numbers with the wrap-around of
-- their width written out. Critical sections make each operation one step.
--
-- Loops are structural recursion. The binary search has as many rounds as there are threads, which is
-- enough because the interval shrinks in each round; the batch loop goes down the queue. A chain of
-- pages has as many rounds as the size of its area, and each round takes off a part of the size.
-- softirq_execute has as many further rounds as a measure of the work that its handlers lessen. A
-- message is copied by recursion on the words left.
--
-- Not modelled: context switches, the set-up of the MPU, the fast path of IPC, the callback after a
-- delivery, sys_thread_control, interrupt threads, the tickless timer, the debugger, the platform code,
-- the loader and user level. The pools of notification events and timer events are counted, not laid
-- out; debug output is left out. Interrupts between two events of a batch or two softirqs are not
-- modelled: notification_async_handler is one step, and so is softirq_execute, where a softirq that an
-- interrupt schedules in between can stand as scheduled by a handler, which is a parameter of the loop.
-- The source takes a critical section for each event.
pub mod AddressSpace
pub mod Base
pub mod Bitmap
pub mod ByteQueue
pub mod Fpage
pub mod Inherit
pub mod Ipc
pub mod Kernel
pub mod Ktable
pub mod Ktimer
pub mod Memory
pub mod Notify
pub mod Sched
pub mod Softirq
pub mod Syscall
pub mod Tcb
pub mod ThreadMap
