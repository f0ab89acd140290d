-- ===== src/Syscall.antt =====
-- kernel/src/syscalls.rs: the system calls of a task, on the kernel's state. This file has what the
-- calls share, and send, recv, channel_create and exit. A call first runs its checks, which read the
-- state only; the last part changes it. Clock readings are arguments.
pub mod Authority
pub mod Allowed
pub mod Confined
pub mod Grants
pub mod Spawn
pub mod Log
pub mod Lines
pub mod Dispatch
use freshos.Base.{
  ℕ, ◌^◌, Bool, true, false, not, ◌&&◌, Option, none, some, List, [], ltb, leb, ◌==◌, if◌then◌else◌,
  is_some,
}
use freshos.Base.Int.{ℤ, pos}
use freshos.Abi.{
  Error, no_such_handle, bad_pointer, would_block, timeout, not_permitted, table_full, full, code,
  Message, ExitReason, clean, panic, reason_from_u64, rights_send, rights_recv, rights_union,
}
use freshos.AddrSpace.{
  AddressSpace, read_user, write_user, check_writable, message_size, message_align, message_from,
  message_bytes,
}
use freshos.Handles.{lookup, insert, is_full, at, table_was_full}
use freshos.Handles
use freshos.Kernel.{Kernel, task_at, put_task}
use freshos.Wait.{set_user_wait}
use freshos.Ipc.{try_dequeue, register_waiter, create, set_receiver}
use freshos.Ipc
use freshos.Context.{Fate, runs, panics, halts}
use freshos.Context.Retire.{retire_current}

pub data Outcome : Type 0 where
  -- Resume the caller with this value in x0.
  give : ℤ → Outcome
  -- The caller gave up the CPU; it resumes with 0.
  yields : Outcome
  exited : Outcome
  -- The caller waits; its x0 is written when it is woken.
  blocked : Outcome
  -- A send woke this task: run it next.
  hand_off : ℕ → Outcome

-- What a call comes to: the kernel after it, its outcome, and the bytes that it printed.
pub record Reply : Type 0 where
  pub kernel : Kernel
  pub outcome : Outcome
  pub printed : List ℕ

abbrev pub reply : Kernel → Outcome → Reply
reply k o = record { kernel = k; outcome = o; printed = [] }

-- `err(e)`.
abbrev pub fail : Kernel → Error → Reply
fail k e = reply k (give (code e))

-- A check: a value, or the error that the call returns.
pub data Checked {ℓ} (A : Type ℓ) : Type ℓ where
  ok : A → Checked A
  err : Error → Checked A

-- The `?` of the source.
abbrev pub ◌>>=◌ {ℓ κ} : {S : Type ℓ} {T : Type κ} → Checked S → (S → Checked T) → Checked T
err early >>= next = err early
ok value >>= next = next value

-- `if !holds { return Err(e) }`.
abbrev pub require : Bool → Error → Checked (Unit {0})
require true e = ok tt
require false e = err e

abbrev pub ok_or {ℓ} : {A : Type ℓ} → Option A → Error → Checked A
ok_or none e = err e
ok_or (some a) e = ok a

abbrev pub ◌>>◌ {ℓ} : {T : Type ℓ} → Checked (Unit {0}) → Checked T → Checked T
check >> next = check >>= λ done. next

infixl 5 ◌>>=◌ ◌>>◌
-- `run().unwrap_or_else(err)`: a failed check leaves the kernel as it was.
abbrev pub unwrap_or_fail : Kernel → Checked Reply → Reply
unwrap_or_fail k (ok r) = r
unwrap_or_fail k (err e) = fail k e

-- The current task's space, which a kernel task does not have.
abbrev pub current_space : Kernel → Option AddressSpace
current_space k = (task_at k k.current).space

abbrev pub space : Kernel → Checked AddressSpace
space k = ok_or (current_space k) not_permitted

-- `current_handles().ok_or(NotPermitted)`.
abbrev pub current_handles : Kernel → Checked Handles.HandleTable
current_handles k =
    if is_some (current_space k) then ok (task_at k k.current).handles else err not_permitted

abbrev pub from_lookup : Handles.Result → Checked ℕ
from_lookup (Handles.ok channel) = ok channel
from_lookup (Handles.err e) = err e

-- The channel behind the caller's handle, if the handle carries `need`.
unfoldable pub channel : Kernel → ℕ → ℕ → Checked ℕ
channel k handle need = do
  handles ← current_handles k
  require (ltb handle (2 ^ 32)) no_such_handle
  from_lookup (lookup handles handle need)

-- What a send returns to the caller.
unfoldable pub sent : Ipc.Result (Option ℕ) → Reply
sent (Ipc.ok k (some woken)) = reply k (hand_off woken)
sent (Ipc.ok k none) = reply k (give (pos 0))
sent (Ipc.err k Ipc.full) = fail k full
sent (Ipc.err k Ipc.invalid_channel) = fail k no_such_handle
sent (Ipc.err k Ipc.no_capacity) = fail k no_such_handle

-- The closure of `send`.
unfoldable pub send_run : Kernel → ℕ → ℕ → ℕ → ℕ → Checked Reply
unfolding channel sent
send_run k handle ptr now later = do
  id ← channel k handle rights_send
  s ← space k
  bytes ← ok_or (read_user k.mem s ptr message_size message_align) bad_pointer
  ok (sent (Ipc.send k id (message_from bytes) now later))

unfoldable pub send : Kernel → ℕ → ℕ → ℕ → ℕ → Reply
unfolding send_run
send k handle ptr now later = unwrap_or_fail k (send_run k handle ptr now later)

-- `write_user(space, buf, &message)?`.
unfoldable pub store_message : Kernel → AddressSpace → ℕ → Message → Reply
store_message k s buf message =
    elim (write_user k.mem s buf (message_bytes message) message_align) [
      | none ↦ fail k bad_pointer
      | some m ↦ reply (record k { mem = m }) (give (pos 0))
    ]

-- The caller waits on the channel.
unfoldable pub wait_on : ℕ → ℕ → ℕ → Ipc.Result (Unit {0}) → Reply
wait_on id buf deadline_ns (Ipc.ok k done) = reply (set_user_wait k id buf deadline_ns) blocked
wait_on id buf deadline_ns (Ipc.err k e) = fail k no_such_handle

-- The match on what was dequeued. `time` is the clock at the test of the deadline.
unfoldable pub received : AddressSpace → ℕ → ℕ → ℕ → Bool → ℕ → Ipc.Result (Option Message) → Reply
unfolding store_message wait_on
received s id buf deadline_ns blocking time (Ipc.err k e) = fail k no_such_handle
received s id buf deadline_ns blocking time (Ipc.ok k (some message)) =
    store_message k s buf message
received s id buf deadline_ns blocking time (Ipc.ok k none) =
    if not blocking
    then fail k would_block
    else if not (deadline_ns == 0) && leb deadline_ns time
    then fail k timeout
    else wait_on id buf deadline_ns (register_waiter k id k.current)

-- The closure of `recv`.
unfoldable pub recv_run : Kernel → ℕ → ℕ → ℕ → Bool → ℕ → (ℕ → ℕ) → ℕ → Checked Reply
unfolding channel received
recv_run k handle buf deadline_ns blocking now clock time = do
  id ← channel k handle rights_recv
  s ← space k
  require (check_writable k.mem s buf message_size message_align) bad_pointer
  ok (received s id buf deadline_ns blocking time (try_dequeue k id now clock))

unfoldable pub recv : Kernel → ℕ → ℕ → ℕ → Bool → ℕ → (ℕ → ℕ) → ℕ → Reply
unfolding recv_run
recv k handle buf deadline_ns blocking now clock time =
    unwrap_or_fail k (recv_run k handle buf deadline_ns blocking now clock time)

unfoldable pub caller_is_init : Kernel → Checked ℕ
caller_is_init k =
    if not (k.current == 0) && k.current == k.init_task then ok k.current else err not_permitted

-- SEND and RECV in one slot.
abbrev pub both_rights : ℕ
both_rights = rights_union rights_send rights_recv

unfoldable pub give_handle : Kernel → ℕ → ℕ → Handles.Inserted → Reply
give_handle k init id table_was_full = fail k table_full
give_handle k init id (at h t) =
    reply (set_receiver (put_task k init (record (task_at k init) { handles = t })) id init)
      (give (pos h))

unfoldable pub created : ℕ → Ipc.Result ℕ → Reply
unfolding give_handle
created init (Ipc.err k e) = fail k table_full
created init (Ipc.ok k id) =
    give_handle k init id
      (insert (task_at k init).handles (record { channel = id; rights = both_rights }))

-- A new channel with both rights in one handle. A channel is never freed, so the room is checked
-- first.
unfoldable pub create_run : Kernel → Checked Reply
unfolding caller_is_init created
create_run k = do
  init ← caller_is_init k
  require (not (is_full (task_at k init).handles)) table_full
  ok (created init (create k))

unfoldable pub channel_create : Kernel → Reply
unfolding create_run
channel_create k = unwrap_or_fail k (create_run k)

-- A task may report Clean or Panic; Fault is the kernel's to give.
unfoldable pub reported : ℕ → ExitReason
reported reason = elim (reason_from_u64 reason) [ some panic ↦ panic | _ ↦ clean ]

unfoldable pub exit : Kernel → ℕ → ℕ → ℕ → Fate Reply
unfolding reported
exit k reason now later = elim (retire_current k (reported reason) now later) [
  | runs k' ↦ runs (reply k' exited)
  | panics ↦ panics
  | halts ↦ halts
]
