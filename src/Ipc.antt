-- ===== src/Ipc.antt =====
-- kernel/src/ipc.rs: the operations on channels. Each runs with interrupts masked and is one step.
-- `now` and `later` are the clock readings that it makes, in order. Where the source prints a line
-- to the serial port, nothing is modelled.
pub mod Queues
pub mod Notices
pub mod Stream
use freshos.Base.{
  ℕ, zero, suc, ◌+◌, ◌-◌, ◌%◌, ◌^◌, Bool, true, false, Option, none, some, List, [], ◌∷◌, ◌++◌, ltb,
  leb, ◌==◌, ◌&&◌, ◌||◌, is_some_of, if◌then◌else◌, length,
}
use freshos.Abi.{Message}
use freshos.Metrics.{record_ipc_delivery_ns, note_task_unblocked, note_task_running, Metrics}
use freshos.Kernel.{Kernel, max_channels, channel_at, put_channel, task_at, put_task}
use freshos.Kernel.Channel.{
  Channel, channel_cap, no_task, empty_channel, enqueue, pop_front, front, destination,
}
use freshos.Kernel.Trace.{trace_record}
use freshos.Kernel.Task.{blocked}
use freshos.Wait.{has_user_wait, complete_user_recv, unblock}

-- Kernel notices that may wait for room.
abbrev pub backlog_cap : ℕ
backlog_cap = 32

-- The first channel of the three that the kernel makes at boot, and init's inbox.
abbrev pub init_inbox : ℕ
init_inbox = 2

pub data Error : Type 0 where
  invalid_channel full no_capacity : Error

-- A result and the state after it.
pub data Result {ℓ} (A : Type ℓ) : Type ℓ where
  ok : Kernel → A → Result A
  err : Kernel → Error → Result A

-- The state after a call, whatever it returned.
abbrev pub after {ℓ} : {A : Type ℓ} → Result A → Kernel
after (ok k a) = k
after (err k e) = k

-- `Backlog::pending`, `push` and `pop`, on the used part of its array.
unfoldable pub pending : List (ℕ × Message) → ℕ → Bool
pending [] channel_id = false
pending ((c, m) ∷ rest) channel_id = if c == channel_id then true else pending rest channel_id

unfoldable pub push : List (ℕ × Message) → ℕ → Message → Option (List (ℕ × Message))
push entries channel_id message =
    if length entries == backlog_cap then none else some (entries ++ ((channel_id, message) ∷ []))

-- The first notice for a channel, and the others in order.
unfoldable pub pop : List (ℕ × Message) → ℕ → Option (Message × List (ℕ × Message))
pop [] channel_id = none
pop ((c, m) ∷ rest) channel_id =
    let later = pop rest channel_id in
    if c == channel_id
    then some (m, rest)
    else elim later [ none ↦ none | some (found, others) ↦ some (found, (c, m) ∷ others) ]

-- `channel_mut`: the channel, if it is active.
unfoldable pub channel_mut : Kernel → ℕ → Option Channel
channel_mut k channel_id =
    if leb max_channels channel_id
    then none
    else if (channel_at k channel_id).active
    then some (channel_at k channel_id)
    else none

-- `NEXT_ID.fetch_add` moves on even where there is no capacity.
unfoldable pub create : Kernel → Result ℕ
create k =
    let id : ℕ = k.next_id in
    let k' = record k { next_id = (id + 1) % 2 ^ 64 } in
    if leb max_channels id
    then err k' no_capacity
    else ok (put_channel k' id (record empty_channel { active = true })) id

-- `dequeue` on channel `id`: the oldest message, and the record of how long it waited.
unfoldable pub dequeue : Kernel → ℕ → ℕ → Option Message × Kernel
dequeue k id now =
    let ch = channel_at k id in
    if ch.count == 0 then (none, k) else (
      some (front ch).msg,
      record (put_channel k id (pop_front ch)) {
        metrics = record_ipc_delivery_ns k.metrics (now - (front ch).sent_ns);
      },
    )

-- Deliver to a task that waits in the recv syscall, or wake it.
unfoldable pub deliver_or_wake : ℕ → Option Message × Kernel → Result (Option ℕ)
deliver_or_wake task (some message, k) = ok (complete_user_recv k task message) (some task)
deliver_or_wake task (none, k) = ok (unblock k task) none

-- The last part of `send_from`: wake the waiting receiver.
unfoldable pub wake : Kernel → ℕ → ℕ → ℕ → Option ℕ → Result (Option ℕ)
wake k id now later none = ok k none
wake k id now later (some task) =
    let k₁ = put_channel k id (record (channel_at k id) { waiter = none }) in
    let k₂ = record k₁ { metrics = note_task_unblocked k₁.metrics task now } in
    if has_user_wait k₂ task
    then deliver_or_wake task (dequeue k₂ id later)
    else ok (unblock k₂ task) none

-- What `send_from` queues and records, before it wakes anybody. The kernel decides who sent it.
unfoldable pub post : Kernel → ℕ → ℕ → Message → ℕ → Kernel
post k sender id msg now =
    let ch = channel_at k id in
    record (put_channel k id (enqueue ch (record msg { sender = sender }) now)) {
      trace = trace_record k.trace (record {
        timestamp_ns = now;
        from_task = sender;
        to_task = destination ch % 2 ^ 16;
        channel = id % 2 ^ 16;
        tag = msg.tag % 2 ^ 16;
      });
    }

unfoldable pub send_from : Kernel → ℕ → ℕ → Message → ℕ → ℕ → Result (Option ℕ)
send_from k sender id msg now later =
    let ch = channel_at k id in
    if leb max_channels id
    then err k invalid_channel
    else if ch.active
    then (if leb channel_cap ch.count
        then err k full
        else wake (post k sender id msg now) id now later ch.waiter)
    else err k invalid_channel

unfoldable pub send : Kernel → ℕ → Message → ℕ → ℕ → Result (Option ℕ)
send k id msg now later = send_from k (k.current % 2 ^ 16) id msg now later

-- A kernel notice that finds no room, or others before it, waits in the backlog.
unfoldable pub park : Kernel → Option (List (ℕ × Message)) → Result (Option ℕ)
park k none = err k full
park k (some entries) = ok (record k { backlog = entries }) none

unfoldable pub send_as_kernel : Kernel → ℕ → Message → ℕ → ℕ → Result (Option ℕ)
send_as_kernel k id msg now later = elim (channel_mut k id) [
  | none ↦ err k invalid_channel
  | some ch ↦
      if leb channel_cap ch.count || pending k.backlog id
      then park k (push k.backlog id (record msg { sender = 0 }))
      else send_from k 0 id msg now later
]

-- `refill_from_backlog`, on fuel: `BACKLOG_CAP` rounds are enough, since each takes a notice out.
-- Each round reads the clock anew; `clock` gives the readings.
unfoldable pub refill : ℕ → Kernel → ℕ → (ℕ → ℕ) → Kernel
refill zero k id clock = k
refill (suc fuel) k id clock =
    if pending k.backlog id
    then (elim (channel_mut k id) [
      | none ↦ k
      | some ch ↦ (elim (leb channel_cap ch.count) [
        | true ↦ k
        | false ↦ (elim (pop k.backlog id) [
          | none ↦ k
          | some (message, entries) ↦
              refill fuel
                (after
                  (send_from (record k { backlog = entries }) 0 id message (clock 0) (clock 1)))
                id (λ n. clock (n + 2))
        ])
      ])
    ])
    else k

abbrev pub set_consumer : Kernel → ℕ → Kernel
set_consumer k id = put_channel k id (record (channel_at k id) { consumer = k.current % 2 ^ 16 })

-- What a syscall's receive does once the ring has been read.
unfoldable pub after_dequeue : ℕ → (ℕ → ℕ) → Option Message × Kernel → Result (Option Message)
after_dequeue id clock (none, k) = ok k none
after_dequeue id clock (some message, k) = ok (refill backlog_cap k id clock) (some message)

unfoldable pub try_dequeue : Kernel → ℕ → ℕ → (ℕ → ℕ) → Result (Option Message)
try_dequeue k id now clock = elim (channel_mut k id) [
  | none ↦ err k invalid_channel
  | some ch ↦ after_dequeue id clock (dequeue (set_consumer k id) id now)
]

unfoldable pub try_recv : Kernel → ℕ → ℕ → Option Message × Kernel
try_recv k id now =
    if leb max_channels id
    then (none, k)
    else if (channel_at k id).active
    then dequeue (set_consumer k id) id now
    else (none, k)

-- One round of the loop of `recv`: it returns, or leaves the caller blocked as the waiter; the next
-- round begins when the caller runs again.
pub data Round : Type 0 where
  received : Message → Kernel → Round
  no_channel : Kernel → Round
  blocks : Kernel → Round

unfoldable pub recv_result : ℕ → Option Message × Kernel → Round
recv_result id (some message, k) = received message k
recv_result id (none, k) =
    let k₁ = put_channel k id (record (channel_at k id) { waiter = some k.current }) in
    blocks (put_task k₁ k₁.current (record (task_at k₁ k₁.current) { state = blocked }))

unfoldable pub recv_round : Kernel → ℕ → ℕ → Round
recv_round k id now =
    if leb max_channels id
    then no_channel k
    else if (channel_at k id).active
    then recv_result id (dequeue (set_consumer k id) id now)
    else no_channel k

-- What `recv` does when it has been woken, before the next round.
unfoldable pub woken : Kernel → ℕ → Kernel
woken k now = record k { metrics = note_task_running k.metrics k.current now }

unfoldable pub register_waiter : Kernel → ℕ → ℕ → Result (Unit {0})
register_waiter k id task = elim (channel_mut k id) [
  | none ↦ err k invalid_channel
  | some ch ↦ ok (put_channel k id (record ch { waiter = some task })) tt
]

unfoldable pub cancel_waiter : Kernel → ℕ → ℕ → Kernel
cancel_waiter k id task = elim (channel_mut k id) [
  | none ↦ k
  | some ch ↦
      if is_some_of ch.waiter task then put_channel k id (record ch { waiter = none }) else k
]

unfoldable pub set_receiver : Kernel → ℕ → ℕ → Kernel
set_receiver k id task = elim (channel_mut k id) [
  | none ↦ k
  | some ch ↦ put_channel k id (record ch { receiver = task % 2 ^ 16; recv_home = none })
]

unfoldable pub set_receiver_with_home : Kernel → ℕ → ℕ → ℕ → ℕ → Kernel
set_receiver_with_home k id task home_task home_slot = elim (channel_mut k id) [
  | none ↦ k
  | some ch ↦
      put_channel k id
        (record ch { receiver = task % 2 ^ 16; recv_home = some (home_task % 2 ^ 16, home_slot) })
]

unfoldable pub receiver : Kernel → ℕ → Option ℕ
receiver k id = elim (channel_mut k id) [
  | none ↦ none
  | some ch ↦ if ch.receiver == no_task then none else some ch.receiver
]

-- What `give_back` did: the kernel after it, and whether the home slot took the right.
abbrev pub GiveBack : Type 0
GiveBack = Kernel → ℕ → ℕ → Kernel × Bool

-- The new receiver, and the kernel after `give_back`.
unfoldable pub sent_home : Kernel → Option (ℕ × ℕ) → GiveBack → Kernel × ℕ
sent_home k none give_back = (k, no_task)
sent_home k (some (home_task, home_slot)) give_back =
    let (k', taken) = give_back k home_task home_slot in
    (k', (if taken then home_task else no_task))

unfoldable pub receiver_exited : Kernel → ℕ → ℕ → GiveBack → Kernel
receiver_exited k id task give_back = elim (channel_mut k id) [
  | none ↦ k
  | some ch ↦
      if ch.receiver == task % 2 ^ 16
      then (let (k', next) = sent_home k ch.recv_home give_back in
          put_channel k' id (record ch {
            waiter = if is_some_of ch.waiter task then none else ch.waiter;
            receiver = next;
            recv_home = none;
          }))
      else k
]

unfoldable pub channel_count : Kernel → ℕ
channel_count k = k.next_id
