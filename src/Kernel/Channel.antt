-- ===== src/Kernel/Channel.antt =====
-- `Channel` of kernel/src/ipc.rs: a ring of 16 queued messages, its waiter and its receiver.
pub mod Queue
use freshos.Base.{
  ℕ, ◌+◌, ◌-◌, ◌%◌, Bool, true, false, Option, none, some, List, ◌==◌, leb, if◌then◌else◌, get_or,
  set, replicate,
}
use freshos.Abi.{Message, empty_message}

abbrev pub channel_cap : ℕ
channel_cap = 16

-- No task: 0xFFFF.
abbrev pub no_task : ℕ
no_task = 0xFFFF

pub record Queued : Type 0 where
  pub msg : Message
  pub sent_ns : ℕ

abbrev pub empty_queued : Queued
empty_queued = record { msg = empty_message; sent_ns = 0 }

pub record Channel : Type 0 where
  pub active : Bool
  pub buf : List Queued
  pub head : ℕ
  pub tail : ℕ
  pub count : ℕ
  pub waiter : Option ℕ
  pub consumer : ℕ
  pub receiver : ℕ
  -- The task and handle slot that RECV was moved from.
  pub recv_home : Option (ℕ × ℕ)

abbrev pub empty_channel : Channel
empty_channel = record {
  active = false;
  buf = replicate channel_cap empty_queued;
  head = 0;
  tail = 0;
  count = 0;
  waiter = none;
  consumer = no_task;
  receiver = no_task;
  recv_home = none;
}

-- The write to the ring in `send_from`.
unfoldable pub enqueue : Channel → Message → ℕ → Channel
enqueue ch msg now_ns = record ch {
  buf = set ch.buf ch.head (record { msg = msg; sent_ns = now_ns });
  head = (ch.head + 1) % channel_cap;
  count = ch.count + 1;
}

-- The read from the ring in `dequeue`, when something is queued.
unfoldable pub pop_front : Channel → Channel
pop_front ch = record ch { tail = (ch.tail + 1) % channel_cap; count = ch.count - 1 }

unfoldable pub front : Channel → Queued
front ch = get_or ch.buf ch.tail empty_queued

-- Who will receive: the waiter, else the holder of RECV, else the last consumer.
unfoldable pub destination : Channel → ℕ
destination ch = elim ch.waiter [
  | some w ↦ w
  | none ↦
      if ch.receiver == no_task
      then (if ch.consumer == no_task then no_task else ch.consumer)
      else ch.receiver
]
