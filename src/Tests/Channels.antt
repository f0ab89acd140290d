-- ===== src/Tests/Channels.antt =====
-- The theorems on channels, on a kernel at boot with 32 open channels.
use freshos.Base.{
  ℕ, zero, suc, ◌+◌, ◌<◌, ◌≤◌, ◌≡◌, ◌≢◌, ◌⊎◌, refl, inl, arith, true, false, none, some, [], ◌∷◌,
  ◌++◌, get_or, replicate,
}
use freshos.Abi.{Message, empty_message}
use freshos.FrameAlloc.{all_used}
use freshos.Metrics.{max_tasks}
use freshos.Metrics
use freshos.Registry
use freshos.Kernel.{Kernel, max_channels, no_hand_off, channel_at}
use freshos.Kernel.Channel.{Channel, empty_channel, channel_cap}
use freshos.Kernel.Channel.Queue.{IsRing}
use freshos.Kernel.Trace
use freshos.Kernel.Task.{empty_task, empty_pending, running, ready}
use freshos.Ipc.{
  send_from, send_as_kernel, try_dequeue, refill, post, ok, err, full, invalid_channel, backlog_cap,
}
use freshos.Ipc.Queues.{
  IsWf, IsOpen, Posted, Succeeds, post-Posted, send_from-Posted, send_from_outcome,
}
use freshos.Ipc.Notices.{stream, notices, Settled, refill-Settled}
use freshos.Ipc.Stream.{Next, send_as_kernel-appends, try_dequeue-stream}

abbrev opened : Channel
opened = record empty_channel { active = true }

-- Task 0 runs, task 1 is ready, and the other slots are free.
abbrev pub boot : Kernel
boot = record {
  channels = replicate max_channels opened;
  next_id = max_channels;
  backlog = [];
  trace = Trace.start;
  tasks =
      record empty_task { state = running }
      ∷ record empty_task { state = ready }
      ∷ replicate 14 empty_task;
  pending_frees = replicate max_tasks empty_pending;
  current = 0;
  donor = no_hand_off;
  target = no_hand_off;
  count = 2;
  init_task = 1;
  generations = replicate max_tasks 0;
  kernel_ttbr0 = 0;
  active_ttbr0 = 0;
  registry = Registry.start;
  metrics = Metrics.start;
  alloc = all_used;
  mem = λ a. 0;
  geometry = record { kernel_l1 = 0; l1_entries = 0; ram_memory_type = 0 };
}

opened-IsRing : (n i : ℕ) → IsRing (get_or (replicate n opened) i empty_channel)
opened-IsRing zero i = omega arith
opened-IsRing (suc n) zero = omega arith
opened-IsRing (suc n) (suc i) = opened-IsRing n i

boot-IsWf : IsWf boot
boot-IsWf = record {
  slots = refl;
  rings = λ i lt. opened-IsRing max_channels i;
  room = omega arith;
}

inbox : IsOpen boot 2
inbox = record { in_range = omega arith; active = refl }

send_from-Posted_example :
    (k' : Kernel) × (send_from boot 1 2 empty_message 10 11 ≡ ok k' none)
    × Posted boot 2 (record empty_message { sender = 1 }) k'
send_from-Posted_example =
    send_from-Posted boot 1 2 empty_message 10 11 boot-IsWf inbox (omega arith) refl

send_as_kernel-appends_example :
    (k' : Kernel) × (send_as_kernel boot 2 empty_message 10 11 ≡ ok k' none)
    × IsWf k'
    × (stream k' 2 ≡ stream boot 2 ++ (record empty_message { sender = 0 } ∷ []))
    × ((j : ℕ) → 2 ≢ j → stream k' j ≡ stream boot j)
send_as_kernel-appends_example =
    send_as_kernel-appends boot 2 empty_message 10 11 boot-IsWf inbox refl (omega arith)

-- A message is queued on channel 2.
abbrev sent : Kernel
sent = post boot 1 2 empty_message 10

sent-Posted : Posted boot 2 (record empty_message { sender = 1 }) sent
sent-Posted = post-Posted boot 1 2 empty_message 10 boot-IsWf (omega arith) (omega arith)

sent-IsOpen : IsOpen sent 2
sent-IsOpen = record { in_range = omega arith; active = sent-Posted.still_open }

sent-Settled : Settled sent 2
unfolding notices post
sent-Settled = inl refl

try_dequeue-stream_example :
    (k' : Kernel) × Next sent 2 k'
    × (((stream sent 2 ≡ [])
          × (stream k' 2 ≡ [])
          × (try_dequeue sent 2 10 (λ n. 11 + n) ≡ ok k' none))
        ⊎ ((m : Message) × (stream sent 2 ≡ m ∷ stream k' 2)
            × (try_dequeue sent 2 10 (λ n. 11 + n) ≡ ok k' (some m))))
try_dequeue-stream_example =
    try_dequeue-stream sent 2 10 (λ n. 11 + n) sent-Posted.wf sent-IsOpen sent-Posted.same_waiter
      sent-Settled

refill-Settled_example : Settled (refill backlog_cap boot 2 (λ n. n)) 2
refill-Settled_example =
    refill-Settled backlog_cap boot 2 (λ n. n) boot-IsWf inbox refl (omega arith)

send_from_outcome_example :
    ((max_channels ≤ 2 ⊎ ((channel_at boot 2).active ≡ false))
      × (send_from boot 1 2 empty_message 10 11 ≡ err boot invalid_channel))
    ⊎ (IsOpen boot 2
        × (channel_cap ≤ (channel_at boot 2).count)
        × (send_from boot 1 2 empty_message 10 11 ≡ err boot full))
    ⊎ (IsOpen boot 2
        × ((channel_at boot 2).count < channel_cap)
        × Succeeds (send_from boot 1 2 empty_message 10 11))
send_from_outcome_example = send_from_outcome boot 1 2 empty_message 10 11
