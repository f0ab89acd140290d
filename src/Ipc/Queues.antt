-- ===== src/Ipc/Queues.antt =====
-- Sending and receiving on one channel, against the queue of its messages.
use freshos.Base.{
  ℕ, ◌+◌, ◌-◌, ◌<◌, ◌≤◌, ◌≡◌, ◌≢◌, refl, ap, sym, ◌∙◌, true, false, Option, none, some, List, [],
  ◌∷◌, ◌++◌, map, arith, length, length-set, get_or-set, leb, ◌==◌, if◌then◌else◌, ◌⊎◌, inl, inr,
  Bool-cases, ==_iff,
}
use mathlib.Core.List.{map-append}
use freshos.Abi.{Message}
use freshos.Kernel.{Kernel, max_channels, channel_at, put_channel}
use freshos.Kernel.Channel.{
  Channel, Queued, channel_cap, empty_queued, enqueue, pop_front, front, empty_channel,
}
use freshos.Kernel.Channel.Queue.{
  queued, IsRing, enqueue-IsRing, pop_front-IsRing, queued-enqueue, queued-pop_front,
}
use freshos.Ipc.{
  Result, ok, err, full, invalid_channel, post, wake, send_from, deliver_or_wake, dequeue,
  backlog_cap,
}
use freshos.Wait.{has_user_wait, complete_user_recv, unblock}
use freshos.Metrics.{record_ipc_delivery_ns, note_task_unblocked}
use freshos.Base.Ring.{slice, at_ring}

-- What every operation on channels keeps.
pub record IsWf (k : Kernel) : Type 0 where
  pub slots : length k.channels ≡ max_channels
  pub rings : (i : ℕ) → i < max_channels → IsRing (channel_at k i)
  pub room : length k.backlog ≤ backlog_cap

-- A channel's messages, oldest first.
abbrev pub messages : Channel → List Message
messages ch = map (λ (e : Queued). e.msg) (queued ch)

pub channel_at-put :
    (k : Kernel) (id j : ℕ) (ch : Channel)
    → length k.channels ≡ max_channels
    → id < max_channels
    → channel_at (put_channel k id ch) j ≡ (if id == j then ch else channel_at k j)
channel_at-put k id j ch h lt = get_or-set k.channels id j ch empty_channel (omega arith)

pub put-IsWf :
    (k : Kernel) (id : ℕ) (ch : Channel)
    → id < max_channels
    → IsRing ch
    → IsWf k
    → IsWf (put_channel k id ch)
put-IsWf k id ch lt r w = record {
  slots = length-set k.channels id ch ∙ w.slots;
  rings = λ i h. rw (channel_at-put k id i ch w.slots lt) (ground (arith, r, w.rings i h));
  room = w.room;
}

-- A channel that is open: in range and active.
pub record IsOpen (k : Kernel) (id : ℕ) : Type 0 where
  pub in_range : id < max_channels
  pub active : (channel_at k id).active ≡ true

-- `post` in a channel with room: it holds one message more, stamped with its sender.
pub record Posted (k : Kernel) (id : ℕ) (msg : Message) (k' : Kernel) : Type 0 where
  pub wf : IsWf k'
  pub appended : messages (channel_at k' id) ≡ messages (channel_at k id) ++ (msg ∷ [])
  pub others : (j : ℕ) → id ≢ j → channel_at k' j ≡ channel_at k j
  pub still_open : (channel_at k' id).active ≡ (channel_at k id).active
  pub same_waiter : (channel_at k' id).waiter ≡ (channel_at k id).waiter
  pub counted : (channel_at k' id).count ≡ (channel_at k id).count + 1
  pub same_backlog : k'.backlog ≡ k.backlog
  pub same_tasks : k'.tasks ≡ k.tasks

pub post-Posted :
    (k : Kernel) (s id : ℕ) (msg : Message) (now : ℕ)
    → IsWf k
    → id < max_channels
    → (channel_at k id).count < channel_cap
    → Posted k id (record msg { sender = s }) (post k s id msg now)
unfolding post
post-Posted k s id msg now w lt room =
    let m : Message = record msg { sender = s } in
    let ch = channel_at k id in
    let here : channel_at (put_channel k id (enqueue ch m now)) id ≡ enqueue ch m now =
      ground (arith, channel_at-put k id id (enqueue ch m now) w.slots lt) in
    let w' = put-IsWf k id (enqueue ch m now) lt (enqueue-IsRing ch m now (w.rings id lt) room) w in
    record {
      wf = record { slots = w'.slots; rings = w'.rings; room = w'.room };
      appended =
          ap messages here
          ∙ ap (map (λ (e : Queued). e.msg)) (queued-enqueue ch m now (w.rings id lt) room)
          ∙ map-append _ _ _;
      others = λ j ne. ground (arith, channel_at-put k id j (enqueue ch m now) w.slots lt);
      still_open = ap (λ (c : Channel). c.active) here ∙ (unfold enqueue in refl);
      same_waiter = ap (λ (c : Channel). c.waiter) here ∙ (unfold enqueue in refl);
      counted = ap (λ (c : Channel). c.count) here ∙ (unfold enqueue in refl);
      same_backlog = refl;
      same_tasks = refl;
    }

-- Sending on an open channel that has room, and on which nobody waits, appends the message to the
-- channel's queue with the sender that the kernel gives it, wakes nobody, and changes no other
-- channel, no task and no waiting notice.
pub send_from-Posted :
    (k : Kernel) (s id : ℕ) (msg : Message) (now later : ℕ)
    → IsWf k
    → IsOpen k id
    → (channel_at k id).count < channel_cap
    → (channel_at k id).waiter ≡ none
    → (k' : Kernel) × (send_from k s id msg now later ≡ ok k' none)
      × Posted k id (record msg { sender = s }) k'
unfolding send_from wake
send_from-Posted k s id msg now later w o room nobody =
    let lt = o.in_range in
    let act = o.active in (post k s id msg now, ground arith, post-Posted k s id msg now w lt room)

abbrev pub Succeeds : {A : Type 0} → Result A → Type 0
Succeeds {A} r = (k' : Kernel) × (a : A) × (r ≡ ok k' a)

deliver_or_wake-Succeeds : (t : ℕ) (r : Option Message × Kernel) → Succeeds (deliver_or_wake t r)
unfolding deliver_or_wake
deliver_or_wake-Succeeds t (none, k) = (unblock k t, none, refl)
deliver_or_wake-Succeeds t (some m, k) = (complete_user_recv k t m, some t, refl)

-- The state in which `wake` looks at the waiting task.
abbrev marked : Kernel → ℕ → ℕ → ℕ → Kernel
marked k id t now = record (put_channel k id (record (channel_at k id) { waiter = none })) {
  metrics = note_task_unblocked k.metrics t now;
}

wake-Succeeds : (k : Kernel) (id now later : ℕ) (o : Option ℕ) → Succeeds (wake k id now later o)
unfolding wake
wake-Succeeds k id now later none = ((k, none, refl))
wake-Succeeds k id now later (some t) = elim (Bool-cases (has_user_wait (marked k id t now) t)) [
  | inl waits ↦ rw (waits, wake) (deliver_or_wake-Succeeds t _)
  | inr blocked ↦ rw (blocked, wake) ((unblock (marked k id t now) t, none, refl))
]

send_from_branches :
    (k : Kernel) (s id : ℕ) (msg : Message) (now later : ℕ)
    → ((max_channels ≤ id ⊎ ((channel_at k id).active ≡ false))
        → send_from k s id msg now later ≡ err k invalid_channel)
      × (IsOpen k id
          → channel_cap ≤ (channel_at k id).count
          → send_from k s id msg now later ≡ err k full)
      × (IsOpen k id
          → (channel_at k id).count < channel_cap
          → Succeeds (send_from k s id msg now later))
unfolding send_from
send_from_branches k s id msg now later = (
  λ h. refused h,
  λ o h. (let lt = o.in_range in let act = o.active in ground arith),
  λ o h.
      rw (test_range o.in_range, o.active, test_room h)
        (wake-Succeeds (post k s id msg now) id now later (channel_at k id).waiter),
)
  where
    refused :
        (max_channels ≤ id ⊎ ((channel_at k id).active ≡ false))
        → send_from k s id msg now later ≡ err k invalid_channel
    refused (inl h) = ground arith
    refused (inr h) = ground arith

    test_range : id < max_channels → leb max_channels id ≡ false
    test_range h = ground arith

    test_room :
        (channel_at k id).count < channel_cap → leb channel_cap (channel_at k id).count ≡ false
    test_room h = ground arith

-- A send is refused as invalid on a channel that is out of range or not active, and as full on an open
-- channel that holds 16 messages, and then changes nothing; in every other case it succeeds.
pub send_from_outcome :
    (k : Kernel) (s id : ℕ) (msg : Message) (now later : ℕ)
    → ((max_channels ≤ id ⊎ ((channel_at k id).active ≡ false))
        × (send_from k s id msg now later ≡ err k invalid_channel))
      ⊎ (IsOpen k id
          × (channel_cap ≤ (channel_at k id).count)
          × (send_from k s id msg now later ≡ err k full))
      ⊎ (IsOpen k id
          × ((channel_at k id).count < channel_cap)
          × Succeeds (send_from k s id msg now later))
send_from_outcome k s id msg now later =
    let (invalid, is_full, succeeds) = send_from_branches k s id msg now later in
    elim (Bool-cases (leb max_channels id)) [
      | inl far ↦
          (let h : max_channels ≤ id ⊎ ((channel_at k id).active ≡ false) = inl (ground arith) in
            inl (h, invalid h))
      | inr near ↦ elim (Bool-cases (channel_at k id).active) [
        | inr closed ↦ inl (inr closed, invalid (inr closed))
        | inl act ↦
            (let o : IsOpen k id = record { in_range = ground (arith, near); active = act } in
              elim (Bool-cases (leb channel_cap (channel_at k id).count)) [
                | inl f ↦
                    (let h : channel_cap ≤ (channel_at k id).count = ground (arith, f) in
                      inr (inl (o, h, is_full o h)))
                | inr r ↦
                    (let h : (channel_at k id).count < channel_cap = ground (arith, r) in
                      inr (inr (o, h, succeeds o h)))
              ])
      ]
    ]

-- `k'` is `k` with the oldest message of a channel, `m`, taken out.
pub record Taken (k : Kernel) (id : ℕ) (m : Message) (k' : Kernel) : Type 0 where
  pub wf : IsWf k'
  pub oldest : messages (channel_at k id) ≡ m ∷ messages (channel_at k' id)
  pub others : (j : ℕ) → id ≢ j → channel_at k' j ≡ channel_at k j
  pub still_open : (channel_at k' id).active ≡ (channel_at k id).active
  pub same_waiter : (channel_at k' id).waiter ≡ (channel_at k id).waiter
  pub counted : (channel_at k' id).count + 1 ≡ (channel_at k id).count
  pub same_backlog : k'.backlog ≡ k.backlog
  pub same_tasks : k'.tasks ≡ k.tasks

dequeue-Taken :
    (k : Kernel) (id now : ℕ)
    → IsWf k
    → id < max_channels
    → (channel_at k id).count ≢ 0
    → (k' : Kernel) × (dequeue k id now ≡ (some (front (channel_at k id)).msg, k'))
      × Taken k id (front (channel_at k id)).msg k'
unfolding dequeue
dequeue-Taken k id now w lt some_queued =
    let ch = channel_at k id in
    let here : channel_at (put_channel k id (pop_front ch)) id ≡ pop_front ch =
      ground (arith, channel_at-put k id id (pop_front ch) w.slots lt) in
    let w' = put-IsWf k id (pop_front ch) lt (pop_front-IsRing ch (w.rings id lt) some_queued) w in
    (
      record (put_channel k id (pop_front ch)) {
        metrics = record_ipc_delivery_ns k.metrics (now - (front ch).sent_ns);
      },
      ground arith,
      record {
        wf = record { slots = w'.slots; rings = w'.rings; room = w'.room };
        oldest =
            ap (map (λ (e : Queued). e.msg)) (queued-pop_front ch (w.rings id lt) some_queued)
            ∙ ap (λ (c : Channel). (front ch).msg ∷ messages c) (sym here);
        others = λ j ne. ground (arith, channel_at-put k id j (pop_front ch) w.slots lt);
        still_open = ap (λ (c : Channel). c.active) here ∙ (unfold pop_front in refl);
        same_waiter = ap (λ (c : Channel). c.waiter) here ∙ (unfold pop_front in refl);
        counted = ap (λ (c : Channel). c.count + 1) here ∙ (unfold pop_front in omega arith);
        same_backlog = refl;
        same_tasks = refl;
      },
    )

-- Taking a message gives the oldest and leaves the others in order; from an empty channel it gives
-- nothing and changes nothing.
pub dequeue_cases :
    (k : Kernel) (id now : ℕ)
    → IsWf k
    → id < max_channels
    → ((messages (channel_at k id) ≡ [])
        × ((channel_at k id).count ≡ 0)
        × (dequeue k id now ≡ (none, k)))
      ⊎ ((m : Message) × (k' : Kernel) × (dequeue k id now ≡ (some m, k')) × Taken k id m k')
unfolding dequeue
dequeue_cases k id now w lt = elim (Bool-cases ((channel_at k id).count == 0)) [
  | inl none_queued ↦ inl (
    ap
        (λ n.
          map (λ (e : Queued). e.msg)
            (slice (at_ring (channel_at k id).buf empty_queued channel_cap) (channel_at k id).tail
              n))
        ((==_iff _ 0).0 none_queued),
    ground arith,
    ground arith,
  )
  | inr some_queued ↦
      (let (k', e, t) = dequeue-Taken k id now w lt (ground arith) in
        inr ((front (channel_at k id)).msg, k', e, t))
]
