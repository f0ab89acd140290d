-- ===== src/Ipc/Stream.antt =====
-- The kernel's notices to a service: what `send_as_kernel` accepts, `try_dequeue` returns, in order.
use freshos.Base.{
  ℕ, ◌%◌, ◌^◌, ◌<◌, ◌≡◌, ◌≢◌, ◌⊎◌, inl, inr, refl, ap, sym, ◌∙◌, none, some, List, [], ◌∷◌, ◌++◌,
  append_assoc, append-nil, arith, length, length-append, leb, ◌||◌, Bool-cases,
}
use mathlib.Core.Path.{ap₂}
use freshos.Abi.{Message}
use freshos.Kernel.{Kernel, channel_at}
use freshos.Kernel.Channel.{Channel, channel_cap}
use freshos.Ipc.{
  ok, backlog_cap, pending, push, park, send_as_kernel, refill, after_dequeue, try_dequeue,
  set_consumer,
}
use freshos.Ipc.Queues.{
  IsWf, IsOpen, messages, send_from-Posted, dequeue_cases, channel_at-put, put-IsWf,
}
use freshos.Ipc.Notices.{
  notices, stream, notices-push, pending-notices, open_channel, Refilled, refill-Refilled,
  refill-Settled, Settled,
}

notices_here :
    (entries : List (ℕ × Message)) (id : ℕ) (m : Message)
    → notices (entries ++ ((id, record m { sender = 0 }) ∷ [])) id
      ≡ notices entries id ++ (record m { sender = 0 } ∷ [])
notices_here entries id m = ground (arith, notices-push entries id id (record m { sender = 0 }))

notices_there :
    (entries : List (ℕ × Message)) (id j : ℕ) (m : Message)
    → id ≢ j
    → notices (entries ++ ((id, record m { sender = 0 }) ∷ [])) j ≡ notices entries j
notices_there entries id j m ne =
    ground
      (arith, notices-push entries id j (record m { sender = 0 }), append-nil (notices entries j))

-- A kernel notice on an open channel on which nobody waits is accepted while the backlog has room,
-- whether or not the channel is full: it becomes the last of all that the channel's receiver will
-- get, with the kernel as its sender. No other channel's stream changes.
pub send_as_kernel-appends :
    (k : Kernel) (id : ℕ) (msg : Message) (now later : ℕ)
    → IsWf k
    → IsOpen k id
    → (channel_at k id).waiter ≡ none
    → length k.backlog < backlog_cap
    → (k' : Kernel) × (send_as_kernel k id msg now later ≡ ok k' none)
      × IsWf k'
      × (stream k' id ≡ stream k id ++ (record msg { sender = 0 } ∷ []))
      × ((j : ℕ) → id ≢ j → stream k' j ≡ stream k j)
unfolding send_as_kernel park push
send_as_kernel-appends k id msg now later w o q room =
    elim (Bool-cases (leb channel_cap (channel_at k id).count || pending k.backlog id)) [
      | inl waits ↦ (
        record k { backlog = k.backlog ++ ((id, record msg { sender = 0 }) ∷ []) },
        rw (open_channel k id o, send_as_kernel, waits) (ground arith),
        record {
          slots = w.slots;
          rings = w.rings;
          room = omega (arith, length-append {0} k.backlog ((id, record msg { sender = 0 }) ∷ []));
        },
        ap (◌++◌ (messages (channel_at k id))) (notices_here k.backlog id msg)
            ∙ sym (append_assoc (messages (channel_at k id)) (notices k.backlog id) _),
        λ j ne. ap (◌++◌ (messages (channel_at k j))) (notices_there k.backlog id j msg ne),
      )
      | inr open_room ↦
          (let none_waits : notices k.backlog id ≡ [] =
              pending-notices k.backlog id (ground arith) in
            let (k', e, s) = send_from-Posted k 0 id msg now later w o (ground arith) q in
            (
              k',
              rw (open_channel k id o, send_as_kernel, open_room) e,
              s.wf,
              ap₂ ◌++◌ s.appended (ap (λ b. notices b id) s.same_backlog ∙ none_waits)
                  ∙ append-nil _
                  ∙ ap (λ n. n ++ (record msg { sender = 0 } ∷ []))
                      (sym (append-nil _)
                        ∙ ap (◌++◌ (messages (channel_at k id))) (sym none_waits)),
              λ j ne. ap₂ (λ c b. messages c ++ notices b j) (s.others j ne) s.same_backlog,
            ))
    ]

set_consumer-Refilled :
    (k : Kernel) (id : ℕ)
    → IsWf k
    → IsOpen k id
    → (channel_at k id).waiter ≡ none
    → Refilled k id (set_consumer k id)
set_consumer-Refilled k id w o q =
    let ch : Channel = record (channel_at k id) { consumer = k.current % 2 ^ 16 } in
    let here : channel_at (set_consumer k id) id ≡ ch =
      ground (arith, channel_at-put k id id ch w.slots o.in_range) in
    let r = w.rings id o.in_range in
    record {
      wf =
          put-IsWf k id ch o.in_range
            (record { size = r.size; tail_in = r.tail_in; fits = r.fits; head_at = r.head_at }) w;
      opened = record {
        in_range = o.in_range;
        active = ap (λ (c : Channel). c.active) here ∙ o.active;
      };
      quiet = ap (λ (c : Channel). c.waiter) here ∙ q;
      same_stream = ap (λ c. messages c ++ notices k.backlog id) here;
      others = λ j ne.
          ap (λ c. messages c ++ notices k.backlog j)
            (let e : channel_at (set_consumer k id) j ≡ channel_at k j =
                ground (arith, channel_at-put k id j ch w.slots o.in_range) in
              e);
      same_tasks = refl;
    }

count-set_consumer :
    (k : Kernel) (id : ℕ)
    → IsWf k
    → IsOpen k id
    → (channel_at (set_consumer k id) id).count ≡ (channel_at k id).count
count-set_consumer k id w o =
    let ch : Channel = record (channel_at k id) { consumer = k.current % 2 ^ 16 } in
    let here : channel_at (set_consumer k id) id ≡ ch =
      ground (arith, channel_at-put k id id ch w.slots o.in_range) in
    ap (λ (c : Channel). c.count) here

-- A state in which the next `try_dequeue` on the channel may run, after one on `k`.
pub record Next (k : Kernel) (id : ℕ) (k' : Kernel) : Type 0 where
  pub wf : IsWf k'
  pub opened : IsOpen k' id
  pub quiet : (channel_at k' id).waiter ≡ none
  pub settled : Settled k' id
  pub others : (j : ℕ) → id ≢ j → stream k' j ≡ stream k j

none_left :
    (k : Kernel) (id : ℕ)
    → Settled k id
    → messages (channel_at k id) ≡ []
    → (channel_at k id).count ≡ 0
    → stream k id ≡ []
none_left k id (inl e) m c = ap₂ ◌++◌ m e
none_left k id (inr h) m c = absurd (omega arith)

-- What `try_dequeue` returns is the first of all that the channel's receiver will get, and the rest
-- stays in order. It returns nothing exactly when there is nothing, neither queued nor waiting, if
-- notices wait only for a full channel; and this is so again afterwards.
pub try_dequeue-stream :
    (k : Kernel) (id now : ℕ) (clock : ℕ → ℕ)
    → IsWf k
    → IsOpen k id
    → (channel_at k id).waiter ≡ none
    → Settled k id
    → (k' : Kernel) × Next k id k'
      × (((stream k id ≡ []) × (stream k' id ≡ []) × (try_dequeue k id now clock ≡ ok k' none))
          ⊎ ((m : Message) × (stream k id ≡ m ∷ stream k' id)
              × (try_dequeue k id now clock ≡ ok k' (some m))))
unfolding try_dequeue after_dequeue
try_dequeue-stream k id now clock w o q st =
    let k₁ = set_consumer k id in
    let r = set_consumer-Refilled k id w o q in
    let st₁ : Settled k₁ id = settled_same k id st (count-set_consumer k id w o) in
    elim (dequeue_cases k₁ id now r.wf o.in_range) [
      | inl (m, c, e) ↦ (
        k₁,
        record { wf = r.wf; opened = r.opened; quiet = r.quiet; settled = st₁; others = r.others },
        inl (
          sym r.same_stream ∙ none_left k₁ id st₁ m c,
          none_left k₁ id st₁ m c,
          rw (open_channel k id o, try_dequeue, e),
        ),
      )
      | inr (m, k₂, e, t) ↦
          (let o₂ : IsOpen k₂ id = record {
            in_range = o.in_range;
            active = t.still_open ∙ r.opened.active;
          } in
            let q₂ = t.same_waiter ∙ r.quiet in
            let f = refill-Refilled backlog_cap k₂ id clock t.wf o₂ q₂ in
            (
              refill backlog_cap k₂ id clock,
              record {
                wf = f.wf;
                opened = f.opened;
                quiet = f.quiet;
                settled = refill-Settled backlog_cap k₂ id clock t.wf o₂ q₂ t.wf.room;
                others = λ j ne.
                    f.others j ne
                    ∙ ap₂ (λ c b. messages c ++ notices b j) (t.others j ne) t.same_backlog
                    ∙ r.others j ne;
              },
              inr (
                m,
                sym r.same_stream
                    ∙ ap₂ (λ c b. c ++ notices b id) t.oldest (sym t.same_backlog)
                    ∙ ap (◌∷◌ m) (sym f.same_stream),
                rw (open_channel k id o, try_dequeue, e),
              ),
            ))
    ]
  where
    settled_same :
        (k : Kernel) (id : ℕ)
        → Settled k id
        → (channel_at (set_consumer k id) id).count ≡ (channel_at k id).count
        → Settled (set_consumer k id) id
    settled_same k id (inl e) c = inl e
    settled_same k id (inr h) c = inr (omega arith)
