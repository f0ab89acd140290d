-- ===== src/Ipc/Notices.antt =====
-- Kernel notices: a channel's queue and the notices that wait for it are one queue, in order.
use freshos.Base.{
  ℕ, zero, suc, ◌+◌, ◌<◌, ◌≤◌, ◌≡◌, ◌≢◌, ◌⊎◌, inl, inr, refl, ap, sym, ◌∙◌, true, false, none, some,
  List, [], ◌∷◌, ◌++◌, append_assoc, arith, length, leb, ◌==◌, if◌then◌else◌, Bool-cases,
}
use mathlib.Core.Path.{ap₂}
use freshos.Abi.{Message}
use freshos.Kernel.{Kernel, channel_at}
use freshos.Kernel.Channel.{channel_cap}
use freshos.Ipc.{after, backlog_cap, pending, pop, channel_mut, send_from, refill}
use freshos.Ipc.Queues.{IsWf, IsOpen, messages, send_from-Posted}

-- The notices that wait for a channel, oldest first, as they will be sent.
unfoldable pub notices : List (ℕ × Message) → ℕ → List Message
notices [] id = []
notices ((c, m) ∷ rest) id =
    if c == id then (record m { sender = 0 }) ∷ notices rest id else notices rest id

-- All that the receiver of a channel will get, oldest first.
abbrev pub stream : Kernel → ℕ → List Message
stream k id = messages (channel_at k id) ++ notices k.backlog id

pub notices-push :
    (entries : List (ℕ × Message)) (id j : ℕ) (m : Message)
    → notices (entries ++ ((id, m) ∷ [])) j
      ≡ notices entries j ++ (if id == j then record m { sender = 0 } ∷ [] else [])
unfolding notices
notices-push [] id j m = ground arith
notices-push ((c, x) ∷ rest) id j m = ground (arith, notices-push rest id j m)

pub pending-notices :
    (entries : List (ℕ × Message)) (id : ℕ) → pending entries id ≡ false → notices entries id ≡ []
unfolding pending notices
pending-notices [] id h = refl
pending-notices ((c, m) ∷ rest) id h = ground (arith, pending-notices rest id)

-- Notices still wait, and so `pop` finds the oldest.
record Popped (entries : List (ℕ × Message)) (id : ℕ) (m : Message) (rest : List (ℕ × Message))
    : Type 0 where
  first : notices entries id ≡ record m { sender = 0 } ∷ notices rest id
  others : (j : ℕ) → id ≢ j → notices rest j ≡ notices entries j
  shorter : length rest + 1 ≡ length entries

pop-Popped :
    (entries : List (ℕ × Message)) (id : ℕ)
    → pending entries id ≡ true
    → (m : Message) × (rest : List (ℕ × Message)) × (pop entries id ≡ some (m, rest))
      × Popped entries id m rest
unfolding pending pop notices
pop-Popped [] id h = cc
pop-Popped ((c, m) ∷ rest) id h = elim (Bool-cases (c == id)) [
  | inl here ↦ (
    m,
    rest,
    rw here,
    record { first = rw here; others = λ j ne. ground arith; shorter = omega arith },
  )
  | inr there ↦
      (let (x, others, e, p) = pop-Popped rest id (rw there at h) in
        (
          x,
          (c, m) ∷ others,
          rw (there, e),
          record {
            first = rw there p.first;
            others = λ j ne. ground (arith, p.others j);
            shorter = omega (arith, p.shorter);
          },
        ))
]

-- `k'` is `k` with some notices of a channel moved from the backlog into its queue.
pub record Refilled (k : Kernel) (id : ℕ) (k' : Kernel) : Type 0 where
  pub wf : IsWf k'
  pub opened : IsOpen k' id
  pub quiet : (channel_at k' id).waiter ≡ none
  pub same_stream : stream k' id ≡ stream k id
  pub others : (j : ℕ) → id ≢ j → stream k' j ≡ stream k j
  pub same_tasks : k'.tasks ≡ k.tasks

Refilled-self :
    (k : Kernel) (id : ℕ) → IsWf k → IsOpen k id → (channel_at k id).waiter ≡ none → Refilled k id k
Refilled-self k id w o q = record {
  wf = w;
  opened = o;
  quiet = q;
  same_stream = refl;
  others = λ j ne. refl;
  same_tasks = refl;
}

pub Refilled-trans :
    {k k' k'' : Kernel} {id : ℕ} → Refilled k id k' → Refilled k' id k'' → Refilled k id k''
Refilled-trans r s = record {
  wf = s.wf;
  opened = s.opened;
  quiet = s.quiet;
  same_stream = s.same_stream ∙ r.same_stream;
  others = λ j ne. s.others j ne ∙ r.others j ne;
  same_tasks = s.same_tasks ∙ r.same_tasks;
}

-- One round: the oldest notice is popped and sent.
round-Refilled :
    (k : Kernel) (id : ℕ) (m : Message) (rest : List (ℕ × Message)) (now later : ℕ)
    → IsWf k
    → IsOpen k id
    → (channel_at k id).waiter ≡ none
    → (channel_at k id).count < channel_cap
    → Popped k.backlog id m rest
    → Refilled k id (after (send_from (record k { backlog = rest }) 0 id m now later))
round-Refilled k id m rest now later w o q room p =
    let k₀ : Kernel = record k { backlog = rest } in
    let w₀ : IsWf k₀ = record {
      slots = w.slots;
      rings = w.rings;
      room = (let r = w.room in omega (arith, p.shorter));
    } in
    let (k', e, s) =
      send_from-Posted k₀ 0 id m now later w₀ (record { in_range = o.in_range; active = o.active })
        room q in
    rw (ap after e) (record {
      wf = s.wf;
      opened = record { in_range = o.in_range; active = s.still_open ∙ o.active };
      quiet = s.same_waiter ∙ q;
      same_stream =
          ap₂ ◌++◌ s.appended (ap (λ b. notices b id) s.same_backlog)
          ∙ append_assoc (messages (channel_at k id)) (record m { sender = 0 } ∷ [])
              (notices rest id)
          ∙ ap (◌++◌ (messages (channel_at k id))) (sym p.first);
      others = λ j ne.
          ap₂ (λ c b. messages c ++ notices b j) (s.others j ne) s.same_backlog
          ∙ ap (◌++◌ (messages (channel_at k j))) (p.others j ne);
      same_tasks = s.same_tasks;
    })

pub open_channel : (k : Kernel) (id : ℕ) → IsOpen k id → channel_mut k id ≡ some (channel_at k id)
unfolding channel_mut
open_channel k id o = let lt = o.in_range in let act = o.active in ground arith

-- When the refill stops, either no notice waits for the channel or the channel is full.
abbrev pub Settled : Kernel → ℕ → Type 0
Settled k id = (notices k.backlog id ≡ []) ⊎ (channel_cap ≤ (channel_at k id).count)

pub refill-Refilled :
    (fuel : ℕ) (k : Kernel) (id : ℕ) (clock : ℕ → ℕ)
    → IsWf k
    → IsOpen k id
    → (channel_at k id).waiter ≡ none
    → Refilled k id (refill fuel k id clock)
unfolding refill
refill-Refilled zero k id clock w o q = Refilled-self k id w o q
refill-Refilled (suc fuel) k id clock w o q = elim (Bool-cases (pending k.backlog id)) [
  | inr over ↦ rw (over, refill) (Refilled-self k id w o q)
  | inl waits ↦ elim (Bool-cases (leb channel_cap (channel_at k id).count)) [
    | inl filled ↦ rw (waits, refill, open_channel k id o, filled) (Refilled-self k id w o q)
    | inr room ↦
        (let (m, rest, e, p) = pop-Popped k.backlog id waits in
          let r = round-Refilled k id m rest (clock 0) (clock 1) w o q (ground arith) p in
          rw (waits, refill, open_channel k id o, room, e)
            (Refilled-trans r (
              refill-Refilled fuel
                (after (send_from (record k { backlog = rest }) 0 id m (clock 0) (clock 1))) id
                (λ n. clock (n + 2)) r.wf r.opened r.quiet)))
  ]
]

round_backlog :
    (k : Kernel) (id : ℕ) (m : Message) (rest : List (ℕ × Message)) (now later : ℕ)
    → IsWf k
    → IsOpen k id
    → (channel_at k id).waiter ≡ none
    → (channel_at k id).count < channel_cap
    → length rest ≤ backlog_cap
    → (after (send_from (record k { backlog = rest }) 0 id m now later)).backlog ≡ rest
round_backlog k id m rest now later w o q room le =
    let k₀ : Kernel = record k { backlog = rest } in
    let w₀ : IsWf k₀ = record { slots = w.slots; rings = w.rings; room = le } in
    let o₀ : IsOpen k₀ id = record { in_range = o.in_range; active = o.active } in
    let (k', e, s) = send_from-Posted k₀ 0 id m now later w₀ o₀ room q in
    rw (ap after e) s.same_backlog

no_notices : (entries : List (ℕ × Message)) (id : ℕ) → length entries ≤ 0 → notices entries id ≡ []
unfolding notices
no_notices [] id h = refl
no_notices (e ∷ rest) id h = absurd (omega arith)

-- As many rounds as there are waiting notices are enough for the refill of an open channel on which
-- nobody waits: afterwards no notice waits for the channel, or the channel is full.
pub refill-Settled :
    (fuel : ℕ) (k : Kernel) (id : ℕ) (clock : ℕ → ℕ)
    → IsWf k
    → IsOpen k id
    → (channel_at k id).waiter ≡ none
    → length k.backlog ≤ fuel
    → Settled (refill fuel k id clock) id
unfolding refill
refill-Settled zero k id clock w o q le = inl (no_notices k.backlog id le)
refill-Settled (suc fuel) k id clock w o q le = elim (Bool-cases (pending k.backlog id)) [
  | inr over ↦ rw (over, refill) (inl (pending-notices k.backlog id over))
  | inl waits ↦ elim (Bool-cases (leb channel_cap (channel_at k id).count)) [
    | inl filled ↦ rw (waits, refill, open_channel k id o, filled) (inr (ground arith))
    | inr room ↦
        (let (m, rest, e, p) = pop-Popped k.backlog id waits in
          let r = round-Refilled k id m rest (clock 0) (clock 1) w o q (ground arith) p in
          let b =
            round_backlog k id m rest (clock 0) (clock 1) w o q (ground arith)
              (let h = w.room in omega (arith, p.shorter)) in
          rw (waits, refill, open_channel k id o, room, e)
            (refill-Settled fuel
              (after (send_from (record k { backlog = rest }) 0 id m (clock 0) (clock 1))) id
              (λ n. clock (n + 2)) r.wf r.opened r.quiet (rw b (omega (arith, p.shorter)))))
  ]
]
