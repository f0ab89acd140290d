-- ===== src/Kernel/Channel/Queue.antt =====
-- A channel's ring is a first-in first-out queue of at most 16 messages.
use freshos.Base.{
  ℕ, suc, ◌+◌, ◌-◌, ◌%◌, ◌<◌, ◌≤◌, ◌≡◌, ◌≢◌, ap, sym, ◌∙◌, List, [], ◌∷◌, ◌++◌, arith, length,
  length-set, get_or, set,
}
use mathlib.Core.Path.{ap₂}
use freshos.Base.Ring.{slice, at_ring, slice-set, slice-wrap}
use freshos.Abi.{Message}
use freshos.Kernel.Channel.{
  Channel, Queued, empty_queued, empty_channel, channel_cap, enqueue, pop_front, front,
}

-- The queued messages, oldest first.
abbrev pub queued : Channel → List Queued
queued ch = slice (at_ring ch.buf empty_queued channel_cap) ch.tail ch.count

pub record IsRing (ch : Channel) : Type 0 where
  pub size : length ch.buf ≡ channel_cap
  pub tail_in : ch.tail < channel_cap
  pub fits : ch.count ≤ channel_cap
  pub head_at : ch.head ≡ (ch.tail + ch.count) % channel_cap

pub empty_channel-IsRing : IsRing empty_channel
empty_channel-IsRing = omega arith

pub enqueue-IsRing :
    (ch : Channel) (msg : Message) (now : ℕ)
    → IsRing ch
    → ch.count < channel_cap
    → IsRing (enqueue ch msg now)
unfolding enqueue
enqueue-IsRing ch msg now r h =
    omega (arith, length-set ch.buf ch.head (record { msg = msg; sent_ns = now }))

pub pop_front-IsRing : (ch : Channel) → IsRing ch → ch.count ≢ 0 → IsRing (pop_front ch)
unfolding pop_front
pop_front-IsRing ch r h = omega arith

-- Sending adds the message at the end.
pub queued-enqueue :
    (ch : Channel) (msg : Message) (now : ℕ)
    → IsRing ch
    → ch.count < channel_cap
    → queued (enqueue ch msg now) ≡ queued ch ++ (record { msg = msg; sent_ns = now } ∷ [])
unfolding enqueue
queued-enqueue ch msg now r h =
    let v : Queued = record { msg = msg; sent_ns = now } in
    ap₂ (λ hd n. slice (at_ring (set ch.buf hd v) empty_queued channel_cap) ch.tail n) r.head_at
      (let e : ch.count + 1 ≡ suc ch.count = omega arith in e)
    ∙ slice-set ch.buf empty_queued v channel_cap ch.tail ch.count r.size h

-- Receiving takes the message at the front.
pub queued-pop_front :
    (ch : Channel) → IsRing ch → ch.count ≢ 0 → queued ch ≡ front ch ∷ queued (pop_front ch)
unfolding pop_front front
queued-pop_front ch r h =
    let entry = at_ring ch.buf empty_queued channel_cap in
    ap (slice entry ch.tail) (let e : ch.count ≡ suc (ch.count - 1) = omega arith in e)
    ∙ ap₂ ◌∷◌
        (ap (λ i. get_or ch.buf i empty_queued)
          (let e : ch.tail % channel_cap ≡ ch.tail = (let t = r.tail_in in omega arith) in e))
        (sym (slice-wrap ch.buf empty_queued channel_cap (ch.tail + 1) (ch.count - 1)))
