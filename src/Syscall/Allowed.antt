-- ===== src/Syscall/Allowed.antt =====
-- What a grant must pass before `resolve` gives the child a slot for it.
use freshos.Base.{
  ℕ, zero, suc, ◌/◌, ◌<◌, ◌≡◌, ◌≢◌, ◌⊎◌, refl, inl, inr, true, false, not, ◌&&◌, ◌||◌, Bool, some,
  List, ◌==◌, arith,
}
use freshos.Base.Bits.{bit_and_three, bit_and_one, bit_and_step, bit_and-zero}
use freshos.Abi.{no_right, not_permitted, rights_contains, rights_send, rights_recv}
use freshos.Abi.Laws.{within_send_recv}
use freshos.Handles.{Slot, get_slot}
use freshos.Kernel.{Kernel, task_at}
use freshos.Ipc.{receiver, init_inbox}
use freshos.Syscall.{ok, require, both_rights}
use freshos.Syscall.Authority.{>>=-eq-ok, require-eq-ok}
use freshos.Syscall.Grants.{Grant, gives_recv, duplicates, refusal, is_other, check_slot}

-- Rights within SEND and RECV of which `a` has each one, in the form of the source's two tests.
covers :
    (a r : ℕ) (duplicate : Bool)
    → r < 4
    → not (rights_contains r rights_recv && (duplicate || not (rights_contains a rights_recv)))
      ≡ true
    → not (rights_contains r rights_send && not (rights_contains a rights_send)) ≡ true
    → rights_contains a r ≡ true
unfolding rights_contains
covers a zero d lt hr hs = ground (arith, bit_and-zero a)
covers a (suc zero) d lt hr hs = ground arith
covers a (suc (suc zero)) d lt hr hs = ground arith
covers a (suc (suc (suc zero))) d lt hr hs =
    ground (arith, bit_and_three a, bit_and_one a, bit_and_step a 2, bit_and_one (a / 2))
covers a (suc (suc (suc (suc r)))) d lt hr hs = absurd (omega arith)

-- The slot is a part of one of init's: the same channel, rights that init has there, and no right to
-- receive from init's inbox.
pub record Derived (k : Kernel) (init : ℕ) (s : Slot) : Type 0 where
  pub handle : ℕ
  pub source : Slot
  pub named : get_slot (task_at k init).handles handle ≡ some source
  pub same_channel : s.channel ≡ source.channel
  pub rights_held : rights_contains source.rights s.rights ≡ true
  pub not_inbox : (rights_contains s.rights rights_recv ≡ false) ⊎ (s.channel ≢ init_inbox)

-- What a grant passed, and the slot that it gives.
pub record Allows (k : Kernel) (init : ℕ) (earlier : List Grant) (g : Grant) (slot : Slot)
    : Type 0 where
  pub derived : Derived k init (record { channel = slot.channel; rights = g.rights })
  pub fresh :
      (gives_recv g ≡ false) ⊎ (duplicates (task_at k init).handles slot.channel earlier ≡ false)

inbox_or :
    (recv : Bool) (c : ℕ) → not (recv && c == init_inbox) ≡ true → (recv ≡ false) ⊎ (c ≢ init_inbox)
inbox_or false c h = inl refl
inbox_or true c h = inr (λ e. ground arith)

fresh_or :
    (recv duplicate held : Bool)
    → not (recv && (duplicate || not held)) ≡ true
    → (recv ≡ false) ⊎ (duplicate ≡ false)
fresh_or false d held h = inl refl
fresh_or true true held h = cc
fresh_or true false held h = inr refl

pub check_slot-Allows :
    (k : Kernel) (init : ℕ) (earlier : List Grant) (g : Grant) (slot : Slot) {u : Unit {0}}
    → rights_contains both_rights g.rights ≡ true
    → get_slot (task_at k init).handles g.handle ≡ some slot
    → check_slot k init earlier g slot ≡ ok u
    → Allows k init earlier g slot
unfolding check_slot
check_slot-Allows k init earlier g slot within named h =
    let d = duplicates (task_at k init).handles slot.channel earlier in
    let (_, e₁, h₁) =
      >>=-eq-ok (require (not (gives_recv g && slot.channel == init_inbox)) not_permitted) _ h in
    let (_, e₂, h₂) =
      >>=-eq-ok
        (require (not (gives_recv g && (d || not (rights_contains slot.rights rights_recv))))
          (refusal d (is_other (receiver k slot.channel) init)))
        _ h₁ in
    let q₂ = require-eq-ok _ (refusal d (is_other (receiver k slot.channel) init)) e₂ in
    let q₃ = require-eq-ok _ no_right h₂ in
    record {
      derived = record {
        handle = g.handle;
        source = slot;
        named = named;
        same_channel = refl;
        rights_held = covers slot.rights g.rights d (within_send_recv g.rights within) q₂ q₃;
        not_inbox = inbox_or (gives_recv g) slot.channel (require-eq-ok _ not_permitted e₁);
      };
      fresh = fresh_or (gives_recv g) d (rights_contains slot.rights rights_recv) q₂;
    }
