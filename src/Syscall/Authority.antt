-- ===== src/Syscall/Authority.antt =====
-- What a call may do with the handles of its caller.
use freshos.Base.{
  ℕ, ◌^◌, ◌≡◌, ◌⊎◌, refl, inl, inr, subst, sym, true, false, Bool, Option, none, some, List, ltb,
  Bool-cases, Option-cases,
}
use freshos.Abi.{Error, rights_contains, rights_send, rights_recv, no_such_handle, not_permitted}
use freshos.AddrSpace.{
  AddressSpace, read_user, check_writable, message_size, message_align, message_from,
}
use freshos.Handles.{Slot, get_slot, lookup}
use freshos.Handles
use freshos.Kernel.{Kernel, task_at}
use freshos.Ipc.{try_dequeue}
use freshos.Ipc
use freshos.Syscall.{
  Reply, fail, Checked, ok, err, ◌>>=◌, require, ok_or, unwrap_or_fail, current_space,
  current_handles, from_lookup, channel, sent, send_run, send, received, recv_run, recv,
}

-- A chain of checks that succeeded did so in its first part, and in the rest on what that gave.
pub >>=-eq-ok {ℓ κ} :
    {S : Type ℓ} {T : Type κ} (first : Checked S) (next : S → Checked T) {t : T}
    → (first >>= next) ≡ ok t
    → (s : S) × (first ≡ ok s) × (next s ≡ ok t)
>>=-eq-ok (err early) next h = cc
>>=-eq-ok (ok value) next h = (value, refl, h)

pub ok_or-eq-ok {ℓ} :
    {A : Type ℓ} (o : Option A) (e : Error) {a : A} → ok_or o e ≡ ok a → o ≡ some a
ok_or-eq-ok none e h = cc
ok_or-eq-ok (some a) e h = cc

pub require-eq-ok : (b : Bool) (e : Error) {u : Unit {0}} → require b e ≡ ok u → b ≡ true
require-eq-ok true e h = refl
require-eq-ok false e h = cc

-- A call either fails in a check, with the kernel as it was, or is what its checks led to.
pub unwrap-cases :
    (k : Kernel) (c : Checked Reply)
    → ((e : Error) × (unwrap_or_fail k c ≡ fail k e))
      ⊎ ((r : Reply) × (c ≡ ok r) × (unwrap_or_fail k c ≡ r))
unwrap-cases k (ok r) = inr (r, refl, refl)
unwrap-cases k (err e) = inl (e, refl)

-- The current task has a space, and its handle names the channel with a right in it.
pub record Holds (k : Kernel) (handle need id : ℕ) : Type 0 where
  pub in_space : (s : AddressSpace) × (current_space k ≡ some s)
  pub slot : Slot
  pub named : get_slot (task_at k k.current).handles handle ≡ some slot
  pub leads_to : slot.channel ≡ id
  pub carries : rights_contains slot.rights need ≡ true

lookup-eq-ok :
    (t : Handles.HandleTable) (handle need id : ℕ)
    → lookup t handle need ≡ Handles.ok id
    → (slot : Slot) × (get_slot t handle ≡ some slot)
      × (slot.channel ≡ id)
      × (rights_contains slot.rights need ≡ true)
unfolding lookup
lookup-eq-ok t handle need id h = elim (Option-cases (get_slot t handle)) [
  | inl e ↦ (let h' : Handles.err no_such_handle ≡ Handles.ok id = rw (e, lookup) at h in cc)
  | inr (slot, e) ↦ (elim (Bool-cases (rights_contains slot.rights need)) [
    | inl c ↦
        (let h' : Handles.ok slot.channel ≡ Handles.ok id = rw (e, lookup, c) at h in
          (slot, e, cc, c))
    | inr c ↦ (let h' : Handles.err Error.no_right ≡ Handles.ok id = rw (e, lookup, c) at h in cc)
  ])
]

from_lookup-eq-ok : (r : Handles.Result) {id : ℕ} → from_lookup r ≡ ok id → r ≡ Handles.ok id
from_lookup-eq-ok (Handles.ok id) h = cc
from_lookup-eq-ok (Handles.err e) h = cc

current_handles-eq-ok :
    (k : Kernel) {t : Handles.HandleTable}
    → current_handles k ≡ ok t
    → ((s : AddressSpace) × (current_space k ≡ some s)) × ((task_at k k.current).handles ≡ t)
current_handles-eq-ok k {t} h = elim (Option-cases (current_space k)) [
  | inl e ↦ (let h' : err not_permitted ≡ ok t = rw e at h in cc)
  | inr (s, e) ↦ (let h' : ok (task_at k k.current).handles ≡ ok t = rw e at h in ((s, e), cc))
]

pub channel-Holds :
    (k : Kernel) (handle need id : ℕ) → channel k handle need ≡ ok id → Holds k handle need id
unfolding channel
channel-Holds k handle need id h =
    let (t, e₁, h₁) = >>=-eq-ok (current_handles k) _ h in
    let (u, e₂, h₂) = >>=-eq-ok (require (ltb handle (2 ^ 32)) no_such_handle) _ h₁ in
    let (sp, et) = current_handles-eq-ok k e₁ in
    let (slot, g, c, r) = lookup-eq-ok t handle need id (from_lookup-eq-ok _ h₂) in
    record { in_space = sp; slot = slot; named = rw (et, g); leads_to = c; carries = r }

-- The reply `r` is the kernel's send, by a task with a space whose handle carries SEND, of the message
-- in its memory to the handle's channel.
pub record Sends (k : Kernel) (handle ptr now later : ℕ) (r : Reply) : Type 0 where
  pub id : ℕ
  pub holds : Holds k handle rights_send id
  pub s : AddressSpace
  pub in_space : current_space k ≡ some s
  pub bytes : List ℕ
  pub read : read_user k.mem s ptr message_size message_align ≡ some bytes
  pub result : r ≡ sent (Ipc.send k id (message_from bytes) now later)

send_run-Sends :
    (k : Kernel) (handle ptr now later : ℕ) (r : Reply)
    → send_run k handle ptr now later ≡ ok r
    → Sends k handle ptr now later r
unfolding send_run
send_run-Sends k handle ptr now later r good =
    let (id, e₁, h₁) = >>=-eq-ok (channel k handle rights_send) _ good in
    let (s, e₂, h₂) = >>=-eq-ok (ok_or (current_space k) not_permitted) _ h₁ in
    let (bytes, e₃, h₃) =
      >>=-eq-ok (ok_or (read_user k.mem s ptr message_size message_align) Error.bad_pointer) _ h₂ in
    record {
      id = id;
      holds = channel-Holds k handle rights_send id e₁;
      s = s;
      in_space = ok_or-eq-ok _ not_permitted e₂;
      bytes = bytes;
      read = ok_or-eq-ok _ Error.bad_pointer e₃;
      result = cc;
    }

-- A send that fails a check returns an error and changes nothing. Any other is the kernel's send, by
-- a task with a space whose handle carries SEND, of the message in its memory to the handle's channel.
pub send_needs_right :
    (k : Kernel) (handle ptr now later : ℕ)
    → ((e : Error) × (send k handle ptr now later ≡ fail k e))
      ⊎ Sends k handle ptr now later (send k handle ptr now later)
unfolding send
send_needs_right k handle ptr now later = elim (unwrap-cases k (send_run k handle ptr now later)) [
  | inl bad ↦ inl bad
  | inr (r, good, q) ↦
      inr (
        subst (Sends k handle ptr now later) (sym q) (send_run-Sends k handle ptr now later r good))
]

-- The reply `r` comes from the queue of a channel for which the caller's handle carries RECV, for a
-- task with a space in which the buffer is writable.
pub record Receives (k : Kernel) (handle buf deadline : ℕ) (blocking : Bool) (now : ℕ)
    (clock : ℕ → ℕ) (time : ℕ) (r : Reply) : Type 0 where
  pub id : ℕ
  pub holds : Holds k handle rights_recv id
  pub s : AddressSpace
  pub in_space : current_space k ≡ some s
  pub writable : check_writable k.mem s buf message_size message_align ≡ true
  pub result : r ≡ received s id buf deadline blocking time (try_dequeue k id now clock)

recv_run-Receives :
    (k : Kernel) (handle buf deadline : ℕ) (blocking : Bool) (now : ℕ) (clock : ℕ → ℕ) (time : ℕ)
    (r : Reply)
    → recv_run k handle buf deadline blocking now clock time ≡ ok r
    → Receives k handle buf deadline blocking now clock time r
unfolding recv_run
recv_run-Receives k handle buf deadline blocking now clock time r good =
    let (id, e₁, h₁) = >>=-eq-ok (channel k handle rights_recv) _ good in
    let (s, e₂, h₂) = >>=-eq-ok (ok_or (current_space k) not_permitted) _ h₁ in
    let (u, e₃, h₃) =
      >>=-eq-ok (require (check_writable k.mem s buf message_size message_align) Error.bad_pointer)
        _ h₂ in
    record {
      id = id;
      holds = channel-Holds k handle rights_recv id e₁;
      s = s;
      in_space = ok_or-eq-ok _ not_permitted e₂;
      writable = require-eq-ok _ Error.bad_pointer e₃;
      result = cc;
    }

-- A receive that fails a check returns an error and changes nothing. Any other takes from the channel
-- of a handle that carries RECV, for a task whose buffer is writable.
pub recv_needs_right :
    (k : Kernel) (handle buf deadline : ℕ) (blocking : Bool) (now : ℕ) (clock : ℕ → ℕ) (time : ℕ)
    → ((e : Error) × (recv k handle buf deadline blocking now clock time ≡ fail k e))
      ⊎ Receives k handle buf deadline blocking now clock time
          (recv k handle buf deadline blocking now clock time)
unfolding recv
recv_needs_right k handle buf deadline blocking now clock time =
    elim (unwrap-cases k (recv_run k handle buf deadline blocking now clock time)) [
      | inl bad ↦ inl bad
      | inr (r, good, q) ↦ inr (
          subst (Receives k handle buf deadline blocking now clock time) (sym q)
            (recv_run-Receives k handle buf deadline blocking now clock time r good))
    ]
