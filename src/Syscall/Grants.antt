-- ===== src/Syscall/Grants.antt =====
-- The `spawn` call of kernel/src/syscalls.rs, first part: the request and its grants, which are read
-- from init's memory and resolved against init's handles before anything changes.
use freshos.Base.{
  ℕ, zero, suc, ◌+◌, ◌*◌, ◌^◌, Bool, false, not, ◌&&◌, ◌||◌, Option, none, some, List, [], ◌∷◌,
  ◌++◌, ltb, ◌==◌, if◌then◌else◌, take, drop,
}
use freshos.Base.Bytes.{from_le_bytes}
use freshos.Abi.{
  Error, no_such_handle, no_right, bad_pointer, not_permitted, table_full, receiver_taken, invalid,
  rights_send, rights_recv, rights_contains,
}
use freshos.AddrSpace.{AddressSpace, read_user}
use freshos.Machine.{Memory}
use freshos.Handles.{HandleTable, Slot, get_slot, insert, at, table_was_full}
use freshos.Handles
use freshos.Kernel.{Kernel, task_at}
use freshos.Ipc.{receiver, init_inbox}
use freshos.Syscall.{Checked, ok, err, ok_or, require, ◌>>=◌, ◌>>◌, both_rights}

pub record Grant : Type 0 where
  pub handle : ℕ
  pub rights : ℕ

-- Seven `u64`.
pub record SpawnRequest : Type 0 where
  pub name_ptr : ℕ
  pub name_len : ℕ
  pub binary_ptr : ℕ
  pub binary_len : ℕ
  pub grants_ptr : ℕ
  pub grants_len : ℕ
  pub arg : ℕ

abbrev pub request_size : ℕ
request_size = 56

abbrev pub request_align : ℕ
request_align = 8

abbrev pub grant_size : ℕ
grant_size = 8

abbrev pub grant_align : ℕ
grant_align = 4

-- The `u64` at index `i` of a `#[repr(C)]` struct of them.
abbrev pub word : ℕ → List ℕ → ℕ
word i bs = from_le_bytes (take 8 (drop (8 * i) bs))

unfoldable pub request_from : List ℕ → SpawnRequest
request_from bs = record {
  name_ptr = word 0 bs;
  name_len = word 1 bs;
  binary_ptr = word 2 bs;
  binary_len = word 3 bs;
  grants_ptr = word 4 bs;
  grants_len = word 5 bs;
  arg = word 6 bs;
}

unfoldable pub grant_from : List ℕ → Grant
grant_from bs = record {
  handle = from_le_bytes (take 4 bs);
  rights = from_le_bytes (take 4 (drop 4 bs));
}

-- `u64::checked_add`.
abbrev pub checked_add : ℕ → ℕ → Option ℕ
checked_add a b = if ltb (a + b) (2 ^ 64) then some (a + b) else none

-- `for i in i..i + n`: the grants from index `i` on.
unfoldable pub read_grants : Memory → AddressSpace → ℕ → ℕ → ℕ → Checked (List Grant)
unfolding grant_from
read_grants m s grants_ptr i zero = ok []
read_grants m s grants_ptr i (suc n) = do
  va ← ok_or (checked_add grants_ptr (i * grant_size)) bad_pointer
  bytes ← ok_or (read_user m s va grant_size grant_align) bad_pointer
  rest ← read_grants m s grants_ptr (i + 1) n
  ok (grant_from bytes ∷ rest)

abbrev pub gives_recv : Grant → Bool
gives_recv g = rights_contains g.rights rights_recv

-- Whether the handle is there and names this channel.
abbrev pub names_channel : Option Slot → ℕ → Bool
names_channel none id = false
names_channel (some slot) id = slot.channel == id

-- `grants[..i].iter().any(..)`: an earlier grant moves the receive right of this channel.
unfoldable pub duplicates : HandleTable → ℕ → List Grant → Bool
duplicates handles id [] = false
duplicates handles id (g ∷ gs) =
    (gives_recv g && names_channel (get_slot handles g.handle) id) || duplicates handles id gs

-- `receiver(channel).is_some_and(|r| r != init)`.
abbrev pub is_other : Option ℕ → ℕ → Bool
is_other none init = false
is_other (some r) init = not (r == init)

-- The error of a receive right that cannot move.
abbrev pub refusal : Bool → Bool → Error
refusal duplicate taken = if duplicate || taken then receiver_taken else no_right

-- What one grant asks for, against init's slot for its handle.
unfoldable pub check_slot : Kernel → ℕ → List Grant → Grant → Slot → Checked (Unit {0})
unfolding duplicates
check_slot k init earlier g slot = do
  require (not (gives_recv g && slot.channel == init_inbox)) not_permitted
  let duplicate : Bool = duplicates (task_at k init).handles slot.channel earlier
  require (not (gives_recv g && (duplicate || not (rights_contains slot.rights rights_recv))))
      (refusal duplicate (is_other (receiver k slot.channel) init))
  require
      (not (rights_contains g.rights rights_send && not (rights_contains slot.rights rights_send)))
      no_right

abbrev pub from_insert : Handles.Inserted → Checked HandleTable
from_insert (at h t) = ok t
from_insert table_was_full = err table_full

-- `for (i, grant) in grants.iter().enumerate()`: `earlier` are the grants before, and `child` is the
-- table so far.
unfoldable pub resolve : Kernel → ℕ → List Grant → List Grant → HandleTable → Checked HandleTable
unfolding check_slot
resolve k init earlier [] child = ok child
resolve k init earlier (g ∷ gs) child = do
  require (rights_contains both_rights g.rights) invalid
  slot ← ok_or (get_slot (task_at k init).handles g.handle) no_such_handle
  check_slot k init earlier g slot
  child' ← from_insert (insert child (record { channel = slot.channel; rights = g.rights }))
  resolve k init (earlier ++ (g ∷ [])) gs child'
