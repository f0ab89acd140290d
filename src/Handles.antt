-- ===== src/Handles.antt =====
-- kernel/src/handles.rs: the per-task handle tables. A handle is a slot index.
pub mod Laws
use freshos.Base.{
  ℕ, Bool, true, false, Option, none, some, List, [], ◌∷◌, if◌then◌else◌, get_elem?, set, replicate,
  position, is_some, not, suc,
}
use freshos.Abi.{Error, no_such_handle, no_right, table_full, max_handles, rights_contains}

pub record Slot : Type 0 where
  pub channel : ℕ
  pub rights : ℕ

-- `slots: [Option<Slot>; MAX_HANDLES]`.
pub record HandleTable : Type 0 where
  pub slots : List (Option Slot)

abbrev pub empty : HandleTable
empty = record { slots = replicate max_handles none }

pub data Result : Type 0 where
  ok : ℕ → Result
  err : Error → Result

-- `.get(handle).copied().flatten()`.
abbrev pub flatten : Option (Option Slot) → Option Slot
flatten none = none
flatten (some o) = o

unfoldable pub get_slot : HandleTable → ℕ → Option Slot
get_slot t handle = flatten (get_elem? t.slots handle)

-- The channel behind `handle`, if it carries `need`.
unfoldable pub lookup : HandleTable → ℕ → ℕ → Result
unfolding get_slot
lookup t handle need = elim (get_slot t handle) [
  | none ↦ err no_such_handle
  | some slot ↦ if rights_contains slot.rights need then ok slot.channel else err no_right
]

unfoldable pub all_some : List (Option Slot) → Bool
all_some [] = true
all_some (none ∷ os) = false
all_some (some s ∷ os) = all_some os

unfoldable pub is_full : HandleTable → Bool
unfolding all_some
is_full t = all_some t.slots

abbrev pub is_free : Option Slot → Bool
is_free none = true
is_free (some s) = false

-- The new handle and table, or `TableFull`.
pub data Inserted : Type 0 where
  at : ℕ → HandleTable → Inserted
  table_was_full : Inserted

unfoldable pub insert : HandleTable → Slot → Inserted
insert t slot = elim (position is_free t.slots) [
  | none ↦ table_was_full
  | some index ↦ at index (record { slots = set t.slots index (some slot) })
]

-- Writing through `get_mut(handle)`: nothing happens where there is no slot.
unfoldable pub update : HandleTable → ℕ → Slot → HandleTable
unfolding get_slot
update t handle slot = elim (get_slot t handle) [
  | none ↦ t
  | some old ↦ record { slots = set t.slots handle (some slot) }
]

-- `slots()`: every occupied slot with its index, from `i`.
unfoldable pub occupied_from : ℕ → List (Option Slot) → List (ℕ × Slot)
occupied_from i [] = []
occupied_from i (none ∷ os) = occupied_from (suc i) os
occupied_from i (some s ∷ os) = (i, s) ∷ occupied_from (suc i) os

unfoldable pub occupied : HandleTable → List (ℕ × Slot)
unfolding occupied_from
occupied t = occupied_from 0 t.slots
