-- ===== src/Handles/Laws.antt =====
-- What a task can do with its handle table.
use freshos.Base.{
  ℕ, suc, ◌+◌, ◌<◌, ◌≡◌, ◌↔◌, subst, refl, true, Option, none, some, List, [], ◌∷◌, arith, ◌==◌,
  if◌then◌else◌, length, get_elem?, set, position, position_from, get_elem?-set, Option-cases, inl,
  inr,
}
use freshos.Abi.{no_right, rights_contains}
use freshos.Handles.{
  Slot, HandleTable, ok, err, at, table_was_full, is_free, get_slot, lookup, all_some, is_full,
  insert,
}

-- The first free index of a table, if there is one.
position_from_free :
    (i k : ℕ) (os : List (Option Slot))
    → position_from is_free i os ≡ some k
    → (j : ℕ) × (k ≡ i + j) × (j < length os) × (get_elem? os j ≡ some none)
position_from_free i k [] h = cc
position_from_free i k (none ∷ os) h = (0, ground arith, omega arith, refl)
position_from_free i k (some s ∷ os) h =
    let (j, e, lt, g) = position_from_free (suc i) k os h in (suc j, omega arith, omega arith, g)

position_from_full :
    (i : ℕ) (os : List (Option Slot)) → position_from is_free i os ≡ none → all_some os ≡ true
unfolding all_some
position_from_full i [] h = refl
position_from_full i (none ∷ os) h = cc
position_from_full i (some s ∷ os) h = position_from_full (suc i) os h

full_position_from :
    (i : ℕ) (os : List (Option Slot)) → all_some os ≡ true → position_from is_free i os ≡ none
unfolding all_some
full_position_from i [] h = refl
full_position_from i (none ∷ os) h = cc
full_position_from i (some s ∷ os) h = full_position_from (suc i) os h

-- `t'` is `t` with `slot` in the free place `h`.
pub record Fills (t : HandleTable) (slot : Slot) (h : ℕ) (t' : HandleTable) : Type 0 where
  pub was_free : get_slot t h ≡ none
  pub in_bounds : h < length t.slots
  pub reads : (g : ℕ) → get_slot t' g ≡ (if h == g then some slot else get_slot t g)

fill :
    (t : HandleTable) (slot : Slot) (k : ℕ)
    → k < length t.slots
    → get_elem? t.slots k ≡ some none
    → Fills t slot k (record { slots = set t.slots k (some slot) })
unfolding get_slot
fill t slot k lt g = record {
  was_free = rw g;
  in_bounds = lt;
  reads = λ j. ground (arith, get_elem?-set t.slots k j (some slot) lt);
}

-- A new handle names a slot that was free and now holds what was inserted; every other slot is as
-- before.
pub insert-Fills :
    (t : HandleTable) (slot : Slot) (h : ℕ) (t' : HandleTable)
    → insert t slot ≡ at h t'
    → Fills t slot h t'
unfolding insert
insert-Fills t slot h t' e = elim (Option-cases (position is_free t.slots)) [
  | inl full ↦ (let e' : table_was_full ≡ at h t' = rw (full, insert) at e in cc)
  | inr (k, found) ↦
      (let (j, ej, lt, g) = position_from_free 0 k t.slots found in
        let ek : k ≡ j = omega arith in
        let e' : at k (record { slots = set t.slots k (some slot) }) ≡ at h t' =
          rw (found, insert) at e in
        let e₀ : k ≡ h = cc in
        let e₁ : record { slots = set t.slots k (some slot) } ≡ t' = cc in
        subst (λ x. Fills t slot x t') e₀
          (subst (Fills t slot k) e₁ (fill t slot k (rw ek lt) (rw ek g))))
]

-- `lookup` through the handle that `insert` returned succeeds exactly for the rights that were put
-- there, and every other handle looks up as before.
pub lookup-insert :
    (t : HandleTable) (slot : Slot) (h : ℕ) (t' : HandleTable)
    → insert t slot ≡ at h t'
    → (g need : ℕ)
    → lookup t' g need ≡ (
        if h == g
        then (if rights_contains slot.rights need then ok slot.channel else err no_right)
        else lookup t g need)
unfolding lookup
lookup-insert t slot h t' e g need = ground (arith, (insert-Fills t slot h t' e).reads g)

-- `insert` refuses exactly when the table is full.
pub insert-is_full :
    (t : HandleTable) (slot : Slot) → (insert t slot ≡ table_was_full) ↔ (is_full t ≡ true)
unfolding insert is_full
insert-is_full t slot = (refused, rejects)
  where
    refused : insert t slot ≡ table_was_full → all_some t.slots ≡ true
    refused e = elim (Option-cases (position is_free t.slots)) [
      | inl full ↦ position_from_full 0 t.slots full
      | inr (k, found) ↦
          (let e' : at k (record { slots = set t.slots k (some slot) }) ≡ table_was_full =
              rw (found, insert) at e in
            cc)
    ]

    rejects : all_some t.slots ≡ true → insert t slot ≡ table_was_full
    rejects e = rw (full_position_from 0 t.slots e, insert)
