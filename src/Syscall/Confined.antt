-- ===== src/Syscall/Confined.antt =====
-- The handles that a child gets: what `resolve` makes of init's grants.
use freshos.Base.{
  ℕ, zero, suc, ◌≡◌, ◌≢◌, refl, sym, ap, subst, ◌∙◌, inl, inr, true, false, ◌&&◌, ◌||◌, Bool, none,
  some, List, [], ◌∷◌, ◌++◌, ◌==◌, if◌then◌else◌, arith, Bool-cases, replicate, get_elem?,
}
use freshos.Abi.{Error, invalid, no_such_handle, rights_contains, rights_recv, max_handles}
use freshos.Handles.{HandleTable, Slot, get_slot, insert, at, table_was_full, Inserted}
use freshos.Handles
use freshos.Handles.Laws.{Fills, insert-Fills}
use freshos.Kernel.{Kernel, task_at}
use freshos.Syscall.{ok, err, ok_or, require, both_rights}
use freshos.Syscall.Authority.{>>=-eq-ok, ok_or-eq-ok, require-eq-ok}
use freshos.Syscall.Grants.{
  Grant, gives_recv, names_channel, duplicates, check_slot, from_insert, resolve,
}
use freshos.Syscall.Allowed.{Derived, Allows, check_slot-Allows}

abbrev may_recv : Slot → Bool
may_recv s = rights_contains s.rights rights_recv

-- The child's table after the grants in `earlier`: every slot is a part of one of init's, an earlier
-- grant accounts for every receive right, and no two slots receive from one channel.
record Resolved (k : Kernel) (init : ℕ) (earlier : List Grant) (child : HandleTable) : Type 0 where
  derived : (h : ℕ) (s : Slot) → get_slot child h ≡ some s → Derived k init s
  accounted :
      (h : ℕ) (s : Slot)
      → get_slot child h ≡ some s
      → may_recv s ≡ true
      → duplicates (task_at k init).handles s.channel earlier ≡ true
  exclusive :
      (h h' : ℕ) (s s' : Slot)
      → get_slot child h ≡ some s
      → get_slot child h' ≡ some s'
      → may_recv s ≡ true
      → may_recv s' ≡ true
      → s.channel ≡ s'.channel
      → h ≡ h'

or_false : (b : Bool) → (b || false) ≡ b
or_false true = refl
or_false false = refl

or_assoc : (a b c : Bool) → (a || (b || c)) ≡ ((a || b) || c)
or_assoc true b c = refl
or_assoc false b c = refl

duplicates-append :
    (t : HandleTable) (c : ℕ) (gs : List Grant) (g : Grant)
    → duplicates t c (gs ++ (g ∷ []))
      ≡ (duplicates t c gs || (gives_recv g && names_channel (get_slot t g.handle) c))
unfolding duplicates
duplicates-append t c [] g = or_false (gives_recv g && names_channel (get_slot t g.handle) c)
duplicates-append t c (g' ∷ gs) g =
    ap (λ b. gives_recv g' && names_channel (get_slot t g'.handle) c || b)
      (duplicates-append t c gs g)
    ∙ or_assoc (gives_recv g' && names_channel (get_slot t g'.handle) c) _ _

-- A slot of the table after an insertion is the new one or one that was there.
data Origin (child : HandleTable) (new : Slot) (at_ h : ℕ) (s : Slot) : Type 0 where
  added : at_ ≡ h → new ≡ s → Origin child new at_ h s
  kept : get_slot child h ≡ some s → Origin child new at_ h s

origin :
    (child child' : HandleTable) (new : Slot) (n : ℕ)
    → Fills child new n child'
    → (h : ℕ) (s : Slot) → get_slot child' h ≡ some s
    → Origin child new n h s
origin child child' new n f h s e = elim (Bool-cases (n == h)) [
  | inl q ↦
      (let e' : some new ≡ some s =
          sym (f.reads h ∙ ap (λ b. if b then some new else get_slot child h) q) ∙ e in
        added (ground arith) cc)
  | inr q ↦ kept (sym (f.reads h ∙ ap (λ b. if b then some new else get_slot child h) q) ∙ e)
]

module _ (k : Kernel) (init : ℕ) (earlier : List Grant) (g : Grant) (slot : Slot)
    (named : get_slot (task_at k init).handles g.handle ≡ some slot)
    (allows : Allows k init earlier g slot) where
  abbrev new_slot : Slot
  new_slot = record { channel = slot.channel; rights = g.rights }

  now_duplicate :
      gives_recv g ≡ true
      → duplicates (task_at k init).handles slot.channel (earlier ++ (g ∷ [])) ≡ true
  now_duplicate r =
      duplicates-append (task_at k init).handles slot.channel earlier g ∙ rw (r, named) ground arith

  still_duplicate :
      (c : ℕ)
      → duplicates (task_at k init).handles c earlier ≡ true
      → duplicates (task_at k init).handles c (earlier ++ (g ∷ [])) ≡ true
  still_duplicate c h = duplicates-append (task_at k init).handles c earlier g ∙ rw h refl

  module _ (child child' : HandleTable) (n : ℕ) (fills : Fills child new_slot n child') where
    insert_accounted :
        Resolved k init earlier child
        → (h : ℕ) (s : Slot) → Origin child new_slot n h s
        → may_recv s ≡ true
        → duplicates (task_at k init).handles s.channel (earlier ++ (g ∷ [])) ≡ true
    insert_accounted r h s (added p q) m =
        subst
          (λ x.
            may_recv x ≡ true
            → duplicates (task_at k init).handles x.channel (earlier ++ (g ∷ [])) ≡ true)
          q now_duplicate m
    insert_accounted r h s (kept e) m = still_duplicate s.channel (r.accounted h s e m)

    -- A receive right that an earlier grant gave is not of the new slot's channel.
    clash :
        Resolved k init earlier child
        → (h : ℕ) (s : Slot) → get_slot child h ≡ some s
        → may_recv s ≡ true
        → gives_recv g ≡ true
        → s.channel ≡ slot.channel
        → ⊥
    clash r h s e m new c = elim allows.fresh [
      | inl f ↦ cc
      | inr f ↦
          (let d = r.accounted h s e m in
            let d' = subst (λ x. duplicates (task_at k init).handles x earlier ≡ true) c d in cc)
    ]

    insert_exclusive :
        Resolved k init earlier child
        → (h h' : ℕ) (s s' : Slot) → Origin child new_slot n h s
        → Origin child new_slot n h' s'
        → may_recv s ≡ true
        → may_recv s' ≡ true
        → s.channel ≡ s'.channel
        → h ≡ h'
    insert_exclusive r h h' s s' (added p q) (added p' q') m m' c = sym p ∙ p'
    insert_exclusive r h h' s s' (added p q) (kept e') m m' c =
        absurd (clash r h' s' e' m' (ap may_recv q ∙ m) (sym c ∙ sym (ap (λ x. x.channel) q)))
    insert_exclusive r h h' s s' (kept e) (added p' q') m m' c =
        absurd (clash r h s e m (ap may_recv q' ∙ m') (c ∙ sym (ap (λ x. x.channel) q')))
    insert_exclusive r h h' s s' (kept e) (kept e') m m' c = r.exclusive h h' s s' e e' m m' c

    insert-Derived :
        Resolved k init earlier child
        → (h : ℕ) (s : Slot) → Origin child new_slot n h s
        → Derived k init s
    insert-Derived r h s (added p q) = subst (Derived k init) q allows.derived
    insert-Derived r h s (kept e) = r.derived h s e

    insert-Resolved : Resolved k init earlier child → Resolved k init (earlier ++ (g ∷ [])) child'
    insert-Resolved r = record {
      derived = λ h s e. insert-Derived r h s (origin child child' new_slot n fills h s e);
      accounted = λ h s e m. insert_accounted r h s (origin child child' new_slot n fills h s e) m;
      exclusive = λ h h' s s' e e'.
          insert_exclusive r h h' s s' (origin child child' new_slot n fills h s e)
            (origin child child' new_slot n fills h' s' e');
    }

insert-eq-ok :
    (t : HandleTable) (s : Slot) {t' : HandleTable}
    → from_insert (insert t s) ≡ ok t'
    → (n : ℕ) × Fills t s n t'
insert-eq-ok t s {t'} h = by (insert t s) refl
  where
    by : (i : Inserted) → insert t s ≡ i → (n : ℕ) × Fills t s n t'
    by table_was_full e = (let h' : err Error.table_full ≡ ok t' = rw e at h in cc)
    by (at n t₁) e =
        (let h' : ok t₁ ≡ ok t' = rw e at h in
          let q : t₁ ≡ t' = cc in (n, insert-Fills t s n t' (e ∙ ap (at n) q)))

resolve-Resolved :
    (k : Kernel) (init : ℕ) (earlier gs : List Grant) (child : HandleTable) {child' : HandleTable}
    → Resolved k init earlier child
    → resolve k init earlier gs child ≡ ok child'
    → (all : List Grant) × Resolved k init all child'
unfolding resolve
resolve-Resolved k init earlier [] child {child'} r h =
    (let q : child ≡ child' = cc in (earlier, subst (Resolved k init earlier) q r))
resolve-Resolved k init earlier (g ∷ gs) child r h =
    let (_, e₁, h₁) = >>=-eq-ok (require (rights_contains both_rights g.rights) invalid) _ h in
    let (slot, e₂, h₂) =
      >>=-eq-ok (ok_or (get_slot (task_at k init).handles g.handle) no_such_handle) _ h₁ in
    let (_, e₃, h₃) = >>=-eq-ok (check_slot k init earlier g slot) _ h₂ in
    let (t, e₄, h₄) =
      >>=-eq-ok (from_insert (insert child (record { channel = slot.channel; rights = g.rights })))
        _ h₃ in
    let named = ok_or-eq-ok _ no_such_handle e₂ in
    let allows = check_slot-Allows k init earlier g slot (require-eq-ok _ invalid e₁) named e₃ in
    let (n, fills) = insert-eq-ok child _ e₄ in
    resolve-Resolved k init (earlier ++ (g ∷ [])) gs t
      (insert-Resolved k init earlier g slot named allows child t n fills r) h₄

no_slot_upto : (n h : ℕ) → Handles.flatten (get_elem? (replicate n none) h) ≡ none
no_slot_upto zero h = refl
no_slot_upto (suc n) zero = refl
no_slot_upto (suc n) (suc h) = no_slot_upto n h

no_slot : (h : ℕ) → get_slot Handles.empty h ≡ none
unfolding get_slot
no_slot h = no_slot_upto max_handles h

start-Resolved : (k : Kernel) (init : ℕ) → Resolved k init [] Handles.empty
start-Resolved k init = record {
  derived = λ h s e. absurd (let q = no_slot h in cc);
  accounted = λ h s e m. absurd (let q = no_slot h in cc);
  exclusive = λ h h' s s' e e' m m' c. absurd (let q = no_slot h in cc);
}

-- Every slot that a child gets is a part of one of init's: the same channel, with rights that init
-- holds there, and never the right to receive from init's inbox.
pub resolve_confined :
    (k : Kernel) (init : ℕ) (gs : List Grant) (child : HandleTable)
    → resolve k init [] gs Handles.empty ≡ ok child
    → (h : ℕ) (s : Slot) → get_slot child h ≡ some s
    → Derived k init s
resolve_confined k init gs child e =
    (resolve-Resolved k init [] gs Handles.empty (start-Resolved k init) e).1.derived

-- Two handles of a child that may receive name different channels.
pub resolve_exclusive :
    (k : Kernel) (init : ℕ) (gs : List Grant) (child : HandleTable)
    → resolve k init [] gs Handles.empty ≡ ok child
    → (h h' : ℕ) (s s' : Slot) → get_slot child h ≡ some s
    → get_slot child h' ≡ some s'
    → rights_contains s.rights rights_recv ≡ true
    → rights_contains s'.rights rights_recv ≡ true
    → h ≢ h'
    → s.channel ≢ s'.channel
resolve_exclusive k init gs child e h h' s s' q q' m m' ne c = ne (
    (resolve-Resolved k init [] gs Handles.empty (start-Resolved k init) e).1.exclusive h h' s s' q
      q' m m' c)
