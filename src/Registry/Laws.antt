-- ===== src/Registry/Laws.antt =====
-- A service's record from a start to an exit: `on_spawn` and `on_exit` of kernel/src/registry.rs.
use freshos.Base.{
  ℕ, zero, suc, ◌+◌, ◌%◌, ◌^◌, ◌<◌, ◌≡◌, refl, ap, ◌∙◌, Bool, Option, none, some, List, [], ◌∷◌,
  arith, if◌then◌else◌, length, get_elem?, set, map, get_elem?-set, position, position_from,
  Bool-cases, inl, inr, Option-cases,
}
use freshos.Abi.{TaskRef, ExitReason, task_ref_eq}
use freshos.Registry.{
  ServiceRecord, Registry, charge, charge_slot, on_exit, started, or_new, flatten, is_empty,
  new_name, named, service_slot, on_spawn,
}

position_from_bound :
    (p : Option ServiceRecord → Bool) (i k : ℕ) (os : List (Option ServiceRecord))
    → position_from p i os ≡ some k
    → k < i + length os
position_from_bound p i k [] e = cc
position_from_bound p i k (o ∷ os) e = elim (Bool-cases (p o)) [
  | inl f ↦ (let c : i ≡ k = ground (arith, e, f) in omega arith)
  | inr f ↦
      (let c : position_from p (suc i) os ≡ some k = ground (arith, e, f) in
        let b = position_from_bound p (suc i) k os c in omega arith)
]

get_elem?-charge :
    (t : TaskRef) (x : ExitReason) (os : List (Option ServiceRecord)) (i : ℕ) (s : ServiceRecord)
    → get_elem? os i ≡ some (some s)
    → get_elem? (map (charge_slot t x) os) i ≡ some (some (charge t x s))
unfolding charge_slot
get_elem?-charge t x [] i s e = cc
get_elem?-charge t x (o ∷ os) zero s e =
    let c : o ≡ some s = cc in ap (λ z. some (charge_slot t x z)) c
get_elem?-charge t x (o ∷ os) (suc i) s e = get_elem?-charge t x os i s e

-- The exit of `t'` and the record that the start of `t` left.
charge-started :
    (t t' : TaskRef) (x : ExitReason) (s : ServiceRecord)
    → charge t' x (started s t) ≡ (
        if task_ref_eq t t'
        then record (started s t) {
          task = none;
          exits = (s.exits + 1) % 2 ^ 64;
          last_exit = some x;
        }
        else started s t)
unfolding charge started task_ref_eq
charge-started t t' x s = refl

module _ (from_utf8 : List ℕ → Bool) where
  slot_bound :
      (services : List (Option ServiceRecord)) (name : List ℕ) (i : ℕ)
      → service_slot from_utf8 services name ≡ some i
      → i < length services
  unfolding service_slot
  slot_bound services name i e = elim (Option-cases (position (named from_utf8 name) services)) [
    | inr (j, f) ↦
        (let c : some j ≡ some i = rw (service_slot, f) at e in
          let b = position_from_bound _ 0 i services (f ∙ c) in omega arith)
    | inl f ↦
        (let c : position is_empty services ≡ some i = rw (service_slot, f) at e in
          let b = position_from_bound _ 0 i services c in omega arith)
  ]

  -- A service that is started and has a slot, its own or a free one, is recorded there as running: the
  -- record names exactly the new task. A later exit of that very task takes the task off the record and
  -- counts once. The exit of any other task, also of an earlier one in the same table slot, leaves the
  -- record as the start left it.
  pub on_exit-on_spawn :
      (r : Registry) (t t' : TaskRef) (bytes : List ℕ) (x : ExitReason) (i : ℕ)
      → service_slot from_utf8 r.services (new_name bytes) ≡ some i
      → (s : ServiceRecord) × (get_elem? (on_spawn from_utf8 r t bytes).services i ≡ some (some s))
        × (s.task ≡ some t.id)
        × (s.generation ≡ t.generation)
        × (get_elem? (on_exit (on_spawn from_utf8 r t bytes) t' x).services i
            ≡ some (
                some (
                  if task_ref_eq t t'
                  then record s { task = none; exits = (s.exits + 1) % 2 ^ 64; last_exit = some x }
                  else s)))
  unfolding on_spawn on_exit started
  on_exit-on_spawn r t t' bytes x i e =
      let lt = slot_bound r.services (new_name bytes) i e in
      let s = started (or_new (new_name bytes) (flatten (get_elem? r.services i))) t in
      let services : (on_spawn from_utf8 r t bytes).services ≡ set r.services i (some s) =
        rw (on_spawn, e) refl in
      let at : get_elem? (on_spawn from_utf8 r t bytes).services i ≡ some (some s) =
        ap (λ os. get_elem? os i) services
        ∙ (get_elem?-set r.services i i (some s) lt ∙ ground arith) in
      (
        s,
        at,
        refl,
        refl,
        get_elem?-charge t' x _ i s at
            ∙ ap (λ z. some (some z))
                (charge-started t t' x
                  (or_new (new_name bytes) (flatten (get_elem? r.services i)))),
      )
