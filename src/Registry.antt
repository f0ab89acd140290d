-- ===== src/Registry.antt =====
-- kernel/src/registry.rs: the kernel's record of tasks and services by name. A name is the used part
-- of its buffer. `core::str::from_utf8` is a parameter: whether bytes are valid UTF-8.
pub mod Laws
use freshos.Base.{
  ℕ, suc, ◌+◌, ◌%◌, ◌^◌, min, Bool, true, false, ◌&&◌, Option, none, some, List, [], ◌∷◌, ltb, ◌==◌,
  is_some_of, if◌then◌else◌, length, get_elem?, get_or, set, take, replicate, position, map,
}
use freshos.Abi.{ExitReason, TaskRef, name_len}
use freshos.Metrics.{max_tasks}

abbrev pub max_services : ℕ
max_services = 32

abbrev pub Name : Type 0
Name = List ℕ

-- `Name::new`: at most 16 bytes.
unfoldable pub new_name : List ℕ → Name
new_name name = take (min (length name) name_len) name

unfoldable pub bytes_eq : List ℕ → List ℕ → Bool
bytes_eq [] [] = true
bytes_eq [] (b ∷ bs) = false
bytes_eq (a ∷ as') [] = false
bytes_eq (a ∷ as') (b ∷ bs) = a == b && bytes_eq as' bs

pub record ServiceRecord : Type 0 where
  pub name : Name
  pub task : Option ℕ
  pub generation : ℕ
  pub starts : ℕ
  pub exits : ℕ
  pub last_exit : Option ExitReason

pub record Registry : Type 0 where
  pub task_names : List Name
  pub services : List (Option ServiceRecord)

abbrev pub start : Registry
start = record { task_names = replicate max_tasks []; services = replicate max_services none }

-- A task's exit is charged to the record of that exact task.
unfoldable pub charge : TaskRef → ExitReason → ServiceRecord → ServiceRecord
charge t reason s =
    if is_some_of s.task t.id && s.generation == t.generation
    then record s { task = none; exits = (s.exits + 1) % 2 ^ 64; last_exit = some reason }
    else s

unfoldable pub charge_slot : TaskRef → ExitReason → Option ServiceRecord → Option ServiceRecord
unfolding charge
charge_slot t reason none = none
charge_slot t reason (some s) = some (charge t reason s)

unfoldable pub on_exit : Registry → TaskRef → ExitReason → Registry
unfolding charge_slot
on_exit r t reason = record {
  services = map (charge_slot t reason) r.services;
  task_names = if ltb t.id max_tasks then set r.task_names t.id [] else r.task_names;
}

-- The name a task was started as; empty if it was never named.
unfoldable pub name_at : Registry → ℕ → Name
name_at r task = get_or r.task_names task []

abbrev pub is_empty : Option ServiceRecord → Bool
is_empty none = true
is_empty (some s) = false

-- A record that is new in this slot, or the one that stands there.
abbrev pub or_new : Name → Option ServiceRecord → ServiceRecord
or_new name none = record {
  name = name;
  task = none;
  generation = 0;
  starts = 0;
  exits = 0;
  last_exit = none;
}
or_new name (some s) = s

unfoldable pub started : ServiceRecord → TaskRef → ServiceRecord
started s t = record s {
  task = some t.id;
  generation = t.generation;
  starts = (s.starts + 1) % 2 ^ 64;
}

abbrev pub flatten : Option (Option ServiceRecord) → Option ServiceRecord
flatten none = none
flatten (some o) = o

module _ (from_utf8 : List ℕ → Bool) where
  -- `as_str`: the name, or "?" if it is not UTF-8.
  unfoldable pub as_str : Name → List ℕ
  as_str n = if from_utf8 n then n else b'?' ∷ []

  unfoldable pub named : Name → Option ServiceRecord → Bool
  unfolding as_str bytes_eq
  named name none = false
  named name (some s) = bytes_eq (as_str s.name) (as_str name)

  -- The slot of a service: the one that bears its name, or the first free one.
  unfoldable pub service_slot : List (Option ServiceRecord) → Name → Option ℕ
  unfolding named
  service_slot services name = elim (position (named name) services) [
    | some index ↦ some index
    | none ↦ position is_empty services
  ]

  unfoldable pub on_spawn : Registry → TaskRef → List ℕ → Registry
  unfolding service_slot new_name started
  on_spawn r t bytes =
      let name : List ℕ = new_name bytes in
      let names = if ltb t.id max_tasks then set r.task_names t.id name else r.task_names in
      elim (service_slot r.services name) [
        | none ↦ record { task_names = names; services = r.services }
        | some index ↦ record {
          task_names = names;
          services =
              set r.services index
                (some (started (or_new name (flatten (get_elem? r.services index))) t));
        }
      ]
