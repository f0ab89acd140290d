-- ===== src/Init.antt =====
-- userbins/init/src/main.rs: init starts every service of its table and restarts the supervised ones.
-- Its state is one `Runtime` for each service. What the system calls answer is an argument of each
-- step: the reply of `spawn` for what is asked of it, and the clock. Log lines are not modelled.
pub mod Table
pub mod Watch
use freshos.Base.{
  ℕ, zero, suc, ◌+◌, ◌-◌, ◌*◌, ◌%◌, ◌^◌, min, max, Bool, true, false, not, ◌&&◌, Option, none, some,
  List, [], ◌∷◌, ltb, leb, ◌==◌, if◌then◌else◌, get_elem?, get_or, set, take, position, length,
  is_some,
}
use freshos.Abi.{
  Error, no_such_handle, not_found, Message, TaskRef, task_ref_eq, tag_task_exited,
  tag_restart_request, name_of,
}
use freshos.Registry.{bytes_eq}
use Table.{Service, table}

-- The longest wait before a supervised service that could not start is tried again.
abbrev pub retry_cap_ms : ℕ
retry_cap_ms = 5000

pub record Runtime : Type 0 where
  pub task : Option TaskRef
  pub restart_at : Option ℕ
  pub retry_ms : ℕ

abbrev pub idle : Runtime
idle = record { task = none; restart_at = none; retry_ms = 0 }

-- The answer of the spawn call.
pub data Answer : Type 0 where
  started : TaskRef → Answer
  refused : Error → Answer

-- What one launch meets: the answer of `spawn` for name, binary, grants and argument, and the clock.
pub record Calls : Type 0 where
  pub spawn : List ℕ → List ℕ → List (ℕ × ℕ) → ℕ → Answer
  pub time_ns : ℕ

-- The handle that stands for a channel; `none` where it could not be created.
abbrev pub handle_of : List (Option ℕ) → ℕ → Option ℕ
handle_of channels c = get_or channels c none

-- The grants of a service as handles; `none` if a channel is missing.
unfoldable pub resolve_grants : List (Option ℕ) → List (ℕ × ℕ) → Option (List (ℕ × ℕ))
resolve_grants channels [] = some []
resolve_grants channels ((c, rights) ∷ gs) =
    let rest = resolve_grants channels gs in
    elim (handle_of channels c) [
      | none ↦ none
      | some handle ↦ (elim rest [ none ↦ none | some hs ↦ some ((handle, rights) ∷ hs) ])
    ]

unfoldable pub start_service : Service → List (Option ℕ) → Calls → Answer
unfolding resolve_grants
start_service s channels calls = elim (resolve_grants channels s.grants) [
  | none ↦ refused no_such_handle
  | some grants ↦ calls.spawn s.name s.binary grants s.arg
]

-- `Error::NotFound` for an optional service.
abbrev pub is_absence : Service → Error → Bool
is_absence s not_found = s.optional
is_absence s e = false

-- `retry_ms.saturating_mul(2).min(RETRY_CAP_MS).max(first_ms)`, or the first wait.
unfoldable pub next_wait : ℕ → ℕ → ℕ
next_wait retry_ms first_ms =
    if retry_ms == 0
    then first_ms
    else max (min (min (retry_ms * 2) (2 ^ 64 - 1)) retry_cap_ms) first_ms

-- A failed start of a service is tried again later, if it is supervised.
unfoldable pub retry : Runtime → Option ℕ → ℕ → Runtime
unfolding next_wait
retry r none now = record r { task = none }
retry r (some first_ms) now =
    let wait_ms : ℕ = next_wait r.retry_ms first_ms in
    record {
      task = none;
      retry_ms = wait_ms;
      restart_at = some ((now + wait_ms * 1_000_000) % 2 ^ 64);
    }

unfoldable pub launched : Service → Runtime → ℕ → Answer → Runtime
unfolding retry
launched s r now (started t) = record r { task = some t; retry_ms = 0 }
launched s r now (refused e) =
    if is_absence s e then record r { task = none } else retry r s.restart_after_ms now

unfoldable pub launch : Service → List (Option ℕ) → Runtime → Calls → Runtime
unfolding start_service launched
launch s channels r calls = launched s r calls.time_ns (start_service s channels calls)

-- `for (index, runtime) in state.iter_mut().enumerate()`: the calls of each launch are given.
unfoldable pub launch_all : List Service → List (Option ℕ) → (ℕ → Calls) → ℕ → List Runtime
unfolding launch
launch_all [] channels calls i = []
launch_all (s ∷ ss) channels calls i =
    launch s channels idle (calls i) ∷ launch_all ss channels calls (suc i)

-- `s.task == Some(task)`.
abbrev pub runs_task : TaskRef → Runtime → Bool
runs_task t r = elim r.task [ none ↦ false | some t' ↦ task_ref_eq t' t ]

abbrev pub bears_name : List ℕ → Service → Bool
bears_name name s = bytes_eq s.name name

-- The task that an exit notice names.
unfoldable pub exited_task : Message → TaskRef
exited_task m = record {
  id = get_or m.payload 0 0 % 2 ^ 16;
  generation = get_or m.payload 2 0 % 2 ^ 32;
}

-- What an exit at `now` leaves: the restart of a supervised service is scheduled.
unfoldable pub schedule : Runtime → Option ℕ → ℕ → Runtime
schedule r none now = record r { task = none }
schedule r (some ms) now = record r {
  task = none;
  restart_at = some ((now + ms * 1_000_000) % 2 ^ 64);
}

unfoldable pub exit_runtime : Service → Runtime → ℕ → Runtime
unfolding schedule
exit_runtime s r now = schedule r s.restart_after_ms now

abbrev pub no_service : Service
no_service = record {
  name = [];
  binary = [];
  grants = [];
  arg = 0;
  restart_after_ms = none;
  optional = false;
}

-- `TABLE[index]`; the indices below are in range.
abbrev pub service_at : ℕ → Service
service_at index = get_or table index no_service

-- Change the runtime of one service.
abbrev pub change : List Runtime → ℕ → (Service → Runtime → Runtime) → List Runtime
change state index f = set state index (f (service_at index) (get_or state index idle))

-- Only the kernel, sender 0, reports exits.
unfoldable pub on_exit : Message → List Runtime → Calls → List Runtime
unfolding exited_task exit_runtime
on_exit m state calls = elim (position (runs_task (exited_task m)) state) [
  | none ↦ state
  | some index ↦ change state index λ s r. exit_runtime s r calls.time_ns
]

-- A start that was asked for makes a scheduled one moot.
unfoldable pub start_now : List (Option ℕ) → Calls → Service → Runtime → Runtime
unfolding launch
start_now channels calls s r = launch s channels (record r { restart_at = none }) calls

-- The name in the message; `core::str::from_utf8` is an argument.
unfoldable pub requested_name : (List ℕ → Bool) → Message → List ℕ
requested_name from_utf8 m =
    let (bytes, len) = name_of m in
    let name : List ℕ = take len bytes in if from_utf8 name then name else []

unfoldable pub on_request :
    (List ℕ → Bool) → Message → List Runtime → List (Option ℕ) → Calls → List Runtime
unfolding requested_name start_now
on_request from_utf8 m state channels calls =
    elim (position (bears_name (requested_name from_utf8 m)) table) [
      | none ↦ state
      | some index ↦
          if is_some (get_or state index idle).task
          then state
          else change state index (start_now channels calls)
    ]

unfoldable pub handle_message :
    (List ℕ → Bool) → Message → List Runtime → List (Option ℕ) → Calls → List Runtime
unfolding on_exit on_request
handle_message from_utf8 m state channels calls =
    if m.tag == tag_task_exited && m.sender == 0
    then on_exit m state calls
    else if m.tag == tag_restart_request
    then on_request from_utf8 m state channels calls
    else state

-- `filter_map(|s| s.restart_at).min()`.
unfoldable pub earliest : List Runtime → Option ℕ
earliest [] = none
earliest (r ∷ rs) =
    let rest = earliest rs in
    elim r.restart_at [
      | none ↦ rest
      | some a ↦ (elim rest [ none ↦ some a | some b ↦ some (min a b) ])
    ]

-- 0: no deadline.
unfoldable pub deadline : List Runtime → ℕ
unfolding earliest
deadline state = elim (earliest state) [ none ↦ 0 | some a ↦ a ]

unfoldable pub is_due : Runtime → ℕ → Bool
is_due r now = elim r.restart_at [ none ↦ false | some a ↦ leb a now ]

-- `for index in 0..TABLE.len()`: start what is due at `now`.
unfoldable pub restart_due :
    List Service → List Runtime → List (Option ℕ) → ℕ → (ℕ → Calls) → ℕ → List Runtime
unfolding is_due start_now
restart_due [] rs channels now calls i = rs
restart_due (s ∷ ss) [] channels now calls i = []
restart_due (s ∷ ss) (r ∷ rs) channels now calls i =
    (if is_due r now then start_now channels (calls i) s r else r)
    ∷ restart_due ss rs channels now calls (suc i)

-- One round of the loop of `main`: what `recv_until` gave (nothing on a timeout or an error), the
-- calls of the handler, the clock and the calls of the restarts.
pub record Round : Type 0 where
  pub received : Option Message
  pub handler : Calls
  pub now : ℕ
  pub restarts : ℕ → Calls

unfoldable pub round : (List ℕ → Bool) → List (Option ℕ) → List Runtime → Round → List Runtime
unfolding handle_message restart_due
round from_utf8 channels state turn =
    let handled : List Runtime = elim turn.received [
      | none ↦ state
      | some m ↦ handle_message from_utf8 m state channels turn.handler
    ] in
    restart_due table handled channels turn.now turn.restarts 0

-- Init after its start and the given rounds, the first one first.
unfoldable pub run : (List ℕ → Bool) → List (Option ℕ) → List Runtime → List Round → List Runtime
unfolding round
run from_utf8 channels state [] = state
run from_utf8 channels state (turn ∷ turns) =
    run from_utf8 channels (round from_utf8 channels state turn) turns

unfoldable pub boot : List (Option ℕ) → (ℕ → Calls) → List Runtime
unfolding launch_all
boot channels calls = launch_all table channels calls 0
