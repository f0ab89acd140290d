-- ===== src/Init/Watch.antt =====
-- Init never loses a supervised service, whatever the calls answer.
use freshos.Base.{
  ℕ, zero, suc, ◌≤◌, ◌≡◌, ◌≢◌, ◌⊎◌, refl, inl, inr, arith, min, max, Bool, true, false, not, ◌&&◌,
  ◌||◌, Option, none, some, List, [], ◌∷◌, ◌==◌, get_or, set, position, is_some, Bool-cases,
  Option-cases, ap, sym, subst,
}
use freshos.Abi.{Error, Message, tag_task_exited, tag_restart_request}
use freshos.Init.Table.{Service, table}
use freshos.Init.{
  Runtime, idle, Answer, started, refused, Calls, Round, retry_cap_ms, is_absence, next_wait, retry,
  launched, launch, launch_all, start_service, runs_task, bears_name, exited_task, schedule,
  exit_runtime, no_service, on_exit, start_now, requested_name, on_request, handle_message,
  earliest, deadline, is_due, restart_due, round, run, boot,
}

abbrev or_zero : Option ℕ → ℕ
or_zero none = 0
or_zero (some ms) = ms

-- The delay of a service, 0 for one that is not supervised.
abbrev pub first_ms : Service → ℕ
first_ms s = or_zero s.restart_after_ms

-- A service that must be there: supervised, and not optional.
abbrev pub is_required : Service → Bool
is_required s = is_some s.restart_after_ms && not s.optional

-- A running service has no restart scheduled; a required one that does not run has; and the wait
-- between two tries is bounded.
pub record IsWatched (s : Service) (r : Runtime) : Type 0 where
  pub exclusive : (r.task ≡ none) ⊎ (r.restart_at ≡ none)
  pub kept : (is_required s ≡ false) ⊎ ((is_some r.task || is_some r.restart_at) ≡ true)
  pub bounded : r.retry_ms ≤ max retry_cap_ms (first_ms s)

-- The services and their runtimes, one by one.
abbrev pub AreWatched : List Service → List Runtime → Type 0
AreWatched [] [] = Unit {0}
AreWatched [] (r ∷ rs) = ⊥
AreWatched (s ∷ ss) [] = ⊥
AreWatched (s ∷ ss) (r ∷ rs) = IsWatched s r × AreWatched ss rs

absence_optional : (s : Service) (e : Error) → is_absence s e ≡ true → s.optional ≡ true
absence_optional s Error.not_found h = h
absence_optional s e h = cc

optional_not_required : (s : Service) → s.optional ≡ true → is_required s ≡ false
optional_not_required s h = elim (Bool-cases (is_some s.restart_after_ms)) [
  | inl e ↦ rw (e, h) refl
  | inr e ↦ rw e refl
]

next_wait-bound : (retry_ms first : ℕ) → next_wait retry_ms first ≤ max retry_cap_ms first
unfolding next_wait
next_wait-bound retry_ms first = ground arith

retry-IsWatched :
    (s : Service) (r : Runtime) (now : ℕ) (o : Option ℕ)
    → s.restart_after_ms ≡ o
    → r.restart_at ≡ none
    → r.retry_ms ≤ max retry_cap_ms (first_ms s)
    → IsWatched s (retry r o now)
unfolding retry
retry-IsWatched s r now none e h b = record {
  exclusive = inl refl;
  kept = inl (ap (λ o. is_some o && not s.optional) e);
  bounded = b;
}
retry-IsWatched s r now (some ms) e h b = record {
  exclusive = inl refl;
  kept = inr refl;
  bounded =
      subst (λ n. next_wait r.retry_ms ms ≤ max retry_cap_ms n) (sym (ap or_zero e))
        (next_wait-bound r.retry_ms ms);
}

launched-IsWatched :
    (s : Service) (r : Runtime) (now : ℕ) (a : Answer)
    → r.restart_at ≡ none
    → r.retry_ms ≤ max retry_cap_ms (first_ms s)
    → IsWatched s (launched s r now a)
unfolding launched
launched-IsWatched s r now (started t) h b = record {
  exclusive = inr h;
  kept = inr refl;
  bounded = omega arith;
}
launched-IsWatched s r now (refused e) h b = elim (Bool-cases (is_absence s e)) [
  | inl c ↦ rw c record {
    exclusive = inl refl;
    kept = inl (optional_not_required s (absence_optional s e c));
    bounded = b;
  }
  | inr c ↦ rw c (retry-IsWatched s r now s.restart_after_ms refl h b)
]

schedule-IsWatched :
    (s : Service) (r : Runtime) (now : ℕ) (o : Option ℕ)
    → s.restart_after_ms ≡ o
    → IsWatched s r
    → IsWatched s (schedule r o now)
unfolding schedule
schedule-IsWatched s r now none e w = record {
  exclusive = inl refl;
  kept = inl (ap (λ o. is_some o && not s.optional) e);
  bounded = w.bounded;
}
schedule-IsWatched s r now (some ms) e w = record {
  exclusive = inl refl;
  kept = inr refl;
  bounded = w.bounded;
}

exit_runtime-IsWatched :
    (s : Service) (r : Runtime) (now : ℕ) → IsWatched s r → IsWatched s (exit_runtime s r now)
unfolding exit_runtime
exit_runtime-IsWatched s r now w = schedule-IsWatched s r now s.restart_after_ms refl w

start_now-IsWatched :
    (channels : List (Option ℕ)) (calls : Calls) (s : Service) (r : Runtime)
    → IsWatched s r
    → IsWatched s (start_now channels calls s r)
unfolding start_now launch
start_now-IsWatched channels calls s r w =
    launched-IsWatched s (record r { restart_at = none }) calls.time_ns
      (start_service s channels calls) refl w.bounded

-- A change that keeps each service watched, at any place of the list.
set-AreWatched :
    (f : Service → Runtime → Runtime)
    → ((s : Service) (r : Runtime) → IsWatched s r → IsWatched s (f s r))
    → (ss : List Service) (rs : List Runtime) (index : ℕ) (d : Service) → AreWatched ss rs
    → AreWatched ss (set rs index (f (get_or ss index d) (get_or rs index idle)))
set-AreWatched f keep [] [] index d w = w
set-AreWatched f keep [] (r ∷ rs) index d w = absurd w
set-AreWatched f keep (s ∷ ss) [] index d w = absurd w
set-AreWatched f keep (s ∷ ss) (r ∷ rs) zero d w = (keep s r w.0, w.1)
set-AreWatched f keep (s ∷ ss) (r ∷ rs) (suc index) d w =
    (w.0, set-AreWatched f keep ss rs index d w.1)

on_exit-AreWatched :
    (m : Message) (state : List Runtime) (calls : Calls)
    → AreWatched table state
    → AreWatched table (on_exit m state calls)
unfolding on_exit
on_exit-AreWatched m state calls w =
    elim (Option-cases (position (runs_task (exited_task m)) state)) [
      | inl e ↦ rw (on_exit, e) w
      | inr (index, e) ↦
          rw (on_exit, e)
            (set-AreWatched (λ s r. exit_runtime s r calls.time_ns)
              (λ s r. exit_runtime-IsWatched s r calls.time_ns) table state index no_service w)
    ]

on_request-AreWatched :
    (from_utf8 : List ℕ → Bool) (m : Message) (state : List Runtime) (channels : List (Option ℕ))
    (calls : Calls)
    → AreWatched table state
    → AreWatched table (on_request from_utf8 m state channels calls)
unfolding on_request
on_request-AreWatched from_utf8 m state channels calls w =
    elim (Option-cases (position (bears_name (requested_name from_utf8 m)) table)) [
      | inl e ↦ rw (on_request, e) w
      | inr (index, e) ↦
          rw (on_request, e)
            (elim (Bool-cases (is_some (get_or state index idle).task)) [
              | inl r ↦ rw r w
              | inr r ↦ rw r (
                  set-AreWatched (start_now channels calls) (start_now-IsWatched channels calls)
                    table state index no_service w)
            ])
    ]

handle_message-AreWatched :
    (from_utf8 : List ℕ → Bool) (m : Message) (state : List Runtime) (channels : List (Option ℕ))
    (calls : Calls)
    → AreWatched table state
    → AreWatched table (handle_message from_utf8 m state channels calls)
unfolding handle_message
handle_message-AreWatched from_utf8 m state channels calls w =
    elim (Bool-cases (m.tag == tag_task_exited && m.sender == 0)) [
      | inl e ↦ rw e (on_exit-AreWatched m state calls w)
      | inr e ↦ rw e (elim (Bool-cases (m.tag == tag_restart_request)) [
        | inl e' ↦ rw e' (on_request-AreWatched from_utf8 m state channels calls w)
        | inr e' ↦ rw e' w
      ])
    ]

restart_due-AreWatched :
    (ss : List Service) (rs : List Runtime) (channels : List (Option ℕ)) (now : ℕ)
    (calls : ℕ → Calls) (i : ℕ)
    → AreWatched ss rs
    → AreWatched ss (restart_due ss rs channels now calls i)
unfolding restart_due
restart_due-AreWatched [] rs channels now calls i w = w
restart_due-AreWatched (s ∷ ss) [] channels now calls i w = w
restart_due-AreWatched (s ∷ ss) (r ∷ rs) channels now calls i w = (
  elim (Bool-cases (is_due r now)) [
    | inl e ↦ rw e (start_now-IsWatched channels (calls i) s r w.0)
    | inr e ↦ rw e w.0
  ],
  restart_due-AreWatched ss rs channels now calls (suc i) w.1,
)

round-AreWatched :
    (from_utf8 : List ℕ → Bool) (channels : List (Option ℕ)) (state : List Runtime) (turn : Round)
    → AreWatched table state
    → AreWatched table (round from_utf8 channels state turn)
unfolding round
round-AreWatched from_utf8 channels state turn w = elim (Option-cases turn.received) [
  | inl e ↦ rw e (restart_due-AreWatched table state channels turn.now turn.restarts 0 w)
  | inr (m, e) ↦ rw e (
      restart_due-AreWatched table (handle_message from_utf8 m state channels turn.handler) channels
        turn.now turn.restarts 0
        (handle_message-AreWatched from_utf8 m state channels turn.handler w))
]

launch_all-AreWatched :
    (ss : List Service) (channels : List (Option ℕ)) (calls : ℕ → Calls) (i : ℕ)
    → AreWatched ss (launch_all ss channels calls i)
unfolding launch_all launch
launch_all-AreWatched [] channels calls i = tt
launch_all-AreWatched (s ∷ ss) channels calls i = (
  launched-IsWatched s idle (calls i).time_ns (start_service s channels (calls i)) refl
      (omega arith),
  launch_all-AreWatched ss channels calls (suc i),
)

run-AreWatched :
    (from_utf8 : List ℕ → Bool) (channels : List (Option ℕ)) (state : List Runtime)
    (turns : List Round)
    → AreWatched table state
    → AreWatched table (run from_utf8 channels state turns)
unfolding run
run-AreWatched from_utf8 channels state [] w = w
run-AreWatched from_utf8 channels state (turn ∷ turns) w =
    run-AreWatched from_utf8 channels (round from_utf8 channels state turn) turns
      (round-AreWatched from_utf8 channels state turn w)

-- After its start and any rounds, whatever messages come and whatever the calls answer: a service of
-- init that runs has no restart scheduled, a supervised one that is not optional runs or has one, and
-- no wait between tries exceeds the cap or, if that is longer, the service's own delay.
pub run_watched :
    (from_utf8 : List ℕ → Bool) (channels : List (Option ℕ)) (calls : ℕ → Calls)
    (turns : List Round)
    → AreWatched table (run from_utf8 channels (boot channels calls) turns)
unfolding boot
run_watched from_utf8 channels calls turns =
    run-AreWatched from_utf8 channels (boot channels calls) turns
      (launch_all-AreWatched table channels calls 0)

-- An exit notice that the kernel did not send, or that names no task that runs a service, changes
-- nothing.
pub stale_exit :
    (from_utf8 : List ℕ → Bool) (m : Message) (state : List Runtime) (channels : List (Option ℕ))
    (calls : Calls)
    → m.tag ≡ tag_task_exited
    → (m.sender ≢ 0) ⊎ (position (runs_task (exited_task m)) state ≡ none)
    → handle_message from_utf8 m state channels calls ≡ state
unfolding handle_message on_exit
stale_exit from_utf8 m state channels calls t h =
    let c : (m.tag == tag_task_exited) ≡ true = ground arith in
    let c' : (m.tag == tag_restart_request) ≡ false = ground arith in
    elim (Bool-cases (m.sender == 0)) [
      | inl e ↦ elim h [ inl ne ↦ absurd (ne (ground arith)) | inr p ↦ rw (c, e, on_exit, p) refl ]
      | inr e ↦ rw (c, e, c') refl
    ]

earliest_le :
    (state : List Runtime) (i a : ℕ)
    → (get_or state i idle).restart_at ≡ some a
    → (b : ℕ) × (earliest state ≡ some b) × (b ≤ a)
unfolding earliest
earliest_le [] i a h = cc
earliest_le (r ∷ rs) zero a h = elim (Option-cases (earliest rs)) [
  | inl e ↦ (a, rw (h, e) refl, omega arith)
  | inr (b, e) ↦ (min a b, rw (h, e) refl, omega arith)
]
earliest_le (r ∷ rs) (suc i) a h =
    let (b, e, le) = earliest_le rs i a h in
    elim (Option-cases r.restart_at) [
      | inl n ↦ (b, rw (n, e) refl, le)
      | inr (c, n) ↦ (min c b, rw (n, e) refl, omega arith)
    ]

-- Init never sleeps past a restart: the deadline of its receive is at or before every scheduled one.
pub deadline_le :
    (state : List Runtime) (i a : ℕ)
    → (get_or state i idle).restart_at ≡ some a
    → deadline state ≤ a
unfolding deadline
deadline_le state i a h = let (b, e, le) = earliest_le state i a h in rw (deadline, e) le
