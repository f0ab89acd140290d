-- ===== src/Context/Turns.antt =====
-- The outcome of `switch_away` and `hand_off` of kernel/src/arch/aarch64/context.rs.
use freshos.Base.{
  ℕ, zero, suc, ◌+◌, ◌%◌, ◌<◌, ◌≡◌, ◌≢◌, refl, sym, ap, subst, ◌∙◌, true, false, ◌&&◌, arith, ltb,
  leb, if◌then◌else◌, length, get_or, Bool-cases, inl, inr,
}
use freshos.Metrics.{max_tasks}
use freshos.Kernel.{Kernel, task_at}
use freshos.Kernel.Task.{empty_task, running}
use freshos.Context.{
  runs, run, save_current, is_ready, find_ready, or_idle, returning, next_task, switch_away,
  hand_off, forget_hand_off, check_canary,
}
use freshos.Context.Switch.{IsScheduled, run-Runs, save_current-IsIdle, save_current-at, saved_task}

-- `k'` runs in place of `k`: the task that was current is saved, the new one resumes at its saved
-- frame, and the others are as they were.
pub record Turns (k : Kernel) (frame : ℕ) (k' : Kernel) (sp : ℕ) : Type 0 where
  pub scheduled : IsScheduled k'
  pub is_running : (task_at k' k'.current).state ≡ running
  pub saves : k'.current ≢ k.current → task_at k' k.current ≡ saved_task (task_at k k.current) frame
  pub resumes : k'.current ≢ k.current → sp ≡ (task_at k k'.current).sp
  pub keeps : (i : ℕ) → i ≢ k.current → i ≢ k'.current → task_at k' i ≡ task_at k i

pub run_pair : (k : Kernel) (n : ℕ) → (k' : Kernel) × (sp : ℕ) × (run k n ≡ (k', sp))
unfolding run
run_pair k n = (_, _, refl)

-- Every answer of the search is a slot.
pub find_ready_bound : (k : Kernel) (cur step n : ℕ) → or_idle (find_ready k cur step n) < max_tasks
unfolding find_ready
find_ready_bound k cur step zero = omega arith
find_ready_bound k cur step (suc n) = elim (Bool-cases (is_ready k ((cur + step) % max_tasks))) [
  | inl e ↦ rw e (omega arith)
  | inr e ↦ rw e (find_ready_bound k cur (step + 1) n)
]

pub next_task_bound : (k : Kernel) → next_task k < max_tasks
unfolding next_task returning
next_task_bound k = elim (Bool-cases (ltb k.donor max_tasks)) [
  | inl e ↦ ground (arith, e, find_ready_bound k k.current 1 max_tasks)
  | inr e ↦ ground (arith, e, find_ready_bound k k.current 1 max_tasks)
]

-- What `save_current` leaves, in the words of the kernel before it.
saved_others :
    (k : Kernel) (frame j : ℕ)
    → IsScheduled k
    → j ≢ k.current
    → task_at (save_current k frame) j ≡ task_at k j
saved_others k frame j h ne = save_current-at k frame j h ∙ ground (arith, ne)

saved_self :
    (k : Kernel) (frame : ℕ)
    → IsScheduled k
    → task_at (save_current k frame) k.current ≡ saved_task (task_at k k.current) frame
saved_self k frame h = save_current-at k frame k.current h ∙ ground arith

-- `run` on a kernel `s` that differs from the saved one in the fields of the hand-off.
turn :
    (k s : Kernel) (frame next : ℕ)
    → IsScheduled k
    → s.tasks ≡ (save_current k frame).tasks
    → next < max_tasks
    → (k' : Kernel) × (sp : ℕ) × (run s next ≡ (k', sp)) × (k'.current ≡ next) × Turns k frame k' sp
turn k s frame next h et lt =
    let (k', sp, e) = run_pair s next in
    let idle = save_current-IsIdle k frame h in
    let at : (j : ℕ) → task_at s j ≡ task_at (save_current k frame) j =
      λ j. ap (λ ts. get_or ts j empty_task) et in
    let r =
      run-Runs s next k' sp
        (record { slots = ap length et ∙ idle.slots; nobody = λ i. rw (at i) (idle.nobody i) }) lt
        e in
    let ec : k'.current ≡ next = r.is_current in
    (
      k',
      sp,
      e,
      ec,
      record {
        scheduled = r.scheduled;
        is_running = rw ec r.is_running;
        saves =
            λ ne. r.others k.current (λ c. ne (ec ∙ sym c)) ∙ (at k.current ∙ saved_self k frame h);
        resumes = λ ne.
            r.resumes
            ∙ ap (λ t. t.sp) (at next ∙ saved_others k frame next h (λ c. ne (ec ∙ c)))
            ∙ ap (λ n. (task_at k n).sp) (sym ec);
        keeps =
            λ i ne ne'. r.others i (λ c. ne' (c ∙ sym ec)) ∙ (at i ∙ saved_others k frame i h ne);
      },
    )

switch_away_safe :
    (k : Kernel) (frame : ℕ) (k' : Kernel) (sp : ℕ)
    → switch_away k frame ≡ runs (k', sp)
    → check_canary k k.current ≡ true
unfolding switch_away
switch_away_safe k frame k' sp e = ground arith

-- From a kernel in which only the current task can be running, with the current task's canary
-- intact, an ordinary switch ends: it runs the task that `next_task` chooses among the saved ones,
-- from where it was saved; the task that left is saved, ready if it was running; every other task is
-- as before, and again only the current task is running.
pub switch_away_turns :
    (k : Kernel) (frame : ℕ)
    → IsScheduled k
    → check_canary k k.current ≡ true
    → (k' : Kernel) × (sp : ℕ) × (switch_away k frame ≡ runs (k', sp))
      × (k'.current ≡ next_task (save_current k frame))
      × Turns k frame k' sp
unfolding switch_away forget_hand_off
switch_away_turns k frame h c =
    let next = next_task (save_current k frame) in
    let (k', sp, e, ec, t) =
      turn k (forget_hand_off (save_current k frame)) frame next h refl
        (next_task_bound (save_current k frame)) in
    (k', sp, rw c (ap runs e), ec, t)

-- The same about a switch that is known to end.
pub switch_away-Turns :
    (k : Kernel) (frame : ℕ) (k' : Kernel) (sp : ℕ)
    → IsScheduled k
    → switch_away k frame ≡ runs (k', sp)
    → (k'.current ≡ next_task (save_current k frame)) × Turns k frame k' sp
switch_away-Turns k frame k' sp h e =
    let (k₁, sp₁, e₁, ec, t) = switch_away_turns k frame h (switch_away_safe k frame k' sp e) in
    let c : k₁ ≡ k' = cc in
    let c' : sp₁ ≡ sp = cc in
    subst (λ x. (x.current ≡ next_task (save_current k frame)) × Turns k frame x sp) c
      (ec, subst (Turns k frame k₁) c' t)

out_of_range : (i : ℕ) → ltb i max_tasks ≡ false → leb max_tasks i ≡ true
out_of_range i e = ground (arith, e)

in_range : (i : ℕ) → ltb i max_tasks ≡ true → leb max_tasks i ≡ false
in_range i e = ground (arith, e)

-- A hand-off to a ready task runs that very task, with the same effect on the table as an ordinary
-- switch. To a task that is not ready, or out of range, it is an ordinary switch.
pub hand_off_turns :
    (k : Kernel) (frame target_id : ℕ)
    → IsScheduled k
    → check_canary k k.current ≡ true
    → (k' : Kernel) × (sp : ℕ) × (hand_off k frame target_id ≡ runs (k', sp))
      × (k'.current ≡ (
          if ltb target_id max_tasks && is_ready k target_id
          then target_id
          else next_task (save_current k frame)))
      × Turns k frame k' sp
unfolding hand_off
hand_off_turns k frame target_id h c = elim (Bool-cases (ltb target_id max_tasks)) [
  | inr e ↦
      (let (k', sp, r, ec, t) = switch_away_turns k frame h c in
        (k', sp, rw (out_of_range target_id e) r, rw e ec, t))
  | inl e ↦ (elim (Bool-cases (is_ready k target_id)) [
    | inr f ↦
        (let (k', sp, r, ec, t) = switch_away_turns k frame h c in
          (k', sp, rw (in_range target_id e, f) r, rw (e, f) ec, t))
    | inl f ↦
        (let (k', sp, r, ec, t) =
            turn k (record (save_current k frame) { donor = k.current; target = target_id }) frame
              target_id h refl (ground (arith, e)) in
          (k', sp, rw (in_range target_id e, f, c) (ap runs r), rw (e, f) ec, t))
  ])
]
