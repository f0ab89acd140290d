-- ===== src/Context/Switch.antt =====
-- What a switch of tasks does to the table: `switch_away`, `hand_off` and `run`.
use freshos.Base.{
  ℕ, ◌<◌, ◌≡◌, ◌≢◌, refl, sym, ap, subst, ◌∙◌, true, false, arith, ◌==◌, if◌then◌else◌, length,
  get_or, set, length-set, get_or-set, Bool-cases, inl, inr,
}
use freshos.Metrics.{max_tasks}
use freshos.Kernel.{Kernel, task_at, put_task}
use freshos.Kernel.Task.{Task, State, free, ready, running, is_state, empty_task}
use freshos.Context.{activate, run, save_current, is_ready}

-- The table has its 16 slots, and only the current one can be running.
pub record IsScheduled (k : Kernel) : Type 0 where
  pub slots : length k.tasks ≡ max_tasks
  pub in_bounds : k.current < max_tasks
  pub single : (i : ℕ) → is_state (task_at k i).state running ≡ true → i ≡ k.current

pub is_state_refl : (s : State) → is_state s s ≡ true
is_state_refl State.free = refl
is_state_refl State.reserved = refl
is_state_refl State.ready = refl
is_state_refl State.running = refl
is_state_refl State.blocked = refl

pub is_state_eq : (s t : State) → is_state s t ≡ true → s ≡ t
is_state_eq State.free State.free h = refl
is_state_eq State.free State.reserved h = cc
is_state_eq State.free State.ready h = cc
is_state_eq State.free State.running h = cc
is_state_eq State.free State.blocked h = cc
is_state_eq State.reserved State.free h = cc
is_state_eq State.reserved State.reserved h = refl
is_state_eq State.reserved State.ready h = cc
is_state_eq State.reserved State.running h = cc
is_state_eq State.reserved State.blocked h = cc
is_state_eq State.ready State.free h = cc
is_state_eq State.ready State.reserved h = cc
is_state_eq State.ready State.ready h = refl
is_state_eq State.ready State.running h = cc
is_state_eq State.ready State.blocked h = cc
is_state_eq State.running State.free h = cc
is_state_eq State.running State.reserved h = cc
is_state_eq State.running State.ready h = cc
is_state_eq State.running State.running h = refl
is_state_eq State.running State.blocked h = cc
is_state_eq State.blocked State.free h = cc
is_state_eq State.blocked State.reserved h = cc
is_state_eq State.blocked State.ready h = cc
is_state_eq State.blocked State.running h = cc
is_state_eq State.blocked State.blocked h = refl

-- The task as `save_current` leaves it.
abbrev pub saved_task : Task → ℕ → Task
saved_task t frame = record t {
  sp = if is_state t.state free then t.sp else frame;
  state = if is_state t.state running then ready else t.state;
}

demoted_not_running :
    (s : State) → is_state (if is_state s running then ready else s) running ≡ false
demoted_not_running State.free = refl
demoted_not_running State.reserved = refl
demoted_not_running State.ready = refl
demoted_not_running State.running = refl
demoted_not_running State.blocked = refl

demoted_ready :
    (s : State)
    → is_state s ready ≡ true
    → is_state (if is_state s running then ready else s) ready ≡ true
demoted_ready State.free h = cc
demoted_ready State.reserved h = cc
demoted_ready State.ready h = refl
demoted_ready State.running h = cc
demoted_ready State.blocked h = cc

-- A table whose slots are all there, with no task running.
pub record IsIdle (k : Kernel) : Type 0 where
  pub slots : length k.tasks ≡ max_tasks
  pub nobody : (i : ℕ) → is_state (task_at k i).state running ≡ false

pub save_current-at :
    (k : Kernel) (frame j : ℕ)
    → IsScheduled k
    → task_at (save_current k frame) j
      ≡ (if k.current == j then saved_task (task_at k k.current) frame else task_at k j)
unfolding save_current
save_current-at k frame j s =
    get_or-set k.tasks k.current j (saved_task (task_at k k.current) frame) empty_task
      (subst (λ n. k.current < n) (sym s.slots) s.in_bounds)

pub save_current-IsIdle : (k : Kernel) (frame : ℕ) → IsScheduled k → IsIdle (save_current k frame)
unfolding save_current
save_current-IsIdle k frame s = record {
  slots = length-set k.tasks k.current _ ∙ s.slots;
  nobody = λ j. rw (save_current-at k frame j s) (elim (Bool-cases (k.current == j)) [
    | inl e ↦ rw e (demoted_not_running (task_at k k.current).state)
    | inr e ↦ rw e (elim (Bool-cases (is_state (task_at k j).state running)) [
      | inl r ↦ (let c : j ≡ k.current = s.single j r in absurd (ground (arith, c, e)))
      | inr r ↦ r
    ])
  ]);
}

-- A ready task stays ready.
pub save_current-ready :
    (k : Kernel) (frame j : ℕ)
    → IsScheduled k
    → is_ready k j ≡ true
    → is_ready (save_current k frame) j ≡ true
save_current-ready k frame j s h =
    rw (save_current-at k frame j s) (elim (Bool-cases (k.current == j)) [
      | inl e ↦ rw e (
          let c : k.current ≡ j = ground arith in
          demoted_ready (task_at k k.current).state (subst (λ i. is_ready k i ≡ true) (sym c) h))
      | inr e ↦ rw e h
    ])

-- The kernel `k'` runs `next`, which `k` held, and resumes at its saved frame.
pub record Runs (k : Kernel) (next : ℕ) (k' : Kernel) (sp : ℕ) : Type 0 where
  pub is_current : k'.current ≡ next
  pub is_running : (task_at k' next).state ≡ running
  pub resumes : sp ≡ (task_at k next).sp
  pub others : (i : ℕ) → i ≢ next → task_at k' i ≡ task_at k i
  pub scheduled : IsScheduled k'

activate-tasks : (k : Kernel) (t : ℕ) → (activate k t).tasks ≡ k.tasks
unfolding activate
activate-tasks k t = ground arith

activate-current : (k : Kernel) (t : ℕ) → (activate k t).current ≡ k.current
unfolding activate
activate-current k t = ground arith

pub run-Runs :
    (k : Kernel) (next : ℕ) (k' : Kernel) (sp : ℕ)
    → IsIdle k
    → next < max_tasks
    → run k next ≡ (k', sp)
    → Runs k next k' sp
unfolding run
run-Runs k next k' sp s h e =
    let t = record (task_at k next) { state = running } in
    let k₁ = record (put_task k next t) { current = next } in
    let e₀ : activate k₁ (task_at k next).ttbr0 ≡ k' = cc in
    let et : k'.tasks ≡ set k.tasks next t =
      ap (λ x. x.tasks) (sym e₀) ∙ activate-tasks k₁ (task_at k next).ttbr0 in
    let ec : k'.current ≡ next =
      ap (λ x. x.current) (sym e₀) ∙ activate-current k₁ (task_at k next).ttbr0 in
    let lt : next < length k.tasks = subst (λ n. next < n) (sym s.slots) h in
    let at : (j : ℕ) → task_at k' j ≡ (if next == j then t else task_at k j) =
      λ j. ap (λ ts. get_or ts j empty_task) et ∙ get_or-set k.tasks next j t empty_task lt in
    record {
      is_current = ec;
      is_running = rw (at next) (ground arith);
      resumes = cc;
      others = λ i ne. at i ∙ ground (arith, ne);
      scheduled = record {
        slots = ap length et ∙ (length-set k.tasks next t ∙ s.slots);
        in_bounds = rw ec h;
        single = λ i r. elim (Bool-cases (next == i)) [
          | inl b ↦ (let c : next ≡ i = ground arith in sym c ∙ sym ec)
          | inr b ↦ absurd (
              let c : is_state (task_at k' i).state running ≡ false =
                rw (at i) (rw b (s.nobody i)) in
              cc)
        ];
      };
    }
