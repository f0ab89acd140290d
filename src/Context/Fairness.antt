-- ===== src/Context/Fairness.antt =====
-- How long a ready task waits for the CPU: the rotation of `switch_away` and `scheduler_tick_arm` in
-- kernel/src/arch/aarch64/context.rs.
use freshos.Base.{
  ℕ, zero, suc, ◌+◌, ◌-◌, ◌%◌, ◌<◌, ◌≤◌, ◌≡◌, ◌≢◌, ◌⊎◌, refl, sym, subst, ◌∙◌, true, false, some,
  arith, ◌==◌, Bool-cases, inl, inr,
}
use freshos.Metrics.{max_tasks}
use freshos.Kernel.{Kernel, task_at, no_hand_off}
use freshos.Kernel.Task.{Task, ready, is_state}
use freshos.Context.{runs, save_current, is_ready, find_ready, returning, next_task, switch_away}
use freshos.Context.Switch.{IsScheduled, save_current-ready, saved_task, is_state_eq}
use freshos.Context.Turns.{Turns, switch_away-Turns}

-- How many slots the rotation passes, from the one after `cur`, before it comes to `i`.
abbrev pub distance : ℕ → ℕ → ℕ
distance cur i = (i + (max_tasks - 1) - cur) % max_tasks

-- The search never passes a ready slot.
find_ready_first :
    (k : Kernel) (cur step n d : ℕ)
    → step ≤ d
    → d < step + n
    → is_ready k ((cur + d) % max_tasks) ≡ true
    → (s : ℕ) × (step ≤ s) × (s ≤ d) × (find_ready k cur step n ≡ some ((cur + s) % max_tasks))
unfolding find_ready
find_ready_first k cur step zero d h h' r = absurd (omega arith)
find_ready_first k cur step (suc n) d h h' r =
    elim (Bool-cases (is_ready k ((cur + step) % max_tasks))) [
      | inl e ↦ (step, omega arith, h, rw e refl)
      | inr e ↦
          (let ne : step ≢ d = λ c. cc in
            let (s, a, b, f) =
              find_ready_first k cur (step + 1) n d (omega arith) (omega arith) r in
            (s, omega arith, b, rw e f))
    ]

-- Passing `s` slots of the distance leaves the rest of it.
nearer :
    (cur i s : ℕ)
    → cur < max_tasks
    → i < max_tasks
    → 1 ≤ s
    → s ≤ distance cur i + 1
    → ((cur + s) % max_tasks ≡ i) ⊎ (distance ((cur + s) % max_tasks) i < distance cur i)
nearer cur i s hc hi a b = elim (Bool-cases (s == distance cur i + 1)) [
  | inl e ↦ (let c : s ≡ distance cur i + 1 = ground arith in inl (omega arith))
  | inr e ↦ (let c : s ≤ distance cur i = ground (arith, b) in inr (omega arith))
]

-- With no hand-off to return from, the task that runs next is `i` itself or stands before it.
next_task_near :
    (k : Kernel) (i : ℕ)
    → k.current < max_tasks
    → i < max_tasks
    → is_ready k i ≡ true
    → returning k ≡ false
    → (next_task k ≡ i) ⊎ (distance (next_task k) i < distance k.current i)
unfolding next_task
next_task_near k i hc hi r nr =
    let e : (k.current + (distance k.current i + 1)) % max_tasks ≡ i = omega arith in
    let (s, a, b, f) =
      find_ready_first k k.current 1 max_tasks (distance k.current i + 1) (omega arith)
        (omega arith) (subst (λ j. is_ready k j ≡ true) (sym e) r) in
    rw (nr, f) (nearer k.current i s hc hi a b)

not_returning : (k : Kernel) → k.target ≡ no_hand_off → k.current < max_tasks → returning k ≡ false
unfolding returning
not_returning k e h = let c : (k.target == k.current) ≡ false = ground (arith, e, h) in rw c refl

save_current-target : (k : Kernel) (frame : ℕ) → (save_current k frame).target ≡ k.target
unfolding save_current
save_current-target k frame = refl

save_current-current : (k : Kernel) (frame : ℕ) → (save_current k frame).current ≡ k.current
unfolding save_current
save_current-current k frame = refl

demoted_ready :
    (t : Task) (frame : ℕ)
    → is_state t.state ready ≡ true
    → is_state (saved_task t frame).state ready ≡ true
demoted_ready t frame h = let c : t.state ≡ ready = is_state_eq t.state ready h in rw c refl

-- A task that was ready, and is not the one that runs now, is ready.
turn_ready :
    (k : Kernel) (frame i : ℕ) (k' : Kernel) (sp : ℕ)
    → Turns k frame k' sp
    → is_ready k i ≡ true
    → i ≢ k'.current
    → is_ready k' i ≡ true
turn_ready k frame i k' sp t r ne = elim (Bool-cases (i == k.current)) [
  | inl b ↦
      (let c : i ≡ k.current = ground arith in
        let r' : is_ready k k.current ≡ true = subst (λ j. is_ready k j ≡ true) c r in
        subst (λ j. is_ready k' j ≡ true) (sym c)
          (rw (t.saves (λ d. ne (c ∙ sym d))) (demoted_ready (task_at k k.current) frame r')))
  | inr b ↦ (let c : i ≢ k.current = ground (arith, b) in rw (t.keeps i c ne) r)
]

-- An ordinary switch with no hand-off to return from: a ready task runs next, or it is still ready
-- and nearer.
pub switch_progress :
    (k : Kernel) (frame i : ℕ) (k' : Kernel) (sp : ℕ)
    → IsScheduled k
    → k.target ≡ no_hand_off
    → i < max_tasks
    → is_ready k i ≡ true
    → switch_away k frame ≡ runs (k', sp)
    → IsScheduled k'
      × ((k'.current ≡ i)
          ⊎ ((is_ready k' i ≡ true) × (distance k'.current i < distance k.current i)))
switch_progress k frame i k' sp h nt hi r e =
    let (ec, t) = switch_away-Turns k frame k' sp h e in
    let near =
      next_task_near (save_current k frame) i
        (subst (λ n. n < max_tasks) (sym (save_current-current k frame)) h.in_bounds) hi
        (save_current-ready k frame i h r)
        (not_returning (save_current k frame) (save_current-target k frame ∙ nt)
          (subst (λ n. n < max_tasks) (sym (save_current-current k frame)) h.in_bounds)) in
    (
      t.scheduled,
      elim near [
        | inl c ↦ inl (ec ∙ c)
        | inr c ↦ elim (Bool-cases (k'.current == i)) [
          | inl b ↦ (let b' : k'.current ≡ i = ground arith in inl b')
          | inr b ↦
              (let b' : i ≢ k'.current = ground (arith, b) in
                inr (
                  turn_ready k frame i k' sp t r b',
                  rw ec (
                      subst (λ n. distance (next_task (save_current k frame)) i < distance n i)
                        (save_current-current k frame) c),
                ))
        ]
      ],
    )
