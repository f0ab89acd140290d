-- ===== src/Context/Ticks.antt =====
-- The timer tick of kernel/src/arch/aarch64/context.rs: `scheduler_tick_arm` and `expire_waits`.
use freshos.Base.{
  ℕ, zero, suc, ◌+◌, ◌-◌, ◌<◌, ◌≤◌, ◌≡◌, ◌≢◌, ◌⊎◌, refl, sym, ap, subst, ◌∙◌, true, ◌&&◌, Option,
  none, some, arith, leb, ◌==◌, not, get_or, set, length, length-set, get_or-set, Bool-cases, inl,
  inr, Option-cases,
}
use freshos.Metrics.{max_tasks}
use freshos.Kernel.{Kernel, task_at}
use freshos.Kernel.Task.{Task, UserWait, empty_task, ready, running, is_state}
use freshos.Ipc.{cancel_waiter, channel_mut}
use freshos.Context.{
  runs, is_ready, expire, expire_from, expire_waits, reap_pending_frees, scheduler_tick,
  forget_hand_off,
}
use freshos.Context.Switch.{IsScheduled}
use freshos.Context.Fairness.{distance, switch_progress}

-- From `k` to `k'` tasks were made ready, and nothing else happened to the table's states.
pub record Wakes (k k' : Kernel) : Type 0 where
  pub current : k'.current ≡ k.current
  pub slots : length k'.tasks ≡ length k.tasks
  pub states :
      (i : ℕ) → ((task_at k' i).state ≡ (task_at k i).state) ⊎ ((task_at k' i).state ≡ ready)

Wakes-refl : (k : Kernel) → Wakes k k
Wakes-refl k = record { current = refl; slots = refl; states = λ i. inl refl }

Wakes-trans : (a b c : Kernel) → Wakes a b → Wakes b c → Wakes a c
Wakes-trans a b c u v = record {
  current = v.current ∙ u.current;
  slots = v.slots ∙ u.slots;
  states = λ i. elim (v.states i) [
    | inr e ↦ inr e
    | inl e ↦ elim (u.states i) [ inl f ↦ inl (e ∙ f) | inr f ↦ inr (e ∙ f) ]
  ];
}

Wakes-IsScheduled : (k k' : Kernel) → Wakes k k' → IsScheduled k → IsScheduled k'
Wakes-IsScheduled k k' w h = record {
  slots = w.slots ∙ h.slots;
  in_bounds = rw w.current h.in_bounds;
  single = λ i r. elim (w.states i) [
    | inl e ↦
        (let r' : is_state (task_at k i).state running ≡ true =
            subst (λ s. is_state s running ≡ true) e r in
          h.single i r' ∙ sym w.current)
    | inr e ↦
        (let c : is_state ready running ≡ true = subst (λ s. is_state s running ≡ true) e r in
          absurd cc)
  ];
}

Wakes-is_ready : (k k' : Kernel) (i : ℕ) → Wakes k k' → is_ready k i ≡ true → is_ready k' i ≡ true
Wakes-is_ready k k' i w r = elim (w.states i) [ inl e ↦ rw e r | inr e ↦ rw e refl ]

cancel_waiter-tasks : (k : Kernel) (id task : ℕ) → (cancel_waiter k id task).tasks ≡ k.tasks
unfolding cancel_waiter
cancel_waiter-tasks k id task = elim (Option-cases (channel_mut k id)) [
  | inl e ↦ rw (cancel_waiter, e) refl
  | inr (ch, e) ↦ rw (cancel_waiter, e) (ground arith)
]

cancel_waiter-current : (k : Kernel) (id task : ℕ) → (cancel_waiter k id task).current ≡ k.current
unfolding cancel_waiter
cancel_waiter-current k id task = elim (Option-cases (channel_mut k id)) [
  | inl e ↦ rw (cancel_waiter, e) refl
  | inr (ch, e) ↦ rw (cancel_waiter, e) (ground arith)
]

-- Writing a ready task into a slot, whatever the other fields are.
set_ready :
    (k k' : Kernel) (id : ℕ) (t : Task)
    → t.state ≡ ready
    → k'.tasks ≡ set k.tasks id t
    → k'.current ≡ k.current
    → id < length k.tasks
    → Wakes k k'
set_ready k k' id t r e c lt = record {
  current = c;
  slots = ap length e ∙ length-set k.tasks id t;
  states = λ i.
      let at = ap (λ ts. get_or ts i empty_task) e ∙ get_or-set k.tasks id i t empty_task lt in
      elim (Bool-cases (id == i)) [
        | inl b ↦ inr (ap (λ x. x.state) at ∙ rw b r)
        | inr b ↦ inl (ap (λ x. x.state) at ∙ rw b refl)
      ];
}

expire-Wakes :
    (k : Kernel) (now_ns id : ℕ) (w : Option UserWait)
    → id < length k.tasks
    → Wakes k (expire k now_ns id w)
unfolding expire
expire-Wakes k now_ns id none lt = Wakes-refl k
expire-Wakes k now_ns id (some wait) lt =
    elim (Bool-cases (not (wait.deadline_ns == 0) && leb wait.deadline_ns now_ns)) [
      | inr e ↦ rw e (Wakes-refl k)
      | inl e ↦
          (let k₁ = cancel_waiter k wait.channel id in
            let t = record (task_at k₁ id) { wait = none; state = ready } in
            rw e (
              set_ready k _ id t refl
                (ap (λ ts. set ts id t) (cancel_waiter-tasks k wait.channel id))
                (cancel_waiter-current k wait.channel id) lt))
    ]

expire_from-Wakes :
    (k : Kernel) (now_ns id n : ℕ) → id + n ≤ length k.tasks → Wakes k (expire_from k now_ns id n)
unfolding expire_from
expire_from-Wakes k now_ns id zero lt = Wakes-refl k
expire_from-Wakes k now_ns id (suc n) lt =
    let k₁ = expire k now_ns id (task_at k id).wait in
    let w = expire-Wakes k now_ns id (task_at k id).wait (omega arith) in
    let s : length k₁.tasks ≡ length k.tasks = w.slots in
    Wakes-trans k k₁ _ w (expire_from-Wakes k₁ now_ns (id + 1) n (rw s (omega arith)))

-- A tick ends the hand-off before it switches.
before_switch : Kernel → ℕ → ℕ → Kernel
before_switch k sp now_ns = forget_hand_off (expire_waits (reap_pending_frees k sp) now_ns)

before_switch-Wakes :
    (k : Kernel) (sp now_ns : ℕ) → IsScheduled k → Wakes k (before_switch k sp now_ns)
unfolding before_switch forget_hand_off expire_waits reap_pending_frees
before_switch-Wakes k sp now_ns h =
    let w =
      expire_from-Wakes (reap_pending_frees k sp) now_ns 1 (max_tasks - 1)
        (let s : length k.tasks ≡ max_tasks = h.slots in omega arith) in
    record { current = w.current; slots = w.slots; states = w.states }

-- A tick, from a kernel in which only the current task can be running, when it does not panic: again
-- only the current task can be running, and a task that was ready is now running, or it is still
-- ready and the rotation has come nearer to it.
pub tick_progress :
    (k : Kernel) (sp now_ns i : ℕ) (k' : Kernel) (frame : ℕ)
    → IsScheduled k
    → i < max_tasks
    → is_ready k i ≡ true
    → scheduler_tick k sp now_ns ≡ runs (k', frame)
    → IsScheduled k'
      × ((k'.current ≡ i)
          ⊎ ((is_ready k' i ≡ true) × (distance k'.current i < distance k.current i)))
unfolding scheduler_tick before_switch forget_hand_off
tick_progress k sp now_ns i k' frame h hi r e =
    let w = before_switch-Wakes k sp now_ns h in
    let k₁ = before_switch k sp now_ns in
    let (s, p) =
      switch_progress k₁ sp i k' frame (Wakes-IsScheduled k k₁ w h) refl hi
        (Wakes-is_ready k k₁ i w r) e in
    (
      s,
      subst
          (λ n.
            (k'.current ≡ i) ⊎ ((is_ready k' i ≡ true) × (distance k'.current i < distance n i)))
          w.current p,
    )

-- A run of the system between two ticks that leaves the current task alone: what it and the
-- interrupts do keeps the table's shape, and `i` ready.
pub record Between (i : ℕ) (k k' : Kernel) : Type 0 where
  pub current : k'.current ≡ k.current
  pub scheduled : IsScheduled k'
  pub ready : is_ready k' i ≡ true

-- `n` ticks in a row, each after such a run, none of which makes `i` the running task.
pub data Passed (i : ℕ) : ℕ → Kernel → Kernel → Type 0 where
  here : (k : Kernel) → Passed i 0 k k
  tick :
      {n : ℕ} (k a b c : Kernel) (sp now_ns frame : ℕ)
      → Passed i n k a
      → Between i a b
      → scheduler_tick b sp now_ns ≡ runs (c, frame)
      → c.current ≢ i
      → Passed i (suc n) k c

pub Passed-bound :
    {i n : ℕ} {k k' : Kernel}
    → IsScheduled k
    → i < max_tasks
    → is_ready k i ≡ true
    → Passed i n k k'
    → IsScheduled k' × (is_ready k' i ≡ true) × (n + distance k'.current i ≤ distance k.current i)
Passed-bound h hi r (here k) = (h, r, omega arith)
Passed-bound {i = i} h hi r (tick k a b c sp now_ns frame p w e ne) =
    let (s, q, bound) = Passed-bound h hi r p in
    let (sc, o) = tick_progress b sp now_ns i c frame w.scheduled hi w.ready e in
    elim o [
      | inl x ↦ absurd (ne x)
      | inr (rc, lt) ↦ (
        sc,
        rc,
        (let cb : b.current ≡ a.current = w.current in
            let lt' : distance c.current i < distance a.current i =
              subst (λ m. distance c.current i < distance m i) cb lt in
            omega arith),
      )
    ]

-- Round robin: as long as nothing but ticks changes the running task, a ready task is passed over by
-- at most 15 ticks.
pub ready_runs_soon :
    {i n : ℕ} {k k' : Kernel}
    → IsScheduled k
    → i < max_tasks
    → is_ready k i ≡ true
    → Passed i n k k'
    → n < max_tasks
ready_runs_soon {i = i} {n = n} {k = k} {k' = k'} h hi r p =
    let (_, _, b) = Passed-bound h hi r p in omega arith
