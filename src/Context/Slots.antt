-- ===== src/Context/Slots.antt =====
-- Which slot a new task gets, and what a failed start leaves: `claim_slot`, `release`, `install`,
-- `spawn` and `spawn_el0` of kernel/src/arch/aarch64/context.rs.
use freshos.Base.{
  ℕ, zero, suc, ◌+◌, ◌/◌, ◌%◌, ◌^◌, ◌<◌, ◌≤◌, ◌≡◌, refl, sym, ap, subst, ◌∙◌, ◌≢◌, Bool, true,
  false, some, if◌then◌else◌, List, arith, ◌==◌, length, get_or, set, length-set, get_or-set,
  Bool-cases, inl, inr, Option-cases,
}
use freshos.Abi.{TaskRef}
use freshos.FrameAlloc
use freshos.AddrSpace.{Phys}
use freshos.Handles
use freshos.Handles.{HandleTable}
use freshos.Metrics.{max_tasks}
use freshos.Kernel.{Kernel, task_at, put_task}
use freshos.Kernel.Task.{Task, State, free, reserved, empty_task, is_state}
use freshos.Context.{
  find_free, recount, claim_slot, release, install, task_ref, reap_pending_frees, kernel_stack_size,
}
use freshos.Context.Switch.{is_state_eq}
use freshos.Context.Spawn.{
  Built, Spawned, spawned, refused, spawn, spawn_el0, build_el0, built, not_built, physical,
  with_physical,
}
use freshos.Context.Fresh.{IsFresh, BuildsFresh, build_el0-BuildsFresh}

abbrev is_free : Kernel → ℕ → Bool
is_free k i = is_state (task_at k i).state free

pub SameStates : Kernel → Kernel → Type 0
SameStates k k' = (i : ℕ) → (task_at k' i).state ≡ (task_at k i).state

-- The table with the new task `t`, where nothing else differs from the table `k`.
pub record IsInstalled (handles : HandleTable) (user : Bool) (k k₁ : Kernel) (t : TaskRef)
    : Type 0 where
  pub fresh : IsFresh handles user (task_at k₁ t.id)
  pub others : (i : ℕ) → t.id ≢ i → task_at k₁ i ≡ task_at k i
  pub numbered : k₁.generations ≡ set k.generations t.id t.generation

-- What a start means for the table `k` it found. The generation is that of a new task in the slot, and
-- `bind` runs on the table with the new task.
pub Starts : HandleTable → Bool → Kernel → (Kernel → TaskRef → Kernel) → Spawned → Type 0
Starts handles user k bind (spawned k' t) =
    (1 ≤ t.id)
    × (t.id < max_tasks)
    × ((task_at k t.id).state ≡ State.free)
    × (t.generation ≡ (get_or k.generations t.id 0 + 1) % 2 ^ 32)
    × ((k₁ : Kernel) × (k' ≡ recount (bind k₁ t)) × IsInstalled handles user k k₁ t)
Starts handles user k bind (refused k' e) = SameStates k k'

find_free-some :
    (k : Kernel) (i n id : ℕ)
    → find_free k i n ≡ some id
    → (i ≤ id) × (id < i + n) × (is_free k id ≡ true)
unfolding find_free
find_free-some k i zero id e = cc
find_free-some k i (suc n) id e = elim (Bool-cases (is_free k i)) [
  | inl f ↦
      (let c : i ≡ id = ground (arith, e, f) in
        (omega arith, omega arith, subst (λ j. is_free k j ≡ true) c f))
  | inr f ↦
      (let c : find_free k (i + 1) n ≡ some id = ground (arith, e, f) in
        let (a, b, g) = find_free-some k (i + 1) n id c in (omega arith, omega arith, g))
]

-- The state of each slot after `id`, free until now, was claimed and given up.
released :
    (k k₁ : Kernel) (id : ℕ)
    → id < length k.tasks
    → is_free k id ≡ true
    → k₁.tasks ≡ set k.tasks id (record (task_at k id) { state = reserved })
    → SameStates k (release k₁ id)
unfolding SameStates release
released k k₁ id lt f e i =
    let t = record (task_at k id) { state = reserved } in
    let lt₁ : id < length k₁.tasks =
      subst (λ n. id < n) (sym (ap length e ∙ length-set k.tasks id t)) lt in
    let g = get_or-set k₁.tasks id i empty_task empty_task lt₁ in
    elim (Bool-cases (id == i)) [
      | inl b ↦
          (let c : id ≡ i = ground arith in
            ap (λ x. x.state) g
            ∙ (rw b (sym (is_state_eq _ _ f)) ∙ ap (λ j. (task_at k j).state) c))
      | inr b ↦
          ap (λ x. x.state) g
          ∙ rw b (
              ap (λ ts. (get_or ts i empty_task).state) e
              ∙ (ap (λ x. x.state) (get_or-set k.tasks id i t empty_task lt) ∙ rw b refl))
    ]

abbrev after_claim : Kernel → ℕ → Kernel
after_claim k id = put_task k id (record (task_at k id) { state = reserved })

abbrev next_generation : Kernel → ℕ → ℕ
next_generation k id = (get_or k.generations id 0 + 1) % 2 ^ 32

abbrev table_with : Kernel → ℕ → Task → Kernel
table_with k id task = record (put_task k id task) {
  generations = set k.generations id (next_generation k id);
}

-- The start of a task in the slot `id`, which was free and has been claimed in `k₁`.
module _ (handles : HandleTable) (user : Bool) (k k₁ : Kernel) (id : ℕ) (task : Task)
    (claimed : k₁.tasks ≡ set k.tasks id (record (task_at k id) { state = reserved }))
    (same : k₁.generations ≡ k.generations) (slots : length k.tasks ≡ max_tasks)
    (numbers : length k.generations ≡ max_tasks) (above : 1 ≤ id) (below : id < max_tasks)
    (free_slot : is_free k id ≡ true) (new : IsFresh handles user task) where
  in_table : id < length k.tasks
  in_table = subst (λ n. id < n) (sym slots) below

  in_claimed : id < length k₁.tasks
  in_claimed = subst (λ n. id < n) (sym (ap length claimed ∙ length-set k.tasks id _)) in_table

  tasks_after :
      (i : ℕ) → task_at (table_with k₁ id task) i ≡ (if id == i then task else task_at k i)
  tasks_after i =
      get_or-set k₁.tasks id i task empty_task in_claimed ∙ elim (Bool-cases (id == i)) [
        | inl e ↦ rw e refl
        | inr e ↦ rw e (
            ap (λ ts. get_or ts i empty_task) claimed
            ∙ (get_or-set k.tasks id i (record (task_at k id) { state = reserved }) empty_task
                  in_table
                ∙ rw e refl))
      ]

  ref_id : (task_ref (table_with k₁ id task) id).id ≡ id
  unfolding task_ref
  ref_id = omega arith

  ref_generation : (task_ref (table_with k₁ id task) id).generation ≡ next_generation k id
  unfolding task_ref
  ref_generation =
      get_or-set k₁.generations id id (next_generation k₁ id) 0
        (subst (λ n. id < n) (sym (ap length same ∙ numbers)) below)
      ∙ (let e : (id == id) ≡ true = ground arith in
          rw e (ap (λ gs. (get_or gs id 0 + 1) % 2 ^ 32) same))

  generations_after :
      (table_with k₁ id task).generations
      ≡ set k.generations id (task_ref (table_with k₁ id task) id).generation
  generations_after =
      ap (λ gs. set gs id ((get_or gs id 0 + 1) % 2 ^ 32)) same
      ∙ ap (set k.generations id) (sym ref_generation)

  table_with-IsInstalled :
      IsInstalled handles user k (table_with k₁ id task) (task_ref (table_with k₁ id task) id)
  table_with-IsInstalled =
      let here : task_at (table_with k₁ id task) id ≡ task =
        tasks_after id ∙ (let e : (id == id) ≡ true = ground arith in rw e refl) in
      record {
        fresh = rw ref_id (subst (λ t. IsFresh handles user t) (sym here) new);
        others = λ i ne.
            (let ne' : id ≢ i = rw ref_id at ne in
              let e : (id == i) ≡ false = ground arith in tasks_after i ∙ rw e refl);
        numbered = rw ref_id generations_after;
      }

  started :
      (bind : Kernel → TaskRef → Kernel)
      → Starts handles user k bind (spawned (install k₁ id task bind).0 (install k₁ id task bind).1)
  unfolding Starts install
  started bind = (
    rw ref_id above,
    rw ref_id below,
    rw ref_id (is_state_eq _ _ free_slot),
    ref_generation ∙ rw ref_id refl,
    (table_with k₁ id task, refl, table_with-IsInstalled),
  )

-- What `spawn_el0` does with the task that `build_el0` built, or with its error.
ended :
    (k k₁ : Kernel) (id : ℕ) (handles : HandleTable) (o : Built) (bind : Kernel → TaskRef → Kernel)
    → k₁.tasks ≡ set k.tasks id (record (task_at k id) { state = reserved })
    → k₁.generations ≡ k.generations
    → length k.tasks ≡ max_tasks
    → length k.generations ≡ max_tasks
    → 1 ≤ id
    → id < max_tasks
    → is_free k id ≡ true
    → ((p : Phys) → SameStates k (release (with_physical k₁ p) id))
    → BuildsFresh handles o
    → Starts handles true k bind (elim o [
      | not_built p e ↦ refused (release (with_physical k₁ p) id) e
      | built p task entry ↦
          (let (k₂, t) = install (with_physical k₁ p) id task bind in spawned k₂ t)
    ])
unfolding Starts BuildsFresh
ended k k₁ id handles (not_built p e) bind c g h hg a b f r new = r p
ended k k₁ id handles (built p task entry) bind c g h hg a b f r new =
    started handles true k (with_physical k₁ p) id task c g h hg a b f new bind

-- Starting a kernel task. A started task has a slot that was free, never slot 0, and the generation
-- after the one its slot had; it is ready in that slot, and no other slot has changed when `bind` runs.
-- Whatever the error, each slot is in the state it was in.
pub spawn-Starts :
    (k : Kernel) (entry : ℕ) (bind : Kernel → TaskRef → Kernel)
    → length k.tasks ≡ max_tasks
    → length k.generations ≡ max_tasks
    → Starts Handles.empty false k bind (spawn k entry bind)
unfolding spawn claim_slot reap_pending_frees Starts SameStates
spawn-Starts k entry bind h hg =
    let k₀ = reap_pending_frees k 0 in
    elim (Option-cases (find_free k₀ 1 15)) [
      | inl e ↦ rw (Starts, e) (λ i. refl)
      | inr (id, e) ↦
          (let (a, b, f) = find_free-some k₀ 1 15 id e in
            let lt : id < length k.tasks = subst (λ n. id < n) (sym h) b in
            elim (Option-cases
              (FrameAlloc.allocate_contiguous k₀.alloc (kernel_stack_size / 4096))) [
                | inl o ↦ rw (Starts, e, o) (released k (after_claim k₀ id) id lt f refl)
                | inr ((bottom, frames), o) ↦
                    rw (Starts, e, o)
                      (started Handles.empty false k _ id _ refl refl h hg a b f
                        (record {
                          is_ready = refl;
                          has_handles = refl;
                          no_wait = refl;
                          in_space = refl;
                        })
                        bind)
              ])
    ]

-- Starting a task from an image. A started task has a slot that was free, never slot 0, and the
-- generation after the one its slot had; in that slot it is ready, waits for nothing, and has the given
-- handles and an address space; no other slot has changed when `bind` runs on the table. Whatever the
-- error, of the slot, of memory or of the image, each slot is in the state it was in.
pub spawn_el0-Starts :
    (k : Kernel) (image : List ℕ) (handles : HandleTable) (arg0 arg1 : ℕ)
    (bind : Kernel → TaskRef → Kernel)
    → length k.tasks ≡ max_tasks
    → length k.generations ≡ max_tasks
    → Starts handles true k bind (spawn_el0 k image handles arg0 arg1 bind)
unfolding spawn_el0 claim_slot reap_pending_frees Starts SameStates
spawn_el0-Starts k image handles arg0 arg1 bind h hg =
    let k₀ = reap_pending_frees k 0 in
    elim (Option-cases (find_free k₀ 1 15)) [
      | inl e ↦ rw (Starts, e) (λ i. refl)
      | inr (id, e) ↦
          (let (a, b, f) = find_free-some k₀ 1 15 id e in
            let lt : id < length k.tasks = subst (λ n. id < n) (sym h) b in
            rw (Starts, e)
              (ended k (after_claim k₀ id) id handles
                (build_el0 k₀.geometry (physical (after_claim k₀ id)) id image handles arg0 arg1)
                bind refl refl h hg a b f
                (λ p. released k (with_physical (after_claim k₀ id) p) id lt f refl)
                (build_el0-BuildsFresh k₀.geometry (physical (after_claim k₀ id)) id image handles
                  arg0 arg1)))
    ]
