-- ===== src/Context/Returns.antt =====
-- The return of a hand-off: `hand_off`, `set_user_wait` and `switch_away` of
-- kernel/src/arch/aarch64/context.rs, one after the other.
use freshos.Base.{
  some, ℕ, ◌<◌, ◌≡◌, ◌≢◌, refl, sym, ap, subst, ◌∙◌, true, false, arith, ltb, leb, ◌==◌,
  if◌then◌else◌, length-set, get_or-set, Bool-cases, inl, inr,
}
use freshos.Metrics.{max_tasks}
use freshos.Kernel.{Kernel, task_at}
use freshos.Kernel.Task.{empty_task, ready, running, blocked, is_state}
use freshos.Wait.{set_user_wait}
use freshos.Context.{
  runs, run, activate, save_current, is_ready, returning, next_task, switch_away, hand_off,
  check_canary,
}
use freshos.Context.Switch.{IsScheduled, save_current-at, saved_task}
use freshos.Context.Turns.{Turns, switch_away-Turns, hand_off_turns}

run-donor : (k : Kernel) (n : ℕ) → ((run k n).0.donor ≡ k.donor) × ((run k n).0.target ≡ k.target)
unfolding run activate
run-donor k n = (ground arith, ground arith)

-- The fields of the hand-off, after one to a ready task.
hand_off_fields :
    (k : Kernel) (frame t : ℕ) (k' : Kernel) (sp : ℕ)
    → t < max_tasks
    → is_ready k t ≡ true
    → hand_off k frame t ≡ runs (k', sp)
    → (check_canary k k.current ≡ true) × (k'.donor ≡ k.current) × (k'.target ≡ t)
unfolding hand_off
hand_off_fields k frame t k' sp lt r e =
    let c : leb max_tasks t ≡ false = ground arith in
    elim (Bool-cases (check_canary k k.current)) [
      | inr f ↦ absurd (ground (arith, c, r, e, f))
      | inl f ↦
          (let h = record (save_current k frame) { donor = k.current; target = t } in
            let q : hand_off k frame t ≡ runs (run h t) = rw (c, r, f) refl in
            let p : run h t ≡ (k', sp) = cc in
            let (d, g) = run-donor h t in
            (f, ap (λ x. x.0.donor) (sym p) ∙ d, ap (λ x. x.0.target) (sym p) ∙ g))
    ]

blocked_at :
    (k : Kernel) (ch buf dl j : ℕ)
    → IsScheduled k
    → task_at (set_user_wait k ch buf dl) j ≡ (
        if k.current == j
        then record (task_at k k.current) {
          wait = some (record { channel = ch; buf = buf; deadline_ns = dl });
          state = blocked;
        }
        else task_at k j)
unfolding set_user_wait
blocked_at k ch buf dl j h =
    get_or-set k.tasks k.current j _ empty_task
      (subst (λ n. k.current < n) (sym h.slots) h.in_bounds)

blocked-IsScheduled :
    (k : Kernel) (ch buf dl : ℕ) → IsScheduled k → IsScheduled (set_user_wait k ch buf dl)
unfolding set_user_wait
blocked-IsScheduled k ch buf dl h = record {
  slots = length-set k.tasks k.current _ ∙ h.slots;
  in_bounds = h.in_bounds;
  single = λ i r. elim (Bool-cases (k.current == i)) [
    | inl b ↦ (let c : k.current ≡ i = ground arith in sym c)
    | inr b ↦
        (let at : task_at (set_user_wait k ch buf dl) i ≡ task_at k i =
            blocked_at k ch buf dl i h ∙ rw b refl in
          h.single i (subst (λ t. is_state t.state running ≡ true) at r))
  ];
}

saved_fields :
    (k : Kernel) (frame : ℕ)
    → let s = save_current k frame in
      (s.target ≡ k.target) × (s.current ≡ k.current) × (s.donor ≡ k.donor)
unfolding save_current
saved_fields k frame = (refl, refl, refl)

-- When a task with a hand-off to it blocks while its donor is ready, its donor runs next.
donor_next :
    (k : Kernel) (frame : ℕ)
    → IsScheduled k
    → (task_at k k.current).state ≡ blocked
    → k.target ≡ k.current
    → k.donor < max_tasks
    → k.donor ≢ k.current
    → is_ready k k.donor ≡ true
    → next_task (save_current k frame) ≡ k.donor
unfolding next_task returning
donor_next k frame h b t lt ne r =
    let s = save_current k frame in
    let self : task_at s k.current ≡ saved_task (task_at k k.current) frame =
      save_current-at k frame k.current h ∙ ground arith in
    let other : task_at s k.donor ≡ task_at k k.donor =
      save_current-at k frame k.donor h ∙ ground (arith, ne) in
    let (et, ec, ed) = saved_fields k frame in
    let a : (s.target == s.current) ≡ true = ground (arith, et, ec, t) in
    let b' : is_state (task_at s s.current).state blocked ≡ true = rw (ec, self, b) refl in
    let c : ltb s.donor max_tasks ≡ true = ground (arith, ed, lt) in
    let d : is_ready s s.donor ≡ true = rw (ed, other) r in rw (a, b', c, d) ed

-- The hand-off to a ready task, once it has ended.
handed :
    (k : Kernel) (frame t : ℕ) (k' : Kernel) (sp : ℕ)
    → IsScheduled k
    → check_canary k k.current ≡ true
    → t < max_tasks
    → is_ready k t ≡ true
    → hand_off k frame t ≡ runs (k', sp)
    → (k'.current ≡ t) × Turns k frame k' sp
handed k frame t k' sp h cn lt r e =
    let (k₁, sp₁, e₁, ec, turn) = hand_off_turns k frame t h cn in
    let lt' : ltb t max_tasks ≡ true = ground arith in
    let c : k₁ ≡ k' = cc in
    let c' : sp₁ ≡ sp = cc in
    (
      sym (ap (λ x. x.current) c) ∙ (ec ∙ rw (lt', r) refl),
      subst (λ x. Turns k frame x sp) c (subst (Turns k frame k₁) c' turn),
    )

wait_fields :
    (k : Kernel) (ch buf dl : ℕ)
    → let s = set_user_wait k ch buf dl in
      (s.target ≡ k.target) × (s.current ≡ k.current) × (s.donor ≡ k.donor)
unfolding set_user_wait
wait_fields k ch buf dl = (refl, refl, refl)

-- The task that blocks in recv was handed the CPU by the donor: the donor runs, where it was saved.
wait_returns :
    (k : Kernel) (ch buf dl frame : ℕ) (k' : Kernel) (sp : ℕ)
    → IsScheduled k
    → k.target ≡ k.current
    → k.donor ≢ k.current
    → k.donor < max_tasks
    → is_ready k k.donor ≡ true
    → switch_away (set_user_wait k ch buf dl) frame ≡ runs (k', sp)
    → (k'.current ≡ k.donor) × (sp ≡ (task_at k k.donor).sp)
wait_returns k ch buf dl frame k' sp h t ne lt r e =
    let s = set_user_wait k ch buf dl in
    let hs = blocked-IsScheduled k ch buf dl h in
    let (et, ec, ed) = wait_fields k ch buf dl in
    let (en, turn) = switch_away-Turns s frame k' sp hs e in
    let self : (task_at s s.current).state ≡ blocked =
      ap (λ j. (task_at s j).state) ec
      ∙ (ap (λ x. x.state) (blocked_at k ch buf dl k.current h) ∙ ground arith) in
    let other : task_at s k.donor ≡ task_at k k.donor =
      blocked_at k ch buf dl k.donor h ∙ ground (arith, ne) in
    let next : k'.current ≡ s.donor =
      en
      ∙ donor_next s frame hs self (et ∙ (t ∙ sym ec)) (rw ed lt) (λ c. ne (sym ed ∙ (c ∙ ec)))
          (rw (ed, other) r) in
    let away : k'.current ≢ s.current = λ c. ne (sym ed ∙ (sym next ∙ (c ∙ ec))) in
    (next ∙ ed, turn.resumes away ∙ (ap (λ j. (task_at s j).sp) (next ∙ ed) ∙ ap (λ x. x.sp) other))

-- Sender-return. A running task hands the CPU to a ready one, which blocks in the recv syscall without
-- another switch in between. If neither switch panics, the sender runs next, although other tasks may
-- be ready, and resumes at the frame it was saved with.
pub hand_off_returns :
    (k : Kernel) (frame t : ℕ) (k' : Kernel) (sp ch buf dl frame' : ℕ) (k'' : Kernel) (sp' : ℕ)
    → IsScheduled k
    → (task_at k k.current).state ≡ running
    → t < max_tasks
    → is_ready k t ≡ true
    → hand_off k frame t ≡ runs (k', sp)
    → switch_away (set_user_wait k' ch buf dl) frame' ≡ runs (k'', sp')
    → (k''.current ≡ k.current) × (sp' ≡ frame)
hand_off_returns k frame t k' sp ch buf dl frame' k'' sp' h hr lt r e e' =
    let (cn, ed, et) = hand_off_fields k frame t k' sp lt r e in
    let (ec, turn) = handed k frame t k' sp h cn lt r e in
    let ne : k.current ≢ t = λ c.
      let q : is_state running ready ≡ true =
        subst (λ x. is_state x ready ≡ true) hr (subst (λ j. is_ready k j ≡ true) (sym c) r) in
      cc in
    let donor_task : task_at k' k'.donor ≡ saved_task (task_at k k.current) frame =
      ap (task_at k') ed ∙ turn.saves (λ c. ne (sym c ∙ ec)) in
    let r' : is_ready k' k'.donor ≡ true = rw (donor_task, hr) refl in
    let (en, es) =
      wait_returns k' ch buf dl frame' k'' sp' turn.scheduled (et ∙ sym ec)
        (λ c. ne (sym ed ∙ (c ∙ ec))) (rw ed h.in_bounds) r' e' in
    (en ∙ ed, es ∙ (ap (λ x. x.sp) donor_task ∙ rw hr refl))
