-- ===== src/Context/Retire/Vacant.antt =====
-- The slot of a task that has ended: `retire_current` of kernel/src/arch/aarch64/context.rs, down to
-- the notice that it sends through kernel/src/ipc.rs.
use freshos.Base.{
  ℕ, ◌≡◌, ◌≢◌, refl, sym, ap, subst, ◌∙◌, Bool, true, false, ◌&&◌, Option, none, some, arith, ltb,
  leb, ◌==◌, ◌||◌, if◌then◌else◌, get_or, set, get_or-set_ne, Bool-cases, Option-cases, inl, inr,
  List, [], ◌∷◌,
}
use freshos.Abi.{Message, ExitReason}
use freshos.Metrics.{note_task_unblocked, max_tasks}
use freshos.Kernel.{Kernel, task_at, put_channel, channel_at, max_channels}
use freshos.Kernel.Channel.{channel_cap}
use freshos.Kernel.Task.{Task, UserWait, empty_task, is_state, blocked}
use freshos.Wait.{has_user_wait, finish_recv, complete_user_recv, unblock}
use freshos.Ipc.{
  Result, ok, after, channel_mut, pending, park, post, wake, deliver_or_wake, dequeue, send_from,
  send_as_kernel, init_inbox,
}
use freshos.Context.{runs, panics, halts, check_canary, queue_pending_free}
use freshos.Context.Retire.{retire_current, bury, disconnect}

-- The slot `i` holds no task, no handles, no space and no wait.
abbrev IsVacant : ℕ → Kernel → Type 0
IsVacant i k = task_at k i ≡ empty_task

-- Writing an empty task leaves an empty slot, also out of range.
set_vacant : (ts : List Task) (i : ℕ) → get_or (set ts i empty_task) i empty_task ≡ empty_task
set_vacant [] i = refl
set_vacant (t ∷ ts) ℕ.zero = refl
set_vacant (t ∷ ts) (ℕ.suc i) = set_vacant ts i

module _ (i : ℕ) where
  finish_recv-IsVacant :
      (k : Kernel) (task : ℕ) (m : Message) (w : Option UserWait)
      → (task_at k task).wait ≡ w
      → IsVacant i k
      → IsVacant i (finish_recv k task m w)
  unfolding finish_recv
  finish_recv-IsVacant k task m none e h = h
  finish_recv-IsVacant k task m (some w) e h = elim (Bool-cases (task == i)) [
    | inl b ↦
        (let c : task ≡ i = ground arith in
          let q : none ≡ some w =
            sym (ap (λ t. t.wait) h) ∙ (ap (λ j. (task_at k j).wait) (sym c) ∙ e) in
          absurd cc)
    | inr b ↦
        (let ne : task ≢ i = ground (arith, b) in get_or-set_ne k.tasks task i _ empty_task ne ∙ h)
  ]

  unblock-IsVacant : (k : Kernel) (task : ℕ) → IsVacant i k → IsVacant i (unblock k task)
  unfolding unblock
  unblock-IsVacant k task h = elim (Bool-cases (task == i)) [
    | inl b ↦
        (let c : task ≡ i = ground arith in
          let q : is_state (task_at k task).state blocked ≡ false =
            ap (λ j. is_state (task_at k j).state blocked) c
            ∙ ap (λ t. is_state t.state blocked) h in
          rw q (ground (arith, h)))
    | inr b ↦
        (let ne : task ≢ i = ground (arith, b) in
          elim (Bool-cases (ltb task max_tasks && is_state (task_at k task).state blocked)) [
            | inl y ↦ rw (unblock, y) (get_or-set_ne k.tasks task i _ empty_task ne ∙ h)
            | inr n ↦ rw (unblock, n) h
          ])
  ]

  -- Both branches of a test leave the slot vacant.
  either :
      {A : Type 0} (b : Bool) (x y : Result A)
      → IsVacant i (after x)
      → IsVacant i (after y)
      → IsVacant i (after (if b then x else y))
  either true x y hx hy = hx
  either false x y hx hy = hy

  dequeue-IsVacant : (k : Kernel) (id now : ℕ) → IsVacant i k → IsVacant i (dequeue k id now).1
  unfolding dequeue
  dequeue-IsVacant k id now h = elim (Bool-cases ((channel_at k id).count == 0)) [
    | inl e ↦ rw (dequeue, e) h
    | inr e ↦ rw (dequeue, e) h
  ]

  deliver_or_wake-IsVacant :
      (task : ℕ) (k : Kernel) (o : Option Message)
      → IsVacant i k
      → IsVacant i (after (deliver_or_wake task (o, k)))
  unfolding deliver_or_wake complete_user_recv
  deliver_or_wake-IsVacant task k none h = unblock-IsVacant k task h
  deliver_or_wake-IsVacant task k (some m) h =
      finish_recv-IsVacant k task m (task_at k task).wait refl h

  wake-IsVacant :
      (k : Kernel) (id now later : ℕ) (o : Option ℕ)
      → IsVacant i k
      → IsVacant i (after (wake k id now later o))
  unfolding wake
  wake-IsVacant k id now later none h = h
  wake-IsVacant k id now later (some t) h =
      let k₂ = record (put_channel k id (record (channel_at k id) { waiter = none })) {
        metrics = note_task_unblocked k.metrics t now;
      } in
      let d = dequeue k₂ id later in
      either (has_user_wait k₂ t) (deliver_or_wake t d) (ok (unblock k₂ t) none)
        (deliver_or_wake-IsVacant t d.1 d.0 (dequeue-IsVacant k₂ id later h))
        (unblock-IsVacant k₂ t h)

  send_from-IsVacant :
      (k : Kernel) (s id : ℕ) (m : Message) (now later : ℕ)
      → IsVacant i k
      → IsVacant i (after (send_from k s id m now later))
  unfolding send_from post
  send_from-IsVacant k s id m now later h =
      let w = wake-IsVacant (post k s id m now) id now later (channel_at k id).waiter h in
      either (leb max_channels id) _ _ h (
        either (channel_at k id).active _ _
          (either (leb channel_cap (channel_at k id).count) _ _ h w) h)

  park-IsVacant :
      (k : Kernel) (o : Option (List (ℕ × Message))) → IsVacant i k → IsVacant i (after (park k o))
  unfolding park
  park-IsVacant k none h = h
  park-IsVacant k (some entries) h = h

  send_as_kernel-IsVacant :
      (k : Kernel) (id : ℕ) (m : Message) (now later : ℕ)
      → IsVacant i k
      → IsVacant i (after (send_as_kernel k id m now later))
  unfolding send_as_kernel
  send_as_kernel-IsVacant k id m now later h = elim (Option-cases (channel_mut k id)) [
    | inl e ↦ rw (send_as_kernel, e) h
    | inr (ch, e) ↦
        rw (send_as_kernel, e)
          (either (leb channel_cap ch.count || pending k.backlog id) _ _ (park-IsVacant k _ h)
            (send_from-IsVacant k 0 id m now later h))
  ]

bury-IsVacant :
    (k : Kernel) (cur : ℕ) (reason : ExitReason) (now later : ℕ)
    → IsVacant cur (bury k cur reason now later)
unfolding bury
bury-IsVacant k cur reason now later =
    send_as_kernel-IsVacant cur _ init_inbox _ now later (set_vacant k.tasks cur)

-- A task that has retired leaves its slot vacant: free, with no handles, no space and no wait, whatever
-- the exit notice wakes.
pub retire_current-IsVacant :
    (k : Kernel) (reason : ExitReason) (now later : ℕ) (k' : Kernel)
    → k.current ≢ 0
    → retire_current k reason now later ≡ runs k'
    → task_at k' k.current ≡ empty_task
unfolding retire_current
retire_current-IsVacant k reason now later k' ne e =
    let c : (k.current == 0) ≡ false = ground (arith, ne) in
    elim (Bool-cases (check_canary k k.current)) [
      | inr f ↦ absurd (let q : panics ≡ runs k' = rw (retire_current, c, f) at e in cc)
      | inl f ↦ elim (Bool-cases (k.current == k.init_task)) [
        | inl g ↦ absurd (let q : halts ≡ runs k' = rw (retire_current, c, f, g) at e in cc)
        | inr g ↦
            (let k₁ = disconnect k k.current in
              let t = task_at k₁ k.current in
              elim (Option-cases
                (queue_pending_free k₁ t.kernel_stack_bottom t.kernel_stack_pages)) [
                  | inl o ↦
                      absurd (let q : panics ≡ runs k' = rw (retire_current, c, f, g, o) at e in cc)
                  | inr (k₂, o) ↦
                      (let q : runs (bury k₂ k.current reason now later) ≡ runs k' =
                          rw (retire_current, c, f, g, o) at e in
                        let b : bury k₂ k.current reason now later ≡ k' = cc in
                        subst (IsVacant k.current) b (bury-IsVacant k₂ k.current reason now later))
                ])
      ]
    ]
