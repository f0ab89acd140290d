-- ===== src/Context/Retire.antt =====
-- The end of a task: `retire_current` of kernel/src/arch/aarch64/context.rs.
pub mod Vacant
use freshos.Base.{ℕ, true, false, Option, none, some, List, [], ◌∷◌, leb, ◌==◌, ◌||◌, if◌then◌else◌}
use freshos.Abi.{
  ExitReason, TaskRef, Message, new_message, with_data, tag_task_exited, reason_code,
  rights_contains, rights_union, rights_recv,
}
use freshos.Handles.{Slot, occupied, get_slot, update}
use freshos.AddrSpace.{AddressSpace, drop_frames}
use freshos.Metrics.{max_tasks}
use freshos.Registry.{on_exit}
use freshos.Kernel.{Kernel, task_at, put_task}
use freshos.Kernel.Task.{empty_task, UserWait}
use freshos.Ipc.{cancel_waiter, receiver_exited, send_as_kernel, init_inbox, after, GiveBack}
use freshos.Context.{
  Fate, runs, panics, halts, check_canary, forget_hand_off, activate, queue_pending_free, recount,
  task_ref,
}

-- The waiter that an exiting task leaves is removed; its wait is gone.
unfoldable pub drop_wait : Kernel → ℕ → Option UserWait → Kernel
drop_wait k cur none = k
drop_wait k cur (some wait) =
    cancel_waiter (put_task k cur (record (task_at k cur) { wait = none })) wait.channel cur

-- The closure of the loop: the home slot takes the receive right back if it still names the channel.
unfoldable pub give_back : ℕ → ℕ → GiveBack
give_back cur channel k home home_slot =
    if leb max_tasks home || home == cur
    then (k, false)
    else (elim (get_slot (task_at k home).handles home_slot) [
      | none ↦ (k, false)
      | some slot ↦
          if slot.channel == channel
          then (let t = task_at k home in
              let slot' = record slot { rights = rights_union slot.rights rights_recv } in
              (put_task k home (record t { handles = update t.handles home_slot slot' }), true))
          else (k, false)
    ])

-- `for (_, slot) in handles.slots()`.
unfoldable pub send_rights_home : Kernel → ℕ → List (ℕ × Slot) → Kernel
send_rights_home k cur [] = k
send_rights_home k cur ((handle, slot) ∷ slots) =
    send_rights_home
      (if rights_contains slot.rights rights_recv
        then receiver_exited k slot.channel cur (give_back cur slot.channel)
        else k)
      cur slots

-- Drop the space: every frame goes back.
unfoldable pub drop_space : Kernel → Option AddressSpace → Kernel
drop_space k none = k
drop_space k (some space) = record k { alloc = drop_frames k.alloc space.frames }

unfoldable pub exit_notice : TaskRef → ExitReason → Message
exit_notice t reason =
    with_data (with_data (with_data (new_message tag_task_exited) 0 t.id) 1 (reason_code reason)) 2
      t.generation

-- Everything up to the stack's free: the task leaves the hand-off, its channels and its space.
unfoldable pub disconnect : Kernel → ℕ → Kernel
disconnect k cur =
    let k₁ = if k.donor == cur || k.target == cur then forget_hand_off k else k in
    let k₂ = drop_wait k₁ cur (task_at k₁ cur).wait in
    let k₃ = send_rights_home k₂ cur (occupied (task_at k₂ cur).handles) in
    let k₄ = activate k₃ k₃.kernel_ttbr0 in
    let t = task_at k₄ cur in put_task (drop_space k₄ t.space) cur (record t { space = none })

-- The slot is empty, the exit is charged and init is told.
unfoldable pub bury : Kernel → ℕ → ExitReason → ℕ → ℕ → Kernel
bury k cur reason now later =
    let k₁ = recount (put_task k cur empty_task) in
    let t = task_ref k₁ cur in
    let k₂ = record k₁ { registry = on_exit k₁.registry t reason } in
    after (send_as_kernel k₂ init_inbox (exit_notice t reason) now later)

unfoldable pub retire_current : Kernel → ExitReason → ℕ → ℕ → Fate Kernel
retire_current k reason now later =
    let cur : ℕ = k.current in
    if cur == 0
    then runs k
    else if check_canary k cur
    then (if cur == k.init_task
        then halts
        else (let k' = disconnect k cur in
            let t = task_at k' cur in
            elim (queue_pending_free k' t.kernel_stack_bottom t.kernel_stack_pages) [
              | none ↦ panics
              | some k'' ↦ runs (bury k'' cur reason now later)
            ]))
    else panics
