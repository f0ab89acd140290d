-- ===== src/Context.antt =====
-- kernel/src/arch/aarch64/context.rs: the scheduler. Each function runs with interrupts masked and is
-- one step on the kernel's state. A panic and a halt are outcomes.
pub mod Switch
pub mod Fairness
pub mod Fresh
pub mod Slots
pub mod Returns
pub mod Ticks
pub mod Turns
pub mod Spawn
pub mod Retire
use freshos.Base.{
  ℕ, zero, suc, ◌+◌, ◌-◌, ◌*◌, ◌/◌, ◌%◌, ◌^◌, Bool, true, false, not, ◌&&◌, ◌||◌, Option, none,
  some, List, [], ◌∷◌, ltb, leb, ◌==◌, if◌then◌else◌, get_or, set, replicate,
}
use freshos.Base.Int.{ℤ}
use freshos.Abi.{
  ExitReason, TaskRef, Message, new_message, with_data, tag_task_exited, reason_code,
  rights_contains, rights_union, rights_recv, code, timeout, user_base, user_size, user_stack_size,
}
use freshos.Machine.{Memory, load_word, store_word, fill_words}
use freshos.FrameAlloc
use freshos.Handles.{HandleTable, Slot, occupied, get_slot}
use freshos.Handles
use freshos.AddrSpace.{
  AddressSpace, Phys, Perm, read_write, page_size, new_space, map_new_page, ttbr0, drop_frames,
}
use freshos.AddrSpace
use freshos.Metrics.{max_tasks}
use freshos.Registry.{on_exit}
use freshos.Kernel.{Kernel, no_hand_off, task_at, put_task}
use freshos.Kernel.Task.{
  Task, State, free, reserved, ready, running, blocked, is_state, empty_task, PendingFree,
  empty_pending, UserWait,
}
use freshos.Wait.{set_saved_x0}
use freshos.Ipc.{cancel_waiter, receiver_exited, send_as_kernel, init_inbox, after, GiveBack}
use freshos.Elf.{ElfError, load_into, Loaded, loaded, failed}

abbrev pub kernel_stack_size : ℕ
kernel_stack_size = 4096 * 8

abbrev pub canary : ℕ
canary = 0x57AC_C0DE_57AC_C0DE

abbrev pub canary_words : ℕ
canary_words = 8

-- Eight bytes of PAINT, 0xA5.
abbrev pub painted : ℕ
painted = 0xA5A5_A5A5_A5A5_A5A5

abbrev pub saved_frame_size : ℕ
saved_frame_size = 816

-- What a step of the scheduler comes to.
pub data Fate {ℓ} (A : Type ℓ) : Type ℓ where
  runs : A → Fate A
  panics : Fate A
  halts : Fate A

-- The generation of a slot; 0 out of range.
unfoldable pub task_ref : Kernel → ℕ → TaskRef
task_ref k id = record { id = id % 2 ^ 16; generation = get_or k.generations id 0 }

-- `for i in i..i + n`: write the canary, or check it.
unfoldable pub write_canary : Memory → ℕ → ℕ → ℕ → Memory
write_canary m bottom i zero = m
write_canary m bottom i (suc n) =
    write_canary (store_word m (bottom + 8 * i) canary) bottom (i + 1) n

unfoldable pub canary_intact : Memory → ℕ → ℕ → ℕ → Bool
canary_intact m bottom i zero = true
canary_intact m bottom i (suc n) =
    load_word m (bottom + 8 * i) == canary && canary_intact m bottom (i + 1) n

unfoldable pub prepare_stack : Memory → ℕ → Memory
prepare_stack m bottom =
    write_canary (fill_words m bottom (kernel_stack_size / 8) painted) bottom 0 canary_words

-- `false`: the kernel panics.
unfoldable pub check_canary : Kernel → ℕ → Bool
check_canary k id =
    let t = task_at k id in
    if is_state t.state free || t.kernel_stack_pages == 0
    then true
    else canary_intact k.mem t.kernel_stack_bottom 0 canary_words

-- `take_while(painted).count()` from word `i` on.
unfoldable pub untouched : Memory → ℕ → ℕ → ℕ → ℕ
untouched m base i zero = 0
untouched m base i (suc n) =
    let rest = untouched m base (i + 1) n in
    if load_word m (base + 8 * i) == painted then rest + 1 else 0

unfoldable pub stack_peak : Kernel → ℕ → Option ℕ
stack_peak k task =
    let t = task_at k task in
    let words : ℕ = kernel_stack_size / 8 in
    if leb max_tasks task
    then none
    else if is_state t.state free || is_state t.state reserved || t.kernel_stack_pages == 0
    then none
    else some (
        kernel_stack_size
        - (canary_words + untouched k.mem t.kernel_stack_bottom canary_words (words - canary_words))
          * 8)

unfoldable pub activate : Kernel → ℕ → Kernel
activate k ttbr = if k.active_ttbr0 == ttbr then k else record k { active_ttbr0 = ttbr }

unfoldable pub forget_hand_off : Kernel → Kernel
forget_hand_off k = record k { donor = no_hand_off; target = no_hand_off }

-- The kernel that has made `next` the running task; its saved frame is returned.
unfoldable pub run : Kernel → ℕ → Kernel × ℕ
run k next =
    let t = task_at k next in
    (
      activate (record (put_task k next (record t { state = running })) { current = next }) t.ttbr0,
      t.sp,
    )

-- The outgoing task's frame is saved; if it was running it is ready.
unfoldable pub save_current : Kernel → ℕ → Kernel
save_current k frame =
    let t = task_at k k.current in
    put_task k k.current (record t {
      sp = if is_state t.state free then t.sp else frame;
      state = if is_state t.state running then ready else t.state;
    })

abbrev pub is_ready : Kernel → ℕ → Bool
is_ready k id = is_state (task_at k id).state ready

-- `(step..step + n).map(|step| (cur + step) % MAX_TASKS).find(ready)`.
unfoldable pub find_ready : Kernel → ℕ → ℕ → ℕ → Option ℕ
find_ready k cur step zero = none
find_ready k cur step (suc n) =
    let rest = find_ready k cur (step + 1) n in
    if is_ready k ((cur + step) % max_tasks) then some ((cur + step) % max_tasks) else rest

abbrev pub or_idle : Option ℕ → ℕ
or_idle none = 0
or_idle (some id) = id

-- Whether the sender of the hand-off that ran the current task runs next.
unfoldable pub returning : Kernel → Bool
returning k =
    k.target == k.current
    && is_state (task_at k k.current).state blocked
    && ltb k.donor max_tasks
    && is_ready k k.donor

-- The task that runs next, once the current one is saved.
unfoldable pub next_task : Kernel → ℕ
next_task k = if returning k then k.donor else or_idle (find_ready k k.current 1 max_tasks)

unfoldable pub switch_away : Kernel → ℕ → Fate (Kernel × ℕ)
switch_away k frame =
    if check_canary k k.current
    then (let saved = save_current k frame in runs (run (forget_hand_off saved) (next_task saved)))
    else panics

unfoldable pub hand_off : Kernel → ℕ → ℕ → Fate (Kernel × ℕ)
hand_off k frame target_id =
    if leb max_tasks target_id || not (is_ready k target_id)
    then switch_away k frame
    else if check_canary k k.current
    then runs
        (run (record (save_current k frame) { donor = k.current; target = target_id }) target_id)
    else panics

-- One round of the loop of `expire_waits`, on a task whose wait is given.
unfoldable pub expire : Kernel → ℕ → ℕ → Option UserWait → Kernel
expire k now_ns id none = k
expire k now_ns id (some wait) =
    if not (wait.deadline_ns == 0) && leb wait.deadline_ns now_ns
    then (let k' = cancel_waiter k wait.channel id in
        let t = task_at k' id in
        record (put_task k' id (record t { wait = none; state = ready })) {
          mem = set_saved_x0 k'.mem t.sp (code timeout);
        })
    else k

-- `for id in id..id + n`.
unfoldable pub expire_from : Kernel → ℕ → ℕ → ℕ → Kernel
expire_from k now_ns id zero = k
expire_from k now_ns id (suc n) =
    expire_from (expire k now_ns id (task_at k id).wait) now_ns (id + 1) n

unfoldable pub expire_waits : Kernel → ℕ → Kernel
expire_waits k now_ns = expire_from k now_ns 1 (max_tasks - 1)

-- Free the stacks that wait, but not the one in use.
unfoldable pub reap :
    FrameAlloc.Frames → ℕ → List PendingFree → FrameAlloc.Frames × List PendingFree
reap a sp [] = (a, [])
reap a sp (slot ∷ slots) =
    let on_stack : Bool =
      ltb 0 slot.kernel_stack_pages
      && leb slot.kernel_stack_bottom sp
      && ltb sp (slot.kernel_stack_bottom + slot.kernel_stack_pages * 4096) in
    let keep : Bool = not slot.used || on_stack in
    let a' =
      if keep || slot.kernel_stack_pages == 0
      then a
      else FrameAlloc.deallocate_contiguous a slot.kernel_stack_bottom slot.kernel_stack_pages in
    let (a'', rest) = reap a' sp slots in (a'', (if keep then slot else empty_pending) ∷ rest)

unfoldable pub reap_pending_frees : Kernel → ℕ → Kernel
reap_pending_frees k sp =
    let (a, pending) = reap k.alloc sp k.pending_frees in
    record k { alloc = a; pending_frees = pending }

-- `none`: the queue is full, and the kernel panics.
unfoldable pub fill_pending : PendingFree → List PendingFree → Option (List PendingFree)
fill_pending p [] = none
fill_pending p (slot ∷ slots) =
    let rest = fill_pending p slots in
    if slot.used then (elim rest [ none ↦ none | some r ↦ some (slot ∷ r) ]) else some (p ∷ slots)

unfoldable pub queue_pending_free : Kernel → ℕ → ℕ → Option Kernel
queue_pending_free k bottom pages =
    if pages == 0
    then some k
    else elim (fill_pending
        (record { kernel_stack_bottom = bottom; kernel_stack_pages = pages; used = true })
        k.pending_frees) [
          | none ↦ none
          | some pending ↦ some (record k { pending_frees = pending })
        ]

-- The timer interrupt, between the acknowledgement and the end of the interrupt at the controller.
unfoldable pub scheduler_tick : Kernel → ℕ → ℕ → Fate (Kernel × ℕ)
scheduler_tick k sp now_ns =
    switch_away (forget_hand_off (expire_waits (reap_pending_frees k sp) now_ns)) sp

-- `(id..id + n).find(free)`.
unfoldable pub find_free : Kernel → ℕ → ℕ → Option ℕ
find_free k id zero = none
find_free k id (suc n) =
    let rest = find_free k (id + 1) n in
    if is_state (task_at k id).state free then some id else rest

unfoldable pub claim_slot : Kernel → Option (ℕ × Kernel)
claim_slot k = elim (find_free k 1 (max_tasks - 1)) [
  | none ↦ none
  | some id ↦ some (id, put_task k id (record (task_at k id) { state = reserved }))
]

unfoldable pub release : Kernel → ℕ → Kernel
release k id = put_task k id empty_task

-- The tasks that are neither free nor reserved.
unfoldable pub count_tasks : List Task → ℕ
count_tasks [] = 0
count_tasks (t ∷ ts) =
    (if is_state t.state free || is_state t.state reserved then 0 else 1) + count_tasks ts

abbrev pub recount : Kernel → Kernel
recount k = record k { count = count_tasks k.tasks }

-- `bind` runs in the same step; what it does is an argument.
unfoldable pub install : Kernel → ℕ → Task → (Kernel → TaskRef → Kernel) → Kernel × TaskRef
install k id task bind =
    let k' = record (put_task k id task) {
      generations = set k.generations id ((get_or k.generations id 0 + 1) % 2 ^ 32);
    } in
    let t = task_ref k' id in (recount (bind k' t), t)
