-- ===== src/Wait.antt =====
-- The part of kernel/src/arch/aarch64/context.rs that the IPC code calls: waits in the recv syscall
-- and blocked tasks.
use freshos.Base.{ℕ, Bool, Option, none, some, ltb, ◌&&◌, if◌then◌else◌, is_some}
use freshos.Base.Int.{ℤ, pos, as_u64}
use freshos.Abi.{bad_pointer, not_permitted, code, Message}
use freshos.Machine.{Memory, store_word}
use freshos.AddrSpace.{AddressSpace, write_user, message_bytes, message_align}
use freshos.Metrics.{max_tasks}
use freshos.Kernel.{Kernel, task_at, put_task}
use freshos.Kernel.Task.{UserWait, ready, blocked, is_state}

unfoldable pub has_user_wait : Kernel → ℕ → Bool
has_user_wait k task = ltb task max_tasks && is_some (task_at k task).wait

-- x0 is the first word of a saved frame.
unfoldable pub set_saved_x0 : Memory → ℕ → ℤ → Memory
unfolding store_word
set_saved_x0 m frame value = store_word m frame (as_u64 value)

-- Memory and result of delivering `message` into `buf` of a space.
unfoldable pub deliver : Memory → Option AddressSpace → ℕ → Message → Memory × ℤ
unfolding write_user message_bytes code
deliver m none buf message = (m, code not_permitted)
deliver m (some space) buf message =
    elim (write_user m space buf (message_bytes message) message_align) [
      | none ↦ (m, code bad_pointer)
      | some m' ↦ (m', pos 0)
    ]

unfoldable pub finish_recv : Kernel → ℕ → Message → Option UserWait → Kernel
unfolding deliver set_saved_x0
finish_recv k task message none = k
finish_recv k task message (some wait) =
    let t = task_at k task in
    let (m, result) = deliver k.mem t.space wait.buf message in
    record (put_task k task (record t { wait = none; state = ready })) {
      mem = set_saved_x0 m t.sp result;
    }

-- Finish the recv of `task`: copy, set its result, make it ready.
unfoldable pub complete_user_recv : Kernel → ℕ → Message → Kernel
unfolding finish_recv
complete_user_recv k task message = finish_recv k task message (task_at k task).wait

unfoldable pub unblock : Kernel → ℕ → Kernel
unblock k task_id =
    let t = task_at k task_id in
    if ltb task_id max_tasks && is_state t.state blocked
    then put_task k task_id (record t { state = ready })
    else k

-- Block the current task in recv.
unfoldable pub set_user_wait : Kernel → ℕ → ℕ → ℕ → Kernel
set_user_wait k channel buf deadline_ns =
    let t = task_at k k.current in
    put_task k k.current (record t {
      wait = some (record { channel = channel; buf = buf; deadline_ns = deadline_ns });
      state = blocked;
    })
