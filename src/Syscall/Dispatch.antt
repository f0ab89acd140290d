-- ===== src/Syscall/Dispatch.antt =====
-- `dispatch` of kernel/src/syscalls.rs, and the entry from the SVC exception in
-- kernel/src/arch/aarch64/syscall.rs.
use freshos.Base.{ℕ, ◌+◌, ◌*◌, true, false, none, some}
use freshos.Base.Int.{as_i64, as_u64}
use freshos.Abi.{Syscall, syscall_of, no_such_syscall}
use freshos.Machine.{load_word, store_word}
use freshos.Kernel.{Kernel}
use freshos.Context.{Fate, runs, panics, halts, switch_away}
use freshos.Context
use freshos.Syscall.{
  give, yields, exited, blocked, hand_off, Reply, reply, fail, send, recv, channel_create, exit,
}
use freshos.Syscall.Spawn.{Boot}
use freshos.Syscall.Spawn
use freshos.Syscall.Log.{Text, log}

-- The clock as a call reads it: each reading in order.
abbrev pub Clock : Type 0
Clock = ℕ → ℕ

-- The arguments of a call, x0 to x5; the calls read three of them.
pub record Args : Type 0 where
  pub x0 : ℕ
  pub x1 : ℕ
  pub x2 : ℕ

-- x0 is the first word of the frame.
abbrev pub set_x0 : Kernel → ℕ → ℕ → Kernel
set_x0 k frame value = record k { mem = store_word k.mem frame value }

-- The kernel that resumes, and the frame to restore.
unfoldable pub resume : ℕ → Reply → Fate (Kernel × ℕ)
resume frame r = elim r.outcome [
  | give value ↦ runs (set_x0 r.kernel frame (as_u64 value), frame)
  | yields ↦ switch_away (set_x0 r.kernel frame 0) frame
  | exited ↦ switch_away r.kernel frame
  | blocked ↦ switch_away r.kernel frame
  | hand_off task ↦ Context.hand_off (set_x0 r.kernel frame 0) frame task
]

unfoldable pub resume_fate : ℕ → Fate Reply → Fate (Kernel × ℕ)
unfolding resume
resume_fate frame (runs r) = resume frame r
resume_fate frame panics = panics
resume_fate frame halts = halts

module _ (boot : Boot) (text : Text) where
  unfoldable pub call : Kernel → Syscall → Args → Clock → Fate Reply
  call k Syscall.send a clock = runs (send k a.x0 a.x1 (clock 0) (clock 1))
  call k Syscall.recv a clock =
      runs (recv k a.x0 a.x1 a.x2 true (clock 0) (λ n. clock (n + 2)) (clock 1))
  call k Syscall.try_recv a clock =
      runs (recv k a.x0 a.x1 0 false (clock 0) (λ n. clock (n + 2)) (clock 1))
  call k Syscall.yield a clock = runs (reply k yields)
  call k Syscall.exit a clock = exit k a.x0 (clock 0) (clock 1)
  call k Syscall.time_ns a clock = runs (reply k (give (as_i64 (clock 0))))
  call k Syscall.log a clock = runs (log text k a.x0 a.x1)
  call k Syscall.channel_create a clock = runs (channel_create k)
  call k Syscall.spawn a clock = runs (Spawn.spawn boot k a.x0)

  unfoldable pub dispatch : Kernel → ℕ → Args → Clock → Fate Reply
  unfolding call
  dispatch k nr a clock = elim (syscall_of nr) [
    | none ↦ runs (fail k no_such_syscall)
    | some s ↦ call k s a clock
  ]

  unfoldable pub syscall_entry_arm : Kernel → ℕ → Clock → Fate (Kernel × ℕ)
  unfolding dispatch resume_fate
  syscall_entry_arm k frame clock =
      let args : Args = record {
        x0 = load_word k.mem frame;
        x1 = load_word k.mem (frame + 8);
        x2 = load_word k.mem (frame + 8 * 2);
      } in
      resume_fate frame (dispatch k (load_word k.mem (frame + 8 * 8)) args clock)
