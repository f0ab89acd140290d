-- ===== src/Kernel.antt =====
-- The kernel's state: the statics of kernel/src/ipc.rs and kernel/src/arch/aarch64/context.rs, with
-- the registry, the metrics, the frame allocator and memory. One CPU runs it, and every operation
-- below holds an `IrqGuard` or runs in exception context, so an operation is one step on this state.
-- Clock readings are arguments.
pub mod Channel
pub mod Trace
pub mod Task
use freshos.Base.{
  ℕ, List, Option, some, none, length, get_or, set, replicate, if◌then◌else◌, leb, ◌^◌, ◌-◌,
}
use freshos.Abi.{Message}
use freshos.Metrics.{Metrics, max_tasks}
use freshos.Registry.{Registry}
use freshos.FrameAlloc.{Frames}
use freshos.Machine.{Memory}
use freshos.AddrSpace.{Geometry}
use Channel.{empty_channel}
use Trace.{TraceBuffer}
use Task.{empty_task, PendingFree}

abbrev pub max_channels : ℕ
max_channels = 32

-- `usize::MAX`: no hand-off to return from.
abbrev pub no_hand_off : ℕ
no_hand_off = 2 ^ 64 - 1

pub record Kernel : Type 0 where
  -- ipc.rs
  pub channels : List Channel.Channel
  pub next_id : ℕ
  pub backlog : List (ℕ × Message)
  pub trace : TraceBuffer
  -- context.rs
  pub tasks : List Task.Task
  pub pending_frees : List PendingFree
  pub current : ℕ
  pub donor : ℕ
  pub target : ℕ
  pub count : ℕ
  pub init_task : ℕ
  pub generations : List ℕ
  pub kernel_ttbr0 : ℕ
  -- TTBR0_EL1, the register that `activate` writes.
  pub active_ttbr0 : ℕ
  -- the rest
  pub registry : Registry
  pub metrics : Metrics
  pub alloc : Frames
  pub mem : Memory
  pub geometry : Geometry

abbrev pub task_at : Kernel → ℕ → Task.Task
task_at k id = get_or k.tasks id empty_task

abbrev pub put_task : Kernel → ℕ → Task.Task → Kernel
put_task k id t = record k { tasks = set k.tasks id t }

abbrev pub channel_at : Kernel → ℕ → Channel.Channel
channel_at k id = get_or k.channels id empty_channel

abbrev pub put_channel : Kernel → ℕ → Channel.Channel → Kernel
put_channel k id c = record k { channels = set k.channels id c }
