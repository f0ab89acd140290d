-- ===== src/Kernel/Task.antt =====
-- `Task`, `UserWait` and `PendingFree` of kernel/src/arch/aarch64/context.rs.
use freshos.Base.{ℕ, Bool, true, false, Option, none}
use freshos.Handles.{HandleTable}
use freshos.Handles
use freshos.AddrSpace.{AddressSpace}

pub data State : Type 0 where
  free reserved ready running blocked : State

abbrev pub is_state : State → State → Bool
is_state State.free State.free = true
is_state State.reserved State.reserved = true
is_state State.ready State.ready = true
is_state State.running State.running = true
is_state State.blocked State.blocked = true
is_state s t = false

-- A task blocked in the recv syscall; a deadline of 0 is none.
pub record UserWait : Type 0 where
  pub channel : ℕ
  pub buf : ℕ
  pub deadline_ns : ℕ

pub record Task : Type 0 where
  pub sp : ℕ
  pub kernel_stack_bottom : ℕ
  pub kernel_stack_pages : ℕ
  pub ttbr0 : ℕ
  pub space : Option AddressSpace
  pub handles : HandleTable
  pub wait : Option UserWait
  pub state : State

abbrev pub empty_task : Task
empty_task = record {
  sp = 0;
  kernel_stack_bottom = 0;
  kernel_stack_pages = 0;
  ttbr0 = 0;
  space = none;
  handles = Handles.empty;
  wait = none;
  state = State.free;
}

pub record PendingFree : Type 0 where
  pub kernel_stack_bottom : ℕ
  pub kernel_stack_pages : ℕ
  pub used : Bool

abbrev pub empty_pending : PendingFree
empty_pending = record { kernel_stack_bottom = 0; kernel_stack_pages = 0; used = false }
