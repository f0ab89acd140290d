-- ===== src/Context/Spawn.antt =====
-- Starting tasks: `spawn`, `build_el0` and `spawn_el0` of kernel/src/arch/aarch64/context.rs. Between
-- the claim of the slot and its installation the source can be preempted; the three parts are run
-- here one after the other.
use freshos.Base.{ℕ, zero, suc, ◌+◌, ◌-◌, ◌*◌, ◌/◌, Option, none, some, List}
use freshos.Abi.{TaskRef, user_base, user_size, user_stack_size}
use freshos.Machine.{Memory, store_word, fill_words}
use freshos.FrameAlloc
use freshos.Handles.{HandleTable}
use freshos.AddrSpace.{
  AddressSpace, Phys, read_write, page_size, new_space, map_new_page, ttbr0, drop_frames,
}
use freshos.AddrSpace
use freshos.Kernel.{Kernel}
use freshos.Kernel.Task.{Task, ready, empty_task}
use freshos.Elf.{ElfError, load_into, loaded, failed}
use freshos.Context.{
  kernel_stack_size, saved_frame_size, prepare_stack, reap_pending_frees, claim_slot, release,
  install,
}

pub data SpawnError : Type 0 where
  no_slot out_of_memory : SpawnError
  bad_image : ElfError → SpawnError

pub data Spawned : Type 0 where
  spawned : Kernel → TaskRef → Spawned
  refused : Kernel → SpawnError → Spawned

abbrev pub physical : Kernel → Phys
physical k = record { mem = k.mem; alloc = k.alloc }

abbrev pub with_physical : Kernel → Phys → Kernel
with_physical k p = record k { mem = p.mem; alloc = p.alloc }

-- A zeroed frame at `base` with x30, ELR_EL1 and SPSR_EL1 set.
unfoldable pub kernel_frame : Memory → ℕ → ℕ → Memory
kernel_frame m base entry =
    let m₀ = fill_words m base (saved_frame_size / 8) 0 in
    let m₁ = store_word m₀ (base + 8 * 30) entry in
    let m₂ = store_word m₁ (base + 8 * 32) entry in store_word m₂ (base + 8 * 33) 5

-- A zeroed frame at `base` with x0, x1, SP_EL0, ELR_EL1 and SPSR_EL1 set.
unfoldable pub user_frame : Memory → ℕ → ℕ → ℕ → ℕ → ℕ → Memory
user_frame m base arg0 arg1 stack_top entry =
    let m₀ = fill_words m base (saved_frame_size / 8) 0 in
    let m₁ = store_word m₀ base arg0 in
    let m₂ = store_word m₁ (base + 8) arg1 in
    let m₃ = store_word m₂ (base + 8 * 31) stack_top in
    let m₄ = store_word m₃ (base + 8 * 32) entry in store_word m₄ (base + 8 * 33) 0

-- Where the frame of a task with this kernel stack lies.
abbrev pub frame_base : ℕ → ℕ
frame_base bottom = bottom + kernel_stack_size - saved_frame_size

unfoldable pub spawn : Kernel → ℕ → (Kernel → TaskRef → Kernel) → Spawned
spawn k entry bind = elim (claim_slot (reap_pending_frees k 0)) [
  | none ↦ refused (reap_pending_frees k 0) no_slot
  | some (id, k₁) ↦ (elim (FrameAlloc.allocate_contiguous k₁.alloc (kernel_stack_size / 4096)) [
    | none ↦ refused (release k₁ id) out_of_memory
    | some (bottom, a) ↦
        (let k₂ = record k₁ {
          alloc = a;
          mem = kernel_frame (prepare_stack k₁.mem bottom) (frame_base bottom) entry;
        } in
          let task = record empty_task {
            sp = frame_base bottom;
            kernel_stack_bottom = bottom;
            kernel_stack_pages = kernel_stack_size / 4096;
            ttbr0 = k₂.kernel_ttbr0;
            state = ready;
          } in
          let (k₃, t) = install k₂ id task bind in spawned k₃ t)
  ])
]

-- What `build_el0` ends with. On an error the space has been dropped.
pub data Built : Type 0 where
  built : Phys → Task → ℕ → Built
  not_built : Phys → SpawnError → Built

abbrev drop_space : Phys → AddressSpace → Phys
drop_space p space = record p { alloc = drop_frames p.alloc space.frames }

-- `while va < stack_top`: `n` pages from `va`.
unfoldable pub map_stack : AddrSpace.Geometry → Phys → AddressSpace → ℕ → ℕ → AddrSpace.Outcome
map_stack g p space va zero = AddrSpace.ok p space va
map_stack g p space va (suc n) = elim (map_new_page g p space va read_write) [
  | AddrSpace.err p' space' e ↦ AddrSpace.err p' space' e
  | AddrSpace.ok p' space' pa ↦ map_stack g p' space' (va + page_size) n
]

-- The kernel stack and its frame, once the space is complete.
unfoldable pub with_kernel_stack :
    Phys → AddressSpace → HandleTable → ℕ → ℕ → ℕ → Option (ℕ × FrameAlloc.Frames) → Built
with_kernel_stack p space handles arg0 arg1 entry none =
    not_built (drop_space p space) out_of_memory
with_kernel_stack p space handles arg0 arg1 entry (some (bottom, a)) =
    built
      (record {
        mem =
            user_frame (prepare_stack p.mem bottom) (frame_base bottom) arg0 arg1
              (user_base + user_size) entry;
        alloc = a;
      })
      (record {
        sp = frame_base bottom;
        kernel_stack_bottom = bottom;
        kernel_stack_pages = kernel_stack_size / 4096;
        ttbr0 = ttbr0 space;
        space = some space;
        handles = handles;
        wait = none;
        state = ready;
      })
      entry

-- The ASID is the slot. The page below the stack is never mapped.
unfoldable pub build_el0 : AddrSpace.Geometry → Phys → ℕ → List ℕ → HandleTable → ℕ → ℕ → Built
build_el0 g p id image handles arg0 arg1 = elim (new_space g p id) [
  | AddrSpace.err p₁ space e ↦ not_built (drop_space p₁ space) out_of_memory
  | AddrSpace.ok p₁ space l1 ↦ (elim (load_into g image p₁ space) [
    | failed p₂ space₂ e ↦ not_built (drop_space p₂ space₂) (bad_image e)
    | loaded p₂ space₂ entry ↦
        (elim (map_stack g p₂ space₂ (user_base + user_size - user_stack_size)
          (user_stack_size / page_size)) [
            | AddrSpace.err p₃ space₃ e ↦ not_built (drop_space p₃ space₃) out_of_memory
            | AddrSpace.ok p₃ space₃ va ↦
                with_kernel_stack p₃ space₃ handles arg0 arg1 entry
                  (FrameAlloc.allocate_contiguous p₃.alloc (kernel_stack_size / 4096))
          ])
  ])
]

unfoldable pub spawn_el0 :
    Kernel → List ℕ → HandleTable → ℕ → ℕ → (Kernel → TaskRef → Kernel) → Spawned
spawn_el0 k image handles arg0 arg1 bind = elim (claim_slot (reap_pending_frees k 0)) [
  | none ↦ refused (reap_pending_frees k 0) no_slot
  | some (id, k₁) ↦ (elim (build_el0 k₁.geometry (physical k₁) id image handles arg0 arg1) [
    | not_built p e ↦ refused (release (with_physical k₁ p) id) e
    | built p task entry ↦ (let (k₂, t) = install (with_physical k₁ p) id task bind in spawned k₂ t)
  ])
]
