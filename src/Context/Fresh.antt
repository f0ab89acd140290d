-- ===== src/Context/Fresh.antt =====
-- The task that `spawn` and `build_el0` of kernel/src/arch/aarch64/context.rs make.
use freshos.Base.{ℕ, ◌+◌, ◌/◌, ◌≡◌, refl, ◌-◌, Bool, true, none, some, Option, is_some, List}
use freshos.Abi.{user_base, user_size, user_stack_size}
use freshos.FrameAlloc
use freshos.AddrSpace.{Phys, Geometry, AddressSpace, page_size, new_space, drop_frames}
use freshos.AddrSpace
use freshos.Elf.{Loaded, load_into, loaded, failed}
use freshos.Handles.{HandleTable}
use freshos.Kernel.Task.{Task, ready}
use freshos.Context.{kernel_stack_size}
use freshos.Context.Spawn.{
  Built, out_of_memory, bad_image, build_el0, built, not_built, map_stack, with_kernel_stack,
}

-- A task that has not run yet: ready, with these handles, waiting for nothing, and in an address space
-- of its own if it is a user task.
pub record IsFresh (handles : HandleTable) (user : Bool) (t : Task) : Type 0 where
  pub is_ready : t.state ≡ ready
  pub has_handles : t.handles ≡ handles
  pub no_wait : t.wait ≡ none
  pub in_space : is_some t.space ≡ user

-- Whatever `build_el0` builds is fresh.
unfoldable pub BuildsFresh : HandleTable → Built → Type 0
BuildsFresh handles (not_built p e) = true ≡ true
BuildsFresh handles (built p task entry) = IsFresh handles true task

with_kernel_stack-BuildsFresh :
    (p : Phys) (space : AddressSpace) (handles : HandleTable) (arg0 arg1 entry : ℕ)
    (stack : Option (ℕ × FrameAlloc.Frames))
    → BuildsFresh handles (with_kernel_stack p space handles arg0 arg1 entry stack)
unfolding with_kernel_stack BuildsFresh
with_kernel_stack-BuildsFresh p space handles arg0 arg1 entry none = refl
with_kernel_stack-BuildsFresh p space handles arg0 arg1 entry (some (bottom, a)) = record {
  is_ready = refl;
  has_handles = refl;
  no_wait = refl;
  in_space = refl;
}

-- The end of `build_el0` after the stack was mapped, or could not be.
stacked-BuildsFresh :
    (handles : HandleTable) (arg0 arg1 entry : ℕ) (o : AddrSpace.Outcome)
    → BuildsFresh handles (elim o [
      | AddrSpace.err p space e ↦
          not_built (record p { alloc = drop_frames p.alloc space.frames }) out_of_memory
      | AddrSpace.ok p space va ↦
          with_kernel_stack p space handles arg0 arg1 entry
            (FrameAlloc.allocate_contiguous p.alloc (kernel_stack_size / 4096))
    ])
unfolding BuildsFresh
stacked-BuildsFresh handles arg0 arg1 entry (AddrSpace.err p space e) = refl
stacked-BuildsFresh handles arg0 arg1 entry (AddrSpace.ok p space va) =
    with_kernel_stack-BuildsFresh p space handles arg0 arg1 entry _

loaded-BuildsFresh :
    (g : Geometry) (handles : HandleTable) (arg0 arg1 : ℕ) (o : Loaded ℕ)
    → BuildsFresh handles (elim o [
      | failed p space e ↦
          not_built (record p { alloc = drop_frames p.alloc space.frames }) (bad_image e)
      | loaded p space entry ↦
          (elim (map_stack g p space
            (user_base + user_size - user_stack_size)
            (user_stack_size / page_size)) [
              | AddrSpace.err p space e ↦
                  not_built (record p { alloc = drop_frames p.alloc space.frames }) out_of_memory
              | AddrSpace.ok p space va ↦
                  with_kernel_stack p space handles arg0 arg1 entry
                    (FrameAlloc.allocate_contiguous p.alloc (kernel_stack_size / 4096))
            ])
    ])
unfolding BuildsFresh
loaded-BuildsFresh g handles arg0 arg1 (failed p space e) = refl
loaded-BuildsFresh g handles arg0 arg1 (loaded p space entry) =
    stacked-BuildsFresh handles arg0 arg1 entry
      (map_stack g p space (user_base + user_size - user_stack_size) (user_stack_size / page_size))

pub build_el0-BuildsFresh :
    (g : Geometry) (p : Phys) (id : ℕ) (image : List ℕ) (handles : HandleTable) (arg0 arg1 : ℕ)
    → BuildsFresh handles (build_el0 g p id image handles arg0 arg1)
unfolding build_el0 BuildsFresh
build_el0-BuildsFresh g p id image handles arg0 arg1 = in_space (new_space g p id)
  where
    in_space :
        (o : AddrSpace.Outcome)
        → BuildsFresh handles (elim o [
          | AddrSpace.err p space e ↦
              not_built (record p { alloc = drop_frames p.alloc space.frames }) out_of_memory
          | AddrSpace.ok p space l1 ↦ (elim (load_into g image p space) [
            | failed p space e ↦
                not_built (record p { alloc = drop_frames p.alloc space.frames }) (bad_image e)
            | loaded p space entry ↦
                (elim (map_stack g p space
                  (user_base + user_size - user_stack_size)
                  (user_stack_size / page_size)) [
                    | AddrSpace.err p space e ↦
                        not_built
                          (record p { alloc = drop_frames p.alloc space.frames })
                          out_of_memory
                    | AddrSpace.ok p space va ↦
                        with_kernel_stack p space handles arg0 arg1 entry
                          (FrameAlloc.allocate_contiguous p.alloc (kernel_stack_size / 4096))
                  ])
          ])
        ])
    in_space (AddrSpace.err p space e) = refl
    in_space (AddrSpace.ok p space l1) =
        loaded-BuildsFresh g handles arg0 arg1 (load_into g image p space)
