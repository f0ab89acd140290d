-- ===== src/Tests/Scheduler.antt =====
-- The theorems on the scheduler, on the kernel at boot: task 0 runs and task 1 is ready.
use freshos.Base.{
  Bool, ℕ, zero, suc, ◌<◌, ◌≡◌, refl, sym, ◌∙◌, arith, true, false, ◌&&◌, ltb, if◌then◌else◌,
  get_or, replicate, ◌∷◌,
}
use freshos.Handles
use freshos.Metrics.{max_tasks}
use freshos.Wait.{set_user_wait}
use freshos.Kernel.{Kernel, task_at}
use freshos.Kernel.Task.{empty_task, running, ready, is_state}
use freshos.Context.{
  runs, run, activate, save_current, is_ready, next_task, switch_away, hand_off, forget_hand_off,
  check_canary, find_ready, returning, scheduler_tick, expire_waits, expire_from, expire,
  reap_pending_frees, reap,
}
use freshos.Context.Switch.{IsScheduled}
use freshos.Context.Turns.{Turns, switch_away_turns, hand_off_turns}
use freshos.Context.Returns.{hand_off_returns}
use freshos.Context.Ticks.{Passed, here, tick, ready_runs_soon}
use freshos.Abi.{clean}
use freshos.Handles.{occupied, occupied_from}
use freshos.Context.{queue_pending_free}
use freshos.Context.Retire.{
  retire_current, bury, disconnect, drop_wait, send_rights_home, drop_space,
}
use freshos.Context.Retire.Vacant.{retire_current-IsVacant}
use freshos.Context.{claim_slot, find_free}
use freshos.Context.Spawn.{
  Spawned, spawned, refused, spawn_el0, build_el0, map_stack, with_kernel_stack,
}
use freshos.AddrSpace.{
  new_space, alloc_zeroed, copy_l1, map_new_page, l3_table_for, in_window, read_entry, write_entry,
}
use freshos.Elf.{
  load_into, parse_layout, check_ident, has_magic, read_layout, check_fields, check_layout,
  check_headers, check_header, check_load, program_header, read_uint, field, get_range,
  load_segments, load_segment, read_segment, check_segment, load_pages, copy_page, perm_of,
  align_down,
}
use freshos.FrameAlloc.{
  allocate, scan, try_byte, take_bit, clear_bit_from, allocate_contiguous, find_run, take_run,
  mark_run, used_frame, set_bit,
}
use freshos.Machine.{store_bytes, store_byte, load_word, store_word, fill_words}
use freshos.Context.Slots.{Starts, spawn_el0-Starts}
use freshos.Tests.Channels.{boot}
use freshos.Tests.Images.{image, some_free}

empty_slots :
    (n i : ℕ) → is_state (get_or (replicate n empty_task) i empty_task).state running ≡ false
empty_slots zero i = refl
empty_slots (suc n) zero = refl
empty_slots (suc n) (suc i) = empty_slots n i

boot_single : (i : ℕ) → is_state (task_at boot i).state running ≡ true → i ≡ 0
boot_single zero h = refl
boot_single (suc zero) h = cc
boot_single (suc (suc i)) h = (let e = empty_slots 14 i in cc)

boot-IsScheduled : IsScheduled boot
boot-IsScheduled = record { slots = refl; in_bounds = omega arith; single = boot_single }

canary_ok : check_canary boot 0 ≡ true
unfolding check_canary
canary_ok = refl

switch_away_turns_example :
    (k' : Kernel) × (sp : ℕ) × (switch_away boot 100 ≡ runs (k', sp))
    × (k'.current ≡ next_task (save_current boot 100))
    × Turns boot 100 k' sp
switch_away_turns_example = switch_away_turns boot 100 boot-IsScheduled canary_ok

hand_off_turns_example :
    (k' : Kernel) × (sp : ℕ) × (hand_off boot 100 1 ≡ runs (k', sp))
    × (k'.current
        ≡ (if ltb 1 max_tasks && is_ready boot 1 then 1 else next_task (save_current boot 100)))
    × Turns boot 100 k' sp
hand_off_turns_example = hand_off_turns boot 100 1 boot-IsScheduled canary_ok

-- The kernel with free frames, where a start of the image in Tests/Images succeeds.
abbrev roomy : Kernel
roomy = record boot { alloc = some_free }

spawn_el0-Starts_example :
    Starts Handles.empty true roomy (λ k t. k) (spawn_el0 roomy image Handles.empty 0 0 (λ k t. k))
spawn_el0-Starts_example = spawn_el0-Starts roomy image Handles.empty 0 0 (λ k t. k) refl refl

abbrev is_spawned : Spawned → Bool
is_spawned (spawned k t) = true
is_spawned (refused k e) = false

roomy_spawned : is_spawned (spawn_el0 roomy image Handles.empty 0 0 (λ k t. k)) ≡ true
unfolding spawn_el0 claim_slot find_free reap_pending_frees reap build_el0 new_space alloc_zeroed
    copy_l1 load_into parse_layout check_ident has_magic read_layout check_fields check_layout
    check_headers check_header check_load program_header read_uint field get_range load_segments
    load_segment read_segment check_segment load_pages map_new_page l3_table_for in_window
    read_entry write_entry copy_page allocate scan try_byte take_bit clear_bit_from store_bytes
    store_byte load_word store_word fill_words perm_of align_down map_stack with_kernel_stack
    allocate_contiguous find_run take_run mark_run used_frame set_bit
roomy_spawned = refl

-- Task 0 has handed the CPU to task 1, which waits on channel 2 and gives it back.
abbrev handed : Kernel × ℕ
handed = run (record (save_current boot 100) { donor = 0; target = 1 }) 1

hand_off-boot : hand_off boot 100 1 ≡ runs (handed.0, handed.1)
unfolding hand_off check_canary
hand_off-boot = refl

abbrev waiting : Kernel
waiting = save_current (set_user_wait handed.0 2 4096 0) 200

abbrev given_back : Kernel × ℕ
given_back = run (forget_hand_off waiting) (next_task waiting)

switch_away-waiting :
    switch_away (set_user_wait handed.0 2 4096 0) 200 ≡ runs (given_back.0, given_back.1)
unfolding switch_away check_canary set_user_wait run activate save_current
switch_away-waiting = refl

hand_off_returns_example : (given_back.0.current ≡ 0) × (given_back.1 ≡ 100)
hand_off_returns_example =
    hand_off_returns boot 100 1 handed.0 handed.1 2 4096 0 200 given_back.0 given_back.1
      boot-IsScheduled refl (omega arith) refl hand_off-boot switch_away-waiting

-- Tasks 1 and 2 are ready.
abbrev crowd : Kernel
crowd = record boot {
  tasks =
      record empty_task { state = running }
      ∷ record empty_task { state = ready }
      ∷ record empty_task { state = ready }
      ∷ replicate 13 empty_task;
}

crowd_single : (i : ℕ) → is_state (task_at crowd i).state running ≡ true → i ≡ 0
crowd_single zero h = refl
crowd_single (suc zero) h = cc
crowd_single (suc (suc zero)) h = cc
crowd_single (suc (suc (suc i))) h = (let e = empty_slots 13 i in cc)

crowd-IsScheduled : IsScheduled crowd
crowd-IsScheduled = record { slots = refl; in_bounds = omega arith; single = crowd_single }

abbrev interrupted : Kernel
interrupted = save_current (forget_hand_off (expire_waits (reap_pending_frees crowd 100) 5)) 100

abbrev ticked : Kernel × ℕ
ticked = run (forget_hand_off interrupted) (next_task interrupted)

tick-crowd : scheduler_tick crowd 100 5 ≡ runs (ticked.0, ticked.1)
unfolding scheduler_tick switch_away check_canary forget_hand_off expire_waits expire_from expire
    reap_pending_frees reap
tick-crowd = refl

ticked_first : ticked.0.current ≡ 1
unfolding run activate next_task returning find_ready save_current forget_hand_off expire_waits
    expire_from expire reap_pending_frees reap
ticked_first = refl

Passed-once : Passed 2 1 crowd ticked.0
Passed-once =
    tick crowd crowd crowd ticked.0 100 5 ticked.1 (here crowd)
      (record { current = refl; scheduled = crowd-IsScheduled; ready = refl }) tick-crowd
      (λ e. let c : 1 ≡ 2 = sym ticked_first ∙ e in omega arith)

ready_runs_soon_example : 1 < max_tasks
ready_runs_soon_example = ready_runs_soon crowd-IsScheduled (omega arith) refl Passed-once

-- Task 1 is the current one and ends.
abbrev dying : Kernel
dying = record boot { current = 1; init_task = 5 }

abbrev buried : Kernel
buried = bury (disconnect dying 1) 1 clean 10 11

retire-dying : retire_current dying clean 10 11 ≡ runs buried
unfolding retire_current check_canary queue_pending_free disconnect drop_wait send_rights_home
    occupied occupied_from activate drop_space forget_hand_off
retire-dying = refl

retire_current-IsVacant_example : task_at buried 1 ≡ empty_task
retire_current-IsVacant_example =
    retire_current-IsVacant dying clean 10 11 buried (λ e. omega arith) retire-dying
