-- ===== src/Metrics.antt =====
-- kernel/src/metrics.rs: latency samples, wake-up marks and the damage of each surface. The atomics
-- are the fields of one record; a store of a `u32` in a `u64` keeps its value. The samples and marks
-- here are one step each: a sample is independent of all others. What several atomics of a surface
-- have to agree on is in Metrics/Surfaces, one access at a time.
pub mod Surfaces
pub mod Damage
pub mod Races
use freshos.Base.{
  ℕ, ◌+◌, ◌-◌, ◌/◌, ◌%◌, ◌^◌, min, max, Bool, ◌&&◌, ◌||◌, List, ltb, leb, ◌==◌, not, if◌then◌else◌,
  get_or, set, replicate,
}

abbrev pub max_tasks : ℕ
max_tasks = 16

abbrev pub max_surfaces : ℕ
max_surfaces = 4

pub record MetricSample : Type 0 where
  pub latest : ℕ
  pub max_value : ℕ

pub record DamageRect : Type 0 where
  pub x : ℕ
  pub y : ℕ
  pub w : ℕ
  pub h : ℕ

pub record Metrics : Type 0 where
  pub frame_us : MetricSample
  pub present_us : MetricSample
  pub background_us : MetricSample
  pub windows_us : MetricSample
  pub chrome_us : MetricSample
  pub input_to_photon_us : MetricSample
  pub ipc_delivery_ns : MetricSample
  pub sched_wake_us : MetricSample
  pub wake_mark_ns : List ℕ
  pub surface_seq : List ℕ
  pub surface_damage : List DamageRect
  pub shell_input_ns : ℕ

abbrev pub no_damage : DamageRect
no_damage = record { x = 0; y = 0; w = 0; h = 0 }

abbrev zero_sample : MetricSample
zero_sample = record { latest = 0; max_value = 0 }

-- The statics at boot.
abbrev pub start : Metrics
start = record {
  frame_us = zero_sample;
  present_us = zero_sample;
  background_us = zero_sample;
  windows_us = zero_sample;
  chrome_us = zero_sample;
  input_to_photon_us = zero_sample;
  ipc_delivery_ns = zero_sample;
  sched_wake_us = zero_sample;
  wake_mark_ns = replicate max_tasks 0;
  surface_seq = replicate max_surfaces 0;
  surface_damage = replicate max_surfaces no_damage;
  shell_input_ns = 0;
}

unfoldable pub store_sample : MetricSample → ℕ → MetricSample
store_sample s value = record { latest = value; max_value = max s.max_value value }

unfoldable pub record_frame_us : Metrics → ℕ → Metrics
unfolding store_sample
record_frame_us m v = record m { frame_us = store_sample m.frame_us v }

unfoldable pub record_present_us : Metrics → ℕ → Metrics
unfolding store_sample
record_present_us m v = record m { present_us = store_sample m.present_us v }

unfoldable pub record_background_us : Metrics → ℕ → Metrics
unfolding store_sample
record_background_us m v = record m { background_us = store_sample m.background_us v }

unfoldable pub record_windows_us : Metrics → ℕ → Metrics
unfolding store_sample
record_windows_us m v = record m { windows_us = store_sample m.windows_us v }

unfoldable pub record_chrome_us : Metrics → ℕ → Metrics
unfolding store_sample
record_chrome_us m v = record m { chrome_us = store_sample m.chrome_us v }

unfoldable pub record_input_to_photon_us : Metrics → ℕ → Metrics
unfolding store_sample
record_input_to_photon_us m v = record m {
  input_to_photon_us = store_sample m.input_to_photon_us v;
}

unfoldable pub record_ipc_delivery_ns : Metrics → ℕ → Metrics
unfolding store_sample
record_ipc_delivery_ns m v = record m { ipc_delivery_ns = store_sample m.ipc_delivery_ns v }

unfoldable pub record_sched_wake_us : Metrics → ℕ → Metrics
unfolding store_sample
record_sched_wake_us m v = record m { sched_wake_us = store_sample m.sched_wake_us v }

unfoldable pub note_task_unblocked : Metrics → ℕ → ℕ → Metrics
note_task_unblocked m task_id at_ns =
    if ltb task_id max_tasks
    then record m { wake_mark_ns = set m.wake_mark_ns task_id at_ns }
    else m

unfoldable pub note_task_running : Metrics → ℕ → ℕ → Metrics
unfolding record_sched_wake_us
note_task_running m task_id now_ns =
    if leb max_tasks task_id
    then m
    else (let mark : ℕ = get_or m.wake_mark_ns task_id 0 in
        let swapped = record m { wake_mark_ns = set m.wake_mark_ns task_id 0 } in
        if ltb 0 mark && ltb mark now_ns
        then record_sched_wake_us swapped ((now_ns - mark) / 1000)
        else swapped)

-- `u32::saturating_add`.
abbrev pub saturating_add : ℕ → ℕ → ℕ
saturating_add a b = min (a + b) (2 ^ 32 - 1)

-- The rectangle that a merge stores; `saturating_sub` is subtraction on ℕ.
unfoldable pub merged_rect : DamageRect → DamageRect → DamageRect
merged_rect cur r =
    if cur.w == 0 || cur.h == 0
    then r
    else (let cur_r : ℕ = saturating_add cur.x cur.w in
        let cur_b : ℕ = saturating_add cur.y cur.h in
        let new_r : ℕ = saturating_add r.x r.w in
        let new_b : ℕ = saturating_add r.y r.h in
        let merged_x : ℕ = min cur.x r.x in
        let merged_y : ℕ = min cur.y r.y in
        let merged_r : ℕ = max cur_r new_r in
        let merged_b : ℕ = max cur_b new_b in
        record { x = merged_x; y = merged_y; w = merged_r - merged_x; h = merged_b - merged_y })

pub record Snapshot : Type 0 where
  pub frame_us : MetricSample
  pub present_us : MetricSample
  pub background_us : MetricSample
  pub windows_us : MetricSample
  pub chrome_us : MetricSample
  pub input_to_photon_us : MetricSample
  pub ipc_delivery_ns : MetricSample
  pub sched_wake_us : MetricSample

unfoldable pub snapshot : Metrics → Snapshot
snapshot m = record {
  frame_us = m.frame_us;
  present_us = m.present_us;
  background_us = m.background_us;
  windows_us = m.windows_us;
  chrome_us = m.chrome_us;
  input_to_photon_us = m.input_to_photon_us;
  ipc_delivery_ns = m.ipc_delivery_ns;
  sched_wake_us = m.sched_wake_us;
}
