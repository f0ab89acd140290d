-- ===== src/Tests/Data.antt =====
-- The theorems on the ABI's encodings, handles, damage, the trace and the registry, at small inputs.
use freshos.Base.{
  ℕ, ◌+◌, ◌-◌, ◌%◌, ◌^◌, ◌<◌, ◌≡◌, refl, inr, Bool, true, none, some, List, [], ◌∷◌, arith, ◌==◌,
  if◌then◌else◌, min, drop, length, get_elem?, set,
}
use freshos.Base.Bytes.{AreBytes}
use freshos.Abi.{TaskRef, pack, unpack, task_ref_eq, clean, no_right, rights_contains, rights_recv}
use freshos.Abi.Laws.{unpack-pack}
use freshos.Handles.{Slot, HandleTable, at, table_was_full, insert, lookup, ok, err, is_full}
use freshos.Handles
use freshos.Handles.Laws.{lookup-insert}
use freshos.Metrics.{DamageRect, Metrics}
use freshos.Metrics.Surfaces.{
  run, surface_damage_snapshot, mark_surface_damage, clear_surface_damage,
}
use freshos.Metrics
use freshos.Metrics.Damage.{Covers, mark_surface_damage-Covers}
use freshos.Kernel.Trace.{TraceEntry, trace_read, start, empty_trace}
use freshos.Kernel.Trace.History.{record_all, trace_read-record_all}
use freshos.Registry.{
  ServiceRecord, on_spawn, on_exit, service_slot, new_name, named, as_str, bytes_eq,
}
use freshos.Registry
use freshos.Registry.Laws.{on_exit-on_spawn}

abbrev task_seven : TaskRef
task_seven = record { id = 7; generation = 3 }

abbrev task_seven_again : TaskRef
task_seven_again = record { id = 7; generation = 4 }

unpack-pack_example : (unpack (pack task_seven) ≡ task_seven) × (pack task_seven < 2 ^ 48)
unpack-pack_example = unpack-pack task_seven (omega arith) (omega arith)

-- "mcp"
abbrev mcp : List ℕ
mcp = 109 ∷ 99 ∷ 112 ∷ []

mcp-AreBytes : AreBytes mcp
mcp-AreBytes = ground arith

abbrev console : Slot
console = record { channel = 5; rights = 1 }

abbrev with_console : HandleTable
with_console = record { slots = set Handles.empty.slots 0 (some console) }

inserted : insert Handles.empty console ≡ at 0 with_console
unfolding insert
inserted = refl

lookup-insert_example : lookup with_console 0 rights_recv ≡ (
    if 0 == 0
    then (if rights_contains console.rights rights_recv then ok console.channel else err no_right)
    else lookup Handles.empty 0 rights_recv)
lookup-insert_example = lookup-insert Handles.empty console 0 with_console inserted 0 rights_recv

abbrev corner : DamageRect
corner = record { x = 2; y = 3; w = 4; h = 5 }

corner-Covers : Covers corner 2 3
corner-Covers = omega arith

mark_surface_damage-Covers_example :
    (m' : Metrics) × (run (mark_surface_damage 1 corner) Metrics.start ≡ (m', tt))
    × ((rect : DamageRect) × (run (surface_damage_snapshot 1 1) m' ≡ (m', some (1, rect)))
        × Covers rect 2 3)
    × (run (clear_surface_damage 1 0) m' ≡ (m', tt))
mark_surface_damage-Covers_example =
    mark_surface_damage-Covers Metrics.start 1 corner 2 3 refl refl (omega arith) (omega arith)
      (omega arith) (omega arith) (inr corner-Covers)

abbrev two_entries : List TraceEntry
two_entries = empty_trace ∷ record empty_trace { tag = 9 } ∷ []

trace_read-record_all_example :
    trace_read (record_all start two_entries) 1 5
    ≡ drop (length two_entries - min (min (min (length two_entries) 64) 5) 1) two_entries
trace_read-record_all_example = trace_read-record_all two_entries 1 5

-- Every name of the examples is text.
abbrev is_text : List ℕ → Bool
is_text bytes = true

mcp_slot : service_slot is_text Registry.start.services (new_name mcp) ≡ some 0
unfolding service_slot named new_name as_str bytes_eq
mcp_slot = refl

on_exit-on_spawn_example :
    (s : ServiceRecord) × (get_elem? (on_spawn is_text Registry.start task_seven mcp).services 0
      ≡ some (some s))
    × (s.task ≡ some 7)
    × (s.generation ≡ 3)
    × (get_elem?
          (on_exit (on_spawn is_text Registry.start task_seven mcp) task_seven_again clean).services
          0
        ≡ some (
            some (
              if task_ref_eq task_seven task_seven_again
              then record s { task = none; exits = (s.exits + 1) % 2 ^ 64; last_exit = some clean }
              else s)))
on_exit-on_spawn_example =
    on_exit-on_spawn is_text Registry.start task_seven task_seven_again mcp clean 0 mcp_slot
