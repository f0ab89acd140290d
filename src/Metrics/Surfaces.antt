-- ===== src/Metrics/Surfaces.antt =====
-- The surface damage of kernel/src/metrics.rs. Each load and each store of an atomic is one access, and
-- another task may run between any two of them: no interrupt guard is held here.
use freshos.Base.{
  ℕ, zero, suc, ◌+◌, ◌%◌, ◌^◌, not, ◌||◌, Option, none, some, leb, ltb, ◌==◌, if◌then◌else◌, get_or,
  set,
}
use freshos.Metrics.{Metrics, DamageRect, max_surfaces, no_damage, merged_rect}

-- The accesses that a call makes, one after the other.
pub data Access {ℓ} (A : Type ℓ) : Type ℓ where
  done : A → Access A
  load : (Metrics → ℕ) → (ℕ → Access A) → Access A
  store : (Metrics → Metrics) → Access A → Access A

-- The call with no other task in between.
unfoldable pub run {ℓ} : {A : Type ℓ} → Access A → Metrics → Metrics × A
run (done a) m = (m, a)
run (load cell next) m = run (next (cell m)) m
run (store write next) m = run next (write m)

-- `n` accesses of a call, then all of another one, then the rest of the first.
unfoldable pub interrupted {ℓ κ} :
    {A : Type ℓ} {B : Type κ} → ℕ → Access A → Access B → Metrics → Metrics × A
unfolding run
interrupted zero first other m = run first (run other m).0
interrupted (suc n) (done a) other m = ((run other m).0, a)
interrupted (suc n) (load cell next) other m = interrupted n (next (cell m)) other m
interrupted (suc n) (store write next) other m = interrupted n next other (write m)

-- The cells of a surface.
abbrev pub seq_of : Metrics → ℕ → ℕ
seq_of m id = get_or m.surface_seq id 0

abbrev pub damage_of : Metrics → ℕ → DamageRect
damage_of m id = get_or m.surface_damage id no_damage

abbrev pub put_damage : Metrics → ℕ → DamageRect → Metrics
put_damage m id r = record m { surface_damage = set m.surface_damage id r }

abbrev pub put_x : ℕ → ℕ → Metrics → Metrics
put_x id v m = put_damage m id (record (damage_of m id) { x = v })

abbrev pub put_y : ℕ → ℕ → Metrics → Metrics
put_y id v m = put_damage m id (record (damage_of m id) { y = v })

abbrev pub put_w : ℕ → ℕ → Metrics → Metrics
put_w id v m = put_damage m id (record (damage_of m id) { w = v })

abbrev pub put_h : ℕ → ℕ → Metrics → Metrics
put_h id v m = put_damage m id (record (damage_of m id) { h = v })

-- The four stores of a rectangle.
abbrev pub store_rect {ℓ} : {A : Type ℓ} → ℕ → DamageRect → Access A → Access A
store_rect id r next =
    store (put_x id r.x) (store (put_y id r.y) (store (put_w id r.w) (store (put_h id r.h) next)))

-- `merge_surface_damage`, and what comes after it.
unfoldable pub merge_surface_damage {ℓ} : {A : Type ℓ} → ℕ → DamageRect → Access A → Access A
merge_surface_damage id r next =
    if leb max_surfaces id || (r.w == 0 || r.h == 0)
    then next
    else load (λ m. (damage_of m id).w)
        λ w.
          load (λ m. (damage_of m id).h)
            λ h.
              if w == 0 || h == 0
              then store_rect id r next
              else load (λ m. (damage_of m id).x)
                  λ x.
                    load (λ m. (damage_of m id).y)
                      λ y.
                        store_rect id (merged_rect (record { x = x; y = y; w = w; h = h }) r) next

-- `fetch_add` wraps.
unfoldable pub mark_surface_commit : ℕ → Access (Unit {0})
mark_surface_commit id =
    if ltb id max_surfaces
    then store (λ m. record m { surface_seq = set m.surface_seq id ((seq_of m id + 1) % 2 ^ 64) })
        (done tt)
    else done tt

unfoldable pub mark_surface_damage : ℕ → DamageRect → Access (Unit {0})
unfolding merge_surface_damage mark_surface_commit
mark_surface_damage id r = merge_surface_damage id r (mark_surface_commit id)

unfoldable pub surface_commit_seq {ℓ} : {A : Type ℓ} → ℕ → (ℕ → Access A) → Access A
surface_commit_seq id next = if ltb id max_surfaces then load (λ m. seq_of m id) next else next 0

-- The loop that reads until the number is the same before and after, on fuel.
unfoldable pub surface_damage_snapshot : ℕ → ℕ → Access (Option (ℕ × DamageRect))
surface_damage_snapshot zero id = done none
surface_damage_snapshot (suc rounds) id =
    let again = surface_damage_snapshot rounds id in
    if leb max_surfaces id
    then done (some (0, no_damage))
    else load (λ m. seq_of m id)
        λ before.
          load (λ m. (damage_of m id).x)
            λ x.
              load (λ m. (damage_of m id).y)
                λ y.
                  load (λ m. (damage_of m id).w)
                    λ w.
                      load (λ m. (damage_of m id).h)
                        λ h.
                          load (λ m. seq_of m id)
                            λ after.
                              if before == after
                              then done (some (after, record { x = x; y = y; w = w; h = h }))
                              else again

unfoldable pub clear_surface_damage : ℕ → ℕ → Access (Unit {0})
clear_surface_damage id seq =
    if leb max_surfaces id
    then done tt
    else load (λ m. seq_of m id)
        λ now. if not (now == seq) then done tt else store_rect id no_damage (done tt)

unfoldable pub mark_shell_surface_damage : ℕ → DamageRect → Access (Unit {0})
unfolding mark_surface_damage
mark_shell_surface_damage input_ns r =
    if input_ns == 0
    then done tt
    else store (λ m. record m { shell_input_ns = input_ns }) (mark_surface_damage 0 r)

-- The commit number of the shell's surface and the time of the input that it shows.
unfoldable pub shell_surface_snapshot : Access (ℕ × ℕ)
unfolding surface_commit_seq
shell_surface_snapshot = surface_commit_seq 0 λ before.
    load (λ m. m.shell_input_ns)
      λ input_ns. surface_commit_seq 0 λ after.
        if before == after
        then done (before, input_ns)
        else load (λ m. m.shell_input_ns) λ input_now. done (after, input_now)
