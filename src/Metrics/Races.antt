-- ===== src/Metrics/Races.antt =====
-- A task that marks damage while the compositor clears: kernel/src/metrics.rs holds no guard, so that the
-- mark can run between any two accesses of the clear. The compositor looks at the commit number and,
-- where it has moved on, at `metrics_damage_rect_to_rect` of the damage: none makes it redraw in full.
use freshos.Base.{ℕ, ◌+◌, ◌-◌, ◌%◌, ◌^◌, ◌<◌, ◌≡◌, ◌⊎◌, none}
use freshos.Desktop.{metrics_damage_rect_to_rect}
use freshos.Metrics.{Metrics, DamageRect}
use freshos.Metrics.Surfaces.{run, seq_of, damage_of, mark_surface_damage}
use freshos.Metrics.Damage.{Covers}

-- The compositor finds the number moved on, and draws the pixel: by the damage, or with everything.
pub record IsRedrawn (m m' : Metrics) (id px py : ℕ) : Type 0 where
  pub moved : seq_of m' id ≡ (seq_of m id + 1) % 2 ^ 64
  pub drawn :
      Covers (damage_of m' id) px py ⊎ (metrics_damage_rect_to_rect (damage_of m' id) ≡ none)

module _ (id : ℕ) (r : DamageRect) (px py : ℕ) (hi : id < 4) (hx : px < 2 ^ 32 - 1)
    (hy : py < 2 ^ 32 - 1) (new : Covers r px py) where
  abbrev after_mark : Metrics → Metrics
  after_mark m = (run (mark_surface_damage id r) m).0
