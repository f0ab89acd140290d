-- ===== src/Metrics/Damage.antt =====
-- No drawn pixel is lost: what a surface's damage covered, and what is added, stays covered until
-- the compositor clears it at the sequence number that it read. No other task runs during a call here.
use freshos.Base.{
  ℕ, ◌+◌, ◌-◌, ◌%◌, ◌^◌, ◌<◌, ◌≤◌, ◌≡◌, ◌≢◌, ◌⊎◌, inl, inr, arith, ◌==◌, ◌||◌, if◌then◌else◌, refl,
  ap, ◌∙◌, true, false, leb, ltb, set, length, get_or-set_self, set-set, Bool-cases, Bool, some,
  subst, sym,
}
use freshos.Metrics.{Metrics, DamageRect, no_damage, merged_rect}
use freshos.Metrics.Surfaces.{
  run, seq_of, damage_of, put_damage, put_x, put_y, put_w, put_h, merge_surface_damage,
  mark_surface_commit, mark_surface_damage, surface_damage_snapshot, clear_surface_damage,
}

-- The pixel (px, py) lies in the rectangle.
pub record Covers (r : DamageRect) (px py : ℕ) : Type 0 where
  pub left : r.x ≤ px
  pub right : px < r.x + r.w
  pub top : r.y ≤ py
  pub bottom : py < r.y + r.h

pub merged_rect-Covers :
    (cur r : DamageRect) (px py : ℕ)
    → px < 2 ^ 32 - 1
    → py < 2 ^ 32 - 1
    → Covers cur px py ⊎ Covers r px py
    → Covers (merged_rect cur r) px py
unfolding merged_rect
merged_rect-Covers cur r px py hx hy (inl c) = ground arith
merged_rect-Covers cur r px py hx hy (inr c) = ground arith

-- The metrics after a mark, in one step.
abbrev pub is_empty : DamageRect → Bool
is_empty r = r.w == 0 || r.h == 0

abbrev pub grown : DamageRect → DamageRect → DamageRect
grown cur r = if is_empty r then cur else merged_rect cur r

abbrev pub moved_on : Metrics → ℕ → Metrics
moved_on m id = record m { surface_seq = set m.surface_seq id ((seq_of m id + 1) % 2 ^ 64) }

abbrev pub marked : Metrics → ℕ → DamageRect → Metrics
marked m id r =
    moved_on (if is_empty r then m else put_damage m id (merged_rect (damage_of m id) r)) id

module _ (m : Metrics) (id : ℕ) (lt : id < length m.surface_damage) where
  put_twice :
      (a : DamageRect) (f : DamageRect → DamageRect)
      → put_damage (put_damage m id a) id (f (damage_of (put_damage m id a) id))
        ≡ put_damage m id (f a)
  put_twice a f =
      ap (λ l. record m { surface_damage = l })
        (ap (λ x. set (set m.surface_damage id a) id (f x))
            (get_or-set_self m.surface_damage id a no_damage lt)
          ∙ set-set m.surface_damage id a (f a))

  -- The four stores of a rectangle put it in place.
  pub put_all :
      (r : DamageRect)
      → put_h id r.h (put_w id r.w (put_y id r.y (put_x id r.x m))) ≡ put_damage m id r
  put_all r =
      let old : DamageRect = damage_of m id in
      let e₁ : put_y id r.y (put_x id r.x m) ≡ put_damage m id (record old { x = r.x; y = r.y }) =
        put_twice (record old { x = r.x }) (λ a. record a { y = r.y }) in
      let e₂ : put_w id r.w (put_y id r.y (put_x id r.x m))
          ≡ put_damage m id (record old { x = r.x; y = r.y; w = r.w }) =
        ap (put_w id r.w) e₁
        ∙ put_twice (record old { x = r.x; y = r.y }) (λ a. record a { w = r.w }) in
      ap (put_h id r.h) e₂
      ∙ put_twice (record old { x = r.x; y = r.y; w = r.w }) (λ a. record a { h = r.h })

  pub run-mark_surface_damage :
      (r : DamageRect) → id < 4 → run (mark_surface_damage id r) m ≡ (marked m id r, tt)
  unfolding run mark_surface_damage merge_surface_damage mark_surface_commit merged_rect
  run-mark_surface_damage r hi =
      let in_bounds : leb 4 id ≡ false = ground arith in
      let below : ltb id 4 ≡ true = ground arith in
      elim (Bool-cases (is_empty r)) [
        | inl e ↦ rw (in_bounds, e, below) refl
        | inr e ↦ (elim (Bool-cases (is_empty (damage_of m id))) [
          | inl c ↦
              rw (in_bounds, e, below) (rw (run, c) (ap (λ x. (moved_on x id, tt)) (put_all r)))
          | inr c ↦
              rw (in_bounds, e, below) (rw (run, c) (ap (λ x. (moved_on x id, tt)) (put_all _)))
        ])
      ]

-- A snapshot that nothing interrupts is taken in one round.
pub run-surface_damage_snapshot :
    (m : Metrics) (id : ℕ)
    → id < 4
    → run (surface_damage_snapshot 1 id) m ≡ (m, some (seq_of m id, damage_of m id))
unfolding run surface_damage_snapshot
run-surface_damage_snapshot m id hi =
    let in_bounds : leb 4 id ≡ false = ground arith in
    let same : (seq_of m id == seq_of m id) ≡ true = ground arith in
    rw in_bounds (rw (run, same) refl)

-- At another number than the present one, a clear does nothing.
pub clear_stale :
    (m : Metrics) (id seq : ℕ) → seq ≢ seq_of m id → run (clear_surface_damage id seq) m ≡ (m, tt)
unfolding run clear_surface_damage
clear_stale m id seq ne = elim (Bool-cases (leb 4 id)) [
  | inl e ↦ rw e refl
  | inr e ↦
      (let other : (seq_of m id == seq) ≡ false = ground (arith, ne) in rw e (rw (run, other) refl))
]

module _ (m : Metrics) (id : ℕ) (r : DamageRect) (hd : length m.surface_damage ≡ 4)
    (hs : length m.surface_seq ≡ 4) (hi : id < 4) where
  pub seq-marked : seq_of (marked m id r) id ≡ (seq_of m id + 1) % 2 ^ 64
  seq-marked = elim (Bool-cases (is_empty r)) [
    | inl e ↦
        rw e
          (get_or-set_self m.surface_seq id ((seq_of m id + 1) % 2 ^ 64) 0 (omega (arith, hs, hi)))
    | inr e ↦
        rw e
          (get_or-set_self m.surface_seq id ((seq_of m id + 1) % 2 ^ 64) 0 (omega (arith, hs, hi)))
  ]

  pub damage-marked : damage_of (marked m id r) id ≡ grown (damage_of m id) r
  damage-marked = elim (Bool-cases (is_empty r)) [
    | inl e ↦ rw e refl
    | inr e ↦ rw e (
        get_or-set_self m.surface_damage id (merged_rect (damage_of m id) r) no_damage
          (omega (arith, hd, hi)))
  ]

pub grown-Covers :
    (cur r : DamageRect) (px py : ℕ)
    → px < 2 ^ 32 - 1
    → py < 2 ^ 32 - 1
    → Covers cur px py ⊎ Covers r px py
    → Covers (grown cur r) px py
grown-Covers cur r px py hx hy c = elim (Bool-cases (is_empty r)) [
  | inr e ↦ rw e (merged_rect-Covers cur r px py hx hy c)
  | inl e ↦ rw e (still c e)
]
  where
    still : Covers cur px py ⊎ Covers r px py → is_empty r ≡ true → Covers cur px py
    still (inl c) e = c
    still (inr c) e = absurd (ground (arith, c, e))

-- A mark that no other task interrupts: every pixel covered before, and every pixel of the new
-- rectangle, is covered by the damage that the next snapshot reads; and the commit number has moved
-- on, so that clearing at the number read before does nothing.
pub mark_surface_damage-Covers :
    (m : Metrics) (id : ℕ) (r : DamageRect) (px py : ℕ)
    → length m.surface_damage ≡ 4
    → length m.surface_seq ≡ 4
    → id < 4
    → px < 2 ^ 32 - 1
    → py < 2 ^ 32 - 1
    → seq_of m id < 2 ^ 64
    → Covers (damage_of m id) px py ⊎ Covers r px py
    → (m' : Metrics) × (run (mark_surface_damage id r) m ≡ (m', tt))
      × ((rect : DamageRect) × (run (surface_damage_snapshot 1 id) m'
            ≡ (m', some ((seq_of m id + 1) % 2 ^ 64, rect)))
          × Covers rect px py)
      × (run (clear_surface_damage id (seq_of m id)) m' ≡ (m', tt))
mark_surface_damage-Covers m id r px py hd hs hi hx hy bounded c =
    let n = seq-marked m id r hd hs hi in
    let d = damage-marked m id r hd hs hi in
    let ne : seq_of m id ≢ seq_of (marked m id r) id = rw n (λ e. omega arith) in
    (
      marked m id r,
      run-mark_surface_damage m id (omega (arith, hd, hi)) r hi,
      (
        damage_of (marked m id r) id,
        run-surface_damage_snapshot (marked m id r) id hi
            ∙ ap (λ s. (marked m id r, some (s, damage_of (marked m id r) id))) n,
        subst (λ q. Covers q px py) (sym d) (grown-Covers (damage_of m id) r px py hx hy c),
      ),
      clear_stale (marked m id r) id (seq_of m id) ne,
    )
