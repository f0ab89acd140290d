-- ===== src/Base/Ring.antt =====
-- Ring buffers: the entries that a ring holds, read at unwrapped indices.
use Prim.Native.Nat.{ℕ, zero, suc, ◌+◌, ◌-◌, ◌%◌, ◌<◌, ◌≤◌}
use mathlib.Core.Path.{◌≡◌, refl, ap, ap₂, ◌∙◌, sym}
use mathlib.Core.Logic.{◌≢◌}
use mathlib.Core.List.{List, [], ◌∷◌, ◌++◌}
use native.Mathlib.Omega.{arith}
use native.Mathlib.Nat.{mod-add-mod, mod-eq_of_lt, mod-eq-sub-mod, add-zero}
use native.Mathlib.Decide.{dec_lt}
use freshos.Base.Lists.{length, get_or, set, get_or-set_self, get_or-set_ne, drop}

-- A step of less than `width` does not come back to its place.
step_places : (width r m : ℕ) → r < width → m < width → 0 < m → (r + m) % width ≢ r
step_places width r m hr hm pos e = elim (dec_lt (r + m) width) [
  | yes p ↦ omega (arith, mod-eq_of_lt p)
  | no p ↦ omega (
    arith,
    mod-eq-sub-mod {n = r + m} {m = width} (omega arith),
    mod-eq_of_lt {n = r + m - width} {m = width} (omega arith),
  )
]

-- Two unwrapped indices less than `width` apart are different places.
pub ring_places : (width i k n : ℕ) → n < width → i ≤ k → k < i + n → (i + n) % width ≢ k % width
ring_places width i k n h p q e =
    step_places width (k % width) (i + n - k) (omega arith) (omega arith) (omega arith) (
      mod-add-mod k width (i + n - k)
      ∙ ap (λ t. t % width) (let e' : k + (i + n - k) ≡ i + n = omega arith in e')
      ∙ e)

module _ {ℓ} {A : Type ℓ} where
  -- f i, f (i + 1), … , f (i + n - 1).
  abbrev pub slice : (ℕ → A) → ℕ → ℕ → List A
  slice f i zero = []
  slice f i (suc n) = f i ∷ slice f (i + 1) n

  pub length-slice : (f : ℕ → A) (i n : ℕ) → length (slice f i n) ≡ n
  length-slice f i zero = refl
  length-slice f i (suc n) = ap suc (length-slice f (i + 1) n)

  pub slice_cong :
      (f g : ℕ → A) (i n : ℕ)
      → ((k : ℕ) → i ≤ k → k < i + n → f k ≡ g k)
      → slice f i n ≡ slice g i n
  slice_cong f g i zero h = refl
  slice_cong f g i (suc n) h =
      ap₂ ◌∷◌ (h i (omega arith) (omega arith))
        (slice_cong f g (i + 1) n (λ k p q. h k (omega arith) (omega arith)))

  -- The same entries from another start.
  pub slice_shift :
      (f g : ℕ → A) (i j n : ℕ)
      → ((k : ℕ) → k < n → f (i + k) ≡ g (j + k))
      → slice f i n ≡ slice g j n
  slice_shift f g i j zero h = refl
  slice_shift f g i j (suc n) h =
      ap₂ ◌∷◌ (ap f (sym (add-zero i)) ∙ h 0 (omega arith) ∙ ap g (add-zero j)) (
        slice_shift f g (i + 1) (j + 1) n (λ k p.
          ap f (let e : i + 1 + k ≡ i + suc k = omega arith in e)
          ∙ h (suc k) (omega arith)
          ∙ ap g (let e : j + suc k ≡ j + 1 + k = omega arith in e)))

  pub slice-snoc : (f : ℕ → A) (i n : ℕ) → slice f i (suc n) ≡ slice f i n ++ (f (i + n) ∷ [])
  slice-snoc f i zero = ap (λ k. f k ∷ []) (omega arith)
  slice-snoc f i (suc n) =
      ap (◌∷◌ (f i))
        (slice-snoc f (i + 1) n ∙ ap (λ k. slice f (i + 1) n ++ (f k ∷ [])) (omega arith))

  pub drop-slice : (f : ℕ → A) (i n k : ℕ) → k ≤ n → drop k (slice f i n) ≡ slice f (i + k) (n - k)
  drop-slice f i n zero h = ap₂ (slice f) (omega arith) (omega arith)
  drop-slice f i zero (suc k) h = absurd (omega arith)
  drop-slice f i (suc n) (suc k) h =
      drop-slice f (i + 1) n k (omega arith) ∙ ap₂ (slice f) (omega arith) (omega arith)

  -- The entry at an unwrapped index of a ring of `width` places.
  abbrev pub at_ring : List A → A → ℕ → ℕ → A
  at_ring xs d width k = get_or xs (k % width) d

  -- Writing in the place after `n` entries adds that entry, and keeps those.
  pub slice-set :
      (xs : List A) (d v : A) (width i n : ℕ)
      → length xs ≡ width
      → n < width
      → slice (at_ring (set xs ((i + n) % width) v) d width) i (suc n)
        ≡ slice (at_ring xs d width) i n ++ (v ∷ [])
  slice-set xs d v width i n hl h =
      slice-snoc _ i n
      ∙ ap₂ (λ a b. a ++ (b ∷ []))
          (slice_cong _ _ i n (λ k p q.
            get_or-set_ne xs ((i + n) % width) (k % width) v d (ring_places width i k n h p q)))
          (get_or-set_self xs ((i + n) % width) v d (omega arith))

  -- A start that wraps round reads the same entries.
  pub slice-wrap :
      (xs : List A) (d : A) (width i n : ℕ)
      → slice (at_ring xs d width) (i % width) n ≡ slice (at_ring xs d width) i n
  slice-wrap xs d width i n =
      slice_shift _ _ (i % width) i n (λ k h. ap (λ p. get_or xs p d) (mod-add-mod i width k))

  -- The entries of a list from `i` on.
  pub slice-get_or :
      (xs : List A) (d : A) (i n : ℕ)
      → i + n ≡ length xs
      → slice (λ k. get_or xs k d) i n ≡ drop i xs
  slice-get_or [] d zero zero e = refl
  slice-get_or [] d (suc i) zero e = refl
  slice-get_or [] d i (suc n) e = absurd (omega arith)
  slice-get_or (x ∷ xs) d zero zero e = absurd (omega arith)
  slice-get_or (x ∷ xs) d zero (suc n) e = ap (◌∷◌ x) (
      slice_shift _ (λ k. get_or xs k d) (0 + 1) 0 n
        (λ k h.
          ap (λ t. get_or (x ∷ xs) t d) (let e' : 0 + 1 + k ≡ suc k = omega arith in e')
          ∙ ap (λ t. get_or xs t d) (let e' : k ≡ 0 + k = omega arith in e'))
      ∙ slice-get_or xs d 0 n (omega arith))
  slice-get_or (x ∷ xs) d (suc i) n e =
      slice_shift _ (λ k. get_or xs k d) (suc i) i n
        (λ k h.
          ap (λ t. get_or (x ∷ xs) t d) (let e' : suc i + k ≡ suc (i + k) = omega arith in e'))
      ∙ slice-get_or xs d i n (omega arith)
