-- ===== src/Desktop/Areas.antt =====
-- The areas of the rectangles in kernel/src/arm_tasks.rs.
use freshos.Base.{
  ℕ, ◌+◌, ◌-◌, ◌^◌, ◌<◌, ◌≡◌, min, max, refl, arith, true, false, Bool, ◌&&◌, ◌||◌, Option, none,
  some, leb, ltb, Bool-cases, inl, inr, sym, ◌∙◌, ◌⊎◌,
}
use mathlib.Core.Path.{ap₂}
use freshos.Desktop.{Rect, right, bottom, rect_intersection}

abbrev in_span : ℕ → ℕ → ℕ → Bool
in_span p q x = leb p x && ltb x q

-- Whether the point lies in the rectangle.
abbrev pub is_in : Rect → ℕ → ℕ → Bool
is_in a x y = in_span a.x (a.x + a.w) x && in_span a.y (a.y + a.h) y

-- No rectangle has no point.
abbrev pub is_in_some : Option Rect → ℕ → ℕ → Bool
is_in_some none x y = false
is_in_some (some a) x y = is_in a x y

spans_meet :
    (p q p' q' x : ℕ)
    → in_span (max p p') (max p p' + (min q q' - max p p')) x ≡ (in_span p q x && in_span p' q' x)
spans_meet p q p' q' x = ground arith

spans_apart :
    (p q p' q' x : ℕ)
    → leb (min q q') (max p p') ≡ true
    → (in_span p q x && in_span p' q' x) ≡ false
spans_apart p q p' q' x h = ground arith

exchange : (a b c d : Bool) → ((a && b) && (c && d)) ≡ ((a && c) && (b && d))
exchange true b true d = refl
exchange true true false d = refl
exchange true false false d = refl
exchange false b c d = refl

one_false : (a b : Bool) → (a ≡ false) ⊎ (b ≡ false) → (a && b) ≡ false
one_false false b h = refl
one_false true false h = refl
one_false true true (inl h) = h
one_false true true (inr h) = h

one_true : (a b : Bool) → (a || b) ≡ true → (a ≡ true) ⊎ (b ≡ true)
one_true true b h = inl refl
one_true false b h = inr h

-- The right and lower edges can be represented.
pub record Fits (a : Rect) : Type 0 where
  pub across : a.x + a.w < 2 ^ 64
  pub down : a.y + a.h < 2 ^ 64

right-Fits : (a : Rect) → Fits a → right a ≡ a.x + a.w
unfolding right
right-Fits a f = omega (arith, f.across)

bottom-Fits : (a : Rect) → Fits a → bottom a ≡ a.y + a.h
unfolding bottom
bottom-Fits a f = omega (arith, f.down)

-- The intersection of two rectangles whose edges fit 64 bits has exactly the points that are in both,
-- and is nothing if there are none.
pub is_in-rect_intersection :
    (a b : Rect) (x y : ℕ)
    → Fits a
    → Fits b
    → is_in_some (rect_intersection a b) x y ≡ (is_in a x y && is_in b x y)
unfolding rect_intersection
is_in-rect_intersection a b x y fa fb =
    let r = leb (min (a.x + a.w) (b.x + b.w)) (max a.x b.x) in
    let d = leb (min (a.y + a.h) (b.y + b.h)) (max a.y b.y) in
    let swap =
      exchange (in_span a.x (a.x + a.w) x) (in_span b.x (b.x + b.w) x) (in_span a.y (a.y + a.h) y)
        (in_span b.y (b.y + b.h) y) in
    rw (right-Fits a fa, right-Fits b fb, bottom-Fits a fa, bottom-Fits b fb)
      (elim (Bool-cases (r || d)) [
        | inl e ↦ rw e (
            sym (
              sym swap
              ∙ one_false _ _ (elim (one_true r d e) [
                | inl h ↦ inl (spans_apart a.x (a.x + a.w) b.x (b.x + b.w) x h)
                | inr h ↦ inr (spans_apart a.y (a.y + a.h) b.y (b.y + b.h) y h)
              ])))
        | inr e ↦ rw e (
            ap₂ (λ p q. p && q) (spans_meet a.x (a.x + a.w) b.x (b.x + b.w) x)
              (spans_meet a.y (a.y + a.h) b.y (b.y + b.h) y)
            ∙ swap)
      ])
