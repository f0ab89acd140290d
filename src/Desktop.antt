-- ===== src/Desktop.antt =====
-- The helpers of kernel/src/arm_tasks.rs that draw nothing: rectangles of damage, numbers as text, and
-- the lines of the shell. A buffer is its used part.
pub mod Areas
pub mod Digits
use freshos.Base.{
  ℕ, zero, suc, ◌+◌, ◌-◌, ◌*◌, ◌/◌, ◌%◌, ◌^◌, min, max, Bool, true, false, ◌&&◌, ◌||◌, Option, none,
  some, List, [], ◌∷◌, ◌++◌, leb, ltb, ◌==◌, if◌then◌else◌, length, take,
}
use freshos.Metrics.{DamageRect}

pub record Rect : Type 0 where
  pub x : ℕ
  pub y : ℕ
  pub w : ℕ
  pub h : ℕ

-- `self.x + self.w` at `usize`, which wraps around without overflow checks.
unfoldable pub right : Rect → ℕ
right a = (a.x + a.w) % 2 ^ 64

unfoldable pub bottom : Rect → ℕ
bottom a = (a.y + a.h) % 2 ^ 64

unfoldable pub rect_union : Rect → Rect → Rect
unfolding right bottom
rect_union a b =
    let x : ℕ = min a.x b.x in
    let y : ℕ = min a.y b.y in
    record { x = x; y = y; w = max (right a) (right b) - x; h = max (bottom a) (bottom b) - y }

unfoldable pub rect_intersection : Rect → Rect → Option Rect
unfolding right bottom
rect_intersection a b =
    let x : ℕ = max a.x b.x in
    let y : ℕ = max a.y b.y in
    let r : ℕ = min (right a) (right b) in
    let d : ℕ = min (bottom a) (bottom b) in
    if leb r x || leb d y then none else some (record { x = x; y = y; w = r - x; h = d - y })

unfoldable pub extend_damage : Option Rect → Rect → Option Rect
unfolding rect_union
extend_damage none rect = some rect
extend_damage (some existing) rect = some (rect_union existing rect)

abbrev pub surf_w : ℕ
surf_w = 620

abbrev pub surf_h : ℕ
surf_h = 480

abbrev pub win_title_h : ℕ
win_title_h = 28

abbrev pub win_border : ℕ
win_border = 2

-- `saturating_sub` is subtraction on ℕ.
unfoldable pub outer_rect_for_window : ℕ → ℕ → Rect
outer_rect_for_window wx wy = record {
  x = wx - win_border;
  y = wy - (win_title_h + win_border);
  w = surf_w + win_border * 2;
  h = surf_h + win_title_h + win_border * 2;
}

unfoldable pub metrics_damage_rect_to_rect : DamageRect → Option Rect
metrics_damage_rect_to_rect d =
    if d.w == 0 || d.h == 0 then none else some (record { x = d.x; y = d.y; w = d.w; h = d.h })

-- `b'0' + d`.
abbrev pub digit : ℕ → ℕ
digit d = 48 + d

-- `hh:mm:ss`.
unfoldable pub fmt_hms : ℕ → List ℕ
fmt_hms ns =
    let s : ℕ = ns / 1_000_000_000 in
    let m : ℕ = s / 60 in
    let h : ℕ = m / 60 in
    digit (h / 10 % 10)
    ∷ digit (h % 10)
    ∷ b':'
    ∷ digit (m % 60 / 10)
    ∷ digit (m % 60 % 10)
    ∷ b':'
    ∷ digit (s % 60 / 10)
    ∷ digit (s % 60 % 10)
    ∷ []

-- `while v > 0`, on fuel: the digits of `v`, the last one first, before those that are there. What is
-- left over is read from the end.
unfoldable pub push_digits : ℕ → List ℕ → ℕ → List ℕ
push_digits v ds zero = ds
push_digits v ds (suc fuel) =
    let rest = push_digits (v / 10) (digit (v % 10) ∷ ds) fuel in if v == 0 then ds else rest

-- A `u64` has at most 20 digits; as many as the buffer holds are kept.
unfoldable pub fmt_u64 : ℕ → ℕ → List ℕ
unfolding push_digits
fmt_u64 n capacity = if n == 0 then digit 0 ∷ [] else take capacity (push_digits n [] 21)

-- The digits of a latency; `none` is the panic of a write past the six places of its buffer.
unfoldable pub six_digits : ℕ → Option (List ℕ)
unfolding push_digits
six_digits n =
    let ds : List ℕ = push_digits n [] 21 in
    if n == 0 then some (digit 0 ∷ []) else if leb (length ds) 6 then some ds else none

abbrev pub append : Option (List ℕ) → List ℕ → Option (List ℕ)
append none tail = none
append (some ds) tail = some (ds ++ tail)

-- Milliseconds with one decimal, or microseconds.
unfoldable pub fmt_latency : ℕ → Option (List ℕ)
unfolding six_digits
fmt_latency us =
    let ms : ℕ = us / 1000 in
    let frac : ℕ = us % 1000 / 100 in
    if ltb 0 ms || leb 1000 us
    then append (six_digits ms) (b'.' ∷ digit (frac % 10) ∷ b'm' ∷ b's' ∷ [])
    else append (six_digits us) (b'u' ∷ b's' ∷ [])

unfoldable pub hud_metric_bucket : ℕ → ℕ
hud_metric_bucket us =
    if leb 10_000 us then us / 1_000 else if leb 1_000 us then us / 100 else us / 50

-- The shell's lines, of at most `n` bytes.
unfoldable pub push_byte : ℕ → List ℕ → ℕ → List ℕ
push_byte n line byte = if ltb (length line) n then line ++ (byte ∷ []) else line

unfoldable pub push_str : ℕ → List ℕ → List ℕ → List ℕ
unfolding push_byte
push_str n line [] = line
push_str n line (byte ∷ text) = push_str n (push_byte n line byte) text

unfoldable pub push_u64 : ℕ → List ℕ → ℕ → List ℕ
unfolding push_str fmt_u64
push_u64 n line value = push_str n line (fmt_u64 value 20)
