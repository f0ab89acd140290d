-- ===== src/Desktop/Digits.antt =====
-- Numbers as text in kernel/src/arm_tasks.rs.
use freshos.Base.{
  ℕ, zero, suc, ◌+◌, ◌-◌, ◌*◌, ◌/◌, ◌%◌, ◌^◌, ◌<◌, ◌≤◌, ◌≡◌, refl, arith, true, List, [], ◌∷◌,
  length, ◌==◌, if◌then◌else◌, Bool-cases, inl, inr, take, take_all, ◌∙◌, ap, sym, subst,
}
use native.Mathlib.Nat.{pow-suc}
use freshos.Desktop.{digit, push_digits, fmt_u64}

-- The number that digits stand for, after those read already.
abbrev pub read_digits : ℕ → List ℕ → ℕ
read_digits acc [] = acc
read_digits acc (d ∷ ds) = read_digits (acc * 10 + (d - 48)) ds

read-push_digits :
    (v fuel : ℕ) (ds : List ℕ)
    → v < 10 ^ fuel
    → read_digits 0 (push_digits v ds fuel) ≡ read_digits v ds
unfolding push_digits
read-push_digits v zero ds h = (let e : v ≡ 0 = omega arith in rw e refl)
read-push_digits v (suc fuel) ds h = elim (Bool-cases (v == 0)) [
  | inl e ↦ (let e' : v ≡ 0 = ground arith in rw (e, e') refl)
  | inr e ↦ rw e (
      read-push_digits (v / 10) fuel (digit (v % 10) ∷ ds) (omega (arith, pow-suc 10 fuel, h))
      ∙ ap (λ n. read_digits n ds)
          (let q : v / 10 * 10 + (48 + v % 10 - 48) ≡ v = omega arith in q))
]

push_digits-length :
    (v fuel n : ℕ) (ds : List ℕ) → v < 10 ^ n → length (push_digits v ds fuel) ≤ n + length ds
unfolding push_digits
push_digits-length v zero n ds h = omega arith
push_digits-length v (suc fuel) zero ds h =
    (let e : (v == 0) ≡ true = ground (arith, h) in rw e (omega arith))
push_digits-length v (suc fuel) (suc n) ds h = elim (Bool-cases (v == 0)) [
  | inl e ↦ rw e (omega arith)
  | inr e ↦ rw e (
      omega (
        arith,
        push_digits-length (v / 10) fuel n (digit (v % 10) ∷ ds) (omega (arith, pow-suc 10 n, h)),
      ))
]

-- Twenty digits are kept of a number that has no more.
read-take :
    (v fuel : ℕ) → v < 10 ^ fuel → v < 10 ^ 20 → read_digits 0 (take 20 (push_digits v [] fuel)) ≡ v
read-take v fuel h h' =
    ap (read_digits 0)
      (take_all 20 (push_digits v [] fuel) (omega (arith, push_digits-length v fuel 20 [] h')))
    ∙ read-push_digits v fuel [] h

-- A `u64` in a buffer of 20 bytes is written out in full: reading the text gives the number back.
pub read-fmt_u64 : (n : ℕ) → n < 2 ^ 64 → read_digits 0 (fmt_u64 n 20) ≡ n
unfolding fmt_u64
read-fmt_u64 n h = elim (Bool-cases (n == 0)) [
  | inl e ↦ (let e' : n ≡ 0 = ground arith in rw e' refl)
  | inr e ↦
      subst (λ b. read_digits 0 (if b then digit 0 ∷ [] else take 20 (push_digits n [] 21)) ≡ n)
        (sym e) (read-take n 21 (omega arith) (omega arith))
]
