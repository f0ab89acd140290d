-- ===== src/Base/Bits.antt =====
-- `|` and `&` at variables. The native operations are recursions on binary digits; from one
-- equation for the lowest digit follow the laws for fields, masks and single bits.
use Prim.Native.Nat.{
  ℕ, zero, suc, ◌+◌, ◌-◌, ◌*◌, ◌/◌, ◌%◌, ◌^◌, ◌≤◌, ◌<◌, min, max, bit_and, bit_or, digits,
  bit_and-bitwise, bit_or-bitwise,
}
use mathlib.Core.Path.{◌≡◌, refl, ap, ◌∙◌}
use native.Mathlib.Nat.{pow-suc}
use native.Mathlib.Omega.{arith}

-- The digits of `a` do not depend on the fuel, once it reaches `a`.
enough_fuel :
    (tail : ℕ → ℕ) (op : ℕ → ℕ → ℕ) (a b m n : ℕ)
    → a ≤ m
    → a ≤ n
    → digits tail op m a b ≡ digits tail op n a b
enough_fuel tail op zero b zero zero hm hn = refl
enough_fuel tail op zero b zero (suc n) hm hn = refl
enough_fuel tail op zero b (suc m) zero hm hn = refl
enough_fuel tail op zero b (suc m) (suc n) hm hn = refl
enough_fuel tail op (suc a) b zero n hm hn = absurd (omega arith)
enough_fuel tail op (suc a) b (suc m) zero hm hn = absurd (omega arith)
enough_fuel tail op (suc a) b (suc m) (suc n) hm hn =
    ap (λ d. d * 2 + op (suc a % 2) (b % 2))
      (enough_fuel tail op (suc a / 2) (b / 2) m n (omega arith) (omega arith))

pub bit_or_step : (a b : ℕ) → bit_or a b ≡ bit_or (a / 2) (b / 2) * 2 + max (a % 2) (b % 2)
bit_or_step zero b = omega (arith, bit_or-bitwise zero b, bit_or-bitwise zero (b / 2))
bit_or_step (suc a) b = omega (
  arith,
  bit_or-bitwise (suc a) b,
  bit_or-bitwise (suc a / 2) (b / 2),
  enough_fuel (λ y. y) max (suc a / 2) (b / 2) a (suc a / 2) (omega arith) (omega arith),
)

pub bit_and_step : (a b : ℕ) → bit_and a b ≡ bit_and (a / 2) (b / 2) * 2 + min (a % 2) (b % 2)
bit_and_step zero b = omega (arith, bit_and-bitwise zero b, bit_and-bitwise zero (b / 2))
bit_and_step (suc a) b = omega (
  arith,
  bit_and-bitwise (suc a) b,
  bit_and-bitwise (suc a / 2) (b / 2),
  enough_fuel (λ y. 0) min (suc a / 2) (b / 2) a (suc a / 2) (omega arith) (omega arith),
)

or_zero_upto : (n a : ℕ) → a ≤ n → bit_or a 0 ≡ a
or_zero_upto n zero h = refl
or_zero_upto zero (suc a) h = absurd (omega arith)
or_zero_upto (suc n) (suc a) h =
    omega (arith, bit_or_step (suc a) 0, or_zero_upto n (suc a / 2) (omega arith))

pub bit_or-zero : (a : ℕ) → bit_or a 0 ≡ a
bit_or-zero a = or_zero_upto a a (omega arith)

and_zero_upto : (n a : ℕ) → a ≤ n → bit_and a 0 ≡ 0
and_zero_upto n zero h = refl
and_zero_upto zero (suc a) h = absurd (omega arith)
and_zero_upto (suc n) (suc a) h =
    omega (arith, bit_and_step (suc a) 0, and_zero_upto n (suc a / 2) (omega arith))

pub bit_and-zero : (a : ℕ) → bit_and a 0 ≡ 0
bit_and-zero a = and_zero_upto a a (omega arith)

double_field : (q k : ℕ) → q * 2 ^ suc k ≡ 2 * (q * 2 ^ k)
double_field q k = omega (arith, ap (λ (t : ℕ). q * t) (pow-suc 2 k))

-- A field that starts at bit `k`, or'ed with one that fits below it, is the sum.
pub bit_or_fields : (k q r : ℕ) → r < 2 ^ k → bit_or (q * 2 ^ k) r ≡ q * 2 ^ k + r
bit_or_fields zero q zero h = ground (arith, bit_or-zero q)
bit_or_fields zero q (suc r) h = absurd (omega arith)
bit_or_fields (suc k) q r h = omega (
  arith,
  bit_or_step (q * 2 ^ suc k) r,
  double_field q k,
  pow-suc 2 k,
  bit_or_fields k q (r / 2) (omega (arith, pow-suc 2 k)),
  ap (λ t. bit_or t (r / 2))
      (let e : q * 2 ^ suc k / 2 ≡ q * 2 ^ k = omega (arith, double_field q k) in e),
)

pub bit_and_one : (a : ℕ) → bit_and a 1 ≡ a % 2
bit_and_one a = omega (arith, bit_and_step a 1, bit_and-zero (a / 2))

-- A mask of two ones, the rights SEND and RECV.
pub bit_and_three : (a : ℕ) → bit_and a 3 ≡ a % 4
bit_and_three a = omega (arith, bit_and_step a 3, bit_and_one (a / 2))

and_comm_upto : (n a b : ℕ) → a ≤ n → bit_and a b ≡ bit_and b a
and_comm_upto n zero b h = omega (arith, bit_and-bitwise zero b, bit_and-zero b)
and_comm_upto zero (suc a) b h = absurd (omega arith)
and_comm_upto (suc n) (suc a) b h = omega (
  arith,
  bit_and_step (suc a) b,
  bit_and_step b (suc a),
  and_comm_upto n (suc a / 2) (b / 2) (omega arith),
)

pub bit_and_comm : (a b : ℕ) → bit_and a b ≡ bit_and b a
bit_and_comm a b = and_comm_upto a a b (omega arith)

-- A mask of `k` ones takes the lowest `k` bits.
pub bit_and_ones_fields : (k q r : ℕ) → r < 2 ^ k → bit_and (q * 2 ^ k + r) (2 ^ k - 1) ≡ r
bit_and_ones_fields zero q r h = omega (arith, bit_and-zero (q * 2 ^ 0 + r))
bit_and_ones_fields (suc k) q r h =
    let p = pow-suc 2 k in
    let d = double_field q k in
    let rest : (q * 2 ^ suc k + r) / 2 ≡ q * 2 ^ k + r / 2 = omega arith in
    let ones : (2 ^ suc k - 1) / 2 ≡ 2 ^ k - 1 = omega arith in
    omega (
      arith,
      bit_and_step (q * 2 ^ suc k + r) (2 ^ suc k - 1),
      ap (λ a. bit_and a ((2 ^ suc k - 1) / 2)) rest,
      ap (λ m. bit_and (q * 2 ^ k + r / 2) m) ones,
      bit_and_ones_fields k q (r / 2) (omega arith),
    )

-- A mask with `k` zeros at the bottom drops the lowest `k` bits.
pub bit_and_field :
    (k m q r : ℕ) → r < 2 ^ k → bit_and (q * 2 ^ k + r) (m * 2 ^ k) ≡ bit_and q m * 2 ^ k
bit_and_field zero m q r h =
    ap (λ x. bit_and x (m * 2 ^ 0)) (let e : q * 2 ^ 0 + r ≡ q = omega arith in e)
    ∙ (ap (λ x. bit_and q x) (let e : m * 2 ^ 0 ≡ m = omega arith in e)
        ∙ (let e : bit_and q m ≡ bit_and q m * 2 ^ 0 = omega arith in e))
bit_and_field (suc k) m q r h =
    let p = pow-suc 2 k in
    let d = double_field m k in
    let d' = double_field q k in
    let half : m * 2 ^ suc k / 2 ≡ m * 2 ^ k = omega arith in
    let rest : (q * 2 ^ suc k + r) / 2 ≡ q * 2 ^ k + r / 2 = omega arith in
    omega (
      arith,
      bit_and_step (q * 2 ^ suc k + r) (m * 2 ^ suc k),
      ap (λ a. bit_and a (m * 2 ^ suc k / 2)) rest,
      ap (λ x. bit_and (q * 2 ^ k + r / 2) x) half,
      bit_and_field k m q (r / 2) (omega arith),
      double_field (bit_and q m) k,
    )
