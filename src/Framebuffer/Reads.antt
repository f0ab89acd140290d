-- ===== src/Framebuffer/Reads.antt =====
-- What is drawn is read back.
use freshos.Base.{
  ℕ, zero, suc, ◌+◌, ◌*◌, ◌/◌, ◌%◌, ◌^◌, ◌<◌, ◌≤◌, ◌≡◌, refl, sym, ap, ◌∙◌, inl, inr, arith, false,
  ◌&&◌, ◌||◌, leb, ◌==◌, if◌then◌else◌, Bool-cases, bit_or,
}
use freshos.Base.Bits.{bit_or_fields}
use native.Mathlib.Nat.{suc-mul}
use freshos.Framebuffer.{
  Pixels, Color, Framebuffer, pixel_at, write_pixel, packed_pixel, put_pixel, read_pixel,
}

-- Places in different rows or columns are different.
same_place : (s y y' x x' : ℕ) → x < s → x' < s → y * s + x ≡ y' * s + x' → (x ≡ x') × (y ≡ y')
same_place s zero zero x x' l l' e = (omega (arith, e), refl)
same_place s zero (suc y') x x' l l' e = absurd (omega (arith, suc-mul y' s, l, e))
same_place s (suc y) zero x x' l l' e = absurd (omega (arith, suc-mul y s, l', e))
same_place s (suc y) (suc y') x x' l l' e =
    let (ex, ey) = same_place s y y' x x' l l' (omega (arith, suc-mul y s, suc-mul y' s, e)) in
    (ex, ap suc ey)

-- Three bytes in one number.
packed :
    (a b c : ℕ)
    → a < 256
    → b < 256
    → c < 256
    → bit_or (bit_or (a * 2 ^ 16) (b * 2 ^ 8)) c ≡ (a * 256 + b) * 256 + c
packed a b c la lb lc =
    ap (λ n. bit_or n c) (bit_or_fields 16 a (b * 2 ^ 8) (omega (arith, lb)))
    ∙ (ap (λ n. bit_or n c)
          (let e : a * 2 ^ 16 + b * 2 ^ 8 ≡ (a * 256 + b) * 2 ^ 8 = omega arith in e)
        ∙ bit_or_fields 8 (a * 256 + b) c lc)

-- The three parts fit a byte.
unfoldable pub AreBytes : Color → Type 0
AreBytes c = (c.r < 256) × (c.g < 256) × (c.b < 256)

-- The colour that a pixel stands for.
unpacked : Framebuffer → ℕ → Color
unpacked fb p =
    if fb.is_bgr
    then record { r = p / 2 ^ 16 % 256; g = p / 2 ^ 8 % 256; b = p % 256 }
    else record { r = p % 256; g = p / 2 ^ 8 % 256; b = p / 2 ^ 16 % 256 }

three_bytes :
    (a b c n : ℕ)
    → a < 256
    → b < 256
    → c < 256
    → n ≡ (a * 256 + b) * 256 + c
    → (n / 2 ^ 16 % 256 ≡ a) × (n / 2 ^ 8 % 256 ≡ b) × (n % 256 ≡ c)
three_bytes a b c n la lb lc e =
    (omega (arith, la, lb, lc, e), omega (arith, la, lb, lc, e), omega (arith, la, lb, lc, e))

same_color :
    (c : Color) (r g b : ℕ) → r ≡ c.r → g ≡ c.g → b ≡ c.b → record { r = r; g = g; b = b } ≡ c
same_color c r g b er eg eb = rw (er, eg, eb) refl

unpacked-packed_pixel :
    (fb : Framebuffer) (c : Color) → AreBytes c → unpacked fb (packed_pixel fb c) ≡ c
unfolding AreBytes unpacked packed_pixel
unpacked-packed_pixel fb c (lr, lg, lb) = elim (Bool-cases fb.is_bgr) [
  | inl e ↦
      (let (x, y, z) = three_bytes c.r c.g c.b _ lr lg lb (packed c.r c.g c.b lr lg lb) in
        rw e (same_color c _ _ _ x y z))
  | inr e ↦
      (let (x, y, z) = three_bytes c.b c.g c.r _ lb lg lr (packed c.b c.g c.r lb lg lr) in
        rw e (same_color c _ _ _ z y x))
]

read_visible :
    (fb : Framebuffer) (x y : ℕ) (m : Pixels)
    → x < fb.width
    → y < fb.height
    → read_pixel fb x y m ≡ unpacked fb (m (pixel_at fb x y))
unfolding read_pixel unpacked
read_visible fb x y m lx ly =
    let v : (leb fb.width x || leb fb.height y) ≡ false = ground (arith, lx, ly) in rw v refl

put_visible :
    (fb : Framebuffer) (x y : ℕ) (c : Color) (m : Pixels)
    → x < fb.width
    → y < fb.height
    → (a : ℕ) → put_pixel fb x y c m a ≡ (if a == pixel_at fb x y then packed_pixel fb c else m a)
unfolding put_pixel write_pixel
put_visible fb x y c m lx ly a =
    let v : (leb fb.width x || leb fb.height y) ≡ false = ground (arith, lx, ly) in rw v refl

-- Two places of the framebuffer have one address only if they are the same.
same_address :
    (fb : Framebuffer) (x y x' y' : ℕ)
    → fb.width ≤ fb.stride
    → x < fb.width
    → x' < fb.width
    → (pixel_at fb x' y' == pixel_at fb x y) ≡ (x' == x && y' == y)
same_address fb x y x' y' wide lx lx' = elim (Bool-cases (x' == x && y' == y)) [
  | inl e ↦
      (let ex : x' ≡ x = ground (arith, e) in
        let ey : y' ≡ y = ground (arith, e) in
        let q : pixel_at fb x' y' ≡ pixel_at fb x y = rw (ex, ey) refl in ground (arith, q) ∙ sym e)
  | inr e ↦ (elim (Bool-cases (pixel_at fb x' y' == pixel_at fb x y)) [
    | inl a ↦
        (let q : y' * fb.stride + x' ≡ y * fb.stride + x = ground (arith, a) in
          let (ex, ey) =
            same_place fb.stride y' y x' x (omega (arith, lx', wide)) (omega (arith, lx, wide)) q in
          absurd (ground (arith, ex, ey, e)))
    | inr a ↦ a ∙ sym e
  ])
]

-- A pixel that was put is read back, and every other visible pixel reads as before, on a framebuffer
-- whose rows do not overlap and for a colour of three bytes.
pub read_pixel-put_pixel :
    (fb : Framebuffer) (x y x' y' : ℕ) (c : Color) (m : Pixels)
    → fb.width ≤ fb.stride
    → AreBytes c
    → x < fb.width
    → y < fb.height
    → x' < fb.width
    → y' < fb.height
    → read_pixel fb x' y' (put_pixel fb x y c m)
      ≡ (if x' == x && y' == y then c else read_pixel fb x' y' m)
read_pixel-put_pixel fb x y x' y' c m wide bytes lx ly lx' ly' =
    let at_ = put_visible fb x y c m lx ly (pixel_at fb x' y') in
    let same = same_address fb x y x' y' wide lx lx' in
    read_visible fb x' y' (put_pixel fb x y c m) lx' ly'
    ∙ (ap (unpacked fb) at_ ∙ elim (Bool-cases (x' == x && y' == y)) [
      | inl e ↦ rw (same, e) (unpacked-packed_pixel fb c bytes)
      | inr e ↦ rw (same, e) (sym (read_visible fb x' y' m lx' ly'))
    ])
