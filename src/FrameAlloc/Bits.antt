-- ===== src/FrameAlloc/Bits.antt =====
-- The bits of one byte of the bitmap, by trying all of them, and what a bit means for a frame.
use freshos.Base.{
  ℕ, ◌-◌, ◌/◌, ◌%◌, ◌^◌, ◌<◌, bit_and, bit_or, ◌≡◌, refl, Bool, true, false, not, ◌&&◌, some, none,
  arith, ltb, ◌==◌, if◌then◌else◌, all_below, all_below_sound, bool_eq,
}
use freshos.FrameAlloc.{set_bit, clear_bit, used_frame, clear_bit_from}

abbrev pub is_clear : ℕ → ℕ → Bool
is_clear byte bit = bit_and byte (2 ^ bit) == 0

-- All that the proofs need of a byte and two bit numbers.
byte_test : ℕ → ℕ → ℕ → Bool
byte_test byte bit j =
    bool_eq (is_clear (bit_or byte (2 ^ bit)) j) (if bit == j then false else is_clear byte j)
    && bool_eq (is_clear (bit_and byte (0xFF - 2 ^ bit)) j)
        (if bit == j then true else is_clear byte j)
    && ltb (bit_or byte (2 ^ bit)) 256
    && ltb (bit_and byte (0xFF - 2 ^ bit)) 256

byte_table : all_below 256 (λ b. all_below 8 (λ k. all_below 8 (byte_test b k))) ≡ true
unfolding byte_test
byte_table = refl

byte_test-true : (b k j : ℕ) → b < 256 → k < 8 → j < 8 → byte_test b k j ≡ true
byte_test-true b k j hb hk hj =
    all_below_sound 8 (byte_test b k) j
      (all_below_sound 8 (λ k. all_below 8 (byte_test b k)) k
        (all_below_sound 256 (λ b. all_below 8 (λ k. all_below 8 (byte_test b k))) b byte_table hb)
        hk)
      hj

module _ (b k j : ℕ) (hb : b < 256) (hk : k < 8) (hj : j < 8) where
  pub is_clear-bit_or : is_clear (bit_or b (2 ^ k)) j ≡ (if k == j then false else is_clear b j)
  unfolding byte_test
  is_clear-bit_or = ground (arith, byte_test-true b k j hb hk hj)

  pub is_clear-bit_and :
      is_clear (bit_and b (0xFF - 2 ^ k)) j ≡ (if k == j then true else is_clear b j)
  unfolding byte_test
  is_clear-bit_and = ground (arith, byte_test-true b k j hb hk hj)

  pub byte_bounds : (bit_or b (2 ^ k) < 256) × (bit_and b (0xFF - 2 ^ k) < 256)
  unfolding byte_test
  byte_bounds = ground (arith, byte_test-true b k j hb hk hj)

-- `clear_bit_from` finds a clear bit of every byte but 0xFF, and only a clear one.
clear_bit_test : ℕ → Bool
clear_bit_test byte = elim (clear_bit_from byte 0 8) [
  | none ↦ byte == 0xFF
  | some bit ↦ ltb bit 8 && is_clear byte bit
]

clear_bit_table : all_below 256 clear_bit_test ≡ true
unfolding clear_bit_test clear_bit_from
clear_bit_table = refl

pub clear_bit_some :
    (byte bit : ℕ)
    → byte < 256
    → clear_bit_from byte 0 8 ≡ some bit
    → (bit < 8) × (is_clear byte bit ≡ true)
unfolding clear_bit_test
clear_bit_some byte bit h e =
    ground (arith, all_below_sound 256 clear_bit_test byte clear_bit_table h)

pub clear_bit_none : (byte : ℕ) → byte < 256 → clear_bit_from byte 0 8 ≡ none → byte ≡ 0xFF
unfolding clear_bit_test
clear_bit_none byte h e = ground (arith, all_below_sound 256 clear_bit_test byte clear_bit_table h)

full_table : all_below 8 (λ j. not (is_clear 0xFF j)) ≡ true
full_table = refl

-- In a full byte every bit is set.
pub full_byte : (j : ℕ) → j < 8 → is_clear 0xFF j ≡ false
full_byte j h = ground (arith, all_below_sound 8 (λ j. not (is_clear 0xFF j)) j full_table h)

-- Every entry of the bitmap is a byte.
abbrev pub IsBitmap : (ℕ → ℕ) → Type 0
IsBitmap bm = (i : ℕ) → bm i < 256

module _ (bm : ℕ → ℕ) (h : IsBitmap bm) (byte bit : ℕ) (hb : bit < 8) where
  pub set_bit-IsBitmap : IsBitmap (set_bit bm byte bit)
  unfolding set_bit
  set_bit-IsBitmap i = ground (arith, h i, byte_bounds (bm byte) bit bit (h byte) hb hb)

  pub clear_bit-IsBitmap : IsBitmap (clear_bit bm byte bit)
  unfolding clear_bit
  clear_bit-IsBitmap i = ground (arith, h i, byte_bounds (bm byte) bit bit (h byte) hb hb)

module _ (bm : ℕ → ℕ) (h : IsBitmap bm) (f : ℕ) where
  -- Setting a frame's bit marks that frame used, and no other.
  pub used_frame-set_bit :
      (g : ℕ)
      → used_frame (set_bit bm (f / 8) (f % 8)) g ≡ (if f == g then true else used_frame bm g)
  unfolding used_frame set_bit
  used_frame-set_bit g =
      ground (
        arith,
        is_clear-bit_or (bm (f / 8)) (f % 8) (g % 8) (h (f / 8)) (omega arith) (omega arith),
      )

  pub used_frame-clear_bit :
      (g : ℕ)
      → used_frame (clear_bit bm (f / 8) (f % 8)) g ≡ (if f == g then false else used_frame bm g)
  unfolding used_frame clear_bit
  used_frame-clear_bit g =
      ground (
        arith,
        is_clear-bit_and (bm (f / 8)) (f % 8) (g % 8) (h (f / 8)) (omega arith) (omega arith),
      )
