-- ===== src/FrameAlloc/Single.antt =====
-- `allocate` and `deallocate`: which frame they take or give back, and that no other frame moves.
use freshos.Base.{
  ℕ, zero, suc, ◌+◌, ◌-◌, ◌*◌, ◌/◌, ◌%◌, ◌<◌, ◌≡◌, refl, true, false, Option, none, some, arith,
  ltb, ◌==◌, if◌then◌else◌, inl, inr, Bool-cases, Option-cases, sym, subst, ◌∙◌, ap, ◌&&◌,
}
use native.Mathlib.Nat.{add-zero}
use freshos.FrameAlloc.{
  Frames, frame_size, max_frames, bitmap_bytes, set_bit, used_frame, clear_bit_from, sub_count,
  add_count, take_bit, try_byte, scan, allocate, deallocate,
}
use freshos.FrameAlloc.Bits.{
  IsBitmap, is_clear, clear_bit_some, clear_bit_none, full_byte, used_frame-set_bit,
  used_frame-clear_bit, set_bit-IsBitmap, clear_bit-IsBitmap,
}

-- `s'` is `s` with the free frame `f` marked used.
pub record Takes (s : Frames) (f : ℕ) (s' : Frames) : Type 0 where
  pub was_free : used_frame s.bitmap f ≡ false
  pub bytes : IsBitmap s'.bitmap
  pub marks : (g : ℕ) → used_frame s'.bitmap g ≡ (if f == g then true else used_frame s.bitmap g)
  pub counts : s'.free_count ≡ sub_count s.free_count 1

bit_free :
    (s : Frames) (idx bit : ℕ)
    → bit < 8
    → (is_clear (s.bitmap idx) bit ≡ true)
    → used_frame s.bitmap (idx * 8 + bit) ≡ false
unfolding used_frame
bit_free s idx bit h c =
    let e : (idx * 8 + bit) / 8 ≡ idx = omega arith in
    let e' : (idx * 8 + bit) % 8 ≡ bit = omega arith in rw (e, e') (ground arith)

-- The state that `take_bit` leaves.
abbrev taken : Frames → ℕ → ℕ → Frames
taken s idx bit = record s {
  bitmap = set_bit s.bitmap idx bit;
  free_count = sub_count s.free_count 1;
  next_hint = idx;
}

taken-Takes :
    (s : Frames) (idx bit : ℕ)
    → IsBitmap s.bitmap
    → bit < 8
    → is_clear (s.bitmap idx) bit ≡ true
    → Takes s (idx * 8 + bit) (taken s idx bit)
taken-Takes s idx bit h hb c =
    let e : (idx * 8 + bit) / 8 ≡ idx = omega arith in
    let e' : (idx * 8 + bit) % 8 ≡ bit = omega arith in
    record {
      was_free = bit_free s idx bit hb c;
      bytes = set_bit-IsBitmap s.bitmap h idx bit hb;
      marks = λ g. rw (e, e') at (used_frame-set_bit s.bitmap h (idx * 8 + bit) g);
      counts = refl;
    }

abbrev Taken : Frames → ℕ → ℕ → Frames → Type 0
Taken s idx pa s' =
    (bit : ℕ) × (bit < 8) × (pa ≡ (idx * 8 + bit) * frame_size) × Takes s (idx * 8 + bit) s'

take_bit-some :
    (s : Frames) (idx pa : ℕ) (s' : Frames) (o : Option ℕ)
    → IsBitmap s.bitmap
    → clear_bit_from (s.bitmap idx) 0 8 ≡ o
    → take_bit s idx o ≡ some (pa, s')
    → Taken s idx pa s'
unfolding take_bit
take_bit-some s idx pa s' none h c e = cc
take_bit-some s idx pa s' (some bit) h c e =
    let (hb, clear) = clear_bit_some (s.bitmap idx) bit (h idx) c in
    let e₀ : (idx * 8 + bit) * frame_size ≡ pa = cc in
    let e₁ : taken s idx bit ≡ s' = cc in
    (bit, hb, sym e₀, subst (Takes s (idx * 8 + bit)) e₁ (taken-Takes s idx bit h hb clear))

try_byte-some :
    (s : Frames) (idx pa : ℕ) (s' : Frames)
    → IsBitmap s.bitmap
    → try_byte s idx ≡ some (pa, s')
    → Taken s idx pa s'
unfolding try_byte
try_byte-some s idx pa s' h e = elim (Bool-cases (s.bitmap idx == 0xFF)) [
  | inl full ↦ (let e' : ◌≡◌ {A = Option (ℕ × Frames)} none (some (pa, s')) = rw full at e in cc)
  | inr part ↦ take_bit-some s idx pa s' _ h refl (rw part at e)
]

-- A byte that gives no frame is full.
try_byte-none :
    (s : Frames) (idx : ℕ) → IsBitmap s.bitmap → try_byte s idx ≡ none → s.bitmap idx ≡ 0xFF
unfolding try_byte take_bit
try_byte-none s idx h e = ground (arith, clear_bit_none (s.bitmap idx) (h idx))

scan-some :
    (bytes : ℕ) (s : Frames) (offset n pa : ℕ) (s' : Frames)
    → 0 < bytes
    → IsBitmap s.bitmap
    → scan bytes s offset n ≡ some (pa, s')
    → (idx : ℕ) × (idx < bytes) × Taken s idx pa s'
unfolding scan
scan-some bytes s offset zero pa s' hb h e = cc
scan-some bytes s offset (suc n) pa s' hb h e =
    elim (Option-cases (try_byte s ((s.next_hint + offset) % bytes))) [
      | inl skip ↦ scan-some bytes s (offset + 1) n pa s' hb h (rw (skip, scan) at e)
      | inr (r, found) ↦
          (let e' : try_byte s ((s.next_hint + offset) % bytes) ≡ some (pa, s') =
              found ∙ (rw (found, scan) at e) in
            ((s.next_hint + offset) % bytes, omega arith, try_byte-some s _ pa s' h e'))
    ]

-- If `allocate` returns an address, it is that of a frame below 4 GiB which was free and is now
-- marked used. Every other frame keeps its mark, and the free count falls by one.
pub allocate-Takes_free :
    (s : Frames) (pa : ℕ) (s' : Frames)
    → IsBitmap s.bitmap
    → allocate s ≡ some (pa, s')
    → (f : ℕ) × (f < max_frames) × (pa ≡ f * frame_size) × Takes s f s'
unfolding allocate
allocate-Takes_free s pa s' h e =
    let (idx, hi, r) = scan-some bitmap_bytes s 0 bitmap_bytes pa s' (omega arith) h e in
    let (bit, hb, p, t) = r in (idx * 8 + bit, omega arith, p, t)

scan-none :
    (bytes : ℕ) (s : Frames) (offset n k : ℕ)
    → IsBitmap s.bitmap
    → scan bytes s offset n ≡ none
    → k < n
    → s.bitmap ((s.next_hint + (offset + k)) % bytes) ≡ 0xFF
unfolding scan
scan-none bytes s offset zero k h e lt = absurd (omega arith)
scan-none bytes s offset (suc n) zero h e lt =
    elim (Option-cases (try_byte s ((s.next_hint + offset) % bytes))) [
      | inl skip ↦ rw add-zero (try_byte-none s _ h skip)
      | inr (r, found) ↦ (let e' : some r ≡ none = rw (found, scan) at e in cc)
    ]
scan-none bytes s offset (suc n) (suc k) h e lt =
    elim (Option-cases (try_byte s ((s.next_hint + offset) % bytes))) [
      | inl skip ↦
          (let ih : s.bitmap ((s.next_hint + (offset + 1 + k)) % bytes) ≡ 0xFF =
              scan-none bytes s (offset + 1) n k h (rw (skip, scan) at e) (omega arith) in
            ap (λ t. s.bitmap ((s.next_hint + t) % bytes)) (omega arith) ∙ ih)
      | inr (r, found) ↦ (let e' : some r ≡ none = rw (found, scan) at e in cc)
    ]

-- If `allocate` returns nothing, every frame below 4 GiB is in use.
pub allocate-none_full :
    (s : Frames)
    → IsBitmap s.bitmap
    → allocate s ≡ none
    → (f : ℕ) → f < max_frames
    → used_frame s.bitmap f ≡ true
unfolding allocate used_frame
allocate-none_full s h e f lt =
    let k : ℕ = (f / 8 + bitmap_bytes - s.next_hint % bitmap_bytes) % bitmap_bytes in
    let here : (s.next_hint + (0 + k)) % bitmap_bytes ≡ f / 8 = omega arith in
    let full : s.bitmap (f / 8) ≡ 0xFF =
      rw here at (scan-none bitmap_bytes s 0 bitmap_bytes k h e (omega arith)) in
    rw full (ground (arith, full_byte (f % 8) (omega arith)))

abbrev pub Frees : Frames → ℕ → Frames → Type 0
Frees s f s' =
    IsBitmap s'.bitmap
    × ((g : ℕ)
        → used_frame s'.bitmap g
          ≡ (if f == g && ltb 0 f && ltb f max_frames then false else used_frame s.bitmap g))
    × (s'.free_count
        ≡ (if ltb 0 f && ltb f max_frames then add_count s.free_count 1 else s.free_count))

-- Giving back a frame that `allocate` can hand out marks it free and no other, adds one to the free
-- count, and does nothing for frame 0 or an address outside the bitmap.
pub deallocate-Frees :
    (s : Frames) (f : ℕ) → IsBitmap s.bitmap → Frees s f (deallocate s (f * frame_size))
unfolding deallocate
deallocate-Frees s f h =
    let e : f * frame_size / frame_size ≡ f = omega arith in
    rw e (
      ground (arith, clear_bit-IsBitmap s.bitmap h (f / 8) (f % 8) (omega arith)),
      λ g. ground (arith, used_frame-clear_bit s.bitmap h f g),
      ground arith,
    )
