-- ===== src/FrameAlloc/Count.antt =====
-- FREE_COUNT is the number of free frames, before and after every single allocation and release.
use freshos.Base.{
  ℕ, zero, suc, ◌+◌, ◌*◌, ◌<◌, ◌≤◌, ◌≡◌, refl, true, false, some, arith, ◌==◌, if◌then◌else◌,
  dec_lt,
}
use freshos.FrameAlloc.{Frames, frame_size, max_frames, used_frame, allocate, deallocate}
use freshos.FrameAlloc.Bits.{IsBitmap}
use freshos.FrameAlloc.Single.{allocate-Takes_free, deallocate-Frees}

-- The free frames below `n`.
unfoldable pub free_total : (ℕ → ℕ) → ℕ → ℕ
free_total bm zero = 0
free_total bm (suc n) = (if used_frame bm n then 0 else 1) + free_total bm n

free_total-le : (bm : ℕ → ℕ) (n : ℕ) → free_total bm n ≤ n
unfolding free_total
free_total-le bm zero = omega arith
free_total-le bm (suc n) = ground (arith, free_total-le bm n)

module _ (bm bm' : ℕ → ℕ) (f : ℕ) where
  free_total-same :
      ((g : ℕ) → used_frame bm' g ≡ (if f == g then true else used_frame bm g))
      → (n : ℕ) → n ≤ f
      → free_total bm' n ≡ free_total bm n
  unfolding free_total
  free_total-same h zero lt = refl
  free_total-same h (suc n) lt = ground (arith, h n, free_total-same h n)

  -- Marking a free frame takes one from the total.
  free_total-mark :
      ((g : ℕ) → used_frame bm' g ≡ (if f == g then true else used_frame bm g))
      → used_frame bm f ≡ false
      → (n : ℕ) → f < n
      → free_total bm' n + 1 ≡ free_total bm n
  unfolding free_total
  free_total-mark h free zero lt = absurd (omega arith)
  free_total-mark h free (suc n) lt = elim (dec_lt f n) [
    | yes p ↦ ground (arith, h n, free_total-mark h free n)
    | no p ↦ (let e : f ≡ n = omega arith in ground (arith, h n, free_total-same h n))
  ]

abbrev pub IsCounted : Frames → Type 0
IsCounted s = s.free_count ≡ free_total s.bitmap max_frames

-- If FREE_COUNT is the number of free frames, it is so after `allocate` has returned a frame.
pub allocate-IsCounted :
    (s : Frames) (pa : ℕ) (s' : Frames)
    → IsBitmap s.bitmap
    → IsCounted s
    → allocate s ≡ some (pa, s')
    → IsCounted s'
allocate-IsCounted s pa s' h c e =
    let (f, lt, p, t) = allocate-Takes_free s pa s' h e in
    omega (
      arith,
      t.counts,
      free_total-mark s.bitmap s'.bitmap f t.marks t.was_free max_frames lt,
      free_total-le s.bitmap max_frames,
    )

-- `deallocate` of a frame that is in use, other than frame 0 and below 4 GiB, keeps FREE_COUNT equal
-- to the number of free frames.
pub deallocate-IsCounted :
    (s : Frames) (f : ℕ)
    → IsBitmap s.bitmap
    → IsCounted s
    → 0 < f
    → f < max_frames
    → used_frame s.bitmap f ≡ true
    → IsCounted (deallocate s (f * frame_size))
deallocate-IsCounted s f h c pos lt used =
    let (b, marks, counts) = deallocate-Frees s f h in
    let s' = deallocate s (f * frame_size) in
    ground (
      arith,
      counts,
      free_total-mark s'.bitmap s.bitmap f (λ g. ground (arith, marks g)) (ground (arith, marks f))
          max_frames lt,
      free_total-le s.bitmap max_frames,
    )
