-- ===== src/FrameAlloc/Runs.antt =====
-- `allocate_contiguous`: the run it takes was free, and it finds one whenever there is one.
use freshos.Base.{
  ℕ, zero, suc, ◌+◌, ◌-◌, ◌*◌, ◌/◌, ◌%◌, ◌<◌, ◌≤◌, ◌≡◌, refl, true, false, Option, none, some,
  arith, ltb, leb, ◌==◌, ◌&&◌, if◌then◌else◌, inl, inr, Bool-cases, Option-cases, sym, subst,
  dec_lt,
}
use freshos.FrameAlloc.{
  Frames, frame_size, max_frames, set_bit, used_frame, sub_count, mark_run, find_run, take_run,
  allocate_contiguous,
}
use freshos.FrameAlloc.Bits.{IsBitmap, used_frame-set_bit, set_bit-IsBitmap}

-- The frames from `a` to `a + n` are free.
abbrev pub FreeRun : (ℕ → ℕ) → ℕ → ℕ → Type 0
FreeRun bm a n = (g : ℕ) → a ≤ g → g < a + n → used_frame bm g ≡ false

pub mark_run-IsBitmap : (bm : ℕ → ℕ) (f n : ℕ) → IsBitmap bm → IsBitmap (mark_run bm f n)
unfolding mark_run
mark_run-IsBitmap bm f zero h = h
mark_run-IsBitmap bm f (suc n) h =
    mark_run-IsBitmap (set_bit bm (f / 8) (f % 8)) (f + 1) n
      (set_bit-IsBitmap bm h (f / 8) (f % 8) (omega arith))

used_frame-mark_run :
    (bm : ℕ → ℕ) (f n g : ℕ)
    → IsBitmap bm
    → used_frame (mark_run bm f n) g ≡ (if leb f g && ltb g (f + n) then true else used_frame bm g)
unfolding mark_run
used_frame-mark_run bm f zero g h = ground arith
used_frame-mark_run bm f (suc n) g h = ground (
  arith,
  used_frame-mark_run (set_bit bm (f / 8) (f % 8)) (f + 1) n g
      (set_bit-IsBitmap bm h (f / 8) (f % 8) (omega arith)),
  used_frame-set_bit bm h f g,
)

module _ (bm : ℕ → ℕ) (count : ℕ) where
  -- What the scan knows when it comes to `frame`, with a run of `len` that began at `start`.
  record Scan (start len frame : ℕ) : Type 0 where
    short : len < count
    began : 0 < len → start + len ≡ frame
    inside : 0 < len → 0 < start
    past : 0 < frame
    fits : len < frame
    free : (g : ℕ) → g < frame → frame ≤ g + len → used_frame bm g ≡ false
    earlier : (a : ℕ) → 0 < a → a + len < frame → ¬ FreeRun bm a count

  Scan-used :
      (start len frame : ℕ)
      → used_frame bm frame ≡ true
      → Scan start len frame
      → Scan start 0 (frame + 1)
  Scan-used start len frame u s = record {
    short = let h = s.short in omega arith;
    began = λ h. omega arith;
    inside = λ h. omega arith;
    past = omega arith;
    fits = omega arith;
    free = λ g h k. absurd (omega arith);
    earlier = λ a pos h run. elim (dec_lt (a + len) frame) [
      | yes p ↦ s.earlier a pos p run
      | no p ↦ (let h' = s.short in let e = run frame (omega arith) (omega arith) in cc)
    ];
  }

  Scan-free_inside :
      (start len frame : ℕ)
      → used_frame bm frame ≡ false
      → Scan start len frame
      → (g : ℕ) → g < frame + 1
      → frame + 1 ≤ g + (len + 1)
      → used_frame bm g ≡ false
  Scan-free_inside start len frame u s g h k = elim (dec_lt g frame) [
    | yes p ↦ s.free g p (omega arith)
    | no p ↦ (let e : g ≡ frame = omega arith in rw e u)
  ]

  Scan-free :
      (start len frame : ℕ)
      → used_frame bm frame ≡ false
      → len + 1 < count
      → Scan start len frame
      → Scan (if len == 0 then frame else start) (len + 1) (frame + 1)
  Scan-free start len frame u lt s = record {
    short = lt;
    began = λ h. ground (arith, s.began);
    inside = λ h. ground (arith, s.inside, s.past);
    past = omega arith;
    fits = let h = s.fits in omega arith;
    free = λ g h k. Scan-free_inside start len frame u s g h k;
    earlier = λ a pos h run. s.earlier a pos (omega arith) run;
  }

  run_found :
      (start len frame n a : ℕ)
      → Scan start len frame
      → used_frame bm frame ≡ false
      → (len + 1 == count) ≡ true
      → some (if len == 0 then frame else start) ≡ some a
      → FreeRun bm a count × (0 < a) × (a + count ≤ frame + suc n)
  run_found start len frame n a s u done e =
      let e₁ : len + 1 ≡ count = ground arith in
      let e₂ : a + len ≡ frame = ground (arith, s.began) in
      let e₃ : 0 < a = ground (arith, s.inside, s.past) in
      (λ g h k. Scan-free_inside start len frame u s g (omega arith) (omega arith), e₃, omega arith)

  find_run-some :
      (start len frame n a : ℕ)
      → Scan start len frame
      → find_run bm count start len frame n ≡ some a
      → FreeRun bm a count × (0 < a) × (a + count ≤ frame + n)
  unfolding find_run
  find_run-some start len frame zero a s e = cc
  find_run-some start len frame (suc n) a s e = elim (Bool-cases (used_frame bm frame)) [
    | inl u ↦
        (let (r, pos, le) =
            find_run-some start 0 (frame + 1) n a (Scan-used start len frame u s)
              (rw (u, find_run) at e) in
          (r, pos, omega arith))
    | inr u ↦ elim (Bool-cases (len + 1 == count)) [
      | inl done ↦ run_found start len frame n a s u done (rw (u, find_run, done) at e)
      | inr more ↦
          (let (r, pos, le) =
              find_run-some (if len == 0 then frame else start) (len + 1) (frame + 1) n a
                (Scan-free start len frame u (let h = s.short in ground arith) s)
                (rw (u, find_run, more) at e) in
            (r, pos, omega arith))
    ]
  ]

  find_run-none :
      (start len frame n : ℕ)
      → Scan start len frame
      → find_run bm count start len frame n ≡ none
      → (a : ℕ) → 0 < a
      → a + count ≤ frame + n
      → ¬ FreeRun bm a count
  unfolding find_run
  find_run-none start len frame zero s e a pos le run =
      s.earlier a pos (let h = s.short in omega arith) run
  find_run-none start len frame (suc n) s e a pos le run = elim (Bool-cases (used_frame bm frame)) [
    | inl u ↦
        find_run-none start 0 (frame + 1) n (Scan-used start len frame u s) (rw (u, find_run) at e)
          a pos (omega arith) run
    | inr u ↦ elim (Bool-cases (len + 1 == count)) [
      | inl done ↦
          (let e' : some (if len == 0 then frame else start) ≡ none = rw (u, find_run, done) at e in
            cc)
      | inr more ↦
          find_run-none (if len == 0 then frame else start) (len + 1) (frame + 1) n
            (Scan-free start len frame u (let h = s.short in ground arith) s)
            (rw (u, find_run, more) at e) a pos (omega arith) run
    ]
  ]

-- Before the first frame of the scan.
Scan-start : (bm : ℕ → ℕ) (count : ℕ) → 0 < count → Scan bm count 1 0 1
Scan-start bm count h = record {
  short = h;
  began = λ h. omega arith;
  inside = λ h. omega arith;
  past = omega arith;
  fits = omega arith;
  free = λ g h k. absurd (omega arith);
  earlier = λ a pos h run. absurd (omega arith);
}

-- `s'` is `s` with the free run of `count` frames from `f` marked used.
pub record TakesRun (s : Frames) (f count : ℕ) (s' : Frames) : Type 0 where
  pub were_free : FreeRun s.bitmap f count
  pub bytes : IsBitmap s'.bitmap
  pub marks :
      (g : ℕ)
      → used_frame s'.bitmap g
        ≡ (if leb f g && ltb g (f + count) then true else used_frame s.bitmap g)
  pub counts : s'.free_count ≡ sub_count s.free_count count

abbrev run_taken : Frames → ℕ → ℕ → Frames
run_taken s f count = record s {
  bitmap = mark_run s.bitmap f count;
  free_count = sub_count s.free_count count;
}

-- If `allocate_contiguous` returns an address, it is that of the first of `count` frames below 4 GiB,
-- none of them frame 0, that were all free; exactly these are now marked used, and the free count
-- falls by `count`.
pub allocate_contiguous_takes_free :
    (s : Frames) (count pa : ℕ) (s' : Frames)
    → IsBitmap s.bitmap
    → allocate_contiguous s count ≡ some (pa, s')
    → (f : ℕ) × (0 < f) × (f + count ≤ max_frames) × (pa ≡ f * frame_size) × TakesRun s f count s'
unfolding allocate_contiguous take_run
allocate_contiguous_takes_free s zero pa s' h e = cc
allocate_contiguous_takes_free s (suc c) pa s' h e =
    let positive : (suc c == 0) ≡ false = ground arith in
    elim (Option-cases (find_run s.bitmap (suc c) 1 0 1 (max_frames - 1))) [
      | inl missing ↦
          (let e' : ◌≡◌ {A = Option (ℕ × Frames)} none (some (pa, s')) =
              rw (positive, missing, take_run) at e in
            cc)
      | inr (f, found) ↦
          (let e' : some (f * frame_size, run_taken s f (suc c)) ≡ some (pa, s') =
              rw (positive, found, take_run) at e in
            let e₀ : f * frame_size ≡ pa = cc in
            let e₁ : run_taken s f (suc c) ≡ s' = cc in
            let (free, pos, le) =
              find_run-some s.bitmap (suc c) 1 0 1 (max_frames - 1) f
                (Scan-start s.bitmap (suc c) (omega arith)) found in
            (
              f,
              pos,
              omega arith,
              sym e₀,
              subst (TakesRun s f (suc c)) e₁ (record {
                were_free = free;
                bytes = mark_run-IsBitmap s.bitmap f (suc c) h;
                marks = λ g. used_frame-mark_run s.bitmap f (suc c) g h;
                counts = refl;
              }),
            ))
    ]

-- If `allocate_contiguous` returns nothing for a positive count, no run of that many free frames
-- lies between frame 1 and 4 GiB.
pub allocate_contiguous-none :
    (s : Frames) (count : ℕ)
    → 0 < count
    → allocate_contiguous s count ≡ none
    → (a : ℕ) → 0 < a
    → a + count ≤ max_frames
    → ¬ FreeRun s.bitmap a count
unfolding allocate_contiguous take_run
allocate_contiguous-none s count pos e a ha le =
    find_run-none s.bitmap count 1 0 1 (max_frames - 1) (Scan-start s.bitmap count pos)
      (ground arith) a ha (omega arith)
