-- ===== src/Tests/Frames.antt =====
-- The frame allocator's theorems at small states.
use freshos.Base.{
  ℕ, zero, suc, ◌-◌, ◌%◌, sym, ap, ◌+◌, ◌*◌, ◌<◌, ◌≤◌, ◌≡◌, refl, true, none, some, arith, ◌==◌,
  if◌then◌else◌,
}
use freshos.FrameAlloc.{
  Frames, all_used, max_frames, frame_size, bitmap_bytes, used_frame, set_bit, allocate, deallocate,
  allocate_contiguous, scan, try_byte, take_bit, clear_bit_from, find_run, take_run, mark_run,
  clear_bit,
}
use freshos.FrameAlloc.Bits.{IsBitmap, full_byte, clear_bit-IsBitmap}
use freshos.FrameAlloc.Single.{Takes, allocate-Takes_free}
use freshos.FrameAlloc.Count.{IsCounted, free_total, allocate-IsCounted, deallocate-IsCounted}
use freshos.FrameAlloc.Runs.{TakesRun, allocate_contiguous_takes_free}

all_used-IsBitmap : IsBitmap all_used.bitmap
all_used-IsBitmap = λ i. omega arith

-- Frame 8 is free, and no other.
abbrev one_free : Frames
one_free = record { bitmap = λ i. if i == 1 then 0xFE else 0xFF; free_count = 1; next_hint = 0 }

one_free-IsBitmap : IsBitmap one_free.bitmap
one_free-IsBitmap = λ i. ground arith

abbrev one_taken : Frames
one_taken = record { bitmap = set_bit one_free.bitmap 1 0; free_count = 0; next_hint = 1 }

allocate-one_free : allocate one_free ≡ some (8 * frame_size, one_taken)
unfolding allocate scan try_byte take_bit clear_bit_from
allocate-one_free = refl

allocate-Takes_free_example :
    (f : ℕ) × (f < max_frames) × (8 * frame_size ≡ f * frame_size) × Takes one_free f one_taken
allocate-Takes_free_example =
    allocate-Takes_free one_free (8 * frame_size) one_taken one_free-IsBitmap allocate-one_free

-- With every frame in use, both searches come to the end.
scan-all_used : (i n : ℕ) → scan bitmap_bytes all_used i n ≡ none
unfolding scan try_byte
scan-all_used i zero = refl
scan-all_used i (suc n) = scan-all_used (i + 1) n

allocate-all_used : allocate all_used ≡ none
unfolding allocate
allocate-all_used = scan-all_used 0 bitmap_bytes

used-all_used : (f : ℕ) → used_frame all_used.bitmap f ≡ true
unfolding used_frame
used-all_used f = ground (arith, full_byte (f % 8) (omega arith))

find_run-all_used :
    (count start frame n : ℕ) → find_run all_used.bitmap count start 0 frame n ≡ none
unfolding find_run
find_run-all_used count start frame zero = refl
find_run-all_used count start frame (suc n) =
    rw (find_run, used-all_used frame) (find_run-all_used count start (frame + 1) n)

allocate_contiguous-all_used : allocate_contiguous all_used 2 ≡ none
unfolding allocate_contiguous take_run
allocate_contiguous-all_used = ap (take_run all_used 2) (find_run-all_used 2 1 1 (max_frames - 1))

free_total-all_used : (n : ℕ) → free_total all_used.bitmap n ≡ 0
unfolding free_total
free_total-all_used zero = refl
free_total-all_used (suc n) = rw (used-all_used n) (omega (arith, free_total-all_used n))

deallocate-IsCounted_example : IsCounted (deallocate all_used (8 * frame_size))
deallocate-IsCounted_example =
    deallocate-IsCounted all_used 8 all_used-IsBitmap (sym (free_total-all_used max_frames))
      (omega arith) (omega arith) (used-all_used 8)

-- The state after that release.
abbrev released : Frames
released = record all_used { bitmap = clear_bit all_used.bitmap 1 0; free_count = 1 }

released-IsCounted : IsCounted released
unfolding deallocate
released-IsCounted =
    deallocate-IsCounted all_used 8 all_used-IsBitmap (sym (free_total-all_used max_frames))
      (omega arith) (omega arith) (used-all_used 8)

abbrev taken_again : Frames
taken_again = record { bitmap = set_bit released.bitmap 1 0; free_count = 0; next_hint = 1 }

released-IsBitmap : IsBitmap released.bitmap
released-IsBitmap = clear_bit-IsBitmap all_used.bitmap all_used-IsBitmap 1 0 (omega arith)

allocate-released : allocate released ≡ some (8 * frame_size, taken_again)
unfolding allocate scan try_byte take_bit clear_bit_from clear_bit
allocate-released = refl

allocate-IsCounted_example : IsCounted taken_again
allocate-IsCounted_example =
    allocate-IsCounted released (8 * frame_size) taken_again released-IsBitmap released-IsCounted
      allocate-released

-- Frames 9 and 10 are free.
abbrev two_free : Frames
two_free = record { bitmap = λ i. if i == 1 then 0xF9 else 0xFF; free_count = 2; next_hint = 0 }

two_free-IsBitmap : IsBitmap two_free.bitmap
two_free-IsBitmap = λ i. ground arith

abbrev two_taken : Frames
two_taken = record two_free { bitmap = mark_run two_free.bitmap 9 2; free_count = 0 }

allocate_contiguous-two_free : allocate_contiguous two_free 2 ≡ some (9 * frame_size, two_taken)
unfolding allocate_contiguous take_run find_run used_frame
allocate_contiguous-two_free = refl

allocate_contiguous_takes_free_example :
    (f : ℕ) × (0 < f)
    × (f + 2 ≤ max_frames)
    × (9 * frame_size ≡ f * frame_size)
    × TakesRun two_free f 2 two_taken
allocate_contiguous_takes_free_example =
    allocate_contiguous_takes_free two_free 2 (9 * frame_size) two_taken two_free-IsBitmap
      allocate_contiguous-two_free
