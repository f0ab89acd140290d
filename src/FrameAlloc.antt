-- ===== src/FrameAlloc.antt =====
-- kernel/src/frame_alloc.rs: the bitmap allocator of physical frames. The statics are a record; the
-- bitmap is a function from a byte's index to the byte. A bit that is 1 marks a used frame.
pub mod Bits
pub mod Single
pub mod Count
pub mod Runs
use freshos.Base.{
  ℕ, zero, suc, ◌+◌, ◌-◌, ◌*◌, ◌/◌, ◌%◌, ◌^◌, min, bit_and, bit_or, Bool, true, false, ◌||◌, not,
  Option, none, some, List, [], ◌∷◌, ltb, leb, ◌==◌, if◌then◌else◌,
}

abbrev pub frame_size : ℕ
frame_size = 4096

abbrev pub max_frames : ℕ
max_frames = 4 * 1024 * 1024 * 1024 / 4096

abbrev pub bitmap_bytes : ℕ
bitmap_bytes = max_frames / 8

pub record Frames : Type 0 where
  pub bitmap : ℕ → ℕ
  pub free_count : ℕ
  pub next_hint : ℕ

-- The statics before `init`.
abbrev pub all_used : Frames
all_used = record { bitmap = λ i. 0xFF; free_count = 0; next_hint = 0 }

pub record MemRegion : Type 0 where
  pub start : ℕ
  pub pages : ℕ
  pub usable : Bool

-- `*bm().add(byte) |= 1 << bit` and `&= !(1 << bit)`.
unfoldable pub set_bit : (ℕ → ℕ) → ℕ → ℕ → ℕ → ℕ
set_bit bm byte bit = λ i. if i == byte then bit_or (bm byte) (2 ^ bit) else bm i

unfoldable pub clear_bit : (ℕ → ℕ) → ℕ → ℕ → ℕ → ℕ
clear_bit bm byte bit = λ i. if i == byte then bit_and (bm byte) (0xFF - 2 ^ bit) else bm i

-- `bm[frame / 8] & (1 << frame % 8) != 0`.
unfoldable pub used_frame : (ℕ → ℕ) → ℕ → Bool
used_frame bm frame = not (bit_and (bm (frame / 8)) (2 ^ (frame % 8)) == 0)

-- `FREE_COUNT.fetch_add` and `fetch_sub` wrap at the word size.
abbrev pub add_count : ℕ → ℕ → ℕ
add_count a b = (a + b) % 2 ^ 64

abbrev pub sub_count : ℕ → ℕ → ℕ
sub_count a b = (a + 2 ^ 64 - b) % 2 ^ 64

-- One round of the inner loop of `init`.
unfoldable pub free_frame : Frames → ℕ → Frames
unfolding clear_bit
free_frame s frame = if frame == 0 then s else record s {
  bitmap = clear_bit s.bitmap (frame / 8) (frame % 8);
  free_count = add_count s.free_count 1;
}

-- `for frame in frame..frame + n`.
unfoldable pub free_frames : Frames → ℕ → ℕ → Frames
unfolding free_frame
free_frames s frame zero = s
free_frames s frame (suc n) = free_frames (free_frame s frame) (frame + 1) n

unfoldable pub init_region : Frames → MemRegion → Frames
unfolding free_frames
init_region s r =
    let start : ℕ = r.start / frame_size in
    let end : ℕ = (r.start + r.pages * frame_size) / frame_size in
    if r.usable then free_frames s start (min end max_frames - start) else s

unfoldable pub init : Frames → List MemRegion → Frames
unfolding init_region
init s [] = s
init s (r ∷ rs) = init (init_region s r) rs

-- `for bit in bit..bit + n`: the first clear bit of `byte`.
unfoldable pub clear_bit_from : ℕ → ℕ → ℕ → Option ℕ
clear_bit_from byte bit zero = none
clear_bit_from byte bit (suc n) =
    let rest = clear_bit_from byte (bit + 1) n in
    if bit_and byte (2 ^ bit) == 0 then some bit else rest

-- What `allocate` does at a byte that is not 0xFF, when `found` is its first clear bit.
unfoldable pub take_bit : Frames → ℕ → Option ℕ → Option (ℕ × Frames)
unfolding set_bit
take_bit s idx none = none
take_bit s idx (some bit) = some (
  (idx * 8 + bit) * frame_size,
  record s {
    bitmap = set_bit s.bitmap idx bit;
    free_count = sub_count s.free_count 1;
    next_hint = idx;
  },
)

-- One round of the search: the byte at `idx`, unless it is full.
unfoldable pub try_byte : Frames → ℕ → Option (ℕ × Frames)
unfolding take_bit clear_bit_from
try_byte s idx =
    if s.bitmap idx == 0xFF then none else take_bit s idx (clear_bit_from (s.bitmap idx) 0 8)

-- `for offset in offset..offset + n`, over a bitmap of `bytes` bytes.
unfoldable pub scan : ℕ → Frames → ℕ → ℕ → Option (ℕ × Frames)
scan bytes s offset zero = none
scan bytes s offset (suc n) = elim (try_byte s ((s.next_hint + offset) % bytes)) [
  | some r ↦ some r
  | none ↦ scan bytes s (offset + 1) n
]

-- The physical address and the new state.
unfoldable pub allocate : Frames → Option (ℕ × Frames)
allocate s = scan bitmap_bytes s 0 bitmap_bytes

unfoldable pub deallocate : Frames → ℕ → Frames
unfolding clear_bit
deallocate s phys =
    let frame : ℕ = phys / frame_size in
    if frame == 0 || leb max_frames frame then s else record s {
      bitmap = clear_bit s.bitmap (frame / 8) (frame % 8);
      free_count = add_count s.free_count 1;
    }

-- `for offset in offset..offset + n` of `deallocate_contiguous`.
unfoldable pub deallocate_from : Frames → ℕ → ℕ → ℕ → Frames
deallocate_from s base offset zero = s
deallocate_from s base offset (suc n) =
    deallocate_from (deallocate s (base + offset * frame_size)) base (offset + 1) n

unfoldable pub deallocate_contiguous : Frames → ℕ → ℕ → Frames
unfolding deallocate_from
deallocate_contiguous s base count = deallocate_from s base 0 count

-- `for f in f..f + n`: mark a run.
unfoldable pub mark_run : (ℕ → ℕ) → ℕ → ℕ → ℕ → ℕ
unfolding set_bit
mark_run bm f zero = bm
mark_run bm f (suc n) = mark_run (set_bit bm (f / 8) (f % 8)) (f + 1) n

-- The scan for `count` clear bits in a row: `for frame in frame..frame + n`, with the run so far.
unfoldable pub find_run : (ℕ → ℕ) → ℕ → ℕ → ℕ → ℕ → ℕ → Option ℕ
unfolding used_frame
find_run bm count run_start run_len frame zero = none
find_run bm count run_start run_len frame (suc n) = elim (used_frame bm frame) [
  | true ↦ find_run bm count run_start 0 (frame + 1) n
  | false ↦
      (let start : ℕ = if run_len == 0 then frame else run_start in
        elim (run_len + 1 == count) [
          | true ↦ some start
          | false ↦ find_run bm count start (run_len + 1) (frame + 1) n
        ])
]

unfoldable pub take_run : Frames → ℕ → Option ℕ → Option (ℕ × Frames)
unfolding mark_run
take_run s count none = none
take_run s count (some start) = some (
  start * frame_size,
  record s { bitmap = mark_run s.bitmap start count; free_count = sub_count s.free_count count },
)

unfoldable pub allocate_contiguous : Frames → ℕ → Option (ℕ × Frames)
unfolding find_run take_run
allocate_contiguous s count =
    if count == 0 then none else take_run s count (find_run s.bitmap count 1 0 1 (max_frames - 1))
