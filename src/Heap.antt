-- ===== src/Heap.antt =====
-- kernel/src/heap.rs: the kernel's heap. A free block begins with its size and the address of the next
-- one, in memory; the list is in the order of addresses, and address 0 is the null pointer.
pub mod Chain
pub mod Alloc
pub mod Serves
pub mod Insert
pub mod Coalesce
pub mod Dealloc
pub mod Return
use freshos.Base.{
  ℕ, zero, suc, ◌+◌, ◌-◌, ◌*◌, ◌/◌, ◌^◌, max, bit_and, Bool, true, false, not, ◌&&◌, Option, none,
  some, ltb, leb, ◌==◌, if◌then◌else◌,
}
use freshos.Machine.{Memory, load_word, store_word}
use freshos.FrameAlloc.{Frames}
use freshos.FrameAlloc

abbrev pub heap_size : ℕ
heap_size = 1024 * 1024

abbrev pub heap_pages : ℕ
heap_pages = heap_size / 4096

abbrev pub min_block : ℕ
min_block = 32

abbrev pub block_align : ℕ
block_align = 16

pub record Heap : Type 0 where
  pub mem : Memory
  pub free_list : ℕ
  pub total : ℕ
  pub used : ℕ

abbrev pub size_of : Memory → ℕ → ℕ
size_of m block = load_word m block

abbrev pub next_of : Memory → ℕ → ℕ
next_of m block = load_word m (block + 8)

abbrev pub set_size : Memory → ℕ → ℕ → Memory
set_size m block size = store_word m block size

abbrev pub set_next : Memory → ℕ → ℕ → Memory
set_next m block next = store_word m (block + 8) next

unfoldable pub align_up : ℕ → ℕ → ℕ
align_up val align = bit_and (val + align - 1) (2 ^ 64 - 1 - (align - 1))

-- The size of the block for a layout.
unfoldable pub block_size : ℕ → ℕ
unfolding align_up
block_size layout_size = align_up (max layout_size min_block) block_align

-- The region is one free block; `none` is the panic where there are no frames.
unfoldable pub init : Frames → Memory → Option (Heap × Frames)
init frames m = elim (FrameAlloc.allocate_contiguous frames heap_pages) [
  | none ↦ none
  | some (base, frames') ↦ some (
    record {
      mem = set_next (set_size m base heap_size) base 0;
      free_list = base;
      total = heap_size;
      used = 0;
    },
    frames',
  )
]

-- Make `block` what follows `prev`, or the first block where `prev` is null.
unfoldable pub link : Heap → ℕ → ℕ → Heap
unfolding store_word
link h prev block =
    if prev == 0
    then record h { free_list = block }
    else record h { mem = set_next h.mem prev block }

-- Write the free block that is left after an allocation.
unfoldable pub write_block : Heap → ℕ → ℕ → ℕ → Heap
unfolding store_word
write_block h block size next = record h { mem = set_next (set_size h.mem block size) block next }

-- Take `size` bytes of the block `curr`, which is big enough: split it, or use the whole of it.
unfoldable pub take_block : Heap → ℕ → ℕ → ℕ → Heap
unfolding link write_block load_word
take_block h prev curr size =
    let remaining : ℕ = size_of h.mem curr - size in
    let next : ℕ = next_of h.mem curr in
    if leb min_block remaining
    then link (write_block h (curr + size) remaining next) prev (curr + size)
    else link h prev next

-- `while !curr.is_null()`, on fuel.
unfoldable pub alloc_from : Heap → ℕ → ℕ → ℕ → ℕ → Heap × ℕ
unfolding take_block load_word
alloc_from h prev curr size zero = (h, 0)
alloc_from h prev curr size (suc fuel) =
    let rest = alloc_from h curr (next_of h.mem curr) size fuel in
    if curr == 0
    then (h, 0)
    else if leb size (size_of h.mem curr)
    then (let h' = take_block h prev curr size in (record h' { used = h'.used + size }, curr))
    else rest

-- More rounds than the heap has blocks.
abbrev pub rounds : Heap → ℕ
rounds h = h.total / min_block + 1

unfoldable pub alloc : Heap → ℕ → Heap × ℕ
unfolding alloc_from block_size
alloc h layout_size = alloc_from h 0 h.free_list (block_size layout_size) (rounds h)

-- `while !curr.is_null() && curr < freed`, on fuel: the blocks around `freed`.
unfoldable pub seek : Memory → ℕ → ℕ → ℕ → ℕ → ℕ × ℕ
unfolding load_word
seek m freed prev curr zero = (prev, curr)
seek m freed prev curr (suc fuel) =
    let rest = seek m freed curr (next_of m curr) fuel in
    if not (curr == 0) && ltb curr freed then rest else (prev, curr)

-- `b` follows `a`: one block where they touch.
unfoldable pub coalesce : Memory → ℕ → ℕ → Memory
unfolding load_word store_word
coalesce m a b =
    if a + size_of m a == b
    then (let m' = set_size m a (size_of m a + size_of m b) in set_next m' a (next_of m' b))
    else m

-- Coalesce with the next block, then with the previous one, where these exist.
unfoldable pub coalesce_around : Heap → ℕ → ℕ → ℕ → Heap
unfolding coalesce
coalesce_around h prev freed curr =
    let m = if curr == 0 then h.mem else coalesce h.mem freed curr in
    record h { mem = if prev == 0 then m else coalesce m prev freed }

-- Put the freed block between its neighbours.
unfoldable pub insert_between : Heap → ℕ → ℕ → ℕ → Heap
unfolding coalesce_around link store_word
insert_between h prev freed curr =
    coalesce_around (link (record h { mem = set_next h.mem freed curr }) prev freed) prev freed curr

unfoldable pub dealloc : Heap → ℕ → ℕ → Heap
unfolding seek insert_between block_size store_word
dealloc h freed layout_size =
    let size : ℕ = block_size layout_size in
    let sized : Heap = record h { mem = set_size h.mem freed size } in
    let (prev, curr) = seek sized.mem freed 0 h.free_list (rounds h) in
    let h' = insert_between sized prev freed curr in record h' { used = h'.used - size }
