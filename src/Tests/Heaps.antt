-- ===== src/Tests/Heaps.antt =====
-- The theorems on the heap: two free blocks, of 48 and 32 bytes.
use freshos.Base.{◌≡◌, refl, inl, arith, [], ◌∷◌, ◌==◌, if◌then◌else◌, List, ◌+◌, ◌-◌}
use freshos.Machine.{load_word}
use freshos.Heap.{Heap, alloc, alloc_from, dealloc, block_size, align_up}
use freshos.Heap.Chain.{Block, free_bytes}
use freshos.Heap.Serves.{IsHeap, Served, alloc_serves}
use freshos.Heap.Insert.{insert}
use freshos.Heap.Return.{IsLent, Restored, dealloc_returns, dealloc-alloc}

-- Blocks at 4096 and 4160, in a region of 128 bytes.
abbrev small : Heap
small = record {
  mem = λ w. if w == 512 then 48 else if w == 513 then 4160 else if w == 520 then 32 else 0;
  free_list = 4096;
  total = 128;
  used = 48;
}

abbrev blocks : List Block
blocks = (4096, 48) ∷ (4160, 32) ∷ []

small-IsHeap : IsHeap small 4096 blocks
unfolding load_word
small-IsHeap = record {
  chain = (refl, λ e. omega arith, refl, (refl, λ e. omega arith, refl, refl));
  apart = (
    omega arith,
    refl,
    refl,
    omega arith,
    omega arith,
    (omega arith, refl, refl, omega arith, omega arith, tt),
  );
}

alloc_serves_example : Served small 4096 32 blocks (alloc small 32)
alloc_serves_example = alloc_serves small 4096 32 blocks (omega arith) small-IsHeap

-- The last 32 bytes of the region are lent.
lent : IsLent small 4096 4192 (block_size 32) blocks
unfolding block_size align_up
lent = record {
  not_null = λ e. omega arith;
  aligned = refl;
  from = omega arith;
  to = omega arith;
  clear = (inl (omega arith), (inl (omega arith), tt));
}

dealloc_returns_example :
    IsHeap (dealloc small 4192 32) 4096 (insert 4192 (block_size 32) blocks)
    × ((dealloc small 4192 32).used ≡ 48 - block_size 32)
    × (free_bytes (insert 4192 (block_size 32) blocks) ≡ block_size 32 + free_bytes blocks)
dealloc_returns_example = dealloc_returns small 4096 4192 32 blocks (omega arith) small-IsHeap lent

first_block : (alloc small 32).1 ≡ 4096
unfolding alloc alloc_from block_size align_up load_word
first_block = refl

dealloc-alloc_example :
    Restored small 4096 32 blocks (dealloc (alloc small 32).0 (alloc small 32).1 32)
dealloc-alloc_example =
    dealloc-alloc small 4096 32 blocks (omega arith) small-IsHeap
      (λ e. omega (arith, first_block, e))
