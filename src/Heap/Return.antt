-- ===== src/Heap/Return.antt =====
-- The heap of kernel/src/heap.rs after a block has come back.
use freshos.Base.{
  ℕ, ◌+◌, ◌-◌, ◌%◌, ◌^◌, ◌<◌, ◌≤◌, ◌≡◌, ◌≢◌, ◌⊎◌, refl, sym, ap, subst, ◌∙◌, arith, List, length,
}
use freshos.Machine.{load_word, store_word}
use freshos.Heap.{Heap, min_block, block_align, set_size, alloc, dealloc, block_size, rounds}
use freshos.Heap.Chain.{Block, AreApart, AreApart-length, free_bytes}
use freshos.Heap.Serves.{AreClear, IsHeap, Served, null, block, alloc_serves, block_size_rounds}
use freshos.Heap.Insert.{insert, insert-bytes, insert-AreApart}
use freshos.Heap.Coalesce.{Chain-clear}
use freshos.Heap.Dealloc.{freed-Chain}

-- The block of `size` bytes at `p` may come back: it is aligned, in the region, and no part of it is free.
pub record IsLent (h : Heap) (base p size : ℕ) (bs : List Block) : Type 0 where
  pub not_null : p ≢ 0
  pub aligned : p % block_align ≡ 0
  pub from : base ≤ p
  pub to : p + size ≤ base + h.total
  pub clear : AreClear p size bs

-- `dealloc` of a block that was lent puts it into the free list in order, joined with the free blocks
-- that it touches, and its bytes are free again.
pub dealloc_returns :
    (h : Heap) (base p n : ℕ) (bs : List Block)
    → n < 2 ^ 64 - 15
    → IsHeap h base bs
    → IsLent h base p (block_size n) bs
    → IsHeap (dealloc h p n) base (insert p (block_size n) bs)
      × ((dealloc h p n).used ≡ h.used - block_size n)
      × (free_bytes (insert p (block_size n) bs) ≡ block_size n + free_bytes bs)
unfolding dealloc load_word store_word
dealloc_returns h base p n bs lt w lent =
    let size = block_size n in
    let rounded = block_size_rounds n lt in
    let big : min_block ≤ size = omega (arith, rounded) in
    let sl : size % block_align ≡ 0 = omega (arith, rounded) in
    let hi = base + h.total in
    let sized : Heap = record h { mem = set_size h.mem p size } in
    let kept =
      Chain-clear h.mem sized.mem h.free_list p size base hi bs
        (λ v out. ground (arith, out, lent.aligned, big)) lent.clear w.apart w.chain in
    let enough : length bs < rounds h = omega (arith, AreApart-length base hi bs w.apart) in
    let (c, t, u) =
      freed-Chain p size hi lent.not_null lent.aligned big sl lent.to bs sized base (rounds h)
        enough (ground arith) lent.clear w.apart kept in
    (
      record {
        chain = c;
        apart =
            subst (λ x. AreApart base (base + x) (insert p size bs)) (sym t)
              (insert-AreApart p size base hi bs lent.from lent.aligned sl big lent.to lent.clear
                w.apart);
      },
      ap (λ x. x - size) u,
      insert-bytes p size bs,
    )

-- The heap after an allocation of `n` bytes came back: the same bytes are in use, and the free ones are
-- all there, or all but 16.
pub record Restored (h : Heap) (base n : ℕ) (bs : List Block) (h' : Heap) : Type 0 where
  pub blocks : List Block
  pub heap : IsHeap h' base blocks
  pub same_used : h'.used ≡ h.used
  pub lost : ℕ
  pub is_lost : (lost ≡ 0) ⊎ (lost ≡ 16)
  pub bytes : free_bytes bs ≡ free_bytes blocks + lost

restore :
    (h : Heap) (base n : ℕ) (bs : List Block) {r : Heap × ℕ}
    → n < 2 ^ 64 - 15
    → r.1 ≢ 0
    → Served h base n bs r
    → Restored h base n bs (dealloc r.0 r.1 n)
restore h base n bs lt nz (null q) = absurd (nz refl)
restore h base n bs lt nz (block p bs' h' q pz t w tot used) =
    let (w', u, by) = dealloc_returns h' base p n bs' lt w (record {
      not_null = pz;
      aligned = t.aligned;
      from = t.from;
      to = subst (λ x. p + block_size n ≤ base + x) (sym tot) t.to;
      clear = t.clear;
    }) in
    record {
      blocks = insert p (block_size n) bs';
      heap = w';
      same_used = u ∙ omega (arith, used);
      lost = t.slack;
      is_lost = t.is_slack;
      bytes = omega (arith, t.bytes, by);
    }

-- What `alloc` gave can be given back at once: the free list is well formed again, as many bytes are in
-- use as before, and no byte is lost but, at most, 16 of a block that was handed out whole.
pub dealloc-alloc :
    (h : Heap) (base n : ℕ) (bs : List Block)
    → n < 2 ^ 64 - 15
    → IsHeap h base bs
    → (alloc h n).1 ≢ 0
    → Restored h base n bs (dealloc (alloc h n).0 (alloc h n).1 n)
dealloc-alloc h base n bs lt w nz = restore h base n bs lt nz (alloc_serves h base n bs lt w)
