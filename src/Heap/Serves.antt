-- ===== src/Heap/Serves.antt =====
-- What an allocation from kernel/src/heap.rs gives: the blocks that stay free and the block handed out.
use freshos.Base.{
  ℕ, ◌+◌, ◌-◌, ◌*◌, ◌/◌, ◌%◌, ◌^◌, ◌<◌, ◌≤◌, ◌≡◌, ◌≢◌, ◌⊎◌, refl, sym, ap, subst, ◌∙◌, inl, inr,
  arith, none, some, List, [], ◌∷◌, leb, Bool-cases, Option-cases, max, bit_and,
}
use freshos.Base.Bits.{bit_and_step}
use freshos.Elf.Pages.{bit_and_ones}
use freshos.Heap.{Heap, min_block, block_align, alloc, align_up, block_size, rounds}
use freshos.Heap.Chain.{
  Block, Chain, AreApart, free_bytes, rest_of, first_fit, AreApart-weaken, AreApart-length,
}
use freshos.Heap.Alloc.{rest_of-AreApart, Allocated, no_fit, fits, alloc_from-Allocated}

mask_sixteen : (v : ℕ) → v < 2 ^ 64 → bit_and v (2 ^ 64 - 1 - (16 - 1)) ≡ v / 16 * 16
mask_sixteen v h = omega (
  arith,
  bit_and_step v (2 ^ 64 - 16),
  bit_and_step (v / 2) (2 ^ 63 - 8),
  bit_and_step (v / 2 / 2) (2 ^ 62 - 4),
  bit_and_step (v / 2 / 2 / 2) (2 ^ 61 - 2),
  bit_and_ones 60 (v / 2 / 2 / 2 / 2) (omega arith),
)

-- The size of a block is the request, at least 32 bytes, rounded up to 16.
pub block_size_rounds : (n : ℕ) → n < 2 ^ 64 - 15 → block_size n ≡ (max n min_block + 15) / 16 * 16
unfolding block_size align_up
block_size_rounds n h =
    mask_sixteen (max n min_block + 16 - 1) (omega arith)
    ∙ (let e : (max n min_block + 16 - 1) / 16 * 16 ≡ (max n min_block + 15) / 16 * 16 =
          omega arith in
        e)

-- The blocks are outside `[p, p + size)`.
abbrev pub AreClear : ℕ → ℕ → List Block → Type 0
AreClear p size [] = Unit {0}
AreClear p size ((a, s) ∷ bs) = ((a + s ≤ p) ⊎ (p + size ≤ a)) × AreClear p size bs

above-AreClear :
    (p size lo hi : ℕ) (bs : List Block) → p + size ≤ lo → AreApart lo hi bs → AreClear p size bs
above-AreClear p size lo hi [] le o = tt
above-AreClear p size lo hi ((a, s) ∷ bs) le o =
    let (low, al, sl, big, top, o') = o in
    (inr (omega (arith, low)), above-AreClear p size (a + s + 1) hi bs (omega (arith, low)) o')

-- A block that was taken from a list: it lay in the region, the others are apart and outside of it,
-- and of the bytes that are gone at most 16 are not the block's.
pub record Takes (lo hi size : ℕ) (bs : List Block) (p : ℕ) (bs' : List Block) : Type 0 where
  pub from : lo ≤ p
  pub to : p + size ≤ hi
  pub aligned : p % block_align ≡ 0
  pub apart : AreApart lo hi bs'
  pub clear : AreClear p size bs'
  pub slack : ℕ
  pub is_slack : (slack ≡ 0) ⊎ (slack ≡ 16)
  pub bytes : free_bytes bs ≡ free_bytes bs' + size + slack

rest_of-AreClear :
    (a s size hi : ℕ) (bs : List Block)
    → size ≤ s
    → AreApart (a + s + 1) hi bs
    → AreClear a size (rest_of a s size bs)
rest_of-AreClear a s size hi bs le o = elim (Bool-cases (leb min_block (s - size))) [
  | inl e ↦ rw e (inr (omega arith), above-AreClear a size (a + s + 1) hi bs (omega (arith, le)) o)
  | inr e ↦ rw e (above-AreClear a size (a + s + 1) hi bs (omega (arith, le)) o)
]

rest_of-bytes :
    (a s size : ℕ) (bs : List Block)
    → s % block_align ≡ 0
    → size % block_align ≡ 0
    → size ≤ s
    → (slack : ℕ) × ((slack ≡ 0) ⊎ (slack ≡ 16))
      × (s + free_bytes bs ≡ free_bytes (rest_of a s size bs) + size + slack)
rest_of-bytes a s size bs sl zl le = elim (Bool-cases (leb min_block (s - size))) [
  | inl e ↦ (0, inl refl, rw e (omega (arith, le)))
  | inr e ↦ (s - size, ground (arith, e, sl, zl, le), rw e (omega (arith, le)))
]

pub first_fit-Takes :
    (lo hi size : ℕ) (bs : List Block) {p : ℕ} {bs' : List Block}
    → size % block_align ≡ 0
    → AreApart lo hi bs
    → first_fit size bs ≡ some (p, bs')
    → Takes lo hi size bs p bs'
first_fit-Takes lo hi size [] zl o q = cc
first_fit-Takes lo hi size ((a, s) ∷ bs) {p} {bs'} zl o q =
    let (low, al, sl, big, top, o') = o in
    elim (Bool-cases (leb size s)) [
      | inl e ↦
          (let q' : some (a, rest_of a s size bs) ≡ some (p, bs') = rw e at q in
            let ep : a ≡ p = cc in
            let eb : rest_of a s size bs ≡ bs' = cc in
            let le : size ≤ s = ground (arith, e) in
            let (slack, is, by) = rest_of-bytes a s size bs sl zl le in
            subst (λ x. Takes lo hi size ((a, s) ∷ bs) x bs') ep
              (subst (Takes lo hi size ((a, s) ∷ bs) a) eb record {
                from = low;
                to = omega (arith, le, top);
                aligned = al;
                apart =
                    AreApart-weaken (a + size) lo hi (rest_of a s size bs) (omega (arith, low))
                      (rest_of-AreApart a s size hi bs al sl zl le top o');
                clear = rest_of-AreClear a s size hi bs le o';
                slack = slack;
                is_slack = is;
                bytes = by;
              }))
      | inr e ↦ (elim (Option-cases (first_fit size bs)) [
        | inl n ↦ (let q' : none ≡ some (p, bs') = rw (e, n) at q in cc)
        | inr (r, n) ↦
            (let q' : some (r.0, (a, s) ∷ r.1) ≡ some (p, bs') = rw (e, n) at q in
              let ep : r.0 ≡ p = cc in
              let eb : (a, s) ∷ r.1 ≡ bs' = cc in
              let t = first_fit-Takes (a + s + 1) hi size bs zl o' n in
              subst (λ x. Takes lo hi size ((a, s) ∷ bs) x bs') ep
                (subst (Takes lo hi size ((a, s) ∷ bs) r.0) eb record {
                  from = omega (arith, t.from, low);
                  to = t.to;
                  aligned = t.aligned;
                  apart = (low, al, sl, big, top, t.apart);
                  clear = (inl (omega (arith, t.from)), t.clear);
                  slack = t.slack;
                  is_slack = t.is_slack;
                  bytes = omega (arith, t.bytes);
                }))
      ])
    ]

-- The heap's free list is `bs`, which lies in the heap's region.
pub record IsHeap (h : Heap) (base : ℕ) (bs : List Block) : Type 0 where
  pub chain : Chain h.mem h.free_list bs
  pub apart : AreApart base (base + h.total) bs

block_size-aligned : (n : ℕ) → n < 2 ^ 64 - 15 → block_size n % block_align ≡ 0
block_size-aligned n h = omega (arith, block_size_rounds n h)

-- What `alloc` returned.
pub data Served (h : Heap) (base n : ℕ) (bs : List Block) : Heap × ℕ → Type 0 where
  null : first_fit (block_size n) bs ≡ none → Served h base n bs (h, 0)
  block :
      (p : ℕ) (bs' : List Block) (h' : Heap)
      → first_fit (block_size n) bs ≡ some (p, bs')
      → p ≢ 0
      → Takes base (base + h.total) (block_size n) bs p bs'
      → IsHeap h' base bs'
      → h'.total ≡ h.total
      → h'.used ≡ h.used + block_size n
      → Served h base n bs (h', p)

serve :
    (h : Heap) (base n : ℕ) (bs : List Block) {r : Heap × ℕ}
    → n < 2 ^ 64 - 15
    → IsHeap h base bs
    → Allocated h 0 base (block_size n) bs r
    → Served h base n bs r
serve h base n bs lt w (no_fit q) = null q
serve h base n bs lt w (fits p bs' h' q nz r) =
    let t =
      first_fit-Takes base (base + h.total) (block_size n) bs (block_size-aligned n lt) w.apart q in
    block p bs' (record h' { used = h'.used + block_size n }) q nz t
      (record {
        chain = r.chain;
        apart = subst (λ x. AreApart base (base + x) bs') (sym r.same_total) t.apart;
      })
      r.same_total (ap (λ x. x + block_size n) r.same_used)

-- On a heap whose free list is `bs`, `alloc` is first fit: it returns null and changes nothing if no
-- block is big enough. Otherwise it returns the block of the first fit, aligned and within the region,
-- the free list is what first fit leaves, outside of that block, and at most 16 bytes are lost to both.
pub alloc_serves :
    (h : Heap) (base n : ℕ) (bs : List Block)
    → n < 2 ^ 64 - 15
    → IsHeap h base bs
    → Served h base n bs (alloc h n)
unfolding alloc
alloc_serves h base n bs lt w = serve h base n bs lt w (
    alloc_from-Allocated bs h 0 h.free_list (block_size n) base (base + h.total) (rounds h)
      (omega (arith, AreApart-length base (base + h.total) bs w.apart)) (inl refl) refl w.apart
      w.chain (block_size-aligned n lt))
