-- ===== src/Heap/Chain.antt =====
-- The free list of kernel/src/heap.rs as a list of blocks, and how it lies in memory.
use freshos.Base.{
  ℕ, ◌+◌, ◌-◌, ◌*◌, ◌/◌, ◌%◌, ◌<◌, ◌≤◌, ◌≡◌, ◌≢◌, ◌⊎◌, refl, sym, subst, ◌∙◌, inl, inr, arith, true,
  false, Option, none, some, List, [], ◌∷◌, leb, ◌==◌, if◌then◌else◌, length,
}
use freshos.Machine.{Memory, load_word, store_word}
use freshos.Heap.{Heap, min_block, block_align, size_of, next_of, link}

-- The address of a free block and its size.
abbrev pub Block : Type 0
Block = ℕ × ℕ

-- The blocks are the list that begins at `p`.
abbrev pub Chain : Memory → ℕ → List Block → Type 0
Chain m p [] = p ≡ 0
Chain m p ((a, s) ∷ bs) = (p ≡ a) × (a ≢ 0) × (size_of m a ≡ s) × Chain m (next_of m a) bs

-- The blocks lie in `[lo, hi)`, in the order of addresses, and no two touch. Each one is aligned and
-- no smaller than the least block.
abbrev pub AreApart : ℕ → ℕ → List Block → Type 0
AreApart lo hi [] = Unit {0}
AreApart lo hi ((a, s) ∷ bs) =
    (lo ≤ a)
    × (a % block_align ≡ 0)
    × (s % block_align ≡ 0)
    × (min_block ≤ s)
    × (a + s ≤ hi)
    × AreApart (a + s + 1) hi bs

-- The bytes in the list.
abbrev pub free_bytes : List Block → ℕ
free_bytes [] = 0
free_bytes ((a, s) ∷ bs) = s + free_bytes bs

-- What is left of the block `(a, s)` after `size` bytes: nothing, where it is less than a block.
abbrev pub rest_of : ℕ → ℕ → ℕ → List Block → List Block
rest_of a s size bs = if leb min_block (s - size) then (a + size, s - size) ∷ bs else bs

-- First fit: the address, and the blocks after the allocation.
abbrev pub first_fit : ℕ → List Block → Option (ℕ × List Block)
first_fit size [] = none
first_fit size ((a, s) ∷ bs) =
    let rest = first_fit size bs in
    if leb size s
    then some (a, rest_of a s size bs)
    else elim rest [ none ↦ none | some (p, bs') ↦ some (p, (a, s) ∷ bs') ]

pub AreApart-weaken :
    (lo lo' hi : ℕ) (bs : List Block) → lo' ≤ lo → AreApart lo hi bs → AreApart lo' hi bs
AreApart-weaken lo lo' hi [] le h = tt
AreApart-weaken lo lo' hi ((a, s) ∷ bs) le h =
    let (h₀, h₁, h₂, h₃, h₄, h₅) = h in (omega (arith, h₀), h₁, h₂, h₃, h₄, h₅)

pub load-store :
    (m : Memory) (a b v : ℕ)
    → load_word (store_word m a v) b ≡ (if b / 8 == a / 8 then v else load_word m b)
unfolding load_word store_word
load-store m a b v = refl

-- The blocks are aligned and begin at `lo` or above.
abbrev pub AreAbove : ℕ → List Block → Type 0
AreAbove lo [] = Unit {0}
AreAbove lo ((a, s) ∷ bs) = (lo ≤ a) × (a % block_align ≡ 0) × AreAbove lo bs

pub AreApart-AreAbove :
    (lo lo' hi : ℕ) (bs : List Block) → lo' ≤ lo → AreApart lo hi bs → AreAbove lo' bs
AreApart-AreAbove lo lo' hi [] le o = tt
AreApart-AreAbove lo lo' hi ((a, s) ∷ bs) le o =
    let (low, al, _, _, _, o') = o in
    (omega (arith, low), al, AreApart-AreAbove (a + s + 1) lo' hi bs (omega (arith, low)) o')

-- A change below `lo` leaves the blocks above as they are.
pub Chain-above :
    (m m' : Memory) (p lo : ℕ) (bs : List Block)
    → ((w : ℕ) → lo ≤ w * 8 → m' w ≡ m w)
    → AreAbove lo bs
    → Chain m p bs
    → Chain m' p bs
unfolding load_word
Chain-above m m' p lo [] same o c = c
Chain-above m m' p lo ((a, s) ∷ bs) same o c =
    let (le, al, o') = o in
    let (c₀, c₁, c₂, c₃) = c in
    let e₁ : m' (a / 8) ≡ m (a / 8) = same (a / 8) (omega (arith, le, al)) in
    let e₂ : m' ((a + 8) / 8) ≡ m ((a + 8) / 8) = same ((a + 8) / 8) (omega (arith, le, al)) in
    (
      c₀,
      c₁,
      e₁ ∙ c₂,
      Chain-above m m' (m' ((a + 8) / 8)) lo bs same o' (subst (λ n. Chain m n bs) (sym e₂) c₃),
    )

pub Chain-same :
    (m m' : Memory) (p lo hi : ℕ) (bs : List Block)
    → ((w : ℕ) → lo ≤ w * 8 → m' w ≡ m w)
    → AreApart lo hi bs
    → Chain m p bs
    → Chain m' p bs
Chain-same m m' p lo hi bs same o c =
    Chain-above m m' p lo bs same (AreApart-AreAbove lo lo hi bs (omega arith) o) c

-- A block takes more than a step of the fuel: `n` blocks of `[lo, hi)` need `32 * n` bytes.
pub AreApart-length : (lo hi : ℕ) (bs : List Block) → AreApart lo hi bs → length bs * 32 ≤ hi - lo
AreApart-length lo hi [] o = omega arith
AreApart-length lo hi ((a, s) ∷ bs) o =
    let (le, _, _, big, top, o') = o in
    omega (arith, AreApart-length (a + s + 1) hi bs o', le, big, top)

-- The address that `prev` leads to; the first block where it is null.
abbrev pub head_of : Heap → ℕ → ℕ
head_of h prev = if prev == 0 then h.free_list else next_of h.mem prev

-- A null pointer, or a block that ends below `lo`.
abbrev pub IsBefore : ℕ → ℕ → Type 0
IsBefore prev lo = (prev ≡ 0) ⊎ ((prev ≢ 0) × (prev % block_align ≡ 0) × (prev + block_align ≤ lo))

-- What `h'` has changed of `h`: the blocks from `lo` on are `bs`, and below only the link of `prev`
-- has changed.
pub record Relinks (h : Heap) (prev lo : ℕ) (h' : Heap) (bs : List Block) : Type 0 where
  pub chain : Chain h'.mem (head_of h' prev) bs
  pub below : (w : ℕ) → w * 8 < lo → (prev ≡ 0) ⊎ (w ≢ (prev + 8) / 8) → h'.mem w ≡ h.mem w
  pub list : (prev ≡ 0) ⊎ (h'.free_list ≡ h.free_list)
  pub same_total : h'.total ≡ h.total
  pub same_used : h'.used ≡ h.used

pub link-Relinks :
    (h h₁ : Heap) (prev b lo : ℕ) (bs : List Block)
    → IsBefore prev lo
    → AreAbove lo bs
    → Chain h₁.mem b bs
    → ((w : ℕ) → w * 8 < lo → h₁.mem w ≡ h.mem w)
    → h₁.free_list ≡ h.free_list
    → h₁.total ≡ h.total
    → h₁.used ≡ h.used
    → Relinks h prev lo (link h₁ prev b) bs
unfolding link load_word store_word
link-Relinks h h₁ prev b lo bs (inl z) o c same fl tot us = rw z record {
  chain = c;
  below = λ w l n. same w l;
  list = inl refl;
  same_total = tot;
  same_used = us;
}
link-Relinks h h₁ prev b lo bs (inr (nz, al, le)) o c same fl tot us =
    let e : (prev == 0) ≡ false = ground arith in
    let word : (prev + 8) / 8 * 8 < lo = omega arith in
    let head : ((prev + 8) / 8 == (prev + 8) / 8) ≡ true = ground arith in
    rw e record {
      chain =
          rw (e, head)
            (Chain-above h₁.mem (store_word h₁.mem (prev + 8) b) b lo bs (λ w l. ground arith) o c);
      below = λ w l n. elim n [ inl z ↦ absurd (nz z) | inr d ↦ ground (arith, same w l) ];
      list = inr fl;
      same_total = tot;
      same_used = us;
    }
