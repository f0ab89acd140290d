-- ===== src/Heap/Insert.antt =====
-- A free block is put into the list of free blocks, in the order of addresses, and joined with the
-- blocks that it touches.
use freshos.Base.{
  ℕ, ◌+◌, ◌%◌, ◌<◌, ◌≤◌, ◌≡◌, refl, subst, inl, inr, arith, false, List, [], ◌∷◌, ltb, ◌==◌,
  if◌then◌else◌, Bool-cases,
}
use freshos.Heap.{min_block, block_align}
use freshos.Heap.Chain.{Block, AreApart, free_bytes, AreApart-weaken}
use freshos.Heap.Serves.{AreClear}

-- The block `(a, s)` before others, joined with the first of them where they touch.
abbrev pub join : ℕ → ℕ → List Block → List Block
join a s [] = (a, s) ∷ []
join a s ((b, t) ∷ bs) = if a + s == b then (a, s + t) ∷ bs else (a, s) ∷ (b, t) ∷ bs

abbrev pub insert : ℕ → ℕ → List Block → List Block
insert a s [] = (a, s) ∷ []
insert a s ((b, t) ∷ bs) =
    let rest = insert a s bs in if ltb b a then join b t rest else join a s ((b, t) ∷ bs)

join-bytes : (a s : ℕ) (bs : List Block) → free_bytes (join a s bs) ≡ s + free_bytes bs
join-bytes a s [] = refl
join-bytes a s ((b, t) ∷ bs) = elim (Bool-cases (a + s == b)) [
  | inl e ↦ rw e (omega arith)
  | inr e ↦ rw e refl
]

-- No byte of a block that comes back is lost.
pub insert-bytes : (a s : ℕ) (bs : List Block) → free_bytes (insert a s bs) ≡ s + free_bytes bs
insert-bytes a s [] = refl
insert-bytes a s ((b, t) ∷ bs) = elim (Bool-cases (ltb b a)) [
  | inl e ↦ rw e (omega (arith, join-bytes b t (insert a s bs), insert-bytes a s bs))
  | inr e ↦ rw e (join-bytes a s ((b, t) ∷ bs))
]

pub join-AreApart :
    (a s lo hi : ℕ) (bs : List Block)
    → lo ≤ a
    → a % block_align ≡ 0
    → s % block_align ≡ 0
    → min_block ≤ s
    → a + s ≤ hi
    → AreApart (a + s) hi bs
    → AreApart lo hi (join a s bs)
join-AreApart a s lo hi [] low al sl big top o = (low, al, sl, big, top, tt)
join-AreApart a s lo hi ((b, t) ∷ bs) low al sl big top o =
    let (low', al', sl', big', top', o') = o in
    elim (Bool-cases (a + s == b)) [
      | inl e ↦
          (let q : a + s ≡ b = ground (arith, e) in
            let q' : b + t + 1 ≡ a + (s + t) + 1 = omega (arith, q) in
            rw e (
              low,
              al,
              omega (arith, sl, sl'),
              omega (arith, big),
              omega (arith, q, top'),
              subst (λ x. AreApart x hi bs) q' o',
            ))
      | inr e ↦ rw e (low, al, sl, big, top, (ground (arith, low', e), al', sl', big', top', o'))
    ]

pub insert-AreApart :
    (a s lo hi : ℕ) (bs : List Block)
    → lo ≤ a
    → a % block_align ≡ 0
    → s % block_align ≡ 0
    → min_block ≤ s
    → a + s ≤ hi
    → AreClear a s bs
    → AreApart lo hi bs
    → AreApart lo hi (insert a s bs)
insert-AreApart a s lo hi [] low al sl big top c o = (low, al, sl, big, top, tt)
insert-AreApart a s lo hi ((b, t) ∷ bs) low al sl big top c o =
    let (low', al', sl', big', top', o') = o in
    let (c₀, c₁) = c in
    elim (Bool-cases (ltb b a)) [
      | inl e ↦
          (let near : b + t ≤ a = ground (arith, c₀, e, big) in
            rw e (
              join-AreApart b t lo hi (insert a s bs) low' al' sl' big' top' (
                insert-AreApart a s (b + t) hi bs near al sl big top c₁
                  (AreApart-weaken (b + t + 1) (b + t) hi bs (omega arith) o'))))
      | inr e ↦
          (let near : a + s ≤ b = ground (arith, c₀, e, big') in
            rw e (
              join-AreApart a s lo hi ((b, t) ∷ bs) low al sl big top
                (near, al', sl', big', top', o')))
    ]

-- A block that ends before `b` does not touch what begins at `b`.
pub join-join :
    (a s b t : ℕ) (bs : List Block) → a + s < b → join a s (join b t bs) ≡ (a, s) ∷ join b t bs
join-join a s b t [] lt = (let e : (a + s == b) ≡ false = ground arith in rw e refl)
join-join a s b t ((c, u) ∷ bs) lt =
    let e : (a + s == b) ≡ false = ground arith in
    elim (Bool-cases (b + t == c)) [ inl q ↦ rw (q, e) refl | inr q ↦ rw (q, e) refl ]
