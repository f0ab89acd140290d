-- ===== src/Heap/Coalesce.antt =====
-- Joining two neighbours in the free list of kernel/src/heap.rs, in memory.
use freshos.Base.{
  ℕ, ◌+◌, ◌*◌, ◌/◌, ◌%◌, ◌<◌, ◌≤◌, ◌≡◌, ◌≢◌, ◌⊎◌, refl, sym, subst, ◌∙◌, inl, inr, arith, true,
  false, List, [], ◌∷◌, ◌==◌, if◌then◌else◌, Bool-cases,
}
use freshos.Machine.{Memory, load_word, store_word}
use freshos.Heap.{Heap, min_block, block_align, size_of, next_of, coalesce}
use freshos.Heap.Chain.{Block, Chain, AreApart, Chain-same}
use freshos.Heap.Serves.{AreClear}
use freshos.Heap.Insert.{join, join-join}

-- A change of the words at `a` leaves blocks elsewhere as they are.
pub Chain-clear :
    (m m' : Memory) (p a s lo hi : ℕ) (bs : List Block)
    → ((w : ℕ) → (w * 8 < a) ⊎ (a + s ≤ w * 8) → m' w ≡ m w)
    → AreClear a s bs
    → AreApart lo hi bs
    → Chain m p bs
    → Chain m' p bs
unfolding load_word
Chain-clear m m' p a s lo hi [] same clear o c = c
Chain-clear m m' p a s lo hi ((b, t) ∷ bs) same clear o c =
    let (_, al, _, big, _, o') = o in
    let (c₀, c₁, c₂, c₃) = c in
    let e₁ : m' (b / 8) ≡ m (b / 8) =
      same (b / 8)
        (elim clear.0 [ inl l ↦ inl (omega (arith, al, big)) | inr l ↦ inr (omega (arith, al)) ]) in
    let e₂ : m' ((b + 8) / 8) ≡ m ((b + 8) / 8) =
      same ((b + 8) / 8)
        (elim clear.0 [ inl l ↦ inl (omega (arith, al, big)) | inr l ↦ inr (omega (arith, al)) ]) in
    (
      c₀,
      c₁,
      e₁ ∙ c₂,
      Chain-clear m m' (m' ((b + 8) / 8)) a s (b + t + 1) hi bs same clear.1 o'
          (subst (λ n. Chain m n bs) (sym e₂) c₃),
    )

-- Where `curr` follows `a` in the list, null or not.
unfoldable pub coalesce_next : Memory → ℕ → ℕ → Memory
coalesce_next m a curr = if curr == 0 then m else coalesce m a curr

merged-Chain :
    (m : Memory) (a s b t hi : ℕ) (bs : List Block)
    → a ≢ 0
    → a % block_align ≡ 0
    → size_of m a ≡ s
    → min_block ≤ s
    → b % block_align ≡ 0
    → size_of m b ≡ t
    → min_block ≤ t
    → a + s ≤ b
    → (a + size_of m a == b) ≡ true
    → AreApart (b + t + 1) hi bs
    → Chain m (next_of m b) bs
    → Chain (coalesce m a b) a ((a, s + t) ∷ bs)
unfolding coalesce load_word store_word
merged-Chain m a s b t hi bs nz al sz big al' sz' big' low e o c =
    let at_next : next_of (coalesce m a b) a ≡ next_of m b = ground (arith, al, al', low, big, e) in
    (
      refl,
      nz,
      ground (arith, sz, sz', e, al),
      subst (λ n. Chain (coalesce m a b) n bs) (sym at_next)
          (Chain-same m (coalesce m a b) (next_of m b) (b + t + 1) hi bs
            (λ w l. ground (arith, al, low, l, big, e)) o c),
    )

pub coalesce_next-Chain :
    (m : Memory) (a s curr hi : ℕ) (bs : List Block)
    → a ≢ 0
    → a % block_align ≡ 0
    → size_of m a ≡ s
    → next_of m a ≡ curr
    → min_block ≤ s
    → AreApart (a + s) hi bs
    → Chain m curr bs
    → Chain (coalesce_next m a curr) a (join a s bs)
unfolding coalesce_next coalesce
coalesce_next-Chain m a s curr hi [] nz al sz nx big o c =
    (let z : (curr == 0) ≡ true = ground (arith, c) in rw z (refl, nz, sz, nx ∙ c))
coalesce_next-Chain m a s curr hi ((b, t) ∷ bs) nz al sz nx big o c =
    let (c₀, c₁, c₂, c₃) = c in
    let z : (curr == 0) ≡ false = ground (arith, c₀, c₁) in
    let z' : (b == 0) ≡ false = ground (arith, c₁) in
    let (low, al', _, big', _, o') = o in
    subst (λ x. Chain (coalesce_next m a x) a (join a s ((b, t) ∷ bs))) (sym c₀)
      (elim (Bool-cases (a + s == b)) [
        | inl e ↦
            (let e' : (a + size_of m a == b) ≡ true = subst (λ x. (a + x == b) ≡ true) (sym sz) e in
              rw (z', e) (merged-Chain m a s b t hi bs nz al sz big al' c₂ big' low e' o' c₃))
        | inr e ↦
            (let e' : (a + size_of m a == b) ≡ false =
                subst (λ x. (a + x == b) ≡ false) (sym sz) e in
              rw (z', e', e) (refl, nz, sz, (nx ∙ c₀, c₁, c₂, c₃)))
      ])

pub coalesce_next-same :
    (m : Memory) (a curr w : ℕ)
    → a % block_align ≡ 0
    → (w * 8 < a) ⊎ (a + block_align ≤ w * 8)
    → coalesce_next m a curr w ≡ m w
unfolding coalesce_next coalesce store_word
coalesce_next-same m a curr w al h = ground (arith, al, h)

-- The list from `start` on after the freed block is in it; nothing below has changed.
pub record Placed (h : Heap) (start : ℕ) (h' : Heap) (bs : List Block) : Type 0 where
  pub chain : Chain h'.mem start bs
  pub below : (w : ℕ) → w * 8 < start → h'.mem w ≡ h.mem w
  pub list : h'.free_list ≡ h.free_list
  pub same_total : h'.total ≡ h.total
  pub same_used : h'.used ≡ h.used

-- A change beyond the block `(b, t)`, seen from the block before.
pub before-Placed :
    (h : Heap) (prev ps b t : ℕ) (bs : List Block) {h' : Heap}
    → prev ≢ 0
    → prev % block_align ≡ 0
    → min_block ≤ ps
    → prev + ps < b
    → size_of h.mem prev ≡ ps
    → next_of h.mem prev ≡ b
    → Placed h b h' (join b t bs)
    → Placed h prev h' (join prev ps (join b t bs))
unfolding load_word
before-Placed h prev ps b t bs {h'} pz pal pbig gap psz nx p = record {
  chain = subst (Chain h'.mem prev) (sym (join-join prev ps b t bs gap)) (
    refl,
    pz,
    p.below (prev / 8) (omega (arith, pal, pbig, gap)) ∙ psz,
    subst (λ n. Chain h'.mem n (join b t bs))
        (sym (p.below ((prev + 8) / 8) (omega (arith, pal, pbig, gap)) ∙ nx)) p.chain,
  );
  below = λ w l. p.below w (omega (arith, l, gap));
  list = p.list;
  same_total = p.same_total;
  same_used = p.same_used;
}
