-- ===== src/Heap/Alloc.antt =====
-- `alloc` of kernel/src/heap.rs takes the first block that is big enough.
use freshos.Base.{
  ℕ, zero, suc, ◌+◌, ◌-◌, ◌*◌, ◌/◌, ◌%◌, ◌<◌, ◌≤◌, ◌≡◌, ◌≢◌, refl, sym, ap, subst, ◌∙◌, inl, inr,
  arith, true, false, none, some, List, [], ◌∷◌, leb, ◌==◌, if◌then◌else◌, length, Bool-cases,
}
use freshos.Machine.{Memory, load_word, store_word}
use freshos.Heap.{
  Heap, min_block, block_align, size_of, next_of, set_size, set_next, write_block, take_block,
  alloc_from,
}
use freshos.Heap.Chain.{
  Block, Chain, AreApart, rest_of, first_fit, Chain-same, AreApart-AreAbove, AreApart-weaken,
  head_of, IsBefore, Relinks, link-Relinks,
}

-- The blocks after the one at `a`, once `size` bytes of it are gone.
pub rest_of-AreApart :
    (a s size hi : ℕ) (bs : List Block)
    → a % block_align ≡ 0
    → s % block_align ≡ 0
    → size % block_align ≡ 0
    → size ≤ s
    → a + s ≤ hi
    → AreApart (a + s + 1) hi bs
    → AreApart (a + size) hi (rest_of a s size bs)
rest_of-AreApart a s size hi bs al sl zl le top o = elim (Bool-cases (leb min_block (s - size))) [
  | inl e ↦ rw e (
    omega arith,
    omega (arith, al, zl),
    omega (arith, sl, zl),
    ground arith,
    omega (arith, le, top),
    subst (λ x. AreApart x hi bs)
        (let q : a + s + 1 ≡ a + size + (s - size) + 1 = omega (arith, le) in q) o,
  )
  | inr e ↦ rw e (AreApart-weaken (a + s + 1) (a + size) hi bs (omega (arith, le)) o)
]

-- The block that is left over is written above `a`.
write_block-Chain :
    (m : Memory) (b size s next lo hi : ℕ) (bs : List Block)
    → size ≡ s
    → b % block_align ≡ 0
    → b ≢ 0
    → b + block_align ≤ lo
    → AreApart lo hi bs
    → Chain m next bs
    → Chain (set_next (set_size m b size) b next) b ((b, s) ∷ bs)
unfolding load_word store_word
write_block-Chain m b size s next lo hi bs q al nz le o c =
    let e₁ : (b / 8 == (b + 8) / 8) ≡ false = ground arith in
    let e₂ : (b / 8 == b / 8) ≡ true = ground arith in
    let e₃ : ((b + 8) / 8 == (b + 8) / 8) ≡ true = ground arith in
    (
      refl,
      nz,
      rw (e₁, e₂) q,
      rw e₃ (
          Chain-same m (set_next (set_size m b size) b next) next lo hi bs (λ w l. ground arith) o
            c),
    )

write_block-below :
    (m : Memory) (b size next w : ℕ)
    → b % block_align ≡ 0
    → w * 8 < b
    → set_next (set_size m b size) b next w ≡ m w
unfolding store_word
write_block-below m b size next w al lt = ground arith

take_block-Relinks :
    (h : Heap) (prev a s size lo hi : ℕ) (bs : List Block)
    → IsBefore prev lo
    → AreApart lo hi ((a, s) ∷ bs)
    → Chain h.mem a ((a, s) ∷ bs)
    → size % block_align ≡ 0
    → size ≤ s
    → Relinks h prev lo (take_block h prev a size) (rest_of a s size bs)
unfolding take_block
take_block-Relinks h prev a s size lo hi bs before o c zl le =
    let (low, al, sl, big, top, o') = o in
    let (c₀, nz, c₂, c₃) = c in
    elim (Bool-cases (leb min_block (size_of h.mem a - size))) [
      | inl e ↦
          (let e' : leb min_block (s - size) ≡ true =
              subst (λ x. leb min_block (x - size) ≡ true) c₂ e in
            let r = rest_of-AreApart a s size hi bs al sl zl le top o' in
            let r' : AreApart (a + size) hi ((a + size, s - size) ∷ bs) = rw e' at r in
            rw (take_block, e, e')
              (link-Relinks h (write_block h (a + size) (size_of h.mem a - size) (next_of h.mem a))
                prev (a + size) lo ((a + size, s - size) ∷ bs) before
                (AreApart-AreAbove (a + size) lo hi ((a + size, s - size) ∷ bs) (omega (arith, low))
                  r')
                (write_block-Chain h.mem (a + size) (size_of h.mem a - size) (s - size)
                  (next_of h.mem a) (a + s + 1) hi bs (ap (λ x. x - size) c₂)
                  (omega (arith, al, zl)) (omega (arith, nz)) (ground (arith, e')) o' c₃)
                (λ w l.
                  write_block-below h.mem (a + size) _ _ w (omega (arith, al, zl))
                    (omega (arith, l, low)))
                refl refl refl))
      | inr e ↦
          (let e' : leb min_block (s - size) ≡ false =
              subst (λ x. leb min_block (x - size) ≡ false) c₂ e in
            rw (take_block, e, e')
              (link-Relinks h h prev (next_of h.mem a) lo bs before
                (AreApart-AreAbove (a + s + 1) lo hi bs (omega (arith, low)) o') c₃ (λ w l. refl)
                refl refl refl))
    ]

-- What `alloc_from` returned, given the first fit on the list of blocks.
pub data Allocated (h : Heap) (prev lo size : ℕ) (bs : List Block) : Heap × ℕ → Type 0 where
  no_fit : first_fit size bs ≡ none → Allocated h prev lo size bs (h, 0)
  fits :
      (p : ℕ) (bs' : List Block) (h' : Heap)
      → first_fit size bs ≡ some (p, bs')
      → p ≢ 0
      → Relinks h prev lo h' bs'
      → Allocated h prev lo size bs (record h' { used = h'.used + size }, p)

-- A walk past the block `(a, s)`: what it did beyond is what it did, seen from before the block.
past :
    (h h' : Heap) (prev a s lo : ℕ) (bs' : List Block)
    → IsBefore prev lo
    → lo ≤ a
    → a % block_align ≡ 0
    → a ≢ 0
    → min_block ≤ s
    → head_of h prev ≡ a
    → size_of h.mem a ≡ s
    → Relinks h a (a + s + 1) h' bs'
    → Relinks h prev lo h' ((a, s) ∷ bs')
unfolding load_word
past h h' prev a s lo bs' before low al nz big head size r =
    let at_a : (a == 0) ≡ false = ground arith in
    let c : Chain h'.mem (next_of h'.mem a) bs' =
      subst (λ b. Chain h'.mem (if b then h'.free_list else next_of h'.mem a) bs') at_a r.chain in
    let fl : h'.free_list ≡ h.free_list = elim r.list [ inl z ↦ absurd (nz z) | inr e ↦ e ] in
    let same : (w : ℕ) → w * 8 < a + 8 → h'.mem w ≡ h.mem w =
      λ w l. r.below w (omega (arith, l, big)) (inr (λ e. ground arith)) in
    let led : head_of h' prev ≡ a = elim (Bool-cases (prev == 0)) [
      | inl z ↦ (let q : h.free_list ≡ a = rw z at head in rw z (fl ∙ q))
      | inr z ↦
          (let q : next_of h.mem prev ≡ a = rw z at head in
            elim before [
              | inl zero_prev ↦ absurd (ground arith)
              | inr (_, pal, ple) ↦ rw z (same ((prev + 8) / 8) (omega (arith, pal, ple, low)) ∙ q)
            ])
    ] in
    record {
      chain = (led, nz, same (a / 8) (omega (arith, al)) ∙ size, c);
      below = λ w l n. same w (omega (arith, l, low));
      list = inr fl;
      same_total = r.same_total;
      same_used = r.same_used;
    }

past-Allocated :
    (h : Heap) (prev a s lo size : ℕ) (bs : List Block) {r : Heap × ℕ}
    → IsBefore prev lo
    → lo ≤ a
    → a % block_align ≡ 0
    → a ≢ 0
    → min_block ≤ s
    → head_of h prev ≡ a
    → size_of h.mem a ≡ s
    → leb size s ≡ false
    → Allocated h a (a + s + 1) size bs r
    → Allocated h prev lo size ((a, s) ∷ bs) r
past-Allocated h prev a s lo size bs before low al nz big head sz e (no_fit q) =
    no_fit (rw (e, q) refl)
past-Allocated h prev a s lo size bs before low al nz big head sz e (fits p bs' h' q pz r) =
    fits p ((a, s) ∷ bs') h' (rw (e, q) refl) pz
      (past h h' prev a s lo bs' before low al nz big head sz r)

pub alloc_from-Allocated :
    (bs : List Block) (h : Heap) (prev curr size lo hi fuel : ℕ)
    → length bs < fuel
    → IsBefore prev lo
    → head_of h prev ≡ curr
    → AreApart lo hi bs
    → Chain h.mem curr bs
    → size % block_align ≡ 0
    → Allocated h prev lo size bs (alloc_from h prev curr size fuel)
unfolding alloc_from
alloc_from-Allocated bs h prev curr size lo hi zero lt before head o c zl = absurd (omega arith)
alloc_from-Allocated [] h prev curr size lo hi (suc fuel) lt before head o c zl =
    (let z : (curr == 0) ≡ true = ground arith in rw z (no_fit refl))
alloc_from-Allocated ((a, s) ∷ bs) h prev curr size lo hi (suc fuel) lt before head o c zl =
    let (low, al, sl, big, top, o') = o in
    let (c₀, nz, c₂, c₃) = c in
    let z : (a == 0) ≡ false = ground arith in
    subst (λ x. Allocated h prev lo size ((a, s) ∷ bs) (alloc_from h prev x size (suc fuel)))
      (sym c₀)
      (elim (Bool-cases (leb size s)) [
        | inl e ↦
            (let e' : leb size (size_of h.mem a) ≡ true =
                subst (λ x. leb size x ≡ true) (sym c₂) e in
              rw (z, e')
                (fits a (rest_of a s size bs) (take_block h prev a size) (rw e refl) nz (
                  take_block-Relinks h prev a s size lo hi bs before o (refl, nz, c₂, c₃) zl
                    (ground (arith, e)))))
        | inr e ↦
            (let e' : leb size (size_of h.mem a) ≡ false =
                subst (λ x. leb size x ≡ false) (sym c₂) e in
              rw (z, e')
                (past-Allocated h prev a s lo size bs before low al nz big (head ∙ c₀) c₂ e (
                  alloc_from-Allocated bs h a (next_of h.mem a) size (a + s + 1) hi fuel
                    (omega arith) (inr (nz, al, omega (arith, big))) (rw z refl) o' c₃ zl)))
      ])
