-- ===== src/Heap/Dealloc.antt =====
-- `dealloc` of kernel/src/heap.rs puts the block back in order and joins it with its neighbours.
use freshos.Base.{
  ℕ, zero, suc, ◌+◌, ◌*◌, ◌/◌, ◌%◌, ◌<◌, ◌≤◌, ◌≡◌, ◌≢◌, refl, sym, subst, ◌∙◌, inl, inr, arith,
  true, false, not, ◌&&◌, List, [], ◌∷◌, ltb, ◌==◌, length, Bool-cases,
}
use freshos.Machine.{load_word, store_word}
use freshos.Heap.{
  Heap, min_block, block_align, size_of, next_of, set_next, link, seek, coalesce_around,
  insert_between,
}
use freshos.Heap.Chain.{
  Block, Chain, AreApart, Chain-same, AreApart-AreAbove, IsBefore, Relinks, link-Relinks,
}
use freshos.Heap.Serves.{AreClear}
use freshos.Heap.Insert.{join, insert, join-AreApart}
use freshos.Heap.Coalesce.{
  coalesce_next, coalesce_next-Chain, coalesce_next-same, Placed, before-Placed,
}

module _ (freed size hi : ℕ) (nz : freed ≢ 0) (al : freed % block_align ≡ 0)
    (big : min_block ≤ size) (sl : size % block_align ≡ 0) (top : freed + size ≤ hi) where
  -- The freed block between null or a block before it and the blocks after it.
  linked : Heap → ℕ → ℕ → Heap
  linked h prev curr = link (record h { mem = set_next h.mem freed curr }) prev freed

  linked-Relinks :
      (h : Heap) (prev curr : ℕ) (bs : List Block)
      → size_of h.mem freed ≡ size
      → IsBefore prev freed
      → AreApart (freed + size) hi bs
      → Chain h.mem curr bs
      → Relinks h prev freed (linked h prev curr) ((freed, size) ∷ bs)
  unfolding linked load_word store_word
  linked-Relinks h prev curr bs sz before o c =
      link-Relinks h (record h { mem = set_next h.mem freed curr }) prev freed freed
        ((freed, size) ∷ bs) before
        (omega arith, al, AreApart-AreAbove (freed + size) freed hi bs (omega arith) o)
        (
          refl,
          nz,
          ground (arith, sz, al),
          (let e : next_of (set_next h.mem freed curr) freed ≡ curr = ground arith in
              subst (λ n. Chain (set_next h.mem freed curr) n bs) (sym e)
                (Chain-same h.mem (set_next h.mem freed curr) curr (freed + size) hi bs
                  (λ w l. ground (arith, l, big)) o c)),
        )
        (λ w l. ground (arith, l)) refl refl refl

  linked-next :
      (h : Heap) (prev curr : ℕ)
      → IsBefore prev freed
      → next_of (linked h prev curr).mem freed ≡ curr
  unfolding linked link load_word store_word
  linked-next h prev curr (inl z) = rw z ground arith
  linked-next h prev curr (inr (pz, pal, le)) =
      (let e : (prev == 0) ≡ false = ground (arith, pz) in rw e ground (arith, pal, le))

  -- The freed block becomes the first one.
  insert_between-first :
      (h : Heap) (curr : ℕ) (bs : List Block)
      → size_of h.mem freed ≡ size
      → AreApart (freed + size) hi bs
      → Chain h.mem curr bs
      → (let h' = insert_between h 0 freed curr in
          Chain h'.mem h'.free_list (join freed size bs)
          × (h'.total ≡ h.total)
          × (h'.used ≡ h.used))
  unfolding insert_between coalesce_around linked coalesce_next
  insert_between-first h curr bs sz o c =
      let r = linked-Relinks h 0 curr bs sz (inl refl) o c in
      let (r₀, r₁, r₂, r₃) = r.chain in
      let nx = linked-next h 0 curr (inl refl) in
      (
        subst (λ x. Chain (coalesce_next (linked h 0 curr).mem freed curr) x (join freed size bs))
            (sym r₀)
            (coalesce_next-Chain (linked h 0 curr).mem freed size curr hi bs nz al r₂ nx big o
              (subst (λ x. Chain (linked h 0 curr).mem x bs) nx r₃)),
        r.same_total,
        r.same_used,
      )

  -- Joined with what follows it, then with the block before.
  joined : Heap → ℕ → ℕ → Heap
  joined h prev curr =
      let l = linked h prev curr in
      record l { mem = coalesce_next (coalesce_next l.mem freed curr) prev freed }

  insert_between-joined :
      (h : Heap) (prev curr : ℕ) → prev ≢ 0 → insert_between h prev freed curr ≡ joined h prev curr
  unfolding insert_between coalesce_around linked coalesce_next joined
  insert_between-joined h prev curr pz =
      let e : (prev == 0) ≡ false = ground (arith, pz) in
      let e' : (freed == 0) ≡ false = ground (arith, nz) in rw (e, e') refl

  joined-Placed :
      (h : Heap) (prev ps curr : ℕ) (bs : List Block)
      → prev ≢ 0
      → prev % block_align ≡ 0
      → min_block ≤ ps
      → prev + ps ≤ freed
      → size_of h.mem prev ≡ ps
      → size_of h.mem freed ≡ size
      → AreApart (freed + size) hi bs
      → Chain h.mem curr bs
      → Placed h prev (joined h prev curr) (join prev ps (join freed size bs))
  unfolding joined load_word
  joined-Placed h prev ps curr bs pz pal pbig le psz sz o c =
      let before : IsBefore prev freed = inr (pz, pal, omega (arith, pbig, le)) in
      let e : (prev == 0) ≡ false = ground (arith, pz) in
      let r = linked-Relinks h prev curr bs sz before o c in
      let l = (linked h prev curr).mem in
      let m = coalesce_next l freed curr in
      let (r₀, r₁, r₂, r₃) = r.chain in
      let r₀' : next_of l prev ≡ freed = rw e at r₀ in
      let nx = linked-next h prev curr before in
      let low : (w : ℕ) → w * 8 < freed → m w ≡ l w =
        λ w lt. coalesce_next-same l freed curr w al (inl lt) in
      let below : (w : ℕ) → w * 8 < prev + 8 → m w ≡ h.mem w = λ w lt.
        low w (omega (arith, lt, pbig, le))
        ∙ r.below w (omega (arith, lt, pbig, le)) (inr (λ q. ground (arith, lt, q, pal))) in
      record {
        chain =
            coalesce_next-Chain m prev ps freed hi (join freed size bs) pz pal
              (below (prev / 8) (omega (arith, pal)) ∙ psz)
              (low ((prev + 8) / 8) (omega (arith, pal, pbig, le)) ∙ r₀') pbig
              (join-AreApart freed size (prev + ps) hi bs le al sl big top o)
              (coalesce_next-Chain l freed size curr hi bs nz al r₂ nx big o
                (subst (λ x. Chain l x bs) nx r₃));
        below =
            λ w lt. coalesce_next-same m prev freed w pal (inl lt) ∙ below w (omega (arith, lt));
        list = elim r.list [ inl z ↦ absurd (pz z) | inr q ↦ q ];
        same_total = r.same_total;
        same_used = r.same_used;
      }

  -- The freed block comes after the block at `prev`, wherever the search from there on ends.
  seek-Placed :
      (bs : List Block) (h : Heap) (prev ps lo curr fuel : ℕ)
      → length bs < fuel
      → prev ≢ 0
      → prev % block_align ≡ 0
      → min_block ≤ ps
      → prev + ps ≤ freed
      → prev + ps < lo
      → size_of h.mem prev ≡ ps
      → next_of h.mem prev ≡ curr
      → size_of h.mem freed ≡ size
      → AreClear freed size bs
      → AreApart lo hi bs
      → Chain h.mem curr bs
      → (let (p, c) = seek h.mem freed prev curr fuel in
          Placed h prev (insert_between h p freed c) (join prev ps (insert freed size bs)))
  unfolding seek
  seek-Placed bs h prev ps lo curr zero lt pz pal pbig le gap psz nx sz clear o c =
      absurd (omega arith)
  seek-Placed [] h prev ps lo curr (suc fuel) lt pz pal pbig le gap psz nx sz clear o c =
      let e : (not (curr == 0) && ltb curr freed) ≡ false = ground (arith, c) in
      rw (e, insert_between-joined h prev curr pz)
        (joined-Placed h prev ps curr [] pz pal pbig le psz sz tt c)
  seek-Placed ((b, t) ∷ bs) h prev ps lo curr (suc fuel) lt pz pal pbig le gap psz nx sz clear o c =
      let (low, bal, bsl, bbig, btop, o') = o in
      let (c₀, c₁, c₂, c₃) = c in
      let (clear₀, clear') = clear in
      let nx' = nx ∙ c₀ in
      subst
        (λ x.
          let (p, d) = seek h.mem freed prev x (suc fuel) in
          Placed h prev (insert_between h p freed d)
            (join prev ps (insert freed size ((b, t) ∷ bs))))
        (sym c₀)
        (elim (Bool-cases (ltb b freed)) [
          | inl q ↦
              (let e : (not (b == 0) && ltb b freed) ≡ true = ground (arith, q, c₁) in
                rw (e, q)
                  (before-Placed h prev ps b t (insert freed size bs) pz pal pbig
                    (omega (arith, low, gap)) psz nx'
                    (seek-Placed bs h b t (b + t + 1) (next_of h.mem b) fuel (omega arith) c₁ bal
                      bbig (ground (arith, clear₀, q, big)) (omega arith) c₂ refl sz clear' o' c₃)))
          | inr q ↦
              (let e : (not (b == 0) && ltb b freed) ≡ false = ground (arith, q) in
                let near : freed + size ≤ b = ground (arith, clear₀, q, bbig) in
                rw (e, q, insert_between-joined h prev b pz)
                  (joined-Placed h prev ps b ((b, t) ∷ bs) pz pal pbig le psz sz
                    (near, bal, bsl, bbig, btop, o') (refl, c₁, c₂, c₃)))
        ])

  from_first :
      (h : Heap) {h' : Heap} {bs : List Block}
      → Placed h h.free_list h' bs
      → Chain h'.mem h'.free_list bs × (h'.total ≡ h.total) × (h'.used ≡ h.used)
  from_first h {h'} {bs} p =
      (subst (λ x. Chain h'.mem x bs) (sym p.list) p.chain, p.same_total, p.same_used)

  -- The search from the first block on.
  pub freed-Chain :
      (bs : List Block) (h : Heap) (lo fuel : ℕ)
      → length bs < fuel
      → size_of h.mem freed ≡ size
      → AreClear freed size bs
      → AreApart lo hi bs
      → Chain h.mem h.free_list bs
      → (let (p, c) = seek h.mem freed 0 h.free_list fuel in
          let h' = insert_between h p freed c in
          Chain h'.mem h'.free_list (insert freed size bs)
          × (h'.total ≡ h.total)
          × (h'.used ≡ h.used))
  unfolding seek
  freed-Chain bs h lo zero lt sz clear o c = absurd (omega arith)
  freed-Chain [] h lo (suc fuel) lt sz clear o c =
      let e : (not (h.free_list == 0) && ltb h.free_list freed) ≡ false = ground (arith, c) in
      rw e (insert_between-first h h.free_list [] sz tt c)
  freed-Chain ((b, t) ∷ bs) h lo (suc fuel) lt sz clear o c =
      let (low, bal, bsl, bbig, btop, o') = o in
      let (c₀, c₁, c₂, c₃) = c in
      let (clear₀, clear') = clear in
      elim (Bool-cases (ltb b freed)) [
        | inl q ↦
            (let e : (not (h.free_list == 0) && ltb h.free_list freed) ≡ true =
                subst (λ x. (not (x == 0) && ltb x freed) ≡ true) (sym c₀)
                  (ground (arith, q, c₁)) in
              let near : b + t ≤ freed = ground (arith, clear₀, q, big) in
              rw (e, q)
                (from_first h (
                  subst
                    (λ x.
                      let (p, d) = seek h.mem freed x (next_of h.mem x) fuel in
                      Placed h x (insert_between h p freed d) (join b t (insert freed size bs)))
                    (sym c₀)
                    (seek-Placed bs h b t (b + t + 1) (next_of h.mem b) fuel (omega arith) c₁ bal
                      bbig near (omega arith) c₂ refl sz clear' o' c₃))))
        | inr q ↦
            (let e : (not (h.free_list == 0) && ltb h.free_list freed) ≡ false =
                subst (λ x. (not (x == 0) && ltb x freed) ≡ false) (sym c₀) (ground (arith, q)) in
              let near : freed + size ≤ b = ground (arith, clear₀, q, bbig) in
              rw (e, q)
                (insert_between-first h h.free_list ((b, t) ∷ bs) sz
                  (near, bal, bsl, bbig, btop, o') c))
      ]
