-- ===== src/Elf/Copies.antt =====
-- What `load_into` of kernel/src/elf.rs copies for one page, against a copy of the file's bytes one by
-- one.
use freshos.Base.{
  ℕ, zero, suc, ◌+◌, ◌-◌, ◌≤◌, ◌<◌, ◌≡◌, refl, ap, sym, ◌∙◌, true, false, ◌&&◌, arith, ltb, leb,
  min, max, List, [], ◌∷◌, take, drop, get_or, length, if◌then◌else◌, Bool-cases, inl, inr,
}
use freshos.Machine.{Memory, store_byte, store_bytes}
use freshos.AddrSpace.{Phys, page_size}
use freshos.Elf.{Segment, copy_page}

module _ (bytes : List ℕ) (s : Segment) (page pa : ℕ) where
  -- Byte `i` of the segment's part of the file goes to its place in the frame, if it is in the page.
  unfoldable pub copy_byte : Memory → ℕ → Memory
  copy_byte m i =
      if leb page (s.vaddr + i) && ltb (s.vaddr + i) (page + page_size)
      then store_byte m (pa + (s.vaddr + i - page)) (get_or bytes (s.offset + i) 0)
      else m

  -- The `n` bytes from byte `i`.
  unfoldable pub copy_bytes : Memory → ℕ → ℕ → Memory
  unfolding copy_byte
  copy_bytes m i zero = m
  copy_bytes m i (suc n) = copy_bytes (copy_byte m i) (i + 1) n

slice_step :
    (bytes : List ℕ) (k n : ℕ)
    → k < length bytes
    → take (suc n) (drop k bytes) ≡ get_or bytes k 0 ∷ take n (drop (suc k) bytes)
slice_step [] k n h = absurd (omega arith)
slice_step (b ∷ bs) zero n h = refl
slice_step (b ∷ bs) (suc k) n h = slice_step bs k n (omega arith)

module _ (bytes : List ℕ) (s : Segment) (page pa : ℕ) where
  copy_bytes-add :
      (m : Memory) (i a b : ℕ)
      → copy_bytes bytes s page pa m i (a + b)
        ≡ copy_bytes bytes s page pa (copy_bytes bytes s page pa m i a) (i + a) b
  unfolding copy_bytes
  copy_bytes-add m i zero b =
      let e : i + 0 ≡ i = omega arith in
      let f : 0 + b ≡ b = omega arith in
      ap (copy_bytes bytes s page pa m i) f ∙ ap (λ j. copy_bytes bytes s page pa m j b) (sym e)
  copy_bytes-add m i (suc a) b =
      let e : i + suc a ≡ i + 1 + a = omega arith in
      let f : suc a + b ≡ suc (a + b) = omega arith in
      ap (copy_bytes bytes s page pa m i) f
      ∙ (copy_bytes-add (copy_byte bytes s page pa m i) (i + 1) a b
          ∙ ap (λ j. copy_bytes bytes s page pa (copy_bytes bytes s page pa m i (suc a)) j b)
              (sym e))

  -- Bytes outside of the page.
  copy_bytes_below :
      (m : Memory) (i n : ℕ)
      → s.vaddr + i + n ≤ max page (s.vaddr + i)
      → copy_bytes bytes s page pa m i n ≡ m
  unfolding copy_bytes copy_byte
  copy_bytes_below m i zero h = refl
  copy_bytes_below m i (suc n) h =
      let e : leb page (s.vaddr + i) ≡ false = ground arith in
      rw e (copy_bytes_below m (i + 1) n (omega arith))

  copy_bytes_above :
      (m : Memory) (i n : ℕ)
      → min (page + page_size) (s.vaddr + i + n) ≤ s.vaddr + i
      → copy_bytes bytes s page pa m i n ≡ m
  unfolding copy_bytes copy_byte
  copy_bytes_above m i zero h = refl
  copy_bytes_above m i (suc n) h =
      let e : (leb page (s.vaddr + i) && ltb (s.vaddr + i) (page + page_size)) ≡ false =
        ground arith in
      rw e (copy_bytes_above m (i + 1) n (omega arith))

  -- Bytes in the page.
  copy_bytes_in :
      (m : Memory) (i n : ℕ)
      → page ≤ s.vaddr + i
      → s.vaddr + i + n ≤ page + page_size
      → s.offset + i + n ≤ length bytes
      → copy_bytes bytes s page pa m i n
        ≡ store_bytes m (pa + (s.vaddr + i - page)) (take n (drop (s.offset + i) bytes))
  unfolding copy_bytes copy_byte store_bytes
  copy_bytes_in m i zero h h' l = refl
  copy_bytes_in m i (suc n) h h' l =
      let e : (leb page (s.vaddr + i) && ltb (s.vaddr + i) (page + page_size)) ≡ true =
        ground arith in
      let step = slice_step bytes (s.offset + i) n (omega arith) in
      let at : pa + (s.vaddr + (i + 1) - page) ≡ pa + (s.vaddr + i - page) + 1 = omega arith in
      let off : s.offset + (i + 1) ≡ suc (s.offset + i) = omega arith in
      let m' : Memory = store_byte m (pa + (s.vaddr + i - page)) (get_or bytes (s.offset + i) 0) in
      rw (e, step)
        (copy_bytes_in m' (i + 1) n (omega arith) (omega arith) (omega arith)
          ∙ (ap (λ x. store_bytes m' x (take n (drop (s.offset + (i + 1)) bytes))) at
              ∙ ap (λ x. store_bytes m' (pa + (s.vaddr + i - page) + 1) (take n (drop x bytes)))
                  off))

  -- The `copy_nonoverlapping` of a page copies exactly the segment's bytes in the page.
  slice-copy_bytes :
      (m : Memory) (a n c : ℕ)
      → s.filesz ≡ a + (n + c)
      → s.vaddr + a ≡ max page s.vaddr
      → s.vaddr + a + n ≡ min (page + page_size) (s.vaddr + s.filesz)
      → s.offset + s.filesz ≤ length bytes
      → store_bytes m (pa + (s.vaddr + a - page)) (take n (drop (s.offset + a) bytes))
        ≡ copy_bytes bytes s page pa m 0 s.filesz
  slice-copy_bytes m a n c is_size is_start is_end l =
      let before = copy_bytes_below m 0 a (omega arith) in
      let inside = copy_bytes_in m a n (omega arith) (omega arith) (omega arith) in
      let m' : Memory = copy_bytes bytes s page pa m a n in
      let after = copy_bytes_above m' (a + n) c (omega arith) in
      sym (
        ap (copy_bytes bytes s page pa m 0) is_size
        ∙ (copy_bytes-add m 0 a (n + c)
            ∙ (ap (λ x. copy_bytes bytes s page pa x (0 + a) (n + c)) before
                ∙ (ap (λ j. copy_bytes bytes s page pa m j (n + c))
                      (let e : 0 + a ≡ a = omega arith in e)
                    ∙ (copy_bytes-add m a n c ∙ (after ∙ inside))))))

  none-copy_bytes :
      (m : Memory)
      → min (page + page_size) (s.vaddr + s.filesz) ≤ max page s.vaddr
      → copy_bytes bytes s page pa m 0 s.filesz ≡ m
  none-copy_bytes m h = elim (Bool-cases (leb (s.vaddr + s.filesz) (max page s.vaddr))) [
    | inl e ↦ copy_bytes_below m 0 s.filesz (ground (arith, e))
    | inr e ↦ copy_bytes_above m 0 s.filesz (ground (arith, e))
  ]

  -- What is copied for a page is each byte of the file that belongs into the page, at its place.
  pub copy_page-copy_bytes :
      (p : Phys)
      → s.offset + s.filesz ≤ length bytes
      → copy_page bytes s p page pa ≡ record p { mem = copy_bytes bytes s page pa p.mem 0 s.filesz }
  unfolding copy_page
  copy_page-copy_bytes p l =
      let start : ℕ = max page s.vaddr in
      let end : ℕ = min (page + page_size) (s.vaddr + s.filesz) in
      elim (Bool-cases (ltb start end)) [
        | inr e ↦ rw e (
            ap (λ x. record p { mem = x })
              (sym (none-copy_bytes p.mem (let h : end ≤ start = ground (arith, e) in h))))
        | inl e ↦
            (let lt : start < end = ground (arith, e) in
              let a : ℕ = start - s.vaddr in
              let same : s.vaddr + a ≡ start = omega arith in
              rw e (
                ap (λ x. record p { mem = x })
                  (ap
                      (λ x.
                        store_bytes p.mem (pa + (x - page))
                          (take (end - start) (drop (s.offset + a) bytes)))
                      (sym same)
                    ∙ slice-copy_bytes p.mem a (end - start) (s.filesz - (a + (end - start)))
                        (omega arith) same (omega arith) l)))
      ]
