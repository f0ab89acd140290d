-- ===== src/AddrSpace/Reads.antt =====
-- `check_range` and `copy_from_user` of kernel/src/arch/aarch64/addrspace.rs: once a range has passed
-- the check, every byte of it is read, from the frame that its own page is mapped to.
use freshos.Base.{
  ℕ, zero, suc, ◌+◌, ◌-◌, ◌*◌, ◌/◌, ◌%◌, ◌<◌, ◌≤◌, ◌≡◌, ◌⊎◌, refl, sym, ap, ◌∙◌, Bool, true, false,
  none, some, List, [], ◌++◌, arith, ltb, ◌==◌, is_some, length, length-append, get_or,
  get_or-append, min, Bool-cases, Option-cases, inl, inr,
}
use freshos.Machine.{Memory, load_bytes, load_byte}
use freshos.AddrSpace.{
  AddressSpace, page_size, translate, in_window, check_pages, check_range, read_chunks,
  copy_from_user,
}
use freshos.AddrSpace.Walk.{same_page, translate_offset}

module _ (m : Memory) (s : AddressSpace) where
  readable :
      (page end fuel : ℕ) (w : Bool)
      → ltb page end ≡ true
      → check_pages m s page end w (suc fuel) ≡ true
      → is_some (translate m s page w) ≡ true
  unfolding check_pages
  readable page end fuel w e h = elim (Bool-cases (is_some (translate m s page w))) [
    | inl y ↦ y
    | inr n ↦ absurd (let c : false ≡ true = rw (check_pages, e, n) at h in cc)
  ]

  later :
      (page end fuel : ℕ) (w : Bool)
      → ltb page end ≡ true
      → check_pages m s page end w (suc fuel) ≡ true
      → check_pages m s (page + page_size) end w fuel ≡ true
  unfolding check_pages
  later page end fuel w e h = elim (Bool-cases (is_some (translate m s page w))) [
    | inl y ↦ rw (check_pages, e, y) at h
    | inr n ↦ absurd (let c : false ≡ true = rw (check_pages, e, n) at h in cc)
  ]

  -- Every page that starts in the range that `check_pages` passed is readable.
  check_pages_all :
      (page end i fuel : ℕ) (w : Bool)
      → check_pages m s page end w fuel ≡ true
      → page + i * page_size < end
      → is_some (translate m s (page + i * page_size) w) ≡ true
  unfolding check_pages
  check_pages_all page end i zero w h lt = cc
  check_pages_all page end zero (suc fuel) w h lt =
      let e : ltb page end ≡ true = ground arith in
      let z : page + 0 * page_size ≡ page = omega arith in rw z (readable page end fuel w e h)
  check_pages_all page end (suc i) (suc fuel) w h lt =
      let e : ltb page end ≡ true = ground arith in
      let z : page + suc i * page_size ≡ (page + page_size) + i * page_size = omega arith in
      rw z
        (check_pages_all (page + page_size) end i fuel w (later page end fuel w e h) (omega arith))

  length-load_bytes : (pa n : ℕ) → length (load_bytes m pa n) ≡ n
  unfolding load_bytes
  length-load_bytes pa zero = refl
  length-load_bytes pa (suc n) = ap suc (length-load_bytes (pa + 1) n)

  get_or-load_bytes : (pa n i : ℕ) → i < n → get_or (load_bytes m pa n) i 0 ≡ load_byte m (pa + i)
  unfolding load_bytes
  get_or-load_bytes pa zero i h = absurd (omega arith)
  get_or-load_bytes pa (suc n) zero h = ap (load_byte m) (omega arith)
  get_or-load_bytes pa (suc n) (suc i) h =
      get_or-load_bytes (pa + 1) n i (omega arith) ∙ ap (load_byte m) (omega arith)

  -- The byte at a user address is the one at the physical address that the tables give.
  pub Reads : ℕ → ℕ → Type 0
  Reads va b = (pa : ℕ) × (translate m s va false ≡ some pa) × (b ≡ load_byte m pa)

  -- A chunk in one page, and what is read after it.
  chunk-Reads :
      (at pa chunk left : ℕ) (bs : List ℕ)
      → at % page_size + chunk ≤ page_size
      → translate m s at false ≡ some pa
      → ((i : ℕ) → i < left - chunk → Reads (at + chunk + i) (get_or bs i 0))
      → (i : ℕ) → i < left
      → Reads (at + i) (get_or (load_bytes m pa chunk ++ bs) i 0)
  unfolding Reads
  chunk-Reads at pa chunk left bs fits f rest i lt =
      let p = get_or-append (load_bytes m pa chunk) bs i 0 in
      let n = length-load_bytes pa chunk in
      elim (Bool-cases (ltb i chunk)) [
        | inl e ↦ (
          pa + i,
          translate_offset m s at i pa (ground arith) f,
          p ∙ (rw (n, e) (get_or-load_bytes pa chunk i (ground arith))),
        )
        | inr e ↦
            (let (x, t, b) = rest (i - chunk) (ground arith) in
              let same : at + chunk + (i - chunk) ≡ at + i = ground arith in
              (x, rw same at t, p ∙ (rw (n, e) b)))
      ]

  -- The loop reads everything that is left, when every address is readable.
  read_chunks_all :
      (at left fuel : ℕ)
      → left < fuel
      → ((a : ℕ) → at ≤ a → a < at + left → is_some (translate m s a false) ≡ true)
      → (bs : List ℕ) × (read_chunks m s at left fuel ≡ some bs)
        × (length bs ≡ left)
        × ((i : ℕ) → i < left → Reads (at + i) (get_or bs i 0))
  unfolding read_chunks
  read_chunks_all at left zero lt h = absurd (omega arith)
  read_chunks_all at left (suc fuel) lt h = elim (Bool-cases (left == 0)) [
    | inl e ↦
        (let z : left ≡ 0 = ground arith in
          ([], rw (read_chunks, e) refl, sym z, λ i l. absurd (omega arith)))
    | inr e ↦
        (let chunk : ℕ = min (page_size - at % page_size) left in
          let pos : 0 < left = ground (arith, e) in
          let (bs, q, n, each) =
            read_chunks_all (at + chunk) (left - chunk) fuel (omega arith)
              (λ a lo hi. h a (omega arith) (omega arith)) in
          elim (Option-cases (translate m s at false)) [
            | inl f ↦
                absurd (
                  let c : false ≡ true = ap is_some (sym f) ∙ h at (omega arith) (omega arith) in
                  cc)
            | inr (pa, f) ↦ (
              load_bytes m pa chunk ++ bs,
              rw (read_chunks, e, f, q) refl,
              length-append (load_bytes m pa chunk) bs
                  ∙ rw (length-load_bytes pa chunk, n) (omega arith),
              chunk-Reads at pa chunk left bs (omega arith) f each,
            )
          ])
  ]

  -- Every address of a range that passed the check is readable.
  range_readable :
      (va len a : ℕ)
      → check_range m s va len false ≡ true
      → va ≤ a
      → a < va + len
      → is_some (translate m s a false) ≡ true
  unfolding check_range
  range_readable va len a h lo hi =
      let z : (len == 0) ≡ false = ground arith in
      elim (Bool-cases (in_window va len)) [
        | inr e ↦ absurd (let c : false ≡ true = rw (check_range, e) at h in cc)
        | inl e ↦
            (let base : ℕ = va - va % page_size in
              let i : ℕ = (a - base) / page_size in
              let pages : check_pages m s base (va + len) false (len / page_size + 3) ≡ true =
                rw (check_range, e, z) at h in
              same_page m s (base + i * page_size) a false (omega arith)
                (check_pages_all base (va + len) i (len / page_size + 3) false pages (omega arith)))
      ]

-- A copy from user memory of a range that passes the check gives as many bytes as asked for, each the
-- one at the physical address to which the space maps its address; any other range gives none.
pub copy_from_user_outcome :
    (m : Memory) (s : AddressSpace) (va len : ℕ)
    → ((check_range m s va len false ≡ false) × (copy_from_user m s va len ≡ none))
      ⊎ ((check_range m s va len false ≡ true)
          × ((bs : List ℕ) × (copy_from_user m s va len ≡ some bs)
              × (length bs ≡ len)
              × ((i : ℕ) → i < len → Reads m s (va + i) (get_or bs i 0))))
unfolding copy_from_user
copy_from_user_outcome m s va len = elim (Bool-cases (check_range m s va len false)) [
  | inr e ↦ inl (e, rw (copy_from_user, e) refl)
  | inl e ↦
      (let (bs, q, n, each) =
          read_chunks_all m s va len (len + 1) (omega arith)
            (λ a lo hi. range_readable m s va len a e lo hi) in
        inr (e, (bs, rw (copy_from_user, e) q, n, each)))
]
