-- ===== src/Elf/Bounds.antt =====
-- What a parsed image promises the loader, whatever the file's bytes.
use freshos.Base.{
  ◌*◌, ◌-◌, take, drop, leb, Bool-cases, ℕ, zero, suc, ◌+◌, ◌^◌, ◌<◌, ◌≤◌, ◌≡◌, ◌⊎◌, inl, inr, refl,
  ap, subst, ◌∙◌, Bool, true, false, not, ◌&&◌, Option, none, some, List, arith, ◌==◌,
  if◌then◌else◌, length, Option-cases, ◌||◌,
}
use native.Mathlib.Nat.{add-zero}
use freshos.Abi.{user_base}
use freshos.Elf.{
  get_range, checked_add, checked_mul, ElfError, ok, ◌>>=◌, ◌>>◌, refuse_if, or_err, read_uint,
  ImageLayout, program_header, check_load, check_header, check_headers, >>=-eq-ok, parse_layout,
  check_fields, check_ident, read_layout, check_layout, phdr_size, Segment, check_segment, has_flag,
  image_limit, pt_load,
}
use freshos.AddrSpace.{in_window}

abbrev pub value_of : Option ℕ → ℕ
value_of none = 0
value_of (some v) = v

-- A loadable header: its part of the file lies inside the file, and neither the size in memory nor
-- the address space is exceeded.
pub record LoadOk (bytes ph : List ℕ) : Type 0 where
  pub reads_offset : read_uint 8 ph 8 ≡ some (value_of (read_uint 8 ph 8))
  pub reads_vaddr : read_uint 8 ph 16 ≡ some (value_of (read_uint 8 ph 16))
  pub reads_filesz : read_uint 8 ph 32 ≡ some (value_of (read_uint 8 ph 32))
  pub reads_memsz : read_uint 8 ph 40 ≡ some (value_of (read_uint 8 ph 40))
  pub in_file : value_of (read_uint 8 ph 8) + value_of (read_uint 8 ph 32) ≤ length bytes
  pub in_memory : value_of (read_uint 8 ph 32) ≤ value_of (read_uint 8 ph 40)
  pub no_overflow : value_of (read_uint 8 ph 16) + value_of (read_uint 8 ph 40) + 4095 < 2 ^ 64

check_load-LoadOk : (bytes ph : List ℕ) → check_load bytes ph ≡ ok tt → LoadOk bytes ph
unfolding check_load
check_load-LoadOk bytes ph h = ground arith

-- A header that the loop has passed: the 56 bytes at its place in the file, which are all there.
pub record HeaderOk (l : ImageLayout) (bytes : List ℕ) (idx : ℕ) : Type 0 where
  pub header : List ℕ
  pub all_there : l.phoff + idx * l.phentsize + phdr_size ≤ length bytes
  pub slice : header ≡ take phdr_size (drop (l.phoff + idx * l.phentsize) bytes)
  pub found : program_header l bytes idx ≡ ok header
  pub has_type : read_uint 4 header 0 ≡ some (value_of (read_uint 4 header 0))
  pub checked : value_of (read_uint 4 header 0) ≡ pt_load → LoadOk bytes header

abbrev IsLoad : ImageLayout → List ℕ → ℕ → Type 0
IsLoad l bytes idx =
    (ph : List ℕ) × (program_header l bytes idx ≡ ok ph) × (read_uint 4 ph 0 ≡ some pt_load)

in_range :
    (bytes : List ℕ) (start end : ℕ) (xs : List ℕ)
    → or_err (get_range bytes start end) ElfError.truncated_phdr ≡ ok xs
    → (end ≤ length bytes) × (xs ≡ take (end - start) (drop start bytes))
unfolding get_range
in_range bytes start end xs h = elim (Bool-cases (leb end (length bytes))) [
  | inl e ↦ (ground arith, ground arith)
  | inr e ↦ ground arith
]

checked_sum :
    (a b c : ℕ) → or_err (checked_add a b) ElfError.phdr_offset_overflow ≡ ok c → c ≡ a + b
checked_sum a b c h = ground arith

checked_product :
    (a b c : ℕ) → or_err (checked_mul a b) ElfError.phdr_offset_overflow ≡ ok c → c ≡ a * b
checked_product a b c h = ground arith

module _ (l : ImageLayout) (bytes : List ℕ) where
  program_header_lem :
      (idx : ℕ) (ph : List ℕ)
      → program_header l bytes idx ≡ ok ph
      → (l.phoff + idx * l.phentsize + phdr_size ≤ length bytes)
        × (ph ≡ take phdr_size (drop (l.phoff + idx * l.phentsize) bytes))
  unfolding program_header
  program_header_lem idx ph h =
      let (off, e₁, h₁) =
        >>=-eq-ok (or_err (checked_mul idx l.phentsize) ElfError.phdr_offset_overflow) _ h in
      let (start, e₂, h₂) =
        >>=-eq-ok (or_err (checked_add l.phoff off) ElfError.phdr_offset_overflow) _ h₁ in
      let (end, e₃, h₃) =
        >>=-eq-ok (or_err (checked_add start phdr_size) ElfError.phdr_offset_overflow) _ h₂ in
      let (le, q) = in_range bytes start end ph h₃ in
      let s : start ≡ l.phoff + idx * l.phentsize =
        checked_sum l.phoff off start e₂
        ∙ ap (λ x. l.phoff + x) (checked_product idx l.phentsize off e₁) in
      let f : end ≡ start + phdr_size = checked_sum start phdr_size end e₃ in
      let n : end - start ≡ phdr_size = omega (arith, f) in
      (
        subst (λ x. x + phdr_size ≤ length bytes) s (omega (arith, f, le)),
        q ∙ (ap (λ x. take x (drop start bytes)) n ∙ ap (λ x. take phdr_size (drop x bytes)) s),
      )

  type_checked :
      (idx : ℕ) (ph : List ℕ) (load : Bool)
      → program_header l bytes idx ≡ ok ph
      → (do
        p_type ← or_err (read_uint 4 ph 0) ElfError.truncated_phdr
        if p_type == pt_load then (do check_load bytes ph; ok true) else ok false)
        ≡ ok load
      → HeaderOk l bytes idx × (load ≡ true → IsLoad l bytes idx)
  type_checked idx ph load e h = elim (Option-cases (read_uint 4 ph 0)) [
    | inl t ↦ ground arith
    | inr (v, t) ↦ (
      record {
        header = ph;
        all_there = (program_header_lem idx ph e).0;
        slice = (program_header_lem idx ph e).1;
        found = e;
        has_type = ground arith;
        checked = λ p. check_load-LoadOk bytes ph (ground arith);
      },
      λ o. (ph, e, ground arith),
    )
  ]

  check_header-HeaderOk :
      (idx : ℕ) (load : Bool)
      → check_header l bytes idx ≡ ok load
      → HeaderOk l bytes idx × (load ≡ true → IsLoad l bytes idx)
  unfolding check_header
  check_header-HeaderOk idx load h =
      let (ph, e, rest) = >>=-eq-ok (program_header l bytes idx) _ h in
      type_checked idx ph load e rest

  next_header :
      (idx n : ℕ)
      → HeaderOk l bytes idx
      → ((j : ℕ) → j < n → HeaderOk l bytes (idx + 1 + j))
      → (j : ℕ) → j < suc n
      → HeaderOk l bytes (idx + j)
  next_header idx n here rest zero h = rw add-zero here
  next_header idx n here rest (suc j) h =
      let e : idx + suc j ≡ idx + 1 + j = omega arith in rw e (rest j (omega arith))

  -- Every header that the loop passes is sound; if it says so, one of them was loadable.
  check_headers_sound :
      (idx n : ℕ) (saw out : Bool)
      → check_headers l bytes idx n saw ≡ ok out
      → ((j : ℕ) → j < n → HeaderOk l bytes (idx + j))
        × (out ≡ true → (saw ≡ true) ⊎ ((j : ℕ) × (j < n) × IsLoad l bytes (idx + j)))
  unfolding check_headers
  check_headers_sound idx zero saw out h = (λ j lt. absurd (omega arith), λ o. inl (ground arith))
  check_headers_sound idx (suc n) saw out h =
      let (load, e, rest) = >>=-eq-ok (check_header l bytes idx) _ h in
      let (here, is_load) = check_header-HeaderOk idx load e in
      let (all, seen) = check_headers_sound (idx + 1) n (saw || load) out rest in
      (next_header idx n here all, λ o. seen_before idx n saw load is_load (seen o))
    where
      seen_before :
          (idx n : ℕ) (saw load : Bool)
          → (load ≡ true → IsLoad l bytes idx)
          → ((saw || load) ≡ true) ⊎ ((j : ℕ) × (j < n) × IsLoad l bytes (idx + 1 + j))
          → (saw ≡ true) ⊎ ((j : ℕ) × (j < suc n) × IsLoad l bytes (idx + j))
      seen_before idx n true load here s = inl refl
      seen_before idx n false load here (inl e) = inr (0, omega arith, rw add-zero (here e))
      seen_before idx n false load here (inr (j, lt, p)) =
          let e : idx + suc j ≡ idx + 1 + j = omega arith in inr (suc j, omega arith, rw e p)

check_fields-ok :
    (t m : ℕ) (l l' : ImageLayout) → check_fields t m l ≡ ok l' → phdr_size ≤ l'.phentsize
unfolding check_fields
check_fields-ok t m l l' h = ground arith

read_layout-ok :
    (bytes : List ℕ) (l : ImageLayout) → read_layout bytes ≡ ok l → phdr_size ≤ l.phentsize
unfolding read_layout
read_layout-ok bytes l h =
    let (t, _, h₁) = >>=-eq-ok (or_err (read_uint 2 bytes 16) ElfError.missing_field) _ h in
    let (m, _, h₂) = >>=-eq-ok (or_err (read_uint 2 bytes 18) ElfError.missing_field) _ h₁ in
    let (e, _, h₃) = >>=-eq-ok (or_err (read_uint 8 bytes 24) ElfError.missing_field) _ h₂ in
    let (o, _, h₄) = >>=-eq-ok (or_err (read_uint 8 bytes 32) ElfError.missing_field) _ h₃ in
    let (z, _, h₅) = >>=-eq-ok (or_err (read_uint 2 bytes 54) ElfError.missing_field) _ h₄ in
    let (n, _, h₆) = >>=-eq-ok (or_err (read_uint 2 bytes 56) ElfError.missing_field) _ h₅ in
    check_fields-ok t m _ l h₆

check_layout-ok :
    (bytes : List ℕ) (l l' : ImageLayout)
    → check_layout bytes l ≡ ok l'
    → (l ≡ l') × (check_headers l bytes 0 l.phnum false ≡ ok true)
unfolding check_layout
check_layout-ok bytes l l' h =
    let (saw, e, rest) = >>=-eq-ok (check_headers l bytes 0 l.phnum false) _ h in
    (last saw rest, e ∙ ap ok (seen saw rest))
  where
    last :
        (saw : Bool) → (do refuse_if (not saw) ElfError.no_loadable_segments; ok l) ≡ ok l' → l ≡ l'
    last true r = cc
    last false r = cc

    seen :
        (saw : Bool)
        → (do refuse_if (not saw) ElfError.no_loadable_segments; ok l) ≡ ok l'
        → saw ≡ true
    seen true r = refl
    seen false r = cc

parse_layout-checked :
    (bytes : List ℕ) (l : ImageLayout)
    → parse_layout bytes ≡ ok l
    → (check_headers l bytes 0 l.phnum false ≡ ok true) × (phdr_size ≤ l.phentsize)
unfolding parse_layout
parse_layout-checked bytes l h =
    let (u, _, h₁) = >>=-eq-ok (check_ident bytes) _ h in
    let (l', read, h₂) = >>=-eq-ok (read_layout bytes) _ h₁ in
    let (same, checked) = check_layout-ok bytes l' l h₂ in
    subst
      (λ (x : ImageLayout).
        (check_headers x bytes 0 x.phnum false ≡ ok true) × (phdr_size ≤ x.phentsize))
      same (checked, read_layout-ok bytes l' read)

-- Of an image that `parse_layout` accepts, every program header lies in the file, at its offset with
-- its full 56 bytes; every loadable one has its bytes inside the file, no more of them than it takes in memory, and addresses that do not
-- overflow when they are rounded up to a page; and at least one is loadable.
pub parse_layout_sound :
    (bytes : List ℕ) (l : ImageLayout)
    → parse_layout bytes ≡ ok l
    → ((idx : ℕ) → idx < l.phnum → HeaderOk l bytes idx)
      × ((idx : ℕ) × (idx < l.phnum) × IsLoad l bytes idx)
      × (phdr_size ≤ l.phentsize)
parse_layout_sound bytes l h =
    let (checked, size) = parse_layout-checked bytes l h in
    let (all, seen) = check_headers_sound l bytes 0 l.phnum false true checked in
    (
      λ idx lt. (let e : 0 + idx ≡ idx = omega arith in rw e at (all idx lt)),
      one_seen l bytes (seen refl),
      size,
    )
  where
    one_seen :
        (l : ImageLayout) (bytes : List ℕ)
        → (false ≡ true) ⊎ ((j : ℕ) × (j < l.phnum) × IsLoad l bytes (0 + j))
        → (idx : ℕ) × (idx < l.phnum) × IsLoad l bytes idx
    one_seen l bytes (inl e) = cc
    one_seen l bytes (inr (j, lt, p)) = let e : 0 + j ≡ j = omega arith in (j, lt, rw e at p)

-- A segment that passes `check_segment` ends where it should, inside the user window and below the
-- guard page of the stack, and is not both writable and executable.
pub check_segment_sound :
    (s : Segment) (end : ℕ)
    → check_segment s ≡ ok end
    → (end ≡ s.vaddr + s.memsz)
      × (user_base ≤ s.vaddr)
      × (end ≤ image_limit)
      × ((has_flag s.flags 2 && has_flag s.flags 1) ≡ false)
unfolding check_segment in_window
check_segment_sound s end h = ground arith
