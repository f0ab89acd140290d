-- ===== src/Elf/Pages.antt =====
-- The page loop of `load_into` in kernel/src/elf.rs, `while page < end`, against the list of the pages
-- that a segment touches.
use freshos.Base.{
  ℕ, zero, suc, ◌+◌, ◌-◌, ◌*◌, ◌/◌, ◌%◌, ◌^◌, ◌<◌, ◌≤◌, ◌≡◌, refl, ap, ◌∙◌, true, false, arith, ltb,
  length, List, [], ◌∷◌, bit_and,
}
use native.Mathlib.Nat.{pow-suc}
use freshos.Base.Bits.{bit_and_step, bit_and_field}
use freshos.AddrSpace.{Geometry, Phys, AddressSpace, page_size, map_new_page}
use freshos.AddrSpace
use freshos.Elf.{
  Segment, Loaded, ok, load_pages, check_segment, align_down, copy_page, load_error, perm_of,
  loaded, failed,
}
use freshos.Elf.Copies.{copy_bytes, copy_page-copy_bytes}
use freshos.Elf.Bounds.{check_segment_sound}

-- `n` pages in a row, from the page with number `page`, by their addresses.
pages_from : ℕ → ℕ → List ℕ
pages_from page zero = []
pages_from page (suc n) = page * page_size ∷ pages_from (page + 1) n

-- The pages with a byte of `[vaddr, vaddr + memsz)`, or the page of `vaddr` where that is empty and
-- not at the start of a page.
unfoldable pub touched_pages : Segment → List ℕ
unfolding pages_from
touched_pages s =
    let first : ℕ = s.vaddr / page_size in
    pages_from first ((s.vaddr + s.memsz + (page_size - 1)) / page_size - first)

-- Memory after each byte of the file that belongs into the page went to its place in the frame.
abbrev pub copied : List ℕ → Segment → Phys → ℕ → ℕ → Phys
copied bytes s p page pa = record p { mem = copy_bytes bytes s page pa p.mem 0 s.filesz }

-- Each page of a list in order: map it, and copy the bytes that belong into it. The first error ends it.
unfoldable pub load_each :
    Geometry → List ℕ → Segment → Phys → AddressSpace → List ℕ → Loaded (Unit {0})
load_each g bytes s p space [] = loaded p space tt
load_each g bytes s p space (page ∷ pages) = elim (map_new_page g p space page (perm_of s)) [
  | AddrSpace.err p' space' e ↦ failed p' space' (load_error e)
  | AddrSpace.ok p' space' pa ↦ load_each g bytes s (copied bytes s p' page pa) space' pages
]

-- The loop from the page with number `page` goes through the `n` pages that begin before `end`.
pages_loaded :
    (g : Geometry) (bytes : List ℕ) (s : Segment) (end fuel n : ℕ) (p : Phys) (space : AddressSpace)
    (page : ℕ)
    → n ≡ (end + (page_size - 1)) / page_size - page
    → n < fuel
    → s.offset + s.filesz ≤ length bytes
    → load_pages g bytes s end fuel p space (page * page_size)
      ≡ load_each g bytes s p space (pages_from page n)
unfolding load_pages load_each pages_from
pages_loaded g bytes s end zero n p space page h lt l = absurd (omega arith)
pages_loaded g bytes s end (suc fuel) zero p space page h lt l =
    let e : ltb (page * page_size) end ≡ false = ground arith in rw e refl
pages_loaded g bytes s end (suc fuel) (suc n) p space page h lt l =
    let e : ltb (page * page_size) end ≡ true = ground arith in
    let next : page * page_size + page_size ≡ (page + 1) * page_size = omega arith in
    rw e
      (elim (map_new_page g p space (page * page_size) (perm_of s))
        as (λ o.
          elim o as (λ x. Loaded (Unit {0})) [
            | AddrSpace.err p' space' e ↦ failed p' space' (load_error e)
            | AddrSpace.ok p' space' pa ↦
                load_pages g bytes s end fuel (copy_page bytes s p' (page * page_size) pa) space'
                  (page * page_size + page_size)
          ]
          ≡ elim o as (λ x. Loaded (Unit {0})) [
            | AddrSpace.err p' space' e ↦ failed p' space' (load_error e)
            | AddrSpace.ok p' space' pa ↦
                load_each g bytes s (copied bytes s p' (page * page_size) pa) space'
                  (pages_from (page + 1) n)
          ]) [
            | AddrSpace.err p' space' e ↦ refl
            | AddrSpace.ok p' space' pa ↦ rw next (
                ap (λ x. load_pages g bytes s end fuel x space' ((page + 1) * page_size))
                  (copy_page-copy_bytes bytes s (page * page_size) pa p' l)
                ∙ pages_loaded g bytes s end fuel n (copied bytes s p' (page * page_size) pa) space'
                    (page + 1) (omega arith) (omega arith) l)
          ])

-- A mask of `k` ones keeps a value below it.
pub bit_and_ones : (k a : ℕ) → a < 2 ^ k → bit_and a (2 ^ k - 1) ≡ a
bit_and_ones zero a h = (let e : a ≡ 0 = omega arith in rw e refl)
bit_and_ones (suc k) a h =
    let p = pow-suc 2 k in
    let half : (2 ^ suc k - 1) / 2 ≡ 2 ^ k - 1 = omega arith in
    let odd : (2 ^ suc k - 1) % 2 ≡ 1 = omega arith in
    omega (
      arith,
      bit_and_step a (2 ^ suc k - 1),
      bit_and_ones k (a / 2) (omega arith),
      ap (λ m. bit_and (a / 2) m) half,
      odd,
    )

-- `align_down` to a page, of a 64-bit address.
align_down-page : (a : ℕ) → a < 2 ^ 64 → align_down a page_size ≡ a / page_size * page_size
unfolding align_down
align_down-page a h =
    ap (λ x. bit_and x ((2 ^ 52 - 1) * 2 ^ 12))
      (let e : a ≡ a / page_size * 2 ^ 12 + a % page_size = omega arith in e)
    ∙ (bit_and_field 12 (2 ^ 52 - 1) (a / page_size) (a % page_size) (omega arith)
        ∙ ap (λ x. x * 2 ^ 12) (bit_and_ones 52 (a / page_size) (omega arith)))

-- Loading a segment that passed its checks, with its part of the file inside the file, maps each page
-- that it touches, once and in order, and copies each byte of the file that belongs into the page to
-- its place, up to the first page that cannot be mapped. The rounds that the loop is given are always
-- enough.
pub load_pages_maps :
    (g : Geometry) (bytes : List ℕ) (s : Segment) (end rounds : ℕ) (p : Phys) (space : AddressSpace)
    → check_segment s ≡ ok end
    → s.memsz / page_size + 3 ≤ rounds
    → s.offset + s.filesz ≤ length bytes
    → load_pages g bytes s end rounds p space (align_down s.vaddr page_size)
      ≡ load_each g bytes s p space (touched_pages s)
unfolding touched_pages
load_pages_maps g bytes s end rounds p space e le l =
    let (is_end, low, high, wx) = check_segment_sound s end e in
    let first : ℕ = s.vaddr / page_size in
    let n : ℕ = (s.vaddr + s.memsz + (page_size - 1)) / page_size - first in
    ap (load_pages g bytes s end rounds p space) (align_down-page s.vaddr (omega arith))
    ∙ pages_loaded g bytes s end rounds n p space first
        (ap (λ x. (x + (page_size - 1)) / page_size - first) (omega arith)) (omega arith) l
