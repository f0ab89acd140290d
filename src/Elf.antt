-- ===== src/Elf.antt =====
-- kernel/src/elf.rs: parsing an untrusted ELF image, and loading it into an address space. A file is
-- a list of bytes; `usize` and `u64` are 64 bits. `sync_icache` has no effect that memory shows.
pub mod Bounds
pub mod Pages
pub mod Copies
use freshos.Base.{
  ℕ, zero, suc, ◌+◌, ◌-◌, ◌*◌, ◌/◌, ◌%◌, ◌^◌, min, max, bit_and, Bool, true, false, not, ◌&&◌, ◌||◌,
  Option, none, some, List, [], ◌∷◌, ltb, leb, ◌==◌, if◌then◌else◌, length, take, drop, get_or, ◌≡◌,
  refl,
}
use freshos.Base.Bytes.{from_le_bytes}
use freshos.Abi.{user_base, user_size, user_stack_size}
use freshos.Machine.{store_bytes}
use freshos.AddrSpace.{
  Geometry, Phys, AddressSpace, Perm, read_only, read_write, read_exec, SpaceError, page_size,
  in_window, map_new_page,
}
use freshos.AddrSpace

abbrev pub phdr_size : ℕ
phdr_size = 56

-- The messages of the source's `&'static str` errors.
pub data ElfError : Type 0 where
  header_too_small bad_magic unsupported_class_data missing_field unexpected_machine : ElfError
  unsupported_type bad_phdr_size phdr_offset_overflow truncated_phdr filesz_exceeds_memsz : ElfError
  segment_outside_file segment_address_overflow no_loadable_segments : ElfError
  writable_and_executable outside_window overlaps_stack pages_overlap no_memory : ElfError
  entry_outside_window : ElfError

pub data Result {ℓ} (A : Type ℓ) : Type ℓ where
  ok : A → Result A
  err : ElfError → Result A

-- The `?` of the source: the rest runs on the value, and an error is returned at once.
abbrev pub ◌>>=◌ {ℓ κ} : {S : Type ℓ} {T : Type κ} → Result S → (S → Result T) → Result T
err early >>= next = err early
ok value >>= next = next value

-- `return Err(e)` where the test holds.
abbrev pub refuse_if : Bool → ElfError → Result (Unit {0})
refuse_if true e = err e
refuse_if false e = ok tt

abbrev pub or_err {ℓ} : {A : Type ℓ} → Option A → ElfError → Result A
or_err none e = err e
or_err (some a) e = ok a

abbrev pub ◌>>◌ {ℓ} : {T : Type ℓ} → Result (Unit {0}) → Result T → Result T
check >> next = check >>= λ done. next

infixl 5 ◌>>=◌ ◌>>◌
-- A chain that succeeded did so in its first part, and in the rest on what that gave.
pub >>=-eq-ok {ℓ κ} :
    {S : Type ℓ} {T : Type κ} (first : Result S) (next : S → Result T) {t : T}
    → (first >>= next) ≡ ok t
    → (s : S) × (first ≡ ok s) × (next s ≡ ok t)
>>=-eq-ok (err early) next h = cc
>>=-eq-ok (ok value) next h = (value, refl, h)

-- `usize::checked_add` and `checked_mul`.
abbrev pub checked_add : ℕ → ℕ → Option ℕ
checked_add a b = if ltb (a + b) (2 ^ 64) then some (a + b) else none

abbrev pub checked_mul : ℕ → ℕ → Option ℕ
checked_mul a b = if ltb (a * b) (2 ^ 64) then some (a * b) else none

-- `bytes.get(start..end)`, where `start ≤ end`.
unfoldable pub get_range : List ℕ → ℕ → ℕ → Option (List ℕ)
get_range bytes start end =
    if leb end (length bytes) then some (take (end - start) (drop start bytes)) else none

unfoldable pub field : ℕ → List ℕ → ℕ → Option (List ℕ)
field n bytes off = elim (checked_add off n) [ none ↦ none | some end ↦ get_range bytes off end ]

-- `read_u16`, `read_u32`, `read_u64` at widths 2, 4 and 8.
unfoldable pub read_uint : ℕ → List ℕ → ℕ → Option ℕ
read_uint n bytes off = elim (field n bytes off) [ none ↦ none | some bs ↦ some (from_le_bytes bs) ]

unfoldable pub align_down : ℕ → ℕ → ℕ
align_down value align = bit_and value (2 ^ 64 - 1 - (align - 1))

pub record ImageLayout : Type 0 where
  pub entry : ℕ
  pub phoff : ℕ
  pub phentsize : ℕ
  pub phnum : ℕ

-- Program header `idx`, as a slice that holds all of its fields.
unfoldable pub program_header : ImageLayout → List ℕ → ℕ → Result (List ℕ)
program_header l bytes idx = do
  off ← or_err (checked_mul idx l.phentsize) phdr_offset_overflow
  start ← or_err (checked_add l.phoff off) phdr_offset_overflow
  end ← or_err (checked_add start phdr_size) phdr_offset_overflow
  or_err (get_range bytes start end) truncated_phdr

abbrev pub pt_load : ℕ
pt_load = 1

-- The checks of one `PT_LOAD` header.
unfoldable pub check_load : List ℕ → List ℕ → Result (Unit {0})
check_load bytes ph = do
  p_offset ← or_err (read_uint 8 ph 8) missing_field
  p_vaddr ← or_err (read_uint 8 ph 16) missing_field
  p_filesz ← or_err (read_uint 8 ph 32) missing_field
  p_memsz ← or_err (read_uint 8 ph 40) missing_field
  p_align ← or_err (read_uint 8 ph 48) missing_field
  refuse_if (ltb p_memsz p_filesz) filesz_exceeds_memsz
  file_end ← or_err (checked_add p_offset p_filesz) segment_outside_file
  refuse_if (not (leb file_end (length bytes))) segment_outside_file
  end ← or_err (checked_add p_vaddr p_memsz) segment_address_overflow
  padded ← or_err (checked_add end 4095) segment_address_overflow
  ok tt

-- One round of the loop over the headers: whether this one is loadable; if so, it is checked.
unfoldable pub check_header : ImageLayout → List ℕ → ℕ → Result Bool
check_header l bytes idx = do
  ph ← program_header l bytes idx
  p_type ← or_err (read_uint 4 ph 0) truncated_phdr
  if p_type == pt_load then (do check_load bytes ph; ok true) else ok false

-- `for idx in idx..idx + n`: whether a loadable segment has been seen.
unfoldable pub check_headers : ImageLayout → List ℕ → ℕ → ℕ → Bool → Result Bool
check_headers l bytes idx zero saw_load = ok saw_load
check_headers l bytes idx (suc n) saw_load = do
  load ← check_header l bytes idx
  check_headers l bytes (idx + 1) n (saw_load || load)

-- `bytes.get(0..4) != Some(ELF_MAGIC)`.
unfoldable pub has_magic : List ℕ → Bool
has_magic bytes =
    get_or bytes 0 0 == 0x7F
    && get_or bytes 1 0 == b'E'
    && get_or bytes 2 0 == b'L'
    && get_or bytes 3 0 == b'F'

-- The first checks of `parse_layout`.
unfoldable pub check_ident : List ℕ → Result (Unit {0})
check_ident bytes = do
  refuse_if (ltb (length bytes) 64) header_too_small
  refuse_if (not (has_magic bytes)) bad_magic
  refuse_if (not (get_or bytes 4 0 == 2 && get_or bytes 5 0 == 1)) unsupported_class_data

-- The checks of the header's fields.
unfoldable pub check_fields : ℕ → ℕ → ImageLayout → Result ImageLayout
check_fields e_type e_machine layout = do
  refuse_if (not (e_machine == 0xB7)) unexpected_machine
  refuse_if (not (e_type == 2) && not (e_type == 3)) unsupported_type
  refuse_if (ltb layout.phentsize phdr_size) bad_phdr_size
  ok layout

-- The header's fields, read in the source's order.
unfoldable pub read_layout : List ℕ → Result ImageLayout
read_layout bytes = do
  e_type ← or_err (read_uint 2 bytes 16) missing_field
  e_machine ← or_err (read_uint 2 bytes 18) missing_field
  e_entry ← or_err (read_uint 8 bytes 24) missing_field
  e_phoff ← or_err (read_uint 8 bytes 32) missing_field
  e_phentsize ← or_err (read_uint 2 bytes 54) missing_field
  e_phnum ← or_err (read_uint 2 bytes 56) missing_field
  check_fields e_type e_machine
      (record { entry = e_entry; phoff = e_phoff; phentsize = e_phentsize; phnum = e_phnum })

-- The loop over the headers, and its last check.
unfoldable pub check_layout : List ℕ → ImageLayout → Result ImageLayout
check_layout bytes layout = do
  saw_load ← check_headers layout bytes 0 layout.phnum false
  refuse_if (not saw_load) no_loadable_segments
  ok layout

unfoldable pub parse_layout : List ℕ → Result ImageLayout
parse_layout bytes = do check_ident bytes; layout ← read_layout bytes; check_layout bytes layout

-- Everything the image uses must end below the stack's guard page.
abbrev pub image_limit : ℕ
image_limit = user_base + user_size - user_stack_size - page_size

-- One loadable segment.
pub record Segment : Type 0 where
  pub flags : ℕ
  pub offset : ℕ
  pub vaddr : ℕ
  pub filesz : ℕ
  pub memsz : ℕ

unfoldable pub read_segment : List ℕ → Result Segment
read_segment ph = do
  flags ← or_err (read_uint 4 ph 4) missing_field
  offset ← or_err (read_uint 8 ph 8) missing_field
  vaddr ← or_err (read_uint 8 ph 16) missing_field
  filesz ← or_err (read_uint 8 ph 32) missing_field
  memsz ← or_err (read_uint 8 ph 40) missing_field
  ok (record { flags = flags; offset = offset; vaddr = vaddr; filesz = filesz; memsz = memsz })

abbrev pub has_flag : ℕ → ℕ → Bool
has_flag flags f = not (bit_and flags f == 0)

-- PF_X is 1 and PF_W is 2.
unfoldable pub check_segment : Segment → Result ℕ
check_segment s = do
  refuse_if (has_flag s.flags 2 && has_flag s.flags 1) writable_and_executable
  end ← or_err (checked_add s.vaddr s.memsz) segment_address_overflow
  refuse_if (not (in_window s.vaddr s.memsz)) outside_window
  refuse_if (ltb image_limit end) overlaps_stack
  ok end

unfoldable pub perm_of : Segment → Perm
perm_of s =
    if has_flag s.flags 1 then read_exec else (if has_flag s.flags 2 then read_write else read_only)

abbrev pub load_error : SpaceError → ElfError
load_error SpaceError.already_mapped = pages_overlap
load_error SpaceError.outside_window = outside_window
load_error SpaceError.no_memory = no_memory

-- Loading ends with the physical state and the space, and an error if there was one.
pub data Loaded {ℓ} (A : Type ℓ) : Type ℓ where
  loaded : Phys → AddressSpace → A → Loaded A
  failed : Phys → AddressSpace → ElfError → Loaded A

-- Copy the part of the file image that falls in the page at `page`, whose frame is `pa`.
unfoldable pub copy_page : List ℕ → Segment → Phys → ℕ → ℕ → Phys
copy_page bytes s p page pa =
    let copy_start : ℕ = max page s.vaddr in
    let copy_end : ℕ = min (page + page_size) (s.vaddr + s.filesz) in
    let src : ℕ = s.offset + (copy_start - s.vaddr) in
    let n : ℕ = copy_end - copy_start in
    if ltb copy_start copy_end
    then record p { mem = store_bytes p.mem (pa + (copy_start - page)) (take n (drop src bytes)) }
    else p

-- `while page < end`, on fuel.
unfoldable pub load_pages :
    Geometry → List ℕ → Segment → ℕ → ℕ → Phys → AddressSpace → ℕ → Loaded (Unit {0})
load_pages g bytes s end zero p space page = loaded p space tt
load_pages g bytes s end (suc fuel) p space page =
    if ltb page end
    then (elim (map_new_page g p space page (perm_of s)) [
      | AddrSpace.err p' space' e ↦ failed p' space' (load_error e)
      | AddrSpace.ok p' space' pa ↦
          load_pages g bytes s end fuel (copy_page bytes s p' page pa) space' (page + page_size)
    ])
    else loaded p space tt

-- One segment: its pages, from the one that holds its first byte.
unfoldable pub load_segment : Geometry → List ℕ → List ℕ → Phys → AddressSpace → Loaded (Unit {0})
load_segment g bytes ph p space = elim (read_segment ph) [
  | err e ↦ failed p space e
  | ok s ↦ (elim (check_segment s) [
    | err e ↦ failed p space e
    | ok end ↦
        load_pages g bytes s end (s.memsz / page_size + 3) p space (align_down s.vaddr page_size)
  ])
]

-- `for idx in idx..idx + n` of `load_into`.
unfoldable pub load_segments :
    Geometry → ImageLayout → List ℕ → ℕ → ℕ → Phys → AddressSpace → Loaded (Unit {0})
load_segments g l bytes idx zero p space = loaded p space tt
load_segments g l bytes idx (suc n) p space = elim (program_header l bytes idx) [
  | err e ↦ failed p space e
  | ok ph ↦ (elim (read_uint 4 ph 0) [
    | none ↦ failed p space truncated_phdr
    | some p_type ↦ (elim (p_type == pt_load) [
      | false ↦ load_segments g l bytes (idx + 1) n p space
      | true ↦ (elim (load_segment g bytes ph p space) [
        | failed p' space' e ↦ failed p' space' e
        | loaded p' space' u ↦ load_segments g l bytes (idx + 1) n p' space'
      ])
    ])
  ])
]

-- The entry point is the result.
unfoldable pub load_into : Geometry → List ℕ → Phys → AddressSpace → Loaded ℕ
load_into g bytes p space = elim (parse_layout bytes) [
  | err e ↦ failed p space e
  | ok l ↦ (elim (load_segments g l bytes 0 l.phnum p space) [
    | failed p' space' e ↦ failed p' space' e
    | loaded p' space' u ↦
        if in_window l.entry 4
        then loaded p' space' l.entry
        else failed p' space' entry_outside_window
  ])
]
