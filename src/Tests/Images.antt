-- ===== src/Tests/Images.antt =====
-- The theorems on ELF images, at an image of 124 bytes with one loadable segment of four, and on reads
-- of a space with one page.
use freshos.Base.{
  ℕ, ◌/◌, ◌^◌, ◌==◌, arith, true, none, ◌⊎◌, length, ◌+◌, ◌<◌, ◌≤◌, ◌≡◌, refl, false, ◌&&◌, List,
  [], ◌∷◌, ◌++◌, some, Bool, ltb, if◌then◌else◌, get_or, bit_and,
}
use freshos.Base.Bytes.{to_le_bytes}
use freshos.Abi.{user_base}
use freshos.Elf.{
  ok, ImageLayout, Segment, parse_layout, check_ident, has_magic, read_layout, check_fields,
  check_layout, check_headers, check_header, check_load, program_header, read_uint, field,
  get_range, check_segment, has_flag, image_limit, pt_load, phdr_size,
}
use freshos.AddrSpace.{in_window}
use freshos.AddrSpace.{Geometry, Phys, AddressSpace, page_size}
use freshos.FrameAlloc.{Frames, allocate, scan, try_byte, take_bit, clear_bit_from}
use freshos.Machine.{Memory, load_word, store_word, fill_words, store_bytes, store_byte}
use freshos.AddrSpace.{
  map_new_page, l3_table_for, alloc_zeroed, read_entry, write_entry, translate, check_pages,
}
use freshos.Elf.{Loaded, loaded, failed, load_pages, align_down, copy_page, perm_of}
use freshos.Elf.Copies.{copy_bytes, copy_byte}
use freshos.Elf.Pages.{touched_pages, load_each, load_pages_maps}
use freshos.AddrSpace.{check_range, copy_from_user}
use freshos.AddrSpace.Reads.{Reads, copy_from_user_outcome}
use freshos.Elf.Bounds.{HeaderOk, parse_layout_sound, check_segment_sound}

abbrev pub image : List ℕ
image =
    (0x7F ∷ 69 ∷ 76 ∷ 70 ∷ 2 ∷ 1 ∷ 1 ∷ 0 ∷ [])
    ++ to_le_bytes 8 0
    ++ to_le_bytes 2 2
    ++ to_le_bytes 2 0xB7
    ++ to_le_bytes 4 1
    ++ to_le_bytes 8 user_base
    ++ to_le_bytes 8 64
    ++ to_le_bytes 8 0
    ++ to_le_bytes 4 0
    ++ to_le_bytes 2 64
    ++ to_le_bytes 2 56
    ++ to_le_bytes 2 1
    ++ to_le_bytes 6 0
    ++ to_le_bytes 4 1
    ++ to_le_bytes 4 5
    ++ to_le_bytes 8 120
    ++ to_le_bytes 8 user_base
    ++ to_le_bytes 8 0
    ++ to_le_bytes 8 4
    ++ to_le_bytes 8 8
    ++ to_le_bytes 8 4096
    ++ (1 ∷ 2 ∷ 3 ∷ 4 ∷ [])

abbrev layout : ImageLayout
layout = record { entry = user_base; phoff = 64; phentsize = 56; phnum = 1 }

image_accepted : parse_layout image ≡ ok layout
unfolding parse_layout check_ident has_magic read_layout check_fields check_layout check_headers
    check_header check_load program_header read_uint field get_range
image_accepted = refl

parse_layout_sound_example :
    ((idx : ℕ) → idx < 1 → HeaderOk layout image idx)
    × ((idx : ℕ) × (idx < 1)
        × ((ph : List ℕ) × (program_header layout image idx ≡ ok ph)
            × (read_uint 4 ph 0 ≡ some pt_load)))
    × (phdr_size ≤ 56)
parse_layout_sound_example = parse_layout_sound image layout image_accepted

abbrev segment : Segment
segment = record { flags = 5; offset = 120; vaddr = user_base; filesz = 4; memsz = 8 }

segment_accepted : check_segment segment ≡ ok (user_base + 8)
unfolding check_segment in_window
segment_accepted = refl

check_segment_sound_example :
    (user_base + 8 ≡ segment.vaddr + segment.memsz)
    × (user_base ≤ segment.vaddr)
    × (user_base + 8 ≤ image_limit)
    × ((has_flag segment.flags 2 && has_flag segment.flags 1) ≡ false)
check_segment_sound_example = check_segment_sound segment (user_base + 8) segment_accepted

abbrev geometry : Geometry
geometry = record { kernel_l1 = 0; l1_entries = 0; ram_memory_type = 0 }

-- The first 32 frames are in use.
abbrev pub some_free : Frames
some_free = record { bitmap = λ i. if ltb i 4 then 0xFF else 0; free_count = 1000; next_hint = 0 }

abbrev physical : Phys
physical = record { mem = λ a. 0; alloc = some_free }

abbrev space : AddressSpace
space = record { l1 = 4096; asid = 1; frames = [] }

-- A segment of eight bytes across the end of a page.
abbrev across : Segment
across = record { flags = 5; offset = 120; vaddr = user_base + 4092; filesz = 4; memsz = 8 }

across_accepted : check_segment across ≡ ok (user_base + 4100)
unfolding check_segment in_window
across_accepted = refl

across_pages : touched_pages across ≡ user_base ∷ (user_base + page_size) ∷ []
unfolding touched_pages
across_pages = refl

load_pages_maps_example :
    load_pages geometry image across
      (user_base + 4100)
      100
      physical
      space
      (align_down across.vaddr page_size)
    ≡ load_each geometry image across physical space (touched_pages across)
load_pages_maps_example =
    load_pages_maps geometry image across (user_base + 4100) 100 physical space across_accepted
      (omega arith) (omega arith)

-- Both pages are mapped.
abbrev is_loaded : Loaded (Unit {0}) → Bool
is_loaded (loaded p s u) = true
is_loaded (failed p s e) = false

across_loaded :
    is_loaded (load_each geometry image across physical space (touched_pages across)) ≡ true
unfolding load_each copy_bytes copy_byte touched_pages map_new_page l3_table_for alloc_zeroed
    in_window read_entry write_entry copy_page allocate scan try_byte take_bit clear_bit_from
    store_bytes store_byte load_word store_word fill_words perm_of
across_loaded = refl

-- Tables at 4096, 8192 and 12288 that map the first page of the window, read-only, to 16384.
abbrev mapped : Memory
mapped = λ w.
    if w == 512 + user_base / 2 ^ 30
    then 8192 + 3
    else if w == 1024 + bit_and (user_base / 2 ^ 21) 0x1FF
    then 12288 + 3
    else if w == 1536 + bit_and (user_base / 2 ^ 12) 0x1FF
    then 16384 + 0xC0 + 3
    else 7

mapped_readable : check_range mapped space user_base 8 false ≡ true
unfolding check_range check_pages in_window translate read_entry load_word
mapped_readable = refl

copy_from_user_outcome_example :
    ((check_range mapped space user_base 8 false ≡ false)
      × (copy_from_user mapped space user_base 8 ≡ none))
    ⊎ ((check_range mapped space user_base 8 false ≡ true)
        × ((bs : List ℕ) × (copy_from_user mapped space user_base 8 ≡ some bs)
            × (length bs ≡ 8)
            × ((i : ℕ) → i < 8 → Reads mapped space (user_base + i) (get_or bs i 0))))
copy_from_user_outcome_example = copy_from_user_outcome mapped space user_base 8
