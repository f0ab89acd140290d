-- ===== src/BootImages.antt =====
-- kernel/src/boot_images.rs: the ELF files of \EFI\FreshOS\, read at boot and found by name. The
-- directory is a list of entries in the order in which the firmware gives them; what opening and
-- reading a file yields is part of its entry. The table is its used part.
use freshos.Base.{
  ℕ, ◌+◌, ◌-◌, Bool, true, false, not, ◌&&◌, ◌||◌, Option, none, some, List, [], ◌∷◌, ◌++◌, leb,
  ◌==◌, if◌then◌else◌, length, drop,
}

abbrev pub max_images : ℕ
max_images = 16

abbrev pub name_len : ℕ
name_len = 16

pub record Image : Type 0 where
  pub name : List ℕ
  pub contents : List ℕ

-- A directory entry: its name in UTF-16 and, if it can be opened and read, its bytes.
pub record Entry : Type 0 where
  pub is_regular_file : Bool
  pub file_name : List ℕ
  pub file_size : ℕ
  pub reads_as : Option (List ℕ)

-- `u8::to_ascii_lowercase` and `[u8]::eq_ignore_ascii_case`.
abbrev pub lowercase : ℕ → ℕ
lowercase b = if leb 65 b && leb b 90 then b + 32 else b

unfoldable pub eq_ignore_ascii_case : List ℕ → List ℕ → Bool
eq_ignore_ascii_case [] [] = true
eq_ignore_ascii_case [] (b ∷ bs) = false
eq_ignore_ascii_case (a ∷ as') [] = false
eq_ignore_ascii_case (a ∷ as') (b ∷ bs) = lowercase a == lowercase b && eq_ignore_ascii_case as' bs

-- `for ch in info.file_name().iter()`: the name so far, or `none` for a name that is not ASCII or too
-- long.
unfoldable pub ascii_name : List ℕ → List ℕ → Option (List ℕ)
ascii_name name [] = some name
ascii_name name (c ∷ cs) =
    let rest = ascii_name (name ++ (c ∷ [])) cs in
    if leb 0x80 c || length name == name_len then none else rest

-- `b".ELF"`.
abbrev pub elf_suffix : List ℕ
elf_suffix = b'.' ∷ b'E' ∷ b'L' ∷ b'F' ∷ []

unfoldable pub has_elf_suffix : List ℕ → Bool
unfolding eq_ignore_ascii_case
has_elf_suffix name =
    leb 4 (length name) && eq_ignore_ascii_case (drop (length name - 4) name) elf_suffix

-- The whole file, if as much was read as its entry says.
unfoldable pub read_whole : Entry → Option (List ℕ)
read_whole entry = elim entry.reads_as [
  | none ↦ none
  | some bytes ↦ if length bytes == entry.file_size then some bytes else none
]

-- The image that an entry gives; `none` where the loop goes on to the next entry.
unfoldable pub image_of : Entry → Option Image
unfolding ascii_name has_elf_suffix read_whole
image_of entry = if not entry.is_regular_file then none else (elim (ascii_name [] entry.file_name) [
  | none ↦ none
  | some name ↦ if not (has_elf_suffix name) then none else (elim (read_whole entry) [
    | none ↦ none
    | some bytes ↦ some (record { name = name; contents = bytes })
  ])
])

-- The loop of `load_all`, from the images so far.
unfoldable pub load_from : List Image → List Entry → List Image
unfolding image_of
load_from images [] = images
load_from images (entry ∷ entries) = elim (image_of entry) [
  | none ↦ load_from images entries
  | some image ↦ elim (length images == max_images) [
    | true ↦ images
    | false ↦ load_from (images ++ (image ∷ [])) entries
  ]
]

unfoldable pub load_all : List Entry → List Image
unfolding load_from
load_all entries = load_from [] entries

-- The image whose file name is `name`.
unfoldable pub find : List Image → List ℕ → Option (List ℕ)
unfolding eq_ignore_ascii_case
find [] name = none
find (image ∷ images) name =
    let rest = find images name in
    if eq_ignore_ascii_case image.name name then some image.contents else rest
