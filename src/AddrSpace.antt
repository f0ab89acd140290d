-- ===== src/AddrSpace.antt =====
-- kernel/src/arch/aarch64/addrspace.rs: the per-task page tables, the check that every user pointer
-- passes through, and the copies to and from user memory. Memory and the frame allocator are
-- explicit state. Flags and masks are the source's numbers; the barriers, TLB and cache instructions
-- have no effect that a single CPU's memory contents show, and are left out.
pub mod Walk
pub mod Reads
use freshos.Base.{
  ℕ, zero, suc, ◌+◌, ◌-◌, ◌*◌, ◌/◌, ◌%◌, ◌^◌, min, bit_and, bit_or, Bool, true, false, not, ◌&&◌,
  ◌||◌, Option, none, some, List, [], ◌∷◌, ◌++◌, ltb, leb, ◌==◌, if◌then◌else◌, length, take, drop,
  is_some,
}
use freshos.Base.Bytes.{to_le_bytes, from_le_bytes}
use freshos.Abi.{user_base, user_size, Message}
use freshos.Machine.{Memory, load_word, store_word, store_bytes, load_bytes, fill_words}
use freshos.FrameAlloc.{Frames}
use freshos.FrameAlloc

abbrev pub page_size : ℕ
page_size = 4096

abbrev valid : ℕ
valid = 1

abbrev table_or_page : ℕ
table_or_page = 2

abbrev pub ap_el0_rw : ℕ
ap_el0_rw = 0b01 * 2 ^ 6

abbrev pub ap_el0_ro : ℕ
ap_el0_ro = 0b11 * 2 ^ 6

abbrev pub ap_mask : ℕ
ap_mask = 0b11 * 2 ^ 6

abbrev af : ℕ
af = 2 ^ 10

abbrev ng : ℕ
ng = 2 ^ 11

abbrev pxn : ℕ
pxn = 2 ^ 53

abbrev uxn : ℕ
uxn = 2 ^ 54

abbrev pub addr_mask : ℕ
addr_mask = 0x0000_FFFF_FFFF_F000

abbrev memory_type_mask : ℕ
memory_type_mask = bit_or (0b111 * 2 ^ 2) (0b11 * 2 ^ 8)

abbrev pub user_l1_index : ℕ
user_l1_index = user_base / 2 ^ 30

-- The statics that `init` fills.
pub record Geometry : Type 0 where
  pub kernel_l1 : ℕ
  pub l1_entries : ℕ
  pub ram_memory_type : ℕ

pub data Perm : Type 0 where
  read_only read_write read_exec : Perm

pub data SpaceError : Type 0 where
  no_memory outside_window already_mapped : SpaceError

pub record AddressSpace : Type 0 where
  pub l1 : ℕ
  pub asid : ℕ
  pub frames : List ℕ

-- Memory and the allocator's statics, which every operation on a space may change.
pub record Phys : Type 0 where
  pub mem : Memory
  pub alloc : Frames

unfoldable pub read_entry : Memory → ℕ → ℕ → ℕ
unfolding load_word
read_entry m table index = load_word m (table + 8 * index)

unfoldable pub write_entry : Memory → ℕ → ℕ → ℕ → Memory
unfolding store_word
write_entry m table index value = store_word m (table + 8 * index) value

-- `entry & VALID != 0`.
abbrev pub is_valid : ℕ → Bool
is_valid entry = not (bit_and entry valid == 0)

-- Whether `[va, va + len)` lies entirely inside the user window.
unfoldable pub in_window : ℕ → ℕ → Bool
in_window va len = leb user_base va && leb len user_size && leb (va - user_base) (user_size - len)

-- Level 3 ends the walk; so does a block entry at levels 1 and 2.
unfoldable pub kernel_leaf : Memory → ℕ → ℕ → Option ℕ
unfolding read_entry
kernel_leaf m l1 va =
    let e1 : ℕ = read_entry m l1 (bit_and (va / 2 ^ 30) 0x1FF) in
    let e2 : ℕ = read_entry m (bit_and e1 addr_mask) (bit_and (va / 2 ^ 21) 0x1FF) in
    let e3 : ℕ = read_entry m (bit_and e2 addr_mask) (bit_and (va / 2 ^ 12) 0x1FF) in
    if not (is_valid e1)
    then none
    else if bit_and e1 table_or_page == 0
    then some e1
    else if not (is_valid e2)
    then none
    else if bit_and e2 table_or_page == 0
    then some e2
    else if not (is_valid e3)
    then none
    else some e3

pub data InitError : Type 0 where
  bad_geometry window_in_use ram_unmapped : InitError

pub data InitResult : Type 0 where
  ready : Geometry → InitResult
  refused : InitError → InitResult

unfoldable pub init : Memory → ℕ → ℕ → ℕ → InitResult
unfolding read_entry kernel_leaf
init m kernel_l1 t0sz ram_va =
    if not (leb 25 t0sz && leb t0sz 29)
    then refused bad_geometry
    else if is_valid (read_entry m kernel_l1 user_l1_index)
    then refused window_in_use
    else elim (kernel_leaf m kernel_l1 ram_va) [
      | none ↦ refused ram_unmapped
      | some leaf ↦ ready (record {
        kernel_l1 = kernel_l1;
        l1_entries = 2 ^ (34 - t0sz);
        ram_memory_type = bit_and leaf memory_type_mask;
      })
    ]

-- A fallible operation on a space: the physical state, the space, and a result or an error. What
-- was allocated before an error stays allocated, and belongs to the space.
pub data Outcome : Type 0 where
  ok : Phys → AddressSpace → ℕ → Outcome
  err : Phys → AddressSpace → SpaceError → Outcome

abbrev pub and_then : Outcome → (Phys → AddressSpace → ℕ → Outcome) → Outcome
and_then (ok p s v) k = k p s v
and_then (err p s e) k = err p s e

unfoldable pub alloc_zeroed : Phys → AddressSpace → Outcome
unfolding fill_words
alloc_zeroed p s = elim (FrameAlloc.allocate p.alloc) [
  | none ↦ err p s no_memory
  | some (frame, a) ↦
      ok (record { mem = fill_words p.mem frame 512 0; alloc = a })
        (record s { frames = s.frames ++ (frame ∷ []) }) frame
]

unfoldable pub child_table : Phys → AddressSpace → ℕ → ℕ → Outcome
unfolding alloc_zeroed read_entry write_entry
child_table p s table index =
    let entry : ℕ = read_entry p.mem table index in
    if is_valid entry
    then ok p s (bit_and entry addr_mask)
    else and_then (alloc_zeroed p s) λ p' s' child.
      ok
        (record p' {
          mem = write_entry p'.mem table index (bit_or (bit_or child valid) table_or_page);
        })
        s' child

unfoldable pub l3_table_for : Phys → AddressSpace → ℕ → Outcome
unfolding child_table
l3_table_for p s va =
    and_then (child_table p s s.l1 user_l1_index)
      λ p' s' l2. child_table p' s' l2 (bit_and (va / 2 ^ 21) 0x1FF)

-- The access bits of a page.
abbrev pub access_of : Perm → ℕ
access_of read_only = bit_or (bit_or ap_el0_ro pxn) uxn
access_of read_write = bit_or (bit_or ap_el0_rw pxn) uxn
access_of read_exec = bit_or ap_el0_ro pxn

-- `pa | VALID | TABLE_OR_PAGE | AF | NG | memory_type | access`.
abbrev pub page_entry : ℕ → ℕ → ℕ → ℕ
page_entry pa memory_type access =
    bit_or (bit_or (bit_or (bit_or (bit_or (bit_or pa valid) table_or_page) af) ng) memory_type)
      access

-- Map a fresh, zeroed page at `va`; the result is its physical address.
unfoldable pub map_new_page : Geometry → Phys → AddressSpace → ℕ → Perm → Outcome
unfolding l3_table_for in_window read_entry write_entry alloc_zeroed
map_new_page g p s va perm =
    if not (va % page_size == 0) || not (in_window va page_size)
    then err p s outside_window
    else and_then (l3_table_for p s va) λ p₁ s₁ l3.
      let index : ℕ = bit_and (va / 2 ^ 12) 0x1FF in
      if is_valid (read_entry p₁.mem l3 index)
      then err p₁ s₁ already_mapped
      else and_then (alloc_zeroed p₁ s₁) λ p₂ s₂ pa.
        ok
          (record p₂ {
            mem = write_entry p₂.mem l3 index (page_entry pa g.ram_memory_type (access_of perm));
          })
          s₂ pa

-- `for index in index..index + n`: copy the kernel's top-level entries but the window's.
unfoldable pub copy_l1 : Memory → ℕ → ℕ → ℕ → ℕ → Memory
unfolding read_entry write_entry
copy_l1 m kernel l1 index zero = m
copy_l1 m kernel l1 index (suc n) =
    copy_l1
      (if index == user_l1_index then m else write_entry m l1 index (read_entry m kernel index))
      kernel l1 (index + 1) n

-- `AddressSpace::new`: the result is the top-level table.
unfoldable pub new_space : Geometry → Phys → ℕ → Outcome
unfolding alloc_zeroed copy_l1
new_space g p asid =
    and_then (alloc_zeroed p (record { l1 = 0; asid = asid; frames = [] })) λ p' s' l1.
      ok (record p' { mem = copy_l1 p'.mem g.kernel_l1 l1 0 g.l1_entries }) (record s' { l1 = l1 })
        l1

unfoldable pub ttbr0 : AddressSpace → ℕ
ttbr0 s = bit_or s.l1 (s.asid * 2 ^ 48 % 2 ^ 64)

-- `Drop`: every frame goes back.
unfoldable pub drop_frames : Frames → List ℕ → Frames
drop_frames a [] = a
drop_frames a (f ∷ fs) = drop_frames (FrameAlloc.deallocate a f) fs

-- The physical address behind `va`, if EL0 may read it (or write it, when `write`).
unfoldable pub translate : Memory → AddressSpace → ℕ → Bool → Option ℕ
unfolding read_entry in_window
translate m s va write =
    let l2 : ℕ = read_entry m s.l1 user_l1_index in
    let l3 : ℕ = read_entry m (bit_and l2 addr_mask) (bit_and (va / 2 ^ 21) 0x1FF) in
    let pte : ℕ = read_entry m (bit_and l3 addr_mask) (bit_and (va / 2 ^ 12) 0x1FF) in
    let ap : ℕ = bit_and pte ap_mask in
    let allowed : Bool = if write then ap == ap_el0_rw else (ap == ap_el0_rw || ap == ap_el0_ro) in
    if not (in_window va 1)
    then none
    else if not (is_valid l2)
    then none
    else if not (is_valid l3)
    then none
    else if not (is_valid pte)
    then none
    else if allowed
    then some (bit_or (bit_and pte addr_mask) (bit_and va (page_size - 1)))
    else none

-- `while page < end`, on fuel.
unfoldable pub check_pages : Memory → AddressSpace → ℕ → ℕ → Bool → ℕ → Bool
check_pages m s page end write zero = false
check_pages m s page end write (suc fuel) =
    let rest : Bool = check_pages m s (page + page_size) end write fuel in
    if ltb page end then (if is_some (translate m s page write) then rest else false) else true

-- `check_range(...).is_ok()`; its only error is `BadPointer`. The pages number at most
-- `len / 4096 + 2`.
unfoldable pub check_range : Memory → AddressSpace → ℕ → ℕ → Bool → Bool
unfolding check_pages in_window
check_range m s va len write =
    if not (in_window va len)
    then false
    else if len == 0
    then true
    else check_pages m s (va - va % page_size) (va + len) write (len / page_size + 3)

-- `while done < out.len()`, on fuel: the bytes still to read are `left`, from `at`.
unfoldable pub read_chunks : Memory → AddressSpace → ℕ → ℕ → ℕ → Option (List ℕ)
unfolding load_bytes
read_chunks m s at left zero = none
read_chunks m s at left (suc fuel) =
    let chunk : ℕ = min (page_size - at % page_size) left in
    let rest = read_chunks m s (at + chunk) (left - chunk) fuel in
    if left == 0 then some [] else elim (translate m s at false) [
      | none ↦ none
      | some pa ↦ (elim rest [ none ↦ none | some bs ↦ some (load_bytes m pa chunk ++ bs) ])
    ]

-- `copy_from_user`: the bytes, or `BadPointer`.
unfoldable pub copy_from_user : Memory → AddressSpace → ℕ → ℕ → Option (List ℕ)
unfolding check_range read_chunks
copy_from_user m s va len =
    if check_range m s va len false then read_chunks m s va len (len + 1) else none

-- `while done < data.len()`, on fuel: the bytes still to write are `bytes`.
unfoldable pub write_chunks : Memory → AddressSpace → ℕ → List ℕ → ℕ → Option Memory
unfolding store_bytes
write_chunks m s at bytes zero = none
write_chunks m s at bytes (suc fuel) =
    let chunk : ℕ = min (page_size - at % page_size) (length bytes) in
    if length bytes == 0 then some m else elim (translate m s at true) [
      | none ↦ none
      | some pa ↦
          write_chunks (store_bytes m pa (take chunk bytes)) s (at + chunk) (drop chunk bytes) fuel
    ]

-- `copy_to_user`: the new memory, or `BadPointer`.
unfoldable pub copy_to_user : Memory → AddressSpace → ℕ → List ℕ → Option Memory
unfolding check_range write_chunks
copy_to_user m s va bytes =
    if check_range m s va (length bytes) true
    then write_chunks m s va bytes (length bytes + 1)
    else none

-- `read_user`, `write_user` and `check_writable` at a type of the given size and alignment.
unfoldable pub read_user : Memory → AddressSpace → ℕ → ℕ → ℕ → Option (List ℕ)
unfolding copy_from_user
read_user m s va size align = if va % align == 0 then copy_from_user m s va size else none

unfoldable pub write_user : Memory → AddressSpace → ℕ → List ℕ → ℕ → Option Memory
unfolding copy_to_user
write_user m s va bytes align = if va % align == 0 then copy_to_user m s va bytes else none

unfoldable pub check_writable : Memory → AddressSpace → ℕ → ℕ → ℕ → Bool
unfolding check_range
check_writable m s va size align = if va % align == 0 then check_range m s va size true else false

-- `Message` is `#[repr(C)]`: a `u32`, two `u16` and four `u64`, aligned to 8.
abbrev pub message_size : ℕ
message_size = 40

abbrev pub message_align : ℕ
message_align = 8

unfoldable pub words_to_bytes : List ℕ → List ℕ
words_to_bytes [] = []
words_to_bytes (w ∷ ws) = to_le_bytes 8 w ++ words_to_bytes ws

unfoldable pub message_bytes : Message → List ℕ
unfolding words_to_bytes
message_bytes msg =
    to_le_bytes 4 msg.tag
    ++ (to_le_bytes 2 msg.sender ++ (to_le_bytes 2 msg.len ++ words_to_bytes msg.payload))

unfoldable pub message_from : List ℕ → Message
message_from bs = record {
  tag = from_le_bytes (take 4 bs);
  sender = from_le_bytes (take 2 (drop 4 bs));
  len = from_le_bytes (take 2 (drop 6 bs));
  payload =
      from_le_bytes (take 8 (drop 8 bs))
      ∷ from_le_bytes (take 8 (drop 16 bs))
      ∷ from_le_bytes (take 8 (drop 24 bs))
      ∷ from_le_bytes (take 8 (drop 32 bs))
      ∷ [];
}
