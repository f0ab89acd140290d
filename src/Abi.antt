-- ===== src/Abi.antt =====
-- lib/abi/src/lib.rs: the numbers and types that cross the kernel/user boundary.
pub mod Laws
use freshos.Base.{
  ℕ, zero, suc, ◌+◌, ◌*◌, ◌/◌, ◌%◌, ◌^◌, ◌-◌, min, bit_and, bit_or, ◌≡◌, Bool, true, false, ◌&&◌,
  Option, none, some, List, [], ◌∷◌, ◌++◌, ltb, ◌==◌, if◌then◌else◌, length, get_elem?, get_or, set,
  take, drop, replicate,
}
use freshos.Base.Bytes.{from_le_bytes, to_le_bytes}
use freshos.Base.Int.{ℤ, pos, negsuc, int_eq}

-- `sys`: the syscall numbers that `dispatch` knows.
pub data Syscall : Type 0 where
  send recv try_recv yield exit time_ns log channel_create spawn : Syscall

abbrev syscall_table : List Syscall
syscall_table =
    Syscall.send ∷ Syscall.recv ∷ Syscall.try_recv ∷ Syscall.yield ∷ Syscall.exit ∷ Syscall.time_ns
    ∷ Syscall.log ∷ Syscall.channel_create ∷ Syscall.spawn ∷ []

-- The syscall that a number names.
unfoldable pub syscall_of : ℕ → Option Syscall
syscall_of nr = get_elem? syscall_table nr

pub data Error : Type 0 where
  no_such_syscall no_such_handle no_right bad_pointer would_block timeout not_found : Error
  not_permitted table_full receiver_taken full invalid out_of_memory : Error

-- `e as i64`.
unfoldable pub code : Error → ℤ
code no_such_syscall = negsuc 0
code no_such_handle = negsuc 1
code no_right = negsuc 2
code bad_pointer = negsuc 3
code would_block = negsuc 4
code timeout = negsuc 5
code not_found = negsuc 6
code not_permitted = negsuc 7
code table_full = negsuc 8
code receiver_taken = negsuc 9
code full = negsuc 10
code invalid = negsuc 11
code out_of_memory = negsuc 12

-- `Error::ALL`.
abbrev pub all_errors : List Error
all_errors =
    no_such_syscall ∷ no_such_handle ∷ no_right ∷ bad_pointer ∷ would_block ∷ timeout ∷ not_found
    ∷ not_permitted ∷ table_full ∷ receiver_taken ∷ full ∷ invalid ∷ out_of_memory ∷ []

find_code : ℤ → List Error → Option Error
find_code c [] = none
find_code c (e ∷ es) = let rest = find_code c es in if int_eq (code e) c then some e else rest

-- Unknown codes map to `invalid`.
unfoldable pub from_code : ℤ → Error
unfolding find_code code
from_code c = elim (find_code c all_errors) [ none ↦ invalid | some e ↦ e ]

-- `tag`: the message tags that the kernel and init use.
abbrev pub tag_task_exited : ℕ
tag_task_exited = 100

abbrev pub tag_restart_request : ℕ
tag_restart_request = 101

abbrev pub name_len : ℕ
name_len = 16

abbrev pub max_handles : ℕ
max_handles = 16

abbrev pub max_log : ℕ
max_log = 256

abbrev pub max_binary_name : ℕ
max_binary_name = 32

-- The payload is four `u64`.
pub record Message : Type 0 where
  pub tag : ℕ
  pub sender : ℕ
  pub len : ℕ
  pub payload : List ℕ

abbrev pub empty_message : Message
empty_message = record { tag = 0; sender = 0; len = 0; payload = 0 ∷ 0 ∷ 0 ∷ 0 ∷ [] }

unfoldable pub new_message : ℕ → Message
new_message t = record { tag = t; sender = 0; len = 0; payload = 0 ∷ 0 ∷ 0 ∷ 0 ∷ [] }

unfoldable pub with_data : Message → ℕ → ℕ → Message
with_data m slot value =
    if ltb slot 4
    then (let end : ℕ = (slot + 1) * 8 % 2 ^ 16 in
        record m { payload = set m.payload slot value; len = if ltb m.len end then end else m.len })
    else m

-- A name is its bytes. `packed` is the zero-padded copy of at most `name_len` of them.
unfoldable pub with_name : Message → List ℕ → Message
with_name m name =
    let n : ℕ = min (length name) name_len in
    let packed = take n name ++ replicate (name_len - n) 0 in
    record m {
      payload =
          set (set m.payload 0 (from_le_bytes (take 8 packed))) 1 (from_le_bytes (drop 8 packed));
      len = n;
    }

-- The bytes and the length.
unfoldable pub name_of : Message → List ℕ × ℕ
name_of m = (
  to_le_bytes 8 (get_or m.payload 0 0) ++ to_le_bytes 8 (get_or m.payload 1 0),
  min m.len name_len,
)

-- `Rights` is a `u32`; so are the constants.
abbrev pub rights_none : ℕ
rights_none = 0

abbrev pub rights_send : ℕ
rights_send = 1

abbrev pub rights_recv : ℕ
rights_recv = 2

-- `Rights::contains`, `union` and `without`; `!other` is the complement in 32 bits.
unfoldable pub rights_contains : ℕ → ℕ → Bool
rights_contains a other = bit_and a other == other

unfoldable pub rights_union : ℕ → ℕ → ℕ
rights_union a other = bit_or a other

unfoldable pub rights_without : ℕ → ℕ → ℕ
rights_without a other = bit_and a (2 ^ 32 - 1 - other)

pub record TaskRef : Type 0 where
  pub id : ℕ
  pub generation : ℕ

unfoldable pub task_ref_eq : TaskRef → TaskRef → Bool
task_ref_eq a b = a.id == b.id && a.generation == b.generation

-- Bits 0..16 are the id, bits 16..48 the generation.
unfoldable pub pack : TaskRef → ℕ
pack t = bit_or (t.generation * 2 ^ 16 % 2 ^ 64) t.id

unfoldable pub unpack : ℕ → TaskRef
unpack value = record { id = value % 2 ^ 16; generation = value / 2 ^ 16 % 2 ^ 32 }

pub data ExitReason : Type 0 where
  clean fault panic : ExitReason

-- `reason as u64`.
unfoldable pub reason_code : ExitReason → ℕ
reason_code clean = 1
reason_code fault = 2
reason_code panic = 3

unfoldable pub reason_from_u64 : ℕ → Option ExitReason
reason_from_u64 value =
    if value == 1
    then some clean
    else if value == 2
    then some fault
    else if value == 3
    then some panic
    else none

-- The user window: 1 GiB at 16 GiB.
abbrev pub user_base : ℕ
user_base = 0x4_0000_0000

abbrev pub user_size : ℕ
user_size = 2 ^ 30

abbrev pub user_stack_size : ℕ
user_stack_size = 64 * 1024
