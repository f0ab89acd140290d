-- ===== src/Abi/Laws.antt =====
-- What lib/abi promises: codes, packed forms and names can be read back.
use mathlib.Core.Path.{ap₂}
use freshos.Base.{
  ℕ, ◌^◌, ◌-◌, ◌<◌, ◌∙◌, ap, min, ◌≡◌, refl, Bool, true, false, List, [], ◌∷◌, ◌++◌, arith, length,
  take, set, sym, not, ◌&&◌, bool_eq, dec_le, drop, replicate, get_or, length-append, length-take,
  length-drop, length-replicate, take-append-drop, take_all, all_below, all_below_sound,
}
use freshos.Base.Bits.{bit_or_fields, bit_and_comm, bit_and_three}
use freshos.Base.Bytes.{
  AreBytes, AreBytes-take, AreBytes-drop, AreBytes-append, AreBytes-zeros, from_le_bytes,
  to_le_bytes, to_le_bytes-from_le_bytes,
}
use freshos.Abi.{
  Error, code, from_code, TaskRef, pack, unpack, Message, with_name, name_of, name_len,
  rights_contains, rights_union, rights_without, rights_send, rights_recv,
}

-- `from_code` reads every error back from the number that a syscall returns for it.
pub from_code-code : (e : Error) → from_code (code e) ≡ e
unfolding from_code
from_code-code Error.no_such_syscall = refl
from_code-code e = refl

-- A task reference whose fields fit 16 and 32 bits is read back from its packed form, and the
-- packed form leaves bits 48 and above clear.
pub unpack-pack :
    (t : TaskRef)
    → t.id < 2 ^ 16
    → t.generation < 2 ^ 32
    → (unpack (pack t) ≡ t) × (pack t < 2 ^ 48)
unfolding unpack pack
unpack-pack t hi hg = ground (arith, bit_or_fields 16 t.generation t.id)

module _ (packed : List ℕ) where
  halves :
      length packed ≡ 16
      → AreBytes packed
      → to_le_bytes 8 (from_le_bytes (take 8 packed))
          ++ to_le_bytes 8 (from_le_bytes (drop 8 packed))
        ≡ packed
  halves h b =
      let lo : length (take 8 packed) ≡ 8 = omega (arith, length-take 8 packed) in
      let hi : length (drop 8 packed) ≡ 8 = omega (arith, length-drop 8 packed) in
      let e : to_le_bytes (length (take 8 packed)) (from_le_bytes (take 8 packed)) ≡ take 8 packed =
        to_le_bytes-from_le_bytes _ (AreBytes-take 8 packed b) in
      let f : to_le_bytes (length (drop 8 packed)) (from_le_bytes (drop 8 packed)) ≡ drop 8 packed =
        to_le_bytes-from_le_bytes _ (AreBytes-drop 8 packed b) in
      ap₂ ◌++◌ (rw lo at e) (rw hi at f) ∙ take-append-drop 8 packed

abbrev padded : List ℕ → List ℕ
padded name =
    take (min (length name) name_len) name ++ replicate (name_len - min (length name) name_len) 0

length-padded : (name : List ℕ) → length (padded name) ≡ 16
length-padded name = omega (
  arith,
  length-append (take (min (length name) name_len) name)
      (replicate (name_len - min (length name) name_len) 0),
  length-take (min (length name) name_len) name,
  length-replicate {A = ℕ} (name_len - min (length name) name_len) 0,
)

AreBytes-padded : (name : List ℕ) → AreBytes name → AreBytes (padded name)
AreBytes-padded name b =
    AreBytes-append (take (min (length name) name_len) name) _
      (AreBytes-take (min (length name) name_len) name b) (AreBytes-zeros _)

padded-eq : (name : List ℕ) → padded name ≡ take 16 name ++ replicate (16 - length name) 0
padded-eq name = elim (dec_le (length name) 16) [
  | yes p ↦
      ap₂ ◌++◌ (take_all _ name (omega arith) ∙ sym (take_all 16 name p))
        (ap (λ z. replicate z 0) (omega arith))
  | no p ↦
      ap₂ (λ (k z : ℕ). take k name ++ replicate z 0) {y = 16} {v = 16 - length name} (omega arith)
        (omega arith)
]

payload_words :
    (p : List ℕ) (x y : ℕ)
    → length p ≡ 4
    → (get_or (set (set p 0 x) 1 y) 0 0 ≡ x) × (get_or (set (set p 0 x) 1 y) 1 0 ≡ y)
payload_words [] x y h = absurd (omega arith)
payload_words (a ∷ []) x y h = absurd (omega arith)
payload_words (a ∷ b ∷ p) x y h = (refl, refl)

-- A name packed by `with_name` is read back by `name`: its first 16 bytes, then zeros, and its
-- length, at most 16.
pub name_of-with_name :
    (m : Message) (name : List ℕ)
    → length m.payload ≡ 4
    → AreBytes name
    → name_of (with_name m name)
      ≡ (take 16 name ++ replicate (16 - length name) 0, min (length name) 16)
unfolding name_of with_name
name_of-with_name m name h b = ground (
  arith,
  payload_words m.payload (from_le_bytes (take 8 (padded name)))
      (from_le_bytes (drop 8 (padded name))) h,
  halves (padded name) (length-padded name) (AreBytes-padded name b),
  padded-eq name,
)

rights_test : ℕ → ℕ → Bool
rights_test a b =
    rights_contains (rights_union a b) a
    && rights_contains (rights_union a b) b
    && not (rights_contains (rights_without a rights_recv) rights_recv)
    && bool_eq (rights_contains (rights_without a rights_recv) rights_send)
        (rights_contains a rights_send)

rights_table : all_below 4 (λ a. all_below 4 (rights_test a)) ≡ true
unfolding rights_test rights_contains rights_union rights_without
rights_table = refl

-- On the two defined rights: the union carries both parts, and `without` takes away that right and
-- leaves the other.
pub rights_laws :
    (a b : ℕ)
    → a < 4
    → b < 4
    → (rights_contains (rights_union a b) a ≡ true)
      × (rights_contains (rights_union a b) b ≡ true)
      × (rights_contains (rights_without a rights_recv) rights_recv ≡ false)
      × (rights_contains (rights_without a rights_recv) rights_send ≡ rights_contains a rights_send)
unfolding rights_test
rights_laws a b ha hb = ground (
  arith,
  all_below_sound 4 (rights_test a) b
      (all_below_sound 4 (λ x. all_below 4 (rights_test x)) a rights_table ha) hb,
)

-- A grant within SEND and RECV is a combination of those two.
pub within_send_recv :
    (r : ℕ) → rights_contains (rights_union rights_send rights_recv) r ≡ true → r < 4
unfolding rights_contains rights_union
within_send_recv r h = ground (arith, bit_and_comm 3 r, bit_and_three r)
