-- ===== src/Machine.antt =====
-- Physical memory as the kernel's identity mapping shows it: 64-bit words by word index, and bytes
-- inside them. Used by the models of kernel/src/arch/aarch64/addrspace.rs and context.rs.
use freshos.Base.{
  ℕ, suc, ◌+◌, ◌-◌, ◌*◌, ◌/◌, ◌%◌, ◌^◌, List, [], ◌∷◌, ◌==◌, ltb, leb, ◌&&◌, if◌then◌else◌,
}

abbrev pub Memory : Type 0
Memory = ℕ → ℕ

-- An aligned 8-byte access.
unfoldable pub load_word : Memory → ℕ → ℕ
load_word m a = m (a / 8)

unfoldable pub store_word : Memory → ℕ → ℕ → Memory
store_word m a v = λ w. if w == a / 8 then v else m w

-- `a` is the address of a byte of a little-endian word.
unfoldable pub load_byte : Memory → ℕ → ℕ
load_byte m a = m (a / 8) / 256 ^ (a % 8) % 256

unfoldable pub store_byte : Memory → ℕ → ℕ → Memory
store_byte m a b =
    let old : ℕ = m (a / 8) in
    let unit : ℕ = 256 ^ (a % 8) in
    λ w. if w == a / 8 then old - old / unit % 256 * unit + b * unit else m w

-- `copy_nonoverlapping` into memory and out of it.
unfoldable pub store_bytes : Memory → ℕ → List ℕ → Memory
store_bytes m a [] = m
store_bytes m a (b ∷ bs) = store_bytes (store_byte m a b) (a + 1) bs

unfoldable pub load_bytes : Memory → ℕ → ℕ → List ℕ
load_bytes m a ℕ.zero = []
load_bytes m a (suc n) = load_byte m a ∷ load_bytes m (a + 1) n

-- `write_bytes(a, v, n)` for a range that begins and ends at words: each word becomes `v`.
unfoldable pub fill_words : Memory → ℕ → ℕ → ℕ → Memory
fill_words m a n v = λ w. if leb (a / 8) w && ltb w (a / 8 + n) then v else m w
