-- ===== src/AddrSpace/Walk.antt =====
-- `translate` of kernel/src/arch/aarch64/addrspace.rs: all addresses of a page are mapped together, to
-- addresses in a row.
use freshos.Base.{
  ℕ, ◌+◌, ◌-◌, ◌*◌, ◌/◌, ◌%◌, ◌^◌, ◌<◌, ◌≡◌, sym, ap, ◌∙◌, Bool, true, false, not, Option, none,
  some, arith, ◌==◌, if◌then◌else◌, is_some, bit_and, bit_or, ◌||◌,
}
use freshos.Base.Bits.{bit_or_fields, bit_and_ones_fields, bit_and_field}
use freshos.Machine.{Memory}
use freshos.AddrSpace.{
  AddressSpace, page_size, translate, in_window, read_entry, is_valid, user_l1_index, addr_mask,
  ap_mask, ap_el0_rw, ap_el0_ro,
}

module _ (m : Memory) (s : AddressSpace) where
  -- `translate` on the parts of an address.
  abbrev walk : Bool → ℕ → ℕ → ℕ → Bool → Option ℕ
  walk inside i2 i3 low write =
      let l2 : ℕ = read_entry m s.l1 user_l1_index in
      let l3 : ℕ = read_entry m (bit_and l2 addr_mask) (bit_and i2 0x1FF) in
      let pte : ℕ = read_entry m (bit_and l3 addr_mask) (bit_and i3 0x1FF) in
      let ap : ℕ = bit_and pte ap_mask in
      let allowed : Bool =
        if write then ap == ap_el0_rw else (ap == ap_el0_rw || ap == ap_el0_ro) in
      if not inside
      then none
      else if not (is_valid l2)
      then none
      else if not (is_valid l3)
      then none
      else if not (is_valid pte)
      then none
      else if allowed
      then some (bit_or (bit_and pte addr_mask) low)
      else none

  guarded :
      (a b c d e : Bool) (v v' : ℕ)
      → is_some (
          if a
          then none
          else if b
          then none
          else if c
          then none
          else if d
          then none
          else if e
          then some v
          else none)
        ≡ is_some (
            if a
            then none
            else if b
            then none
            else if c
            then none
            else if d
            then none
            else if e
            then some v'
            else none)
  guarded a b c d e v v' = ground arith

  walk_low :
      (inside : Bool) (i2 i3 low low' : ℕ) (w : Bool)
      → is_some (walk inside i2 i3 low w) ≡ is_some (walk inside i2 i3 low' w)
  walk_low inside i2 i3 low low' w =
      let l2 : ℕ = read_entry m s.l1 user_l1_index in
      let l3 : ℕ = read_entry m (bit_and l2 addr_mask) (bit_and i2 0x1FF) in
      let pte : ℕ = read_entry m (bit_and l3 addr_mask) (bit_and i3 0x1FF) in
      let ap : ℕ = bit_and pte ap_mask in
      guarded (not inside) (not (is_valid l2)) (not (is_valid l3)) (not (is_valid pte))
        (if w then ap == ap_el0_rw else (ap == ap_el0_rw || ap == ap_el0_ro))
        (bit_or (bit_and pte addr_mask) low) (bit_or (bit_and pte addr_mask) low')

  -- Two addresses in one page are readable together.
  pub same_page :
      (a b : ℕ) (w : Bool)
      → a / page_size ≡ b / page_size
      → is_some (translate m s a w) ≡ true
      → is_some (translate m s b w) ≡ true
  unfolding translate in_window
  same_page a b w e h =
      let e₁ : a / 2 ^ 21 ≡ b / 2 ^ 21 = omega arith in
      let e₂ : a / 2 ^ 12 ≡ b / 2 ^ 12 = e in
      let win : in_window a 1 ≡ in_window b 1 = ground arith in
      let la : ℕ = bit_and a (page_size - 1) in
      let lb : ℕ = bit_and b (page_size - 1) in
      let q₀ : walk (in_window a 1) (a / 2 ^ 21) (a / 2 ^ 12) la w
          ≡ walk (in_window b 1) (b / 2 ^ 21) (b / 2 ^ 12) la w =
        ap (λ x. walk x (a / 2 ^ 21) (a / 2 ^ 12) la w) win
        ∙ (ap (λ x. walk (in_window b 1) x (a / 2 ^ 12) la w) e₁
            ∙ ap (λ x. walk (in_window b 1) (b / 2 ^ 21) x la w) e₂) in
      sym (ap is_some q₀ ∙ walk_low (in_window b 1) (b / 2 ^ 21) (b / 2 ^ 12) la lb w) ∙ h

  chosen :
      (a b c d e : Bool) (v v' x : ℕ)
      → (if a
          then none
          else if b
          then none
          else if c
          then none
          else if d
          then none
          else if e
          then some v
          else none)
        ≡ some x
      → (x ≡ v)
        × ((if a
              then none
              else if b
              then none
              else if c
              then none
              else if d
              then none
              else if e
              then some v'
              else none)
            ≡ some v')
  chosen a b c d e v v' x h = ground arith

  walk_offset :
      (inside : Bool) (i2 i3 r j x : ℕ)
      → r + j < page_size
      → walk inside i2 i3 r false ≡ some x
      → walk inside i2 i3 (r + j) false ≡ some (x + j)
  walk_offset inside i2 i3 r j x lt h =
      let l2 : ℕ = read_entry m s.l1 user_l1_index in
      let l3 : ℕ = read_entry m (bit_and l2 addr_mask) (bit_and i2 0x1FF) in
      let pte : ℕ = read_entry m (bit_and l3 addr_mask) (bit_and i3 0x1FF) in
      let ap' : ℕ = bit_and pte ap_mask in
      let q : ℕ = bit_and (pte / 2 ^ 12) (2 ^ 36 - 1) in
      let split : pte ≡ pte / 2 ^ 12 * 2 ^ 12 + pte % 2 ^ 12 = omega arith in
      let frame : bit_and pte addr_mask ≡ q * 2 ^ 12 =
        ap (λ x. bit_and x addr_mask) split
        ∙ bit_and_field 12 (2 ^ 36 - 1) (pte / 2 ^ 12) (pte % 2 ^ 12) (omega arith) in
      let (is, found) =
        chosen (not inside) (not (is_valid l2)) (not (is_valid l3)) (not (is_valid pte))
          (ap' == ap_el0_rw || ap' == ap_el0_ro) (bit_or (bit_and pte addr_mask) r)
          (bit_or (bit_and pte addr_mask) (r + j)) x h in
      let here : bit_or (bit_and pte addr_mask) r ≡ q * 2 ^ 12 + r =
        ap (λ y. bit_or y r) frame ∙ bit_or_fields 12 q r (omega arith) in
      let there : bit_or (bit_and pte addr_mask) (r + j) ≡ q * 2 ^ 12 + (r + j) =
        ap (λ y. bit_or y (r + j)) frame ∙ bit_or_fields 12 q (r + j) (omega arith) in
      let sum : bit_or (bit_and pte addr_mask) (r + j) ≡ x + j = omega arith in found ∙ ap some sum

  low_bits : (a : ℕ) → bit_and a (page_size - 1) ≡ a % page_size
  low_bits a =
      ap (λ x. bit_and x (page_size - 1))
        (let e : a ≡ a / page_size * 2 ^ 12 + a % page_size = omega arith in e)
      ∙ bit_and_ones_fields 12 (a / page_size) (a % page_size) (omega arith)

  -- Within a page, physical addresses go on as virtual ones do.
  pub translate_offset :
      (a j x : ℕ)
      → a % page_size + j < page_size
      → translate m s a false ≡ some x
      → translate m s (a + j) false ≡ some (x + j)
  unfolding translate in_window
  translate_offset a j x lt h =
      let b : ℕ = a + j in
      let e₁ : a / 2 ^ 21 ≡ b / 2 ^ 21 = omega arith in
      let e₂ : a / 2 ^ 12 ≡ b / 2 ^ 12 = omega arith in
      let e₃ : b % page_size ≡ a % page_size + j = omega arith in
      let win : in_window a 1 ≡ in_window b 1 = ground arith in
      let h' : walk (in_window a 1) (a / 2 ^ 21) (a / 2 ^ 12) (a % page_size) false ≡ some x =
        ap (λ l. walk (in_window a 1) (a / 2 ^ 21) (a / 2 ^ 12) l false) (sym (low_bits a)) ∙ h in
      let q : walk (in_window a 1) (a / 2 ^ 21) (a / 2 ^ 12) (a % page_size + j) false
          ≡ walk (in_window b 1) (b / 2 ^ 21) (b / 2 ^ 12) (bit_and b (page_size - 1)) false =
        ap (λ y. walk y (a / 2 ^ 21) (a / 2 ^ 12) (a % page_size + j) false) win
        ∙ (ap (λ y. walk (in_window b 1) y (a / 2 ^ 12) (a % page_size + j) false) e₁
            ∙ (ap (λ y. walk (in_window b 1) (b / 2 ^ 21) y (a % page_size + j) false) e₂
                ∙ ap (λ y. walk (in_window b 1) (b / 2 ^ 21) (b / 2 ^ 12) y false)
                    (sym (low_bits b ∙ e₃)))) in
      sym q ∙ walk_offset (in_window a 1) (a / 2 ^ 21) (a / 2 ^ 12) (a % page_size) j x lt h'
