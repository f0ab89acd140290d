-- ===== src/Syscall/Lines.antt =====
-- A log call prints one line, whatever the task gives it.
use freshos.Base.{
  ℕ, ◌≡◌, ◌≢◌, ◌⊎◌, refl, inl, inr, true, false, not, ◌&&◌, Bool, List, [], ◌∷◌, ◌++◌, ◌==◌, ltb,
  if◌then◌else◌, arith, Bool-cases, min, sym, subst, ◌∙◌,
}
use freshos.Base.Int.{pos}
use freshos.Abi.{Error, not_permitted, bad_pointer, max_log}
use freshos.AddrSpace.{copy_from_user}
use freshos.Registry.{as_str, name_at}
use freshos.Kernel.{Kernel}
use freshos.Syscall.{Reply, give, fail, ok, ok_or, current_space}
use freshos.Syscall.Authority.{>>=-eq-ok, unwrap-cases}
use freshos.Syscall.Spawn.{valid_name}
use freshos.Syscall.Log.{
  Text, newline, write_str, forged_break, shown, show_chars, show_invalid, show_chunks, ellipsis,
  line, log, log_run,
}

-- No newline in the bytes.
abbrev pub is_unbroken : List ℕ → Bool
is_unbroken [] = true
is_unbroken (b ∷ bs) = not (b == newline) && is_unbroken bs

is_unbroken-append : (xs ys : List ℕ) → is_unbroken (xs ++ ys) ≡ (is_unbroken xs && is_unbroken ys)
is_unbroken-append [] ys = refl
is_unbroken-append (x ∷ xs) ys = ground (arith, is_unbroken-append xs ys)

both_unbroken :
    (xs ys : List ℕ) → is_unbroken xs ≡ true → is_unbroken ys ≡ true → is_unbroken (xs ++ ys) ≡ true
both_unbroken xs ys h h' = rw (is_unbroken-append xs ys, h) h'

-- A name that `spawn` accepts has no newline.
pub valid_name-is_unbroken : (name : List ℕ) → valid_name name ≡ true → is_unbroken name ≡ true
unfolding valid_name
valid_name-is_unbroken [] h = refl
valid_name-is_unbroken (b ∷ bs) h = ground (arith, valid_name-is_unbroken bs)

write_str-is_unbroken : (bs : List ℕ) → is_unbroken bs ≡ true → is_unbroken (write_str bs) ≡ true
unfolding write_str
write_str-is_unbroken [] h = refl
write_str-is_unbroken (b ∷ bs) h = elim (Bool-cases (b == newline)) [
  | inl e ↦ absurd (ground arith)
  | inr e ↦ rw (e, e) (write_str-is_unbroken bs (ground arith))
]

module _ (text : Text)
    -- No other character than U+000A is encoded with the byte 10.
    (encodes : (ch : ℕ) → ch ≢ newline → is_unbroken (text.encode_utf8 ch) ≡ true)
    -- U+000A is a control character.
    (controls : text.is_control newline ≡ true) where
  breaks : (ch : ℕ) → ch ≡ newline → forged_break text ch ≡ false → ⊥
  unfolding forged_break
  breaks ch e c =
      (let q : text.is_control ch ≡ true = subst (λ x. text.is_control x ≡ true) (sym e) controls in
        let c' : true ≡ false = rw q at c in cc)

  -- What is printed for a character: '?' for a newline.
  replaced : ℕ → ℕ
  replaced ch = if forged_break text ch then b'?' else ch

  replaced-is_other : (ch : ℕ) → replaced ch ≢ newline
  unfolding replaced
  replaced-is_other ch e = elim (Bool-cases (forged_break text ch)) [
    | inl c ↦ (let e' : b'?' ≡ newline = rw c at e in absurd (omega arith))
    | inr c ↦ (let e' : ch ≡ newline = rw c at e in breaks ch e' c)
  ]

  shown-is_unbroken : (ch : ℕ) → is_unbroken (shown text ch) ≡ true
  unfolding shown replaced
  shown-is_unbroken ch =
      write_str-is_unbroken (text.encode_utf8 (replaced ch))
        (encodes (replaced ch) (replaced-is_other ch))

  show_chars-is_unbroken : (chs : List ℕ) → is_unbroken (show_chars text chs) ≡ true
  unfolding show_chars
  show_chars-is_unbroken [] = refl
  show_chars-is_unbroken (ch ∷ chs) =
      both_unbroken (shown text ch) (show_chars text chs) (shown-is_unbroken ch)
        (show_chars-is_unbroken chs)

  show_invalid-is_unbroken : (bs : List ℕ) → is_unbroken (show_invalid text bs) ≡ true
  unfolding show_invalid
  show_invalid-is_unbroken [] = refl
  show_invalid-is_unbroken (b ∷ bs) =
      write_str-is_unbroken (text.encode_utf8 b'?') (encodes b'?' (λ e. omega arith))

  show_chunks-is_unbroken :
      (chunks : List (List ℕ × List ℕ)) → is_unbroken (show_chunks text chunks) ≡ true
  unfolding show_chunks
  show_chunks-is_unbroken [] = refl
  show_chunks-is_unbroken ((valid, invalid) ∷ chunks) =
      both_unbroken (show_chars text valid) _ (show_chars-is_unbroken valid) (
        both_unbroken (show_invalid text invalid) (show_chunks text chunks)
          (show_invalid-is_unbroken invalid) (show_chunks-is_unbroken chunks))

  ellipsis-is_unbroken : (len : ℕ) → is_unbroken (ellipsis len) ≡ true
  ellipsis-is_unbroken len = elim (Bool-cases (ltb max_log len)) [
    | inl e ↦ rw e refl
    | inr e ↦ rw e refl
  ]

  line-is_unbroken :
      (name : List ℕ) (len : ℕ) (bytes : List ℕ)
      → is_unbroken name ≡ true
      → is_unbroken (line text name len bytes) ≡ true
  unfolding line
  line-is_unbroken name len bytes h =
      both_unbroken (write_str name) _ (write_str-is_unbroken name h) (
        both_unbroken (show_chunks text (text.utf8_chunks bytes)) (ellipsis len)
          (show_chunks-is_unbroken (text.utf8_chunks bytes)) (ellipsis-is_unbroken len))

  log_run-line :
      (k : Kernel) (ptr len : ℕ) (r : Reply)
      → log_run text k ptr len ≡ ok r
      → (bytes : List ℕ) × (r ≡ record {
        kernel = k;
        outcome = give (pos 0);
        printed =
            line text (as_str text.from_utf8 (name_at k.registry k.current)) len bytes
            ++ (13 ∷ newline ∷ []);
      })
  unfolding log_run write_str
  log_run-line k ptr len r good =
      let (s, e₁, h₁) = >>=-eq-ok (ok_or (current_space k) not_permitted) _ good in
      let (bytes, e₂, h₂) =
        >>=-eq-ok (ok_or (copy_from_user k.mem s ptr (min len max_log)) bad_pointer) _ h₁ in
      (bytes, cc)

  -- A log call by a task whose name has no newline returns an error and prints nothing, or it prints
  -- one line, with no newline but the last byte. The kernel stays as it was.
  pub log_line :
      (k : Kernel) (ptr len : ℕ)
      → is_unbroken (as_str text.from_utf8 (name_at k.registry k.current)) ≡ true
      → ((e : Error) × (log text k ptr len ≡ fail k e))
        ⊎ ((shown_line : List ℕ) × (is_unbroken shown_line ≡ true)
            × (log text k ptr len ≡ record {
              kernel = k;
              outcome = give (pos 0);
              printed = shown_line ++ (13 ∷ newline ∷ []);
            }))
  unfolding log
  log_line k ptr len named = elim (unwrap-cases k (log_run text k ptr len)) [
    | inl bad ↦ inl bad
    | inr (r, good, q) ↦
        (let (bytes, e) = log_run-line k ptr len r good in
          inr (
            line text (as_str text.from_utf8 (name_at k.registry k.current)) len bytes,
            line-is_unbroken (as_str text.from_utf8 (name_at k.registry k.current)) len bytes named,
            q ∙ e,
          ))
  ]
