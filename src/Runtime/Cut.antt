-- ===== src/Runtime/Cut.antt =====
-- Text that is longer than a log line is cut between two characters.
use freshos.Base.{
  ℕ, ◌+◌, ◌<◌, ◌≤◌, ◌≡◌, refl, inl, inr, Bool, List, [], ◌∷◌, ◌++◌, ltb, arith, Bool-cases, length,
  length-append, append-nil, append_assoc, sym, ap, ◌∙◌,
}
use freshos.Abi.{max_log, Error, code, from_code}
use freshos.Syscall.{err}
use freshos.Syscall.Log.{ellipsis}
use freshos.Runtime.{check, write_str, write_fmt, as_str, log_text}

-- The whole text in UTF-8.
unfoldable pub encode_all : (ℕ → List ℕ) → List ℕ → List ℕ
encode_all encode [] = []
encode_all encode (ch ∷ chs) = encode ch ++ encode_all encode chs

-- No character is left, or the first one does not fit behind the text.
unfoldable pub IsCutAt : (ℕ → List ℕ) → List ℕ → List ℕ → Type 0
IsCutAt encode text [] = text ≡ text
IsCutAt encode text (ch ∷ chs) = max_log < length text + length (encode ch)

-- What a system call returns for an error is that error again.
check-code : (e : Error) → check (code e) ≡ err e
unfolding check code from_code
check-code Error.no_such_syscall = refl
check-code e = refl

-- Writing text to a line that has room keeps a beginning of the text, whole character by whole
-- character: all of it, or up to the first character that does not fit. The line never holds more
-- than MAX_LOG bytes.
pub write_str_cuts :
    (encode : ℕ → List ℕ) (buf chars : List ℕ)
    → length buf ≤ max_log
    → (kept left : List ℕ) × (chars ≡ kept ++ left)
      × (write_str encode buf chars ≡ buf ++ encode_all encode kept)
      × (length (write_str encode buf chars) ≤ max_log)
      × IsCutAt encode (write_str encode buf chars) left
unfolding write_str encode_all IsCutAt
write_str_cuts encode buf [] h = ([], [], refl, sym (append-nil buf), h, refl)
write_str_cuts encode buf (ch ∷ chs) h =
    elim (Bool-cases (ltb max_log (length buf + length (encode ch)))) [
      | inl e ↦ ([], ch ∷ chs, refl, rw e (sym (append-nil buf)), rw e h, rw e (ground arith))
      | inr e ↦
          (let (kept, left, p, q, b, c) = write_str_cuts encode (buf ++ encode ch) chs (
              omega (
                arith,
                length-append buf (encode ch),
                (let x : length buf + length (encode ch) ≤ max_log = ground arith in x),
              )) in
            (
              ch ∷ kept,
              left,
              ap (◌∷◌ ch) p,
              rw e (q ∙ append_assoc buf (encode ch) (encode_all encode kept)),
              rw e b,
              rw e c,
            ))
    ]

write_fmt_fits :
    (encode : ℕ → List ℕ) (buf : List ℕ) (pieces : List (List ℕ))
    → length buf ≤ max_log
    → length (write_fmt encode buf pieces) ≤ max_log
unfolding write_fmt
write_fmt_fits encode buf [] h = h
write_fmt_fits encode buf (s ∷ ss) h =
    let (kept, left, p, q, b, c) = write_str_cuts encode buf s h in
    write_fmt_fits encode (write_str encode buf s) ss b

-- What `log!` passes to the `log` call, whatever the pieces of the text, is never cut by the kernel: no
-- ellipsis is printed behind it.
pub ellipsis-log_text :
    (encode : ℕ → List ℕ) (from_utf8 : List ℕ → Bool) (pieces : List (List ℕ))
    → ellipsis (length (log_text encode from_utf8 pieces)) ≡ []
unfolding log_text as_str
ellipsis-log_text encode from_utf8 pieces =
    elim (Bool-cases (from_utf8 (write_fmt encode [] pieces))) [
      | inl e ↦ rw e (ground (arith, write_fmt_fits encode [] pieces (omega arith)))
      | inr e ↦ rw e refl
    ]
