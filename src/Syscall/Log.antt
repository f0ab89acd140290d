-- ===== src/Syscall/Log.antt =====
-- The `log` call of kernel/src/syscalls.rs: one line "[name] text" on the serial port. What the call
-- prints is a list of bytes. The decoding of UTF-8 and the test for control characters are the
-- language's library and arguments here.
use freshos.Base.{ℕ, Bool, ◌||◌, List, [], ◌∷◌, ◌++◌, ltb, ◌==◌, if◌then◌else◌, min}
use freshos.Base.Int.{pos}
use freshos.Abi.{bad_pointer, max_log}
use freshos.AddrSpace.{copy_from_user}
use freshos.Registry.{name_at, as_str}
use freshos.Kernel.{Kernel}
use freshos.Syscall.{Reply, give, Checked, ok, ok_or, unwrap_or_fail, space, ◌>>=◌}

-- `from_utf8(..).is_ok()`; `utf8_chunks`, as the characters of each valid part and the bytes of the
-- invalid part after it; `char::is_control`; and the UTF-8 form of a character.
pub record Text : Type 0 where
  pub from_utf8 : List ℕ → Bool
  pub utf8_chunks : List ℕ → List (List ℕ × List ℕ)
  pub is_control : ℕ → Bool
  pub encode_utf8 : ℕ → List ℕ

abbrev pub newline : ℕ
newline = 10

-- `Serial::write_str`: a carriage return before each newline.
unfoldable pub write_str : List ℕ → List ℕ
write_str [] = []
write_str (b ∷ bs) = (if b == newline then 13 ∷ b ∷ [] else b ∷ []) ++ write_str bs

-- `matches!(ch, '\u{2028}' | '\u{2029}')` or a control character.
unfoldable pub forged_break : Text → ℕ → Bool
forged_break text ch = text.is_control ch || (ch == 0x2028 || ch == 0x2029)

-- `write_char` of what is printed for `ch`.
unfoldable pub shown : Text → ℕ → List ℕ
unfolding forged_break write_str
shown text ch = write_str (text.encode_utf8 (if forged_break text ch then b'?' else ch))

-- `for ch in chunk.valid().chars()`.
unfoldable pub show_chars : Text → List ℕ → List ℕ
unfolding shown
show_chars text [] = []
show_chars text (ch ∷ chs) = shown text ch ++ show_chars text chs

-- One '?' for an invalid part that is not empty.
unfoldable pub show_invalid : Text → List ℕ → List ℕ
unfolding write_str
show_invalid text [] = []
show_invalid text (b ∷ bs) = write_str (text.encode_utf8 b'?')

-- `for chunk in buf[..n].utf8_chunks()`.
unfoldable pub show_chunks : Text → List (List ℕ × List ℕ) → List ℕ
unfolding show_chars show_invalid
show_chunks text [] = []
show_chunks text ((valid, invalid) ∷ chunks) =
    show_chars text valid ++ (show_invalid text invalid ++ show_chunks text chunks)

-- "…" where the text was cut.
abbrev pub ellipsis : ℕ → List ℕ
ellipsis len = if ltb max_log len then 0xE2 ∷ 0x80 ∷ 0xA6 ∷ [] else []

-- The bytes of the line without its end.
unfoldable pub line : Text → List ℕ → ℕ → List ℕ → List ℕ
unfolding show_chunks write_str
line text name len bytes =
    (b'[' ∷ write_str name)
    ++ ((b']' ∷ b' ' ∷ []) ++ (show_chunks text (text.utf8_chunks bytes) ++ ellipsis len))

-- The call up to its return.
unfoldable pub log_run : Text → Kernel → ℕ → ℕ → Checked Reply
unfolding line
log_run text k ptr len = do
  s ← space k
  bytes ← ok_or (copy_from_user k.mem s ptr (min len max_log)) bad_pointer
  let name = as_str text.from_utf8 (name_at k.registry k.current)
  ok (record {
    kernel = k;
    outcome = give (pos 0);
    printed = line text name len bytes ++ write_str (newline ∷ []);
  })

unfoldable pub log : Text → Kernel → ℕ → ℕ → Reply
unfolding log_run
log text k ptr len = unwrap_or_fail k (log_run text k ptr len)
