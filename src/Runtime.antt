-- ===== src/Runtime.antt =====
-- lib/rt/src/lib.rs: what a user program links against. A program's handles, the result of a system
-- call, and the buffer that `log!` formats into. A buffer is its used part; the UTF-8 form of a
-- character and the test for UTF-8 are the language's library and arguments.
pub mod Cut
use freshos.Base.{
  ℕ, ◌+◌, ◌^◌, ◌%◌, Bool, Option, none, some, List, [], ◌∷◌, ◌++◌, ltb, if◌then◌else◌, length,
}
use freshos.Base.Int.{ℤ, pos, negsuc}
use freshos.Abi.{from_code, max_log}
use freshos.Syscall.{Checked, ok, err}

pub record Startup : Type 0 where
  pub handles : ℕ
  pub arg : ℕ

-- `Startup::__new`: `handles as u32`.
unfoldable startup : ℕ → ℕ → Startup
startup handles arg = record { handles = handles % 2 ^ 32; arg = arg }

-- The handle of that index; none is a panic.
unfoldable handle : Startup → ℕ → Option ℕ
handle s index = if ltb index s.handles then some index else none

-- `check`: what x0 holds after a system call, as a result.
unfoldable pub check : ℤ → Checked ℕ
check (pos n) = ok n
check (negsuc n) = err (from_code (negsuc n))

-- `LineBuf::write_str`: character by character, up to the first that no longer fits.
unfoldable pub write_str : (ℕ → List ℕ) → List ℕ → List ℕ → List ℕ
write_str encode buf [] = buf
write_str encode buf (ch ∷ chs) =
    let rest = write_str encode (buf ++ encode ch) chs in
    if ltb max_log (length buf + length (encode ch)) then buf else rest

-- `write_fmt`: the pieces of the text, one after the other. `write_str` never fails.
unfoldable pub write_fmt : (ℕ → List ℕ) → List ℕ → List (List ℕ) → List ℕ
unfolding write_str
write_fmt encode buf [] = buf
write_fmt encode buf (s ∷ ss) = write_fmt encode (write_str encode buf s) ss

-- `LineBuf::as_str`.
unfoldable pub as_str : (List ℕ → Bool) → List ℕ → List ℕ
as_str from_utf8 buf = if from_utf8 buf then buf else b'?' ∷ []

-- `log!`: the text that is passed to the `log` call.
unfoldable pub log_text : (ℕ → List ℕ) → (List ℕ → Bool) → List (List ℕ) → List ℕ
unfolding write_fmt as_str
log_text encode from_utf8 pieces = as_str from_utf8 (write_fmt encode [] pieces)
