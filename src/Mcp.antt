-- ===== src/Mcp.antt =====
-- kernel/src/mcp.rs: how the bridge puts the bytes of its UART together to requests, and what a request
-- that is not JSON-RPC gets. The JSON library is outside of the repository: parsing is an argument.
pub mod Framing
use freshos.Base.{
  ℕ, ◌*◌, Bool, true, false, ◌||◌, Option, none, some, List, [], ◌∷◌, ◌++◌, leb, ◌==◌,
  if◌then◌else◌, length, ◌&&◌,
}

abbrev pub max_line : ℕ
max_line = 16 * 1024

-- The locals of the loop.
pub record Bridge : Type 0 where
  pub line : List ℕ
  pub discarding : Bool

-- The bridge when it starts to listen.
abbrev pub listening : Bridge
listening = record { line = []; discarding = false }

-- What a byte led to.
pub data Event : Type 0 where
  nothing : Event
  -- `handle_line(&line)`.
  request : List ℕ → Event
  -- The reply "request too long".
  too_long : Event

-- The match on a byte.
unfoldable pub receive : Bridge → ℕ → Bridge × Event
receive b byte =
    if byte == 10
    then (if b.discarding then (listening, too_long) else (listening, request b.line))
    else if byte == 13
    then (b, nothing)
    else if b.discarding
    then (b, nothing)
    else if leb max_line (length b.line)
    then (record { line = []; discarding = true }, nothing)
    else (record b { line = b.line ++ (byte ∷ []) }, nothing)

-- The events that are not nothing.
abbrev pub note : Event → List Event → List Event
note nothing es = es
note e es = e ∷ es

-- `while let Some(byte) = pl011_try_read(base)`: the bytes in the order in which they come.
unfoldable pub drain : Bridge → List ℕ → Bridge × List Event
unfolding receive
drain b [] = (b, [])
drain b (byte ∷ bytes) =
    let (b', e) = receive b byte in let (b'', es) = drain b' bytes in (b'', note e es)
