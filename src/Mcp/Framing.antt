-- ===== src/Mcp/Framing.antt =====
-- The bridge's requests are the lines of its input.
use freshos.Base.{
  ℕ, ◌≤◌, ◌≡◌, refl, inl, inr, arith, Bool, true, false, not, ◌&&◌, List, [], ◌∷◌, ◌++◌, leb, ◌==◌,
  if◌then◌else◌, length, Bool-cases, length-append, append_assoc, append-nil,
}
use freshos.Mcp.{listening, max_line, Event, request, too_long, receive, drain}

-- No newline in the bytes.
abbrev pub is_line : List ℕ → Bool
is_line [] = true
is_line (b ∷ bs) = not (b == 10) && is_line bs

-- The bytes without carriage returns.
abbrev pub stripped : List ℕ → List ℕ
stripped [] = []
stripped (b ∷ bs) = let rest = stripped bs in if b == 13 then rest else b ∷ rest

-- What a line is answered with.
abbrev pub event_of : List ℕ → Event
event_of l = if leb (length l) max_line then request l else too_long

discarded :
    (bytes : List ℕ)
    → is_line bytes ≡ true
    → drain (record { line = []; discarding = true }) (bytes ++ (10 ∷ []))
      ≡ (listening, too_long ∷ [])
unfolding drain receive
discarded [] h = refl
discarded (b ∷ bs) h =
    let e : (b == 10) ≡ false = ground (arith, h) in
    let h' : is_line bs ≡ true = ground (arith, h) in
    elim (Bool-cases (b == 13)) [
      | inl c ↦ rw (e, c, discarded bs h') refl
      | inr c ↦ rw (e, c, discarded bs h') refl
    ]

assembled :
    (line bytes : List ℕ)
    → length line ≤ max_line
    → is_line bytes ≡ true
    → drain (record { line = line; discarding = false }) (bytes ++ (10 ∷ []))
      ≡ (listening, event_of (line ++ stripped bytes) ∷ [])
unfolding drain receive
assembled line [] le h =
    let q : leb (length line) max_line ≡ true = ground (arith, le) in rw (append-nil line, q) refl
assembled line (b ∷ bs) le h =
    let e : (b == 10) ≡ false = ground (arith, h) in
    let h' : is_line bs ≡ true = ground (arith, h) in
    elim (Bool-cases (b == 13)) [
      | inl c ↦ rw (e, c, assembled line bs le h') refl
      | inr c ↦ (elim (Bool-cases (leb max_line (length line))) [
        | inl full ↦
            (let q : leb (length (line ++ (b ∷ stripped bs))) max_line ≡ false =
                ground (arith, length-append line (b ∷ stripped bs), full) in
              rw (e, c, full, discarded bs h', q) refl)
        | inr room ↦
            (let le' : length (line ++ (b ∷ [])) ≤ max_line =
                ground (arith, length-append line (b ∷ []), room) in
              rw
                (
                  e,
                  c,
                  room,
                  assembled (line ++ (b ∷ [])) bs le' h',
                  append_assoc line (b ∷ []) (stripped bs),
                )
                refl)
      ])
    ]

-- A line of any bytes and its newline make one event, and the bridge is as it was at the start: the
-- request is the line without its carriage returns, if that has at most 16384 bytes.
pub drain_line :
    (bytes : List ℕ)
    → is_line bytes ≡ true
    → drain listening (bytes ++ (10 ∷ [])) ≡ (listening, event_of (stripped bytes) ∷ [])
drain_line bytes h = assembled [] bytes (omega arith) h
