-- ===== src/Init/Table.antt =====
-- The services that init knows: `Service` and `TABLE` of userbins/init/src/main.rs.
use freshos.Base.{ℕ, Bool, true, false, Option, none, some, List, [], ◌∷◌}
use freshos.Abi.{rights_send, rights_recv}

-- The channels that init creates, by index.
abbrev pub ping : ℕ
ping = 0

abbrev pub pong : ℕ
pong = 1

abbrev pub sink : ℕ
sink = 2

abbrev pub probe : ℕ
probe = 3

abbrev pub buf : ℕ
buf = 4

abbrev pub channels : ℕ
channels = 5

pub record Service : Type 0 where
  pub name : List ℕ
  pub binary : List ℕ
  pub grants : List (ℕ × ℕ)
  pub arg : ℕ
  pub restart_after_ms : Option ℕ
  pub optional : Bool

unfoldable pub service : List ℕ → List ℕ → Service
service name binary = record {
  name = name;
  binary = binary;
  grants = [];
  arg = 0;
  restart_after_ms = none;
  optional = false;
}

unfoldable pub table : List Service
unfolding service
table =
    (service (b'm' ∷ b'c' ∷ b'p' ∷ [])
      (b'b' ∷ b'u' ∷ b'i' ∷ b'l' ∷ b't' ∷ b'i' ∷ b'n' ∷ b':' ∷ b'm' ∷ b'c' ∷ b'p' ∷ []))
    ∷ (service (b'k' ∷ b'b' ∷ b'd' ∷ [])
        (b'b' ∷ b'u' ∷ b'i' ∷ b'l' ∷ b't' ∷ b'i' ∷ b'n' ∷ b':' ∷ b'k' ∷ b'b' ∷ b'd' ∷ []))
    ∷ (service (b'c' ∷ b'o' ∷ b'm' ∷ b'p' ∷ [])
        (b'b' ∷ b'u' ∷ b'i' ∷ b'l' ∷ b't' ∷ b'i' ∷ b'n' ∷ b':' ∷ b'c' ∷ b'o' ∷ b'm' ∷ b'p' ∷ []))
    ∷ (service (b's' ∷ b'h' ∷ b'e' ∷ b'l' ∷ b'l' ∷ []) (
        b'b' ∷ b'u' ∷ b'i' ∷ b'l' ∷ b't' ∷ b'i' ∷ b'n' ∷ b':' ∷ b's' ∷ b'h' ∷ b'e' ∷ b'l' ∷ b'l'
        ∷ []))
    ∷ (service (b'd' ∷ b'a' ∷ b's' ∷ b'h' ∷ [])
        (b'b' ∷ b'u' ∷ b'i' ∷ b'l' ∷ b't' ∷ b'i' ∷ b'n' ∷ b':' ∷ b'd' ∷ b'a' ∷ b's' ∷ b'h' ∷ []))
    ∷ (record (service (b'p' ∷ b'o' ∷ b'n' ∷ b'g' ∷ [])
        (b'P' ∷ b'O' ∷ b'N' ∷ b'G' ∷ b'.' ∷ b'E' ∷ b'L' ∷ b'F' ∷ [])) {
          grants = (ping, rights_recv) ∷ (pong, rights_send) ∷ [];
        })
    ∷ (record (service (b'p' ∷ b'i' ∷ b'n' ∷ b'g' ∷ [])
        (b'P' ∷ b'I' ∷ b'N' ∷ b'G' ∷ b'.' ∷ b'E' ∷ b'L' ∷ b'F' ∷ [])) {
          grants = (ping, rights_send) ∷ (pong, rights_recv) ∷ [];
        })
    ∷ (record (service (b'p' ∷ b'u' ∷ b'l' ∷ b's' ∷ b'e' ∷ [])
        (b'P' ∷ b'U' ∷ b'L' ∷ b'S' ∷ b'E' ∷ b'.' ∷ b'E' ∷ b'L' ∷ b'F' ∷ [])) {
          restart_after_ms = some 250;
        })
    ∷ (record (service (b'f' ∷ b'a' ∷ b'u' ∷ b'l' ∷ b't' ∷ [])
        (b'F' ∷ b'A' ∷ b'U' ∷ b'L' ∷ b'T' ∷ b'.' ∷ b'E' ∷ b'L' ∷ b'F' ∷ [])) {
          restart_after_ms = some 200;
        })
    ∷ (record (service
        (b'p' ∷ b'r' ∷ b'o' ∷ b'b' ∷ b'e' ∷ b'-' ∷ b'b' ∷ b'a' ∷ b'd' ∷ b'-' ∷ b'k' ∷ b'e' ∷ b'r'
          ∷ b'n' ∷ b'e' ∷ b'l' ∷ [])
        (b'P' ∷ b'R' ∷ b'O' ∷ b'B' ∷ b'E' ∷ b'B' ∷ b'A' ∷ b'D' ∷ b'.' ∷ b'E' ∷ b'L' ∷ b'F' ∷ [])) {
          arg = 0x4000_0000;
          optional = true;
        })
    ∷ (record (service
        (b'p' ∷ b'r' ∷ b'o' ∷ b'b' ∷ b'e' ∷ b'-' ∷ b'b' ∷ b'a' ∷ b'd' ∷ b'-' ∷ b'u' ∷ b'n' ∷ b'm'
          ∷ b'a' ∷ b'p' ∷ [])
        (b'P' ∷ b'R' ∷ b'O' ∷ b'B' ∷ b'E' ∷ b'B' ∷ b'A' ∷ b'D' ∷ b'.' ∷ b'E' ∷ b'L' ∷ b'F' ∷ [])) {
          arg = 0x4_2000_0000;
          optional = true;
        })
    ∷ (record (service
        (b'p' ∷ b'r' ∷ b'o' ∷ b'b' ∷ b'e' ∷ b'-' ∷ b'b' ∷ b'a' ∷ b'd' ∷ b'-' ∷ b'c' ∷ b'o' ∷ b'd'
          ∷ b'e' ∷ [])
        (b'P' ∷ b'R' ∷ b'O' ∷ b'B' ∷ b'E' ∷ b'B' ∷ b'A' ∷ b'D' ∷ b'.' ∷ b'E' ∷ b'L' ∷ b'F' ∷ [])) {
          arg = 0;
          optional = true;
        })
    ∷ (record (service
        (b'p' ∷ b'r' ∷ b'o' ∷ b'b' ∷ b'e' ∷ b'-' ∷ b'b' ∷ b'a' ∷ b'd' ∷ b'-' ∷ b's' ∷ b't' ∷ b'a'
          ∷ b'c' ∷ b'k' ∷ [])
        (b'P' ∷ b'R' ∷ b'O' ∷ b'B' ∷ b'E' ∷ b'B' ∷ b'A' ∷ b'D' ∷ b'.' ∷ b'E' ∷ b'L' ∷ b'F' ∷ [])) {
          arg = 1;
          optional = true;
        })
    ∷ (record (service (b'p' ∷ b'r' ∷ b'o' ∷ b'b' ∷ b'e' ∷ b'-' ∷ b'a' ∷ b'b' ∷ b'i' ∷ [])
        (b'P' ∷ b'R' ∷ b'O' ∷ b'B' ∷ b'E' ∷ b'B' ∷ b'A' ∷ b'D' ∷ b'.' ∷ b'E' ∷ b'L' ∷ b'F' ∷ [])) {
          arg = 2;
          optional = true;
        })
    ∷ (record (service
        (b'p' ∷ b'r' ∷ b'o' ∷ b'b' ∷ b'e' ∷ b'-' ∷ b't' ∷ b'p' ∷ b'i' ∷ b'd' ∷ b'r' ∷ [])
        (b'P' ∷ b'R' ∷ b'O' ∷ b'B' ∷ b'E' ∷ b'B' ∷ b'A' ∷ b'D' ∷ b'.' ∷ b'E' ∷ b'L' ∷ b'F' ∷ [])) {
          arg = 3;
          optional = true;
        })
    ∷ (record (service
        (b'p' ∷ b'r' ∷ b'o' ∷ b'b' ∷ b'e' ∷ b'-' ∷ b'c' ∷ b'o' ∷ b'u' ∷ b'n' ∷ b't' ∷ b'e' ∷ b'r'
          ∷ [])
        (b'P' ∷ b'R' ∷ b'O' ∷ b'B' ∷ b'E' ∷ b'B' ∷ b'A' ∷ b'D' ∷ b'.' ∷ b'E' ∷ b'L' ∷ b'F' ∷ [])) {
          arg = 4;
          optional = true;
        })
    ∷ (record (service (b'p' ∷ b'r' ∷ b'o' ∷ b'b' ∷ b'e' ∷ b'-' ∷ b'c' ∷ b'h' ∷ b'a' ∷ b'n' ∷ [])
        (b'P' ∷ b'R' ∷ b'O' ∷ b'B' ∷ b'E' ∷ b'C' ∷ b'H' ∷ b'A' ∷ b'.' ∷ b'E' ∷ b'L' ∷ b'F' ∷ [])) {
          grants = (sink, rights_send) ∷ (probe, rights_recv) ∷ [];
          optional = true;
        })
    ∷ (record (service
        (b'p' ∷ b'r' ∷ b'o' ∷ b'b' ∷ b'e' ∷ b'-' ∷ b'd' ∷ b'u' ∷ b'p' ∷ b'-' ∷ b'r' ∷ b'e' ∷ b'c'
          ∷ b'v' ∷ [])
        (b'P' ∷ b'R' ∷ b'O' ∷ b'B' ∷ b'E' ∷ b'C' ∷ b'H' ∷ b'A' ∷ b'.' ∷ b'E' ∷ b'L' ∷ b'F' ∷ [])) {
          grants = (ping, rights_recv) ∷ [];
          optional = true;
        })
    ∷ (record (service
        (b'p' ∷ b'r' ∷ b'o' ∷ b'b' ∷ b'e' ∷ b'-' ∷ b'b' ∷ b'a' ∷ b'd' ∷ b'e' ∷ b'l' ∷ b'f' ∷ [])
        (b'B' ∷ b'A' ∷ b'D' ∷ b'E' ∷ b'L' ∷ b'F' ∷ b'.' ∷ b'E' ∷ b'L' ∷ b'F' ∷ [])) {
          restart_after_ms = some 100;
          optional = true;
        })
    ∷ (record (service
        (b'p' ∷ b'r' ∷ b'o' ∷ b'b' ∷ b'e' ∷ b'-' ∷ b'b' ∷ b'a' ∷ b'd' ∷ b'p' ∷ b'h' ∷ b'o' ∷ b'f'
          ∷ b'f' ∷ [])
        (b'B' ∷ b'A' ∷ b'D' ∷ b'P' ∷ b'H' ∷ b'O' ∷ b'F' ∷ b'F' ∷ b'.' ∷ b'E' ∷ b'L' ∷ b'F' ∷ [])) {
          optional = true;
        })
    ∷ (record (service
        (b'p' ∷ b'r' ∷ b'o' ∷ b'b' ∷ b'e' ∷ b'-' ∷ b'b' ∷ b'u' ∷ b'f' ∷ b'-' ∷ b'r' ∷ b'x' ∷ [])
        (b'P' ∷ b'R' ∷ b'O' ∷ b'B' ∷ b'E' ∷ b'B' ∷ b'U' ∷ b'F' ∷ b'.' ∷ b'E' ∷ b'L' ∷ b'F' ∷ [])) {
          grants = (buf, rights_recv) ∷ [];
          arg = 1;
          restart_after_ms = some 300;
          optional = true;
        })
    ∷ (record (service
        (b'p' ∷ b'r' ∷ b'o' ∷ b'b' ∷ b'e' ∷ b'-' ∷ b'b' ∷ b'u' ∷ b'f' ∷ b'-' ∷ b't' ∷ b'x' ∷ [])
        (b'P' ∷ b'R' ∷ b'O' ∷ b'B' ∷ b'E' ∷ b'B' ∷ b'U' ∷ b'F' ∷ b'.' ∷ b'E' ∷ b'L' ∷ b'F' ∷ [])) {
          grants = (buf, rights_send) ∷ [];
          arg = 2;
          optional = true;
        })
    ∷ []
