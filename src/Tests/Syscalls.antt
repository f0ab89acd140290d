-- ===== src/Tests/Syscalls.antt =====
-- The theorems on the system calls and on init: task 1 runs, is init, and has a space and two handles.
use freshos.Base.{
  ℕ, ◌≡◌, ◌≢◌, ◌⊎◌, refl, arith, true, none, some, List, [], ◌∷◌, ◌++◌, ltb, replicate,
}
use freshos.Base.Int.{pos}
use freshos.Abi.{
  Error, not_found, rights_contains, rights_recv, rights_union, empty_message, tag_restart_request,
}
use freshos.Handles.{HandleTable, Slot, get_slot, insert}
use freshos.Handles
use freshos.Registry.{as_str, name_at}
use freshos.Kernel.{Kernel, put_task}
use freshos.Kernel.Task.{running, empty_task}
use freshos.Syscall.{fail, give, ok, send, recv}
use freshos.Syscall.Authority.{Sends, Receives, send_needs_right, recv_needs_right}
use freshos.Syscall.Grants.{Grant, resolve, check_slot, duplicates}
use freshos.Syscall.Allowed.{Derived}
use freshos.Syscall.Confined.{resolve_confined, resolve_exclusive}
use freshos.Syscall.Log.{Text, newline, log}
use freshos.Syscall.Lines.{is_unbroken, log_line}
use freshos.Init.Table.{table}
use freshos.Init.{Calls, Round, Answer, started, refused, run}
use freshos.Init
use freshos.Init.Watch.{AreWatched, run_watched}
use freshos.Tests.Channels.{boot}

abbrev handles : HandleTable
handles = record {
  slots =
      some (record { channel = 3; rights = 3 })
      ∷ some (record { channel = 4; rights = 3 })
      ∷ replicate 14 none;
}

abbrev user : Kernel
user =
    record (put_task boot 1 (record empty_task {
      state = running;
      space = some (record { l1 = 0; asid = 1; frames = [] });
      handles = handles;
    })) { current = 1 }

send_needs_right_example :
    ((e : Error) × (send user 0 0x4_0000_0000 5 6 ≡ fail user e))
    ⊎ Sends user 0 0x4_0000_0000 5 6 (send user 0 0x4_0000_0000 5 6)
send_needs_right_example = send_needs_right user 0 0x4_0000_0000 5 6

recv_needs_right_example :
    ((e : Error) × (recv user 0 0x4_0000_0000 9 true 5 (λ n. n) 6 ≡ fail user e))
    ⊎ Receives user 0 0x4_0000_0000 9 true 5
        (λ n. n)
        6
        (recv user 0 0x4_0000_0000 9 true 5 (λ n. n) 6)
recv_needs_right_example = recv_needs_right user 0 0x4_0000_0000 9 true 5 (λ n. n) 6

-- Receive on channel 3, and both rights on channel 4.
abbrev grants : List Grant
grants = record { handle = 0; rights = rights_recv } ∷ record { handle = 1; rights = 3 } ∷ []

abbrev child : HandleTable
child = record {
  slots =
      some (record { channel = 3; rights = rights_recv })
      ∷ some (record { channel = 4; rights = 3 })
      ∷ replicate 14 none;
}

resolves : resolve user 1 [] grants Handles.empty ≡ ok child
unfolding resolve check_slot duplicates insert get_slot rights_contains rights_union
resolves = refl

first : get_slot child 0 ≡ some (record { channel = 3; rights = rights_recv })
unfolding get_slot
first = refl

may_receive : rights_contains rights_recv rights_recv ≡ true
unfolding rights_contains
may_receive = refl

resolve_confined_example : Derived user 1 (record { channel = 3; rights = rights_recv })
resolve_confined_example = resolve_confined user 1 grants child resolves 0 _ first

second : get_slot child 1 ≡ some (record { channel = 4; rights = 3 })
unfolding get_slot
second = refl

may_receive_too : rights_contains 3 rights_recv ≡ true
unfolding rights_contains
may_receive_too = refl

resolve_exclusive_example : ◌≢◌ {A = ℕ} 3 4
resolve_exclusive_example =
    resolve_exclusive user 1 grants child resolves 0 1 _ _ first second may_receive may_receive_too
      (λ e. omega arith)

-- One byte for each character.
abbrev ascii : Text
ascii = record {
  from_utf8 = λ bs. true;
  utf8_chunks = λ bs. (bs, []) ∷ [];
  is_control = λ ch. ltb ch 32;
  encode_utf8 = λ ch. ch ∷ [];
}

one_byte : (ch : ℕ) → ch ≢ newline → is_unbroken (ch ∷ []) ≡ true
one_byte ch ne = ground arith

no_name : is_unbroken (as_str ascii.from_utf8 (name_at user.registry 1)) ≡ true
unfolding as_str name_at
no_name = refl

log_line_example :
    ((e : Error) × (log ascii user 0x4_0000_0000 3 ≡ fail user e))
    ⊎ ((shown_line : List ℕ) × (is_unbroken shown_line ≡ true)
        × (log ascii user 0x4_0000_0000 3 ≡ record {
          kernel = user;
          outcome = give (pos 0);
          printed = shown_line ++ (13 ∷ newline ∷ []);
        }))
log_line_example = log_line ascii one_byte refl user 0x4_0000_0000 3 no_name

-- Every start is refused, and one restart is asked for.
abbrev calls : Calls
calls = record { spawn = λ name binary gs arg. refused not_found; time_ns = 1000 }

abbrev turn : Round
turn = record {
  received = some (record empty_message { tag = tag_restart_request });
  handler = calls;
  now = 2000;
  restarts = λ i. calls;
}

run_watched_example :
    AreWatched table (run (λ bs. true) [] (Init.boot [] (λ i. calls)) (turn ∷ turn ∷ []))
run_watched_example = run_watched (λ bs. true) [] (λ i. calls) (turn ∷ turn ∷ [])
