-- ===== src/Syscall/Spawn.antt =====
-- The `spawn` call of kernel/src/syscalls.rs, second part: the request is checked, and the service
-- started as a kernel task or from a boot image. The images, which nothing writes after boot, and the
-- addresses of the built-ins are arguments; so is `core::str::from_utf8`.
use freshos.Base.{
  ℕ, ◌==◌, Bool, true, not, ◌&&◌, Option, none, some, List, [], ◌∷◌, leb, if◌then◌else◌, length,
  take, drop,
}
use freshos.Base.Int.{as_i64}
use freshos.Abi.{
  Error, bad_pointer, not_found, table_full, invalid, out_of_memory, name_len, max_binary_name,
  max_handles, TaskRef, pack, rights_recv, rights_without,
}
use freshos.AddrSpace.{AddressSpace, copy_from_user, read_user}
use freshos.Handles.{HandleTable, get_slot, update}
use freshos.Handles
use freshos.Registry.{bytes_eq, on_spawn}
use freshos.BootImages.{Image, find}
use freshos.Kernel.{Kernel, task_at, put_task}
use freshos.Ipc.{set_receiver_with_home}
use freshos.Context.Spawn.{
  SpawnError, no_slot, out_of_memory, bad_image, Spawned, spawned, refused, spawn_el0,
}
use freshos.Context.Spawn
use freshos.Syscall.{
  Reply, reply, give, fail, Checked, ok, ok_or, require, unwrap_or_fail, space, caller_is_init,
  ◌>>=◌, ◌>>◌,
}
use freshos.Syscall.Grants.{
  Grant, SpawnRequest, request_size, request_align, request_from, read_grants, gives_recv, resolve,
}

-- The entry addresses of the tasks that the kernel has built in.
pub record Builtins : Type 0 where
  pub keyboard_el1 : ℕ
  pub compositor_el1 : ℕ
  pub shell_el1 : ℕ
  pub dashboard_el1 : ℕ
  pub bridge_el1 : ℕ

-- What the call reads that never changes, and the test for UTF-8.
pub record Boot : Type 0 where
  pub from_utf8 : List ℕ → Bool
  pub builtins : Builtins
  pub images : List Image

unfoldable pub builtin : Builtins → List ℕ → Option ℕ
unfolding bytes_eq
builtin b name =
    if bytes_eq name (b'k' ∷ b'b' ∷ b'd' ∷ [])
    then some b.keyboard_el1
    else if bytes_eq name (b'c' ∷ b'o' ∷ b'm' ∷ b'p' ∷ [])
    then some b.compositor_el1
    else if bytes_eq name (b's' ∷ b'h' ∷ b'e' ∷ b'l' ∷ b'l' ∷ [])
    then some b.shell_el1
    else if bytes_eq name (b'd' ∷ b'a' ∷ b's' ∷ b'h' ∷ [])
    then some b.dashboard_el1
    else if bytes_eq name (b'm' ∷ b'c' ∷ b'p' ∷ [])
    then some b.bridge_el1
    else none

-- `b.is_ascii_graphic() && b != b'[' && b != b']'`, for every byte.
unfoldable pub valid_name : List ℕ → Bool
valid_name [] = true
valid_name (b ∷ bs) = leb 33 b && leb b 126 && not (b == b'[') && not (b == b']') && valid_name bs

-- `b"builtin:"`.
abbrev pub builtin_prefix : List ℕ
builtin_prefix = b'b' ∷ b'u' ∷ b'i' ∷ b'l' ∷ b't' ∷ b'i' ∷ b'n' ∷ b':' ∷ []

-- `binary.strip_prefix("builtin:")`.
unfoldable pub strip_prefix : List ℕ → List ℕ → Option (List ℕ)
unfolding bytes_eq
strip_prefix prefix bytes =
    if bytes_eq (take (length prefix) bytes) prefix then some (drop (length prefix) bytes) else none

unfoldable pub spawn_error : SpawnError → Error
spawn_error no_slot = table_full
spawn_error SpawnError.out_of_memory = out_of_memory
spawn_error (bad_image reason) = invalid

unfoldable pub answer : Spawned → Reply
unfolding spawn_error
answer (spawned k t) = reply k (give (as_i64 (pack t)))
answer (refused k e) = fail k (spawn_error e)

-- Take the receive right out of init's slot, and make the child the receiver.
unfoldable pub move_recv : Kernel → ℕ → TaskRef → Grant → Kernel
move_recv k init t g = elim (get_slot (task_at k init).handles g.handle) [
  | none ↦ k
  | some slot ↦
      let p = task_at k init in
      let slot' = record slot { rights = rights_without slot.rights rights_recv } in
      set_receiver_with_home
        (put_task k init (record p { handles = update p.handles g.handle slot' })) slot.channel t.id
        init g.handle
]

-- `for grant in grants.iter().filter(..)`.
unfoldable pub move_grants : Kernel → ℕ → TaskRef → List Grant → Kernel
unfolding move_recv
move_grants k init t [] = k
move_grants k init t (g ∷ gs) =
    move_grants (if gives_recv g then move_recv k init t g else k) init t gs

-- `crate::registry::on_spawn(task, name)`.
unfoldable pub name_task : Boot → List ℕ → Kernel → TaskRef → Kernel
name_task boot name k t = record k { registry = on_spawn boot.from_utf8 k.registry t name }

-- The closure that runs inside the install of the child.
unfoldable pub bind : Boot → ℕ → List ℕ → List Grant → Kernel → TaskRef → Kernel
unfolding move_grants name_task
bind boot init name grants k t = name_task boot name (move_grants k init t grants) t

-- The sizes that a request may have.
unfoldable pub sizes_ok : SpawnRequest → Bool
sizes_ok r =
    not (r.name_len == 0)
    && leb r.name_len name_len
    && not (r.binary_len == 0)
    && leb r.binary_len max_binary_name
    && leb r.grants_len max_handles

-- A built-in runs as a kernel task and holds no handles.
unfoldable pub spawn_builtin : Boot → Kernel → SpawnRequest → List ℕ → List ℕ → Checked Reply
unfolding builtin name_task answer
spawn_builtin boot k r name binary = do
  require (r.grants_len == 0) invalid
  entry ← ok_or (builtin boot.builtins binary) not_found
  ok (answer (Spawn.spawn k entry (name_task boot name)))

-- Every grant is resolved before anything changes; `bind` moves the receive rights.
unfoldable pub spawn_image :
    Boot → Kernel → ℕ → AddressSpace → SpawnRequest → List ℕ → List ℕ → Checked Reply
unfolding find read_grants resolve bind answer
spawn_image boot k init s r name binary = do
  image ← ok_or (find boot.images binary) not_found
  grants ← read_grants k.mem s r.grants_ptr 0 r.grants_len
  child ← resolve k init [] grants Handles.empty
  ok (answer (spawn_el0 k image child r.grants_len r.arg (bind boot init name grants)))

unfoldable pub spawn_request :
    Boot → Kernel → ℕ → AddressSpace → SpawnRequest → List ℕ → List ℕ → Checked Reply
unfolding strip_prefix spawn_builtin spawn_image
spawn_request boot k init s r name binary = elim (strip_prefix builtin_prefix binary) [
  | some rest ↦ spawn_builtin boot k r name rest
  | none ↦ spawn_image boot k init s r name binary
]

-- The closure of `spawn`.
unfoldable pub spawn_run : Boot → Kernel → ℕ → Checked Reply
unfolding request_from sizes_ok valid_name spawn_request
spawn_run boot k request_ptr = do
  init ← caller_is_init k
  s ← space k
  bytes ← ok_or (read_user k.mem s request_ptr request_size request_align) bad_pointer
  let r = request_from bytes
  require (sizes_ok r) invalid
  name ← ok_or (copy_from_user k.mem s r.name_ptr r.name_len) bad_pointer
  require (valid_name name) invalid
  binary ← ok_or (copy_from_user k.mem s r.binary_ptr r.binary_len) bad_pointer
  require (boot.from_utf8 binary) invalid
  spawn_request boot k init s r name binary

unfoldable pub spawn : Boot → Kernel → ℕ → Reply
unfolding spawn_run
spawn boot k request_ptr = unwrap_or_fail k (spawn_run boot k request_ptr)
