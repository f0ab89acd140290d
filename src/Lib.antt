-- ===== src/Lib.antt =====
-- FreshOS: a microkernel for AArch64 with message passing, capabilities and user address spaces. This
-- library models the kernel's own state and its operations, from the sources named below, and proves
-- what they keep and return.
--
-- The parts and how they meet. Tasks (kernel/src/arch/aarch64/context.rs) send messages on channels
-- (kernel/src/ipc.rs), which they name through handle tables (kernel/src/handles.rs). A send may finish
-- the wait of a task and hand it the CPU. A new task is loaded from an ELF image (kernel/src/elf.rs)
-- into an address space (kernel/src/arch/aarch64/addrspace.rs) built of frames
-- (kernel/src/frame_alloc.rs). The end of a task is charged in the registry (kernel/src/registry.rs)
-- and told to init on a channel. Tasks reach the kernel by system calls (kernel/src/syscalls.rs), and
-- init (userbins/init/src/main.rs) decides which services run. All numbers, messages and errors at the boundary are those of
-- lib/abi/src/lib.rs.
--
-- The files:
-- - Base and its children: lists with native indices, tests, bits, bytes, signed results, rings. They
--   model nothing.
-- - Abi: lib/abi/src/lib.rs. Errors, Message, rights, TaskRef, ExitReason and the layout constants.
-- - Machine: physical memory as words, through the kernel's identity mapping.
-- - FrameAlloc: kernel/src/frame_alloc.rs. BITMAP is a function from byte index to byte; `allocate`,
--   `deallocate` and the contiguous forms return the new statics.
-- - AddrSpace: kernel/src/arch/aarch64/addrspace.rs. Tables are words of memory; `translate`,
--   `map_new_page`, `check_range` and the user copies.
-- - Handles, Metrics, Registry: the files of the same names under kernel/src.
-- - Kernel: the statics of ipc.rs and context.rs with the rest as one record. Kernel/Channel is the ring
--   of a channel, Kernel/Trace the trace buffer, Kernel/Task a slot of the task table.
-- - Wait: the waits in the recv syscall, in context.rs, that IPC calls.
-- - Ipc: the operations on channels of kernel/src/ipc.rs. Every clock reading is an argument.
-- - Elf: kernel/src/elf.rs. An image is its list of bytes.
-- - Context: switches, hand-offs, ticks and slots of context.rs; Context/Spawn starts a task and
--   Context/Retire ends one.
-- - BootImages: kernel/src/boot_images.rs. The table of images and the lookup by name.
-- - Syscall: kernel/src/syscalls.rs. Each call is a chain of checks that reads the kernel, and an action
--   on it. Syscall/Grants and Syscall/Spawn are the spawn call, Syscall/Log the log call, and
--   Syscall/Dispatch the dispatch with the entry of kernel/src/arch/aarch64/syscall.rs.
-- - Heap: kernel/src/heap.rs. The free list lies in memory as in the source. Heap/Chain relates it to a
--   list of blocks, on which first fit and the insertion of a freed block are defined.
-- - Framebuffer: kernel/src/framebuffer.rs, with the lookups of font.rs and font_aa.rs.
-- - Desktop: the helpers of kernel/src/arm_tasks.rs that draw nothing.
-- - Runtime: lib/rt/src/lib.rs. The line buffer of `log!`, and results of system calls.
-- - Mcp: the framing of requests in kernel/src/mcp.rs.
-- - Init: userbins/init/src/main.rs, round by round; Init/Table is its table of services.
-- - Tests: the theorems at concrete inputs.
--
-- One CPU runs the kernel. The operations on tasks, channels, memory and services hold an interrupt
-- guard, run in exception context, or build a space that no task has yet, so each is one step on the
-- state. Those on the damage of surfaces (kernel/src/metrics.rs) hold none and tasks call them with
-- interrupts on: they are sequences of single accesses to atomics in Metrics/Surfaces, between which
-- another task may run. Starting a task has three steps, which are composed in order. A panic and a
-- halt are outcomes of the scheduler's steps.
--
-- Bounds and fuel. A machine integer keeps its width where it can wrap: channel ids, generations and
-- counters are reduced, edges of rectangles wrap around, and checked sums in the ELF parser are
-- partial. The loops over the frame bitmap, the task table and program headers recurse on the number
-- of rounds left. `refill` runs on fuel, as many rounds as the backlog has entries at most. The loop of
-- `load_pages` has fuel for every page that a segment of its size can touch. The walks of the heap have
-- one round more than the region has room for blocks of the least size. The loop of a damage snapshot,
-- which repeats while others commit, runs on any fuel that is given.
--
-- Not modelled: devices, the desktop's drawing and the serial console, which only do input and output;
-- what the MCP bridge answers, which a JSON library builds; traps
-- and assembly; barriers and cache and TLB maintenance, which have no effect on this state; the text
-- that the kernel prints. The blocking receive of a kernel task is modelled round by round, without the
-- sleep in between. The test for UTF-8, the split of bytes into UTF-8 chunks and the test for control
-- characters belong to the language's library and are parameters. For init, the answers of the system
-- calls are. Of the user runtime, the wrappers of the svc instruction are not modelled.
pub mod Base
pub mod Abi
pub mod Machine
pub mod FrameAlloc
pub mod AddrSpace
pub mod Handles
pub mod Metrics
pub mod Registry
pub mod Runtime
pub mod Kernel
pub mod Wait
pub mod Ipc
pub mod Elf
pub mod Context
pub mod Tests
pub mod BootImages
pub mod Syscall
pub mod Init
pub mod Heap
pub mod Mcp
pub mod Framebuffer
pub mod Desktop
