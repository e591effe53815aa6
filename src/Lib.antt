-- ===== src/Lib.antt =====
-- AEON Flow: a virtual machine whose state is captured, edited, shared and moved, and a store of
-- blobs that devices exchange.
--
-- The program's parts and the files that model them, each over the source it names:
--   * Heap (aeon-vm/src/cowheap.rs): `COWHeap`, pages of 4096 bytes with a set of dirty pages.
--     Heap/Flat is its view as one string of bytes, Heap/Ranges checked ranges and the read loop,
--     Heap/Ops reads and writes, Heap/Dirty the dirty set, Heap/Deltas page deltas.
--   * Vfs (aeon-vm/src/vfs.rs): `VirtualFS`, files and open descriptors, with Vfs/Slots,
--     Vfs/Invariant and Vfs/Contents.
--   * Inst (aeon-vm/src/inst.rs, aeon-vm/src/program.rs): instructions and programs.
--   * EventLog (aeon-vm/src/eventlog.rs): the hash chain of events, with EventLog/Chain.
--   * Machine (aeon-vm/src/vm.rs): `VMState`, `step`, `handle_syscall`, `run` and `run_bounded`, over
--     Heap, Vfs and EventLog. Machine/Monad threads the state, Machine/Safe,
--     Machine/Parts and Machine/Calls hold the rules of the invariant, Machine/Invariant the steps,
--     Machine/Runs the two loops, and Machine/Registers and Machine/Fibonacci a whole program.
--   * Snapshot (aeon-vm/src/snapshot.rs, aeon-vm/src/store.rs): `capture`, `restore`, `to_bytes`,
--     `from_bytes`, `SnapshotDelta` and `ProgramStore`, with Snapshot/Restore and Snapshot/Delta.
--   * Editor (aeon-vm/src/editor.rs): `PatchSet` and `SnapshotEditor`, with Editor/Undo and
--     Editor/Edits.
--   * Session (aeon-vm/src/session.rs): `SharedContext`, with Session/Clocks, Session/Merge and
--     Session/Patches.
--   * Blobs (aeon-store/src/store.rs, aeon-store/src/blob.rs): `CIDStore`, with Blobs/Hex,
--     Blobs/Format and Blobs/Keeps.
--   * Sync (aeon-store/src/sync.rs): `SyncEngine`, with Sync/Transfer.
--   * Contexts (aeon-store/src/context.rs): `Context`, with Contexts/Replay.
--   * AgentState (aeon-agent/src/state.rs): `SyncState`, with AgentState/Memory.
--   * Asm (aeon-vm/src/asm.rs): `Assembler`, its two passes. Asm/Fits is about operands,
--     Asm/Parsed is what the first pass gives, Asm/Resolved what the second makes of it and how Machine runs it.
--   * Jit (aeon-vm/src/jit.rs): `JitEngine::compile` up to the blocks, with Jit/Engine for the engine.
--     Jit/Leaders and Jit/Blocks are about the windows of the program, Jit/Steps sets one instruction
--     against one step of Machine, Jit/Simulation a block against a run, Jit/Entry the whole function.
--   * Forth (aeon-vm/src/forth.rs): `ForthPrototype`, with Forth/Storage for its files in Vfs,
--     Forth/Source for the compiler, and Forth/Words for the words, whose stack lives in the heap of
--     Machine. Forth/Stack and Forth/Effects are about the stack, Forth/Safety about each step,
--     Forth/Saved about the files and Forth/Definitions about compiled definitions.
--   * Vault (aeon-sync/src/vault.rs): `CredentialVaultStore` over its `VaultFile`, with Vault/Hosts for
--     the host of a page, Vault/Totp for one-time codes, Vault/Sessions for
--     `CredentialUnlockSessions`, and Vault/Entries for what becomes of entries.
--   * EmailSync (aeon-sync/src/email_sync.rs, with entries of aeon-capture/src): `prepare_import` of
--     `EmailSyncStore` over its `EmailSyncState`, and EmailSync/Again for repeated imports.
--   * Base holds the helpers that all share, Tests the concrete inputs.
--
-- A function of the source is the definition of the same name, or the one whose comment names it.
-- State is passed in and out; a call that fails and leaves its object unchanged returns an error
-- alone. `Outcome` is `Result` with a third case for a panic. Numbers are natural numbers, with the
-- wrap-around of a `usize` or `u64` of 64 bits written out; a text is its UTF-8 bytes, or the list of
-- its code points where the source looks at characters. BLAKE3, bincode, `hex::encode`, ciphers and
-- JSON are arguments of the definitions that use them, and so are `str::to_lowercase`, random bytes
-- and the time.
--
-- Bounds and fuel: the loops of the heap run on fuel of one round more than the bytes they move, and
-- a heap operation that ran out of it would give `panic`, which the results on the heap exclude.
-- `unpack_cids` has fuel for as many chunks as bytes. `run` has no bound in the source; its fuel is an
-- argument, and `run_bounded` has the source's own bound. `read_chunks` has fuel of one round more
-- than the file has bytes, `compile_into` the source's own depth of 17 sources, `run` of Forth its
-- budget of 100000 steps. Compiled code may loop, so the fuel of `exec_code` is an argument; where the
-- interpreter halts there is enough.
--
-- Not modelled: printing and formatting, files, sockets, locks and threads, Cranelift and
-- its errors, the agent's engine, the capture server, the rest of the sync server, and the clients in other
-- languages.
pub mod Base
pub mod Heap
pub mod Vfs
pub mod Inst
pub mod EventLog
pub mod Machine
pub mod Snapshot
pub mod Editor
pub mod Session
pub mod Blobs
pub mod Sync
pub mod Contexts
pub mod AgentState
pub mod Asm
pub mod Jit
pub mod Forth
pub mod Vault
pub mod EmailSync
pub mod Tests
