-- ===== src/Lib.antt =====
-- Verification of the native parts of Neri: the reader and the verifier of the compiler's IR, the pool of
-- worker threads, the executor of range groups and the slabs of the heap.
--
-- Parts and how they interact. The compiler, written in Neri, writes a module of its IR as bytes; the
-- native code generator reads them with `read_verified_module` (native/codegen/ir_reader.cpp) before it
-- verifies and lowers them. The compiled program runs on native/runtime, where
-- native/runtime/worker_pool.cpp runs isolated heaps on threads of their own and moves bytes between
-- them and the owner, and native/runtime/task_executor.cpp splits a parallel range into groups.
--
-- Prelude: the native numbers, tests, lists and texts that all modules share.
--
-- Ir: native/include/neri/ir_domains.h (one module for each enum, with its wire numbers),
-- native/include/neri/ir_features.h (Ir/Feature) and native/include/neri/codegen/ir.h (Ir/Model, one
-- record for each struct). Ir/Domain states what the reader needs of an enum.
--
-- Transport: native/codegen/ir_reader.cpp. Transport/Reader is the monad of the class `cursor` (its
-- input and position are the state, an exception is an error value with its kind and offset) and
-- Transport/Cursor its checked operations; Types, Constants, Declarations, Code and Payload are the
-- `read_...` functions of `payload_reader`; Envelope is `read_verified_module` up to the verifier and
-- `validate_options`. The recursion of `read_type` and `read_constant` is on the number of levels that
-- are left, `max_nesting_depth + 1 - depth`, so that no fuel is added to the source's own bound; the
-- scan of an identity recurses on the number of bytes left.
-- Transport/Format states what an encoding is, independently of the reader: a printer and a predicate
-- of validity, with rules for sequences, choices, counts and shapes. Transport/Wire builds the format
-- of each construct, with the lemmas on its reader; Transport/Exact and
-- Transport/Envelope/Exact draw the conclusions.
--
-- Verifier: native/codegen/ir_verifier.cpp. Check is its exceptions, Types the predicates on types,
-- Effect the masks of effects, Lookup the maps of `module_verification_index`, source locations and base
-- classes, and Constants `verify_constant`. Context is `function_context` with the checks of an
-- instruction's shape and types; Calls, Virtual, Scalars, Objects and Pointers are the cases of
-- `verify_instruction`, which Instruction puts together. Flow is the control flow: Dominance the sets of
-- `verify_dominance`, Order `verify_canonical_cfg`, Breadth the order that it asks for, and Sound, Exact and Budget lemmas. Body
-- is the visit of a function: Blocks `register_definitions`, `verify_edge` and the terminators, Debug
-- the debug scopes and locals, Whole the order of the checks up to the end of `verify_function`;
-- Declared has `require_declared_type` and the declaration part of `verify_function`, Imports the
-- imports, and Modules and Supported the parts of `verify_supported_module`, and Accepted the whole of
-- `read_verified_module`; Extends, Endings and Visits have what a visit records, Registered and Sound
-- what follows for an accepted body. Equality, Bases, Typed, Dispatch and Widest have the lemmas on
-- types and calls. Native is native/codegen/native_layout.h: Layout the class, whose recursion is on the
-- levels that are left of 128, and Align, Sound, Records, Shapes and Levels its lemmas. A set or a map
-- is a list in the order of its keys. The loop of `verify_dominance` runs on the source's own budget,
-- the square of the number of blocks and one, and the one of `is_same_or_base` on the number of classes
-- and one; the search of `verify_canonical_cfg`, which has no bound in the source, has fuel for one turn
-- for the entry and one for each edge. A definition's `instruction` is absent for -1.
--
-- WorkerPool: native/runtime/worker_pool.cpp. State holds `job`, `worker` and `pool`, Queue the helpers
-- under the mutex, Client the owner's calls and Work those of a worker's thread and the end of `run`.
-- A pointer to a job is its ticket, and an intrusive list is the sequence of its tickets. The loop over
-- the queue's head in `stop_if_unavailable` runs on the length of the queue, one turn for each job
-- in it. The class `readiness_channel` (native/platform/readiness_channel.{h,cpp}) is Channel, with `set`:
-- its notification is one byte, which can be read at once on a pipe and later on a socket, so that a reset
-- may find it in transit and keep it. Invariant has the well-formed pools and the lemmas on each call; Run
-- has the steps, one for each call under the mutex and one for the arrival of a byte, and the pools that
-- they reach; Guarantees draws the conclusions.
--
-- Executor: the partition of a group in `coordinate` of native/runtime/task_executor.cpp, and the
-- guards of `neri_task_parallel_for`.
--
-- Storage: native/runtime/managed_storage.{h,cpp}, where the heap of native/runtime/runtime.cpp keeps
-- its objects. Slab is one slab: its layout and size classes, the slots that `allocate` takes and its
-- part of `sweep`; Place, Sound, Sweep and Layout have the lemmas on them. The loop that lowers the
-- capacity runs on the capacity itself, and the sweep on `bump`.
--
-- Bounds. Numbers are unbounded naturals. The reader's numbers are read from at most eight bytes and
-- compared before they are used; `|` of shifted bytes is their sum. In the pool, the options bound every
-- sum below 2 ^ 64. The 16-bit fields that `allocate` and `sweep` write in a slab are cut off at 2 ^ 16;
-- `--block->live` is a subtraction that stops at 0. In the executor the sums are cut off at the count of
-- a group, a 64-bit number.
--
-- Not modelled. The texts of diagnostics are left out. SHA-256 and the UTF-8 test of LLVM are arguments,
-- of which only the digest's 32 bytes are assumed; the generated table of runtime imports is one, too.
-- Of the worker pool, the registry of handles, null handles, the wait for start-up, the joining of
-- threads, the storage of the intrusive links, and the opening, the closing and the system's errors of
-- the readiness channel are not included; null buffers and an exhausted memory are arguments. Of the
-- storage, the lists of slabs, large objects, the callback and the counters of the sweep and the
-- poisoning for the address sanitizer are not included; addresses are offsets in a slab. The other
-- native components, the compiler and the tests are outside.
pub mod Prelude
pub mod Ir
pub mod Transport
pub mod Executor
pub mod WorkerPool
pub mod Storage
pub mod Verifier
