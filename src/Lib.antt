-- ===== src/Lib.antt =====
-- NMiner: the native RandomX miner behind the JavaScript layer.
--
-- The program hashes a block template over and over with different nonces. `RxJob`
-- (src/algo/randomx/rx_job.cpp) holds the current job: JavaScript sends jobs and nonce ranges, and
-- mining threads draw nonces, write them into their copy of the blob and hash it on a virtual
-- machine. The hash runs random programs: a program's instructions are compiled to bytecode, which
-- an interpreter runs over integer and floating-point registers and a scratchpad
-- (src/algo/randomx/bytecode_machine.cpp and bytecode_machine.hpp).
--
-- Prelude: numbers, tests, lists, options. Word: `uint64_t` and `uint32_t` arithmetic with its
-- wrap-around written out, and the functions of src/algo/randomx/instructions_portable.cpp (`rotr`,
-- `rotl`, `mulh`, `smulh`). Bytes: byte arrays and the loads and stores of blake2/endian.h and of
-- rx_job.h.
--
-- Job models rx_job.h and rx_job.cpp. Job is the record of the members that the calls share. The
-- atomic word `m_range` keeps the next nonce in its low half and the limit in its high half, as in
-- the source. Job.Ranges: `QueueRange`, `PendingNonces`, `HasWork`, `AdvanceRange`, `NextNonce`.
-- Job.Send: `SendJob`, whose JavaScript arguments are the values that its checks tell apart;
-- Job.Send.Blob: `read_txn_count` and `WriteNonce`. Job.Target: `ParseTarget` of rx.h and the
-- announced difficulty. Job.Control: `GetHashes`, `Throttle`, `Pause` and `ApplyThrottle`.
-- Job.Threads: any number of threads inside `NextNonce` together with the calls from JavaScript, as
-- a step relation. A relaxed atomic access is one step on one memory, since the accesses in question
-- all are to one word; a critical section is one step, except that the one of `SendJob` is cut where
-- it loads and where it stores the range, because the threads exchange that word without the lock.
-- Job.Threads.Pending takes `PendingNonces` apart likewise: it loads the range in one state and adds
-- up the queue in a later one. `Wake` and the condition variable hold no state that these operations
-- read. Job.Worker: `Loop`, `FlushHash` and `SubmitShare`, one mining thread; what it loads from the
-- shared state is an observation for each iteration of the loop, in any order that the version's
-- loads allow, so that the list of observations stands for the other threads and the calls.
-- Job.Hasher is the interface to the hash, with its laws, which Hash.Mining fills with the
-- interpreted machine.
--
-- Vm models the virtual machine. Vm.Config: configuration.h and common.hpp. Vm.Instruction and
-- Vm.Opcode: instruction.hpp and the opcode ceilings. Vm.Bytecode.Compile: `compileInstruction`, its
-- ladder of tests as `decode` and one function for each arm. Vm.Machine and Vm.Execute: the
-- registers and the functions `exe_*`. Vm.Run: `executeBytecode`, and below it where branches lead
-- and that the loop ends. Vm.Branch: what CBRANCH compiles to. Vm.Reciprocal: reciprocal.c. A
-- pointer of the bytecode is an `Operand`, so that pointing at nothing shows; the two unions that
-- the source overlaps are an operand that knows its kind and two fields. `none` is undefined
-- behaviour: a pointer to no register of the right kind, an access outside of the scratchpad,
-- `UNREACHABLE`. A branch target of -1 is `none`. The processor's floating-point unit, with the
-- intrinsics over it, is a parameter (`Fpu`): nothing is assumed of it. Hosts are little-endian.
--
-- Vm.Initial: `randomx_vm::initialize` of virtual_machine.cpp, with the program's entropy as an
-- argument.
--
-- Hash models how a hash runs. Hash.Aes: aes_hash.cpp, over a parameter for the AES rounds
-- (`Lanes`). Hash.Machine: the state of a `randomx_vm` (virtual_machine.hpp, program.hpp), its
-- program, registers and scratchpad as bytes. Hash.Run: `InterpretedVm::run` and `execute`
-- (vm_interpreted.cpp). Hash.Dataset: the two `datasetRead` (vm_interpreted.cpp,
-- vm_interpreted_light.cpp). Hash.Calculate: `randomx_calculate_hash` and the pipelined `_first`,
-- `_next` and `_last` (randomx.cpp), over a parameter for BLAKE2b. Hash.Total follows a hash from
-- its buffers to its result, over any `datasetRead` that gives words. The RISC-V and AVX-512
-- variants of the AES passes are other implementations of the same functions and are left out.
--
-- Dataset models src/algo/randomx/superscalar.cpp (`executeSuperscalar`, `scheduleUop` and
-- `scheduleMop`), dataset.cpp (the end of `initCache`, which replaces each IMUL_RCP's divisor by the
-- index of its cached reciprocal, `initDatasetItem` and `initDataset`), `randomx_init_dataset` of
-- randomx.cpp over a memory of lines (Dataset.Init), `init_parallel` of rx_worker.cpp, whose threads
-- call it over their parts of the items (Dataset.Split), and blake2_generator.cpp over a parameter
-- for BLAKE2b. Dataset.Program is `generateSuperscalar`: its tables, the making of an instruction
-- for a slot (Creation), the loop over the slots of a decode buffer, cut where the source tests for
-- a `break` or a `continue` (Slots), the loop over the decode cycles, and the loop of `initCache`
-- over the programs (Cache). The cache's memory, which Argon2 fills, is an argument.
--
-- Rx models src/algo/randomx/rx.h, rx.cpp and rx_worker.cpp: `queue_allocate`, `create_vm`, the
-- constructor and the destructor of `RxVm`, and the allocation worker (`Execute`, `BuildDataset`,
-- `Reserve`, `Clear`). The NUMA nodes and whether memory is found are arguments. Rx.Steps puts them
-- in any order: the lock `lifecycle` makes `create_vm` and `Execute` one step each, a machine is
-- destroyed in one step and no longer counted in a later one, and a worker that still finds machines
-- after its last wait fails.
--
-- Fuel: `draw` counts rounds of the outer loop of `NextNonce` (its theorem gives the rounds that are
-- enough), `bit_length` counts the 32 digits of a divisor, and `execute_bytecode` counts rounds of
-- the loop over a program (three for each instruction and one more are enough): `rounds` in Hash.Run
-- and Hash.Calculate is handed down to it, and a hash that needs more is `none`. `fill_buffer`
-- counts rounds over the slots of a buffer, and `slot_rounds` are enough; `tries` counts the draws
-- of the two loops that draw a number again until they accept it, and how many are enough depends on
-- BLAKE2b, so that it is a hypothesis. `uop_from` and `mop_from` count the cycles left in the port
-- map, as the loops of `scheduleUop` and `scheduleMop` do.
--
-- Not modelled: the JIT compilers (they emit machine code), BLAKE2, Argon2 and the AES rounds
-- (published algorithms that the rest calls), allocation and processor detection, the choice, start
-- and end of threads in rx_job.cpp (`PlanThreads`, `Start`, `Stop`), the N-API glue, and the
-- TypeScript layer.
pub mod Prelude
pub mod Word
pub mod Bytes
pub mod Job
pub mod Vm
pub mod Dataset
pub mod Hash
pub mod Rx
pub mod Tests
