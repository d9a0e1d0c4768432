-- ===== src/Vm.antt =====
-- The RandomX virtual machine of src/algo/randomx: its configuration, its instructions, and the
-- bytecode machine that the interpreted VM runs.
pub mod Config
pub mod Instruction
pub mod Opcode
pub mod Reciprocal
pub mod Bytecode
pub mod Machine
pub mod Execute
pub mod Branch
pub mod Run
pub mod Initial
