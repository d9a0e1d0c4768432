-- ===== src/Dataset/Cache.antt =====
-- The end of `initCache` in src/algo/randomx/dataset.cpp: the reciprocals of the generated programs
-- are computed once, and each IMUL_RCP keeps the index of its own.
pub mod Equivalence
use nminer.Prelude.{
  ℕ, ◌+◌, ◌%◌, ◌^◌, List, [], ◌∷◌, ◌++◌, Option, none, some, ◌==◌, length, if◌then◌else◌,
}
use nminer.Vm.Instruction.{Instruction}
use nminer.Dataset.Superscalar.{superscalar_type, is_rcp}
use nminer.Vm.Reciprocal.{reciprocal}

-- A program and the index of its address register.
pub record SuperscalarProgram : Type 0 where
  pub instructions : List Instruction
  pub address_register : ℕ

-- The inner loop: the program rewritten, and the reciprocals with its own appended.
unfoldable pub cache_instructions : List Instruction → List ℕ → List Instruction × List ℕ
unfolding is_rcp superscalar_type reciprocal
cache_instructions [] reciprocals = ([], reciprocals)
cache_instructions (instr ∷ rest) reciprocals =
    let rcp = is_rcp (superscalar_type instr.opcode) in
    let instr' = if rcp then record instr { imm32 = length reciprocals % 2 ^ 32 } else instr in
    let reciprocals' = if rcp then reciprocals ++ (reciprocal instr.imm32 ∷ []) else reciprocals in
    let after = cache_instructions rest reciprocals' in (instr' ∷ after.0, after.1)

-- The outer loop over the cache's programs.
unfoldable pub cache_programs : List SuperscalarProgram → List ℕ → List SuperscalarProgram × List ℕ
unfolding cache_instructions
cache_programs [] reciprocals = ([], reciprocals)
cache_programs (program ∷ rest) reciprocals =
    let cached = cache_instructions program.instructions reciprocals in
    let after = cache_programs rest cached.1 in
    (record program { instructions = cached.0 } ∷ after.0, after.1)
