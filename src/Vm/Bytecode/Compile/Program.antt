-- ===== src/Vm/Bytecode/Compile/Program.antt =====
-- `compileProgram`: the whole program, from `beginCompilation` on.
use nminer.Prelude.{ℕ, ◌>>=◌, ◌+◌, List, [], ◌∷◌, Option, none, some}
use nminer.Vm.Instruction.{Instruction}
use nminer.Vm.Bytecode.{InstructionByteCode, RegisterUsage}
use nminer.Vm.Bytecode.Compile.{compile_instruction}

-- `beginCompilation`: every entry is -1.
abbrev pub no_usage : RegisterUsage
no_usage j = none

-- The loop over the program, which stands with the old bytecode that it overwrites.
unfoldable pub compile_from :
    ℕ → RegisterUsage → List (Instruction × InstructionByteCode) → Option (List InstructionByteCode)
unfolding compile_instruction
compile_from i usage [] = some []
compile_from i usage ((instr, old) ∷ rest) = do
  c ← compile_instruction instr i old usage
  bytecode ← compile_from (i + 1) c.usage rest
  some (c.ibc ∷ bytecode)

unfoldable pub compile_program :
    List (Instruction × InstructionByteCode) → Option (List InstructionByteCode)
unfolding compile_from
compile_program program = compile_from 0 no_usage program
