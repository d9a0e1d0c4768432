-- ===== src/Vm/Run.antt =====
-- `BytecodeMachine::executeBytecode` of bytecode_machine.hpp: the loop that runs a compiled program.
pub mod Safety
pub mod Branches
pub mod Rounds
pub mod Termination
use nminer.Prelude.{ℕ, zero, suc, ◌+◌, List, Option, none, some, get_elem?}
use nminer.Vm.Bytecode.{InstructionByteCode}
use nminer.Vm.Machine.{Fpu, Machine}
use nminer.Vm.Execute.{execute_instruction}

module _ (fp : Fpu) where
  -- The loop left, with the machine that it leaves; `rounds` of the loop spent; or undefined
  -- behaviour met.
  pub data Outcome : Type 0 where
    finished : Machine fp → Outcome
    running : ℕ → Machine fp → Outcome
    undefined : Outcome

  -- At most `rounds` rounds of the loop from `pc` on; the program's size is the length of `bytecode`.
  unfoldable pub execute_bytecode : ℕ → List InstructionByteCode → ℕ → Machine fp → Outcome
  unfolding execute_instruction
  execute_bytecode zero bytecode pc m = running pc m
  execute_bytecode (suc rounds) bytecode pc m = elim (get_elem? bytecode pc) [
    | none ↦ finished m
    | some ibc ↦ elim (execute_instruction fp ibc (pc + 1) m) [
      | none ↦ undefined
      | some (m', pc') ↦ execute_bytecode rounds bytecode pc' m'
    ]
  ]
