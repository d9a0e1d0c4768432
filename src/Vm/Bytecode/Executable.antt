-- ===== src/Vm/Bytecode/Executable.antt =====
-- What an entry of the bytecode must be for its instruction to run: operands of the right kind, and
-- addresses inside the scratchpad.
use nminer.Prelude.{◌+◌, ◌≤◌, ◌<◌}
use nminer.Word.{IsU64}
use nminer.Vm.Config.{registers_count, register_count_flt, scratchpad_l3_size}
use nminer.Vm.Instruction.{
  InstructionType, iadd_rs, iadd_m, isub_r, isub_m, imul_r, imul_m, imulh_r, imulh_m, ismulh_r,
  ismulh_m, imul_rcp, ineg_r, ixor_r, ixor_m, iror_r, irol_r, iswap_r, fswap_r, fadd_r, fadd_m,
  fsub_r, fsub_m, fscal_r, fmul_r, fdiv_m, fsqrt_r, cbranch, cfround, istore, nop,
}
use nminer.Vm.Bytecode.{
  Operand, int_reg, f_reg, e_reg, a_reg, zero_const, own_imm, InstructionByteCode,
}

abbrev pub IsIntReg : Operand → Type 0
IsIntReg (int_reg k) = k < registers_count
IsIntReg _ = ⊥

abbrev pub IsIntSrc : Operand → Type 0
IsIntSrc (int_reg k) = k < registers_count
IsIntSrc zero_const = Unit
IsIntSrc own_imm = Unit
IsIntSrc _ = ⊥

abbrev pub IsFloatDst : Operand → Type 0
IsFloatDst (f_reg k) = k < register_count_flt
IsFloatDst (e_reg k) = k < register_count_flt
IsFloatDst _ = ⊥

abbrev pub IsFloatSrc : Operand → Type 0
IsFloatSrc (a_reg k) = k < register_count_flt
IsFloatSrc _ = ⊥

abbrev pub InScratchpad : InstructionByteCode → Type 0
InScratchpad ibc = ibc.mem_mask + 8 ≤ scratchpad_l3_size

abbrev pub IntPair : InstructionByteCode → Type 0
IntPair ibc = IsIntReg ibc.dst × IsIntSrc ibc.src × IsU64 ibc.imm

abbrev pub Fits : InstructionType → InstructionByteCode → Type 0
Fits iadd_rs ibc = IntPair ibc
Fits iadd_m ibc = IntPair ibc × InScratchpad ibc
Fits isub_r ibc = IntPair ibc
Fits isub_m ibc = IntPair ibc × InScratchpad ibc
Fits imul_r ibc = IntPair ibc
Fits imul_m ibc = IntPair ibc × InScratchpad ibc
Fits imulh_r ibc = IntPair ibc
Fits imulh_m ibc = IntPair ibc × InScratchpad ibc
Fits ismulh_r ibc = IntPair ibc
Fits ismulh_m ibc = IntPair ibc × InScratchpad ibc
Fits imul_rcp ibc = ⊥
Fits ineg_r ibc = IsIntReg ibc.dst
Fits ixor_r ibc = IntPair ibc
Fits ixor_m ibc = IntPair ibc × InScratchpad ibc
Fits iror_r ibc = IntPair ibc
Fits irol_r ibc = IntPair ibc
Fits iswap_r ibc = IsIntReg ibc.dst × IsIntReg ibc.src
Fits fswap_r ibc = IsFloatDst ibc.dst
Fits fadd_r ibc = IsFloatDst ibc.dst × IsFloatSrc ibc.src
Fits fadd_m ibc = IsFloatDst ibc.dst × IsIntSrc ibc.src × IsU64 ibc.imm × InScratchpad ibc
Fits fsub_r ibc = IsFloatDst ibc.dst × IsFloatSrc ibc.src
Fits fsub_m ibc = IsFloatDst ibc.dst × IsIntSrc ibc.src × IsU64 ibc.imm × InScratchpad ibc
Fits fscal_r ibc = IsFloatDst ibc.dst
Fits fmul_r ibc = IsFloatDst ibc.dst × IsFloatSrc ibc.src
Fits fdiv_m ibc = IsFloatDst ibc.dst × IsIntSrc ibc.src × IsU64 ibc.imm × InScratchpad ibc
Fits fsqrt_r ibc = IsFloatDst ibc.dst
Fits cbranch ibc = IsIntReg ibc.dst × IsU64 ibc.imm
Fits cfround ibc = IsIntSrc ibc.src × IsU64 ibc.imm
Fits istore ibc = IsIntReg ibc.dst × IsIntSrc ibc.src × IsU64 ibc.imm × InScratchpad ibc
Fits nop ibc = Unit

-- The entry fits the type that it carries.
abbrev pub IsExecutable : InstructionByteCode → Type 0
IsExecutable ibc = Fits ibc.type ibc
