-- ===== src/Vm/Bytecode/Compile.antt =====
-- `BytecodeMachine::compileInstruction` of src/algo/randomx/bytecode_machine.cpp: one function for
-- each arm of its ladder. The entry that it fills is the one of the program before, updated.
pub mod Immediate
pub mod Program
pub mod Sound
pub mod Usage
use nminer.Prelude.{
  ℕ, zero, suc, ◌+◌, ◌-◌, ◌*◌, ◌%◌, ◌^◌, Bool, true, false, not, Option, none, some, bit_and,
  bit_or, ltb, ◌==◌, if◌then◌else◌,
}
use nminer.Word.{sign_extend, not64}
use nminer.Vm.Config.{
  registers_count, register_count_flt, register_needs_displacement, scratchpad_l1_mask,
  scratchpad_l2_mask, scratchpad_l3_mask, condition_mask, condition_offset, store_l3_condition,
  is_zero_or_power_of_2,
}
use nminer.Vm.Instruction.{
  InstructionType, Instruction, get_mod_mem, get_mod_shift, get_mod_cond, iadd_rs, iadd_m, isub_r,
  isub_m, imul_r, imul_m, imulh_r, imulh_m, ismulh_r, ismulh_m, imul_rcp, ineg_r, ixor_r, ixor_m,
  iror_r, irol_r, iswap_r, fswap_r, fadd_r, fadd_m, fsub_r, fsub_m, fscal_r, fmul_r, fdiv_m,
  fsqrt_r, cbranch, cfround, istore, nop,
}
use nminer.Vm.Opcode.{decode}
use nminer.Vm.Bytecode.{
  Operand, int_reg, f_reg, e_reg, a_reg, zero_const, own_imm, InstructionByteCode, RegisterUsage,
  mark, Compiled,
}
use nminer.Vm.Reciprocal.{reciprocal}

abbrev int_dst : Instruction → ℕ
int_dst instr = instr.dst % registers_count

abbrev int_src : Instruction → ℕ
int_src instr = instr.src % registers_count

abbrev flt_dst : Instruction → ℕ
flt_dst instr = instr.dst % register_count_flt

abbrev flt_src : Instruction → ℕ
flt_src instr = instr.src % register_count_flt

-- instr.getModMem() ? ScratchpadL1Mask : ScratchpadL2Mask
unfoldable pub level_mask : Instruction → ℕ
unfolding get_mod_mem
level_mask instr = if get_mod_mem instr == 0 then scratchpad_l2_mask else scratchpad_l1_mask

-- Every arm takes the instruction, its index, the entry to fill and the register usage.
abbrev pub Generator : Type 0
Generator = Instruction → ℕ → InstructionByteCode → RegisterUsage → Compiled

unfoldable pub gen_iadd_rs : Generator
unfolding get_mod_shift sign_extend
gen_iadd_rs instr i ibc usage = record {
  ibc = record ibc {
    type = iadd_rs;
    dst = int_reg (int_dst instr);
    src = int_reg (int_src instr);
    shift = get_mod_shift instr;
    imm = if int_dst instr == register_needs_displacement then sign_extend instr.imm32 else 0;
  };
  usage = mark usage (int_dst instr) i;
}

-- The arms with a memory operand: a register's address in L1 or L2, or with equal registers an
-- absolute address in L3.
unfoldable pub gen_mem : InstructionType → Generator
unfolding level_mask sign_extend
gen_mem type instr i ibc usage =
    let same = int_src instr == int_dst instr in
    record {
      ibc = record ibc {
        type = type;
        dst = int_reg (int_dst instr);
        imm = sign_extend instr.imm32;
        src = if same then zero_const else int_reg (int_src instr);
        mem_mask = if same then scratchpad_l3_mask else level_mask instr;
      };
      usage = mark usage (int_dst instr) i;
    }

-- The arms with a register operand or, with equal registers, an immediate.
unfoldable pub gen_reg_or_imm : InstructionType → (ℕ → ℕ) → Generator
gen_reg_or_imm type immediate instr i ibc usage =
    let same = int_src instr == int_dst instr in
    record {
      ibc = record ibc {
        type = type;
        dst = int_reg (int_dst instr);
        src = if same then own_imm else int_reg (int_src instr);
        imm = if same then immediate instr.imm32 else ibc.imm;
      };
      usage = mark usage (int_dst instr) i;
    }

-- The arms with two registers.
unfoldable pub gen_reg : InstructionType → Generator
gen_reg type instr i ibc usage = record {
  ibc = record ibc { type = type; dst = int_reg (int_dst instr); src = int_reg (int_src instr) };
  usage = mark usage (int_dst instr) i;
}

unfoldable pub gen_iadd_m : Generator
unfolding gen_mem
gen_iadd_m = gen_mem iadd_m

unfoldable pub gen_isub_r : Generator
unfolding gen_reg_or_imm sign_extend
gen_isub_r = gen_reg_or_imm isub_r sign_extend

unfoldable pub gen_isub_m : Generator
unfolding gen_mem
gen_isub_m = gen_mem isub_m

unfoldable pub gen_imul_r : Generator
unfolding gen_reg_or_imm sign_extend
gen_imul_r = gen_reg_or_imm imul_r sign_extend

unfoldable pub gen_imul_m : Generator
unfolding gen_mem
gen_imul_m = gen_mem imul_m

unfoldable pub gen_imulh_r : Generator
unfolding gen_reg
gen_imulh_r = gen_reg imulh_r

unfoldable pub gen_imulh_m : Generator
unfolding gen_mem
gen_imulh_m = gen_mem imulh_m

unfoldable pub gen_ismulh_r : Generator
unfolding gen_reg
gen_ismulh_r = gen_reg ismulh_r

unfoldable pub gen_ismulh_m : Generator
unfolding gen_mem
gen_ismulh_m = gen_mem ismulh_m

-- A divisor of zero or a power of two has no reciprocal, and makes no instruction.
unfoldable pub gen_imul_rcp : Generator
unfolding is_zero_or_power_of_2 reciprocal
gen_imul_rcp instr i ibc usage =
    if is_zero_or_power_of_2 instr.imm32
    then record { ibc = record ibc { type = nop }; usage = usage }
    else record {
      ibc = record ibc {
        type = imul_r;
        dst = int_reg (int_dst instr);
        imm = reciprocal instr.imm32;
        src = own_imm;
      };
      usage = mark usage (int_dst instr) i;
    }

unfoldable pub gen_ineg_r : Generator
gen_ineg_r instr i ibc usage = record {
  ibc = record ibc { type = ineg_r; dst = int_reg (int_dst instr) };
  usage = mark usage (int_dst instr) i;
}

unfoldable pub gen_ixor_r : Generator
unfolding gen_reg_or_imm sign_extend
gen_ixor_r = gen_reg_or_imm ixor_r sign_extend

unfoldable pub gen_ixor_m : Generator
unfolding gen_mem
gen_ixor_m = gen_mem ixor_m

unfoldable pub gen_iror_r : Generator
unfolding gen_reg_or_imm
gen_iror_r = gen_reg_or_imm iror_r (λ imm. imm)

unfoldable pub gen_irol_r : Generator
unfolding gen_reg_or_imm
gen_irol_r = gen_reg_or_imm irol_r (λ imm. imm)

unfoldable pub gen_iswap_r : Generator
gen_iswap_r instr i ibc usage =
    if int_src instr == int_dst instr
    then record { ibc = record ibc { type = nop }; usage = usage }
    else record {
      ibc = record ibc {
        dst = int_reg (int_dst instr);
        src = int_reg (int_src instr);
        type = iswap_r;
      };
      usage = mark (mark usage (int_dst instr) i) (int_src instr) i;
    }

unfoldable pub gen_fswap_r : Generator
gen_fswap_r instr i ibc usage =
    let dst = int_dst instr in
    record {
      ibc = record ibc {
        type = fswap_r;
        dst = if ltb dst register_count_flt then f_reg dst else e_reg (dst - register_count_flt);
      };
      usage = usage;
    }

-- The arms on two registers of the floating-point groups.
unfoldable pub gen_flt : InstructionType → Operand → Generator
gen_flt type dst instr i ibc usage = record {
  ibc = record ibc { type = type; dst = dst; src = a_reg (flt_src instr) };
  usage = usage;
}

-- The arms on a floating-point register and memory.
unfoldable pub gen_flt_mem : InstructionType → Operand → Generator
unfolding level_mask sign_extend
gen_flt_mem type dst instr i ibc usage = record {
  ibc = record ibc {
    type = type;
    dst = dst;
    src = int_reg (int_src instr);
    mem_mask = level_mask instr;
    imm = sign_extend instr.imm32;
  };
  usage = usage;
}

unfoldable pub gen_fadd_r : Generator
unfolding gen_flt
gen_fadd_r instr = gen_flt fadd_r (f_reg (flt_dst instr)) instr

unfoldable pub gen_fadd_m : Generator
unfolding gen_flt_mem
gen_fadd_m instr = gen_flt_mem fadd_m (f_reg (flt_dst instr)) instr

unfoldable pub gen_fsub_r : Generator
unfolding gen_flt
gen_fsub_r instr = gen_flt fsub_r (f_reg (flt_dst instr)) instr

unfoldable pub gen_fsub_m : Generator
unfolding gen_flt_mem
gen_fsub_m instr = gen_flt_mem fsub_m (f_reg (flt_dst instr)) instr

unfoldable pub gen_fscal_r : Generator
gen_fscal_r instr i ibc usage = record {
  ibc = record ibc { dst = f_reg (flt_dst instr); type = fscal_r };
  usage = usage;
}

unfoldable pub gen_fmul_r : Generator
unfolding gen_flt
gen_fmul_r instr = gen_flt fmul_r (e_reg (flt_dst instr)) instr

unfoldable pub gen_fdiv_m : Generator
unfolding gen_flt_mem
gen_fdiv_m instr = gen_flt_mem fdiv_m (e_reg (flt_dst instr)) instr

unfoldable pub gen_fsqrt_r : Generator
gen_fsqrt_r instr i ibc usage = record {
  ibc = record ibc { type = fsqrt_r; dst = e_reg (flt_dst instr) };
  usage = usage;
}

-- The immediate of a branch: the bit at the shift set, the bit below it clear.
unfoldable pub branch_imm : ℕ → ℕ → ℕ
unfolding sign_extend
branch_imm imm32 shift = bit_and (bit_or (sign_extend imm32) (2 ^ shift)) (not64 (2 ^ (shift - 1)))

unfoldable pub gen_cbranch : Generator
unfolding get_mod_cond branch_imm
gen_cbranch instr i ibc usage =
    let creg = int_dst instr in
    let shift = get_mod_cond instr + condition_offset in
    record {
      ibc = record ibc {
        type = cbranch;
        dst = int_reg creg;
        target = usage creg;
        imm = branch_imm instr.imm32 shift;
        mem_mask = condition_mask * 2 ^ shift;
      };
      usage = λ j. if ltb j registers_count then some i else usage j;
    }

unfoldable pub gen_cfround : Generator
gen_cfround instr i ibc usage = record {
  ibc = record ibc { src = int_reg (int_src instr); type = cfround; imm = bit_and instr.imm32 63 };
  usage = usage;
}

unfoldable pub gen_istore : Generator
unfolding get_mod_cond level_mask sign_extend
gen_istore instr i ibc usage = record {
  ibc = record ibc {
    type = istore;
    dst = int_reg (int_dst instr);
    src = int_reg (int_src instr);
    imm = sign_extend instr.imm32;
    mem_mask =
        if ltb (get_mod_cond instr) store_l3_condition
        then level_mask instr
        else scratchpad_l3_mask;
  };
  usage = usage;
}

unfoldable pub gen_nop : Generator
gen_nop instr i ibc usage = record { ibc = record ibc { type = nop }; usage = usage }

-- The arm of an instruction.
unfoldable pub generator : InstructionType → Generator
unfolding gen_iadd_rs gen_iadd_m gen_isub_r gen_isub_m gen_imul_r gen_imul_m gen_imulh_r gen_imulh_m
    gen_ismulh_r gen_ismulh_m gen_imul_rcp gen_ineg_r gen_ixor_r gen_ixor_m gen_iror_r gen_irol_r
    gen_iswap_r gen_fswap_r gen_fadd_r gen_fadd_m gen_fsub_r gen_fsub_m gen_fscal_r gen_fmul_r
    gen_fdiv_m gen_fsqrt_r gen_cbranch gen_cfround gen_istore gen_nop
generator iadd_rs = gen_iadd_rs
generator iadd_m = gen_iadd_m
generator isub_r = gen_isub_r
generator isub_m = gen_isub_m
generator imul_r = gen_imul_r
generator imul_m = gen_imul_m
generator imulh_r = gen_imulh_r
generator imulh_m = gen_imulh_m
generator ismulh_r = gen_ismulh_r
generator ismulh_m = gen_ismulh_m
generator imul_rcp = gen_imul_rcp
generator ineg_r = gen_ineg_r
generator ixor_r = gen_ixor_r
generator ixor_m = gen_ixor_m
generator iror_r = gen_iror_r
generator irol_r = gen_irol_r
generator iswap_r = gen_iswap_r
generator fswap_r = gen_fswap_r
generator fadd_r = gen_fadd_r
generator fadd_m = gen_fadd_m
generator fsub_r = gen_fsub_r
generator fsub_m = gen_fsub_m
generator fscal_r = gen_fscal_r
generator fmul_r = gen_fmul_r
generator fdiv_m = gen_fdiv_m
generator fsqrt_r = gen_fsqrt_r
generator cbranch = gen_cbranch
generator cfround = gen_cfround
generator istore = gen_istore
generator nop = gen_nop

-- `none` is `UNREACHABLE`: no instruction has the opcode.
unfoldable pub compile_instruction :
    Instruction → ℕ → InstructionByteCode → RegisterUsage → Option Compiled
unfolding decode generator
compile_instruction instr i ibc usage = elim (decode instr.opcode) [
  | none ↦ none
  | some type ↦ some (generator type instr i ibc usage)
]
