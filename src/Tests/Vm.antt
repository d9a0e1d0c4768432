-- ===== src/Tests/Vm.antt =====
-- A small program of the virtual machine, over a stand-in for the floating-point unit.
use nminer.Prelude.{
  ℕ, suc, ◌+◌, ◌-◌, ◌*◌, ◌/◌, ◌^◌, ◌≤◌, ◌<◌, List, [], ◌∷◌, true, none, some, ◌≡◌, refl, arith, ◌⊎◌,
  bit_and, bit_or, bit_xor,
}
use nminer.Vm.Instruction.{Instruction, IsInstruction, iadd_rs, nop}
use nminer.Vm.Bytecode.{InstructionByteCode, Compiled, int_reg, zero_const}
use nminer.Vm.Bytecode.Executable.{IsExecutable}
use nminer.Vm.Bytecode.Compile.{compile_instruction, gen_cbranch}
use nminer.Vm.Bytecode.Compile.Program.{no_usage, compile_program}
use nminer.Vm.Bytecode.Compile.Sound.{compile_instruction-IsExecutable}
use nminer.Vm.Branch.{Jumps, bumped, gen_cbranch-twice}
use nminer.Vm.Config.{is_zero_or_power_of_2}
use nminer.Vm.Machine.{Fpu, Machine}
use nminer.Vm.Opcode.Laws.{opcodes_below, opcodes_below-frequency}
use nminer.Vm.Opcode.{frequency}
use nminer.Vm.Execute.{execute_instruction}
use nminer.Vm.Execute.Operands.{IsMachine}
use nminer.Vm.Execute.Safety.{Runs, execute_instruction-Continues}
use nminer.Vm.Reciprocal.{bit_length, reciprocal}
use nminer.Vm.Reciprocal.Laws.{reciprocal_lem}
use nminer.Vm.Run.{execute_bytecode, finished}
use nminer.Vm.Run.Termination.{compile_program-Finishes}
use nminer.Vm.Run.Safety.{IsDefined, compile_program-IsDefined}

abbrev pub integers : Fpu
integers = record {
  Vec = ℕ;
  swap = λ v. v;
  add = λ mode v w. v + w;
  sub = λ mode v w. v - w;
  mul = λ mode v w. v * w;
  div = λ mode v w. v / w;
  sqrt = λ mode v. v;
  xor = bit_xor;
  and = bit_and;
  or = bit_or;
  set = λ high low. high * 2 ^ 64 + low;
  cvt_packed_int = λ w. w;
}

abbrev machine : Machine integers
machine = record {
  r = λ k. 3;
  f = λ k. 1;
  e = λ k. 1;
  a = λ k. 1;
  scratchpad = λ addr. 7;
  rounding = 0;
  v2 = true;
  e_mask0 = 0;
  e_mask1 = 0;
}

machine-IsMachine : IsMachine integers machine
machine-IsMachine = record { words = λ k. omega arith; bytes = λ addr. omega arith }

abbrev pub blank : InstructionByteCode
blank = record {
  dst = int_reg 0;
  src = zero_const;
  imm = 0;
  type = nop;
  target = none;
  shift = 0;
  mem_mask = 0;
}

-- r5 += (r1 << 2) + 9, through the displacement that only r5 takes.
abbrev adds : Instruction
adds = record { opcode = 0; dst = 5; src = 1; mod_byte = 8; imm32 = 9 }

adds-IsInstruction : IsInstruction adds
adds-IsInstruction = record {
  opcode_fits = omega arith;
  dst_fits = omega arith;
  src_fits = omega arith;
  mod_fits = omega arith;
  imm32_fits = omega arith;
}

-- A branch on r2.
abbrev branches : Instruction
branches = record { opcode = 214; dst = 2; src = 0; mod_byte = 0; imm32 = 0xff7f }

branches-IsInstruction : IsInstruction branches
branches-IsInstruction = record {
  opcode_fits = omega arith;
  dst_fits = omega arith;
  src_fits = omega arith;
  mod_fits = omega arith;
  imm32_fits = omega arith;
}

opcodes_below_example : opcodes_below 256 iadd_rs ≡ frequency iadd_rs
opcodes_below_example = opcodes_below-frequency iadd_rs

compile_instruction_example :
    (c : Compiled) × (compile_instruction adds 0 blank no_usage ≡ some c) × IsExecutable c.ibc
compile_instruction_example =
    compile_instruction-IsExecutable adds 0 blank no_usage adds-IsInstruction (omega arith)

abbrev entry : InstructionByteCode
entry = record blank { type = iadd_rs; src = int_reg 1; imm = 9; shift = 2 }

execute_instruction_example :
    Runs integers 1 (execute_instruction integers entry 1 machine)
    ⊎ Runs integers 0 (execute_instruction integers entry 1 machine)
execute_instruction_example =
    execute_instruction-Continues integers machine entry 1 machine-IsMachine
      (omega arith, omega arith, omega arith)

compile_program_example :
    (bytecode : List InstructionByteCode) × (compile_program
        ((adds, blank) ∷ (branches, blank) ∷ [])
      ≡ some bytecode)
    × IsDefined integers (execute_bytecode integers 10 bytecode 0 machine)
compile_program_example =
    compile_program-IsDefined integers 10 ((adds, blank) ∷ (branches, blank) ∷ []) machine
      (adds-IsInstruction, omega arith, (branches-IsInstruction, omega arith, tt)) machine-IsMachine

gen_cbranch-twice_example :
    let ibc = (gen_cbranch branches 1 blank no_usage).ibc in
    ¬ Jumps ibc (bumped ibc (bumped ibc 0x180))
unfolding gen_cbranch
gen_cbranch-twice_example =
    gen_cbranch-twice branches 1 blank no_usage 0x180 (omega arith) refl refl

reciprocal_example :
    (reciprocal 3 ≡ 2 ^ 63 * 2 ^ bit_length 32 3 / 3)
    × (reciprocal 3 < 2 ^ 64)
    × (2 ^ 64 ≤ 2 ^ 63 * 2 ^ suc (bit_length 32 3) / 3)
unfolding is_zero_or_power_of_2
reciprocal_example = reciprocal_lem 3 (omega arith) refl

compile_program-Finishes_example :
    (bytecode : List InstructionByteCode) × (compile_program
        ((adds, blank) ∷ (branches, blank) ∷ [])
      ≡ some bytecode)
    × (m' : Machine integers) × (execute_bytecode integers 7 bytecode 0 machine ≡ finished m')
    × IsMachine integers m'
compile_program-Finishes_example =
    compile_program-Finishes integers ((adds, blank) ∷ (branches, blank) ∷ []) machine 7
      (adds-IsInstruction, omega arith, (branches-IsInstruction, omega arith, tt)) machine-IsMachine
      (omega arith)
