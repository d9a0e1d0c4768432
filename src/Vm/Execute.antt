-- ===== src/Vm/Execute.antt =====
-- `BytecodeMachine::executeInstruction` of bytecode_machine.cpp and the functions `exe_*` of
-- bytecode_machine.hpp: the effect of one bytecode instruction. `none` is undefined behaviour, as a
-- pointer to no register, an access outside of the scratchpad, or `UNREACHABLE`.
pub mod Operands
pub mod Safety
pub mod Effect
use nminer.Prelude.{
  ◌>>=◌, ℕ, zero, suc, ◌+◌, ◌-◌, ◌*◌, ◌/◌, ◌%◌, ◌^◌, ◌≤◌, ◌<◌, Bool, not, true, false, ◌||◌, Option,
  none, some, bit_and, bit_xor, ltb, ◌==◌, if◌then◌else◌,
}
use nminer.Word.{add64, sub64, mul64, shl64, not64, rotr, rotl, mulh, smulh}
use nminer.Vm.Config.{registers_count, register_count_flt, dynamic_mantissa_mask}
use nminer.Vm.Instruction.{
  InstructionType, iadd_rs, iadd_m, isub_r, isub_m, imul_r, imul_m, imulh_r, imulh_m, ismulh_r,
  ismulh_m, imul_rcp, ineg_r, ixor_r, ixor_m, iror_r, irol_r, iswap_r, fswap_r, fadd_r, fadd_m,
  fsub_r, fsub_m, fscal_r, fmul_r, fdiv_m, fsqrt_r, cbranch, cfround, istore, nop,
}
use nminer.Vm.Bytecode.{
  Operand, int_reg, f_reg, e_reg, a_reg, zero_const, own_imm, InstructionByteCode,
}
use nminer.Vm.Machine.{Fpu, Machine, put, load64, store64}

-- The program counter after the `++pc` that follows a jump; a target of `none` is -1.
abbrev pub after : Option ℕ → ℕ
after none = 0
after (some target) = target + 1

module _ (fp : Fpu) where
  open fp use {Vec}

  -- An instruction takes the program counter that comes next, and gives the machine and the
  -- program counter that does.
  abbrev pub Exec : Type 0
  Exec = InstructionByteCode → ℕ → Machine fp → Option (Machine fp × ℕ)

  -- *ibc.isrc and *ibc.idst, as integers.
  unfoldable pub read_int : InstructionByteCode → Operand → Machine fp → Option ℕ
  read_int ibc (int_reg k) m = if ltb k registers_count then some (m.r k) else none
  read_int ibc zero_const m = some 0
  read_int ibc own_imm m = some ibc.imm
  read_int ibc (f_reg k) m = none
  read_int ibc (e_reg k) m = none
  read_int ibc (a_reg k) m = none

  unfoldable pub write_int : Operand → ℕ → Machine fp → Option (Machine fp)
  write_int (int_reg k) v m =
      if ltb k registers_count then some (record m { r = put m.r k v }) else none
  write_int (f_reg k) v m = none
  write_int (e_reg k) v m = none
  write_int (a_reg k) v m = none
  write_int zero_const v m = none
  write_int own_imm v m = none

  -- *ibc.fsrc and *ibc.fdst.
  unfoldable pub read_vec : Operand → Machine fp → Option Vec
  read_vec (f_reg k) m = if ltb k register_count_flt then some (m.f k) else none
  read_vec (e_reg k) m = if ltb k register_count_flt then some (m.e k) else none
  read_vec (a_reg k) m = if ltb k register_count_flt then some (m.a k) else none
  read_vec (int_reg k) m = none
  read_vec zero_const m = none
  read_vec own_imm m = none

  unfoldable pub write_vec : Operand → Vec → Machine fp → Option (Machine fp)
  write_vec (f_reg k) v m =
      if ltb k register_count_flt then some (record m { f = put m.f k v }) else none
  write_vec (e_reg k) v m =
      if ltb k register_count_flt then some (record m { e = put m.e k v }) else none
  write_vec (a_reg k) v m = none
  write_vec (int_reg k) v m = none
  write_vec zero_const v m = none
  write_vec own_imm v m = none

  -- getScratchpadAddress, from the value of *ibc.isrc.
  abbrev pub scratchpad_address : InstructionByteCode → ℕ → ℕ
  scratchpad_address ibc src = bit_and (add64 src ibc.imm) ibc.mem_mask

  -- The word at the address of a memory operand.
  unfoldable pub load_operand : InstructionByteCode → Machine fp → Option ℕ
  unfolding read_int load64
  load_operand ibc m = do
    src ← read_int ibc ibc.src m
    load64 m.scratchpad (scratchpad_address ibc src)

  -- *ibc.idst = op(*ibc.idst, *ibc.isrc)
  unfoldable pub exe_int : (ℕ → ℕ → ℕ) → Exec
  unfolding read_int write_int
  exe_int op ibc next m = do
    d ← read_int ibc ibc.dst m
    s ← read_int ibc ibc.src m
    m' ← write_int ibc.dst (op d s) m
    some (m', next)

  -- *ibc.idst = op(*ibc.idst, load64(address))
  unfoldable pub exe_mem : (ℕ → ℕ → ℕ) → Exec
  unfolding read_int write_int load_operand
  exe_mem op ibc next m = do
    d ← read_int ibc ibc.dst m
    s ← load_operand ibc m
    m' ← write_int ibc.dst (op d s) m
    some (m', next)

  unfoldable pub exe_iadd_rs : Exec
  unfolding exe_int
  exe_iadd_rs ibc = exe_int (λ d s. add64 d (add64 (shl64 s ibc.shift) ibc.imm)) ibc

  unfoldable pub exe_iadd_m : Exec
  unfolding exe_mem
  exe_iadd_m = exe_mem add64

  unfoldable pub exe_isub_r : Exec
  unfolding exe_int
  exe_isub_r = exe_int sub64

  unfoldable pub exe_isub_m : Exec
  unfolding exe_mem
  exe_isub_m = exe_mem sub64

  unfoldable pub exe_imul_r : Exec
  unfolding exe_int
  exe_imul_r = exe_int mul64

  unfoldable pub exe_imul_m : Exec
  unfolding exe_mem
  exe_imul_m = exe_mem mul64

  unfoldable pub exe_imulh_r : Exec
  unfolding exe_int mulh
  exe_imulh_r = exe_int mulh

  unfoldable pub exe_imulh_m : Exec
  unfolding exe_mem mulh
  exe_imulh_m = exe_mem mulh

  unfoldable pub exe_ismulh_r : Exec
  unfolding exe_int smulh
  exe_ismulh_r = exe_int smulh

  unfoldable pub exe_ismulh_m : Exec
  unfolding exe_mem smulh
  exe_ismulh_m = exe_mem smulh

  unfoldable pub exe_ineg_r : Exec
  unfolding read_int write_int
  exe_ineg_r ibc next m = do
    d ← read_int ibc ibc.dst m
    m' ← write_int ibc.dst (add64 (not64 d) 1) m
    some (m', next)

  unfoldable pub exe_ixor_r : Exec
  unfolding exe_int
  exe_ixor_r = exe_int bit_xor

  unfoldable pub exe_ixor_m : Exec
  unfolding exe_mem
  exe_ixor_m = exe_mem bit_xor

  unfoldable pub exe_iror_r : Exec
  unfolding exe_int rotr
  exe_iror_r = exe_int (λ d s. rotr d (bit_and s 63))

  unfoldable pub exe_irol_r : Exec
  unfolding exe_int rotl
  exe_irol_r = exe_int (λ d s. rotl d (bit_and s 63))

  unfoldable pub exe_iswap_r : Exec
  unfolding read_int write_int
  exe_iswap_r ibc next m = do
    temp ← read_int ibc ibc.src m
    d ← read_int ibc ibc.dst m
    m' ← write_int ibc.src d m
    m'' ← write_int ibc.dst temp m'
    some (m'', next)

  -- *ibc.fdst = op(*ibc.fdst)
  unfoldable pub exe_vec : (Vec → Vec) → Exec
  unfolding read_vec write_vec
  exe_vec op ibc next m = do
    d ← read_vec ibc.dst m
    m' ← write_vec ibc.dst (op d) m
    some (m', next)

  -- *ibc.fdst = op(*ibc.fdst, *ibc.fsrc)
  unfoldable pub exe_vec2 : (Vec → Vec → Vec) → Exec
  unfolding read_vec write_vec
  exe_vec2 op ibc next m = do
    d ← read_vec ibc.dst m
    s ← read_vec ibc.src m
    m' ← write_vec ibc.dst (op d s) m
    some (m', next)

  -- *ibc.fdst = op(*ibc.fdst, the converted memory operand)
  unfoldable pub exe_vec_mem : (Vec → Vec → Vec) → Exec
  unfolding read_vec write_vec load_operand
  exe_vec_mem op ibc next m = do
    s ← load_operand ibc m
    d ← read_vec ibc.dst m
    m' ← write_vec ibc.dst (op d (fp.cvt_packed_int s)) m
    some (m', next)

  unfoldable pub exe_fswap_r : Exec
  unfolding exe_vec
  exe_fswap_r = exe_vec fp.swap

  unfoldable pub exe_fadd_r : Exec
  unfolding exe_vec2
  exe_fadd_r ibc next m = exe_vec2 (fp.add m.rounding) ibc next m

  unfoldable pub exe_fadd_m : Exec
  unfolding exe_vec_mem
  exe_fadd_m ibc next m = exe_vec_mem (fp.add m.rounding) ibc next m

  unfoldable pub exe_fsub_r : Exec
  unfolding exe_vec2
  exe_fsub_r ibc next m = exe_vec2 (fp.sub m.rounding) ibc next m

  unfoldable pub exe_fsub_m : Exec
  unfolding exe_vec_mem
  exe_fsub_m ibc next m = exe_vec_mem (fp.sub m.rounding) ibc next m

  unfoldable pub exe_fscal_r : Exec
  unfolding exe_vec
  exe_fscal_r = exe_vec (λ d. fp.xor d (fp.set 0x80f0_0000_0000_0000 0x80f0_0000_0000_0000))

  unfoldable pub exe_fmul_r : Exec
  unfolding exe_vec2
  exe_fmul_r ibc next m = exe_vec2 (fp.mul m.rounding) ibc next m

  -- Positive, with a mantissa and an exponent of the configuration's choice.
  unfoldable pub mask_register_exponent_mantissa : Machine fp → Vec → Vec
  mask_register_exponent_mantissa m x =
      fp.or (fp.and x (fp.set dynamic_mantissa_mask dynamic_mantissa_mask))
        (fp.set m.e_mask1 m.e_mask0)

  unfoldable pub exe_fdiv_m : Exec
  unfolding exe_vec_mem mask_register_exponent_mantissa
  exe_fdiv_m ibc next m =
      exe_vec_mem (λ d s. fp.div m.rounding d (mask_register_exponent_mantissa m s)) ibc next m

  unfoldable pub exe_fsqrt_r : Exec
  unfolding exe_vec
  exe_fsqrt_r ibc next m = exe_vec (fp.sqrt m.rounding) ibc next m

  -- The jump sets `pc`, and the loop then increments it.
  unfoldable pub exe_cbranch : Exec
  unfolding read_int write_int
  exe_cbranch ibc next m = do
    d ← read_int ibc ibc.dst m
    let d' = add64 d ibc.imm
    m' ← write_int ibc.dst d' m
    some (m', if bit_and d' ibc.mem_mask == 0 then after ibc.target else next)

  unfoldable pub exe_cfround : Exec
  unfolding read_int rotr
  exe_cfround ibc next m = do
    s ← read_int ibc ibc.src m
    let s' = rotr s ibc.imm
    let changes = not m.v2 || (bit_and s' 60 == 0)
    some (if changes then record m { rounding = s' % 4 } else m, next)

  unfoldable pub exe_istore : Exec
  unfolding read_int store64
  exe_istore ibc next m = do
    d ← read_int ibc ibc.dst m
    s ← read_int ibc ibc.src m
    mem ← store64 m.scratchpad (bit_and (add64 d ibc.imm) ibc.mem_mask) s
    some (record m { scratchpad = mem }, next)

  unfoldable pub exe_nop : Exec
  exe_nop ibc next m = some (m, next)

  -- IMUL_RCP runs as IMUL_R, and is never the type of a compiled instruction.
  unfoldable pub unreachable : Exec
  unreachable ibc next m = none

  unfoldable pub executor : InstructionType → Exec
  unfolding exe_iadd_rs exe_iadd_m exe_isub_r exe_isub_m exe_imul_r exe_imul_m exe_imulh_r
      exe_imulh_m exe_ismulh_r exe_ismulh_m exe_ineg_r exe_ixor_r exe_ixor_m exe_iror_r exe_irol_r
      exe_iswap_r exe_fswap_r exe_fadd_r exe_fadd_m exe_fsub_r exe_fsub_m exe_fscal_r exe_fmul_r
      exe_fdiv_m exe_fsqrt_r exe_cbranch exe_cfround exe_istore exe_nop unreachable
  executor iadd_rs = exe_iadd_rs
  executor iadd_m = exe_iadd_m
  executor isub_r = exe_isub_r
  executor isub_m = exe_isub_m
  executor imul_r = exe_imul_r
  executor imul_m = exe_imul_m
  executor imulh_r = exe_imulh_r
  executor imulh_m = exe_imulh_m
  executor ismulh_r = exe_ismulh_r
  executor ismulh_m = exe_ismulh_m
  executor imul_rcp = unreachable
  executor ineg_r = exe_ineg_r
  executor ixor_r = exe_ixor_r
  executor ixor_m = exe_ixor_m
  executor iror_r = exe_iror_r
  executor irol_r = exe_irol_r
  executor iswap_r = exe_iswap_r
  executor fswap_r = exe_fswap_r
  executor fadd_r = exe_fadd_r
  executor fadd_m = exe_fadd_m
  executor fsub_r = exe_fsub_r
  executor fsub_m = exe_fsub_m
  executor fscal_r = exe_fscal_r
  executor fmul_r = exe_fmul_r
  executor fdiv_m = exe_fdiv_m
  executor fsqrt_r = exe_fsqrt_r
  executor cbranch = exe_cbranch
  executor cfround = exe_cfround
  executor istore = exe_istore
  executor nop = exe_nop

  unfoldable pub execute_instruction : Exec
  unfolding executor
  execute_instruction ibc = executor ibc.type ibc
