-- ===== src/Dataset/Superscalar.antt =====
-- `executeSuperscalar` of src/algo/randomx/superscalar.cpp. `none` is undefined behaviour: a register
-- beyond the eighth, a reciprocal beyond the cached ones, or `UNREACHABLE`.
use nminer.Prelude.{
  ℕ, List, [], ◌∷◌, Bool, true, false, Option, none, some, ◌>>=◌, bit_xor, ltb, get_elem?,
  if◌then◌else◌,
}
use nminer.Word.{add64, sub64, mul64, shl64, rotr, mulh, smulh, sign_extend}
use nminer.Vm.Instruction.{Instruction, get_mod_shift}
use nminer.Vm.Config.{registers_count}
use nminer.Vm.Machine.{put}
use nminer.Vm.Reciprocal.{reciprocal}

pub data SuperscalarInstructionType : Type 0 where
  isub_r ixor_r iadd_rs imul_r iror_c iadd_c7 ixor_c7 iadd_c8 ixor_c8 iadd_c9 ixor_c9 :
      SuperscalarInstructionType
  imulh_r ismulh_r imul_rcp : SuperscalarInstructionType

abbrev superscalar_types : List SuperscalarInstructionType
superscalar_types =
    isub_r ∷ ixor_r ∷ iadd_rs ∷ imul_r ∷ iror_c ∷ iadd_c7 ∷ ixor_c7 ∷ iadd_c8 ∷ ixor_c8 ∷ iadd_c9
    ∷ ixor_c9 ∷ imulh_r ∷ ismulh_r ∷ imul_rcp ∷ []

-- The cast of an opcode.
unfoldable pub superscalar_type : ℕ → Option SuperscalarInstructionType
superscalar_type opcode = get_elem? superscalar_types opcode

-- (SuperscalarInstructionType)instr.opcode == SuperscalarInstructionType::IMUL_RCP
unfoldable pub is_rcp : Option SuperscalarInstructionType → Bool
is_rcp (some imul_rcp) = true
is_rcp _ = false

-- What an IMUL_RCP multiplies by: a cached reciprocal, or its own.
unfoldable pub factor : Option (List ℕ) → ℕ → Option ℕ
unfolding reciprocal
factor none imm32 = some (reciprocal imm32)
factor (some reciprocals) imm32 = get_elem? reciprocals imm32

-- The new value of the destination.
unfoldable pub superscalar_result :
    Option (List ℕ) → Instruction → ℕ → ℕ → SuperscalarInstructionType → Option ℕ
unfolding factor get_mod_shift sign_extend rotr mulh smulh
superscalar_result reciprocals instr d s isub_r = some (sub64 d s)
superscalar_result reciprocals instr d s ixor_r = some (bit_xor d s)
superscalar_result reciprocals instr d s iadd_rs = some (add64 d (shl64 s (get_mod_shift instr)))
superscalar_result reciprocals instr d s imul_r = some (mul64 d s)
superscalar_result reciprocals instr d s iror_c = some (rotr d instr.imm32)
superscalar_result reciprocals instr d s iadd_c7 = some (add64 d (sign_extend instr.imm32))
superscalar_result reciprocals instr d s iadd_c8 = some (add64 d (sign_extend instr.imm32))
superscalar_result reciprocals instr d s iadd_c9 = some (add64 d (sign_extend instr.imm32))
superscalar_result reciprocals instr d s ixor_c7 = some (bit_xor d (sign_extend instr.imm32))
superscalar_result reciprocals instr d s ixor_c8 = some (bit_xor d (sign_extend instr.imm32))
superscalar_result reciprocals instr d s ixor_c9 = some (bit_xor d (sign_extend instr.imm32))
superscalar_result reciprocals instr d s imulh_r = some (mulh d s)
superscalar_result reciprocals instr d s ismulh_r = some (smulh d s)
superscalar_result reciprocals instr d s imul_rcp = do
  rcp ← factor reciprocals instr.imm32
  some (mul64 d rcp)

abbrev pub register : (ℕ → ℕ) → ℕ → Option ℕ
register r k = if ltb k registers_count then some (r k) else none

unfoldable pub superscalar_step : Option (List ℕ) → Instruction → (ℕ → ℕ) → Option (ℕ → ℕ)
unfolding superscalar_type superscalar_result
superscalar_step reciprocals instr r = do
  type ← superscalar_type instr.opcode
  d ← register r instr.dst
  s ← register r instr.src
  result ← superscalar_result reciprocals instr d s type
  some (put r instr.dst result)

-- The loop over the program; `none` for `reciprocals` is the null pointer.
unfoldable pub execute_superscalar : Option (List ℕ) → List Instruction → (ℕ → ℕ) → Option (ℕ → ℕ)
unfolding superscalar_step
execute_superscalar reciprocals [] r = some r
execute_superscalar reciprocals (instr ∷ rest) r = do
  r' ← superscalar_step reciprocals instr r
  execute_superscalar reciprocals rest r'
