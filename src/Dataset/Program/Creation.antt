-- ===== src/Dataset/Program/Creation.antt =====
-- `SuperscalarInstruction` of src/algo/randomx/superscalar.cpp: how an instruction is chosen for a slot and gets its
-- registers. `none` is undefined behaviour, or a loop that draws again until it gets a value that it
-- accepts and has not got one in `tries` draws. An `int` that is compared with a `uint32_t` is its
-- 32-bit pattern.
pub mod Valid
pub mod Registers
use nminer.Prelude.{
  ℕ, zero, suc, ◌+◌, ◌-◌, ◌%◌, ◌^◌, List, [], ◌∷◌, Bool, true, false, not, ◌&&◌, ◌||◌, Option, none,
  some, ◌>>=◌, ltb, leb, ◌==◌, if◌then◌else◌, length, get_elem?,
}
use nminer.Vm.Config.{register_needs_displacement, is_zero_or_power_of_2}
use nminer.Vm.Instruction.{Instruction}
use nminer.Dataset.Superscalar.{
  SuperscalarInstructionType, isub_r, ixor_r, iadd_rs, imul_r, iror_c, iadd_c7, ixor_c7, iadd_c8,
  ixor_c8, iadd_c9, ixor_c9, imulh_r, ismulh_r, imul_rcp,
}
use nminer.Dataset.Generator.{Generator, get_byte, get_uint32, get}
use nminer.Dataset.Program.Tables.{
  superscalar_value, slot_3, slot_3l, slot_4, slot_7, slot_8, slot_9,
}

abbrev pub minus_one : ℕ
minus_one = 2 ^ 32 - 1

-- SuperscalarInstructionType::INVALID is -1.
unfoldable pub group_value : Option SuperscalarInstructionType → ℕ
unfolding superscalar_value
group_value none = minus_one
group_value (some type) = superscalar_value type

pub record RegisterInfo : Type 0 where
  pub latency : ℕ
  pub last_op_group : Option SuperscalarInstructionType
  pub last_op_par : ℕ

-- An instruction whose info is NOP's has no type; a register of -1 is none.
pub record SuperscalarInstruction : Type 0 where
  pub type : Option SuperscalarInstructionType
  pub src : Option ℕ
  pub dst : Option ℕ
  pub mod_byte : ℕ
  pub imm32 : ℕ
  pub op_group : Option SuperscalarInstructionType
  pub op_group_par : ℕ
  pub can_reuse : Bool
  pub group_par_is_source : Bool

-- SuperscalarInstruction::Null; the fields that its constructor leaves open are zeros.
abbrev pub null_instruction : SuperscalarInstruction
null_instruction = record {
  type = none;
  src = none;
  dst = none;
  mod_byte = 0;
  imm32 = 0;
  op_group = none;
  op_group_par = 0;
  can_reuse = false;
  group_par_is_source = false;
}

-- toInstr
unfoldable pub to_instr : SuperscalarInstruction → Option Instruction
unfolding group_value
to_instr c = do
  dst ← c.dst
  some (record {
    opcode = group_value c.type;
    dst = dst;
    src = elim c.src [ none ↦ dst | some src ↦ src ];
    mod_byte = c.mod_byte;
    imm32 = c.imm32;
  })

-- The registers from `i` on, `count` of them, that pass a test.
unfoldable pub available : ℕ → ℕ → (ℕ → Bool) → List ℕ
available zero i test = []
available (suc count) i test =
    let rest = available count (i + 1) test in if test i then i ∷ rest else rest

-- The tests of selectSource and selectDestination on a register.
abbrev pub source_fits : ℕ → (ℕ → RegisterInfo) → ℕ → Bool
source_fits cycle registers i = leb (registers i).latency cycle

abbrev pub same_register : ℕ → Option ℕ → Bool
same_register i none = false
same_register i (some src) = i == src

abbrev pub is_mul : Option SuperscalarInstructionType → Bool
is_mul group = group_value group == 3

abbrev pub is_lea : Option SuperscalarInstructionType → Bool
is_lea type = group_value type == 2

abbrev pub destination_fits : SuperscalarInstruction → ℕ → Bool → (ℕ → RegisterInfo) → ℕ → Bool
destination_fits c cycle allow_chained_mul registers i =
    leb (registers i).latency cycle
    && ((c.can_reuse || not (same_register i c.src))
        && ((allow_chained_mul
              || (not (is_mul c.op_group) || not (is_mul (registers i).last_op_group)))
            && ((not (group_value (registers i).last_op_group == group_value c.op_group)
                  || not ((registers i).last_op_par == c.op_group_par))
                && (not (is_lea c.type) || not (i == register_needs_displacement)))))

-- `availableRegisters.size() == 2`, and one of them is r5.
unfoldable pub pair_with_r5 : List ℕ → Bool
pair_with_r5 (a ∷ b ∷ []) = a == register_needs_displacement || b == register_needs_displacement
pair_with_r5 _ = false

-- The info and reset().
abbrev pub reset : SuperscalarInstructionType → SuperscalarInstruction → SuperscalarInstruction
reset type c = record c {
  type = some type;
  src = none;
  dst = none;
  can_reuse = false;
  group_par_is_source = false;
}

-- The fields of the arms of `create`: no immediate value, a constant, and a full product.
abbrev pub from_source :
    SuperscalarInstructionType → SuperscalarInstruction → ℕ → SuperscalarInstruction
from_source group c mod_byte = record c {
  mod_byte = mod_byte;
  imm32 = 0;
  op_group = some group;
  group_par_is_source = true;
}

abbrev pub from_constant :
    SuperscalarInstructionType → SuperscalarInstruction → ℕ → SuperscalarInstruction
from_constant group c imm32 = record c {
  mod_byte = 0;
  imm32 = imm32;
  op_group = some group;
  op_group_par = minus_one;
}

abbrev pub from_product :
    SuperscalarInstructionType → SuperscalarInstruction → ℕ → SuperscalarInstruction
from_product group c par = record c {
  can_reuse = true;
  mod_byte = 0;
  imm32 = 0;
  op_group = some group;
  op_group_par = par;
}

abbrev pub with_source : SuperscalarInstruction → ℕ → SuperscalarInstruction
with_source c reg = record c {
  src = some reg;
  op_group_par = if c.group_par_is_source then reg else c.op_group_par;
}

module _ (blake2b : List ℕ → List ℕ) where
  -- do imm32 = getByte() & 63 while it is zero
  unfoldable pub draw_rotation : ℕ → Generator → Option (ℕ × Generator)
  unfolding get
  draw_rotation zero g = none
  draw_rotation (suc n) g = do
    (byte, g') ← get blake2b get_byte g
    let again = draw_rotation n g'
    if byte % 64 == 0 then again else some (byte % 64, g')

  -- do imm32 = getUInt32() while it is zero or a power of two
  unfoldable pub draw_divisor : ℕ → Generator → Option (ℕ × Generator)
  unfolding get is_zero_or_power_of_2
  draw_divisor zero g = none
  draw_divisor (suc n) g = do
    (word, g') ← get blake2b get_uint32 g
    let again = draw_divisor n g'
    if is_zero_or_power_of_2 word then again else some (word, g')

  abbrev with_constant :
      SuperscalarInstructionType
      → SuperscalarInstruction
      → Generator
      → Option (SuperscalarInstruction × Generator)
  with_constant group c g = do
    (word, g') ← get blake2b get_uint32 g
    some (from_constant group c word, g')

  abbrev with_product :
      SuperscalarInstructionType
      → SuperscalarInstruction
      → Generator
      → Option (SuperscalarInstruction × Generator)
  with_product group c g = do
    (word, g') ← get blake2b get_uint32 g
    some (from_product group c word, g')

  -- An instruction of a slot's list, by a byte; the lists have two or four.
  unfoldable pub choose :
      List SuperscalarInstructionType → Generator → Option (SuperscalarInstructionType × Generator)
  unfolding get
  choose types g = do
    (byte, g') ← get blake2b get_byte g
    type ← get_elem? types (byte % length types)
    some (type, g')

  -- The switch of createForSlot.
  unfoldable pub type_for_slot :
      ℕ → ℕ → Bool → Generator → Option (SuperscalarInstructionType × Generator)
  unfolding choose
  type_for_slot slot_size fetch_type is_last g =
      if slot_size == 3
      then choose (if is_last then slot_3l else slot_3) g
      else if slot_size == 4
      then (if (fetch_type == 4) && not is_last then some (imul_r, g) else choose slot_4 g)
      else if slot_size == 7
      then choose slot_7 g
      else if slot_size == 8
      then choose slot_8 g
      else if slot_size == 9
      then choose slot_9 g
      else if slot_size == 10
      then some (imul_rcp, g)
      else none

  -- selectRegister: `some none` is false.
  unfoldable pub select_register : List ℕ → Generator → Option (Option (ℕ × Generator))
  unfolding get
  select_register [] g = some none
  select_register (x ∷ []) g = some (some (x, g))
  select_register (x ∷ y ∷ rest) g = do
    (word, g') ← get blake2b get_uint32 g
    reg ← get_elem? (x ∷ y ∷ rest) (word % length (x ∷ y ∷ rest))
    some (some (reg, g'))

  unfoldable pub select_source :
      ℕ
      → (ℕ → RegisterInfo)
      → SuperscalarInstruction
      → Generator
      → Option (Option (SuperscalarInstruction × Generator))
  unfolding group_value
  select_source cycle registers c g =
      let registers_ready = available 8 0 (source_fits cycle registers) in
      if is_lea c.type && pair_with_r5 registers_ready
      then some (
          some (
            record c {
              src = some register_needs_displacement;
              op_group_par = register_needs_displacement;
            },
            g,
          ))
      else do
        found ← select_register registers_ready g
        some (elim found [ none ↦ none | some (reg, g') ↦ some (with_source c reg, g') ])

  unfoldable pub select_destination :
      ℕ
      → Bool
      → (ℕ → RegisterInfo)
      → SuperscalarInstruction
      → Generator
      → Option (Option (SuperscalarInstruction × Generator))
  unfolding group_value
  select_destination cycle allow_chained_mul registers c g = do
    found ← select_register (available 8 0 (destination_fits c cycle allow_chained_mul registers)) g
    some (elim found [ none ↦ none | some (reg, g') ↦ some (record c { dst = some reg }, g') ])

module _ (blake2b : List ℕ → List ℕ) (tries : ℕ) where
  -- The switch of `create`, after reset().
  unfoldable pub fill_in :
      SuperscalarInstructionType
      → SuperscalarInstruction
      → Generator
      → Option (SuperscalarInstruction × Generator)
  unfolding get draw_rotation draw_divisor
  fill_in isub_r c g = some (from_source iadd_rs c 0, g)
  fill_in ixor_r c g = some (from_source ixor_r c 0, g)
  fill_in iadd_rs c g = do
    (byte, g') ← get blake2b get_byte g
    some (from_source iadd_rs c byte, g')
  fill_in imul_r c g = some (from_source imul_r c 0, g)
  fill_in iror_c c g = do
    (bits, g') ← draw_rotation blake2b tries g
    some (from_constant iror_c c bits, g')
  fill_in iadd_c7 c g = with_constant blake2b iadd_c7 c g
  fill_in iadd_c8 c g = with_constant blake2b iadd_c7 c g
  fill_in iadd_c9 c g = with_constant blake2b iadd_c7 c g
  fill_in ixor_c7 c g = with_constant blake2b ixor_c7 c g
  fill_in ixor_c8 c g = with_constant blake2b ixor_c7 c g
  fill_in ixor_c9 c g = with_constant blake2b ixor_c7 c g
  fill_in imulh_r c g = with_product blake2b imulh_r c g
  fill_in ismulh_r c g = with_product blake2b ismulh_r c g
  fill_in imul_rcp c g = do
    (divisor, g') ← draw_divisor blake2b tries g
    some (from_constant imul_rcp c divisor, g')

  unfoldable pub create :
      SuperscalarInstructionType
      → SuperscalarInstruction
      → Generator
      → Option (SuperscalarInstruction × Generator)
  unfolding fill_in
  create type c g = fill_in type (reset type c) g

  unfoldable pub create_for_slot :
      ℕ
      → ℕ
      → Bool
      → SuperscalarInstruction
      → Generator
      → Option (SuperscalarInstruction × Generator)
  unfolding type_for_slot create
  create_for_slot slot_size fetch_type is_last c g = do
    (type, g') ← type_for_slot blake2b slot_size fetch_type is_last g
    create type c g'
