-- ===== src/Dataset/Program/Tables.antt =====
-- The tables of src/algo/randomx/superscalar.cpp: the macro-ops, what the instructions are made of, the
-- decode_round buffers and the instructions for each slot.
use nminer.Prelude.{ℕ, List, [], ◌∷◌, true, false, Option, none, some, length}
use nminer.Dataset.Superscalar.{
  SuperscalarInstructionType, isub_r, ixor_r, iadd_rs, imul_r, iror_c, iadd_c7, ixor_c7, iadd_c8,
  ixor_c8, iadd_c9, ixor_c9, imulh_r, ismulh_r, imul_rcp,
}
use nminer.Dataset.Schedule.{MacroOp}

-- The value of an enumerator, which is an opcode too.
unfoldable pub superscalar_value : SuperscalarInstructionType → ℕ
superscalar_value isub_r = 0
superscalar_value ixor_r = 1
superscalar_value iadd_rs = 2
superscalar_value imul_r = 3
superscalar_value iror_c = 4
superscalar_value iadd_c7 = 5
superscalar_value ixor_c7 = 6
superscalar_value iadd_c8 = 7
superscalar_value ixor_c8 = 8
superscalar_value iadd_c9 = 9
superscalar_value ixor_c9 = 10
superscalar_value imulh_r = 11
superscalar_value ismulh_r = 12
superscalar_value imul_rcp = 13

-- isMultiplication, with 1 for true, as it is counted.
unfoldable pub is_multiplication : SuperscalarInstructionType → ℕ
is_multiplication imul_r = 1
is_multiplication imulh_r = 1
is_multiplication ismulh_r = 1
is_multiplication imul_rcp = 1
is_multiplication _ = 0

-- The ports of a uOP: P0 is 1, P1 is 2 and P5 is 4.
abbrev port1 : ℕ
port1 = 2

abbrev port5 : ℕ
port5 = 4

abbrev port01 : ℕ
port01 = 3

abbrev port05 : ℕ
port05 = 5

abbrev port015 : ℕ
port015 = 7

abbrev macro_op : ℕ → ℕ → ℕ → ℕ → MacroOp
macro_op size latency uop1 uop2 = record {
  size = size;
  latency = latency;
  uop1 = uop1;
  uop2 = uop2;
  dependent = false;
}

abbrev sub_rr : MacroOp
sub_rr = macro_op 3 1 port015 0

abbrev xor_rr : MacroOp
xor_rr = macro_op 3 1 port015 0

abbrev imul_one : MacroOp
imul_one = macro_op 3 4 port1 port5

abbrev mul_one : MacroOp
mul_one = macro_op 3 4 port1 port5

abbrev mov_rr : MacroOp
mov_rr = macro_op 3 0 0 0

abbrev lea_sib : MacroOp
lea_sib = macro_op 4 1 port01 0

abbrev imul_rr : MacroOp
imul_rr = macro_op 4 3 port1 0

abbrev ror_ri : MacroOp
ror_ri = macro_op 4 1 port05 0

abbrev add_ri : MacroOp
add_ri = macro_op 7 1 port015 0

abbrev xor_ri : MacroOp
xor_ri = macro_op 7 1 port015 0

abbrev mov_ri64 : MacroOp
mov_ri64 = macro_op 10 1 port015 0

-- The operations that an instruction is made of.
unfoldable pub ops_of : SuperscalarInstructionType → List MacroOp
ops_of isub_r = sub_rr ∷ []
ops_of ixor_r = xor_rr ∷ []
ops_of iadd_rs = lea_sib ∷ []
ops_of imul_r = imul_rr ∷ []
ops_of iror_c = ror_ri ∷ []
ops_of iadd_c7 = add_ri ∷ []
ops_of ixor_c7 = xor_ri ∷ []
ops_of iadd_c8 = add_ri ∷ []
ops_of ixor_c8 = xor_ri ∷ []
ops_of iadd_c9 = add_ri ∷ []
ops_of ixor_c9 = xor_ri ∷ []
ops_of imulh_r = mov_rr ∷ mul_one ∷ mov_rr ∷ []
ops_of ismulh_r = mov_rr ∷ imul_one ∷ mov_rr ∷ []
ops_of imul_rcp = mov_ri64 ∷ record imul_rr { dependent = true } ∷ []

-- Which of them writes the result, and which need the destination and the source; `none` is -1.
unfoldable pub result_op : SuperscalarInstructionType → ℕ
result_op imulh_r = 1
result_op ismulh_r = 1
result_op imul_rcp = 1
result_op _ = 0

unfoldable pub dst_op : SuperscalarInstructionType → ℕ
dst_op imul_rcp = 1
dst_op _ = 0

unfoldable pub src_op : SuperscalarInstructionType → Option ℕ
src_op isub_r = some 0
src_op ixor_r = some 0
src_op iadd_rs = some 0
src_op imul_r = some 0
src_op imulh_r = some 1
src_op ismulh_r = some 1
src_op _ = none

-- The instruction of NOP's info is `none`: it has no operations.
unfoldable pub size_of : Option SuperscalarInstructionType → ℕ
unfolding ops_of
size_of none = 0
size_of (some type) = length (ops_of type)

pub record DecoderBuffer : Type 0 where
  pub index : ℕ
  pub counts : List ℕ

abbrev pub decode_buffer_484 : DecoderBuffer
decode_buffer_484 = record { index = 0; counts = 4 ∷ 8 ∷ 4 ∷ [] }

abbrev pub decode_buffer_7333 : DecoderBuffer
decode_buffer_7333 = record { index = 1; counts = 7 ∷ 3 ∷ 3 ∷ 3 ∷ [] }

abbrev pub decode_buffer_3733 : DecoderBuffer
decode_buffer_3733 = record { index = 2; counts = 3 ∷ 7 ∷ 3 ∷ 3 ∷ [] }

abbrev pub decode_buffer_493 : DecoderBuffer
decode_buffer_493 = record { index = 3; counts = 4 ∷ 9 ∷ 3 ∷ [] }

abbrev pub decode_buffer_4444 : DecoderBuffer
decode_buffer_4444 = record { index = 4; counts = 4 ∷ 4 ∷ 4 ∷ 4 ∷ [] }

abbrev pub decode_buffer_3310 : DecoderBuffer
decode_buffer_3310 = record { index = 5; counts = 3 ∷ 3 ∷ 10 ∷ [] }

abbrev pub decode_buffers : List DecoderBuffer
decode_buffers =
    decode_buffer_484 ∷ decode_buffer_7333 ∷ decode_buffer_3733 ∷ decode_buffer_493 ∷ []

abbrev pub slot_3 : List SuperscalarInstructionType
slot_3 = isub_r ∷ ixor_r ∷ []

abbrev pub slot_3l : List SuperscalarInstructionType
slot_3l = isub_r ∷ ixor_r ∷ imulh_r ∷ ismulh_r ∷ []

abbrev pub slot_4 : List SuperscalarInstructionType
slot_4 = iror_c ∷ iadd_rs ∷ []

abbrev pub slot_7 : List SuperscalarInstructionType
slot_7 = ixor_c7 ∷ iadd_c7 ∷ []

abbrev pub slot_8 : List SuperscalarInstructionType
slot_8 = ixor_c8 ∷ iadd_c8 ∷ []

abbrev pub slot_9 : List SuperscalarInstructionType
slot_9 = ixor_c9 ∷ iadd_c9 ∷ []
