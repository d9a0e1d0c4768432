-- ===== src/Vm/Config.antt =====
-- The constants of src/algo/randomx/configuration.h and the ones that common.hpp derives from them.
use nminer.Prelude.{ℕ, ◌+◌, ◌-◌, ◌*◌, ◌/◌, ◌^◌, Bool, ◌==◌, bit_and}
use nminer.Word.{sub64}

abbrev pub argon_memory : ℕ
argon_memory = 262144

abbrev pub cache_accesses : ℕ
cache_accesses = 8

abbrev pub superscalar_latency : ℕ
superscalar_latency = 170

abbrev pub dataset_base_size : ℕ
dataset_base_size = 2147483648

abbrev pub dataset_extra_size : ℕ
dataset_extra_size = 33554368

abbrev pub program_size_v1 : ℕ
program_size_v1 = 256

abbrev pub program_size_v2 : ℕ
program_size_v2 = 384

abbrev pub program_iterations : ℕ
program_iterations = 2048

abbrev pub program_count : ℕ
program_count = 8

abbrev pub scratchpad_l3_size : ℕ
scratchpad_l3_size = 2097152

abbrev pub scratchpad_l2_size : ℕ
scratchpad_l2_size = 262144

abbrev pub scratchpad_l1_size : ℕ
scratchpad_l1_size = 16384

abbrev pub jump_bits : ℕ
jump_bits = 8

abbrev pub jump_offset : ℕ
jump_offset = 8

-- common.hpp

abbrev pub argon_block_size : ℕ
argon_block_size = 1024

abbrev pub superscalar_max_size : ℕ
superscalar_max_size = 3 * superscalar_latency + 2

abbrev pub cache_line_size : ℕ
cache_line_size = 64

-- (RANDOMX_DATASET_BASE_SIZE - 1) & ~(CacheLineSize - 1), in 64 bits
abbrev pub cache_line_align_mask : ℕ
cache_line_align_mask = bit_and (dataset_base_size - 1) (2 ^ 64 - 1 - (cache_line_size - 1))

abbrev pub cache_size : ℕ
cache_size = argon_memory * argon_block_size

abbrev pub dataset_size : ℕ
dataset_size = dataset_base_size + dataset_extra_size

abbrev pub dataset_extra_items : ℕ
dataset_extra_items = dataset_extra_size / cache_line_size

abbrev pub condition_mask : ℕ
condition_mask = 2 ^ jump_bits - 1

abbrev pub condition_offset : ℕ
condition_offset = jump_offset

abbrev pub store_l3_condition : ℕ
store_l3_condition = 14

abbrev pub scratchpad_l1_mask : ℕ
scratchpad_l1_mask = (scratchpad_l1_size / 8 - 1) * 8

abbrev pub scratchpad_l2_mask : ℕ
scratchpad_l2_mask = (scratchpad_l2_size / 8 - 1) * 8

abbrev pub scratchpad_l3_mask : ℕ
scratchpad_l3_mask = (scratchpad_l3_size / 8 - 1) * 8

abbrev pub scratchpad_l3_mask64 : ℕ
scratchpad_l3_mask64 = (scratchpad_l3_size / 8 / 8 - 1) * 64

abbrev pub registers_count : ℕ
registers_count = 8

abbrev pub register_count_flt : ℕ
register_count_flt = 4

abbrev pub register_needs_displacement : ℕ
register_needs_displacement = 5

unfoldable pub is_zero_or_power_of_2 : ℕ → Bool
is_zero_or_power_of_2 x = bit_and x (sub64 x 1) == 0

abbrev pub mantissa_size : ℕ
mantissa_size = 52

abbrev pub mantissa_mask : ℕ
mantissa_mask = 2 ^ mantissa_size - 1

abbrev pub exponent_mask : ℕ
exponent_mask = 2 ^ 11 - 1

abbrev pub exponent_bias : ℕ
exponent_bias = 1023

abbrev pub const_exponent_bits : ℕ
const_exponent_bits = 0x300

abbrev pub dynamic_mantissa_mask : ℕ
dynamic_mantissa_mask = 2 ^ (mantissa_size + 4) - 1
