-- ===== src/Vm/Initial.antt =====
-- `randomx_vm::initialize` of src/algo/randomx/virtual_machine.cpp: what a program's entropy makes of
-- the registers, the addresses and the configuration. And the address that the machine of
-- vm_interpreted.cpp reads from the dataset.
pub mod Bounds
use nminer.Prelude.{ℕ, ◌+◌, ◌-◌, ◌*◌, ◌/◌, ◌%◌, ◌^◌, List, [], ◌∷◌, bit_and, bit_or}
use nminer.Word.{add64, shl64}
use nminer.Vm.Config.{
  cache_line_size, cache_line_align_mask, dataset_extra_items, mantissa_size, mantissa_mask,
  exponent_mask, exponent_bias, const_exponent_bits,
}

unfoldable pub get_small_positive_float_bits : ℕ → ℕ
get_small_positive_float_bits entropy =
    let exponent = entropy / 2 ^ 59 in
    let mantissa = bit_and entropy mantissa_mask in
    bit_or (shl64 (bit_and (add64 exponent exponent_bias) exponent_mask) mantissa_size) mantissa

-- constExponentBits | (entropy >> 60) << dynamicExponentBits, shifted to the exponent field.
unfoldable pub get_static_exponent : ℕ → ℕ
get_static_exponent entropy =
    shl64 (bit_or const_exponent_bits (shl64 (entropy / 2 ^ (64 - 4)) 4)) mantissa_size

unfoldable pub get_float_mask : ℕ → ℕ
unfolding get_static_exponent
get_float_mask entropy = bit_or (bit_and entropy (2 ^ 22 - 1)) (get_static_exponent entropy)

-- What `initialize` writes: the low and high halves of the registers a, the memory registers, the
-- offset into the dataset and the configuration.
pub record Initial : Type 0 where
  pub a_lo : ℕ → ℕ
  pub a_hi : ℕ → ℕ
  pub ma : ℕ
  pub mx : ℕ
  pub read_reg0 : ℕ
  pub read_reg1 : ℕ
  pub read_reg2 : ℕ
  pub read_reg3 : ℕ
  pub dataset_offset : ℕ
  pub e_mask0 : ℕ
  pub e_mask1 : ℕ

-- `program.getEntropy` is an argument; `addr_t` is uint32_t.
unfoldable pub initialize : (ℕ → ℕ) → Initial
unfolding get_small_positive_float_bits get_float_mask
initialize entropy =
    let address_registers = entropy 12 in
    record {
      a_lo = λ i. get_small_positive_float_bits (entropy (2 * i));
      a_hi = λ i. get_small_positive_float_bits (entropy (2 * i + 1));
      ma = bit_and (entropy 8) cache_line_align_mask % 2 ^ 32;
      mx = entropy 10 % 2 ^ 32;
      read_reg0 = 0 + bit_and address_registers 1;
      read_reg1 = 2 + bit_and (address_registers / 2) 1;
      read_reg2 = 4 + bit_and (address_registers / 2 / 2) 1;
      read_reg3 = 6 + bit_and (address_registers / 2 / 2 / 2) 1;
      dataset_offset = entropy 13 % (dataset_extra_items + 1) * cache_line_size;
      e_mask0 = get_float_mask (entropy 14);
      e_mask1 = get_float_mask (entropy 15);
    }

-- const uint64_t readPtr = datasetOffset + (mem.ma & CacheLineAlignMask)
unfoldable pub read_pointer : ℕ → ℕ → ℕ
read_pointer dataset_offset ma = add64 dataset_offset (bit_and ma cache_line_align_mask)
