-- ===== src/Vm/Initial/Bounds.antt =====
-- The addresses that `initialize` prepares, against the dataset's size, and the registers it picks.
use nminer.Prelude.{ℕ, ◌+◌, ◌*◌, ◌/◌, ◌%◌, ◌^◌, ◌≤◌, ◌<◌, bit_and, arith, ◌≡◌, ◌∙◌}
use nminer.Word.Bits.{bit_and-le, bit_and-ones, bit_or-fields}
use nminer.Vm.Config.{
  dataset_size, cache_line_size, cache_line_align_mask, registers_count, exponent_mask,
}
use nminer.Vm.Initial.{initialize, read_pointer, get_small_positive_float_bits}

-- Wherever the memory register points and whatever the program's entropy, the line of 64 bytes that an
-- iteration reads lies inside the dataset, and the four registers that it mixes are different integer registers.
pub read_pointer-bounds :
    (entropy : ℕ → ℕ) (ma : ℕ)
    → let start = initialize entropy in
      (read_pointer start.dataset_offset ma + cache_line_size ≤ dataset_size)
      × (start.read_reg0 < start.read_reg1)
      × (start.read_reg1 < start.read_reg2)
      × (start.read_reg2 < start.read_reg3)
      × (start.read_reg3 < registers_count)
unfolding initialize read_pointer
read_pointer-bounds entropy ma =
    let line = bit_and-le ma cache_line_align_mask in
    let r = entropy 12 in
    (
      omega (arith, line),
      omega (arith, bit_and-le r 1, bit_and-le (r / 2) 1),
      omega (arith, bit_and-le (r / 2) 1, bit_and-le (r / 2 / 2) 1),
      omega (arith, bit_and-le (r / 2 / 2) 1, bit_and-le (r / 2 / 2 / 2) 1),
      omega (arith, bit_and-le (r / 2 / 2 / 2) 1),
    )

-- The bits of a register a, from any word of entropy: the sign is clear, the exponent field is the bias
-- 1023 and the word's five high bits, and the mantissa is the word's: a double from 1 up to 2 ^ 32.
pub small_positive_lem :
    (entropy : ℕ)
    → entropy < 2 ^ 64
    → get_small_positive_float_bits entropy ≡ (1023 + entropy / 2 ^ 59) * 2 ^ 52 + entropy % 2 ^ 52
unfolding get_small_positive_float_bits
small_positive_lem entropy h =
    let x : ℕ = (entropy / 2 ^ 59 + 1023) % 2 ^ 64 in
    let field : bit_and x exponent_mask ≡ 1023 + entropy / 2 ^ 59 =
      bit_and-ones 11 x ∙ omega arith in
    let placed : (1023 + entropy / 2 ^ 59) * 2 ^ 52 % 2 ^ 64 ≡ (1023 + entropy / 2 ^ 59) * 2 ^ 52 =
      omega arith in
    rw (field, placed, bit_and-ones 52 entropy)
      (bit_or-fields 52 (1023 + entropy / 2 ^ 59) (entropy % 2 ^ 52) (omega arith))
