-- ===== src/Dataset/Item.antt =====
-- `initDatasetItem` of src/algo/randomx/dataset.cpp.
pub mod Cached
use nminer.Prelude.{
  ℕ, zero, suc, ◌+◌, ◌-◌, ◌*◌, ◌/◌, ◌^◌, List, [], ◌∷◌, Option, none, some, ◌>>=◌, bit_and, bit_xor,
  get_or, leb, if◌then◌else◌, ◌==◌,
}
use nminer.Word.{mul64, add64}
use nminer.Vm.Config.{cache_size, cache_line_size}
use nminer.Vm.Machine.{put, read_bytes}
use nminer.Dataset.Superscalar.{execute_superscalar, register}
use nminer.Dataset.Cache.{SuperscalarProgram}

-- superscalarMul0 and superscalarAdd1 to superscalarAdd7.
abbrev superscalar_mul0 : ℕ
superscalar_mul0 = 6364136223846793005

abbrev superscalar_add : ℕ → ℕ
superscalar_add q =
    get_or
      (0 ∷ 9298411001130361340 ∷ 12065312585734608966 ∷ 9306329213124626780 ∷ 5281919268842080866
        ∷ 10536153434571861004 ∷ 3398623926847679864 ∷ 9549104520008361294 ∷ [])
      q 0

-- The offset of the block in the cache's memory.
unfoldable pub get_mix_block : ℕ → ℕ
get_mix_block register_value =
    bit_and register_value (cache_size / cache_line_size - 1) * cache_line_size

-- load64_native inside the cache's memory.
unfoldable pub load_cache : (ℕ → ℕ) → ℕ → Option ℕ
unfolding read_bytes
load_cache memory addr = if leb (addr + 8) cache_size then some (read_bytes 8 memory addr) else none

unfoldable pub start_registers : ℕ → ℕ → ℕ
start_registers item_number q =
    let first = mul64 (add64 item_number 1) superscalar_mul0 in
    if q == 0 then first else bit_xor first (superscalar_add q)

-- The loop over `q`, from the register `q` on, with `count` registers left.
unfoldable pub mix_registers : ℕ → (ℕ → ℕ) → ℕ → ℕ → (ℕ → ℕ) → Option (ℕ → ℕ)
unfolding load_cache
mix_registers zero memory block q r = some r
mix_registers (suc count) memory block q r = do
  word ← load_cache memory (block + 8 * q)
  mix_registers count memory block (q + 1) (put r q (bit_xor (r q) word))

-- The loop over the programs of the cache, with the register value that picks the next block.
unfoldable pub item_rounds :
    Option (List ℕ) → (ℕ → ℕ) → List SuperscalarProgram → ℕ → (ℕ → ℕ) → Option (ℕ → ℕ)
unfolding get_mix_block execute_superscalar mix_registers
item_rounds reciprocals memory [] register_value r = some r
item_rounds reciprocals memory (program ∷ rest) register_value r = do
  r' ← execute_superscalar reciprocals program.instructions r
  r'' ← mix_registers 8 memory (get_mix_block register_value) 0 r'
  next ← register r'' program.address_register
  item_rounds reciprocals memory rest next r''

-- The eight words of an item.
unfoldable pub init_dataset_item :
    Option (List ℕ) → (ℕ → ℕ) → List SuperscalarProgram → ℕ → Option (ℕ → ℕ)
unfolding item_rounds start_registers
init_dataset_item reciprocals memory programs item_number =
    item_rounds reciprocals memory programs item_number (start_registers item_number)
