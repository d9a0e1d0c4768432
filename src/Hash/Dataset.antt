-- ===== src/Hash/Dataset.antt =====
-- `datasetRead` of src/algo/randomx/vm_interpreted.cpp, from a dataset in memory, and of
-- vm_interpreted_light.cpp, from the cache.
pub mod Modes
use nminer.Prelude.{
  ℕ, ◌+◌, ◌*◌, ◌/◌, ◌%◌, ◌^◌, List, Option, none, some, ◌>>=◌, leb, if◌then◌else◌, bit_xor,
  count_up,
}
use nminer.Vm.Config.{cache_line_size, dataset_size, registers_count}
use nminer.Vm.Machine.{put, read_bytes}
use nminer.Dataset.Cache.{SuperscalarProgram}
use nminer.Dataset.Item.{init_dataset_item}

-- r[i] ^= line[i]
unfoldable pub mix_line : (ℕ → ℕ) → (ℕ → ℕ) → ℕ → ℕ
unfolding count_up
mix_line line r = count_up registers_count 0 (λ i r. put r i (bit_xor (r i) (line i))) r

-- The words of a line of memory.
abbrev pub line_at : (ℕ → ℕ) → ℕ → ℕ → ℕ
unfolding read_bytes
line_at memory address i = read_bytes 8 memory (address + 8 * i)

-- Of `InterpretedVm`; `none` is a read outside of the dataset.
unfoldable pub dataset_read : (ℕ → ℕ) → ℕ → (ℕ → ℕ) → Option (ℕ → ℕ)
unfolding mix_line
dataset_read memory address r =
    if leb (address + cache_line_size) dataset_size
    then some (mix_line (line_at memory address) r)
    else none

-- Of `InterpretedLightVm`: the reciprocals, the memory and the programs of its cache.
unfoldable pub dataset_read_light :
    Option (List ℕ) → (ℕ → ℕ) → List SuperscalarProgram → ℕ → (ℕ → ℕ) → Option (ℕ → ℕ)
unfolding mix_line init_dataset_item
dataset_read_light reciprocals memory programs address r = do
  rl ← init_dataset_item reciprocals memory programs (address / cache_line_size % 2 ^ 32)
  some (mix_line rl r)
