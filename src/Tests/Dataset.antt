-- ===== src/Tests/Dataset.antt =====
-- A superscalar program with two reciprocals, and entropy for a program of the machine.
use nminer.Prelude.{
  ◌⊎◌, ◌*◌, ℕ, ◌+◌, ◌*◌, ◌/◌, ◌%◌, ◌^◌, ◌≤◌, ◌<◌, List, [], ◌∷◌, none, some, ◌≡◌, ◌⊎◌, refl, true,
  false, ltb, if◌then◌else◌, replicate, arith, length,
}
use nminer.Vm.Instruction.{Instruction}
use nminer.Vm.Config.{dataset_size, cache_line_size, registers_count}
use nminer.Vm.Initial.{initialize, read_pointer, get_small_positive_float_bits}
use nminer.Vm.Initial.Bounds.{read_pointer-bounds, small_positive_lem}
use nminer.Dataset.Superscalar.{superscalar_type, is_rcp}
use nminer.Dataset.Cache.{SuperscalarProgram, cache_programs, cache_instructions}
use nminer.Dataset.Generator.{get_byte, get_uint32, blake2_generator, get_all}
use nminer.Dataset.Generator.Safety.{blake2_generator-answers}
use nminer.Dataset.Item.{init_dataset_item}
use nminer.Dataset.Item.Cached.{init_dataset_item-cached}
use nminer.Dataset.Schedule.{Ports, cycle_map_size, is_open, schedule_uop, uop_from, pick}
use nminer.Dataset.Schedule.Laws.{Books, schedule_uop-Books, schedule_uop-none}
use nminer.Dataset.Init.{init_dataset, randomx_init_dataset}
use nminer.Dataset.Init.Laws.{init_dataset-IsInit, init_dataset-Items}
use nminer.Dataset.Split.{IsOrder, init_parallel, init_parallel-Items}

abbrev multiplies : ℕ → ℕ → Instruction
multiplies dst divisor = record { opcode = 13; dst = dst; src = dst; mod_byte = 0; imm32 = divisor }

abbrev subtracts : Instruction
subtracts = record { opcode = 0; dst = 1; src = 2; mod_byte = 0; imm32 = 0 }

abbrev two_programs : List SuperscalarProgram
two_programs =
    record { instructions = multiplies 3 7 ∷ subtracts ∷ []; address_register = 3 }
    ∷ record { instructions = multiplies 2 11 ∷ []; address_register = 0 }
    ∷ []

two_programs-length : length (cache_programs two_programs []).1 ≤ 2 ^ 32
unfolding cache_programs cache_instructions superscalar_type is_rcp
two_programs-length = omega arith

init_dataset_item_example :
    init_dataset_item
      (some (cache_programs two_programs []).1)
      (λ addr. 5)
      (cache_programs two_programs []).0
      12
    ≡ init_dataset_item none (λ addr. 5) two_programs 12
init_dataset_item_example = init_dataset_item-cached (λ addr. 5) two_programs 12 two_programs-length

-- Three threads over ten lines: the items 0 to 2, 3 to 5, and 6 to 9.
abbrev third : List ℕ
third = 2 ∷ 0 ∷ 1 ∷ []

third-IsOrder : IsOrder 3 third
third-IsOrder = record {
  all = λ i h. ground arith;
  only = (omega arith, (omega arith, (omega arith, tt)));
}

init_parallel_example :
    ((7 < 10) × (init_parallel (init_dataset (λ k. k * k)) (λ i k. 5) 10 3 third (λ k. 0) 7 ≡ 49))
    ⊎ ((10 ≤ 7) × (init_parallel (init_dataset (λ k. k * k)) (λ i k. 5) 10 3 third (λ k. 0) 7 ≡ 0))
init_parallel_example =
    init_parallel-Items 10 3 (omega arith) (omega arith) (omega arith) (λ k. k * k)
      (init_dataset (λ k. k * k)) (λ i k. 5) (init_dataset-IsInit (λ k. k * k)) third (λ k. 0) 7
      third-IsOrder

read_pointer_example :
    let start = initialize (λ i. 0xfedcba9876543210) in
    (read_pointer start.dataset_offset 0x89abcdef + cache_line_size ≤ dataset_size)
    × (start.read_reg0 < start.read_reg1)
    × (start.read_reg1 < start.read_reg2)
    × (start.read_reg2 < start.read_reg3)
    × (start.read_reg3 < registers_count)
read_pointer_example = read_pointer-bounds (λ i. 0xfedcba9876543210) 0x89abcdef

small_positive_example :
    get_small_positive_float_bits 0xfedcba9876543210
    ≡ (1023 + 0xfedcba9876543210 / 2 ^ 59) * 2 ^ 52 + 0xfedcba9876543210 % 2 ^ 52
small_positive_example = small_positive_lem 0xfedcba9876543210 (omega arith)

-- A stand-in for BLAKE2b.
abbrev constant_digest : List ℕ → List ℕ
constant_digest xs = replicate 64 9

constant_digest-length : (xs : List ℕ) → length (constant_digest xs) ≡ 64
constant_digest-length xs = refl

blake2_generator_example :
    (values : List ℕ) × (get_all constant_digest
        (get_uint32 ∷ get_byte ∷ get_byte ∷ [])
        (blake2_generator (1 ∷ 2 ∷ []) 3)
      ≡ some values)
    × (length values ≡ 3)
blake2_generator_example =
    blake2_generator-answers constant_digest constant_digest-length (1 ∷ 2 ∷ []) 3
      (get_uint32 ∷ get_byte ∷ get_byte ∷ [])

-- Every port of every cycle taken.
abbrev all_busy : Ports
all_busy t port = 7

abbrev first_free : Ports
first_free t port = if ltb t 5 then 7 else 0

schedule_uop-Books_example : Books cycle_map_size 3 first_free 2 (schedule_uop true 3 first_free 2)
schedule_uop-Books_example = schedule_uop-Books 3 first_free 2 (omega arith)

schedule_uop-none_example : is_open 7 (all_busy 172) 1 ≡ false
unfolding schedule_uop uop_from pick
schedule_uop-none_example =
    schedule_uop-none 7 all_busy 170 172 1 refl (omega arith) (omega arith) (omega arith)

abbrev square : ℕ → ℕ
square n = n * n

-- Six items from item 3 on: a front of four, and the last four over it.
init_dataset-Items_example :
    (3 ≤ 8 → 8 < 9 → randomx_init_dataset (init_dataset square) (λ k. 0) 3 6 (λ k. 1) 8 ≡ square 8)
    × ((8 < 3) ⊎ (9 ≤ 8) → randomx_init_dataset (init_dataset square) (λ k. 0) 3 6 (λ k. 1) 8 ≡ 1)
init_dataset-Items_example =
    init_dataset-Items square (init_dataset square) (λ k. 0) (λ k. 1) 3 6 8
      (init_dataset-IsInit square)
