-- ===== src/Dataset/Program/Cache/Items.antt =====
-- That every item is computed from the programs and the reciprocals that `initCache` leaves.
use nminer.Prelude.{
  ℕ, zero, suc, ◌+◌, ◌-◌, ◌*◌, ◌/◌, ◌^◌, ◌≤◌, ◌<◌, List, [], ◌∷◌, ◌++◌, true, none, some, ◌≡◌, refl,
  ◌∙◌, lt→ltb, leb, if◌then◌else◌, length, length-append, if-both, bit_xor, arith,
}
use nminer.Word.Bits.{bit_and-le}
use nminer.Vm.Config.{
  cache_accesses, superscalar_max_size, registers_count, cache_size, cache_line_size,
}
use nminer.Vm.Machine.{put, read_bytes}
use nminer.Vm.Reciprocal.{reciprocal}
use nminer.Vm.Instruction.{Instruction}
use nminer.Dataset.Superscalar.{
  SuperscalarInstructionType, isub_r, superscalar_type, superscalar_result, superscalar_step,
  execute_superscalar, register, is_rcp,
}
use nminer.Dataset.Cache.{SuperscalarProgram, cache_programs, cache_instructions}
use nminer.Dataset.Item.{
  init_dataset_item, item_rounds, mix_registers, get_mix_block, load_cache, start_registers,
}
use nminer.Dataset.Item.Cached.{init_dataset_item-cached}
use nminer.Dataset.Generator.{data_size, blake2_generator}
use nminer.Dataset.Program.Slots.Instructions.{IsSuperscalar, AllSuperscalar}
use nminer.Dataset.Program.Cache.{
  init_programs, nothing, IsProductive, AllPrograms, generate_programs-some,
}

superscalar_result-some :
    (instr : Instruction) (d s : ℕ) (type : SuperscalarInstructionType)
    → (value : ℕ) × (superscalar_result none instr d s type ≡ some value)
unfolding superscalar_result
superscalar_result-some instr d s isub_r = (_, refl)
superscalar_result-some instr d s _ = (_, refl)

register-some : (r : ℕ → ℕ) (k : ℕ) → k < registers_count → register r k ≡ some (r k)
register-some r k h = rw (lt→ltb k registers_count h) refl

superscalar_step-some :
    (instr : Instruction) (r : ℕ → ℕ)
    → IsSuperscalar instr
    → (r' : ℕ → ℕ) × (superscalar_step none instr r ≡ some r')
unfolding superscalar_step
superscalar_step-some instr r is_good =
    let (value, result) = superscalar_result-some instr (r instr.dst) (r instr.src) is_good.type in
    (
      put r instr.dst value,
      rw
          (
            is_good.decodes,
            lt→ltb instr.dst registers_count is_good.dst_register,
            lt→ltb instr.src registers_count is_good.src_register,
            result,
          )
          refl,
    )

execute_superscalar-some :
    (instructions : List Instruction) (r : ℕ → ℕ)
    → AllSuperscalar instructions
    → (r' : ℕ → ℕ) × (execute_superscalar none instructions r ≡ some r')
unfolding execute_superscalar
execute_superscalar-some [] r all = (r, refl)
execute_superscalar-some (instr ∷ rest) r all =
    let (r1, ran) = superscalar_step-some instr r all.0 in
    let (r', others) = execute_superscalar-some rest r1 all.1 in (r', rw ran others)

mix_registers-some :
    (count : ℕ) (memory : ℕ → ℕ) (block q : ℕ) (r : ℕ → ℕ)
    → block + 8 * (q + count) ≤ cache_size
    → (r' : ℕ → ℕ) × (mix_registers count memory block q r ≡ some r')
unfolding mix_registers load_cache
mix_registers-some zero memory block q r inside = (r, refl)
mix_registers-some (suc count) memory block q r inside =
    let word = read_bytes 8 memory (block + 8 * q) in
    let readable : leb (block + 8 * q + 8) cache_size ≡ true = ground arith in
    let (r', rest) =
      mix_registers-some count memory block (q + 1) (put r q (bit_xor (r q) word))
        (omega (arith, inside)) in
    (r', rw readable rest)

get_mix_block-inside : (value : ℕ) → get_mix_block value + 64 ≤ cache_size
unfolding get_mix_block
get_mix_block-inside value = omega (arith, bit_and-le value (cache_size / cache_line_size - 1))

item_rounds-some :
    (memory : ℕ → ℕ) (programs : List SuperscalarProgram) (value : ℕ) (r : ℕ → ℕ)
    → AllPrograms programs
    → (r' : ℕ → ℕ) × (item_rounds none memory programs value r ≡ some r')
unfolding item_rounds
item_rounds-some memory [] value r all = (r, refl)
item_rounds-some memory (program ∷ rest) value r all =
    let (r1, ran) = execute_superscalar-some program.instructions r all.0.all in
    let (r2, mixed) =
      mix_registers-some 8 memory (get_mix_block value) 0 r1
        (omega (arith, get_mix_block-inside value)) in
    let (r', others) = item_rounds-some memory rest (r2 program.address_register) r2 all.1 in
    (r', rw (ran, mixed, lt→ltb program.address_register registers_count all.0.address) others)

-- Each program caches at most one reciprocal for each of its instructions.
cache_instructions-few :
    (instructions : List Instruction) (reciprocals : List ℕ)
    → length (cache_instructions instructions reciprocals).1
      ≤ length reciprocals + length instructions
unfolding cache_instructions
cache_instructions-few [] reciprocals = omega arith
cache_instructions-few (instr ∷ rest) reciprocals =
    let grown = reciprocals ++ (reciprocal instr.imm32 ∷ []) in
    let reciprocals' = if is_rcp (superscalar_type instr.opcode) then grown else reciprocals in
    let one_more : length reciprocals' ≤ length reciprocals + 1 =
      if-both (is_rcp (superscalar_type instr.opcode)) grown reciprocals
        (λ (l : List ℕ). length l ≤ length reciprocals + 1)
        (λ _. omega (arith, length-append reciprocals (reciprocal instr.imm32 ∷ [])))
        (λ _. omega arith) in
    omega (arith, one_more, cache_instructions-few rest reciprocals')

cache_programs-few :
    (programs : List SuperscalarProgram) (reciprocals : List ℕ)
    → AllPrograms programs
    → length (cache_programs programs reciprocals).1
      ≤ length reciprocals + superscalar_max_size * length programs
unfolding cache_programs
cache_programs-few [] reciprocals all = omega arith
cache_programs-few (program ∷ rest) reciprocals all = omega (
  arith,
  all.0.size,
  cache_instructions-few program.instructions reciprocals,
  cache_programs-few rest (cache_instructions program.instructions reciprocals).1 all.1,
)

module _ (blake2b : List ℕ → List ℕ) (digest : (xs : List ℕ) → length (blake2b xs) ≡ data_size)
    (tries : ℕ) (key : List ℕ)
    (productive : IsProductive blake2b tries (blake2_generator key 0)) where
  -- Over a BLAKE2b of 64 bytes and a stream of which the loops that draw again accept a value in time, initCache
  -- generates its eight programs, and from them and their reciprocals every item of any cache is computed: it is
  -- the item of the generated programs.
  pub init_programs-Items :
      (programs : List SuperscalarProgram) × (init_programs blake2b tries key
        ≡ some (cache_programs programs []))
      × (length programs ≡ cache_accesses)
      × ((memory : ℕ → ℕ) (item_number : ℕ)
          → (words : ℕ → ℕ) × (init_dataset_item
                (some (cache_programs programs []).1)
                memory
                (cache_programs programs []).0
                item_number
              ≡ some words)
            × (init_dataset_item none memory programs item_number ≡ some words))
  unfolding init_programs init_dataset_item
  init_programs-Items =
      let (programs, g, generated, count_is, all) =
        generate_programs-some blake2b digest tries key 0 productive cache_accesses
          (blake2_generator key 0) nothing in
      let few : length (cache_programs programs []).1 ≤ 2 ^ 32 =
        omega (arith, count_is, cache_programs-few programs [] all) in
      (
        programs,
        rw generated refl,
        count_is,
        λ memory item_number.
            let (words, computed) =
              item_rounds-some memory programs item_number (start_registers item_number) all in
            (words, init_dataset_item-cached memory programs item_number few ∙ computed, computed),
      )
