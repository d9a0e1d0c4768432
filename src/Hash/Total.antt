-- ===== src/Hash/Total.antt =====
-- `randomx_calculate_hash` of src/algo/randomx/randomx.cpp returns: the programs of a hash compile, run
-- to their ends and stay inside the scratchpad and the dataset.
pub mod Buffers
pub mod Iteration
pub mod Program
use nminer.Prelude.{
  bind-some, ℕ, zero, suc, ◌+◌, ◌-◌, ◌*◌, ◌/◌, ◌^◌, ◌≤◌, ◌<◌, List, [], ◌∷◌, Option, some, ◌≡◌,
  refl, sym, subst, ◌∙◌, le→leb, arith, Bool, true, false, take, drop, length, length-take, bit_xor,
  count_up, count_up-keeps,
}
use mathlib.Core.Option.{some-injective}
use nminer.Word.Bits.{bit_xor-lt}
use nminer.Vm.Config.{
  scratchpad_l3_size, program_size_v2, program_iterations, registers_count, program_count,
  dataset_size, cache_line_size,
}
use nminer.Vm.Machine.{Fpu, Machine, put, read_bytes}
use nminer.Vm.Bytecode.{InstructionByteCode}
use nminer.Vm.Bytecode.Compile.Program.{compile_program}
use nminer.Vm.Execute.Operands.{IsMachine, put-lt, read_bytes-lt}
use nminer.Vm.Initial.{initialize}
use nminer.Vm.Run.{finished, execute_bytecode}
use nminer.Vm.Run.Termination.{compile_program-Finishes}
use nminer.Hash.Vectors.{Lanes}
use nminer.Hash.Aes.{fill_aes1rx4, fill_aes4rx4, load_state}
use nminer.Hash.Machine.{
  RandomxVm, get_size, get_entropy, sizeof_program, sizeof_register_file, bytes_at,
}
use nminer.Hash.Run.{
  program_from, start_loop, iterations, native_registers, store_vm, initialize_vm, generate_program,
  execute, run,
}
use nminer.Hash.Dataset.{dataset_read, mix_line, line_at}
use nminer.Hash.Calculate.{
  Pending, temp_hash, init_scratchpad, reset_rounding_mode, get_final_result, run_chain,
  run_programs, randomx_calculate_hash, randomx_calculate_hash_first,
}
use nminer.Hash.Total.Buffers.{IsBytes, fill_loop-IsBytes, fill4_loop-IsBytes}
use nminer.Hash.Total.Iteration.{AreWords, ReadsLines, iterations-total}
use nminer.Hash.Total.Program.{
  AllWords, AllWords-take, AllWords-drop, AllWords-++, program_from-IsProgram, length-program_from,
  compile_program-AllWords,
}

-- The buffers of a machine of this version hold bytes, and the immediates of its bytecode are words.
pub record IsVm (v2 : Bool) (vm : RandomxVm) : Type 0 where
  pub version : vm.flag_v2 ≡ v2
  pub program_bytes : IsBytes vm.program
  pub scratchpad_bytes : IsBytes vm.scratchpad
  pub immediates : AllWords vm.bytecode

-- A dataset in memory.
pub dataset_read-ReadsLines :
    (dataset : ℕ → ℕ) → IsBytes dataset → ReadsLines (dataset_read dataset)
unfolding dataset_read mix_line read_bytes
dataset_read-ReadsLines dataset bytes address r words inside = (
  mix_line (line_at dataset address) r,
  rw (le→leb _ _ inside) refl,
  count_up-keeps AreWords registers_count 0
      (λ i r. put r i (bit_xor (r i) (line_at dataset address i))) r
      (λ i r h. put-lt r i (bit_xor (r i) (line_at dataset address i)) (2 ^ 64) h (
        bit_xor-lt 64 (r i) (line_at dataset address i) (h i)
          (read_bytes-lt 8 dataset (address + 8 * i) bytes)))
      words,
)

get_size-le : (v2 : Bool) → get_size v2 ≤ program_size_v2
unfolding get_size
get_size-le true = omega arith
get_size-le false = omega arith

-- Neither the registers nor the rounding mode matter.
still-IsVm :
    (v2 : Bool) (vm : RandomxVm) (reg : ℕ → ℕ) (mode : ℕ)
    → IsVm v2 vm
    → IsVm v2 (record vm { reg = reg; rounding = mode })
still-IsVm v2 vm reg mode good = record {
  version = good.version;
  program_bytes = good.program_bytes;
  scratchpad_bytes = good.scratchpad_bytes;
  immediates = good.immediates;
}

module _ {fp : Fpu} (lanes : Lanes fp) (v2 : Bool) where
  -- The fill before the first program.
  pub randomx_calculate_hash_first-IsVm :
      (blake2b : ℕ → List ℕ → List ℕ) (input : List ℕ) (vm : RandomxVm)
      → IsVm v2 vm
      → IsVm v2 (randomx_calculate_hash_first lanes blake2b input vm).0
  unfolding randomx_calculate_hash_first init_scratchpad fill_aes1rx4
  randomx_calculate_hash_first-IsVm blake2b input vm good = record {
    version = good.version;
    program_bytes = good.program_bytes;
    scratchpad_bytes =
        fill_loop-IsBytes lanes (scratchpad_l3_size / 64) vm.scratchpad 0
          (load_state lanes (temp_hash lanes blake2b input) 0) good.scratchpad_bytes;
    immediates = good.immediates;
  }

  pub get_final_result-IsVm :
      (blake2b : ℕ → List ℕ → List ℕ) (vm : RandomxVm)
      → IsVm v2 vm
      → IsVm v2 (get_final_result lanes blake2b vm).1
  unfolding get_final_result
  get_final_result-IsVm blake2b vm good = still-IsVm v2 vm _ vm.rounding good

module _ {fp : Fpu} (lanes : Lanes fp) (rounds : ℕ) (enough : 3 * program_size_v2 + 1 ≤ rounds)
    (dataset_read : ℕ → (ℕ → ℕ) → Option (ℕ → ℕ)) (reads : ReadsLines dataset_read)
    (v2 : Bool) where
  run-total :
      (seed : ℕ → ℕ) (vm : RandomxVm)
      → IsVm v2 vm
      → (vm' : RandomxVm) × (run lanes rounds dataset_read seed vm ≡ some vm') × IsVm v2 vm'
  unfolding run execute initialize_vm generate_program start_loop native_registers store_vm
      fill_aes4rx4
  run-total seed vm good =
      let vm1 = initialize_vm lanes (generate_program lanes seed vm) in
      let filled : IsBytes vm1.program =
        fill4_loop-IsBytes lanes (sizeof_program / 64) vm.program 0 (load_state lanes seed 0)
          good.program_bytes in
      let old : List InstructionByteCode = take (get_size vm.flag_v2) vm.bytecode in
      let program = program_from vm1.program 0 old in
      let well =
        program_from-IsProgram vm1.program 0 old filled
          (AllWords-take (get_size vm.flag_v2) vm.bytecode good.immediates) in
      let size : length program ≤ program_size_v2 = omega (
        arith,
        length-program_from vm1.program 0 old,
        length-take (get_size vm.flag_v2) vm.bytecode,
        get_size-le vm.flag_v2,
      ) in
      let (compiled, ec, words) = compile_program-AllWords program well in
      let ends : (m : Machine fp)
          → IsMachine fp m
          → (m' : Machine fp) × (execute_bytecode fp rounds compiled 0 m ≡ finished m')
            × IsMachine fp m' =
        λ m h.
          let (bytecode, eb, m', ran, h') =
            compile_program-Finishes fp program m rounds well h (omega (arith, size, enough)) in
          subst
            (λ (b : List InstructionByteCode).
              (m' : Machine fp) × (execute_bytecode fp rounds b 0 m ≡ finished m')
              × IsMachine fp m')
            (some-injective bytecode compiled (sym eb ∙ ec)) (m', ran, h') in
      let (s, es, machine) =
        iterations-total lanes rounds dataset_read reads (get_entropy vm1.program) compiled ends
          program_iterations (start_loop lanes vm1)
          (record { words = λ k. omega arith; bytes = good.scratchpad_bytes }) in
      (
        store_vm lanes vm1 compiled s,
        bind-some (compile_program program) compiled _ ec
            ∙ bind-some
                (iterations lanes rounds dataset_read program_iterations vm1.config compiled
                  (start_loop lanes vm1))
                s _ es,
        record {
          version = good.version;
          program_bytes = filled;
          scratchpad_bytes = machine.bytes;
          immediates =
              AllWords-++ compiled (drop (get_size vm.flag_v2) vm.bytecode) words
                (AllWords-drop (get_size vm.flag_v2) vm.bytecode good.immediates);
        },
      )

  run_chain-total :
      (blake2b : ℕ → List ℕ → List ℕ) (n : ℕ) (vm : RandomxVm) (temp : ℕ → ℕ)
      → IsVm v2 vm
      → (last : Pending) × (run_chain lanes blake2b rounds dataset_read n (vm, temp) ≡ some last)
        × IsVm v2 last.0
  unfolding run_chain
  run_chain-total blake2b zero vm temp good = ((vm, temp), refl, good)
  run_chain-total blake2b (suc n) vm temp good =
      let (vm1, e1, good1) = run-total temp vm good in
      let (last, e2, good2) =
        run_chain-total blake2b n vm1
          (temp_hash lanes blake2b (bytes_at sizeof_register_file vm1.reg 0)) good1 in
      (last, bind-some (run lanes rounds dataset_read temp vm) vm1 _ e1 ∙ e2, good2)

  pub run_programs-total :
      (blake2b : ℕ → List ℕ → List ℕ) (vm : RandomxVm) (temp : ℕ → ℕ)
      → IsVm v2 vm
      → (vm' : RandomxVm) × (run_programs lanes blake2b rounds dataset_read (vm, temp) ≡ some vm')
        × IsVm v2 vm'
  unfolding run_programs reset_rounding_mode
  run_programs-total blake2b vm temp good =
      let (last, e1, good1) =
        run_chain-total blake2b (program_count - 1) (reset_rounding_mode lanes blake2b vm) temp
          (still-IsVm v2 vm vm.reg 0 good) in
      let (vm', e2, good2) = run-total last.1 last.0 good1 in
      (
        vm',
        bind-some
              (run_chain lanes blake2b rounds dataset_read (program_count - 1)
                (reset_rounding_mode lanes blake2b vm, temp))
              last _ e1
            ∙ e2,
        good2,
      )

-- On every machine whose buffers hold bytes and whose bytecode's immediates are words, with a dataset of
-- bytes, `randomx_calculate_hash` returns a hash of any input: all of its programs compile, run to their ends within three
-- rounds for each instruction and one more, and no access leaves the scratchpad or the dataset. It restores the rounding
-- mode, and leaves a machine of which the same holds.
pub randomx_calculate_hash-total :
    {fp : Fpu} (lanes : Lanes fp) (blake2b : ℕ → List ℕ → List ℕ) (rounds : ℕ) (dataset : ℕ → ℕ)
    (v2 : Bool) (input : List ℕ) (vm : RandomxVm)
    → 3 * program_size_v2 + 1 ≤ rounds
    → IsBytes dataset
    → IsVm v2 vm
    → (hash : List ℕ) × (vm' : RandomxVm) × (randomx_calculate_hash lanes blake2b rounds
          (dataset_read dataset)
          input
          vm
        ≡ some (hash, vm'))
      × (vm'.rounding ≡ vm.rounding)
      × IsVm v2 vm'
unfolding randomx_calculate_hash randomx_calculate_hash_first
randomx_calculate_hash-total lanes blake2b rounds dataset v2 input vm enough bytes good =
    let dr = dataset_read dataset in
    let reads = dataset_read-ReadsLines dataset bytes in
    let filled = randomx_calculate_hash_first lanes blake2b input vm in
    let (vm1, e, good1) =
      run_programs-total lanes rounds enough dr reads v2 blake2b filled.0 filled.1
        (randomx_calculate_hash_first-IsVm lanes v2 blake2b input vm good) in
    let final = get_final_result lanes blake2b vm1 in
    let good2 = get_final_result-IsVm lanes v2 blake2b vm1 good1 in
    (
      final.0,
      record final.1 { rounding = vm.rounding },
      bind-some (run_programs lanes blake2b rounds dr filled) vm1 _ e,
      refl,
      still-IsVm v2 final.1 final.1.reg vm.rounding good2,
    )
