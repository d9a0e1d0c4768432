-- ===== src/Hash/Calculate.antt =====
-- `randomx_calculate_hash` and the pipelined `randomx_calculate_hash_first`, `_next` and `_last` of
-- src/algo/randomx/randomx.cpp, with `initScratchpad`, `getFinalResult` and `hashAndFill` of
-- virtual_machine.cpp. Blake2b is a parameter, from an output size and an input.
pub mod Pipeline
use nminer.Prelude.{ℕ, zero, suc, ◌+◌, ◌-◌, List, [], ◌∷◌, ◌++◌, Option, none, some, ◌>>=◌, get_or}
use nminer.Vm.Config.{scratchpad_l3_size, program_count}
use nminer.Vm.Machine.{Fpu}
use nminer.Hash.Vectors.{Lanes}
use nminer.Hash.Aes.{
  State, load_state, store_state, hash_aes1rx4, fill_aes1rx4, hash_and_fill_aes1rx4,
}
use nminer.Hash.Machine.{RandomxVm, sizeof_register_file, a_offset, bytes_at}
use nminer.Hash.Run.{run}

-- RANDOMX_HASH_SIZE
abbrev pub hash_size : ℕ
hash_size = 32

-- A machine and the bytes of its `tempHash`.
abbrev pub Pending : Type 0
Pending = RandomxVm × (ℕ → ℕ)

module _ {fp : Fpu} (lanes : Lanes fp) (blake2b : ℕ → List ℕ → List ℕ) where
  -- blake2b into `tempHash`.
  unfoldable pub temp_hash : List ℕ → ℕ → ℕ
  temp_hash input i = get_or (blake2b 64 input) i 0

  -- The fill writes its state back over the seed.
  unfoldable pub init_scratchpad : Pending → Pending
  unfolding fill_aes1rx4 load_state store_state
  init_scratchpad (vm, seed) =
      let filled = fill_aes1rx4 lanes (load_state lanes seed 0) scratchpad_l3_size vm.scratchpad in
      (record vm { scratchpad = filled.0 }, store_state lanes seed 0 filled.1)

  unfoldable pub reset_rounding_mode : RandomxVm → RandomxVm
  reset_rounding_mode vm = record vm { rounding = 0 }

  abbrev pub hash_registers : RandomxVm → ℕ → List ℕ
  hash_registers vm size = blake2b size (bytes_at sizeof_register_file vm.reg 0)

  -- The scratchpad's hash goes to the registers a, and the hash of all registers out.
  unfoldable pub get_final_result : RandomxVm → List ℕ × RandomxVm
  unfolding hash_aes1rx4 store_state bytes_at
  get_final_result vm =
      let vm' = record vm {
        reg =
            store_state lanes vm.reg a_offset (hash_aes1rx4 lanes vm.scratchpad scratchpad_l3_size);
      } in
      (hash_registers vm' hash_size, vm')

  -- The same, with the scratchpad filled for the next hash in the same pass.
  unfoldable pub hash_and_fill : Pending → List ℕ × Pending
  unfolding hash_and_fill_aes1rx4 load_state store_state bytes_at
  hash_and_fill (vm, fill_state) =
      let pass =
        hash_and_fill_aes1rx4 lanes vm.scratchpad scratchpad_l3_size
          (load_state lanes fill_state 0) in
      let vm' = record vm { scratchpad = pass.0; reg = store_state lanes vm.reg a_offset pass.1 } in
      (hash_registers vm' hash_size, (vm', store_state lanes fill_state 0 pass.2))

  unfoldable pub randomx_calculate_hash_first : List ℕ → RandomxVm → Pending
  unfolding temp_hash init_scratchpad
  randomx_calculate_hash_first input vm = init_scratchpad (vm, temp_hash input)

  -- `rounds` bounds the bytecode's loop; `dataset_read` is the machine's `datasetRead`.
  module _ (rounds : ℕ) (dataset_read : ℕ → (ℕ → ℕ) → Option (ℕ → ℕ)) where
    -- The programs of a hash but the last: each one's registers seed the next.
    unfoldable pub run_chain : ℕ → Pending → Option Pending
    unfolding run temp_hash bytes_at
    run_chain zero (vm, temp) = some (vm, temp)
    run_chain (suc n) (vm, temp) = do
      vm' ← run lanes rounds dataset_read temp vm
      run_chain n (vm', temp_hash (bytes_at sizeof_register_file vm'.reg 0))

    -- All the programs of a hash.
    unfoldable pub run_programs : Pending → Option RandomxVm
    unfolding run_chain run reset_rounding_mode
    run_programs (vm, temp) = do
      last ← run_chain (program_count - 1) (reset_rounding_mode vm, temp)
      run lanes rounds dataset_read last.1 last.0

    -- The floating-point state of the thread is restored.
    unfoldable pub randomx_calculate_hash : List ℕ → RandomxVm → Option (List ℕ × RandomxVm)
    unfolding temp_hash init_scratchpad run_programs get_final_result
    randomx_calculate_hash input vm = do
      let fpstate = vm.rounding
      vm' ← run_programs (init_scratchpad (vm, temp_hash input))
      let final = get_final_result vm'
      some (final.0, record final.1 { rounding = fpstate })

    unfoldable pub randomx_calculate_hash_next : List ℕ → Pending → Option (List ℕ × Pending)
    unfolding temp_hash run_programs hash_and_fill
    randomx_calculate_hash_next next_input pending = do
      vm' ← run_programs pending
      some (hash_and_fill (vm', temp_hash next_input))

    unfoldable pub randomx_calculate_hash_last : Pending → Option (List ℕ × RandomxVm)
    unfolding run_programs get_final_result
    randomx_calculate_hash_last pending = do vm' ← run_programs pending; some (get_final_result vm')
