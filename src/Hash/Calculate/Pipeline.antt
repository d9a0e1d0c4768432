-- ===== src/Hash/Calculate/Pipeline.antt =====
-- The pipelined hashes against hashes one by one.
use nminer.Prelude.{ℕ, List, [], ◌∷◌, Option, none, some, ◌>>=◌, ◌≡◌, refl, sym, ap, ◌∙◌}
use nminer.Vm.Machine.{Fpu}
use nminer.Hash.Vectors.{Lanes}
use nminer.Hash.Aes.{State, load_state, store_state}
use nminer.Hash.Aes.OnePass.{hash_and_fill-OnePass}
use nminer.Hash.Machine.{RandomxVm, a_offset}
use nminer.Hash.Calculate.{
  Pending, hash_size, hash_registers, temp_hash, init_scratchpad, get_final_result, hash_and_fill,
  run_programs, randomx_calculate_hash, randomx_calculate_hash_first, randomx_calculate_hash_next,
  randomx_calculate_hash_last,
}

module _ {fp : Fpu} (lanes : Lanes fp) (blake2b : ℕ → List ℕ → List ℕ) (rounds : ℕ)
    (dataset_read : ℕ → (ℕ → ℕ) → Option (ℕ → ℕ)) where
  -- The hashes of the inputs, each calculated by itself on the same machine.
  abbrev pub one_by_one : List (List ℕ) → RandomxVm → Option (List (List ℕ))
  one_by_one [] vm = some []
  one_by_one (x ∷ xs) vm = do
    r ← randomx_calculate_hash lanes blake2b rounds dataset_read x vm
    hashes ← one_by_one xs r.1
    some (r.0 ∷ hashes)

  -- The pending hash and then those of the inputs, with one `next` for each of them and one `last`.
  abbrev pub pipelined : List (List ℕ) → Pending → Option (List (List ℕ))
  pipelined [] pending = do
    r ← randomx_calculate_hash_last lanes blake2b rounds dataset_read pending
    some (r.0 ∷ [])
  pipelined (x ∷ xs) pending = do
    r ← randomx_calculate_hash_next lanes blake2b rounds dataset_read x pending
    hashes ← pipelined xs r.1
    some (r.0 ∷ hashes)

  pub hash_and_fill_lem :
      (vm : RandomxVm) (seed : ℕ → ℕ)
      → hash_and_fill lanes blake2b (vm, seed) ≡ (
          let final = get_final_result lanes blake2b vm in
          (final.0, init_scratchpad lanes blake2b (final.1, seed)))
  unfolding hash_and_fill get_final_result init_scratchpad
  hash_and_fill_lem vm seed =
      ap
        (λ (pass : (ℕ → ℕ) × State fp × State fp).
          (let vm' : RandomxVm = record vm {
            scratchpad = pass.0;
            reg = store_state lanes vm.reg a_offset pass.1;
          } in
            (hash_registers lanes blake2b vm' hash_size, (vm', store_state lanes seed 0 pass.2))))
        (hash_and_fill-OnePass lanes vm.scratchpad 32704 (load_state lanes seed 0))

  -- The rounding mode that a pipelined hash starts with does not matter.
  pipelined-rounding :
      (xs : List (List ℕ)) (vm : RandomxVm) (temp : ℕ → ℕ) (mode : ℕ)
      → pipelined xs (record vm { rounding = mode }, temp) ≡ pipelined xs (vm, temp)
  unfolding randomx_calculate_hash_last randomx_calculate_hash_next run_programs
  pipelined-rounding [] vm temp mode = refl
  pipelined-rounding (x ∷ xs) vm temp mode = refl

  -- A result with the thread's rounding mode restored.
  abbrev restored : ℕ → List ℕ × RandomxVm → List ℕ × RandomxVm
  restored mode (hash, vm) = (hash, record vm { rounding = mode })

  -- Calculating the next input's hash on the machine that a calculation left.
  next_step :
      (programs : Option RandomxVm) (mode : ℕ) (y : List ℕ) (ys : List (List ℕ))
      → ((vm : RandomxVm)
          → pipelined ys (randomx_calculate_hash_first lanes blake2b y vm) ≡ one_by_one (y ∷ ys) vm)
      → (do
        r ← (do vm' ← programs; some (hash_and_fill lanes blake2b (vm', temp_hash lanes blake2b y)))
        hashes ← pipelined ys r.1
        some (r.0 ∷ hashes))
        ≡ (do
          r ← (do vm' ← programs; some (restored mode (get_final_result lanes blake2b vm')))
          hashes ← one_by_one (y ∷ ys) r.1
          some (r.0 ∷ hashes))
  unfolding randomx_calculate_hash_first init_scratchpad
  next_step none mode y ys later = refl
  next_step (some vm') mode y ys later =
      let seed = temp_hash lanes blake2b y in
      let final = get_final_result lanes blake2b vm' in
      let filled = init_scratchpad lanes blake2b (final.1, seed) in
      ap (λ (r : List ℕ × Pending). (do hashes ← pipelined ys r.1; some (r.0 ∷ hashes)))
        (hash_and_fill_lem vm' seed)
      ∙ ap (λ (hashed : Option (List (List ℕ))). (do hashes ← hashed; some (final.0 ∷ hashes)))
          (sym (pipelined-rounding ys filled.0 filled.1 mode) ∙ later (restored mode final).1)

  last_step :
      (programs : Option RandomxVm) (mode : ℕ)
      → (do r ← (do vm' ← programs; some (get_final_result lanes blake2b vm')); some (r.0 ∷ []))
        ≡ (do
          r ← (do vm' ← programs; some (restored mode (get_final_result lanes blake2b vm')))
          hashes ← one_by_one [] r.1
          some (r.0 ∷ hashes))
  last_step none mode = refl
  last_step (some vm') mode = refl

  -- After `first`, a `next` for every further input and a `last` give the same hashes in the same order
  -- as one calculation after the other.
  pub pipelined-one_by_one :
      (xs : List (List ℕ)) (x : List ℕ) (vm : RandomxVm)
      → pipelined xs (randomx_calculate_hash_first lanes blake2b x vm) ≡ one_by_one (x ∷ xs) vm
  unfolding randomx_calculate_hash_first randomx_calculate_hash_last randomx_calculate_hash_next
      randomx_calculate_hash
  pipelined-one_by_one [] x vm =
      last_step
        (run_programs lanes blake2b rounds dataset_read
          (randomx_calculate_hash_first lanes blake2b x vm))
        vm.rounding
  pipelined-one_by_one (y ∷ ys) x vm =
      next_step
        (run_programs lanes blake2b rounds dataset_read
          (randomx_calculate_hash_first lanes blake2b x vm))
        vm.rounding y ys (λ vm'. pipelined-one_by_one ys y vm')
