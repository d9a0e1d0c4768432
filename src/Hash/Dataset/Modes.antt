-- ===== src/Hash/Dataset/Modes.antt =====
-- A machine over a dataset in memory against a light one over the cache.
use nminer.Prelude.{
  ℕ, zero, suc, ◌+◌, ◌-◌, ◌*◌, ◌/◌, ◌%◌, ◌^◌, ◌<◌, List, Option, none, some, ◌>>=◌, ◌≡◌, refl, sym,
  ap, ◌∙◌, fun_ext, ◌≤◌, leb, true, count_up, bit_xor, arith, bit_and, take,
}
use nminer.Vm.Config.{
  cache_line_size, cache_line_align_mask, dataset_size, registers_count, program_count,
  program_iterations,
}
use nminer.Vm.Machine.{Fpu}
use nminer.Vm.Bytecode.{InstructionByteCode}
use nminer.Vm.Initial.{Initial, initialize, read_pointer}
use nminer.Hash.Vectors.{Lanes}
use nminer.Hash.Machine.{RandomxVm, get_size, get_entropy, bytes_at, sizeof_register_file}
use nminer.Hash.Run.{
  Loop, iteration, iterations, execute, run, next_sp_addr0, next_sp_addr1, load_iteration,
  machine_after, store_iteration, next_loop, initialize_vm, start_loop, store_vm, program_from,
  generate_program,
}
use nminer.Vm.Bytecode.Compile.Program.{compile_program}
use nminer.Vm.Run.{execute_bytecode}
use nminer.Hash.Calculate.{
  Pending, temp_hash, init_scratchpad, reset_rounding_mode, get_final_result, run_chain,
  run_programs, randomx_calculate_hash,
}
use nminer.Dataset.Cache.{SuperscalarProgram}
use nminer.Dataset.Item.{init_dataset_item}
use nminer.Hash.Dataset.{dataset_read, dataset_read_light, line_at, mix_line}
use nminer.Vm.Machine.{put}
use nminer.Vm.Initial.Bounds.{read_pointer-bounds}
use nminer.Word.Bits.{bit_and-shift}

bind-ext {ℓ κ} :
    {A : Type ℓ} {B : Type κ} (o : Option A) (f g : A → Option B)
    → ((a : A) → f a ≡ g a)
    → (o >>= f) ≡ (o >>= g)
bind-ext none f g h = refl
bind-ext (some a) f g h = h a

abbrev pub Read : Type 0
Read = ℕ → (ℕ → ℕ) → Option (ℕ → ℕ)

-- At every address that an iteration reads, whatever the program's entropy and the memory register.
abbrev Agree : Read → Read → Type 0
Agree read read' =
    (entropy : ℕ → ℕ) (ma : ℕ)
    → let address = read_pointer (initialize entropy).dataset_offset ma in
      read address ≡ read' address

abbrev SameAt : Read → Read → ℕ → Type 0
SameAt read read' offset = (ma : ℕ) → read (read_pointer offset ma) ≡ read' (read_pointer offset ma)

module _ {fp : Fpu} (lanes : Lanes fp) (rounds : ℕ) (read read' : Read) where
  iteration-ext :
      (config : Initial) (bytecode : List InstructionByteCode) (s : Loop fp)
      → SameAt read read' config.dataset_offset
      → iteration lanes rounds read config bytecode s
        ≡ iteration lanes rounds read' config bytecode s
  unfolding iteration
  iteration-ext config bytecode s same =
      ap
        (λ (here : (ℕ → ℕ) → Option (ℕ → ℕ)). (do
          let sp_addr0 = next_sp_addr0 lanes config s
          let sp_addr1 = next_sp_addr1 lanes config s
          m ← load_iteration lanes sp_addr0 sp_addr1 s.machine
          m' ← machine_after lanes (execute_bytecode fp rounds bytecode 0 m)
          r ← here m'.r
          m'' ← store_iteration lanes sp_addr0 sp_addr1 (record m' { r = r })
          some (next_loop lanes config s m' m'')))
        (same s.ma)

  iterations-ext :
      (n : ℕ) (config : Initial) (bytecode : List InstructionByteCode) (s : Loop fp)
      → SameAt read read' config.dataset_offset
      → iterations lanes rounds read n config bytecode s
        ≡ iterations lanes rounds read' n config bytecode s
  unfolding iterations
  iterations-ext zero config bytecode s same = refl
  iterations-ext (suc n) config bytecode s same =
      bind-ext (iteration lanes rounds read config bytecode s)
        (iterations lanes rounds read n config bytecode)
        (iterations lanes rounds read' n config bytecode)
        (λ s'. iterations-ext n config bytecode s' same)
      ∙ ap (λ (o : Option (Loop fp)). o >>= iterations lanes rounds read' n config bytecode)
          (iteration-ext config bytecode s same)

  execute-ext :
      (vm : RandomxVm)
      → SameAt read read' vm.config.dataset_offset
      → execute lanes rounds read vm ≡ execute lanes rounds read' vm
  unfolding execute
  execute-ext vm same =
      bind-ext
        (compile_program (program_from vm.program 0 (take (get_size vm.flag_v2) vm.bytecode)))
        (λ compiled. (do
          s ←
              iterations lanes rounds read program_iterations vm.config compiled
                (start_loop lanes vm)
          some (store_vm lanes vm compiled s)))
        (λ compiled. (do
          s ←
              iterations lanes rounds read' program_iterations vm.config compiled
                (start_loop lanes vm)
          some (store_vm lanes vm compiled s)))
        (λ compiled.
          ap (λ (o : Option (Loop fp)). (do s ← o; some (store_vm lanes vm compiled s)))
            (iterations-ext program_iterations vm.config compiled (start_loop lanes vm) same))

  run-ext :
      (seed : ℕ → ℕ) (vm : RandomxVm)
      → Agree read read'
      → run lanes rounds read seed vm ≡ run lanes rounds read' seed vm
  unfolding run initialize_vm
  run-ext seed vm agree =
      execute-ext (initialize_vm lanes (generate_program lanes seed vm))
        (agree (get_entropy (generate_program lanes seed vm).program))

  module _ (blake2b : ℕ → List ℕ → List ℕ) (agree : Agree read read') where
    run_chain-ext :
        (n : ℕ) (pending : Pending)
        → run_chain lanes blake2b rounds read n pending
          ≡ run_chain lanes blake2b rounds read' n pending
    unfolding run_chain
    run_chain-ext zero (vm, temp) = refl
    run_chain-ext (suc n) (vm, temp) =
        bind-ext (run lanes rounds read temp vm)
          (λ vm'.
            run_chain lanes blake2b rounds read n
              (vm', temp_hash lanes blake2b (bytes_at sizeof_register_file vm'.reg 0)))
          (λ vm'.
            run_chain lanes blake2b rounds read' n
              (vm', temp_hash lanes blake2b (bytes_at sizeof_register_file vm'.reg 0)))
          (λ vm'.
            run_chain-ext n
              (vm', temp_hash lanes blake2b (bytes_at sizeof_register_file vm'.reg 0)))
        ∙ ap
            (λ (o : Option RandomxVm). (do
              vm' ← o
              run_chain lanes blake2b rounds read' n
                  (vm', temp_hash lanes blake2b (bytes_at sizeof_register_file vm'.reg 0))))
            (run-ext temp vm agree)

    run_programs-ext :
        (pending : Pending)
        → run_programs lanes blake2b rounds read pending
          ≡ run_programs lanes blake2b rounds read' pending
    unfolding run_programs
    run_programs-ext (vm, temp) =
        let start : Pending = (reset_rounding_mode lanes blake2b vm, temp) in
        bind-ext (run_chain lanes blake2b rounds read (program_count - 1) start)
          (λ last. run lanes rounds read last.1 last.0)
          (λ last. run lanes rounds read' last.1 last.0) (λ last. run-ext last.1 last.0 agree)
        ∙ ap (λ (o : Option Pending). (do last ← o; run lanes rounds read' last.1 last.0))
            (run_chain-ext (program_count - 1) start)

    calculate_hash-ext :
        (input : List ℕ) (vm : RandomxVm)
        → randomx_calculate_hash lanes blake2b rounds read input vm
          ≡ randomx_calculate_hash lanes blake2b rounds read' input vm
    unfolding randomx_calculate_hash
    calculate_hash-ext input vm =
        ap
          (λ (o : Option RandomxVm). (do
            vm' ← o
            let final = get_final_result lanes blake2b vm'
            some (final.0, record final.1 { rounding = vm.rounding })))
          (run_programs-ext (init_scratchpad lanes blake2b (vm, temp_hash lanes blake2b input)))

-- The dataset in memory is the one of the cache: every line holds the words of the item of its number.
abbrev pub HoldsItems : Option (List ℕ) → (ℕ → ℕ) → List SuperscalarProgram → (ℕ → ℕ) → Type 0
HoldsItems reciprocals memory programs dataset =
    (n : ℕ)
    → n < dataset_size / cache_line_size
    → (item : ℕ → ℕ) × (init_dataset_item reciprocals memory programs n ≡ some item)
      × ((q : ℕ) → q < registers_count → item q ≡ line_at dataset (cache_line_size * n) q)

count_up-ext {ℓ} :
    {A : Type ℓ} (n from : ℕ) (f g : ℕ → A → A) (a : A)
    → ((i : ℕ) → i < from + n → f i ≡ g i)
    → count_up n from f a ≡ count_up n from g a
unfolding count_up
count_up-ext zero from f g a h = refl
count_up-ext (suc n) from f g a h =
    ap (λ step. count_up n (from + 1) f (step a)) (h from (omega arith))
    ∙ count_up-ext n (from + 1) f g (g from a) (λ i p. h i (omega arith))

mix_line-ext :
    (line line' r : ℕ → ℕ)
    → ((q : ℕ) → q < registers_count → line q ≡ line' q)
    → mix_line line r ≡ mix_line line' r
unfolding mix_line
mix_line-ext line line' r h =
    count_up-ext registers_count 0 (λ i r. put r i (bit_xor (r i) (line i)))
      (λ i r. put r i (bit_xor (r i) (line' i))) r
      (λ i p. fun_ext (λ r. ap (λ (w : ℕ). put r i (bit_xor (r i) w)) (h i (omega arith))))

-- An address that an iteration reads is that of an item.
item_address :
    (entropy : ℕ → ℕ) (ma : ℕ)
    → let address = read_pointer (initialize entropy).dataset_offset ma in
      let n = address / cache_line_size % 2 ^ 32 in
      (n < dataset_size / cache_line_size) × (address ≡ cache_line_size * n)
unfolding read_pointer initialize
item_address entropy ma =
    let inside = (read_pointer-bounds entropy ma).0 in
    let line : bit_and ma cache_line_align_mask ≡ bit_and (ma / 64) 33554431 * 64 =
      bit_and-shift 6 ma 33554431 in
    (omega (arith, inside), omega (arith, inside, line))

dataset_read-light_at :
    (reciprocals : Option (List ℕ)) (memory dataset : ℕ → ℕ) (programs : List SuperscalarProgram)
    (address : ℕ) (r : ℕ → ℕ)
    → address + cache_line_size ≤ dataset_size
    → let n = address / cache_line_size % 2 ^ 32 in
      address ≡ cache_line_size * n
      → (item : ℕ → ℕ) → init_dataset_item reciprocals memory programs n ≡ some item
      → ((q : ℕ) → q < registers_count → item q ≡ line_at dataset (cache_line_size * n) q)
      → dataset_read dataset address r ≡ dataset_read_light reciprocals memory programs address r
unfolding dataset_read dataset_read_light
dataset_read-light_at reciprocals memory dataset programs address r inside e item made words =
    let test : leb (address + cache_line_size) dataset_size ≡ true = ground arith in
    let same : line_at dataset address
        ≡ line_at dataset (cache_line_size * (address / cache_line_size % 2 ^ 32)) =
      ap (line_at dataset) e in
    rw (made, test)
      (ap some (
        ap (λ line. mix_line line r) same
        ∙ sym (
            mix_line-ext item
              (line_at dataset (cache_line_size * (address / cache_line_size % 2 ^ 32))) r words)))

dataset_read-Agree :
    (reciprocals : Option (List ℕ)) (memory dataset : ℕ → ℕ) (programs : List SuperscalarProgram)
    → HoldsItems reciprocals memory programs dataset
    → Agree (dataset_read dataset) (dataset_read_light reciprocals memory programs)
unfolding dataset_read dataset_read_light
dataset_read-Agree reciprocals memory dataset programs holds entropy ma =
    let (small, e) = item_address entropy ma in
    let address : ℕ = read_pointer (initialize entropy).dataset_offset ma in
    let (item, made, words) = holds (address / cache_line_size % 2 ^ 32) small in
    fun_ext (λ r.
      dataset_read-light_at reciprocals memory dataset programs address r
        (read_pointer-bounds entropy ma).0 e item made words)

-- A light machine and one with the dataset in memory calculate the same hash of any input, and are left
-- in the same state, where the dataset's lines hold the items of the light machine's cache.
pub light-full :
    {fp : Fpu} (lanes : Lanes fp) (blake2b : ℕ → List ℕ → List ℕ) (rounds : ℕ)
    (reciprocals : Option (List ℕ)) (memory dataset : ℕ → ℕ) (programs : List SuperscalarProgram)
    (input : List ℕ) (vm : RandomxVm)
    → HoldsItems reciprocals memory programs dataset
    → randomx_calculate_hash lanes blake2b rounds
        (dataset_read_light reciprocals memory programs)
        input
        vm
      ≡ randomx_calculate_hash lanes blake2b rounds (dataset_read dataset) input vm
light-full lanes blake2b rounds reciprocals memory dataset programs input vm holds = sym (
    calculate_hash-ext lanes rounds (dataset_read dataset)
      (dataset_read_light reciprocals memory programs) blake2b
      (dataset_read-Agree reciprocals memory dataset programs holds) input vm)
