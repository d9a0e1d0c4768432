-- ===== src/Hash/Run.antt =====
-- `InterpretedVm::run` and `execute` of src/algo/randomx/vm_interpreted.cpp, over the `datasetRead` of
-- the machine's class.
use nminer.Prelude.{
  ℕ, zero, suc, ◌+◌, ◌*◌, ◌/◌, ◌%◌, ◌^◌, List, [], ◌∷◌, ◌++◌, Bool, Option, none, some, ◌>>=◌,
  if◌then◌else◌, bit_and, bit_xor, leb, take, drop, count_up, for_each,
}
use nminer.Vm.Config.{
  scratchpad_l3_size, scratchpad_l3_mask64, program_iterations, registers_count, register_count_flt,
}
use nminer.Vm.Machine.{Fpu, Machine, put, write_bytes, load64, store64}
use nminer.Vm.Instruction.{Instruction}
use nminer.Vm.Bytecode.{InstructionByteCode}
use nminer.Vm.Bytecode.Compile.Program.{compile_program}
use nminer.Vm.Execute.{mask_register_exponent_mantissa}
use nminer.Vm.Run.{Outcome, finished, running, undefined, execute_bytecode}
use nminer.Vm.Initial.{Initial, initialize, read_pointer}
use nminer.Hash.Vectors.{Lanes, load_vec, store_vec}
use nminer.Hash.Aes.{load_state, fill_aes4rx4}
use nminer.Hash.Machine.{
  RandomxVm, sizeof_program, r_offset, f_offset, e_offset, a_offset, get_entropy, get_size,
  instruction_at,
}

-- The instructions from `pc` on, each with the old bytecode that its compilation overwrites.
unfoldable pub program_from :
    (ℕ → ℕ) → ℕ → List InstructionByteCode → List (Instruction × InstructionByteCode)
unfolding instruction_at
program_from program pc [] = []
program_from program pc (old ∷ rest) =
    (instruction_at program pc, old) ∷ program_from program (pc + 1) rest

-- The locals of `execute`, with the memory registers.
pub record Loop (fp : Fpu) : Type 0 where
  pub machine : Machine fp
  pub mx : ℕ
  pub ma : ℕ
  pub sp_addr0 : ℕ
  pub sp_addr1 : ℕ

module _ {fp : Fpu} (lanes : Lanes fp) where
  open fp use {Vec}
  open lanes use {aesenc, aesdec}

  -- rx_store_vec_f128 into the scratchpad.
  unfoldable pub store_double : (ℕ → ℕ) → ℕ → Vec → Option (ℕ → ℕ)
  unfolding store_vec
  store_double mem addr v =
      if leb (addr + 16) scratchpad_l3_size then some (store_vec lanes mem addr v) else none

  -- nreg.r[i] ^= load64(scratchpad + spAddr0 + 8 * i)
  unfoldable pub mix_integers : (ℕ → ℕ) → ℕ → (ℕ → ℕ) → Option (ℕ → ℕ)
  unfolding for_each load64
  mix_integers mem sp_addr0 r =
      for_each registers_count 0
        (λ i r. do word ← load64 mem (sp_addr0 + 8 * i); some (put r i (bit_xor (r i) word))) r

  -- Four registers from packed integers, each through `close`.
  unfoldable pub load_floats : (ℕ → ℕ) → ℕ → (Vec → Vec) → (ℕ → Vec) → Option (ℕ → Vec)
  unfolding for_each load64
  load_floats mem addr close file =
      for_each register_count_flt 0
        (λ i file. do
          word ← load64 mem (addr + 8 * i)
          some (put file i (close (fp.cvt_packed_int word))))
        file

  unfoldable pub store_integers : (ℕ → ℕ) → ℕ → (ℕ → ℕ) → Option (ℕ → ℕ)
  unfolding for_each store64
  store_integers mem sp_addr1 r =
      for_each registers_count 0 (λ i mem. store64 mem (sp_addr1 + 8 * i) (r i)) mem

  unfoldable pub store_floats : (ℕ → ℕ) → ℕ → (ℕ → Vec) → Option (ℕ → ℕ)
  unfolding for_each store_double
  store_floats mem sp_addr0 f =
      for_each register_count_flt 0 (λ i mem. store_double mem (sp_addr0 + 16 * i) (f i)) mem

  -- The group f after an iteration: AES rounds with the group e as keys (V2), or xor.
  unfoldable pub mix_floats : Bool → (ℕ → Vec) → (ℕ → Vec) → ℕ → Vec
  unfolding count_up
  mix_floats v2 f e =
      if v2
      then count_up register_count_flt 0
          (λ i f.
            put
              (put (put (put f 0 (aesenc (f 0) (e i))) 1 (aesdec (f 1) (e i))) 2
                (aesenc (f 2) (e i)))
              3 (aesdec (f 3) (e i)))
          f
      else count_up register_count_flt 0 (λ i f. put f i (fp.xor (f i) (e i))) f

  -- `none` is undefined behaviour, or more rounds of the bytecode's loop than it was given.
  unfoldable pub machine_after : Outcome fp → Option (Machine fp)
  machine_after (finished m) = some m
  machine_after (running pc m) = none
  machine_after undefined = none

  -- `nreg` before the first iteration. Every iteration writes the groups f and e before it reads them.
  unfoldable pub native_registers : RandomxVm → Machine fp
  unfolding load_vec
  native_registers vm = record {
    r = λ i. 0;
    f = λ i. fp.set 0 0;
    e = λ i. fp.set 0 0;
    a = λ i. load_vec lanes vm.reg (a_offset + 16 * i);
    scratchpad = vm.scratchpad;
    rounding = vm.rounding;
    v2 = vm.flag_v2;
    e_mask0 = vm.config.e_mask0;
    e_mask1 = vm.config.e_mask1;
  }

  -- The register file at the end of `execute`.
  unfoldable pub store_registers : Machine fp → (ℕ → ℕ) → ℕ → ℕ
  unfolding count_up store_vec write_bytes
  store_registers m reg =
      let reg_r =
        count_up registers_count 0 (λ i reg. write_bytes 8 reg (r_offset + 8 * i) (m.r i)) reg in
      let reg_f =
        count_up register_count_flt 0 (λ i reg. store_vec lanes reg (f_offset + 16 * i) (m.f i))
          reg_r in
      count_up register_count_flt 0 (λ i reg. store_vec lanes reg (e_offset + 16 * i) (m.e i)) reg_f

  -- `initialize`: the group a goes to the register file.
  unfoldable pub initialize_vm : RandomxVm → RandomxVm
  unfolding initialize count_up write_bytes get_entropy
  initialize_vm vm =
      let start = initialize (get_entropy vm.program) in
      record vm {
        reg =
            count_up register_count_flt 0
              (λ i reg.
                write_bytes 8 (write_bytes 8 reg (a_offset + 16 * i) (start.a_lo i))
                  (a_offset + 16 * i + 8) (start.a_hi i))
              vm.reg;
        config = start;
        mx = start.mx;
        ma = start.ma;
      }

  -- `generateProgram`, from a seed of 64 bytes.
  unfoldable pub generate_program : (ℕ → ℕ) → RandomxVm → RandomxVm
  unfolding fill_aes4rx4 load_state
  generate_program seed vm = record vm {
    program = fill_aes4rx4 lanes (load_state lanes seed 0) sizeof_program vm.program;
  }

  -- spAddr0 and spAddr1 of an iteration.
  unfoldable pub next_sp_addr0 : Initial → Loop fp → ℕ
  next_sp_addr0 config s =
      let sp_mix = bit_xor (s.machine.r config.read_reg0) (s.machine.r config.read_reg1) in
      bit_and (bit_xor s.sp_addr0 sp_mix % 2 ^ 32) scratchpad_l3_mask64

  unfoldable pub next_sp_addr1 : Initial → Loop fp → ℕ
  next_sp_addr1 config s =
      let sp_mix = bit_xor (s.machine.r config.read_reg0) (s.machine.r config.read_reg1) in
      bit_and (bit_xor s.sp_addr1 (sp_mix / 2 ^ 32) % 2 ^ 32) scratchpad_l3_mask64

  -- The registers that the bytecode of an iteration starts with.
  unfoldable pub load_iteration : ℕ → ℕ → Machine fp → Option (Machine fp)
  unfolding mix_integers load_floats mask_register_exponent_mantissa
  load_iteration sp_addr0 sp_addr1 m = do
    r ← mix_integers m.scratchpad sp_addr0 m.r
    f ← load_floats m.scratchpad sp_addr1 (λ x. x) m.f
    e ←
        load_floats m.scratchpad (sp_addr1 + 8 * register_count_flt)
          (mask_register_exponent_mantissa fp m) m.e
    some (record m { r = r; f = f; e = e })

  -- The end of an iteration, once the dataset is mixed in.
  unfoldable pub store_iteration : ℕ → ℕ → Machine fp → Option (Machine fp)
  unfolding store_integers store_floats mix_floats
  store_iteration sp_addr0 sp_addr1 m = do
    mem ← store_integers m.scratchpad sp_addr1 m.r
    let f = mix_floats m.v2 m.f m.e
    mem' ← store_floats mem sp_addr0 f
    some (record m { f = f; scratchpad = mem' })

  -- The memory registers change their roles. V2 mixes into `ma`, V1 into `mx`, before.
  unfoldable pub next_loop : Initial → Loop fp → Machine fp → Machine fp → Loop fp
  next_loop config s executed m =
      let mix = bit_xor (executed.r config.read_reg2) (executed.r config.read_reg3) in
      record {
        machine = m;
        mx = if executed.v2 then bit_xor s.ma mix % 2 ^ 32 else s.ma;
        ma = if executed.v2 then s.mx else bit_xor s.mx mix % 2 ^ 32;
        sp_addr0 = 0;
        sp_addr1 = 0;
      }

  -- The locals before the first iteration.
  unfoldable pub start_loop : RandomxVm → Loop fp
  unfolding native_registers
  start_loop vm = record {
    machine = native_registers vm;
    mx = vm.mx;
    ma = vm.ma;
    sp_addr0 = vm.mx;
    sp_addr1 = vm.ma;
  }

  -- The machine after the last iteration.
  unfoldable pub store_vm : RandomxVm → List InstructionByteCode → Loop fp → RandomxVm
  unfolding store_registers get_size
  store_vm vm compiled s = record vm {
    reg = store_registers s.machine vm.reg;
    mx = s.mx;
    ma = s.ma;
    scratchpad = s.machine.scratchpad;
    bytecode = compiled ++ drop (get_size vm.flag_v2) vm.bytecode;
    rounding = s.machine.rounding;
  }

  -- `rounds` bounds the rounds of the bytecode's loop; `dataset_read` is the machine's `datasetRead`.
  module _ (rounds : ℕ) (dataset_read : ℕ → (ℕ → ℕ) → Option (ℕ → ℕ)) where
    -- One iteration of `execute`.
    unfoldable pub iteration : Initial → List InstructionByteCode → Loop fp → Option (Loop fp)
    unfolding next_sp_addr0 next_sp_addr1 load_iteration machine_after execute_bytecode read_pointer
        store_iteration next_loop
    iteration config bytecode s = do
      let sp_addr0 = next_sp_addr0 config s
      let sp_addr1 = next_sp_addr1 config s
      m ← load_iteration sp_addr0 sp_addr1 s.machine
      m' ← machine_after (execute_bytecode fp rounds bytecode 0 m)
      r ← dataset_read (read_pointer config.dataset_offset s.ma) m'.r
      m'' ← store_iteration sp_addr0 sp_addr1 (record m' { r = r })
      some (next_loop config s m' m'')

    unfoldable pub iterations : ℕ → Initial → List InstructionByteCode → Loop fp → Option (Loop fp)
    unfolding iteration
    iterations zero config bytecode s = some s
    iterations (suc n) config bytecode s = do
      s' ← iteration config bytecode s
      iterations n config bytecode s'

    unfoldable pub execute : RandomxVm → Option RandomxVm
    unfolding iterations compile_program program_from get_size start_loop store_vm
    execute vm = do
      compiled ←
          compile_program (program_from vm.program 0 (take (get_size vm.flag_v2) vm.bytecode))
      s ← iterations program_iterations vm.config compiled (start_loop vm)
      some (store_vm vm compiled s)

    unfoldable pub run : (ℕ → ℕ) → RandomxVm → Option RandomxVm
    unfolding execute initialize_vm generate_program
    run seed vm = execute (initialize_vm (generate_program seed vm))
