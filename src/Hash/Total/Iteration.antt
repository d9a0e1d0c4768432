-- ===== src/Hash/Total/Iteration.antt =====
-- An iteration of `execute` succeeds: every load, store and read of the dataset that it makes is inside.
use nminer.Prelude.{
  ℕ, zero, suc, ◌+◌, ◌*◌, ◌^◌, ◌≤◌, ◌<◌, List, Option, some, ◌≡◌, refl, arith, bit_xor, ◌>>=◌,
  for_each-total,
}
use nminer.Word.Bits.{bit_and-le, bit_xor-lt}
use nminer.Vm.Config.{
  scratchpad_l3_size, scratchpad_l3_mask64, registers_count, register_count_flt, cache_line_size,
  dataset_size,
}
use nminer.Vm.Machine.{Fpu, Machine, put, load64}
use nminer.Vm.Execute.{mask_register_exponent_mantissa}
use nminer.Vm.Execute.Operands.{IsMachine, put-lt}
use nminer.Vm.Bytecode.{InstructionByteCode}
use nminer.Vm.Run.{finished, execute_bytecode}
use nminer.Vm.Initial.{initialize, read_pointer}
use nminer.Vm.Initial.Bounds.{read_pointer-bounds}
use nminer.Hash.Vectors.{Lanes}
use nminer.Hash.Run.{
  Loop, mix_integers, load_floats, store_integers, store_floats, mix_floats, machine_after,
  next_sp_addr0, next_sp_addr1, load_iteration, store_iteration, next_loop, iteration, iterations,
}
use nminer.Hash.Total.Buffers.{IsBytes, load64-total, store64-total, store_double-total}

-- Registers that are words.
abbrev pub AreWords : (ℕ → ℕ) → Type 0
AreWords r = (k : ℕ) → r k < 2 ^ 64

-- Inside the dataset, a read gives words to registers that are words.
abbrev pub ReadsLines : (ℕ → (ℕ → ℕ) → Option (ℕ → ℕ)) → Type 0
ReadsLines dataset_read =
    (address : ℕ) (r : ℕ → ℕ)
    → AreWords r
    → address + cache_line_size ≤ dataset_size
    → (r' : ℕ → ℕ) × (dataset_read address r ≡ some r') × AreWords r'

module _ {fp : Fpu} (lanes : Lanes fp) where
  open fp use {Vec}

  module _ (mem : ℕ → ℕ) (bytes : IsBytes mem) (addr : ℕ) where
    mix_integers-total :
        (r : ℕ → ℕ)
        → AreWords r
        → addr + 64 ≤ scratchpad_l3_size
        → (r' : ℕ → ℕ) × (mix_integers lanes mem addr r ≡ some r') × AreWords r'
    unfolding mix_integers
    mix_integers-total r words inside =
        for_each-total AreWords registers_count 0
          (λ i r. do word ← load64 mem (addr + 8 * i); some (put r i (bit_xor (r i) word))) r
          (λ i r lt words.
            let (v, e, h) = load64-total mem (addr + 8 * i) bytes (omega (arith, inside)) in
            (
              put r i (bit_xor (r i) v),
              rw e refl,
              put-lt r i (bit_xor (r i) v) (2 ^ 64) words (bit_xor-lt 64 (r i) v (words i) h),
            ))
          words

    load_floats-total :
        (close : Vec → Vec) (file : ℕ → Vec)
        → addr + 32 ≤ scratchpad_l3_size
        → (file' : ℕ → Vec) × (load_floats lanes mem addr close file ≡ some file')
    unfolding load_floats
    load_floats-total close file inside =
        let (file', e, _) =
          for_each-total {0, 0} (λ _. Unit) register_count_flt 0
            (λ i file. do
              word ← load64 mem (addr + 8 * i)
              some (put file i (close (fp.cvt_packed_int word))))
            file
            (λ i file lt _.
              let (v, e, h) = load64-total mem (addr + 8 * i) bytes (omega (arith, inside)) in
              (put file i (close (fp.cvt_packed_int v)), rw e refl, tt))
            tt in
        (file', e)

    store_integers-total :
        (r : ℕ → ℕ)
        → addr + 64 ≤ scratchpad_l3_size
        → (mem' : ℕ → ℕ) × (store_integers lanes mem addr r ≡ some mem') × IsBytes mem'
    unfolding store_integers
    store_integers-total r inside =
        for_each-total IsBytes registers_count 0 _ mem
          (λ i mem lt h. store64-total mem (addr + 8 * i) (r i) h (omega (arith, inside))) bytes

    store_floats-total :
        (f : ℕ → Vec)
        → addr + 64 ≤ scratchpad_l3_size
        → (mem' : ℕ → ℕ) × (store_floats lanes mem addr f ≡ some mem') × IsBytes mem'
    unfolding store_floats
    store_floats-total f inside =
        for_each-total IsBytes register_count_flt 0 _ mem
          (λ i mem lt h.
            store_double-total lanes mem (addr + 16 * i) (f i) h (omega (arith, inside)))
          bytes

  load_iteration-total :
      (sp_addr0 sp_addr1 : ℕ) (m : Machine fp)
      → IsMachine fp m
      → sp_addr0 + 64 ≤ scratchpad_l3_size
      → sp_addr1 + 64 ≤ scratchpad_l3_size
      → (m' : Machine fp) × (load_iteration lanes sp_addr0 sp_addr1 m ≡ some m') × IsMachine fp m'
  unfolding load_iteration
  load_iteration-total sp_addr0 sp_addr1 m good in0 in1 =
      let (r, er, words) = mix_integers-total m.scratchpad good.bytes sp_addr0 m.r good.words in0 in
      let (f, ef) =
        load_floats-total m.scratchpad good.bytes sp_addr1 (λ x. x) m.f (omega (arith, in1)) in
      let (e, ee) =
        load_floats-total m.scratchpad good.bytes (sp_addr1 + 8 * register_count_flt)
          (mask_register_exponent_mantissa fp m) m.e (omega (arith, in1)) in
      (
        record m { r = r; f = f; e = e },
        rw (er, ef, ee) refl,
        record { words = words; bytes = good.bytes },
      )

  store_iteration-total :
      (sp_addr0 sp_addr1 : ℕ) (m : Machine fp)
      → IsMachine fp m
      → sp_addr0 + 64 ≤ scratchpad_l3_size
      → sp_addr1 + 64 ≤ scratchpad_l3_size
      → (m' : Machine fp) × (store_iteration lanes sp_addr0 sp_addr1 m ≡ some m') × IsMachine fp m'
  unfolding store_iteration
  store_iteration-total sp_addr0 sp_addr1 m good in0 in1 =
      let (mem, ei, bytes) = store_integers-total m.scratchpad good.bytes sp_addr1 m.r in1 in
      let f = mix_floats lanes m.v2 m.f m.e in
      let (mem', ef, bytes') = store_floats-total mem bytes sp_addr0 f in0 in
      (
        record m { f = f; scratchpad = mem' },
        rw (ei, ef) refl,
        record { words = good.words; bytes = bytes' },
      )

  module _ (rounds : ℕ) (dataset_read : ℕ → (ℕ → ℕ) → Option (ℕ → ℕ))
      (reads : ReadsLines dataset_read) (entropy : ℕ → ℕ) (bytecode : List InstructionByteCode)
      (ends : (m : Machine fp)
        → IsMachine fp m
        → (m' : Machine fp) × (execute_bytecode fp rounds bytecode 0 m ≡ finished m')
          × IsMachine fp m') where
    -- From a well-formed machine to a well-formed machine.
    iteration-total :
        (s : Loop fp)
        → IsMachine fp s.machine
        → (s' : Loop fp) × (iteration lanes rounds dataset_read (initialize entropy) bytecode s
            ≡ some s')
          × IsMachine fp s'.machine
    unfolding iteration next_loop machine_after next_sp_addr0 next_sp_addr1
    iteration-total s good =
        let config = initialize entropy in
        let in0 : next_sp_addr0 lanes config s + 64 ≤ scratchpad_l3_size =
          omega (arith, bit_and-le _ scratchpad_l3_mask64) in
        let in1 : next_sp_addr1 lanes config s + 64 ≤ scratchpad_l3_size =
          omega (arith, bit_and-le _ scratchpad_l3_mask64) in
        let (m, el, good1) = load_iteration-total _ _ s.machine good in0 in1 in
        let (m', ex, good2) = ends m good1 in
        let (r, ed, words) =
          reads (read_pointer config.dataset_offset s.ma) m'.r good2.words
            (read_pointer-bounds entropy s.ma).0 in
        let (m'', es, good3) =
          store_iteration-total _ _ (record m' { r = r })
            (record { words = words; bytes = good2.bytes }) in0 in1 in
        (next_loop lanes config s m' m'', rw (el, ex, ed, es) refl, good3)

    pub iterations-total :
        (n : ℕ) (s : Loop fp)
        → IsMachine fp s.machine
        → (s' : Loop fp) × (iterations lanes rounds dataset_read n (initialize entropy) bytecode s
            ≡ some s')
          × IsMachine fp s'.machine
    unfolding iterations
    iterations-total zero s good = (s, refl, good)
    iterations-total (suc n) s good =
        let (s1, e1, good1) = iteration-total s good in
        let (s2, e2, good2) = iterations-total n s1 good1 in (s2, rw e1 e2, good2)
