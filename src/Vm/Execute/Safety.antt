-- ===== src/Vm/Execute/Safety.antt =====
-- `executeInstruction` on an entry that fits its type, operation by operation.
use nminer.Prelude.{
  ℕ, ◌%◌, ◌^◌, Bool, true, false, not, ◌||◌, Option, some, bit_and, bit_xor, ◌==◌, if◌then◌else◌,
  ◌≡◌, refl, ◌⊎◌, inl, inr, arith, Bool-cases,
}
use nminer.Word.{IsU64, add64, shl64, not64, rotr, rotl, mulh, smulh, shr, neg_and_63}
use nminer.Word.Bits.{bit_or-lt, bit_xor-lt}
use native.Mathlib.Nat.{div-le_self}
use nminer.Vm.Instruction.{
  InstructionType, iadd_rs, iadd_m, isub_r, isub_m, imul_r, imul_m, imulh_r, imulh_m, ismulh_r,
  ismulh_m, imul_rcp, ineg_r, ixor_r, ixor_m, iror_r, irol_r, iswap_r, fswap_r, fadd_r, fadd_m,
  fsub_r, fsub_m, fscal_r, fmul_r, fdiv_m, fsqrt_r, cbranch, cfround, istore, nop,
}
use nminer.Vm.Bytecode.{InstructionByteCode}
use nminer.Vm.Bytecode.Executable.{
  IsIntReg, IsIntSrc, IsFloatDst, IsFloatSrc, IntPair, InScratchpad, Fits, IsExecutable,
}
use nminer.Vm.Machine.{Fpu, Machine, write_bytes, store64}
use nminer.Vm.Execute.{
  after, exe_int, exe_mem, exe_vec, exe_vec2, exe_vec_mem, exe_ineg_r, exe_iswap_r, exe_cbranch,
  exe_cfround, exe_istore, executor, execute_instruction, mask_register_exponent_mantissa,
}
use nminer.Vm.Execute.Operands.{
  IsMachine, read_int-lt, read_reg-lt, write_int-IsMachine, read_vec_dst, read_vec_src,
  write_vec-IsMachine, address-le, load_operand-lt, write_bytes-lt,
}

abbrev Closed : (ℕ → ℕ → ℕ) → Type 0
Closed op = (x y : ℕ) → IsU64 x → IsU64 y → IsU64 (op x y)

mulh-Closed : Closed mulh
unfolding mulh
mulh-Closed x y p q = omega arith

smulh-Closed : Closed smulh
unfolding smulh
smulh-Closed x y p q = ground (arith, mulh-Closed x y)

rotr-Closed : Closed (λ x y. rotr x (bit_and y 63))
unfolding rotr
rotr-Closed x y p q =
    bit_or-lt 64 (shr x (bit_and y 63)) (shl64 x (neg_and_63 (bit_and y 63)))
      (omega (arith, div-le_self x (2 ^ bit_and y 63))) (omega arith)

rotl-Closed : Closed (λ x y. rotl x (bit_and y 63))
unfolding rotl
rotl-Closed x y p q =
    bit_or-lt 64 (shl64 x (bit_and y 63)) (shr x (neg_and_63 (bit_and y 63))) (omega arith)
      (omega (arith, div-le_self x (2 ^ neg_and_63 (bit_and y 63))))

module _ (fp : Fpu) where
  -- The instruction ran, the machine is well-formed, and the program counter is the one given.
  abbrev pub Runs : ℕ → Option (Machine fp × ℕ) → Type 0
  Runs next result = (m' : Machine fp) × (result ≡ some (m', next)) × IsMachine fp m'

  module _ (m : Machine fp) (good : IsMachine fp m) (ibc : InstructionByteCode) (next : ℕ) where
    exe_int-Runs : (op : ℕ → ℕ → ℕ) → Closed op → IntPair ibc → Runs next (exe_int fp op ibc next m)
    unfolding exe_int
    exe_int-Runs op closed h =
        let (d, ed, ld) = read_reg-lt fp m good ibc ibc.dst h.0 in
        let (s, es, ls) = read_int-lt fp m good ibc ibc.src h.1 h.2 in
        let (m', ew, g) =
          write_int-IsMachine fp m good ibc ibc.dst (op d s) h.0 (closed d s ld ls) in
        (m', rw (ed, es, ew), g)

    exe_mem-Runs :
        (op : ℕ → ℕ → ℕ)
        → Closed op
        → IntPair ibc × InScratchpad ibc
        → Runs next (exe_mem fp op ibc next m)
    unfolding exe_mem
    exe_mem-Runs op closed h =
        let (d, ed, ld) = read_reg-lt fp m good ibc ibc.dst h.0.0 in
        let (s, es, ls) = load_operand-lt fp m good ibc h.0.1 h.0.2 h.1 in
        let (m', ew, g) =
          write_int-IsMachine fp m good ibc ibc.dst (op d s) h.0.0 (closed d s ld ls) in
        (m', rw (ed, es, ew), g)

    exe_ineg_r-Runs : IsIntReg ibc.dst → Runs next (exe_ineg_r fp ibc next m)
    unfolding exe_ineg_r
    exe_ineg_r-Runs h =
        let (d, ed, ld) = read_reg-lt fp m good ibc ibc.dst h in
        let (m', ew, g) =
          write_int-IsMachine fp m good ibc ibc.dst (add64 (not64 d) 1) h (omega arith) in
        (m', rw (ed, ew), g)

    exe_iswap_r-Runs : IsIntReg ibc.dst × IsIntReg ibc.src → Runs next (exe_iswap_r fp ibc next m)
    unfolding exe_iswap_r
    exe_iswap_r-Runs h =
        let (s, es, ls) = read_reg-lt fp m good ibc ibc.src h.1 in
        let (d, ed, ld) = read_reg-lt fp m good ibc ibc.dst h.0 in
        let (m', ew, g) = write_int-IsMachine fp m good ibc ibc.src d h.1 ld in
        let (m'', ew', g') = write_int-IsMachine fp m' g ibc ibc.dst s h.0 ls in
        (m'', rw (es, ed, ew, ew'), g')

    exe_vec-Runs :
        (op : fp.Vec → fp.Vec) → IsFloatDst ibc.dst → Runs next (exe_vec fp op ibc next m)
    unfolding exe_vec
    exe_vec-Runs op h =
        let (d, ed) = read_vec_dst fp m good ibc ibc.dst h in
        let (m', ew, g) = write_vec-IsMachine fp m good ibc ibc.dst (op d) h in (m', rw (ed, ew), g)

    exe_vec2-Runs :
        (op : fp.Vec → fp.Vec → fp.Vec)
        → IsFloatDst ibc.dst × IsFloatSrc ibc.src
        → Runs next (exe_vec2 fp op ibc next m)
    unfolding exe_vec2
    exe_vec2-Runs op h =
        let (d, ed) = read_vec_dst fp m good ibc ibc.dst h.0 in
        let (s, es) = read_vec_src fp m good ibc ibc.src h.1 in
        let (m', ew, g) = write_vec-IsMachine fp m good ibc ibc.dst (op d s) h.0 in
        (m', rw (ed, es, ew), g)

    exe_vec_mem-Runs :
        (op : fp.Vec → fp.Vec → fp.Vec)
        → IsFloatDst ibc.dst × IsIntSrc ibc.src × IsU64 ibc.imm × InScratchpad ibc
        → Runs next (exe_vec_mem fp op ibc next m)
    unfolding exe_vec_mem
    exe_vec_mem-Runs op h =
        let (s, es, ls) = load_operand-lt fp m good ibc h.1 h.2 h.3 in
        let (d, ed) = read_vec_dst fp m good ibc ibc.dst h.0 in
        let (m', ew, g) =
          write_vec-IsMachine fp m good ibc ibc.dst (op d (fp.cvt_packed_int s)) h.0 in
        (m', rw (es, ed, ew), g)

    rounded :
        (changes : Bool) (mode : ℕ)
        → IsMachine fp (if changes then record m { rounding = mode } else m)
    rounded true mode = record { words = good.words; bytes = good.bytes }
    rounded false mode = good

    exe_cfround-Runs : IsIntSrc ibc.src × IsU64 ibc.imm → Runs next (exe_cfround fp ibc next m)
    unfolding exe_cfround
    exe_cfround-Runs h =
        let (s, es, ls) = read_int-lt fp m good ibc ibc.src h.0 h.1 in
        let s' = rotr s ibc.imm in
        let changes = not m.v2 || (bit_and s' 60 == 0) in
        (if changes then record m { rounding = s' % 4 } else m, rw es, rounded changes (s' % 4))

    exe_istore-Runs :
        IsIntReg ibc.dst × IsIntSrc ibc.src × IsU64 ibc.imm × InScratchpad ibc
        → Runs next (exe_istore fp ibc next m)
    unfolding exe_istore store64
    exe_istore-Runs h =
        let (d, ed, ld) = read_reg-lt fp m good ibc ibc.dst h.0 in
        let (s, es, ls) = read_int-lt fp m good ibc ibc.src h.1 h.2 in
        (
          record m {
            scratchpad = write_bytes 8 m.scratchpad (bit_and (add64 d ibc.imm) ibc.mem_mask) s;
          },
          rw (ed, es, address-le fp m good ibc d h.3),
          record { words = good.words; bytes = write_bytes-lt 8 m.scratchpad _ s good.bytes },
        )

    -- A branch that is taken goes on after its target.
    exe_cbranch-Runs :
        IsIntReg ibc.dst × IsU64 ibc.imm
        → Runs next (exe_cbranch fp ibc next m)
          ⊎ Runs (after ibc.target) (exe_cbranch fp ibc next m)
    unfolding exe_cbranch
    exe_cbranch-Runs h =
        let (d, ed, ld) = read_reg-lt fp m good ibc ibc.dst h.0 in
        let d' = add64 d ibc.imm in
        let (m', ew, g) = write_int-IsMachine fp m good ibc ibc.dst d' h.0 (omega arith) in
        elim (Bool-cases (bit_and d' ibc.mem_mask == 0)) [
          | inl taken ↦ inr (m', rw (ed, ew, taken), g)
          | inr passed ↦ inl (m', rw (ed, ew, passed), g)
        ]

    abbrev Continues : Option (Machine fp × ℕ) → Type 0
    Continues result = Runs next result ⊎ Runs (after ibc.target) result

    executor-Continues :
        (type : InstructionType) → Fits type ibc → Continues (executor fp type ibc next m)
    unfolding executor
    executor-Continues iadd_rs h = inl (exe_int-Runs _ (λ x y p q. omega arith) h)
    executor-Continues iadd_m h = inl (exe_mem-Runs _ (λ x y p q. omega arith) h)
    executor-Continues isub_r h = inl (exe_int-Runs _ (λ x y p q. omega arith) h)
    executor-Continues isub_m h = inl (exe_mem-Runs _ (λ x y p q. omega arith) h)
    executor-Continues imul_r h = inl (exe_int-Runs _ (λ x y p q. omega arith) h)
    executor-Continues imul_m h = inl (exe_mem-Runs _ (λ x y p q. omega arith) h)
    executor-Continues imulh_r h = inl (exe_int-Runs mulh mulh-Closed h)
    executor-Continues imulh_m h = inl (exe_mem-Runs mulh mulh-Closed h)
    executor-Continues ismulh_r h = inl (exe_int-Runs smulh smulh-Closed h)
    executor-Continues ismulh_m h = inl (exe_mem-Runs smulh smulh-Closed h)
    executor-Continues imul_rcp h = absurd h
    executor-Continues ineg_r h = inl (exe_ineg_r-Runs h)
    executor-Continues ixor_r h = inl (exe_int-Runs bit_xor (bit_xor-lt 64) h)
    executor-Continues ixor_m h = inl (exe_mem-Runs bit_xor (bit_xor-lt 64) h)
    executor-Continues iror_r h = inl (exe_int-Runs _ rotr-Closed h)
    executor-Continues irol_r h = inl (exe_int-Runs _ rotl-Closed h)
    executor-Continues iswap_r h = inl (exe_iswap_r-Runs h)
    executor-Continues fswap_r h = inl (exe_vec-Runs _ h)
    executor-Continues fadd_r h = inl (exe_vec2-Runs _ h)
    executor-Continues fadd_m h = inl (exe_vec_mem-Runs (fp.add m.rounding) h)
    executor-Continues fsub_r h = inl (exe_vec2-Runs _ h)
    executor-Continues fsub_m h = inl (exe_vec_mem-Runs (fp.sub m.rounding) h)
    executor-Continues fscal_r h = inl (exe_vec-Runs _ h)
    executor-Continues fmul_r h = inl (exe_vec2-Runs _ h)
    executor-Continues fdiv_m h =
        inl
          (exe_vec_mem-Runs (λ d s. fp.div m.rounding d (mask_register_exponent_mantissa fp m s)) h)
    executor-Continues fsqrt_r h = inl (exe_vec-Runs _ h)
    executor-Continues cbranch h = exe_cbranch-Runs h
    executor-Continues cfround h = inl (exe_cfround-Runs h)
    executor-Continues istore h = inl (exe_istore-Runs h)
    executor-Continues nop h = inl (m, refl, good)

  -- An entry that fits its type runs on every well-formed machine, without undefined behaviour; it
  -- leaves a well-formed machine, and goes on with the next entry or the one after its target.
  pub execute_instruction-Continues :
      (m : Machine fp) (ibc : InstructionByteCode) (next : ℕ)
      → IsMachine fp m
      → IsExecutable ibc
      → Runs next (execute_instruction fp ibc next m)
        ⊎ Runs (after ibc.target) (execute_instruction fp ibc next m)
  unfolding execute_instruction
  execute_instruction-Continues m ibc next good h = executor-Continues m good ibc next ibc.type h
