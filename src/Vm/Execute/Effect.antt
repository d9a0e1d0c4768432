-- ===== src/Vm/Execute/Effect.antt =====
-- What an instruction other than CBRANCH does to the program counter and to the integer registers that it
-- does not write.
use nminer.Prelude.{
  bind-some_inv, if-some_inv, ℕ, Bool, true, false, not, ◌||◌, Option, some, ◌≡◌, ◌≢◌, ◌⊎◌, inl,
  inr, ◌%◌, refl, sym, ap, ◌∙◌, ltb, ◌==◌, if◌then◌else◌, bit_and, arith,
}
use mathlib.Core.Option.{some-injective, none-ne-some}
use nminer.Vm.Config.{registers_count, register_count_flt}
use nminer.Vm.Instruction.{
  InstructionType, iadd_rs, iadd_m, isub_r, isub_m, imul_r, imul_m, imulh_r, imulh_m, ismulh_r,
  ismulh_m, imul_rcp, ineg_r, ixor_r, ixor_m, iror_r, irol_r, iswap_r, fswap_r, fadd_r, fadd_m,
  fsub_r, fsub_m, fscal_r, fmul_r, fdiv_m, fsqrt_r, cbranch, cfround, istore, nop,
}
use nminer.Vm.Bytecode.{
  Operand, int_reg, f_reg, e_reg, a_reg, zero_const, own_imm, InstructionByteCode,
}
use nminer.Word.{rotr, add64}
use nminer.Vm.Machine.{Fpu, Machine, put, store64}
use nminer.Vm.Execute.{
  mask_register_exponent_mantissa, read_int, write_int, read_vec, write_vec, load_operand, exe_int,
  exe_mem, exe_ineg_r, exe_iswap_r, exe_vec, exe_vec2, exe_vec_mem, exe_cfround, exe_istore,
  exe_nop, unreachable, executor, execute_instruction,
}

abbrev pub IsStraight : InstructionType → Type 0
IsStraight cbranch = ⊥
IsStraight _ = Unit

pub IsStraight-cases : (type : InstructionType) → IsStraight type ⊎ (type ≡ cbranch)
IsStraight-cases cbranch = inr refl
IsStraight-cases _ = inl tt

-- The operand is not this integer register.
abbrev pub Untouched : Operand → ℕ → Type 0
Untouched (int_reg j) k = j ≢ k
Untouched _ k = Unit

-- The instruction does not write this integer register.
abbrev pub Spares : InstructionType → InstructionByteCode → ℕ → Type 0
Spares iswap_r ibc k = Untouched ibc.dst k × Untouched ibc.src k
Spares fswap_r ibc k = Unit
Spares fadd_r ibc k = Unit
Spares fadd_m ibc k = Unit
Spares fsub_r ibc k = Unit
Spares fsub_m ibc k = Unit
Spares fscal_r ibc k = Unit
Spares fmul_r ibc k = Unit
Spares fdiv_m ibc k = Unit
Spares fsqrt_r ibc k = Unit
Spares cbranch ibc k = ⊥
Spares cfround ibc k = Unit
Spares istore ibc k = Unit
Spares nop ibc k = Unit
Spares _ ibc k = Untouched ibc.dst k

module _ (fp : Fpu) where
  write_int-Untouched :
      (dst : Operand) (v k : ℕ) (m m' : Machine fp)
      → write_int fp dst v m ≡ some m'
      → Untouched dst k
      → m'.r k ≡ m.r k
  unfolding write_int
  write_int-Untouched (int_reg j) v k m m' e h =
      let wrote : record m { r = put m.r j v } ≡ m' = if-some_inv (ltb j registers_count) _ m' e in
      ap (λ (n : Machine fp). n.r k) (sym wrote) ∙ ground (arith, h)
  write_int-Untouched (f_reg j) v k m m' e h = absurd (none-ne-some m' e)
  write_int-Untouched (e_reg j) v k m m' e h = absurd (none-ne-some m' e)
  write_int-Untouched (a_reg j) v k m m' e h = absurd (none-ne-some m' e)
  write_int-Untouched zero_const v k m m' e h = absurd (none-ne-some m' e)
  write_int-Untouched own_imm v k m m' e h = absurd (none-ne-some m' e)

  write_vec-same :
      (dst : Operand) (v : fp.Vec) (m m' : Machine fp) → write_vec fp dst v m ≡ some m' → m'.r ≡ m.r
  unfolding write_vec
  write_vec-same (f_reg j) v m m' e =
      ap (λ (n : Machine fp). n.r) (sym (if-some_inv (ltb j register_count_flt) _ m' e))
  write_vec-same (e_reg j) v m m' e =
      ap (λ (n : Machine fp). n.r) (sym (if-some_inv (ltb j register_count_flt) _ m' e))
  write_vec-same (a_reg j) v m m' e = absurd (none-ne-some m' e)
  write_vec-same (int_reg j) v m m' e = absurd (none-ne-some m' e)
  write_vec-same zero_const v m m' e = absurd (none-ne-some m' e)
  write_vec-same own_imm v m m' e = absurd (none-ne-some m' e)

  module _ (m : Machine fp) (ibc : InstructionByteCode) (next : ℕ) where
    -- Whatever the instruction leaves: the next program counter, and the register `k` as it was.
    Keeps : ℕ → Option (Machine fp × ℕ) → Type 0
    Keeps k result =
        (m' : Machine fp) (pc : ℕ) → result ≡ some (m', pc) → (pc ≡ next) × (m'.r k ≡ m.r k)

    -- An instruction that ends with a machine and goes on.
    ends :
        (k : ℕ) (last m' : Machine fp) (pc : ℕ)
        → last.r k ≡ m.r k
        → ◌≡◌ {A = Option (Machine fp × ℕ)} (some (last, next)) (some (m', pc))
        → (pc ≡ next) × (m'.r k ≡ m.r k)
    ends k last m' pc same e =
        let p = some-injective _ _ e in
        (
          sym (ap (λ (q : Machine fp × ℕ). q.1) p),
          sym (ap (λ (q : Machine fp × ℕ). q.0.r k) p) ∙ same,
        )

    exe_int-Keeps :
        (op : ℕ → ℕ → ℕ) (k : ℕ) → Untouched ibc.dst k → Keeps k (exe_int fp op ibc next m)
    unfolding exe_int Keeps
    exe_int-Keeps op k h m' pc e =
        let (d, _, e1) = bind-some_inv (read_int fp ibc ibc.dst m) _ _ e in
        let (s, _, e2) = bind-some_inv (read_int fp ibc ibc.src m) _ _ e1 in
        let (last, w, e3) = bind-some_inv (write_int fp ibc.dst (op d s) m) _ _ e2 in
        ends k last m' pc (write_int-Untouched ibc.dst (op d s) k m last w h) e3

    exe_mem-Keeps :
        (op : ℕ → ℕ → ℕ) (k : ℕ) → Untouched ibc.dst k → Keeps k (exe_mem fp op ibc next m)
    unfolding exe_mem Keeps
    exe_mem-Keeps op k h m' pc e =
        let (d, _, e1) = bind-some_inv (read_int fp ibc ibc.dst m) _ _ e in
        let (s, _, e2) = bind-some_inv (load_operand fp ibc m) _ _ e1 in
        let (last, w, e3) = bind-some_inv (write_int fp ibc.dst (op d s) m) _ _ e2 in
        ends k last m' pc (write_int-Untouched ibc.dst (op d s) k m last w h) e3

    exe_ineg_r-Keeps : (k : ℕ) → Untouched ibc.dst k → Keeps k (exe_ineg_r fp ibc next m)
    unfolding exe_ineg_r Keeps
    exe_ineg_r-Keeps k h m' pc e =
        let (d, _, e1) = bind-some_inv (read_int fp ibc ibc.dst m) _ _ e in
        let (last, w, e2) = bind-some_inv (write_int fp ibc.dst _ m) _ _ e1 in
        ends k last m' pc (write_int-Untouched ibc.dst _ k m last w h) e2

    exe_iswap_r-Keeps :
        (k : ℕ) → Untouched ibc.dst k × Untouched ibc.src k → Keeps k (exe_iswap_r fp ibc next m)
    unfolding exe_iswap_r Keeps
    exe_iswap_r-Keeps k h m' pc e =
        let (s, _, e1) = bind-some_inv (read_int fp ibc ibc.src m) _ _ e in
        let (d, _, e2) = bind-some_inv (read_int fp ibc ibc.dst m) _ _ e1 in
        let (mid, w, e3) = bind-some_inv (write_int fp ibc.src d m) _ _ e2 in
        let (last, w', e4) = bind-some_inv (write_int fp ibc.dst s mid) _ _ e3 in
        ends k last m' pc
          (write_int-Untouched ibc.dst s k mid last w' h.0
            ∙ write_int-Untouched ibc.src d k m mid w h.1)
          e4

    at_k : (k : ℕ) (last : Machine fp) → last.r ≡ m.r → last.r k ≡ m.r k
    at_k k last same = ap (λ (r : ℕ → ℕ). r k) same

    exe_vec-Keeps : (op : fp.Vec → fp.Vec) (k : ℕ) → Keeps k (exe_vec fp op ibc next m)
    unfolding exe_vec Keeps
    exe_vec-Keeps op k m' pc e =
        let (d, _, e1) = bind-some_inv (read_vec fp ibc.dst m) _ _ e in
        let (last, w, e2) = bind-some_inv (write_vec fp ibc.dst (op d) m) _ _ e1 in
        ends k last m' pc (at_k k last (write_vec-same ibc.dst (op d) m last w)) e2

    exe_vec2-Keeps : (op : fp.Vec → fp.Vec → fp.Vec) (k : ℕ) → Keeps k (exe_vec2 fp op ibc next m)
    unfolding exe_vec2 Keeps
    exe_vec2-Keeps op k m' pc e =
        let (d, _, e1) = bind-some_inv (read_vec fp ibc.dst m) _ _ e in
        let (s, _, e2) = bind-some_inv (read_vec fp ibc.src m) _ _ e1 in
        let (last, w, e3) = bind-some_inv (write_vec fp ibc.dst (op d s) m) _ _ e2 in
        ends k last m' pc (at_k k last (write_vec-same ibc.dst (op d s) m last w)) e3

    exe_vec_mem-Keeps :
        (op : fp.Vec → fp.Vec → fp.Vec) (k : ℕ) → Keeps k (exe_vec_mem fp op ibc next m)
    unfolding exe_vec_mem Keeps
    exe_vec_mem-Keeps op k m' pc e =
        let (s, _, e1) = bind-some_inv (load_operand fp ibc m) _ _ e in
        let (d, _, e2) = bind-some_inv (read_vec fp ibc.dst m) _ _ e1 in
        let (last, w, e3) =
          bind-some_inv (write_vec fp ibc.dst (op d (fp.cvt_packed_int s)) m) _ _ e2 in
        ends k last m' pc (at_k k last (write_vec-same ibc.dst _ m last w)) e3

    rounded-same :
        (changes : Bool) (mode k : ℕ)
        → (if changes then record m { rounding = mode } else m).r k ≡ m.r k
    rounded-same true mode k = refl
    rounded-same false mode k = refl

    exe_cfround-Keeps : (k : ℕ) → Keeps k (exe_cfround fp ibc next m)
    unfolding exe_cfround Keeps
    exe_cfround-Keeps k m' pc e =
        let (s, _, e1) = bind-some_inv (read_int fp ibc ibc.src m) _ _ e in
        ends k _ m' pc
          (rounded-same (not m.v2 || (bit_and (rotr s ibc.imm) 60 == 0)) (rotr s ibc.imm % 4) k) e1

    exe_istore-Keeps : (k : ℕ) → Keeps k (exe_istore fp ibc next m)
    unfolding exe_istore Keeps
    exe_istore-Keeps k m' pc e =
        let (d, _, e1) = bind-some_inv (read_int fp ibc ibc.dst m) _ _ e in
        let (s, _, e2) = bind-some_inv (read_int fp ibc ibc.src m) _ _ e1 in
        let (mem, _, e3) =
          bind-some_inv (store64 m.scratchpad (bit_and (add64 d ibc.imm) ibc.mem_mask) s) _ _ e2 in
        ends k (record m { scratchpad = mem }) m' pc refl e3

    unreachable-Keeps : (k : ℕ) → Keeps k (unreachable fp ibc next m)
    unfolding unreachable Keeps
    unreachable-Keeps k m' pc e = absurd (none-ne-some {A = Machine fp × ℕ} (m', pc) e)

    exe_nop-Keeps : (k : ℕ) → Keeps k (exe_nop fp ibc next m)
    unfolding exe_nop Keeps
    exe_nop-Keeps k m' pc e = ends k m m' pc refl e

    -- The program counter that comes next, and every register but those that the type writes.
    executor-Keeps :
        (type : InstructionType) (k : ℕ) → Spares type ibc k → Keeps k (executor fp type ibc next m)
    unfolding executor
    executor-Keeps iadd_rs k h = exe_int-Keeps _ k h
    executor-Keeps iadd_m k h = exe_mem-Keeps _ k h
    executor-Keeps isub_r k h = exe_int-Keeps _ k h
    executor-Keeps isub_m k h = exe_mem-Keeps _ k h
    executor-Keeps imul_r k h = exe_int-Keeps _ k h
    executor-Keeps imul_m k h = exe_mem-Keeps _ k h
    executor-Keeps imulh_r k h = exe_int-Keeps _ k h
    executor-Keeps imulh_m k h = exe_mem-Keeps _ k h
    executor-Keeps ismulh_r k h = exe_int-Keeps _ k h
    executor-Keeps ismulh_m k h = exe_mem-Keeps _ k h
    executor-Keeps imul_rcp k h = unreachable-Keeps k
    executor-Keeps ineg_r k h = exe_ineg_r-Keeps k h
    executor-Keeps ixor_r k h = exe_int-Keeps _ k h
    executor-Keeps ixor_m k h = exe_mem-Keeps _ k h
    executor-Keeps iror_r k h = exe_int-Keeps _ k h
    executor-Keeps irol_r k h = exe_int-Keeps _ k h
    executor-Keeps iswap_r k h = exe_iswap_r-Keeps k h
    executor-Keeps fswap_r k h = exe_vec-Keeps _ k
    executor-Keeps fadd_r k h = exe_vec2-Keeps _ k
    executor-Keeps fadd_m k h = exe_vec_mem-Keeps (fp.add m.rounding) k
    executor-Keeps fsub_r k h = exe_vec2-Keeps _ k
    executor-Keeps fsub_m k h = exe_vec_mem-Keeps (fp.sub m.rounding) k
    executor-Keeps fscal_r k h = exe_vec-Keeps _ k
    executor-Keeps fmul_r k h = exe_vec2-Keeps _ k
    executor-Keeps fdiv_m k h =
        exe_vec_mem-Keeps (λ d s. fp.div m.rounding d (mask_register_exponent_mantissa fp m s)) k
    executor-Keeps fsqrt_r k h = exe_vec-Keeps _ k
    executor-Keeps cbranch k h = absurd h
    executor-Keeps cfround k h = exe_cfround-Keeps k
    executor-Keeps istore k h = exe_istore-Keeps k
    executor-Keeps nop k h = exe_nop-Keeps k

  pub execute_instruction-Keeps :
      (m m' : Machine fp) (ibc : InstructionByteCode) (next pc k : ℕ)
      → Spares ibc.type ibc k
      → execute_instruction fp ibc next m ≡ some (m', pc)
      → (pc ≡ next) × (m'.r k ≡ m.r k)
  unfolding execute_instruction Keeps
  execute_instruction-Keeps m m' ibc next pc k spares e =
      executor-Keeps m ibc next ibc.type k spares m' pc e
