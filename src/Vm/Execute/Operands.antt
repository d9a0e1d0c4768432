-- ===== src/Vm/Execute/Operands.antt =====
-- The operands of an entry that fits its type: what they read is a word, what they write keeps the
-- machine well-formed, and memory operands lie inside the scratchpad.
use nminer.Prelude.{
  ℕ, zero, suc, ◌+◌, ◌/◌, ◌%◌, ◌^◌, ◌<◌, true, some, leb, ◌==◌, ◌≡◌, refl, inl, inr, arith,
  Bool-cases, lt→ltb,
}
use native.Mathlib.Nat.{pow-suc}
use nminer.Word.{IsU64, add64}
use nminer.Word.Bits.{bit_and-le}
use nminer.Vm.Config.{scratchpad_l3_size}
use nminer.Vm.Bytecode.{
  Operand, int_reg, f_reg, e_reg, a_reg, zero_const, own_imm, InstructionByteCode,
}
use nminer.Vm.Bytecode.Executable.{IsIntReg, IsIntSrc, IsFloatDst, IsFloatSrc, InScratchpad}
use nminer.Vm.Machine.{Fpu, Machine, put, read_bytes, write_bytes, load64}
use nminer.Vm.Execute.{read_int, write_int, read_vec, write_vec, load_operand, scratchpad_address}

pub read_bytes-lt :
    (n : ℕ) (mem : ℕ → ℕ) (addr : ℕ) → ((i : ℕ) → mem i < 256) → read_bytes n mem addr < 256 ^ n
unfolding read_bytes
read_bytes-lt zero mem addr h = omega arith
read_bytes-lt (suc n) mem addr h =
    omega (arith, h addr, read_bytes-lt n mem (addr + 1) h, pow-suc 256 n)

pub put-lt :
    (mem : ℕ → ℕ) (k v bound : ℕ)
    → ((i : ℕ) → mem i < bound)
    → v < bound
    → (i : ℕ) → put mem k v i < bound
put-lt mem k v bound h lt i = elim (Bool-cases (k == i)) [
  | inl same ↦ rw same lt
  | inr other ↦ rw other (h i)
]

pub write_bytes-lt :
    (n : ℕ) (mem : ℕ → ℕ) (addr v : ℕ)
    → ((i : ℕ) → mem i < 256)
    → (i : ℕ) → write_bytes n mem addr v i < 256
unfolding write_bytes
write_bytes-lt zero mem addr v h = h
write_bytes-lt (suc n) mem addr v h =
    write_bytes-lt n (put mem addr (v % 256)) (addr + 1) (v / 256)
      (put-lt mem addr (v % 256) 256 h (omega arith))

module _ (fp : Fpu) where
  -- Registers are words and memory holds bytes.
  pub record IsMachine (m : Machine fp) : Type 0 where
    pub words : (k : ℕ) → m.r k < 2 ^ 64
    pub bytes : (addr : ℕ) → m.scratchpad addr < 256

  module _ (m : Machine fp) (good : IsMachine m) (ibc : InstructionByteCode) where
    pub read_int-lt :
        (op : Operand)
        → IsIntSrc op
        → IsU64 ibc.imm
        → (v : ℕ) × (read_int fp ibc op m ≡ some v) × IsU64 v
    unfolding read_int
    read_int-lt (int_reg k) h w = (m.r k, rw (lt→ltb k 8 h), good.words k)
    read_int-lt zero_const h w = (0, refl, omega arith)
    read_int-lt own_imm h w = (ibc.imm, refl, w)
    read_int-lt (f_reg k) h w = absurd h
    read_int-lt (e_reg k) h w = absurd h
    read_int-lt (a_reg k) h w = absurd h

    pub read_reg-lt :
        (op : Operand) → IsIntReg op → (v : ℕ) × (read_int fp ibc op m ≡ some v) × IsU64 v
    unfolding read_int
    read_reg-lt (int_reg k) h = (m.r k, rw (lt→ltb k 8 h), good.words k)
    read_reg-lt zero_const h = absurd h
    read_reg-lt own_imm h = absurd h
    read_reg-lt (f_reg k) h = absurd h
    read_reg-lt (e_reg k) h = absurd h
    read_reg-lt (a_reg k) h = absurd h

    pub write_int-IsMachine :
        (op : Operand) (v : ℕ)
        → IsIntReg op
        → IsU64 v
        → (m' : Machine fp) × (write_int fp op v m ≡ some m') × IsMachine m'
    unfolding write_int
    write_int-IsMachine (int_reg k) v h w = (
      record m { r = put m.r k v },
      rw (lt→ltb k 8 h),
      record { words = put-lt m.r k v (2 ^ 64) good.words w; bytes = good.bytes },
    )
    write_int-IsMachine zero_const v h w = absurd h
    write_int-IsMachine own_imm v h w = absurd h
    write_int-IsMachine (f_reg k) v h w = absurd h
    write_int-IsMachine (e_reg k) v h w = absurd h
    write_int-IsMachine (a_reg k) v h w = absurd h

    pub read_vec_dst : (op : Operand) → IsFloatDst op → (v : fp.Vec) × (read_vec fp op m ≡ some v)
    unfolding read_vec
    read_vec_dst (f_reg k) h = (m.f k, rw (lt→ltb k 4 h))
    read_vec_dst (e_reg k) h = (m.e k, rw (lt→ltb k 4 h))
    read_vec_dst (a_reg k) h = absurd h
    read_vec_dst (int_reg k) h = absurd h
    read_vec_dst zero_const h = absurd h
    read_vec_dst own_imm h = absurd h

    pub read_vec_src : (op : Operand) → IsFloatSrc op → (v : fp.Vec) × (read_vec fp op m ≡ some v)
    unfolding read_vec
    read_vec_src (a_reg k) h = (m.a k, rw (lt→ltb k 4 h))
    read_vec_src (f_reg k) h = absurd h
    read_vec_src (e_reg k) h = absurd h
    read_vec_src (int_reg k) h = absurd h
    read_vec_src zero_const h = absurd h
    read_vec_src own_imm h = absurd h

    pub write_vec-IsMachine :
        (op : Operand) (v : fp.Vec)
        → IsFloatDst op
        → (m' : Machine fp) × (write_vec fp op v m ≡ some m') × IsMachine m'
    unfolding write_vec
    write_vec-IsMachine (f_reg k) v h = (
      record m { f = put m.f k v },
      rw (lt→ltb k 4 h),
      record { words = good.words; bytes = good.bytes },
    )
    write_vec-IsMachine (e_reg k) v h = (
      record m { e = put m.e k v },
      rw (lt→ltb k 4 h),
      record { words = good.words; bytes = good.bytes },
    )
    write_vec-IsMachine (a_reg k) v h = absurd h
    write_vec-IsMachine (int_reg k) v h = absurd h
    write_vec-IsMachine zero_const v h = absurd h
    write_vec-IsMachine own_imm v h = absurd h

    pub address-le :
        (src : ℕ)
        → InScratchpad ibc
        → leb (scratchpad_address fp ibc src + 8) scratchpad_l3_size ≡ true
    address-le src h = ground (arith, bit_and-le (add64 src ibc.imm) ibc.mem_mask)

    pub load_operand-lt :
        IsIntSrc ibc.src
        → IsU64 ibc.imm
        → InScratchpad ibc
        → (v : ℕ) × (load_operand fp ibc m ≡ some v) × IsU64 v
    unfolding load_operand load64
    load_operand-lt h w inside =
        let (src, e, lt) = read_int-lt ibc.src h w in
        (
          read_bytes 8 m.scratchpad (scratchpad_address fp ibc src),
          rw (e, address-le src inside),
          read_bytes-lt 8 m.scratchpad _ good.bytes,
        )
