-- ===== src/Vm/Machine.antt =====
-- What the bytecode of bytecode_machine.hpp runs on: the registers, the scratchpad and the rounding
-- mode. The vectors of two doubles and their operations (intrin_portable.h over the processor's
-- floating-point unit) are a parameter.
use nminer.Prelude.{
  ℕ, zero, suc, ◌+◌, ◌*◌, ◌/◌, ◌%◌, Bool, Option, none, some, leb, ◌==◌, if◌then◌else◌,
}
use nminer.Vm.Config.{scratchpad_l3_size}

-- The operations on rx_vec_f128. The rounded ones take the rounding mode.
pub record Fpu : Type 1 where
  pub Vec : Type 0
  pub swap : Vec → Vec
  pub add : ℕ → Vec → Vec → Vec
  pub sub : ℕ → Vec → Vec → Vec
  pub mul : ℕ → Vec → Vec → Vec
  pub div : ℕ → Vec → Vec → Vec
  pub sqrt : ℕ → Vec → Vec
  pub xor : Vec → Vec → Vec
  pub and : Vec → Vec → Vec
  pub or : Vec → Vec → Vec
  -- The vector of two 64-bit patterns, the high one first.
  pub set : ℕ → ℕ → Vec
  -- Two 32-bit integers, as the 64-bit word that holds them.
  pub cvt_packed_int : ℕ → Vec

module _ (fp : Fpu) where
  -- `v2` is RANDOMX_FLAG_V2, `e_mask0` and `e_mask1` are config.eMask.
  pub record Machine : Type 0 where
    pub r : ℕ → ℕ
    pub f : ℕ → fp.Vec
    pub e : ℕ → fp.Vec
    pub a : ℕ → fp.Vec
    pub scratchpad : ℕ → ℕ
    pub rounding : ℕ
    pub v2 : Bool
    pub e_mask0 : ℕ
    pub e_mask1 : ℕ

abbrev pub put {ℓ} : {A : Type ℓ} → (ℕ → A) → ℕ → A → ℕ → A
put file k v j = if k == j then v else file j

-- `n` bytes from `addr` on, the first lowest.
unfoldable pub read_bytes : ℕ → (ℕ → ℕ) → ℕ → ℕ
read_bytes zero mem addr = 0
read_bytes (suc n) mem addr = mem addr + 256 * read_bytes n mem (addr + 1)

unfoldable pub write_bytes : ℕ → (ℕ → ℕ) → ℕ → ℕ → ℕ → ℕ
write_bytes zero mem addr v = mem
write_bytes (suc n) mem addr v = write_bytes n (put mem addr (v % 256)) (addr + 1) (v / 256)

-- load64 and store64 on the scratchpad; `none` is an access outside of it.
unfoldable pub load64 : (ℕ → ℕ) → ℕ → Option ℕ
unfolding read_bytes
load64 mem addr = if leb (addr + 8) scratchpad_l3_size then some (read_bytes 8 mem addr) else none

unfoldable pub store64 : (ℕ → ℕ) → ℕ → ℕ → Option (ℕ → ℕ)
unfolding write_bytes
store64 mem addr v =
    if leb (addr + 8) scratchpad_l3_size then some (write_bytes 8 mem addr v) else none
