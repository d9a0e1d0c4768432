-- ===== src/Hash/Vectors.antt =====
-- Vectors of 128 bits in memory: the loads and stores of intrin_portable.h, on bytes. The AES rounds
-- of the processor (`aesenc` and `aesdec`) are a parameter.
use nminer.Prelude.{ℕ, zero, suc, ◌+◌, ◌/◌, ◌%◌, ◌≤◌, ◌≡◌, refl, ◌∙◌, arith}
use mathlib.Core.Path.{ap₂}
use nminer.Vm.Machine.{Fpu, put, read_bytes, write_bytes}

-- What a vector holds, low half first, and one AES round on a state and a round key.
pub record Lanes (fp : Fpu) : Type 0 where
  pub bits : fp.Vec → ℕ × ℕ
  pub aesenc : fp.Vec → fp.Vec → fp.Vec
  pub aesdec : fp.Vec → fp.Vec → fp.Vec

write_bytes-above :
    (n : ℕ) (mem : ℕ → ℕ) (addr v i : ℕ) → addr + n ≤ i → write_bytes n mem addr v i ≡ mem i
unfolding write_bytes
write_bytes-above zero mem addr v i h = refl
write_bytes-above (suc n) mem addr v i h =
    write_bytes-above n (put mem addr (v % 256)) (addr + 1) (v / 256) i (omega arith) ∙ ground arith

pub read_bytes-ext :
    (n : ℕ) (mem mem' : ℕ → ℕ) (addr : ℕ)
    → ((i : ℕ) → addr ≤ i → mem i ≡ mem' i)
    → read_bytes n mem addr ≡ read_bytes n mem' addr
unfolding read_bytes
read_bytes-ext zero mem mem' addr h = refl
read_bytes-ext (suc n) mem mem' addr h =
    omega
      (arith, h addr (omega arith), read_bytes-ext n mem mem' (addr + 1) (λ i p. h i (omega arith)))

module _ {fp : Fpu} (lanes : Lanes fp) where
  open fp use {Vec}

  unfoldable pub load_vec : (ℕ → ℕ) → ℕ → Vec
  load_vec mem addr = fp.set (read_bytes 8 mem (addr + 8)) (read_bytes 8 mem addr)

  unfoldable pub store_vec : (ℕ → ℕ) → ℕ → Vec → ℕ → ℕ
  store_vec mem addr v =
      write_bytes 8 (write_bytes 8 mem addr (lanes.bits v).0) (addr + 8) (lanes.bits v).1

  pub store_vec-above :
      (mem : ℕ → ℕ) (addr : ℕ) (v : Vec) (i : ℕ) → addr + 16 ≤ i → store_vec mem addr v i ≡ mem i
  unfolding store_vec
  store_vec-above mem addr v i h =
      write_bytes-above 8 (write_bytes 8 mem addr (lanes.bits v).0) (addr + 8) (lanes.bits v).1 i
        (omega arith)
      ∙ write_bytes-above 8 mem addr (lanes.bits v).0 i (omega arith)

  pub load_vec-ext :
      (mem mem' : ℕ → ℕ) (addr : ℕ)
      → ((i : ℕ) → addr ≤ i → mem i ≡ mem' i)
      → load_vec mem addr ≡ load_vec mem' addr
  unfolding load_vec
  load_vec-ext mem mem' addr h =
      ap₂ fp.set (read_bytes-ext 8 mem mem' (addr + 8) (λ i p. h i (omega arith)))
        (read_bytes-ext 8 mem mem' addr h)
