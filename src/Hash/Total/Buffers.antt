-- ===== src/Hash/Total/Buffers.antt =====
-- The buffers of a hash hold bytes whatever vectors are written to them, and accesses inside the
-- scratchpad succeed.
use nminer.Prelude.{ℕ, zero, suc, ◌+◌, ◌≤◌, ◌<◌, some, ◌≡◌, refl, le→leb}
use nminer.Word.{IsU64}
use nminer.Vm.Config.{scratchpad_l3_size}
use nminer.Vm.Machine.{Fpu, read_bytes, write_bytes, load64, store64}
use nminer.Vm.Execute.Operands.{read_bytes-lt, write_bytes-lt}
use nminer.Hash.Vectors.{Lanes, store_vec}
use nminer.Hash.Aes.{State, store_state, fill_loop, fill4_loop}
use nminer.Hash.Run.{store_double}

abbrev pub IsBytes : (ℕ → ℕ) → Type 0
IsBytes mem = (addr : ℕ) → mem addr < 256

pub load64-total :
    (mem : ℕ → ℕ) (addr : ℕ)
    → IsBytes mem
    → addr + 8 ≤ scratchpad_l3_size
    → (v : ℕ) × (load64 mem addr ≡ some v) × IsU64 v
unfolding load64
load64-total mem addr h inside =
    (read_bytes 8 mem addr, rw (le→leb _ _ inside) refl, read_bytes-lt 8 mem addr h)

pub store64-total :
    (mem : ℕ → ℕ) (addr v : ℕ)
    → IsBytes mem
    → addr + 8 ≤ scratchpad_l3_size
    → (mem' : ℕ → ℕ) × (store64 mem addr v ≡ some mem') × IsBytes mem'
unfolding store64
store64-total mem addr v h inside =
    (write_bytes 8 mem addr v, rw (le→leb _ _ inside) refl, write_bytes-lt 8 mem addr v h)

module _ {fp : Fpu} (lanes : Lanes fp) where
  store_vec-IsBytes :
      (mem : ℕ → ℕ) (addr : ℕ) (v : fp.Vec) → IsBytes mem → IsBytes (store_vec lanes mem addr v)
  unfolding store_vec
  store_vec-IsBytes mem addr v h =
      write_bytes-lt 8 (write_bytes 8 mem addr (lanes.bits v).0) (addr + 8) (lanes.bits v).1
        (write_bytes-lt 8 mem addr (lanes.bits v).0 h)

  pub store_double-total :
      (mem : ℕ → ℕ) (addr : ℕ) (v : fp.Vec)
      → IsBytes mem
      → addr + 16 ≤ scratchpad_l3_size
      → (mem' : ℕ → ℕ) × (store_double lanes mem addr v ≡ some mem') × IsBytes mem'
  unfolding store_double
  store_double-total mem addr v h inside =
      (store_vec lanes mem addr v, rw (le→leb _ _ inside) refl, store_vec-IsBytes mem addr v h)

  store_state-IsBytes :
      (mem : ℕ → ℕ) (addr : ℕ) (s : State fp) → IsBytes mem → IsBytes (store_state lanes mem addr s)
  unfolding store_state
  store_state-IsBytes mem addr s h =
      store_vec-IsBytes _ _ s.s3
        (store_vec-IsBytes _ _ s.s2 (store_vec-IsBytes _ _ s.s1 (store_vec-IsBytes _ _ s.s0 h)))

  pub fill_loop-IsBytes :
      (rounds : ℕ) (mem : ℕ → ℕ) (ptr : ℕ) (s : State fp)
      → IsBytes mem
      → IsBytes (fill_loop lanes rounds mem ptr s).0
  unfolding fill_loop
  fill_loop-IsBytes zero mem ptr s h = h
  fill_loop-IsBytes (suc rounds) mem ptr s h =
      fill_loop-IsBytes rounds _ _ _ (store_state-IsBytes mem ptr _ h)

  pub fill4_loop-IsBytes :
      (rounds : ℕ) (mem : ℕ → ℕ) (ptr : ℕ) (s : State fp)
      → IsBytes mem
      → IsBytes (fill4_loop lanes rounds mem ptr s)
  unfolding fill4_loop
  fill4_loop-IsBytes zero mem ptr s h = h
  fill4_loop-IsBytes (suc rounds) mem ptr s h =
      fill4_loop-IsBytes rounds _ _ _ (store_state-IsBytes mem ptr _ h)
