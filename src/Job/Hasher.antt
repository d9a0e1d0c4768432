-- ===== src/Job/Hasher.antt =====
-- What the mining loop needs of `randomx_calculate_hash_first`, `_next` and `_last`: the operations, and
-- the laws that a machine gives.
use nminer.Prelude.{ℕ, List, Option, some, ◌≡◌}

pub record Hasher : Type 1 where
  -- A `randomx_vm`.
  pub Vm : Type 0
  pub first : List ℕ → Vm → Vm
  pub next : List ℕ → Vm → Option (List ℕ × Vm)
  pub last : Vm → Option (List ℕ × Vm)

-- `IsHash` relates an input to its hashes, and `Holds` a machine to the input whose hash is pending.
pub record HasherLaws (h : Hasher) : Type 1 where
  pub IsHash : List ℕ → List ℕ → Type 0
  pub Holds : h.Vm → List ℕ → Type 0
  -- Machines that a new one or a hash leaves.
  pub IsReady : h.Vm → Type 0
  pub first-Holds : (x : List ℕ) (vm : h.Vm) → IsReady vm → Holds (h.first x vm) x
  pub next-IsHash :
      (x y : List ℕ) (vm : h.Vm)
      → Holds vm x
      → (hash : List ℕ) × (vm' : h.Vm) × (h.next y vm ≡ some (hash, vm'))
        × IsHash x hash
        × Holds vm' y
  pub last-IsHash :
      (x : List ℕ) (vm : h.Vm)
      → Holds vm x
      → (hash : List ℕ) × (vm' : h.Vm) × (h.last vm ≡ some (hash, vm'))
        × IsHash x hash
        × IsReady vm'
