-- ===== src/Tests/Hash.antt =====
-- Hashes over stand-ins for the AES rounds, BLAKE2b and the floating-point unit.
use nminer.Prelude.{
  ℕ, ◌+◌, ◌*◌, ◌/◌, ◌%◌, ◌^◌, ◌<◌, List, [], ◌∷◌, none, true, ◌≡◌, refl, ◌∙◌, ap, bit_xor,
  replicate, arith, if◌then◌else◌, ◌==◌,
}
use nminer.Vm.Machine.{read_bytes}
use nminer.Vm.Initial.{initialize}
use nminer.Dataset.Item.{init_dataset_item, item_rounds, start_registers}
use nminer.Hash.Vectors.{Lanes}
use nminer.Hash.Aes.{State, prefetch_distance, hash_aes1rx4, fill_aes1rx4, hash_and_fill_aes1rx4}
use nminer.Hash.Aes.OnePass.{hash_and_fill-OnePass}
use nminer.Hash.Machine.{RandomxVm}
use nminer.Hash.Calculate.{randomx_calculate_hash, randomx_calculate_hash_first}
use nminer.Hash.Calculate.Pipeline.{one_by_one, pipelined, pipelined-one_by_one}
use nminer.Hash.Dataset.{dataset_read, dataset_read_light, line_at}
use nminer.Hash.Dataset.Modes.{HoldsItems, light-full}
use nminer.Tests.Vm.{integers}

abbrev pub lanes : Lanes integers
lanes = record {
  bits = λ v. (v % 2 ^ 64, v / 2 ^ 64 % 2 ^ 64);
  aesenc = λ state key. bit_xor state key;
  aesdec = λ state key. bit_xor state key;
}

abbrev pub blake : ℕ → List ℕ → List ℕ
blake size [] = replicate size 1
blake size (x ∷ xs) = replicate size x

abbrev seed : State integers
seed = record { s0 = 1; s1 = 2; s2 = 3; s3 = 4 }

hash_and_fill_example :
    hash_and_fill_aes1rx4 lanes (λ addr. addr % 256) (prefetch_distance + 64 * 3) seed ≡ (
      (fill_aes1rx4 lanes seed (prefetch_distance + 64 * 3) (λ addr. addr % 256)).0,
      hash_aes1rx4 lanes (λ addr. addr % 256) (prefetch_distance + 64 * 3),
      (fill_aes1rx4 lanes seed (prefetch_distance + 64 * 3) (λ addr. addr % 256)).1,
    )
hash_and_fill_example = hash_and_fill-OnePass lanes (λ addr. addr % 256) 3 seed

abbrev pub vm : RandomxVm
vm = record {
  program = λ addr. 0;
  reg = λ addr. 0;
  config = initialize (λ i. 0);
  mx = 0;
  ma = 0;
  flag_v2 = true;
  scratchpad = λ addr. 0;
  bytecode = [];
  rounding = 0;
}

pipelined_example :
    pipelined lanes blake 100
      (dataset_read (λ addr. 7))
      ((4 ∷ []) ∷ (5 ∷ 6 ∷ []) ∷ [])
      (randomx_calculate_hash_first lanes blake (3 ∷ []) vm)
    ≡ one_by_one lanes blake 100
        (dataset_read (λ addr. 7))
        ((3 ∷ []) ∷ (4 ∷ []) ∷ (5 ∷ 6 ∷ []) ∷ [])
        vm
pipelined_example =
    pipelined-one_by_one lanes blake 100 (dataset_read (λ addr. 7)) ((4 ∷ []) ∷ (5 ∷ 6 ∷ []) ∷ [])
      (3 ∷ []) vm

-- The dataset of a cache with no programs: the words are the registers that an item starts with.
abbrev byte : ℕ → ℕ → ℕ
byte word k = if k == 7 then word / 256 ^ 7 else word / 256 ^ k % 256

abbrev plain : ℕ → ℕ
plain addr = byte (start_registers (addr / 64) (addr % 64 / 8)) (addr % 8)

plain-byte :
    (n q k addr : ℕ)
    → q < 8
    → k < 8
    → addr ≡ 64 * n + 8 * q + k
    → plain addr ≡ byte (start_registers n q) k
plain-byte n q k addr hq hk e =
    ap (λ (i : ℕ). byte (start_registers i (addr % 64 / 8)) (addr % 8)) {x = addr / 64} {y = n}
      (omega arith)
    ∙ ap (λ (i : ℕ). byte (start_registers n i) (addr % 8)) {x = addr % 64 / 8} {y = q}
        (omega arith)
    ∙ ap (byte (start_registers n q)) {x = addr % 8} {y = k} (omega arith)

plain-line_at : (n q : ℕ) → q < 8 → start_registers n q ≡ line_at plain (64 * n) q
unfolding read_bytes
plain-line_at n q h =
    let at = 64 * n + 8 * q in
    omega (
      arith,
      plain-byte n q 0 at h (omega arith) (omega arith),
      plain-byte n q 1 (at + 1) h (omega arith) (omega arith),
      plain-byte n q 2 (at + 1 + 1) h (omega arith) (omega arith),
      plain-byte n q 3 (at + 1 + 1 + 1) h (omega arith) (omega arith),
      plain-byte n q 4 (at + 1 + 1 + 1 + 1) h (omega arith) (omega arith),
      plain-byte n q 5 (at + 1 + 1 + 1 + 1 + 1) h (omega arith) (omega arith),
      plain-byte n q 6 (at + 1 + 1 + 1 + 1 + 1 + 1) h (omega arith) (omega arith),
      plain-byte n q 7 (at + 1 + 1 + 1 + 1 + 1 + 1 + 1) h (omega arith) (omega arith),
    )

plain-HoldsItems : HoldsItems none (λ addr. 0) [] plain
unfolding init_dataset_item item_rounds
plain-HoldsItems n h = (start_registers n, refl, λ q p. plain-line_at n q p)

light-full_example :
    randomx_calculate_hash lanes blake 100 (dataset_read_light none (λ addr. 0) []) (3 ∷ []) vm
    ≡ randomx_calculate_hash lanes blake 100 (dataset_read plain) (3 ∷ []) vm
light-full_example =
    light-full lanes blake 100 none (λ addr. 0) plain [] (3 ∷ []) vm plain-HoldsItems
