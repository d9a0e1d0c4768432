-- ===== src/Tests/Mining.antt =====
-- Hashes and a mining thread on a machine with a whole program, over the stand-ins of the hash's tests.
use nminer.Prelude.{
  ◌%◌, ℕ, zero, suc, List, [], ◌∷◌, true, false, none, some, ◌≡◌, refl, replicate, arith,
}
use nminer.Word.{IsU64}
use nminer.Vm.Config.{program_size_v2}
use nminer.Vm.Bytecode.{InstructionByteCode}
use nminer.Job.Worker.{Worker, Seen, loop}
use nminer.Job.Worker.Held.{AllShares}
use nminer.Job.Worker.Shares.{new_worker}
use nminer.Hash.Machine.{RandomxVm}
use nminer.Hash.Dataset.{dataset_read}
use nminer.Hash.Calculate.{randomx_calculate_hash}
use nminer.Hash.Total.{IsVm, dataset_read-ReadsLines, randomx_calculate_hash-total}
use nminer.Hash.Total.Program.{AllWords}
use nminer.Hash.Mining.{randomx, randomx_laws, loop-RandomxShares}
use nminer.Tests.Vm.{blank}
use nminer.Tests.Hash.{lanes, blake, vm}
use nminer.Tests.Worker.{sent, sent-IsJob}

-- RANDOMX_PROGRAM_MAX_SIZE entries.
abbrev whole : RandomxVm
whole = record vm {
  program = λ addr. addr % 256;
  scratchpad = λ addr. 7;
  bytecode = replicate program_size_v2 blank;
}

replicate-AllWords :
    (n : ℕ) (ibc : InstructionByteCode) → IsU64 ibc.imm → AllWords (replicate n ibc)
replicate-AllWords zero ibc h = tt
replicate-AllWords (suc n) ibc h = (h, replicate-AllWords n ibc h)

whole-IsVm : IsVm true whole
whole-IsVm = record {
  version = refl;
  program_bytes = λ addr. omega arith;
  scratchpad_bytes = λ addr. omega arith;
  immediates = replicate-AllWords program_size_v2 blank (omega arith);
}

hash_example :
    (hash : List ℕ) × (vm' : RandomxVm) × (randomx_calculate_hash lanes blake 1153
        (dataset_read (λ addr. 5))
        (3 ∷ 4 ∷ [])
        whole
      ≡ some (hash, vm'))
    × (vm'.rounding ≡ whole.rounding)
    × IsVm true vm'
hash_example =
    randomx_calculate_hash-total lanes blake 1153 (λ addr. 5) true (3 ∷ 4 ∷ []) whole (omega arith)
      (λ addr. omega arith) whole-IsVm

abbrev drew : ℕ → Seen (randomx lanes blake 1153 (dataset_read (λ addr. 5)))
drew nonce = record {
  updating = false;
  acquired = none;
  version_after = 0;
  job_version = 1;
  current = sent;
  next_nonce = some nonce;
  flags = sent;
}

-- Two nonces, an update with a new machine, and one more nonce.
abbrev history : List (Seen (randomx lanes blake 1153 (dataset_read (λ addr. 5))))
history =
    drew 5
    ∷ drew 6
    ∷ (record (drew 0) { updating = true; acquired = some (whole, λ i. 0); version_after = 1 })
    ∷ drew 7
    ∷ []

mining_example :
    (w : Worker (randomx lanes blake 1153 (dataset_read (λ addr. 5)))) × (loop
        (randomx lanes blake 1153 (dataset_read (λ addr. 5)))
        history
        (new_worker
          (randomx lanes blake 1153 (dataset_read (λ addr. 5)))
          (randomx_laws lanes blake 1153
            (dataset_read (λ addr. 5))
            (omega arith)
            (dataset_read-ReadsLines (λ addr. 5) (λ addr. omega arith))
            true)
          (λ job. job ≡ sent)
          (whole, λ i. 0))
      ≡ some w)
    × AllShares
        (randomx lanes blake 1153 (dataset_read (λ addr. 5)))
        (randomx_laws lanes blake 1153
          (dataset_read (λ addr. 5))
          (omega arith)
          (dataset_read-ReadsLines (λ addr. 5) (λ addr. omega arith))
          true)
        (λ job. job ≡ sent)
        w.submitted
mining_example =
    loop-RandomxShares lanes blake 1153 (dataset_read (λ addr. 5)) (omega arith)
      (dataset_read-ReadsLines (λ addr. 5) (λ addr. omega arith)) true (λ job. job ≡ sent) history
      whole (λ i. 0) whole-IsVm
      (
        omega arith,
        omega arith,
        refl,
        sent-IsJob,
        tt,
        (
          omega arith,
          omega arith,
          refl,
          sent-IsJob,
          tt,
          (
            omega arith,
            omega arith,
            refl,
            sent-IsJob,
            whole-IsVm,
            (omega arith, omega arith, refl, sent-IsJob, tt, tt),
          ),
        ),
      )
