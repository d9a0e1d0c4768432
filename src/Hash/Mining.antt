-- ===== src/Hash/Mining.antt =====
-- The mining loop of src/rx_job.cpp over the interpreted machine of src/algo/randomx: the pipelined
-- hashes of randomx.cpp as the operations that the loop takes.
use nminer.Prelude.{
  ℕ, ◌+◌, ◌*◌, ◌≤◌, List, Bool, Option, some, ◌>>=◌, bind-some, ◌≡◌, refl, ap, ◌∙◌,
}
use nminer.Vm.Config.{program_size_v2}
use nminer.Vm.Machine.{Fpu}
use nminer.Job.{Job}
use nminer.Job.Hasher.{Hasher, HasherLaws}
use nminer.Job.Worker.{Worker, Seen, loop}
use nminer.Job.Worker.Held.{AllShares}
use nminer.Job.Worker.Shares.{IsHistory, new_worker, loop-AllShares}
use nminer.Hash.Vectors.{Lanes}
use nminer.Hash.Machine.{RandomxVm}
use nminer.Hash.Calculate.{
  Pending, temp_hash, get_final_result, run_programs, randomx_calculate_hash,
  randomx_calculate_hash_first, randomx_calculate_hash_next, randomx_calculate_hash_last,
}
use nminer.Hash.Calculate.Pipeline.{hash_and_fill_lem}
use nminer.Hash.Total.{
  IsVm, run_programs-total, randomx_calculate_hash_first-IsVm, get_final_result-IsVm,
}
use nminer.Hash.Total.Iteration.{ReadsLines}

module _ {fp : Fpu} (lanes : Lanes fp) (blake2b : ℕ → List ℕ → List ℕ) (rounds : ℕ)
    (dataset_read : ℕ → (ℕ → ℕ) → Option (ℕ → ℕ)) where
  -- A machine stands with the `tempHash` of the thread that has it.
  abbrev pub randomx : Hasher
  randomx = record {
    Vm = Pending;
    first = λ input pending. randomx_calculate_hash_first lanes blake2b input pending.0;
    next = λ input pending.
        randomx_calculate_hash_next lanes blake2b rounds dataset_read input pending;
    last = λ pending. do
      r ← randomx_calculate_hash_last lanes blake2b rounds dataset_read pending
      some (r.0, (r.1, pending.1));
  }

  -- What `randomx_calculate_hash` gives of the input on a machine of the version.
  abbrev pub IsRandomxHash : Bool → List ℕ → List ℕ → Type 0
  IsRandomxHash v2 input hash =
      (vm : RandomxVm) × (vm' : RandomxVm) × IsVm v2 vm
      × (randomx_calculate_hash lanes blake2b rounds dataset_read input vm ≡ some (hash, vm'))

  module _ (enough : 3 * program_size_v2 + 1 ≤ rounds) (reads : ReadsLines dataset_read)
      (v2 : Bool) where
    -- Where a hash was begun on a machine, its programs run and what they leave gives the hash.
    begun :
        (input : List ℕ) (vm : RandomxVm)
        → IsVm v2 vm
        → (vm' : RandomxVm) × (run_programs lanes blake2b rounds dataset_read
              (randomx_calculate_hash_first lanes blake2b input vm)
            ≡ some vm')
          × IsRandomxHash v2 input (get_final_result lanes blake2b vm').0
          × IsVm v2 (get_final_result lanes blake2b vm').1
    unfolding randomx_calculate_hash randomx_calculate_hash_first
    begun input vm good =
        let filled = randomx_calculate_hash_first lanes blake2b input vm in
        let (vm', e, good') =
          run_programs-total lanes rounds enough dataset_read reads v2 blake2b filled.0 filled.1
            (randomx_calculate_hash_first-IsVm lanes v2 blake2b input vm good) in
        (
          vm',
          e,
          (vm, _, good, bind-some (run_programs lanes blake2b rounds dataset_read filled) vm' _ e),
          get_final_result-IsVm lanes v2 blake2b vm' good',
        )

    -- A hash of the input is pending.
    abbrev pub IsBegun : Pending → List ℕ → Type 0
    IsBegun pending input =
        (vm : RandomxVm) × IsVm v2 vm
        × (pending ≡ randomx_calculate_hash_first lanes blake2b input vm)

    pub next-IsRandomxHash :
        (input next_input : List ℕ) (pending : Pending)
        → IsBegun pending input
        → (hash : List ℕ) × (pending' : Pending) × (randomx_calculate_hash_next lanes blake2b rounds
              dataset_read next_input pending
            ≡ some (hash, pending'))
          × IsRandomxHash v2 input hash
          × IsBegun pending' next_input
    unfolding randomx_calculate_hash_next randomx_calculate_hash_first
    next-IsRandomxHash input next_input pending (vm, good, same) =
        let (vm', e, hashed, good') = begun input vm good in
        let final = get_final_result lanes blake2b vm' in
        let seed = temp_hash lanes blake2b next_input in
        (
          final.0,
          randomx_calculate_hash_first lanes blake2b next_input final.1,
          bind-some (run_programs lanes blake2b rounds dataset_read pending) vm' _
                (ap (run_programs lanes blake2b rounds dataset_read) same ∙ e)
              ∙ ap some (hash_and_fill_lem lanes blake2b rounds dataset_read vm' seed),
          hashed,
          (final.1, good', refl),
        )

    pub last-IsRandomxHash :
        (input : List ℕ) (pending : Pending)
        → IsBegun pending input
        → (hash : List ℕ) × (vm' : RandomxVm) × (randomx_calculate_hash_last lanes blake2b rounds
              dataset_read pending
            ≡ some (hash, vm'))
          × IsRandomxHash v2 input hash
          × IsVm v2 vm'
    unfolding randomx_calculate_hash_last
    last-IsRandomxHash input pending (vm, good, same) =
        let (vm', e, hashed, good') = begun input vm good in
        let final = get_final_result lanes blake2b vm' in
        (
          final.0,
          final.1,
          bind-some (run_programs lanes blake2b rounds dataset_read pending) vm' _
              (ap (run_programs lanes blake2b rounds dataset_read) same ∙ e),
          hashed,
          good',
        )

    abbrev pub randomx_laws : HasherLaws randomx
    randomx_laws = record {
      IsHash = IsRandomxHash v2;
      Holds = IsBegun;
      IsReady = λ pending. IsVm v2 pending.0;
      first-Holds = λ input pending good. (pending.0, good, refl);
      next-IsHash = next-IsRandomxHash;
      last-IsHash = λ input pending begun.
          let (hash, vm', e, hashed, good) = last-IsRandomxHash input pending begun in
          (
            hash,
            (vm', pending.1),
            bind-some (randomx_calculate_hash_last lanes blake2b rounds dataset_read pending)
                (hash, vm') _ e,
            hashed,
            good,
          );
    }

    -- With at least three rounds of the bytecode's loop for each instruction and one more, and a
    -- `datasetRead` that gives words inside the dataset, a mining thread on the interpreted machine ends its
    -- loop whatever interleaving of jobs, updates, nonces and acquired machines of bytes it meets, in fewer than
    -- 2 ^ 32 - 1 versions, and each result submitted is one of a known job: of a blob that is the job's but for the nonce, with a hash that
    -- `randomx_calculate_hash` gives of it on a machine of the version and that meets the target.
    pub loop-RandomxShares :
        (Known : Job → Type 0) (history : List (Seen randomx)) (vm : RandomxVm) (temp : ℕ → ℕ)
        → IsVm v2 vm
        → IsHistory randomx randomx_laws Known 0 history
        → (w : Worker randomx) × (loop randomx history
              (new_worker randomx randomx_laws Known (vm, temp))
            ≡ some w)
          × AllShares randomx randomx_laws Known w.submitted
    loop-RandomxShares Known history vm temp good is =
        loop-AllShares randomx randomx_laws Known history (vm, temp) good is
