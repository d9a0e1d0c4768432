-- ===== src/Job/Worker/Shares.antt =====
-- What a mining thread submits, whatever it finds in the shared state.
use nminer.Prelude.{
  bind-some, ℕ, ◌-◌, ◌^◌, ◌≤◌, ◌<◌, List, [], ◌∷◌, true, false, Option, none, some, ◌>>=◌, ◌⊎◌, inl,
  inr, ◌≡◌, refl, sym, ap, ◌∙◌, if◌then◌else◌, arith, Bool-cases, Option-cases, subst, replicate,
  length-replicate,
}
use nminer.Job.State.{Job, max_blob_size}
use nminer.Job.Hasher.{Hasher, HasherLaws}
use nminer.Job.Worker.{Worker, Seen, flush_hash, work, renew_vm, take_job, iteration, loop}
use nminer.Job.Worker.Buffers.{IsJob}
use nminer.Job.Worker.Held.{AllShares, Good, Flushed, flush_hash-Flushed}
use nminer.Job.Worker.Taken.{take_job-Good}
use nminer.Job.Worker.Hashing.{flush_hash-Good, work-Good}

module _ (h : Hasher) (laws : HasherLaws h) (Known : Job → Type 0) where
  open laws use {IsHash, Holds, IsReady, first-Holds, next-IsHash, last-IsHash}

  -- The loads of the version, in order, are none before the one that gave `lo`; the jobs that are copied
  -- are known; and the machines that are acquired are ready.
  abbrev latest : Seen h → ℕ
  latest seen = if seen.updating then seen.version_after else seen.job_version

  abbrev AllReady : Option h.Vm → Type 0
  AllReady none = Unit
  AllReady (some vm) = IsReady vm

  abbrev pub IsHistory : ℕ → List (Seen h) → Type 0
  IsHistory lo [] = Unit
  IsHistory lo (seen ∷ rest) =
      (lo ≤ latest seen)
      × (latest seen < 2 ^ 32 - 1)
      × Known seen.current
      × IsJob seen.current
      × AllReady seen.acquired
      × IsHistory (latest seen) rest

  Good-shares :
      (lo : ℕ) (w : Worker h) → Good h laws Known lo w → AllShares h laws Known w.submitted
  unfolding Good
  Good-shares lo w good = good.0

  renew_vm-Good :
      (seen : Seen h) (lo : ℕ) (w : Worker h)
      → seen.version_after < 2 ^ 32 - 1
      → AllReady seen.acquired
      → Flushed h laws Known lo w
      → (w' : Worker h) × ((flush_hash h w >>= λ f. some (renew_vm h seen f)) ≡ some w')
        × AllShares h laws Known w'.submitted
        × ((w'.vm ≡ none) ⊎ Good h laws Known seen.version_after w')
  unfolding Flushed Good renew_vm
  renew_vm-Good seen lo w bound ready (f, e, shares, idle, _) = elim (Option-cases seen.acquired) [
    | inl gone ↦ (renew_vm h seen f, rw e refl, shares, inl gone)
    | inr (vm, got) ↦ (
      renew_vm h seen f,
      rw e refl,
      shares,
      inr (
        shares,
        inl (record {
          first = idle.first;
          machine = vm;
          has = got;
          ready = rw got at ready;
          room = idle.room;
          job = inr (inr (λ v later small same. omega arith));
        }),
      ),
    )
  ]

  Good-has : (lo : ℕ) (w : Worker h) → Good h laws Known lo w → (vm : h.Vm) × (w.vm ≡ some vm)
  unfolding Good
  Good-has lo w (all, inl idle) = (idle.machine, idle.has)
  Good-has lo w (all, inr (job, pending)) = (pending.machine, pending.has)

  iteration-updating :
      (seen : Seen h) (w : Worker h)
      → seen.updating ≡ true
      → iteration h seen w ≡ (flush_hash h w >>= λ f. some (renew_vm h seen f))
  unfolding iteration
  iteration-updating seen w e = rw e refl

  iteration-steady :
      (seen : Seen h) (w : Worker h)
      → seen.updating ≡ false
      → iteration h seen w ≡ (take_job h seen w >>= work h seen)
  unfolding iteration
  iteration-steady seen w e = rw e refl

  iteration-Good :
      (seen : Seen h) (lo : ℕ) (w : Worker h)
      → lo ≤ latest seen
      → latest seen < 2 ^ 32 - 1
      → Known seen.current
      → IsJob seen.current
      → AllReady seen.acquired
      → Good h laws Known lo w
      → (w' : Worker h) × (iteration h seen w ≡ some w')
        × AllShares h laws Known w'.submitted
        × ((w'.vm ≡ none) ⊎ Good h laws Known (latest seen) w')
  unfolding iteration
  iteration-Good seen lo w later bound known is ready good = elim (Bool-cases seen.updating) [
    | inl updating ↦
        let same : latest seen ≡ seen.version_after = rw updating refl in
        let (w', e, shares, on) =
          renew_vm-Good seen lo w (omega (arith, same, bound)) ready
            (flush_hash-Flushed h laws Known lo w good) in
        (
          w',
          iteration-updating seen w updating ∙ e,
          shares,
          subst (λ v. (w'.vm ≡ none) ⊎ Good h laws Known v w') (sym same) on,
        )
    | inr steady ↦
        let same : latest seen ≡ seen.job_version = rw steady refl in
        let (w', e, good', has) =
          take_job-Good h laws Known seen lo w known is (omega (arith, same, later))
            (omega (arith, same, bound)) good in
        let (w'', e', good'') = work-Good h laws Known seen seen.job_version w' good' has in
        (
          w'',
          iteration-steady seen w steady ∙ bind-some (take_job h seen w) w' (work h seen) e ∙ e',
          Good-shares seen.job_version w'' good'',
          inr (subst (λ v. Good h laws Known v w'') (sym same) good''),
        )
  ]

  goes_on : List (Seen h) → Worker h → Option h.Vm → Option (Worker h)
  goes_on rest w none = some w
  goes_on rest w (some vm) = loop h rest w

  loop-gone :
      (seen : Seen h) (rest : List (Seen h)) (w w' : Worker h)
      → iteration h seen w ≡ some w'
      → w'.vm ≡ none
      → loop h (seen ∷ rest) w ≡ some w'
  unfolding loop goes_on
  loop-gone seen rest w w' e gone =
      bind-some (iteration h seen w) w' _ e ∙ ap (goes_on rest w') gone

  loop-on :
      (seen : Seen h) (rest : List (Seen h)) (w w' : Worker h) (vm : h.Vm)
      → iteration h seen w ≡ some w'
      → w'.vm ≡ some vm
      → loop h (seen ∷ rest) w ≡ loop h rest w'
  unfolding loop goes_on
  loop-on seen rest w w' vm e has = bind-some (iteration h seen w) w' _ e ∙ ap (goes_on rest w') has

  loop-Good :
      (history : List (Seen h)) (lo : ℕ) (w : Worker h)
      → IsHistory lo history
      → Good h laws Known lo w
      → (w' : Worker h) × (loop h history w ≡ some w') × AllShares h laws Known w'.submitted
  unfolding loop
  loop-Good [] lo w _ good =
      let (w', e, good') =
        flush_hash-Good h laws Known lo w (flush_hash-Flushed h laws Known lo w good) in
      (w', e, Good-shares lo w' good')
  loop-Good (seen ∷ rest) lo w (later, bound, known, is, ready, on) good =
      let (w', e, shares, next) = iteration-Good seen lo w later bound known is ready good in
      elim next [
        | inl gone ↦ (w', loop-gone seen rest w w' e gone, shares)
        | inr good' ↦
            let (vm, has) = Good-has (latest seen) w' good' in
            let (w'', e', shares') = loop-Good rest (latest seen) w' on good' in
            (w'', loop-on seen rest w w' vm e has ∙ e', shares')
      ]

  -- The locals that `Loop` starts with, on a machine that `AcquireVm` gave.
  abbrev pub new_worker : h.Vm → Worker h
  new_worker vm = record {
    vm = some vm;
    size = 0;
    target = 0;
    version = 0;
    is_first = true;
    cur = replicate max_blob_size 0;
    nxt = replicate max_blob_size 0;
    submitted = [];
    hashes = 0;
  }

  -- Whatever interleaving of jobs, updates, nonces and acquired machines a thread meets, in fewer than 2 ^ 32 - 1
  -- versions, its loop ends with it, and each result that it submitted is one of a job that it copied: the
  -- nonce stands in a blob that is the job's but for those four bytes, the result is the hash of that
  -- blob and meets the job's target, and the version is the job's.
  pub loop-AllShares :
      (history : List (Seen h)) (vm : h.Vm)
      → IsReady vm
      → IsHistory 0 history
      → (w : Worker h) × (loop h history (new_worker vm) ≡ some w)
        × AllShares h laws Known w.submitted
  unfolding Good
  loop-AllShares history vm ready is = loop-Good history 0 (new_worker vm) is (
    tt,
    inl (record {
      first = refl;
      machine = vm;
      has = refl;
      ready = ready;
      room = (length-replicate {A = ℕ} max_blob_size 0, length-replicate {A = ℕ} max_blob_size 0);
      job = inl refl;
    }),
  )
