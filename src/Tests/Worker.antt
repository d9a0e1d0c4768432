-- ===== src/Tests/Worker.antt =====
-- A mining thread over a stand-in for the hash.
use nminer.Prelude.{
  ℕ, List, [], ◌∷◌, true, false, none, some, ◌≡◌, refl, inr, replicate, arith, length-replicate,
}
use nminer.Job.{Job}
use nminer.Job.Hasher.{Hasher, HasherLaws}
use nminer.Job.Worker.{Worker, Seen, loop}
use nminer.Job.Worker.Buffers.{IsJob}
use nminer.Job.Worker.Held.{AllShares}
use nminer.Job.Worker.Shares.{new_worker, loop-AllShares}
use nminer.Tests.{small_job}

-- A machine that remembers its input, and the hash of 32 zeros.
abbrev memory : Hasher
memory = record {
  Vm = List ℕ;
  first = λ x vm. x;
  next = λ y vm. some (replicate 32 0, y);
  last = λ vm. some (replicate 32 0, vm);
}

abbrev memory_laws : HasherLaws memory
memory_laws = record {
  IsHash = λ x hash. hash ≡ replicate 32 0;
  Holds = λ vm x. vm ≡ x;
  IsReady = λ vm. Unit;
  first-Holds = λ x vm _. refl;
  next-IsHash = λ x y vm h. (replicate 32 0, y, refl, refl, refl);
  last-IsHash = λ x vm h. (replicate 32 0, vm, refl, refl, tt);
}

abbrev pub sent : Job
sent = record small_job { job_version = 1 }

pub sent-IsJob : IsJob sent
sent-IsJob = record { room = length-replicate {A = ℕ} 408 0; fits = inr (omega arith, omega arith) }

abbrev drew : ℕ → Seen memory
drew nonce = record {
  updating = false;
  acquired = none;
  version_after = 0;
  job_version = 1;
  current = sent;
  next_nonce = some nonce;
  flags = sent;
}

-- Two nonces, an update with a new machine, and one more nonce.
abbrev history : List (Seen memory)
history =
    drew 5
    ∷ drew 6
    ∷ (record (drew 0) { updating = true; acquired = some []; version_after = 1 })
    ∷ drew 7
    ∷ []

loop_example :
    (w : Worker memory) × (loop memory history
        (new_worker memory memory_laws (λ job. job ≡ sent) [])
      ≡ some w)
    × AllShares memory memory_laws (λ job. job ≡ sent) w.submitted
loop_example =
    loop-AllShares memory memory_laws (λ job. job ≡ sent) history [] tt
      (
        omega arith,
        omega arith,
        refl,
        sent-IsJob,
        tt,
        (
          omega arith,
          omega arith,
          refl,
          sent-IsJob,
          tt,
          (
            omega arith,
            omega arith,
            refl,
            sent-IsJob,
            tt,
            (omega arith, omega arith, refl, sent-IsJob, tt, tt),
          ),
        ),
      )
