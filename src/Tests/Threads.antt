-- ===== src/Tests/Threads.antt =====
-- A run of two threads over the small job, and jobs that arrive.
use nminer.Prelude.{
  ◌≤◌, ◌-◌, ◌⊎◌, length, if◌then◌else◌, ◌+◌, ◌*◌, ◌/◌, ◌^◌, ◌<◌, [], ◌∷◌, ◌++◌, true, false, some,
  ◌≡◌, refl, min, replicate, arith,
}
use nminer.Bytes.{read_unaligned, AllBytes}
use nminer.Job.{Job, current_of, limit_of, nonce_offset}
use nminer.Job.Ranges.{pending_nonces, advance_range, take_nonce}
use nminer.Job.Ranges.Laws.{left, IsValid, nonces_from}
use nminer.Job.Send.{number, number_or, is_number, install}
use nminer.Job.Send.Laws.{left-install}
use nminer.Job.Send.Blob.{write_nonce}
use nminer.Job.Send.Blob.Nonce.{read-write_nonce}
use nminer.Job.Control.{throttle, slept, slept-throttle}
use nminer.Job.Threads.{
  System, outside, move, update, trying, entered, exhausted, enter, load, give_up, advance, take,
  Reach, here, next, Solo,
}
use nminer.Job.Threads.Progress.{OthersStand, Reach-draws_all}
use nminer.Job.Threads.Pending.{issued-eq-granted, pending_nonces-bounds}
use nminer.Job.Threads.Safety.{IsFresh, issued-left}
use nminer.Tests.{small_job, small_job-IsValid}

left-install_example :
    left
      (install (replicate 76 0) 1000 false false (some (number 100)) (some (number 103)) small_job)
    ≡ nonces_from 100 3
unfolding nonces_from is_number number_or
left-install_example =
    left-install (replicate 76 0) 1000 false false (some (number 100)) (some (number 103)) small_job
      (omega arith) (omega arith)

abbrev fresh : Job → System
fresh job = record {
  job = job;
  loaded = 0;
  threads = λ i. outside;
  issued = [];
  granted = left job;
}

fresh-IsFresh : (job : Job) → IsValid job → IsFresh (fresh job)
fresh-IsFresh job v = record {
  valid = v;
  none_issued = refl;
  all_left = refl;
  all_outside = λ i. refl;
}

abbrev entered_once : Job → System
entered_once job = move (fresh job) 0 entered

abbrev loaded_once : Job → System
loaded_once job = move (entered_once job) 0 (trying job.range)

-- Thread 0 has drawn one nonce.
abbrev drawn_once : Job → System
drawn_once job = record (loaded_once job) {
  job = (take_nonce job.range job).0;
  threads = update (loaded_once job).threads 0 outside;
  issued = (take_nonce job.range job).1 ∷ [];
}

run_once :
    (job : Job)
    → job.paused ≡ false
    → current_of job.range < limit_of job.range
    → Reach (fresh job) (drawn_once job)
run_once job e h =
    next (next (next here (enter (fresh job) 0 refl e)) (load (entered_once job) 0 refl))
      (take (loaded_once job) 0 job.range refl h refl)

issued-left_example :
    (drawn_once small_job).issued ++ left (drawn_once small_job).job ≡ left small_job
issued-left_example =
    issued-left (fresh-IsFresh small_job small_job-IsValid) (run_once small_job refl (omega arith))

Reach-draws_all_example :
    (u : System) × (r : Reach (drawn_once small_job) u) × Solo 0 r
    × (u.issued ≡ left small_job)
    × (u.granted ≡ left small_job)
    × OthersStand 0 (drawn_once small_job) u
unfolding take_nonce
Reach-draws_all_example =
    Reach-draws_all 0 (fresh-IsFresh small_job small_job-IsValid)
      (run_once small_job refl (omega arith)) refl refl

-- A job with one nonce, 5.
abbrev last_job : Job
last_job = record small_job { range = 2 ^ 32 * 6 + 5; queued = [] }

last_job-IsValid : IsValid last_job
last_job-IsValid = record { range_fits = omega arith; queue = tt }

-- Another thread enters while the nonce is counted.
abbrev entering_too : System
entering_too = move (drawn_once last_job) 1 entered

issued-eq-granted_example : entering_too.issued ≡ left last_job
unfolding pending_nonces take_nonce
issued-eq-granted_example =
    issued-eq-granted (fresh-IsFresh last_job last_job-IsValid)
      (run_once last_job refl (omega arith)) (next here (enter (drawn_once last_job) 1 refl refl))
      (tt, tt) refl refl

-- A job whose range is used up, with the nonces 10 to 12 queued.
abbrev turning_job : Job
turning_job = record small_job { range = 2 ^ 32 * 7 + 7 }

turning_job-IsValid : IsValid turning_job
turning_job-IsValid = record { range_fits = omega arith; queue = (omega arith, omega arith, tt) }

abbrev spent_once : System
spent_once =
    move (move (move (fresh turning_job) 0 entered) 0 (trying turning_job.range)) 0
      (exhausted turning_job.range)

abbrev turned_once : System
turned_once = record spent_once {
  job = (advance_range turning_job.range turning_job).0;
  threads =
      update spent_once.threads 0
        (if (advance_range turning_job.range turning_job).1 then entered else outside);
}

-- The thread takes the queued range after the load, and the count is 0.
counts_none : pending_nonces turning_job.range turned_once.job.queued ≡ 0
unfolding pending_nonces advance_range
counts_none = refl

pending_nonces-bounds_example :
    let pending = pending_nonces turning_job.range turned_once.job.queued in
    (0 + pending ≤ length (left turning_job))
    × (length (left turning_job)
        ≤ 0 + pending + (limit_of turned_once.job.range - current_of turned_once.job.range))
    × ((length turned_once.job.queued < 1) ⊎ (length (left turning_job) ≤ 0 + pending))
pending_nonces-bounds_example =
    pending_nonces-bounds (fresh-IsFresh turning_job turning_job-IsValid) here
      (next
        (next
          (next (next here (enter (fresh turning_job) 0 refl refl))
            (load (move (fresh turning_job) 0 entered) 0 refl))
          (give_up (move (move (fresh turning_job) 0 entered) 0 (trying turning_job.range)) 0
            turning_job.range refl (omega arith)))
        (advance spent_once 0 turning_job.range refl))
      ((((tt, tt), tt), tt), tt)

abbrev pool_job : Job
pool_job = record small_job { nicehash = true; ranged = false }

read-write_nonce_example :
    read_unaligned 4 (write_nonce pool_job (replicate 76 7) 0x1234) nonce_offset
    ≡ read_unaligned 4 (replicate 76 7) nonce_offset / 2 ^ 24 * 2 ^ 24 + 0x1234
read-write_nonce_example =
    read-write_nonce pool_job (replicate 76 7) 0x1234 (omega arith) sevens (omega arith)
  where
    sevens : AllBytes (replicate 76 7)
    sevens = ground arith

slept_example : slept 5 (throttle 3 100 small_job) ≡ min 5 3 * 100
slept_example = slept-throttle 3 100 5 small_job refl (omega arith)
