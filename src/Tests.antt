-- ===== src/Tests.antt =====
-- Concrete inputs of the theorems: a job with a queued range, a run of its threads, a small program.
mod Threads
mod Vm
mod Dataset
mod Hash
mod Mining
mod Worker
mod Rx
mod Program
use nminer.Prelude.{
  ℕ, zero, suc, ◌+◌, ◌-◌, ◌*◌, ◌/◌, ◌%◌, ◌^◌, ◌≤◌, ◌<◌, List, [], ◌∷◌, ◌++◌, Bool, true, false, not,
  ◌&&◌, Option, none, some, ◌≡◌, refl, length, replicate, if◌then◌else◌, arith, ◌⊎◌, all_below,
}
use nminer.Word.{IsU64, rotl, rotr, mulh, smulh}
use nminer.Word.Rotate.{rotl-rotr}
use nminer.Word.Mulh.{mulh_lem}
use nminer.Word.Smulh.{extend128, smulh_lem}
use nminer.Bytes.{read_unaligned, AllBytes}
use nminer.Job.{Job, NonceRange, current_of, limit_of, nonce_offset}
use nminer.Job.Target.{difficulty, expand_compact, difficulty-expand_compact}
use nminer.Job.Ranges.{pending_nonces, advance_range, queue_range, take_nonce, draw}
use nminer.Job.Ranges.Laws.{
  left, IsValid, nonces_from, queued_nonces, length-left, left-advance_range, queue_range_lem,
}
use nminer.Job.Ranges.Draw.{Hands, draw-Hands}

abbrev pub small_job : Job
small_job = record {
  range = 2 ^ 32 * 7 + 5;
  queued = record { start = 10; limit = 13 } ∷ [];
  ranged = true;
  nicehash = false;
  paused = false;
  active = true;
  blob = replicate 408 0;
  size = 76;
  target = 1000;
  job_version = 1;
  hashes_done = 0;
  throttle_ms = 0;
  throttle_count = 0;
  inflight = 0;
}

pub small_job-IsValid : IsValid small_job
small_job-IsValid = record { range_fits = omega arith; queue = (omega arith, omega arith, tt) }

rotl-rotr_example : rotl (rotr 0x123456789abcdef0 13) 13 ≡ 0x123456789abcdef0
rotl-rotr_example = rotl-rotr 0x123456789abcdef0 13 (omega arith) (omega arith)

mulh_example :
    mulh 0xfedcba9876543210 0x123456789abcdef0 ≡ 0xfedcba9876543210 * 0x123456789abcdef0 / 2 ^ 64
mulh_example = mulh_lem 0xfedcba9876543210 0x123456789abcdef0 (omega arith) (omega arith)

-- A negative number by a positive one.
smulh_example :
    smulh 0xfedcba9876543210 0x123456789abcdef0
    ≡ extend128 0xfedcba9876543210 * extend128 0x123456789abcdef0 % 2 ^ 128 / 2 ^ 64
smulh_example = smulh_lem 0xfedcba9876543210 0x123456789abcdef0 (omega arith) (omega arith)

difficulty_example : difficulty (expand_compact 0xc5a7) ≡ (2 ^ 32 - 1) / 0xc5a7
difficulty_example = difficulty-expand_compact 0xc5a7 (omega arith) (omega arith)

length-left_example : length (left small_job) ≡ pending_nonces small_job.range small_job.queued
length-left_example = length-left small_job small_job-IsValid

abbrev spent_job : Job
spent_job = record small_job { range = 2 ^ 32 * 7 + 7 }

spent_job-IsValid : IsValid spent_job
spent_job-IsValid = record { range_fits = omega arith; queue = (omega arith, omega arith, tt) }

left-advance_range_example : left (advance_range (2 ^ 32 * 7 + 7) spent_job).0 ≡ left spent_job
left-advance_range_example =
    left-advance_range (2 ^ 32 * 7 + 7) spent_job spent_job-IsValid (omega arith)

-- A job without a range refuses every further one.
abbrev open_job : Job
open_job = record small_job { ranged = false }

queue_range_example :
    ((20 < 25)
      × (open_job.ranged ≡ true)
      × ((queue_range 20 25 open_job).1 ≡ true)
      × (left (queue_range 20 25 open_job).0 ≡ left open_job ++ nonces_from 20 5)
      × (record (queue_range 20 25 open_job).0 { queued = open_job.queued } ≡ open_job))
    ⊎ (((25 ≤ 20) ⊎ (open_job.ranged ≡ false)) × (queue_range 20 25 open_job ≡ (open_job, false)))
queue_range_example = queue_range_lem 20 25 open_job

draw-Hands_example : Hands (left spent_job) (draw 2 spent_job)
draw-Hands_example = draw-Hands 0 spent_job spent_job-IsValid
