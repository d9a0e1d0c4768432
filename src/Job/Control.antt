-- ===== src/Job/Control.antt =====
-- The calls of `RxJob` that steer the threads: `GetHashes`, `Throttle`, `Pause`, and what a thread does
-- about them after each hash (`ApplyThrottle`).
use nminer.Prelude.{ℕ, zero, suc, ◌+◌, ◌*◌, ◌%◌, ◌^◌, ◌<◌, true, ◌≡◌, refl, ap, arith, min}
use native.Mathlib.Nat.{suc-mul}
use nminer.Job.State.{Job}

unfoldable pub get_hashes : Job → ℕ
get_hashes job = job.hashes_done

-- `Throttle`, once its arguments have been found to be numbers.
unfoldable pub throttle : ℕ → ℕ → Job → Job
throttle threads duration_ms job = record job {
  throttle_ms = duration_ms;
  throttle_count = (job.throttle_count + threads) % 2 ^ 32;
}

unfoldable pub pause : Job → Job
pause job = record job { paused = true }

-- `ApplyThrottle`: the job after it, and how many milliseconds the thread sleeps.
unfoldable pub apply_throttle : Job → Job × ℕ
apply_throttle job = elim job.throttle_count [
  | zero ↦ (job, 0)
  | suc left ↦ (record job { throttle_count = left }, job.throttle_ms)
]

-- What the threads sleep altogether over some hashes.
unfoldable pub slept : ℕ → Job → ℕ
unfolding apply_throttle
slept zero job = 0
slept (suc hashes) job = let applied = apply_throttle job in applied.1 + slept hashes applied.0

-- One step of `slept`, by the count that `ApplyThrottle` finds.
slept-idle :
    (hashes : ℕ) (job : Job) → job.throttle_count ≡ 0 → slept (suc hashes) job ≡ slept hashes job
unfolding slept apply_throttle
slept-idle hashes job e = rw e (omega arith)

slept-busy :
    (hashes count : ℕ) (job : Job)
    → job.throttle_count ≡ suc count
    → slept (suc hashes) job
      ≡ job.throttle_ms + slept hashes (record job { throttle_count = count })
unfolding slept apply_throttle
slept-busy hashes count job e = rw e refl

times : (ms : ℕ) {a b : ℕ} → a ≡ b → a * ms ≡ b * ms
times ms e = ap (λ (t : ℕ). t * ms) e

sleeps :
    (hashes count : ℕ) (job : Job)
    → job.throttle_count ≡ count
    → slept hashes job ≡ min hashes count * job.throttle_ms
unfolding slept
sleeps zero count job e =
    omega (arith, times job.throttle_ms {a = min 0 count} {b = 0} (omega arith))
sleeps (suc hashes) zero job e = omega (
  arith,
  slept-idle hashes job e,
  sleeps hashes 0 job e,
  times job.throttle_ms {a = min hashes 0} {b = 0} (omega arith),
  times job.throttle_ms {a = min (suc hashes) 0} {b = 0} (omega arith),
)
sleeps (suc hashes) (suc count) job e = omega (
  arith,
  slept-busy hashes count job e,
  sleeps hashes count (record job { throttle_count = count }) refl,
  times job.throttle_ms {a = min (suc hashes) (suc count)} {b = suc (min hashes count)}
      (omega arith),
  suc-mul (min hashes count) job.throttle_ms,
)

-- After `Throttle` with a number of threads and a duration, on a job with no throttling left, the
-- hashes that follow sleep that duration once each until as many have slept as the number says, and no
-- more.
pub slept-throttle :
    (threads duration_ms hashes : ℕ) (job : Job)
    → job.throttle_count ≡ 0
    → threads < 2 ^ 32
    → slept hashes (throttle threads duration_ms job) ≡ min hashes threads * duration_ms
unfolding throttle
slept-throttle threads duration_ms hashes job e h =
    sleeps hashes threads (throttle threads duration_ms job) (omega arith)
