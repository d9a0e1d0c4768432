-- ===== src/Job/Ranges.antt =====
-- The nonce ranges: `QueueRange`, `PendingNonces`, `HasWork`, `AdvanceRange` and `NextNonce`, the
-- last as it runs when no other thread interferes.
pub mod Laws
pub mod Draw
use nminer.Prelude.{
  ℕ, zero, suc, ◌+◌, List, [], ◌∷◌, ◌++◌, Bool, true, false, not, ◌||◌, ◌&&◌, Option, none, some,
  ltb, leb, ◌==◌, if◌then◌else◌,
}
use nminer.Word.{sub32}
use nminer.Job.State.{Job, NonceRange, pack_range, current_of, limit_of}

-- The critical section of `QueueRange`: an empty range is refused, and so is any range of a job
-- that was sent without one.
unfoldable pub queue_range : ℕ → ℕ → Job → Job × Bool
queue_range start limit job = if leb limit start || not job.ranged then (job, false) else (
  record job { queued = job.queued ++ (record { start = start; limit = limit } ∷ []) },
  true,
)

unfoldable pub queued_size : List NonceRange → ℕ
queued_size [] = 0
queued_size (range ∷ rest) = sub32 range.limit range.start + queued_size rest

-- `packed` is the range as it was loaded, before `m_range_mutex` was taken, and `queued` the queue under the
-- mutex. Without another thread in between they are those of one job.
unfoldable pub pending_nonces : ℕ → List NonceRange → ℕ
unfolding queued_size
pending_nonces packed queued =
    let current = current_of packed in
    let limit = limit_of packed in
    (if ltb current limit then sub32 limit current else 0) + queued_size queued

is_empty : List NonceRange → Bool
is_empty [] = true
is_empty (_ ∷ _) = false

unfoldable pub has_work : ℕ → Job → Bool
unfolding is_empty
has_work size job =
    if size == 0 || job.paused
    then false
    else if ltb (current_of job.range) (limit_of job.range)
    then true
    else not (is_empty job.queued)

-- The queue's front becomes the range.
unfoldable pub next_range : List NonceRange → Job → Job × Bool
unfolding pack_range
next_range [] job = (job, false)
next_range (next ∷ rest) job =
    (record job { range = pack_range next.start next.limit; queued = rest }, true)

-- The critical section of `AdvanceRange`: if another thread has moved on, so be it.
unfoldable pub advance_range : ℕ → Job → Job × Bool
unfolding next_range
advance_range exhausted job =
    if job.range == exhausted then next_range job.queued job else (job, true)

-- m_range.compare_exchange_weak(packed, pack_range(current + 1, limit)), as it succeeds.
unfoldable pub take_nonce : ℕ → Job → Job × ℕ
unfolding pack_range
take_nonce packed job =
    (record job { range = pack_range (current_of packed + 1) (limit_of packed) }, current_of packed)

pub data Drawn : Type 0 where
  drew : ℕ → Drawn
  no_nonce : Drawn
  out_of_fuel : Drawn

-- The outer loop of `NextNonce`; the fuel counts its rounds.
unfoldable pub draw : ℕ → Job → Job × Drawn
unfolding advance_range take_nonce
draw zero job = (job, out_of_fuel)
draw (suc fuel) job =
    let packed = job.range in
    let advanced = advance_range packed job in
    let again = draw fuel advanced.0 in
    if ltb (current_of packed) (limit_of packed)
    then ((take_nonce packed job).0, drew (take_nonce packed job).1)
    else if advanced.1
    then again
    else (advanced.0, no_nonce)

unfoldable pub next_nonce : ℕ → Job → Job × Drawn
unfolding draw
next_nonce fuel job = if job.paused then (job, no_nonce) else draw fuel job
