-- ===== src/Job/Threads.antt =====
-- Several mining threads inside `NextNonce` at once, between calls of the JavaScript layer: each
-- atomic access and each critical section is one step, and steps interleave in any order. The weak
-- compare-and-exchange may fail at any time.
pub mod Progress
pub mod Pending
pub mod Safety
use nminer.Prelude.{
  ℕ, ◌+◌, ◌≤◌, ◌<◌, ◌^◌, List, [], ◌∷◌, ◌++◌, Bool, true, false, ◌≡◌, ◌==◌, if◌then◌else◌, Option,
  none, some, Bool, max, ◌-◌,
}
use nminer.Job.State.{Job, current_of, limit_of}
use nminer.Job.Ranges.{queue_range, advance_range, take_nonce}
use nminer.Job.Ranges.Laws.{nonces_from, left}
use nminer.Job.Send.{clear_queue, set_blob, store_range, publish}

-- Where a thread stands in `NextNonce`; a number is its local copy `packed` of the range.
pub data ThreadState : Type 0 where
  outside : ThreadState
  entered : ThreadState
  trying : ℕ → ThreadState
  exhausted : ℕ → ThreadState

abbrev pub update : (ℕ → ThreadState) → ℕ → ThreadState → ℕ → ThreadState
update threads i state j = if i == j then state else threads j

-- The job and its threads, with a record of what the current job was granted and what was handed
-- out of it, in order.
pub record System : Type 0 where
  pub job : Job
  -- What `SendJob` last loaded from the range.
  pub loaded : ℕ
  pub threads : ℕ → ThreadState
  pub issued : List ℕ
  pub granted : List ℕ

abbrev pub move : System → ℕ → ThreadState → System
move s i state = record s { threads = update s.threads i state }

pub data Step : System → System → Type 0 where
  -- The test of `m_paused`.
  enter :
      (s : System) (i : ℕ)
      → s.threads i ≡ outside
      → s.job.paused ≡ false
      → Step s (move s i entered)
  -- The load at the head of the outer loop.
  load : (s : System) (i : ℕ) → s.threads i ≡ entered → Step s (move s i (trying s.job.range))
  -- `if (current >= limit) break;`
  give_up :
      (s : System) (i packed : ℕ)
      → s.threads i ≡ trying packed
      → limit_of packed ≤ current_of packed
      → Step s (move s i (exhausted packed))
  -- The exchange succeeds.
  take :
      (s : System) (i packed : ℕ)
      → s.threads i ≡ trying packed
      → current_of packed < limit_of packed
      → s.job.range ≡ packed
      → Step s (record s {
        job = (take_nonce packed s.job).0;
        threads = update s.threads i outside;
        issued = s.issued ++ ((take_nonce packed s.job).1 ∷ []);
      })
  -- The exchange fails, and leaves the range that it found.
  retry :
      (s : System) (i packed : ℕ)
      → s.threads i ≡ trying packed
      → current_of packed < limit_of packed
      → Step s (move s i (trying s.job.range))
  -- `AdvanceRange`, and another round or the end of the call.
  advance :
      (s : System) (i packed : ℕ)
      → s.threads i ≡ exhausted packed
      → Step s (record s {
        job = (advance_range packed s.job).0;
        threads = update s.threads i (if (advance_range packed s.job).1 then entered else outside);
      })
  -- `QueueRange`, from the JavaScript thread.
  queue :
      (s : System) (start limit : ℕ)
      → limit < 2 ^ 32
      → Step s (record s {
        job = (queue_range start limit s.job).0;
        granted =
            s.granted
            ++ (if (queue_range start limit s.job).1
                then nonces_from start (limit - start)
                else []);
      })
  -- `SendJob`, once its arguments have been accepted: the new blob, the queue cleared, ...
  send_blob :
      (s : System) (blob : List ℕ) (target : ℕ) (nicehash ranged : Bool)
      → Step s (record s {
        job = clear_queue (set_blob blob target nicehash ranged s.job);
        issued = [];
        granted = left (clear_queue (set_blob blob target nicehash ranged s.job));
      })
  -- ... the range loaded, while threads may still be drawing from it, ...
  send_load : (s : System) → Step s (record s { loaded = s.job.range })
  -- ... the new range stored, with which the record starts anew, ...
  send_store :
      (s : System) (start limit : ℕ) (reset_nonce : Bool)
      → start < 2 ^ 32
      → limit < 2 ^ 32
      → Step s (record s {
        job = store_range s.job.ranged start limit s.job.nicehash reset_nonce s.loaded s.job;
        issued = [];
        granted =
            left (store_range s.job.ranged start limit s.job.nicehash reset_nonce s.loaded s.job);
      })
  -- ... and the new version published.
  send_publish : (s : System) → Step s (record s { job = publish s.job })
  -- `Pause` and `Start`.
  pause :
      (s : System) (paused : Bool) → Step s (record s { job = record s.job { paused = paused } })

pub data Reach (s : System) : System → Type 0 where
  here : Reach s s
  next : {t u : System} → Reach s t → Step t u → Reach s u

-- The steps of `NextNonce`, and whose they are. The others are those of the JavaScript thread.
abbrev pub NextNonceBy : (ℕ → Type 0) → {s t : System} → Step s t → Type 0
NextNonceBy By (enter s i _ _) = By i
NextNonceBy By (load s i _) = By i
NextNonceBy By (give_up s i _ _ _) = By i
NextNonceBy By (take s i _ _ _ _) = By i
NextNonceBy By (retry s i _ _ _) = By i
NextNonceBy By (advance s i _ _) = By i
NextNonceBy By _ = ⊥

abbrev pub AllNextNonceBy : (ℕ → Type 0) → {s t : System} → Reach s t → Type 0
AllNextNonceBy By here = Unit
AllNextNonceBy By (next r st) = AllNextNonceBy By r × NextNonceBy By st

-- Thread `i` alone.
abbrev pub Solo : ℕ → {s t : System} → Reach s t → Type 0
Solo i r = AllNextNonceBy (λ j. j ≡ i) r

-- Any threads, while the JavaScript thread is busy.
abbrev pub Undisturbed : {s t : System} → Reach s t → Type 0
Undisturbed r = AllNextNonceBy (λ j. Unit) r
