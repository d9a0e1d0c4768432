-- ===== src/Job/Threads/Pending.antt =====
-- `PendingNonces` while threads draw: it loads the range before it takes `m_range_mutex`, and what it adds up
-- under the mutex is the queue of a later state. Only threads inside `NextNonce` move in between, since the
-- JavaScript thread is the one that calls.
use nminer.Prelude.{
  ℕ, ◌+◌, ◌-◌, ◌≤◌, ◌<◌, List, [], ◌∷◌, ◌++◌, ◌≡◌, ◌⊎◌, refl, ap, sym, ◌∙◌, arith, Bool-cases, inl,
  inr, ◌==◌, length, length-append,
}
use native.Mathlib.Decide.{dec_lt}
use mathlib.Core.List.{append-nil}
use nminer.Job.State.{Job, NonceRange, current_of, limit_of}
use nminer.Job.Ranges.{advance_range, next_range, take_nonce, queued_size, pending_nonces}
use nminer.Job.Ranges.Laws.{left, IsValid, length-left, unpack_pack}
use nminer.Job.Threads.{
  System, Step, enter, load, give_up, take, retry, advance, queue, send_blob, send_load, send_store,
  send_publish, pause, Reach, here, next, NextNonceBy, Undisturbed,
}
use nminer.Job.Threads.Safety.{Inv, Step-Inv, IsFresh, Reach-Inv}

-- The nonces of the range in use.
abbrev rest : Job → ℕ
rest job = limit_of job.range - current_of job.range

-- The queue only loses ranges, and while it does not the range in use only loses nonces.
record Since (old new : Job) : Type 0 where
  shorter : length new.queued ≤ length old.queued
  fewer : queued_size new.queued ≤ queued_size old.queued
  used : length new.queued ≡ length old.queued → rest new ≤ rest old

Since-refl : (job : Job) → Since job job
Since-refl job = record { shorter = omega arith; fewer = omega arith; used = λ e. omega arith }

Since-trans : (a b c : Job) → Since a b → Since b c → Since a c
Since-trans a b c h g = record {
  shorter = omega (arith, h.shorter, g.shorter);
  fewer = omega (arith, h.fewer, g.fewer);
  used = λ e.
      let same : length b.queued ≡ length a.queued = omega (arith, h.shorter, g.shorter) in
      omega (arith, h.used same, g.used (omega arith));
}

take_nonce-Since :
    (job : Job) (packed : ℕ)
    → IsValid job
    → current_of packed < limit_of packed
    → job.range ≡ packed
    → Since job (take_nonce packed job).0
unfolding take_nonce
take_nonce-Since job packed v ready same = record {
  shorter = omega arith;
  fewer = omega arith;
  used = λ _.
      let (cur, lim) =
        unpack_pack (current_of packed + 1) (limit_of packed) (omega (arith, v.range_fits, same))
          (omega (arith, v.range_fits, same)) in
      rw (cur, lim, same) (omega arith);
}

next_range-Since :
    (queued : List NonceRange) (job : Job)
    → queued ≡ job.queued
    → Since job (next_range queued job).0
unfolding next_range queued_size
next_range-Since [] job e = Since-refl job
next_range-Since (r ∷ others) job e =
    let size : length (r ∷ others) ≡ length job.queued = ap (λ (l : List NonceRange). length l) e in
    record {
      shorter = omega (arith, size);
      fewer = omega (arith, ap queued_size e);
      used = λ same. absurd (omega (arith, size));
    }

advance_range-Since : (exhausted : ℕ) (job : Job) → Since job (advance_range exhausted job).0
unfolding advance_range
advance_range-Since exhausted job = elim (Bool-cases (job.range == exhausted)) [
  | inl same ↦ rw same (next_range-Since job.queued job refl)
  | inr other ↦ rw other (Since-refl job)
]

Step-Since : {s t : System} (st : Step s t) → NextNonceBy (λ j. Unit) st → Inv s → Since s.job t.job
Step-Since (enter s i e p) _ v = Since-refl s.job
Step-Since (load s i e) _ v = Since-refl s.job
Step-Since (give_up s i packed e h) _ v = Since-refl s.job
Step-Since (take s i packed e h same) _ v = take_nonce-Since s.job packed v.valid h same
Step-Since (retry s i packed e h) _ v = Since-refl s.job
Step-Since (advance s i packed e) _ v = advance_range-Since packed s.job
Step-Since (queue s start limit h) other v = absurd other
Step-Since (send_blob s blob target nicehash ranged) other v = absurd other
Step-Since (send_load s) other v = absurd other
Step-Since (send_store s start limit reset h k) other v = absurd other
Step-Since (send_publish s) other v = absurd other
Step-Since (pause s paused) other v = absurd other

Reach-Since : {s t : System} (r : Reach s t) → Undisturbed r → Inv s → Since s.job t.job × Inv t
Reach-Since {s} here h v = (Since-refl s.job, v)
Reach-Since {s} (next r st) h v =
    let (since, v') = Reach-Since r h.0 v in
    (Since-trans _ _ _ since (Step-Since st h.1 v'), Step-Inv st v')

-- What has been drawn and what is left are what was granted.
granted-length :
    (s : System)
    → Inv s
    → length s.granted ≡ length s.issued + pending_nonces s.job.range s.job.queued
granted-length s v =
    ap (λ (l : List ℕ). length l) (sym v.account)
    ∙ length-append s.issued (left s.job)
    ∙ ap (λ (n : ℕ). length s.issued + n) (length-left s.job v.valid)

-- From a state `t` that is reachable from a fresh one, where `PendingNonces` loads the range, to the state `u` where
-- it adds up the queue, with only the threads in `NextNonce` moving in between: what it returns is no more than was
-- not drawn yet at the load; what is not drawn at the end is no more than it returns and the nonces of the
-- range then in use; and if no range was taken off the queue meanwhile, it is no more than it returns.
pub pending_nonces-bounds :
    {s t u : System}
    → IsFresh s
    → Reach s t
    → (r : Reach t u) → Undisturbed r
    → let pending = pending_nonces t.job.range u.job.queued in
      (length t.issued + pending ≤ length t.granted)
      × (length u.granted
          ≤ length u.issued + pending + (limit_of u.job.range - current_of u.job.range))
      × ((length u.job.queued < length t.job.queued)
          ⊎ (length u.granted ≤ length u.issued + pending))
unfolding pending_nonces
pending_nonces-bounds {s} {t} {u} fresh before r by =
    let v = Reach-Inv fresh before in
    let (since, v') = Reach-Since r by v in
    let at_load = granted-length t v in
    let at_end = granted-length u v' in
    (
      ground (arith, at_load, since.fewer),
      ground (arith, at_end),
      elim (dec_lt (length u.job.queued) (length t.job.queued)) [
        | yes taken ↦ inl taken
        | no none_taken ↦
            let used = since.used (omega (arith, since.shorter)) in
            inr (ground (arith, at_end, used, v.valid.range_fits, v'.valid.range_fits))
      ],
    )

empty_of : (l : List ℕ) → length l ≡ 0 → l ≡ []
empty_of [] e = refl
empty_of (x ∷ l) e = absurd (omega arith)

-- When `PendingNonces` returns 0, loading the range in a state `t` that is reachable from a fresh one and adding up the
-- queue in a state `u` with only the threads in `NextNonce` moving in between, and no range was taken off the queue
-- meanwhile, the threads have drawn every nonce that the current job was granted, in order.
pub issued-eq-granted :
    {s t u : System}
    → IsFresh s
    → Reach s t
    → (r : Reach t u) → Undisturbed r
    → length u.job.queued ≡ length t.job.queued
    → pending_nonces t.job.range u.job.queued ≡ 0
    → u.issued ≡ u.granted
issued-eq-granted {s} {t} {u} fresh before r by queue_same none_pending =
    let v = Reach-Inv fresh before in
    let v' = (Reach-Since r by v).1 in
    let (_, _, count) = pending_nonces-bounds fresh before r by in
    let nothing : length (left u.job) ≡ 0 = omega (
      arith,
      count,
      none_pending,
      queue_same,
      ap (λ (l : List ℕ). length l) (sym v'.account),
      length-append u.issued (left u.job),
    ) in
    sym (append-nil u.issued)
    ∙ ap (λ l. u.issued ++ l) (sym (empty_of (left u.job) nothing))
    ∙ v'.account
