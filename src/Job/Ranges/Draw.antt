-- ===== src/Job/Ranges/Draw.antt =====
-- The loop of `NextNonce` with no interference, against the list of the nonces that are left.
use nminer.Prelude.{
  ℕ, suc, ◌≤◌, ◌<◌, List, [], ◌∷◌, true, false, ◌≡◌, refl, ap, sym, subst, ◌∙◌, arith, Bool-cases,
  inl, inr, ltb, lt→ltb, ◌==◌, ==_iff, if◌then◌else◌,
}
use nminer.Job.State.{Job, NonceRange, pack_range, current_of, limit_of}
use nminer.Job.Ranges.{advance_range, next_range, draw, Drawn, drew, no_nonce}
use nminer.Job.Ranges.Laws.{
  left, IsValid, QueueIsValid, left-take_nonce, unpack_pack, left-next_range, next_range-IsValid,
  used_up, queued_nonces,
}

-- The call hands out the first of the nonces, or reports that there are none.
abbrev pub Hands : List ℕ → Job × Drawn → Type 0
Hands [] (job, result) = (result ≡ no_nonce) × (left job ≡ [])
Hands (n ∷ rest) (job, result) = (result ≡ drew n) × (left job ≡ rest)

draw_ready :
    (fuel : ℕ) (job : Job)
    → IsValid job
    → current_of job.range < limit_of job.range
    → Hands (left job) (draw (suc fuel) job)
unfolding draw
draw_ready fuel job v h = rw (left-take_nonce job v h, lt→ltb _ _ h) (refl, refl)

round_over :
    (fuel : ℕ) (job : Job)
    → limit_of job.range ≤ current_of job.range
    → draw (suc fuel) job ≡ (
        if (next_range job.queued job).1
        then draw fuel (next_range job.queued job).0
        else ((next_range job.queued job).0, no_nonce))
unfolding draw advance_range
round_over fuel job h =
    let stopped : ltb (current_of job.range) (limit_of job.range) ≡ false = ground arith in
    let here : (job.range == job.range) ≡ true = (==_iff job.range job.range).1 refl in
    rw (stopped, here)

left_nothing :
    (job : Job) → job.queued ≡ [] → limit_of job.range ≤ current_of job.range → left job ≡ []
unfolding left queued_nonces
left_nothing job e h = used_up job.range job.queued h ∙ ap queued_nonces e

-- A round over a used-up range ends the call or prepares the next.
after_advance :
    (fuel : ℕ) (job : Job) (queued : List NonceRange)
    → IsValid job
    → job.queued ≡ queued
    → limit_of job.range ≤ current_of job.range
    → Hands (left job) (draw (suc (suc fuel)) job)
unfolding next_range
after_advance fuel job [] v e h =
    let nothing = left_nothing job e h in
    let stepped : next_range job.queued job ≡ (job, false) = ap (λ q. next_range q job) e in
    rw (round_over (suc fuel) job h, stepped, nothing) (refl, nothing)
after_advance fuel job (r ∷ rest) v e h =
    let q : QueueIsValid (r ∷ rest) = subst QueueIsValid e v.queue in
    let fits : limit_of (pack_range r.start r.limit) ≡ r.limit =
      (unpack_pack r.start r.limit (omega arith) (omega arith)).1 in
    let starts : current_of (pack_range r.start r.limit) ≡ r.start =
      (unpack_pack r.start r.limit (omega arith) (omega arith)).0 in
    let j : Job = record job { range = pack_range r.start r.limit; queued = rest } in
    let same : left j ≡ left job = left-next_range (r ∷ rest) job q (sym e) h in
    let stepped : next_range job.queued job ≡ (j, true) = ap (λ q. next_range q job) e in
    rw (round_over (suc fuel) job h, stepped, ← same)
      (draw_ready fuel j (next_range-IsValid (r ∷ rest) job q v) (rw (fits, starts) q.0))

-- On a valid job, two rounds of the loop of `NextNonce` or more hand out the first of the nonces that
-- are left and leave the rest, or, when none is left, report that and leave none.
pub draw-Hands : (fuel : ℕ) (job : Job) → IsValid job → Hands (left job) (draw (suc (suc fuel)) job)
draw-Hands fuel job v = elim (Bool-cases (ltb (current_of job.range) (limit_of job.range))) [
  | inl ready ↦ draw_ready (suc fuel) job v (ground arith)
  | inr done ↦ after_advance fuel job job.queued v refl (ground arith)
]
