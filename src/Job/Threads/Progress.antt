-- ===== src/Job/Threads/Progress.antt =====
-- That `NextNonce` gets on: a thread draws the nonces that are left, wherever the others stand.
use nminer.Prelude.{
  ℕ, zero, suc, ◌+◌, ◌≤◌, ◌<◌, List, [], ◌∷◌, ◌++◌, Bool, true, false, ◌≡◌, ◌⊎◌, refl, ap, sym, ◌∙◌,
  subst, arith, Bool-cases, inl, inr, ◌==◌, if◌then◌else◌, length, length-append, ltb, ==_iff,
}
use mathlib.Core.List.{append-nil}
use nminer.Job.State.{Job, NonceRange, pack_range, current_of, limit_of}
use nminer.Job.Ranges.{advance_range, next_range, take_nonce}
use nminer.Job.Ranges.Laws.{left, IsValid, QueueIsValid, unpack_pack, used_up, queued_nonces}
use nminer.Job.Threads.{
  ThreadState, outside, entered, trying, exhausted, update, move, System, enter, load, give_up,
  take, advance, Reach, here, next, Solo,
}
use nminer.Job.Threads.Safety.{Inv, Step-Inv, IsFresh, Reach-Inv}

Reach-trans : {s t u : System} → Reach s t → Reach t u → Reach s u
Reach-trans r here = r
Reach-trans r (next r' st) = next (Reach-trans r r') st

-- Steps of one thread after steps of the same thread.
Solo-trans :
    {s t u : System} (i : ℕ) (r : Reach s t) (r' : Reach t u)
    → Solo i r
    → Solo i r'
    → Solo i (Reach-trans r r')
unfolding Reach-trans
Solo-trans i r here h h' = h
Solo-trans i r (next r' st) h h' = (Solo-trans i r r' h h'.0, h'.1)

Reach-keeps : {s t : System} → Reach s t → Inv s → Inv t
Reach-keeps here v = v
Reach-keeps (next r st) v = Step-Inv st (Reach-keeps r v)

update-same :
    (threads : ℕ → ThreadState) (i : ℕ) (state : ThreadState) → update threads i state i ≡ state
update-same threads i state = rw ((==_iff i i).1 refl) refl

-- A thread outside of `NextNonce`, and a job that is not paused.
record IsGoing (i : ℕ) (s : System) : Type 0 where
  runs : s.job.paused ≡ false
  idle : s.threads i ≡ outside

-- No other thread has moved.
abbrev pub OthersStand : ℕ → System → System → Type 0
OthersStand i s u = (j : ℕ) → (i == j) ≡ false → u.threads j ≡ s.threads j

-- Steps to a state in which one more nonce has been drawn and the thread is outside again.
record Draws (i : ℕ) (s u : System) : Type 0 where
  steps : Reach s u
  alone : Solo i steps
  more : length u.issued ≡ length s.issued + 1
  same : u.granted ≡ s.granted
  others : OthersStand i s u
  going : IsGoing i u

-- With a range that is not used up.
take_now :
    (s : System) (i : ℕ)
    → s.threads i ≡ entered
    → s.job.paused ≡ false
    → current_of s.job.range < limit_of s.job.range
    → (u : System) × Draws i s u
unfolding take_nonce
take_now s i at runs ready =
    let packed : ℕ = s.job.range in
    let tried : System = move s i (trying packed) in
    let u : System = record tried {
      job = (take_nonce packed s.job).0;
      threads = update tried.threads i outside;
      issued = s.issued ++ ((take_nonce packed s.job).1 ∷ []);
    } in
    (
      u,
      record {
        steps =
            next (next here (load s i at))
              (take tried i packed (update-same s.threads i (trying packed)) ready refl);
        alone = ((tt, refl), refl);
        same = refl;
        others = λ j differs. rw differs refl;
        more = length-append s.issued ((take_nonce packed s.job).1 ∷ []);
        going = record { runs = runs; idle = update-same tried.threads i outside };
      },
    )

-- A used-up range before a queue that is not empty makes way for the front of the queue.
advanced :
    (job : Job) (r : NonceRange) (rest : List NonceRange)
    → job.queued ≡ r ∷ rest
    → advance_range job.range job
      ≡ (record job { range = pack_range r.start r.limit; queued = rest }, true)
unfolding advance_range next_range
advanced job r rest e = rw ((==_iff job.range job.range).1 refl) (ap (λ q. next_range q job) e)

queue_cases :
    (queued : List NonceRange)
    → (queued ≡ []) ⊎ ((r : NonceRange) × (rest : List NonceRange) × (queued ≡ r ∷ rest))
queue_cases [] = inl refl
queue_cases (r ∷ rest) = inr (r, rest, refl)

advance_now :
    (s : System) (i : ℕ) (r : NonceRange) (rest : List NonceRange)
    → s.threads i ≡ entered
    → s.job.paused ≡ false
    → limit_of s.job.range ≤ current_of s.job.range
    → s.job.queued ≡ r ∷ rest
    → QueueIsValid s.job.queued
    → (u : System) × Draws i s u
advance_now s i r rest at runs spent e valid =
    let packed : ℕ = s.job.range in
    let tried : System = move s i (trying packed) in
    let over : System = move tried i (exhausted packed) in
    let on : System = record over {
      job = (advance_range packed s.job).0;
      threads = update over.threads i (if (advance_range packed s.job).1 then entered else outside);
    } in
    let q : QueueIsValid (r ∷ rest) = subst QueueIsValid e valid in
    let (starts, fits) = unpack_pack r.start r.limit (omega arith) (omega arith) in
    let moved = advanced s.job r rest e in
    let first : on.job.range ≡ pack_range r.start r.limit =
      ap (λ (a : Job × Bool). a.0.range) moved in
    let entering : on.threads i ≡ entered =
      update-same over.threads i _
      ∙ ap (λ (a : Job × Bool). if a.1 then entered else outside) moved in
    let (u, draws) =
      take_now on i entering (ap (λ (a : Job × Bool). a.0.paused) moved ∙ runs)
        (rw (first, starts, fits) q.0) in
    let round : Reach s on =
      next
        (next (next here (load s i at))
          (give_up tried i packed (update-same s.threads i (trying packed)) spent))
        (advance over i packed (update-same tried.threads i (exhausted packed))) in
    (
      u,
      record {
        steps = Reach-trans round draws.steps;
        alone = Solo-trans i round draws.steps (((tt, refl), refl), refl) draws.alone;
        same = draws.same;
        others = λ j differs. draws.others j differs ∙ rw differs refl;
        more = draws.more;
        going = draws.going;
      },
    )

empty_of : (l : List ℕ) → length l ≡ 0 → l ≡ []
empty_of [] e = refl
empty_of (x ∷ l) e = absurd (omega arith)

spent_draw :
    (s : System) (i : ℕ)
    → IsValid s.job
    → s.threads i ≡ entered
    → s.job.paused ≡ false
    → limit_of s.job.range ≤ current_of s.job.range
    → 0 < length (left s.job)
    → (u : System) × Draws i s u
unfolding left queued_nonces
spent_draw s i valid at runs spent some_left = elim (queue_cases s.job.queued) [
  | inl nothing ↦ absurd (
      omega (
        arith,
        ap (λ (l : List ℕ). length l)
            (used_up s.job.range s.job.queued spent ∙ ap queued_nonces nothing),
      ))
  | inr (r, rest, e) ↦ advance_now s i r rest at runs spent e valid.queue
]

-- One call of `NextNonce`, from its test of `m_paused` on.
draw_now :
    (s : System) (i : ℕ)
    → Inv s
    → IsGoing i s
    → 0 < length (left s.job)
    → (u : System) × Draws i s u
unfolding left queued_nonces
draw_now s i v going some_left =
    let inside : System = move s i entered in
    let at = update-same s.threads i entered in
    let start : Reach s inside = next here (enter s i going.idle going.runs) in
    let after : (u : System) × Draws i inside u → (u : System) × Draws i s u = λ drawn. (
      drawn.0,
      record {
        steps = Reach-trans start drawn.1.steps;
        more = drawn.1.more;
        alone = Solo-trans i start drawn.1.steps (tt, refl) drawn.1.alone;
        same = drawn.1.same;
        others = λ j differs. drawn.1.others j differs ∙ rw differs refl;
        going = drawn.1.going;
      },
    ) in
    elim (Bool-cases (ltb (current_of s.job.range) (limit_of s.job.range))) [
      | inl ready ↦ after (take_now inside i at going.runs (ground arith))
      | inr done ↦ after (spent_draw inside i v.valid at going.runs (ground arith) some_left)
    ]

-- With as many calls as nonces are left.
draws_all :
    (n : ℕ) (s : System) (i : ℕ)
    → Inv s
    → IsGoing i s
    → length (left s.job) ≡ n
    → (u : System) × (r : Reach s u) × Solo i r
      × (u.issued ≡ s.granted)
      × (u.granted ≡ s.granted)
      × OthersStand i s u
draws_all zero s i v going e = (
  s,
  here,
  tt,
  sym (append-nil s.issued) ∙ ap (λ l. s.issued ++ l) (sym (empty_of (left s.job) e)) ∙ v.account,
  refl,
  λ j differs. refl,
)
draws_all (suc n) s i v going e =
    let (t, draws) = draw_now s i v going (omega (arith, e)) in
    let v' = Reach-keeps draws.steps v in
    let fewer : length (left t.job) ≡ n = omega (
      arith,
      e,
      draws.more,
      length-append s.issued (left s.job),
      length-append t.issued (left t.job),
      ap (λ (l : List ℕ). length l) (v'.account ∙ draws.same ∙ sym v.account),
    ) in
    let (u, r, alone, drawn, same, others) = draws_all n t i v' draws.going fewer in
    (
      u,
      Reach-trans draws.steps r,
      Solo-trans i draws.steps r draws.alone alone,
      drawn ∙ draws.same,
      same ∙ draws.same,
      λ j differs. others j differs ∙ draws.others j differs,
    )

-- From every state that is reachable from a fresh one, with the job not paused and some thread outside of
-- `NextNonce`, steps of that thread alone, all of them in `NextNonce`, lead to a state in which every nonce that the
-- current job was granted has been drawn, in order, with nothing more granted and no other thread moved,
-- wherever the others stand.
pub Reach-draws_all :
    {s t : System} (i : ℕ)
    → IsFresh s
    → Reach s t
    → t.job.paused ≡ false
    → t.threads i ≡ outside
    → (u : System) × (r : Reach t u) × Solo i r
      × (u.issued ≡ t.granted)
      × (u.granted ≡ t.granted)
      × OthersStand i t u
Reach-draws_all {s} {t} i fresh r runs idle =
    draws_all (length (left t.job)) t i (Reach-Inv fresh r) (record { runs = runs; idle = idle })
      refl
