-- ===== src/Job/Threads/Safety.antt =====
-- The invariant of the step relation of Job/Threads: the account of the nonces of `RxJob`.
use nminer.Prelude.{
  ℕ, ◌-◌, ◌≤◌, ◌<◌, [], ◌∷◌, ◌++◌, Bool, true, false, ◌≡◌, refl, ap, sym, ◌∙◌, subst, Bool-cases,
  inl, inr, ◌==◌, if◌then◌else◌,
}
use mathlib.Core.List.{append_assoc}
use nminer.Job.State.{current_of, limit_of}
use nminer.Job.Ranges.{advance_range, take_nonce, queue_range}
use nminer.Job.Ranges.Laws.{
  left, IsValid, left-take_nonce, take_nonce-IsValid, left-advance_range, advance_range-IsValid,
  left-queue_range, nonces_from, queue_range-IsValid,
}
use nminer.Job.Send.Laws.{clear-IsValid, store_range-IsValid, publish-IsValid}
use nminer.Job.Send.{publish}
use nminer.Job.Threads.{
  ThreadState, outside, entered, trying, exhausted, update, System, Step, enter, load, give_up,
  take, retry, advance, queue, send_blob, send_load, send_store, send_publish, pause, Reach, here,
  next,
}

-- A thread leaves the inner loop only with a range that was used up.
abbrev IsSpent : ThreadState → Type 0
IsSpent outside = Unit
IsSpent entered = Unit
IsSpent (trying _) = Unit
IsSpent (exhausted packed) = limit_of packed ≤ current_of packed

pub record Inv (s : System) : Type 0 where
  pub valid : IsValid s.job
  pub account : s.issued ++ left s.job ≡ s.granted
  pub spent : (i : ℕ) → IsSpent (s.threads i)

IsSpent-update :
    (threads : ℕ → ThreadState) (i : ℕ) (state : ThreadState)
    → ((j : ℕ) → IsSpent (threads j))
    → IsSpent state
    → (j : ℕ) → IsSpent (update threads i state j)
IsSpent-update threads i state h k j = elim (Bool-cases (i == j)) [
  | inl same ↦ rw same k
  | inr other ↦ rw other (h j)
]

taken_account :
    (s : System) (packed : ℕ)
    → Inv s
    → current_of packed < limit_of packed
    → s.job.range ≡ packed
    → (s.issued ++ ((take_nonce packed s.job).1 ∷ [])) ++ left (take_nonce packed s.job).0
      ≡ s.granted
taken_account s packed v h same =
    append_assoc s.issued ((take_nonce packed s.job).1 ∷ []) (left (take_nonce packed s.job).0)
    ∙ ap (λ t. s.issued ++ t) (sym drawn)
    ∙ v.account
  where
    drawn : left s.job ≡ (take_nonce packed s.job).1 ∷ left (take_nonce packed s.job).0
    drawn =
        subst
          (λ (p : ℕ).
            current_of p < limit_of p
            → left s.job ≡ (take_nonce p s.job).1 ∷ left (take_nonce p s.job).0)
          same (left-take_nonce s.job v.valid) h

next-IsSpent : (more : Bool) → IsSpent (if more then entered else outside)
next-IsSpent true = tt
next-IsSpent false = tt

pause_account :
    (s : System) (paused : Bool)
    → Inv s
    → s.issued ++ left (record s.job { paused = paused }) ≡ s.granted
unfolding left
pause_account s paused v = v.account

publish_account : (s : System) → Inv s → s.issued ++ left (publish s.job) ≡ s.granted
unfolding left publish
publish_account s v = v.account

pub Step-Inv : {s t : System} → Step s t → Inv s → Inv t
Step-Inv (enter s i e p) v = record {
  valid = v.valid;
  account = v.account;
  spent = IsSpent-update s.threads i entered v.spent tt;
}
Step-Inv (load s i e) v = record {
  valid = v.valid;
  account = v.account;
  spent = IsSpent-update s.threads i _ v.spent tt;
}
Step-Inv (give_up s i packed e h) v = record {
  valid = v.valid;
  account = v.account;
  spent = IsSpent-update s.threads i _ v.spent h;
}
Step-Inv (take s i packed e h same) v = record {
  valid =
      subst (λ (p : ℕ). current_of p < limit_of p → IsValid (take_nonce p s.job).0) same
        (take_nonce-IsValid s.job v.valid) h;
  account = taken_account s packed v h same;
  spent = IsSpent-update s.threads i _ v.spent tt;
}
Step-Inv (retry s i packed e h) v = record {
  valid = v.valid;
  account = v.account;
  spent = IsSpent-update s.threads i _ v.spent tt;
}
Step-Inv (advance s i packed e) v = record {
  valid = advance_range-IsValid packed s.job v.valid;
  account =
      ap (λ t. s.issued ++ t)
        (left-advance_range packed s.job v.valid (subst IsSpent e (v.spent i)))
      ∙ v.account;
  spent = IsSpent-update s.threads i _ v.spent (next-IsSpent (advance_range packed s.job).1);
}
Step-Inv (queue s start limit h) v = record {
  valid = queue_range-IsValid start limit s.job h v.valid;
  account =
      ap (λ t. s.issued ++ t) (left-queue_range start limit s.job)
      ∙ sym (append_assoc s.issued _ _)
      ∙ ap
          (λ t.
            t
            ++ (if (queue_range start limit s.job).1
                then nonces_from start (limit - start)
                else []))
          v.account;
  spent = v.spent;
}
Step-Inv (send_blob s blob target nicehash ranged) v = record {
  valid = clear-IsValid blob target nicehash ranged s.job v.valid;
  account = refl;
  spent = v.spent;
}
Step-Inv (send_load s) v = record { valid = v.valid; account = v.account; spent = v.spent }
Step-Inv (send_store s start limit reset hs hl) v = record {
  valid =
      store_range-IsValid s.job.ranged start limit s.job.nicehash reset s.loaded s.job hs hl
        v.valid;
  account = refl;
  spent = v.spent;
}
Step-Inv (send_publish s) v = record {
  valid = publish-IsValid s.job v.valid;
  account = publish_account s v;
  spent = v.spent;
}
Step-Inv (pause s paused) v = record {
  valid = record { range_fits = v.valid.range_fits; queue = v.valid.queue };
  account = pause_account s paused v;
  spent = v.spent;
}

-- A system in which no thread is inside `NextNonce` yet, and the job has all of its nonces.
pub record IsFresh (s : System) : Type 0 where
  pub valid : IsValid s.job
  pub none_issued : s.issued ≡ []
  pub all_left : s.granted ≡ left s.job
  pub all_outside : (i : ℕ) → s.threads i ≡ outside

IsFresh-Inv : {s : System} → IsFresh s → Inv s
IsFresh-Inv {s} f = record {
  valid = f.valid;
  account = rw (f.none_issued, f.all_left);
  spent = λ i. rw (f.all_outside i) tt;
}

pub Reach-Inv : {s t : System} → IsFresh s → Reach s t → Inv t
Reach-Inv f here = IsFresh-Inv f
Reach-Inv f (next r st) = Step-Inv st (Reach-Inv f r)

-- In every state that the threads and the JavaScript thread can reach from a fresh one, the nonces
-- drawn from the current job, in the order in which they were drawn, followed by the nonces that
-- are left, are exactly the nonces that the job was granted: none is lost, repeated or reordered.
pub issued-left : {s t : System} → IsFresh s → Reach s t → t.issued ++ left t.job ≡ t.granted
issued-left f r = (Reach-Inv f r).account
