-- ===== src/Job/Ranges/Laws.antt =====
-- What a job still has to hand out, as one list of nonces, and how each call changes it.
use nminer.Prelude.{
  ◌⊎◌, true, false, leb→le, lt_of_not_leb, ℕ, zero, suc, ◌+◌, ◌-◌, ◌*◌, ◌%◌, ◌^◌, ◌≤◌, ◌<◌, List,
  [], ◌∷◌, ◌++◌, ◌≡◌, refl, ap, sym, length, length-append, arith, ◌∙◌, Bool-cases, inl, inr,
  if◌then◌else◌, leb, ◌==◌, ==_iff, ◌||◌, not,
}
use mathlib.Core.List.{append-nil, append_assoc}
use nminer.Word.Bits.{bit_or-fields}
use nminer.Job.State.{Job, NonceRange, pack_range, current_of, limit_of}
use nminer.Job.Ranges.{
  queue_range, queued_size, pending_nonces, advance_range, next_range, take_nonce,
}

-- The nonces from `start` on, `n` of them.
unfoldable pub nonces_from : ℕ → ℕ → List ℕ
nonces_from start zero = []
nonces_from start (suc n) = start ∷ nonces_from (start + 1) n

unfoldable pub queued_nonces : List NonceRange → List ℕ
unfolding nonces_from
queued_nonces [] = []
queued_nonces (range ∷ rest) =
    nonces_from range.start (range.limit - range.start) ++ queued_nonces rest

-- All that is left to hand out, in the order in which it will be.
abbrev pub left_of : ℕ → List NonceRange → List ℕ
left_of packed queued =
    nonces_from (current_of packed) (limit_of packed - current_of packed) ++ queued_nonces queued

unfoldable pub left : Job → List ℕ
unfolding queued_nonces
left job = left_of job.range job.queued

-- Every range fits 32 bits, and no queued range is empty.
abbrev pub QueueIsValid : List NonceRange → Type 0
QueueIsValid [] = Unit
QueueIsValid (range ∷ rest) =
    (range.start < range.limit) × (range.limit < 2 ^ 32) × QueueIsValid rest

pub record IsValid (job : Job) : Type 0 where
  pub range_fits : job.range < 2 ^ 64
  pub queue : QueueIsValid job.queued

pub pack_range_lem : (s l : ℕ) → s < 2 ^ 32 → l < 2 ^ 32 → pack_range s l ≡ l * 2 ^ 32 + s
unfolding pack_range
pack_range_lem s l hs hl =
    let e : l * 2 ^ 32 % 2 ^ 64 ≡ l * 2 ^ 32 = omega arith in rw e (bit_or-fields 32 l s hs)

pub length-nonces_from : (s n : ℕ) → length (nonces_from s n) ≡ n
unfolding nonces_from
length-nonces_from s zero = refl
length-nonces_from s (suc n) = ap suc (length-nonces_from (s + 1) n)

pub length-queued_nonces :
    (q : List NonceRange) → QueueIsValid q → length (queued_nonces q) ≡ queued_size q
unfolding queued_nonces queued_size
length-queued_nonces [] h = refl
length-queued_nonces (r ∷ rest) h = omega (
  arith,
  length-append (nonces_from r.start (r.limit - r.start)) (queued_nonces rest),
  length-nonces_from r.start (r.limit - r.start),
  length-queued_nonces rest h.2,
)

-- `PendingNonces` counts exactly the nonces that are left.
pub length-left :
    (job : Job) → IsValid job → length (left job) ≡ pending_nonces job.range job.queued
unfolding left pending_nonces
length-left job v = ground (
  arith,
  length-append (nonces_from (current_of job.range) (limit_of job.range - current_of job.range))
      (queued_nonces job.queued),
  length-nonces_from (current_of job.range) (limit_of job.range - current_of job.range),
  length-queued_nonces job.queued v.queue,
)

pub unpack_pack :
    (s l : ℕ)
    → s < 2 ^ 32
    → l < 2 ^ 32
    → (current_of (pack_range s l) ≡ s) × (limit_of (pack_range s l) ≡ l)
unpack_pack s l hs hl = rw (pack_range_lem s l hs hl) (omega arith, omega arith)

-- A range that is not used up gives its next nonce, which is the first that is left.
pub left-take_nonce :
    (job : Job)
    → IsValid job
    → current_of job.range < limit_of job.range
    → left job ≡ (take_nonce job.range job).1 ∷ left (take_nonce job.range job).0
unfolding left take_nonce nonces_from
left-take_nonce job v h =
    let (cur, lim) =
      unpack_pack (current_of job.range + 1) (limit_of job.range) (omega arith) (omega arith) in
    let e : limit_of job.range - current_of job.range
        ≡ suc (limit_of job.range - (current_of job.range + 1)) =
      omega arith in
    rw (e, cur, lim)

pub take_nonce-IsValid :
    (job : Job)
    → IsValid job
    → current_of job.range < limit_of job.range
    → IsValid (take_nonce job.range job).0
unfolding take_nonce
take_nonce-IsValid job v h = record {
  range_fits = ground (arith, pack_range_lem (current_of job.range + 1) (limit_of job.range));
  queue = v.queue;
}

pub used_up :
    (packed : ℕ) (queued : List NonceRange)
    → limit_of packed ≤ current_of packed
    → left_of packed queued ≡ queued_nonces queued
unfolding nonces_from
used_up packed queued h = let e : limit_of packed - current_of packed ≡ 0 = omega arith in rw e

pub left-next_range :
    (queued : List NonceRange) (job : Job)
    → QueueIsValid queued
    → queued ≡ job.queued
    → limit_of job.range ≤ current_of job.range
    → left (next_range queued job).0 ≡ left job
unfolding left next_range
left-next_range [] job q e h = refl
left-next_range (r ∷ rest) job q e h =
    let (cur, lim) = unpack_pack r.start r.limit (omega arith) (omega arith) in
    rw (cur, lim) (sym (used_up job.range job.queued h ∙ ap queued_nonces (sym e)))

pub next_range-IsValid :
    (queued : List NonceRange) (job : Job)
    → QueueIsValid queued
    → IsValid job
    → IsValid (next_range queued job).0
unfolding next_range
next_range-IsValid [] job q v = v
next_range-IsValid (r ∷ rest) job q v = record {
  range_fits = ground (arith, pack_range_lem r.start r.limit);
  queue = q.2;
}

queued_nonces-append :
    (q : List NonceRange) (r : NonceRange)
    → queued_nonces (q ++ (r ∷ [])) ≡ queued_nonces q ++ nonces_from r.start (r.limit - r.start)
unfolding queued_nonces
queued_nonces-append [] r = append-nil _
queued_nonces-append (x ∷ q) r = simp (queued_nonces-append q r, append_assoc)

QueueIsValid-append :
    (q : List NonceRange) (r : NonceRange)
    → QueueIsValid q
    → (r.start < r.limit) × (r.limit < 2 ^ 32)
    → QueueIsValid (q ++ (r ∷ []))
QueueIsValid-append [] r h k = (k.0, k.1, tt)
QueueIsValid-append (x ∷ q) r h k = (h.0, h.1, QueueIsValid-append q r h.2 k)

-- Going on to the next range loses nothing and repeats nothing, whatever other threads did.
pub left-advance_range :
    (exhausted : ℕ) (job : Job)
    → IsValid job
    → limit_of exhausted ≤ current_of exhausted
    → left (advance_range exhausted job).0 ≡ left job
unfolding left advance_range
left-advance_range exhausted job v h = elim (Bool-cases (job.range == exhausted)) [
  | inl same ↦
      let e : job.range ≡ exhausted = (==_iff _ _).0 same in
      rw same (left-next_range job.queued job v.queue refl (rw e h))
  | inr other ↦ rw other
]

pub advance_range-IsValid :
    (exhausted : ℕ) (job : Job) → IsValid job → IsValid (advance_range exhausted job).0
unfolding advance_range
advance_range-IsValid exhausted job v = elim (Bool-cases (job.range == exhausted)) [
  | inl same ↦ rw same (next_range-IsValid job.queued job v.queue v)
  | inr other ↦ rw other v
]

pub left-queue_range :
    (start limit : ℕ) (job : Job)
    → left (queue_range start limit job).0
      ≡ left job
        ++ (if (queue_range start limit job).1 then nonces_from start (limit - start) else [])
unfolding left queue_range
left-queue_range start limit job = elim (Bool-cases (leb limit start || not job.ranged)) [
  | inl refused ↦ rw refused (sym (append-nil _))
  | inr accepted ↦ rw accepted (simp (queued_nonces-append, append_assoc))
]

-- A range of a job that was sent with one is accepted when it is not empty, and then its nonces come after those
-- that are left, in order, and nothing but the queue changes; any other range is refused, and then nothing of
-- the job changes.
pub queue_range_lem :
    (start limit : ℕ) (job : Job)
    → ((start < limit)
        × (job.ranged ≡ true)
        × ((queue_range start limit job).1 ≡ true)
        × (left (queue_range start limit job).0 ≡ left job ++ nonces_from start (limit - start))
        × (record (queue_range start limit job).0 { queued = job.queued } ≡ job))
      ⊎ (((limit ≤ start) ⊎ (job.ranged ≡ false)) × (queue_range start limit job ≡ (job, false)))
unfolding queue_range
queue_range_lem start limit job = elim (Bool-cases (leb limit start)) [
  | inl empty ↦ inr (inl (leb→le limit start empty), rw empty refl)
  | inr some_nonces ↦ elim (Bool-cases job.ranged) [
    | inl ranged ↦
        let here = left-queue_range start limit job in
        inl (
          lt_of_not_leb limit start some_nonces,
          ranged,
          rw (some_nonces, ranged) refl,
          here ∙ rw (some_nonces, ranged) refl,
          rw (some_nonces, ranged) refl,
        )
    | inr unranged ↦ inr (inr unranged, rw (some_nonces, unranged) refl)
  ]
]

pub queue_range-IsValid :
    (start limit : ℕ) (job : Job)
    → limit < 2 ^ 32
    → IsValid job
    → IsValid (queue_range start limit job).0
unfolding queue_range
queue_range-IsValid start limit job h v = elim (Bool-cases (leb limit start || not job.ranged)) [
  | inl refused ↦ rw refused v
  | inr accepted ↦ rw accepted (record {
    range_fits = v.range_fits;
    queue = QueueIsValid-append job.queued _ v.queue (ground arith);
  })
]
