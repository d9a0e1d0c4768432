-- ===== src/Job/Worker/Held.antt =====
-- What a mining thread holds between two steps of its loop: a job, a hash that is pending, results
-- of known jobs; and what `FlushHash` and `SubmitShare` do to it.
use nminer.Prelude.{
  ℕ, ◌+◌, ◌-◌, ◌^◌, ◌≤◌, ◌<◌, List, [], ◌∷◌, true, false, some, ◌⊎◌, inl, inr, ◌≡◌, ◌≢◌, refl, sym,
  ◌∙◌, length, take, drop, ltb, ◌==◌, arith, Bool-cases, take-drop-take,
}
use nminer.Bytes.{read_unaligned}
use nminer.Job.State.{Job, nonce_offset, max_blob_size}
use nminer.Job.Hasher.{Hasher, HasherLaws}
use nminer.Job.Worker.{JobResult, Worker, submit_share, flush_pending, flush_hash}
use nminer.Job.Worker.Buffers.{IsJob, AgreesWith, Buffer, IsJob-size, Buffer-take}

module _ (h : Hasher) (laws : HasherLaws h) (Known : Job → Type 0) where
  open laws use {IsHash, Holds, IsReady, first-Holds, next-IsHash, last-IsHash}

  -- A result for a job: of a blob that is the job's but for the nonce, the nonce, a hash that meets the
  -- target and the version.
  pub record IsShareOf (job : Job) (share : JobResult) : Type 0 where
    pub blob : List ℕ
    pub hash : List ℕ
    pub size : length blob ≡ job.size
    pub agrees : AgreesWith job blob
    pub nonce : share.nonce ≡ take 4 (drop nonce_offset blob)
    pub hashed : IsHash blob hash
    pub result : share.result ≡ take 32 hash
    pub meets : read_unaligned 8 hash 24 ≤ job.target
    pub version : share.version ≡ job.job_version

  abbrev pub AllShares : List JobResult → Type 0
  AllShares [] = Unit
  AllShares (share ∷ rest) = ((job : Job) × Known job × IsShareOf job share) × AllShares rest

  -- The size, target, version and buffers of a thread that holds a job.
  pub record Holding (job : Job) (size target version : ℕ) (cur nxt : List ℕ) : Type 0 where
    pub known : Known job
    pub is : IsJob job
    pub size_same : size ≡ job.size
    pub target_same : target ≡ job.target
    pub version_same : version ≡ job.job_version
    pub cur_agrees : Buffer job cur
    pub nxt_room : length nxt ≡ max_blob_size

  abbrev pub Fits : Job → Worker h → Type 0
  Fits job w = Holding job w.size w.target w.version w.cur w.nxt

  -- A hash is pending, that of `cur`.
  pub record IsPending (job : Job) (w : Worker h) : Type 0 where
    pub fits : Fits job w
    pub first : w.is_first ≡ false
    pub filled : nonce_offset + 4 ≤ job.size
    pub nxt_agrees : Buffer job w.nxt
    pub machine : h.Vm
    pub has : w.vm ≡ some machine
    pub holds : Holds machine (take w.size w.cur)

  pub submit_share-AllShares :
      (job : Job) (w : Worker h) (hash : List ℕ)
      → Fits job w
      → nonce_offset + 4 ≤ job.size
      → IsHash (take w.size w.cur) hash
      → AllShares w.submitted
      → AllShares (submit_share h hash w).submitted
  unfolding submit_share
  submit_share-AllShares job w hash fits filled hashed all =
      let (size, agrees) = Buffer-take job w.cur (IsJob-size job fits.is) fits.cur_agrees in
      elim (Bool-cases (ltb w.target (read_unaligned 8 hash 24))) [
        | inl above ↦ rw above all
        | inr meets ↦ rw meets (
          (
            job,
            fits.known,
            record {
              blob = take job.size w.cur;
              hash = hash;
              size = size;
              agrees = agrees;
              nonce = sym (take-drop-take 4 nonce_offset job.size w.cur filled);
              hashed = rw (sym fits.size_same) hashed;
              result = refl;
              meets = rw (sym fits.target_same) (ground arith);
              version = fits.version_same;
            },
          ),
          all,
        )
      ]

  -- No hash is pending, and the machine is at hand. The version is that of the thread's job, unless
  -- there is no job or it is none that a load can give from `lo` on.
  pub record IsIdle (lo : ℕ) (w : Worker h) : Type 0 where
    pub first : w.is_first ≡ true
    pub machine : h.Vm
    pub has : w.vm ≡ some machine
    pub ready : IsReady machine
    pub room : (length w.cur ≡ max_blob_size) × (length w.nxt ≡ max_blob_size)
    pub job :
        (w.size ≡ 0)
        ⊎ (((job : Job) × Fits job w) ⊎ ((v : ℕ) → lo ≤ v → v < 2 ^ 32 - 1 → v ≢ w.version))

  -- Between two iterations, after a load of the version that gave `lo`.
  unfoldable pub Good : ℕ → Worker h → Type 0
  Good lo w = AllShares w.submitted × (IsIdle lo w ⊎ ((job : Job) × IsPending job w))

  -- A flush leaves the thread idle with the job that it had, if any.
  flush_hash-pending :
      (job : Job) (w : Worker h)
      → IsPending job w
      → AllShares w.submitted
      → (w' : Worker h) × (flush_hash h w ≡ some w')
        × AllShares w'.submitted
        × (w'.is_first ≡ true)
        × Fits job w'
        × ((vm : h.Vm) × (w'.vm ≡ some vm) × IsReady vm)
  unfolding flush_hash flush_pending submit_share
  flush_hash-pending job w pending all =
      let (hash, vm, e, hashed, ready) = last-IsHash _ pending.machine pending.holds in
      let ran : Worker h = record w { vm = some vm; hashes = w.hashes + 1 } in
      let shares = submit_share-AllShares job ran hash pending.fits pending.filled hashed all in
      let nonempty : (w.size == 0) ≡ false =
        ground (arith, pending.fits.size_same, pending.filled) in
      let w' : Worker h = record (submit_share h hash ran) { is_first = true } in
      (
        w',
        rw (pending.first, nonempty, pending.has, e) refl,
        shares,
        refl,
        pending.fits,
        (vm, refl, ready),
      )

  flush_hash-idle : (w : Worker h) → w.is_first ≡ true → flush_hash h w ≡ some w
  unfolding flush_hash
  flush_hash-idle w first = rw first refl

  -- What a flush leaves, between two iterations.
  unfoldable pub Flushed : ℕ → Worker h → Type 0
  unfolding Good
  Flushed lo w =
      (w' : Worker h) × (flush_hash h w ≡ some w')
      × AllShares w'.submitted
      × IsIdle lo w'
      × (w'.version ≡ w.version)

  pub flush_hash-Flushed : (lo : ℕ) (w : Worker h) → Good lo w → Flushed lo w
  unfolding Flushed Good
  flush_hash-Flushed lo w (all, inl idle) = (w, flush_hash-idle w idle.first, all, idle, refl)
  flush_hash-Flushed lo w (all, inr (job, pending)) =
      let (w', e, shares, first, fits, (vm, has, ready)) = flush_hash-pending job w pending all in
      (
        w',
        e,
        shares,
        record {
          first = first;
          machine = vm;
          has = has;
          ready = ready;
          room = (fits.cur_agrees.0, fits.nxt_room);
          job = inr (inl (job, fits));
        },
        fits.version_same ∙ sym pending.fits.version_same,
      )

  -- The thread has the job of the version that it read, or no job at all.
  unfoldable pub HasJob : Worker h → Type 0
  HasJob w = (w.size ≡ 0) ⊎ ((job : Job) × Fits job w)
