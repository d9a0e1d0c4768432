-- ===== src/Job/Worker/Hashing.antt =====
-- What a mining thread does with a nonce, or without one: begin a hash, finish one and begin the next,
-- or flush.
use nminer.Prelude.{
  ℕ, ◌+◌, ◌≤◌, Bool, true, false, none, some, inl, inr, ◌≡◌, refl, ◌∙◌, take, ◌==◌, if◌then◌else◌,
  arith, Option-cases, length-take,
}
use nminer.Bytes.{write_at, front_of}
use nminer.Job.State.{Job, nonce_offset}
use nminer.Job.Send.Blob.{write_nonce}
use nminer.Job.Hasher.{Hasher, HasherLaws}
use nminer.Job.Worker.{
  Worker, Seen, submit_share, flush_hash, begin_hash, next_hash, hash_nonce, work,
}
use nminer.Job.Worker.Buffers.{Buffer, IsJob-size, write_nonce-Buffer, shared-Buffer}
use nminer.Job.Worker.Held.{
  AllShares, Fits, IsPending, submit_share-AllShares, Good, Flushed, flush_hash-Flushed, HasJob,
}

if_same {ℓ} : {A : Type ℓ} (b : Bool) (a : A) → (if b then a else a) ≡ a
if_same true a = refl
if_same false a = refl

module _ (h : Hasher) (laws : HasherLaws h) (Known : Job → Type 0) where
  open laws use {IsHash, Holds, IsReady, first-Holds, next-IsHash, last-IsHash}

  begin_hash-Good :
      (job flags : Job) (nonce lo : ℕ) (vm : h.Vm) (w : Worker h)
      → AllShares h laws Known w.submitted
      → Fits h laws Known job w
      → nonce_offset + 4 ≤ job.size
      → IsReady vm
      → Good h laws Known lo (begin_hash h flags nonce vm w)
  unfolding begin_hash Good
  begin_hash-Good job flags nonce lo vm w all fits filled ready =
      let cur = write_nonce-Buffer job flags w.cur nonce fits.cur_agrees in
      let nxt : Buffer job (write_at w.nxt 0 (take w.size (write_nonce flags w.cur nonce))) =
        rw fits.size_same (
          shared-Buffer job (write_nonce flags w.cur nonce) w.nxt (IsJob-size job fits.is) cur
            fits.nxt_room) in
      (
        all,
        inr (
          job,
          record {
            fits = record {
              known = fits.known;
              is = fits.is;
              size_same = fits.size_same;
              target_same = fits.target_same;
              version_same = fits.version_same;
              cur_agrees = cur;
              nxt_room = nxt.0;
            };
            first = refl;
            filled = filled;
            nxt_agrees = nxt;
            machine = h.first (take w.size (write_nonce flags w.cur nonce)) vm;
            has = refl;
            holds = first-Holds _ vm ready;
          },
        ),
      )

  next_hash-Good :
      (job flags : Job) (nonce lo : ℕ) (w : Worker h)
      → AllShares h laws Known w.submitted
      → (pending : IsPending h laws Known job w)
      → (w' : Worker h) × (next_hash h flags nonce pending.machine w ≡ some w')
        × Good h laws Known lo w'
  unfolding next_hash Good
  next_hash-Good job flags nonce lo w all pending =
      let fits = pending.fits in
      let nxt = write_nonce flags w.nxt nonce in
      let agrees = write_nonce-Buffer job flags w.nxt nonce pending.nxt_agrees in
      let small = IsJob-size job fits.is in
      let (hash, vm, e, hashed, holds) =
        next-IsHash (take w.size w.cur) (take w.size nxt) pending.machine pending.holds in
      let ran : Worker h = record w { nxt = nxt; vm = some vm; hashes = w.hashes + 1 } in
      let held : Fits h laws Known job ran = record {
        known = fits.known;
        is = fits.is;
        size_same = fits.size_same;
        target_same = fits.target_same;
        version_same = fits.version_same;
        cur_agrees = fits.cur_agrees;
        nxt_room = agrees.0;
      } in
      let w' : Worker h = record (submit_share h hash ran) {
        cur = write_at w.cur 0 (take w.size nxt);
      } in
      (
        w',
        rw e refl,
        (
          submit_share-AllShares h laws Known job ran hash held pending.filled hashed all,
          inr (
            job,
            record {
              fits = record {
                known = fits.known;
                is = fits.is;
                size_same = fits.size_same;
                target_same = fits.target_same;
                version_same = fits.version_same;
                cur_agrees =
                    rw fits.size_same (shared-Buffer job nxt w.cur small agrees fits.cur_agrees.0);
                nxt_room = agrees.0;
              };
              first = pending.first;
              filled = pending.filled;
              nxt_agrees = agrees;
              machine = vm;
              has = refl;
              holds =
                  rw
                    (front_of w.size (take w.size nxt) _
                      (omega (arith, length-take w.size nxt, agrees.0, fits.size_same, small)))
                    holds;
            },
          ),
        ),
      )

  pub flush_hash-Good :
      (lo : ℕ) (w : Worker h)
      → Flushed h laws Known lo w
      → (w' : Worker h) × (flush_hash h w ≡ some w') × Good h laws Known lo w'
  unfolding Flushed Good
  flush_hash-Good lo w (w', e, shares, idle, _) = (w', e, (shares, inl idle))

  hash_nonce-next :
      (seen : Seen h) (nonce : ℕ) (w : Worker h) (vm : h.Vm)
      → w.vm ≡ some vm
      → w.is_first ≡ false
      → hash_nonce h seen nonce w ≡ next_hash h seen.flags nonce vm w
  unfolding hash_nonce
  hash_nonce-next seen nonce w vm has first = rw (has, first) refl

  -- A thread with a job and a nonce.
  hash_nonce-Good :
      (seen : Seen h) (nonce lo : ℕ) (w : Worker h) (job : Job)
      → nonce_offset + 4 ≤ job.size
      → Fits h laws Known job w
      → Good h laws Known lo w
      → (w' : Worker h) × (hash_nonce h seen nonce w ≡ some w') × Good h laws Known lo w'
  unfolding hash_nonce Good
  hash_nonce-Good seen nonce lo w job filled fits (all, inl idle) = (
    begin_hash h seen.flags nonce idle.machine w,
    rw (idle.has, idle.first) refl,
    begin_hash-Good job seen.flags nonce lo idle.machine w all fits filled idle.ready,
  )
  hash_nonce-Good seen nonce lo w _ _ _ (all, inr (job, pending)) =
      let (w', e, good) = next_hash-Good job seen.flags nonce lo w all pending in
      (w', hash_nonce-next seen nonce w pending.machine pending.has pending.first ∙ e, good)

  -- The cases of `work` without a hash to begin.
  work-flush :
      (seen : Seen h) (lo : ℕ) (w : Worker h)
      → work h seen w ≡ flush_hash h w
      → Good h laws Known lo w
      → (w' : Worker h) × (work h seen w ≡ some w') × Good h laws Known lo w'
  work-flush seen lo w same good =
      let (w', e, good') = flush_hash-Good lo w (flush_hash-Flushed h laws Known lo w good) in
      (w', same ∙ e, good')

  work-empty :
      (seen : Seen h) (w : Worker h) → (w.size == 0) ≡ true → work h seen w ≡ flush_hash h w
  unfolding work
  work-empty seen w e = rw e refl

  work-drained :
      (seen : Seen h) (w : Worker h) → seen.next_nonce ≡ none → work h seen w ≡ flush_hash h w
  unfolding work
  work-drained seen w drained = rw drained (if_same (w.size == 0) (flush_hash h w))

  work-drew :
      (seen : Seen h) (w : Worker h) (nonce : ℕ)
      → (w.size == 0) ≡ false
      → seen.next_nonce ≡ some nonce
      → work h seen w ≡ hash_nonce h seen nonce w
  unfolding work
  work-drew seen w nonce e drew = rw (e, drew) refl

  pub work-Good :
      (seen : Seen h) (lo : ℕ) (w : Worker h)
      → Good h laws Known lo w
      → HasJob h laws Known w
      → (w' : Worker h) × (work h seen w ≡ some w') × Good h laws Known lo w'
  unfolding HasJob
  work-Good seen lo w good (inl empty) =
      work-flush seen lo w (work-empty seen w (ground (arith, empty))) good
  work-Good seen lo w good (inr (job, fits)) = elim fits.is.fits [
    | inl empty ↦
        work-flush seen lo w (work-empty seen w (ground (arith, fits.size_same, empty))) good
    | inr (filled, _) ↦
        let nonempty : (w.size == 0) ≡ false = ground (arith, fits.size_same, filled) in
        elim (Option-cases seen.next_nonce) [
          | inl drained ↦ work-flush seen lo w (work-drained seen w drained) good
          | inr (nonce, drew) ↦
              let (w', e, good') = hash_nonce-Good seen nonce lo w job filled fits good in
              (w', work-drew seen w nonce nonempty drew ∙ e, good')
        ]
  ]
