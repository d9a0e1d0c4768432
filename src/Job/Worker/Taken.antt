-- ===== src/Job/Worker/Taken.antt =====
-- The job that a mining thread takes under the lock: its copy, or the one that it had.
use nminer.Prelude.{
  ℕ, ◌-◌, ◌^◌, ◌≤◌, ◌<◌, some, ◌>>=◌, inl, inr, ◌≡◌, refl, sym, ◌==◌, arith, Bool-cases,
}
use nminer.Job.State.{Job}
use nminer.Job.Hasher.{Hasher, HasherLaws}
use nminer.Job.Worker.{Worker, Seen, flush_hash, copy_job, take_job}
use nminer.Job.Worker.Buffers.{IsJob, copied-Buffer}
use nminer.Job.Worker.Held.{Fits, Good, Flushed, flush_hash-Flushed, HasJob}

module _ (h : Hasher) (laws : HasherLaws h) (Known : Job → Type 0) where
  open laws use {IsHash, Holds, IsReady, first-Holds, next-IsHash, last-IsHash}

  -- An idle thread whose version is one that was loaded.
  same-Good :
      (lo lo' : ℕ) (w : Worker h)
      → lo ≤ lo'
      → lo' < 2 ^ 32 - 1
      → w.version ≡ lo'
      → Good h laws Known lo w
      → Good h laws Known lo' w × HasJob h laws Known w
  unfolding Good HasJob
  same-Good lo lo' w later bound e (all, inr (job, pending)) =
      ((all, inr (job, pending)), inr (job, pending.fits))
  same-Good lo lo' w later bound e (all, inl idle) =
      let on : HasJob h laws Known w → Good h laws Known lo' w × HasJob h laws Known w = λ has. (
        (
          all,
          inl (record {
            first = idle.first;
            machine = idle.machine;
            has = idle.has;
            ready = idle.ready;
            room = idle.room;
            job = elim has [ inl empty ↦ inl empty | inr held ↦ inr (inl held) ];
          }),
        ),
        has,
      ) in
      elim idle.job [
        | inl empty ↦ on (inl empty)
        | inr (inl held) ↦ on (inr held)
        | inr (inr stale) ↦ absurd (stale lo' later bound (sym e))
      ]

  copied-Good :
      (seen : Seen h) (lo : ℕ) (w : Worker h)
      → Known seen.current
      → IsJob seen.current
      → Flushed h laws Known lo w
      → (w' : Worker h) × ((flush_hash h w >>= λ f. some (copy_job h seen.current f)) ≡ some w')
        × Good h laws Known seen.job_version w'
        × HasJob h laws Known w'
  unfolding Flushed copy_job Good HasJob
  copied-Good seen lo w known is (f, e, shares, idle, _) =
      let held : Fits h laws Known seen.current (copy_job h seen.current f) = record {
        known = known;
        is = is;
        size_same = refl;
        target_same = refl;
        version_same = refl;
        cur_agrees = copied-Buffer seen.current f.cur is idle.room.0;
        nxt_room = idle.room.1;
      } in
      (
        copy_job h seen.current f,
        rw e refl,
        (
          shares,
          inl (record {
            first = idle.first;
            machine = idle.machine;
            has = idle.has;
            ready = idle.ready;
            room = (held.cur_agrees.0, held.nxt_room);
            job = inr (inl (seen.current, held));
          }),
        ),
        inr (seen.current, held),
      )

  pub take_job-Good :
      (seen : Seen h) (lo : ℕ) (w : Worker h)
      → Known seen.current
      → IsJob seen.current
      → lo ≤ seen.job_version
      → seen.job_version < 2 ^ 32 - 1
      → Good h laws Known lo w
      → (w' : Worker h) × (take_job h seen w ≡ some w')
        × Good h laws Known seen.job_version w'
        × HasJob h laws Known w'
  unfolding take_job
  take_job-Good seen lo w known is later bound good =
      elim (Bool-cases (w.version == seen.job_version)) [
        | inl same ↦
            let (good', has) = same-Good lo seen.job_version w later bound (ground arith) good in
            (w, rw same refl, good', has)
        | inr differs ↦
            let (w', e, good', has) =
              copied-Good seen lo w known is (flush_hash-Flushed h laws Known lo w good) in
            (w', rw differs e, good', has)
      ]
