-- ===== src/Job/Worker.antt =====
-- `RxJob::Loop`, `FlushHash` and `SubmitShare` of rx_job.cpp: one mining thread. What the thread loads
-- from the shared state is an observation for each iteration, so that a list of them is any
-- interleaving with the other threads and the calls.

pub mod Buffers
pub mod Held
pub mod Taken
pub mod Hashing
pub mod Shares
use nminer.Prelude.{
  ℕ, zero, suc, ◌+◌, ◌%◌, ◌^◌, List, [], ◌∷◌, Bool, true, false, ◌||◌, not, Option, none, some,
  ◌>>=◌, ltb, ◌==◌, if◌then◌else◌, take, drop,
}
use nminer.Word.{sub32}
use nminer.Bytes.{read_unaligned, write_at}
use nminer.Job.State.{Job, nonce_offset}
use nminer.Job.Send.Blob.{write_nonce}
use nminer.Job.Hasher.{Hasher}

-- JobResult
pub record JobResult : Type 0 where
  pub nonce : List ℕ
  pub result : List ℕ
  pub version : ℕ

module _ (h : Hasher) where
  -- The locals of `Loop`, the results that it has passed on, the latest first, and how many hashes it has
  -- counted. A `vm` of `none` is the null pointer.
  pub record Worker : Type 0 where
    pub vm : Option h.Vm
    pub size : ℕ
    pub target : ℕ
    pub version : ℕ
    pub is_first : Bool
    pub cur : List ℕ
    pub nxt : List ℕ
    pub submitted : List JobResult
    pub hashes : ℕ

  -- What an iteration finds: `updating`, and then the machine that `AcquireVm` gives and the version after
  -- it; the version at the test, and the job under `m_job_mutex`; the outcome of `NextNonce`; and
  -- the job whose flags `WriteNonce` loads.
  pub record Seen : Type 0 where
    pub updating : Bool
    pub acquired : Option h.Vm
    pub version_after : ℕ
    pub job_version : ℕ
    pub current : Job
    pub next_nonce : Option ℕ
    pub flags : Job

  unfoldable pub submit_share : List ℕ → Worker → Worker
  unfolding read_unaligned
  submit_share hash w =
      let share : JobResult = record {
        nonce = take 4 (drop nonce_offset w.cur);
        result = take 32 hash;
        version = w.version;
      } in
      record w {
        submitted =
            if ltb w.target (read_unaligned 8 hash 24) then w.submitted else share ∷ w.submitted;
      }

  -- With a machine, a size that is not zero and a hash pending.
  flush_pending : h.Vm → Worker → Option Worker
  unfolding submit_share
  flush_pending vm w = do
    r ← h.last vm
    some (record (submit_share r.0 (record w { vm = some r.1; hashes = w.hashes + 1 })) {
      is_first = true;
    })

  unfoldable pub flush_hash : Worker → Option Worker
  unfolding flush_pending
  flush_hash w =
      if w.is_first || w.size == 0
      then some w
      else elim w.vm [ none ↦ some w | some vm ↦ flush_pending vm w ]

  -- The copy under `m_job_mutex`.
  unfoldable pub copy_job : Job → Worker → Worker
  unfolding write_at
  copy_job job w = record w {
    cur = write_at w.cur 0 (take job.size job.blob);
    size = job.size;
    target = job.target;
    version = job.job_version;
  }

  -- The first hash of a job only fills the scratchpad.
  unfoldable pub begin_hash : Job → ℕ → h.Vm → Worker → Worker
  unfolding write_nonce write_at
  begin_hash flags nonce vm w =
      let cur = write_nonce flags w.cur nonce in
      record w {
        is_first = false;
        cur = cur;
        vm = some (h.first (take w.size cur) vm);
        nxt = write_at w.nxt 0 (take w.size cur);
      }

  unfoldable pub next_hash : Job → ℕ → h.Vm → Worker → Option Worker
  unfolding write_nonce write_at submit_share
  next_hash flags nonce vm w = do
    let nxt = write_nonce flags w.nxt nonce
    r ← h.next (take w.size nxt) vm
    let w' = submit_share r.0 (record w { nxt = nxt; vm = some r.1; hashes = w.hashes + 1 })
    some (record w' { cur = write_at w'.cur 0 (take w'.size nxt) })

  -- The nonce and what follows. A null machine is not reached.
  unfoldable pub hash_nonce : Seen → ℕ → Worker → Option Worker
  unfolding begin_hash next_hash
  hash_nonce seen nonce w = elim w.vm [
    | none ↦ none
    | some vm ↦
        if w.is_first
        then some (begin_hash seen.flags nonce vm w)
        else next_hash seen.flags nonce vm w
  ]

  unfoldable pub work : Seen → Worker → Option Worker
  unfolding flush_hash hash_nonce
  work seen w =
      if w.size == 0
      then flush_hash w
      else elim seen.next_nonce [ none ↦ flush_hash w | some nonce ↦ hash_nonce seen nonce w ]

  -- `vm.reset()`, the wait, `AcquireVm`, and a version that the next test finds different.
  unfoldable pub renew_vm : Seen → Worker → Worker
  renew_vm seen w = record w { vm = seen.acquired; version = sub32 seen.version_after 1 }

  unfoldable pub take_job : Seen → Worker → Option Worker
  unfolding flush_hash copy_job
  take_job seen w =
      if w.version == seen.job_version
      then some w
      else do w' ← flush_hash w; some (copy_job seen.current w')

  -- One iteration. No machine after an update ends the thread.
  unfoldable pub iteration : Seen → Worker → Option Worker
  unfolding flush_hash renew_vm take_job work
  iteration seen w =
      if seen.updating
      then (do w' ← flush_hash w; some (renew_vm seen w'))
      else (do w' ← take_job seen w; work seen w')

  -- The loop while `m_active` holds, and the flush after it.
  unfoldable pub loop : List Seen → Worker → Option Worker
  unfolding iteration flush_hash
  loop [] w = flush_hash w
  loop (seen ∷ rest) w = do
    w' ← iteration seen w
    let on = loop rest w'
    elim w'.vm [ none ↦ some w' | some vm ↦ on ]
