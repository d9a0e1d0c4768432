-- ===== src/Job/Send.antt =====
-- `SendJob`: the checks of its arguments, the new job under `m_job_mutex`, and the reply.
pub mod Blob
pub mod Laws
use nminer.Prelude.{
  ℕ, zero, suc, ◌+◌, ◌%◌, ◌^◌, ◌<◌, List, [], ◌∷◌, Bool, true, false, not, ◌||◌, Option, none, some,
  min, max, bit_and, length, take, ltb, leb, ◌==◌, if◌then◌else◌,
}
use nminer.Bytes.{read_unaligned, write_at}
use nminer.Job.State.{
  Job, pack_range, current_of, nonce_offset, max_blob_size, nicehash_mask, nicehash_limit,
}
use nminer.Job.Target.{parse_target, difficulty}
use nminer.Job.Send.Blob.{read_txn_count}

-- An argument as the call inspects it: `number` carries its Uint32Value.
pub data JsValue : Type 0 where
  number : ℕ → JsValue
  boolean : Bool → JsValue
  buffer : List ℕ → JsValue
  other : JsValue

-- Uint32Value gives a uint32_t.
abbrev pub FitsU32 : Option JsValue → Type 0
FitsU32 (some (number n)) = n < 2 ^ 32
FitsU32 _ = Unit

pub data JobError : Type 0 where
  bad_arguments blob_too_short zero_target : JobError

pub record Announced : Type 0 where
  pub diff : ℕ
  pub version : ℕ
  pub txn_count : Option ℕ

pub data Reply : Type 0 where
  announced : Announced → Reply
  thrown : JobError → Reply

-- info.Length() > i && info[i].IsNumber() ? info[i].Uint32Value() : d
unfoldable pub number_or : Option JsValue → ℕ → ℕ
number_or (some (number n)) d = n
number_or _ d = d

unfoldable pub is_number : Option JsValue → Bool
is_number (some (number _)) = true
is_number _ = false

first : List JsValue → Option JsValue
first [] = none
first (value ∷ _) = some value

second : List JsValue → Option JsValue
second [] = none
second (_ ∷ rest) = first rest

-- m_queued.clear()
unfoldable pub clear_queue : Job → Job
clear_queue job = record job { queued = [] }

-- What is stored into `m_range`, from the value that was loaded from it.
unfoldable pub store_range : Bool → ℕ → ℕ → Bool → Bool → ℕ → Job → Job
unfolding pack_range
store_range ranged start_nonce nonce_limit nicehash_active reset_nonce loaded job =
    let range_end : ℕ = if nicehash_active then nicehash_limit else 0xffff_ffff in
    let range_begin : ℕ = if reset_nonce then 0 else min (current_of loaded) range_end in
    record job {
      range =
          if ranged
          then pack_range start_nonce (max start_nonce nonce_limit)
          else pack_range range_begin range_end;
    }

-- The blob's own nonce has its top byte set, or the caller says so.
unfoldable pub is_nicehash : Bool → List ℕ → Bool
unfolding read_unaligned
is_nicehash nicehash blob =
    nicehash || not (bit_and (read_unaligned 4 blob nonce_offset) nicehash_mask == 0)

-- The section under `m_job_mutex` up to `m_ranged.store`.
unfoldable pub set_blob : List ℕ → ℕ → Bool → Bool → Job → Job
unfolding is_nicehash write_at
set_blob blob new_target nicehash ranged job =
    let blob' = write_at job.blob 0 blob in
    record job {
      blob = blob';
      size = length blob;
      target = new_target;
      nicehash = is_nicehash nicehash blob';
      ranged = ranged;
    }

-- m_job_version.fetch_add(1)
unfoldable pub publish : Job → Job
publish job = record job { job_version = (job.job_version + 1) % 2 ^ 32 }

-- The section under `m_job_mutex`.
unfoldable pub install : List ℕ → ℕ → Bool → Bool → Option JsValue → Option JsValue → Job → Job
unfolding set_blob clear_queue store_range publish number_or is_number
install blob new_target nicehash reset_nonce start limit job =
    let start_nonce = number_or start 0 in
    let nonce_limit = number_or limit 0xffff_ffff in
    let job' = clear_queue (set_blob blob new_target nicehash (is_number start) job) in
    publish
      (store_range job'.ranged start_nonce nonce_limit job'.nicehash reset_nonce job'.range job')

accept : List ℕ → ℕ → Bool → Bool → List JsValue → Job → Job × Reply
unfolding install difficulty read_txn_count first second
accept blob new_target nicehash reset_nonce rest job =
    let job' = install blob new_target nicehash reset_nonce (first rest) (second rest) job in
    let count = read_txn_count blob (length blob) in
    (
      job',
      announced (record {
        diff = difficulty new_target;
        version = job'.job_version;
        txn_count = if count == 0 then none else some count;
      }),
    )

unfoldable pub send_job : List JsValue → Job → Job × Reply
unfolding accept parse_target
send_job (buffer blob ∷ buffer target ∷ boolean nicehash ∷ boolean reset_nonce ∷ rest) job =
    let blob' = take max_blob_size blob in
    let new_target = parse_target target in
    if leb (length blob') (nonce_offset + 4)
    then (job, thrown blob_too_short)
    else if new_target == 0
    then (job, thrown zero_target)
    else accept blob' new_target nicehash reset_nonce rest job
send_job _ job = (job, thrown bad_arguments)
