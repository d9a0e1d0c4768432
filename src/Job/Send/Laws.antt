-- ===== src/Job/Send/Laws.antt =====
-- The section of `SendJob` under `m_job_mutex`: what the threads find afterwards.
use nminer.Prelude.{
  ℕ, ◌-◌, ◌<◌, ◌^◌, List, [], Bool, true, false, ◌≡◌, ap, arith, ◌∙◌, Option, none, some, min, max,
  if◌then◌else◌, Bool-cases, inl, inr,
}
use nminer.Bytes.{write_at}
use nminer.Job.State.{Job, pack_range, current_of, nicehash_limit}
use nminer.Job.Ranges.Laws.{
  IsValid, left, nonces_from, pack_range_lem, queued_nonces, left_of, unpack_pack,
}
use mathlib.Core.List.{append-nil}
use nminer.Job.Send.{
  JsValue, FitsU32, number, boolean, buffer, other, store_range, set_blob, clear_queue, publish,
  install, is_nicehash, number_or, is_number,
}

number_or-lt : (v : Option JsValue) (d : ℕ) → FitsU32 v → d < 2 ^ 32 → number_or v d < 2 ^ 32
unfolding number_or
number_or-lt none d h k = k
number_or-lt (some (number n)) d h k = h
number_or-lt (some (boolean b)) d h k = k
number_or-lt (some (buffer b)) d h k = k
number_or-lt (some other) d h k = k

pack_range-lt : (s l : ℕ) → s < 2 ^ 32 → l < 2 ^ 32 → pack_range s l < 2 ^ 64
pack_range-lt s l hs hl = omega (arith, pack_range_lem s l hs hl)

pub store_range-IsValid :
    (ranged : Bool) (s l : ℕ) (nicehash reset : Bool) (loaded : ℕ) (job : Job)
    → s < 2 ^ 32
    → l < 2 ^ 32
    → IsValid job
    → IsValid (store_range ranged s l nicehash reset loaded job)
unfolding store_range
store_range-IsValid ranged s l nicehash reset loaded job hs hl v = record {
  range_fits = in_word ranged;
  queue = v.queue;
}
  where
    range_end : ℕ
    range_end = if nicehash then nicehash_limit else 0xffff_ffff

    range_end-lt : range_end < 2 ^ 32
    range_end-lt = ground arith

    begin : ℕ
    begin = if reset then 0 else min (current_of loaded) range_end

    begin-lt : begin < 2 ^ 32
    begin-lt = ground arith

    in_word :
        (b : Bool) → (if b then pack_range s (max s l) else pack_range begin range_end) < 2 ^ 64
    in_word true = pack_range-lt s (max s l) hs (omega arith)
    in_word false = pack_range-lt begin range_end begin-lt range_end-lt

pub clear-IsValid :
    (blob : List ℕ) (target : ℕ) (nicehash ranged : Bool) (job : Job)
    → IsValid job
    → IsValid (clear_queue (set_blob blob target nicehash ranged job))
unfolding clear_queue set_blob
clear-IsValid blob target nicehash ranged job v = record { range_fits = v.range_fits; queue = tt }

pub publish-IsValid : (job : Job) → IsValid job → IsValid (publish job)
unfolding publish
publish-IsValid job v = record { range_fits = v.range_fits; queue = v.queue }

pub install-IsValid :
    (blob : List ℕ) (target : ℕ) (nicehash reset : Bool) (start limit : Option JsValue) (job : Job)
    → FitsU32 start
    → FitsU32 limit
    → IsValid job
    → IsValid (install blob target nicehash reset start limit job)
unfolding install publish
install-IsValid blob target nicehash reset start limit job hs hl v =
    let cleared = clear-IsValid blob target nicehash (is_number start) job v in
    let job' = clear_queue (set_blob blob target nicehash (is_number start) job) in
    let stored =
      store_range-IsValid job'.ranged (number_or start 0) (number_or limit 0xffff_ffff)
        job'.nicehash reset job'.range job' (number_or-lt start 0 hs (omega arith))
        (number_or-lt limit 0xffff_ffff hl (omega arith)) cleared in
    record { range_fits = stored.range_fits; queue = stored.queue }

-- The end of the nonces of a job that comes with no range, and their beginning.
abbrev pub end_of : Bool → List ℕ → Job → ℕ
end_of nicehash blob job =
    if is_nicehash nicehash (write_at job.blob 0 blob) then nicehash_limit else 0xffff_ffff

abbrev pub begin_of : Bool → Bool → List ℕ → Job → ℕ
begin_of reset nicehash blob job =
    if reset then 0 else min (current_of job.range) (end_of nicehash blob job)

left_packed :
    (a b : ℕ) → a < 2 ^ 32 → b < 2 ^ 32 → left_of (pack_range a b) [] ≡ nonces_from a (b - a)
unfolding queued_nonces
left_packed a b ha hb = rw ((unpack_pack a b ha hb).0, (unpack_pack a b ha hb).1) (append-nil _)

end_of-lt : (nicehash : Bool) (blob : List ℕ) (job : Job) → end_of nicehash blob job < 2 ^ 32
end_of-lt nicehash blob job = ground arith

begin_of-lt :
    (reset nicehash : Bool) (blob : List ℕ) (job : Job) → begin_of reset nicehash blob job < 2 ^ 32
begin_of-lt reset nicehash blob job = ground (arith, end_of-lt nicehash blob job)

-- `SendJob` sets the nonces that the threads will draw: with a range, the range's own, none when its
-- limit is below its start; with none, those from the next one or from 0 to the end of the space.
pub left-install :
    (blob : List ℕ) (target : ℕ) (nicehash reset : Bool) (start limit : Option JsValue) (job : Job)
    → FitsU32 start
    → FitsU32 limit
    → left (install blob target nicehash reset start limit job) ≡ (
        if is_number start
        then nonces_from (number_or start 0) (number_or limit 0xffff_ffff - number_or start 0)
        else nonces_from
            (begin_of reset nicehash blob job)
            (end_of nicehash blob job - begin_of reset nicehash blob job))
unfolding install publish store_range clear_queue set_blob left queued_nonces
left-install blob target nicehash reset start limit job hs hl =
    elim (Bool-cases (is_number start)) [
      | inl ranged ↦ rw ranged (
          left_packed s (max s l) hs' (omega (arith, hs', hl'))
          ∙ ap (nonces_from s) {y = l - s} (omega arith))
      | inr free ↦ rw free (
          left_packed (begin_of reset nicehash blob job) (end_of nicehash blob job)
            (begin_of-lt reset nicehash blob job) (end_of-lt nicehash blob job))
    ]
  where
    s : ℕ
    s = number_or start 0

    l : ℕ
    l = number_or limit 0xffff_ffff

    hs' : s < 2 ^ 32
    hs' = number_or-lt start 0 hs (omega arith)

    hl' : l < 2 ^ 32
    hl' = number_or-lt limit 0xffff_ffff hl (omega arith)
