-- ===== src/Job/Send/Blob/Nonce.antt =====
-- What `WriteNonce` leaves in the hashing blob where the nonce stands.
use nminer.Prelude.{
  ℕ, ◌+◌, ◌-◌, ◌*◌, ◌/◌, ◌%◌, ◌^◌, ◌≤◌, ◌<◌, List, not, ◌&&◌, ◌≡◌, ◌∙◌, bit_and, bit_or, length,
  if◌then◌else◌, arith, Bool-cases, inl, inr,
}
use nminer.Bytes.{read_unaligned, read-write_unaligned, AllBytes, read_unaligned-lt}
use nminer.Word.Bits.{bit_and-shift, bit_and-ones, bit_or-fields}
use nminer.Job.State.{Job, nonce_offset, nicehash_mask}
use nminer.Job.Send.Blob.{write_nonce}

-- The top byte of one word over the three low bytes of another.
pool_byte :
    (a b : ℕ)
    → a < 2 ^ 32
    → bit_or (bit_and a nicehash_mask) (bit_and b (2 ^ 32 - 1 - nicehash_mask))
      ≡ a / 2 ^ 24 * 2 ^ 24 + b % 2 ^ 24
pool_byte a b h =
    rw (bit_and-shift 24 a 255, bit_and-ones 8 (a / 2 ^ 24), bit_and-ones 24 b)
      (bit_or-fields 24 (a / 2 ^ 24 % 2 ^ 8) (b % 2 ^ 24) (omega arith) ∙ omega arith)

-- A thread that writes its nonce into a blob that has room for it then finds there: the nonce itself;
-- for a nicehash job without a range, the top byte that the pool set, above the low 24 bits of the nonce.
pub read-write_nonce :
    (job : Job) (blob : List ℕ) (nonce : ℕ)
    → nonce < 2 ^ 32
    → AllBytes blob
    → nonce_offset + 4 ≤ length blob
    → read_unaligned 4 (write_nonce job blob nonce) nonce_offset ≡ (
        if job.nicehash && not job.ranged
        then read_unaligned 4 blob nonce_offset / 2 ^ 24 * 2 ^ 24 + nonce % 2 ^ 24
        else nonce)
unfolding write_nonce
read-write_nonce job blob nonce h bytes room =
    let existing : ℕ = read_unaligned 4 blob nonce_offset in
    let fits : existing < 2 ^ 32 = read_unaligned-lt 4 blob nonce_offset bytes room in
    let kept = pool_byte existing nonce fits in
    elim (Bool-cases (job.nicehash && not job.ranged)) [
      | inl nicehash ↦
          rw (nicehash, kept)
            (read-write_unaligned 4 blob nonce_offset _ (omega arith) (omega arith))
      | inr plain ↦
          rw plain (read-write_unaligned 4 blob nonce_offset nonce (omega arith) (omega arith))
    ]
