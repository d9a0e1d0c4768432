-- ===== src/Job/Send/Blob.antt =====
-- What is read from and written to the hashing blob: the transaction count that follows the header,
-- and the nonce (`read_txn_count` and `RxJob::WriteNonce` of rx_job.cpp).
pub mod Nonce
use nminer.Prelude.{
  ℕ, zero, suc, ◌+◌, ◌-◌, ◌*◌, ◌/◌, ◌%◌, ◌^◌, ◌≤◌, ◌<◌, List, [], ◌∷◌, ◌++◌, Bool, true, false, not,
  ◌&&◌, ◌≡◌, refl, bit_and, bit_or, length, get_or, take, drop, ltb, leb, ◌==◌, if◌then◌else◌,
  arith,
}
use nminer.Bytes.{read_unaligned, write_unaligned}
use nminer.Job.State.{Job, nonce_offset, nicehash_mask}

-- The loop of `read_txn_count` with `rounds` of its four rounds left.
unfoldable pub txn_loop : ℕ → List ℕ → ℕ → ℕ → ℕ → ℕ → ℕ
txn_loop zero blob size i shift count = count
txn_loop (suc rounds) blob size i shift count =
    let byte = get_or blob i 0 in
    let count' = bit_or count (bit_and byte 0x7f * 2 ^ shift % 2 ^ 32) in
    let more = txn_loop rounds blob size (i + 1) (shift + 7) count' in
    if ltb i size then if bit_and byte 0x80 == 0 then count' else more else count

unfoldable pub read_txn_count : List ℕ → ℕ → ℕ
unfolding txn_loop
read_txn_count blob size = txn_loop 4 blob size 75 0 0

-- `WriteNonce`: the pool keeps the top byte of a nicehash job that came with no range.
unfoldable pub write_nonce : Job → List ℕ → ℕ → List ℕ
unfolding read_unaligned write_unaligned
write_nonce job blob nonce =
    let existing = read_unaligned 4 blob nonce_offset in
    let kept =
      bit_or (bit_and existing nicehash_mask) (bit_and nonce (2 ^ 32 - 1 - nicehash_mask)) in
    write_unaligned 4 blob nonce_offset (if job.nicehash && not job.ranged then kept else nonce)
