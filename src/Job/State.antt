-- ===== src/Job/State.antt =====
-- The members of `RxJob` that its calls and its threads share, and the constants of rx_job.h.
use nminer.Prelude.{ℕ, ◌/◌, ◌%◌, ◌^◌, List, Bool, bit_or}
use nminer.Word.{shl64}

abbrev pub nonce_offset : ℕ
nonce_offset = 39

abbrev pub max_blob_size : ℕ
max_blob_size = 408

abbrev pub nicehash_mask : ℕ
nicehash_mask = 0xff00_0000

abbrev pub nicehash_limit : ℕ
nicehash_limit = 0x0100_0000

pub record NonceRange : Type 0 where
  pub start : ℕ
  pub limit : ℕ

-- `m_range` in one atomic word: the limit above the next nonce.
unfoldable pub pack_range : ℕ → ℕ → ℕ
pack_range start limit = bit_or (shl64 limit 32) start

-- static_cast<uint32_t>(packed)
abbrev pub current_of : ℕ → ℕ
current_of packed = packed % 2 ^ 32

-- static_cast<uint32_t>(packed >> 32)
abbrev pub limit_of : ℕ → ℕ
limit_of packed = packed / 2 ^ 32 % 2 ^ 32

pub record Job : Type 0 where
  pub range : ℕ
  pub queued : List NonceRange
  pub ranged : Bool
  pub nicehash : Bool
  pub paused : Bool
  pub active : Bool
  pub blob : List ℕ
  pub size : ℕ
  pub target : ℕ
  pub job_version : ℕ
  pub hashes_done : ℕ
  pub throttle_ms : ℕ
  pub throttle_count : ℕ
  pub inflight : ℕ
