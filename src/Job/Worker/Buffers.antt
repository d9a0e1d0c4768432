-- ===== src/Job/Worker/Buffers.antt =====
-- The buffers `cur` and `nxt` of a mining thread against the blob of its job.
use nminer.Prelude.{
  ℕ, ◌+◌, ◌-◌, ◌≤◌, ◌<◌, List, ◌⊎◌, inl, inr, ◌≡◌, ◌∙◌, length, get_elem?, take, length-take,
  get_elem?-take, arith,
}
use nminer.Bytes.{write_at, write_unaligned, store_le, length-write_at, length-store_le}
use nminer.Bytes.Writes.{
  get_elem?-write_at_before, get_elem?-write_at_inside, get_elem?-write_at_after,
}
use nminer.Job.State.{Job, nonce_offset, max_blob_size}
use nminer.Job.Send.Blob.{write_nonce}

-- A blob buffer of `max_blob_size` bytes, and a size of 0 (no job yet) or one with room for the nonce.
pub record IsJob (job : Job) : Type 0 where
  pub room : length job.blob ≡ max_blob_size
  pub fits : (job.size ≡ 0) ⊎ ((nonce_offset + 4 ≤ job.size) × (job.size ≤ max_blob_size))

-- The bytes up to the job's size are those of its blob, but for the four of the nonce.
abbrev pub AgreesWith : Job → List ℕ → Type 0
AgreesWith job bytes =
    (i : ℕ)
    → i < job.size
    → (i < nonce_offset) ⊎ (nonce_offset + 4 ≤ i)
    → get_elem? bytes i ≡ get_elem? job.blob i

-- A buffer of the thread that agrees with its job.
abbrev pub Buffer : Job → List ℕ → Type 0
Buffer job bytes = (length bytes ≡ max_blob_size) × AgreesWith job bytes

pub IsJob-size : (job : Job) → IsJob job → job.size ≤ max_blob_size
IsJob-size job is = elim is.fits [ inl empty ↦ omega arith | inr (_, h) ↦ h ]

-- A buffer onto which the first `n` bytes of another are copied.
copied :
    (n : ℕ) (from to : List ℕ)
    → n ≤ max_blob_size
    → length from ≡ max_blob_size
    → length to ≡ max_blob_size
    → (length (write_at to 0 (take n from)) ≡ max_blob_size)
      × ((i : ℕ) → i < n → get_elem? (write_at to 0 (take n from)) i ≡ get_elem? from i)
copied n from to small source target =
    let size = length-take n from in
    (
      length-write_at to 0 (take n from) (omega (arith, size)) ∙ target,
      λ i h.
          get_elem?-write_at_inside to 0 (take n from) i i (omega arith) (omega (arith, size))
            (omega arith)
          ∙ get_elem?-take n from i h,
    )

pub copied-Buffer :
    (job : Job) (bytes : List ℕ)
    → IsJob job
    → length bytes ≡ max_blob_size
    → Buffer job (write_at bytes 0 (take job.size job.blob))
copied-Buffer job bytes is room =
    let (full, same) = copied job.size job.blob bytes (IsJob-size job is) is.room room in
    (full, λ i h _. same i h)

-- Four bytes written where the nonce stands.
overwritten :
    (job : Job) (bytes four : List ℕ)
    → length four ≡ 4
    → Buffer job bytes
    → Buffer job (write_at bytes nonce_offset four)
overwritten job bytes four e (room, agrees) = (
  length-write_at bytes nonce_offset four (omega arith) ∙ room,
  λ i h where_. elim where_ [
    | inl before ↦
        get_elem?-write_at_before bytes nonce_offset four i (omega arith) before
        ∙ agrees i h (inl before)
    | inr behind ↦
        get_elem?-write_at_after bytes nonce_offset four i (i - (nonce_offset + 4)) (omega arith)
          (omega arith)
        ∙ agrees i h (inr behind)
  ],
)

written :
    (job : Job) (bytes : List ℕ) (v : ℕ)
    → Buffer job bytes
    → Buffer job (write_unaligned 4 bytes nonce_offset v)
unfolding write_unaligned
written job bytes v buffer = overwritten job bytes (store_le 4 v) (length-store_le 4 v) buffer

pub write_nonce-Buffer :
    (job flags : Job) (bytes : List ℕ) (nonce : ℕ)
    → Buffer job bytes
    → Buffer job (write_nonce flags bytes nonce)
unfolding write_nonce
write_nonce-Buffer job flags bytes nonce buffer = written job bytes _ buffer

-- A buffer copied onto the other up to the job's size.
pub shared-Buffer :
    (job : Job) (bytes other : List ℕ)
    → job.size ≤ max_blob_size
    → Buffer job bytes
    → length other ≡ max_blob_size
    → Buffer job (write_at other 0 (take job.size bytes))
shared-Buffer job bytes other h (room, agrees) room' =
    let (full, same) = copied job.size bytes other h room room' in
    (full, λ i p outside. same i p ∙ agrees i p outside)

-- What is hashed of a buffer.
pub Buffer-take :
    (job : Job) (bytes : List ℕ)
    → job.size ≤ max_blob_size
    → Buffer job bytes
    → (length (take job.size bytes) ≡ job.size) × AgreesWith job (take job.size bytes)
Buffer-take job bytes h (room, agrees) = (
  omega (arith, length-take job.size bytes),
  λ i p outside. get_elem?-take job.size bytes i p ∙ agrees i p outside,
)
