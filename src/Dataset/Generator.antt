-- ===== src/Dataset/Generator.antt =====
-- `Blake2Generator` of src/algo/randomx/blake2_generator.cpp: the stream of bytes that superscalar
-- programs are generated from. BLAKE2b of 64 bytes to 64 bytes is a parameter. `none` is a read beyond
-- the data.
pub mod Safety
use nminer.Prelude.{
  ℕ, ◌+◌, List, [], ◌∷◌, Option, none, some, ◌>>=◌, ltb, leb, take, replicate, get_elem?,
  if◌then◌else◌,
}
use nminer.Bytes.{store_le, write_at, read_unaligned}

abbrev pub max_seed_size : ℕ
max_seed_size = 60

abbrev pub data_size : ℕ
data_size = 64

pub record Generator : Type 0 where
  pub bytes : List ℕ
  pub data_index : ℕ

-- The constructor: the seed cut at 60 bytes, the nonce after it, and the index at the end.
unfoldable pub blake2_generator : List ℕ → ℕ → Generator
unfolding write_at store_le
blake2_generator seed nonce = record {
  bytes =
      write_at (write_at (replicate data_size 0) 0 (take max_seed_size seed)) max_seed_size
        (store_le 4 nonce);
  data_index = data_size;
}

-- The calls that the generator of programs makes.
pub data Call : Type 0 where
  get_byte get_uint32 : Call

abbrev pub bytes_needed : Call → ℕ
bytes_needed get_byte = 1
bytes_needed get_uint32 = 4

module _ (blake2b : List ℕ → List ℕ) where
  unfoldable pub check_data : ℕ → Generator → Generator
  check_data needed g =
      if ltb data_size (g.data_index + needed)
      then record { bytes = blake2b g.bytes; data_index = 0 }
      else g

  unfoldable pub read_data : Call → Generator → Option ℕ
  unfolding read_unaligned
  read_data get_byte g = get_elem? g.bytes g.data_index
  read_data get_uint32 g =
      if leb (g.data_index + 4) data_size
      then some (read_unaligned 4 g.bytes g.data_index)
      else none

  -- getByte and getUInt32
  unfoldable pub get : Call → Generator → Option (ℕ × Generator)
  unfolding check_data read_data
  get call g = do
    let g' = check_data (bytes_needed call) g
    value ← read_data call g'
    some (value, record g' { data_index = g'.data_index + bytes_needed call })

  unfoldable pub get_all : List Call → Generator → Option (List ℕ)
  unfolding get
  get_all [] g = some []
  get_all (call ∷ rest) g = do
    (value, g') ← get call g
    values ← get_all rest g'
    some (value ∷ values)
