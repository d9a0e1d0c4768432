-- ===== src/Dataset/Generator/Safety.antt =====
-- The data and the index of a `Blake2Generator` over any sequence of calls.
use nminer.Prelude.{
  get_elem?-inside, ℕ, suc, ◌+◌, ◌≤◌, List, [], ◌∷◌, some, ◌≡◌, refl, ap, arith, length, take,
  replicate, Bool-cases, inl, inr, ltb, length-take,
}
use nminer.Bytes.{store_le, write_at, read_unaligned, length-write_at, length-store_le}
use nminer.Dataset.Generator.{
  Generator, Call, get_byte, get_uint32, bytes_needed, data_size, max_seed_size, blake2_generator,
  check_data, read_data, get, get_all,
}

pub record IsWhole (g : Generator) : Type 0 where
  pub full : length g.bytes ≡ data_size
  pub inside : g.data_index ≤ data_size

pub blake2_generator-IsWhole : (seed : List ℕ) (nonce : ℕ) → IsWhole (blake2_generator seed nonce)
unfolding blake2_generator
blake2_generator-IsWhole seed nonce =
    let seeded : length (write_at (replicate data_size 0) 0 (take max_seed_size seed)) ≡ data_size =
      length-write_at (replicate data_size 0) 0 (take max_seed_size seed)
        (omega (arith, length-take max_seed_size seed)) in
    record {
      full = omega (
        arith,
        seeded,
        length-store_le 4 nonce,
        length-write_at (write_at (replicate data_size 0) 0 (take max_seed_size seed)) max_seed_size
            (store_le 4 nonce) (omega (arith, seeded, length-store_le 4 nonce)),
      );
      inside = omega arith;
    }

module _ (blake2b : List ℕ → List ℕ)
    (digest : (xs : List ℕ) → length (blake2b xs) ≡ data_size) where
  -- There is room for what a call reads after `checkData`.
  check_data-IsWhole :
      (call : Call) (g : Generator)
      → IsWhole g
      → let g' = check_data blake2b (bytes_needed call) g in
        (length g'.bytes ≡ data_size) × (g'.data_index + bytes_needed call ≤ data_size)
  unfolding check_data
  check_data-IsWhole call g v =
      elim (Bool-cases (ltb data_size (g.data_index + bytes_needed call))) [
        | inl spent ↦ rw spent (digest g.bytes, few call)
        | inr enough ↦ rw enough (v.full, ground arith)
      ]
    where
      few : (c : Call) → 0 + bytes_needed c ≤ data_size
      few get_byte = omega arith
      few get_uint32 = omega arith

  read_data-some :
      (call : Call) (g : Generator)
      → length g.bytes ≡ data_size
      → g.data_index + bytes_needed call ≤ data_size
      → (value : ℕ) × (read_data blake2b call g ≡ some value)
  unfolding read_data
  read_data-some get_byte g full room = get_elem?-inside g.bytes g.data_index (omega (arith, full))
  read_data-some get_uint32 g full room = (read_unaligned 4 g.bytes g.data_index, ground arith)

  pub get-some :
      (call : Call) (g : Generator)
      → IsWhole g
      → (value : ℕ) × (g' : Generator) × (get blake2b call g ≡ some (value, g')) × IsWhole g'
  unfolding get
  get-some call g v =
      let (full, room) = check_data-IsWhole call g v in
      let g' = check_data blake2b (bytes_needed call) g in
      let (value, e) = read_data-some call g' full room in
      (
        value,
        record g' { data_index = g'.data_index + bytes_needed call },
        rw e refl,
        record { full = full; inside = room },
      )

  get_all-some :
      (calls : List Call) (g : Generator)
      → IsWhole g
      → (values : List ℕ) × (get_all blake2b calls g ≡ some values) × (length values ≡ length calls)
  unfolding get_all
  get_all-some [] g v = ([], refl, refl)
  get_all-some (call ∷ rest) g v =
      let (value, g', e, v') = get-some call g v in
      let (values, es, count) = get_all-some rest g' v' in
      (value ∷ values, rw (e, es) refl, ap suc count)

  -- Over a BLAKE2b that gives 64 bytes, a generator made from any seed and nonce answers every call of
  -- any sequence of getByte and getUInt32, and never reads beyond its data.
  pub blake2_generator-answers :
      (seed : List ℕ) (nonce : ℕ) (calls : List Call)
      → (values : List ℕ) × (get_all blake2b calls (blake2_generator seed nonce) ≡ some values)
        × (length values ≡ length calls)
  blake2_generator-answers seed nonce calls =
      get_all-some calls (blake2_generator seed nonce) (blake2_generator-IsWhole seed nonce)
