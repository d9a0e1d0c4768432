-- ===== src/Tests/Program.antt =====
-- The generation of a cache's programs over a stand-in for BLAKE2b.
use nminer.Prelude.{
  ℕ, zero, suc, ◌+◌, ◌≤◌, ◌<◌, List, [], ◌∷◌, none, some, ◌≡◌, ◌⊎◌, inl, inr, refl, sym, ap, ◌∙◌,
  length, replicate, get_elem?, ltb, leb, ◌==◌, ==_iff, Bool-cases, all_below, all_below_sound,
  subst, le_of_not_ltb, true, arith,
}
use mathlib.Core.Option.{some-injective}
use nminer.Bytes.{read_unaligned}
use nminer.Vm.Config.{cache_accesses, is_zero_or_power_of_2}
use nminer.Dataset.Cache.{SuperscalarProgram, cache_programs}
use nminer.Dataset.Item.{init_dataset_item}
use nminer.Dataset.Generator.{
  Generator, Call, get_byte, get_uint32, bytes_needed, blake2_generator, check_data, read_data, get,
}
use nminer.Dataset.Program.{Generated, generate_superscalar}
use nminer.Dataset.Program.Safety.{IsProgram}
use nminer.Dataset.Program.Creation.{draw_rotation, draw_divisor}
use nminer.Dataset.Program.Cache.{
  Follows, nothing, called, IsProductive, generate_superscalar-ends, init_programs,
}
use nminer.Dataset.Program.Cache.Items.{init_programs-Items}

abbrev nines : List ℕ → List ℕ
nines xs = replicate 64 9

abbrev stream : Generator
stream = blake2_generator (1 ∷ 2 ∷ []) 0

-- The seed is never read: the first call hashes it.
abbrev IsSettled : Generator → Type 0
IsSettled g = (g.data_index ≡ 64) ⊎ (g.bytes ≡ nines [])

get_elem?-replicate : (n i : ℕ) → i < n → get_elem? {A = ℕ} (replicate n 9) i ≡ some 9
get_elem?-replicate zero i h = absurd (omega (arith, h))
get_elem?-replicate (suc n) zero h = refl
get_elem?-replicate (suc n) (suc i) h = get_elem?-replicate n i (omega arith)

words_table : all_below 61 (λ i. read_unaligned 4 (nines []) i == 0x9090909) ≡ true
unfolding all_below read_unaligned
words_table = refl

check_data-nines :
    (needed : ℕ) (g : Generator)
    → 0 < needed
    → needed ≤ 4
    → IsSettled g
    → let g' = check_data nines needed g in (g'.bytes ≡ nines []) × (g'.data_index + needed ≤ 64)
unfolding check_data
check_data-nines needed g some_bytes few settled =
    elim (Bool-cases (ltb 64 (g.data_index + needed))) [
      | inl spent ↦ rw spent (refl, omega (arith, few))
      | inr enough ↦
          let inside = le_of_not_ltb 64 (g.data_index + needed) enough in
          rw enough (
            elim settled [
              | inl at_end ↦ absurd (omega (arith, at_end, inside, some_bytes))
              | inr same ↦ same
            ],
            inside,
          )
    ]

abbrev value_of : Call → ℕ
value_of get_byte = 9
value_of get_uint32 = 0x9090909

read_data-nines :
    (call : Call) (g : Generator)
    → g.bytes ≡ nines []
    → g.data_index + bytes_needed call ≤ 64
    → read_data nines call g ≡ some (value_of call)
unfolding read_data
read_data-nines get_byte g same inside =
    ap (λ bytes. get_elem? bytes g.data_index) same
    ∙ get_elem?-replicate 64 g.data_index (omega (arith, inside))
read_data-nines get_uint32 g same inside =
    let in_table = all_below_sound 61 _ g.data_index words_table (omega (arith, inside)) in
    let word : read_unaligned 4 g.bytes g.data_index ≡ 0x9090909 =
      ap (λ bytes. read_unaligned 4 bytes g.data_index) same ∙ (==_iff _ 0x9090909).0 in_table in
    let fits : leb (g.data_index + 4) 64 ≡ true = ground arith in rw (fits, word) refl

get-nines :
    (call : Call) (g : Generator)
    → IsSettled g
    → (g' : Generator) × (get nines call g ≡ some (value_of call, g')) × IsSettled g'
unfolding get
get-nines call g settled =
    let (same, inside) =
      check_data-nines (bytes_needed call) g (needed call).0 (needed call).1 settled in
    let g' = check_data nines (bytes_needed call) g in
    (
      record g' { data_index = g'.data_index + bytes_needed call },
      rw (read_data-nines call g' same inside) refl,
      inr same,
    )
  where
    needed : (c : Call) → (0 < bytes_needed c) × (bytes_needed c ≤ 4)
    needed get_byte = (omega arith, omega arith)
    needed get_uint32 = (omega arith, omega arith)

stream-IsSettled : (g : Generator) → Follows nines stream g → IsSettled g
unfolding blake2_generator
stream-IsSettled _ nothing = inl refl
stream-IsSettled _ (called call g value g' drawn e) =
    let (g1, got, settled) = get-nines call g (stream-IsSettled g drawn) in
    subst (λ (r : ℕ × Generator). IsSettled r.1)
      (some-injective (value_of call, g1) (value, g') (sym got ∙ e)) settled

stream-IsProductive : IsProductive nines 1 stream
unfolding draw_rotation draw_divisor is_zero_or_power_of_2
stream-IsProductive = record {
  rotates = λ g drawn.
      let (g', got, _) = get-nines get_byte g (stream-IsSettled g drawn) in ((9, g'), rw got refl);
  divides = λ g drawn.
      let (g', got, _) = get-nines get_uint32 g (stream-IsSettled g drawn) in
      ((0x9090909, g'), rw got refl);
}

generate_superscalar_example :
    (made : Generated) × (g' : Generator) × (generate_superscalar nines 1 stream ≡ some (made, g'))
    × IsProgram made
generate_superscalar_example =
    generate_superscalar-ends nines (λ xs. refl) 1 (1 ∷ 2 ∷ []) 0 stream-IsProductive stream nothing

init_programs_example :
    (programs : List SuperscalarProgram) × (init_programs nines 1 (1 ∷ 2 ∷ [])
      ≡ some (cache_programs programs []))
    × (length programs ≡ cache_accesses)
    × ((memory : ℕ → ℕ) (item_number : ℕ)
        → (words : ℕ → ℕ) × (init_dataset_item
              (some (cache_programs programs []).1)
              memory
              (cache_programs programs []).0
              item_number
            ≡ some words)
          × (init_dataset_item none memory programs item_number ≡ some words))
init_programs_example = init_programs-Items nines (λ xs. refl) 1 (1 ∷ 2 ∷ []) stream-IsProductive
