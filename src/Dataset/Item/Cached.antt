-- ===== src/Dataset/Item/Cached.antt =====
-- The items of the dataset as `initDataset` computes them after `initCache`, over cached reciprocals.
use nminer.Prelude.{
  ℕ, ◌+◌, ◌^◌, ◌≤◌, List, [], ◌∷◌, ◌++◌, none, some, ◌>>=◌, ◌≡◌, refl, ap, sym, ◌∙◌, fun_ext, subst,
  length, arith, length-append,
}
use mathlib.Core.List.{append-nil, append_assoc}
use nminer.Dataset.Superscalar.{register, execute_superscalar}
use nminer.Dataset.Cache.{SuperscalarProgram, cache_instructions, cache_programs}
use nminer.Dataset.Cache.Equivalence.{
  reciprocals_of, cache_instructions-appends, execute-cache_instructions,
}
use nminer.Dataset.Item.{get_mix_block, mix_registers, item_rounds, init_dataset_item}

all_reciprocals : List SuperscalarProgram → List ℕ
all_reciprocals [] = []
all_reciprocals (program ∷ rest) = reciprocals_of program.instructions ++ all_reciprocals rest

cache_programs-appends :
    (programs : List SuperscalarProgram) (cached : List ℕ)
    → (cache_programs programs cached).1 ≡ cached ++ all_reciprocals programs
unfolding cache_programs all_reciprocals
cache_programs-appends [] cached = sym (append-nil cached)
cache_programs-appends (program ∷ rest) cached =
    let after : List ℕ = (cache_instructions program.instructions cached).1 in
    cache_programs-appends rest after
    ∙ ap (λ l. l ++ all_reciprocals rest) (cache_instructions-appends program.instructions cached)
    ∙ append_assoc cached (reciprocals_of program.instructions) (all_reciprocals rest)

item_rounds-cached :
    (memory : ℕ → ℕ) (programs : List SuperscalarProgram) (cached all : List ℕ) (value : ℕ)
    (r : ℕ → ℕ)
    → all ≡ cached ++ all_reciprocals programs
    → length cached + length (all_reciprocals programs) ≤ 2 ^ 32
    → item_rounds (some all) memory (cache_programs programs cached).0 value r
      ≡ item_rounds none memory programs value r
unfolding item_rounds cache_programs all_reciprocals
item_rounds-cached memory [] cached all value r e h = refl
item_rounds-cached memory (program ∷ rest) cached all value r e h =
    let own = reciprocals_of program.instructions in
    let after : List ℕ = (cache_instructions program.instructions cached).1 in
    let grown : after ≡ cached ++ own = cache_instructions-appends program.instructions cached in
    let e' : all ≡ after ++ all_reciprocals rest =
      e
      ∙ sym (append_assoc cached own (all_reciprocals rest))
      ∙ ap (λ l. l ++ all_reciprocals rest) (sym grown) in
    let sizes = length-append own (all_reciprocals rest) in
    let size : length after ≡ length cached + length own =
      ap length grown ∙ length-append cached own in
    let one_round =
      execute-cache_instructions program.instructions cached (all_reciprocals rest) all r e
        (omega (arith, h, sizes)) in
    let later : (value' : ℕ) (r' : ℕ → ℕ)
        → item_rounds (some all) memory (cache_programs rest after).0 value' r'
          ≡ item_rounds none memory rest value' r' =
      λ value' r'.
        item_rounds-cached memory rest after all value' r' e' (omega (arith, h, sizes, size)) in
    rw one_round (
      ap (λ runs. execute_superscalar none program.instructions r >>= runs)
        (fun_ext (λ r'.
          ap (λ runs. mix_registers 8 memory (get_mix_block value) 0 r' >>= runs)
            (fun_ext (λ r''.
              ap (λ runs. register r'' program.address_register >>= runs)
                (fun_ext (λ value'. later value' r'')))))))

-- An item computed from the programs and the reciprocals that `initCache` leaves is the item of the
-- generated programs, each reciprocal computed anew, as long as the reciprocals have 32-bit indices.
pub init_dataset_item-cached :
    (memory : ℕ → ℕ) (programs : List SuperscalarProgram) (item_number : ℕ)
    → length (cache_programs programs []).1 ≤ 2 ^ 32
    → init_dataset_item
        (some (cache_programs programs []).1)
        memory
        (cache_programs programs []).0
        item_number
      ≡ init_dataset_item none memory programs item_number
unfolding init_dataset_item
init_dataset_item-cached memory programs item_number h =
    let appended = cache_programs-appends programs [] in
    let small : length (all_reciprocals programs) ≤ 2 ^ 32 =
      subst (λ (l : List ℕ). length l ≤ 2 ^ 32) appended h in
    item_rounds-cached memory programs [] (cache_programs programs []).1 item_number _ appended
      (omega (arith, small))
