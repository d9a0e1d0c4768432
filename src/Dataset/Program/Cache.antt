-- ===== src/Dataset/Program/Cache.antt =====
-- The loop of `initCache` in src/algo/randomx/dataset.cpp over the programs of a cache, and the states that its
-- generator comes to.
pub mod Items
use nminer.Prelude.{
  ℕ, ◌≤◌, ◌<◌, zero, suc, List, [], ◌∷◌, Option, none, some, ◌>>=◌, ◌≡◌, sym, ◌∙◌, refl, subst,
  length, arith,
}
use mathlib.Core.Option.{some-injective}
use nminer.Vm.Config.{cache_accesses, superscalar_max_size, registers_count}
use nminer.Dataset.Cache.{SuperscalarProgram, cache_programs}
use nminer.Dataset.Generator.{Generator, Call, data_size, blake2_generator, get}
use nminer.Dataset.Generator.Safety.{IsWhole, blake2_generator-IsWhole, get-some}
use nminer.Dataset.Program.Creation.{draw_rotation, draw_divisor}
use nminer.Dataset.Program.Creation.Valid.{Source}
use nminer.Dataset.Program.Slots.Instructions.{AllSuperscalar}
use nminer.Dataset.Program.{Generated, generate_superscalar}
use nminer.Dataset.Program.Safety.{IsProgram, generate_superscalar-IsProgram}

module _ (blake2b : List ℕ → List ℕ) (tries : ℕ) where
  unfoldable pub generate_programs : ℕ → Generator → Option (List SuperscalarProgram × Generator)
  unfolding generate_superscalar
  generate_programs zero g = some ([], g)
  generate_programs (suc count) g = do
    (made, g') ← generate_superscalar blake2b tries g
    (rest, g'') ← generate_programs count g'
    some (made.program ∷ rest, g'')

  -- The programs and the cached reciprocals, from the key. The source rewrites each program when it is generated.
  unfoldable pub init_programs : List ℕ → Option (List SuperscalarProgram × List ℕ)
  unfolding generate_programs cache_programs blake2_generator
  init_programs key = do
    (programs, _) ← generate_programs cache_accesses (blake2_generator key 0)
    some (cache_programs programs [])

-- The states of a generator that calls lead to.
pub data Follows (blake2b : List ℕ → List ℕ) (start : Generator) : Generator → Type 0 where
  nothing : Follows blake2b start start
  called :
      (call : Call) (g : Generator) (value : ℕ) (g' : Generator)
      → Follows blake2b start g
      → get blake2b call g ≡ some (value, g')
      → Follows blake2b start g'

-- From whatever state of the stream, the two loops that draw again have a value that they accept within `tries` draws.
pub record IsProductive (blake2b : List ℕ → List ℕ) (tries : ℕ) (start : Generator) : Type 0 where
  pub rotates :
      (g : Generator)
      → Follows blake2b start g
      → (r : ℕ × Generator) × (draw_rotation blake2b tries g ≡ some r)
  pub divides :
      (g : Generator)
      → Follows blake2b start g
      → (r : ℕ × Generator) × (draw_divisor blake2b tries g ≡ some r)

-- A program that initDatasetItem runs.
pub record IsRunnable (program : SuperscalarProgram) : Type 0 where
  pub all : AllSuperscalar program.instructions
  pub size : length program.instructions ≤ superscalar_max_size
  pub address : program.address_register < registers_count

abbrev pub AllPrograms : List SuperscalarProgram → Type 0
AllPrograms [] = Unit
AllPrograms (program ∷ rest) = IsRunnable program × AllPrograms rest

module _ (blake2b : List ℕ → List ℕ) (digest : (xs : List ℕ) → length (blake2b xs) ≡ data_size)
    (tries : ℕ) (seed : List ℕ) (nonce : ℕ)
    (productive : IsProductive blake2b tries (blake2_generator seed nonce)) where
  drawn-IsWhole : (g : Generator) → Follows blake2b (blake2_generator seed nonce) g → IsWhole g
  drawn-IsWhole _ nothing = blake2_generator-IsWhole seed nonce
  drawn-IsWhole _ (called call g value g' drawn e) =
      let (value1, g1, got, whole) = get-some blake2b digest call g (drawn-IsWhole g drawn) in
      let same = some-injective (value1, g1) (value, g') (sym got ∙ e) in
      subst (λ (r : ℕ × Generator). IsWhole r.1) same whole

  drawn-Source : Source blake2b tries (Follows blake2b (blake2_generator seed nonce))
  drawn-Source = record {
    answers = λ call g drawn.
        let (value, g', got, _) = get-some blake2b digest call g (drawn-IsWhole g drawn) in
        (value, g', got, called call g value g' drawn got);
    rotates = productive.rotates;
    divides = productive.divides;
  }

  -- Over a BLAKE2b of 64 bytes and a stream of which the loops that draw again accept a value in time,
  -- generateSuperscalar ends, and in every state of the stream: its program has at most as many instructions as the
  -- buffer, each runs on eight registers and has operands as its type allows, and no register has a higher latency
  -- than the address register.
  pub generate_superscalar-ends :
      (g : Generator)
      → Follows blake2b (blake2_generator seed nonce) g
      → (made : Generated) × (g' : Generator) × (generate_superscalar blake2b tries g
          ≡ some (made, g'))
        × IsProgram made
  generate_superscalar-ends g drawn =
      let (made, g', generated, is_program, _) =
        generate_superscalar-IsProgram blake2b tries (Follows blake2b (blake2_generator seed nonce))
          drawn-Source g drawn in
      (made, g', generated, is_program)

  pub generate_programs-some :
      (count : ℕ) (g : Generator)
      → Follows blake2b (blake2_generator seed nonce) g
      → (programs : List SuperscalarProgram) × (g' : Generator) × (generate_programs blake2b tries
            count g
          ≡ some (programs, g'))
        × (length programs ≡ count)
        × AllPrograms programs
  unfolding generate_programs
  generate_programs-some zero g drawn = ([], g, refl, refl, tt)
  generate_programs-some (suc count) g drawn =
      let (made, g1, generated, is_program, drawn1) =
        generate_superscalar-IsProgram blake2b tries (Follows blake2b (blake2_generator seed nonce))
          drawn-Source g drawn in
      let (rest, g2, others, count_is, all) = generate_programs-some count g1 drawn1 in
      (
        made.program ∷ rest,
        g2,
        rw (generated, others) refl,
        omega (arith, count_is),
        (
          record { all = is_program.all; size = is_program.size; address = is_program.address },
          all,
        ),
      )
