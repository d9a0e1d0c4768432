-- ===== src/Vm/Run/Safety.antt =====
-- A compiled program runs: `compileProgram` and `executeBytecode` taken together.
use nminer.Prelude.{
  ℕ, zero, suc, ◌+◌, List, [], ◌∷◌, Option, none, some, ◌≡◌, refl, get_elem?, inl, inr,
}
use nminer.Word.{IsU64}
use nminer.Vm.Instruction.{Instruction, IsInstruction}
use nminer.Vm.Bytecode.{InstructionByteCode, RegisterUsage}
use nminer.Vm.Bytecode.Compile.Program.{no_usage, compile_from, compile_program}
use nminer.Vm.Bytecode.Compile.Sound.{compile_instruction-IsExecutable}
use nminer.Vm.Bytecode.Executable.{IsExecutable}
use nminer.Vm.Machine.{Fpu, Machine}
use nminer.Vm.Execute.{after}
use nminer.Vm.Execute.Operands.{IsMachine}
use nminer.Vm.Execute.Safety.{execute_instruction-Continues}
use nminer.Vm.Run.{Outcome, finished, running, undefined, execute_bytecode}

-- Every instruction is one that the eight bytes of an entry can hold, over an old entry of words.
abbrev pub IsProgram : List (Instruction × InstructionByteCode) → Type 0
IsProgram [] = Unit
IsProgram ((instr, old) ∷ rest) = IsInstruction instr × IsU64 old.imm × IsProgram rest

abbrev pub AllExecutable : List InstructionByteCode → Type 0
AllExecutable [] = Unit
AllExecutable (ibc ∷ rest) = IsExecutable ibc × AllExecutable rest

abbrev pub EntryIsExecutable : Option InstructionByteCode → Type 0
EntryIsExecutable none = Unit
EntryIsExecutable (some ibc) = IsExecutable ibc

pub get_elem?-IsExecutable :
    (bytecode : List InstructionByteCode) (pc : ℕ)
    → AllExecutable bytecode
    → EntryIsExecutable (get_elem? bytecode pc)
get_elem?-IsExecutable [] pc h = tt
get_elem?-IsExecutable (ibc ∷ rest) zero h = h.0
get_elem?-IsExecutable (ibc ∷ rest) (suc pc) h = get_elem?-IsExecutable rest pc h.1

pub compile_from-AllExecutable :
    (i : ℕ) (usage : RegisterUsage) (program : List (Instruction × InstructionByteCode))
    → IsProgram program
    → (bytecode : List InstructionByteCode) × (compile_from i usage program ≡ some bytecode)
      × AllExecutable bytecode
unfolding compile_from
compile_from-AllExecutable i usage [] h = ([], refl, tt)
compile_from-AllExecutable i usage ((instr, old) ∷ rest) h =
    let (c, ec, fits) = compile_instruction-IsExecutable instr i old usage h.0 h.1 in
    let (bytecode, eb, all) = compile_from-AllExecutable (i + 1) c.usage rest h.2 in
    (c.ibc ∷ bytecode, rw (ec, eb), (fits, all))

module _ (fp : Fpu) where
  -- The loop did not meet undefined behaviour, and the machine is well-formed where it stands.
  abbrev pub IsDefined : Outcome fp → Type 0
  IsDefined (finished m) = IsMachine fp m
  IsDefined (running pc m) = IsMachine fp m
  IsDefined undefined = ⊥

  -- One round of the loop, with what the rounds after it do.
  round :
      (rounds : ℕ) (bytecode : List InstructionByteCode) (pc : ℕ) (m : Machine fp)
      → IsMachine fp m
      → ((pc' : ℕ) (m' : Machine fp)
          → IsMachine fp m'
          → IsDefined (execute_bytecode fp rounds bytecode pc' m'))
      → (found : Option InstructionByteCode) → get_elem? bytecode pc ≡ found
      → EntryIsExecutable found
      → IsDefined (execute_bytecode fp (suc rounds) bytecode pc m)
  unfolding execute_bytecode
  round rounds bytecode pc m good later none e h = rw (e, IsDefined) good
  round rounds bytecode pc m good later (some ibc) e h =
      elim (execute_instruction-Continues fp m ibc (pc + 1) good h) [
        | inl (m', er, g) ↦ rw (e, IsDefined, er) (later (pc + 1) m' g)
        | inr (m', er, g) ↦ rw (e, IsDefined, er) (later (after ibc.target) m' g)
      ]

  execute_bytecode-IsDefined :
      (rounds : ℕ) (bytecode : List InstructionByteCode) (pc : ℕ) (m : Machine fp)
      → AllExecutable bytecode
      → IsMachine fp m
      → IsDefined (execute_bytecode fp rounds bytecode pc m)
  unfolding execute_bytecode
  execute_bytecode-IsDefined zero bytecode pc m all good = good
  execute_bytecode-IsDefined (suc rounds) bytecode pc m all good =
      round rounds bytecode pc m good
        (λ pc' m' g. execute_bytecode-IsDefined rounds bytecode pc' m' all g)
        (get_elem? bytecode pc) refl (get_elem?-IsExecutable bytecode pc all)

  -- A program of any instructions compiles, and from any well-formed machine its bytecode runs without
  -- undefined behaviour for as many rounds of the loop as one looks at, through well-formed machines.
  pub compile_program-IsDefined :
      (rounds : ℕ) (program : List (Instruction × InstructionByteCode)) (m : Machine fp)
      → IsProgram program
      → IsMachine fp m
      → (bytecode : List InstructionByteCode) × (compile_program program ≡ some bytecode)
        × IsDefined (execute_bytecode fp rounds bytecode 0 m)
  unfolding compile_program
  compile_program-IsDefined rounds program m well good =
      let (bytecode, e, all) = compile_from-AllExecutable 0 no_usage program well in
      (bytecode, e, execute_bytecode-IsDefined rounds bytecode 0 m all good)
