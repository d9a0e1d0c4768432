-- ===== src/Hash/Total/Program.antt =====
-- The program of a machine, as `compileProgram` takes it: its length, and the entries that its
-- compilation leaves for the next one.
use nminer.Prelude.{ℕ, zero, suc, ◌+◌, List, [], ◌∷◌, ◌++◌, some, ◌≡◌, refl, ap, take, drop, length}
use nminer.Word.{IsU64}
use nminer.Vm.Instruction.{Instruction, IsInstruction}
use nminer.Vm.Bytecode.{InstructionByteCode, RegisterUsage}
use nminer.Vm.Bytecode.Compile.Program.{no_usage, compile_from, compile_program}
use nminer.Vm.Bytecode.Compile.Immediate.{compile_instruction-imm}
use nminer.Vm.Execute.Operands.{read_bytes-lt}
use nminer.Vm.Run.Safety.{IsProgram}
use nminer.Hash.Machine.{instruction_at}
use nminer.Hash.Run.{program_from}
use nminer.Hash.Total.Buffers.{IsBytes}

-- Every immediate that a compilation can leave in place is a word.
abbrev pub AllWords : List InstructionByteCode → Type 0
AllWords [] = Unit
AllWords (ibc ∷ rest) = IsU64 ibc.imm × AllWords rest

pub AllWords-take :
    (n : ℕ) (bytecode : List InstructionByteCode) → AllWords bytecode → AllWords (take n bytecode)
AllWords-take zero bytecode h = tt
AllWords-take (suc n) [] h = tt
AllWords-take (suc n) (ibc ∷ rest) h = (h.0, AllWords-take n rest h.1)

pub AllWords-drop :
    (n : ℕ) (bytecode : List InstructionByteCode) → AllWords bytecode → AllWords (drop n bytecode)
AllWords-drop zero bytecode h = h
AllWords-drop (suc n) [] h = tt
AllWords-drop (suc n) (ibc ∷ rest) h = AllWords-drop n rest h.1

pub AllWords-++ :
    (front back : List InstructionByteCode)
    → AllWords front
    → AllWords back
    → AllWords (front ++ back)
AllWords-++ [] back h g = g
AllWords-++ (ibc ∷ rest) back h g = (h.0, AllWords-++ rest back h.1 g)

instruction_at-IsInstruction :
    (program : ℕ → ℕ) (i : ℕ) → IsBytes program → IsInstruction (instruction_at program i)
unfolding instruction_at
instruction_at-IsInstruction program i h = record {
  opcode_fits = h _;
  dst_fits = h _;
  src_fits = h _;
  mod_fits = h _;
  imm32_fits = read_bytes-lt 4 program _ h;
}

pub program_from-IsProgram :
    (program : ℕ → ℕ) (pc : ℕ) (bytecode : List InstructionByteCode)
    → IsBytes program
    → AllWords bytecode
    → IsProgram (program_from program pc bytecode)
unfolding program_from
program_from-IsProgram program pc [] h words = tt
program_from-IsProgram program pc (old ∷ rest) h words = (
  instruction_at-IsInstruction program pc h,
  words.0,
  program_from-IsProgram program (pc + 1) rest h words.1,
)

pub length-program_from :
    (program : ℕ → ℕ) (pc : ℕ) (bytecode : List InstructionByteCode)
    → length (program_from program pc bytecode) ≡ length bytecode
unfolding program_from
length-program_from program pc [] = refl
length-program_from program pc (old ∷ rest) = ap suc (length-program_from program (pc + 1) rest)

compile_from-AllWords :
    (i : ℕ) (usage : RegisterUsage) (program : List (Instruction × InstructionByteCode))
    → IsProgram program
    → (bytecode : List InstructionByteCode) × (compile_from i usage program ≡ some bytecode)
      × AllWords bytecode
unfolding compile_from
compile_from-AllWords i usage [] h = ([], refl, tt)
compile_from-AllWords i usage ((instr, old) ∷ rest) h =
    let (c, ec, fits) = compile_instruction-imm instr i old usage h.0 h.1 in
    let (bytecode, eb, all) = compile_from-AllWords (i + 1) c.usage rest h.2 in
    (c.ibc ∷ bytecode, rw (ec, eb), (fits, all))

pub compile_program-AllWords :
    (program : List (Instruction × InstructionByteCode))
    → IsProgram program
    → (bytecode : List InstructionByteCode) × (compile_program program ≡ some bytecode)
      × AllWords bytecode
unfolding compile_program
compile_program-AllWords program h = compile_from-AllWords 0 no_usage program h
