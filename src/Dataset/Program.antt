-- ===== src/Dataset/Program.antt =====
-- `generateSuperscalar` of src/algo/randomx/superscalar.cpp: the random programs that a dataset item runs, drawn
-- from a `Blake2Generator`. The quotient `ipc`, a statistic in floating point, is left out.
pub mod Tables
pub mod Creation
pub mod Slots
pub mod Safety
pub mod Cache
use nminer.Prelude.{
  ℕ, zero, suc, ◌+◌, ◌-◌, ◌*◌, ◌%◌, List, [], ◌∷◌, Bool, true, false, not, ◌&&◌, ◌||◌, Option, none,
  some, ◌>>=◌, max, ltb, leb, ◌==◌, if◌then◌else◌, length, get_elem?,
}
use nminer.Vm.Config.{superscalar_latency, superscalar_max_size, registers_count}
use nminer.Vm.Machine.{put}
use nminer.Vm.Instruction.{Instruction}
use nminer.Dataset.Superscalar.{SuperscalarInstructionType}
use nminer.Dataset.Cache.{SuperscalarProgram}
use nminer.Dataset.Generator.{Generator, get_byte, get}
use nminer.Dataset.Program.Tables.{
  DecoderBuffer, decode_buffers, decode_buffer_484, decode_buffer_493, decode_buffer_4444,
  decode_buffer_3310,
}
use nminer.Dataset.Program.Creation.{null_instruction, group_value, minus_one}
use nminer.Dataset.Program.Slots.{Locals, fill_buffer}

-- Rounds that are enough for the slots of a buffer: four slots, and 256 instructions thrown away before each.
abbrev pub slot_rounds : ℕ
slot_rounds = 5 * 257

-- Where the local variables start, and the decode cycle that the source keeps apart.
abbrev pub start_state : Generator → Locals
start_state g = record {
  port_busy = λ cycle port. 0;
  registers = λ i. record { latency = 0; last_op_group = none; last_op_par = minus_one };
  current = null_instruction;
  macro_op_index = 0;
  code_size = 0;
  macro_op_count = 0;
  cycle = 0;
  dep_cycle = 0;
  retire_cycle = 0;
  ports_saturated = false;
  program = [];
  mul_count = 0;
  throw_away_count = 0;
  buffer_index = 0;
  generator = g;
}

-- The loop for the ASIC latencies.
unfoldable pub asic_latencies : List Instruction → (ℕ → ℕ) → ℕ → ℕ
asic_latencies [] latencies = latencies
asic_latencies (instr ∷ rest) latencies =
    let lat_dst : ℕ = latencies instr.dst + 1 in
    let lat_src : ℕ = if instr.dst == instr.src then 0 else latencies instr.src + 1 in
    asic_latencies rest (put latencies instr.dst (max lat_dst lat_src))

-- The loop for the address register, with `count` registers left from `i` on: the highest latency and the register.
unfoldable pub highest_latency : (ℕ → ℕ) → ℕ → ℕ → ℕ → ℕ → ℕ × ℕ
highest_latency latencies zero i asic_latency_max address_reg = (asic_latency_max, address_reg)
highest_latency latencies (suc count) i asic_latency_max address_reg =
    highest_latency latencies count (i + 1)
      (if ltb asic_latency_max (latencies i) then latencies i else asic_latency_max)
      (if ltb asic_latency_max (latencies i) then i else address_reg)

-- The program that is generated, and what is recorded of it.
pub record Generated : Type 0 where
  pub program : SuperscalarProgram
  pub asic_latencies_of : ℕ → ℕ
  pub cpu_latencies : ℕ → ℕ
  pub cpu_latency : ℕ
  pub asic_latency : ℕ
  pub code_size : ℕ
  pub macro_ops : ℕ
  pub decode_cycles : ℕ
  pub mul_count : ℕ

unfoldable pub finish_program : Locals → ℕ → Generated
unfolding asic_latencies highest_latency
finish_program s decode_cycle =
    let latencies = asic_latencies s.program (λ i. 0) in
    let highest = highest_latency latencies registers_count 0 0 0 in
    record {
      program = record { instructions = s.program; address_register = highest.1 };
      asic_latencies_of = latencies;
      cpu_latencies = λ i. (s.registers i).latency;
      cpu_latency = s.retire_cycle;
      asic_latency = highest.0;
      code_size = s.code_size;
      macro_ops = s.macro_op_count;
      decode_cycles = decode_cycle;
      mul_count = s.mul_count;
    }

abbrev is_high_product : Option SuperscalarInstructionType → Bool
is_high_product type = group_value type == 11 || group_value type == 12

module _ (blake2b : List ℕ → List ℕ) (tries : ℕ) where
  -- A decode buffer by a byte of the generator.
  unfoldable pub pick_buffer : List DecoderBuffer → Generator → Option (DecoderBuffer × Generator)
  unfolding get
  pick_buffer buffers g = do
    (byte, g') ← get blake2b get_byte g
    buffer ← get_elem? buffers (byte % length buffers)
    some (buffer, g')

  -- fetchNext; of the byte for IMUL_RCP, an odd one gives 4-8-4.
  unfoldable pub fetch_next :
      Option SuperscalarInstructionType → ℕ → ℕ → Generator → Option (DecoderBuffer × Generator)
  unfolding pick_buffer group_value
  fetch_next type cycle mul_count g =
      if is_high_product type
      then some (decode_buffer_3310, g)
      else if ltb mul_count (cycle + 1)
      then some (decode_buffer_4444, g)
      else if group_value type == 13
      then pick_buffer (decode_buffer_493 ∷ decode_buffer_484 ∷ []) g
      else pick_buffer decode_buffers g

  -- A round of the loop over the decode cycles.
  unfoldable pub decode_round : ℕ → Locals → Option Locals
  unfolding fetch_next fill_buffer
  decode_round decode_cycle s = do
    (buffer, g) ← fetch_next s.current.type decode_cycle s.mul_count s.generator
    s' ← fill_buffer blake2b tries slot_rounds buffer (record s { buffer_index = 0; generator = g })
    some (record s' { cycle = s'.cycle + 1 })

  -- The loop, with `rounds` decode cycles left: the state and the decode cycle at its end.
  unfoldable pub decode_cycles : ℕ → ℕ → Locals → Option (Locals × ℕ)
  unfolding decode_round
  decode_cycles zero decode_cycle s = some (s, decode_cycle)
  decode_cycles (suc rounds) decode_cycle s =
      let round : Option (Locals × ℕ) = do
        s' ← decode_round decode_cycle s
        decode_cycles rounds (decode_cycle + 1) s'
      in if not s.ports_saturated && ltb (length s.program) superscalar_max_size
        then round
        else some (s, decode_cycle)

  unfoldable pub generate_superscalar : Generator → Option (Generated × Generator)
  unfolding decode_cycles finish_program
  generate_superscalar g = do
    (s, decode_cycle) ← decode_cycles superscalar_latency 0 (start_state g)
    some (finish_program s decode_cycle, s.generator)
