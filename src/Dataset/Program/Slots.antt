-- ===== src/Dataset/Program/Slots.antt =====
-- The loop of `generateSuperscalar` in src/algo/randomx/superscalar.cpp over the slots of a decode buffer. `none`
-- is undefined behaviour, or a loop whose rounds are used up.
pub mod Instructions
pub mod Rounds
pub mod Placing
use nminer.Prelude.{
  ℕ, zero, suc, ◌+◌, ◌-◌, List, [], ◌∷◌, ◌++◌, Bool, true, false, ◌||◌, Option, none, some, ◌>>=◌,
  ltb, leb, ◌==◌, if◌then◌else◌, length, get_elem?,
}
use nminer.Vm.Config.{superscalar_latency, superscalar_max_size, registers_count}
use nminer.Vm.Machine.{put}
use nminer.Vm.Instruction.{Instruction}
use nminer.Dataset.Superscalar.{SuperscalarInstructionType}
use nminer.Dataset.Generator.{Generator}
use nminer.Dataset.Schedule.{Ports, MacroOp, schedule_mop}
use nminer.Dataset.Program.Tables.{
  is_multiplication, ops_of, result_op, dst_op, src_op, size_of, DecoderBuffer,
}
use nminer.Dataset.Program.Creation.{
  RegisterInfo, SuperscalarInstruction, null_instruction, to_instr, create_for_slot, select_source,
  select_destination,
}

abbrev pub look_forward_cycles : ℕ
look_forward_cycles = 4

abbrev pub max_throwaway_count : ℕ
max_throwaway_count = 256

-- The local variables of generateSuperscalar; `program` is the buffer up to programSize.
pub record Locals : Type 0 where
  pub port_busy : Ports
  pub registers : ℕ → RegisterInfo
  pub current : SuperscalarInstruction
  pub macro_op_index : ℕ
  pub code_size : ℕ
  pub macro_op_count : ℕ
  pub cycle : ℕ
  pub dep_cycle : ℕ
  pub retire_cycle : ℕ
  pub ports_saturated : Bool
  pub program : List Instruction
  pub mul_count : ℕ
  pub throw_away_count : ℕ
  pub buffer_index : ℕ
  pub generator : Generator

-- How a round of the loop ends.
pub data Flow : Type 0 where
  goes_on breaks : Flow

-- The operations of the current instruction, and which need its registers and write its result.
abbrev pub op_at : Option SuperscalarInstructionType → ℕ → Option MacroOp
op_at none k = none
op_at (some type) k = get_elem? (ops_of type) k

abbrev pub is_at : Option ℕ → ℕ → Bool
is_at none k = false
is_at (some op) k = op == k

abbrev pub needs_source : Option SuperscalarInstructionType → ℕ → Bool
needs_source none k = false
needs_source (some type) k = is_at (src_op type) k

abbrev pub needs_destination : Option SuperscalarInstructionType → ℕ → Bool
needs_destination none k = false
needs_destination (some type) k = dst_op type == k

abbrev pub writes_result : Option SuperscalarInstructionType → ℕ → Bool
writes_result none k = false
writes_result (some type) k = result_op type == k

abbrev pub counted : Option SuperscalarInstructionType → ℕ
counted none = 0
counted (some type) = is_multiplication type

abbrev Found : Type 0
Found = Option (SuperscalarInstruction × Generator)

-- Where registers were found: the instruction with them, scheduleCycle and cycle.
abbrev pub Search : Type 0
Search = Found × ℕ × ℕ

-- The loop over the forward cycles: a selection that fails is made again a cycle later.
unfoldable pub look_forward : (ℕ → Option Found) → ℕ → ℕ → ℕ → Option Search
look_forward select zero schedule_cycle cycle = some (none, schedule_cycle, cycle)
look_forward select (suc rounds) schedule_cycle cycle = do
  let later = look_forward select rounds (schedule_cycle + 1) (cycle + 1)
  found ← select schedule_cycle
  elim found [ none ↦ later | some r ↦ some (some r, schedule_cycle, cycle) ]

-- A register is sought only by the operation that needs it.
unfoldable pub seek :
    Bool → (ℕ → Option Found) → SuperscalarInstruction → Generator → ℕ → ℕ → Option Search
unfolding look_forward
seek needed select c g schedule_cycle cycle =
    if needed
    then look_forward select look_forward_cycles schedule_cycle cycle
    else some (some (c, g), schedule_cycle, cycle)

-- No register was found: the instruction is thrown away, or the decode buffer is left.
unfoldable pub throw_away : ℕ → Locals → Flow × Locals
unfolding size_of
throw_away cycle s =
    if ltb s.throw_away_count max_throwaway_count
    then (
      goes_on,
      record s {
        cycle = cycle;
        throw_away_count = s.throw_away_count + 1;
        macro_op_index = size_of s.current.type;
      },
    )
    else (breaks, record s { cycle = cycle; current = null_instruction })

-- When all macro-ops have been issued, the instruction is added to the program, within its buffer.
unfoldable pub add_instruction : Locals → Option Locals
unfolding to_instr is_multiplication
add_instruction s = do
  instr ← to_instr s.current
  some (record s {
    program = s.program ++ (instr ∷ []);
    mul_count = s.mul_count + counted s.current.type;
  })

unfoldable pub finish_instruction : Locals → Option Locals
unfolding size_of add_instruction
finish_instruction s =
    if leb (size_of s.current.type) s.macro_op_index
    then (if ltb (length s.program) superscalar_max_size then add_instruction s else none)
    else some s

-- The new information of the result's register, which must be one of the eight.
abbrev pub retired : ℕ → SuperscalarInstruction → RegisterInfo
retired retire_cycle c = record {
  latency = retire_cycle;
  last_op_group = c.op_group;
  last_op_par = c.op_group_par;
}

unfoldable pub write_register : ℕ → Option ℕ → Locals → Option Locals
write_register retire_cycle none s = none
write_register retire_cycle (some dst) s =
    if ltb dst registers_count
    then some (record s {
      retire_cycle = retire_cycle;
      registers = put s.registers dst (retired retire_cycle s.current);
    })
    else none

unfoldable pub write_result : ℕ → Locals → Option Locals
unfolding result_op write_register
write_result retire_cycle s =
    if writes_result s.current.type s.macro_op_index
    then write_register retire_cycle s.current.dst s
    else some s

-- The end of a round, from when the macro-op is scheduled at its cycle; `top_cycle` is the round's first.
unfoldable pub issue : MacroOp → ℕ → ℕ → Ports → Locals → Option Locals
unfolding write_result finish_instruction
issue mop top_cycle schedule_cycle port_busy s = do
  s' ← write_result (schedule_cycle + mop.latency) s
  finish_instruction (record s' {
    port_busy = port_busy;
    dep_cycle = schedule_cycle + mop.latency;
    code_size = s'.code_size + mop.size;
    buffer_index = s'.buffer_index + 1;
    macro_op_index = s'.macro_op_index + 1;
    macro_op_count = s'.macro_op_count + 1;
    ports_saturated = s'.ports_saturated || leb superscalar_latency schedule_cycle;
    cycle = top_cycle;
  })

unfoldable pub schedule_and_issue : MacroOp → ℕ → ℕ → Locals → Option (Flow × Locals)
unfolding schedule_mop issue
schedule_and_issue mop top_cycle schedule_cycle s =
    elim (schedule_mop true mop s.port_busy schedule_cycle schedule_cycle) [
      | none ↦ some (breaks, record s { ports_saturated = true })
      | some (at, port_busy) ↦ do s' ← issue mop top_cycle at port_busy s; some (goes_on, s')
    ]

module _ (blake2b : List ℕ → List ℕ) (tries : ℕ) where
  -- The destination, and then the schedule; `cycle` is the round's so far.
  unfoldable pub place_destination : MacroOp → ℕ → ℕ → Locals → Option (Flow × Locals)
  unfolding seek select_destination throw_away schedule_and_issue dst_op
  place_destination mop top_cycle schedule_cycle s = do
    (found, at, cycle) ←
        seek (needs_destination s.current.type s.macro_op_index)
          (λ t.
            select_destination blake2b t (ltb 0 s.throw_away_count) s.registers s.current
              s.generator)
          s.current s.generator schedule_cycle s.cycle
    elim found [
      | none ↦ some (throw_away cycle s)
      | some (c, g) ↦
          schedule_and_issue mop top_cycle at
            (record s { current = c; generator = g; cycle = cycle; throw_away_count = 0 })
    ]

  -- The source, and then the destination.
  unfoldable pub place : MacroOp → ℕ → Locals → Option (Flow × Locals)
  unfolding seek select_source throw_away place_destination src_op
  place mop schedule_cycle s = do
    (found, at, cycle) ←
        seek (needs_source s.current.type s.macro_op_index)
          (λ t. select_source blake2b t s.registers s.current s.generator) s.current s.generator
          schedule_cycle s.cycle
    elim found [
      | none ↦ some (throw_away cycle s)
      | some (c, g) ↦
          place_destination mop s.cycle at (record s { current = c; generator = g; cycle = cycle })
    ]

  -- A new instruction when the last is issued; `none` of the result is the `break`.
  unfoldable pub next_instruction : DecoderBuffer → Locals → Option (Option Locals)
  unfolding create_for_slot size_of
  next_instruction buffer s =
      let created : Option (Option Locals) = do
        slot_size ← get_elem? buffer.counts s.buffer_index
        (c, g) ←
            create_for_slot blake2b tries slot_size buffer.index
              (length buffer.counts == s.buffer_index + 1) s.current s.generator
        some (some (record s { current = c; generator = g; macro_op_index = 0 }))
      in if leb (size_of s.current.type) s.macro_op_index
        then (if s.ports_saturated || leb superscalar_max_size (length s.program)
            then some none
            else created)
        else some (some s)

  -- A round of the loop from the macro-op on.
  unfoldable pub place_op : Locals → Option (Flow × Locals)
  unfolding schedule_mop place ops_of
  place_op s = do
    mop ← op_at s.current.type s.macro_op_index
    elim (schedule_mop false mop s.port_busy s.cycle s.dep_cycle) [
      | none ↦ some (breaks, record s { ports_saturated = true })
      | some (schedule_cycle, _) ↦ place mop schedule_cycle s
    ]

  unfoldable pub one_slot : DecoderBuffer → Locals → Option (Flow × Locals)
  unfolding next_instruction place_op
  one_slot buffer s = do
    begun ← next_instruction buffer s
    elim begun [ none ↦ some (breaks, s) | some s' ↦ place_op s' ]

  -- The loop, in at most so many rounds.
  unfoldable pub fill_buffer : ℕ → DecoderBuffer → Locals → Option Locals
  unfolding one_slot
  fill_buffer zero buffer s = none
  fill_buffer (suc rounds) buffer s =
      let round : Option Locals = do
        (flow, s') ← one_slot buffer s
        let rest = fill_buffer rounds buffer s'
        elim flow [ goes_on ↦ rest | breaks ↦ some s' ]
      in if ltb s.buffer_index (length buffer.counts) then round else some s
