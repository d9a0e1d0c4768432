-- ===== src/Dataset/Program/Slots/Rounds.antt =====
-- A round of the loop over the slots: what it keeps, and how far it gets.
use nminer.Prelude.{
  ℕ, ◌+◌, ◌≤◌, ◌<◌, List, [], ◌∷◌, ◌++◌, true, ◌||◌, Option, none, some, ◌>>=◌, ◌≡◌, ◌⊎◌, inl, inr,
  refl, ap, ◌∙◌, ltb, leb, leb→le, ltb→lt, lt→ltb, ◌==◌, ==_iff, length, length-append, Bool-cases,
  if-both, subst, arith,
}
use nminer.Vm.Config.{superscalar_max_size, superscalar_latency}
use nminer.Vm.Machine.{put}
use nminer.Dataset.Superscalar.{SuperscalarInstructionType}
use nminer.Dataset.Generator.{Generator}
use nminer.Dataset.Schedule.{Ports, MacroOp, schedule_mop}
use nminer.Dataset.Program.Tables.{ops_of, dst_op, result_op, size_of}
use nminer.Dataset.Program.Creation.{SuperscalarInstruction, null_instruction, RegisterInfo}
use nminer.Dataset.Program.Creation.Valid.{Source, InFlight, IsApart}
use nminer.Dataset.Program.Creation.Registers.{IsPlaced}
use nminer.Dataset.Program.Slots.{
  Locals, Flow, counted, goes_on, breaks, throw_away, add_instruction, finish_instruction,
  write_register, write_result, retired, writes_result, issue, schedule_and_issue,
  max_throwaway_count,
}
use nminer.Dataset.Program.Slots.Instructions.{
  AllSuperscalar, AllSuperscalar-append, dst_op-le-result_op, to_instr-IsSuperscalar,
}

-- An operation that has its registers, before and after it is counted.
dst_done :
    (type : SuperscalarInstructionType) (k : ℕ) (c : SuperscalarInstruction)
    → IsPlaced type k c
    → dst_op type ≤ k
    → (d : ℕ) × (c.dst ≡ some d) × (d < 8) × IsApart type d c.src
dst_done type k c placed h = elim (Bool-cases (dst_op type == k)) [
  | inl now ↦ placed.has_dst ((==_iff (dst_op type) k).0 now)
  | inr before ↦ placed.with_src.flight.placed (ground arith)
]

placed-InFlight :
    (type : SuperscalarInstructionType) (k : ℕ) (c : SuperscalarInstruction)
    → IsPlaced type k c
    → InFlight type c (k + 1)
placed-InFlight type k c placed = record {
  created = placed.with_src.flight.created;
  sourced = λ op e h. elim (Bool-cases (op == k)) [
    | inl now ↦ placed.with_src.has_src (e ∙ ap some ((==_iff op k).0 now))
    | inr before ↦ placed.with_src.flight.sourced op e (ground arith)
  ];
  placed = λ h. dst_done type k c placed (omega (arith, h));
}

write_result-some :
    (type : SuperscalarInstructionType) (retire_cycle : ℕ) (s : Locals)
    → IsPlaced type s.macro_op_index s.current
    → (registers : ℕ → RegisterInfo) × (retired : ℕ) × (write_result retire_cycle s
        ≡ some (record s { registers = registers; retire_cycle = retired }))
unfolding write_result
write_result-some type retire_cycle s placed =
    elim (Bool-cases (writes_result s.current.type s.macro_op_index)) [
      | inl writes ↦
          let is_type = placed.with_src.flight.created.is_type in
          let is_op : result_op type ≡ s.macro_op_index =
            (==_iff (result_op type) s.macro_op_index).0 (
              subst
                (λ (t : Option SuperscalarInstructionType). writes_result t s.macro_op_index ≡ true)
                is_type writes) in
          let (d, is_dst, below, _) =
            dst_done type s.macro_op_index s.current placed
              (omega (arith, is_op, dst_op-le-result_op type)) in
          (
            put s.registers d (retired retire_cycle s.current),
            retire_cycle,
            rw writes
                (ap (λ o. write_register retire_cycle o s) is_dst ∙ rw (lt→ltb d 8 below) refl),
          )
      | inr passes ↦ (s.registers, s.retire_cycle, rw passes refl)
    ]

module _ (blake2b : List ℕ → List ℕ) (tries : ℕ) (Ok : Generator → Type 0)
    (source : Source blake2b tries Ok) where
  -- Between two rounds: the current instruction is issued or given up, or it is in flight and there is room for it.
  pub record IsGood (s : Locals) : Type 0 where
    pub gen : Ok s.generator
    pub program : AllSuperscalar s.program
    pub room : length s.program ≤ superscalar_max_size
    pub current :
        (size_of s.current.type ≤ s.macro_op_index)
        ⊎ ((type : SuperscalarInstructionType) × InFlight type s.current s.macro_op_index
            × (length s.program < superscalar_max_size))

  -- In a round, with an operation of an instruction to issue.
  pub record IsReady (type : SuperscalarInstructionType) (s : Locals) : Type 0 where
    pub gen : Ok s.generator
    pub program : AllSuperscalar s.program
    pub open_end : length s.program < superscalar_max_size
    pub flight : InFlight type s.current s.macro_op_index

  ready-IsGood : (type : SuperscalarInstructionType) (s : Locals) → IsReady type s → IsGood s
  ready-IsGood type s ready = record {
    gen = ready.gen;
    program = ready.program;
    room = omega (arith, ready.open_end);
    current = inr (type, ready.flight, ready.open_end);
  }

  -- A round that goes on has filled the slot, or has thrown one more instruction away.
  abbrev pub Moves : Locals → Flow → Locals → Type 0
  Moves s breaks s' = Unit
  Moves s goes_on s' =
      (s'.buffer_index ≡ s.buffer_index + 1)
      ⊎ ((s'.buffer_index ≡ s.buffer_index)
          × (s'.throw_away_count ≡ s.throw_away_count + 1)
          × (s.throw_away_count < max_throwaway_count))

  abbrev pub Rounds : Locals → Option (Flow × Locals) → Type 0
  Rounds s r = (flow : Flow) × (s' : Locals) × (r ≡ some (flow, s')) × IsGood s' × Moves s flow s'

  pub throw_away-Rounds :
      (type : SuperscalarInstructionType) (cycle : ℕ) (s0 s : Locals)
      → IsReady type s
      → s.buffer_index ≡ s0.buffer_index
      → s.throw_away_count ≡ s0.throw_away_count
      → Rounds s0 (some (throw_away cycle s))
  unfolding throw_away size_of
  throw_away-Rounds type cycle s0 s ready index thrown =
      let given_up : (c : SuperscalarInstruction) (k count : ℕ)
          → size_of c.type ≤ k
          → IsGood (record s {
            cycle = cycle;
            current = c;
            macro_op_index = k;
            throw_away_count = count;
          }) =
        λ c k count issued. record {
          gen = ready.gen;
          program = ready.program;
          room = omega (arith, ready.open_end);
          current = inl issued;
        } in
      if-both (ltb s.throw_away_count max_throwaway_count) _ _
        (λ (r : Flow × Locals). Rounds s0 (some r))
        (λ more.
          let few = ltb→lt s.throw_away_count max_throwaway_count more in
          (
            goes_on,
            _,
            refl,
            given_up s.current (size_of s.current.type) (s.throw_away_count + 1) (omega arith),
            inr (index, omega (arith, thrown), omega (arith, thrown, few)),
          ))
        (λ _. (
          breaks,
          _,
          refl,
          given_up null_instruction s.macro_op_index s.throw_away_count (omega arith),
          tt,
        ))

  -- Where an operation with its registers is issued.
  pub record IsIssuable (type : SuperscalarInstructionType) (s : Locals) : Type 0 where
    pub gen : Ok s.generator
    pub program : AllSuperscalar s.program
    pub open_end : length s.program < superscalar_max_size
    pub placed : IsPlaced type s.macro_op_index s.current

  finish_instruction-IsGood :
      (type : SuperscalarInstructionType) (s : Locals)
      → IsReady type s
      → (s' : Locals) × (finish_instruction s ≡ some s')
        × IsGood s'
        × (s'.buffer_index ≡ s.buffer_index)
  unfolding finish_instruction size_of add_instruction
  finish_instruction-IsGood type s ready =
      let is_size : size_of s.current.type ≡ length (ops_of type) =
        ap size_of ready.flight.created.is_type in
      elim (Bool-cases (leb (size_of s.current.type) s.macro_op_index)) [
        | inl issued ↦
            let all_issued = leb→le (size_of s.current.type) s.macro_op_index issued in
            let (instr, made, runs) =
              to_instr-IsSuperscalar type s.current s.macro_op_index ready.flight
                (omega (arith, is_size, all_issued)) in
            let added : Locals = record s {
              program = s.program ++ (instr ∷ []);
              mul_count = s.mul_count + counted s.current.type;
            } in
            (
              added,
              rw (issued, lt→ltb (length s.program) superscalar_max_size ready.open_end, made) refl,
              record {
                gen = ready.gen;
                program = AllSuperscalar-append s.program instr ready.program runs;
                room = omega (arith, ready.open_end, length-append s.program (instr ∷ []));
                current = inl all_issued;
              },
              refl,
            )
        | inr more ↦ (s, rw more refl, ready-IsGood type s ready, refl)
      ]

  issue-IsGood :
      (type : SuperscalarInstructionType) (mop : MacroOp) (top_cycle at : ℕ) (port_busy : Ports)
      (s : Locals)
      → IsIssuable type s
      → (s' : Locals) × (issue mop top_cycle at port_busy s ≡ some s')
        × IsGood s'
        × (s'.buffer_index ≡ s.buffer_index + 1)
  unfolding issue
  issue-IsGood type mop top_cycle at port_busy s is_set =
      let (registers, retire_cycle, wrote) =
        write_result-some type (at + mop.latency) s is_set.placed in
      let s2 : Locals = record s {
        registers = registers;
        retire_cycle = retire_cycle;
        port_busy = port_busy;
        dep_cycle = at + mop.latency;
        code_size = s.code_size + mop.size;
        buffer_index = s.buffer_index + 1;
        macro_op_index = s.macro_op_index + 1;
        macro_op_count = s.macro_op_count + 1;
        ports_saturated = s.ports_saturated || leb superscalar_latency at;
        cycle = top_cycle;
      } in
      let (s', finished, good, index) = finish_instruction-IsGood type s2 (record {
        gen = is_set.gen;
        program = is_set.program;
        open_end = is_set.open_end;
        flight = placed-InFlight type s.macro_op_index s.current is_set.placed;
      }) in
      (s', rw wrote finished, good, index)

  pub saturated-Rounds :
      (type : SuperscalarInstructionType) (s0 s : Locals)
      → IsReady type s
      → Rounds s0 (some (breaks, record s { ports_saturated = true }))
  saturated-Rounds type s0 s ready = (
    breaks,
    record s { ports_saturated = true },
    refl,
    record {
      gen = ready.gen;
      program = ready.program;
      room = omega (arith, ready.open_end);
      current = inr (type, ready.flight, ready.open_end);
    },
    tt,
  )

  pub schedule_and_issue-Rounds :
      (type : SuperscalarInstructionType) (mop : MacroOp) (top_cycle at : ℕ) (s0 s : Locals)
      → IsIssuable type s
      → s.buffer_index ≡ s0.buffer_index
      → Rounds s0 (schedule_and_issue mop top_cycle at s)
  unfolding schedule_and_issue
  schedule_and_issue-Rounds type mop top_cycle at s0 s is_set index =
      elim (schedule_mop true mop s.port_busy at at)
        as (λ r. Rounds s0 (elim r [
          | none ↦ some (breaks, record s { ports_saturated = true })
          | some (at', port_busy) ↦ do s' ← issue mop top_cycle at' port_busy s; some (goes_on, s')
        ])) [
          | none ↦ saturated-Rounds type s0 s (record {
            gen = is_set.gen;
            program = is_set.program;
            open_end = is_set.open_end;
            flight = is_set.placed.with_src.flight;
          })
          | some (at', port_busy) ↦
              let (s', issued, good, next) =
                issue-IsGood type mop top_cycle at' port_busy s is_set in
              (goes_on, s', rw issued refl, good, inl (omega (arith, next, index)))
        ]
