-- ===== src/Vm/Branch.antt =====
-- `CBRANCH`: what `compileInstruction` makes of the immediate, and the sums that its register takes.
use native.Mathlib.Nat.{
  pow-suc, one-le-pow, mod-eq_of_lt, mod-eq-sub-mod, mod-mod_of_dvd, mod-lt, mod-add-mod,
  mul-add-mod_self_left, div-add-mod, mul-add, mul_assoc, mul_comm, mul-one, dvd-mul_right,
  div-div-eq-div-mul, mul-le-mul_left,
}
use native.Mathlib.Decide.{dec_lt}
use mathlib.Core.Path.{ap₂}
use nminer.Prelude.{
  ℕ, zero, suc, ◌+◌, ◌-◌, ◌*◌, ◌/◌, ◌%◌, ◌^◌, ◌≤◌, ◌<◌, Bool, true, ◌&&◌, ◌||◌, bit_and, bit_or,
  min, max, ltb, ◌==◌, ◌≡◌, refl, all_below, all_below_sound, ◌≡⟨◌⟩◌, ◌∎, ap, sym, ◌∙◌, subst,
  arith,
}
use nminer.Word.{add64, shr, not64, sign_extend}
use Prim.Native.Nat.{◌∣◌}
use nminer.Word.Rotate.{pow_two_add}
use nminer.Word.Bits.{bit_and_step, bit_or_step, bit_and-shift, bit_and-ones}
use nminer.Vm.Config.{condition_mask, condition_offset}
use nminer.Vm.Bytecode.Compile.{branch_imm, gen_cbranch}
use nminer.Vm.Instruction.{Instruction, get_mod_cond}
use nminer.Vm.Bytecode.{InstructionByteCode, RegisterUsage}

-- The digit of weight 2 ^ i.
abbrev bit : ℕ → ℕ → ℕ
bit a i = a / 2 ^ i % 2

bit-suc : (a i : ℕ) → bit a (suc i) ≡ bit (a / 2) i
bit-suc a i =
    ap (λ (t : ℕ). t % 2)
      (ap (λ (t : ℕ). a / t) (omega (arith, pow-suc 2 i)) ∙ sym (div-div-eq-div-mul a 2 (2 ^ i)))

bit-bit_and : (i a b : ℕ) → bit (bit_and a b) i ≡ min (bit a i) (bit b i)
bit-bit_and zero a b = omega (arith, bit_and_step a b)
bit-bit_and (suc i) a b =
    bit-suc (bit_and a b) i
    ∙ ap (λ (t : ℕ). bit t i) (omega (arith, bit_and_step a b))
    ∙ bit-bit_and i (a / 2) (b / 2)
    ∙ ap₂ min (sym (bit-suc a i)) (sym (bit-suc b i))

bit-bit_or : (i a b : ℕ) → bit (bit_or a b) i ≡ max (bit a i) (bit b i)
bit-bit_or zero a b = omega (arith, bit_or_step a b)
bit-bit_or (suc i) a b =
    bit-suc (bit_or a b) i
    ∙ ap (λ (t : ℕ). bit t i) (omega (arith, bit_or_step a b))
    ∙ bit-bit_or i (a / 2) (b / 2)
    ∙ ap₂ max (sym (bit-suc a i)) (sym (bit-suc b i))

-- With `h` half the weight of the branch's lowest condition bit: the sums modulo 4 * h.
twice_at_most :
    (h a l b c : ℕ)
    → a < 2 * h
    → l < h
    → b ≡ (a + (2 * h + l)) % (4 * h)
    → b < 2 * h
    → c ≡ (b + (2 * h + l)) % (4 * h)
    → 2 * h ≤ c
twice_at_most h a l b c pa pl eb pb ec = elim (dec_lt (a + (2 * h + l)) (4 * h)) [
  | yes below ↦ absurd (omega (arith, mod-eq_of_lt below))
  | no above ↦
      let wrapped : b ≡ a + (2 * h + l) - 4 * h =
        eb ∙ mod-eq-sub-mod (omega arith) ∙ mod-eq_of_lt (omega arith) in
      omega (arith, mod-eq_of_lt {n = b + (2 * h + l)} {m = 4 * h} (omega arith))
]

remainder : (x m k r : ℕ) → r < m → x ≡ m * k + r → x % m ≡ r
remainder x m k r small e =
    ap (λ (t : ℕ). t % m) e ∙ mul-add-mod_self_left m k r ∙ mod-eq_of_lt small

cut_two : (p q : ℕ) → p * (2 * q) ≡ 2 * p * q
cut_two p q = sym (mul_assoc p 2 q) ∙ ap (λ (t : ℕ). t * q) (mul_comm p 2)

cut_two_one : (p q : ℕ) → p * (2 * q + 1) ≡ 2 * p * q + p
cut_two_one p q = mul-add p (2 * q) 1 ∙ ap₂ (λ (a b : ℕ). a + b) (cut_two p q) (mul-one p)

low_of_clear : (x p : ℕ) → 0 < p → x / p % 2 ≡ 0 → x % (2 * p) ≡ x % p
low_of_clear x p pos clear =
    let e : x / p ≡ 2 * (x / p / 2) = omega arith in
    remainder x (2 * p) (x / p / 2) (x % p) (omega (arith, mod-lt x pos)) (
      sym (div-add-mod x p)
      ∙ ap (λ (t : ℕ). t + x % p) (ap (λ (t : ℕ). p * t) e ∙ cut_two p (x / p / 2)))

low_of_set : (x p : ℕ) → 0 < p → x / p % 2 ≡ 1 → x % (2 * p) ≡ p + x % p
low_of_set x p pos isset =
    let e : x / p ≡ 2 * (x / p / 2) + 1 = omega arith in
    let f : p * (x / p) ≡ 2 * p * (x / p / 2) + p =
      ap (λ (t : ℕ). p * t) e ∙ cut_two_one p (x / p / 2) in
    remainder x (2 * p) (x / p / 2) (p + x % p) (omega (arith, mod-lt x pos))
      (omega (arith, div-add-mod x p, f))

abbrev bits_hold : ℕ → Bool
bits_hold s =
    ltb s 8
    || ((bit (not64 (2 ^ (s - 1))) s == 1)
        && ((bit (not64 (2 ^ (s - 1))) (s - 1) == 0) && (bit (2 ^ s) s == 1)))

bits_table : all_below 24 bits_hold ≡ true
unfolding all_below
bits_table = refl

-- The two bits of the immediate that CBRANCH forces, at every shift that it uses.
mask_bits :
    (s : ℕ)
    → 8 ≤ s
    → s < 24
    → (bit (not64 (2 ^ (s - 1))) s ≡ 1)
      × (bit (not64 (2 ^ (s - 1))) (s - 1) ≡ 0)
      × (bit (2 ^ s) s ≡ 1)
mask_bits s lo hi = ground (arith, all_below_sound 24 bits_hold s bits_table)

-- `add64` modulo a power of two is the sum modulo that power.
add64-mod :
    (s a b : ℕ) → s < 64 → add64 a b % 2 ^ suc s ≡ (a % 2 ^ suc s + b % 2 ^ suc s) % 2 ^ suc s
add64-mod s a b h =
    let m : ℕ = 2 ^ suc s in
    let divides : m ∣ 2 ^ 64 =
      subst (λ (t : ℕ). m ∣ t)
        (sym (pow_two_add (suc s) (63 - s)) ∙ ap (λ (t : ℕ). 2 ^ t) {y = 64} (omega arith))
        (dvd-mul_right m (2 ^ (63 - s))) in
    (a + b) % 2 ^ 64 % m
    ≡⟨ mod-mod_of_dvd m (a + b) divides ⟩ (a + b) % m
    ≡⟨ sym (mod-add-mod a m b) ⟩ (a % m + b) % m
    ≡⟨ ap (λ (t : ℕ). t % m) (omega arith) ⟩ (b + a % m) % m
    ≡⟨ sym (mod-add-mod b m (a % m)) ⟩ (b % m + a % m) % m
    ≡⟨ ap (λ (t : ℕ). t % m) (omega arith) ⟩ (a % m + b % m) % m ∎

-- The branch's condition bits are clear.
abbrev Clear : ℕ → ℕ → Type 0
Clear s x = bit_and x (condition_mask * 2 ^ s) ≡ 0

-- A remainder modulo 256 that vanishes when it is scaled is even.
zero_times_pos : (a p : ℕ) → 0 < p → a % 256 * p ≡ 0 → a % 2 ≡ 0
zero_times_pos a p positive e = elim (dec_lt 0 (a % 256)) [
  | yes some_bit ↦ absurd (omega (arith, mul-le-mul_left p some_bit, mul_comm p (a % 256), e))
  | no none_bit ↦ omega arith
]

Clear-low : (s x : ℕ) → Clear s x → x % 2 ^ suc s < 2 ^ s
Clear-low s x clear =
    let p : ℕ = 2 ^ s in
    let positive : 0 < p = one-le-pow s 2 (omega arith) in
    let none_set : bit_and (x / p) 255 * p ≡ 0 = sym (bit_and-shift s x 255) ∙ clear in
    let low : bit_and (x / p) 255 ≡ (x / p) % 256 = bit_and-ones 8 (x / p) in
    let even : x / p % 2 ≡ 0 =
      zero_times_pos (x / p) p positive (ap (λ (t : ℕ). t * p) (sym low) ∙ none_set) in
    omega (
      arith,
      ap (λ (t : ℕ). x % t) {x = 2 ^ suc s} {y = 2 * p} (omega (arith, pow-suc 2 s)),
      low_of_clear x p positive even,
      mod-lt x positive,
    )

-- The immediate modulo the weight above its shift: the bit at the shift, and less than half below.
branch_imm_low :
    (s imm32 : ℕ)
    → 8 ≤ s
    → s < 24
    → (branch_imm imm32 s % 2 ^ suc s ≡ 2 ^ s + branch_imm imm32 s % 2 ^ s)
      × (branch_imm imm32 s % 2 ^ s < 2 ^ (s - 1))
unfolding branch_imm
branch_imm_low s imm32 lo hi =
    let x : ℕ = branch_imm imm32 s in
    let t : ℕ = s - 1 in
    let e : suc t ≡ s = omega arith in
    let forced = mask_bits s lo hi in
    let inner : ℕ = bit_or (sign_extend imm32) (2 ^ s) in
    let high : bit x s ≡ 1 = omega (
      arith,
      forced,
      bit-bit_and s inner (not64 (2 ^ (s - 1))),
      bit-bit_or s (sign_extend imm32) (2 ^ s),
    ) in
    let next : bit x t ≡ 0 = omega (arith, forced, bit-bit_and t inner (not64 (2 ^ (s - 1)))) in
    let p : ℕ = 2 ^ t in
    let positive : 0 < p = one-le-pow t 2 (omega arith) in
    let double : 2 ^ s ≡ 2 * p = ap (λ (u : ℕ). 2 ^ u) (sym e) ∙ omega (arith, pow-suc 2 t) in
    let double_s : 2 ^ suc s ≡ 2 * 2 ^ s = omega (arith, pow-suc 2 s) in
    (
      ap (λ (u : ℕ). x % u) double_s ∙ low_of_set x (2 ^ s) (one-le-pow s 2 (omega arith)) high,
      omega
          (arith, ap (λ (u : ℕ). x % u) double, low_of_clear x p positive next, mod-lt x positive),
    )

-- Three additions of the immediate do not all leave the condition bits clear.
branch_twice :
    (s imm32 d : ℕ)
    → 8 ≤ s
    → s < 24
    → let imm = branch_imm imm32 s in
      let d' = add64 d imm in
      let d'' = add64 d' imm in Clear s d' → Clear s d'' → ¬ Clear s (add64 d'' imm)
branch_twice s imm32 d lo hi c1 c2 c3 =
    let imm : ℕ = branch_imm imm32 s in
    let d' : ℕ = add64 d imm in
    let d'' : ℕ = add64 d' imm in
    let d''' : ℕ = add64 d'' imm in
    let h : ℕ = 2 ^ (s - 1) in
    let q : ℕ = 2 ^ s in
    let m : ℕ = 2 ^ suc s in
    let double : q ≡ 2 * h =
      ap (λ (u : ℕ). 2 ^ u) {y = suc (s - 1)} (omega arith) ∙ omega (arith, pow-suc 2 (s - 1)) in
    let double_s : m ≡ 4 * h = omega (arith, pow-suc 2 s, double) in
    let shape = branch_imm_low s imm32 lo hi in
    let l : ℕ = imm % q in
    let step : (x : ℕ) → add64 x imm % m ≡ (x % m + (2 * h + l)) % (4 * h) = λ x.
      add64-mod s x imm (omega arith)
      ∙ ap₂ (λ (a b : ℕ). a % b) (omega (arith, shape.0, double)) double_s in
    omega (
      arith,
      twice_at_most h (d' % m) l (d'' % m) (d''' % m) (omega (arith, Clear-low s d' c1))
          (omega (arith, shape.1)) (step d') (omega (arith, Clear-low s d'' c2)) (step d''),
      Clear-low s d''' c3,
    )

-- What a compiled branch adds to its register, and the test that lets it jump on the sum.
abbrev pub bumped : InstructionByteCode → ℕ → ℕ
bumped ibc d = add64 d ibc.imm

abbrev pub Jumps : InstructionByteCode → ℕ → Type 0
Jumps ibc d = bit_and (bumped ibc d) ibc.mem_mask ≡ 0

get_mod_cond-lt : (instr : Instruction) → instr.mod_byte < 256 → get_mod_cond instr < 16
unfolding get_mod_cond shr
get_mod_cond-lt instr h = omega arith

-- What CBRANCH compiles to, for any instruction whose mod is a byte and from any value of its register,
-- does not jump three times in a row when only the branch itself writes the register: if the first and
-- the second run jump, the third does not.
pub gen_cbranch-twice :
    (instr : Instruction) (i : ℕ) (ibc : InstructionByteCode) (usage : RegisterUsage) (d : ℕ)
    → instr.mod_byte < 256
    → let ibc' = (gen_cbranch instr i ibc usage).ibc in
      Jumps ibc' d → Jumps ibc' (bumped ibc' d) → ¬ Jumps ibc' (bumped ibc' (bumped ibc' d))
unfolding gen_cbranch
gen_cbranch-twice instr i ibc usage d h =
    branch_twice (get_mod_cond instr + condition_offset) instr.imm32 d (omega arith)
      (omega (arith, get_mod_cond-lt instr h))
