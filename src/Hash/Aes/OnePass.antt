-- ===== src/Hash/Aes/OnePass.antt =====
-- The one pass of `hashAndFillAes1Rx4` against a pass that hashes and a pass that fills.
use nminer.Prelude.{ℕ, zero, suc, ◌+◌, ◌-◌, ◌*◌, ◌/◌, ◌≤◌, ◌≡◌, refl, ap, sym, ◌∙◌, arith}
use nminer.Vm.Machine.{Fpu}
use nminer.Hash.Vectors.{Lanes, load_vec-ext, store_vec-above}
use nminer.Hash.Aes.{
  State, prefetch_distance, load_state, store_state, absorb, squeeze, hash_state, diffuse,
  gen_1r_keys, hash_loop, hash_aes1rx4, fill_loop, fill_aes1rx4, both_loop, hash_and_fill_aes1rx4,
}

module _ {fp : Fpu} (lanes : Lanes fp) where
  store_state-above :
      (mem : ℕ → ℕ) (addr : ℕ) (s : State fp) (i : ℕ)
      → addr + 64 ≤ i
      → store_state lanes mem addr s i ≡ mem i
  unfolding store_state
  store_state-above mem addr s i h =
      store_vec-above lanes _ (addr + 48) s.s3 i (omega arith)
      ∙ store_vec-above lanes _ (addr + 32) s.s2 i (omega arith)
      ∙ store_vec-above lanes _ (addr + 16) s.s1 i (omega arith)
      ∙ store_vec-above lanes mem addr s.s0 i (omega arith)

  load_state-ext :
      (mem mem' : ℕ → ℕ) (addr : ℕ)
      → ((i : ℕ) → addr ≤ i → mem i ≡ mem' i)
      → load_state lanes mem addr ≡ load_state lanes mem' addr
  unfolding load_state
  load_state-ext mem mem' addr h =
      rw
        (
          load_vec-ext lanes mem mem' addr h,
          load_vec-ext lanes mem mem' (addr + 16) (λ i p. h i (omega arith)),
          load_vec-ext lanes mem mem' (addr + 32) (λ i p. h i (omega arith)),
          load_vec-ext lanes mem mem' (addr + 48) (λ i p. h i (omega arith)),
        )
        refl

  -- The hash reads only from its pointer on.
  hash_loop-ext :
      (rounds : ℕ) (mem mem' : ℕ → ℕ) (ptr : ℕ) (s : State fp)
      → ((i : ℕ) → ptr ≤ i → mem i ≡ mem' i)
      → hash_loop lanes rounds mem ptr s ≡ hash_loop lanes rounds mem' ptr s
  unfolding hash_loop
  hash_loop-ext zero mem mem' ptr s h = refl
  hash_loop-ext (suc rounds) mem mem' ptr s h =
      ap (λ keys. hash_loop lanes rounds mem (ptr + 64) (absorb lanes s keys))
        (load_state-ext mem mem' ptr h)
      ∙ hash_loop-ext rounds mem mem' (ptr + 64) _ (λ i p. h i (omega arith))

  both_loop_lem :
      (rounds : ℕ) (mem : ℕ → ℕ) (ptr : ℕ) (h s : State fp)
      → both_loop lanes rounds mem ptr h s ≡ (
        (fill_loop lanes rounds mem ptr s).0,
        hash_loop lanes rounds mem ptr h,
        (fill_loop lanes rounds mem ptr s).1,
      )
  unfolding both_loop hash_loop fill_loop
  both_loop_lem zero mem ptr h s = refl
  both_loop_lem (suc rounds) mem ptr h s =
      let s' = squeeze lanes s (gen_1r_keys lanes) in
      let h' = absorb lanes h (load_state lanes mem ptr) in
      let mem' = store_state lanes mem ptr s' in
      both_loop_lem rounds mem' (ptr + 64) h' s'
      ∙ ap
          (λ hashed. (
            (fill_loop lanes rounds mem' (ptr + 64) s').0,
            hashed,
            (fill_loop lanes rounds mem' (ptr + 64) s').1,
          ))
          (hash_loop-ext rounds mem' mem (ptr + 64) h' (λ i p. store_state-above mem ptr s' i p))

  -- Some rounds and then some more.
  both_loop-add :
      (m n : ℕ) (mem : ℕ → ℕ) (ptr : ℕ) (h s : State fp)
      → both_loop lanes (m + n) mem ptr h s
        ≡ (let r = both_loop lanes m mem ptr h s in both_loop lanes n r.0 (ptr + 64 * m) r.1 r.2)
  unfolding both_loop
  both_loop-add zero n mem ptr h s =
      ap (λ (k : ℕ). both_loop lanes k mem ptr h s) {x = zero + n} {y = n} (omega arith)
      ∙ ap (λ (p : ℕ). both_loop lanes n mem p h s) {x = ptr} {y = ptr + 64 * 0} (omega arith)
  both_loop-add (suc m) n mem ptr h s =
      let h' = absorb lanes h (load_state lanes mem ptr) in
      let s' = squeeze lanes s (gen_1r_keys lanes) in
      let mem' = store_state lanes mem ptr s' in
      let r = both_loop lanes m mem' (ptr + 64) h' s' in
      ap (λ (k : ℕ). both_loop lanes k mem ptr h s) {x = suc m + n} {y = suc (m + n)} (omega arith)
      ∙ both_loop-add m n mem' (ptr + 64) h' s'
      ∙ ap (λ (p : ℕ). both_loop lanes n r.0 p r.1 r.2) {x = ptr + 64 + 64 * m}
          {y = ptr + 64 * suc m} (omega arith)

  -- One pass over a buffer of at least 4096 bytes, a multiple of 64, leaves what filling it leaves, with
  -- the state that filling writes back, and gives the hash of what the buffer held before.
  pub hash_and_fill-OnePass :
      (scratchpad : ℕ → ℕ) (blocks : ℕ) (state : State fp)
      → let size = prefetch_distance + 64 * blocks in
        hash_and_fill_aes1rx4 lanes scratchpad size state ≡ (
          (fill_aes1rx4 lanes state size scratchpad).0,
          hash_aes1rx4 lanes scratchpad size,
          (fill_aes1rx4 lanes state size scratchpad).1,
        )
  unfolding hash_and_fill_aes1rx4 fill_aes1rx4 hash_aes1rx4
  hash_and_fill-OnePass scratchpad blocks state =
      let n : ℕ = (prefetch_distance + 64 * blocks - prefetch_distance) / 64 in
      let all : ℕ = (prefetch_distance + 64 * blocks) / 64 in
      let whole : both_loop lanes (n + 64) scratchpad 0 (hash_state lanes) state
          ≡ both_loop lanes all scratchpad 0 (hash_state lanes) state =
        ap (λ (k : ℕ). both_loop lanes k scratchpad 0 (hash_state lanes) state) (omega arith) in
      let both =
        sym (both_loop-add n 64 scratchpad 0 (hash_state lanes) state)
        ∙ whole
        ∙ both_loop_lem all scratchpad 0 (hash_state lanes) state in
      let r = both_loop lanes n scratchpad 0 (hash_state lanes) state in
      let close : State fp → State fp = diffuse lanes in
      ap (λ (p : ℕ). (let b = both_loop lanes 64 r.0 p r.1 r.2 in (b.0, close b.1, b.2)))
        {x = 64 * n} {y = 0 + 64 * n} (omega arith)
      ∙ ap (λ (b : (ℕ → ℕ) × State fp × State fp). (b.0, close b.1, b.2)) both
