-- ===== src/Hash/Aes.antt =====
-- src/algo/randomx/aes_hash.cpp: four lanes of AES rounds that hash the scratchpad, fill it, or do both
-- in one pass. A buffer is a function from addresses to bytes. The passes take sizes that are
-- multiples of 64, as the source asserts; each round of a loop takes 64 bytes.
pub mod OnePass
use nminer.Prelude.{ℕ, zero, suc, ◌+◌, ◌-◌, ◌*◌, ◌/◌, ◌^◌}
use nminer.Vm.Machine.{Fpu}
use nminer.Hash.Vectors.{Lanes, load_vec, store_vec}

-- state0 to state3
pub record State (fp : Fpu) : Type 0 where
  pub s0 : fp.Vec
  pub s1 : fp.Vec
  pub s2 : fp.Vec
  pub s3 : fp.Vec

-- scratchpadEnd -= PREFETCH_DISTANCE
abbrev pub prefetch_distance : ℕ
prefetch_distance = 4096

module _ {fp : Fpu} (lanes : Lanes fp) where
  open fp use {Vec}
  open lanes use {aesenc, aesdec}

  -- rx_set_int_vec_i128, the highest word first.
  abbrev pub set_int : ℕ → ℕ → ℕ → ℕ → Vec
  set_int i3 i2 i1 i0 = fp.set (i3 * 2 ^ 32 + i2) (i1 * 2 ^ 32 + i0)

  -- The four vectors at an address, and written there.
  unfoldable pub load_state : (ℕ → ℕ) → ℕ → State fp
  unfolding load_vec
  load_state mem addr = record {
    s0 = load_vec lanes mem addr;
    s1 = load_vec lanes mem (addr + 16);
    s2 = load_vec lanes mem (addr + 32);
    s3 = load_vec lanes mem (addr + 48);
  }

  unfoldable pub store_state : (ℕ → ℕ) → ℕ → State fp → ℕ → ℕ
  store_state mem addr s =
      store_vec lanes
        (store_vec lanes (store_vec lanes (store_vec lanes mem addr s.s0) (addr + 16) s.s1)
          (addr + 32) s.s2)
        (addr + 48) s.s3

  -- Rounds with the lanes' own keys: enc, dec, enc, dec.
  unfoldable pub absorb : State fp → State fp → State fp
  absorb s keys = record {
    s0 = aesenc s.s0 keys.s0;
    s1 = aesdec s.s1 keys.s1;
    s2 = aesenc s.s2 keys.s2;
    s3 = aesdec s.s3 keys.s3;
  }

  -- And dec, enc, dec, enc.
  unfoldable pub squeeze : State fp → State fp → State fp
  squeeze s keys = record {
    s0 = aesdec s.s0 keys.s0;
    s1 = aesenc s.s1 keys.s1;
    s2 = aesdec s.s2 keys.s2;
    s3 = aesenc s.s3 keys.s3;
  }

  -- AES_HASH_1R_STATE0 to STATE3, and the two extra keys for every lane.
  abbrev pub hash_state : State fp
  hash_state = record {
    s0 = set_int 0xd7983aad 0xcc82db47 0x9fa856de 0x92b52c0d;
    s1 = set_int 0xace78057 0xf59e125a 0x15c7b798 0x338d996e;
    s2 = set_int 0xe8a07ce4 0x5079506b 0xae62c7d0 0x6a770017;
    s3 = set_int 0x7e994948 0x79a10005 0x07ad828d 0x630a240c;
  }

  abbrev pub same_key : Vec → State fp
  same_key key = record { s0 = key; s1 = key; s2 = key; s3 = key }

  abbrev pub xkey0 : Vec
  xkey0 = set_int 0x06890201 0x90dc56bf 0x8b24949f 0xf6fa8389

  abbrev pub xkey1 : Vec
  xkey1 = set_int 0xed18f99b 0xee1043c6 0x51f4e03c 0x61b263d1

  -- AES_GEN_1R_KEY0 to KEY3
  abbrev pub gen_1r_keys : State fp
  gen_1r_keys = record {
    s0 = set_int 0xb4f44917 0xdbb5552b 0x62716609 0x6daca553;
    s1 = set_int 0x0da1dc4e 0x1725d378 0x846a710d 0x6d7caf07;
    s2 = set_int 0x3e20e345 0xf4c0794f 0x9f947ec6 0x3f1262f1;
    s3 = set_int 0x49169154 0x16314c88 0xb1ba317c 0x6aef8135;
  }

  -- AES_GEN_4R_KEY0 to KEY7: the first two lanes take a key of the first four.
  abbrev pub pair_keys : Vec → Vec → State fp
  pair_keys low high = record { s0 = low; s1 = low; s2 = high; s3 = high }

  abbrev pub gen_4r_keys0 : State fp
  gen_4r_keys0 =
      pair_keys (set_int 0x99e5d23f 0x2f546d2b 0xd1833ddb 0x6421aadd)
        (set_int 0x229effb4 0x3d518b6d 0xe3d6a7a6 0xb5826f73)

  abbrev pub gen_4r_keys1 : State fp
  gen_4r_keys1 =
      pair_keys (set_int 0xa5dfcde5 0x06f79d53 0xb6913f55 0xb20e3450)
        (set_int 0xb272b7d2 0xe9024d4e 0x9c10b3d9 0xc7566bf3)

  abbrev pub gen_4r_keys2 : State fp
  gen_4r_keys2 =
      pair_keys (set_int 0x171c02bf 0x0aa4679f 0x515e7baf 0x5c3ed904)
        (set_int 0xf63befa7 0x2ba9660a 0xf765a38b 0xf273c9e7)

  abbrev pub gen_4r_keys3 : State fp
  gen_4r_keys3 =
      pair_keys (set_int 0xd8ded291 0xcd673785 0xe78f5d08 0x85623763)
        (set_int 0xc0b0762d 0x0c06d1fd 0x915839de 0x7a7cd609)

  -- The loop of `hashAes1Rx4`, with `rounds` blocks left.
  unfoldable pub hash_loop : ℕ → (ℕ → ℕ) → ℕ → State fp → State fp
  hash_loop zero mem ptr s = s
  hash_loop (suc rounds) mem ptr s = hash_loop rounds mem (ptr + 64) (absorb s (load_state mem ptr))

  -- Two extra rounds.
  unfoldable pub diffuse : State fp → State fp
  diffuse s = absorb (absorb s (same_key xkey0)) (same_key xkey1)

  unfoldable pub hash_aes1rx4 : (ℕ → ℕ) → ℕ → State fp
  hash_aes1rx4 input size = diffuse (hash_loop (size / 64) input 0 hash_state)

  -- The loop of `fillAes1Rx4`.
  unfoldable pub fill_loop : ℕ → (ℕ → ℕ) → ℕ → State fp → (ℕ → ℕ) × State fp
  fill_loop zero mem ptr s = (mem, s)
  fill_loop (suc rounds) mem ptr s =
      let s' = squeeze s gen_1r_keys in fill_loop rounds (store_state mem ptr s') (ptr + 64) s'

  -- The buffer, and the state that is written back.
  unfoldable pub fill_aes1rx4 : State fp → ℕ → (ℕ → ℕ) → (ℕ → ℕ) × State fp
  fill_aes1rx4 state size buffer = fill_loop (size / 64) buffer 0 state

  unfoldable pub fill4_loop : ℕ → (ℕ → ℕ) → ℕ → State fp → ℕ → ℕ
  fill4_loop zero mem ptr s = mem
  fill4_loop (suc rounds) mem ptr s =
      let s' =
        squeeze (squeeze (squeeze (squeeze s gen_4r_keys0) gen_4r_keys1) gen_4r_keys2)
          gen_4r_keys3 in
      fill4_loop rounds (store_state mem ptr s') (ptr + 64) s'

  -- The state is not written back.
  unfoldable pub fill_aes4rx4 : State fp → ℕ → (ℕ → ℕ) → ℕ → ℕ
  fill_aes4rx4 state size buffer = fill4_loop (size / 64) buffer 0 state

  -- What the one pass keeps: the memory, the hash state and the fill state.
  unfoldable pub both_loop : ℕ → (ℕ → ℕ) → ℕ → State fp → State fp → (ℕ → ℕ) × State fp × State fp
  both_loop zero mem ptr h s = (mem, h, s)
  both_loop (suc rounds) mem ptr h s =
      let h' = absorb h (load_state mem ptr) in
      let s' = squeeze s gen_1r_keys in both_loop rounds (store_state mem ptr s') (ptr + 64) h' s'

  -- `hashAndFillAes1Rx4`: the loop up to the last 4096 bytes, then over those. The scratchpad, the hash
  -- and the fill state after it.
  unfoldable pub hash_and_fill_aes1rx4 : (ℕ → ℕ) → ℕ → State fp → (ℕ → ℕ) × State fp × State fp
  hash_and_fill_aes1rx4 scratchpad size fill_state =
      let rounds = (size - prefetch_distance) / 64 in
      let front = both_loop rounds scratchpad 0 hash_state fill_state in
      let back = both_loop (prefetch_distance / 64) front.0 (64 * rounds) front.1 front.2 in
      (back.0, diffuse back.1, back.2)
