-- ===== src/Stream/Mix.antt =====
-- What the two wolf loops, of internal/astrobwt/pow.go and internal/astrobwt/wolftable.go, share
-- line for line: the mixing state, the prologue, the choice of the window, the threshold hashes.
use dirtybird_go_gpu_miner.Prelude.{
  ℕ, ◌+◌, ◌-◌, ◌*◌, ◌/◌, ◌%◌, ◌^◌, List, Outcome, returned, or_panic, ◌>>=◌, ltb, if◌then◌else◌,
  bit_and, bit_or, bit_xor, byte_at, set, take, replicate,
}
use dirtybird_go_gpu_miner.Word.{add8, sub8, add64, u32, reverse8}
use dirtybird_go_gpu_miner.Rc4.{Cipher, new_cipher, xor_key_stream}
use dirtybird_go_gpu_miner.Primitives.{Primitives}

-- The variables that the rounds mix: `step_3`, `rc4s`, `lhash`, `prev_lhash`.
pub record Mix : Type 0 where
  pub step_3 : List ℕ  -- [256]byte
  pub rc4s : Cipher
  pub lhash : ℕ  -- uint64
  pub prev_lhash : ℕ  -- uint64

-- `pos1` and `pos2` of a switcher: two of its bytes in order, at most 32 apart.
pub record Window : Type 0 where
  pub pos1 : ℕ
  pub pos2 : ℕ

unfoldable pub ordered : ℕ → ℕ → Window
ordered a b = if ltb b a then record { pos1 = b; pos2 = a } else record { pos1 = a; pos2 = b }

unfoldable pub narrowed : Window → Window
narrowed w =
    let d = sub8 w.pos2 w.pos1 in
    if ltb 32 d then record w { pos2 = add8 w.pos1 (bit_and d 0x1f) } else w

unfoldable pub window : ℕ → Window
unfolding ordered narrowed
window switcher = narrowed (ordered (switcher / 2 ^ 8 % 256) (switcher / 2 ^ 16 % 256))

-- `step_3[i] = f(step_3[i], step_3[pos2])`
unfoldable pub update_byte : (ℕ → ℕ → ℕ) → ℕ → ℕ → Mix → Mix
update_byte f pos2 i m = record m {
  step_3 = set m.step_3 i (f (byte_at m.step_3 i) (byte_at m.step_3 pos2));
}

-- `step_3[pos2], step_3[pos1] = bits.Reverse8(step_3[pos1]), bits.Reverse8(step_3[pos2])`
unfoldable pub reverse_swap : ℕ → ℕ → Mix → Mix
reverse_swap pos1 pos2 m =
    let a = m.step_3 in
    record m {
      step_3 = set (set a pos2 (reverse8 (byte_at a pos1))) pos1 (reverse8 (byte_at a pos2));
    }

-- `prev_lhash = lhash + prev_lhash; lhash = …`, at the value that `hash` gives for the new one.
unfoldable pub deviate : (ℕ → List ℕ → ℕ) → ℕ → Mix → Mix
deviate hash pos2 m =
    let prev = add64 m.lhash m.prev_lhash in
    record m { prev_lhash = prev; lhash = hash prev (take pos2 m.step_3) }

-- `step_3[pos1] - step_3[pos2]`
unfoldable pub gap : Window → Mix → ℕ
gap w m = sub8 (byte_at m.step_3 w.pos1) (byte_at m.step_3 w.pos2)

module _ (prim : Primitives) where
  -- The three tests that may rehash, in their order.
  unfoldable pub threshold_hashes : ℕ → Window → Mix → Mix
  unfolding deviate gap
  threshold_hashes tries w m0 =
      let m1 = if ltb (gap w m0) 0x10 then deviate (λ prev t. prim.xxhash t) w.pos2 m0 else m0 in
      let m2 = if ltb (gap w m1) 0x20 then deviate (λ prev t. prim.fnv1a t) w.pos2 m1 else m1 in
      if ltb (gap w m2) 0x30 then deviate (λ prev t. prim.siphash tries prev t) w.pos2 m2 else m2

  -- The prologue: SHA-256, Salsa20, RC4 and the first hash.
  unfoldable pub prologue : List ℕ → Outcome Mix
  prologue input = do
    let sha_key = prim.sha256 input
    let salted = prim.salsa (replicate 256 0) (replicate 16 0) sha_key
    c ← or_panic (new_cipher salted)
    let out = xor_key_stream c salted
    let lhash = prim.fnv1a out.0
    returned (record { step_3 = out.0; rc4s = out.1; lhash = lhash; prev_lhash = lhash })

-- `rc4s.XORKeyStream(step_3[:], step_3[:])`
unfoldable pub scramble : Mix → Mix
scramble m = let out = xor_key_stream m.rc4s m.step_3 in record m { step_3 = out.0; rc4s = out.1 }

-- `step_3[255] = step_3[255] ^ step_3[pos1] ^ step_3[pos2]`
unfoldable pub fold_last : Window → Mix → Mix
fold_last w m =
    let a = m.step_3 in
    let x = bit_xor (bit_xor (byte_at a 255) (byte_at a w.pos1)) (byte_at a w.pos2) in
    record m { step_3 = set a 255 x }

-- `uint32((tries-4)*256 + (uint64(step_3[253])<<8|uint64(step_3[254]))&0x3ff)`.
unfoldable pub data_len : ℕ → Mix → ℕ
unfolding u32
data_len tries m =
    let tail = bit_or (byte_at m.step_3 253 * 2 ^ 8) (byte_at m.step_3 254) in
    u32 (((tries + 2 ^ 64 - 4) * 256 + bit_and tail 0x3ff) % 2 ^ 64)

-- The constant of scratch.go: 277 rounds of 256 bytes.
abbrev pub max_length : ℕ
max_length = 277 * 256
