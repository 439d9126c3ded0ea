-- ===== src/Rc4.antt =====
-- The RC4 cipher of internal/astrobwt/rc4.go: key schedule, key stream, reset. A method on
-- `*Cipher` returns the new record. The state array is a list of 256 numbers.
pub mod Arrays
pub mod Keys
pub mod RoundTrip
mod Tests
use dirtybird_go_gpu_miner.Prelude.{
  ℕ, zero, suc, ◌+◌, ◌%◌, ◌*◌, List, [], ◌∷◌, Option, none, some, ltb, ◌==◌, ◌||◌, if◌then◌else◌,
  length, byte_at, set, replicate, for_range, bit_xor,
}
use dirtybird_go_gpu_miner.Word.{add8, u32}
use Arrays.{swap}

pub record Cipher : Type 0 where
  pub s : List ℕ  -- [256]uint32
  pub i : ℕ  -- uint8
  pub j : ℕ  -- uint8

-- `for i := 0; i < 256; i++ { c.s[i] = uint32(i) }`
unfoldable pub fill_identity : List ℕ
unfolding for_range
fill_identity = for_range (λ i s. set s i i) 256 0 (replicate 256 0)

-- The variables of the key schedule.
pub record Schedule : Type 0 where
  pub s : List ℕ
  pub j : ℕ

-- One round: `j += uint8(c.s[i]) + key[i%k]` and the exchange.
unfoldable pub schedule_step : List ℕ → ℕ → Schedule → Schedule
unfolding add8 swap
schedule_step key i r =
    let j = add8 r.j (add8 (byte_at r.s i % 256) (byte_at key (i % length key))) in
    record { s = swap r.s i j; j = j }

unfoldable pub key_schedule : List ℕ → Schedule
unfolding fill_identity schedule_step for_range
key_schedule key = for_range (schedule_step key) 256 0 (record { s = fill_identity; j = 0 })

-- `NewCipher`; `none` is the panic on a key that is empty or longer than 256 bytes.
unfoldable pub new_cipher : List ℕ → Option Cipher
new_cipher key =
    if ltb (length key) 1 || ltb 256 (length key)
    then none
    else some (record { s = (key_schedule key).s; i = 0; j = 0 })

-- `Reset`
unfoldable pub reset : Cipher → Cipher
reset c = record { s = replicate 256 0; i = 0; j = 0 }

-- The state after one round of `XORKeyStream`, and the key byte that the round uses.
unfoldable pub advance : Cipher → Cipher
unfolding add8 swap
advance c =
    let i = add8 c.i 1 in
    let j = add8 c.j (byte_at c.s i % 256) in record { s = swap c.s i j; i = i; j = j }

unfoldable pub key_byte : Cipher → ℕ
unfolding add8 swap advance u32
key_byte c =
    let c' = advance c in
    let x = byte_at c.s c'.i in let y = byte_at c.s c'.j in byte_at c'.s (u32 (x + y) % 256) % 256

-- `XORKeyStream(dst, src)`: the bytes written to `dst`, and the cipher left behind.
unfoldable pub xor_key_stream : Cipher → List ℕ → List ℕ × Cipher
unfolding advance key_byte
xor_key_stream c [] = ([], c)
xor_key_stream c (v ∷ src) =
    let rest = xor_key_stream (advance c) src in (bit_xor v (key_byte c) ∷ rest.0, rest.1)
