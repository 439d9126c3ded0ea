-- ===== src/Rc4/Keys.antt =====
-- The cipher's state array is a permutation of the 256 byte values, from the key schedule on.
use mathlib.Core.List.{Perm}
use mathlib.Core.List.Perm
use dirtybird_go_gpu_miner.Prelude.{
  ℕ, zero, suc, ◌+◌, ◌≤◌, ◌<◌, ◌≡◌, refl, ◌∙◌, List, [], ◌∷◌, some, arith, length, IsBytes,
  for_range_inv,
}
use dirtybird_go_gpu_miner.Word.Range.{add8-lt, byte_xor-lt}
use dirtybird_go_gpu_miner.Rc4.{
  Cipher, Schedule, fill_identity, schedule_step, key_schedule, new_cipher, advance, key_byte,
  xor_key_stream,
}
use dirtybird_go_gpu_miner.Rc4.Arrays.{swap, length-swap, swap-perm}

-- The numbers from `lo` on, `count` of them.
abbrev pub upto : ℕ → ℕ → List ℕ
upto zero lo = []
upto (suc count) lo = lo ∷ upto count (lo + 1)

fill_identity_lem : fill_identity ≡ upto 256 0
unfolding fill_identity
fill_identity_lem = refl

-- What holds of a state array at all times.
pub record IsShuffle (s : List ℕ) : Type 0 where
  pub size : length s ≡ 256
  pub all_bytes : Perm s (upto 256 0)

abbrev pub IsReady : Cipher → Type 0
IsReady c = IsShuffle c.s × (c.i < 256) × (c.j < 256)

swap-IsShuffle : (s : List ℕ) (i j : ℕ) → i < 256 → j < 256 → IsShuffle s → IsShuffle (swap s i j)
swap-IsShuffle s i j hi hj h = record {
  size = length-swap s i j ∙ h.size;
  all_bytes = Perm.trans (swap-perm s i j (omega arith) (omega arith)) h.all_bytes;
}

fill_identity-IsShuffle : IsShuffle fill_identity
fill_identity-IsShuffle = rw fill_identity_lem (record { size = refl; all_bytes = Perm.refl _ })

schedule_step-IsShuffle :
    (key : List ℕ) (i : ℕ) (r : Schedule)
    → i < 256
    → IsShuffle r.s
    → IsShuffle (schedule_step key i r).s
unfolding schedule_step
schedule_step-IsShuffle key i r hi h = swap-IsShuffle r.s i _ hi (add8-lt _ _) h

key_schedule-IsShuffle : (key : List ℕ) → IsShuffle (key_schedule key).s
unfolding key_schedule
key_schedule-IsShuffle key =
    for_range_inv (λ r. IsShuffle r.s) (schedule_step key) 0 256
      (λ i r l hi h. schedule_step-IsShuffle key i r hi h) 256 0
      (record { s = fill_identity; j = 0 }) (omega arith) (omega arith) fill_identity-IsShuffle

-- The record that `NewCipher` returns.
abbrev pub fresh : List ℕ → Cipher
fresh key = record { s = (key_schedule key).s; i = 0; j = 0 }

pub fresh-IsReady : (key : List ℕ) → IsReady (fresh key)
fresh-IsReady key = (key_schedule-IsShuffle key, omega arith, omega arith)

-- With a key of 1 to 256 bytes `NewCipher` returns a cipher whose state array holds each of the
-- 256 byte values exactly once and whose indices are 0.
pub new_cipher_shuffles :
    (key : List ℕ)
    → 1 ≤ length key
    → length key ≤ 256
    → (c : Cipher) × (new_cipher key ≡ some c) × IsShuffle c.s × (c.i ≡ 0) × (c.j ≡ 0)
unfolding new_cipher
new_cipher_shuffles key lo hi = (fresh key, ground arith, key_schedule-IsShuffle key, refl, refl)

pub new_cipher-IsReady :
    (key : List ℕ)
    → 1 ≤ length key
    → length key ≤ 256
    → (c : Cipher) × (new_cipher key ≡ some c) × IsReady c
new_cipher-IsReady key lo hi =
    let r = new_cipher_shuffles key lo hi in
    (r.0, r.1, (r.2, omega (arith, r.3), omega (arith, r.4)))

advance-IsReady : (c : Cipher) → IsReady c → IsReady (advance c)
unfolding advance
advance-IsReady c (h, hi, hj) =
    (swap-IsShuffle c.s _ _ (add8-lt _ _) (add8-lt _ _) h, add8-lt _ _, add8-lt _ _)

-- Encrypting any input leaves the cipher's state array a permutation of the byte values and its
-- indices bytes.
pub xor_key_stream-IsReady :
    (c : Cipher) (src : List ℕ) → IsReady c → IsReady (xor_key_stream c src).1
unfolding xor_key_stream
xor_key_stream-IsReady c [] h = h
xor_key_stream-IsReady c (v ∷ src) h = xor_key_stream-IsReady (advance c) src (advance-IsReady c h)

pub key_byte-lt : (c : Cipher) → key_byte c < 256
unfolding key_byte
key_byte-lt c = omega arith

pub length-xor_key_stream :
    (c : Cipher) (src : List ℕ) → length (xor_key_stream c src).0 ≡ length src
unfolding xor_key_stream
length-xor_key_stream c [] = refl
length-xor_key_stream c (v ∷ src) = omega (arith, length-xor_key_stream (advance c) src)

pub xor_key_stream-IsBytes :
    (c : Cipher) (src : List ℕ) → IsBytes src → IsBytes (xor_key_stream c src).0
unfolding xor_key_stream
xor_key_stream-IsBytes c [] h = tt
xor_key_stream-IsBytes c (v ∷ src) h =
    (byte_xor-lt v _ h.0 (key_byte-lt c), xor_key_stream-IsBytes (advance c) src h.1)
