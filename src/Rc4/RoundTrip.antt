-- ===== src/Rc4/RoundTrip.antt =====
-- Decryption is encryption with the same key.
use dirtybird_go_gpu_miner.Prelude.{◌≡◌, refl, ap₂, ℕ, List, [], ◌∷◌, IsBytes}
use dirtybird_go_gpu_miner.Prelude.Bits.{bit_xor_cancel}
use dirtybird_go_gpu_miner.Rc4.{Cipher, advance, key_byte, xor_key_stream}
use dirtybird_go_gpu_miner.Rc4.Keys.{key_byte-lt}

-- From the same cipher state `XORKeyStream` applied to its own output gives the input bytes back,
-- and leaves the cipher in the same state both times.
pub xor_key_stream_twice :
    (c : Cipher) (src : List ℕ)
    → IsBytes src
    → xor_key_stream c (xor_key_stream c src).0 ≡ (src, (xor_key_stream c src).1)
unfolding xor_key_stream
xor_key_stream_twice c [] h = refl
xor_key_stream_twice c (v ∷ src) h =
    let ih = xor_key_stream_twice (advance c) src h.1 in
    ap₂ (λ x r. (x ∷ r.0, r.1)) (bit_xor_cancel 8 v (key_byte c) h.0 (key_byte-lt c)) ih
