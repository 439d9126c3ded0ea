-- ===== src/Rc4/Tests.antt =====
-- A published RC4 vector, and the theorems at concrete inputs.
use dirtybird_go_gpu_miner.Prelude.{ℕ, ◌≡◌, refl, List, [], ◌∷◌, Option, none, some, arith}
use dirtybird_go_gpu_miner.Rc4.{Cipher, key_schedule, new_cipher, xor_key_stream}
use dirtybird_go_gpu_miner.Rc4.Keys.{
  IsShuffle, IsReady, fresh, fresh-IsReady, new_cipher_shuffles, xor_key_stream-IsReady,
}
use dirtybird_go_gpu_miner.Rc4.RoundTrip.{xor_key_stream_twice}

abbrev wiki : List ℕ
wiki = b'W' ∷ b'i' ∷ b'k' ∷ b'i' ∷ []

abbrev pedia : List ℕ
pedia = b'p' ∷ b'e' ∷ b'd' ∷ b'i' ∷ b'a' ∷ []

encrypt : List ℕ → List ℕ → Option (List ℕ)
unfolding new_cipher xor_key_stream
encrypt key src = elim (new_cipher key) [ none ↦ none | some c ↦ some (xor_key_stream c src).0 ]

encrypt-pedia : encrypt wiki pedia ≡ some (0x10 ∷ 0x21 ∷ 0xbf ∷ 0x04 ∷ 0x20 ∷ [])
unfolding encrypt key_schedule
encrypt-pedia = refl

new_cipher_shuffles_example :
    (c : Cipher) × (new_cipher wiki ≡ some c) × IsShuffle c.s × (c.i ≡ 0) × (c.j ≡ 0)
new_cipher_shuffles_example = new_cipher_shuffles wiki (omega arith) (omega arith)

xor_key_stream-IsReady_example : IsReady (xor_key_stream (fresh wiki) pedia).1
xor_key_stream-IsReady_example = xor_key_stream-IsReady (fresh wiki) pedia (fresh-IsReady wiki)

xor_key_stream_twice_example :
    xor_key_stream (fresh wiki) (xor_key_stream (fresh wiki) pedia).0
    ≡ (pedia, (xor_key_stream (fresh wiki) pedia).1)
xor_key_stream_twice_example = xor_key_stream_twice (fresh wiki) pedia (omega arith)
