-- ===== src/Miner/Hex.antt =====
-- encoding/hex as internal/miner/state.go and cmd/go-gpu-miner/main.go use it, on strings as lists
-- of bytes: a job's blob is decoded, a share's blob encoded.
use dirtybird_go_gpu_miner.Prelude.{
  ℕ, suc, ◌+◌, ◌-◌, ◌*◌, ◌/◌, ◌%◌, ◌<◌, ◌≡◌, refl, ap, arith, List, [], ◌∷◌, Option, none, some,
  ltb, leb, ◌&&◌, if◌then◌else◌, IsBytes, length, some-injective, subst,
}

-- The value of a hex digit, in either case.
unfoldable pub hex_digit : ℕ → Option ℕ
hex_digit c =
    if leb 48 c && leb c 57
    then some (c - 48)
    else if leb 97 c && leb c 102
    then some (c - 87)
    else if leb 65 c && leb c 70
    then some (c - 55)
    else none

unfoldable pub decode_pair : Option ℕ → Option ℕ → Option (List ℕ) → Option (List ℕ)
decode_pair none lo rest = none
decode_pair (some a) none rest = none
decode_pair (some a) (some b) none = none
decode_pair (some a) (some b) (some bytes) = some ((a * 16 + b) ∷ bytes)

-- `hex.Decode`: a digit that is none, or an odd length, is an error.
unfoldable pub decode_hex : List ℕ → Option (List ℕ)
unfolding hex_digit decode_pair
decode_hex [] = some []
decode_hex (c ∷ []) = none
decode_hex (hi ∷ lo ∷ text) = decode_pair (hex_digit hi) (hex_digit lo) (decode_hex text)

unfoldable pub hex_char : ℕ → ℕ
hex_char d = if ltb d 10 then 48 + d else 87 + d

-- `hex.EncodeToString`
unfoldable pub encode_hex : List ℕ → List ℕ
unfolding hex_char
encode_hex [] = []
encode_hex (b ∷ bytes) = hex_char (b / 16) ∷ hex_char (b % 16) ∷ encode_hex bytes

hex_digit-hex_char : (d : ℕ) → d < 16 → hex_digit (hex_char d) ≡ some d
unfolding hex_digit hex_char
hex_digit-hex_char d h = ground arith

hex_digit-lt : (c d : ℕ) → hex_digit c ≡ some d → d < 16
unfolding hex_digit
hex_digit-lt c d e = ground arith

-- Decoding the text of a list of bytes gives the bytes back.
pub decode_hex-encode_hex :
    (bytes : List ℕ) → IsBytes bytes → decode_hex (encode_hex bytes) ≡ some bytes
unfolding decode_hex decode_pair encode_hex
decode_hex-encode_hex [] h = refl
decode_hex-encode_hex (b ∷ bytes) (hb, h) =
    let hi = hex_digit-hex_char (b / 16) (omega arith) in
    let lo = hex_digit-hex_char (b % 16) (omega arith) in
    rw (hi, lo, decode_hex-encode_hex bytes h) (ap (λ x. some (x ∷ bytes)) (omega arith))

decode_pair-IsBytes :
    (x y : Option ℕ) (r : Option (List ℕ)) (n : ℕ) (bytes : List ℕ)
    → ((d : ℕ) → x ≡ some d → d < 16)
    → ((d : ℕ) → y ≡ some d → d < 16)
    → ((rest : List ℕ) → r ≡ some rest → IsBytes rest × (n ≡ 2 * length rest))
    → decode_pair x y r ≡ some bytes
    → IsBytes bytes × (suc (suc n) ≡ 2 * length bytes)
unfolding decode_pair
decode_pair-IsBytes none y r n bytes hx hy hr e = absurd cc
decode_pair-IsBytes (some a) none r n bytes hx hy hr e = absurd cc
decode_pair-IsBytes (some a) (some b) none n bytes hx hy hr e = absurd cc
decode_pair-IsBytes (some a) (some b) (some rest) n bytes hx hy hr e =
    let below = hr rest refl in
    subst (λ bs. IsBytes bs × (suc (suc n) ≡ 2 * length bs)) (some-injective e)
      ((omega (arith, hx a refl, hy b refl), below.0), omega (arith, below.1))

-- What decoding gives, where it gives anything: half as many bytes as digits.
pub decode_hex-IsBytes :
    (text bytes : List ℕ)
    → decode_hex text ≡ some bytes
    → IsBytes bytes × (length text ≡ 2 * length bytes)
unfolding decode_hex
decode_hex-IsBytes [] bytes e =
    subst (λ bs. IsBytes bs × (0 ≡ 2 * length bs)) (some-injective e) (tt, refl)
decode_hex-IsBytes (c ∷ []) bytes e = absurd cc
decode_hex-IsBytes (hi ∷ lo ∷ text) bytes e =
    decode_pair-IsBytes (hex_digit hi) (hex_digit lo) (decode_hex text) (length text) bytes
      (λ d. hex_digit-lt hi d) (λ d. hex_digit-lt lo d) (λ rest er. decode_hex-IsBytes text rest er)
      e
