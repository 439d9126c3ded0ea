-- ===== src/SuffixArray/Keys.antt =====
-- The radix key of a position is the number of its first three bytes, and orders as they do.
use dirtybird_go_gpu_miner.Prelude.{
  ℕ, ◌+◌, ◌*◌, ◌/◌, ◌%◌, ◌^◌, ◌<◌, ◌≡◌, ap, ◌∙◌, arith, List, byte_at, byte_at-lt, IsBytes, bit_and,
  bit_or,
}
use dirtybird_go_gpu_miner.Prelude.Bits.{bit_and_low, bit_and_high, bit_or_add}
use dirtybird_go_gpu_miner.Word.{u32}
use dirtybird_go_gpu_miner.SuffixArray.View.{key_at, radix_order_key}

pub key_at_bytes :
    (text : List ℕ) (pos : ℕ)
    → IsBytes text
    → key_at text pos
      ≡ byte_at text pos + byte_at text (pos + 1) * 2 ^ 8 + byte_at text (pos + 2) * 2 ^ 16
unfolding key_at
key_at_bytes text pos h =
    let a = byte_at text pos in
    let b = byte_at text (pos + 1) in
    let c = byte_at text (pos + 2) in
    let d = byte_at text (pos + 3) in
    let ha : a < 256 = byte_at-lt text pos h in
    let hb : b < 256 = byte_at-lt text (pos + 1) h in
    let hc : c < 256 = byte_at-lt text (pos + 2) h in
    let split : a + b * 2 ^ 8 + c * 2 ^ 16 + d * 2 ^ 24
        ≡ d * 2 ^ 24 + (a + b * 2 ^ 8 + c * 2 ^ 16) =
      omega arith in
    ap (λ x. bit_and x 0xffffff) split
    ∙ bit_and_low 24 d (a + b * 2 ^ 8 + c * 2 ^ 16) (omega (arith, ha, hb, hc))

reversed :
    (a b c : ℕ)
    → a < 256
    → b < 256
    → c < 256
    → radix_order_key (a + b * 2 ^ 8 + c * 2 ^ 16) ≡ a * 2 ^ 16 + b * 2 ^ 8 + c
unfolding radix_order_key u32
reversed a b c ha hb hc =
    let low : bit_and (a + b * 2 ^ 8 + c * 2 ^ 16) 0xff ≡ a =
      ap (λ x. bit_and x 0xff) (omega arith) ∙ bit_and_low 8 (b + c * 2 ^ 8) a ha in
    let middle : bit_and (a + b * 2 ^ 8 + c * 2 ^ 16) 0xff00 ≡ b * 2 ^ 8 =
      ap (λ x. bit_and x 0xff00) (omega arith)
      ∙ bit_and_high 8 (c * 2 ^ 8 + b) a 0xff ha
      ∙ ap (λ x. x * 2 ^ 8) (bit_and_low 8 c b hb) in
    let high : bit_and (a + b * 2 ^ 8 + c * 2 ^ 16) 0xff0000 ≡ c * 2 ^ 16 =
      ap (λ x. bit_and x 0xff0000) (omega arith)
      ∙ bit_and_high 16 (0 * 2 ^ 8 + c) (b * 2 ^ 8 + a) 0xff (omega arith)
      ∙ ap (λ x. x * 2 ^ 16) (bit_and_low 8 0 c hc) in
    let wide : a * 2 ^ 16 % 2 ^ 32 ≡ a * 2 ^ 16 = omega arith in
    let narrow : c * 2 ^ 16 / 2 ^ 16 ≡ c = omega arith in
    let first : bit_or (a * 2 ^ 16) (b * 2 ^ 8) ≡ a * 2 ^ 16 + b * 2 ^ 8 =
      bit_or_add 16 a (b * 2 ^ 8) (omega arith) in
    let second : bit_or (a * 2 ^ 16 + b * 2 ^ 8) c ≡ a * 2 ^ 16 + b * 2 ^ 8 + c =
      ap (λ x. bit_or x c) (omega arith) ∙ bit_or_add 8 (a * 2 ^ 8 + b) c hc ∙ omega arith in
    rw (low, middle, high, wide, narrow, first) second

-- The radix key of the three bytes at a position.
abbrev pub radix_at : List ℕ → ℕ → ℕ
radix_at text pos =
    byte_at text pos * 2 ^ 16 + byte_at text (pos + 1) * 2 ^ 8 + byte_at text (pos + 2)

-- The stored key of a position, the reversed 24 low bits of the four bytes loaded there, is the number
-- of the three bytes from there on, the first the highest; for any array of bytes.
pub radix_order_key-key_at :
    (text : List ℕ) (pos : ℕ) → IsBytes text → radix_order_key (key_at text pos) ≡ radix_at text pos
radix_order_key-key_at text pos h =
    ap radix_order_key (key_at_bytes text pos h)
    ∙ reversed (byte_at text pos) (byte_at text (pos + 1)) (byte_at text (pos + 2))
        (byte_at-lt text pos h) (byte_at-lt text (pos + 1) h) (byte_at-lt text (pos + 2) h)
