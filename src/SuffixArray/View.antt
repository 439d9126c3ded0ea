-- ===== src/SuffixArray/View.antt =====
-- What the stages of the descriptor suffix array read (`stage4View`): the text, its suffixes, the
-- 24-bit keys, and the two suffix comparisons.
use Prim.Native.Nat.{Ordering}
use dirtybird_go_gpu_miner.Prelude.{
  ℕ, ◌+◌, ◌-◌, ◌*◌, ◌/◌, ◌^◌, List, Bool, true, false, ltb, leb, ◌==◌, if◌then◌else◌, not, take,
  drop, byte_at, bit_and, bit_or,
}
use dirtybird_go_gpu_miner.Word.{sub32, u32}
use dirtybird_go_gpu_miner.SuffixArray.Lex.{bytes_compare, number, or_else}

-- `stage4View`
pub record View : Type 0 where
  pub text : List ℕ  -- data
  pub logical_len : ℕ

-- `v.data[a:v.logicalLen]`
abbrev pub suffix : View → ℕ → List ℕ
suffix v a = drop a (take v.logical_len v.text)

-- `compareSuffixes`
unfoldable pub compare_suffixes : View → ℕ → ℕ → Ordering
unfolding bytes_compare
compare_suffixes v a b = if a == b then Ordering.eq else bytes_compare (suffix v a) (suffix v b)

-- The last lines of `compareSuffixesAfterKey`.
abbrev pub by_length : ℕ → ℕ → Ordering
by_length a_len b_len =
    if a_len == b_len then Ordering.eq else if ltb a_len b_len then Ordering.lt else Ordering.gt

-- The comparison of `common` bytes after the key: the first 8 as a big-endian number.
unfoldable pub compare_common : ℕ → List ℕ → List ℕ → Ordering → Ordering
unfolding bytes_compare number
compare_common common ap bp by_len =
    if leb 8 common
    then (let av = number (take 8 ap) in
        let bv = number (take 8 bp) in
        if not (av == bv)
        then (if ltb av bv then Ordering.lt else Ordering.gt)
        else or_else (bytes_compare (drop 8 (take common ap)) (drop 8 (take common bp))) by_len)
    else or_else (bytes_compare (take common ap) (take common bp)) by_len

-- `compareSuffixesAfterKey`
unfoldable pub compare_suffixes_after_key : View → ℕ → ℕ → Ordering
unfolding compare_common sub32
compare_suffixes_after_key v a b =
    if a == b
    then Ordering.eq
    else (let a_len = sub32 v.logical_len a in
        let b_len = sub32 v.logical_len b in
        let common_with_key = if ltb b_len a_len then b_len else a_len in
        if leb common_with_key 3
        then by_length a_len b_len
        else compare_common (common_with_key - 3) (drop (a + 3) v.text) (drop (b + 3) v.text)
            (by_length a_len b_len))

abbrev pub is_less : Ordering → Bool
is_less Ordering.lt = true
is_less Ordering.eq = false
is_less Ordering.gt = false

-- `suffixLessAfterKey`
unfoldable pub suffix_less_after_key : View → ℕ → ℕ → Bool
unfolding compare_suffixes_after_key
suffix_less_after_key v a b = elim (compare_suffixes_after_key v a b) [
  | Ordering.lt ↦ true
  | Ordering.gt ↦ false
  | Ordering.eq ↦ ltb a b
]

-- `*(*uint32)(unsafe.Add(dp, pos)) & 0xffffff`, the little-endian load of four bytes.
unfoldable pub key_at : List ℕ → ℕ → ℕ
key_at text pos =
    bit_and
      (byte_at text pos
        + byte_at text (pos + 1) * 2 ^ 8
        + byte_at text (pos + 2) * 2 ^ 16
        + byte_at text (pos + 3) * 2 ^ 24)
      0xffffff

-- `radixOrderKey`: the three bytes in reverse.
unfoldable pub radix_order_key : ℕ → ℕ
unfolding u32
radix_order_key key =
    bit_or (bit_or (u32 (bit_and key 0x0000ff * 2 ^ 16)) (bit_and key 0x00ff00))
      (bit_and key 0xff0000 / 2 ^ 16)
