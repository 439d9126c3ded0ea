-- ===== src/Hash/Lanes.antt =====
-- `sha256Sum256Pair` and `sha256FinishNI` of internal/astrobwt/sha256mb.go. The two kernels in
-- assembly and the SHA-256 package are parameters.
pub mod Standard
pub mod Tail
pub mod Padding
use dirtybird_go_gpu_miner.Prelude.{
  ℕ, zero, suc, ◌+◌, ◌-◌, ◌*◌, ◌/◌, ◌%◌, ◌^◌, ◌≡◌, List, [], ◌∷◌, ◌++◌, min, length, take, drop,
  replicate, set, copy_at, Bool, true, false, ltb, leb, not, if◌then◌else◌,
}

-- What stands outside the Go code: SHA-256 itself, and the kernels on whole blocks of 64 bytes.
pub record Kernels : Type 0 where
  pub sha256 : List ℕ → List ℕ  -- sha256Fallback
  pub blocks : List ℕ → List ℕ → List ℕ  -- sha256BlocksNI: the state and the blocks
  pub blocks2 : List ℕ → List ℕ → List ℕ → List ℕ → List ℕ × List ℕ  -- sha256Blocks2NI
  pub use_sha_ni : Bool  -- useSHANI

-- `sha256IV`
abbrev pub sha256_iv : List ℕ
sha256_iv =
    0x6a09e667 ∷ 0xbb67ae85 ∷ 0x3c6ef372 ∷ 0xa54ff53a ∷ 0x510e527f ∷ 0x9b05688c ∷ 0x1f83d9ab
    ∷ 0x5be0cd19 ∷ []

-- `binary.BigEndian.PutUint64` of `uint64(n) << 3`, and `PutUint32` of each word of the state.
unfoldable pub bit_length : ℕ → List ℕ
bit_length n =
    let bits = n * 2 ^ 3 % 2 ^ 64 in
    bits / 2 ^ 56 % 256
    ∷ bits / 2 ^ 48 % 256
    ∷ bits / 2 ^ 40 % 256
    ∷ bits / 2 ^ 32 % 256
    ∷ bits / 2 ^ 24 % 256
    ∷ bits / 2 ^ 16 % 256
    ∷ bits / 2 ^ 8 % 256
    ∷ bits % 256
    ∷ []

unfoldable pub put_state : List ℕ → List ℕ
put_state [] = []
put_state (s ∷ state) =
    s / 2 ^ 24 % 256 ∷ s / 2 ^ 16 % 256 ∷ s / 2 ^ 8 % 256 ∷ s % 256 ∷ put_state state

-- `tlen` and the tail that `sha256FinishNI` fills.
unfoldable pub tail_length : ℕ → ℕ
tail_length rem = if leb 56 rem then 128 else 64

unfoldable pub filled_tail : List ℕ → ℕ → List ℕ
unfolding tail_length bit_length
filled_tail p full =
    let rest = drop full p in
    let rem = min (length rest) 128 in
    copy_at (set (copy_at (replicate 128 0) 0 rest) rem 0x80) (tail_length rem - 8)
      (bit_length (length p))

module _ (k : Kernels) where
  -- `sha256FinishNI`: the digest.
  unfoldable pub sha256_finish_ni : List ℕ → List ℕ → ℕ → List ℕ
  unfolding filled_tail tail_length put_state
  sha256_finish_ni state p full =
      put_state
        (k.blocks state (take (tail_length (min (length (drop full p)) 128)) (filled_tail p full)))

  -- `sha256Sum256Pair`; `fa` and `fb` are the lengths with the low six bits cleared.
  unfoldable pub sha256_sum256_pair : List ℕ → List ℕ → List ℕ × List ℕ
  unfolding sha256_finish_ni
  sha256_sum256_pair a b =
      let fa = length a / 2 ^ 6 * 2 ^ 6 in
      let fb = length b / 2 ^ 6 * 2 ^ 6 in
      let shared = min fa fb / 2 ^ 6 in
      let lanes =
        if ltb 0 shared
        then k.blocks2 sha256_iv (take (shared * 2 ^ 6) a) sha256_iv (take (shared * 2 ^ 6) b)
        else (sha256_iv, sha256_iv) in
      let na = fa / 2 ^ 6 - shared in
      let nb = fb / 2 ^ 6 - shared in
      let st0 =
        if ltb 0 na
        then k.blocks lanes.0 (take (na * 2 ^ 6) (drop (shared * 2 ^ 6) a))
        else lanes.0 in
      let st1 =
        if ltb 0 nb
        then k.blocks lanes.1 (take (nb * 2 ^ 6) (drop (shared * 2 ^ 6) b))
        else lanes.1 in
      if not k.use_sha_ni
      then (k.sha256 a, k.sha256 b)
      else (sha256_finish_ni st0 a fa, sha256_finish_ni st1 b fb)
