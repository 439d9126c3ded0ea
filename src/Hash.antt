-- ===== src/Hash.antt =====
-- The entry points of the hash (internal/astrobwt/hasher.go, the head and the tail of
-- internal/astrobwt/pow.go): the stream, its suffix array by one of the two backends, and the
-- SHA-256 of the suffix array's bytes. `text_32_0alloc` is a copy of Go's index/suffixarray: it is
-- a parameter.
pub mod Same
pub mod Lanes
mod Tests
use dirtybird_go_gpu_miner.Prelude.{
  ℕ, zero, suc, ◌+◌, ◌*◌, ◌/◌, ◌%◌, ◌^◌, ◌≡◌, ◌<◌, List, [], ◌∷◌, ◌++◌, length, take, replicate,
  copy_at, IsBytes, Bool, true, false, not, ◌&&◌, if◌then◌else◌, Option, none, some, Outcome,
  returned, ◌>>=◌,
}
use dirtybird_go_gpu_miner.Primitives.{Primitives}
use dirtybird_go_gpu_miner.Stream.Mix.{max_length}
use dirtybird_go_gpu_miner.Stream.Round.{Scratch, astro_stream}
use dirtybird_go_gpu_miner.SuffixArray.Runs.{Run}
use dirtybird_go_gpu_miner.SuffixArray.Build.{ScratchData, build_sa_v114}
use dirtybird_go_gpu_miner.SuffixArray.Build.Exact.{IsSuffixArray}

-- `Backend`
pub data Backend : Type 0 where
  backend_sais backend_v114 : Backend

-- `ScratchData` with the buffers of the descriptor path.
pub record HashScratch : Type 0 where
  pub stream : Scratch
  pub flags : List ℕ
  pub radix_tmp : List Run
  pub use_v114 : Bool

-- What the package calls and does not implement here.
pub record Externals : Type 0 where
  pub prim : Primitives
  pub sais : List ℕ → List ℕ  -- text_32_0alloc
  pub little_endian : Bool  -- LittleEndian

-- The documentation of index/suffixarray: the result is the suffix array of the text.
pub record DocumentedExternals (ext : Externals) : Type 0 where
  pub sais-IsSuffixArray :
      (text : List ℕ) → IsBytes text → length text < 2 ^ 31 → IsSuffixArray text (ext.sais text)

-- `binary.LittleEndian.PutUint32`, and `sa_bytes` on a little-endian host.
unfoldable pub put_uint32 : ℕ → List ℕ
put_uint32 c = c % 256 ∷ (c / 2 ^ 8) % 256 ∷ (c / 2 ^ 16) % 256 ∷ (c / 2 ^ 24) % 256 ∷ []

unfoldable pub sa_bytes : List ℕ → List ℕ
unfolding put_uint32
sa_bytes [] = []
sa_bytes (c ∷ sa) = put_uint32 c ++ sa_bytes sa

-- The other branch of `astroBWTv3`: `PutUint32(s[i<<1:], uint32(c))` for every entry.
unfoldable pub put_entries : ℕ → List ℕ → List ℕ → List ℕ
unfolding put_uint32
put_entries i [] s = s
put_entries i (c ∷ sa) s = put_entries (i + 1) sa (copy_at s (i * 2) (put_uint32 c))

-- `Hasher`: the scratch of `New` and `NewWithBackend`, whose buffers hold anything, or zeros.
unfoldable pub new_with_backend : Backend → Scratch → List ℕ → List Run → HashScratch
new_with_backend backend_sais s flags tmp = record {
  stream = s;
  flags = flags;
  radix_tmp = tmp;
  use_v114 = false;
}
new_with_backend backend_v114 s flags tmp = record {
  stream = s;
  flags = flags;
  radix_tmp = tmp;
  use_v114 = true;
}

module _ (ext : Externals) where
  -- The end of `astroBWTv3Stream`: the suffix array of `data[:data_len]`; where the descriptor path
  -- declines, SAIS runs.
  unfoldable pub suffix_array : HashScratch → Scratch → ℕ → Outcome (List ℕ)
  unfolding build_sa_v114
  suffix_array h s data_len =
      let by_sais = ext.sais (take data_len s.text) in
      let built =
        build_sa_v114 ext.little_endian
          (record {
            text = s.text;
            markers = s.markers;
            n_templates = s.n_templates;
            flags = h.flags;
            radix_tmp = h.radix_tmp;
          })
          data_len in
      if not h.use_v114
      then returned by_sais
      else built >>= λ o. elim o [ none ↦ returned by_sais | some sa ↦ returned sa ]

  -- `astroBWTv3Stream`: the entries `sa[:data_len]`.
  unfoldable pub astro_bwt_v3_stream : ℕ → List ℕ → HashScratch → Outcome (List ℕ)
  unfolding suffix_array
  astro_bwt_v3_stream fuel input h =
      astro_stream ext.prim fuel input h.stream >>= λ r. suffix_array h r.0 r.1

  -- The bytes that `astroBWTv3` hashes.
  unfoldable pub hashed_bytes : List ℕ → List ℕ
  unfolding sa_bytes put_entries
  hashed_bytes sa =
      if ext.little_endian
      then sa_bytes sa
      else take (length sa * 4) (put_entries 0 sa (replicate (max_length * 4) 0))

  -- `astroBWTv3`
  unfoldable pub astro_bwt_v3 : ℕ → List ℕ → HashScratch → Outcome (List ℕ)
  unfolding astro_bwt_v3_stream hashed_bytes
  astro_bwt_v3 fuel input h =
      astro_bwt_v3_stream fuel input h >>= λ sa. returned (ext.prim.sha256 (hashed_bytes sa))
