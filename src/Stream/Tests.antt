-- ===== src/Stream/Tests.antt =====
-- The theorems on the wolf loops at toy hash functions and a fresh scratch buffer.
use dirtybird_go_gpu_miner.Prelude.{
  ℕ, ◌+◌, ◌*◌, ◌≤◌, ◌<◌, ◌≡◌, List, [], ◌∷◌, arith, length, length-replicate, replicate, take,
  returned,
}
use dirtybird_go_gpu_miner.Primitives.Sample.{toy, toy-Documented}
use dirtybird_go_gpu_miner.Stream.Mix.{window, max_length}
use dirtybird_go_gpu_miner.Stream.Round.{Scratch, astro_stream}
use dirtybird_go_gpu_miner.Stream.Table.{written, wolf_stream_into}
use dirtybird_go_gpu_miner.Stream.Positions.{window_bounds}
use dirtybird_go_gpu_miner.Stream.Total.{IsScratch, astro_stream_returns}
use dirtybird_go_gpu_miner.Stream.Agree.{wolf_stream_into_agrees}

abbrev input : List ℕ
input = b'a' ∷ []

abbrev fresh_scratch : Scratch
fresh_scratch = record {
  text = replicate (max_length + 64) 0;
  markers = replicate 280 0;
  n_templates = 0;
}

abbrev buffer : List ℕ
buffer = replicate max_length 0xee

fresh-IsScratch : IsScratch fresh_scratch
fresh-IsScratch = record {
  text_size = length-replicate {A = ℕ} (max_length + 64) 0;
  markers_size = length-replicate {A = ℕ} 280 0;
}

buffer-room : max_length ≤ length buffer
buffer-room = omega (arith, length-replicate {A = ℕ} max_length 0xee)

window_bounds_example :
    ((window 0x12f305).pos1 ≤ (window 0x12f305).pos2)
    × ((window 0x12f305).pos2 ≤ 255)
    × ((window 0x12f305).pos2 ≤ (window 0x12f305).pos1 + 32)
window_bounds_example = window_bounds 0x12f305

astro_stream_returns_example :
    (out : Scratch) × (len : ℕ) × (astro_stream toy 277 input fresh_scratch ≡ returned (out, len))
    × IsScratch out
    × (257 * 256 ≤ len)
    × (len < max_length)
    × (1 ≤ out.n_templates)
    × (out.n_templates ≤ 277)
astro_stream_returns_example =
    astro_stream_returns toy toy-Documented input fresh_scratch fresh-IsScratch

wolf_stream_into_agrees_example :
    (scratch' : Scratch) × (out' : List ℕ) × (len : ℕ) × (astro_stream toy 277 input fresh_scratch
      ≡ returned (scratch', len))
    × (wolf_stream_into toy 277 input buffer ≡ returned (written out' len))
    × (take len scratch'.text ≡ take len out')
wolf_stream_into_agrees_example =
    wolf_stream_into_agrees toy toy-Documented input fresh_scratch buffer fresh-IsScratch
      buffer-room
