-- ===== src/Getwork/Tests.antt =====
-- The backoff of a client whose daemon comes and goes.
use dirtybird_go_gpu_miner.Prelude.{ℕ, ◌*◌, ◌^◌, ◌≡◌, refl, List, [], ◌∷◌}
use dirtybird_go_gpu_miner.Getwork.Backoff.{
  initial_backoff, doubled, waits, expected_waits, waits-expected_waits,
}

-- Five failures, a connection with 7 jobs, a failure.
abbrev connections : List ℕ
connections = 0 ∷ 0 ∷ 0 ∷ 0 ∷ 0 ∷ 7 ∷ 0 ∷ []

waits_run :
    waits initial_backoff connections
    ≡ 1 * 10 ^ 9 ∷ 2 * 10 ^ 9 ∷ 4 * 10 ^ 9 ∷ 8 * 10 ^ 9 ∷ 15 * 10 ^ 9 ∷ 1 * 10 ^ 9 ∷ []
unfolding waits doubled
waits_run = refl

waits-expected_waits_example : waits initial_backoff connections ≡ expected_waits 0 connections
waits-expected_waits_example = waits-expected_waits connections
