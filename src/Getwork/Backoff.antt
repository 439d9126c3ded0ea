-- ===== src/Getwork/Backoff.antt =====
-- `Client.Run`: how long it waits between connections. A connection is what it delivered, a number of
-- jobs; durations are in nanoseconds.
use dirtybird_go_gpu_miner.Prelude.{
  ℕ, ◌+◌, ◌*◌, ◌^◌, ◌≡◌, refl, ap, ◌∙◌, arith, min, List, [], ◌∷◌, ltb, if◌then◌else◌, Bool-cases,
  inl, inr,
}
use native.Mathlib.Nat.{pow-suc}

abbrev pub initial_backoff : ℕ
initial_backoff = 10 ^ 9

abbrev pub max_backoff : ℕ
max_backoff = 15 * 10 ^ 9

-- `backoff *= 2; if backoff > maxBackoff { backoff = maxBackoff }`
unfoldable pub doubled : ℕ → ℕ
doubled backoff = if ltb max_backoff (backoff * 2) then max_backoff else backoff * 2

-- The loop of `Run`, not cancelled, over the jobs that the connections delivered: the waits in order.
-- After a live connection it redials at once.
unfoldable pub waits : ℕ → List ℕ → List ℕ
unfolding doubled
waits backoff [] = []
waits backoff (jobs ∷ later) =
    let redial = waits initial_backoff later in
    let retry = waits (doubled backoff) later in if ltb 0 jobs then redial else backoff ∷ retry

-- The wait after a run of failures: it doubles up to the cap.
abbrev pub capped : ℕ → ℕ
capped failures = min (2 ^ failures * initial_backoff) max_backoff

-- The same waits from the count of failures since the start or the last live connection.
abbrev pub expected_waits : ℕ → List ℕ → List ℕ
expected_waits failures [] = []
expected_waits failures (jobs ∷ later) =
    let redial = expected_waits 0 later in
    let retry = expected_waits (failures + 1) later in
    if ltb 0 jobs then redial else capped failures ∷ retry

doubled-capped : (failures : ℕ) → doubled (capped failures) ≡ capped (failures + 1)
unfolding doubled
doubled-capped failures =
    let power : 2 ^ (failures + 1) ≡ 2 * 2 ^ failures =
      ap (λ (n : ℕ). 2 ^ n) (omega arith) ∙ pow-suc 2 failures ∙ omega arith in
    rw power (ground arith)

waits_from :
    (failures : ℕ) (connections : List ℕ)
    → waits (capped failures) connections ≡ expected_waits failures connections
unfolding waits
waits_from failures [] = refl
waits_from failures (jobs ∷ later) = elim (Bool-cases (ltb 0 jobs)) [
  | inl e ↦ rw e (waits_from 0 later)
  | inr e ↦ rw e (
      ap (λ rest. capped failures ∷ rest)
        (ap (λ b. waits b later) (doubled-capped failures) ∙ waits_from (failures + 1) later))
]

-- For every sequence of connections `Run` waits exactly after those that delivered no job, and where
-- `n` such connections in a row stand before one, for 2 ^ n seconds, but at most 15.
pub waits-expected_waits :
    (connections : List ℕ) → waits initial_backoff connections ≡ expected_waits 0 connections
waits-expected_waits connections = waits_from 0 connections
