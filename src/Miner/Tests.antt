-- ===== src/Miner/Tests.antt =====
-- The job state and the target test at concrete inputs.
use dirtybird_go_gpu_miner.Prelude.{
  ℕ, ◌*◌, ◌^◌, ◌≤◌, ◌≡◌, ◌≢◌, ◌↔◌, refl, List, [], ◌∷◌, Bool, true, false, inl, arith, replicate,
  same_bytes,
}
use dirtybird_go_gpu_miner.Miner.Target.{compute_target, meets_target}
use dirtybird_go_gpu_miner.Miner.Difficulty.{
  le_value, be_value, meets_target-iff-le, meets-compute_target, meets-compute_target_zero,
}
use dirtybird_go_gpu_miner.Miner.Hex.{encode_hex, decode_hex, decode_hex-encode_hex}
use dirtybird_go_gpu_miner.Miner.State.{Job, State, ok, bad_blob, set_job}
use dirtybird_go_gpu_miner.Miner.Jobs.{
  IsWork, IsState, set_job_ok_iff, set_job_err_keeps, set_job-IsState, set_job_repush,
}
use dirtybird_go_gpu_miner.Miner.History.{
  pushed, works, opener, changes, described, pushed-described, set_job_changed_iff,
}

abbrev header : List ℕ
header = 0x41 ∷ replicate 47 0xab

abbrev first_job : Job
first_job = record {
  job_id = b'a' ∷ [];
  blockhashing_blob = encode_hex header;
  difficulty = 1000;
  height = 7;
  blocks = 1;
  mini_blocks = 2;
  rejected = 0;
}

abbrev harder_job : Job
harder_job = record first_job { difficulty = 2000 }

abbrev empty_job : Job
empty_job = record first_job { blockhashing_blob = [] }

abbrev new_state : State
new_state = record {
  blob = replicate 48 0;
  jobid = [];
  target = replicate 32 0;
  epoch = 0;
  height = 0;
  diff = 0;
  total_hashes = 0;
  submitted = 0;
  stale = 0;
  miscompute = 0;
  gate_stale = 0;
  blocks = 0;
  mini_blocks = 0;
  rejected = 0;
}

first_job-IsWork : IsWork first_job header
first_job-IsWork = record {
  digits = decode_hex-encode_hex header (omega arith);
  size = refl;
  version = refl;
  difficulty = omega arith;
}

harder_job-IsWork : IsWork harder_job header
harder_job-IsWork = record {
  digits = decode_hex-encode_hex header (omega arith);
  size = refl;
  version = refl;
  difficulty = omega arith;
}

meets_target-iff-le_example :
    (meets_target (replicate 32 1) (replicate 32 2) ≡ true)
    ↔ (le_value (replicate 32 1) 32 ≤ be_value (replicate 32 2) 32)
meets_target-iff-le_example =
    meets_target-iff-le (replicate 32 1) (replicate 32 2) (omega arith) (omega arith)

meets-compute_target_example :
    (meets_target (replicate 32 1) (compute_target 3) ≡ true)
    ↔ (le_value (replicate 32 1) 32 * 3 ≤ 2 ^ 256)
meets-compute_target_example = meets-compute_target (replicate 32 1) 3 (omega arith) (omega arith)

meets-compute_target_zero_example :
    (meets_target (replicate 32 0) (compute_target 0) ≡ true) ↔ (le_value (replicate 32 0) 32 ≡ 0)
meets-compute_target_zero_example = meets-compute_target_zero (replicate 32 0) (omega arith)

set_job_ok_iff_example :
    ((changed : Bool) × ((set_job first_job new_state).0 ≡ ok changed))
    ↔ ((blob : List ℕ) × IsWork first_job blob)
set_job_ok_iff_example = set_job_ok_iff first_job new_state

set_job_err_keeps_example : (set_job empty_job new_state).1 ≡ new_state
unfolding set_job
set_job_err_keeps_example = set_job_err_keeps empty_job new_state bad_blob refl

set_job-IsState_example : IsState (set_job first_job new_state).1
set_job-IsState_example = set_job-IsState first_job new_state (inl refl)

set_job_repush_example : set_job harder_job (set_job first_job new_state).1 ≡ (
  ok false,
  record {
    blob = header;
    jobid = b'a' ∷ [];
    target = (set_job first_job new_state).1.target;
    epoch = (set_job first_job new_state).1.epoch;
    height = 7;
    diff = 2000;
    total_hashes = 0;
    submitted = 0;
    stale = 0;
    miscompute = 0;
    gate_stale = 0;
    blocks = 1;
    mini_blocks = 2;
    rejected = 0;
  },
)
set_job_repush_example =
    set_job_repush first_job harder_job header new_state first_job-IsWork harder_job-IsWork refl

abbrev next_job : Job
next_job = record first_job { job_id = b'b' ∷ []; difficulty = 3000 }

-- Two stretches of work, the second of two pushes, with a push without work between them.
abbrev pushes : List Job
pushes = record next_job { difficulty = 4000 } ∷ empty_job ∷ next_job ∷ harder_job ∷ first_job ∷ []

pushes_epoch : (described (works pushes) new_state).epoch ≡ 2
unfolding described changes works same_bytes decode_hex encode_hex
pushes_epoch = refl

pushes_opener : (described (works pushes) new_state).target ≡ compute_target 3000
unfolding described opener works same_bytes compute_target decode_hex encode_hex
pushes_opener = refl

pushed-described_example : pushed pushes new_state ≡ described (works pushes) new_state
pushed-described_example = pushed-described pushes new_state (λ e. cc)

set_job_changed_iff_example :
    ((set_job first_job new_state).0 ≡ ok true)
    ↔ ((set_job first_job new_state).1.epoch ≢ new_state.epoch)
set_job_changed_iff_example = set_job_changed_iff first_job new_state (omega arith)
