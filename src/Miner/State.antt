-- ===== src/Miner/State.antt =====
-- internal/miner/state.go: the job state that the workers share, and the installing of a pushed job
-- (the record of internal/getwork/types.go, less the two strings that nothing reads).
use dirtybird_go_gpu_miner.Prelude.{
  ℕ, ◌*◌, List, Bool, true, false, Option, none, some, ◌==◌, ◌&&◌, if◌then◌else◌, bit_and, byte_at,
  length, same_bytes,
}
use dirtybird_go_gpu_miner.Word.{add64}
use dirtybird_go_gpu_miner.Miner.Target.{compute_target}
use dirtybird_go_gpu_miner.Miner.Hex.{decode_hex}

abbrev pub miniblock_size : ℕ
miniblock_size = 48

pub data JobError : Type 0 where
  bad_blob bad_version bad_diff : JobError

-- `Job`; the strings are lists of bytes, the numbers uint64.
pub record Job : Type 0 where
  pub job_id : List ℕ
  pub blockhashing_blob : List ℕ
  pub difficulty : ℕ
  pub height : ℕ
  pub blocks : ℕ
  pub mini_blocks : ℕ
  pub rejected : ℕ

-- `State`
pub record State : Type 0 where
  pub blob : List ℕ
  pub jobid : List ℕ
  pub target : List ℕ
  pub epoch : ℕ
  pub height : ℕ
  pub diff : ℕ
  pub total_hashes : ℕ
  pub submitted : ℕ
  pub stale : ℕ
  pub miscompute : ℕ
  pub gate_stale : ℕ
  pub blocks : ℕ
  pub mini_blocks : ℕ
  pub rejected : ℕ

-- The two results `(changed, err)` of `SetJob`.
pub data Reply : Type 0 where
  ok : Bool → Reply
  err : JobError → Reply

-- The daemon's counters are stored for every job that passes the tests.
unfoldable pub mirror : Job → State → State
mirror job st = record st {
  height = job.height;
  diff = job.difficulty;
  blocks = job.blocks;
  mini_blocks = job.mini_blocks;
  rejected = job.rejected;
}

-- The part of `SetJob` under the lock.
unfoldable pub install : Job → List ℕ → State → Reply × State
unfolding same_bytes add64
install job blob st =
    if same_bytes blob st.blob && same_bytes job.job_id st.jobid then (ok false, st) else (
      ok true,
      record st {
        blob = blob;
        jobid = job.job_id;
        target = compute_target job.difficulty;
        epoch = add64 st.epoch 1;
      },
    )

-- `SetJob` from the decoded blob on.
unfoldable pub set_decoded : Job → Option (List ℕ) → State → Reply × State
unfolding install mirror
set_decoded job none st = (err bad_blob, st)
set_decoded job (some blob) st =
    if length blob == miniblock_size
    then (if bit_and (byte_at blob 0) 0xf == 1
        then (if job.difficulty == 0 then (err bad_diff, st) else install job blob (mirror job st))
        else (err bad_version, st))
    else (err bad_blob, st)

-- `SetJob`
unfoldable pub set_job : Job → State → Reply × State
unfolding set_decoded
set_job job st =
    if length job.blockhashing_blob == miniblock_size * 2
    then set_decoded job (decode_hex job.blockhashing_blob) st
    else (err bad_blob, st)

-- `Job`: the snapshot of the work.
pub record Snapshot : Type 0 where
  pub blob : List ℕ
  pub jobid : List ℕ
  pub target : List ℕ
  pub epoch : ℕ

unfoldable pub snapshot : State → Snapshot
snapshot st = record { blob = st.blob; jobid = st.jobid; target = st.target; epoch = st.epoch }
