-- ===== src/Miner/Jobs.antt =====
-- What installing a pushed job does to the shared state.
use dirtybird_go_gpu_miner.Prelude.{
  ℕ, ◌<◌, ◌≡◌, ◌∙◌, ◌↔◌, ◌⊎◌, refl, ap, arith, List, Bool, true, false, Option, none, some, ◌==◌,
  bit_and, byte_at, length, same_bytes, same_bytes_refl, same_bytes_eq, IsBytes, Bool-cases, inl,
  inr,
}
use dirtybird_go_gpu_miner.Word.{add64}
use dirtybird_go_gpu_miner.Miner.Target.{compute_target}
use dirtybird_go_gpu_miner.Miner.Hex.{decode_hex, decode_hex-IsBytes}
use dirtybird_go_gpu_miner.Miner.State.{
  miniblock_size, Job, State, ok, err, JobError, bad_blob, bad_version, bad_diff, mirror, install,
  set_decoded, set_job,
}

-- A job with work in it: the blob is 96 hex digits of a version 1 miniblock, the difficulty not 0.
pub record IsWork (job : Job) (blob : List ℕ) : Type 0 where
  pub digits : decode_hex job.blockhashing_blob ≡ some blob
  pub size : length blob ≡ miniblock_size
  pub version : bit_and (byte_at blob 0) 0xf ≡ 1
  pub difficulty : 0 < job.difficulty

-- Either no job was installed yet, or the snapshot is one to mine on: a version 1 miniblock, and the
-- target of a difficulty above 0.
abbrev pub IsState : State → Type 0
IsState st =
    (st.epoch ≡ 0)
    ⊎ ((length st.blob ≡ miniblock_size)
        × IsBytes st.blob
        × (bit_and (byte_at st.blob 0) 0xf ≡ 1)
        × ((diff : ℕ) × (0 < diff) × (st.target ≡ compute_target diff)))

-- With work in the job, the tests pass.
pub set_job_work :
    (job : Job) (blob : List ℕ) (st : State)
    → IsWork job blob
    → set_job job st ≡ install job blob (mirror job st)
unfolding set_job set_decoded
set_job_work job blob st w =
    let text = (decode_hex-IsBytes job.blockhashing_blob blob w.digits).1 in
    let size = w.size in
    let positive = w.difficulty in
    let long : (length job.blockhashing_blob == 96) ≡ true = ground arith in
    let full : (length blob == 48) ≡ true = ground arith in
    let diff : (job.difficulty == 0) ≡ false = ground arith in
    rw (long, w.digits, full, w.version, diff) refl

set_decoded_cases :
    (job : Job) (st : State) (decoded : Option (List ℕ))
    → decode_hex job.blockhashing_blob ≡ decoded
    → ((blob : List ℕ) × IsWork job blob)
      ⊎ ((e : JobError) × (set_decoded job decoded st ≡ (err e, st)))
unfolding set_decoded
set_decoded_cases job st none e = inr (bad_blob, refl)
set_decoded_cases job st (some blob) e = elim (Bool-cases (length blob == 48)) [
  | inr e0 ↦ inr (bad_blob, rw e0 refl)
  | inl e0 ↦ elim (Bool-cases (bit_and (byte_at blob 0) 0xf == 1)) [
    | inr e1 ↦ inr (bad_version, rw (e0, e1) refl)
    | inl e1 ↦ elim (Bool-cases (job.difficulty == 0)) [
      | inl e2 ↦ inr (bad_diff, rw (e0, e1, e2) refl)
      | inr e2 ↦ inl (
        blob,
        record {
          digits = e;
          size = ground arith;
          version = ground arith;
          difficulty = ground arith;
        },
      )
    ]
  ]
]

-- Either the job has work, or an error leaves the state as it was.
pub set_job_cases :
    (job : Job) (st : State)
    → ((blob : List ℕ) × IsWork job blob) ⊎ ((e : JobError) × (set_job job st ≡ (err e, st)))
unfolding set_job
set_job_cases job st = elim (Bool-cases (length job.blockhashing_blob == 96)) [
  | inl e ↦ rw e (set_decoded_cases job st (decode_hex job.blockhashing_blob) refl)
  | inr e ↦ inr (bad_blob, rw e refl)
]

-- The state after new work.
abbrev installed : Job → List ℕ → State → State
installed job blob st = record st {
  blob = blob;
  jobid = job.job_id;
  target = compute_target job.difficulty;
  epoch = add64 st.epoch 1;
}

pub install_cases :
    (job : Job) (blob : List ℕ) (st : State)
    → ((blob ≡ st.blob) × (job.job_id ≡ st.jobid) × (install job blob st ≡ (ok false, st)))
      ⊎ (install job blob st ≡ (ok true, installed job blob st))
unfolding install
install_cases job blob st = elim (Bool-cases (same_bytes blob st.blob)) [
  | inr e ↦ inr (rw e refl)
  | inl e ↦ elim (Bool-cases (same_bytes job.job_id st.jobid)) [
    | inr e' ↦ inr (rw (e, e') refl)
    | inl e' ↦
        inl (same_bytes_eq blob st.blob e, same_bytes_eq job.job_id st.jobid e', rw (e, e') refl)
  ]
]

install_same :
    (job : Job) (blob : List ℕ) (st : State)
    → blob ≡ st.blob
    → job.job_id ≡ st.jobid
    → install job blob st ≡ (ok false, st)
unfolding install
install_same job blob st e e' = rw (e, e', same_bytes_refl st.blob, same_bytes_refl st.jobid) refl

pub install_ok :
    (job : Job) (blob : List ℕ) (st : State)
    → (changed : Bool) × ((install job blob st).0 ≡ ok changed)
install_ok job blob st = elim (install_cases job blob st) [
  | inl h ↦ (false, ap (λ r. r.0) h.2)
  | inr h ↦ (true, ap (λ r. r.0) h)
]

-- `SetJob` succeeds exactly on the jobs with work in them: the blob is the hex text of 48 bytes with
-- version nibble 1, and the difficulty is above 0.
pub set_job_ok_iff :
    (job : Job) (st : State)
    → ((changed : Bool) × ((set_job job st).0 ≡ ok changed)) ↔ ((blob : List ℕ) × IsWork job blob)
set_job_ok_iff job st = (
  (λ f. elim (set_job_cases job st) [ inl w ↦ w | inr h ↦ absurd cc ]),
  (λ w. rw (set_job_work job w.0 st w.1) (install_ok job w.0 (mirror job st))),
)

-- Where `SetJob` reports an error, the state stays as it was: no counter is mirrored.
pub set_job_err_keeps :
    (job : Job) (st : State) (e : JobError) → (set_job job st).0 ≡ err e → (set_job job st).1 ≡ st
set_job_err_keeps job st e h = elim (set_job_cases job st) [
  | inr h' ↦ ap (λ r. r.1) h'.1
  | inl w ↦
      let found = install_ok job w.0 (mirror job st) in
      let reply = ap (λ r. r.0) (set_job_work job w.0 st w.1) in absurd cc
]

-- Every push, of whatever job, keeps this of the state: either the epoch is 0, or the blob is 48
-- bytes with version nibble 1 and the target is that of some difficulty above 0.
pub set_job-IsState : (job : Job) (st : State) → IsState st → IsState (set_job job st).1
unfolding mirror
set_job-IsState job st h = elim (set_job_cases job st) [
  | inr h' ↦ rw (h'.1) h
  | inl w ↦ rw (set_job_work job w.0 st w.1) (elim (install_cases job w.0 (mirror job st)) [
    | inl same ↦ rw (same.2) h
    | inr new ↦ rw new (
        inr (
          w.1.size,
          (decode_hex-IsBytes job.blockhashing_blob w.0 w.1.digits).0,
          w.1.version,
          (job.difficulty, w.1.difficulty, refl),
        ))
  ])
]

-- After a push with work in it, a second one with work, the same blob and the same job id reports no
-- change, whatever its difficulty: blob, job id, target and epoch stay those the first push left,
-- height, difficulty and the three block counters are the second push's, and the miner's own counters
-- stay those from before both.
pub set_job_repush :
    (job again : Job) (blob : List ℕ) (st : State)
    → IsWork job blob
    → IsWork again blob
    → again.job_id ≡ job.job_id
    → set_job again (set_job job st).1 ≡ (
      ok false,
      record {
        blob = blob;
        jobid = job.job_id;
        target = (set_job job st).1.target;
        epoch = (set_job job st).1.epoch;
        height = again.height;
        diff = again.difficulty;
        total_hashes = st.total_hashes;
        submitted = st.submitted;
        stale = st.stale;
        miscompute = st.miscompute;
        gate_stale = st.gate_stale;
        blocks = again.blocks;
        mini_blocks = again.mini_blocks;
        rejected = again.rejected;
      },
    )
unfolding mirror
set_job_repush job again blob st w w' same =
    rw (set_job_work job blob st w) (elim (install_cases job blob (mirror job st)) [
      | inl old ↦ rw (old.2) (
          set_job_work again blob (mirror job st) w'
          ∙ install_same again blob (mirror again (mirror job st)) old.0 (same ∙ old.1)
          ∙ rw (old.0, old.1) refl)
      | inr new ↦ rw new (
          set_job_work again blob (installed job blob (mirror job st)) w'
          ∙ install_same again blob (mirror again (installed job blob (mirror job st))) refl same)
    ])
