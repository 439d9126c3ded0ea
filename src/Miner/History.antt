-- ===== src/Miner/History.antt =====
-- The shared job state after any sequence of pushes, beside a description of the sequence: the hex
-- decoding, the comparison of byte strings and the target of a difficulty are all that it shares with
-- `SetJob`.
use dirtybird_go_gpu_miner.Prelude.{
  ℕ, ◌+◌, ◌%◌, ◌^◌, ◌<◌, ◌↔◌, ◌≡◌, ◌≢◌, ◌∙◌, ◌⊎◌, refl, sym, ap, arith, List, [], ◌∷◌, Bool, true,
  false, Option, none, some, ◌==◌, ◌&&◌, not, if◌then◌else◌, bit_and, byte_at, length, same_bytes,
  same_bytes_eq, Bool-cases, inl, inr,
}
use dirtybird_go_gpu_miner.Word.{add64}
use dirtybird_go_gpu_miner.Miner.Target.{compute_target}
use dirtybird_go_gpu_miner.Miner.Hex.{decode_hex}
use dirtybird_go_gpu_miner.Miner.State.{Job, State, JobError, ok, err, mirror, install, set_job}
use dirtybird_go_gpu_miner.Miner.Jobs.{
  IsWork, set_job_cases, set_job_work, install_ok, install_cases,
}

-- The state after some pushes, the latest first.
unfoldable pub pushed : List Job → State → State
unfolding set_job
pushed [] st = st
pushed (job ∷ jobs) st = (set_job job (pushed jobs st)).1

-- A job with work in it, and its blob.
pub record Work : Type 0 where
  pub job : Job
  pub blob : List ℕ

unfoldable has_work : Job → List ℕ → Bool
has_work job blob =
    length blob == 48 && (bit_and (byte_at blob 0) 0xf == 1 && not (job.difficulty == 0))

unfoldable add_work : Job → Option (List ℕ) → List Work → List Work
unfolding has_work
add_work job none ws = ws
add_work job (some blob) ws =
    if has_work job blob then record { job = job; blob = blob } ∷ ws else ws

-- The pushes with work in them.
unfoldable pub works : List Job → List Work
unfolding add_work
works [] = []
works (job ∷ jobs) = add_work job (decode_hex job.blockhashing_blob) (works jobs)

-- The same work is the same blob under the same job id.
unfoldable same_work : Work → Work → Bool
same_work w v = same_bytes w.blob v.blob && same_bytes w.job.job_id v.job.job_id

-- The push that the stretch of the same work began with.
unfoldable pub opener : Work → List Work → Work
unfolding same_work
opener w [] = w
opener w (v ∷ ws) = let first = opener v ws in if same_work w v then first else w

-- How often the work changed.
unfoldable pub changes : Work → List Work → ℕ
unfolding same_work
changes w [] = 1
changes w (v ∷ ws) = let before = changes v ws in if same_work w v then before else before + 1

-- The state that a sequence of pushes with work, the latest first, is to leave.
unfoldable pub described : List Work → State → State
unfolding opener changes
described [] start = start
described (w ∷ ws) start = record {
  blob = w.blob;
  jobid = w.job.job_id;
  target = compute_target (opener w ws).job.difficulty;
  epoch = (start.epoch + changes w ws) % 2 ^ 64;
  height = w.job.height;
  diff = w.job.difficulty;
  total_hashes = start.total_hashes;
  submitted = start.submitted;
  stale = start.stale;
  miscompute = start.miscompute;
  gate_stale = start.gate_stale;
  blocks = w.job.blocks;
  mini_blocks = w.job.mini_blocks;
  rejected = w.job.rejected;
}

IsWork-has_work : (job : Job) (blob : List ℕ) → IsWork job blob → has_work job blob ≡ true
unfolding has_work
IsWork-has_work job blob w =
    let size = w.size in
    let positive = w.difficulty in
    let full : (length blob == 48) ≡ true = ground arith in
    let diff : (job.difficulty == 0) ≡ false = ground arith in rw (full, w.version, diff) refl

has_work-IsWork :
    (job : Job) (blob : List ℕ)
    → decode_hex job.blockhashing_blob ≡ some blob
    → has_work job blob ≡ true
    → IsWork job blob
unfolding has_work
has_work-IsWork job blob e h = record {
  digits = e;
  size = ground arith;
  version = ground arith;
  difficulty = ground arith;
}

-- A push without work changes nothing; one with work reaches `install`.
set_job-add_work :
    (job : Job) (ws : List Work) (st : State)
    → ((add_work job (decode_hex job.blockhashing_blob) ws ≡ ws) × ((set_job job st).1 ≡ st))
      ⊎ ((blob : List ℕ) × IsWork job blob
          × (add_work job (decode_hex job.blockhashing_blob) ws
              ≡ record { job = job; blob = blob } ∷ ws)
          × ((set_job job st).1 ≡ (install job blob (mirror job st)).1))
unfolding add_work
set_job-add_work job ws st = elim (set_job_cases job st) [
  | inl w ↦ inr (
    w.0,
    w.1,
    rw (w.1.digits, IsWork-has_work job w.0 w.1) refl,
    ap (λ r. r.1) (set_job_work job w.0 st w.1),
  )
  | inr h ↦ inl (no_work h.0 h.1 (decode_hex job.blockhashing_blob) refl, ap (λ r. r.1) h.1)
]
  where
    no_work :
        (e : JobError)
        → set_job job st ≡ (err e, st)
        → (decoded : Option (List ℕ)) → decode_hex job.blockhashing_blob ≡ decoded
        → add_work job decoded ws ≡ ws
    no_work err_ h none e = refl
    no_work err_ h (some blob) e = elim (Bool-cases (has_work job blob)) [
      | inr none_ ↦ rw none_ refl
      | inl some_ ↦
          let w = has_work-IsWork job blob e some_ in
          let found = install_ok job blob (mirror job st) in
          let reply = ap (λ r. r.0) (set_job_work job blob st w) in
          let refused = ap (λ r. r.0) h in absurd cc
    ]

same_work_lem :
    (w v : Work) → same_work w v ≡ true → (w.blob ≡ v.blob) × (w.job.job_id ≡ v.job.job_id)
unfolding same_work
same_work_lem w v h = (
  same_bytes_eq w.blob v.blob (ground arith),
  same_bytes_eq w.job.job_id v.job.job_id (ground arith),
)

-- New work on top of what the earlier pushes left.
install-described :
    (w : Work) (ws : List Work) (start : State)
    → IsWork w.job w.blob
    → bit_and (byte_at start.blob 0) 0xf ≢ 1
    → (install w.job w.blob (mirror w.job (described ws start))).1 ≡ described (w ∷ ws) start
unfolding mirror described add64 opener changes install same_work
install-described w [] start has fresh = elim (install_cases w.job w.blob (mirror w.job start)) [
  | inl same ↦ absurd (fresh (ap (λ b. bit_and (byte_at b 0) 0xf) (sym same.0) ∙ has.version))
  | inr new ↦ rw new refl
]
install-described w (v ∷ ws) start has fresh = elim (Bool-cases (same_work w v)) [
  | inl same ↦ let eqs = same_work_lem w v same in rw (same, eqs.0, eqs.1) refl
  | inr other ↦
      rw other (ap (λ epoch. record (described (w ∷ []) start) { epoch = epoch }) (omega arith))
]

-- Whatever jobs were pushed, in whatever order, onto a state whose blob does not have version nibble 1
-- (so that no job was installed yet), the state is the one that the description of the sequence names,
-- field by field. Only the pushes with work in them count, that is, whose blob is the hex text of 48
-- bytes with version nibble 1 and whose difficulty is not 0. Blob, job id, height, difficulty and the
-- three block counters are the latest such push's; the target is for the difficulty of the push that
-- opened the latest stretch of the same blob and job id; the epoch has grown, modulo 2 ^ 64, by the
-- number of stretches; the miner's own counters stay. With no such push the state stays as it was.
pub pushed-described :
    (jobs : List Job) (start : State)
    → bit_and (byte_at start.blob 0) 0xf ≢ 1
    → pushed jobs start ≡ described (works jobs) start
unfolding pushed works described
pushed-described [] start fresh = refl
pushed-described (job ∷ jobs) start fresh =
    let before = pushed-described jobs start fresh in
    elim (set_job-add_work job (works jobs) (pushed jobs start)) [
      | inl h ↦ rw (h.0, h.1) before
      | inr h ↦
          h.3
          ∙ ap (λ st. (install job h.0 (mirror job st)).1) before
          ∙ install-described (record { job = job; blob = h.0 }) (works jobs) start h.1 fresh
          ∙ ap (λ ws. described ws start) (sym h.2)
    ]

-- From an epoch below 2 ^ 64, `SetJob` reports a change exactly when it moves the epoch.
pub set_job_changed_iff :
    (job : Job) (st : State)
    → st.epoch < 2 ^ 64
    → ((set_job job st).0 ≡ ok true) ↔ ((set_job job st).1.epoch ≢ st.epoch)
unfolding mirror add64
set_job_changed_iff job st small = elim (set_job_cases job st) [
  | inr h ↦ rw (h.1) ((λ e. absurd cc), (λ moved. absurd (moved refl)))
  | inl w ↦ rw (set_job_work job w.0 st w.1) (elim (install_cases job w.0 (mirror job st)) [
    | inl same ↦ rw (same.2) ((λ e. absurd cc), (λ moved. absurd (moved refl)))
    | inr new ↦ rw new ((λ e e'. omega arith), (λ moved. refl))
  ])
]
