-- ===== src/Mine/Gate.antt =====
-- cmd/go-gpu-miner/main.go, from classify to submitShare: the gate every share passes. What the
-- other goroutines do shows in what this one reads, so the reads are numbered by a clock: the epoch
-- that job pushes bump, the daemon link, the room in the mailbox and the select that wakes up.
use dirtybird_go_gpu_miner.Prelude.{
  ℕ, zero, suc, ◌+◌, List, [], ◌∷◌, ◌++◌, Bool, true, Option, none, some, ◌==◌, if◌then◌else◌,
  length, same_bytes, Outcome, returned, panicked, out_of_fuel, ◌>>=◌, not,
}
use dirtybird_go_gpu_miner.Word.{add64}
use dirtybird_go_gpu_miner.Miner.Target.{meets_target}
use dirtybird_go_gpu_miner.Miner.Hex.{encode_hex}

-- What wakes the second select of `submitShare`.
pub data Wake : Type 0 where
  room tick cancelled : Wake

-- What is seen at each point of the clock: `Epoch()`, `connected()`, whether the first send of
-- `submitShare` finds room, and the wakeup of the second select.
pub record World : Type 0 where
  pub epoch : ℕ → ℕ
  pub connected : ℕ → Bool
  pub has_room : ℕ → Bool
  pub wake : ℕ → Wake

-- `Submit`
pub record Submit : Type 0 where
  pub job_id : List ℕ
  pub blob : List ℕ

-- `batchCtx`
pub record BatchCtx : Type 0 where
  pub blobs : List (List ℕ)
  pub jobid : List ℕ
  pub target : List ℕ
  pub epoch : ℕ

-- What the loops change: the clock, the counters of the state (uint64), the re-probe flag, and the
-- shares sent to the mailbox so far, in order.
pub record Miner : Type 0 where
  pub clock : ℕ
  pub total_hashes : ℕ
  pub submitted : ℕ
  pub stale : ℕ
  pub miscompute : ℕ
  pub gate_stale : ℕ
  pub reprobed : Bool
  pub sent : List Submit

pub data GateOutcome : Type 0 where
  gate_submit gate_stale gate_miscompute : GateOutcome

-- `classify`
abbrev pub classify : ℕ → ℕ → Bool → GateOutcome
classify epoch_now epoch_built rehash_ok =
    if not (epoch_now == epoch_built)
    then gate_stale
    else if not rehash_ok
    then gate_miscompute
    else gate_submit

-- One read of the world: the clock goes on.
abbrev pub after_read : Miner → Miner
after_read m = record m { clock = m.clock + 1 }

abbrev pub send : Submit → Miner → Miner
send share m = record m { submitted = add64 m.submitted 1; sent = m.sent ++ (share ∷ []) }

abbrev pub abandon : Miner → Miner
abandon m = record m { stale = add64 m.stale 1 }

-- `astrobwt.Sum`, and `SelfTest` where there is a pipeline: whether the check passed with no error.
module _ (world : World) (sum : List ℕ → List ℕ) (self_test : Option (ℕ → Bool)) where
  -- A tick of the second select; `wait` is the loop's next round.
  unfoldable pub on_tick : ℕ → Miner → (Miner → Outcome Miner) → Outcome Miner
  on_tick epoch m wait =
      if not (world.epoch m.clock == epoch)
      then returned (abandon (after_read m))
      else if not (world.connected (m.clock + 1))
      then returned (abandon (after_read (after_read m)))
      else wait (after_read (after_read m))

  -- The loop around the second select of `submitShare`.
  unfoldable pub wait_submit : ℕ → Submit → ℕ → Miner → Outcome Miner
  unfolding on_tick
  wait_submit zero share epoch m = out_of_fuel
  wait_submit (suc fuel) share epoch m = elim (world.wake m.clock) [
    | room ↦ returned (send share (after_read m))
    | tick ↦ on_tick epoch (after_read m) (λ m'. wait_submit fuel share epoch m')
    | cancelled ↦ returned (after_read m)
  ]

  -- `submitShare`
  unfoldable pub submit_share : ℕ → List ℕ → List ℕ → ℕ → Miner → Outcome Miner
  unfolding wait_submit
  submit_share fuel blob jobid epoch m =
      let share : Submit = record { job_id = jobid; blob = encode_hex blob } in
      if world.has_room m.clock
      then returned (send share (after_read m))
      else wait_submit fuel share epoch (after_read m)

  -- `onMiscompute`: a re-probe that fails ends the process.
  unfoldable pub on_miscompute : Miner → Outcome Miner
  on_miscompute m = elim self_test [
    | none ↦ returned m
    | some probe ↦
        if m.reprobed
        then returned m
        else if probe m.clock
        then returned (record (after_read m) { reprobed = true })
        else panicked
  ]

  -- One candidate that meets the target; `next` is the rest of the loop.
  unfoldable pub gate :
      ℕ → BatchCtx → List ℕ → List ℕ → (Miner → Outcome Miner) → Miner → Outcome Miner
  unfolding same_bytes on_miscompute submit_share
  gate fuel b blob pow next m =
      elim (classify (world.epoch m.clock) b.epoch (same_bytes (sum blob) pow)) [
        | gate_stale ↦ returned (record (after_read m) { gate_stale = add64 m.gate_stale 1 })
        | gate_miscompute ↦
            on_miscompute (record (after_read m) { miscompute = add64 m.miscompute 1 }) >>= next
        | gate_submit ↦ submit_share fuel blob b.jobid b.epoch (after_read m) >>= next
      ]

  -- The loop of `processBatch`; the hashes are read by the same index as the blobs.
  unfoldable pub candidates : ℕ → BatchCtx → List (List ℕ) → List (List ℕ) → Miner → Outcome Miner
  unfolding gate
  candidates fuel b [] pows m = returned m
  candidates fuel b (blob ∷ blobs) [] m = panicked
  candidates fuel b (blob ∷ blobs) (pow ∷ pows) m =
      if meets_target pow b.target
      then gate fuel b blob pow (λ m'. candidates fuel b blobs pows m') m
      else candidates fuel b blobs pows m

  -- `processBatch`
  unfoldable pub process_batch : ℕ → List (List ℕ) → BatchCtx → Miner → Outcome Miner
  unfolding candidates
  process_batch fuel pows b m =
      let counted = record m { total_hashes = add64 m.total_hashes (length b.blobs) } in
      if not (world.epoch m.clock == b.epoch)
      then returned (after_read counted)
      else candidates fuel b b.blobs pows (after_read counted)
