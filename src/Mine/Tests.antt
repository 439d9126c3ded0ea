-- ===== src/Mine/Tests.antt =====
-- The gate at concrete worlds and batches.
use dirtybird_go_gpu_miner.Prelude.{
  ℕ, ◌≡◌, refl, List, [], ◌∷◌, ◌++◌, true, false, none, inl, inr, arith, ltb, if◌then◌else◌,
  replicate, returned,
}
use dirtybird_go_gpu_miner.Word.{add64}
use dirtybird_go_gpu_miner.Miner.Target.{meets_target}
use dirtybird_go_gpu_miner.Miner.Hex.{encode_hex}
use dirtybird_go_gpu_miner.Mine.Gate.{
  room, tick, World, Submit, BatchCtx, Miner, wait_submit, process_batch, candidates, gate,
  submit_share,
}
use dirtybird_go_gpu_miner.Mine.Shares.{Sends, IsShare, process_batch-Sends}
use dirtybird_go_gpu_miner.Prelude.{
  get_or, some, ◌≢◌, take, length, subst, some-injective, Bool-cases, ◌==◌, ◌≤◌, ◌*◌,
}
use dirtybird_go_gpu_miner.Mine.Shares.{Yields}
use dirtybird_go_gpu_miner.Mine.Buffers.{IsLoop}
use dirtybird_go_gpu_miner.Mine.Streaming.{IsMined, mine_rounds-Sends, mine_loop_stream-Sends}
use dirtybird_go_gpu_miner.Mine.Running.{Answers, mine_rounds-Returns}
use dirtybird_go_gpu_miner.Mine.Batches.{nonce_of, fill_batch_distinct}
use dirtybird_go_gpu_miner.Mine.Loop.{
  hashes, Machine, Loop, fill_batch, mine_rounds, mine_loop_stream,
}
use dirtybird_go_gpu_miner.Mine.Progress.{
  Returns, Passes, shares, wait_submit-Returns, process_batch_complete, process_batch-Returns,
}

abbrev quiet : World
quiet = record { epoch = λ c. 1; connected = λ c. true; has_room = λ c. true; wake = λ c. room }

-- The mailbox stays full, and the job rotates after seven reads.
abbrev busy : World
busy = record {
  epoch = λ c. if ltb c 7 then 1 else 2;
  connected = λ c. true;
  has_room = λ c. false;
  wake = λ c. tick;
}

abbrev zeros : List ℕ → List ℕ
zeros blob = replicate 32 0

abbrev batch : BatchCtx
batch = record {
  blobs = (1 ∷ 2 ∷ []) ∷ (3 ∷ 4 ∷ []) ∷ [];
  jobid = b'a' ∷ [];
  target = replicate 32 0xff;
  epoch = 1;
}

-- The second hash is a miscompute.
abbrev returned_hashes : List (List ℕ)
returned_hashes = replicate 32 0 ∷ replicate 32 1 ∷ []

abbrev idle : Miner
idle = record {
  clock = 0;
  total_hashes = 0;
  submitted = 0;
  stale = 0;
  miscompute = 0;
  gate_stale = 0;
  reprobed = false;
  sent = [];
}

abbrev share : Submit
share = record { job_id = b'a' ∷ []; blob = encode_hex (1 ∷ 2 ∷ []) }

abbrev mined : Miner
mined = record {
  clock = 4;
  total_hashes = 2;
  submitted = 1;
  stale = 0;
  miscompute = 1;
  gate_stale = 0;
  reprobed = false;
  sent = share ∷ [];
}

batch_run : process_batch quiet zeros none 1 returned_hashes batch idle ≡ returned mined
unfolding process_batch candidates gate submit_share meets_target add64
batch_run = refl

no_probe : Passes none
no_probe probe e = absurd cc

process_batch-Sends_example : Sends (IsShare quiet zeros batch returned_hashes) idle mined
process_batch-Sends_example =
    process_batch-Sends quiet zeros none 1 returned_hashes batch idle mined batch_run

process_batch_complete_example :
    (m' : Miner) × (process_batch quiet zeros none 1 returned_hashes batch idle ≡ returned m')
    × (m'.sent ≡ [] ++ shares quiet zeros none batch batch.blobs returned_hashes)
process_batch_complete_example =
    process_batch_complete quiet zeros none 1 returned_hashes batch idle (λ c. refl) (λ c. refl)
      no_probe (omega arith)

process_batch-Returns_example :
    Returns (process_batch quiet zeros none 1 returned_hashes batch idle)
process_batch-Returns_example =
    process_batch-Returns quiet zeros none 1 returned_hashes batch idle
      (λ c. (0, omega arith, inl (λ e. cc))) no_probe (omega arith)

wait_submit-Returns_example : Returns (wait_submit busy zeros none 3 share 1 idle)
wait_submit-Returns_example =
    wait_submit-Returns busy zeros none 3 2 share 1 idle (omega arith)
      (inr (inl (λ e. ground arith)))

abbrev template : List ℕ
template = 0x41 ∷ replicate 47 0xab

-- A job from the start, two batches, and the end of the program; the GPU answers a batch late with
-- zero hashes.
abbrev machine : Machine
machine = record {
  job = λ t. record { blob = template; jobid = b'a' ∷ []; target = replicate 32 0xff; epoch = 1 };
  running = λ t. ltb t 3;
  draw = λ t. t * 7;
  submit = λ t blobs. if t == 1 then hashes none else hashes (some (replicate 32 0 ∷ []));
  drain = λ t. hashes (some (replicate 32 0 ∷ []));
}

abbrev first_loop : Loop
first_loop = record {
  miner = idle;
  nonce = 0;
  errs = 0;
  blobs_0 = replicate 48 0 ∷ [];
  blobs_1 = replicate 48 0 ∷ [];
  prev = none;
  bi = false;
  draws = 0;
}

first_loop-IsLoop : IsLoop machine first_loop
first_loop-IsLoop = record { sizes_0 = (refl, tt); sizes_1 = (refl, tt); in_flight = tt }

mine_rounds-Sends_example :
    Yields
      (λ l. Sends (IsMined quiet zeros machine) idle l.miner × IsLoop machine l)
      (mine_rounds quiet zeros none machine 2 1 first_loop)
mine_rounds-Sends_example =
    mine_rounds-Sends quiet zeros none machine (λ t. refl) 2 1 first_loop first_loop-IsLoop

mine_loop_stream-Sends_example :
    Yields
      (Sends (IsMined quiet zeros machine) idle)
      (mine_loop_stream quiet zeros none machine 9 1 first_loop)
mine_loop_stream-Sends_example =
    mine_loop_stream-Sends quiet zeros none machine (λ t. refl) 9 1 first_loop first_loop-IsLoop

answers : (t : ℕ) (blobs : List (List ℕ)) → Answers 1 (machine.submit t blobs)
answers t blobs = elim (Bool-cases (t == 1)) [
  | inl e ↦ rw e (none, refl, (λ p same. absurd cc))
  | inr e ↦ rw e (
    some (replicate 32 0 ∷ []),
    refl,
    (λ p same. subst (λ (xs : List (List ℕ)). 1 ≤ length xs) (some-injective same) (omega arith)),
  )
]

mine_rounds-Returns_example : Returns (mine_rounds quiet zeros none machine 2 1 first_loop)
mine_rounds-Returns_example =
    mine_rounds-Returns quiet zeros none machine 1 1 (λ epoch c. (0, omega arith, inl (λ e. cc)))
      no_probe answers 2 first_loop (refl, refl)

abbrev filled : List (List ℕ)
filled = fill_batch (λ t. t) template 0 5 (replicate 48 0 ∷ replicate 48 0 ∷ [])

abbrev at_filled : ℕ → List ℕ
at_filled i = get_or filled i []

fill_batch_distinct_example :
    (length (at_filled 0) ≡ 48)
    × (take 36 (at_filled 0) ≡ take 36 template)
    × (nonce_of (at_filled 0) ≡ 6)
    × (at_filled 0 ≢ at_filled 1)
unfolding fill_batch
fill_batch_distinct_example =
    fill_batch_distinct (λ t. t) template 0 5 (replicate 48 0 ∷ replicate 48 0 ∷ []) 0 1
      (at_filled 0) (at_filled 1) refl (refl, (refl, tt)) refl refl (omega arith) (omega arith)
