-- ===== src/Mine/Loop.antt =====
-- cmd/go-gpu-miner/main.go: fillBatch, rndFill and mineLoopStream, which verifies each batch one
-- iteration late, in two buffers by turns. The jobs, the random bytes, the end of the program and the
-- GPU are functions of the clock.
use dirtybird_go_gpu_miner.Prelude.{
  ℕ, zero, suc, ◌+◌, ◌*◌, ◌/◌, ◌%◌, ◌^◌, List, [], ◌∷◌, Bool, true, false, Option, none, some, leb,
  ◌==◌, if◌then◌else◌, not, length, copy_at, replicate, Outcome, returned, panicked, out_of_fuel,
  ◌>>=◌,
}
use dirtybird_go_gpu_miner.Word.{u32}
use dirtybird_go_gpu_miner.Miner.State.{Snapshot, miniblock_size}
use dirtybird_go_gpu_miner.Mine.Gate.{World, BatchCtx, Miner, after_read, process_batch}

-- `binary.BigEndian.PutUint32`: the four bytes.
unfoldable pub be32 : ℕ → List ℕ
be32 n = n / 2 ^ 24 % 256 ∷ n / 2 ^ 16 % 256 ∷ n / 2 ^ 8 % 256 ∷ n % 256 ∷ []

-- `rndFill` of `count` bytes: `draw` gives the random bytes in their order.
unfoldable pub rnd_fill : (ℕ → ℕ) → ℕ → ℕ → List ℕ
rnd_fill draw zero at = []
rnd_fill draw (suc count) at = draw at % 256 ∷ rnd_fill draw count (at + 1)

-- The body of the loop of `fillBatch`, with the nonce counted up.
unfoldable pub fill_blob : (ℕ → ℕ) → List ℕ → ℕ → ℕ → List ℕ → List ℕ
unfolding rnd_fill be32
fill_blob draw tmpl at nonce blob =
    copy_at (copy_at (copy_at blob 0 tmpl) 36 (rnd_fill draw 12 at)) 43 (be32 nonce)

-- `fillBatch`: the filled blobs; 12 random bytes and one step of the nonce for each.
unfoldable pub fill_batch : (ℕ → ℕ) → List ℕ → ℕ → ℕ → List (List ℕ) → List (List ℕ)
unfolding fill_blob u32
fill_batch draw tmpl at nonce [] = []
fill_batch draw tmpl at nonce (blob ∷ blobs) =
    let next = u32 (nonce + 1) in
    fill_blob draw tmpl at next blob ∷ fill_batch draw tmpl (at + 12) next blobs

-- `newBlobs`
unfoldable pub new_blobs : ℕ → List (List ℕ)
new_blobs batch_size = replicate batch_size (replicate miniblock_size 0)

-- What `Submit` and `Drain` of the streamer return: an error, or perhaps the hashes of the batch before.
pub data Hashed : Type 0 where
  hash_error : Hashed
  hashes : Option (List (List ℕ)) → Hashed

-- What the loop finds at each point of the clock, besides the world of the gate.
pub record Machine : Type 0 where
  pub job : ℕ → Snapshot  -- env.st.Job()
  pub running : ℕ → Bool  -- root.Err() == nil
  pub draw : ℕ → ℕ  -- rand.Intn(256), by the number of the draw
  pub submit : ℕ → List (List ℕ) → Hashed
  pub drain : ℕ → Hashed

-- `batchCtx` of the batch in flight; its blobs are the buffer `index`.
pub record InFlight : Type 0 where
  pub index : Bool
  pub jobid : List ℕ
  pub target : List ℕ
  pub epoch : ℕ

-- The variables of `mineLoopStream`, `bi` false for 0; `draws` counts the random bytes taken.
pub record Loop : Type 0 where
  pub miner : Miner
  pub nonce : ℕ  -- uint32
  pub errs : ℕ
  pub blobs_0 : List (List ℕ)
  pub blobs_1 : List (List ℕ)
  pub prev : Option InFlight
  pub bi : Bool
  pub draws : ℕ

abbrev pub max_hash_errs : ℕ
max_hash_errs = 50

-- `blobBuf[index]`
abbrev pub blob_buf : Bool → Loop → List (List ℕ)
blob_buf false l = l.blobs_0
blob_buf true l = l.blobs_1

-- `fillBatch(blobBuf[bi], …)`: the other buffer stays.
unfoldable pub fill_current : (ℕ → ℕ) → List ℕ → Loop → Loop
unfolding fill_batch u32
fill_current draw tmpl l =
    let blobs = fill_batch draw tmpl l.draws l.nonce (blob_buf l.bi l) in
    record l {
      nonce = u32 (l.nonce + length blobs);
      draws = l.draws + 12 * length blobs;
      blobs_0 = if l.bi then l.blobs_0 else blobs;
      blobs_1 = if l.bi then blobs else l.blobs_1;
    }

unfoldable pub in_flight_ctx : InFlight → Loop → BatchCtx
in_flight_ctx p l = record {
  blobs = blob_buf p.index l;
  jobid = p.jobid;
  target = p.target;
  epoch = p.epoch;
}

module _ (world : World) (sum : List ℕ → List ℕ) (self_test : Option (ℕ → Bool))
    (machine : Machine) where
  -- `if pows != nil && prev != nil { processBatch(…, prev) }`
  unfoldable pub process_prev : ℕ → Option (List (List ℕ)) → Option InFlight → Loop → Outcome Miner
  unfolding in_flight_ctx
  process_prev fuel none prev l = returned l.miner
  process_prev fuel (some pows) none l = returned l.miner
  process_prev fuel (some pows) (some p) l =
      process_batch world sum self_test fuel pows (in_flight_ctx p l) l.miner

  -- What follows `streamer.Submit` on the filled buffer, the job being `s`.
  unfoldable pub after_submit : ℕ → Snapshot → Hashed → Loop → Outcome Loop
  unfolding process_prev
  after_submit fuel s hash_error l =
      if leb max_hash_errs (l.errs + 1) then panicked else returned (record l { errs = l.errs + 1 })
  after_submit fuel s (hashes pows) l = do
    m ← process_prev fuel pows l.prev l
    returned (record l {
      miner = m;
      errs = 0;
      prev = some (record { index = l.bi; jobid = s.jobid; target = s.target; epoch = s.epoch });
      bi = not l.bi;
    })

  -- The body of the loop.
  unfoldable pub mine_iteration : ℕ → Loop → Outcome Loop
  unfolding fill_current after_submit
  mine_iteration fuel l =
      let s = machine.job l.miner.clock in
      let read = record l { miner = after_read l.miner } in
      let filled = fill_current machine.draw s.blob read in
      if s.epoch == 0
      then returned read
      else after_submit fuel s (machine.submit read.miner.clock (blob_buf l.bi filled)) filled

  -- After the loop: the last batch in flight.
  unfoldable pub drain_last : ℕ → Hashed → Loop → Outcome Miner
  drain_last fuel hash_error l = returned l.miner
  drain_last fuel (hashes pows) l = process_prev fuel pows l.prev l

  -- The loop of `mineLoopStream` for so many iterations, or to its end; each wait for the mailbox has
  -- `fuel` wakeups.
  unfoldable pub mine_rounds : ℕ → ℕ → Loop → Outcome Loop
  unfolding mine_iteration
  mine_rounds zero fuel l = returned l
  mine_rounds (suc rounds) fuel l =
      if machine.running l.miner.clock
      then mine_iteration fuel l >>= (λ l'. mine_rounds rounds fuel l')
      else returned l

  -- `mineLoopStream`, with at most so many iterations.
  unfoldable pub mine_loop_stream : ℕ → ℕ → Loop → Outcome Miner
  unfolding mine_rounds drain_last
  mine_loop_stream rounds fuel l = mine_rounds rounds fuel l >>= (λ l'.
      if machine.running l'.miner.clock
      then out_of_fuel
      else drain_last fuel (machine.drain l'.miner.clock) l')
