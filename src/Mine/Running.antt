-- ===== src/Mine/Running.antt =====
-- That the loop of mineLoopStream goes on: an iteration returns, so any number of them does.
use dirtybird_go_gpu_miner.Prelude.{
  ℕ, zero, suc, ◌+◌, ◌*◌, ◌≤◌, ◌<◌, ◌≡◌, refl, ap, ◌∙◌, arith, List, [], ◌∷◌, Bool, true, false,
  Option, none, some, ◌==◌, if◌then◌else◌, length, Outcome, returned, Bool-cases, inl, inr,
}
use dirtybird_go_gpu_miner.Miner.State.{Snapshot}
use dirtybird_go_gpu_miner.Mine.Gate.{World, after_read}
use dirtybird_go_gpu_miner.Mine.Progress.{Returns, Ends, Passes, process_batch-Returns}
use dirtybird_go_gpu_miner.Mine.Loop.{
  Hashed, hashes, Machine, InFlight, Loop, blob_buf, fill_batch, fill_current, in_flight_ctx,
  process_prev, after_submit, mine_iteration, mine_rounds,
}

-- The GPU answers with no error, and with at least `n` hashes where it answers with hashes.
abbrev pub Answers : ℕ → Hashed → Type 0
Answers n r =
    (pows : Option (List (List ℕ))) × (r ≡ hashes pows)
    × ((p : List (List ℕ)) → pows ≡ some p → n ≤ length p)

abbrev pub HasBuffers : ℕ → Loop → Type 0
HasBuffers n l = (length l.blobs_0 ≡ n) × (length l.blobs_1 ≡ n)

abbrev GoesOn : ℕ → Outcome Loop → Type 0
GoesOn n r = (l : Loop) × (r ≡ returned l) × HasBuffers n l

length-fill_batch :
    (draw : ℕ → ℕ) (tmpl : List ℕ) (at nonce : ℕ) (blobs : List (List ℕ))
    → length (fill_batch draw tmpl at nonce blobs) ≡ length blobs
unfolding fill_batch
length-fill_batch draw tmpl at nonce [] = refl
length-fill_batch draw tmpl at nonce (blob ∷ blobs) =
    ap suc (length-fill_batch draw tmpl (at + 12) _ blobs)

length-blob_buf : (n : ℕ) (i : Bool) (l : Loop) → HasBuffers n l → length (blob_buf i l) ≡ n
length-blob_buf n false l h = h.0
length-blob_buf n true l h = h.1

if_length :
    (n : ℕ) (b : Bool) (xs ys : List (List ℕ))
    → length xs ≡ n
    → length ys ≡ n
    → length (if b then xs else ys) ≡ n
if_length n true xs ys p q = p
if_length n false xs ys p q = q

fill_current-HasBuffers :
    (n : ℕ) (draw : ℕ → ℕ) (tmpl : List ℕ) (l : Loop)
    → HasBuffers n l
    → HasBuffers n (fill_current draw tmpl l)
unfolding fill_current
fill_current-HasBuffers n draw tmpl l h =
    let size =
      length-fill_batch draw tmpl l.draws l.nonce (blob_buf l.bi l) ∙ length-blob_buf n l.bi l h in
    (if_length n l.bi _ _ h.0 size, if_length n l.bi _ _ size h.1)

module _ (world : World) (sum : List ℕ → List ℕ) (self_test : Option (ℕ → Bool)) (machine : Machine)
    (n fuel : ℕ) (ends : (epoch c : ℕ) → (k : ℕ) × (k < fuel) × Ends world epoch (c + 3 * k))
    (passes : Passes self_test)
    (answers : (c : ℕ) (blobs : List (List ℕ)) → Answers n (machine.submit c blobs)) where
  process_prev-Returns :
      (pows : Option (List (List ℕ))) (prev : Option InFlight) (l : Loop)
      → HasBuffers n l
      → ((p : List (List ℕ)) → pows ≡ some p → n ≤ length p)
      → Returns (process_prev world sum self_test machine fuel pows prev l)
  unfolding process_prev in_flight_ctx
  process_prev-Returns none prev l h enough = (l.miner, refl)
  process_prev-Returns (some pows) none l h enough = (l.miner, refl)
  process_prev-Returns (some pows) (some p) l h enough =
      process_batch-Returns world sum self_test fuel pows (in_flight_ctx p l) l.miner (ends p.epoch)
        passes (omega (arith, length-blob_buf n p.index l h, enough pows refl))

  after_submit-GoesOn :
      (s : Snapshot) (result : Hashed) (l : Loop)
      → HasBuffers n l
      → Answers n result
      → GoesOn n (after_submit world sum self_test machine fuel s result l)
  unfolding after_submit
  after_submit-GoesOn s result l h (pows, e, enough) =
      let m = process_prev-Returns pows l.prev l h enough in rw (e, after_submit, m.1) (_, refl, h)

  mine_iteration-GoesOn :
      (l : Loop) → HasBuffers n l → GoesOn n (mine_iteration world sum self_test machine fuel l)
  unfolding mine_iteration
  mine_iteration-GoesOn l h = elim (Bool-cases ((machine.job l.miner.clock).epoch == 0)) [
    | inl e ↦ rw e (_, refl, h)
    | inr e ↦
        let s = machine.job l.miner.clock in
        let read = record l { miner = after_read l.miner } in
        rw e (
          after_submit-GoesOn s _ _ (fill_current-HasBuffers n machine.draw s.blob read h)
            (answers _ _))
  ]

  -- Any number of iterations of `mineLoopStream` returns, with two buffers of `n` blobs, if every wait
  -- for the mailbox can end within the fuel, a re-probe of the GPU passes, and the GPU answers with
  -- no error and with at least `n` hashes where it answers with hashes.
  pub mine_rounds-Returns :
      (rounds : ℕ) (l : Loop)
      → HasBuffers n l
      → Returns (mine_rounds world sum self_test machine rounds fuel l)
  unfolding mine_rounds
  mine_rounds-Returns zero l h = (l, refl)
  mine_rounds-Returns (suc rounds) l h = elim (Bool-cases (machine.running l.miner.clock)) [
    | inr e ↦ rw e (l, refl)
    | inl e ↦
        let next = mine_iteration-GoesOn l h in
        rw (e, next.1) (mine_rounds-Returns rounds next.0 next.2)
  ]
