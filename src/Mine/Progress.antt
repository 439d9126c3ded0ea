-- ===== src/Mine/Progress.antt =====
-- That the gate gets on: the waits end, a batch is processed to its end, and on a live job with room
-- in the mailbox no valid share is lost.
use dirtybird_go_gpu_miner.Prelude.{
  ℕ, zero, suc, ◌+◌, ◌*◌, ◌≤◌, ◌<◌, ◌≡◌, ◌≢◌, ◌⊎◌, refl, sym, ap, ◌∙◌, arith, List, [], ◌∷◌, ◌++◌,
  append-nil, append_assoc, Bool, true, true≢false, false, Option, some, ◌==◌, ◌&&◌, if◌then◌else◌,
  length, same_bytes, Outcome, returned, ◌>>=◌, Bool-cases, Option-cases, inl, inr, subst,
}
use dirtybird_go_gpu_miner.Word.{add64}
use dirtybird_go_gpu_miner.Miner.Target.{meets_target}
use dirtybird_go_gpu_miner.Miner.Hex.{encode_hex}
use dirtybird_go_gpu_miner.Mine.Shares.{Wake-cases}
use dirtybird_go_gpu_miner.Mine.Gate.{
  tick, World, Submit, BatchCtx, Miner, after_read, send, on_tick, wait_submit, submit_share,
  on_miscompute, gate, candidates, process_batch,
}

abbrev pub Returns {ℓ} : {A : Type ℓ} → Outcome A → Type ℓ
Returns {A = A} r = (a : A) × (r ≡ returned a)

Returns-bind {ℓ} :
    {A B : Type ℓ} (r : Outcome A) (f : A → Outcome B)
    → Returns r
    → ((a : A) → Returns (f a))
    → Returns (r >>= f)
Returns-bind r f (a, e) h = rw e (h a)

-- A round of the wait that starts at this point of the clock ends it: the mailbox has room or the
-- miner stops, the job has rotated, or the link is down.
abbrev pub Ends : World → ℕ → ℕ → Type 0
Ends world epoch c =
    (world.wake c ≢ tick) ⊎ ((world.epoch (c + 1) ≢ epoch) ⊎ (world.connected (c + 2) ≡ false))

-- The probe of the GPU passes whenever it is run.
abbrev pub Passes : Option (ℕ → Bool) → Type 0
Passes self_test = (probe : ℕ → Bool) → self_test ≡ some probe → (c : ℕ) → probe c ≡ true

module _ (world : World) (sum : List ℕ → List ℕ) (self_test : Option (ℕ → Bool)) where
  Ends-later :
      (k c epoch : ℕ)
      → Ends world epoch (c + 3 * k)
      → world.wake c ≡ tick
      → world.epoch (c + 1) ≡ epoch
      → world.connected (c + 1 + 1) ≡ true
      → (j : ℕ) × (k ≡ suc j) × Ends world epoch (c + 1 + 1 + 1 + 3 * j)
  Ends-later zero c epoch (inl h) e e' e'' = absurd (h (ap world.wake (omega arith) ∙ e))
  Ends-later zero c epoch (inr (inl h)) e e' e'' = absurd (h (ap world.epoch (omega arith) ∙ e'))
  Ends-later zero c epoch (inr (inr h)) e e' e'' =
      let up = ap world.connected (omega arith) ∙ h in absurd (true≢false (sym e'' ∙ up))
  Ends-later (suc k) c epoch h e e' e'' = (k, refl, subst (Ends world epoch) (omega arith) h)

  -- With more fuel than `k`, the wait of `submitShare` returns if its round number `k` (a round takes
  -- three reads of the world) finds room in the mailbox or the end of the program, another epoch, or
  -- the link down.
  pub wait_submit-Returns :
      (fuel k : ℕ) (share : Submit) (epoch : ℕ) (m : Miner)
      → k < fuel
      → Ends world epoch (m.clock + 3 * k)
      → Returns (wait_submit world sum self_test fuel share epoch m)
  unfolding wait_submit on_tick
  wait_submit-Returns zero k share epoch m h ends = absurd (omega arith)
  wait_submit-Returns (suc fuel) k share epoch m h ends = elim (Wake-cases (world.wake m.clock)) [
    | inl e ↦ rw (e, wait_submit) (_, refl)
    | inr (inr e) ↦ rw (e, wait_submit) (_, refl)
    | inr (inl e) ↦
        rw (e, wait_submit)
          (elim (Bool-cases (world.epoch (m.clock + 1) == epoch)) [
            | inr e' ↦ rw e' (_, refl)
            | inl e' ↦ rw e' (elim (Bool-cases (world.connected (m.clock + 1 + 1))) [
              | inr e'' ↦ rw e'' (_, refl)
              | inl e'' ↦
                  let later = Ends-later k m.clock epoch ends e (ground arith) e'' in
                  rw e'' (
                    wait_submit-Returns fuel later.0 share epoch
                      (after_read (after_read (after_read m))) (omega (arith, later.1)) later.2)
            ])
          ])
  ]

  -- On a live job, with room in the mailbox and an honest GPU, what is sent are exactly the shares of
  -- the batch, in order.
  abbrev pub shares : BatchCtx → List (List ℕ) → List (List ℕ) → List Submit
  shares b [] pows = []
  shares b (blob ∷ blobs) [] = []
  shares b (blob ∷ blobs) (pow ∷ pows) =
      if meets_target pow b.target && same_bytes (sum blob) pow
      then record { job_id = b.jobid; blob = encode_hex blob } ∷ shares b blobs pows
      else shares b blobs pows

  shares_skip :
      (b : BatchCtx) (blob pow : List ℕ) (blobs pows : List (List ℕ))
      → (meets_target pow b.target && same_bytes (sum blob) pow) ≡ false
      → shares b (blob ∷ blobs) (pow ∷ pows) ≡ shares b blobs pows
  shares_skip b blob pow blobs pows e = rw e refl

  module _ (b : BatchCtx) (fuel : ℕ) (live : (c : ℕ) → world.epoch c ≡ b.epoch)
      (roomy : (c : ℕ) → world.has_room c ≡ true) (passes : Passes self_test) where
    -- The miner after the rest of the batch sent these shares.
    abbrev Sent : Outcome Miner → Miner → List Submit → Type 0
    Sent r m new = (m' : Miner) × (r ≡ returned m') × (m'.sent ≡ m.sent ++ new)

    on_miscompute-Sent : (m : Miner) → Sent (on_miscompute world sum self_test m) m []
    unfolding on_miscompute
    on_miscompute-Sent m = elim (Option-cases self_test) [
      | inl e ↦ rw e (m, refl, sym (append-nil m.sent))
      | inr (probe, e) ↦ rw e (elim (Bool-cases m.reprobed) [
        | inl e' ↦ rw e' (_, refl, sym (append-nil m.sent))
        | inr e' ↦ rw (e', passes probe e m.clock) (_, refl, sym (append-nil m.sent))
      ])
    ]

    candidates-Sent :
        (blobs pows : List (List ℕ)) (m : Miner)
        → length blobs ≤ length pows
        → Sent (candidates world sum self_test fuel b blobs pows m) m (shares b blobs pows)
    unfolding candidates gate submit_share
    candidates-Sent [] pows m h = (m, refl, sym (append-nil m.sent))
    candidates-Sent (blob ∷ blobs) [] m h = absurd (omega arith)
    candidates-Sent (blob ∷ blobs) (pow ∷ pows) m h =
        elim (Bool-cases (meets_target pow b.target)) [
          | inr e ↦ rw e (candidates-Sent blobs pows m (omega arith))
          | inl e ↦
              let now : (world.epoch m.clock == b.epoch) ≡ true =
                rw (live m.clock) (ground arith) in
              elim (Bool-cases (same_bytes (sum blob) pow)) [
                | inl e' ↦
                    let share : Submit = record { job_id = b.jobid; blob = encode_hex blob } in
                    let m' = send share (after_read (after_read m)) in
                    let rest = candidates-Sent blobs pows m' (omega arith) in
                    rw (e, gate, now, e', roomy (m.clock + 1))
                      (rest.0, rest.1, rest.2 ∙ append_assoc m.sent (share ∷ []) _)
                | inr e' ↦
                    let missed = record (after_read m) { miscompute = add64 m.miscompute 1 } in
                    let probed = on_miscompute-Sent missed in
                    let rest = candidates-Sent blobs pows probed.0 (omega arith) in
                    let old = probed.2 ∙ append-nil m.sent in
                    rw (e, gate, now, e', probed.1)
                      (rest.0, rest.1, rest.2 ∙ ap (λ xs. xs ++ shares b blobs pows) old)
              ]
        ]

  -- While the job stays the current one and the mailbox has room, and where a re-probe of the GPU
  -- passes, `processBatch` returns, and it sends exactly the shares of the batch, in order: the blobs
  -- whose hash meets the target and is reproduced by the CPU.
  pub process_batch_complete :
      (fuel : ℕ) (pows : List (List ℕ)) (b : BatchCtx) (m : Miner)
      → ((c : ℕ) → world.epoch c ≡ b.epoch)
      → ((c : ℕ) → world.has_room c ≡ true)
      → Passes self_test
      → length b.blobs ≤ length pows
      → (m' : Miner) × (process_batch world sum self_test fuel pows b m ≡ returned m')
        × (m'.sent ≡ m.sent ++ shares b b.blobs pows)
  unfolding process_batch
  process_batch_complete fuel pows b m live roomy passes h =
      let now : (world.epoch m.clock == b.epoch) ≡ true = rw (live m.clock) (ground arith) in
      let counted = record m { total_hashes = add64 m.total_hashes (length b.blobs) } in
      rw now (candidates-Sent b fuel live roomy passes b.blobs pows (after_read counted) h)

  on_miscompute-Returns :
      (m : Miner) → Passes self_test → Returns (on_miscompute world sum self_test m)
  unfolding on_miscompute
  on_miscompute-Returns m passes = elim (Option-cases self_test) [
    | inl e ↦ rw e (_, refl)
    | inr (probe, e) ↦ rw e (elim (Bool-cases m.reprobed) [
      | inl e' ↦ rw e' (_, refl)
      | inr e' ↦ rw (e', passes probe e m.clock) (_, refl)
    ])
  ]

  submit_share-Returns :
      (fuel k : ℕ) (blob jobid : List ℕ) (epoch : ℕ) (m : Miner)
      → k < fuel
      → Ends world epoch (m.clock + 1 + 3 * k)
      → Returns (submit_share world sum self_test fuel blob jobid epoch m)
  unfolding submit_share
  submit_share-Returns fuel k blob jobid epoch m h ends =
      elim (Bool-cases (world.has_room m.clock)) [
        | inl e ↦ rw e (_, refl)
        | inr e ↦ rw e (wait_submit-Returns fuel k _ epoch (after_read m) h ends)
      ]

  candidates-Returns :
      (fuel : ℕ) (b : BatchCtx) (blobs pows : List (List ℕ)) (m : Miner)
      → ((c : ℕ) → (k : ℕ) × (k < fuel) × Ends world b.epoch (c + 3 * k))
      → Passes self_test
      → length blobs ≤ length pows
      → Returns (candidates world sum self_test fuel b blobs pows m)
  unfolding candidates gate
  candidates-Returns fuel b [] pows m ends passes h = (m, refl)
  candidates-Returns fuel b (blob ∷ blobs) [] m ends passes h = absurd (omega arith)
  candidates-Returns fuel b (blob ∷ blobs) (pow ∷ pows) m ends passes h =
      let next = λ (m' : Miner). candidates world sum self_test fuel b blobs pows m' in
      let ih : (m' : Miner) → Returns (next m') =
        λ m'. candidates-Returns fuel b blobs pows m' ends passes (omega arith) in
      elim (Bool-cases (meets_target pow b.target)) [
        | inr e ↦ rw e (ih m)
        | inl e ↦ elim (Bool-cases (world.epoch m.clock == b.epoch)) [
          | inr e' ↦ rw (e, gate, e') (_, refl)
          | inl e' ↦ elim (Bool-cases (same_bytes (sum blob) pow)) [
            | inl e'' ↦
                let w = ends (m.clock + 1 + 1) in
                rw (e, gate, e', e'')
                  (Returns-bind _ next
                    (submit_share-Returns fuel w.0 blob b.jobid b.epoch (after_read m) w.1 w.2) ih)
            | inr e'' ↦
                rw (e, gate, e', e'') (Returns-bind _ next (on_miscompute-Returns _ passes) ih)
          ]
        ]
      ]

  -- `processBatch` returns, if every wait for the mailbox can end within the fuel (room, a new job, a
  -- lost link or the end of the program), a re-probe of the GPU passes, and there is a hash for each
  -- blob.
  pub process_batch-Returns :
      (fuel : ℕ) (pows : List (List ℕ)) (b : BatchCtx) (m : Miner)
      → ((c : ℕ) → (k : ℕ) × (k < fuel) × Ends world b.epoch (c + 3 * k))
      → Passes self_test
      → length b.blobs ≤ length pows
      → Returns (process_batch world sum self_test fuel pows b m)
  unfolding process_batch
  process_batch-Returns fuel pows b m ends passes h =
      let counted = record m { total_hashes = add64 m.total_hashes (length b.blobs) } in
      elim (Bool-cases (world.epoch m.clock == b.epoch)) [
        | inr e ↦ rw e (_, refl)
        | inl e ↦ rw e (candidates-Returns fuel b b.blobs pows (after_read counted) ends passes h)
      ]
