-- ===== src/Mine/Streaming.antt =====
-- That mineLoopStream verifies each batch against the job it was built for, though its results arrive
-- an iteration late and its two buffers are filled by turns.
use dirtybird_go_gpu_miner.Prelude.{
  ℕ, zero, suc, ◌+◌, ◌≡◌, ◌≢◌, refl, sym, ap₂, ◌∙◌, subst, arith, List, Bool, true, Option, none,
  some, leb, ◌==◌, not, length, Bool-cases, inl, inr,
}
use dirtybird_go_gpu_miner.Miner.Target.{meets_target}
use dirtybird_go_gpu_miner.Miner.Hex.{encode_hex}
use dirtybird_go_gpu_miner.Mine.Gate.{World, Submit, after_read}
use dirtybird_go_gpu_miner.Mine.Shares.{
  Yields, Sends, Sends-none, Sends-trans, Yields-trans, process_batch-Sends,
}
use dirtybird_go_gpu_miner.Mine.Loop.{
  Hashed, hash_error, hashes, Machine, InFlight, Loop, max_hash_errs, blob_buf, in_flight_ctx,
  process_prev, after_submit, mine_iteration, mine_rounds, drain_last, mine_loop_stream,
}
use dirtybird_go_gpu_miner.Mine.Buffers.{
  Yields-intro, Yields-chain, Yields-map, IsVariant, IsInFlight, IsLoop, not-not, blob_buf_kept,
  in_flight_kept, fill_current-IsLoop,
}
use dirtybird_go_gpu_miner.Prelude.{Each, Each-at, Each-map}

-- A share that was right to send: for a job that was read, a blob with the first 36 bytes of its
-- template, whose hash by the CPU meets its target, while an epoch read found the job current.
pub record IsMined (world : World) (sum : List ℕ → List ℕ) (machine : Machine) (share : Submit)
    : Type 0 where
  pub at : ℕ
  pub blob : List ℕ
  pub variant : IsVariant machine at blob
  pub meets : meets_target (sum blob) (machine.job at).target ≡ true
  pub job_id : share.job_id ≡ (machine.job at).jobid
  pub text : share.blob ≡ encode_hex blob
  pub started : (machine.job at).epoch ≢ 0
  pub fresh_at : ℕ
  pub fresh : world.epoch fresh_at ≡ (machine.job at).epoch

module _ (world : World) (sum : List ℕ → List ℕ) (self_test : Option (ℕ → Bool)) (machine : Machine)
    (size : (t : ℕ) → length (machine.job t).blob ≡ 48) where
  process_prev-Sends :
      (fuel : ℕ) (pows : Option (List (List ℕ))) (prev : Option InFlight) (l : Loop)
      → IsInFlight machine prev l
      → Yields
          (Sends (IsMined world sum machine) l.miner)
          (process_prev world sum self_test machine fuel pows prev l)
  unfolding process_prev in_flight_ctx
  process_prev-Sends fuel none prev l h = Sends-none _ l.miner l.miner refl refl
  process_prev-Sends fuel (some pows) none l h = Sends-none _ l.miner l.miner refl refl
  process_prev-Sends fuel (some pows) (some p) l
        (_, (at, jobid, target, epoch, started, variants)) =
      Yields-intro _ _ (λ m' e.
        let s =
          process_batch-Sends world sum self_test fuel pows (in_flight_ctx p l) l.miner m' e in
        (
          s.0,
          s.1,
          Each-map _ _
              (λ share ok. record {
                at = at;
                blob = ok.blob;
                variant = Each-at _ (blob_buf p.index l) ok.index ok.blob variants ok.blob_at;
                meets = ap₂ meets_target ok.reproduced (sym target) ∙ ok.meets;
                job_id = ok.job ∙ jobid;
                text = ok.text;
                started = started;
                fresh_at = ok.fresh_at;
                fresh = ok.fresh ∙ epoch;
              })
              s.0 s.2,
          s.3,
        ))

  abbrev Kept : Loop → Loop → Type 0
  Kept l l' = Sends (IsMined world sum machine) l.miner l'.miner × IsLoop machine l'

  after_submit-Sends :
      (fuel at : ℕ) (result : Hashed) (l : Loop)
      → IsLoop machine l
      → (machine.job at).epoch ≢ 0
      → Each (IsVariant machine at) (blob_buf l.bi l)
      → Yields (Kept l) (after_submit world sum self_test machine fuel (machine.job at) result l)
  unfolding after_submit
  after_submit-Sends fuel at hash_error l h started variants =
      elim (Bool-cases (leb max_hash_errs (l.errs + 1))) [
        | inl e ↦ rw e tt
        | inr e ↦ rw e (
          Sends-none _ l.miner l.miner refl refl,
          record {
            sizes_0 = h.sizes_0;
            sizes_1 = h.sizes_1;
            in_flight =
                in_flight_kept machine l (record l { errs = l.errs + 1 }) l.prev refl
                  (blob_buf_kept machine (not l.bi) l (record l { errs = l.errs + 1 }) refl refl)
                  h.in_flight;
          },
        )
      ]
  after_submit-Sends fuel at (hashes pows) l h started variants =
      let P = IsMined world sum machine in
      Yields-chain (Sends P l.miner) (Kept l)
        (process_prev world sum self_test machine fuel pows l.prev l) _
        (process_prev-Sends fuel pows l.prev l h.in_flight)
        (λ m sends. (
          sends,
          record {
            sizes_0 = h.sizes_0;
            sizes_1 = h.sizes_1;
            in_flight = (
              not-not l.bi,
              (
                at,
                refl,
                refl,
                refl,
                started,
                subst (Each (IsVariant machine at)) (sym (blob_buf_kept machine l.bi l _ refl refl))
                    variants,
              ),
            );
          },
        ))

  mine_iteration-Sends :
      (fuel : ℕ) (l : Loop)
      → IsLoop machine l
      → Yields (Kept l) (mine_iteration world sum self_test machine fuel l)
  unfolding mine_iteration
  mine_iteration-Sends fuel l h =
      let at = l.miner.clock in
      let read = record l { miner = after_read l.miner } in
      let read-ok : IsLoop machine read = record {
        sizes_0 = h.sizes_0;
        sizes_1 = h.sizes_1;
        in_flight =
            in_flight_kept machine l read l.prev refl
              (blob_buf_kept machine (not l.bi) l read refl refl) h.in_flight;
      } in
      let filled = fill_current-IsLoop machine at read (size at) read-ok in
      elim (Bool-cases ((machine.job at).epoch == 0)) [
        | inl e ↦ rw e (Sends-none _ l.miner read.miner refl refl, read-ok)
        | inr e ↦
            rw e (after_submit-Sends fuel at _ _ filled.0 (λ zero_epoch. ground arith) filled.1)
      ]

  drain_last-Sends :
      (fuel : ℕ) (result : Hashed) (l : Loop)
      → IsLoop machine l
      → Yields
          (Sends (IsMined world sum machine) l.miner)
          (drain_last world sum self_test machine fuel result l)
  unfolding drain_last
  drain_last-Sends fuel hash_error l h = Sends-none _ l.miner l.miner refl refl
  drain_last-Sends fuel (hashes pows) l h = process_prev-Sends fuel pows l.prev l h.in_flight

  -- However many iterations `mineLoopStream` has made, the process not having ended, from buffers of
  -- 48-byte blobs and no batch in flight or one built for a job that was read, it has sent only shares
  -- for jobs that it read: the blob has the first 36 bytes of that job's template, the CPU's hash of
  -- it meets that job's target, and an epoch read found that job current; and `Submitted` counts them
  -- (modulo 2 ^ 64). A template is assumed to have 48 bytes, of the GPU nothing; the buffers and the
  -- batch in flight stay as described.
  pub mine_rounds-Sends :
      (rounds fuel : ℕ) (l : Loop)
      → IsLoop machine l
      → Yields (Kept l) (mine_rounds world sum self_test machine rounds fuel l)
  unfolding mine_rounds
  mine_rounds-Sends zero fuel l h = (Sends-none _ l.miner l.miner refl refl, h)
  mine_rounds-Sends (suc rounds) fuel l h = elim (Bool-cases (machine.running l.miner.clock)) [
    | inr e ↦ rw e (Sends-none _ l.miner l.miner refl refl, h)
    | inl e ↦ rw e (
        Yields-chain (Kept l) (Kept l) (mine_iteration world sum self_test machine fuel l) _
          (mine_iteration-Sends fuel l h)
          (λ l' kept.
            Yields-map (Kept l') (Kept l) (mine_rounds world sum self_test machine rounds fuel l')
              (mine_rounds-Sends rounds fuel l' kept.1)
              (λ l'' kept'. (
                Sends-trans (IsMined world sum machine) l.miner l'.miner l''.miner kept.0 kept'.0,
                kept'.1,
              ))))
  ]

  -- What a run of `mineLoopStream` that has returned sent, with the batch drained at the end, is as
  -- right as what its iterations send, under the same conditions.
  pub mine_loop_stream-Sends :
      (rounds fuel : ℕ) (l : Loop)
      → IsLoop machine l
      → Yields
          (Sends (IsMined world sum machine) l.miner)
          (mine_loop_stream world sum self_test machine rounds fuel l)
  unfolding mine_loop_stream
  mine_loop_stream-Sends rounds fuel l h =
      let P = IsMined world sum machine in
      Yields-chain (Kept l) (Sends P l.miner)
        (mine_rounds world sum self_test machine rounds fuel l) _
        (mine_rounds-Sends rounds fuel l h)
        (λ l' kept. elim (Bool-cases (machine.running l'.miner.clock)) [
          | inl e ↦ rw e tt
          | inr e ↦ rw e (
              Yields-trans P l.miner l'.miner
                (drain_last world sum self_test machine fuel (machine.drain l'.miner.clock) l')
                kept.0 (drain_last-Sends fuel (machine.drain l'.miner.clock) l' kept.1))
        ])
