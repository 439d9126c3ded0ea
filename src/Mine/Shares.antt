-- ===== src/Mine/Shares.antt =====
-- Which shares the gate lets through, whatever the GPU and the other goroutines do.
use dirtybird_go_gpu_miner.Prelude.{
  ℕ, zero, suc, ◌+◌, ◌%◌, ◌^◌, ◌≡◌, ◌⊎◌, refl, sym, ap, ◌∙◌, subst, arith, List, [], ◌∷◌, ◌++◌,
  Bool, true, Option, some, ◌==◌, length, get_elem?, length-append, append-nil, append_assoc,
  same_bytes, same_bytes_eq, Outcome, returned, panicked, out_of_fuel, ◌>>=◌, Bool-cases,
  Option-cases, inl, inr, Each, Each-append,
}
use dirtybird_go_gpu_miner.Word.{add64}
use dirtybird_go_gpu_miner.Miner.Target.{meets_target}
use dirtybird_go_gpu_miner.Miner.Hex.{encode_hex}
use dirtybird_go_gpu_miner.Mine.Gate.{
  Wake, room, tick, cancelled, World, Submit, BatchCtx, Miner, after_read, send, abandon, on_tick,
  wait_submit, submit_share, on_miscompute, gate, candidates, process_batch,
}

-- Whatever the result is, if there is one, it has the property.
abbrev pub Yields {ℓ κ} : {A : Type ℓ} → (A → Type κ) → Outcome A → Type κ
Yields P (returned a) = P a
Yields P panicked = Unit
Yields P out_of_fuel = Unit

pub Wake-cases : (w : Wake) → (w ≡ room) ⊎ ((w ≡ tick) ⊎ (w ≡ cancelled))
Wake-cases room = inl refl
Wake-cases tick = inr (inl refl)
Wake-cases cancelled = inr (inr refl)

-- Between two states, only shares with the property were sent, and they were counted.
abbrev pub Sends {κ} : (Submit → Type κ) → Miner → Miner → Type κ
Sends P m m' =
    (new : List Submit) × (m'.sent ≡ m.sent ++ new)
    × Each P new
    × (m'.submitted % 2 ^ 64 ≡ (m.submitted + length new) % 2 ^ 64)

module _ {κ} (P : Submit → Type κ) where
  pub Sends-none : (m m' : Miner) → m'.sent ≡ m.sent → m'.submitted ≡ m.submitted → Sends P m m'
  Sends-none m m' e e' = ([], e ∙ sym (append-nil m.sent), tt, omega (arith, e'))

  Sends-one : (m : Miner) (share : Submit) → P share → Sends P m (send share m)
  unfolding add64
  Sends-one m share p = (share ∷ [], refl, (p, tt), omega arith)

  pub Sends-trans : (a b c : Miner) → Sends P a b → Sends P b c → Sends P a c
  Sends-trans a b c (new, e, all, n) (new', e', all', n') = (
    new ++ new',
    e' ∙ ap (λ xs. xs ++ new') e ∙ append_assoc a.sent new new',
    Each-append P new new' all all',
    omega (arith, length-append new new', n, n'),
  )

  pub Yields-trans :
      (m m' : Miner) (r : Outcome Miner)
      → Sends P m m'
      → Yields (Sends P m') r
      → Yields (Sends P m) r
  Yields-trans m m' panicked h h' = tt
  Yields-trans m m' out_of_fuel h h' = tt
  Yields-trans m m' (returned m'') h h' = Sends-trans m m' m'' h h'

  Yields-bind :
      (r : Outcome Miner) (next : Miner → Outcome Miner) (m : Miner)
      → Yields (Sends P m) r
      → ((m' : Miner) → Yields (Sends P m') (next m'))
      → Yields (Sends P m) (r >>= next)
  Yields-bind panicked next m h hn = tt
  Yields-bind out_of_fuel next m h hn = tt
  Yields-bind (returned m') next m h hn = Yields-trans m m' (next m') h (hn m')

-- A share of the batch that was right to send: a blob of the batch, whose hash the CPU reproduces
-- and which meets the target of the job it is sent for, at a time when the job was the current one.
pub record IsShare (world : World) (sum : List ℕ → List ℕ) (b : BatchCtx) (pows : List (List ℕ))
    (share : Submit) : Type 0 where
  pub index : ℕ
  pub blob : List ℕ
  pub pow : List ℕ
  pub blob_at : get_elem? b.blobs index ≡ some blob
  pub pow_at : get_elem? pows index ≡ some pow
  pub meets : meets_target pow b.target ≡ true
  pub reproduced : sum blob ≡ pow
  pub job : share.job_id ≡ b.jobid
  pub text : share.blob ≡ encode_hex blob
  pub fresh_at : ℕ
  pub fresh : world.epoch fresh_at ≡ b.epoch

module _ (world : World) (sum : List ℕ → List ℕ) (self_test : Option (ℕ → Bool)) where
  module _ {κ} (P : Submit → Type κ) where
    on_tick-Sends :
        (epoch : ℕ) (m : Miner) (wait : Miner → Outcome Miner)
        → ((m' : Miner) → Yields (Sends P m') (wait m'))
        → Yields (Sends P m) (on_tick world sum self_test epoch m wait)
    unfolding on_tick
    on_tick-Sends epoch m wait h = elim (Bool-cases (world.epoch m.clock == epoch)) [
      | inr e ↦ rw e (Sends-none P m (abandon (after_read m)) refl refl)
      | inl e ↦ rw e (elim (Bool-cases (world.connected (m.clock + 1))) [
        | inr e' ↦ rw e' (Sends-none P m (abandon (after_read (after_read m))) refl refl)
        | inl e' ↦
            let m' = after_read (after_read m) in
            rw e' (Yields-trans P m m' (wait m') (Sends-none P m m' refl refl) (h m'))
      ])
    ]

    wait_submit-Sends :
        (fuel : ℕ) (share : Submit) (epoch : ℕ) (m : Miner)
        → P share
        → Yields (Sends P m) (wait_submit world sum self_test fuel share epoch m)
    unfolding wait_submit
    wait_submit-Sends zero share epoch m p = tt
    wait_submit-Sends (suc fuel) share epoch m p = elim (Wake-cases (world.wake m.clock)) [
      | inl e ↦ rw (e, Yields) (Sends-one P m share p)
      | inr (inl e) ↦
          let wait = λ (m' : Miner). wait_submit world sum self_test fuel share epoch m' in
          rw (e, Yields)
            (Yields-trans P m (after_read m) (on_tick world sum self_test epoch (after_read m) wait)
              (Sends-none P m (after_read m) refl refl)
              (on_tick-Sends epoch (after_read m) wait
                (λ m'. wait_submit-Sends fuel share epoch m' p)))
      | inr (inr e) ↦ rw (e, Yields) (Sends-none P m (after_read m) refl refl)
    ]

    submit_share-Sends :
        (fuel : ℕ) (blob jobid : List ℕ) (epoch : ℕ) (m : Miner)
        → P (record { job_id = jobid; blob = encode_hex blob })
        → Yields (Sends P m) (submit_share world sum self_test fuel blob jobid epoch m)
    unfolding submit_share
    submit_share-Sends fuel blob jobid epoch m p =
        let share : Submit = record { job_id = jobid; blob = encode_hex blob } in
        elim (Bool-cases (world.has_room m.clock)) [
          | inl e ↦ rw e (Sends-one P m share p)
          | inr e ↦ rw e (
              Yields-trans P m (after_read m)
                (wait_submit world sum self_test fuel share epoch (after_read m))
                (Sends-none P m (after_read m) refl refl)
                (wait_submit-Sends fuel share epoch (after_read m) p))
        ]

    on_miscompute-Sends : (m : Miner) → Yields (Sends P m) (on_miscompute world sum self_test m)
    unfolding on_miscompute
    on_miscompute-Sends m = elim (Option-cases self_test) [
      | inl e ↦ rw (e, Yields) (Sends-none P m m refl refl)
      | inr (probe, e) ↦
          rw (e, Yields)
            (elim (Bool-cases m.reprobed) [
              | inl e' ↦ rw e' (Sends-none P m m refl refl)
              | inr e' ↦ rw e' (elim (Bool-cases (probe m.clock)) [
                | inl e'' ↦ rw e'' (Sends-none P m (after_read m) refl refl)
                | inr e'' ↦ rw e'' tt
              ])
            ])
    ]

    gate-Sends :
        (fuel : ℕ) (b : BatchCtx) (blob pow : List ℕ) (next : Miner → Outcome Miner) (m : Miner)
        → (world.epoch m.clock ≡ b.epoch
            → sum blob ≡ pow
            → P (record { job_id = b.jobid; blob = encode_hex blob }))
        → ((m' : Miner) → Yields (Sends P m') (next m'))
        → Yields (Sends P m) (gate world sum self_test fuel b blob pow next m)
    unfolding gate
    gate-Sends fuel b blob pow next m p hn = elim (Bool-cases (world.epoch m.clock == b.epoch)) [
      | inr e ↦
          rw (e, Yields)
            (Sends-none P m (record (after_read m) { gate_stale = add64 m.gate_stale 1 }) refl refl)
      | inl e ↦
          rw (e, Yields)
            (elim (Bool-cases (same_bytes (sum blob) pow)) [
              | inr e' ↦
                  let missed = record (after_read m) { miscompute = add64 m.miscompute 1 } in
                  rw (e', Yields)
                    (Yields-bind P (on_miscompute world sum self_test missed) next m
                      (on_miscompute-Sends missed) hn)
              | inl e' ↦
                  rw (e', Yields)
                    (Yields-bind P
                      (submit_share world sum self_test fuel blob b.jobid b.epoch (after_read m))
                      next m
                      (submit_share-Sends fuel blob b.jobid b.epoch (after_read m)
                        (p (ground arith) (same_bytes_eq (sum blob) pow e')))
                      hn)
            ])
    ]

    candidates-Sends :
        (fuel : ℕ) (b : BatchCtx) (blobs pows : List (List ℕ)) (m : Miner)
        → ((i : ℕ) (blob pow : List ℕ) (t : ℕ)
            → get_elem? blobs i ≡ some blob
            → get_elem? pows i ≡ some pow
            → meets_target pow b.target ≡ true
            → sum blob ≡ pow
            → world.epoch t ≡ b.epoch
            → P (record { job_id = b.jobid; blob = encode_hex blob }))
        → Yields (Sends P m) (candidates world sum self_test fuel b blobs pows m)
    unfolding candidates
    candidates-Sends fuel b [] pows m p = Sends-none P m m refl refl
    candidates-Sends fuel b (blob ∷ blobs) [] m p = tt
    candidates-Sends fuel b (blob ∷ blobs) (pow ∷ pows) m p =
        let ih : (m' : Miner)
            → Yields (Sends P m') (candidates world sum self_test fuel b blobs pows m') =
          λ m'. candidates-Sends fuel b blobs pows m' (λ i. p (suc i)) in
        elim (Bool-cases (meets_target pow b.target)) [
          | inl e ↦ rw e (
              gate-Sends fuel b blob pow (λ m'. candidates world sum self_test fuel b blobs pows m')
                m (λ fresh same. p 0 blob pow m.clock refl refl e same fresh) ih)
          | inr e ↦ rw e (ih m)
        ]

  abbrev counted : BatchCtx → Miner → Miner
  counted b m = record m { total_hashes = add64 m.total_hashes (length b.blobs) }

  -- Where `processBatch` returns, whatever the GPU returned and whenever jobs are pushed, it has sent
  -- only shares of the batch that meet the target of their job, whose hash the CPU computed again,
  -- and while an epoch read found the job current; and `Submitted` counts the shares sent (modulo
  -- 2 ^ 64).
  pub process_batch-Sends :
      (fuel : ℕ) (pows : List (List ℕ)) (b : BatchCtx) (m m' : Miner)
      → process_batch world sum self_test fuel pows b m ≡ returned m'
      → Sends (IsShare world sum b pows) m m'
  unfolding process_batch
  process_batch-Sends fuel pows b m m' e =
      let P = IsShare world sum b pows in
      let yields : Yields (Sends P m) (process_batch world sum self_test fuel pows b m) =
        elim (Bool-cases (world.epoch m.clock == b.epoch)) [
          | inr e' ↦ rw e' (Sends-none P m (after_read (counted b m)) refl refl)
          | inl e' ↦ rw e' (
              Yields-trans P m (after_read (counted b m))
                (candidates world sum self_test fuel b b.blobs pows (after_read (counted b m)))
                (Sends-none P m (after_read (counted b m)) refl refl)
                (candidates-Sends P fuel b b.blobs pows (after_read (counted b m))
                  (λ i blob pow t e0 e1 e2 e3 e4. record {
                    index = i;
                    blob = blob;
                    pow = pow;
                    blob_at = e0;
                    pow_at = e1;
                    meets = e2;
                    reproduced = e3;
                    job = refl;
                    text = refl;
                    fresh_at = t;
                    fresh = e4;
                  })))
        ] in
      subst (Yields (Sends P m)) e yields
