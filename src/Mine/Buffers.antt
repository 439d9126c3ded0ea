-- ===== src/Mine/Buffers.antt =====
-- The two buffers of mineLoopStream: the batch in flight is left alone while the other is filled.
use dirtybird_go_gpu_miner.Prelude.{
  ℕ, ◌≡◌, ◌≢◌, refl, sym, ap, ◌∙◌, subst, List, Bool, true, false, Option, none, some,
  if◌then◌else◌, not, length, take, Outcome, returned, panicked, out_of_fuel, ◌>>=◌, Bool-cases,
  inl, inr, Each, Each-map,
}
use dirtybird_go_gpu_miner.Mine.Shares.{Yields}
use dirtybird_go_gpu_miner.Mine.Batches.{fill_batch_variants}
use dirtybird_go_gpu_miner.Mine.Loop.{Machine, InFlight, Loop, blob_buf, fill_current, fill_batch}

pub Yields-intro {ℓ κ} :
    {A : Type ℓ} (P : A → Type κ) (r : Outcome A) → ((a : A) → r ≡ returned a → P a) → Yields P r
Yields-intro P (returned a) h = h a refl
Yields-intro P panicked h = tt
Yields-intro P out_of_fuel h = tt

pub Yields-chain {ℓ κ} :
    {A B : Type ℓ} (P : A → Type κ) (Q : B → Type κ) (r : Outcome A) (f : A → Outcome B)
    → Yields P r
    → ((a : A) → P a → Yields Q (f a))
    → Yields Q (r >>= f)
Yields-chain P Q (returned a) f h hf = hf a h
Yields-chain P Q panicked f h hf = tt
Yields-chain P Q out_of_fuel f h hf = tt

pub Yields-map {ℓ κ μ} :
    {A : Type ℓ} (P : A → Type κ) (Q : A → Type μ) (r : Outcome A)
    → Yields P r
    → ((a : A) → P a → Q a)
    → Yields Q r
Yields-map P Q (returned a) h f = f a h
Yields-map P Q panicked h f = tt
Yields-map P Q out_of_fuel h f = tt

-- A blob built from the job read at point `at` of the clock.
abbrev pub IsVariant : Machine → ℕ → List ℕ → Type 0
IsVariant machine at blob = (length blob ≡ 48) × (take 36 blob ≡ take 36 (machine.job at).blob)

abbrev pub Size48 : List ℕ → Type 0
Size48 b = length b ≡ 48

-- The batch in flight stands in the buffer that is not filled next, as it was built for its job.
abbrev pub IsInFlight : Machine → Option InFlight → Loop → Type 0
IsInFlight machine none l = Unit
IsInFlight machine (some p) l =
    (p.index ≡ not l.bi)
    × ((at : ℕ) × (p.jobid ≡ (machine.job at).jobid)
        × (p.target ≡ (machine.job at).target)
        × (p.epoch ≡ (machine.job at).epoch)
        × ((machine.job at).epoch ≢ 0)
        × Each (IsVariant machine at) (blob_buf p.index l))

pub record IsLoop (machine : Machine) (l : Loop) : Type 0 where
  pub sizes_0 : Each Size48 l.blobs_0
  pub sizes_1 : Each Size48 l.blobs_1
  pub in_flight : IsInFlight machine l.prev l

pub not-not : (b : Bool) → b ≡ not (not b)
not-not true = refl
not-not false = refl

either_way {ℓ κ} :
    {A : Type ℓ} (P : A → Type κ) (b : Bool) (x y : A) → P x → P y → P (if b then x else y)
either_way P true x y p q = p
either_way P false x y p q = q

module _ (machine : Machine) where
  pub blob_buf_kept :
      (i : Bool) (l l' : Loop)
      → l'.blobs_0 ≡ l.blobs_0
      → l'.blobs_1 ≡ l.blobs_1
      → blob_buf i l' ≡ blob_buf i l
  blob_buf_kept false l l' e e' = e
  blob_buf_kept true l l' e e' = e'

  -- What matters of the loop is which buffer is next and what stands in the other one.
  pub in_flight_kept :
      (l l' : Loop) (prev : Option InFlight)
      → l'.bi ≡ l.bi
      → blob_buf (not l.bi) l' ≡ blob_buf (not l.bi) l
      → IsInFlight machine prev l
      → IsInFlight machine prev l'
  in_flight_kept l l' none b e h = tt
  in_flight_kept l l' (some p) b e (i, (at, jobid, target, epoch, started, variants)) =
      let same = ap (λ x. blob_buf x l') i ∙ e ∙ ap (λ x. blob_buf x l) (sym i) in
      (
        i ∙ ap not (sym b),
        (
          at,
          jobid,
          target,
          epoch,
          started,
          subst (Each (IsVariant machine at)) (sym same) variants,
        ),
      )

  filled_other :
      (draw : ℕ → ℕ) (tmpl : List ℕ) (l : Loop)
      → blob_buf (not l.bi) (fill_current draw tmpl l) ≡ blob_buf (not l.bi) l
  unfolding fill_current
  filled_other draw tmpl l = elim (Bool-cases l.bi) [ inl e ↦ rw e refl | inr e ↦ rw e refl ]

  filled_current :
      (draw : ℕ → ℕ) (tmpl : List ℕ) (l : Loop)
      → blob_buf l.bi (fill_current draw tmpl l)
        ≡ fill_batch draw tmpl l.draws l.nonce (blob_buf l.bi l)
  unfolding fill_current
  filled_current draw tmpl l = elim (Bool-cases l.bi) [ inl e ↦ rw e refl | inr e ↦ rw e refl ]

  current_sizes : (i : Bool) (l : Loop) → IsLoop machine l → Each Size48 (blob_buf i l)
  current_sizes false l h = h.sizes_0
  current_sizes true l h = h.sizes_1

  pub fill_current-IsLoop :
      (at : ℕ) (l : Loop)
      → length (machine.job at).blob ≡ 48
      → IsLoop machine l
      → IsLoop machine (fill_current machine.draw (machine.job at).blob l)
        × Each
            (IsVariant machine at)
            (blob_buf l.bi (fill_current machine.draw (machine.job at).blob l))
  unfolding fill_current
  fill_current-IsLoop at l size h =
      let tmpl = (machine.job at).blob in
      let filled = fill_current machine.draw tmpl l in
      let variants =
        fill_batch_variants machine.draw tmpl l.draws l.nonce (blob_buf l.bi l) size
          (current_sizes l.bi l h) in
      let sizes = Each-map _ Size48 (λ b v. v.0) _ variants in
      (
        record {
          sizes_0 = either_way (Each Size48) l.bi _ _ h.sizes_0 sizes;
          sizes_1 = either_way (Each Size48) l.bi _ _ sizes h.sizes_1;
          in_flight =
              in_flight_kept l filled l.prev refl (filled_other machine.draw tmpl l) h.in_flight;
        },
        subst (Each (IsVariant machine at)) (sym (filled_current machine.draw tmpl l)) variants,
      )
