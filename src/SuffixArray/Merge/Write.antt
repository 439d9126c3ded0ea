-- ===== src/SuffixArray/Merge/Write.antt =====
-- The groups in the order of their keys make the suffix array.
use dirtybird_go_gpu_miner.Prelude.{
  ℕ, zero, suc, ◌+◌, ◌^◌, ◌≤◌, ◌<◌, ◌≡◌, refl, sym, ap, ap₂, ◌∙◌, subst, arith, List, [], ◌∷◌, ◌++◌,
  append-nil, append_assoc, length, length-append, byte_at-lt, true, ◌==◌, Option, some, Outcome,
  returned, Each, Each-map, Each-append,
}
use dirtybird_go_gpu_miner.SuffixArray.View.{View}
use dirtybird_go_gpu_miner.SuffixArray.Keys.{radix_at}
use dirtybird_go_gpu_miner.SuffixArray.Suffixes.{IsView}
use dirtybird_go_gpu_miner.SuffixArray.Order.{SuffixLe}
use dirtybird_go_gpu_miner.SuffixArray.Sorting.{Sorted, Sorted-append, total, total-append}
use dirtybird_go_gpu_miner.SuffixArray.Runs.{
  Run, V114Scratch, count, fused_run_pos, positions_from, run_positions,
}
use dirtybird_go_gpu_miner.SuffixArray.Runs.Emitted.{HasKey, IsRun, Emitted, total-one}
use dirtybird_go_gpu_miner.SuffixArray.Stable.{
  IsGroup, flatten, flatten-key_groups, key_groups-IsGroup, Each-split,
}
use dirtybird_go_gpu_miner.SuffixArray.Emit.{key_groups}
use dirtybird_go_gpu_miner.SuffixArray.Merge.{write_groups, write_fused_runs_to_sa, radix_sort_runs}
use dirtybird_go_gpu_miner.SuffixArray.Merge.Groups.{write_group-Written}
use dirtybird_go_gpu_miner.SuffixArray.Merge.Radix.{
  HasShortKey, radix_sort_runs-Each, radix_sort_runs-Sorted,
}
use dirtybird_go_gpu_miner.SuffixArray.Merge.Strict.{
  StrictGroups, key_groups-Strict, key_lt-SuffixLe,
}

-- The key that all records of a group have.
abbrev group_key : List Run → ℕ
group_key [] = 0
group_key (r ∷ rs) = r.key

group_key-Each : (g : List Run) → IsGroup (λ r. r.key) g → Each (λ r. r.key ≡ group_key g) g
group_key-Each [] h = tt
group_key-Each (r ∷ rs) h = (refl, h)

module _ (v : View) (ok : IsView v) (arena : List ℕ) (size : ℕ) where
  -- What follows from the key for the positions of each record.
  abbrev ByKey : (ℕ → Type 0) → Run → Type 0
  ByKey Q r = (p : ℕ) → HasKey v r.key p → Q p

  record AllWritten (sa : List ℕ) (rs : List Run) (o : Outcome (Option (List ℕ))) : Type 1 where
    positions : List ℕ
    result : o ≡ returned (some (sa ++ positions))
    sorted : Sorted (SuffixLe v) positions
    by_key : (Q : ℕ → Type 0) → Each (ByKey Q) rs → Each Q positions
    measure : (f : ℕ → ℕ) → total f positions ≡ total (λ r. total f (run_positions arena r)) rs

  group-ByKey :
      (Q : ℕ → Type 0) (k : ℕ) (g : List Run) (ps : List ℕ)
      → IsGroup (λ r. r.key) g
      → k ≡ group_key g
      → Each (ByKey Q) g
      → Each (HasKey v k) ps
      → Each Q ps
  group-ByKey Q k [] ps group e h keyed = absurd group
  group-ByKey Q k (r ∷ rs) ps group e h keyed =
      Each-map (HasKey v k) Q (λ p q. h.0 p (subst (λ j. HasKey v j p) e q)) ps keyed

  later_keys :
      (g rs : List Run)
      → IsGroup (λ r. r.key) g
      → Each (λ x. Each (λ y. x.key < y.key) rs) g
      → Each (ByKey (λ p. (p < v.logical_len) × (group_key g < radix_at v.text p))) rs
  later_keys [] rs group h = absurd group
  later_keys (x ∷ g) rs group h =
      Each-map (λ y. x.key < y.key) (ByKey (λ p. (p < v.logical_len) × (x.key < radix_at v.text p)))
        (λ y lt p has. (has.0, omega (arith, has.1))) rs h.0

  write_groups-AllWritten :
      (gs : List (List Run)) (sa : List ℕ)
      → Each (IsGroup (λ r. r.key)) gs
      → Each (IsRun v arena) (flatten gs)
      → StrictGroups gs
      → length sa + total (λ r. total (λ p. 1) (run_positions arena r)) (flatten gs) ≤ size
      → AllWritten sa (flatten gs) (write_groups v arena size gs sa)
  unfolding write_groups
  write_groups-AllWritten [] sa groups h strict room = record {
    positions = [];
    result = ap (λ ps. returned (some ps)) (sym (append-nil sa));
    sorted = tt;
    by_key = λ Q q. tt;
    measure = λ f. refl;
  }
  write_groups-AllWritten (g ∷ gs) sa groups h strict room =
      let k = group_key g in
      let runs = Each-split (IsRun v arena) g (flatten gs) h in
      let counts = total-append (λ r. total (λ p. 1) (run_positions arena r)) g (flatten gs) in
      let first =
        write_group-Written v ok k arena size sa g groups.0 runs.0 (group_key-Each g groups.0)
          (omega (arith, counts)) in
      let ps = first.positions in
      let rest =
        write_groups-AllWritten gs (sa ++ ps) groups.1 runs.1 strict.1
          (omega (arith, counts, length-append sa ps, first.measure (λ p. 1), total-one ps)) in
      let later =
        rest.by_key (λ p. (p < v.logical_len) × (k < radix_at v.text p))
          (later_keys g (flatten gs) groups.0 strict.0) in
      record {
        positions = ps ++ rest.positions;
        result =
            rw (first.result, write_groups)
              (rest.result ∙ ap (λ xs. returned (some xs)) (append_assoc sa ps rest.positions));
        sorted = Sorted-append (SuffixLe v) ps rest.positions first.in_order.1 rest.sorted (
            Each-map (HasKey v k) (λ p. Each (SuffixLe v p) rest.positions)
              (λ p has.
                Each-map (λ q. (q < v.logical_len) × (k < radix_at v.text q)) (SuffixLe v p)
                  (λ q high. key_lt-SuffixLe v ok p q has.0 high.0 (omega (arith, has.1, high.1)))
                  rest.positions later)
              ps first.in_order.0);
        by_key = λ Q q.
            let split = Each-split (ByKey Q) g (flatten gs) q in
            Each-append Q ps rest.positions
              (group-ByKey Q k g ps groups.0 refl split.0 first.in_order.0) (rest.by_key Q split.1);
        measure = λ f.
            total-append f ps rest.positions
            ∙ ap₂ ◌+◌ (first.measure f) (rest.measure f)
            ∙ sym (total-append (λ r. total f (run_positions arena r)) g (flatten gs));
      }

  -- A record has a position, so its key is of three bytes.
  first_position :
      (r : Run) (rel n : ℕ)
      → 0 < n
      → (p : ℕ) × (ps : List ℕ) × (positions_from arena r rel n ≡ p ∷ ps)
  first_position r rel zero h = absurd (omega arith)
  first_position r rel (suc n) h =
      (fused_run_pos arena r rel, positions_from arena r (rel + 1) n, refl)

  some_count : (r : Run) → 0 < count r
  unfolding count
  some_count r = ground arith

  key_short : (r : Run) → IsRun v arena r → HasShortKey r
  unfolding run_positions
  key_short r h =
      let first = first_position r 0 (count r) (some_count r) in
      let keyed : Each (HasKey v r.key) (first.0 ∷ first.1) =
        subst (Each (HasKey v r.key)) first.2 h.keyed in
      let key = keyed.0.1 in
      let b0 = byte_at-lt v.text first.0 ok.bytes in
      let b1 = byte_at-lt v.text (first.0 + 1) ok.bytes in
      let b2 = byte_at-lt v.text (first.0 + 2) ok.bytes in omega arith

-- `writeFusedRunsToSA` neither reports `false` nor writes out of range on a scratch that has collected
-- positions of the text in sorted records under their keys, as many as `sa` has entries: it leaves
-- those positions, in the order of their suffixes. The text is bytes with three zeros behind its end,
-- and the second radix buffer has room for the fewer than 2 ^ 32 records.
pub write_fused_runs_to_sa_lem :
    (v : View) (radix_tmp : List Run) (s : V114Scratch) (w : (ℕ → ℕ) → ℕ) (size : ℕ)
    → IsView v
    → Emitted v w s
    → w (λ p. 1) ≡ size
    → length s.runs ≤ length radix_tmp
    → length s.runs < 2 ^ 32
    → (sa : List ℕ) × (write_fused_runs_to_sa v radix_tmp s size ≡ returned (some sa))
      × Sorted (SuffixLe v) sa
      × Each (λ p. p < v.logical_len) sa
      × ((f : ℕ → ℕ) → total f sa ≡ w f)
unfolding write_fused_runs_to_sa
write_fused_runs_to_sa_lem v radix_tmp s w size ok h full room small =
    let rs = radix_sort_runs radix_tmp s.runs in
    let gs = key_groups (λ r. r.key) rs in
    let short =
      Each-map (IsRun v s.arena) HasShortKey (key_short v ok s.arena size) s.runs h.each in
    let radix = radix_sort_runs-Sorted radix_tmp s.runs room small short in
    let same = flatten-key_groups (λ r. r.key) rs in
    let all_runs : Each (IsRun v s.arena) (flatten gs) =
      subst (Each (IsRun v s.arena)) (sym same)
        (radix_sort_runs-Each radix_tmp s.runs room small (IsRun v s.arena) h.each) in
    let sum : (f : ℕ → ℕ) → total (λ r. total f (run_positions s.arena r)) (flatten gs) ≡ w f = λ f.
      ap (total (λ r. total f (run_positions s.arena r))) same
      ∙ radix.1 (λ r. total f (run_positions s.arena r))
      ∙ h.sum f in
    let out =
      write_groups-AllWritten v ok s.arena size gs [] (key_groups-IsGroup (λ r. r.key) rs) all_runs
        (key_groups-Strict rs radix.0) (omega (arith, sum (λ p. 1))) in
    let whole : (length out.positions == size) ≡ true =
      let n = sym (total-one out.positions) ∙ out.measure (λ p. 1) ∙ sum (λ p. 1) ∙ full in
      ground arith in
    (
      out.positions,
      rw (out.result, write_fused_runs_to_sa, whole) refl,
      out.sorted,
      out.by_key (λ p. p < v.logical_len)
          (Each-map (IsRun v s.arena) (λ r. (p : ℕ) → HasKey v r.key p → p < v.logical_len)
            (λ r q p has. has.0) (flatten gs) all_runs),
      (λ f. out.measure f ∙ sum f),
    )

-- There are no more records than positions.
pub runs_fit :
    (v : View) (s : V114Scratch) (w : (ℕ → ℕ) → ℕ)
    → IsView v
    → Emitted v w s
    → length s.runs ≤ w (λ p. 1)
unfolding run_positions
runs_fit v s w ok h = omega (arith, fewer s.runs, h.sum (λ p. 1))
  where
    one : (r : Run) → 1 ≤ total (λ p. 1) (run_positions s.arena r)
    one r =
        let first = first_position v ok s.arena 0 r 0 (count r) (some_count v ok s.arena 0 r) in
        omega (arith, ap (total (λ p. 1)) first.2)

    fewer : (rs : List Run) → length rs ≤ total (λ r. total (λ p. 1) (run_positions s.arena r)) rs
    fewer [] = omega arith
    fewer (r ∷ rs) = omega (arith, one r, fewer rs)
