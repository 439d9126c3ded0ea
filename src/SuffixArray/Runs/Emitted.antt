-- ===== src/SuffixArray/Runs/Emitted.antt =====
-- What a scratch has collected: sorted records with their keys, which together stand for given
-- positions. Positions are counted by measures: a sum over all of them for every weight.
use dirtybird_go_gpu_miner.Prelude.{
  ℕ, ◌+◌, ◌-◌, ◌*◌, ◌%◌, ◌^◌, ◌≤◌, ◌<◌, ◌≡◌, refl, sym, ap, ◌∙◌, subst, arith, List, [], ◌∷◌, ◌++◌,
  Option, none, some, false, ltb, length, length-append, true≢false, ap₂, Each, Each-append,
  Each-map,
}
use dirtybird_go_gpu_miner.Word.{u32, sub32}
use dirtybird_go_gpu_miner.SuffixArray.View.{View, radix_order_key}
use dirtybird_go_gpu_miner.SuffixArray.Keys.{radix_at}
use dirtybird_go_gpu_miner.SuffixArray.Sorting.{Sorted, total, total-append}
use dirtybird_go_gpu_miner.SuffixArray.Order.{SuffixLe}
use dirtybird_go_gpu_miner.SuffixArray.Runs.{
  Run, V114Scratch, append_run, is_literal, begin, count, run_positions, arena_index_count,
}
use dirtybird_go_gpu_miner.SuffixArray.Runs.Positions.{
  literal_parts, literal_positions, packed_parts, group_positions, run_positions-append,
}
use dirtybird_go_gpu_miner.SuffixArray.Emit.{append_order_group}

-- A position of the text with this key.
abbrev pub HasKey : View → ℕ → ℕ → Type 0
HasKey v k p = (p < v.logical_len) × (radix_at v.text p ≡ k)

pub record IsRun (v : View) (arena : List ℕ) (r : Run) : Type 0 where
  pub keyed : Each (HasKey v r.key) (run_positions arena r)
  pub sorted : Sorted (SuffixLe v) (run_positions arena r)
  pub inside : is_literal r ≡ false → begin r + count r ≤ length arena

-- `w` is the measure of the positions the records stand for.
pub record Emitted (v : View) (w : (ℕ → ℕ) → ℕ) (s : V114Scratch) : Type 0 where
  pub each : Each (IsRun v s.arena) s.runs
  pub sum : (f : ℕ → ℕ) → total (λ r. total f (run_positions s.arena r)) s.runs ≡ w f
  pub size : length s.arena ≤ w (λ p. 1)

-- The function does not decline, and this is what it has collected.
abbrev pub Emits : View → ((ℕ → ℕ) → ℕ) → Option V114Scratch → Type 0
Emits v w none = ⊥
Emits v w (some s) = Emitted v w s

pub Emitted-cong :
    (v : View) (w w' : (ℕ → ℕ) → ℕ) (s : V114Scratch)
    → ((f : ℕ → ℕ) → w f ≡ w' f)
    → Emitted v w s
    → Emitted v w' s
Emitted-cong v w w' s e h = record {
  each = h.each;
  sum = λ f. h.sum f ∙ e f;
  size = subst (λ n. length s.arena ≤ n) (e (λ p. 1)) h.size;
}

-- The measure that counts.
pub total-one : (ps : List ℕ) → total (λ p. 1) ps ≡ length ps
total-one [] = refl
total-one (p ∷ ps) = omega (arith, total-one ps)

module _ (v : View) (short : v.logical_len ≤ 2 ^ 17) where
  -- A literal record is one more position.
  pub Emitted-literal :
      (w : (ℕ → ℕ) → ℕ) (s : V114Scratch) (k p : ℕ)
      → HasKey v k p
      → Emitted v w s
      → Emitted v (λ f. w f + f p) (append_run s (record { key = k; packed = p }))
  Emitted-literal w s k p h ok =
      let only = literal_positions s.arena k p (omega (arith, h.0)) in
      let parts = literal_parts k p (omega (arith, h.0)) in
      record {
        each = Each-append (IsRun v s.arena) s.runs _ ok.each (
          record {
            keyed = rw only (h, tt);
            sorted = rw only (tt, tt);
            inside = λ e. absurd (true≢false (sym parts.0 ∙ e));
          },
          tt,
        );
        sum = λ f.
            total-append (λ r. total f (run_positions s.arena r)) s.runs _
            ∙ ap (λ t. t + (total f (run_positions s.arena (record { key = k; packed = p })) + 0))
                (ok.sum f)
            ∙ ap (λ ps. w f + (total f ps + 0)) only
            ∙ omega arith;
        size = let before = ok.size in omega arith;
      }

  total-arena :
      (f : ℕ → ℕ) (arena more : List ℕ) (rs : List Run)
      → Each (IsRun v arena) rs
      → total (λ r. total f (run_positions (arena ++ more) r)) rs
        ≡ total (λ r. total f (run_positions arena r)) rs
  total-arena f arena more [] h = refl
  total-arena f arena more (r ∷ rs) h =
      ap₂ ◌+◌ (ap (total f) (run_positions-append arena more r h.0.inside))
        (total-arena f arena more rs h.1)

  IsRun-arena : (arena more : List ℕ) (r : Run) → IsRun v arena r → IsRun v (arena ++ more) r
  IsRun-arena arena more r h =
      let same = run_positions-append arena more r h.inside in
      record {
        keyed = rw same h.keyed;
        sorted = rw same h.sorted;
        inside = λ e. let b = h.inside e in omega (arith, length-append arena more);
      }

  -- The record of a group is its positions more.
  pub Emitted-group :
      (w : (ℕ → ℕ) → ℕ) (s : V114Scratch) (k : ℕ) (order : List ℕ)
      → 2 ≤ length order
      → length order < 2 ^ 15
      → length s.arena < 2 ^ 17
      → Each (HasKey v k) order
      → Sorted (SuffixLe v) order
      → Emitted v w s
      → Emitted v
          (λ f. w f + total f order)
          (append_run
            (record { arena = s.arena ++ order; runs = s.runs })
            (record { key = k; packed = u32 (u32 (length order * 2 ^ 17) + length s.arena) }))
  Emitted-group w s k order low high room keyed sorted ok =
      let arena = s.arena ++ order in
      let r : Run = record {
        key = k;
        packed = u32 (u32 (length order * 2 ^ 17) + length s.arena);
      } in
      let only = group_positions s.arena order k low high room in
      let parts = packed_parts k (length order) (length s.arena) low high room in
      record {
        each =
            Each-append (IsRun v arena) s.runs (r ∷ [])
              (Each-map (IsRun v s.arena) (IsRun v arena) (IsRun-arena s.arena order) s.runs
                ok.each)
              (
                record {
                  keyed = rw only keyed;
                  sorted = rw only sorted;
                  inside = λ e. omega (arith, parts.1, parts.2, length-append s.arena order);
                },
                tt,
              );
        sum = λ f.
            total-append (λ q. total f (run_positions arena q)) s.runs (r ∷ [])
            ∙ ap₂ (λ t ps. t + (total f ps + 0))
                (total-arena f s.arena order s.runs ok.each ∙ ok.sum f) only
            ∙ omega arith;
        size = let before = ok.size in omega (arith, length-append s.arena order, total-one order);
      }

  -- Nothing is declined below the arena's limit.
  pub append_order_group-Emits :
      (w : (ℕ → ℕ) → ℕ) (s : V114Scratch) (k : ℕ) (order : List ℕ)
      → 0 < length order
      → length order < 2 ^ 15
      → w (λ p. 1) + length order ≤ 2 ^ 17
      → Each (HasKey v (radix_order_key k)) order
      → Sorted (SuffixLe v) order
      → Emitted v w s
      → Emits v (λ f. w f + total f order) (append_order_group s k order)
  unfolding append_order_group sub32
  append_order_group-Emits w s k [] some_ high room keyed sorted ok = absurd (omega arith)
  append_order_group-Emits w s k (p ∷ []) some_ high room keyed sorted ok =
      Emitted-cong v _ _ _ (λ f. omega arith) (Emitted-literal w s (radix_order_key k) p keyed.0 ok)
  append_order_group-Emits w s k (p ∷ p' ∷ ps) some_ high room keyed sorted ok =
      let order = p ∷ p' ∷ ps in
      let before = ok.size in
      let free : ltb arena_index_count (length s.arena) ≡ false = ground arith in
      let left : (0x20000 + 2 ^ 32 - length s.arena) % 2 ^ 32 ≡ 0x20000 - length s.arena =
        omega arith in
      let fits : ltb (0x20000 - length s.arena) (length order) ≡ false = ground arith in
      rw (left, free, fits)
        (Emitted-group w s (radix_order_key k) order (omega arith) high (omega arith) keyed sorted
          ok)
