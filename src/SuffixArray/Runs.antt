-- ===== src/SuffixArray/Runs.antt =====
-- The descriptor records (`stage5Run`) and the buffers they are collected in (`v114Scratch`). The
-- fields `order`, `radixTmp`, `groupPos`, `mergePos`, `runLens` and `nextLens` hold nothing from one
-- call to the next: they are local values here.
pub mod Positions
pub mod Emitted
use dirtybird_go_gpu_miner.Prelude.{
  ℕ, zero, suc, ◌+◌, ◌*◌, ◌/◌, ◌^◌, List, [], ◌∷◌, ◌++◌, Bool, ◌==◌, if◌then◌else◌, byte_at,
  bit_and,
}

-- `arenaIndexCount`, `stage4MaxGroupRun`, `stage4ShortRunMax`
abbrev pub arena_index_count : ℕ
arena_index_count = 0x20000

abbrev pub stage4_max_group_run : ℕ
stage4_max_group_run = arena_index_count / 2 ^ 8

abbrev pub stage4_short_run_max : ℕ
stage4_short_run_max = 25

-- `stage5Run`
pub record Run : Type 0 where
  pub key : ℕ
  pub packed : ℕ

unfoldable pub encoded_count : Run → ℕ
encoded_count r = r.packed / 2 ^ 17

unfoldable pub is_literal : Run → Bool
unfolding encoded_count
is_literal r = encoded_count r == 0

unfoldable pub begin : Run → ℕ
begin r = bit_and r.packed 0x1ffff

unfoldable pub count : Run → ℕ
unfolding encoded_count
count r = if encoded_count r == 0 then 1 else encoded_count r

-- `v114Scratch`
pub record V114Scratch : Type 0 where
  pub arena : List ℕ
  pub runs : List Run

-- `v.runs = append(v.runs, r)`
abbrev pub append_run : V114Scratch → Run → V114Scratch
append_run v r = record { arena = v.arena; runs = v.runs ++ (r ∷ []) }

-- `fusedRunPos`
unfoldable pub fused_run_pos : List ℕ → Run → ℕ → ℕ
unfolding begin is_literal
fused_run_pos arena r rel = if is_literal r then begin r else byte_at arena (begin r + rel)

-- `for rel := 0; rel < count; rel++`
abbrev pub positions_from : List ℕ → Run → ℕ → ℕ → List ℕ
positions_from arena r rel zero = []
positions_from arena r rel (suc n) = fused_run_pos arena r rel ∷ positions_from arena r (rel + 1) n

-- The positions a record stands for.
unfoldable pub run_positions : List ℕ → Run → List ℕ
unfolding count
run_positions arena r = positions_from arena r 0 (count r)
