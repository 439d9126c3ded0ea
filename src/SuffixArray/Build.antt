-- ===== src/SuffixArray/Build.antt =====
-- `buildSAv114` and `buildStage5Flags` of internal/astrobwt/sa_v114.go. `ScratchData` stands for the
-- fields of the Go struct that these functions read; what they write of it (the padding, the flags)
-- is written anew in every call before it is read.
pub mod Exact
use dirtybird_go_gpu_miner.Prelude.{
  ℕ, zero, suc, ◌+◌, ◌-◌, ◌*◌, ◌/◌, ◌^◌, List, [], ◌∷◌, length, drop, replicate, set, byte_at, ◌++◌,
  Bool, true, false, ltb, ◌==◌, ◌&&◌, ◌||◌, not, if◌then◌else◌, Option, none, some, bit_and,
  Outcome, returned, panicked, for_range,
}
use dirtybird_go_gpu_miner.SuffixArray.View.{View}
use dirtybird_go_gpu_miner.SuffixArray.Runs.{Run, V114Scratch, arena_index_count}
use dirtybird_go_gpu_miner.SuffixArray.Emit.{emit_full_group_run, emit_literal_records}
use dirtybird_go_gpu_miner.SuffixArray.Merge.{write_fused_runs_to_sa}

-- `ScratchData`
pub record ScratchData : Type 0 where
  pub text : List ℕ  -- data
  pub markers : List ℕ
  pub n_templates : ℕ
  pub flags : List ℕ
  pub radix_tmp : List Run

-- One template's marker: its boundary, when it has groups and ends within the text, is flagged.
unfoldable pub flag_boundary : List ℕ → ℕ → ℕ → List ℕ → List ℕ
flag_boundary markers flags_len i flags =
    let pos_data = byte_at markers i in
    let start_group = pos_data / 2 ^ 7 in
    let group_count = bit_and pos_data 0x7f in
    let boundary = start_group + group_count in
    if not (group_count == 0) && (ltb 0 boundary && ltb boundary flags_len)
    then set flags boundary 1
    else flags

-- `buildStage5Flags`: the flags, and the number of them that it returns.
unfoldable pub build_stage5_flags : List ℕ → ℕ → ℕ → List ℕ → List ℕ × ℕ
unfolding flag_boundary for_range
build_stage5_flags markers n_templates logical_len flags =
    let flags_len = logical_len / 2 ^ 8 + 1 in
    let cleared = set (replicate flags_len 0 ++ drop flags_len flags) 0 1 in
    let limit = if ltb 277 n_templates then 277 else n_templates in
    if logical_len == 0
    then (flags, 0)
    else if ltb (length flags) flags_len
    then (flags, 0)
    else (for_range (flag_boundary markers flags_len) limit 0 cleared, flags_len)

-- The loop over the groups of `buildSAv114`, `n` rounds from `group` on.
unfoldable pub emit_runs : View → List ℕ → ℕ → ℕ → ℕ → ℕ → V114Scratch → Option V114Scratch
unfolding emit_full_group_run
emit_runs view flags full_groups zero group run_start v = some v
emit_runs view flags full_groups (suc n) group run_start v =
    let emitted = emit_runs view flags full_groups n (group + 1) group in
    let skipped = emit_runs view flags full_groups n (group + 1) run_start v in
    if not (byte_at flags group == 0) || (group == full_groups)
    then elim (emit_full_group_run view run_start group v) [ none ↦ none | some v' ↦ emitted v' ]
    else skipped

-- `s.data[logicalLen+i] = 0`, four times.
unfoldable pub zero_padding : List ℕ → ℕ → List ℕ
zero_padding text n = set (set (set (set text n 0) (n + 1) 0) (n + 2) 0) (n + 3) 0

-- `buildSAv114`: the suffix array in `sa[:logicalLen]`, or `none` where it declines.
unfoldable pub build_sa_v114 : Bool → ScratchData → ℕ → Outcome (Option (List ℕ))
unfolding build_stage5_flags emit_runs emit_literal_records write_fused_runs_to_sa zero_padding
build_sa_v114 little_endian s logical_len =
    let view : View = record {
      text = zero_padding s.text logical_len;
      logical_len = logical_len;
    } in
    let flagged = build_stage5_flags s.markers s.n_templates logical_len s.flags in
    let full_groups = logical_len / 2 ^ 8 in
    let tail = emit_literal_records view (full_groups * 2 ^ 8) (bit_and logical_len 0xff) in
    let built : Outcome (Option (List ℕ)) =
      elim (emit_runs view flagged.0 full_groups full_groups 1 0
        (record { arena = []; runs = [] })) [
          | none ↦ returned none
          | some v ↦ write_fused_runs_to_sa view s.radix_tmp (tail v) logical_len
        ] in
    if not little_endian
      || ((logical_len == 0) || (ltb arena_index_count logical_len || (s.n_templates == 0)))
    then returned none
    else if flagged.1 == 0
    then returned none
    else built
