-- ===== src/Wolf/Switch.antt =====
-- The switch of `astroBWTv3Stream` (internal/astrobwt/pow.go) as one function of the case, the
-- byte `step_3[i]` and the byte `step_3[pos2]`. The children hold its cases, 32 to a file.
mod From0
mod From32
mod From64
mod From96
mod From128
mod From160
mod From192
mod From224
use dirtybird_go_gpu_miner.Prelude.{ℕ, ltb, if◌then◌else◌}
use From0.{cases_0_15, cases_16_31}
use From32.{cases_32_47, cases_48_63}
use From64.{cases_64_79, cases_80_95}
use From96.{cases_96_111, cases_112_127}
use From128.{cases_128_143, cases_144_159}
use From160.{cases_160_175, cases_176_191}
use From192.{cases_192_207, cases_208_223}
use From224.{cases_224_239, cases_240_255}

-- Case `op` on the byte `x`.
unfoldable pub case_byte : ℕ → ℕ → ℕ → ℕ
unfolding cases_0_15 cases_16_31 cases_32_47 cases_48_63 cases_64_79 cases_80_95 cases_96_111
    cases_112_127 cases_128_143 cases_144_159 cases_160_175 cases_176_191 cases_192_207
    cases_208_223 cases_224_239 cases_240_255
case_byte op x p =
    if ltb op 16
    then cases_0_15 op x p
    else if ltb op 32
    then cases_16_31 op x p
    else if ltb op 48
    then cases_32_47 op x p
    else if ltb op 64
    then cases_48_63 op x p
    else if ltb op 80
    then cases_64_79 op x p
    else if ltb op 96
    then cases_80_95 op x p
    else if ltb op 112
    then cases_96_111 op x p
    else if ltb op 128
    then cases_112_127 op x p
    else if ltb op 144
    then cases_128_143 op x p
    else if ltb op 160
    then cases_144_159 op x p
    else if ltb op 176
    then cases_160_175 op x p
    else if ltb op 192
    then cases_176_191 op x p
    else if ltb op 208
    then cases_192_207 op x p
    else if ltb op 224
    then cases_208_223 op x p
    else if ltb op 240
    then cases_224_239 op x p
    else cases_240_255 op x p
