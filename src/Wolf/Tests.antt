-- ===== src/Wolf/Tests.antt =====
-- The theorems on the byte programs at concrete cases.
use dirtybird_go_gpu_miner.Prelude.{◌≡◌, arith, get_or, []}
use dirtybird_go_gpu_miner.Wolf.Switch.{case_byte}
use dirtybird_go_gpu_miner.Wolf.Table.{wolf_ops, wolf_apply_byte, wolf_op_table}
use dirtybird_go_gpu_miner.Wolf.Agree.{
  case_byte-eq-wolf_apply_byte, flat_codes, flat_codes-wolf_op_table,
}

case_byte-eq-wolf_apply_byte_example : case_byte 17 0x5c 0xe1 ≡ wolf_apply_byte 17 0x5c 0xe1
case_byte-eq-wolf_apply_byte_example = case_byte-eq-wolf_apply_byte 17 (omega arith) 0x5c 0xe1

flat_codes-wolf_op_table_example : flat_codes wolf_op_table 200 ≡ get_or wolf_ops 200 []
flat_codes-wolf_op_table_example = flat_codes-wolf_op_table 200 (omega arith)
