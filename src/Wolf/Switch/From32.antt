-- ===== src/Wolf/Switch/From32.antt =====
-- The cases 32 to 63 of the switch in `astroBWTv3Stream` (internal/astrobwt/pow.go): what the
-- statements between the INSERT_RANDOM_CODE marks make of `step_3[i]`, here `x`, where `p` is
-- `step_3[pos2]`. There is a binding for each statement but the last, which is the result.
use dirtybird_go_gpu_miner.Prelude.{ℕ, ◌==◌, if◌then◌else◌, bit_and, bit_xor}
use dirtybird_go_gpu_miner.Word.{
  rotate_left8, shl8, shr8, not8, ones_count8, add8, mul8, reverse8, sub8,
}

unfoldable pub cases_32_47 : ℕ → ℕ → ℕ → ℕ
cases_32_47 op x p =
    if op == 32
    then (let a = bit_xor x (rotate_left8 x 2) in
        let b = reverse8 a in let c = rotate_left8 b 3 in bit_xor c (rotate_left8 c 2))
    else if op == 33
    then (let a = rotate_left8 x x in
        let b = bit_xor a (rotate_left8 a 4) in let c = reverse8 b in mul8 c c)
    else if op == 34
    then (let a = sub8 x (bit_xor x 97) in
        let b = shl8 a (bit_and a 3) in let c = shl8 b (bit_and b 3) in sub8 c (bit_xor c 97))
    else if op == 35
    then (let a = add8 x x in let b = not8 a in let c = rotate_left8 b 1 in bit_xor c p)
    else if op == 36
    then (let a = bit_xor x (ones_count8 x) in
        let b = rotate_left8 a 1 in let c = bit_xor b (rotate_left8 b 2) in rotate_left8 c 1)
    else if op == 37
    then (let a = rotate_left8 x x in
        let b = shr8 a (bit_and a 3) in let c = shr8 b (bit_and b 3) in mul8 c c)
    else if op == 38
    then (let a = shr8 x (bit_and x 3) in
        let b = rotate_left8 a 3 in let c = bit_xor b (ones_count8 b) in rotate_left8 c c)
    else if op == 39
    then (let a = bit_xor x (rotate_left8 x 2) in
        let b = bit_xor a p in let c = shr8 b (bit_and b 3) in bit_and c p)
    else if op == 40
    then (let a = rotate_left8 x x in
        let b = bit_xor a p in let c = bit_xor b (ones_count8 b) in bit_xor c p)
    else if op == 41
    then (let a = rotate_left8 x 5 in
        let b = sub8 a (bit_xor a 97) in let c = rotate_left8 b 3 in bit_xor c (rotate_left8 c 4))
    else if op == 42
    then (let a = rotate_left8 x 1 in
        let b = rotate_left8 a 3 in let c = bit_xor b (rotate_left8 b 2) in rotate_left8 c c)
    else if op == 43
    then (let a = bit_and x p in let b = add8 a a in let c = bit_and b p in sub8 c (bit_xor c 97))
    else if op == 44
    then (let a = bit_xor x (ones_count8 x) in
        let b = bit_xor a (ones_count8 a) in let c = rotate_left8 b 3 in rotate_left8 c c)
    else if op == 45
    then (let a = rotate_left8 x 5 in
        let b = rotate_left8 a 5 in let c = bit_and b p in bit_xor c (ones_count8 c))
    else if op == 46
    then (let a = bit_xor x (ones_count8 x) in
        let b = add8 a a in let c = rotate_left8 b 5 in bit_xor c (rotate_left8 c 4))
    else if op == 47
    then (let a = rotate_left8 x 5 in
        let b = bit_and a p in let c = rotate_left8 b 5 in shl8 c (bit_and c 3))
    else x

unfoldable pub cases_48_63 : ℕ → ℕ → ℕ → ℕ
cases_48_63 op x p =
    if op == 48
    then (let a = rotate_left8 x x in let b = not8 a in let c = not8 b in rotate_left8 c 5)
    else if op == 49
    then (let a = bit_xor x (ones_count8 x) in
        let b = add8 a a in let c = reverse8 b in bit_xor c (rotate_left8 c 4))
    else if op == 50
    then (let a = reverse8 x in let b = rotate_left8 a 3 in let c = add8 b b in rotate_left8 c 1)
    else if op == 51
    then (let a = bit_xor x p in
        let b = bit_xor a (rotate_left8 a 4) in
        let c = bit_xor b (rotate_left8 b 4) in rotate_left8 c 5)
    else if op == 52
    then (let a = rotate_left8 x x in
        let b = shr8 a (bit_and a 3) in let c = not8 b in bit_xor c (ones_count8 c))
    else if op == 53
    then (let a = add8 x x in
        let b = bit_xor a (ones_count8 a) in
        let c = bit_xor b (rotate_left8 b 4) in bit_xor c (rotate_left8 c 4))
    else if op == 54
    then (let a = reverse8 x in let b = bit_xor a p in let c = not8 b in not8 c)
    else if op == 55
    then (let a = reverse8 x in
        let b = bit_xor a (rotate_left8 a 4) in
        let c = bit_xor b (rotate_left8 b 4) in rotate_left8 c 1)
    else if op == 56
    then (let a = bit_xor x (rotate_left8 x 2) in
        let b = mul8 a a in let c = not8 b in rotate_left8 c 1)
    else if op == 57
    then (let a = rotate_left8 x x in
        let b = rotate_left8 a 5 in let c = rotate_left8 b 3 in reverse8 c)
    else if op == 58
    then (let a = reverse8 x in
        let b = bit_xor a (rotate_left8 a 2) in let c = bit_and b p in add8 c c)
    else if op == 59
    then (let a = rotate_left8 x 1 in let b = mul8 a a in let c = rotate_left8 b b in not8 c)
    else if op == 60
    then (let a = bit_xor x p in let b = not8 a in let c = mul8 b b in rotate_left8 c 3)
    else if op == 61
    then (let a = rotate_left8 x 5 in
        let b = shl8 a (bit_and a 3) in let c = rotate_left8 b 3 in rotate_left8 c 5)
    else if op == 62
    then (let a = bit_and x p in let b = not8 a in let c = bit_xor b (rotate_left8 b 2) in add8 c c)
    else if op == 63
    then (let a = rotate_left8 x 5 in
        let b = bit_xor a (ones_count8 a) in let c = sub8 b (bit_xor b 97) in add8 c c)
    else x
