-- ===== src/Hash/Lanes/Standard.antt =====
-- SHA-256 around its compression function, as FIPS 180-4 writes it: the initial state (5.3.3), the
-- padding (5.1.1) and the digest (6.2.2). It takes nothing from the Go code.
use dirtybird_go_gpu_miner.Prelude.{
  ℕ, zero, suc, ◌-◌, ◌*◌, ◌/◌, ◌%◌, ◌^◌, ◌≤◌, ◌<◌, List, [], ◌∷◌, ◌++◌, replicate, arith,
}

-- The last `count` digits of a number to the base 256, the highest first.
unfoldable pub be_digits : ℕ → ℕ → List ℕ
be_digits zero x = []
be_digits (suc count) x = x / 256 ^ count % 256 ∷ be_digits count x

-- The square root of `m`, rounded down.
pub record FloorRoot (m : ℕ) : Type 0 where
  pub root : ℕ
  pub below : root * root ≤ m
  pub above : m < suc root * suc root

-- The square roots of the first eight primes, with 32 bits after the point.
abbrev root_2 : FloorRoot (2 * 2 ^ 64)
root_2 = record { root = 6074000999; below = omega arith; above = omega arith }

abbrev root_3 : FloorRoot (3 * 2 ^ 64)
root_3 = record { root = 7439101573; below = omega arith; above = omega arith }

abbrev root_5 : FloorRoot (5 * 2 ^ 64)
root_5 = record { root = 9603838834; below = omega arith; above = omega arith }

abbrev root_7 : FloorRoot (7 * 2 ^ 64)
root_7 = record { root = 11363415354; below = omega arith; above = omega arith }

abbrev root_11 : FloorRoot (11 * 2 ^ 64)
root_11 = record { root = 14244795007; below = omega arith; above = omega arith }

abbrev root_13 : FloorRoot (13 * 2 ^ 64)
root_13 = record { root = 15485724812; below = omega arith; above = omega arith }

abbrev root_17 : FloorRoot (17 * 2 ^ 64)
root_17 = record { root = 17708603819; below = omega arith; above = omega arith }

abbrev root_19 : FloorRoot (19 * 2 ^ 64)
root_19 = record { root = 18721328409; below = omega arith; above = omega arith }

-- The first 32 bits of the fractional parts of these roots.
abbrev pub standard_iv : List ℕ
standard_iv =
    root_2.root % 2 ^ 32
    ∷ root_3.root % 2 ^ 32
    ∷ root_5.root % 2 ^ 32
    ∷ root_7.root % 2 ^ 32
    ∷ root_11.root % 2 ^ 32
    ∷ root_13.root % 2 ^ 32
    ∷ root_17.root % 2 ^ 32
    ∷ root_19.root % 2 ^ 32
    ∷ []

-- A bit 1, zeros up to 8 bytes before the end of a block, and the length in bits.
unfoldable pub standard_padding : ℕ → List ℕ
unfolding be_digits
standard_padding n = 0x80 ∷ (replicate ((119 - n % 64) % 64) 0 ++ be_digits 8 (8 * n))

-- The words of the state, 4 bytes each.
unfoldable pub digest : List ℕ → List ℕ
unfolding be_digits
digest [] = []
digest (word ∷ words) = be_digits 4 word ++ digest words
