-- ===== src/Wolf/Table/High.antt =====
-- Rows 128 to 255 of the generated table in internal/astrobwt/wolftable_gen.go: for each case its
-- micro-op codes, each an operation number times 256 plus a parameter.
use dirtybird_go_gpu_miner.Prelude.{ℕ, List, [], ◌∷◌}

unfoldable pub rows_128 : List (List ℕ) → List (List ℕ)
rows_128 rest =
    (0x0a00 ∷ 0x0202 ∷ 0x0202 ∷ 0x0105 ∷ [])
    ∷ (0x0700 ∷ 0x0800 ∷ 0x0800 ∷ 0x0400 ∷ [])
    ∷ (0x0400 ∷ 0x0a00 ∷ 0x0101 ∷ 0x0204 ∷ [])
    ∷ (0x0d00 ∷ 0x0101 ∷ 0x0800 ∷ 0x0c00 ∷ [])
    ∷ (0x0600 ∷ 0x0900 ∷ 0x0105 ∷ 0x0202 ∷ [])
    ∷ (0x0500 ∷ 0x0105 ∷ 0x0202 ∷ 0x0300 ∷ [])
    ∷ (0x0700 ∷ 0x0204 ∷ 0x0101 ∷ 0x0600 ∷ [])
    ∷ (0x0400 ∷ 0x0202 ∷ 0x0b00 ∷ 0x0900 ∷ [])
    ∷ (0x0400 ∷ 0x0d00 ∷ 0x0500 ∷ 0x0105 ∷ [])
    ∷ (0x0105 ∷ 0x0400 ∷ 0x0900 ∷ 0x0a00 ∷ [])
    ∷ (0x0500 ∷ 0x0500 ∷ 0x0b00 ∷ 0x0d00 ∷ [])
    ∷ (0x0105 ∷ 0x0103 ∷ 0x0202 ∷ 0x0103 ∷ [])
    ∷ (0x0101 ∷ 0x0202 ∷ 0x0500 ∷ 0x0105 ∷ [])
    ∷ (0x0101 ∷ 0x0d00 ∷ 0x0800 ∷ 0x0b00 ∷ [])
    ∷ (0x0600 ∷ 0x0105 ∷ 0x0900 ∷ 0x0202 ∷ [])
    ∷ (0x0600 ∷ 0x0103 ∷ 0x0400 ∷ 0x0300 ∷ [])
    ∷ (0x0a00 ∷ 0x0300 ∷ 0x0700 ∷ 0x0a00 ∷ [])
    ∷ (0x0900 ∷ 0x0204 ∷ 0x0202 ∷ 0x0204 ∷ [])
    ∷ (0x0600 ∷ 0x0300 ∷ 0x0600 ∷ 0x0800 ∷ [])
    ∷ (0x0700 ∷ 0x0300 ∷ 0x0204 ∷ 0x0c00 ∷ [])
    ∷ (0x0600 ∷ 0x0105 ∷ 0x0300 ∷ 0x0d00 ∷ [])
    ∷ (0x0500 ∷ 0x0900 ∷ 0x0d00 ∷ 0x0b00 ∷ [])
    ∷ (0x0300 ∷ 0x0300 ∷ 0x0300 ∷ 0x0600 ∷ [])
    ∷ (0x0b00 ∷ 0x0300 ∷ 0x0c00 ∷ 0x0300 ∷ [])
    ∷ (0x0400 ∷ 0x0700 ∷ 0x0300 ∷ 0x0202 ∷ [])
    ∷ (0x0101 ∷ 0x0103 ∷ 0x0700 ∷ 0x0700 ∷ [])
    ∷ (0x0105 ∷ 0x0700 ∷ 0x0500 ∷ 0x0800 ∷ [])
    ∷ (0x0d00 ∷ 0x0500 ∷ 0x0800 ∷ 0x0500 ∷ [])
    ∷ (0x0400 ∷ 0x0400 ∷ 0x0103 ∷ 0x0101 ∷ [])
    ∷ (0x0400 ∷ 0x0300 ∷ 0x0a00 ∷ 0x0101 ∷ [])
    ∷ (0x0800 ∷ 0x0103 ∷ 0x0b00 ∷ 0x0101 ∷ [])
    ∷ (0x0d00 ∷ 0x0500 ∷ 0x0a00 ∷ 0x0500 ∷ [])
    ∷ (0x0400 ∷ 0x0900 ∷ 0x0101 ∷ 0x0103 ∷ [])
    ∷ (0x0500 ∷ 0x0500 ∷ 0x0105 ∷ 0x0a00 ∷ [])
    ∷ (0x0c00 ∷ 0x0900 ∷ 0x0202 ∷ 0x0d00 ∷ [])
    ∷ (0x0300 ∷ 0x0d00 ∷ 0x0204 ∷ 0x0101 ∷ [])
    ∷ (0x0c00 ∷ 0x0800 ∷ 0x0d00 ∷ 0x0700 ∷ [])
    ∷ (0x0204 ∷ 0x0500 ∷ 0x0300 ∷ 0x0b00 ∷ [])
    ∷ (0x0103 ∷ 0x0b00 ∷ 0x0202 ∷ 0x0700 ∷ [])
    ∷ (0x0700 ∷ 0x0700 ∷ 0x0c00 ∷ 0x0400 ∷ [])
    ∷ (0x0a00 ∷ 0x0600 ∷ 0x0a00 ∷ 0x0101 ∷ [])
    ∷ (0x0101 ∷ 0x0300 ∷ 0x0204 ∷ 0x0600 ∷ [])
    ∷ (0x0d00 ∷ 0x0900 ∷ 0x0d00 ∷ 0x0c00 ∷ [])
    ∷ (0x0103 ∷ 0x0d00 ∷ 0x0800 ∷ 0x0900 ∷ [])
    ∷ (0x0204 ∷ 0x0d00 ∷ 0x0300 ∷ 0x0101 ∷ [])
    ∷ (0x0700 ∷ 0x0300 ∷ 0x0c00 ∷ 0x0b00 ∷ [])
    ∷ (0x0700 ∷ 0x0a00 ∷ 0x0800 ∷ 0x0800 ∷ [])
    ∷ (0x0103 ∷ 0x0d00 ∷ 0x0c00 ∷ 0x0105 ∷ [])
    ∷ (0x0500 ∷ 0x0c00 ∷ 0x0500 ∷ 0x0105 ∷ [])
    ∷ (0x0800 ∷ 0x0202 ∷ 0x0202 ∷ 0x0600 ∷ [])
    ∷ (0x0600 ∷ 0x0b00 ∷ 0x0700 ∷ 0x0101 ∷ [])
    ∷ (0x0202 ∷ 0x0b00 ∷ 0x0400 ∷ 0x0900 ∷ [])
    ∷ (0x0400 ∷ 0x0204 ∷ 0x0500 ∷ 0x0d00 ∷ [])
    ∷ (0x0700 ∷ 0x0300 ∷ 0x0202 ∷ 0x0105 ∷ [])
    ∷ (0x0500 ∷ 0x0101 ∷ 0x0105 ∷ 0x0204 ∷ [])
    ∷ (0x0b00 ∷ 0x0d00 ∷ 0x0d00 ∷ 0x0c00 ∷ [])
    ∷ (0x0300 ∷ 0x0c00 ∷ 0x0105 ∷ 0x0500 ∷ [])
    ∷ (0x0700 ∷ 0x0204 ∷ 0x0105 ∷ 0x0400 ∷ [])
    ∷ (0x0202 ∷ 0x0204 ∷ 0x0d00 ∷ 0x0400 ∷ [])
    ∷ (0x0500 ∷ 0x0700 ∷ 0x0b00 ∷ 0x0103 ∷ [])
    ∷ (0x0204 ∷ 0x0800 ∷ 0x0204 ∷ 0x0204 ∷ [])
    ∷ (0x0105 ∷ 0x0204 ∷ 0x0500 ∷ 0x0d00 ∷ [])
    ∷ (0x0105 ∷ 0x0400 ∷ 0x0600 ∷ 0x0202 ∷ [])
    ∷ (0x0b00 ∷ 0x0103 ∷ 0x0a00 ∷ 0x0400 ∷ [])
    ∷ (0x0b00 ∷ 0x0300 ∷ 0x0b00 ∷ 0x0c00 ∷ [])
    ∷ (0x0600 ∷ 0x0300 ∷ 0x0a00 ∷ 0x0101 ∷ [])
    ∷ (0x0600 ∷ 0x0a00 ∷ 0x0300 ∷ 0x0600 ∷ [])
    ∷ (0x0800 ∷ 0x0202 ∷ 0x0500 ∷ 0x0204 ∷ [])
    ∷ (0x0103 ∷ 0x0900 ∷ 0x0300 ∷ 0x0101 ∷ [])
    ∷ (0x0204 ∷ 0x0a00 ∷ 0x0c00 ∷ 0x0c00 ∷ [])
    ∷ (0x0400 ∷ 0x0400 ∷ 0x0900 ∷ 0x0101 ∷ [])
    ∷ (0x0700 ∷ 0x0b00 ∷ 0x0c00 ∷ 0x0500 ∷ [])
    ∷ (0x0400 ∷ 0x0800 ∷ 0x0900 ∷ 0x0900 ∷ [])
    ∷ (0x0103 ∷ 0x0202 ∷ 0x0204 ∷ 0x0700 ∷ [])
    ∷ (0x0500 ∷ 0x0700 ∷ 0x0a00 ∷ 0x0105 ∷ [])
    ∷ (0x0500 ∷ 0x0600 ∷ 0x0101 ∷ 0x0a00 ∷ [])
    ∷ (0x0105 ∷ 0x0202 ∷ 0x0a00 ∷ 0x0500 ∷ [])
    ∷ (0x0800 ∷ 0x0204 ∷ 0x0300 ∷ 0x0b00 ∷ [])
    ∷ (0x0204 ∷ 0x0900 ∷ 0x0900 ∷ 0x0800 ∷ [])
    ∷ (0x0105 ∷ 0x0103 ∷ 0x0800 ∷ 0x0800 ∷ [])
    ∷ (0x0b00 ∷ 0x0b00 ∷ 0x0400 ∷ 0x0103 ∷ [])
    ∷ (0x0105 ∷ 0x0900 ∷ 0x0800 ∷ 0x0d00 ∷ [])
    ∷ (0x0202 ∷ 0x0a00 ∷ 0x0105 ∷ 0x0700 ∷ [])
    ∷ (0x0204 ∷ 0x0b00 ∷ 0x0d00 ∷ 0x0a00 ∷ [])
    ∷ (0x0a00 ∷ 0x0202 ∷ 0x0500 ∷ 0x0500 ∷ [])
    ∷ (0x0b00 ∷ 0x0300 ∷ 0x0103 ∷ 0x0d00 ∷ [])
    ∷ (0x0500 ∷ 0x0d00 ∷ 0x0400 ∷ 0x0700 ∷ [])
    ∷ (0x0500 ∷ 0x0600 ∷ 0x0300 ∷ 0x0c00 ∷ [])
    ∷ (0x0a00 ∷ 0x0700 ∷ 0x0d00 ∷ 0x0600 ∷ [])
    ∷ (0x0105 ∷ 0x0b00 ∷ 0x0101 ∷ 0x0204 ∷ [])
    ∷ (0x0900 ∷ 0x0700 ∷ 0x0c00 ∷ 0x0d00 ∷ [])
    ∷ (0x0204 ∷ 0x0103 ∷ 0x0600 ∷ 0x0900 ∷ [])
    ∷ (0x0101 ∷ 0x0300 ∷ 0x0900 ∷ 0x0300 ∷ [])
    ∷ (0x0105 ∷ 0x0500 ∷ 0x0700 ∷ 0x0900 ∷ [])
    ∷ (0x0400 ∷ 0x0300 ∷ 0x0500 ∷ 0x0c00 ∷ [])
    ∷ (0x0103 ∷ 0x0500 ∷ 0x0a00 ∷ 0x0d00 ∷ [])
    ∷ (0x0202 ∷ 0x0101 ∷ 0x0103 ∷ 0x0300 ∷ [])
    ∷ (0x0700 ∷ 0x0400 ∷ 0x0900 ∷ 0x0103 ∷ [])
    ∷ (0x0900 ∷ 0x0d00 ∷ 0x0c00 ∷ 0x0500 ∷ [])
    ∷ (0x0700 ∷ 0x0300 ∷ 0x0d00 ∷ 0x0600 ∷ [])
    ∷ (0x0b00 ∷ 0x0400 ∷ 0x0b00 ∷ 0x0800 ∷ [])
    ∷ (0x0103 ∷ 0x0a00 ∷ 0x0202 ∷ 0x0800 ∷ [])
    ∷ (0x0c00 ∷ 0x0600 ∷ 0x0a00 ∷ 0x0a00 ∷ [])
    ∷ (0x0103 ∷ 0x0400 ∷ 0x0500 ∷ 0x0900 ∷ [])
    ∷ (0x0c00 ∷ 0x0c00 ∷ 0x0204 ∷ 0x0105 ∷ [])
    ∷ (0x0101 ∷ 0x0800 ∷ 0x0103 ∷ 0x0800 ∷ [])
    ∷ (0x0600 ∷ 0x0c00 ∷ 0x0400 ∷ 0x0500 ∷ [])
    ∷ (0x0202 ∷ 0x0c00 ∷ 0x0103 ∷ 0x0700 ∷ [])
    ∷ (0x0500 ∷ 0x0b00 ∷ 0x0600 ∷ 0x0d00 ∷ [])
    ∷ (0x0105 ∷ 0x0300 ∷ 0x0202 ∷ 0x0103 ∷ [])
    ∷ (0x0b00 ∷ 0x0b00 ∷ 0x0103 ∷ 0x0d00 ∷ [])
    ∷ (0x0105 ∷ 0x0101 ∷ 0x0c00 ∷ 0x0600 ∷ [])
    ∷ (0x0700 ∷ 0x0b00 ∷ 0x0600 ∷ 0x0300 ∷ [])
    ∷ (0x0204 ∷ 0x0800 ∷ 0x0500 ∷ 0x0101 ∷ [])
    ∷ (0x0b00 ∷ 0x0b00 ∷ 0x0d00 ∷ 0x0500 ∷ [])
    ∷ (0x0105 ∷ 0x0202 ∷ 0x0800 ∷ 0x0101 ∷ [])
    ∷ (0x0700 ∷ 0x0202 ∷ 0x0900 ∷ 0x0105 ∷ [])
    ∷ (0x0d00 ∷ 0x0105 ∷ 0x0202 ∷ 0x0400 ∷ [])
    ∷ (0x0b00 ∷ 0x0101 ∷ 0x0400 ∷ 0x0b00 ∷ [])
    ∷ (0x0105 ∷ 0x0202 ∷ 0x0105 ∷ 0x0700 ∷ [])
    ∷ (0x0700 ∷ 0x0d00 ∷ 0x0800 ∷ 0x0105 ∷ [])
    ∷ (0x0900 ∷ 0x0204 ∷ 0x0204 ∷ 0x0a00 ∷ [])
    ∷ (0x0600 ∷ 0x0a00 ∷ 0x0800 ∷ 0x0204 ∷ [])
    ∷ (0x0b00 ∷ 0x0800 ∷ 0x0900 ∷ 0x0202 ∷ [])
    ∷ (0x0900 ∷ 0x0204 ∷ 0x0202 ∷ 0x0300 ∷ [])
    ∷ (0x0103 ∷ 0x0202 ∷ 0x0500 ∷ 0x0103 ∷ [])
    ∷ (0x0800 ∷ 0x0103 ∷ 0x0202 ∷ 0x0103 ∷ [])
    ∷ (0x0800 ∷ 0x0103 ∷ 0x0202 ∷ 0x0103 ∷ [])
    ∷ rest
