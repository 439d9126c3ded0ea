-- ===== src/Mine/Batches.antt =====
-- The batches that are filled: copies of the job's template under distinct nonces.
use dirtybird_go_gpu_miner.Prelude.{
  ℕ, zero, suc, ◌+◌, ◌*◌, ◌%◌, ◌^◌, ◌≤◌, ◌<◌, ◌≡◌, ◌≢◌, refl, sym, ap, ◌∙◌, arith, List, [], ◌∷◌,
  some, length, take, drop, copy_at, length-copy_at, get_elem?, some-injective,
}
use dirtybird_go_gpu_miner.Word.{u32}
use dirtybird_go_gpu_miner.Mine.Loop.{be32, rnd_fill, fill_blob, fill_batch}
use dirtybird_go_gpu_miner.Prelude.{Each, Each-at}

take-copy_at_before :
    (n : ℕ) (dst : List ℕ) (off : ℕ) (src : List ℕ)
    → n ≤ off
    → take n (copy_at dst off src) ≡ take n dst
unfolding copy_at
take-copy_at_before zero dst off src h = refl
take-copy_at_before (suc n) [] off src h = refl
take-copy_at_before (suc n) (d ∷ dst) zero src h = absurd (omega arith)
take-copy_at_before (suc n) (d ∷ dst) (suc off) src h =
    ap (◌∷◌ d) (take-copy_at_before n dst off src (omega arith))

copy_at_whole : (dst src : List ℕ) → length dst ≡ length src → copy_at dst 0 src ≡ src
unfolding copy_at
copy_at_whole [] [] h = refl
copy_at_whole [] (s ∷ src) h = absurd (omega arith)
copy_at_whole (d ∷ dst) [] h = absurd (omega arith)
copy_at_whole (d ∷ dst) (s ∷ src) h = ap (◌∷◌ s) (copy_at_whole dst src (omega arith))

-- What was copied in is read back.
take-drop-copy_at :
    (dst : List ℕ) (off : ℕ) (src : List ℕ)
    → off + length src ≤ length dst
    → take (length src) (drop off (copy_at dst off src)) ≡ src
unfolding copy_at
take-drop-copy_at [] zero [] h = refl
take-drop-copy_at [] zero (s ∷ src) h = absurd (omega arith)
take-drop-copy_at [] (suc off) src h = absurd (omega arith)
take-drop-copy_at (d ∷ dst) zero [] h = refl
take-drop-copy_at (d ∷ dst) zero (s ∷ src) h =
    ap (◌∷◌ s) (take-drop-copy_at dst zero src (omega arith))
take-drop-copy_at (d ∷ dst) (suc off) src h = take-drop-copy_at dst off src (omega arith)

-- The number that bytes spell, the highest first, after `acc`.
unfoldable pub big_endian : ℕ → List ℕ → ℕ
big_endian acc [] = acc
big_endian acc (x ∷ xs) = big_endian (acc * 256 + x) xs

-- The nonce that a blob carries: bytes 43 to 46.
abbrev pub nonce_of : List ℕ → ℕ
nonce_of blob = big_endian 0 (take 4 (drop 43 blob))

big_endian-be32 : (n : ℕ) → n < 2 ^ 32 → big_endian 0 (be32 n) ≡ n
unfolding big_endian be32
big_endian-be32 n h = omega arith

length-fill_blob :
    (draw : ℕ → ℕ) (tmpl : List ℕ) (at nonce : ℕ) (blob : List ℕ)
    → length (fill_blob draw tmpl at nonce blob) ≡ length blob
unfolding fill_blob
length-fill_blob draw tmpl at nonce blob =
    length-copy_at _ 43 _ ∙ length-copy_at _ 36 _ ∙ length-copy_at blob 0 tmpl

fill_blob_prefix :
    (draw : ℕ → ℕ) (tmpl : List ℕ) (at nonce : ℕ) (blob : List ℕ)
    → length blob ≡ length tmpl
    → take 36 (fill_blob draw tmpl at nonce blob) ≡ take 36 tmpl
unfolding fill_blob
fill_blob_prefix draw tmpl at nonce blob h =
    take-copy_at_before 36 _ 43 _ (omega arith)
    ∙ take-copy_at_before 36 _ 36 _ (omega arith)
    ∙ ap (take 36) (copy_at_whole blob tmpl h)

fill_blob_nonce :
    (draw : ℕ → ℕ) (tmpl : List ℕ) (at nonce : ℕ) (blob : List ℕ)
    → length blob ≡ 48
    → nonce < 2 ^ 32
    → nonce_of (fill_blob draw tmpl at nonce blob) ≡ nonce
unfolding fill_blob be32
fill_blob_nonce draw tmpl at nonce blob h small =
    let inner = copy_at (copy_at blob 0 tmpl) 36 (rnd_fill draw 12 at) in
    let size : length inner ≡ 48 =
      length-copy_at (copy_at blob 0 tmpl) 36 (rnd_fill draw 12 at)
      ∙ length-copy_at blob 0 tmpl
      ∙ h in
    ap (big_endian 0) (take-drop-copy_at inner 43 (be32 nonce) (omega (arith, size)))
    ∙ big_endian-be32 nonce small

-- Every blob of a filled batch has the size of the buffer's, and the template's first 36 bytes.
pub fill_batch_variants :
    (draw : ℕ → ℕ) (tmpl : List ℕ) (at nonce : ℕ) (blobs : List (List ℕ))
    → length tmpl ≡ 48
    → Each (λ b. length b ≡ 48) blobs
    → Each (λ b. (length b ≡ 48) × (take 36 b ≡ take 36 tmpl)) (fill_batch draw tmpl at nonce blobs)
unfolding fill_batch
fill_batch_variants draw tmpl at nonce [] h hb = tt
fill_batch_variants draw tmpl at nonce (blob ∷ blobs) h hb = (
  (
    length-fill_blob draw tmpl at _ blob ∙ hb.0,
    fill_blob_prefix draw tmpl at _ blob (hb.0 ∙ sym h),
  ),
  fill_batch_variants draw tmpl (at + 12) _ blobs h hb.1,
)

-- The nonces count up from the last one, modulo 2 ^ 32.
fill_batch_nonce :
    (draw : ℕ → ℕ) (tmpl : List ℕ) (at nonce : ℕ) (blobs : List (List ℕ)) (i : ℕ) (b : List ℕ)
    → Each (λ b. length b ≡ 48) blobs
    → get_elem? (fill_batch draw tmpl at nonce blobs) i ≡ some b
    → nonce_of b ≡ (nonce + 1 + i) % 2 ^ 32
unfolding fill_batch u32
fill_batch_nonce draw tmpl at nonce [] i b hb e = absurd cc
fill_batch_nonce draw tmpl at nonce (blob ∷ blobs) zero b hb e =
    ap nonce_of (sym (some-injective e))
    ∙ fill_blob_nonce draw tmpl at ((nonce + 1) % 2 ^ 32) blob hb.0 (omega arith)
    ∙ omega arith
fill_batch_nonce draw tmpl at nonce (blob ∷ blobs) (suc i) b hb e =
    fill_batch_nonce draw tmpl (at + 12) ((nonce + 1) % 2 ^ 32) blobs i b hb.1 e ∙ omega arith

-- Filled into buffers of 48 bytes from a template of 48 bytes, a blob keeps the size and the
-- template's first 36 bytes, blob `i` carries the nonce `nonce + 1 + i` modulo 2 ^ 32, and so two
-- blobs of a batch less than 2 ^ 32 apart differ.
pub fill_batch_distinct :
    (draw : ℕ → ℕ) (tmpl : List ℕ) (at nonce : ℕ) (blobs : List (List ℕ)) (i j : ℕ) (b b' : List ℕ)
    → length tmpl ≡ 48
    → Each (λ b. length b ≡ 48) blobs
    → get_elem? (fill_batch draw tmpl at nonce blobs) i ≡ some b
    → get_elem? (fill_batch draw tmpl at nonce blobs) j ≡ some b'
    → i < j
    → j < i + 2 ^ 32
    → (length b ≡ 48)
      × (take 36 b ≡ take 36 tmpl)
      × (nonce_of b ≡ (nonce + 1 + i) % 2 ^ 32)
      × (b ≢ b')
fill_batch_distinct draw tmpl at nonce blobs i j b b' h hb e e' lo hi =
    let v =
      Each-at _ (fill_batch draw tmpl at nonce blobs) i b
        (fill_batch_variants draw tmpl at nonce blobs h hb) e in
    let n = fill_batch_nonce draw tmpl at nonce blobs i b hb e in
    let n' = fill_batch_nonce draw tmpl at nonce blobs j b' hb e' in
    (v.0, v.1, n, (λ same. omega (arith, n, n', ap nonce_of same)))
