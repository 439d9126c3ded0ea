-- ===== src/Hash/Same.antt =====
-- The hash depends on the input only: not on the backend, and not on what the scratch held.
use dirtybird_go_gpu_miner.Prelude.{
  ℕ, ◌+◌, ◌*◌, ◌≤◌, ◌<◌, ◌≡◌, inl, inr, refl, sym, ap, ap₂, ◌∙◌, subst, arith, List, length,
  length-take, length-replicate, take, replicate, IsBytes, true, Bool-cases, returned,
}
use dirtybird_go_gpu_miner.Primitives.{Documented}
use dirtybird_go_gpu_miner.Stream.Mix.{max_length}
use dirtybird_go_gpu_miner.Stream.Round.{Scratch}
use dirtybird_go_gpu_miner.Stream.Table.{written}
use dirtybird_go_gpu_miner.Stream.Total.{IsScratch, astro_stream_run}
use dirtybird_go_gpu_miner.Stream.Agree.{wolf_stream_into_agrees}
use dirtybird_go_gpu_miner.SuffixArray.Compare.{take-IsBytes}
use dirtybird_go_gpu_miner.SuffixArray.Build.Exact.{IsSuffixArray, build_sa_v114_lem}
use dirtybird_go_gpu_miner.SuffixArray.Unique.{IsSuffixArray-unique}
use dirtybird_go_gpu_miner.Hash.{
  HashScratch, Externals, DocumentedExternals, suffix_array, astro_bwt_v3_stream, astro_bwt_v3,
  hashed_bytes,
}

-- The scratch has its declared sizes and holds bytes.
pub record IsHashScratch (h : HashScratch) : Type 0 where
  pub stream_ok : IsScratch h.stream
  pub bytes : IsBytes h.stream.text
  pub flags_size : length h.flags ≡ 280
  pub radix_size : length h.radix_tmp ≡ max_length

returned-injective : {A : Type 0} {a b : A} → returned a ≡ returned b → a ≡ b
returned-injective e = cc

module _ (ext : Externals) (doc : Documented ext.prim) (ext_doc : DocumentedExternals ext) where
  -- The suffix array of `n` bytes of a scratch is the suffix array.
  suffix_array-IsSuffixArray :
      (h : HashScratch) (s : Scratch) (n : ℕ)
      → ext.little_endian ≡ true
      → IsHashScratch h
      → IsBytes s.text
      → length s.text ≡ max_length + 64
      → 257 * 256 ≤ n
      → n < max_length
      → 1 ≤ s.n_templates
      → (sa : List ℕ) × (suffix_array ext h s n ≡ returned sa) × IsSuffixArray (take n s.text) sa
  unfolding suffix_array
  suffix_array-IsSuffixArray h s n little ok bytes size low high templates =
      let flags = ok.flags_size in
      let tmp = ok.radix_size in
      elim (Bool-cases h.use_v114) [
        | inr e ↦ (
          ext.sais (take n s.text),
          rw e refl,
          ext_doc.sais-IsSuffixArray (take n s.text) (take-IsBytes n s.text bytes)
              (omega (arith, length-take n s.text)),
        )
        | inl e ↦
            let built =
              build_sa_v114_lem
                (record {
                  text = s.text;
                  markers = s.markers;
                  n_templates = s.n_templates;
                  flags = h.flags;
                  radix_tmp = h.radix_tmp;
                })
                n bytes (omega arith) (omega arith) (omega arith) (omega arith) (omega arith)
                (omega arith) in
            (built.0, rw (e, little, built.1) refl, built.2)
      ]

  -- Both return the same entries.
  pub astro_bwt_v3_stream_same :
      (input : List ℕ) (h h' : HashScratch)
      → ext.little_endian ≡ true
      → IsHashScratch h
      → IsHashScratch h'
      → (sa : List ℕ) × (astro_bwt_v3_stream ext 277 input h ≡ returned sa)
        × (astro_bwt_v3_stream ext 277 input h' ≡ returned sa)
  unfolding astro_bwt_v3_stream
  astro_bwt_v3_stream_same input h h' little ok ok' =
      let run = astro_stream_run ext.prim doc input h.stream ok.stream_ok in
      let run' = astro_stream_run ext.prim doc input h'.stream ok'.stream_ok in
      let buffer = replicate max_length 0 in
      let room : max_length ≤ length buffer =
        omega (arith, length-replicate {A = ℕ} max_length 0) in
      let table = wolf_stream_into_agrees ext.prim doc input h.stream buffer ok.stream_ok room in
      let table' = wolf_stream_into_agrees ext.prim doc input h'.stream buffer ok'.stream_ok room in
      let first : (run.0, run.1) ≡ (table.0, table.2) = returned-injective (sym run.2 ∙ table.3) in
      let first' : (run'.0, run'.1) ≡ (table'.0, table'.2) =
        returned-injective (sym run'.2 ∙ table'.3) in
      let both : written table.1 table.2 ≡ written table'.1 table'.2 =
        returned-injective (sym table.4 ∙ table'.4) in
      let outs : table.1 ≡ table'.1 = cc in
      let lens : table.2 ≡ table'.2 = cc in
      let len : run.1 ≡ table.2 = ap (λ r. r.1) first in
      let len' : run'.1 ≡ table'.2 = ap (λ r. r.1) first' in
      let same_len : run'.1 ≡ run.1 = len' ∙ sym lens ∙ sym len in
      let text : take run.1 run.0.text ≡ take run.1 run'.0.text =
        ap₂ (λ n s. take n s.text) len (ap (λ r. r.0) first)
        ∙ table.5
        ∙ ap₂ take lens outs
        ∙ sym table'.5
        ∙ ap₂ (λ n s. take n s.text) (sym len') (sym (ap (λ r. r.0) first'))
        ∙ ap (λ n. take n run'.0.text) same_len in
      let sa =
        suffix_array-IsSuffixArray h run.0 run.1 little ok (run.8 ok.bytes) run.3.text_size run.4
          run.5 run.6 in
      let sa' =
        suffix_array-IsSuffixArray h' run'.0 run'.1 little ok' (run'.8 ok'.bytes) run'.3.text_size
          run'.4 run'.5 run'.6 in
      let here : IsSuffixArray (take run.1 run.0.text) sa'.0 =
        subst (λ xs. IsSuffixArray xs sa'.0) (ap (λ n. take n run'.0.text) same_len ∙ sym text)
          sa'.2 in
      let equal = IsSuffixArray-unique (take run.1 run.0.text) sa.0 sa'.0 sa.2 here in
      (sa.0, rw (run.2, sa.1) refl, rw (run'.2, sa'.1) (ap returned (sym equal)))

  -- On a little-endian host, with third-party hashes of the documented sizes and a SAIS that gives the
  -- suffix array, the hash is a function of the input: for any two scratches that hold bytes and have
  -- the declared sizes, each with either backend (the descriptor suffix array or SAIS) and whatever
  -- they hold from earlier hashes, both calls return the same digest, of 32 bytes.
  pub astro_bwt_v3_same :
      (input : List ℕ) (h h' : HashScratch)
      → ext.little_endian ≡ true
      → IsHashScratch h
      → IsHashScratch h'
      → (digest : List ℕ) × (astro_bwt_v3 ext 277 input h ≡ returned digest)
        × (astro_bwt_v3 ext 277 input h' ≡ returned digest)
        × (length digest ≡ 32)
  unfolding astro_bwt_v3
  astro_bwt_v3_same input h h' little ok ok' =
      let both = astro_bwt_v3_stream_same input h h' little ok ok' in
      let bytes = hashed_bytes ext both.0 in
      (ext.prim.sha256 bytes, rw both.1 refl, rw both.2 refl, doc.sha256-size bytes)
