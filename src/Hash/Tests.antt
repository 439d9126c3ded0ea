-- ===== src/Hash/Tests.antt =====
-- The hash at toy functions: the suffix array by insertion stands for SAIS.
use dirtybird_go_gpu_miner.Prelude.{
  sym, ℕ, zero, suc, ◌+◌, ◌≤◌, ◌<◌, ◌≡◌, refl, ap, ◌∙◌, arith, List, [], ◌∷◌, ◌++◌, length, drop,
  length-replicate, replicate, IsBytes, Bool, true, returned, Each, Each-append, append-nil,
  append_assoc,
}
use dirtybird_go_gpu_miner.Primitives.Sample.{toy, toy-Documented}
use dirtybird_go_gpu_miner.Stream.Mix.{max_length}
use dirtybird_go_gpu_miner.Stream.Round.{Scratch}
use dirtybird_go_gpu_miner.SuffixArray.Lex.{
  LexLe, LexLe-trans, bytes_compare, bytes_compare-Decides,
}
use dirtybird_go_gpu_miner.SuffixArray.View.{is_less}
use dirtybird_go_gpu_miner.SuffixArray.Order.{is_less-Agrees}
use dirtybird_go_gpu_miner.SuffixArray.Sorting.{insertion_sort, total, total-append}
use dirtybird_go_gpu_miner.SuffixArray.Sorted.{
  insertion_sort-total, insertion_sort-Each, insertion_sort-Sorted,
}
use dirtybird_go_gpu_miner.SuffixArray.Emit.Ranges.{sum_from}
use dirtybird_go_gpu_miner.SuffixArray.Runs.{Run}
use dirtybird_go_gpu_miner.SuffixArray.Build.Exact.{IsSuffixArray}
use dirtybird_go_gpu_miner.Hash.{
  Backend, backend_sais, backend_v114, HashScratch, Externals, DocumentedExternals,
  new_with_backend, astro_bwt_v3,
}
use dirtybird_go_gpu_miner.Hash.Lanes.{Kernels, sha256_sum256_pair}
use dirtybird_go_gpu_miner.Hash.Lanes.Standard.{standard_iv, standard_padding, digest}
use dirtybird_go_gpu_miner.Hash.Lanes.Padding.{DocumentedKernels, sha256_sum256_pair_lem}
use dirtybird_go_gpu_miner.Hash.Same.{IsHashScratch, astro_bwt_v3_same}

-- The positions below `n`.
positions : ℕ → List ℕ
positions zero = []
positions (suc n) = positions n ++ (n ∷ [])

positions-sum : (f : ℕ → ℕ) (n : ℕ) → total f (positions n) ≡ sum_from f 0 n
unfolding positions sum_from
positions-sum f zero = refl
positions-sum f (suc n) =
    let e : 0 + n ≡ n = omega arith in
    omega (arith, total-append f (positions n) (n ∷ []), positions-sum f n, ap f e)

positions-Each : (n m : ℕ) → n ≤ m → Each (λ p. p < m) (positions n)
unfolding positions
positions-Each zero m h = tt
positions-Each (suc n) m h =
    Each-append (λ p. p < m) (positions n) (n ∷ []) (positions-Each n m (omega arith))
      (omega arith, tt)

suffix_first : List ℕ → ℕ → ℕ → Bool
suffix_first text a b = is_less (bytes_compare (drop a text) (drop b text))

toy_sais : List ℕ → List ℕ
toy_sais text = insertion_sort (suffix_first text) (positions (length text))

toy_sais-IsSuffixArray : (text : List ℕ) → IsSuffixArray text (toy_sais text)
unfolding toy_sais suffix_first
toy_sais-IsSuffixArray text =
    let less = suffix_first text in
    let ps = positions (length text) in
    let inside = positions-Each (length text) (length text) (omega arith) in
    record {
      positions = λ f. insertion_sort-total less f ps ∙ positions-sum f (length text);
      within = insertion_sort-Each less (λ p. p < length text) ps inside;
      in_order =
          insertion_sort-Sorted less (λ a b. LexLe (drop a text) (drop b text))
            (λ p. p < length text) (λ a b c. LexLe-trans (drop a text) (drop b text) (drop c text))
            (λ a b p q.
              is_less-Agrees (bytes_compare (drop a text) (drop b text)) (drop a text) (drop b text)
                (bytes_compare-Decides (drop a text) (drop b text)))
            ps inside;
    }

abbrev toy_externals : Externals
toy_externals = record { prim = toy; sais = toy_sais; little_endian = true }

toy_externals-Documented : DocumentedExternals toy_externals
toy_externals-Documented = record {
  sais-IsSuffixArray = λ text bytes short. toy_sais-IsSuffixArray text;
}

replicate-IsBytes : (n b : ℕ) → b < 256 → IsBytes (replicate n b)
replicate-IsBytes zero b h = tt
replicate-IsBytes (suc n) b h = (h, replicate-IsBytes n b h)

abbrev stream_scratch : ℕ → Scratch
stream_scratch b = record {
  text = replicate (max_length + 64) b;
  markers = replicate 280 b;
  n_templates = 0;
}

abbrev hash_scratch : Backend → ℕ → HashScratch
hash_scratch backend b =
    new_with_backend backend (stream_scratch b) (replicate 280 b)
      (replicate max_length (record { key = b; packed = b }))

hash_scratch-IsHashScratch :
    (backend : Backend) (b : ℕ) → b < 256 → IsHashScratch (hash_scratch backend b)
unfolding new_with_backend
hash_scratch-IsHashScratch backend_sais b h = record {
  stream_ok = record {
    text_size = length-replicate {A = ℕ} (max_length + 64) b;
    markers_size = length-replicate {A = ℕ} 280 b;
  };
  bytes = replicate-IsBytes (max_length + 64) b h;
  flags_size = length-replicate {A = ℕ} 280 b;
  radix_size = length-replicate {A = Run} max_length (record { key = b; packed = b });
}
hash_scratch-IsHashScratch backend_v114 b h = record {
  stream_ok = record {
    text_size = length-replicate {A = ℕ} (max_length + 64) b;
    markers_size = length-replicate {A = ℕ} 280 b;
  };
  bytes = replicate-IsBytes (max_length + 64) b h;
  flags_size = length-replicate {A = ℕ} 280 b;
  radix_size = length-replicate {A = Run} max_length (record { key = b; packed = b });
}

astro_bwt_v3_same_example :
    (digest : List ℕ) × (astro_bwt_v3 toy_externals 277 (b'a' ∷ []) (hash_scratch backend_v114 0)
      ≡ returned digest)
    × (astro_bwt_v3 toy_externals 277 (b'a' ∷ []) (hash_scratch backend_sais 0xee)
        ≡ returned digest)
    × (length digest ≡ 32)
astro_bwt_v3_same_example =
    astro_bwt_v3_same toy_externals toy-Documented toy_externals-Documented (b'a' ∷ [])
      (hash_scratch backend_v114 0) (hash_scratch backend_sais 0xee) refl
      (hash_scratch-IsHashScratch backend_v114 0 (omega arith))
      (hash_scratch-IsHashScratch backend_sais 0xee (omega arith))

-- A compression that keeps everything.
abbrev toy_kernels : Kernels
toy_kernels = record {
  sha256 = λ p. digest (standard_iv ++ (p ++ standard_padding (length p)));
  blocks = λ state xs. state ++ xs;
  blocks2 = λ s p s' p'. (s ++ p, s' ++ p');
  use_sha_ni = true;
}

toy_kernels-Documented : DocumentedKernels toy_kernels
toy_kernels-Documented = record {
  sha256-padded = λ p few. refl;
  blocks-append = λ state xs ys whole. sym (append_assoc state xs ys);
  blocks-nil = λ state. append-nil state;
  blocks2-both = λ s p s' p'. refl;
}

sha256_sum256_pair_lem_example :
    sha256_sum256_pair toy_kernels (replicate 130 7) (replicate 60 9)
    ≡ (toy_kernels.sha256 (replicate 130 7), toy_kernels.sha256 (replicate 60 9))
sha256_sum256_pair_lem_example =
    sha256_sum256_pair_lem toy_kernels toy_kernels-Documented (replicate 130 7) (replicate 60 9)
      (omega arith) (omega arith)
