-- ===== src/SuffixArray/Order.antt =====
-- The order of the positions, and the tests of the code that decide it.
use Prim.Native.Nat.{Ordering}
use dirtybird_go_gpu_miner.Prelude.{
  ℕ, ◌<◌, ◌≡◌, inl, inr, arith, List, Bool, true, false, ◌==◌, ltb, Bool-cases, subst,
}
use dirtybird_go_gpu_miner.SuffixArray.Lex.{
  LexLe, LexLe-refl, LexLe-trans, Decides, bytes_compare, bytes_compare-Decides,
}
use dirtybird_go_gpu_miner.SuffixArray.View.{
  View, suffix, compare_suffixes, is_less, suffix_less_after_key,
}
use dirtybird_go_gpu_miner.SuffixArray.Keys.{radix_at}
use dirtybird_go_gpu_miner.SuffixArray.Suffixes.{IsView}
use dirtybird_go_gpu_miner.SuffixArray.Compare.{compare_suffixes_after_key_lem}
use dirtybird_go_gpu_miner.SuffixArray.Sorting.{Agrees}
use dirtybird_go_gpu_miner.SuffixArray.Emit.{suffix_before}

-- The suffix at `a` does not come after the one at `b`.
abbrev pub SuffixLe : View → ℕ → ℕ → Type 0
SuffixLe v a b = LexLe (suffix v a) (suffix v b)

pub SuffixLe-trans : (v : View) (a b c : ℕ) → SuffixLe v a b → SuffixLe v b c → SuffixLe v a c
SuffixLe-trans v a b c p q = LexLe-trans (suffix v a) (suffix v b) (suffix v c) p q

pub is_less-Agrees :
    (c : Ordering) (xs ys : List ℕ)
    → Decides c xs ys
    → (is_less c ≡ true → LexLe xs ys) × (is_less c ≡ false → LexLe ys xs)
is_less-Agrees Ordering.lt xs ys h = ((λ e. h), (λ e. absurd cc))
is_less-Agrees Ordering.eq xs ys h =
    ((λ e. absurd cc), (λ e. subst (λ zs. LexLe zs xs) h (LexLe-refl xs)))
is_less-Agrees Ordering.gt xs ys h = ((λ e. absurd cc), (λ e. h))

pub suffix_before-Agrees : (v : View) (a b : ℕ) → Agrees (suffix_before v) (SuffixLe v) a b
unfolding suffix_before compare_suffixes
suffix_before-Agrees v a b = elim (Bool-cases (a == b)) [
  | inl e ↦
      let same : a ≡ b = ground arith in
      rw e ((λ t. absurd cc), (λ t. subst (λ x. SuffixLe v x a) same (LexLe-refl (suffix v a))))
  | inr e ↦ rw e (
      is_less-Agrees (bytes_compare (suffix v a) (suffix v b)) _ _
        (bytes_compare-Decides (suffix v a) (suffix v b)))
]

less_after-Agrees :
    (c : Ordering) (xs ys : List ℕ) (a b : ℕ)
    → Decides c xs ys
    → (let less : Bool = elim c [
      | Ordering.lt ↦ true
      | Ordering.gt ↦ false
      | Ordering.eq ↦ ltb a b
    ] in
        (less ≡ true → LexLe xs ys) × (less ≡ false → LexLe ys xs))
less_after-Agrees Ordering.lt xs ys a b h = ((λ e. h), (λ e. absurd cc))
less_after-Agrees Ordering.eq xs ys a b h =
    ((λ e. subst (LexLe xs) h (LexLe-refl xs)), (λ e. subst (λ zs. LexLe zs xs) h (LexLe-refl xs)))
less_after-Agrees Ordering.gt xs ys a b h = ((λ e. absurd cc), (λ e. h))

-- For two positions of the text with the same key, `suffixLessAfterKey` decides the order.
pub suffix_less_after_key-Agrees :
    (v : View) (a b : ℕ)
    → IsView v
    → a < v.logical_len
    → b < v.logical_len
    → radix_at v.text a ≡ radix_at v.text b
    → Agrees (suffix_less_after_key v) (SuffixLe v) a b
unfolding suffix_less_after_key
suffix_less_after_key-Agrees v a b ok ha hb key =
    rw (compare_suffixes_after_key_lem v a b ok ha hb key, suffix_less_after_key)
      (less_after-Agrees (bytes_compare (suffix v a) (suffix v b)) _ _ a b
        (bytes_compare-Decides (suffix v a) (suffix v b)))
