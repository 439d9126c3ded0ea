-- ===== src/SuffixArray/Emit/Left.antt =====
-- The entries of a column and the step to the next column: the keys stay the keys of the positions,
-- and the stable insertion by first byte keeps the order of the suffixes.
use dirtybird_go_gpu_miner.Prelude.{
  ℕ, suc, ◌+◌, ◌-◌, ◌*◌, ◌%◌, ◌^◌, ◌≤◌, ◌<◌, ◌≡◌, ◌⊎◌, inl, inr, refl, sym, ap, ap₂, ◌∙◌, subst,
  arith, List, [], ◌∷◌, map, false, ltb, byte_at, byte_at-lt, bit_and, bit_or, Each, IsBytes,
}
use dirtybird_go_gpu_miner.Prelude.Bits.{bit_and_low, bit_and_high, bit_or_add, bit_or_comm}
use dirtybird_go_gpu_miner.Word.{sub32, u32}
use dirtybird_go_gpu_miner.SuffixArray.View.{View, key_at}
use dirtybird_go_gpu_miner.SuffixArray.Keys.{key_at_bytes}
use dirtybird_go_gpu_miner.SuffixArray.Suffixes.{IsView}
use dirtybird_go_gpu_miner.SuffixArray.Order.{SuffixLe, SuffixLe-trans}
use dirtybird_go_gpu_miner.SuffixArray.Sorting.{Sorted, Agrees, total, insertion_sort}
use dirtybird_go_gpu_miner.SuffixArray.Sorted.{insertion_sort-total, insertion_sort-Each}
use dirtybird_go_gpu_miner.SuffixArray.Stable.{
  insertion_sort-Stable, Each-image, Sorted-map, total-map, total-cong,
}
use dirtybird_go_gpu_miner.SuffixArray.Emit.{Keyed, step_left, first_byte_before}
use dirtybird_go_gpu_miner.SuffixArray.Emit.Ranges.{SuffixLe-first, SuffixLe-left}

-- The order of the entries is that of their positions.
abbrev pub EntryLe : View → Keyed → Keyed → Type 0
EntryLe v x y = SuffixLe v x.pos y.pos

-- The key of an entry is the key of its position, which is in the text and not before `rel`.
pub record IsEntry (v : View) (rel : ℕ) (e : Keyed) : Type 0 where
  pub high : rel ≤ e.pos
  pub low : e.pos < v.logical_len
  pub own : e.pos_key ≡ key_at v.text e.pos

-- The key one position to the left, from the byte there.
key_left :
    (text : List ℕ) (p : ℕ)
    → IsBytes text
    → bit_or (byte_at text p) (bit_and (u32 (key_at text (p + 1) * 2 ^ 8)) 0xffff00) ≡ key_at text p
unfolding u32
key_left text p h =
    let a = byte_at text p in
    let b = byte_at text (p + 1) in
    let c = byte_at text (p + 1 + 1) in
    let d = byte_at text (p + 1 + 2) in
    let ha : a < 256 = byte_at-lt text p h in
    let hb : b < 256 = byte_at-lt text (p + 1) h in
    let hc : c < 256 = byte_at-lt text (p + 1 + 1) h in
    let hd : d < 256 = byte_at-lt text (p + 1 + 2) h in
    let next : p + 1 + 1 ≡ p + 2 = omega arith in
    let shifted : (b + c * 2 ^ 8 + d * 2 ^ 16) * 2 ^ 8 % 2 ^ 32
        ≡ (d * 2 ^ 16 + (b + c * 2 ^ 8)) * 2 ^ 8 + 0 =
      omega arith in
    let masked : bit_and ((d * 2 ^ 16 + (b + c * 2 ^ 8)) * 2 ^ 8 + 0) 0xffff00
        ≡ (b + c * 2 ^ 8) * 2 ^ 8 =
      bit_and_high 8 (d * 2 ^ 16 + (b + c * 2 ^ 8)) 0 0xffff (omega arith)
      ∙ ap (λ x. x * 2 ^ 8) (bit_and_low 16 d (b + c * 2 ^ 8) (omega arith)) in
    ap (λ k. bit_or a (bit_and (k * 2 ^ 8 % 2 ^ 32) 0xffff00)) (key_at_bytes text (p + 1) h)
    ∙ ap (λ x. bit_or a (bit_and x 0xffff00)) shifted
    ∙ ap (bit_or a) masked
    ∙ bit_or_comm 24 a ((b + c * 2 ^ 8) * 2 ^ 8) (omega arith) (omega arith)
    ∙ bit_or_add 8 (b + c * 2 ^ 8) a ha
    ∙ omega (arith, ap (byte_at text) next)
    ∙ sym (key_at_bytes text p h)

key_first : (text : List ℕ) (p : ℕ) → IsBytes text → bit_and (key_at text p) 0xff ≡ byte_at text p
key_first text p h =
    let split : byte_at text p + byte_at text (p + 1) * 2 ^ 8 + byte_at text (p + 2) * 2 ^ 16
        ≡ (byte_at text (p + 1) + byte_at text (p + 2) * 2 ^ 8) * 2 ^ 8 + byte_at text p =
      omega arith in
    ap (λ k. bit_and k 0xff) (key_at_bytes text p h ∙ split)
    ∙ bit_and_low 8 (byte_at text (p + 1) + byte_at text (p + 2) * 2 ^ 8) (byte_at text p)
        (byte_at-lt text p h)

module _ (v : View) (ok : IsView v) where
  step_left-pos : (rel : ℕ) (e : Keyed) → IsEntry v (suc rel) e → (step_left v e).pos ≡ e.pos - 1
  unfolding step_left sub32
  step_left-pos rel e h =
      let short = ok.short in let high = h.high in let low = h.low in omega arith

  step_left-IsEntry : (rel : ℕ) (e : Keyed) → IsEntry v (suc rel) e → IsEntry v rel (step_left v e)
  unfolding step_left sub32
  step_left-IsEntry rel e h =
      let short = ok.short in
      let high = h.high in
      let low = h.low in
      let left : (e.pos + 2 ^ 32 - 1) % 2 ^ 32 ≡ e.pos - 1 = omega arith in
      let back : e.pos ≡ e.pos - 1 + 1 = omega arith in
      record {
        high = omega arith;
        low = omega arith;
        own =
            ap
              (λ k.
                bit_or (byte_at v.text ((e.pos + 2 ^ 32 - 1) % 2 ^ 32))
                  (bit_and (u32 (k * 2 ^ 8)) 0xffff00))
              (h.own ∙ ap (key_at v.text) back)
            ∙ ap
                (λ i.
                  bit_or (byte_at v.text i)
                    (bit_and (u32 (key_at v.text (e.pos - 1 + 1) * 2 ^ 8)) 0xffff00))
                left
            ∙ key_left v.text (e.pos - 1) ok.bytes
            ∙ ap (key_at v.text) (sym left);
      }

  -- In order one position to the right.
  Behind : Keyed → Keyed → Type 0
  Behind x y = SuffixLe v (x.pos + 1) (y.pos + 1)

  Behind-left :
      (rel : ℕ) (x y : Keyed)
      → IsEntry v (suc rel) x
      → IsEntry v (suc rel) y
      → EntryLe v x y
      → Behind (step_left v x) (step_left v y)
  unfolding Behind
  Behind-left rel x y hx hy h =
      let xh = hx.high in
      let yh = hy.high in
      let back : (step_left v x).pos + 1 ≡ x.pos = omega (arith, step_left-pos rel x hx) in
      let back' : (step_left v y).pos + 1 ≡ y.pos = omega (arith, step_left-pos rel y hy) in
      rw (back, back') h

  first_byte_before-Agrees :
      (rel : ℕ) (x y : Keyed)
      → IsEntry v rel x
      → IsEntry v rel y
      → Behind y x
      → Agrees (first_byte_before v) (EntryLe v) x y
  unfolding first_byte_before Behind
  first_byte_before-Agrees rel x y hx hy behind =
      let first : bit_and y.pos_key 0xff ≡ byte_at v.text y.pos =
        ap (λ k. bit_and k 0xff) hy.own ∙ key_first v.text y.pos ok.bytes in
      let x_low = hx.low in
      let y_low = hy.low in
      rw first (
        (λ e. SuffixLe-first v ok x.pos y.pos hx.low hy.low (ground arith)),
        (λ e. elim (order_cases (byte_at v.text y.pos) (byte_at v.text x.pos) e) [
          | inl lt ↦ SuffixLe-first v ok y.pos x.pos hy.low hx.low lt
          | inr eq ↦
              let y_back : y.pos + 1 - 1 ≡ y.pos = omega arith in
              let x_back : x.pos + 1 - 1 ≡ x.pos = omega arith in
              subst (λ i. SuffixLe v i x.pos) y_back
                (subst (SuffixLe v (y.pos + 1 - 1)) x_back (
                  SuffixLe-left v ok (y.pos + 1) (x.pos + 1) (omega arith) (omega arith)
                    (omega arith) (omega arith)
                    (ap (byte_at v.text) y_back ∙ eq ∙ ap (byte_at v.text) (sym x_back)) behind))
        ]),
      )
    where
      order_cases : (a b : ℕ) → ltb b a ≡ false → (a < b) ⊎ (a ≡ b)
      order_cases a b h = ground arith

  -- The next column: in order, with its keys, and of the same chunks.
  pub record IsColumn (bs : List ℕ) (rel : ℕ) (es : List Keyed) : Type 0 where
    pub entries : Each (IsEntry v rel) es
    pub sorted : Sorted (EntryLe v) es
    pub sum : (f : ℕ → ℕ) → total (λ e. f e.pos) es ≡ total (λ b. f (b + rel)) bs

  pub IsColumn-left :
      (bs : List ℕ) (rel : ℕ) (es : List Keyed)
      → IsColumn bs (suc rel) es
      → IsColumn bs rel (insertion_sort (first_byte_before v) (map (step_left v) es))
  IsColumn-left bs rel es h =
      let stepped =
        Each-image (IsEntry v (suc rel)) (IsEntry v rel) (step_left v) (step_left-IsEntry rel) es
          h.entries in
      record {
        entries =
            insertion_sort-Each (first_byte_before v) (IsEntry v rel) (map (step_left v) es)
              stepped;
        sorted =
            insertion_sort-Stable (first_byte_before v) (EntryLe v) Behind (IsEntry v rel)
              (λ x y z. SuffixLe-trans v x.pos y.pos z.pos) (first_byte_before-Agrees rel)
              (map (step_left v) es) stepped
              (Sorted-map (IsEntry v (suc rel)) (EntryLe v) Behind (step_left v) (Behind-left rel)
                es h.entries h.sorted);
        sum = λ f.
            insertion_sort-total (first_byte_before v) (λ e. f e.pos) (map (step_left v) es)
            ∙ total-map (λ e. f e.pos) (step_left v) es
            ∙ total-cong (IsEntry v (suc rel)) (λ e. f (step_left v e).pos) (λ e. f (e.pos - 1))
                (λ e q. ap f (step_left-pos rel e q)) es h.entries
            ∙ h.sum (λ p. f (p - 1))
            ∙ total_shift f rel bs;
      }
    where
      total_shift :
          (f : ℕ → ℕ) (rel : ℕ) (bs : List ℕ)
          → total (λ b. f (b + suc rel - 1)) bs ≡ total (λ b. f (b + rel)) bs
      total_shift f rel [] = refl
      total_shift f rel (b ∷ bs) =
          let e : b + suc rel - 1 ≡ b + rel = omega arith in ap₂ ◌+◌ (ap f e) (total_shift f rel bs)
