-- ===== src/Stream/Keeps.antt =====
-- What every step of a round keeps: `step_3` stays 256 bytes, the hashes stay words, the cipher
-- stays a shuffle of the byte values.
use dirtybird_go_gpu_miner.Prelude.{
  ℕ, ◌+◌, ◌-◌, ◌^◌, ◌<◌, ◌≡◌, refl, ◌∙◌, arith, List, returned, ◌==◌, ltb, ◌||◌, if◌then◌else◌,
  length, byte_at, set, length-set, IsBytes, set-IsBytes, byte_at-lt, for_range_inv, Bool, true,
  false, Bool-cases, inl, inr, replicate,
}
use dirtybird_go_gpu_miner.Word.{reverse8}
use dirtybird_go_gpu_miner.Word.Range.{add64-lt, reverse8-lt, byte_xor-lt}
use dirtybird_go_gpu_miner.Primitives.{Primitives, Documented}
use dirtybird_go_gpu_miner.Rc4.{xor_key_stream}
use dirtybird_go_gpu_miner.Rc4.Keys.{
  IsReady, new_cipher-IsReady, xor_key_stream-IsReady, xor_key_stream-IsBytes,
  length-xor_key_stream,
}
use dirtybird_go_gpu_miner.Wolf.Switch.{case_byte}
use dirtybird_go_gpu_miner.Wolf.Bytes.{case_byte-lt}
use dirtybird_go_gpu_miner.Stream.Mix.{
  Mix, Window, update_byte, reverse_swap, deviate, gap, threshold_hashes, prologue, scramble,
  fold_last,
}
use dirtybird_go_gpu_miner.Stream.Round.{over, rekey, switch_case}

pub record IsMix (m : Mix) : Type 0 where
  pub size : length m.step_3 ≡ 256
  pub bytes : IsBytes m.step_3
  pub ready : IsReady m.rc4s
  pub lhash_word : m.lhash < 2 ^ 64
  pub prev_word : m.prev_lhash < 2 ^ 64

-- `step_3` is replaced by another array of 256 bytes.
rewritten :
    (m : Mix) (a : List ℕ) → IsMix m → length a ≡ 256 → IsBytes a → IsMix (record m { step_3 = a })
rewritten m a h size bytes = record {
  size = size;
  bytes = bytes;
  ready = h.ready;
  lhash_word = h.lhash_word;
  prev_word = h.prev_word;
}

pub update_byte-IsMix :
    (op : ℕ)
    → op < 256
    → (pos2 i : ℕ) (m : Mix) → IsMix m
    → IsMix (update_byte (case_byte op) pos2 i m)
unfolding update_byte
update_byte-IsMix op hop pos2 i m h =
    let x = byte_at-lt m.step_3 i h.bytes in
    let p = byte_at-lt m.step_3 pos2 h.bytes in
    rewritten m _ h (length-set m.step_3 i _ ∙ h.size)
      (set-IsBytes m.step_3 i _ h.bytes (case_byte-lt op hop _ _ x p))

pub reverse_swap-IsMix : (pos1 pos2 : ℕ) (m : Mix) → IsMix m → IsMix (reverse_swap pos1 pos2 m)
unfolding reverse_swap
reverse_swap-IsMix pos1 pos2 m h =
    let a = m.step_3 in
    let b = set a pos2 (reverse8 (byte_at a pos1)) in
    rewritten m _ h (length-set b pos1 _ ∙ length-set a pos2 _ ∙ h.size)
      (set-IsBytes b pos1 _ (set-IsBytes a pos2 _ h.bytes (reverse8-lt _)) (reverse8-lt _))

pub deviate-IsMix :
    (hash : ℕ → List ℕ → ℕ)
    → ((prev : ℕ) (text : List ℕ) → hash prev text < 2 ^ 64)
    → (pos2 : ℕ) (m : Mix) → IsMix m
    → IsMix (deviate hash pos2 m)
unfolding deviate
deviate-IsMix hash word pos2 m h = record {
  size = h.size;
  bytes = h.bytes;
  ready = h.ready;
  lhash_word = word _ _;
  prev_word = add64-lt _ _;
}

pub scramble-IsMix : (m : Mix) → IsMix m → IsMix (scramble m)
unfolding scramble
scramble-IsMix m h = record {
  size = length-xor_key_stream m.rc4s m.step_3 ∙ h.size;
  bytes = xor_key_stream-IsBytes m.rc4s m.step_3 h.bytes;
  ready = xor_key_stream-IsReady m.rc4s m.step_3 h.ready;
  lhash_word = h.lhash_word;
  prev_word = h.prev_word;
}

pub fold_last-IsMix : (w : Window) (m : Mix) → IsMix m → IsMix (fold_last w m)
unfolding fold_last
fold_last-IsMix w m h =
    let at = λ (k : ℕ). byte_at-lt m.step_3 k h.bytes in
    rewritten m _ h (length-set m.step_3 255 _ ∙ h.size) (
      set-IsBytes m.step_3 255 _ h.bytes
        (byte_xor-lt _ _ (byte_xor-lt _ _ (at 255) (at w.pos1)) (at w.pos2)))

if-IsMix : (b : Bool) (m n : Mix) → IsMix m → IsMix n → IsMix (if b then m else n)
if-IsMix true m n hm hn = hm
if-IsMix false m n hm hn = hn

-- A loop over the window keeps what its body keeps.
pub over-IsMix :
    (w : Window) (body : ℕ → Mix → Mix)
    → ((i : ℕ) (m : Mix) → IsMix m → IsMix (body i m))
    → (m : Mix) → IsMix m
    → IsMix (over w body m)
over-IsMix w body keep m h =
    for_range_inv IsMix body 0 (w.pos1 + (w.pos2 - w.pos1)) (λ i m l hi. keep i m) (w.pos2 - w.pos1)
      w.pos1 m (omega arith) (omega arith) h

-- `step_3` is always a valid key, so the cases 254 and 255 do not panic.
pub rekey-IsMix : (m : Mix) → IsMix m → (m' : Mix) × (rekey m ≡ returned m') × IsMix m'
unfolding rekey
rekey-IsMix m h =
    let k = new_cipher-IsReady m.step_3 (omega (arith, h.size)) (omega (arith, h.size)) in
    (
      record m { rc4s = k.0 },
      rw k.1,
      record {
        size = h.size;
        bytes = h.bytes;
        ready = k.2;
        lhash_word = h.lhash_word;
        prev_word = h.prev_word;
      },
    )

module _ (prim : Primitives) (doc : Documented prim) where
  pub threshold_hashes-IsMix :
      (tries : ℕ) (w : Window) (m : Mix) → IsMix m → IsMix (threshold_hashes prim tries w m)
  unfolding threshold_hashes
  threshold_hashes-IsMix tries w m0 h0 =
      let xx : ℕ → List ℕ → ℕ = λ prev t. prim.xxhash t in
      let fnv : ℕ → List ℕ → ℕ = λ prev t. prim.fnv1a t in
      let sip : ℕ → List ℕ → ℕ = λ prev t. prim.siphash tries prev t in
      let m1 = if ltb (gap w m0) 0x10 then deviate xx w.pos2 m0 else m0 in
      let m2 = if ltb (gap w m1) 0x20 then deviate fnv w.pos2 m1 else m1 in
      let h1 =
        if-IsMix (ltb (gap w m0) 0x10) _ m0
          (deviate-IsMix xx (λ p t. doc.xxhash-word t) w.pos2 m0 h0) h0 in
      let h2 =
        if-IsMix (ltb (gap w m1) 0x20) _ m1
          (deviate-IsMix fnv (λ p t. doc.fnv1a-word t) w.pos2 m1 h1) h1 in
      if-IsMix (ltb (gap w m2) 0x30) _ m2
        (deviate-IsMix sip (λ p t. doc.siphash-word tries p t) w.pos2 m2 h2) h2

  -- Every case of the switch returns, and keeps the state well formed.
  pub switch_case-IsMix :
      (op : ℕ) (w : Window) (m : Mix)
      → op < 256
      → IsMix m
      → (m' : Mix) × (switch_case prim op w m ≡ returned m') × IsMix m'
  unfolding switch_case
  switch_case-IsMix op w m hop h = elim (Bool-cases (op == 0)) [
    | inl e ↦
        rw e
          (_, refl, over-IsMix w _ (λ i m h. reverse_swap-IsMix w.pos1 w.pos2 _ (plain i m h)) m h)
    | inr e ↦ rw e (elim (Bool-cases (op == 253)) [
      | inl e' ↦ rw e' (
        _,
        refl,
        over-IsMix w _ (λ i m h. deviate-IsMix _ (λ p t. doc.xxhash-word t) w.pos2 _ (plain i m h))
            m h,
      )
      | inr e' ↦ rw e' (elim (Bool-cases (op == 254 || op == 255)) [
        | inl e'' ↦ rw e'' (
            let k = rekey-IsMix m h in
            (over w (update_byte (case_byte op) w.pos2) k.0, rw k.1, over-IsMix w _ plain k.0 k.2))
        | inr e'' ↦ rw e'' (_, refl, over-IsMix w _ plain m h)
      ])
    ])
  ]
    where
      plain : (i : ℕ) (m : Mix) → IsMix m → IsMix (update_byte (case_byte op) w.pos2 i m)
      plain i m h = update_byte-IsMix op hop w.pos2 i m h

  pub prologue-IsMix : (input : List ℕ) → (m : Mix) × (prologue prim input ≡ returned m) × IsMix m
  unfolding prologue
  prologue-IsMix input =
      let zeros : List ℕ = replicate 256 0 in
      let counter : List ℕ = replicate 16 0 in
      let key = prim.sha256 input in
      let salted = prim.salsa zeros counter key in
      let size : length salted ≡ 256 = doc.salsa-size zeros counter key in
      let k = new_cipher-IsReady salted (omega (arith, size)) (omega (arith, size)) in
      let out = xor_key_stream k.0 salted in
      let bytes = doc.salsa-bytes zeros counter key in
      let lhash = prim.fnv1a out.0 in
      (
        record { step_3 = out.0; rc4s = out.1; lhash = lhash; prev_lhash = lhash },
        rw k.1,
        record {
          size = length-xor_key_stream k.0 salted ∙ size;
          bytes = xor_key_stream-IsBytes k.0 salted bytes;
          ready = xor_key_stream-IsReady k.0 salted k.2;
          lhash_word = doc.fnv1a-word out.0;
          prev_word = doc.fnv1a-word out.0;
        },
      )
