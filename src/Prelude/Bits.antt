-- ===== src/Prelude/Bits.antt =====
-- Laws of the bit operations at variables: one equation for the lowest digit each, and from it
-- bounds and the cancellation law of xor.
use Prim.Native.Nat.{ℕ, zero, suc, ◌+◌, ◌-◌, ◌*◌, ◌/◌, ◌%◌, ◌^◌, ◌≤◌, ◌<◌, min, max}
use Prim.Native.Nat.{bit_and, bit_or, bit_xor, digits, bitwise, differ}
use Prim.Native.Nat.{bit_and-bitwise, bit_or-bitwise, bit_xor-bitwise}
use mathlib.Core.Logic.{◌⊎◌, inl, inr}
use mathlib.Core.Path.{◌≡◌, refl, sym, ap, ap₂, ◌∙◌}
use native.Mathlib.Nat.{pow-suc}
use native.Mathlib.Omega.{arith}

-- A digit recursion has the same result with one more unit of fuel, so with any more.
module _ (low : ℕ → ℕ) (op : ℕ → ℕ → ℕ) where
  digits-suc : (fuel x y : ℕ) → x ≤ fuel → digits low op (suc fuel) x y ≡ digits low op fuel x y
  digits-suc zero zero y h = refl
  digits-suc zero (suc x) y h = absurd (omega arith)
  digits-suc (suc fuel) zero y h = refl
  digits-suc (suc fuel) (suc x) y h = rw (digits-suc fuel (suc x / 2) (y / 2) (omega arith))

  digits-add : (extra x y : ℕ) → digits low op (x + extra) x y ≡ bitwise low op x y
  digits-add zero x y = let e : x + 0 ≡ x = omega arith in rw e refl
  digits-add (suc extra) x y =
      let e : x + suc extra ≡ suc (x + extra) = omega arith in
      rw e (digits-suc (x + extra) x y (omega arith) ∙ digits-add extra x y)

  -- The lowest digit of the result comes from the lowest digits.
  lowest_digit :
      (x y : ℕ)
      → bitwise low op (suc x) y ≡ bitwise low op (suc x / 2) (y / 2) * 2 + op (suc x % 2) (y % 2)
  lowest_digit x y =
      let half = suc x / 2 in
      let e : half + (x - half) ≡ x = omega arith in
      let rest = digits-add (x - half) half (y / 2) in
      ap (λ d. d * 2 + op (suc x % 2) (y % 2))
        (ap (λ fuel. digits low op fuel half (y / 2)) (sym e) ∙ rest)

pub bit_and_step : (x y : ℕ) → bit_and x y ≡ bit_and (x / 2) (y / 2) * 2 + min (x % 2) (y % 2)
bit_and_step zero y = simp bit_and-bitwise (omega arith)
bit_and_step (suc x) y = simp bit_and-bitwise (lowest_digit (λ d. 0) min x y)

pub bit_or_step : (x y : ℕ) → bit_or x y ≡ bit_or (x / 2) (y / 2) * 2 + max (x % 2) (y % 2)
bit_or_step zero y = simp bit_or-bitwise (omega arith)
bit_or_step (suc x) y = simp bit_or-bitwise (lowest_digit (λ d. d) max x y)

differ_bits : (x y : ℕ) → x < 2 → y < 2 → differ x y ≡ (x + y) % 2
differ_bits zero y p q = omega arith
differ_bits (suc zero) zero p q = refl
differ_bits (suc zero) (suc zero) p q = refl
differ_bits (suc zero) (suc (suc y)) p q = absurd (omega arith)
differ_bits (suc (suc x)) y p q = absurd (omega arith)

xor_digit : (a b : ℕ) → bit_xor a b ≡ bit_xor (a / 2) (b / 2) * 2 + differ (a % 2) (b % 2)
xor_digit zero b = simp bit_xor-bitwise (omega arith)
xor_digit (suc a) b = simp bit_xor-bitwise (lowest_digit (λ d. d) differ a b)

pub bit_xor_step : (a b : ℕ) → bit_xor a b ≡ bit_xor (a / 2) (b / 2) * 2 + (a % 2 + b % 2) % 2
bit_xor_step a b =
    omega (arith, xor_digit a b, differ_bits (a % 2) (b % 2) (omega arith) (omega arith))

-- A mask bounds the result of `&`.
pub bit_and-le : (k a b : ℕ) → a < 2 ^ k → bit_and a b ≤ b
bit_and-le zero a b h = let e : a ≡ 0 = omega arith in rw e (omega (arith, bit_and-bitwise 0 b))
bit_and-le (suc k) a b h = omega (
  arith,
  bit_and_step a b,
  pow-suc 2 k,
  bit_and-le k (a / 2) (b / 2) (omega (arith, pow-suc 2 k)),
)

-- `^` and `|` stay within the width of their arguments.
pub bit_xor-lt : (k a b : ℕ) → a < 2 ^ k → b < 2 ^ k → bit_xor a b < 2 ^ k
bit_xor-lt zero a b p q =
    let e : a ≡ 0 = omega arith in let e' : b ≡ 0 = omega arith in rw (e, e') (omega arith)
bit_xor-lt (suc k) a b p q = omega (
  arith,
  bit_xor_step a b,
  pow-suc 2 k,
  bit_xor-lt k (a / 2) (b / 2) (omega (arith, pow-suc 2 k)) (omega (arith, pow-suc 2 k)),
)

pub bit_or-lt : (k a b : ℕ) → a < 2 ^ k → b < 2 ^ k → bit_or a b < 2 ^ k
bit_or-lt zero a b p q =
    let e : a ≡ 0 = omega arith in let e' : b ≡ 0 = omega arith in rw (e, e') (omega arith)
bit_or-lt (suc k) a b p q = omega (
  arith,
  bit_or_step a b,
  pow-suc 2 k,
  bit_or-lt k (a / 2) (b / 2) (omega (arith, pow-suc 2 k)) (omega (arith, pow-suc 2 k)),
)

-- Xor with the same value twice gives the first value back.
pub bit_xor_cancel : (k a b : ℕ) → a < 2 ^ k → b < 2 ^ k → bit_xor (bit_xor a b) b ≡ a
bit_xor_cancel zero a b p q =
    let e : a ≡ 0 = omega arith in let e' : b ≡ 0 = omega arith in rw (e, e') refl
bit_xor_cancel (suc k) a b p q = ground (
  arith,
  bit_xor_step a b,
  bit_xor_step (bit_xor a b) b,
  pow-suc 2 k,
  halves,
  bit_xor_cancel k (a / 2) (b / 2) (omega (arith, pow-suc 2 k)) (omega (arith, pow-suc 2 k)),
)
  where
    halves : bit_xor a b / 2 ≡ bit_xor (a / 2) (b / 2)
    halves = omega (arith, bit_xor_step a b)

and_zero_below : (n x : ℕ) → x ≤ n → bit_and x 0 ≡ 0
and_zero_below zero x h = let e : x ≡ 0 = omega arith in rw e refl
and_zero_below (suc n) x h = elim (zero_or_half x) [
  | inl e ↦ rw e refl
  | inr lt ↦ omega (arith, bit_and_step x 0, and_zero_below n (x / 2) (omega arith))
]
  where
    zero_or_half : (x : ℕ) → (x ≡ 0) ⊎ (x / 2 < x)
    zero_or_half zero = inl refl
    zero_or_half (suc x) = inr (omega arith)

or_zero_below : (n x : ℕ) → x ≤ n → bit_or x 0 ≡ x
or_zero_below zero x h = let e : x ≡ 0 = omega arith in rw e refl
or_zero_below (suc n) zero h = refl
or_zero_below (suc n) (suc x) h =
    omega (arith, bit_or_step (suc x) 0, or_zero_below n (suc x / 2) (omega arith))

twice : (q p p' : ℕ) → p' ≡ p * 2 → q * p' ≡ 2 * (q * p)
twice q p p' e = ap (λ x. q * x) e ∙ grind arith

-- Masks and shifts of a number that is split at digit `k`.
pub bit_and_low : (k q r : ℕ) → r < 2 ^ k → bit_and (q * 2 ^ k + r) (2 ^ k - 1) ≡ r
bit_and_low zero q r h =
    let e : r ≡ 0 = omega arith in rw e (and_zero_below (q * 1 + 0) (q * 1 + 0) (omega arith))
bit_and_low (suc k) q r h =
    let p = pow-suc 2 k in
    let e = twice q _ _ p in
    let half : (q * 2 ^ suc k + r) / 2 ≡ q * 2 ^ k + r / 2 = omega (arith, e) in
    let mask : (2 ^ suc k - 1) / 2 ≡ 2 ^ k - 1 = omega (arith, p) in
    omega (
      arith,
      bit_and_step (q * 2 ^ suc k + r) (2 ^ suc k - 1),
      ap₂ bit_and half mask,
      bit_and_low k q (r / 2) (omega (arith, p)),
      e,
      p,
    )

pub bit_and_high :
    (k q r m : ℕ) → r < 2 ^ k → bit_and (q * 2 ^ k + r) (m * 2 ^ k) ≡ bit_and q m * 2 ^ k
bit_and_high zero q r m h =
    let e : q * 1 + r ≡ q = omega arith in
    let e' : m * 1 ≡ m = omega arith in rw (e, e') (omega arith)
bit_and_high (suc k) q r m h =
    let p = pow-suc 2 k in
    let e = twice q _ _ p in
    let e' = twice m _ _ p in
    let half : (q * 2 ^ suc k + r) / 2 ≡ q * 2 ^ k + r / 2 = omega (arith, e) in
    let half' : m * 2 ^ suc k / 2 ≡ m * 2 ^ k = omega (arith, e') in
    omega (
      arith,
      bit_and_step (q * 2 ^ suc k + r) (m * 2 ^ suc k),
      ap₂ bit_and half half',
      bit_and_high k q (r / 2) m (omega (arith, p)),
      twice (bit_and q m) _ _ p,
      e',
    )

pub bit_or_add : (k q r : ℕ) → r < 2 ^ k → bit_or (q * 2 ^ k) r ≡ q * 2 ^ k + r
bit_or_add zero q r h =
    let e : r ≡ 0 = omega arith in rw e (or_zero_below (q * 1) (q * 1) (omega arith) ∙ omega arith)
bit_or_add (suc k) q r h =
    let p = pow-suc 2 k in
    let e = twice q _ _ p in
    let half : q * 2 ^ suc k / 2 ≡ q * 2 ^ k = omega (arith, e) in
    omega (
      arith,
      bit_or_step (q * 2 ^ suc k) r,
      ap (λ x. bit_or x (r / 2)) half,
      bit_or_add k q (r / 2) (omega (arith, p)),
      e,
    )

pub bit_or_comm : (k a b : ℕ) → a < 2 ^ k → b < 2 ^ k → bit_or a b ≡ bit_or b a
bit_or_comm zero a b h h' =
    let e : a ≡ 0 = omega arith in let e' : b ≡ 0 = omega arith in rw (e, e') refl
bit_or_comm (suc k) a b h h' =
    let p = pow-suc 2 k in
    omega (
      arith,
      bit_or_step a b,
      bit_or_step b a,
      bit_or_comm k (a / 2) (b / 2) (omega (arith, p)) (omega (arith, p)),
    )
