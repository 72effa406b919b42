-- ===== src/Base/Bits.antt =====
-- Bit sets in machine words: the tests and updates that the port masks use.
use Prim.Native.Nat.{
  ℕ, zero, suc, ◌+◌, ◌*◌, ◌/◌, ◌%◌, ◌^◌, ◌≤◌, min, max, bit_and, bit_or, digits, bit_and-bitwise,
  bit_or-bitwise,
}
use mathlib.Core.Path.{◌≡◌, refl, sym, ◌∙◌}
use mathlib.Core.Bool.{Bool, false, not, ◌&&◌, ◌||◌}
use native.Mathlib.Nat.{pow-suc}
use native.Mathlib.Omega.{arith}
use dpdk_practice.Base.Tests.{◌==◌}

-- The operations go through the binary digits of the first operand; enough rounds give one result.
module _ (rest : ℕ → ℕ) (op : ℕ → ℕ → ℕ) where
  digits-done : (rounds b : ℕ) → digits rest op rounds 0 b ≡ rest b
  digits-done zero b = refl
  digits-done (suc rounds) b = refl

  digits-rounds :
      (r : ℕ) {s : ℕ} (x y : ℕ) → x ≤ r → x ≤ s → digits rest op r x y ≡ digits rest op s x y
  digits-rounds r {s = s} zero y hr hs = digits-done r y ∙ sym (digits-done s y)
  digits-rounds zero (suc x) y hr hs = absurd (omega arith)
  digits-rounds (suc r) {s = zero} (suc x) y hr hs = absurd (omega arith)
  digits-rounds (suc r) {s = suc s} (suc x) y hr hs =
      (let halves : suc x / 2 ≤ s = omega arith in
        omega (arith, digits-rounds r {s = s} (suc x / 2) (y / 2) (omega arith) halves))

no_bits-and : (y : ℕ) → bit_and 0 y ≡ 0
no_bits-and = bit_and-bitwise 0

no_bits-or : (y : ℕ) → bit_or 0 y ≡ y
no_bits-or = bit_or-bitwise 0

pub bit_and_step : (x y : ℕ) → bit_and x y ≡ 2 * bit_and (x / 2) (y / 2) + min (x % 2) (y % 2)
bit_and_step zero y = omega (arith, no_bits-and y, no_bits-and (y / 2))
bit_and_step (suc x) y =
    (let half = suc x / 2 in
      let tail =
        digits-rounds (λ z. zero) min x {s = half} half (y / 2) (omega arith) (omega arith) in
      omega (arith, tail, bit_and-bitwise half (y / 2), bit_and-bitwise (suc x) y))

pub bit_or_step : (x y : ℕ) → bit_or x y ≡ 2 * bit_or (x / 2) (y / 2) + max (x % 2) (y % 2)
bit_or_step zero y = omega (arith, no_bits-or y, no_bits-or (y / 2))
bit_or_step (suc x) y =
    (let half = suc x / 2 in
      let tail = digits-rounds (λ z. z) max x {s = half} half (y / 2) (omega arith) (omega arith) in
      omega (arith, tail, bit_or-bitwise half (y / 2), bit_or-bitwise (suc x) y))

bit_and-none : (bound x : ℕ) → x ≤ bound → bit_and x 0 ≡ 0
bit_and-none bound zero h = no_bits-and 0
bit_and-none zero (suc x) h = absurd (omega arith)
bit_and-none (suc bound) (suc x) h =
    (let tail = bit_and-none bound (suc x / 2) (omega arith) in
      omega (arith, tail, bit_and_step (suc x) 0))

pub bit_and-zero : (x : ℕ) → bit_and x 0 ≡ 0
bit_and-zero x = bit_and-none x x (omega arith)

-- The digit of weight 2 ^ p.
unfoldable pub test_bit : ℕ → ℕ → Bool
test_bit m zero = m % 2 == 1
test_bit m (suc p) = test_bit (m / 2) p

-- `(m & (1 << p)) != 0`
unfoldable pub has_bit : ℕ → ℕ → Bool
has_bit m p = not (bit_and m (2 ^ p) == 0)

pub has_bit-eq-test_bit : (m p : ℕ) → has_bit m p ≡ test_bit m p
unfolding has_bit test_bit
has_bit-eq-test_bit m zero = ground (arith, bit_and_step m 1, bit_and-zero (m / 2))
has_bit-eq-test_bit m (suc p) =
    ground (arith, bit_and_step m (2 ^ suc p), pow-suc 2 p, has_bit-eq-test_bit (m / 2) p)

pub test_bit-bit_or : (a b p : ℕ) → test_bit (bit_or a b) p ≡ (test_bit a p || test_bit b p)
unfolding test_bit
test_bit-bit_or a b zero = ground (arith, bit_or_step a b)
test_bit-bit_or a b (suc p) = rw (halved) (test_bit-bit_or (a / 2) (b / 2) p)
  where
    halved : bit_or a b / 2 ≡ bit_or (a / 2) (b / 2)
    halved = omega (arith, bit_or_step a b)

pub test_bit-bit_and : (a b p : ℕ) → test_bit (bit_and a b) p ≡ (test_bit a p && test_bit b p)
unfolding test_bit
test_bit-bit_and a b zero = ground (arith, bit_and_step a b)
test_bit-bit_and a b (suc p) = rw halved (test_bit-bit_and (a / 2) (b / 2) p)
  where
    halved : bit_and a b / 2 ≡ bit_and (a / 2) (b / 2)
    halved = omega (arith, bit_and_step a b)

pub test_bit-zero : (p : ℕ) → test_bit 0 p ≡ false
unfolding test_bit
test_bit-zero zero = refl
test_bit-zero (suc p) = test_bit-zero p

pub test_bit-pow : (q p : ℕ) → test_bit (2 ^ q) p ≡ (p == q)
unfolding test_bit
test_bit-pow zero zero = refl
test_bit-pow zero (suc p) = ground (arith, test_bit-zero p)
test_bit-pow (suc q) zero = ground (arith, pow-suc 2 q)
test_bit-pow (suc q) (suc p) = rw halved (ground (arith, test_bit-pow q p))
  where
    halved : 2 ^ suc q / 2 ≡ 2 ^ q
    halved = omega (arith, pow-suc 2 q)

pub test_bit-of_bit_and_zero :
    (a b p : ℕ) → bit_and a b ≡ 0 → (test_bit a p && test_bit b p) ≡ false
test_bit-of_bit_and_zero a b p h = sym (test_bit-bit_and a b p) ∙ rw h (test_bit-zero p)

-- Two sets of bits that meet nowhere have the conjunction 0.
pub bit_and-eq-zero :
    (n a b : ℕ) → a ≤ n → ((p : ℕ) → (test_bit a p && test_bit b p) ≡ false) → bit_and a b ≡ 0
unfolding test_bit
bit_and-eq-zero zero a b h k = ground (arith, no_bits-and b)
bit_and-eq-zero (suc n) zero b h k = no_bits-and b
bit_and-eq-zero (suc n) (suc a) b h k = ground (
  arith,
  k 0,
  bit_and_step (suc a) b,
  bit_and-eq-zero n (suc a / 2) (b / 2) (omega arith) (λ p. k (suc p)),
)
