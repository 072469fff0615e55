-- ===== src/Prelude/Bits.antt =====
-- `^` on bytes: the laws of the native `bit_xor`, from the recursion on binary digits it stands for.
use Prim.Native.Nat.{
  ℕ, zero, suc, ◌+◌, ◌*◌, ◌/◌, ◌%◌, ◌^◌, ◌≤◌, ◌<◌, bit_xor, digits, differ, bit_xor-bitwise,
}
use mathlib.Core.Path.{◌≡◌, refl, sym, ap, ◌∙◌}
use native.Mathlib.Nat.{pow-suc, div-div-eq-div-mul, div-one}
use native.Mathlib.Omega.{arith}

abbrev xor_digits : ℕ → ℕ → ℕ → ℕ
xor_digits n a b = digits (λ y. y) differ n a b

-- The fuel that `digits` takes does not matter, once there is enough.
xor_digits_fuel : (n m a b : ℕ) → a ≤ n → a ≤ m → xor_digits n a b ≡ xor_digits m a b
xor_digits_fuel zero zero a b p q = refl
xor_digits_fuel zero (suc m) zero b p q = refl
xor_digits_fuel zero (suc m) (suc a) b p q = absurd (omega arith)
xor_digits_fuel (suc n) zero zero b p q = refl
xor_digits_fuel (suc n) zero (suc a) b p q = absurd (omega arith)
xor_digits_fuel (suc n) (suc m) zero b p q = refl
xor_digits_fuel (suc n) (suc m) (suc a) b p q =
    omega (arith, xor_digits_fuel n m (suc a / 2) (b / 2) (omega arith) (omega arith))

differ-parity : (x y : ℕ) → x < 2 → y < 2 → differ x y ≡ (x + y) % 2
differ-parity zero y p q = omega arith
differ-parity (suc zero) zero p q = refl
differ-parity (suc zero) (suc zero) p q = refl
differ-parity (suc zero) (suc (suc y)) p q = absurd (omega arith)
differ-parity (suc (suc x)) y p q = absurd (omega arith)

pub zero-bit_xor : (b : ℕ) → bit_xor 0 b ≡ b
zero-bit_xor b = bit_xor-bitwise 0 b

-- The lowest digit of the result is the parity of the sum.
pub bit_xor_step : (a b : ℕ) → bit_xor a b ≡ bit_xor (a / 2) (b / 2) * 2 + (a + b) % 2
bit_xor_step zero b = omega (arith, zero-bit_xor b, zero-bit_xor (b / 2))
bit_xor_step (suc a) b = omega (
  arith,
  bit_xor-bitwise (suc a) b,
  bit_xor-bitwise (suc a / 2) (b / 2),
  xor_digits_fuel a (suc a / 2) (suc a / 2) (b / 2) (omega arith) (omega arith),
  differ-parity (suc a % 2) (b % 2) (omega arith) (omega arith),
)

pub half-shift : (n x : ℕ) → x / 2 ^ n / 2 ≡ x / 2 ^ suc n
half-shift n x = div-div-eq-div-mul x (2 ^ n) 2 ∙ ap (λ (t : ℕ). x / t) (sym (pow-suc 2 n))

half-bit_xor : (a b : ℕ) → bit_xor a b / 2 ≡ bit_xor (a / 2) (b / 2)
half-bit_xor a b = omega (arith, bit_xor_step a b)

-- Shifting both arguments down by the same number of digits.
pub bit_xor-shift : (k a b : ℕ) → bit_xor a b / 2 ^ k ≡ bit_xor (a / 2 ^ k) (b / 2 ^ k)
bit_xor-shift zero a b = simp (div-one)
bit_xor-shift (suc k) a b =
    sym (half-shift k (bit_xor a b))
    ∙ ap (λ (t : ℕ). t / 2) (bit_xor-shift k a b)
    ∙ half-bit_xor (a / 2 ^ k) (b / 2 ^ k)
    ∙ cc (half-shift k a, half-shift k b)

parity-bit_xor : (a b : ℕ) → bit_xor a b % 2 ≡ (a + b) % 2
parity-bit_xor a b = omega (arith, bit_xor_step a b)

pub half-lt-pow : (k a : ℕ) → a < 2 ^ suc k → a / 2 < 2 ^ k
half-lt-pow k a h = omega (arith, pow-suc 2 k)

-- The laws for numbers of `k` binary digits, by induction on `k`.
pub bit_xor-lt : (k a b : ℕ) → a < 2 ^ k → b < 2 ^ k → bit_xor a b < 2 ^ k
bit_xor-lt zero zero zero p q = omega (arith, zero-bit_xor 0)
bit_xor-lt zero zero (suc b) p q = absurd (omega arith)
bit_xor-lt zero (suc a) b p q = absurd (omega arith)
bit_xor-lt (suc k) a b p q = omega (
  arith,
  bit_xor_step a b,
  pow-suc 2 k,
  bit_xor-lt k (a / 2) (b / 2) (half-lt-pow k a p) (half-lt-pow k b q),
)

pub bit_xor_self : (k a : ℕ) → a < 2 ^ k → bit_xor a a ≡ 0
bit_xor_self zero zero p = zero-bit_xor 0
bit_xor_self zero (suc a) p = absurd (omega arith)
bit_xor_self (suc k) a p =
    omega (arith, bit_xor_step a a, bit_xor_self k (a / 2) (half-lt-pow k a p))

pub bit_xor_comm : (k a b : ℕ) → a < 2 ^ k → b < 2 ^ k → bit_xor a b ≡ bit_xor b a
bit_xor_comm zero zero zero p q = refl
bit_xor_comm zero zero (suc b) p q = absurd (omega arith)
bit_xor_comm zero (suc a) b p q = absurd (omega arith)
bit_xor_comm (suc k) a b p q = omega (
  arith,
  bit_xor_step a b,
  bit_xor_step b a,
  bit_xor_comm k (a / 2) (b / 2) (half-lt-pow k a p) (half-lt-pow k b q),
)

pub eq_of_bit_xor-eq-zero : (k a b : ℕ) → a < 2 ^ k → b < 2 ^ k → bit_xor a b ≡ 0 → a ≡ b
eq_of_bit_xor-eq-zero zero zero zero p q h = refl
eq_of_bit_xor-eq-zero zero zero (suc b) p q h = absurd (omega arith)
eq_of_bit_xor-eq-zero zero (suc a) b p q h = absurd (omega arith)
eq_of_bit_xor-eq-zero (suc k) a b p q h =
    let halves : a / 2 ≡ b / 2 =
      eq_of_bit_xor-eq-zero k (a / 2) (b / 2) (half-lt-pow k a p) (half-lt-pow k b q)
        (omega (arith, bit_xor_step a b)) in
    omega (arith, bit_xor_step a b)

pub bit_xor_assoc :
    (k a b c : ℕ)
    → a < 2 ^ k
    → b < 2 ^ k
    → c < 2 ^ k
    → bit_xor (bit_xor a b) c ≡ bit_xor a (bit_xor b c)
bit_xor_assoc zero zero zero zero p q r = refl
bit_xor_assoc zero (suc a) b c p q r = absurd (omega arith)
bit_xor_assoc zero zero (suc b) c p q r = absurd (omega arith)
bit_xor_assoc zero zero zero (suc c) p q r = absurd (omega arith)
bit_xor_assoc (suc k) a b c p q r =
    let ih : bit_xor (bit_xor (a / 2) (b / 2)) (c / 2) ≡ bit_xor (a / 2) (bit_xor (b / 2) (c / 2)) =
      bit_xor_assoc k (a / 2) (b / 2) (c / 2) (half-lt-pow k a p) (half-lt-pow k b q)
        (half-lt-pow k c r) in
    ground (
      arith,
      ih,
      bit_xor_step (bit_xor a b) c,
      bit_xor_step a (bit_xor b c),
      half-bit_xor a b,
      half-bit_xor b c,
      parity-bit_xor a b,
      parity-bit_xor b c,
    )
