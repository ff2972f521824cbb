-- ===== src/Base/Xor.antt =====
-- Laws of the native exclusive or, from its digits.
use Prim.Native.Nat.{
  ℕ, zero, suc, ◌+◌, ◌-◌, ◌*◌, ◌/◌, ◌%◌, ◌^◌, ◌≤◌, ◌<◌, bit_xor, digits, differ, bit_xor-bitwise,
}
use mathlib.Core.Path.{◌≡◌, refl, ap, sym, ◌∙◌, subst}
use native.Mathlib.Omega.{arith}
use native.Mathlib.Nat.{pow-suc}

abbrev rounds : ℕ → ℕ → ℕ → ℕ
rounds = digits (λ rest. rest) differ

rounds-zero : (spare b : ℕ) → rounds spare zero b ≡ b
rounds-zero zero b = refl
rounds-zero (suc spare) b = refl

-- Rounds beyond the digits of the first number change nothing.
rounds_spare : (spare a n b : ℕ) → a ≤ n → rounds (n + spare) a b ≡ rounds n a b
rounds_spare spare zero n b small = rounds-zero (n + spare) b ∙ sym (rounds-zero n b)
rounds_spare spare (suc a) zero b small = absurd (omega arith)
rounds_spare spare (suc a) (suc n) b small =
    let one_more : suc n + spare ≡ suc (n + spare) = omega arith in
    ap (λ k. rounds k (suc a) b) one_more
    ∙ ap (λ high. high * 2 + differ (suc a % 2) (b % 2))
        (rounds_spare spare (suc a / 2) n (b / 2) (omega arith))

pub zero-bit_xor : (b : ℕ) → bit_xor 0 b ≡ b
zero-bit_xor b = bit_xor-bitwise 0 b

half_rounds : (a b : ℕ) → rounds a (suc a / 2) (b / 2) ≡ rounds (suc a / 2) (suc a / 2) (b / 2)
half_rounds a b =
    subst (λ n. rounds n (suc a / 2) (b / 2) ≡ rounds (suc a / 2) (suc a / 2) (b / 2)) (omega arith)
      (rounds_spare (a - suc a / 2) (suc a / 2) (suc a / 2) (b / 2) (omega arith))

-- The lowest digit and the rest, each on its own.
pub bit_xor_step : (a b : ℕ) → bit_xor a b ≡ bit_xor (a / 2) (b / 2) * 2 + differ (a % 2) (b % 2)
bit_xor_step zero b = omega (arith, zero-bit_xor b, zero-bit_xor (b / 2))
bit_xor_step (suc a) b =
    omega (arith, bit_xor-bitwise (suc a) b, bit_xor-bitwise (suc a / 2) (b / 2), half_rounds a b)

differ-lt : (x y : ℕ) → x < 2 → y < 2 → differ x y < 2
differ-lt zero y h k = k
differ-lt (suc x) zero h k = h
differ-lt (suc zero) (suc y) h k = omega arith
differ-lt (suc (suc x)) (suc y) h k = absurd (omega arith)

differ_cancel : (x y : ℕ) → x < 2 → y < 2 → differ (differ x y) y ≡ x
differ_cancel zero zero h k = refl
differ_cancel zero (suc zero) h k = refl
differ_cancel zero (suc (suc y)) h k = absurd (omega arith)
differ_cancel (suc x) zero h k = refl
differ_cancel (suc zero) (suc zero) h k = refl
differ_cancel (suc zero) (suc (suc y)) h k = absurd (omega arith)
differ_cancel (suc (suc x)) (suc y) h k = absurd (omega arith)

pub half-bit_xor : (a b : ℕ) → bit_xor a b / 2 ≡ bit_xor (a / 2) (b / 2)
half-bit_xor a b =
    omega (arith, bit_xor_step a b, differ-lt (a % 2) (b % 2) (omega arith) (omega arith))

low-bit_xor : (a b : ℕ) → bit_xor a b % 2 ≡ differ (a % 2) (b % 2)
low-bit_xor a b =
    omega (arith, bit_xor_step a b, differ-lt (a % 2) (b % 2) (omega arith) (omega arith))

cancel_fuel : (n a b : ℕ) → a ≤ n → b ≤ n → bit_xor (bit_xor a b) b ≡ a
cancel_fuel zero zero zero h k = refl
cancel_fuel zero (suc a) b h k = absurd (omega arith)
cancel_fuel zero zero (suc b) h k = absurd (omega arith)
cancel_fuel (suc n) a b h k =
    rw (bit_xor_step (bit_xor a b) b, half-bit_xor a b, low-bit_xor a b)
      (omega (
        arith,
        cancel_fuel n (a / 2) (b / 2) (omega arith) (omega arith),
        differ_cancel (a % 2) (b % 2) (omega arith) (omega arith),
      ))

-- A second xor with the same number undoes the first.
pub bit_xor_cancel : (a b : ℕ) → bit_xor (bit_xor a b) b ≡ a
bit_xor_cancel a b = cancel_fuel (a + b) a b (omega arith) (omega arith)

-- The width of the arguments bounds the result.
pub bit_xor-lt : (k a b : ℕ) → a < 2 ^ k → b < 2 ^ k → bit_xor a b < 2 ^ k
bit_xor-lt zero zero zero h g = omega arith
bit_xor-lt zero (suc a) b h g = absurd (omega arith)
bit_xor-lt zero zero (suc b) h g = absurd (omega arith)
bit_xor-lt (suc k) a b h g = omega (
  arith,
  pow-suc 2 k,
  bit_xor_step a b,
  differ-lt (a % 2) (b % 2) (omega arith) (omega arith),
  bit_xor-lt k (a / 2) (b / 2) (omega (arith, pow-suc 2 k)) (omega (arith, pow-suc 2 k)),
)

-- The lowest `k` digits.
low : ℕ → ℕ → ℕ
low zero a = 0
low (suc k) a = low k (a / 2) * 2 + a % 2

half_joined : (x y : ℕ) → (x * 2 + y % 2) / 2 ≡ x
half_joined x y = omega arith

low_joined : (x y : ℕ) → (x * 2 + y % 2) % 2 ≡ y % 2
low_joined x y = omega arith

bit_xor-low : (k a b : ℕ) → bit_xor (low k a) (low k b) ≡ low k (bit_xor a b)
unfolding low
bit_xor-low zero a b = refl
bit_xor-low (suc k) a b =
    rw
      (
        bit_xor_step (low k (a / 2) * 2 + a % 2) (low k (b / 2) * 2 + b % 2),
        half_joined (low k (a / 2)) a,
        half_joined (low k (b / 2)) b,
        low_joined (low k (a / 2)) a,
        low_joined (low k (b / 2)) b,
        half-bit_xor a b,
        low-bit_xor a b,
        bit_xor-low k (a / 2) (b / 2),
      )
      refl

low-mod : (a : ℕ) → low 8 a ≡ a % 256
unfolding low
low-mod a = omega arith

-- The lowest octet and the rest, each on its own.
pub mod-bit_xor : (a b : ℕ) → bit_xor a b % 256 ≡ bit_xor (a % 256) (b % 256)
mod-bit_xor a b =
    sym (low-mod (bit_xor a b))
    ∙ sym (bit_xor-low 8 a b)
    ∙ ap (λ x. bit_xor x (low 8 b)) (low-mod a)
    ∙ ap (λ y. bit_xor (a % 256) y) (low-mod b)

halves : ℕ → ℕ → ℕ
halves zero a = a
halves (suc k) a = halves k (a / 2)

bit_xor-halves : (k a b : ℕ) → halves k (bit_xor a b) ≡ bit_xor (halves k a) (halves k b)
unfolding halves
bit_xor-halves zero a b = refl
bit_xor-halves (suc k) a b = ap (halves k) (half-bit_xor a b) ∙ bit_xor-halves k (a / 2) (b / 2)

halves-div : (a : ℕ) → halves 8 a ≡ a / 256
unfolding halves
halves-div a = omega arith

pub div-bit_xor : (a b : ℕ) → bit_xor a b / 256 ≡ bit_xor (a / 256) (b / 256)
div-bit_xor a b =
    sym (halves-div (bit_xor a b))
    ∙ bit_xor-halves 8 a b
    ∙ ap (λ x. bit_xor x (halves 8 b)) (halves-div a)
    ∙ ap (λ y. bit_xor (a / 256) y) (halves-div b)
