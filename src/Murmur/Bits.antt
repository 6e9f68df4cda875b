-- ===== src/Murmur/Bits.antt =====
-- Exclusive or and products of words, as src/MurmurHash3.cpp uses them.
use Prim.Native.Nat.{bit_xor, digits, differ, bit_xor-bitwise}
use native.Mathlib.Nat.{
  mod-eq_of_lt, mod-add-div', add-mul-mod_self_right, div-div-eq-div-mul, pow-succ', two-pow-succ,
  div-one,
}
use hpe_distributed_key_valu.Prelude.{
  ℕ, zero, suc, ◌+◌, ◌*◌, ◌/◌, ◌%◌, ◌^◌, ◌≤◌, ◌<◌, ◌≡◌, refl, sym, ap, ◌∙◌, arith,
}

abbrev xor_digits : ℕ → ℕ → ℕ → ℕ
xor_digits n a b = digits (λ y. y) differ n a b

-- More digits than the first number has make no difference.
xor_enough : (n m a b : ℕ) → a ≤ n → a ≤ m → xor_digits n a b ≡ xor_digits m a b
xor_enough zero zero a b p q = refl
xor_enough zero (suc m) zero b p q = refl
xor_enough zero (suc m) (suc a) b p q = absurd (omega arith)
xor_enough (suc n) zero zero b p q = refl
xor_enough (suc n) zero (suc a) b p q = absurd (omega arith)
xor_enough (suc n) (suc m) zero b p q = refl
xor_enough (suc n) (suc m) (suc a) b p q =
    omega (arith, xor_enough n m (suc a / 2) (b / 2) (omega arith) (omega arith))

zero-xor : (b : ℕ) → bit_xor 0 b ≡ b
zero-xor b = bit_xor-bitwise 0 b

xor_digit : (a b : ℕ) → bit_xor a b ≡ bit_xor (a / 2) (b / 2) * 2 + differ (a % 2) (b % 2)
xor_digit zero b = omega (arith, zero-xor b, zero-xor (b / 2))
xor_digit (suc a) b = omega (
  arith,
  bit_xor-bitwise (suc a) b,
  bit_xor-bitwise (suc a / 2) (b / 2),
  xor_enough a (suc a / 2) (suc a / 2) (b / 2) (omega arith) (omega arith),
)

-- Digits.
differ-lt : (x y : ℕ) → x < 2 → y < 2 → differ x y < 2
differ-lt zero y p q = q
differ-lt (suc zero) zero p q = omega arith
differ-lt (suc zero) (suc y) p q = omega arith
differ-lt (suc (suc x)) y p q = absurd (omega arith)

differ_back : (x y : ℕ) → x < 2 → y < 2 → differ (differ x y) y ≡ x
differ_back zero zero p q = refl
differ_back zero (suc zero) p q = refl
differ_back (suc zero) zero p q = refl
differ_back (suc zero) (suc zero) p q = refl
differ_back zero (suc (suc y)) p q = absurd (omega arith)
differ_back (suc zero) (suc (suc y)) p q = absurd (omega arith)
differ_back (suc (suc x)) y p q = absurd (omega arith)

differ_assoc : (x y z : ℕ) → x < 2 → y < 2 → z < 2 → differ (differ x y) z ≡ differ x (differ y z)
differ_assoc zero y z p q r = refl
differ_assoc (suc zero) zero z p q r = refl
differ_assoc (suc zero) (suc zero) zero p q r = refl
differ_assoc (suc zero) (suc zero) (suc zero) p q r = refl
differ_assoc (suc zero) (suc zero) (suc (suc z)) p q r = absurd (omega arith)
differ_assoc (suc zero) (suc (suc y)) z p q r = absurd (omega arith)
differ_assoc (suc (suc x)) y z p q r = absurd (omega arith)

low : (a : ℕ) → a % 2 < 2
low a = omega arith

xor_half : (a b : ℕ) → bit_xor a b / 2 ≡ bit_xor (a / 2) (b / 2)
xor_half a b = omega (arith, xor_digit a b, differ-lt (a % 2) (b % 2) (low a) (low b))

xor_low : (a b : ℕ) → bit_xor a b % 2 ≡ differ (a % 2) (b % 2)
xor_low a b = omega (arith, xor_digit a b, differ-lt (a % 2) (b % 2) (low a) (low b))

xor_back_enough : (n a b : ℕ) → a ≤ n → b ≤ n → bit_xor (bit_xor a b) b ≡ a
xor_back_enough zero zero zero p q = refl
xor_back_enough zero (suc a) b p q = absurd (omega arith)
xor_back_enough zero zero (suc b) p q = absurd (omega arith)
xor_back_enough (suc n) a b p q = omega (
  arith,
  xor_digit (bit_xor a b) b,
  ap (λ (t : ℕ). bit_xor t (b / 2)) (xor_half a b),
  ap (λ (t : ℕ). differ t (b % 2)) (xor_low a b),
  differ_back (a % 2) (b % 2) (low a) (low b),
  xor_back_enough n (a / 2) (b / 2) (omega arith) (omega arith),
)

pub xor_back : (a b : ℕ) → bit_xor (bit_xor a b) b ≡ a
xor_back a b = xor_back_enough (a + b) a b (omega arith) (omega arith)

xor_assoc_enough :
    (n a b c : ℕ) → a ≤ n → b ≤ n → c ≤ n → bit_xor (bit_xor a b) c ≡ bit_xor a (bit_xor b c)
xor_assoc_enough zero zero b c p q r =
    omega (arith, zero-xor b, zero-xor (bit_xor b c), ap (λ (t : ℕ). bit_xor t c) (zero-xor b))
xor_assoc_enough zero (suc a) b c p q r = absurd (omega arith)
xor_assoc_enough (suc n) a b c p q r = omega (
  arith,
  xor_digit (bit_xor a b) c,
  xor_digit a (bit_xor b c),
  ap (λ (t : ℕ). bit_xor t (c / 2)) (xor_half a b),
  ap (λ (t : ℕ). bit_xor (a / 2) t) (xor_half b c),
  ap (λ (t : ℕ). differ t (c % 2)) (xor_low a b),
  ap (λ (t : ℕ). differ (a % 2) t) (xor_low b c),
  differ_assoc (a % 2) (b % 2) (c % 2) (low a) (low b) (low c),
  xor_assoc_enough n (a / 2) (b / 2) (c / 2) (omega arith) (omega arith) (omega arith),
)

pub xor_assoc : (a b c : ℕ) → bit_xor (bit_xor a b) c ≡ bit_xor a (bit_xor b c)
xor_assoc a b c = xor_assoc_enough (a + b + c) a b c (omega arith) (omega arith) (omega arith)

xor_self : (a : ℕ) → bit_xor a a ≡ 0
xor_self a = sym (ap (λ (t : ℕ). bit_xor t a) (zero-xor a)) ∙ xor_back 0 a

pub xor_zero : (a : ℕ) → bit_xor a 0 ≡ a
xor_zero a = sym (ap (λ (t : ℕ). bit_xor a t) (xor_self a)) ∙ (sym (xor_assoc a a a) ∙ xor_back a a)

-- A word shifted by one place more.
shift_more : (n s : ℕ) → n / 2 ^ suc s ≡ n / 2 / 2 ^ s
shift_more n s = ap (λ (t : ℕ). n / t) (pow-succ' 2 s) ∙ sym (div-div-eq-div-mul n 2 (2 ^ s))

pub xor_shifted : (s a b : ℕ) → bit_xor a b / 2 ^ s ≡ bit_xor (a / 2 ^ s) (b / 2 ^ s)
xor_shifted zero a b = rw (div-one a, div-one b, div-one (bit_xor a b)) refl
xor_shifted (suc s) a b =
    shift_more (bit_xor a b) s
    ∙ (ap (λ (t : ℕ). t / 2 ^ s) (xor_half a b)
        ∙ (xor_shifted s (a / 2) (b / 2)
            ∙ (sym (ap (λ (t : ℕ). bit_xor t (b / 2 / 2 ^ s)) (shift_more a s))
                ∙ sym (ap (λ (t : ℕ). bit_xor (a / 2 ^ suc s) t) (shift_more b s)))))

-- Words stay words.
pub xor-lt : (w a b : ℕ) → a < 2 ^ w → b < 2 ^ w → bit_xor a b < 2 ^ w
xor-lt zero zero zero p q = omega arith
xor-lt zero (suc a) b p q = absurd (omega arith)
xor-lt zero zero (suc b) p q = absurd (omega arith)
xor-lt (suc w) a b p q = omega (
  arith,
  two-pow-succ w,
  xor_digit a b,
  differ-lt (a % 2) (b % 2) (low a) (low b),
  xor-lt w (a / 2) (b / 2) (omega (arith, two-pow-succ w)) (omega (arith, two-pow-succ w)),
)

pub mul_inverse : (h c d m : ℕ) → c * d % m ≡ 1 → h < m → h * c % m * d % m ≡ h
mul_inverse h c d m one lt =
    sym (add-mul-mod_self_right (h * c % m * d) (h * c / m * d) m)
    ∙ (ap (λ (t : ℕ). t % m) expanded
        ∙ (add-mul-mod_self_right h (h * (c * d / m)) m ∙ mod-eq_of_lt lt))
  where
    expanded : h * c % m * d + h * c / m * d * m ≡ h + h * (c * d / m) * m
    expanded = omega (
      arith,
      ap (λ (t : ℕ). t * d) (mod-add-div' (h * c) m),
      ap (λ (t : ℕ). h * t) (mod-add-div' (c * d) m),
      ap (λ (t : ℕ). h * t) one,
    )
