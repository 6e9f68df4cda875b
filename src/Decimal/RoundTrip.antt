-- ===== src/Decimal/RoundTrip.antt =====
-- About `std::stoi` on the texts that `std::to_string` writes.
use mathlib.Core.List.{append_assoc, append-nil}
use hpe_distributed_key_valu.Prelude.{
  ℕ, zero, suc, ◌+◌, ◌*◌, ◌/◌, ◌%◌, ◌^◌, ◌<◌, ◌≡◌, refl, sym, ap, ◌∙◌, true, false, inl, inr, [],
  ◌∷◌, ◌++◌, ltb, ◌==◌, Text, ℤ, pos, negsuc, arith, Bool-cases, All, All-append, ltb→lt,
}
use hpe_distributed_key_valu.Decimal.{digits_fuel, to_string}
use hpe_distributed_key_valu.Decimal.Parse.{
  number, is_digit, is_space, skip_spaces, digits_value, starts_digit, positive_int, signed_int,
  stoi, signed_u32, positive_u32, read_u32,
}

digit-IsDigit : (n : ℕ) → n < 10 → is_digit (48 + n) ≡ true
digit-IsDigit n lt = ground arith

value_digit :
    (m n : ℕ) (rest : Text)
    → n < 10
    → digits_value m ((48 + n) ∷ rest) ≡ digits_value (m * 10 + n) rest
unfolding digits_value
value_digit m n rest lt = ground (arith)

lt→ltb : (m n : ℕ) → m < n → ltb m n ≡ true
lt→ltb m n h = ground arith

tenth_smaller : (n f : ℕ) → n < suc f → ltb n 10 ≡ false → n / 10 < f
tenth_smaller n f lt e = ground arith

starts_append : (s rest : Text) → starts_digit s ≡ true → starts_digit (s ++ rest) ≡ true
starts_append [] rest h = absurd (cc)
starts_append (c ∷ s) rest h = h

value-digits :
    (f n : ℕ) (rest : Text) → n < f → digits_value 0 (digits_fuel f n ++ rest) ≡ digits_value n rest
unfolding digits_fuel
value-digits zero n rest lt = absurd (omega arith)
value-digits (suc f) n rest lt = elim (Bool-cases (ltb n 10)) [
  | inl e ↦
      rw e
        (value_digit 0 n rest (ltb→lt n 10 e) ∙ ap (λ (t : ℕ). digits_value t rest) (omega arith))
  | inr e ↦ rw e (
      ap (digits_value 0) (append_assoc (digits_fuel f (n / 10)) ((48 + n % 10) ∷ []) rest)
      ∙ (value-digits f (n / 10) ((48 + n % 10) ∷ rest) (tenth_smaller n f lt e)
          ∙ (value_digit (n / 10) (n % 10) rest (omega arith)
              ∙ ap (λ (t : ℕ). digits_value t rest) (omega arith))))
]

-- The digits begin with a digit.
starts-digits : (f n : ℕ) → n < f → starts_digit (digits_fuel f n) ≡ true
unfolding digits_fuel
starts-digits zero n lt = absurd (omega arith)
starts-digits (suc f) n lt = elim (Bool-cases (ltb n 10)) [
  | inl e ↦ rw e (digit-IsDigit n (ltb→lt n 10 e))
  | inr e ↦ rw e (
      starts_append (digits_fuel f (n / 10)) ((48 + n % 10) ∷ [])
        (starts-digits f (n / 10) (tenth_smaller n f lt e)))
]

-- A text that starts with a digit.
digit_first :
    (s : Text) → starts_digit s ≡ true → (skip_spaces s ≡ s) × (signed_int s ≡ positive_int s)
unfolding skip_spaces
digit_first [] h = absurd (cc)
digit_first (c ∷ s) h = (ground (arith, h), ground (arith, h))

value_all : (f n : ℕ) → n < f → digits_value 0 (digits_fuel f n) ≡ n
unfolding digits_value
value_all f n lt = ap (digits_value 0) (sym (append-nil (digits_fuel f n))) ∙ value-digits f n [] lt

-- The values of an `int`; `negsuc n` is -(n + 1).
abbrev pub IsInt : ℤ → Type 0
IsInt (pos n) = n < 2 ^ 31
IsInt (negsuc n) = n < 2 ^ 31

positive_digits : (f n : ℕ) → n < f → n < 2 ^ 31 → positive_int (digits_fuel f n) ≡ number (pos n)
positive_digits f n lt small =
    rw (starts-digits f n lt, value_all f n lt, lt→ltb n (2 ^ 31) small) refl

-- `stoi` reads every `int` back from its decimal text, the negative ones included.
pub stoi-to_string : (z : ℤ) → IsInt z → stoi (to_string z) ≡ number z
unfolding stoi to_string skip_spaces
stoi-to_string (pos n) h =
    ap signed_int (digit_first (digits_fuel (suc n) n) (starts-digits (suc n) n (omega arith))).0
    ∙ ((digit_first (digits_fuel (suc n) n) (starts-digits (suc n) n (omega arith))).1
        ∙ positive_digits (suc n) n (omega arith) h)
stoi-to_string (negsuc n) h =
    rw
      (
        starts-digits (suc (suc n)) (suc n) (omega arith),
        value_all (suc (suc n)) (suc n) (omega arith),
        lt→ltb n (2 ^ 31) h,
      )
      refl

digit_first_u32 : (s : Text) → starts_digit s ≡ true → signed_u32 s ≡ positive_u32 s
digit_first_u32 [] h = absurd (cc)
digit_first_u32 (c ∷ s) h = ground (arith, h)

-- A stream reads every 32-bit word back from its decimal text.
pub read_u32-to_string : (n : ℕ) → n < 2 ^ 32 → read_u32 (to_string (pos n)) ≡ n
unfolding read_u32 to_string
read_u32-to_string n lt =
    let s = starts-digits (suc n) n (omega arith) in
    ap signed_u32 (digit_first (digits_fuel (suc n) n) s).0
    ∙ (digit_first_u32 (digits_fuel (suc n) n) s
        ∙ rw (s, value_all (suc n) n (omega arith), lt→ltb n (2 ^ 32) lt) refl)

digit-IsNoSpace : (n : ℕ) → n < 10 → is_space (48 + n) ≡ false
digit-IsNoSpace n lt = ground arith

first_of : (s : Text) → starts_digit s ≡ true → (c : ℕ) × (t : Text) × (s ≡ c ∷ t)
first_of [] h = absurd (cc)
first_of (c ∷ t) h = (c, t, refl)

-- What holds of the ten digits holds of all characters.
digits-All :
    (Q : ℕ → Type 0) → ((n : ℕ) → n < 10 → Q (48 + n)) → (f n : ℕ) → All Q (digits_fuel f n)
unfolding digits_fuel
digits-All Q h zero n = tt
digits-All Q h (suc f) n = elim (Bool-cases (ltb n 10)) [
  | inl e ↦ rw e (h n (ltb→lt n 10 e), tt)
  | inr e ↦ rw e (
      All-append Q (digits_fuel f (n / 10)) ((48 + n % 10) ∷ []) (digits-All Q h f (n / 10))
        (h (n % 10) (omega arith), tt))
]

-- The text of an `int` has no blank and is not empty.
pub to_string_unbroken :
    (z : ℤ)
    → All (λ c. is_space c ≡ false) (to_string z) × ((c : ℕ) × (s : Text) × (to_string z ≡ c ∷ s))
unfolding to_string
to_string_unbroken (pos n) = (
  digits-All (λ c. is_space c ≡ false) digit-IsNoSpace (suc n) n,
  first_of (digits_fuel (suc n) n) (starts-digits (suc n) n (omega arith)),
)
to_string_unbroken (negsuc n) = (
  (refl, digits-All (λ c. is_space c ≡ false) digit-IsNoSpace (suc (suc n)) (suc n)),
  (b'-', digits_fuel (suc (suc n)) (suc n), refl),
)

digit_no_colon : (n : ℕ) → n < 10 → ((48 + n) == b':') ≡ false
digit_no_colon n lt = ground arith

pub to_string_no_colon : (z : ℤ) → All (λ c. (c == b':') ≡ false) (to_string z)
unfolding to_string
to_string_no_colon (pos n) = digits-All (λ c. (c == b':') ≡ false) digit_no_colon (suc n) n
to_string_no_colon (negsuc n) =
    (refl, digits-All (λ c. (c == b':') ≡ false) digit_no_colon (suc (suc n)) (suc n))
