-- ===== src/Decimal.antt =====
-- `std::to_string(int)` of the standard library, which the ring hashes: decimal digits in ASCII,
-- behind a minus sign for a negative number.
pub mod Parse
pub mod RoundTrip
use hpe_distributed_key_valu.Prelude.{
  ℕ, zero, suc, ◌+◌, ◌/◌, ◌%◌, [], ◌∷◌, ◌++◌, ltb, if◌then◌else◌, Text, ℤ, pos, negsuc,
}

-- The digits of `n`, most significant first. `n + 1` rounds are enough, since `n` falls each time.
digits_fuel : ℕ → ℕ → Text
digits_fuel zero n = []
digits_fuel (suc f) n =
    let high = digits_fuel f (n / 10) in
    if ltb n 10 then (48 + n) ∷ [] else high ++ (48 + n % 10) ∷ []

unfoldable pub to_string : ℤ → Text
unfolding digits_fuel
to_string (pos n) = digits_fuel (suc n) n
to_string (negsuc n) = b'-' ∷ digits_fuel (suc (suc n)) (suc n)
