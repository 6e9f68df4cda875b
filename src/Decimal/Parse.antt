-- ===== src/Decimal/Parse.antt =====
-- `std::stoi` of the standard library, by which src/main_server.cpp and src/main_client.cpp read
-- numbers: blanks, a sign, and as many digits as there are; what follows them is ignored.
use hpe_distributed_key_valu.Prelude.{
  ℕ, zero, suc, ◌+◌, ◌-◌, ◌*◌, ◌%◌, ◌^◌, Bool, false, ◌&&◌, ◌||◌, [], ◌∷◌, leb, ltb, ◌==◌,
  if◌then◌else◌, Text, ℤ, pos, negsuc,
}

pub data Number : Type 0 where
  number : ℤ → Number
  invalid_argument out_of_range : Number

-- `isspace` in the C locale.
abbrev pub is_space : ℕ → Bool
is_space c = c == 32 || (leb 9 c && leb c 13)

abbrev pub is_digit : ℕ → Bool
is_digit c = leb 48 c && leb c 57

unfoldable pub skip_spaces : Text → Text
skip_spaces [] = []
skip_spaces (c ∷ s) = let rest = skip_spaces s in if is_space c then rest else c ∷ s

unfoldable pub digits_value : ℕ → Text → ℕ
digits_value n [] = n
digits_value n (c ∷ s) =
    let more = digits_value (n * 10 + (c - 48)) s in if is_digit c then more else n

abbrev pub starts_digit : Text → Bool
starts_digit [] = false
starts_digit (c ∷ s) = is_digit c

-- An `int` has 32 bits.
abbrev pub negated : ℕ → Number
negated zero = number (pos 0)
negated (suc n) = if ltb n (2 ^ 31) then number (negsuc n) else out_of_range

abbrev pub positive_int : Text → Number
positive_int s =
    if starts_digit s
    then (let n = digits_value 0 s in if ltb n (2 ^ 31) then number (pos n) else out_of_range)
    else invalid_argument

abbrev pub negative_int : Text → Number
negative_int s = if starts_digit s then negated (digits_value 0 s) else invalid_argument

abbrev pub signed_int : Text → Number
signed_int [] = invalid_argument
signed_int (c ∷ s) =
    if c == b'-' then negative_int s else if c == b'+' then positive_int s else positive_int (c ∷ s)

unfoldable pub stoi : Text → Number
stoi s = signed_int (skip_spaces s)

-- `stream >> n` for a `uint32_t`: 0 where there is no number, the greatest value where it is too
-- great, and a number behind a minus sign is negated modulo 2^32.
abbrev pub word_or_max : ℕ → ℕ
word_or_max n = if ltb n (2 ^ 32) then n else 2 ^ 32 - 1

abbrev pub negative_word : ℕ → ℕ
negative_word n = if ltb n (2 ^ 32) then (2 ^ 32 - n) % 2 ^ 32 else 2 ^ 32 - 1

abbrev pub positive_u32 : Text → ℕ
positive_u32 s = if starts_digit s then word_or_max (digits_value 0 s) else 0

abbrev pub negative_u32 : Text → ℕ
negative_u32 s = if starts_digit s then negative_word (digits_value 0 s) else 0

abbrev pub signed_u32 : Text → ℕ
signed_u32 [] = 0
signed_u32 (c ∷ s) =
    if c == b'-' then negative_u32 s else if c == b'+' then positive_u32 s else positive_u32 (c ∷ s)

unfoldable pub read_u32 : Text → ℕ
read_u32 s = signed_u32 (skip_spaces s)
